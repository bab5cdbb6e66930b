-- ===== src/Client/Responses.antt =====
-- The responses that `tensor_converter::get_infer_response` (tensor_converter.cpp) makes.
use tiny_inference_engine.Base.{
  ℕ, suc, ◌<◌, ◌≤◌, ◌≡◌, refl, ap, ◌∙◌, sym, none, List, [], ◌∷◌, ◌++◌, map, append-nil,
  append_assoc, arith,
}
use tiny_inference_engine.Base.Table.{find}
use tiny_inference_engine.Messages.{ModelInferResponse}
use tiny_inference_engine.Messages
use tiny_inference_engine.Client.DataType.{from_string}
use tiny_inference_engine.Client.Api.{
  Pointer, indeterminate, null_pointer, block, InferTensor, InferResponse, add_output_tensor,
  no_infer_response,
}
use tiny_inference_engine.Client.Memory.{Memory, bytes_at}
use tiny_inference_engine.Client.Contents.{Field, converted_as}
use tiny_inference_engine.Client.Writer.{done}
use tiny_inference_engine.Client.Reader.{
  Heap, described, read_output, read_outputs, get_infer_response,
}
use tiny_inference_engine.Client.Reads.{
  AllHeld, Dangling, AllDangling, Later, Dangling-Later, without_data, read_as-dangles,
}

read_outputs-dangles :
    (fuel : ℕ) (objects : ℕ → Field → List ℕ) (i : ℕ) (ts : List Messages.InferTensor) (h : Heap)
    (r : InferResponse)
    → 2 ≤ fuel
    → AllHeld objects i ts
    → (h' : Heap) × (xs : List InferTensor) × (read_outputs fuel objects i ts h r
        ≡ done (h', record r { output_tensors = r.output_tensors ++ xs }))
      × (map without_data xs ≡ map described ts)
      × Later h h'
      × AllDangling xs h'
unfolding read_outputs read_output add_output_tensor
read_outputs-dangles fuel objects i [] h r two ok = (
  h,
  [],
  ap (λ xs. done (h, record r { output_tensors = xs })) (sym (append-nil r.output_tensors)),
  refl,
  record { grows = omega arith; keeps = λ b lt. refl },
  tt,
)
read_outputs-dangles fuel objects i (t ∷ ts) h r two (ok, oks) =
    let (h1, x, e, same, l, d) =
      read_as-dangles fuel (converted_as (from_string t.datatype)) (objects i) t h two ok in
    let (h2, xs, e2, sames, l2, ds) =
      read_outputs-dangles fuel objects (suc i) ts h1 (add_output_tensor x r) two oks in
    (
      h2,
      x ∷ xs,
      rw (e, e2)
          (ap (λ ys. done (h2, record r { output_tensors = ys }))
            (append_assoc r.output_tensors (x ∷ []) xs)),
      cc,
      record {
        grows = omega (arith, l.grows, l2.grows);
        keeps = λ b lt. l2.keeps b (omega (arith, l.grows)) ∙ l.keeps b lt;
      },
      (Dangling-Later x.address l2 d, ds),
    )

-- No data can be read through the tensors.
abbrev pub AllUnreadable : Memory → List InferTensor → Type 0
AllUnreadable mem [] = Unit {0}
AllUnreadable mem (t ∷ ts) = (bytes_at mem t.address ≡ none) × AllUnreadable mem ts

Dangling-unreadable : (p : Pointer) (h : Heap) → Dangling p h → bytes_at h.blocks p ≡ none
unfolding bytes_at
Dangling-unreadable indeterminate h d = refl
Dangling-unreadable null_pointer h d = refl
Dangling-unreadable (block b) h (lt, gone) = gone

AllDangling-unreadable :
    (xs : List InferTensor) (h : Heap) → AllDangling xs h → AllUnreadable h.blocks xs
AllDangling-unreadable [] h d = tt
AllDangling-unreadable (x ∷ xs) h (d, ds) =
    (Dangling-unreadable x.address h d, AllDangling-unreadable xs h ds)

-- Where every copy stays within its container object, so that reading a response is defined (two rounds of
-- fuel are enough), the result has the response's names and id and, for each output in order, its name,
-- shape and data type; older blocks of the heap are as before; and the data of no output tensor can
-- be read: the pointer leads to a vector that is gone, or nowhere.
pub get_infer_response-dangles :
    (fuel : ℕ) (objects : ℕ → Field → List ℕ) (response : ModelInferResponse) (h : Heap)
    → 2 ≤ fuel
    → AllHeld objects 0 response.outputs
    → (h' : Heap) × (xs : List InferTensor) × (get_infer_response fuel objects response h
        ≡ done (
          h',
          record {
            model_name = response.model_name;
            model_version = response.model_version;
            id = response.id;
            output_tensors = xs;
          },
        ))
      × (map without_data xs ≡ map described response.outputs)
      × ((b : ℕ) → b < h.next → find b h'.blocks ≡ find b h.blocks)
      × AllUnreadable h'.blocks xs
unfolding get_infer_response
get_infer_response-dangles fuel objects response h two ok =
    let (h', xs, e, same, l, d) =
      read_outputs-dangles fuel objects 0 response.outputs h
        (record no_infer_response {
          model_name = response.model_name;
          model_version = response.model_version;
          id = response.id;
        })
        two ok in
    (h', xs, e, same, l.keeps, AllDangling-unreadable xs h' d)
