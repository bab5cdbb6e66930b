-- ===== src/Client/Requests.antt =====
-- The requests that `tensor_converter::get_infer_request` (tensor_converter.cpp) makes.
use tiny_inference_engine.Base.{
  ℕ, ◌^◌, ◌<◌, ◌≡◌, ◌≢◌, refl, ap, ◌∙◌, some, List, [], ◌∷◌, ◌++◌, String, map, length, arith, inl,
}
use tiny_inference_engine.Base.Table.{find}
use tiny_inference_engine.Messages.{InferTensor, InferTensorContents}
use tiny_inference_engine.Client.DataType.{str, from_string-str}
use tiny_inference_engine.Client.Api.{InferRequest, block}
use tiny_inference_engine.Client.Api
use tiny_inference_engine.Client.Memory.{Memory, encode}
use tiny_inference_engine.Base.Product.{product}
use tiny_inference_engine.Client.Sizes.{input_size, input_size-product}
use tiny_inference_engine.Client.Contents.{
  CType, converted_as, size_of, field_of, widen, only, char,
}
use tiny_inference_engine.Client.Writer.{
  done, write_contents, add_input, add_inputs, get_infer_request,
}
use tiny_inference_engine.Client.Writes.{Fit, write-encode}

-- A tensor of the caller with the C++ type and the values of its data.
pub record Source : Type 0 where
  pub tensor : Api.InferTensor
  pub type : CType
  pub values : List ℕ

-- The caller's side of the bargain: the tensor's data type is a numeric one that is converted, and its
-- pointer leads to a block that begins with as many values as its shape says, fewer than 2 ^ 31.
pub record IsSound (mem : Memory) (s : Source) : Type 0 where
  pub converted : converted_as s.tensor.datatype ≡ some s.type
  pub numeric : s.type ≢ char
  pub at : ℕ
  pub rest : List ℕ
  pub address : s.tensor.address ≡ block at
  pub laid_out : find at mem ≡ some (encode (size_of s.type) s.values ++ rest)
  pub fit : Fit (size_of s.type) s.values
  pub counted : product s.tensor.shape ≡ length s.values
  pub small : length s.values < 2 ^ 31

-- The message that such a tensor should become.
abbrev pub message : Source → InferTensor
message s = record {
  name = s.tensor.name;
  datatype = (from_string-str s.tensor.datatype).0;
  shape = s.tensor.shape;
  contents = only (field_of s.type) (map (widen s.type) s.values);
}

abbrev pub AllSound : Memory → ℕ → List Source → Type 0
AllSound mem fuel [] = Unit {0}
AllSound mem fuel (s ∷ ss) = IsSound mem s × (length s.values < fuel) × AllSound mem fuel ss

add_input-done :
    (fuel : ℕ) (mem : Memory) (t : Api.InferTensor) {datatype : String} {c : InferTensorContents}
    → str t.datatype ≡ some datatype
    → write_contents fuel (converted_as t.datatype) mem t.address (input_size t.shape) ≡ done c
    → add_input fuel mem t
      ≡ done (record { name = t.name; datatype = datatype; shape = t.shape; contents = c })
unfolding add_input
add_input-done fuel mem t d w = ground arith

add_input-message :
    (fuel : ℕ) (mem : Memory) (s : Source)
    → IsSound mem s
    → length s.values < fuel
    → add_input fuel mem s.tensor ≡ done (message s)
unfolding write_contents
add_input-message fuel mem s ok lf =
    let size : input_size s.tensor.shape ≡ length s.values =
      (input_size-product s.tensor.shape).1.1 (inl (omega (arith, ok.counted, ok.small)))
      ∙ ok.counted in
    add_input-done fuel mem s.tensor (from_string-str s.tensor.datatype).1 (
      rw (ok.converted, ok.address, size)
        (write-encode s.type mem ok.at s.values ok.rest fuel ok.numeric ok.laid_out ok.fit
          (omega (arith, ok.small)) lf))

add_inputs-message :
    (fuel : ℕ) (mem : Memory) (ss : List Source)
    → AllSound mem fuel ss
    → add_inputs fuel mem (map (λ s. s.tensor) ss) ≡ done (map message ss)
unfolding add_inputs
add_inputs-message fuel mem [] ok = refl
add_inputs-message fuel mem (s ∷ ss) (ok, lf, later) =
    rw (add_input-message fuel mem s ok lf, add_inputs-message fuel mem ss later)

-- A request whose input tensors are all sound becomes the message with its names and id and, for each
-- tensor in order, the tensor's name, its data type's name, its shape, and exactly its values, widened, in
-- the field of its type, given a round of fuel for each value and one more.
pub get_infer_request-message :
    (fuel : ℕ) (mem : Memory) (ss : List Source) (r : InferRequest)
    → AllSound mem fuel ss
    → r.input_tensors ≡ map (λ s. s.tensor) ss
    → get_infer_request fuel mem r
      ≡ done (record {
        model_name = r.model_name;
        model_version = r.model_version;
        id = r.id;
        inputs = map message ss;
      })
unfolding get_infer_request
get_infer_request-message fuel mem ss r ok e =
    rw (ap (add_inputs fuel mem) e ∙ add_inputs-message fuel mem ss ok)
