-- ===== src/Client/Reads.antt =====
-- The data that `tensor_data_reader` (tensor_converter.hpp) gives to an output tensor.
use tiny_inference_engine.Base.{
  ℕ, zero, suc, ◌*◌, ◌%◌, ◌^◌, ◌<◌, ◌≤◌, ◌==◌, ◌≡◌, refl, ◌∙◌, true, Option, none, some, List, [],
  ◌∷◌, lt→ltb, length, take, ltb, arith, Bool-cases, inl, inr,
}
use tiny_inference_engine.Base.Table.{find, find-assign, find-erase}
use tiny_inference_engine.Messages.{ModelInferResponse}
use tiny_inference_engine.Messages
use tiny_inference_engine.Client.DataType.{from_string}
use tiny_inference_engine.Client.Api.{
  Pointer, indeterminate, null_pointer, block, InferTensor, new_tensor,
}
use tiny_inference_engine.Client.Sizes.{output_size}
use tiny_inference_engine.Client.Contents.{
  CType, Field, converted_as, size_of, field_of, char, int8, uint8, int16, uint16,
}
use tiny_inference_engine.Client.Writer.{done}
use tiny_inference_engine.Client.Reader.{
  Heap, copy, copy_at, copy_from, is_small, read_bytes, allocate, free, data_of, read_tensor,
  described, read_as,
}

-- The copy stays within the container object.
pub record Held (t : CType) (object : List ℕ) (size : ℕ) : Type 0 where
  pub enough : size * size_of t ≤ length object
  pub bounded : size * size_of t < 2 ^ 63
  pub single : is_small t ≡ true → size ≤ 1

abbrev pub HeldAs : Option CType → (Field → List ℕ) → ℕ → Type 0
HeldAs none objects size = Unit {0}
HeldAs (some t) objects size = Held t (objects (field_of t)) size

abbrev pub AllHeld : (ℕ → Field → List ℕ) → ℕ → List Messages.InferTensor → Type 0
AllHeld objects i [] = Unit {0}
AllHeld objects i (t ∷ ts) =
    HeldAs (converted_as (from_string t.datatype)) (objects i) (output_size t.shape)
    × AllHeld objects (suc i) ts

-- A block below the counter that is gone stays gone.
abbrev pub Dangling : Pointer → Heap → Type 0
Dangling indeterminate h = Unit {0}
Dangling null_pointer h = Unit {0}
Dangling (block b) h = (b < h.next) × (find b h.blocks ≡ none)

abbrev pub AllDangling : List InferTensor → Heap → Type 0
AllDangling [] h = Unit {0}
AllDangling (t ∷ ts) h = Dangling t.address h × AllDangling ts h

-- What a reader does to the heap: older blocks are as before.
pub record Later (h h' : Heap) : Type 0 where
  pub grows : h.next ≤ h'.next
  pub keeps : (b : ℕ) → b < h.next → find b h'.blocks ≡ find b h.blocks

pub Dangling-Later : (p : Pointer) {h h' : Heap} → Later h h' → Dangling p h → Dangling p h'
Dangling-Later indeterminate l d = tt
Dangling-Later null_pointer l d = tt
Dangling-Later (block b) l (lt, gone) = (omega (arith, l.grows), l.keeps b lt ∙ gone)

copy-done :
    (object : List ℕ) (count : ℕ)
    → count ≤ length object
    → copy object count ≡ done (take count object)
unfolding copy
copy-done object count le = ground arith

copy_from-done :
    (fuel : ℕ) (object : List ℕ) (width size : ℕ)
    → 2 ≤ fuel
    → size ≤ 1
    → size * width ≤ length object
    → (bytes : List ℕ) × (copy_from fuel object width size 0 [] ≡ done bytes)
unfolding copy_from copy_at
copy_from-done zero object width size two le en = absurd (omega arith)
copy_from-done (suc zero) object width size two le en = absurd (omega arith)
copy_from-done (suc (suc fuel)) object width zero two le en = ([], refl)
copy_from-done (suc (suc fuel)) object width (suc zero) two le en =
    (take width object, rw (copy-done object width (omega (arith, en))) refl)
copy_from-done (suc (suc fuel)) object width (suc (suc size)) two le en = absurd (omega arith)

read_bytes-done :
    (fuel : ℕ) (t : CType) (object : List ℕ) (size : ℕ)
    → 2 ≤ fuel
    → Held t object size
    → (bytes : List ℕ) × (read_bytes fuel t object size ≡ done bytes)
unfolding read_bytes
read_bytes-done fuel char object size two ok = (_, copy-done object size (omega (arith, ok.enough)))
read_bytes-done fuel int8 object size two ok =
    copy_from-done fuel object 1 size two (ok.single refl) ok.enough
read_bytes-done fuel uint8 object size two ok =
    copy_from-done fuel object 1 size two (ok.single refl) ok.enough
read_bytes-done fuel int16 object size two ok =
    copy_from-done fuel object 2 size two (ok.single refl) ok.enough
read_bytes-done fuel uint16 object size two ok =
    copy_from-done fuel object 2 size two (ok.single refl) ok.enough
read_bytes-done fuel _ object size two ok =
    (_, copy-done object _ (omega (arith, ok.enough, ok.bounded)))

data_of-Dangling :
    (count : ℕ) (bytes : List ℕ) (h : Heap)
    → Dangling (data_of count h.next) (free h.next (allocate bytes h))
unfolding data_of free allocate
data_of-Dangling count bytes h = elim (Bool-cases (count == 0)) [
  | inl empty ↦ rw empty tt
  | inr full ↦ rw full (omega arith, rw find-erase (ground arith))
]

free-Later : (bytes : List ℕ) (h : Heap) → Later h (free h.next (allocate bytes h))
unfolding free allocate
free-Later bytes h = record {
  grows = omega arith;
  keeps = λ b lt. simp (find-erase, find-assign) (ground arith);
}

-- The tensor without its data.
abbrev pub without_data : InferTensor → InferTensor
without_data t = record t { address = indeterminate }

read_tensor-done :
    (fuel : ℕ) (t : CType) (object : List ℕ) (size : ℕ) (h : Heap)
    → 2 ≤ fuel
    → Held t object size
    → (h' : Heap) × (p : Pointer) × (read_tensor fuel t object size h ≡ done (h', p))
      × Later h h'
      × Dangling p h'
unfolding read_tensor
read_tensor-done fuel t object size h two ok =
    let (bytes, e) = read_bytes-done fuel t object size two ok in
    let count = size * size_of t % 2 ^ 64 in
    let fits : ltb count (2 ^ 63) ≡ true = lt→ltb count (2 ^ 63) (omega (arith, ok.bounded)) in
    (
      free h.next (allocate bytes h),
      data_of count h.next,
      rw (fits, e) refl,
      free-Later bytes h,
      data_of-Dangling count bytes h,
    )

pub read_as-dangles :
    (fuel : ℕ) (type : Option CType) (objects : Field → List ℕ) (t : Messages.InferTensor)
    (h : Heap)
    → 2 ≤ fuel
    → HeldAs type objects (output_size t.shape)
    → (h' : Heap) × (x : InferTensor) × (read_as fuel type objects t h ≡ done (h', x))
      × (without_data x ≡ described t)
      × Later h h'
      × Dangling x.address h'
unfolding read_as new_tensor
read_as-dangles fuel none objects t h two ok =
    (h, described t, refl, refl, record { grows = omega arith; keeps = λ b lt. refl }, tt)
read_as-dangles fuel (some type) objects t h two ok =
    let (h', p, e, l, d) =
      read_tensor-done fuel type (objects (field_of type)) (output_size t.shape) h two ok in
    (h', record (described t) { address = p }, rw e refl, refl, l, d)
