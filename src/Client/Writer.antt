-- ===== src/Client/Writer.antt =====
-- `tensor_data_writer` (tensor_converter.hpp) and `tensor_converter::get_infer_request`
-- (tensor_converter.cpp).
use tiny_inference_engine.Base.{
  ℕ, zero, suc, ◌+◌, ◌%◌, ◌^◌, ◌≡◌, refl, true, false, Option, none, some, List, [], ◌∷◌, ◌++◌, ltb,
  ◌==◌, if◌then◌else◌,
}
use tiny_inference_engine.Messages.{
  InferTensorContents, ModelInferRequest, InferTensor, no_contents,
}
use tiny_inference_engine.Client.DataType.{str}
use tiny_inference_engine.Client.Api.{Pointer, InferRequest}
use tiny_inference_engine.Client.Api
use tiny_inference_engine.Client.Memory.{Memory, bytes_at, read}
use tiny_inference_engine.Client.Sizes.{input_size}
use tiny_inference_engine.Client.Contents.{
  CType, converted_as, size_of, field_of, widen, add_number, char,
}

-- How a conversion ends: with a value, by an exception, with a read outside its block, or not within
-- the fuel.
pub data Outcome {ℓ} (A : Type ℓ) : Type ℓ where
  done : A → Outcome A
  thrown : Outcome A
  fault : Outcome A
  out_of_fuel : Outcome A

infixl 5 ◌>>=◌
abbrev pub ◌>>=◌ {ℓ κ} : {A : Type ℓ} {B : Type κ} → Outcome A → (A → Outcome B) → Outcome B
done a >>= f = f a
thrown >>= f = thrown
fault >>= f = fault
out_of_fuel >>= f = out_of_fuel

pub >>=-eq-done {ℓ κ} :
    {A : Type ℓ} {B : Type κ} (m : Outcome A) (f : A → Outcome B) {b : B}
    → (m >>= f) ≡ done b
    → (a : A) × (m ≡ done a) × (f a ≡ done b)
>>=-eq-done (done a) f h = (a, refl, h)
>>=-eq-done thrown f h = cc
>>=-eq-done fault f h = cc
>>=-eq-done out_of_fuel f h = cc

-- `for (auto i = 0U; i < size; ++i) contents->Add(data[i]);` The counter is 32 bits wide, `size` 64.
unfoldable pub write_from :
    ℕ → CType → Memory → Pointer → ℕ → ℕ → InferTensorContents → Outcome InferTensorContents
write_from zero t mem p size i contents = out_of_fuel
write_from (suc fuel) t mem p size i contents = elim (ltb i size) [
  | false ↦ done contents
  | true ↦ elim (read mem p (size_of t) i) [
    | none ↦ fault
    | some x ↦
        write_from fuel t mem p size ((i + 1) % 2 ^ 32)
          (add_number (field_of t) (widen t x) contents)
  ]
]

-- The bytes up to the first zero; `none`: the block has none.
unfoldable pub c_string : List ℕ → Option (List ℕ)
c_string [] = none
c_string (b ∷ bs) =
    if b == 0 then some [] else elim (c_string bs) [ none ↦ none | some s ↦ some (b ∷ s) ]

-- `contents->Add(data)` for characters: the text up to its zero, whatever the size.
unfoldable pub write_text : Memory → Pointer → InferTensorContents → Outcome InferTensorContents
unfolding c_string
write_text mem p contents = elim (bytes_at mem p) [
  | none ↦ fault
  | some bytes ↦ elim (c_string bytes) [
    | none ↦ fault
    | some s ↦ done (record contents { bytes_contents = contents.bytes_contents ++ s ∷ [] })
  ]
]

-- `tensor_data_writer<T, Tensor>::operator()`
unfoldable pub write :
    ℕ → CType → Memory → Pointer → ℕ → InferTensorContents → Outcome InferTensorContents
unfolding write_from write_text
write fuel char mem p size contents = write_text mem p contents
write fuel t mem p size contents = write_from fuel t mem p size 0 contents

-- The call through the wrapper: nothing is written for a type that it does not convert.
unfoldable pub write_contents :
    ℕ → Option CType → Memory → Pointer → ℕ → Outcome InferTensorContents
unfolding write
write_contents fuel none mem p size = done no_contents
write_contents fuel (some t) mem p size = write fuel t mem p size no_contents

-- One round of the loop over `input_tensors`. The elements of the shape become `int64_t`, with the same
-- bits.
unfoldable pub add_input : ℕ → Memory → Api.InferTensor → Outcome InferTensor
unfolding write_contents
add_input fuel mem t = elim (str t.datatype) [
  | none ↦ thrown
  | some datatype ↦
      write_contents fuel (converted_as t.datatype) mem t.address (input_size t.shape)
      >>= λ contents.
          done (record { name = t.name; datatype = datatype; shape = t.shape; contents = contents })
]

unfoldable pub add_inputs : ℕ → Memory → List Api.InferTensor → Outcome (List InferTensor)
unfolding add_input
add_inputs fuel mem [] = done []
add_inputs fuel mem (t ∷ ts) =
    add_input fuel mem t >>= λ x. add_inputs fuel mem ts >>= λ xs. done (x ∷ xs)

-- The fuel bounds the rounds of each tensor's loop. The request's output tensors are not looked at.
unfoldable pub get_infer_request : ℕ → Memory → InferRequest → Outcome ModelInferRequest
unfolding add_inputs
get_infer_request fuel mem r = add_inputs fuel mem r.input_tensors >>= λ inputs. done (record {
  model_name = r.model_name;
  model_version = r.model_version;
  id = r.id;
  inputs = inputs;
})
