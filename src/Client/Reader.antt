-- ===== src/Client/Reader.antt =====
-- `tensor_data_reader` (tensor_converter.hpp) and `tensor_converter::get_infer_response`
-- (tensor_converter.cpp).
--
-- The wrapper is called with a tensor that is not const, for which `getTensorContents` returns the address
-- of the field's container object, not of its elements. The bytes of that object are the library's:
-- a parameter. The blocks of vectors are numbered, and a number is not used twice.
use tiny_inference_engine.Base.{
  ℕ, zero, suc, ◌+◌, ◌*◌, ◌%◌, ◌^◌, ◌==◌, Bool, true, false, Option, none, some, List, [], ◌∷◌,
  ◌++◌, length, take, ltb, if◌then◌else◌,
}
use tiny_inference_engine.Base.Table.{assign, erase}
use tiny_inference_engine.Messages.{ModelInferResponse}
use tiny_inference_engine.Messages
use tiny_inference_engine.Client.DataType.{from_string}
use tiny_inference_engine.Client.Api.{
  Pointer, null_pointer, block, InferTensor, new_tensor, InferResponse, no_infer_response,
  add_output_tensor,
}
use tiny_inference_engine.Client.Memory.{Memory}
use tiny_inference_engine.Client.Sizes.{output_size}
use tiny_inference_engine.Client.Contents.{
  CType, Field, converted_as, size_of, field_of, char, int8, uint8, int16, uint16,
}
use tiny_inference_engine.Client.Writer.{Outcome, done, thrown, fault, out_of_fuel, ◌>>=◌}

pub record Heap : Type 0 where
  pub next : ℕ
  pub blocks : Memory

-- The copy of `count` bytes from the begin of the container object.
unfoldable pub copy : List ℕ → ℕ → Outcome (List ℕ)
copy object count = if ltb (length object) count then fault else done (take count object)

-- The bytes at `&contents[i]`: only the index 0 is the object, the others are behind it.
unfoldable pub copy_at : List ℕ → ℕ → ℕ → Outcome (List ℕ)
unfolding copy
copy_at object i width = if i == 0 then copy object width else fault

-- `for (auto i = 0U; i < size; ++i) std::memcpy(&(data[i * sizeof(T)]), &(contents[i]), sizeof(T));`
unfoldable pub copy_from : ℕ → List ℕ → ℕ → ℕ → ℕ → List ℕ → Outcome (List ℕ)
unfolding copy_at
copy_from zero object width size i bytes = out_of_fuel
copy_from (suc fuel) object width size i bytes = elim (ltb i size) [
  | false ↦ done bytes
  | true ↦ copy_at object i width >>= λ cell.
      copy_from fuel object width size ((i + 1) % 2 ^ 32) (bytes ++ cell)
]

-- The types that are copied one by one.
abbrev pub is_small : CType → Bool
is_small int8 = true
is_small uint8 = true
is_small int16 = true
is_small uint16 = true
is_small _ = false

-- What is copied into the vector.
unfoldable pub read_bytes : ℕ → CType → List ℕ → ℕ → Outcome (List ℕ)
unfolding copy copy_from
read_bytes fuel char object size = copy object size
read_bytes fuel t object size =
    if is_small t
    then copy_from fuel object (size_of t) size 0 []
    else copy object (size * size_of t % 2 ^ 64)

-- The vector's block while it lives, and after its destruction.
unfoldable pub allocate : List ℕ → Heap → Heap
allocate bytes h = record { next = suc h.next; blocks = assign h.next bytes h.blocks }

unfoldable pub free : ℕ → Heap → Heap
free b h = record h { blocks = erase b h.blocks }

-- `data.data()`: an empty vector that never had an element has no block.
unfoldable pub data_of : ℕ → ℕ → Pointer
data_of count b = if count == 0 then null_pointer else block b

-- `tensor_data_reader<T, Tensor>::operator()`: a vector of `bytes_to_copy` bytes, unless that is more
-- than a vector can have; the copy; the pointer that is kept; and the end of the vector.
unfoldable pub read_tensor : ℕ → CType → List ℕ → ℕ → Heap → Outcome (Heap × Pointer)
unfolding read_bytes allocate free data_of
read_tensor fuel t object size h =
    let bytes_to_copy = size * size_of t % 2 ^ 64 in
    if ltb bytes_to_copy (2 ^ 63)
    then (read_bytes fuel t object size >>= λ bytes.
        done (free h.next (allocate bytes h), data_of bytes_to_copy h.next))
    else thrown

-- The output tensor before its data are read.
abbrev pub described : Messages.InferTensor → InferTensor
described t = record new_tensor {
  name = t.name;
  datatype = from_string t.datatype;
  shape = t.shape;
}

unfoldable pub read_as :
    ℕ → Option CType → (Field → List ℕ) → Messages.InferTensor → Heap → Outcome (Heap × InferTensor)
unfolding read_tensor
read_as fuel none objects t h = done (h, described t)
read_as fuel (some type) objects t h =
    read_tensor fuel type (objects (field_of type)) (output_size t.shape) h >>= λ (h', p).
    done (h', record (described t) { address = p })

-- One round of the loop over `outputs()`.
unfoldable pub read_output :
    ℕ → (Field → List ℕ) → Messages.InferTensor → Heap → Outcome (Heap × InferTensor)
unfolding read_as
read_output fuel objects t h = read_as fuel (converted_as (from_string t.datatype)) objects t h

-- `objects i` are the containers of the output with the index `i`.
unfoldable pub read_outputs :
    ℕ
    → (ℕ → Field → List ℕ)
    → ℕ
    → List Messages.InferTensor
    → Heap
    → InferResponse
    → Outcome (Heap × InferResponse)
unfolding read_output
read_outputs fuel objects i [] h r = done (h, r)
read_outputs fuel objects i (t ∷ ts) h r = read_output fuel (objects i) t h >>= λ (h', x).
    read_outputs fuel objects (suc i) ts h' (add_output_tensor x r)

unfoldable pub get_infer_response :
    ℕ → (ℕ → Field → List ℕ) → ModelInferResponse → Heap → Outcome (Heap × InferResponse)
unfolding read_outputs
get_infer_response fuel objects response h =
    read_outputs fuel objects 0 response.outputs h (record no_infer_response {
      model_name = response.model_name;
      model_version = response.model_version;
      id = response.id;
    })
