-- ===== src/Client/Contents.antt =====
-- The C++ types that tensors are made of, and the fields of `InferTensorContents` that
-- `tensor_converter::getTensorContents` (tensor_converter.hpp) picks for them.
use tiny_inference_engine.Base.{
  ℕ, ◌+◌, ◌-◌, ◌^◌, ◌≡◌, refl, Option, none, some, List, [], ◌∷◌, ◌++◌, ltb, if◌then◌else◌,
}
use tiny_inference_engine.Messages.{InferTensorContents, no_contents}
use tiny_inference_engine.Client.DataType.{Value}

-- The type argument `T` of the writers and readers.
pub data CType : Type 0 where
  bool uint8 uint16 uint32 uint64 : CType
  int8 int16 int32 int64 : CType
  float double char : CType

-- `tensor_data_converter_call_wrapper`: the type that a data type is converted as. `none`: the wrapper
-- returns without a conversion.
unfoldable pub converted_as : Value → Option CType
converted_as Value.bool = some bool
converted_as Value.uint8 = some uint8
converted_as Value.uint16 = some uint16
converted_as Value.uint32 = some uint32
converted_as Value.uint64 = some uint64
converted_as Value.int8 = some int8
converted_as Value.int16 = some int16
converted_as Value.int32 = some int32
converted_as Value.int64 = some int64
converted_as Value.fp16 = none
converted_as Value.fp32 = some float
converted_as Value.fp64 = some double
converted_as Value.string = some char
converted_as Value.unknown = none

-- `sizeof(T)`
abbrev pub size_of : CType → ℕ
size_of bool = 1
size_of uint8 = 1
size_of uint16 = 2
size_of uint32 = 4
size_of uint64 = 8
size_of int8 = 1
size_of int16 = 2
size_of int32 = 4
size_of int64 = 8
size_of float = 4
size_of double = 8
size_of char = 1

pub data Field : Type 0 where
  bool_contents int_contents int64_contents uint_contents uint64_contents : Field
  fp32_contents fp64_contents bytes_contents : Field

-- `getTensorContents<T>`
unfoldable pub field_of : CType → Field
field_of bool = bool_contents
field_of uint8 = uint_contents
field_of uint16 = uint_contents
field_of uint32 = uint_contents
field_of uint64 = uint64_contents
field_of int8 = int_contents
field_of int16 = int_contents
field_of int32 = int_contents
field_of int64 = int64_contents
field_of float = fp32_contents
field_of double = fp64_contents
field_of char = bytes_contents

-- The bit pattern that an element has in its field: the small signed integers become `int32`.
unfoldable pub widen : CType → ℕ → ℕ
widen int8 v = if ltb v (2 ^ 7) then v else v + 2 ^ 32 - 2 ^ 8
widen int16 v = if ltb v (2 ^ 15) then v else v + 2 ^ 32 - 2 ^ 16
widen _ v = v

-- `contents->Add(x)` on the field of a numeric type.
unfoldable pub add_number : Field → ℕ → InferTensorContents → InferTensorContents
add_number bool_contents x c = record c { bool_contents = c.bool_contents ++ x ∷ [] }
add_number int_contents x c = record c { int_contents = c.int_contents ++ x ∷ [] }
add_number int64_contents x c = record c { int64_contents = c.int64_contents ++ x ∷ [] }
add_number uint_contents x c = record c { uint_contents = c.uint_contents ++ x ∷ [] }
add_number uint64_contents x c = record c { uint64_contents = c.uint64_contents ++ x ∷ [] }
add_number fp32_contents x c = record c { fp32_contents = c.fp32_contents ++ x ∷ [] }
add_number fp64_contents x c = record c { fp64_contents = c.fp64_contents ++ x ∷ [] }
add_number bytes_contents x c = c

-- Contents with these elements in one numeric field.
abbrev pub only : Field → List ℕ → InferTensorContents
only bool_contents xs = record no_contents { bool_contents = xs }
only int_contents xs = record no_contents { int_contents = xs }
only int64_contents xs = record no_contents { int64_contents = xs }
only uint_contents xs = record no_contents { uint_contents = xs }
only uint64_contents xs = record no_contents { uint64_contents = xs }
only fp32_contents xs = record no_contents { fp32_contents = xs }
only fp64_contents xs = record no_contents { fp64_contents = xs }
only bytes_contents xs = no_contents

pub add_number-only :
    (f : Field) (x : ℕ) (xs : List ℕ) → add_number f x (only f xs) ≡ only f (xs ++ x ∷ [])
unfolding add_number
add_number-only bool_contents x xs = refl
add_number-only int_contents x xs = refl
add_number-only int64_contents x xs = refl
add_number-only uint_contents x xs = refl
add_number-only uint64_contents x xs = refl
add_number-only fp32_contents x xs = refl
add_number-only fp64_contents x xs = refl
add_number-only bytes_contents x xs = refl

pub only-nil : (f : Field) → only f [] ≡ no_contents
only-nil bool_contents = refl
only-nil _ = refl
