-- ===== src/Engine/Runtime.antt =====
-- What `onnx_backend` (tie_engine/src/onnx_backend) uses of the library ONNX Runtime, as a parameter.
--
-- Only opening a session and running it throw here; the queries for counts, names and shapes do not.
-- `int64_t` and `size_t` values are kept as 64-bit patterns, element types as their numbers.
use tiny_inference_engine.Base.{ℕ, String, Option, List}

-- An input of a run: its bytes, the byte count that is claimed for them, the shape and the element type.
pub record InputTensor : Type 0 where
  pub bytes : List ℕ
  pub byte_count : ℕ
  pub shape : List ℕ
  pub type : ℕ

-- An output of a run, in memory of the runtime.
pub record OutputTensor : Type 0 where
  pub address : ℕ
  pub element_count : ℕ
  pub shape : List ℕ

pub record Runtime : Type 1 where
  pub Session : Type 0
  -- the constructor of `Ort::Session`, from a file name; `none`: it throws
  pub open_session : String → Option Session
  pub input_count : Session → ℕ
  pub output_count : Session → ℕ
  pub input_name : Session → ℕ → String
  pub output_name : Session → ℕ → String
  pub input_shape : Session → ℕ → List ℕ
  pub output_shape : Session → ℕ → List ℕ
  pub input_type : Session → ℕ → ℕ
  pub output_type : Session → ℕ → ℕ
  -- `Run` with the inputs by name and the names of the outputs; `none`: it throws
  pub run : Session → List (String × InputTensor) → List String → Option (ℕ → OutputTensor)
