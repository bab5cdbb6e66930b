-- ===== src/Client/Api.antt =====
-- The types of the client's interface (tie_client/include/tie_client): server and model metadata,
-- tensors, inference requests and responses.
--
-- `void*` is a pointer into the process's memory: a block and nothing else, since the code uses
-- pointers to the begin of a block only. The parameter maps have no accessor and are left out.
use tiny_inference_engine.Base.{ℕ, String, List, [], ◌∷◌, ◌++◌}
use tiny_inference_engine.Client.DataType.{Value, unknown}

pub record ServerMetadata : Type 0 where
  pub server_name : String
  pub server_version : String
  pub server_extensions : List String

-- `model_metadata::tensor_metadata`
pub record TensorMetadata : Type 0 where
  pub name : String
  pub datatype : String
  pub shape : List ℕ

pub record ModelMetadata : Type 0 where
  pub model_name : String
  pub model_versions : List String
  pub platform : String
  pub inputs : List TensorMetadata
  pub outputs : List TensorMetadata

abbrev pub no_server_metadata : ServerMetadata
no_server_metadata = record { server_name = ""; server_version = ""; server_extensions = [] }

abbrev pub no_model_metadata : ModelMetadata
no_model_metadata = record {
  model_name = "";
  model_versions = [];
  platform = "";
  inputs = [];
  outputs = [];
}

pub data Pointer : Type 0 where
  indeterminate : Pointer
  null_pointer : Pointer
  block : ℕ → Pointer

-- Elements of `shape` are `uint64_t`.
pub record InferTensor : Type 0 where
  pub name : String
  pub shape : List ℕ
  pub datatype : Value
  pub address : Pointer

-- `infer_tensor()` leaves the pointer indeterminate.
unfoldable pub new_tensor : InferTensor
new_tensor = record { name = ""; shape = []; datatype = unknown; address = indeterminate }

pub record InferRequest : Type 0 where
  pub model_name : String
  pub model_version : String
  pub id : String
  pub input_tensors : List InferTensor
  pub output_tensors : List String

-- `infer_request::add_input_tensor`
unfoldable pub add_input_tensor : Pointer → List ℕ → Value → String → InferRequest → InferRequest
add_input_tensor address shape datatype name r = record r {
  input_tensors =
      r.input_tensors
      ++ record { name = name; shape = shape; datatype = datatype; address = address } ∷ [];
}

pub record InferResponse : Type 0 where
  pub model_name : String
  pub model_version : String
  pub id : String
  pub output_tensors : List InferTensor

abbrev pub no_infer_response : InferResponse
no_infer_response = record { model_name = ""; model_version = ""; id = ""; output_tensors = [] }

-- `infer_response::add_output_tensor`
unfoldable pub add_output_tensor : InferTensor → InferResponse → InferResponse
add_output_tensor t r = record r { output_tensors = r.output_tensors ++ t ∷ [] }
