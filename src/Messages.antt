-- ===== src/Messages.antt =====
-- The messages of the service (proto/services.proto) and its methods, one for each RPC class of
-- tiny_inference_server/tie_server/src/rpc.
--
-- A field of a proto3 message that was never set has its default: "", 0, false, no elements. Integers
-- are kept as bit patterns of their width, floats too: the program only copies them. The maps of
-- parameters and the raw contents are never read or written by the program and are left out.
use tiny_inference_engine.Base.{ℕ, String, Bool, false, List, []}

pub data NoFields : Type 0 where
  no_fields : NoFields

pub record ServerLiveResponse : Type 0 where
  pub live : Bool

pub record ServerReadyResponse : Type 0 where
  pub ready : Bool

pub record ServerMetadataResponse : Type 0 where
  pub name : String
  pub version : String
  pub extensions : List String

-- `ModelReadyRequest` and `ModelMetadataRequest` have the same fields.
pub record ModelReadyRequest : Type 0 where
  pub name : String
  pub version : String

pub record ModelReadyResponse : Type 0 where
  pub ready : Bool

pub record ModelListResponse : Type 0 where
  pub models : List String

pub record ModelMetadataRequest : Type 0 where
  pub name : String
  pub version : String

pub record TensorMetadata : Type 0 where
  pub name : String
  pub datatype : String
  pub shape : List ℕ

pub record ModelMetadataResponse : Type 0 where
  pub name : String
  pub versions : List String
  pub platform : String
  pub inputs : List TensorMetadata
  pub outputs : List TensorMetadata

pub record ModelLoadRequest : Type 0 where
  pub name : String

pub record ModelUnloadRequest : Type 0 where
  pub name : String

pub record InferTensorContents : Type 0 where
  pub bool_contents : List ℕ
  pub int_contents : List ℕ
  pub int64_contents : List ℕ
  pub uint_contents : List ℕ
  pub uint64_contents : List ℕ
  pub fp32_contents : List ℕ
  pub fp64_contents : List ℕ
  pub bytes_contents : List (List ℕ)

-- `InferInputTensor` and `InferOutputTensor` have the same fields.
pub record InferTensor : Type 0 where
  pub name : String
  pub datatype : String
  pub shape : List ℕ
  pub contents : InferTensorContents

pub record ModelInferRequest : Type 0 where
  pub model_name : String
  pub model_version : String
  pub id : String
  pub inputs : List InferTensor

pub record ModelInferResponse : Type 0 where
  pub model_name : String
  pub model_version : String
  pub id : String
  pub outputs : List InferTensor

-- The methods of `GRPCInferenceService`.
pub data Kind : Type 0 where
  server_live server_ready server_metadata : Kind
  model_list model_load model_metadata model_ready model_unload model_infer : Kind

unfoldable pub Kind-discrete : Discrete Kind
Kind-discrete = hlevel

abbrev pub RequestOf : Kind → Type 0
RequestOf server_live = NoFields
RequestOf server_ready = NoFields
RequestOf server_metadata = NoFields
RequestOf model_list = NoFields
RequestOf model_load = ModelLoadRequest
RequestOf model_metadata = ModelMetadataRequest
RequestOf model_ready = ModelReadyRequest
RequestOf model_unload = ModelUnloadRequest
RequestOf model_infer = ModelInferRequest

abbrev pub ResponseOf : Kind → Type 0
ResponseOf server_live = ServerLiveResponse
ResponseOf server_ready = ServerReadyResponse
ResponseOf server_metadata = ServerMetadataResponse
ResponseOf model_list = ModelListResponse
ResponseOf model_load = NoFields
ResponseOf model_metadata = ModelMetadataResponse
ResponseOf model_ready = ModelReadyResponse
ResponseOf model_unload = NoFields
ResponseOf model_infer = ModelInferResponse

abbrev pub no_contents : InferTensorContents
no_contents = record {
  bool_contents = [];
  int_contents = [];
  int64_contents = [];
  uint_contents = [];
  uint64_contents = [];
  fp32_contents = [];
  fp64_contents = [];
  bytes_contents = [];
}

-- A message as it is before any field is set.
unfoldable pub default_request : (k : Kind) → RequestOf k
default_request server_live = no_fields
default_request server_ready = no_fields
default_request server_metadata = no_fields
default_request model_list = no_fields
default_request model_load = record { name = "" }
default_request model_metadata = record { name = ""; version = "" }
default_request model_ready = record { name = ""; version = "" }
default_request model_unload = record { name = "" }
default_request model_infer = record { model_name = ""; model_version = ""; id = ""; inputs = [] }

unfoldable pub default_response : (k : Kind) → ResponseOf k
default_response server_live = record { live = false }
default_response server_ready = record { ready = false }
default_response server_metadata = record { name = ""; version = ""; extensions = [] }
default_response model_list = record { models = [] }
default_response model_load = no_fields
default_response model_metadata = record {
  name = "";
  versions = [];
  platform = "";
  inputs = [];
  outputs = [];
}
default_response model_ready = record { ready = false }
default_response model_unload = no_fields
default_response model_infer = record { model_name = ""; model_version = ""; id = ""; outputs = [] }
