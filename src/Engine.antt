-- ===== src/Engine.antt =====
-- The inference engine (tiny_inference_engine/tie_engine): the engine and backend interfaces, the
-- null backend, the backend factory, and the engine that delegates to its backend.
--
-- A C++ object with hidden state is a state type `S`; a method that may change it returns the new
-- state. The backends' methods that the C++ interface marks `const` leave the state alone.
-- `int64_t` values are kept as their 64-bit patterns.
pub mod Runtime
pub mod Names
pub mod Onnx
pub mod Loading
pub mod Models
pub mod Several
use tiny_inference_engine.Base.{ℕ, String, Bool, true, Option, none, some, List, []}
use mathlib.Core.Option

pub record InferRequest : Type 0 where
  pub model_name : String
  pub bytes : List ℕ
  pub shape : List ℕ

pub data DataType : Type 0 where
  dt_float_dt dt_uint8 : DataType

pub record TensorInfo : Type 0 where
  pub address : ℕ
  pub count : ℕ
  pub shape : List ℕ
  pub datatype : DataType

pub record InferResponse : Type 0 where
  pub tensors : List (String × TensorInfo)
  pub model_name : String

-- `common::model_metadata` is a struct without members.
pub data ModelMetadata : Type 0 where
  no_members : ModelMetadata

pub record BackendInterface (S : Type 0) : Type 0 where
  pub is_model_ready : String → String → S → Bool
  pub model_load : String → String → S → S × Bool
  pub model_unload : String → String → S → S × Bool
  pub model_metadata : String → String → S → S × ModelMetadata
  pub infer : InferRequest → S → S × InferResponse

pub record EngineInterface (S : Type 0) : Type 0 where
  pub is_engine_ready : S → Bool
  pub model_list : S → List String
  pub is_model_ready : String → String → S → Bool
  pub model_load : String → String → S → S × Bool
  pub model_unload : String → String → S → S × Bool
  pub model_metadata : String → String → S → S × ModelMetadata
  pub infer : InferRequest → S → S × InferResponse

-- A value-initialised response, `{}`.
abbrev pub no_response : InferResponse
no_response = record { tensors = []; model_name = "" }

-- `null_backend` has no member variables.
pub data NullState : Type 0 where
  null_state : NullState

unfoldable pub null_backend : BackendInterface NullState
null_backend = record {
  is_model_ready = λ model_name model_version s. true;
  model_load = λ model_name model_version s. (s, true);
  model_unload = λ model_name model_version s. (s, true);
  model_metadata = λ model_name model_version s. (s, no_members);
  infer = λ request s. (s, no_response);
}

pub data BackendType : Type 0 where
  null onnx : BackendType

-- `backend_factory::create`; a null pointer is `none`.
unfoldable pub create_backend : BackendType → Option (BackendInterface NullState)
create_backend null = some null_backend
create_backend _ = none

-- The methods of `engine` over the backend that `_backend` points to.
unfoldable pub engine_over : {S : Type 0} → BackendInterface S → EngineInterface S
engine_over backend = record {
  is_engine_ready = λ s. true;
  model_list = λ s. [];
  is_model_ready = backend.is_model_ready;
  model_load = backend.model_load;
  model_unload = backend.model_unload;
  model_metadata = backend.model_metadata;
  infer = backend.infer;
}

-- `engine_factory::create`: the engine's constructor asks for the null backend. `none` is an engine
-- whose `_backend` is null, so that every call through it is undefined.
unfoldable pub create_engine : Option (EngineInterface NullState)
unfolding create_backend
create_engine = Option.map engine_over (create_backend null)
