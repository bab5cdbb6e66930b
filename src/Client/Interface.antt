-- ===== src/Client/Interface.antt =====
-- `client_interface` (client_interface.hpp), and `grpc_client` (grpc_client.hpp) as one, which
-- `client_factory::create_client` (client_factory.cpp) makes.
--
-- The constructor of `grpc_client` makes a stub on a new channel to the address: what it makes of an
-- address is a parameter.
use tiny_inference_engine.Base.{ℕ, String, Bool, List}
use tiny_inference_engine.Client.CallResult.{CallResult}
use tiny_inference_engine.Client.Api.{ServerMetadata, ModelMetadata, InferRequest, InferResponse}
use tiny_inference_engine.Client.Grpc.{
  Stub, is_server_live, is_server_ready, server_metadata, is_model_ready, model_list, model_load,
  model_unload, model_metadata,
}
use tiny_inference_engine.Client.Contents.{Field}
use tiny_inference_engine.Client.Writer.{Outcome}
use tiny_inference_engine.Client.Reader.{Heap}
use tiny_inference_engine.Client.Infer.{infer}

-- The calls may change a world `W`.
pub record ClientInterface (W : Type 0) : Type 0 where
  pub is_server_live : W → W × CallResult × Bool
  pub is_server_ready : W → W × CallResult × Bool
  pub server_metadata : W → W × CallResult × ServerMetadata
  pub model_list : W → W × CallResult × List String
  pub is_model_ready : String → String → W → W × CallResult × Bool
  pub model_load : String → String → W → W × CallResult × Bool
  pub model_unload : String → String → W → W × CallResult × Bool
  pub model_metadata : String → String → W → W × CallResult × ModelMetadata
  pub infer : InferRequest → Heap → W → Outcome (W × CallResult × Heap × InferResponse)

module _ {W : Type 0} where
  -- With the bound on the rounds of the tensor writer, and the containers of the responses.
  abbrev pub grpc_client : ℕ → (ℕ → Field → List ℕ) → Stub W → ClientInterface W
  grpc_client fuel objects stub = record {
    is_server_live = is_server_live stub;
    is_server_ready = is_server_ready stub;
    server_metadata = server_metadata stub;
    model_list = model_list stub;
    is_model_ready = is_model_ready stub;
    model_load = model_load stub;
    model_unload = model_unload stub;
    model_metadata = model_metadata stub;
    infer = infer stub fuel objects;
  }

  abbrev pub create_client :
      (String → Stub W) → ℕ → (ℕ → Field → List ℕ) → String → ClientInterface W
  create_client new_stub fuel objects uri = grpc_client fuel objects (new_stub uri)
