-- ===== src/Rpc/Process.antt =====
-- `process_request` of the nine RPC classes (rpc/rpc_*.cpp): from the engine, the request and the
-- response as it stands, to the engine's new state and the filled response. What the methods print
-- and the sleep of `rpc_model_infer` are left out.
use tiny_inference_engine.Base.{String, List, [], ◌∷◌, ◌++◌, true}
use tiny_inference_engine.Engine.{EngineInterface}
use tiny_inference_engine.Messages.{
  ServerLiveResponse, ServerReadyResponse, ServerMetadataResponse, ModelReadyRequest,
  ModelReadyResponse, ModelListResponse, ModelMetadataRequest, ModelMetadataResponse,
  ModelLoadRequest, ModelUnloadRequest, ModelInferRequest, ModelInferResponse, NoFields, Kind,
  RequestOf, ResponseOf, server_live, server_ready, server_metadata, model_list, model_load,
  model_metadata, model_ready, model_unload, model_infer,
}

-- version.hpp
abbrev pub server_name : String
server_name = "Tiny Inference Server"

abbrev pub server_version : String
server_version = "0.1.0"

process_server_live : ServerLiveResponse → ServerLiveResponse
process_server_live response = record response { live = true }

process_server_metadata : ServerMetadataResponse → ServerMetadataResponse
process_server_metadata response = record response { name = server_name; version = server_version }

-- `for (auto&& model : model_list) response.add_models(model);`
unfoldable pub add_models : List String → ModelListResponse → ModelListResponse
add_models [] response = response
add_models (model ∷ models) response =
    add_models models (record response { models = response.models ++ model ∷ [] })

module _ {S : Type 0} (engine : EngineInterface S) where
  process_server_ready : S → ServerReadyResponse → ServerReadyResponse
  process_server_ready s response = record response { ready = engine.is_engine_ready s }

  process_model_list : S → ModelListResponse → ModelListResponse
  unfolding add_models
  process_model_list s response = add_models (engine.model_list s) response

  -- The engine's answer is bound to `is_model_loaded`, which nothing reads.
  process_model_load : S → ModelLoadRequest → NoFields → S × NoFields
  process_model_load s request response =
      let (s', is_model_loaded) = engine.model_load request.name "" s in (s', response)

  process_model_metadata :
      S → ModelMetadataRequest → ModelMetadataResponse → S × ModelMetadataResponse
  process_model_metadata s request response =
      let (s', metadata) = engine.model_metadata request.name request.version s in (s', response)

  process_model_ready : S → ModelReadyRequest → ModelReadyResponse → ModelReadyResponse
  process_model_ready s request response = record response {
    ready = engine.is_model_ready request.name request.version s;
  }

  process_model_unload : S → ModelUnloadRequest → NoFields → S × NoFields
  process_model_unload s request response =
      let (s', is_model_unloaded) = engine.model_unload request.name "" s in (s', response)

  -- The request is only traced: the engine is not called.
  process_model_infer : S → ModelInferRequest → ModelInferResponse → S × ModelInferResponse
  process_model_infer s request response = (s, response)

  -- The virtual call `process_request()`.
  unfoldable pub process_request : (k : Kind) → S → RequestOf k → ResponseOf k → S × ResponseOf k
  unfolding process_server_live process_server_ready process_server_metadata process_model_list
      process_model_load process_model_metadata process_model_ready process_model_unload
      process_model_infer
  process_request server_live s request response = (s, process_server_live response)
  process_request server_ready s request response = (s, process_server_ready s response)
  process_request server_metadata s request response = (s, process_server_metadata response)
  process_request model_list s request response = (s, process_model_list s response)
  process_request model_load s request response = process_model_load s request response
  process_request model_metadata s request response = process_model_metadata s request response
  process_request model_ready s request response = (s, process_model_ready s request response)
  process_request model_unload s request response = process_model_unload s request response
  process_request model_infer s request response = process_model_infer s request response
