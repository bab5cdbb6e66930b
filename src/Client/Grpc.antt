-- ===== src/Client/Grpc.antt =====
-- `grpc_client` (grpc_client.hpp, grpc_client.cpp) over the generated stub, which is a parameter: its
-- calls may change a world `W`.
use tiny_inference_engine.Base.{ℕ, String, Bool, true, false, not, List, [], map, if◌then◌else◌}
use tiny_inference_engine.Messages.{Kind, RequestOf, ResponseOf, no_fields}
use tiny_inference_engine.Messages
use tiny_inference_engine.Client.CallResult.{CallResult, ok_result, error_result}
use tiny_inference_engine.Client.Api.{
  ServerMetadata, ModelMetadata, TensorMetadata, no_server_metadata, no_model_metadata,
}

-- `grpc::Status`
pub record Status : Type 0 where
  pub ok : Bool
  pub error_code : ℕ
  pub error_message : String

-- `inference::GRPCInferenceService::Stub`: the blocking call of each method.
pub record Stub (W : Type 0) : Type 0 where
  pub call : (k : Kind) → RequestOf k → W → W × Status × ResponseOf k

module _ {W : Type 0} (stub : Stub W) where
  unfoldable pub is_server_live : W → W × CallResult × Bool
  is_server_live w =
      let (w', rpc_status, response) = stub.call Kind.server_live no_fields w in
      if not rpc_status.ok then (w', error_result, false) else (w', ok_result, response.live)

  unfoldable pub is_server_ready : W → W × CallResult × Bool
  is_server_ready w =
      let (w', rpc_status, response) = stub.call Kind.server_ready no_fields w in
      if not rpc_status.ok then (w', error_result, false) else (w', ok_result, response.ready)

  unfoldable pub server_metadata : W → W × CallResult × ServerMetadata
  server_metadata w =
      let (w', rpc_status, response) = stub.call Kind.server_metadata no_fields w in
      if not rpc_status.ok then (w', error_result, no_server_metadata) else (
        w',
        ok_result,
        record {
          server_name = response.name;
          server_version = response.version;
          server_extensions = response.extensions;
        },
      )

  unfoldable pub is_model_ready : String → String → W → W × CallResult × Bool
  is_model_ready model_name model_version w =
      let (w', rpc_status, response) =
        stub.call Kind.model_ready (record { name = model_name; version = model_version }) w in
      if not rpc_status.ok then (w', error_result, false) else (w', ok_result, response.ready)

  unfoldable pub model_list : W → W × CallResult × List String
  model_list w =
      let (w', rpc_status, response) = stub.call Kind.model_list no_fields w in
      if not rpc_status.ok then (w', error_result, []) else (w', ok_result, response.models)

  -- The version is only logged.
  unfoldable pub model_load : String → String → W → W × CallResult × Bool
  model_load model_name model_version w =
      let (w', rpc_status, response) = stub.call Kind.model_load (record { name = model_name }) w in
      if not rpc_status.ok then (w', error_result, false) else (w', ok_result, true)

  unfoldable pub model_unload : String → String → W → W × CallResult × Bool
  model_unload model_name model_version w =
      let (w', rpc_status, response) =
        stub.call Kind.model_unload (record { name = model_name }) w in
      if not rpc_status.ok then (w', error_result, false) else (w', ok_result, true)

  -- `metadata.inputs.push_back({input.name(), input.datatype(), shape})` for each input. The shape's
  -- `int64_t` elements become `uint64_t`, with the same bits.
  abbrev tensor_metadata : Messages.TensorMetadata → TensorMetadata
  tensor_metadata t = record { name = t.name; datatype = t.datatype; shape = t.shape }

  unfoldable pub model_metadata : String → String → W → W × CallResult × ModelMetadata
  model_metadata model_name model_version w =
      let (w', rpc_status, response) =
        stub.call Kind.model_metadata (record { name = model_name; version = model_version }) w in
      if not rpc_status.ok then (w', error_result, no_model_metadata) else (
        w',
        ok_result,
        record {
          model_name = response.name;
          model_versions = response.versions;
          platform = response.platform;
          inputs = map tensor_metadata response.inputs;
          outputs = map tensor_metadata response.outputs;
        },
      )
