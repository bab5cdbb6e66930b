-- ===== src/Example/Client.antt =====
-- The example clients: `GreeterClient` (grpc_example/src/client.cpp), and the programs
-- client_example_server_info.cpp and client_example_model_info.cpp
-- (tiny_inference_client/examples/src), with what they print and log.
--
-- A program's result is its exit code.
use tiny_inference_engine.Base.{ℕ, String, Bool, false, List, [], ◌∷◌, ◌++◌, map, if◌then◌else◌}
use tiny_inference_engine.Messages.{Kind, no_fields}
use tiny_inference_engine.Client.CallResult.{CallResult, is_ok}
use tiny_inference_engine.Client.Grpc.{Stub}
use tiny_inference_engine.Client.Interface.{ClientInterface}

-- A line with the values that it is formatted with.
pub data Line : Type 0 where
  says : String → Line
  says_that : String → Bool → Line
  says_count : String → ℕ → Line
  says_status : ℕ → String → Line

-- `if(call_result.ok())` with its two branches.
unfoldable pub report : CallResult → List Line → String → List Line
report r lines failure = if is_ok r then lines else says failure ∷ []

module _ {W : Type 0} (stub : Stub W) where
  -- `GreeterClient::ServerLive`
  unfoldable pub greeter_live : W → W × List Line × Bool
  greeter_live w =
      let (w', status, reply) = stub.call Kind.server_live no_fields w in
      if status.ok
      then (w', [], reply.live)
      else (w', says_status status.error_code status.error_message ∷ [], false)

  -- `Run` of the greeter, and `return 0` of its `main`.
  unfoldable pub greeter_run : W → W × List Line × ℕ
  greeter_run w =
      let (w', lines, reply) = greeter_live w in (w', lines ++ says_that "" reply ∷ [], 0)

module _ {W : Type 0} (factory : String → ClientInterface W) where
  abbrev client : ClientInterface W
  client = factory "localhost:50051"

  -- Each program ends with `return EXIT_SUCCESS`, which is 0.
  unfoldable pub server_info : W → W × List Line × ℕ
  unfolding report
  server_info w =
      let (w1, r1, live) = client.is_server_live w in
      let (w2, r2, ready) = client.is_server_ready w1 in
      let (w3, r3, metadata) = client.server_metadata w2 in
      (
        w3,
        says "Running client_example_server_info"
              ∷ report r1 (says_that "is_server_live: {} " live ∷ []) "ERROR on call is_server_live"
            ++ report r2 (says_that "is_server_ready: {} " ready ∷ [])
                "ERROR on call is_server_ready"
            ++ report r3 (says "server_metadata: " ∷ []) "ERROR on call server_metadata"
            ++ says "Example client_example_server_info finished" ∷ [],
        0,
      )

  unfoldable pub model_info : W → W × List Line × ℕ
  unfolding report
  model_info w =
      let model_name : String = "model_name" in
      let model_version : String = "v" in
      let (w1, r1, ready) = client.is_model_ready model_name model_version w in
      let (w2, r2, models) = client.model_list w1 in
      let (w3, r3, loaded) = client.model_load model_name model_version w2 in
      let (w4, r4, unloaded) = client.model_unload model_name model_version w3 in
      let (w5, r5, metadata) = client.model_metadata model_name model_version w4 in
      (
        w5,
        says "Running client_example_model_info"
              ∷ report r1 (says_that "is_model_ready: {}" ready ∷ []) "ERROR on call is_model_ready"
            ++ report r2 (says "model_list:" ∷ map says models) "ERROR on call model_list"
            ++ (report r3 (says_that "model_load: {}" loaded ∷ []) "ERROR on call model_load"
                ++ report r4 (says_that "model_unload: {}" unloaded ∷ [])
                    "ERROR on call model_unload"
                ++ report r5 (says "model_metadata: " ∷ []) "ERROR on call model_metadata"
                ++ says "Example client_example_model_info finished" ∷ []),
        0,
      )
