-- ===== src/Example/Sessions.antt =====
-- The example programs (tiny_inference_client/examples/src) against the server's handlers and without a
-- server.
use tiny_inference_engine.Base.{ℕ, List, ◌≡◌, refl, true, false, [], ◌∷◌, ◌++◌, map}
use tiny_inference_engine.Engine.{EngineInterface}
use tiny_inference_engine.Messages.{Kind, RequestOf, no_fields, default_response}
use tiny_inference_engine.Rpc.Process.{process_request}
use tiny_inference_engine.Client.CallResult.{is_ok}
use tiny_inference_engine.Client.Grpc.{
  Stub, is_server_live, is_server_ready, server_metadata, is_model_ready, model_list, model_load,
  model_unload, model_metadata,
}
use tiny_inference_engine.Client.Contents.{Field}
use tiny_inference_engine.Client.Interface.{create_client}
use tiny_inference_engine.Client.Loopback.{loopback}
use tiny_inference_engine.Client.Answers.{
  query_answers, load_answers, metadata_answers, failed_calls,
}
use tiny_inference_engine.Example.Client.{
  says, says_that, says_status, greeter_live, greeter_run, server_info, model_info,
}

module _ {W : Type 0} (stub : Stub W) (fuel : ℕ) (objects : ℕ → Field → List ℕ) where
  abbrev pub AllFail : Type 0
  AllFail = (k : Kind) (r : RequestOf k) (w' : W) → (stub.call k r w').1.ok ≡ false

  not_ok :
      AllFail
      → (w' : W)
      → (is_ok (is_server_live stub w').1 ≡ false)
        × (is_ok (is_server_ready stub w').1 ≡ false)
        × (is_ok (server_metadata stub w').1 ≡ false)
        × (is_ok (is_model_ready stub "model_name" "v" w').1 ≡ false)
        × (is_ok (model_list stub w').1 ≡ false)
        × (is_ok (model_load stub "model_name" "v" w').1 ≡ false)
        × (is_ok (model_unload stub "model_name" "v" w').1 ≡ false)
        × (is_ok (model_metadata stub "model_name" "v" w').1 ≡ false)
  unfolding is_ok
  not_ok fails w' =
      let (a, b, c, d, e, f, g, h) = failed_calls stub "model_name" "v" w' (λ k r. fails k r w') in
      (
        rw (a) refl,
        rw (b) refl,
        rw (c) refl,
        rw (d) refl,
        rw (e) refl,
        rw (f) refl,
        rw (g) refl,
        rw (h) refl,
      )

  -- Where every RPC fails, the three example programs say so of each of their calls, the first with the
  -- status of its RPC, and still end with the exit code 0.
  pub info-unanswered :
      (w : W)
      → AllFail
      → let status = (stub.call Kind.server_live no_fields w).1 in
        ((greeter_run stub w).1
          ≡ says_status status.error_code status.error_message ∷ says_that "" false ∷ [])
        × ((server_info (create_client (λ uri. stub) fuel objects) w).1
            ≡ says "Running client_example_server_info"
              ∷ says "ERROR on call is_server_live"
              ∷ says "ERROR on call is_server_ready"
              ∷ says "ERROR on call server_metadata"
              ∷ says "Example client_example_server_info finished"
              ∷ [])
        × ((model_info (create_client (λ uri. stub) fuel objects) w).1
            ≡ says "Running client_example_model_info"
              ∷ says "ERROR on call is_model_ready"
              ∷ says "ERROR on call model_list"
              ∷ says "ERROR on call model_load"
              ∷ says "ERROR on call model_unload"
              ∷ says "ERROR on call model_metadata"
              ∷ says "Example client_example_model_info finished"
              ∷ [])
        × ((greeter_run stub w).2 ≡ 0)
        × ((server_info (create_client (λ uri. stub) fuel objects) w).2 ≡ 0)
        × ((model_info (create_client (λ uri. stub) fuel objects) w).2 ≡ 0)
  unfolding greeter_run greeter_live server_info model_info
  info-unanswered w fails =
      let s1 = (is_server_live stub w).0 in
      let s2 = (is_server_ready stub s1).0 in
      let m1 = (is_model_ready stub "model_name" "v" w).0 in
      let m2 = (model_list stub m1).0 in
      let m3 = (model_load stub "model_name" "v" m2).0 in
      let m4 = (model_unload stub "model_name" "v" m3).0 in
      (
        rw (fails Kind.server_live no_fields w) refl,
        rw ((not_ok fails w).0, (not_ok fails s1).1, (not_ok fails s2).2) refl,
        rw
            (
              (not_ok fails w).3,
              (not_ok fails m1).4,
              (not_ok fails m2).5,
              (not_ok fails m3).6,
              (not_ok fails m4).7,
            )
            refl,
        refl,
        refl,
        refl,
      )

module _ {S : Type 0} (engine : EngineInterface S) (fuel : ℕ) (objects : ℕ → Field → List ℕ) where
  -- Against the server's handlers, the greeter is told that the server is live; the program
  -- server_info reports what the server and its engine say and changes nothing; the program model_info
  -- reports the engine's models in their order, and success of the load and the unload of its model,
  -- and has changed the engine by these, without a version, and by the query of the metadata. All end
  -- with the exit code 0.
  pub info_answers :
      (s : S)
      → let s1 = (engine.model_load "model_name" "" s).0 in
        let s2 = (engine.model_unload "model_name" "" s1).0 in
        (greeter_run (loopback engine) s ≡ (s, says_that "" true ∷ [], 0))
        × (server_info (create_client (λ uri. loopback engine) fuel objects) s ≡ (
          s,
          says "Running client_example_server_info"
              ∷ says_that "is_server_live: {} " true
              ∷ says_that "is_server_ready: {} " (engine.is_engine_ready s)
              ∷ says "server_metadata: "
              ∷ says "Example client_example_server_info finished"
              ∷ [],
          0,
        ))
        × (model_info (create_client (λ uri. loopback engine) fuel objects) s ≡ (
          (engine.model_metadata "model_name" "v" s2).0,
          says "Running client_example_model_info"
                ∷ says_that "is_model_ready: {}" (engine.is_model_ready "model_name" "v" s)
                ∷ says "model_list:"
                ∷ map says (engine.model_list s)
              ++ says_that "model_load: {}" true
                ∷ says_that "model_unload: {}" true
                ∷ says "model_metadata: "
                ∷ says "Example client_example_model_info finished"
                ∷ [],
          0,
        ))
  unfolding greeter_run greeter_live server_info model_info is_ok process_request default_response
  info_answers s =
      let (live, ready, metadata, model_ready, models) = query_answers engine "model_name" "v" s in
      let s1 = (engine.model_load "model_name" "" s).0 in
      let s2 = (engine.model_unload "model_name" "" s1).0 in
      (
        refl,
        rw (live, ready, metadata) refl,
        rw
            (
              model_ready,
              models,
              (load_answers engine "model_name" "v" s).0,
              (load_answers engine "model_name" "v" s1).1,
              metadata_answers engine "model_name" "v" s2,
            )
            refl,
      )
