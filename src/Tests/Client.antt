-- ===== src/Tests/Client.antt =====
-- The client against the null engine and against a server that is not reached.
use tiny_inference_engine.Base.{◌+◌, ◌%◌, ◌^◌, ◌<◌, ◌≤◌, ◌≡◌, ◌↔◌, ◌⊎◌, ◌∷◌, [], true, false, some}
use tiny_inference_engine.Engine.{
  EngineInterface, NullState, null_state, engine_over, null_backend, create_engine,
}
use tiny_inference_engine.Messages.{default_response}
use tiny_inference_engine.Rpc.Process.{server_name, server_version}
use tiny_inference_engine.Client.CallResult.{ok_result}
use tiny_inference_engine.Client.Api.{no_model_metadata}
use tiny_inference_engine.Client.Grpc.{
  Stub, Status, is_server_live, is_server_ready, server_metadata, is_model_ready, model_list,
  model_load, model_unload, model_metadata,
}
use tiny_inference_engine.Client.Loopback.{loopback}
use tiny_inference_engine.Client.Answers.{query_answers, engine_answers, created_answers}
use tiny_inference_engine.Client.Sizes.{input_size, output_size, extend, sizes-product}
use tiny_inference_engine.Tests.Rpc.{null_engine}

abbrev pub to_null : Stub NullState
to_null = loopback null_engine

-- A server that is not reached.
abbrev unavailable : Status
unavailable = record { ok = false; error_code = 14; error_message = "failed to connect" }

abbrev pub unreached : Stub NullState
unreached = record { call = λ k request w. (w, unavailable, default_response k) }

engine_answers_example :
    (model_load to_null "resnet" "1" null_state ≡ (null_state, ok_result, true))
    × (model_unload to_null "resnet" "1" null_state ≡ (null_state, ok_result, true))
    × (model_metadata to_null "resnet" "1" null_state ≡ (null_state, ok_result, no_model_metadata))
unfolding engine_over null_backend
engine_answers_example = engine_answers null_engine "resnet" "1" null_state

query_answers_example :
    (is_server_live to_null null_state ≡ (null_state, ok_result, true))
    × (is_server_ready to_null null_state ≡ (null_state, ok_result, true))
    × (server_metadata to_null null_state ≡ (
      null_state,
      ok_result,
      record { server_name = server_name; server_version = server_version; server_extensions = [] },
    ))
    × (is_model_ready to_null "resnet" "1" null_state ≡ (null_state, ok_result, true))
    × (model_list to_null null_state ≡ (null_state, ok_result, []))
unfolding engine_over null_backend
query_answers_example = query_answers null_engine "resnet" "1" null_state

created_answers_example :
    (engine : EngineInterface NullState) × (create_engine ≡ some engine)
    × (is_server_ready (loopback engine) null_state ≡ (null_state, ok_result, true))
    × (is_model_ready (loopback engine) "resnet" "1" null_state ≡ (null_state, ok_result, true))
    × (model_load (loopback engine) "resnet" "1" null_state ≡ (null_state, ok_result, true))
    × (model_unload (loopback engine) "resnet" "1" null_state ≡ (null_state, ok_result, true))
    × (model_list (loopback engine) null_state ≡ (null_state, ok_result, []))
created_answers_example = created_answers "resnet" "1" null_state

sizes-product_example :
    (input_size (2 ∷ 3 ∷ []) ≡ extend (6 % 2 ^ 32))
    × ((input_size (2 ∷ 3 ∷ []) ≡ 6) ↔ ((6 < 2 ^ 31) ⊎ ((2 ^ 64 ≤ 6 + 2 ^ 31) × (6 < 2 ^ 64))))
    × (output_size (2 ∷ 3 ∷ []) ≡ 6 % 2 ^ 64)
sizes-product_example = sizes-product (2 ∷ 3 ∷ [])
