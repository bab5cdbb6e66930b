-- ===== src/Tests/Example.antt =====
-- The example server with two calls, of which the second fails, and the example programs against the null
-- engine.
use tiny_inference_engine.Base.{
  ℕ, zero, suc, ◌*◌, ◌≡◌, ◌≢◌, refl, true, false, none, some, List, [], ◌∷◌, ◌++◌, arith, length,
  replicate, length-replicate,
}
use tiny_inference_engine.Base.Table.{find, assign, adjust}
use tiny_inference_engine.Engine.{NullState, null_state, null_backend, engine_over}
use tiny_inference_engine.Messages.{default_request}
use tiny_inference_engine.Rpc.Host.{
  Host, Event, outstanding, complete, new_rpc, create_rpc, remove_rpc,
}
use tiny_inference_engine.Rpc.Execute.{
  step, run, deliver, handle_event, execute, respond, spawn, arrive, store, setup_request,
  execute_create,
}
use tiny_inference_engine.Rpc.Safety.{Deliverable}
use tiny_inference_engine.Example.Server.{ServerImpl, serving, aborted, handle_rpcs, first_call}
use tiny_inference_engine.Example.Runs.{live_only, handle_rpcs-run}
use tiny_inference_engine.Client.Grpc.{model_load}
use tiny_inference_engine.Client.Memory.{encode}
use tiny_inference_engine.Client.Writes.{Fit}
use tiny_inference_engine.Client.Reader.{Heap}
use tiny_inference_engine.Client.Contents.{Field}
use tiny_inference_engine.Client.Writer.{done}
use tiny_inference_engine.Example.Client.{
  says, says_that, says_status, greeter_run, server_info, model_info,
}
use tiny_inference_engine.Client.Interface.{create_client}
use tiny_inference_engine.Example.Sessions.{info-unanswered, info_answers}
use tiny_inference_engine.Example.Vision.{Vision, VisionLaws, prepared, shown}
use tiny_inference_engine.Example.Image.{simple_inference}
use tiny_inference_engine.Example.Sending.{simple_inference-fails, simple_inference-loopback}
use tiny_inference_engine.Tests.Client.{to_null, unreached}
use tiny_inference_engine.Tests.Rpc.{null_engine, all_held-Deliverable}

-- An event for the object of the first call, and a failed one for that of the second.
abbrev one_call : List Event
one_call =
    record { tag = 0; ok = true; incoming = default_request }
    ∷ record { tag = 0; ok = true; incoming = default_request }
    ∷ []

abbrev failed_event : Event
failed_event = record { tag = 1; ok = false; incoming = default_request }

one_call-Deliverable :
    Deliverable null_engine (one_call ++ failed_event ∷ []) (live_only null_state)
unfolding spawn create_rpc execute_create store setup_request step deliver arrive handle_event
    execute respond outstanding complete find assign adjust new_rpc remove_rpc
one_call-Deliverable =
    all_held-Deliverable (one_call ++ failed_event ∷ []) (live_only null_state) refl

handle_rpcs-run_example :
    (x' : ServerImpl) × (h' : Host NullState) × (handle_rpcs one_call first_call
      ≡ some (serving x'))
    × (run null_engine one_call (live_only null_state) ≡ some h')
    × (x'.replies ≡ h'.replies)
    × (handle_rpcs (one_call ++ failed_event ∷ []) first_call ≡ some aborted)
    × (run null_engine (one_call ++ failed_event ∷ []) (live_only null_state) ≢ none)
handle_rpcs-run_example =
    handle_rpcs-run null_engine null_state one_call failed_event (refl, (refl, tt)) refl
      (omega arith) one_call-Deliverable

abbrev no_objects : ℕ → Field → List ℕ
no_objects i f = []

info_answers_example :
    (greeter_run to_null null_state ≡ (null_state, says_that "" true ∷ [], 0))
    × (server_info (create_client (λ uri. to_null) 0 no_objects) null_state ≡ (
      null_state,
      says "Running client_example_server_info"
          ∷ says_that "is_server_live: {} " true
          ∷ says_that "is_server_ready: {} " true
          ∷ says "server_metadata: "
          ∷ says "Example client_example_server_info finished"
          ∷ [],
      0,
    ))
    × (model_info (create_client (λ uri. to_null) 0 no_objects) null_state ≡ (
      null_state,
      says "Running client_example_model_info"
          ∷ says_that "is_model_ready: {}" true
          ∷ says "model_list:"
          ∷ says_that "model_load: {}" true
          ∷ says_that "model_unload: {}" true
          ∷ says "model_metadata: "
          ∷ says "Example client_example_model_info finished"
          ∷ [],
      0,
    ))
unfolding engine_over null_backend
info_answers_example = info_answers null_engine 0 no_objects null_state

info-unanswered_example :
    ((greeter_run unreached null_state).1
      ≡ says_status 14 "failed to connect" ∷ says_that "" false ∷ [])
    × ((server_info (create_client (λ uri. unreached) 0 no_objects) null_state).1
        ≡ says "Running client_example_server_info"
          ∷ says "ERROR on call is_server_live"
          ∷ says "ERROR on call is_server_ready"
          ∷ says "ERROR on call server_metadata"
          ∷ says "Example client_example_server_info finished"
          ∷ [])
    × ((model_info (create_client (λ uri. unreached) 0 no_objects) null_state).1
        ≡ says "Running client_example_model_info"
          ∷ says "ERROR on call is_model_ready"
          ∷ says "ERROR on call model_list"
          ∷ says "ERROR on call model_load"
          ∷ says "ERROR on call model_unload"
          ∷ says "ERROR on call model_metadata"
          ∷ says "Example client_example_model_info finished"
          ∷ [])
    × ((greeter_run unreached null_state).2 ≡ 0)
    × ((server_info (create_client (λ uri. unreached) 0 no_objects) null_state).2 ≡ 0)
    × ((model_info (create_client (λ uri. unreached) 0 no_objects) null_state).2 ≡ 0)
info-unanswered_example = info-unanswered unreached 0 no_objects null_state (λ k r w. refl)

-- A library whose images are black: an image is its size and its number of channels.
abbrev black : Vision (ℕ × ℕ × ℕ)
black = record {
  imread = λ path. (640, 480, 3);
  imshow = λ m. true;
  resize = λ m c r. some (c, r, m.2);
  cvt_color = λ m. some (m.0, m.1, 3);
  convert_to = λ m. m;
  cols = λ m. m.0;
  rows = λ m. m.1;
  channels = λ m. m.2;
  data_bytes = λ m. encode 4 (replicate (m.0 * (m.1 * m.2)) 0);
}

Fit-replicate : (n : ℕ) → Fit 4 (replicate n 0)
Fit-replicate zero = tt
Fit-replicate (suc n) = (omega arith, Fit-replicate n)

black-VisionLaws : VisionLaws black
black-VisionLaws = record {
  resized = λ m n c r e. (ground arith, ground arith);
  coloured = λ m n e. (ground arith, ground arith, ground arith);
  kept = λ m. (refl, refl, refl);
  numbers = λ m.
      let n = m.0 * (m.1 * m.2) in (replicate n 0, refl, Fit-replicate n, length-replicate n 0);
}

abbrev small_image : ℕ × ℕ × ℕ
small_image = (224, 224, 3)

small_image-prepared : prepared black ≡ some small_image
unfolding prepared shown
small_image-prepared = refl

abbrev empty_heap : Heap
empty_heap = record { next = 0; blocks = [] }

simple_inference-loopback_example :
    simple_inference (create_client (λ uri. to_null) 150529 no_objects) black empty_heap null_state
    ≡ done (null_state, says "Running client_example_simple_inference" ∷ [], 0)
unfolding engine_over null_backend
simple_inference-loopback_example =
    simple_inference-loopback black small_image black-VisionLaws 150529 no_objects empty_heap
      null_engine null_state small_image-prepared (omega arith)

simple_inference-fails_example :
    (values : List ℕ) × (black.data_bytes small_image ≡ encode 4 values)
    × (length values ≡ 150528)
    × (simple_inference
          (create_client (λ uri. unreached) 150529 no_objects)
          black
          empty_heap
          null_state
        ≡ done (
          null_state,
          says "Running client_example_simple_inference" ∷ says "Unable to perform inference" ∷ [],
          1,
        ))
unfolding model_load
simple_inference-fails_example =
    simple_inference-fails black small_image black-VisionLaws 150529 no_objects empty_heap unreached
      null_state small_image-prepared (omega arith) (λ r w. refl)
