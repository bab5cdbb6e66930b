-- ===== src/Tests/Rpc.antt =====
-- The event loops of a server with one inference thread: it answers a call of `ServerLive`, and the call's
-- end comes.
use tiny_inference_engine.Base.{
  ℕ, ◌≤◌, ◌≡◌, ◌&&◌, refl, Bool, true, false, none, some, List, [], ◌∷◌, arith,
}
use tiny_inference_engine.Base.Int.{pos}
use tiny_inference_engine.Base.Table.{find, assign, adjust}
use tiny_inference_engine.Engine.{EngineInterface, NullState, null_state, null_backend, engine_over}
use tiny_inference_engine.Messages.{Kind, default_request}
use tiny_inference_engine.Rpc.Host.{Host, Event, Wanted, outstanding, complete, new_rpc, create_rpc}
use tiny_inference_engine.Rpc.Execute.{
  step, run, deliver, handle_event, execute, respond, spawn, arrive, store, setup_request,
  execute_create,
}
use tiny_inference_engine.Rpc.Invariant.{Inv}
use tiny_inference_engine.Rpc.Safety.{Deliverable, run_safe}
use tiny_inference_engine.Rpc.Listening.{listening, run-listening}
use tiny_inference_engine.Rpc.Sequential.{session, serve_all, calls, run-serve_all}
use tiny_inference_engine.Rpc.Replies.{Answered, replied, run-replied}
use tiny_inference_engine.Server.Config.{ServerConfig}
use tiny_inference_engine.Server.Grpc.{
  new_server, add_queues, registrations, register, launch, start,
}
use tiny_inference_engine.Server.Startup.{Ready, started, start-listening}

abbrev pub one_thread : ServerConfig
one_thread = record {
  restart_server = false;
  models_repo = "";
  enable_console_logger = true;
  console_logger_level = "info";
  enable_file_logger = true;
  file_logger_level = "trace";
  log_file = "";
  is_http_server_enabled = false;
  http_address = "0.0.0.0";
  http_port = "50052";
  is_grpc_server_enabled = true;
  grpc_address = "0.0.0.0";
  grpc_port = "50051";
  grpc_inference_threads = pos 1;
}

abbrev pub null_engine : EngineInterface NullState
null_engine = engine_over null_backend

abbrev pub first : Host NullState
first = started one_thread null_state

-- An event for the tag of the `ServerLive` object.
abbrev pub live_event : Event
live_event = record { tag = 1; ok = true; incoming = default_request }

abbrev pub two_events : List Event
two_events = live_event ∷ live_event ∷ []

abbrev pub some_wanted : List Wanted → Bool
some_wanted [] = false
some_wanted (w ∷ ws) = true

-- Each event of the run is for an operation that the runtime holds.
abbrev pub all_held : List Event → Host NullState → Bool
all_held [] h = true
all_held (e ∷ es) h =
    some_wanted (outstanding e.tag h.pending)
    && elim (step null_engine e h) [ none ↦ true | some h' ↦ all_held es h' ]

pub all_held-Deliverable :
    (es : List Event) (h : Host NullState) → all_held es h ≡ true → Deliverable null_engine es h
all_held-Deliverable [] h a = tt
all_held-Deliverable (e ∷ es) h a =
    (λ n. ground (arith, n), λ h' went. all_held-Deliverable es h' (ground (arith, went)))

pub first-next_id : first.next_id ≡ 9
unfolding start launch new_server add_queues registrations register spawn create_rpc execute_create
    store setup_request
first-next_id = refl

pub first-Ready : Ready first
first-Ready = (start-listening one_thread null_state Kind.server_live 1 (omega arith)).0

pub two_events-Deliverable : Deliverable null_engine two_events first
unfolding start launch new_server add_queues registrations register spawn create_rpc execute_create
    store setup_request step deliver arrive handle_event execute respond outstanding complete find
    assign adjust new_rpc
two_events-Deliverable = all_held-Deliverable two_events first refl

run_safe_example : (h' : Host NullState) × (run null_engine two_events first ≡ some h') × Inv h'
run_safe_example =
    run_safe null_engine two_events first first-Ready.inv (omega (arith, first-next_id))
      two_events-Deliverable

run-listening_example :
    (h' : Host NullState) × (run null_engine two_events first ≡ some h')
    × (listening Kind.server_live 1 h'.pending ≡ listening Kind.server_live 1 first.pending)
run-listening_example =
    run-listening null_engine Kind.server_live 1 two_events first first-Ready.inv
      (omega (arith, first-next_id)) two_events-Deliverable (refl, (refl, tt))

run-serve_all_example :
    (h' : Host NullState) × (run null_engine two_events first ≡ some h')
    × (session h' ≡ serve_all null_engine (calls null_engine two_events first) (session first))
run-serve_all_example =
    run-serve_all null_engine two_events first first-Ready.inv first-Ready.blank
      (omega (arith, first-next_id)) two_events-Deliverable

first-Answered : Answered first
unfolding replied find
first-Answered = record {
  within = λ t. rw first-Ready.silent (omega arith);
  later = λ t le. rw first-Ready.silent refl;
}

run-replied_example :
    (h' : Host NullState) × (run null_engine two_events first ≡ some h')
    × ((t : ℕ) → replied t h'.replies ≤ 1)
run-replied_example =
    run-replied null_engine two_events first first-Ready.inv first-Answered
      (omega (arith, first-next_id)) two_events-Deliverable
