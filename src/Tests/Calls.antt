-- ===== src/Tests/Calls.antt =====
-- Three calls of clients on a new server with one inference thread.
use tiny_inference_engine.Base.{
  Option, none, ℕ, ◌≡◌, refl, true, some, List, [], ◌∷◌, ◌++◌, ◌≤◌, ◌↔◌, inl, inr, Bool-cases, ◌==◌,
  arith,
}
use tiny_inference_engine.Engine.{NullState, null_state, null_backend, engine_over}
use tiny_inference_engine.Messages.{Kind, RequestOf, no_fields, default_response}
use tiny_inference_engine.Rpc.Process.{process_request}
use tiny_inference_engine.Rpc.Host.{Event}
use tiny_inference_engine.Rpc.Sequential.{session}
use tiny_inference_engine.Rpc.Threads.{waiting, World, schedule}
use tiny_inference_engine.Server.Concurrent.{beginning}
use tiny_inference_engine.Server.Answering.{heard}
use tiny_inference_engine.Server.Calls.{beginning-asked}
use tiny_inference_engine.Rpc.Host.{receive, release, outstanding, complete}
use tiny_inference_engine.Rpc.Execute.{arrive}
use tiny_inference_engine.Rpc.Shutdown.{cancelled}
use tiny_inference_engine.Server.Grpc.{add_queues, stop}
use tiny_inference_engine.Server.Startup.{empty_host}
use tiny_inference_engine.Server.Halting.{
  Halting, Turn, by_thread, by_stop, shutting, stopped, halting, halting_turn, stop_turn,
  thread_turn, stopping, released, stop_queues,
}
use tiny_inference_engine.Server.Draining.{no_event}
use tiny_inference_engine.Server.Lifetime.{calls-stop, shut_down}
use tiny_inference_engine.Rpc.Counting.{Single}
use tiny_inference_engine.Server.Ending.{halting-ends_iff}
use tiny_inference_engine.Server.Refinement.{halting-stop}
use tiny_inference_engine.Tests.Server.{running, running-is_running}
use tiny_inference_engine.Tests.Rpc.{one_thread, null_engine}

abbrev three_calls : List ((k : Kind) × RequestOf k)
three_calls =
    (Kind.server_live, no_fields)
    ∷ (Kind.model_load, record { name = "resnet" })
    ∷ (Kind.server_live, no_fields)
    ∷ []

beginning-asked_example :
    (turns : List (ℕ × Event)) × (w : World NullState) × (schedule null_engine turns
        (beginning null_state 1)
      ≡ some w)
    × ((q : ℕ) → w.activity q ≡ waiting)
    × (heard (session w.host) ≡ (
      null_state,
      (Kind.server_live, record { live = true })
          ∷ (Kind.model_load, no_fields)
          ∷ (Kind.server_live, record { live = true })
          ∷ [],
    ))
unfolding engine_over null_backend process_request default_response
beginning-asked_example =
    beginning-asked null_engine one_thread null_state three_calls (omega arith) (omega arith)

calls-stop_example :
    (turns : List (ℕ × Event)) × (w : World NullState) × (ts : List Turn) × (x : Halting NullState)
    × (schedule null_engine turns (beginning null_state 1) ≡ some w)
    × ((q : ℕ) → w.activity q ≡ waiting)
    × (halting null_engine (stop_queues 1) ts (stopping w) ≡ some x)
    × (x.phase ≡ stopped)
    × (x.world.host.rpcs ≡ [])
    × (x.world.host.pending ≡ [])
    × (heard (session x.world.host) ≡ (
      null_state,
      (Kind.server_live, record { live = true })
          ∷ (Kind.model_load, no_fields)
          ∷ (Kind.server_live, record { live = true })
          ∷ [],
    ))
    × (halting null_engine (stop_queues 1) (by_stop no_event ∷ by_stop no_event ∷ []) (stopping w)
        ≡ some (shut_down (stop_queues 1) w))
    × (us : List Turn) × (halting null_engine (stop_queues 1) us (shut_down (stop_queues 1) w)
        ≡ none)
unfolding engine_over null_backend process_request default_response
calls-stop_example =
    calls-stop null_engine one_thread null_state three_calls (omega arith) (omega arith)

-- All threads wait, and the runtime holds an operation for the common queue.
abbrev idle_world : World NullState
idle_world = record {
  host = record (empty_host null_state) { pending = (5, receive Kind.server_live 1) ∷ [] };
  activity = λ q. waiting;
}

abbrev first_turns : List Turn
first_turns = by_stop no_event ∷ by_stop no_event ∷ by_stop (cancelled 5) ∷ []

abbrev other_turns : List Turn
other_turns =
    by_stop no_event
    ∷ by_stop no_event
    ∷ by_stop no_event
    ∷ by_stop no_event
    ∷ by_thread 1 no_event
    ∷ by_thread 0 no_event
    ∷ by_stop no_event
    ∷ []

abbrev begun : Halting NullState
begun = record (stopping idle_world) { world = released idle_world; phase = shutting }

abbrev or_begun : Option (Halting NullState) → Halting NullState
or_begun none = begun
or_begun (some x) = x

abbrev midway : Halting NullState
midway = or_begun (halting null_engine (stop_queues 1) first_turns begun)

abbrev at_end : Halting NullState
at_end = or_begun (halting null_engine (stop_queues 1) other_turns midway)

first_turns-halting : halting null_engine (stop_queues 1) first_turns begun ≡ some midway
unfolding halting halting_turn stop_turn add_queues release outstanding complete arrive
first_turns-halting = refl

at_end-stopped : at_end.phase ≡ stopped
unfolding halting halting_turn stop_turn add_queues release outstanding complete arrive thread_turn
at_end-stopped = refl

idle_world-Single : Single idle_world.host.pending
unfolding outstanding
idle_world-Single t = elim (Bool-cases (5 == t)) [
  | inl same ↦ inr (receive Kind.server_live 1, rw same refl)
  | inr differs ↦ inl (rw differs refl)
]

halting-ends_iff_example :
    ((us : List Turn) × (y : Halting NullState) × (halting null_engine (stop_queues 1) us midway
        ≡ some y)
      × (y.phase ≡ stopped))
    ↔ ((q : ℕ) → q ≤ 1 → midway.world.activity q ≡ waiting)
halting-ends_iff_example =
    halting-ends_iff null_engine 1 idle_world first_turns midway (λ p. refl) idle_world-Single
      first_turns-halting

all_turns-halting :
    halting null_engine (stop_queues 1) (first_turns ++ other_turns) begun ≡ some at_end
unfolding halting halting_turn stop_turn add_queues release outstanding complete arrive thread_turn
all_turns-halting = refl

halting-stop_example :
    (at_end.world.host ≡ (stop running idle_world.host).1)
    × ((q : ℕ) → q ≤ 1 → at_end.ended q ≡ true)
halting-stop_example =
    halting-stop null_engine 1 running idle_world (first_turns ++ other_turns) at_end
      running-is_running (λ q. refl) (omega arith, tt) all_turns-halting at_end-stopped
