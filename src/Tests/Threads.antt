-- ===== src/Tests/Threads.antt =====
-- The threads of a server with one inference thread, in interleavings of their accesses.
use tiny_inference_engine.Base.{ℕ, ◌≡◌, ◌≢◌, true, some, List, [], ◌∷◌, arith}
use tiny_inference_engine.Base.Table.{find}
use tiny_inference_engine.Engine.{NullState, null_state}
use tiny_inference_engine.Rpc.Host.{Event}
use tiny_inference_engine.Rpc.Execute.{run}
use tiny_inference_engine.Rpc.Threads.{World, waiting, schedule}
use tiny_inference_engine.Base.{Option, none, refl}
use tiny_inference_engine.Base.Table.{assign, erase, adjust}
use tiny_inference_engine.Messages.{default_request}
use tiny_inference_engine.Rpc.Host.{new_rpc, outstanding, complete}
use tiny_inference_engine.Rpc.Classes.{class_of}
use tiny_inference_engine.Rpc.Execute.{store, setup_request, arrive}
use tiny_inference_engine.Rpc.Threads.{turn}
use tiny_inference_engine.Server.Halting.{released}
use tiny_inference_engine.Server.Stopping.{at_tag, stop-strands}
use tiny_inference_engine.Server.Concurrent.{beginning, IsSafe, beginning-IsSafe, beginning-races}
use tiny_inference_engine.Rpc.Races.{no_one, runs, overlaps, accesses}
use tiny_inference_engine.Server.Enrollment.{beginning-run}
use tiny_inference_engine.Tests.Rpc.{
  one_thread, null_engine, first, live_event, two_events, first-next_id, two_events-Deliverable,
}

-- The inference thread and the common thread take turns.
abbrev some_turns : List (ℕ × Event)
some_turns =
    (0, live_event)
    ∷ (1, live_event)
    ∷ (1, live_event)
    ∷ (1, live_event)
    ∷ (0, live_event)
    ∷ (0, live_event)
    ∷ (0, live_event)
    ∷ (1, live_event)
    ∷ []

beginning-IsSafe_example :
    IsSafe (accesses null_engine some_turns (runs (no_one (beginning null_state 1))))
    × (w : World NullState) × (us : List (ℕ × Event)) × (schedule null_engine some_turns
          (beginning null_state 1)
        ≡ some w)
    × (accesses null_engine us (runs (no_one (beginning null_state 1))) ≡ runs (no_one w))
beginning-IsSafe_example = beginning-IsSafe null_engine null_state 1 some_turns (omega arith)

beginning-races_example :
    accesses null_engine
      ((0, live_event) ∷ (1, live_event) ∷ (0, live_event) ∷ (1, live_event) ∷ [])
      (runs (no_one (beginning null_state 1)))
    ≡ overlaps
beginning-races_example = beginning-races null_engine null_state 1 live_event (omega arith)

beginning-run_example :
    (turns : List (ℕ × Event)) × (w' : World NullState) × (schedule null_engine turns
        (beginning null_state 1)
      ≡ some w')
    × (run null_engine two_events first ≡ some w'.host)
    × ((q : ℕ) → w'.activity q ≡ waiting)
beginning-run_example =
    beginning-run null_engine one_thread null_state two_events (omega arith)
      (omega (arith, first-next_id)) two_events-Deliverable

-- The inference thread creates its RPC and is given a call.
abbrev call_event : Event
call_event = record { tag = 0; ok = true; incoming = default_request }

abbrev until_called : List (ℕ × Event)
until_called =
    (0, call_event) ∷ (0, call_event) ∷ (0, call_event) ∷ (0, call_event) ∷ (0, call_event) ∷ []

abbrev reached : Option (World NullState) → World NullState
reached none = beginning null_state 1
reached (some w) = w

abbrev called_world : World NullState
called_world = reached (schedule null_engine until_called (beginning null_state 1))

until_called-schedule :
    schedule null_engine until_called (beginning null_state 1) ≡ some called_world
unfolding schedule turn store setup_request outstanding find assign erase arrive adjust complete
    new_rpc class_of
until_called-schedule = refl

called_world-at_tag : at_tag (called_world.activity 0) ≡ some 0
unfolding schedule turn store setup_request outstanding find assign erase arrive adjust complete
    new_rpc class_of
called_world-at_tag = refl

stop-strands_example :
    (turn null_engine 0 call_event called_world ≢ none)
    × (turn null_engine 0 call_event (released called_world) ≡ none)
unfolding schedule
stop-strands_example =
    stop-strands null_engine null_state 1 until_called [] called_world (released called_world) 0 0
      call_event (omega arith) until_called-schedule called_world-at_tag tt refl
