-- ===== src/Server/Halting.antt =====
-- `grpc_server::stop` (grpc_server.cpp), one access to shared state at a time, beside the threads that it
-- waits for.
--
-- Both `rpc_handler` and the drain of `stop` take events from a queue: whoever calls `Next` first has the
-- event. `Next` returns false once the queue is shut and holds no operation. `Server::Shutdown` makes the
-- runtime give up what it holds, which is then returned as events with false in `ok`; that events come with
-- true in `ok` after it is left open too.
use tiny_inference_engine.Base.{
  ℕ, ◌==◌, Bool, true, false, ◌&&◌, Option, some, List, [], ◌∷◌, ◌>>=◌, if◌then◌else◌, map,
}
use tiny_inference_engine.Engine.{EngineInterface}
use tiny_inference_engine.Rpc.Host.{Wanted, Event, outstanding, release}
use tiny_inference_engine.Rpc.Execute.{arrive}
use tiny_inference_engine.Rpc.Counting.{count}
use tiny_inference_engine.Rpc.Threads.{Activity, waiting, World, queue_of, turn}
use tiny_inference_engine.Server.Grpc.{add_queues}

-- Where `stop` stands: before `release`, before `Server::Shutdown`, before the `Shutdown` of the first of
-- these queues, in the drain of a queue with these to follow, before the joins, at its end.
pub data Phase : Type 0 where
  releasing shutting : Phase
  closing : List ℕ → Phase
  draining : ℕ → List ℕ → Phase
  joining stopped : Phase

-- The world with the thread that stops it: the queues that are shut, and the threads that have left
-- `rpc_handler`.
pub record Halting (S : Type 0) : Type 0 where
  pub world : World S
  pub phase : Phase
  pub is_shut : ℕ → Bool
  pub ended : ℕ → Bool

pub data Turn : Type 0 where
  by_thread : ℕ → Event → Turn
  by_stop : Event → Turn

abbrev pub is_on : ℕ → Wanted → ℕ
is_on q w = if queue_of w == q then 1 else 0

-- How many operations the runtime holds for a queue.
abbrev pub load : {S : Type 0} → ℕ → World S → ℕ
load q w = count (is_on q) w.host.pending

-- `stop` has released the pool.
abbrev pub released : {S : Type 0} → World S → World S
released w = record w { host = release w.host }

abbrev pub is_waiting : Activity → Bool
is_waiting waiting = true
is_waiting _ = false

-- `stop` begins.
abbrev pub stopping : {S : Type 0} → World S → Halting S
stopping w = record { world = w; phase = releasing; is_shut = λ q. false; ended = λ q. false }

-- The queues in the order in which `stop` shuts them, with `n` inference threads.
abbrev pub stop_queues : ℕ → List ℕ
stop_queues n = n ∷ map (λ q. q.id) (add_queues n 0)

abbrev pub all_ended : List ℕ → (ℕ → Bool) → Bool
all_ended [] ended = true
all_ended (q ∷ qs) ended = ended q && all_ended qs ended

module _ {S : Type 0} where
  -- The event that the drain takes, of which nothing is used.
  abbrev pub take_drained : List Wanted → ℕ → Event → World S → World S
  take_drained [] q e w = w
  take_drained (v ∷ vs) q e w = if queue_of v == q then record w { host = arrive e v w.host } else w

  -- The next access of `stop`, for a server with these queues.
  unfoldable pub stop_turn : List ℕ → Phase → Event → Halting S → Halting S
  unfolding arrive release
  stop_turn queues releasing e x = record x { world = released x.world; phase = shutting }
  stop_turn queues shutting e x = record x { phase = closing queues }
  stop_turn queues (closing []) e x = record x { phase = joining }
  stop_turn queues (closing (q ∷ qs)) e x = record x {
    phase = draining q qs;
    is_shut = λ p. if p == q then true else x.is_shut p;
  }
  stop_turn queues (draining q qs) e x =
      if load q x.world == 0
      then record x { phase = closing qs }
      else record x { world = take_drained (outstanding e.tag x.world.host.pending) q e x.world }
  stop_turn queues joining e x =
      if all_ended queues x.ended then record x { phase = stopped } else x
  stop_turn queues stopped e x = x

  -- `Next` returns false.
  abbrev pub leaves : ℕ → Halting S → Bool
  leaves q x = is_waiting (x.world.activity q) && (x.is_shut q && (load q x.world == 0))

module _ {S : Type 0} (engine : EngineInterface S) (queues : List ℕ) where
  -- The next access of the thread of a queue.
  unfoldable pub thread_turn : ℕ → Event → Halting S → Option (Halting S)
  thread_turn q e x =
      if x.ended q
      then some x
      else if leaves q x
      then some (record x { ended = λ p. if p == q then true else x.ended p })
      else turn engine q e x.world >>= λ w. some (record x { world = w })

  unfoldable pub halting_turn : Turn → Halting S → Option (Halting S)
  unfolding thread_turn stop_turn
  halting_turn (by_thread q e) x = thread_turn q e x
  halting_turn (by_stop e) x = some (stop_turn queues x.phase e x)

  -- `none`: a thread accesses an object that the pool does not have.
  unfoldable pub halting : List Turn → Halting S → Option (Halting S)
  halting [] x = some x
  halting (t ∷ ts) x = halting_turn t x >>= halting ts
