-- ===== src/Rpc/Threads.antt =====
-- The event loops of all threads, one access to shared state at a time (rpc/rpc_unary_async.cpp,
-- rpc/rpc_pool.hpp, rpc_pool.cpp, and `start` and `rpc_handler` of grpc_server.cpp).
--
-- Thread `q` serves the queue `q`. A thread stands before its next access, with the local variables that
-- are live there. Each access is made as a whole; which thread is next is left open. Rpc/Execute.antt is
-- the same code with no thread in the middle of an event.
use tiny_inference_engine.Base.{
  ℕ, ◌+◌, ◌%◌, ◌^◌, ◌==◌, Bool, true, false, Option, none, some, List, [], ◌∷◌, ◌>>=◌,
  if◌then◌else◌,
}
use tiny_inference_engine.Base.Table.{find}
use tiny_inference_engine.Engine.{EngineInterface}
use tiny_inference_engine.Messages.{Kind}
use tiny_inference_engine.Rpc.Process.{process_request}
use tiny_inference_engine.Rpc.Classes.{class_of}
use tiny_inference_engine.Rpc.Host.{
  Rpc, RpcStatus, create, process, finish, Wanted, receive, finished, Host, Event, new_rpc,
  remove_rpc, outstanding,
}
use tiny_inference_engine.Rpc.Execute.{store, setup_request, arrive}

-- What a thread does once the RPC that it creates is set up: it answers the call of an object, or it
-- creates the RPCs of these classes before it enters its loop.
pub data Next : Type 0 where
  serve : ℕ → Next
  enroll : List Kind → Next

pub data Activity : Type 0 where
  -- in `cq->Next`
  waiting : Activity
  -- `Next` has returned the tag and the flag
  returned : ℕ → Bool → Activity
  -- before `next_id++` of `create_rpc`, with the class and the queue
  allocating : Kind → ℕ → Next → Activity
  -- before `_rpcs[rpc_id] = rpc`
  inserting : ℕ → Kind → ℕ → Next → Activity
  -- before `setup_request()` of the object
  setting_up : ℕ → Next → Activity
  -- before `_rpc_state = PROCESS`
  starting : ℕ → Next → Activity
  -- before `process_request()`, `write_response()` and `_rpc_state = FINISH`
  processing writing finishing : ℕ → Activity
  -- before `remove_rpc(rpc->id)`
  removing : ℕ → Activity

pub record World (S : Type 0) : Type 0 where
  pub host : Host S
  pub activity : ℕ → Activity

-- After an RPC is set up, and at the start of a thread.
abbrev pub resume : ℕ → Next → Activity
resume q (serve t) = processing t
resume q (enroll []) = waiting
resume q (enroll (k ∷ ks)) = allocating k q (enroll ks)

-- `rpc->id` or `rpc->execute()`, by the flag and the object's state.
abbrev pub executing : Bool → RpcStatus → ℕ → Rpc → Activity
executing false st t r = removing t
executing true create t r = setting_up t (enroll [])
executing true process t r = allocating (class_of r.kind).creates r.queue (serve t)
executing true finish t r = removing t

abbrev pub queue_of : Wanted → ℕ
queue_of (receive k queue) = queue
queue_of (finished queue) = queue

-- The next activity of a thread.
abbrev pub put : {S : Type 0} → ℕ → Activity → World S → Host S → World S
put q a w h = record { host = h; activity = λ p. if p == q then a else w.activity p }

module _ {S : Type 0} where
  -- `Next` returns an event for an operation on its own queue; else it goes on waiting.
  abbrev pub take_event : List Wanted → ℕ → Event → World S → World S
  take_event [] q e w = w
  take_event (v ∷ vs) q e w =
      if queue_of v == q then put q (returned e.tag e.ok) w (arrive e v w.host) else w

  -- An access to the object with this id; `none`: the pool has no such object. This asks more than the
  -- code where a thread sets up an RPC, for which it has a `shared_ptr` of its own until it is set up.
  abbrev pub on_rpc : ℕ → World S → (Rpc → World S) → Option (World S)
  on_rpc t w f = elim (find t w.host.rpcs) [ none ↦ none | some r ↦ some (f r) ]

module _ {S : Type 0} (engine : EngineInterface S) where
  -- `process_request()` on the object's request and response.
  abbrev pub processed : ℕ → Rpc → Host S → Host S
  processed t r h =
      let (s, response) = process_request engine r.kind h.engine r.request r.response in
      record (store t (record r { response = response }) h) { engine = s }

  abbrev pub written : ℕ → Rpc → Host S → Host S
  written t r h = record h {
    pending = (t, finished r.queue) ∷ h.pending;
    replies = record { tag = t; kind = r.kind; response = r.response } ∷ h.replies;
  }

  turn_in : Activity → ℕ → Event → World S → Option (World S)
  unfolding store setup_request remove_rpc
  turn_in waiting q e w = some (take_event (outstanding e.tag w.host.pending) q e w)
  turn_in (returned t ok) q e w = on_rpc t w (λ r. put q (executing ok r.state t r) w w.host)
  turn_in (allocating k queue n) q e w = some (
      put q (inserting w.host.next_id k queue n) w
        (record w.host { next_id = (w.host.next_id + 1) % 2 ^ 64 }))
  turn_in (inserting id k queue n) q e w =
      some (put q (setting_up id n) w (store id (new_rpc k queue) w.host))
  turn_in (setting_up id n) q e w =
      on_rpc id w (λ r. put q (starting id n) w (setup_request id r w.host))
  turn_in (starting id n) q e w =
      on_rpc id w (λ r. put q (resume q n) w (store id (record r { state = process }) w.host))
  turn_in (processing t) q e w = on_rpc t w (λ r. put q (writing t) w (processed t r w.host))
  turn_in (writing t) q e w = on_rpc t w (λ r. put q (finishing t) w (written t r w.host))
  turn_in (finishing t) q e w =
      on_rpc t w (λ r. put q waiting w (store t (record r { state = finish }) w.host))
  turn_in (removing t) q e w = on_rpc t w (λ r. put q waiting w (remove_rpc t w.host))

  -- The next access of thread `q`; the event is what the runtime has for it. `none`: the access is to an
  -- object that the pool does not have.
  unfoldable pub turn : ℕ → Event → World S → Option (World S)
  unfolding turn_in
  turn q e w = turn_in (w.activity q) q e w

  -- The accesses of the threads in a given order.
  unfoldable pub schedule : List (ℕ × Event) → World S → Option (World S)
  schedule [] w = some w
  schedule ((q, e) ∷ es) w = turn q e w >>= schedule es
