-- ===== src/Rpc/Execute.antt =====
-- `rpc_unary_async::execute` (rpc/rpc_unary_async.cpp) and the loop of `grpc_server::rpc_handler`
-- (grpc_server.cpp). One event at a time, in the order in which the threads take them. Rpc/Threads.antt
-- is the same code with the accesses of the threads interleaved inside the treatment of an event.
use tiny_inference_engine.Base.{
  ℕ, Bool, true, false, Option, none, some, List, [], ◌∷◌, ◌>>=◌, if◌then◌else◌,
}
use tiny_inference_engine.Base.Table.{find, assign, adjust}
use tiny_inference_engine.Engine.{EngineInterface}
use tiny_inference_engine.Messages.{Kind}
use tiny_inference_engine.Rpc.Process.{process_request}
use tiny_inference_engine.Rpc.Classes.{class_of}
use tiny_inference_engine.Rpc.Host.{
  Rpc, RpcStatus, create, process, finish, Wanted, receive, finished, Host, Event, new_rpc,
  create_rpc, remove_rpc, outstanding, complete,
}

module _ {S : Type 0} where
  -- The members of the object with this id, as they are now.
  unfoldable pub store : ℕ → Rpc → Host S → Host S
  store id r h = record h { rpcs = assign id r h.rpcs }

  -- `setup_request`: `Request<Method>(&context, &request, &response_writer, _cq, _cq, this)`.
  unfoldable pub setup_request : ℕ → Rpc → Host S → Host S
  setup_request id r h = record h {
    pending = (id, receive (class_of r.kind).listens r.queue) ∷ h.pending;
  }

  -- The branch CREATE of `execute`.
  unfoldable pub execute_create : ℕ → Rpc → Host S → Host S
  unfolding store setup_request
  execute_create id r h = store id (record r { state = process }) (setup_request id r h)

  -- `create_rpc`: `rpc_pool::get().create_rpc<T>(_service, _cq, _engine)->execute()`, where the new
  -- object is in CREATE.
  unfoldable pub spawn : Kind → ℕ → Host S → Host S
  unfolding create_rpc execute_create
  spawn k queue h = let (id, h') = create_rpc k queue h in execute_create id (new_rpc k queue) h'

  -- The runtime before it returns an event: it writes the message of a received call, and gives up
  -- the operation.
  unfoldable pub arrive : Event → Wanted → Host S → Host S
  arrive e (receive k queue) h =
      if e.ok
      then record h {
        rpcs = adjust (λ r. record r { request = e.incoming r.kind }) e.tag h.rpcs;
        pending = complete e.tag h.pending;
      }
      else record h { pending = complete e.tag h.pending }
  arrive e (finished queue) h = record h { pending = complete e.tag h.pending }

  abbrev deliver_first : List Wanted → Event → Host S → Option (Host S)
  deliver_first [] e h = none
  deliver_first (w ∷ ws) e h = some (arrive e w h)

  -- `none`: the runtime has no operation under the tag, and returns no such event.
  unfoldable pub deliver : Event → Host S → Option (Host S)
  unfolding arrive
  deliver e h = deliver_first (outstanding e.tag h.pending) e h

module _ {S : Type 0} (engine : EngineInterface S) where
  -- `process_request(); write_response(); _rpc_state = FINISH;`
  unfoldable pub respond : ℕ → Rpc → Host S → Host S
  unfolding store
  respond id r h =
      let (s, response) = process_request engine r.kind h.engine r.request r.response in
      store id (record r { response = response; state = finish })
        (record h {
          engine = s;
          pending = (id, finished r.queue) ∷ h.pending;
          replies = record { tag = id; kind = r.kind; response = response } ∷ h.replies;
        })

  execute_in : RpcStatus → ℕ → Rpc → Host S → Bool × Host S
  execute_in create id r h = (true, execute_create id r h)
  execute_in process id r h = (true, respond id r (spawn (class_of r.kind).creates r.queue h))
  execute_in finish id r h = (false, h)

  -- The virtual call `execute()` on the object with this id.
  unfoldable pub execute : ℕ → Rpc → Host S → Bool × Host S
  unfolding execute_in
  execute id r h = execute_in r.state id r h

  -- What one round of the loop does with the object that the tag points to.
  handle : Event → Rpc → Host S → Host S
  handle e r h =
      if e.ok
      then (let (goes_on, h') = execute e.tag r h in if goes_on then h' else remove_rpc e.tag h')
      else remove_rpc e.tag h

  abbrev handle_found : Option Rpc → Event → Host S → Option (Host S)
  unfolding handle
  handle_found none e h = none
  handle_found (some r) e h = some (handle e r h)

  -- One round of the loop of `rpc_handler`. `none`: the tag is dangling, and the loop reads freed memory.
  unfoldable pub handle_event : Event → Host S → Option (Host S)
  unfolding handle
  handle_event e h = handle_found (find e.tag h.rpcs) e h

  -- An event from the runtime, and its round.
  unfoldable pub step : Event → Host S → Option (Host S)
  step e h = deliver e h >>= handle_event e

  -- The loops of all threads, over the events in the order in which they are taken.
  unfoldable pub run : List Event → Host S → Option (Host S)
  run [] h = some h
  run (e ∷ es) h = step e h >>= run es
