-- ===== src/Example/Server.antt =====
-- `ServerImpl` (grpc_example/src/server.cpp): one queue, one method, and objects that own themselves.
--
-- An object's address is its number, in the order in which they are made. The operations that the
-- runtime holds are those of Rpc/Host.antt, with the one queue as 0.
use tiny_inference_engine.Base.{
  ℕ, ◌+◌, true, Option, none, some, List, [], ◌∷◌, ◌>>=◌, if◌then◌else◌,
}
use tiny_inference_engine.Base.Table.{Table, find, assign, erase, adjust}
use tiny_inference_engine.Messages.{
  server_live, RequestOf, ResponseOf, default_request, default_response,
}
use tiny_inference_engine.Rpc.Host.{
  RpcStatus, create, process, finish, Wanted, receive, finished, Event, Reply, outstanding,
  complete,
}

-- `CallStatus` has the same three names as `rpc_status`.
pub record CallData : Type 0 where
  pub status : RpcStatus
  pub request : RequestOf server_live
  pub response : ResponseOf server_live

pub record ServerImpl : Type 0 where
  pub next : ℕ
  pub calls : Table CallData
  pub pending : List (ℕ × Wanted)
  pub replies : List Reply

-- What becomes of the process.
pub data Life : Type 0 where
  serving : ServerImpl → Life
  -- `abort()`
  aborted : Life
  -- a tag of an object that is deleted
  dangling : Life

abbrev pub new_data : CallData
new_data = record {
  status = create;
  request = default_request server_live;
  response = default_response server_live;
}

-- The case CREATE of `Proceed`.
unfoldable pub proceed_create : ℕ → CallData → ServerImpl → ServerImpl
proceed_create t c s = record s {
  calls = assign t (record c { status = process }) s.calls;
  pending = (t, receive server_live 0) ∷ s.pending;
}

-- `new CallData`: the constructor calls `Proceed`.
unfoldable pub new_call : ServerImpl → ServerImpl
unfolding proceed_create
new_call s =
    proceed_create s.next new_data
      (record s { next = s.next + 1; calls = assign s.next new_data s.calls })

-- `set_live(true)`, the new status, and `Finish`.
unfoldable pub answer_live : ℕ → CallData → ServerImpl → ServerImpl
answer_live t c s = record s {
  calls = assign t (record c { status = finish; response = record { live = true } }) s.calls;
  pending = (t, finished 0) ∷ s.pending;
  replies = record { tag = t; kind = server_live; response = record { live = true } } ∷ s.replies;
}

proceed_in : RpcStatus → ℕ → CallData → ServerImpl → ServerImpl
proceed_in create t c s = proceed_create t c s
proceed_in process t c s = answer_live t c (new_call s)
proceed_in finish t c s = record s { calls = erase t s.calls }

-- `Proceed` of the object at this address.
unfoldable pub proceed : ℕ → CallData → ServerImpl → ServerImpl
unfolding proceed_in
proceed t c s = proceed_in c.status t c s

-- The runtime before it returns an event, as in Rpc/Execute.antt.
unfoldable pub receive_event : Event → Wanted → ServerImpl → ServerImpl
receive_event e (receive k queue) s =
    if e.ok
    then record s {
      calls = adjust (λ c. record c { request = e.incoming server_live }) e.tag s.calls;
      pending = complete e.tag s.pending;
    }
    else record s { pending = complete e.tag s.pending }
receive_event e (finished queue) s = record s { pending = complete e.tag s.pending }

-- One round of the loop of `HandleRPCs`, with an event that `Next` returned.
unfoldable pub handle_rpc : Event → ServerImpl → Life
handle_rpc e s =
    if e.ok
    then (elim (find e.tag s.calls) [ none ↦ dangling | some c ↦ serving (proceed e.tag c s) ])
    else aborted

abbrev round_for : List Wanted → Event → ServerImpl → Option Life
round_for [] e s = none
round_for (w ∷ ws) e s = some (handle_rpc e (receive_event e w s))

-- An event from the runtime, and its round. `none`: the runtime returns no such event.
unfoldable pub round : Event → ServerImpl → Option Life
round e s = round_for (outstanding e.tag s.pending) e s

-- `HandleRPCs` over the events in the order in which `Next` returns them.
unfoldable pub handle_rpcs : List Event → ServerImpl → Option Life
handle_rpcs [] s = some (serving s)
handle_rpcs (e ∷ es) s = round e s >>= λ l. elim l [
  | serving s' ↦ handle_rpcs es s'
  | aborted ↦ some aborted
  | dangling ↦ some dangling
]

-- `Run` up to the loop, with the first object.
unfoldable pub first_call : ServerImpl
unfolding new_call
first_call = new_call (record { next = 0; calls = []; pending = []; replies = [] })
