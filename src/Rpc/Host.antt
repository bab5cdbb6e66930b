-- ===== src/Rpc/Host.antt =====
-- The state that RPC objects live in: `rpc` and `rpc_unary_async` (rpc/rpc.hpp, rpc_unary_async.hpp,
-- rpc_io.hpp), the pool (rpc/rpc_pool.hpp, rpc_pool.cpp), and the operations that were handed to the
-- gRPC runtime and have not completed.
--
-- The pool's `shared_ptr` is the only lasting owner of an RPC object. A tag, the object's raw
-- address, is modelled by the object's id; a tag whose id the pool no longer has is dangling.
use tiny_inference_engine.Base.{ℕ, ◌+◌, ◌%◌, ◌^◌, ◌==◌, Bool, List, [], ◌∷◌, if◌then◌else◌}
use tiny_inference_engine.Base.Table.{Table, assign, erase}
use tiny_inference_engine.Messages.{Kind, RequestOf, ResponseOf, default_request, default_response}

-- `rpc_unary_async::rpc_status`
pub data RpcStatus : Type 0 where
  create process finish : RpcStatus

-- The kind is the object's class, `queue` its completion queue `_cq`.
pub record Rpc : Type 0 where
  pub kind : Kind
  pub queue : ℕ
  pub state : RpcStatus
  pub request : RequestOf kind
  pub response : ResponseOf kind

-- The constructors: the base class sets the state, the members are default messages.
unfoldable pub new_rpc : Kind → ℕ → Rpc
new_rpc k queue = record {
  kind = k;
  queue = queue;
  state = create;
  request = default_request k;
  response = default_response k;
}

-- What the gRPC runtime was asked for: to receive the next call of a method, or to finish a call.
pub data Wanted : Type 0 where
  receive : Kind → ℕ → Wanted
  finished : ℕ → Wanted

-- A response handed to `response_writer.Finish`, whose status is always OK.
pub record Reply : Type 0 where
  pub tag : ℕ
  pub kind : Kind
  pub response : ResponseOf kind

pub record Host (S : Type 0) : Type 0 where
  pub engine : S
  pub next_id : ℕ
  pub rpcs : Table Rpc
  pub pending : List (ℕ × Wanted)
  pub replies : List Reply

module _ {S : Type 0} where
  -- `rpc_pool::create_rpc` up to its return: the new object's id and the host with the object in.
  unfoldable pub create_rpc : Kind → ℕ → Host S → ℕ × Host S
  create_rpc k queue h = (
    h.next_id,
    record h {
      next_id = (h.next_id + 1) % 2 ^ 64;
      rpcs = assign h.next_id (new_rpc k queue) h.rpcs;
    },
  )

  -- `rpc_pool::remove_rpc`
  unfoldable pub remove_rpc : ℕ → Host S → Host S
  remove_rpc id h = record h { rpcs = erase id h.rpcs }

  -- `rpc_pool::release`
  unfoldable pub release : Host S → Host S
  release h = record h { rpcs = [] }

-- The operations that wait under a tag, in the order of `pending`.
unfoldable pub outstanding : ℕ → List (ℕ × Wanted) → List Wanted
outstanding t [] = []
outstanding t ((u, w) ∷ p) = let rest = outstanding t p in if u == t then w ∷ rest else rest

-- The runtime completes the first operation under a tag.
unfoldable pub complete : ℕ → List (ℕ × Wanted) → List (ℕ × Wanted)
complete t [] = []
complete t ((u, w) ∷ p) = let rest = complete t p in if u == t then p else (u, w) ∷ rest

-- A completion event, as `Next` returns it: the tag, the flag, and the messages that the client sent,
-- one for each method; the runtime writes the one of the tag's method into `request`.
pub record Event : Type 0 where
  pub tag : ℕ
  pub ok : Bool
  pub incoming : (k : Kind) → RequestOf k
