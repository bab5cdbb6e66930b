-- ===== src/Server/Grpc.antt =====
-- The life of `grpc_server` (grpc_server.hpp, grpc_server.cpp): construction, `start`, `stop` and
-- destruction. The pool and the runtime's operations are the `Host` of Rpc/Host.antt; the pool is one
-- object for the whole process.
--
-- Whether `BuildAndStart` returns a server is an argument. A thread is the queue that it serves and
-- whether it is still joinable; the events that the threads take are Rpc/Execute.antt. `stop` is the
-- state after its last statement, where it comes to it: its joins return once the shut queues are
-- drained, when the runtime holds nothing for the server. Server/Halting.antt has `stop` access by
-- access, and Server/Manager.antt the other ends that `stop` can have beside the server's threads.
-- What the runtime does with calls that are asked for of a service without a server is not modelled: after a
-- failed `start` they only wait.
use mathlib.Core.Bool.{not}
use tiny_inference_engine.Base.{
  ℕ, suc, ◌+◌, Bool, true, false, Option, none, some, List, [], ◌∷◌, ◌++◌, map, if◌then◌else◌, zero,
  ◌||◌,
}
use tiny_inference_engine.Base.Int.{rounds}
use tiny_inference_engine.Messages.{
  Kind, server_live, server_ready, server_metadata, model_list, model_load, model_metadata,
  model_ready, model_unload, model_infer,
}
use tiny_inference_engine.Rpc.Host.{Host, release}
use tiny_inference_engine.Rpc.Execute.{spawn}
use tiny_inference_engine.Server.Config.{ServerConfig}

pub record Queue : Type 0 where
  pub id : ℕ
  pub is_shut : Bool

pub record Thread : Type 0 where
  pub queue : ℕ
  pub joinable : Bool

-- `next_queue` numbers the queues that `AddCompletionQueue` makes.
pub record GrpcServer : Type 0 where
  pub is_running : Bool
  pub threads : List Thread
  pub inference_queues : List Queue
  pub common_queue : Option Queue
  pub has_server : Bool
  pub next_queue : ℕ

unfoldable pub new_server : GrpcServer
new_server = record {
  is_running = false;
  threads = [];
  inference_queues = [];
  common_queue = none;
  has_server = false;
  next_queue = 0;
}

-- `n` calls of `AddCompletionQueue`.
unfoldable pub add_queues : ℕ → ℕ → List Queue
add_queues zero next = []
add_queues (suc n) next = record { id = next; is_shut = false } ∷ add_queues n (suc next)

-- The RPCs that the common thread creates, in order.
abbrev pub common_kinds : List Kind
common_kinds =
    server_live ∷ server_ready ∷ server_metadata ∷ model_list ∷ model_load ∷ model_metadata
    ∷ model_ready ∷ model_unload ∷ []

-- What the started threads create before they enter `rpc_handler`: a kind and a queue for each RPC.
unfoldable pub registrations : List Queue → ℕ → List (Kind × ℕ)
registrations [] common = map (λ k. (k, common)) common_kinds
registrations (q ∷ qs) common = (model_infer, q.id) ∷ registrations qs common

abbrev pub shut : Queue → Queue
shut q = record q { is_shut = true }

abbrev pub joined : Thread → Thread
joined t = record t { joinable = false }

unfoldable pub any_joinable : List Thread → Bool
any_joinable [] = false
any_joinable (t ∷ ts) = t.joinable || any_joinable ts

module _ {S : Type 0} where
  -- `rpc_pool::get().create_rpc<T>(_service, queue, _engine)->execute()` for each of them.
  unfoldable pub register : List (Kind × ℕ) → Host S → Host S
  register [] h = h
  register ((k, queue) ∷ rs) h = register rs (spawn k queue h)

  -- `start` from its guard on.
  unfoldable pub launch : ServerConfig → Bool → GrpcServer → Host S → GrpcServer × Host S × Bool
  unfolding add_queues registrations register
  launch config built s h =
      let n = rounds config.grpc_inference_threads in
      let queues = s.inference_queues ++ add_queues n s.next_queue in
      let common = s.next_queue + n in
      (
        record {
          is_running = built;
          threads =
              s.threads
              ++ map (λ q. record { queue = q.id; joinable = true }) queues
              ++ record { queue = common; joinable = true } ∷ [];
          inference_queues = queues;
          common_queue = some (record { id = common; is_shut = false });
          has_server = built;
          next_queue = suc common;
        },
        register (registrations queues common) h,
        built,
      )

  unfoldable pub start : ServerConfig → Bool → GrpcServer → Host S → GrpcServer × Host S × Bool
  unfolding launch
  start config built s h = if s.is_running then (s, h, false) else launch config built s h

  -- `stop` from its guard on.
  unfoldable pub halt : GrpcServer → Host S → GrpcServer × Host S
  unfolding release
  halt s h = (
    record s {
      is_running = false;
      common_queue = elim s.common_queue [ none ↦ none | some q ↦ some (shut q) ];
      inference_queues = map shut s.inference_queues;
      threads = map joined s.threads;
    },
    record (release h) { pending = [] },
  )

  unfoldable pub stop : GrpcServer → Host S → GrpcServer × Host S
  unfolding halt
  stop s h = if not s.is_running then (s, h) else halt s h

  -- `~grpc_server`: `stop()`, then the members. `none`: destroying a joinable `std::thread` calls
  -- `std::terminate`.
  unfoldable pub destroy : GrpcServer → Host S → Option (Host S)
  unfolding stop any_joinable
  destroy s h = let (s', h') = stop s h in if any_joinable s'.threads then none else some h'
