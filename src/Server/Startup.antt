-- ===== src/Server/Startup.antt =====
-- What the server listens to once `grpc_server::start` (grpc_server.cpp) has run its threads up to
-- their event loops.
use native.Mathlib.Nat.{zero-add}
use tiny_inference_engine.Base.{
  ℕ, zero, suc, ◌+◌, ◌^◌, ◌<◌, ◌≡◌, ◌≢◌, refl, sym, true, List, [], ◌∷◌, arith, length, ◌==◌, ltb,
  if◌then◌else◌,
}
use tiny_inference_engine.Base.Int.{rounds}
use tiny_inference_engine.Base.Table.{find}
use tiny_inference_engine.Messages.{
  Kind, Kind-discrete, server_live, server_ready, server_metadata, model_list, model_load,
  model_metadata, model_ready, model_unload, model_infer,
}
use tiny_inference_engine.Rpc.Classes.{class_of-listens}
use tiny_inference_engine.Rpc.Host.{Host, receive, outstanding, new_rpc}
use tiny_inference_engine.Rpc.Execute.{spawn}
use tiny_inference_engine.Rpc.Invariant.{Inv, spawn-Inv}
use tiny_inference_engine.Rpc.Listening.{awaits, listening}
use tiny_inference_engine.Rpc.Sequential.{Blank, spawn-Blank}
use tiny_inference_engine.Rpc.Shutdown.{SetUp, spawn-SetUp}
use tiny_inference_engine.Server.Config.{ServerConfig}
use tiny_inference_engine.Server.Grpc.{
  Queue, new_server, add_queues, registrations, register, start,
}

-- Before any thread: no object, no operation, no reply.
abbrev pub empty_host : {S : Type 0} → S → Host S
empty_host s = record { engine = s; next_id = 0; rpcs = []; pending = []; replies = [] }

-- What holds between two rounds of the event loops, with no reply given yet.
pub record Ready {S : Type 0} (h : Host S) : Type 0 where
  pub inv : Inv h
  pub blank : Blank h
  pub set_up : SetUp h
  pub silent : h.replies ≡ []

unfoldable pub wants : Kind → ℕ → List (Kind × ℕ) → ℕ
wants k queue [] = 0
wants k queue ((j, q) ∷ rs) = awaits k queue (receive j q) + wants k queue rs

module _ {S : Type 0} where
  pub empty_host-Ready : (s : S) → Ready (empty_host s)
  unfolding outstanding find
  empty_host-Ready s = record {
    inv = record { agree = λ t. refl; fresh = λ t le. refl };
    blank = λ t. tt;
    set_up = λ t. tt;
    silent = refl;
  }

  spawn-Ready :
      (k : Kind) (queue : ℕ) (h : Host S)
      → h.next_id + 1 < 2 ^ 64
      → Ready h
      → Ready (spawn k queue h)
  unfolding spawn
  spawn-Ready k queue h lt r = record {
    inv = spawn-Inv k queue h lt r.inv;
    blank = spawn-Blank k queue h r.blank;
    set_up = spawn-SetUp k queue h r.set_up;
    silent = r.silent;
  }

  spawn-next_id :
      (k : Kind) (queue : ℕ) (h : Host S)
      → h.next_id + 1 < 2 ^ 64
      → (spawn k queue h).next_id ≡ h.next_id + 1
  unfolding spawn
  spawn-next_id k queue h lt = omega arith

  spawn-listening :
      (j k : Kind) (queue q : ℕ) (h : Host S)
      → listening k queue (spawn j q h).pending
        ≡ awaits k queue (receive j q) + listening k queue h.pending
  unfolding spawn listening new_rpc
  spawn-listening j k queue q h = rw class_of-listens

  register-Ready :
      (rs : List (Kind × ℕ)) (h : Host S)
      → h.next_id + length rs < 2 ^ 64
      → Ready h
      → Ready (register rs h)
  unfolding register
  register-Ready [] h lt r = r
  register-Ready ((k, queue) ∷ rs) h lt r =
      register-Ready rs (spawn k queue h) (omega (arith, spawn-next_id k queue h (omega arith)))
        (spawn-Ready k queue h (omega arith) r)

  register-next_id :
      (rs : List (Kind × ℕ)) (h : Host S)
      → h.next_id + length rs < 2 ^ 64
      → (register rs h).next_id ≡ h.next_id + length rs
  unfolding register
  register-next_id [] h lt = omega arith
  register-next_id ((k, queue) ∷ rs) h lt =
      let one : (spawn k queue h).next_id ≡ h.next_id + 1 = spawn-next_id k queue h (omega arith) in
      omega (arith, one, register-next_id rs (spawn k queue h) (omega (arith, one)))

  register-engine : (rs : List (Kind × ℕ)) (h : Host S) → (register rs h).engine ≡ h.engine
  unfolding register spawn
  register-engine [] h = refl
  register-engine ((k, queue) ∷ rs) h = register-engine rs (spawn k queue h)

  register-listening :
      (rs : List (Kind × ℕ)) (k : Kind) (queue : ℕ) (h : Host S)
      → listening k queue (register rs h).pending ≡ wants k queue rs + listening k queue h.pending
  unfolding register wants
  register-listening [] k queue h = omega arith
  register-listening ((j, q) ∷ rs) k queue h =
      omega (arith, register-listening rs k queue (spawn j q h), spawn-listening j k queue q h)

-- The RPCs that a server with `n` inference threads creates.
abbrev pub first_registrations : ℕ → List (Kind × ℕ)
first_registrations n = registrations (add_queues n 0) n

length-registrations : (qs : List Queue) (c : ℕ) → length (registrations qs c) ≡ length qs + 8
unfolding registrations
length-registrations [] c = refl
length-registrations (q ∷ qs) c = omega (arith, length-registrations qs c)

pub length-add_queues : (n next : ℕ) → length (add_queues n next) ≡ n
unfolding add_queues
length-add_queues zero next = refl
length-add_queues (suc n) next = omega (arith, length-add_queues n (suc next))

-- The awaited calls that the registrations give, by method: one inference call on each inference
-- queue, and one call of every other method on the common queue.
abbrev pub expected : ℕ → Kind → ℕ → ℕ
expected n model_infer queue = if ltb queue n then 1 else 0
expected n _ queue = if n == queue then 1 else 0

wants_common :
    (k : Kind) (queue c : ℕ)
    → k ≢ model_infer
    → wants k queue (registrations [] c) ≡ (if c == queue then 1 else 0)
unfolding wants registrations awaits Kind-discrete
wants_common model_infer queue c n = absurd (n refl)
wants_common _ queue c n = ground arith

wants_other :
    (n next c queue : ℕ) (k : Kind)
    → k ≢ model_infer
    → wants k queue (registrations (add_queues n next) c) ≡ (if c == queue then 1 else 0)
unfolding wants registrations add_queues awaits
wants_other zero next c queue k ne = wants_common k queue c ne
wants_other (suc n) next c queue k ne =
    ground (arith, wants_other n (suc next) c queue k ne, λ (e : model_infer ≡ k). ne (sym e))

wants_infer :
    (n next c queue : ℕ)
    → wants model_infer queue (registrations (add_queues n next) c)
      ≡ (if ltb queue next then 0 else if ltb queue (next + n) then 1 else 0)
unfolding wants registrations add_queues awaits Kind-discrete
wants_infer zero next c queue = ground arith
wants_infer (suc n) next c queue = ground (arith, wants_infer n (suc next) c queue)

wants-expected :
    (n : ℕ) (k : Kind) (queue : ℕ) → wants k queue (first_registrations n) ≡ expected n k queue
wants-expected n model_infer queue = ground (arith, wants_infer n 0 n queue)
wants-expected n server_live queue = wants_other n 0 n queue server_live (λ e. cc)
wants-expected n server_ready queue = wants_other n 0 n queue server_ready (λ e. cc)
wants-expected n server_metadata queue = wants_other n 0 n queue server_metadata (λ e. cc)
wants-expected n model_list queue = wants_other n 0 n queue model_list (λ e. cc)
wants-expected n model_load queue = wants_other n 0 n queue model_load (λ e. cc)
wants-expected n model_metadata queue = wants_other n 0 n queue model_metadata (λ e. cc)
wants-expected n model_ready queue = wants_other n 0 n queue model_ready (λ e. cc)
wants-expected n model_unload queue = wants_other n 0 n queue model_unload (λ e. cc)

-- The host that a new server has once its threads enter their loops.
abbrev pub started : {S : Type 0} → ServerConfig → S → Host S
started config s = (start config true new_server (empty_host s)).1

pub started-register :
    {S : Type 0} (config : ServerConfig) (s : S)
    → started config s
      ≡ register (first_registrations (rounds config.grpc_inference_threads)) (empty_host s)
unfolding start new_server
started-register config s = rw zero-add

length-first_registrations : (n : ℕ) → length (first_registrations n) ≡ n + 8
length-first_registrations n =
    omega (arith, length-registrations (add_queues n 0) n, length-add_queues n 0)

-- The ids that a new server has given out.
pub started-next_id :
    {S : Type 0} (config : ServerConfig) (s : S)
    → rounds config.grpc_inference_threads + 8 < 2 ^ 64
    → (started config s).next_id ≡ rounds config.grpc_inference_threads + 8
started-next_id config s lt =
    let n = rounds config.grpc_inference_threads in
    let size = length-first_registrations n in
    rw (started-register config s) (
      omega (
        arith,
        size,
        register-next_id (first_registrations n) (empty_host s) (omega (arith, size)),
      ))

pub started-engine : {S : Type 0} (config : ServerConfig) (s : S) → (started config s).engine ≡ s
started-engine config s =
    rw (started-register config s)
      (register-engine (first_registrations (rounds config.grpc_inference_threads)) (empty_host s))

-- A new server whose `BuildAndStart` succeeds, with `n` inference threads, is ready for events, and
-- awaits exactly: one inference call on each of its `n` inference queues, and one call of each of the
-- other eight methods on the common queue, provided that its ids do not wrap.
pub start-listening :
    {S : Type 0} (config : ServerConfig) (s : S) (k : Kind) (queue : ℕ)
    → rounds config.grpc_inference_threads + 8 < 2 ^ 64
    → Ready (started config s)
      × (listening k queue (started config s).pending
          ≡ expected (rounds config.grpc_inference_threads) k queue)
unfolding listening
start-listening config s k queue lt =
    let n = rounds config.grpc_inference_threads in
    let size = length-first_registrations n in
    (
      rw (started-register config s) (
          register-Ready (first_registrations n) (empty_host s) (omega (arith, size))
            (empty_host-Ready s)),
      rw (started-register config s) (
          omega (
            arith,
            register-listening (first_registrations n) k queue (empty_host s),
            wants-expected n k queue,
          )),
    )
