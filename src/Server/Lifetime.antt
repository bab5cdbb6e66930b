-- ===== src/Server/Lifetime.antt =====
-- A server (grpc_server.cpp) from the start of its threads over the calls of its clients to the end of
-- `stop`.
use tiny_inference_engine.Base.{
  ℕ, zero, suc, ◌+◌, ◌*◌, ◌^◌, ◌<◌, ◌≤◌, ◌≡◌, refl, ap, ◌∙◌, none, some, List, [], ◌∷◌, map, length,
  arith, ==_refl, ltb, inl, inr, Bool-cases,
}
use tiny_inference_engine.Base.Int.{rounds}
use tiny_inference_engine.Base.Table.{find}
use tiny_inference_engine.Engine.{EngineInterface}
use tiny_inference_engine.Messages.{Kind, RequestOf}
use tiny_inference_engine.Rpc.Host.{Wanted, Host, Event, receive, release, new_rpc, outstanding}
use tiny_inference_engine.Rpc.Shutdown.{cancelled}
use tiny_inference_engine.Rpc.Execute.{spawn}
use tiny_inference_engine.Rpc.Counting.{count, Inv-Single, single-head}
use tiny_inference_engine.Rpc.Queues.{OnQueues, run-OnQueues}
use tiny_inference_engine.Rpc.Sequential.{session}
use tiny_inference_engine.Rpc.Threads.{waiting, World, queue_of, turn, schedule}
use tiny_inference_engine.Client.Loopback.{loopback}
use tiny_inference_engine.Server.Config.{ServerConfig}
use tiny_inference_engine.Server.Grpc.{add_queues, registrations, register}
use tiny_inference_engine.Server.Startup.{
  started, started-register, first_registrations, started-next_id, start-listening, empty_host,
}
use tiny_inference_engine.Server.Concurrent.{beginning}
use tiny_inference_engine.Server.Halting.{
  Halting, Turn, by_stop, by_thread, thread_turn, releasing, shutting, closing, stopped, stopping,
  released, stop_queues, is_on, load, halting_turn, halting, stop_turn,
}
use tiny_inference_engine.Server.Draining.{arrive-cancelled, no_event, stop_turn_lem}
use tiny_inference_engine.Server.Halted.{Each, Each-all, halts}
use tiny_inference_engine.Server.Answering.{heard, asked, listening-held}
use tiny_inference_engine.Server.Calls.{calls_served}

-- Where the runtime holds nothing for any queue up to `n`, it holds nothing.
pub nothing_left :
    (n : ℕ) (p : List (ℕ × Wanted))
    → OnQueues n p
    → ((q : ℕ) → q ≤ n → count (is_on q) p ≡ 0)
    → p ≡ []
nothing_left n [] on none_on = refl
nothing_left n ((t, w) ∷ p) (le, on) none_on =
    let own : is_on (queue_of w) w ≡ 1 = rw (==_refl (queue_of w)) refl in
    absurd (omega (arith, own, none_on (queue_of w) le))

each-add_queues :
    (P : ℕ → Type 0) (n next : ℕ)
    → Each P (map (λ q. q.id) (add_queues n next))
    → (q : ℕ) → next ≤ q
    → q < next + n
    → P q
unfolding add_queues
each-add_queues P zero next each q le lt = absurd (omega (arith, le, lt))
each-add_queues P (suc n) next (here, each) q le lt = elim (Bool-cases (ltb next q)) [
  | inl above ↦ each-add_queues P n (suc next) each q (ground (arith, above)) (omega (arith, lt))
  | inr same ↦ let at : next ≡ q = ground (arith, same) in rw (← at) here
]

pub each-stop_queues : (P : ℕ → Type 0) (n : ℕ) → Each P (stop_queues n) → (q : ℕ) → q ≤ n → P q
each-stop_queues P n (common, each) q le = elim (Bool-cases (ltb q n)) [
  | inl below ↦ each-add_queues P n 0 each q (omega arith) (ground (arith, below))
  | inr same ↦ let at : n ≡ q = ground (arith, same) in rw (← at) common
]

-- The registrations are on queues up to `n`.
abbrev AllOn : ℕ → List (Kind × ℕ) → Type 0
AllOn n [] = Unit {0}
AllOn n ((k, queue) ∷ rs) = (queue ≤ n) × AllOn n rs

registrations-AllOn :
    (m next c n : ℕ) → next + m ≤ n → c ≤ n → AllOn n (registrations (add_queues m next) c)
unfolding registrations add_queues
registrations-AllOn zero next c n le common =
    (common, (common, (common, (common, (common, (common, (common, (common, tt))))))))
registrations-AllOn (suc m) next c n le common =
    (omega (arith, le), registrations-AllOn m (suc next) c n (omega (arith, le)) common)

register-OnQueues :
    {S : Type 0} (n : ℕ) (rs : List (Kind × ℕ)) (h : Host S)
    → AllOn n rs
    → OnQueues n h.pending
    → OnQueues n (register rs h).pending
unfolding register spawn new_rpc
register-OnQueues n [] h all on = on
register-OnQueues n ((k, queue) ∷ rs) h (le, all) on =
    register-OnQueues n rs (spawn k queue h) all (le, on)

-- The thread of a queue takes the end of a tag's operation.
abbrev early_taken : ℕ → ℕ → List Turn
early_taken t q = by_thread q (cancelled t) ∷ by_thread q no_event ∷ []

-- `stop` after `release` and `Server::Shutdown`.
abbrev pub shut_down : {S : Type 0} → List ℕ → World S → Halting S
shut_down queues w = record (stopping w) { world = released w; phase = closing queues }

thread_takes :
    {S : Type 0} (engine : EngineInterface S) (queues : List ℕ) (w : World S) (t : ℕ) (v : Wanted)
    → ((q : ℕ) → w.activity q ≡ waiting)
    → outstanding t w.host.pending ≡ v ∷ []
    → halting engine queues (early_taken t (queue_of v)) (shut_down queues w) ≡ none
unfolding halting halting_turn thread_turn stop_turn turn release find
thread_takes engine queues w t v idle o =
    rw (idle (queue_of v), o, ==_refl (queue_of v), arrive-cancelled t v (release w.host))
      (rw (==_refl (queue_of v)) refl)

module _ {S : Type 0} (engine : EngineInterface S) (config : ServerConfig) (s : S)
    (cs : List ((k : Kind) × RequestOf k)) where
  started-OnQueues : OnQueues (rounds config.grpc_inference_threads) (started config s).pending
  started-OnQueues =
      let n = rounds config.grpc_inference_threads in
      rw (started-register config s) (
        register-OnQueues n (first_registrations n) (empty_host s)
          (registrations-AllOn n 0 n n (omega arith) (omega arith)) tt)

  -- Whether `stop` is safe is a race: after any calls of clients on a new server with an inference thread,
  -- each after the end of the one before, there is an order of the accesses in which `stop` comes to its
  -- end with no access to a freed object, the pool empty and no operation left with the runtime, the
  -- clients' answers and the engine's state those of the same calls without a server; and there is an
  -- order that goes on after the release and `Server::Shutdown`, the first two accesses of `stop`, in which
  -- a thread then accesses a freed object. In both orders all threads wait when `stop` begins. This holds
  -- as long as ids do not wrap.
  pub calls-stop :
      0 < rounds config.grpc_inference_threads
      → rounds config.grpc_inference_threads + 8 + 9 * length cs < 2 ^ 64
      → let n = rounds config.grpc_inference_threads in
        (turns : List (ℕ × Event)) × (w : World S) × (ts : List Turn) × (x : Halting S) × (schedule
            engine turns
            (beginning s n)
          ≡ some w)
        × ((q : ℕ) → w.activity q ≡ waiting)
        × (halting engine (stop_queues n) ts (stopping w) ≡ some x)
        × (x.phase ≡ stopped)
        × (x.world.host.rpcs ≡ [])
        × (x.world.host.pending ≡ [])
        × (heard (session x.world.host) ≡ asked (loopback engine) cs (s, []))
        × (halting engine (stop_queues n) (by_stop no_event ∷ by_stop no_event ∷ []) (stopping w)
            ≡ some (shut_down (stop_queues n) w))
        × (us : List Turn) × (halting engine (stop_queues n) us (shut_down (stop_queues n) w)
            ≡ none)
  unfolding halting halting_turn stop_turn release
  calls-stop pos lt =
      let n = rounds config.grpc_inference_threads in
      let small : n + 8 < 2 ^ 64 = omega (arith, lt) in
      let (es, turns, w, d, size, ran, went, idle, l, told) =
        calls_served engine config s cs pos lt in
      let ready = (start-listening config s Kind.server_live 0 small).0 in
      let (v, on) =
        run-OnQueues engine n es (started config s) w.host ready.inv
          (omega (arith, lt, size, started-next_id config s small)) d ran started-OnQueues in
      let (q, one) = l Kind.server_live in
      let (t, ps, vs, held) = listening-held Kind.server_live q w.host.pending one in
      let y : Halting S = record (stopping w) { world = released w; phase = shutting } in
      let (ts, x, goes, k, (ph, empty)) =
        halts engine (stop_queues n) y refl (Each-all (stop_queues n) idle) (Inv-Single w.host v) in
      (
        turns,
        w,
        by_stop no_event ∷ ts,
        x,
        went,
        idle,
        rw (stop_turn_lem engine (stop_queues n) releasing no_event (stopping w) refl) goes,
        ph,
        k.rpcs,
        nothing_left n x.world.host.pending (k.shrinks.on_queues n on)
            (each-stop_queues (λ q. load q x.world ≡ 0) n empty),
        ap (λ h. heard h) (rw (k.shrinks.engine, k.shrinks.replies) refl) ∙ told,
        refl,
        early_taken t q,
        thread_takes engine (stop_queues n) w t (receive Kind.server_live q) idle (
            single-head t w.host.pending ps vs (receive Kind.server_live q) (Inv-Single w.host v)
              held),
      )
