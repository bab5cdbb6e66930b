-- ===== src/Rpc/Scheduled.antt =====
-- The loops of Rpc/Execute.antt, which take one event at a time, against the interleaved accesses of
-- Rpc/Threads.antt (rpc/rpc_unary_async.cpp, `rpc_handler` of grpc_server.cpp).
use tiny_inference_engine.Base.{
  none, ℕ, ◌+◌, ◌*◌, ◌^◌, ◌<◌, ◌≤◌, ◌≡◌, inl, inr, refl, sym, ◌∙◌, ap, subst, Option, some, List,
  [], ◌∷◌, arith, length, replicate, length-replicate, ◌++◌, Option-cases, ◌>>=◌,
}
use tiny_inference_engine.Base.Table.{find}
use tiny_inference_engine.Engine.{EngineInterface}
use tiny_inference_engine.Rpc.Host.{Rpc, Host, Event, outstanding}
use tiny_inference_engine.Rpc.Execute.{run}
use tiny_inference_engine.Rpc.Invariant.{Inv, due}
use tiny_inference_engine.Rpc.Threads.{Activity, waiting, World, queue_of, turn, schedule}
use tiny_inference_engine.Rpc.Interleaving.{schedule-Confined}
use tiny_inference_engine.Rpc.Safety.{Deliverable, nonempty}
use tiny_inference_engine.Rpc.Confined.{Confined, reserves, owed}
use tiny_inference_engine.Rpc.Uninterrupted.{accesses}
use tiny_inference_engine.Rpc.Round.{uninterrupted-step}

-- All threads are in `cq->Next`.
abbrev pub at_rest : {S : Type 0} → Host S → World S
at_rest h = record { host = h; activity = λ q. waiting }

owed-waiting :
    (t : ℕ) (activity : ℕ → Activity) (o : Option Rpc)
    → ((q : ℕ) → activity q ≡ waiting)
    → owed t activity o ≡ due o
owed-waiting t activity none idle = refl
owed-waiting t activity (some r) idle = rw (idle r.queue) refl

pub waiting-Confined_lem :
    {S : Type 0} (w : World S) → Inv w.host → ((q : ℕ) → w.activity q ≡ waiting) → Confined w
waiting-Confined_lem w v idle = record {
  agree = λ t. v.agree t ∙ sym (owed-waiting t w.activity (find t w.host.rpcs) idle);
  owns = λ q t. inl (rw (idle q) refl);
  fresh = v.fresh;
  reserved = λ q id e. absurd (cc (ap reserves (idle q), e));
  single = λ p q id e e'. absurd (cc (ap reserves (idle q), e'));
  own = λ q. rw (idle q) tt;
}

pub at_rest-Confined : {S : Type 0} (h : Host S) → Inv h → Confined (at_rest h)
at_rest-Confined h v = waiting-Confined_lem (at_rest h) v (λ q. refl)

module _ {S : Type 0} (engine : EngineInterface S) where
  schedule-append_lem :
      (bs cs : List (ℕ × Event)) (w : World S)
      → schedule engine (bs ++ cs) w ≡ (schedule engine bs w >>= schedule engine cs)
  unfolding schedule
  schedule-append_lem [] cs w = refl
  schedule-append_lem ((q, e) ∷ bs) cs w = elim (Option-cases (turn engine q e w)) [
    | inl fault ↦ rw fault refl
    | inr (w1, went) ↦ rw went (schedule-append_lem bs cs w1)
  ]

  pub schedule-append :
      (bs cs : List (ℕ × Event)) (w w1 : World S) {o : Option (World S)}
      → schedule engine bs w ≡ some w1
      → schedule engine cs w1 ≡ o
      → schedule engine (bs ++ cs) w ≡ o
  unfolding schedule
  schedule-append bs cs w w1 here rest =
      schedule-append_lem bs cs w ∙ ap (λ x. x >>= schedule engine cs) here ∙ rest

  -- The world after the accesses of one thread is confined.
  accesses-Confined :
      (q : ℕ) (e : Event) (k : ℕ) (w w1 : World S)
      → Confined w
      → w.host.next_id + k < 2 ^ 64
      → accesses engine q e k w ≡ some w1
      → Confined w1 × (w1.host.next_id ≤ w.host.next_id + k)
  accesses-Confined q e k w w1 v lt went =
      let as_many = length-replicate {A = ℕ × Event} k (q, e) in
      let (w2, went2, v2, small) =
        schedule-Confined engine (replicate k (q, e)) w v (omega (arith, as_many)) in
      let same : w2 ≡ w1 = cc (went2, went) in
      (subst Confined same v2, rw (sym same) (omega (arith, small, as_many)))

  pub schedule-run :
      (es : List Event) (w : World S)
      → Confined w
      → ((q : ℕ) → w.activity q ≡ waiting)
      → w.host.next_id + 9 * length es < 2 ^ 64
      → Deliverable engine es w.host
      → (turns : List (ℕ × Event)) × (w' : World S) × (schedule engine turns w ≡ some w')
        × (run engine es w.host ≡ some w'.host)
        × ((q : ℕ) → w'.activity q ≡ waiting)
  unfolding run schedule
  schedule-run [] w v idle lt d = ([], w, refl, refl, idle)
  schedule-run (e ∷ es) w v idle lt (n, later) =
      let (x, xs, o) = nonempty (outstanding e.tag w.host.pending) n in
      let q = queue_of x in
      let (k, w1, went, acts, stepped, few) =
        uninterrupted-step engine q e w x xs v (idle q) o refl in
      let (v1, small) = accesses-Confined q e k w w1 v (omega (arith, few)) went in
      let idle1 : (p : ℕ) → w1.activity p ≡ waiting = λ p. acts p ∙ ground (arith, idle p) in
      let (turns, w2, rest, ran, idle2) =
        schedule-run es w1 v1 idle1 (omega (arith, small, few)) (later w1.host stepped) in
      (
        replicate k (q, e) ++ turns,
        w2,
        schedule-append (replicate k (q, e)) turns w w1 went rest,
        rw stepped ran,
        idle2,
      )

  -- The loops that take one event at a time are one of the interleavings: from a host that satisfies the
  -- invariant, with all threads waiting, there is an order of the threads' accesses after which all
  -- threads wait again, and the host is the one that the sequential loops leave; for events that the
  -- runtime can return, and as long as ids do not wrap.
  pub schedule-sequential :
      (es : List Event) (h : Host S)
      → Inv h
      → h.next_id + 9 * length es < 2 ^ 64
      → Deliverable engine es h
      → (turns : List (ℕ × Event)) × (w' : World S) × (schedule engine turns (at_rest h) ≡ some w')
        × (run engine es h ≡ some w'.host)
        × ((q : ℕ) → w'.activity q ≡ waiting)
  schedule-sequential es h v lt d =
      schedule-run es (at_rest h) (at_rest-Confined h v) (λ q. refl) lt d
