-- ===== src/Server/Draining.antt =====
-- The drains of `grpc_server::stop` (grpc_server.cpp), with no thread in between.
use tiny_inference_engine.Base.{
  some_eq, Option-cases, ℕ, zero, suc, ◌+◌, ◌≡◌, inl, inr, refl, ap, ◌∙◌, Bool, true, false, some,
  List, [], ◌∷◌, ◌++◌, ◌==◌, arith,
}
use tiny_inference_engine.Engine.{EngineInterface}
use tiny_inference_engine.Rpc.Host.{Host, Wanted, receive, finished, Event, outstanding, complete}
use tiny_inference_engine.Rpc.Execute.{arrive}
use tiny_inference_engine.Rpc.Counting.{count, count-complete, count-held, Single, single-head}
use tiny_inference_engine.Rpc.Shutdown.{cancelled}
use tiny_inference_engine.Rpc.Threads.{queue_of}
use tiny_inference_engine.Server.Shrinking.{Shrinks, Shrinks-refl, Shrinks-trans, complete-Shrinks}
use tiny_inference_engine.Server.Halting.{
  Phase, closing, draining, Halting, Turn, by_stop, is_on, load, stop_turn, halting_turn, halting,
}

pub arrive-cancelled :
    {S : Type 0} (t : ℕ) (w : Wanted) (h : Host S)
    → arrive (cancelled t) w h ≡ record h { pending = complete t h.pending }
unfolding arrive
arrive-cancelled t (receive k queue) h = refl
arrive-cancelled t (finished queue) h = refl

-- What the rest of `stop` leaves as it was, once the pool is released.
pub record Kept {S : Type 0} (x y : Halting S) : Type 0 where
  pub activity : y.world.activity ≡ x.world.activity
  pub rpcs : y.world.host.rpcs ≡ x.world.host.rpcs
  pub is_shut : (q : ℕ) → x.is_shut q ≡ true → y.is_shut q ≡ true
  pub ended : (q : ℕ) → x.ended q ≡ true → y.ended q ≡ true
  pub shrinks : Shrinks x.world y.world

-- Nothing of the world is touched.
pub Kept-same :
    {S : Type 0} (x : Halting S) (ph : Phase) (is_shut ended : ℕ → Bool)
    → ((q : ℕ) → x.is_shut q ≡ true → is_shut q ≡ true)
    → ((q : ℕ) → x.ended q ≡ true → ended q ≡ true)
    → Kept x (record x { phase = ph; is_shut = is_shut; ended = ended })
Kept-same x ph is_shut ended shuts ends = record {
  activity = refl;
  rpcs = refl;
  is_shut = shuts;
  ended = ends;
  shrinks = Shrinks-refl x.world;
}

pub Kept-phase : {S : Type 0} (x : Halting S) (ph : Phase) → Kept x (record x { phase = ph })
Kept-phase x ph = Kept-same x ph x.is_shut x.ended (λ q e. e) (λ q e. e)

pub Kept-trans : {S : Type 0} {x y z : Halting S} → Kept x y → Kept y z → Kept x z
Kept-trans k l = record {
  activity = l.activity ∙ k.activity;
  rpcs = l.rpcs ∙ k.rpcs;
  is_shut = λ q e. l.is_shut q (k.is_shut q e);
  ended = λ q e. l.ended q (k.ended q e);
  shrinks = Shrinks-trans k.shrinks l.shrinks;
}

-- Any event where none is used.
abbrev pub no_event : Event
no_event = cancelled 0

module _ {S : Type 0} (engine : EngineInterface S) (queues : List ℕ) where
  -- A run that ends with `P`.
  abbrev pub Reaches : (Halting S → Type 0) → Halting S → Type 0
  Reaches P x =
      (ts : List Turn) × (y : Halting S) × (halting engine queues ts x ≡ some y) × Kept x y × P y

  pub halting-append :
      (ts us : List Turn) (x y z : Halting S)
      → halting engine queues ts x ≡ some y
      → halting engine queues us y ≡ some z
      → halting engine queues (ts ++ us) x ≡ some z
  unfolding halting
  halting-append [] us x y z went goes = let same : x ≡ y = some_eq went in rw same goes
  halting-append (t ∷ ts) us x y z went goes =
      elim (Option-cases (halting_turn engine queues t x)) [
        | inl fault ↦ absurd (cc (rw fault at went))
        | inr (x1, first) ↦ rw first (halting-append ts us x1 y z (rw first at went) goes)
      ]

  pub reach_refl : (P : Halting S → Type 0) (x : Halting S) → P x → Reaches P x
  unfolding halting
  reach_refl P x p = ([], x, refl, Kept-phase x x.phase, p)

  pub reach_step :
      (P : Halting S → Type 0) (t : Turn) (x y : Halting S)
      → halting_turn engine queues t x ≡ some y
      → Kept x y
      → Reaches P y
      → Reaches P x
  unfolding halting
  reach_step P t x y first k (ts, z, went, l, p) = (t ∷ ts, z, rw first went, Kept-trans k l, p)

  pub reach_trans :
      (P Q : Halting S → Type 0) (x : Halting S)
      → Reaches P x
      → ((y : Halting S) → Kept x y → P y → Reaches Q y)
      → Reaches Q x
  reach_trans P Q x (ts, y, went, k, p) next =
      let (us, z, goes, l, q) = next y k p in
      (ts ++ us, z, halting-append ts us x y z went goes, Kept-trans k l, q)

  -- A turn of `stop`.
  pub stop_turn_lem :
      (ph : Phase) (e : Event) (x : Halting S)
      → x.phase ≡ ph
      → halting_turn engine queues (by_stop e) x ≡ some (stop_turn queues ph e x)
  unfolding halting_turn
  stop_turn_lem ph e x same = ap (λ p. some (stop_turn queues p e x)) same

  -- The drain takes an operation of its queue.
  drained : ℕ → Halting S → Halting S
  drained t x = record x {
    world = record x.world {
      host = record x.world.host { pending = complete t x.world.host.pending };
    };
  }

  stop_turn-drained :
      (q t : ℕ) (qs : List ℕ) (v : Wanted) (vs : List Wanted) (x : Halting S)
      → (load q x.world == 0) ≡ false
      → outstanding t x.world.host.pending ≡ v ∷ vs
      → (queue_of v == q) ≡ true
      → stop_turn queues (draining q qs) (cancelled t) x ≡ drained t x
  unfolding stop_turn drained
  stop_turn-drained q t qs v vs x busy o mine =
      rw (busy, o, mine, arrive-cancelled t v x.world.host) refl

  drain_one :
      (q : ℕ) (qs : List ℕ) (x : Halting S) (m : ℕ)
      → load q x.world ≡ suc m
      → Single x.world.host.pending
      → (t : ℕ) × (stop_turn queues (draining q qs) (cancelled t) x ≡ drained t x)
        × (load q (drained t x).world ≡ m)
        × Kept x (drained t x)
  unfolding drained
  drain_one q qs x m some_left single =
      let p = x.world.host.pending in
      let (t, ws, v, vs, held, pos) = count-held (is_on q) p (omega (arith, some_left)) in
      let o = single-head t p ws vs v single held in
      let fewer : (r : ℕ) → count (is_on r) p ≡ is_on r v + count (is_on r) (complete t p) =
        λ r. count-complete (is_on r) t v [] p o in
      let mine : (queue_of v == q) ≡ true = ground (arith, pos) in
      let one : is_on q v ≡ 1 = rw mine refl in
      (
        t,
        stop_turn-drained q t qs v [] x (ground (arith, some_left)) o mine,
        omega (arith, fewer q, some_left, one),
        record {
          activity = refl;
          rpcs = refl;
          is_shut = λ r e. e;
          ended = λ r e. e;
          shrinks = complete-Shrinks t v [] x.world _ o refl (refl, refl, refl);
        },
      )

  pub drains :
      (m q : ℕ) (qs : List ℕ) (x : Halting S)
      → x.phase ≡ draining q qs
      → load q x.world ≡ m
      → Single x.world.host.pending
      → Reaches (λ y. (y.phase ≡ closing qs) × (load q y.world ≡ 0)) x
  unfolding stop_turn drained
  drains zero q qs x ph none_left single =
      let y = record x { phase = closing qs } in
      reach_step _ (by_stop no_event) x y
        (stop_turn_lem (draining q qs) no_event x ph ∙ rw none_left refl)
        (Kept-phase x (closing qs)) (reach_refl _ y (refl, none_left))
  drains (suc m) q qs x ph some_left single =
      let (t, taken, fewer, k) = drain_one q qs x m some_left single in
      reach_step _ (by_stop (cancelled t)) x (drained t x)
        (stop_turn_lem (draining q qs) (cancelled t) x ph ∙ ap some taken) k
        (drains m q qs (drained t x) ph fewer (k.shrinks.single single))
