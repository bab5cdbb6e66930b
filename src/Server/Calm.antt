-- ===== src/Server/Calm.antt =====
-- The threads while `grpc_server::stop` (grpc_server.cpp) runs, if all of them waited when it released the
-- pool: each waits, or has taken an event and goes no further.
use tiny_inference_engine.Base.{
  ==_refl, some_eq, Option-cases, ℕ, ◌≡◌, ◌⊎◌, inl, inr, refl, sym, ap, ◌∙◌, subst, Bool, true,
  false, some, List, [], ◌∷◌, ◌==◌, if◌then◌else◌, arith, Bool-cases,
}
use tiny_inference_engine.Base.Table.{find, adjust}
use tiny_inference_engine.Engine.{EngineInterface}
use tiny_inference_engine.Rpc.Host.{Host, Wanted, receive, finished, Event, outstanding, release}
use tiny_inference_engine.Rpc.Execute.{arrive}
use tiny_inference_engine.Rpc.Threads.{waiting, returned, World, queue_of, take_event, turn}
use tiny_inference_engine.Server.Shrinking.{
  Shrinks, Shrinks-refl, Shrinks-released, Shrinks-trans, take_drained-Shrinks, take_event-Shrinks,
}
use tiny_inference_engine.Server.Halting.{
  Phase, releasing, shutting, closing, draining, joining, stopped, Halting, Turn, by_thread,
  by_stop, load, leaves, stop_turn, thread_turn, halting_turn, halting, all_ended, released,
  take_drained, stopping,
}
use tiny_inference_engine.Server.Stopping.{turn-lost}
pub mod Threads

-- The thread has taken an event.
abbrev pub Took : {S : Type 0} → ℕ → World S → Type 0
Took q w = (t : ℕ) × (ok : Bool) × (w.activity q ≡ returned t ok)

abbrev pub OneOf : ℕ → List ℕ → Type 0
OneOf q [] = ⊥
OneOf q (p ∷ ps) = (q ≡ p) ⊎ OneOf q ps

-- The queues that `stop` has not yet drained.
abbrev pub remaining : List ℕ → Phase → List ℕ
remaining queues releasing = queues
remaining queues shutting = queues
remaining queues (closing qs) = qs
remaining queues (draining q qs) = q ∷ qs
remaining queues joining = []
remaining queues stopped = []

-- The queues that `stop` has not yet shut.
abbrev pub unshut : List ℕ → Phase → List ℕ
unshut queues (draining q qs) = qs
unshut queues releasing = queues
unshut queues shutting = queues
unshut queues (closing qs) = qs
unshut queues joining = []
unshut queues stopped = []

-- Once the pool is released while all threads wait.
pub record Calm {S : Type 0} (queues : List ℕ) (x : Halting S) : Type 0 where
  pub rpcs : x.world.host.rpcs ≡ []
  pub quiet : (q : ℕ) → (x.world.activity q ≡ waiting) ⊎ Took q x.world
  pub left : (q : ℕ) → x.ended q ≡ true → x.world.activity q ≡ waiting
  pub joined : x.phase ≡ stopped → all_ended queues x.ended ≡ true
  pub closed : (q : ℕ) → OneOf q queues → (load q x.world ≡ 0) ⊎ OneOf q (remaining queues x.phase)
  pub shut : (q : ℕ) → OneOf q queues → (x.is_shut q ≡ true) ⊎ OneOf q (unshut queues x.phase)

-- What follows keeps the events that threads have taken, and takes more of them.
abbrev pub Goes : {S : Type 0} → List ℕ → Halting S → Halting S → Type 0
Goes queues x y =
    Calm queues y × ((p : ℕ) → Took p x.world → Took p y.world) × Shrinks x.world y.world

pub arrive-empty :
    {S : Type 0} (e : Event) (v : Wanted) (h : Host S) → h.rpcs ≡ [] → (arrive e v h).rpcs ≡ []
unfolding arrive adjust
arrive-empty e (receive k queue) h none_there = elim (Bool-cases e.ok) [
  | inl ok ↦ rw (ok, none_there) refl
  | inr failed ↦ rw (failed) none_there
]
arrive-empty e (finished queue) h none_there = none_there

module _ {S : Type 0} (queues : List ℕ) where
  take_drained-empty :
      (vs : List Wanted) (q : ℕ) (e : Event) (w : World S)
      → w.host.rpcs ≡ []
      → ((take_drained vs q e w).host.rpcs ≡ []) × ((take_drained vs q e w).activity ≡ w.activity)
  take_drained-empty [] q e w none_there = (none_there, refl)
  take_drained-empty (v ∷ vs) q e w none_there = elim (Bool-cases (queue_of v == q)) [
    | inl mine ↦ rw mine (arrive-empty e v w.host none_there, refl)
    | inr other ↦ rw other (none_there, refl)
  ]

  -- The turns of `stop` that only change where it stands.
  Calm-phase :
      (x : Halting S) (ph : Phase) (is_shut : ℕ → Bool)
      → Calm queues x
      → (ph ≡ stopped → all_ended queues x.ended ≡ true)
      → ((q : ℕ)
          → OneOf q (remaining queues x.phase)
          → (load q x.world ≡ 0) ⊎ OneOf q (remaining queues ph))
      → ((q : ℕ)
          → (x.is_shut q ≡ true) ⊎ OneOf q (unshut queues x.phase)
          → (is_shut q ≡ true) ⊎ OneOf q (unshut queues ph))
      → Goes queues x (record x { phase = ph; is_shut = is_shut })
  Calm-phase x ph is_shut c done rest shuts = (
    record {
      rpcs = c.rpcs;
      quiet = c.quiet;
      left = c.left;
      joined = done;
      closed = λ q m. elim (c.closed q m) [ inl empty ↦ inl empty | inr left ↦ rest q left ];
      shut = λ q m. shuts q (c.shut q m);
    },
    λ p took. took,
    Shrinks-refl x.world,
  )

  Calm-world :
      (x : Halting S) (w : World S)
      → Calm queues x
      → (w.host.rpcs ≡ []) × (w.activity ≡ x.world.activity)
      → Shrinks x.world w
      → Goes queues x (record x { world = w })
  Calm-world x w c (none_there, same) less = (
    record {
      rpcs = none_there;
      quiet = λ q.
          subst (λ a. (a q ≡ waiting) ⊎ ((t : ℕ) × (ok : Bool) × (a q ≡ returned t ok))) (sym same)
            (c.quiet q);
      left = λ q e. ap (λ a. a q) same ∙ c.left q e;
      joined = c.joined;
      closed = λ q m. elim (c.closed q m) [
        | inl empty ↦ inl (less.emptied q empty)
        | inr left ↦ inr left
      ];
      shut = c.shut;
    },
    λ p. subst (λ a. (t : ℕ) × (ok : Bool) × (a p ≡ returned t ok)) (sym same),
    less,
  )

  -- Where it neither shuts nor is done with a queue.
  Calm-moves :
      (x : Halting S) (ph next : Phase)
      → Calm queues x
      → x.phase ≡ ph
      → remaining queues ph ≡ remaining queues next
      → unshut queues ph ≡ unshut queues next
      → (next ≡ stopped → all_ended queues x.ended ≡ true)
      → Goes queues x (record x { phase = next })
  Calm-moves x ph next c at left apart done =
      Calm-phase x next x.is_shut c done
        (λ q m. inr (subst (OneOf q) (ap (remaining queues) at ∙ left) m))
        (λ q m. subst (λ qs. (x.is_shut q ≡ true) ⊎ OneOf q qs) (ap (unshut queues) at ∙ apart) m)

  pub Calm-stop :
      (ph : Phase) (e : Event) (x : Halting S)
      → x.phase ≡ ph
      → Calm queues x
      → Goes queues x (stop_turn queues ph e x)
  unfolding stop_turn release
  Calm-stop releasing e x at c =
      let (calm, kept, less) =
        Calm-world x (released x.world) c (refl, refl) (Shrinks-released x.world) in
      let y = record x { world = released x.world } in
      let (calm2, _, _) = Calm-moves y releasing shutting calm at refl refl (λ z. cc) in
      (calm2, kept, less)
  Calm-stop shutting e x at c = Calm-moves x shutting (closing queues) c at refl refl (λ z. cc)
  Calm-stop (closing []) e x at c = Calm-moves x (closing []) joining c at refl refl (λ z. cc)
  Calm-stop (closing (q ∷ qs)) e x at c =
      Calm-phase x (draining q qs) _ c (λ z. cc)
        (λ r m. inr (subst (λ p. OneOf r (remaining queues p)) at m))
        (λ r m.
          let known : (x.is_shut r ≡ true) ⊎ ((r ≡ q) ⊎ OneOf r qs) =
            subst (λ p. (x.is_shut r ≡ true) ⊎ OneOf r (unshut queues p)) at m in
          elim known [
            | inl shut ↦ inl (ground (arith, shut))
            | inr (inl here) ↦ inl (rw (here, ==_refl q) refl)
            | inr (inr later) ↦ inr later
          ])
  Calm-stop (draining q qs) e x at c = elim (Bool-cases (load q x.world == 0)) [
    | inl empty ↦ rw empty (
        Calm-phase x (closing qs) x.is_shut c (λ z. cc)
          (λ p m.
            let left_in : (p ≡ q) ⊎ OneOf p qs = subst (λ ph. OneOf p (remaining queues ph)) at m in
            elim left_in [
              | inl here ↦ inl (rw here (ground (arith, empty)))
              | inr later ↦ inr later
            ])
          (λ r m. subst (λ p. (x.is_shut r ≡ true) ⊎ OneOf r (unshut queues p)) at m))
    | inr busy ↦
        let ws = outstanding e.tag x.world.host.pending in
        rw busy (
          Calm-world x _ c (take_drained-empty ws q e x.world c.rpcs)
            (take_drained-Shrinks ws q e x.world refl))
  ]
  Calm-stop joining e x at c = elim (Bool-cases (all_ended queues x.ended)) [
    | inl all ↦ rw all (Calm-moves x joining stopped c at refl refl (λ z. all))
    | inr some_run ↦ rw some_run (c, λ p took. took, Shrinks-refl x.world)
  ]
  Calm-stop stopped e x at c = (c, λ p took. took, Shrinks-refl x.world)

  -- `stop` after its release.
  pub Calm-released :
      (w : World S)
      → ((q : ℕ) → w.activity q ≡ waiting)
      → Calm queues (record (stopping w) { world = released w; phase = shutting })
  unfolding release
  Calm-released w idle = record {
    rpcs = refl;
    quiet = λ q. inl (idle q);
    left = λ q e. idle q;
    joined = λ e. cc;
    closed = λ q m. inr m;
    shut = λ q m. inr m;
  }
