-- ===== src/Server/Halted.antt =====
-- `grpc_server::stop` (grpc_server.cpp) from its begin to its end, while all threads wait.
use tiny_inference_engine.Base.{
  ℕ, ◌≡◌, refl, ap, ◌∙◌, Bool, true, List, [], ◌∷◌, ◌==◌, ==_refl, if◌then◌else◌, arith, Bool-cases,
  inl, inr,
}
use tiny_inference_engine.Engine.{EngineInterface}
use tiny_inference_engine.Rpc.Counting.{Single}
use tiny_inference_engine.Rpc.Threads.{waiting}
use tiny_inference_engine.Server.Halting.{
  shutting, closing, draining, joining, stopped, Halting, by_thread, by_stop, load, stop_turn,
  thread_turn, halting_turn, all_ended,
}
use tiny_inference_engine.Server.Draining.{
  Kept, Kept-same, Kept-phase, Reaches, reach_refl, reach_step, reach_trans, stop_turn_lem,
  no_event, drains,
}

-- `P` of each queue.
abbrev pub Each : (ℕ → Type 0) → List ℕ → Type 0
Each P [] = Unit {0}
Each P (q ∷ qs) = P q × Each P qs

-- The queue is shut, and the runtime holds nothing for it.
abbrev pub Closed : {S : Type 0} → Halting S → ℕ → Type 0
Closed x q = (x.is_shut q ≡ true) × (load q x.world ≡ 0)

pub Each-all : {P : ℕ → Type 0} (qs : List ℕ) → ((q : ℕ) → P q) → Each P qs
Each-all [] f = tt
Each-all (q ∷ qs) f = (f q, Each-all qs f)

pub Each-map : {P Q : ℕ → Type 0} (qs : List ℕ) → ((q : ℕ) → P q → Q q) → Each P qs → Each Q qs
Each-map [] f each = tt
Each-map (q ∷ qs) f (p, each) = (f q p, Each-map qs f each)

Closed-Kept : {S : Type 0} {x y : Halting S} (q : ℕ) → Kept x y → Closed x q → Closed y q
Closed-Kept q k (shut, empty) = (k.is_shut q shut, k.shrinks.emptied q empty)

all_ended-Each :
    (qs : List ℕ) (ended : ℕ → Bool) → Each (λ q. ended q ≡ true) qs → all_ended qs ended ≡ true
all_ended-Each [] ended each = refl
all_ended-Each (q ∷ qs) ended (e, each) = rw (e, all_ended-Each qs ended each) refl

module _ {S : Type 0} (engine : EngineInterface S) (queues : List ℕ) where
  pub closes :
      (qs : List ℕ) (x : Halting S)
      → x.phase ≡ closing qs
      → Single x.world.host.pending
      → Reaches engine queues (λ y. (y.phase ≡ joining) × Each (Closed y) qs) x
  unfolding stop_turn
  closes [] x ph single =
      let y = record x { phase = joining } in
      reach_step engine queues _ (by_stop no_event) x y
        (stop_turn_lem engine queues (closing []) no_event x ph) (Kept-phase x joining)
        (reach_refl engine queues _ y (refl, tt))
  closes (q ∷ qs) x ph single =
      let shuts : ℕ → Bool = λ p. if p == q then true else x.is_shut p in
      let y : Halting S = record x { phase = draining q qs; is_shut = shuts } in
      reach_step engine queues _ (by_stop no_event) x y
        (stop_turn_lem engine queues (closing (q ∷ qs)) no_event x ph)
        (Kept-same x (draining q qs) shuts x.ended (λ p e. ground (arith, e)) (λ p e. e))
        (reach_trans engine queues _ _ y
          (drains engine queues (load q y.world) q qs y refl refl single)
          (λ z k (ph2, empty).
            reach_trans engine queues _ _ z (closes qs z ph2 (k.shrinks.single single))
              (λ u l (ph3, each). reach_refl engine queues _ u (
                ph3,
                (
                  (l.is_shut q (k.is_shut q (rw (==_refl q) refl)), l.shrinks.emptied q empty),
                  each,
                ),
              ))))

  -- A waiting thread whose queue is closed leaves its loop.
  leaves_loop :
      (q : ℕ) (x : Halting S)
      → x.world.activity q ≡ waiting
      → Closed x q
      → Reaches engine queues (λ y. (y.ended q ≡ true) × (y.phase ≡ x.phase)) x
  unfolding halting_turn thread_turn
  leaves_loop q x idle (shut, empty) = elim (Bool-cases (x.ended q)) [
    | inl already ↦ reach_refl engine queues _ x (already, refl)
    | inr not_yet ↦
        let ends : ℕ → Bool = λ p. if p == q then true else x.ended p in
        let y : Halting S = record x { ended = ends } in
        reach_step engine queues _ (by_thread q no_event) x y (rw (not_yet, idle, shut, empty) refl)
          (Kept-same x x.phase x.is_shut ends (λ p e. e) (λ p e. ground (arith, e)))
          (reach_refl engine queues _ y (rw (==_refl q) refl, refl))
  ]

  leave_all :
      (qs : List ℕ) (x : Halting S)
      → Each (λ q. x.world.activity q ≡ waiting) qs
      → Each (Closed x) qs
      → Reaches engine queues (λ y. Each (λ q. y.ended q ≡ true) qs × (y.phase ≡ x.phase)) x
  leave_all [] x idle each = reach_refl engine queues _ x (tt, refl)
  leave_all (q ∷ qs) x (rests, idle) (closed, each) =
      reach_trans engine queues _ _ x (leaves_loop q x rests closed) (λ y k (ends, ph).
        reach_trans engine queues _ _ y
          (leave_all qs y (Each-map qs (λ p e. ap (λ a. a p) k.activity ∙ e) idle)
            (Each-map qs (λ p. Closed-Kept p k) each))
          (λ z l (all, ph2). reach_refl engine queues _ z ((l.ended q ends, all), ph2 ∙ ph)))

  -- From the joins on.
  pub joins :
      (x : Halting S)
      → x.phase ≡ joining
      → Each (λ q. x.world.activity q ≡ waiting) queues
      → Each (Closed x) queues
      → Reaches engine queues (λ y. (y.phase ≡ stopped) × Each (λ q. load q y.world ≡ 0) queues) x
  unfolding stop_turn
  joins x ph idle closed =
      reach_trans engine queues _ _ x (leave_all queues x idle closed) (λ u l (all, ph3).
        let v : Halting S = record u { phase = stopped } in
        reach_step engine queues _ (by_stop no_event) u v
          (stop_turn_lem engine queues joining no_event u (ph3 ∙ ph)
            ∙ rw (all_ended-Each queues u.ended all) refl)
          (Kept-phase u stopped)
          (reach_refl engine queues _ v
            (refl, Each-map queues (λ q c. l.shrinks.emptied q c.1) closed)))

  -- From the release on.
  pub halts :
      (x : Halting S)
      → x.phase ≡ shutting
      → Each (λ q. x.world.activity q ≡ waiting) queues
      → Single x.world.host.pending
      → Reaches engine queues (λ y. (y.phase ≡ stopped) × Each (λ q. load q y.world ≡ 0) queues) x
  unfolding stop_turn
  halts x ph idle single =
      let y : Halting S = record x { phase = closing queues } in
      reach_step engine queues _ (by_stop no_event) x y
        (stop_turn_lem engine queues shutting no_event x ph) (Kept-phase x (closing queues))
        (reach_trans engine queues _ _ y (closes queues y refl single) (λ z k (ph2, closed).
          joins z ph2 (Each-map queues (λ q e. ap (λ a. a q) k.activity ∙ e) idle) closed))
