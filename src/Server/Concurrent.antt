-- ===== src/Server/Concurrent.antt =====
-- The threads that `grpc_server::start` (grpc_server.cpp) has started, in any interleaving of their
-- accesses to the pool, the RPC objects, the engine and the runtime.
use tiny_inference_engine.Base.{
  ◌∙◌, ℕ, ◌+◌, ◌%◌, ◌^◌, ◌<◌, ◌≤◌, ◌≡◌, ◌⊎◌, none, Option, inl, inr, refl, ap, true, false, some,
  List, [], ◌∷◌, arith, length, ◌==◌, ==_refl, ltb, lt→ltb, le→ltb, if◌then◌else◌, Bool-cases,
  Option-cases,
}
use tiny_inference_engine.Base.Table.{find}
use tiny_inference_engine.Engine.{EngineInterface}
use tiny_inference_engine.Messages.{Kind}
use tiny_inference_engine.Rpc.Host.{Rpc, Event, outstanding}
use tiny_inference_engine.Rpc.Threads.{
  Next, enroll, Activity, waiting, allocating, inserting, World, put, resume, turn, schedule,
}
use tiny_inference_engine.Rpc.Confined.{free, stage, Confined, owner, Local}
use tiny_inference_engine.Rpc.Interleaving.{turn-Confined}
use tiny_inference_engine.Rpc.Whole.{accesses-schedule, access-outside, access-enters}
use tiny_inference_engine.Rpc.Races.{
  Shared, Course, overlaps, dangles, runs, no_one, settled, in_pool, access, accesses,
}
use tiny_inference_engine.Server.Grpc.{common_kinds}
use tiny_inference_engine.Server.Startup.{empty_host}

-- The first activity of the thread of a queue, with `n` inference threads.
abbrev pub first_activity : ℕ → ℕ → Activity
first_activity n q =
    if ltb q n
    then resume q (enroll (Kind.model_infer ∷ []))
    else if q == n
    then resume q (enroll common_kinds)
    else waiting

-- A new server that has started its threads.
abbrev pub beginning : {S : Type 0} → S → ℕ → World S
beginning s n = record { host = empty_host s; activity = first_activity n }

-- What the common thread creates after its first RPC.
abbrev other_kinds : List Kind
other_kinds =
    Kind.server_ready ∷ Kind.server_metadata ∷ Kind.model_list ∷ Kind.model_load
    ∷ Kind.model_metadata ∷ Kind.model_ready ∷ Kind.model_unload ∷ []

first-Local : (q n : ℕ) → Local q (first_activity n q)
first-Local q n = elim (Bool-cases (ltb q n)) [
  | inl inference ↦ rw inference refl
  | inr above ↦ elim (Bool-cases (q == n)) [
    | inl common ↦ rw (above, common) refl
    | inr none_there ↦ rw (above, none_there) tt
  ]
]

-- A thread is at an object of its own queue only, and alone.
alone :
    {S : Type 0} (w : World S) (q t : ℕ)
    → Confined w
    → (stage t (w.activity q) ≡ free)
      ⊎ ((r : Rpc) × (find t w.host.rpcs ≡ some r)
          × (r.queue ≡ q)
          × ((p : ℕ) → (stage t (w.activity p) ≡ free) ⊎ (p ≡ q)))
alone w q t v = elim (v.owns q t) [
  | inl f ↦ inl f
  | inr o ↦ elim (Option-cases (find t w.host.rpcs)) [
    | inl e ↦ absurd (cc (ap owner e))
    | inr (r, e) ↦
        inr (r, e, cc (ap owner e), λ p. elim (v.owns p t) [ inl f ↦ inl f | inr o' ↦ inr (cc) ])
  ]
]

module _ {S : Type 0} where
  pub beginning-Confined : (s : S) (n : ℕ) → Confined (beginning s n)
  unfolding outstanding find
  beginning-Confined s n = record {
    agree = λ t. refl;
    owns = λ q t. inl (ground arith);
    fresh = λ t le. refl;
    reserved = λ q id e. ground arith;
    single = λ p q id e e'. ground arith;
    own = λ q. first-Local q n;
  }

  -- The invariant of a course, with a bound on the accesses that may still come.
  abbrev Sound : ℕ → Course S → Type 0
  Sound m overlaps = Unit {0}
  Sound m dangles = ⊥
  Sound m (runs x) = Confined x.world × (x.world.host.next_id + m < 2 ^ 64)

  settled-Sound :
      (m : ℕ) (inside : Option ℕ) (o : Option (World S)) (w : World S)
      → o ≡ some w
      → Confined w
      → w.host.next_id + m < 2 ^ 64
      → Sound m (settled inside o)
  settled-Sound m inside o w went v lt = rw went (v, lt)

  turn-Sound :
      (engine : EngineInterface S) (m : ℕ) (inside : Option ℕ) (q : ℕ) (e : Event) (w : World S)
      → Confined w
      → w.host.next_id + (m + 1) < 2 ^ 64
      → Sound m (settled inside (turn engine q e w))
  turn-Sound engine m inside q e w v lt =
      let (w1, went, v1, small) = turn-Confined engine q e w (w.activity q) (omega arith) v refl in
      settled-Sound m inside (turn engine q e w) w1 went v1 (omega (arith, small))

  access-Sound :
      (engine : EngineInterface S) (m : ℕ) (q : ℕ) (e : Event) (x : Shared S)
      → Sound (m + 1) (runs x)
      → Sound m (access engine q e x)
  unfolding access
  access-Sound engine m q e x (v, lt) = elim (Bool-cases (in_pool (x.world.activity q))) [
    | inr elsewhere ↦ rw elsewhere (turn-Sound engine m x.inside q e x.world v lt)
    | inl pool ↦ elim (Option-cases x.inside) [
      | inl empty ↦ rw (pool, empty) (v, omega arith)
      | inr (p, within) ↦ elim (Bool-cases (p == q)) [
        | inl same ↦ rw (pool, within, same) (turn-Sound engine m none q e x.world v lt)
        | inr differs ↦ rw (pool, within, differs) tt
      ]
    ]
  ]

  accesses-Sound :
      (engine : EngineInterface S) (es : List (ℕ × Event)) (c : Course S)
      → Sound (length es) c
      → Sound 0 (accesses engine es c)
  unfolding accesses
  accesses-Sound engine [] c v = v
  accesses-Sound engine ((q, e) ∷ es) overlaps v = tt
  accesses-Sound engine ((q, e) ∷ es) dangles v = v
  accesses-Sound engine ((q, e) ∷ es) (runs x) (v, lt) =
      accesses-Sound engine es (access engine q e x)
        (access-Sound engine (length es) q e x (v, omega arith))

  -- What a course may show.
  abbrev pub IsSafe : Course S → Type 0
  IsSafe overlaps = Unit {0}
  IsSafe dangles = ⊥
  IsSafe (runs x) =
      (q t : ℕ)
      → (stage t (x.world.activity q) ≡ free)
        ⊎ ((r : Rpc) × (find t x.world.host.rpcs ≡ some r)
            × (r.queue ≡ q)
            × ((p : ℕ) → (stage t (x.world.activity p) ≡ free) ⊎ (p ≡ q)))

  Sound-IsSafe : (c : Course S) → Sound 0 c → IsSafe c
  Sound-IsSafe overlaps v = tt
  Sound-IsSafe dangles v = v
  Sound-IsSafe (runs x) (v, lt) = λ q t. alone x.world q t v

  -- Until two accesses to the pool's table overlap, which has no lock, the threads of a started server are
  -- safe: however their accesses are interleaved, and whatever the runtime returns to them, either such an
  -- overlap has occurred, or no thread has accessed an object that is gone, and each object that a thread
  -- is at is in the pool, on the thread's own queue, and at no other thread. The same accesses in the same
  -- order, each made as a whole, never fail, and there is a course without an overlap to where they lead.
  -- Fewer than 2 ^ 64 accesses are made.
  pub beginning-IsSafe :
      (engine : EngineInterface S) (s : S) (n : ℕ) (es : List (ℕ × Event))
      → length es < 2 ^ 64
      → IsSafe (accesses engine es (runs (no_one (beginning s n))))
        × (w : World S) × (us : List (ℕ × Event)) × (schedule engine es (beginning s n) ≡ some w)
        × (accesses engine us (runs (no_one (beginning s n))) ≡ runs (no_one w))
  beginning-IsSafe engine s n es lt =
      let start : Course S = runs (no_one (beginning s n)) in
      let begun : Confined (beginning s n) = beginning-Confined s n in
      let safe : Sound 0 (accesses engine es start) =
        accesses-Sound engine es start (begun, omega arith) in
      let (w, us, went, goes) = accesses-schedule engine es (beginning s n) begun (omega arith) in
      (Sound-IsSafe (accesses engine es start) safe, w, us, went, goes)

  -- The world after a thread took an id.
  abbrev allocated : ℕ → Kind → ℕ → Next → World S → World S
  allocated q k queue m w =
      put q (inserting w.host.next_id k queue m) w
        (record w.host { next_id = (w.host.next_id + 1) % 2 ^ 64 })

  turn-allocating :
      (engine : EngineInterface S) (q : ℕ) (e : Event) (w : World S) (k : Kind) (queue : ℕ)
      (m : Next)
      → w.activity q ≡ allocating k queue m
      → turn engine q e w ≡ some (allocated q k queue m w)
  unfolding turn
  turn-allocating engine q e w k queue m a = rw a refl

  access-overlaps :
      (engine : EngineInterface S) (p q : ℕ) (e : Event) (w : World S)
      → in_pool (w.activity q) ≡ true
      → (p == q) ≡ false
      → access engine q e (record { world = w; inside = some p }) ≡ overlaps
  unfolding access
  access-overlaps engine p q e w pool differs = rw (pool, differs) refl

  -- The pool has no lock: in a started server with an inference thread, the first inference thread and the
  -- common thread can be inside the hash table of the pool at once, each to insert its first object.
  pub beginning-races :
      (engine : EngineInterface S) (s : S) (n : ℕ) (e : Event)
      → 1 ≤ n
      → accesses engine ((0, e) ∷ (n, e) ∷ (0, e) ∷ (n, e) ∷ []) (runs (no_one (beginning s n)))
        ≡ overlaps
  unfolding accesses
  beginning-races engine s n e some_thread =
      let first : first_activity n 0 ≡ allocating Kind.model_infer 0 (enroll []) =
        rw (lt→ltb 0 n (omega arith)) refl in
      let w : World S = allocated 0 Kind.model_infer 0 (enroll []) (beginning s n) in
      let apart : (n == 0) ≡ false = ground arith in
      let apart' : (0 == n) ≡ false = ground arith in
      let second : w.activity n ≡ allocating Kind.server_live n (enroll other_kinds) =
        rw (apart, le→ltb n n (omega arith), ==_refl n) refl in
      let w1 = allocated n Kind.server_live n (enroll other_kinds) w in
      let went = turn-allocating engine 0 e (beginning s n) Kind.model_infer 0 (enroll []) first in
      let goes = turn-allocating engine n e w Kind.server_live n (enroll other_kinds) second in
      ap (accesses engine ((n, e) ∷ (0, e) ∷ (n, e) ∷ []))
        (access-outside engine 0 e (no_one (beginning s n)) w (rw first refl) went)
      ∙ ap (accesses engine ((0, e) ∷ (n, e) ∷ []))
          (access-outside engine n e (no_one w) w1 (rw second refl) goes)
      ∙ ap (accesses engine ((n, e) ∷ [])) (access-enters engine 0 e w1 (rw apart' refl))
      ∙ access-overlaps engine 0 n e w1 (rw ==_refl refl) apart'
