-- ===== src/Server/Calm/Threads.antt =====
-- The turns of the threads while `grpc_server::stop` (grpc_server.cpp) runs, if all of them waited when it
-- released the pool.
use tiny_inference_engine.Base.{
  some_eq, Option-cases, ℕ, ◌≡◌, inl, inr, refl, ap, ◌∙◌, subst, Bool, true, false, some, List, [],
  ◌∷◌, ◌==◌, if◌then◌else◌, arith, Bool-cases,
}
use tiny_inference_engine.Base.Table.{find}
use tiny_inference_engine.Engine.{EngineInterface}
use tiny_inference_engine.Rpc.Host.{Wanted, Event, outstanding}
use tiny_inference_engine.Rpc.Execute.{arrive}
use tiny_inference_engine.Rpc.Threads.{waiting, returned, queue_of, take_event, put, turn}
use tiny_inference_engine.Server.Shrinking.{Shrinks-refl, Shrinks-trans, take_event-Shrinks}
use tiny_inference_engine.Server.Halting.{
  Halting, Turn, by_thread, by_stop, load, leaves, thread_turn, halting_turn, halting, all_ended,
}
use tiny_inference_engine.Server.Stopping.{turn-lost}
use tiny_inference_engine.Server.Calm.{Calm, Goes, Calm-stop, arrive-empty}

all_ended-monotone :
    (qs : List ℕ) (q : ℕ) (ended : ℕ → Bool)
    → all_ended qs ended ≡ true
    → all_ended qs (λ p. if p == q then true else ended p) ≡ true
all_ended-monotone [] q ended e = refl
all_ended-monotone (r ∷ qs) q ended e = elim (Bool-cases (ended r)) [
  | inl ends ↦ rw (ends, all_ended-monotone qs q ended (rw ends at e)) (ground arith)
  | inr runs ↦ absurd (cc (rw runs at e))
]

-- A waiting thread takes an event or goes on waiting.
take_event-Calm :
    {S : Type 0} (queues : List ℕ) (ws : List Wanted) (q : ℕ) (e : Event) (x : Halting S)
    → Calm queues x
    → x.ended q ≡ false
    → x.world.activity q ≡ waiting
    → outstanding e.tag x.world.host.pending ≡ ws
    → Goes queues x (record x { world = take_event ws q e x.world })
take_event-Calm queues [] q e x c on idle o = (c, λ p took. took, Shrinks-refl x.world)
take_event-Calm queues (v ∷ vs) q e x c on idle o = elim (Bool-cases (queue_of v == q)) [
  | inr other ↦ rw other (c, λ p took. took, Shrinks-refl x.world)
  | inl mine ↦
      let less = take_event-Shrinks (v ∷ vs) q e x.world o in
      let emptied : (p : ℕ)
          → load p x.world ≡ 0
          → load p (put q (returned e.tag e.ok) x.world (arrive e v x.world.host)) ≡ 0 =
        (rw mine at less.emptied) in
      rw mine (
        record {
          rpcs = arrive-empty e v x.world.host c.rpcs;
          quiet = λ p. elim (Bool-cases (p == q)) [
            | inl same ↦ inr (e.tag, e.ok, rw same refl)
            | inr differs ↦ rw differs (c.quiet p)
          ];
          left = λ p ended. elim (Bool-cases (p == q)) [
            | inl same ↦
                let at : p ≡ q = ground (arith, same) in absurd (cc (ap x.ended at, ended, on))
            | inr differs ↦ rw differs (c.left p ended)
          ];
          joined = c.joined;
          shut = c.shut;
          closed = λ p m. elim (c.closed p m) [
            | inl empty ↦ inl (emptied p empty)
            | inr left ↦ inr left
          ];
        },
        λ p took. elim (Bool-cases (p == q)) [
          | inl same ↦ (e.tag, e.ok, rw same refl)
          | inr differs ↦ rw differs took
        ],
        rw mine at less,
      )
]

-- A thread leaves its loop.
ended-Calm :
    {S : Type 0} (queues : List ℕ) (q : ℕ) (x : Halting S)
    → Calm queues x
    → x.world.activity q ≡ waiting
    → Goes queues x (record x { ended = λ p. if p == q then true else x.ended p })
ended-Calm queues q x c idle = (
  record {
    rpcs = c.rpcs;
    quiet = c.quiet;
    left = λ p ended. elim (Bool-cases (p == q)) [
      | inl here ↦ let at : p ≡ q = ground (arith, here) in ap x.world.activity at ∙ idle
      | inr elsewhere ↦ c.left p (rw elsewhere at ended)
    ];
    joined = λ ph. all_ended-monotone queues q x.ended (c.joined ph);
    closed = c.closed;
    shut = c.shut;
  },
  λ p took. took,
  Shrinks-refl x.world,
)

module _ {S : Type 0} (engine : EngineInterface S) (queues : List ℕ) where
  Calm-thread :
      (q : ℕ) (e : Event) (x y : Halting S)
      → Calm queues x
      → thread_turn engine queues q e x ≡ some y
      → Goes queues x y
  unfolding thread_turn turn find
  Calm-thread q e x y c went = elim (Bool-cases (x.ended q)) [
    | inl already ↦
        subst (Goes queues x) (some_eq (rw already at went))
          (c, λ p took. took, Shrinks-refl x.world)
    | inr runs ↦ elim (c.quiet q) [
      | inl idle ↦ elim (Bool-cases (leaves q x)) [
        | inl leaving ↦
            subst (Goes queues x) (some_eq (rw (runs, leaving) at went))
              (ended-Calm queues q x c idle)
        | inr staying ↦
            subst (Goes queues x) (some_eq (rw (runs, staying, idle) at went)) (
              take_event-Calm queues (outstanding e.tag x.world.host.pending) q e x c runs idle
                refl)
      ]
      | inr (t, ok, took) ↦
          let lost = turn-lost engine q t e x.world (returned t ok) took refl (rw c.rpcs refl) in
          absurd (cc (lost, rw (runs, took) at went))
    ]
  ]

  Calm-turn :
      (t : Turn) (x y : Halting S)
      → Calm queues x
      → halting_turn engine queues t x ≡ some y
      → Goes queues x y
  unfolding halting_turn
  Calm-turn (by_thread q e) x y c went = Calm-thread q e x y c went
  Calm-turn (by_stop e) x y c went =
      subst (Goes queues x) (some_eq went) (Calm-stop queues x.phase e x refl c)

  pub Calm-halting :
      (ts : List Turn) (x y : Halting S)
      → Calm queues x
      → halting engine queues ts x ≡ some y
      → Goes queues x y
  unfolding halting
  Calm-halting [] x y c went =
      subst (Goes queues x) (some_eq went) (c, λ p took. took, Shrinks-refl x.world)
  Calm-halting (t ∷ ts) x y c went = elim (Option-cases (halting_turn engine queues t x)) [
    | inl fault ↦ absurd (cc (rw fault at went))
    | inr (z, first) ↦
        let (c1, kept1, less1) = Calm-turn t x z c first in
        let (c2, kept2, less2) = Calm-halting ts z y c1 (rw first at went) in
        (c2, λ p took. kept2 p (kept1 p took), Shrinks-trans less1 less2)
  ]
