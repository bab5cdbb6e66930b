-- ===== src/Rpc/Whole.antt =====
-- Accesses to the hash table of the pool (rpc/rpc_pool.hpp, rpc_pool.cpp) that no other thread overlaps, and
-- the accesses of Rpc/Threads, which are made as a whole.
use tiny_inference_engine.Base.{
  ℕ, ◌+◌, ◌^◌, ◌<◌, ◌≡◌, ◌∙◌, ==_refl, refl, ap, true, false, Bool-cases, some, List, [], ◌∷◌, inl,
  inr, length, arith,
}
use tiny_inference_engine.Engine.{EngineInterface}
use tiny_inference_engine.Rpc.Host.{Event}
use tiny_inference_engine.Rpc.Threads.{World, turn, schedule}
use tiny_inference_engine.Rpc.Confined.{Confined}
use tiny_inference_engine.Rpc.Interleaving.{turn-Confined}
use tiny_inference_engine.Rpc.Races.{Shared, runs, no_one, in_pool, access, accesses}

module _ {S : Type 0} where
  pub access-outside :
      (engine : EngineInterface S) (q : ℕ) (e : Event) (x : Shared S) (w : World S)
      → in_pool (x.world.activity q) ≡ false
      → turn engine q e x.world ≡ some w
      → access engine q e x ≡ runs (record { world = w; inside = x.inside })
  unfolding access
  access-outside engine q e x w outside went = rw (outside, went) refl

  pub access-enters :
      (engine : EngineInterface S) (q : ℕ) (e : Event) (w : World S)
      → in_pool (w.activity q) ≡ true
      → access engine q e (no_one w) ≡ runs (record { world = w; inside = some q })
  unfolding access
  access-enters engine q e w pool = rw pool refl

  access-leaves :
      (engine : EngineInterface S) (q : ℕ) (e : Event) (w w1 : World S)
      → in_pool (w.activity q) ≡ true
      → turn engine q e w ≡ some w1
      → access engine q e (record { world = w; inside = some q }) ≡ runs (no_one w1)
  unfolding access
  access-leaves engine q e w w1 pool went = rw (pool, ==_refl q, went) refl

  -- An access that is made as a whole is an access to the table that no other one overlaps, or none to it.
  access-whole :
      (engine : EngineInterface S) (q : ℕ) (e : Event) (w w1 : World S) (ts : List (ℕ × Event))
      → turn engine q e w ≡ some w1
      → (us : List (ℕ × Event)) × (accesses engine us (runs (no_one w))
          ≡ accesses engine ts (runs (no_one w1)))
  unfolding accesses
  access-whole engine q e w w1 ts went = elim (Bool-cases (in_pool (w.activity q))) [
    | inr outside ↦ (
      (q, e) ∷ ts,
      ap (accesses engine ts) (access-outside engine q e (no_one w) w1 outside went),
    )
    | inl pool ↦ (
      (q, e) ∷ (q, e) ∷ ts,
      ap (accesses engine ((q, e) ∷ ts)) (access-enters engine q e w pool)
          ∙ ap (accesses engine ts) (access-leaves engine q e w w1 pool went),
    )
  ]

  pub accesses-schedule :
      (engine : EngineInterface S) (es : List (ℕ × Event)) (w : World S)
      → Confined w
      → w.host.next_id + length es < 2 ^ 64
      → (w' : World S) × (us : List (ℕ × Event)) × (schedule engine es w ≡ some w')
        × (accesses engine us (runs (no_one w)) ≡ runs (no_one w'))
  unfolding schedule accesses
  accesses-schedule engine [] w v lt = (w, [], refl, refl)
  accesses-schedule engine ((q, e) ∷ es) w v lt =
      let (w1, went, v1, small) = turn-Confined engine q e w (w.activity q) (omega arith) v refl in
      let (w2, ts, rest, goes) = accesses-schedule engine es w1 v1 (omega (arith, small)) in
      let (us, same) = access-whole engine q e w w1 ts went in (w2, us, rw went rest, same ∙ goes)
