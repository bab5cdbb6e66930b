-- ===== src/Rpc/Races.antt =====
-- The hash table of the pool (rpc/rpc_pool.hpp, rpc_pool.cpp), whose lock is commented out, while the threads
-- of Rpc/Threads run.
--
-- An insertion and an erasure have a begin and an end here. One that begins while another thread is between
-- its begin and its end has no defined effect: `overlaps`. With no overlap, an access to the table has its
-- effect at its end.
use tiny_inference_engine.Base.{
  ℕ, ◌==◌, Bool, true, false, Option, none, some, List, [], ◌∷◌, if◌then◌else◌,
}
use tiny_inference_engine.Engine.{EngineInterface}
use tiny_inference_engine.Rpc.Host.{Event}
use tiny_inference_engine.Rpc.Threads.{Activity, inserting, removing, World, turn}

-- The next access is to the hash table of the pool.
abbrev pub in_pool : Activity → Bool
in_pool (inserting id k queue n) = true
in_pool (removing t) = true
in_pool _ = false

-- The thread that is inside the table, if any.
pub record Shared (S : Type 0) : Type 0 where
  pub world : World S
  pub inside : Option ℕ

-- How a course of accesses stands: two accesses to the table have overlapped, an object was accessed that the
-- pool does not have, or neither.
pub data Course (S : Type 0) : Type 0 where
  overlaps dangles : Course S
  runs : Shared S → Course S

abbrev pub no_one : {S : Type 0} → World S → Shared S
no_one w = record { world = w; inside = none }

module _ {S : Type 0} where
  -- After an access as a whole, with who is inside the table then.
  abbrev pub settled : Option ℕ → Option (World S) → Course S
  settled inside none = dangles
  settled inside (some w) = runs (record { world = w; inside = inside })

module _ {S : Type 0} (engine : EngineInterface S) where
  -- A thread that is about to access the table begins, or ends what it began.
  abbrev pub in_table : Option ℕ → ℕ → Event → World S → Course S
  in_table none q e w = runs (record { world = w; inside = some q })
  in_table (some p) q e w = if p == q then settled none (turn engine q e w) else overlaps

  -- What thread `q` does next.
  unfoldable pub access : ℕ → Event → Shared S → Course S
  access q e x =
      if in_pool (x.world.activity q)
      then in_table x.inside q e x.world
      else settled x.inside (turn engine q e x.world)

  unfoldable pub accesses : List (ℕ × Event) → Course S → Course S
  accesses [] c = c
  accesses ((q, e) ∷ es) overlaps = overlaps
  accesses ((q, e) ∷ es) dangles = dangles
  accesses ((q, e) ∷ es) (runs x) = accesses es (access q e x)
