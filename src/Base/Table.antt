-- ===== src/Base/Table.antt =====
-- `std::unordered_map<uint64_t, V>` as an association list: `find`, `operator[]` with an assignment,
-- `erase(key)`, and a change of one entry's value in place.
use tiny_inference_engine.Base.Tests.{◌==◌, if◌then◌else◌}
use Prim.Native.Nat.{ℕ}
use mathlib.Core.Path.{◌≡◌}
use mathlib.Core.Option.{Option, none, some}
use mathlib.Core.Option
use mathlib.Core.List.{List, [], ◌∷◌}
use native.Mathlib.Omega.{arith}

abbrev pub Table {ℓ} : Type ℓ → Type ℓ
Table V = List (ℕ × V)

module _ {ℓ} {V : Type ℓ} where
  unfoldable pub find : ℕ → Table V → Option V
  find k [] = none
  find k ((j, v) ∷ m) = if j == k then some v else find k m

  unfoldable pub erase : ℕ → Table V → Table V
  erase k [] = []
  erase k ((j, v) ∷ m) = let rest = erase k m in if j == k then rest else (j, v) ∷ rest

  unfoldable pub assign : ℕ → V → Table V → Table V
  unfolding erase
  assign k v m = (k, v) ∷ erase k m

  unfoldable pub adjust : (V → V) → ℕ → Table V → Table V
  adjust f k [] = []
  adjust f k ((j, v) ∷ m) = (j, if j == k then f v else v) ∷ adjust f k m

  pub find-erase :
      (k j : ℕ) (m : Table V) → find j (erase k m) ≡ (if k == j then none else find j m)
  unfolding find erase
  find-erase k j [] = ground arith
  find-erase k j ((i, v) ∷ m) = ground (arith, find-erase k j m)

  pub find-assign :
      (k j : ℕ) (v : V) (m : Table V)
      → find j (assign k v m) ≡ (if k == j then some v else find j m)
  unfolding find assign
  find-assign k j v m = ground (arith, find-erase k j m)

  pub find-adjust :
      (f : V → V) (k j : ℕ) (m : Table V)
      → find j (adjust f k m) ≡ (if k == j then Option.map f (find j m) else find j m)
  unfolding find adjust
  find-adjust f k j [] = ground arith
  find-adjust f k j ((i, v) ∷ m) = ground (arith, find-adjust f k j m)

pub ruleset table_laws = (find-erase, find-assign, find-adjust)
