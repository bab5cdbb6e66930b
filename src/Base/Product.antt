-- ===== src/Base/Product.antt =====
-- The product of a list of numbers, and products reduced to 32 and to 64 bits step by step.
use Prim.Native.Nat.{ℕ, ◌*◌, ◌%◌, ◌^◌}
use mathlib.Core.Path.{◌≡◌, ap}
use mathlib.Core.List.{List, [], ◌∷◌}
use native.Mathlib.Omega.{arith}
use native.Mathlib.Nat.{div-add-mod, mul_assoc}

abbrev pub product : List ℕ → ℕ
product [] = 1
product (x ∷ xs) = x * product xs

pub mod_product : (a x p : ℕ) → (a * x % 2 ^ 32) * p % 2 ^ 32 ≡ a * (x * p) % 2 ^ 32
mod_product a x p =
    omega (arith, ap (λ (t : ℕ). t * p) (div-add-mod (a * x) (2 ^ 32)), mul_assoc a x p)

pub mod_product64 : (a x p : ℕ) → (a * x % 2 ^ 64) * p % 2 ^ 64 ≡ a * (x * p) % 2 ^ 64
mod_product64 a x p =
    omega (arith, ap (λ (t : ℕ). t * p) (div-add-mod (a * x) (2 ^ 64)), mul_assoc a x p)
