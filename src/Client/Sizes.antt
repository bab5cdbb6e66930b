-- ===== src/Client/Sizes.antt =====
-- The number of elements of a shape, as `tensor_converter` computes it with `std::accumulate`.
use tiny_inference_engine.Base.{
  ℕ, ◌+◌, ◌-◌, ◌*◌, ◌%◌, ◌^◌, ◌<◌, ◌≡◌, ap, ◌∙◌, sym, List, [], ◌∷◌, ltb, if◌then◌else◌, arith, inl,
  inr, Bool-cases, ◌↔◌, ◌⊎◌, ◌≤◌,
}
use tiny_inference_engine.Base.Product.{product, mod_product, mod_product64}

-- An `int` is its 32-bit pattern; this is the `size_t` that it converts to.
abbrev pub extend : ℕ → ℕ
extend acc = if ltb acc (2 ^ 31) then acc else acc + 2 ^ 64 - 2 ^ 32

-- `acc = std::multiplies<>()(acc, x)` with an `int` accumulator and a `uint64_t` element: the product
-- is a `uint64_t`, and is then converted to `int`.
unfoldable pub multiply_int : ℕ → ℕ → ℕ
multiply_int acc x = extend acc * x % 2 ^ 64 % 2 ^ 32

unfoldable pub accumulate_int : ℕ → List ℕ → ℕ
accumulate_int acc [] = acc
accumulate_int acc (x ∷ xs) = accumulate_int (multiply_int acc x) xs

-- `get_infer_request`: the accumulator starts at the `int` 1.
unfoldable pub input_size : List ℕ → ℕ
unfolding accumulate_int
input_size shape = extend (accumulate_int 1 shape)

-- `get_infer_response`: the accumulator starts at `size_t(1)`.
unfoldable pub accumulate_size : ℕ → List ℕ → ℕ
accumulate_size acc [] = acc
accumulate_size acc (x ∷ xs) = accumulate_size (acc * x % 2 ^ 64) xs

unfoldable pub output_size : List ℕ → ℕ
unfolding accumulate_size
output_size shape = accumulate_size 1 shape

-- The sign extension adds a multiple of 2 ^ 32.
multiply_negative : (acc x : ℕ) → (acc + 2 ^ 64 - 2 ^ 32) * x % 2 ^ 64 % 2 ^ 32 ≡ acc * x % 2 ^ 32
multiply_negative acc x =
    let plain : acc + 2 ^ 64 - 2 ^ 32 ≡ acc + (2 ^ 64 - 2 ^ 32) = omega arith in
    rw plain (omega arith)

multiply_int-mod : (acc x : ℕ) → acc < 2 ^ 32 → multiply_int acc x ≡ acc * x % 2 ^ 32
unfolding multiply_int
multiply_int-mod acc x h = elim (Bool-cases (ltb acc (2 ^ 31))) [
  | inl small ↦ rw small (omega arith)
  | inr big ↦ rw big (multiply_negative acc x)
]

accumulate_int-product :
    (acc : ℕ) (xs : List ℕ) → acc < 2 ^ 32 → accumulate_int acc xs ≡ acc * product xs % 2 ^ 32
unfolding accumulate_int
accumulate_int-product acc [] h = omega arith
accumulate_int-product acc (x ∷ xs) h =
    ap (λ n. accumulate_int n xs) (multiply_int-mod acc x h)
    ∙ accumulate_int-product (acc * x % 2 ^ 32) xs (omega arith)
    ∙ mod_product acc x (product xs)

accumulate_size-product :
    (acc : ℕ) (xs : List ℕ) → acc < 2 ^ 64 → accumulate_size acc xs ≡ acc * product xs % 2 ^ 64
unfolding accumulate_size
accumulate_size-product acc [] h = omega arith
accumulate_size-product acc (x ∷ xs) h =
    accumulate_size-product (acc * x % 2 ^ 64) xs (omega arith) ∙ mod_product64 acc x (product xs)

extend_small :
    (n : ℕ) → extend (n % 2 ^ 32) ≡ n → (n < 2 ^ 31) ⊎ ((2 ^ 64 ≤ n + 2 ^ 31) × (n < 2 ^ 64))
extend_small n e = elim (Bool-cases (ltb (n % 2 ^ 32) (2 ^ 31))) [
  | inl small ↦ inl (ground arith)
  | inr big ↦ inr (ground arith)
]

extend_exact :
    (n : ℕ) → (n < 2 ^ 31) ⊎ ((2 ^ 64 ≤ n + 2 ^ 31) × (n < 2 ^ 64)) → extend (n % 2 ^ 32) ≡ n
extend_exact n (inl h) = ground arith
extend_exact n (inr h) = ground arith

-- The size that a request is written with is the true number of elements reduced to 32 bits and sign
-- extended to 64; so it is the true number exactly where that is below 2 ^ 31, or at least
-- 2 ^ 64 - 2 ^ 31 and below 2 ^ 64.
pub input_size-product :
    (shape : List ℕ)
    → (input_size shape ≡ extend (product shape % 2 ^ 32))
      × ((input_size shape ≡ product shape) ↔ (
          (product shape < 2 ^ 31)
          ⊎ ((2 ^ 64 ≤ product shape + 2 ^ 31) × (product shape < 2 ^ 64))))
unfolding input_size
input_size-product shape =
    let n = product shape in
    let size : extend (accumulate_int 1 shape) ≡ extend (n % 2 ^ 32) =
      ap extend
        (accumulate_int-product 1 shape (omega arith) ∙ ap (λ (t : ℕ). t % 2 ^ 32) (omega arith)) in
    (size, (λ e. extend_small n (sym size ∙ e), λ h. size ∙ extend_exact n h))

-- The size that a response is read with is the true number of elements reduced to 64 bits.
output_size-product : (shape : List ℕ) → output_size shape ≡ product shape % 2 ^ 64
unfolding output_size
output_size-product shape =
    accumulate_size-product 1 shape (omega arith) ∙ ap (λ (n : ℕ). n % 2 ^ 64) (omega arith)

-- The size that a request is written with is the true number of elements reduced to 32 bits and sign
-- extended to 64; so it is the true number exactly where that is below 2 ^ 31, or at least
-- 2 ^ 64 - 2 ^ 31 and below 2 ^ 64. The size that a response is read with is the true number reduced to
-- 64 bits.
pub sizes-product :
    (shape : List ℕ)
    → (input_size shape ≡ extend (product shape % 2 ^ 32))
      × ((input_size shape ≡ product shape) ↔ (
          (product shape < 2 ^ 31)
          ⊎ ((2 ^ 64 ≤ product shape + 2 ^ 31) × (product shape < 2 ^ 64))))
      × (output_size shape ≡ product shape % 2 ^ 64)
sizes-product shape =
    let (size, exact) = input_size-product shape in (size, exact, output_size-product shape)
