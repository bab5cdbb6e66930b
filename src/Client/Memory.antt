-- ===== src/Client/Memory.antt =====
-- The memory that the client's pointers lead to: blocks of bytes, and reads of integers of a given
-- width at an index. Integers are little-endian, as on the platforms that the program is built for.
use native.Mathlib.Nat.{pow-suc}
use tiny_inference_engine.Base.{
  ℕ, zero, suc, ◌+◌, ◌*◌, ◌/◌, ◌%◌, ◌^◌, ◌<◌, ◌≡◌, refl, ap, ◌∙◌, sym, Option, none, some, List, [],
  ◌∷◌, ◌++◌, append_assoc, length, length-append, take, drop, ◌==◌, if◌then◌else◌, ◌>>=◌, arith,
  ==_refl,
}
use tiny_inference_engine.Base.Table.{Table, find}
use tiny_inference_engine.Client.Api.{Pointer, indeterminate, null_pointer, block}

-- A block that was freed is no longer in the table.
abbrev pub Memory : Type 0
Memory = Table (List ℕ)

unfoldable pub bytes_at : Memory → Pointer → Option (List ℕ)
bytes_at mem indeterminate = none
bytes_at mem null_pointer = none
bytes_at mem (block b) = find b mem

abbrev pub load_le : List ℕ → ℕ
load_le [] = 0
load_le (b ∷ bs) = b + 256 * load_le bs

-- `p[i]` for a `p` that points to integers of `width` bytes. `none`: the read leaves its block.
unfoldable pub element : ℕ → List ℕ → ℕ → Option ℕ
element width bytes i =
    let cell = take width (drop (i * width) bytes) in
    if length cell == width then some (load_le cell) else none

unfoldable pub read : Memory → Pointer → ℕ → ℕ → Option ℕ
unfolding bytes_at element
read mem p width i = bytes_at mem p >>= λ bytes. element width bytes i

-- The bytes of integers laid out one after the other.
abbrev pub store_le : ℕ → ℕ → List ℕ
store_le zero v = []
store_le (suc width) v = (v % 256) ∷ store_le width (v / 256)

abbrev pub encode : ℕ → List ℕ → List ℕ
encode width [] = []
encode width (v ∷ vs) = store_le width v ++ encode width vs

length-store_le : (width v : ℕ) → length (store_le width v) ≡ width
length-store_le zero v = refl
length-store_le (suc width) v = ap suc (length-store_le width (v / 256))

load_le-store_le : (width v : ℕ) → v < 256 ^ width → load_le (store_le width v) ≡ v
load_le-store_le zero v h = omega arith
load_le-store_le (suc width) v h =
    omega (
      arith,
      pow-suc 256 width,
      load_le-store_le width (v / 256) (omega (arith, pow-suc 256 width)),
    )

take-append {ℓ} : {A : Type ℓ} (xs ys : List A) → take (length xs) (xs ++ ys) ≡ xs
take-append [] ys = refl
take-append (x ∷ xs) ys = ap (◌∷◌ x) (take-append xs ys)

drop-append {ℓ} : {A : Type ℓ} (xs ys : List A) → drop (length xs) (xs ++ ys) ≡ ys
drop-append [] ys = refl
drop-append (x ∷ xs) ys = drop-append xs ys

length-encode : (width : ℕ) (vs : List ℕ) → length (encode width vs) ≡ length vs * width
length-encode width [] = omega arith
length-encode width (v ∷ vs) = omega (
  arith,
  length-append (store_le width v) (encode width vs),
  length-store_le width v,
  length-encode width vs,
)

encode-append :
    (width : ℕ) (us vs : List ℕ) → encode width (us ++ vs) ≡ encode width us ++ encode width vs
encode-append width [] vs = refl
encode-append width (u ∷ us) vs =
    ap (◌++◌ (store_le width u)) (encode-append width us vs)
    ∙ sym (append_assoc (store_le width u) (encode width us) (encode width vs))

cell-encode :
    (width : ℕ) (us : List ℕ) (v : ℕ) (vs rest : List ℕ)
    → take width (drop (length us * width) (encode width (us ++ v ∷ vs) ++ rest)) ≡ store_le width v
cell-encode width us v vs rest =
    let later = encode width vs ++ rest in
    ap (take width) (
      ap (λ bs. drop (length us * width) (bs ++ rest)) (encode-append width us (v ∷ vs))
      ∙ ap (drop (length us * width))
          (append_assoc (encode width us) (store_le width v ++ encode width vs) rest)
      ∙ ap (λ n. drop n (encode width us ++ ((store_le width v ++ encode width vs) ++ rest)))
          (sym (length-encode width us))
      ∙ drop-append (encode width us) ((store_le width v ++ encode width vs) ++ rest)
      ∙ append_assoc (store_le width v) (encode width vs) rest)
    ∙ ap (λ n. take n (store_le width v ++ later)) (sym (length-store_le width v))
    ∙ take-append (store_le width v) later

-- The integer that was laid out behind `us` is read at the index `length us`.
pub element-encode :
    (width : ℕ) (us : List ℕ) (v : ℕ) (vs rest : List ℕ)
    → v < 256 ^ width
    → element width (encode width (us ++ v ∷ vs) ++ rest) (length us) ≡ some v
unfolding element
element-encode width us v vs rest h =
    rw (cell-encode width us v vs rest, element, length-store_le width v, ==_refl width)
      (ap some (load_le-store_le width v h))
