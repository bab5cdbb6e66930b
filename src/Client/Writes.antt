-- ===== src/Client/Writes.antt =====
-- What the client writes into a request's tensors.
use tiny_inference_engine.Base.{
  ℕ, zero, suc, ◌+◌, ◌%◌, ◌^◌, ◌<◌, ◌≤◌, ◌≡◌, ◌≢◌, refl, ap, ◌∙◌, sym, none, some, List, [], ◌∷◌,
  ◌++◌, map, append_assoc, append-nil, length, length-append, ltb, lt→ltb, le→ltb, ltb→lt, ltb→le,
  arith, Bool-cases, Option-cases, inl, inr, ◌⊎◌,
}
use tiny_inference_engine.Base.Table.{find}
use tiny_inference_engine.Messages.{InferTensorContents, no_contents}
use tiny_inference_engine.Client.Api.{Pointer, block}
use tiny_inference_engine.Client.Memory.{Memory, read, encode, element-encode}
use tiny_inference_engine.Client.Contents.{
  CType, size_of, field_of, widen, add_number, only, only-nil, add_number-only, char,
}
use tiny_inference_engine.Client.Writer.{
  Outcome, ◌>>=◌, done, fault, out_of_fuel, write_from, write,
}

-- Every value fits the width.
abbrev pub Fit : ℕ → List ℕ → Type 0
Fit width [] = Unit {0}
Fit width (v ∷ vs) = (v < 256 ^ width) × Fit width vs

read-encode :
    (mem : Memory) (b width : ℕ) (us : List ℕ) (v : ℕ) (vs rest : List ℕ)
    → find b mem ≡ some (encode width (us ++ v ∷ vs) ++ rest)
    → v < 256 ^ width
    → read mem (block b) width (length us) ≡ some v
unfolding read
read-encode mem b width us v vs rest e h = rw e (element-encode width us v vs rest h)

module _ (t : CType) (mem : Memory) (p : Pointer) (size : ℕ) where
  write_from-end :
      (fuel i : ℕ) (c : InferTensorContents)
      → size ≤ i
      → write_from (suc fuel) t mem p size i c ≡ done c
  unfolding write_from
  write_from-end fuel i c h = ground (arith, le→ltb i size)

  write_from-round :
      (fuel i x : ℕ) (c : InferTensorContents)
      → i < size
      → read mem p (size_of t) i ≡ some x
      → write_from (suc fuel) t mem p size i c
        ≡ write_from fuel t mem p size ((i + 1) % 2 ^ 32) (add_number (field_of t) (widen t x) c)
  unfolding write_from
  write_from-round fuel i x c h e = ground (arith, lt→ltb i size)

  write_from-fault :
      (fuel i : ℕ) (c : InferTensorContents)
      → i < size
      → read mem p (size_of t) i ≡ none
      → write_from (suc fuel) t mem p size i c ≡ fault
  unfolding write_from
  write_from-fault fuel i c h e = ground (arith, lt→ltb i size)

module _ (t : CType) (mem : Memory) (b : ℕ) (rest : List ℕ) (size : ℕ) (lt : size < 2 ^ 32) where
  -- The loop from the round `length us` on.
  write_from-encode :
      (us vs : List ℕ) (fuel i : ℕ) (xs : List ℕ)
      → find b mem ≡ some (encode (size_of t) (us ++ vs) ++ rest)
      → Fit (size_of t) vs
      → i ≡ length us
      → size ≡ length us + length vs
      → length vs < fuel
      → write_from fuel t mem (block b) size i (only (field_of t) xs)
        ≡ done (only (field_of t) (xs ++ map (widen t) vs))
  write_from-encode us vs zero i xs e f at n lf = elim lf [ ]
  write_from-encode us [] (suc fuel) i xs e f at n lf =
      write_from-end t mem (block b) size fuel i (only (field_of t) xs) (omega arith)
      ∙ ap (λ ys. done (only (field_of t) ys)) (sym (append-nil xs))
  write_from-encode us (v ∷ vs) (suc fuel) i xs e f at n lf =
      let next : (i + 1) % 2 ^ 32 ≡ i + 1 = omega arith in
      write_from-round t mem (block b) size fuel i v (only (field_of t) xs) (omega arith)
        (ap (read mem (block b) (size_of t)) at ∙ read-encode mem b (size_of t) us v vs rest e f.0)
      ∙ ap
          (λ j.
            write_from fuel t mem (block b) size j
              (add_number (field_of t) (widen t v) (only (field_of t) xs)))
          next
      ∙ ap (write_from fuel t mem (block b) size (i + 1))
          (add_number-only (field_of t) (widen t v) xs)
      ∙ write_from-encode (us ++ v ∷ []) vs fuel (i + 1) (xs ++ widen t v ∷ [])
          (rw (append_assoc us (v ∷ []) vs) e) f.1 (omega (arith, length-append us (v ∷ [])))
          (omega (arith, length-append us (v ∷ []))) (omega arith)
      ∙ ap (λ ys. done (only (field_of t) ys)) (append_assoc xs (widen t v ∷ []) (map (widen t) vs))

pub write-numeric :
    (fuel : ℕ) (t : CType) (mem : Memory) (p : Pointer) (size : ℕ) (c : InferTensorContents)
    → t ≢ char
    → write fuel t mem p size c ≡ write_from fuel t mem p size 0 c
unfolding write
write-numeric fuel char mem p size c n = absurd (n refl)
write-numeric fuel _ mem p size c n = refl

-- Where the pointer leads to a block that begins with `vs`, laid out as integers of the type, the writer
-- ends with exactly those values, widened, in the type's field, if there are fewer than 2 ^ 32 of them and
-- the fuel allows a round for each and one more.
pub write-encode :
    (t : CType) (mem : Memory) (b : ℕ) (vs rest : List ℕ) (fuel : ℕ)
    → t ≢ char
    → find b mem ≡ some (encode (size_of t) vs ++ rest)
    → Fit (size_of t) vs
    → length vs < 2 ^ 32
    → length vs < fuel
    → write fuel t mem (block b) (length vs) no_contents
      ≡ done (only (field_of t) (map (widen t) vs))
write-encode t mem b vs rest fuel n e f lt lf =
    write-numeric fuel t mem (block b) (length vs) no_contents n
    ∙ ap (write_from fuel t mem (block b) (length vs) 0) (sym (only-nil (field_of t)))
    ∙ write_from-encode t mem b rest (length vs) lt [] vs fuel 0 [] e f refl (omega arith) lf

-- The loop ends, with a value or at a bad read, for every size below 2 ^ 32.
pub write_from-ends :
    (t : CType) (mem : Memory) (p : Pointer) (size fuel i : ℕ) (c : InferTensorContents)
    → size < 2 ^ 32
    → i ≤ size
    → size < fuel + i
    → write_from fuel t mem p size i c ≢ out_of_fuel
write_from-ends t mem p size zero i c lt le lf = absurd (omega arith)
write_from-ends t mem p size (suc fuel) i c lt le lf = elim (Bool-cases (ltb i size)) [
  | inr past ↦ rw (write_from-end t mem p size fuel i c (ltb→le i size past)) (λ e. cc)
  | inl more ↦
      let h : i < size = ltb→lt i size more in
      elim (Option-cases (read mem p (size_of t) i)) [
        | inl e ↦ rw (write_from-fault t mem p size fuel i c h e) (λ e. cc)
        | inr (x, e) ↦ rw (write_from-round t mem p size fuel i x c h e) (
            write_from-ends t mem p size fuel ((i + 1) % 2 ^ 32)
              (add_number (field_of t) (widen t x) c) lt (omega arith) (omega arith))
      ]
]

-- The conversion does not end, or an element below the index 2 ^ 32 is outside the data.
abbrev pub Never {ℓ} : {A : Type ℓ} → Memory → Pointer → ℕ → Outcome A → Type ℓ
Never mem p width m =
    (m ≡ out_of_fuel) ⊎ ((m ≡ fault) × ((i : ℕ) × (i < 2 ^ 32) × (read mem p width i ≡ none)))

pub bind-Never {ℓ κ} :
    {A : Type ℓ} {B : Type κ} (mem : Memory) (p : Pointer) (width : ℕ) (m : Outcome A)
    (f : A → Outcome B)
    → Never mem p width m
    → Never mem p width (m >>= f)
bind-Never mem p width m f (inl e) = inl (rw e refl)
bind-Never mem p width m f (inr (e, out)) = inr (rw e refl, out)

-- The loop for a size from 2 ^ 32 on: its counter is below 2 ^ 32.
pub write_from-Never :
    (t : CType) (mem : Memory) (p : Pointer) (size fuel i : ℕ) (c : InferTensorContents)
    → 2 ^ 32 ≤ size
    → i < 2 ^ 32
    → Never mem p (size_of t) (write_from fuel t mem p size i c)
unfolding write_from
write_from-Never t mem p size zero i c h lt = inl refl
write_from-Never t mem p size (suc fuel) i c h lt = elim (Option-cases (read mem p (size_of t) i)) [
  | inl e ↦ inr (write_from-fault t mem p size fuel i c (omega arith) e, (i, lt, e))
  | inr (x, e) ↦ rw (write_from-round t mem p size fuel i x c (omega arith) e) (
      write_from-Never t mem p size fuel ((i + 1) % 2 ^ 32) (add_number (field_of t) (widen t x) c)
        h (omega arith))
]
