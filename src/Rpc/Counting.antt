-- ===== src/Rpc/Counting.antt =====
-- Sums over the operations that the runtime holds (the state of Rpc/Host).
use tiny_inference_engine.Base.{
  ℕ, ◌+◌, ◌≤◌, ◌≡◌, ◌⊎◌, refl, sym, ◌∙◌, ap, Option, none, some, empty-append, single-append, List,
  [], ◌∷◌, ◌++◌, arith, ◌==◌, ==_refl, inl, inr, Bool-cases,
}
use tiny_inference_engine.Base.Table.{find}
use tiny_inference_engine.Rpc.Host.{
  RpcStatus, create, process, finish, Rpc, Wanted, Host, outstanding, complete,
}
use tiny_inference_engine.Rpc.Invariant.{Inv, due, due_in, outstanding-complete}

-- `f` of each operation, added up.
abbrev pub count : (Wanted → ℕ) → List (ℕ × Wanted) → ℕ
count f [] = 0
count f ((t, w) ∷ p) = f w + count f p

module _ (f : Wanted → ℕ) where
  pub count-complete :
      (t : ℕ) (w : Wanted) (ws : List Wanted) (p : List (ℕ × Wanted))
      → outstanding t p ≡ w ∷ ws
      → count f p ≡ f w + count f (complete t p)
  unfolding outstanding complete
  count-complete t w ws [] o = cc
  count-complete t w ws ((u, x) ∷ p) o = ground (arith, count-complete t w ws p)

  -- A sum that is not 0 has an operation that it counts.
  pub count-held :
      (p : List (ℕ × Wanted))
      → 1 ≤ count f p
      → (t : ℕ) × (ws : List Wanted) × (w : Wanted) × (vs : List Wanted) × (outstanding t p
          ≡ ws ++ w ∷ vs)
        × (1 ≤ f w)
  unfolding outstanding
  count-held [] h = absurd (omega (arith, h))
  count-held ((u, w) ∷ p) h = elim (Bool-cases (f w == 0)) [
    | inr counted ↦ (u, [], w, outstanding u p, rw (==_refl u) refl, ground (arith, counted))
    | inl zero ↦
        let (t, ws, v, vs, held, pos) = count-held p (ground (arith, zero, h)) in
        elim (Bool-cases (u == t)) [
          | inl same ↦ (t, w ∷ ws, v, vs, rw same (ap (◌∷◌ w) held), pos)
          | inr differs ↦ (t, ws, v, vs, rw differs held, pos)
        ]
  ]

-- No tag has two operations.
abbrev pub Single : List (ℕ × Wanted) → Type 0
Single p = (t : ℕ) → (outstanding t p ≡ []) ⊎ ((w : Wanted) × (outstanding t p ≡ w ∷ []))

pub Single-complete : (t : ℕ) (p : List (ℕ × Wanted)) → Single p → Single (complete t p)
Single-complete t p single j = elim (Bool-cases (t == j)) [
  | inl same ↦ elim (single t) [
    | inl gone ↦ inl (rw (outstanding-complete t j p, same, gone) refl)
    | inr (w, one) ↦ inl (rw (outstanding-complete t j p, same, one) refl)
  ]
  | inr differs ↦ elim (single j) [
    | inl gone ↦ inl (rw (outstanding-complete t j p, differs) gone)
    | inr (w, one) ↦ inr (w, rw (outstanding-complete t j p, differs) one)
  ]
]

pub single-head :
    (t : ℕ) (p : List (ℕ × Wanted)) (ws vs : List Wanted) (w : Wanted)
    → Single p
    → outstanding t p ≡ ws ++ w ∷ vs
    → outstanding t p ≡ w ∷ []
single-head t p ws vs w single held = elim (single t) [
  | inl gone ↦ absurd (empty-append w ws vs (sym gone ∙ held))
  | inr (x, one) ↦ one ∙ single-append x w ws vs (sym one ∙ held)
]

due_in-single :
    (st : RpcStatus) (r : Rpc) → (due_in st r ≡ []) ⊎ ((w : Wanted) × (due_in st r ≡ w ∷ []))
due_in-single create r = inl refl
due_in-single process r = inr (_, refl)
due_in-single finish r = inr (_, refl)

due-single : (o : Option Rpc) → (due o ≡ []) ⊎ ((w : Wanted) × (due o ≡ w ∷ []))
due-single none = inl refl
due-single (some r) = due_in-single r.state r

-- An object has one operation with the runtime at most.
pub Inv-Single : {S : Type 0} (h : Host S) → Inv h → Single h.pending
Inv-Single h v t = elim (due-single (find t h.rpcs)) [
  | inl gone ↦ inl (v.agree t ∙ gone)
  | inr (w, one) ↦ inr (w, v.agree t ∙ one)
]
