-- ===== src/Engine/Loading.antt =====
-- What loading a model into `onnx_backend` (tie_engine/src/onnx_backend) leaves of its names.
use tiny_inference_engine.Base.{
  ℕ, zero, suc, ◌+◌, ◌<◌, ◌≡◌, inl, inr, refl, sym, ◌∙◌, ap, String, false, none, some, List, [],
  ◌∷◌, ◌++◌, ◌>>=◌, arith, ◌==◌, ==_refl, Option-cases, Bool-cases, length,
}
use tiny_inference_engine.Base.Table.{find, assign, erase, find-assign, find-erase}
use tiny_inference_engine.Engine.Names.{
  Names, ModelInfo, Infos, no_infos, allocate, emplace_back, free, destroy,
}
use tiny_inference_engine.Engine.Onnx.{read_infos}

destroy-gone :
    (is : List ModelInfo) (p : ℕ) (h h' : Names)
    → destroy is h ≡ some h'
    → find p h.live ≡ none
    → (find p h'.live ≡ none) × (h'.next ≡ h.next)
unfolding destroy free
destroy-gone [] p h h' went gone = (cc, cc)
destroy-gone (i ∷ is) p h h' went gone = elim (Option-cases (find i.name h.live)) [
  | inl lost ↦ absurd (ground (arith, went, lost))
  | inr (text, here) ↦
      destroy-gone is p (record h { live = erase i.name h.live }) h' (ground (arith, went, here))
        (simp find-erase (ground (arith, gone)))
]

destroy-live :
    (i : ModelInfo) (is : List ModelInfo) (h : Names) (text : String)
    → find i.name h.live ≡ some text
    → destroy (i ∷ is) h ≡ destroy is (record h { live = erase i.name h.live })
unfolding destroy free
destroy-live i is h text here = rw (destroy, free, here) refl

destroy-lost :
    (i : ModelInfo) (is : List ModelInfo) (h : Names)
    → find i.name h.live ≡ none
    → destroy (i ∷ is) h ≡ none
unfolding destroy free
destroy-lost i is h lost = rw (destroy, free, lost) refl

emplace_back-gone :
    (grow : ℕ → ℕ) (i : ModelInfo) (v v' : Infos) (p : ℕ) (h h' : Names)
    → emplace_back grow i v h ≡ some (v', h')
    → find p h.live ≡ none
    → (find p h'.live ≡ none) × (h'.next ≡ h.next)
unfolding emplace_back
emplace_back-gone grow i v v' p h h' went gone = elim (Bool-cases (length v.items == v.capacity)) [
  | inl full ↦ elim (Option-cases (destroy v.items h)) [
    | inl lost ↦ absurd (ground (arith, went, full, lost))
    | inr (h1, d) ↦
        let same : h1 ≡ h' = ground (arith, went, full, d) in
        destroy-gone v.items p h h' (d ∙ ap some same) gone
  ]
  | inr room ↦ let same : h ≡ h' = ground (arith, went, room) in rw (sym same) (gone, refl)
]

module _ (grow : ℕ → ℕ) (name : ℕ → String) (shape : ℕ → List ℕ) (type : ℕ → ℕ) where
  -- A name that was freed stays so.
  pub read_infos-gone :
      (left idx : ℕ) (v v' : Infos) (p : ℕ) (h h' : Names)
      → read_infos grow name shape type left idx v h ≡ some (v', h')
      → p < h.next
      → find p h.live ≡ none
      → find p h'.live ≡ none
  unfolding read_infos allocate
  read_infos-gone zero idx v v' p h h' went lt gone = cc
  read_infos-gone (suc left) idx v v' p h h' went lt gone =
      let i : ModelInfo = record { name = h.next; shape = shape idx; type = type idx } in
      let h1 : Names = record { next = h.next + 1; live = assign h.next (name idx) h.live } in
      elim (Option-cases (emplace_back grow i v h1)) [
        | inl lost ↦ absurd (ground (arith, went, lost))
        | inr ((v2, h2), e) ↦
            let (gone2, same) =
              emplace_back-gone grow i v v2 p h1 h2 e (simp find-assign (ground (arith, gone))) in
            read_infos-gone left (idx + 1) v2 v' p h2 h' (ground (arith, went, e))
              (omega (arith, same)) gone2
      ]

  -- The first two names, of which the second growth of the vector frees the first.
  abbrev pub two_names : Names → Names
  two_names h = record {
    next = h.next + 1 + 1;
    live = erase h.next (assign (h.next + 1) (name 1) (assign h.next (name 0) h.live));
  }

  abbrev pub first_info : Names → ModelInfo
  first_info h = record { name = h.next; shape = shape 0; type = type 0 }

  abbrev pub second_info : Names → ModelInfo
  second_info h = record { name = h.next + 1; shape = shape 1; type = type 1 }

  abbrev pub two_infos : Names → Infos
  two_infos h = record { items = first_info h ∷ second_info h ∷ []; capacity = 2 }

  -- Before the second growth.
  abbrev pub two_live : Names → Names
  two_live h = record {
    next = h.next + 1 + 1;
    live = assign (h.next + 1) (name 1) (assign h.next (name 0) h.live);
  }

  destroy-first : (h : Names) → destroy (first_info h ∷ []) (two_live h) ≡ some (two_names h)
  unfolding destroy
  destroy-first h =
      let apart : (h.next + 1 == h.next) ≡ false = ground arith in
      let there : find h.next (two_live h).live ≡ some (name 0) =
        rw (find-assign, apart, find-assign, ==_refl h.next) refl in
      destroy-live (first_info h) [] (two_live h) (name 0) there

  emplace_back-two :
      (h : Names)
      → grow 0 ≡ 1
      → grow 1 ≡ 2
      → emplace_back grow
          (second_info h)
          (record { items = first_info h ∷ []; capacity = grow 0 })
          (two_live h)
        ≡ some (two_infos h, two_names h)
  unfolding emplace_back
  emplace_back-two h first second = rw (first, destroy-first h, second) refl

  pub read_infos-two :
      (n : ℕ) (h : Names)
      → grow 0 ≡ 1
      → grow 1 ≡ 2
      → read_infos grow name shape type (suc (suc n)) 0 no_infos h
        ≡ read_infos grow name shape type n 2 (two_infos h) (two_names h)
  unfolding read_infos allocate emplace_back destroy
  read_infos-two n h first second =
      ap (λ o. o >>= λ r. read_infos grow name shape type n 2 r.0 r.1)
        (emplace_back-two h first second)

  -- The third growth frees the first name again.
  emplace_back-three :
      (h : Names) (i : ModelInfo)
      → emplace_back grow i (two_infos h) (record {
        next = h.next + 1 + 1 + 1;
        live = assign (h.next + 1 + 1) (name 2) (two_names h).live;
      })
        ≡ none
  unfolding emplace_back
  emplace_back-three h i =
      let apart : (h.next + 1 + 1 == h.next) ≡ false = ground arith in
      let lost : find h.next (assign (h.next + 1 + 1) (name 2) (two_names h).live) ≡ none =
        rw (find-assign, apart, find-erase, ==_refl h.next) refl in
      ap
        (λ o. o >>= λ h'.
          some (record { items = (two_infos h).items ++ (i ∷ []); capacity = grow 2 }, h'))
        (destroy-lost (first_info h) _ _ lost)

  pub read_infos-three :
      (n : ℕ) (h : Names)
      → grow 0 ≡ 1
      → grow 1 ≡ 2
      → read_infos grow name shape type (suc (suc (suc n))) 0 no_infos h ≡ none
  unfolding read_infos allocate
  read_infos-three n h first second =
      read_infos-two (suc n) h first second
      ∙ ap (λ o. o >>= λ r. read_infos grow name shape type n 3 r.0 r.1) (emplace_back-three h _)
