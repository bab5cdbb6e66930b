-- ===== src/Rpc/Round.antt =====
-- A thread that is not interrupted, against one round of the loop of Rpc/Execute.antt
-- (rpc/rpc_unary_async.cpp, `rpc_handler` of grpc_server.cpp).
use tiny_inference_engine.Base.{
  ℕ, ◌≤◌, ◌≡◌, ◌⊎◌, inl, inr, refl, sym, ◌∙◌, ap, subst, true, false, none, some, List, [], ◌∷◌,
  arith, ◌==◌, ==_iff, ==_refl, if◌then◌else◌, Bool-cases, Option-cases,
}
use tiny_inference_engine.Base.Table.{find, find-adjust}
use tiny_inference_engine.Engine.{EngineInterface}
use tiny_inference_engine.Rpc.Classes.{class_of-creates}
use tiny_inference_engine.Rpc.Host.{Rpc, process, finish, Wanted, receive, Event, outstanding}
use tiny_inference_engine.Rpc.Execute.{arrive, step, spawn, respond}
use tiny_inference_engine.Rpc.Invariant.{due_in, arrive-nothing}
use tiny_inference_engine.Rpc.Steps.{
  called, step_delivers, handle_ended, handle_called, due_single, state_cases,
}
use tiny_inference_engine.Rpc.Threads.{waiting, returned, World, put, queue_of}
use tiny_inference_engine.Rpc.Confined.{
  Stage, free, held, set_up, answered, owed_in, owed, stage, Confined,
}
use tiny_inference_engine.Rpc.Uninterrupted.{accesses, more, turn-take, removes, answers}

queue-owed_in_lem :
    (s : Stage) (r : Rpc) (x : Wanted) (xs : List Wanted)
    → owed_in s r ≡ x ∷ xs
    → queue_of x ≡ r.queue
queue-owed_in_lem free r x xs o = ground arith
queue-owed_in_lem held r x xs o = ground arith
queue-owed_in_lem set_up r x xs o = ground arith
queue-owed_in_lem answered r x xs o = ground arith

-- The object of an operation that a waiting thread takes.
wanted-found :
    {S : Type 0} (w : World S) (t : ℕ) (x : Wanted) (xs : List Wanted)
    → Confined w
    → w.activity (queue_of x) ≡ waiting
    → outstanding t w.host.pending ≡ x ∷ xs
    → (r : Rpc) × (find t w.host.rpcs ≡ some r)
      × (r.queue ≡ queue_of x)
      × (due_in r.state r ≡ x ∷ xs)
wanted-found w t x xs v a o = elim (Option-cases (find t w.host.rpcs)) [
  | inl e ↦ absurd (cc (v.agree t, ap (owed t w.activity) e, o))
  | inr (r, e) ↦
      let owes : owed_in (stage t (w.activity r.queue)) r ≡ x ∷ xs =
        cc (v.agree t, ap (owed t w.activity) e, o) in
      let mine = queue-owed_in_lem (stage t (w.activity r.queue)) r x xs owes in
      let idle : stage t (w.activity r.queue) ≡ free = rw (sym mine, a) refl in
      (r, e, sym mine, subst (λ s. owed_in s r ≡ x ∷ xs) idle owes)
]

module _ {S : Type 0} (engine : EngineInterface S) (q : ℕ) (e : Event) where
  -- What a thread does that is not interrupted.
  abbrev pub Treated : World S → Type 0
  Treated w =
      (k : ℕ) × (w' : World S) × (accesses engine q e k w ≡ some w')
      × ((p : ℕ) → w'.activity p ≡ (if p == q then waiting else w.activity p))
      × (step engine e w.host ≡ some w'.host)
      × (k ≤ 9)

  ends :
      (w : World S) (x : Wanted) (xs : List Wanted) (r : Rpc)
      → w.activity q ≡ waiting
      → outstanding e.tag w.host.pending ≡ x ∷ xs
      → queue_of x ≡ q
      → find e.tag w.host.rpcs ≡ some r
      → due_in r.state r ≡ x ∷ []
      → (e.ok ≡ false) ⊎ (r.state ≡ finish)
      → Treated w
  ends w x xs r a o mine here d c =
      let w1 = put q (returned e.tag e.ok) w (arrive e x w.host) in
      let same = arrive-nothing e x r w.host d c in
      let here1 : find e.tag w1.host.rpcs ≡ some r = rw same here in
      (
        3,
        _,
        more engine q e 2 w w1 (turn-take engine q e x xs w a o mine)
            (removes engine q e w1 r (rw ==_refl refl) here1 c),
        λ p. elim (Bool-cases (p == q)) [ inl same ↦ rw same refl | inr differs ↦ rw differs refl ],
        step_delivers engine e w.host x xs o ∙ handle_ended engine e r w1.host here1 c,
        omega arith,
      )

  serves :
      (w : World S) (xs : List Wanted) (r : Rpc)
      → w.activity q ≡ waiting
      → find w.host.next_id w.host.rpcs ≡ none
      → outstanding e.tag w.host.pending ≡ receive r.kind r.queue ∷ xs
      → r.queue ≡ q
      → find e.tag w.host.rpcs ≡ some r
      → r.state ≡ process
      → e.ok ≡ true
      → Treated w
  unfolding arrive
  serves w xs r a unused o mine here st ok =
      let x = receive r.kind r.queue in
      let w1 = put q (returned e.tag e.ok) w (arrive e x w.host) in
      let here1 : find e.tag w1.host.rpcs ≡ some (called e r) =
        rw (ok, find-adjust, here, ==_refl e.tag) refl in
      let unused1 : find w1.host.next_id w1.host.rpcs ≡ none =
        rw (ok, find-adjust) (ground (arith, unused)) in
      let took : w1.activity q ≡ returned e.tag true = rw (==_refl q, ok) refl in
      let (w', went, idle, kept, hosts) =
        answers engine q e w1 (called e r) took here1 unused1 st in
      (
        9,
        w',
        more engine q e 8 w w1 (turn-take engine q e x xs w a o mine) went,
        λ p. elim (Bool-cases (p == q)) [
          | inl same ↦ rw (same, (==_iff p q).0 same) idle
          | inr differs ↦ rw differs (kept p (λ z. ground (arith, differs, z)) ∙ (rw differs refl))
        ],
        step_delivers engine e w.host x xs o
            ∙ handle_called engine e (called e r) w1.host here1 st ok
            ∙ sym (
                ap some (
                  hosts
                  ∙ ap (λ k. respond engine e.tag (called e r) (spawn k r.queue w1.host))
                      (class_of-creates r.kind))),
        omega arith,
      )

  -- A thread that takes an event for an operation of its queue, and is not interrupted before it waits
  -- again, makes at most 9 accesses, changes no other thread, and leaves the host that one round of the
  -- sequential loop leaves; in a world in which the objects are confined to their threads.
  pub uninterrupted-step :
      (w : World S) (x : Wanted) (xs : List Wanted)
      → Confined w
      → w.activity q ≡ waiting
      → outstanding e.tag w.host.pending ≡ x ∷ xs
      → queue_of x ≡ q
      → Treated w
  uninterrupted-step w x xs v a o mine =
      let (r, here, owned, d) = wanted-found w e.tag x xs v (rw mine a) o in
      let single = due_single engine r x xs d in
      elim (Bool-cases e.ok) [
        | inr failed ↦ ends w x xs r a o mine here single (inl failed)
        | inl ok ↦ elim (state_cases engine r x xs d) [
          | inr st ↦ ends w x xs r a o mine here single (inr st)
          | inl (st, same) ↦
              serves w xs r a (v.fresh w.host.next_id (omega arith)) (o ∙ ap (λ y. y ∷ xs) same)
                (owned ∙ mine) here st ok
        ]
      ]
