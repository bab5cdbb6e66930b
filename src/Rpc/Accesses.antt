-- ===== src/Rpc/Accesses.antt =====
-- A thread's accesses while it takes an event and answers a call, and which thread is then at which object
-- (rpc/rpc_unary_async.cpp, rpc/rpc_pool.cpp, `rpc_handler` of grpc_server.cpp).
use tiny_inference_engine.Base.{
  ℕ, ◌≡◌, inl, inr, refl, sym, ap, subst, some, List, [], ◌∷◌, arith, if◌then◌else◌, Bool-cases,
  Option-cases,
}
use tiny_inference_engine.Base.Table.{find, find-assign, find-erase, find-adjust, adjust}
use tiny_inference_engine.Rpc.Host.{Rpc, Wanted, receive, finished, Host, outstanding}
use tiny_inference_engine.Rpc.Threads.{
  waiting, returned, processing, writing, finishing, removing, World, put, processed, written,
  queue_of,
}
use tiny_inference_engine.Rpc.Confined.{Confined}
use tiny_inference_engine.Rpc.Execute.{store, arrive}
use tiny_inference_engine.Rpc.Host.{finish, remove_rpc, Event, complete}
use tiny_inference_engine.Rpc.Invariant.{outstanding-complete}
use tiny_inference_engine.Engine.{EngineInterface}
use tiny_inference_engine.Rpc.Creation.{put-Confined}

-- The host after the runtime has completed the event's operation, without and with a message.
abbrev completed : {S : Type 0} → Event → Host S → Host S
completed e h = record h { pending = complete e.tag h.pending }

abbrev received : {S : Type 0} → Event → Host S → Host S
received e h = record h {
  rpcs = adjust (λ r. record r { request = e.incoming r.kind }) e.tag h.rpcs;
  pending = complete e.tag h.pending;
}

module _ {S : Type 0} (q : ℕ) (w : World S) (v : Confined w) where
  pub processing-Confined :
      (engine : EngineInterface S) (t : ℕ) (r : Rpc)
      → w.activity q ≡ processing t
      → find t w.host.rpcs ≡ some r
      → r.queue ≡ q
      → Confined (put q (writing t) w (processed engine t r w.host))
  unfolding store
  processing-Confined engine t r a here mine =
      put-Confined q w v (writing t) (processed engine t r w.host) refl tt refl
        (λ j e. simp find-assign (ground (arith, e)))
        (λ j. simp find-assign (ground (arith, v.agree j, v.owns q j)))
        (λ p j. simp find-assign (ground (arith, v.owns p j)))

  pub writing-Confined :
      (engine : EngineInterface S) (t : ℕ) (r : Rpc)
      → w.activity q ≡ writing t
      → find t w.host.rpcs ≡ some r
      → r.queue ≡ q
      → Confined (put q (finishing t) w (written engine t r w.host))
  unfolding outstanding
  writing-Confined engine t r a here mine =
      put-Confined q w v (finishing t) (written engine t r w.host) refl tt refl (λ j e. e)
        (λ j. ground (arith, v.agree j, v.owns q j)) (λ p j. ground (arith, v.owns p j))

  pub finishing-Confined :
      (t : ℕ) (r : Rpc)
      → w.activity q ≡ finishing t
      → find t w.host.rpcs ≡ some r
      → r.queue ≡ q
      → Confined (put q waiting w (store t (record r { state = finish }) w.host))
  unfolding store
  finishing-Confined t r a here mine =
      put-Confined q w v waiting (store t (record r { state = finish }) w.host) refl tt refl
        (λ j e. simp find-assign (ground (arith, e)))
        (λ j. simp find-assign (ground (arith, v.agree j, v.owns q j)))
        (λ p j. simp find-assign (ground (arith, v.owns p j)))

  pub removing-Confined :
      (t : ℕ) (r : Rpc)
      → w.activity q ≡ removing t
      → find t w.host.rpcs ≡ some r
      → r.queue ≡ q
      → Confined (put q waiting w (remove_rpc t w.host))
  unfolding remove_rpc
  removing-Confined t r a here mine =
      put-Confined q w v waiting (remove_rpc t w.host) refl tt refl
        (λ j e. simp find-erase (ground (arith, e)))
        (λ j. simp find-erase (ground (arith, v.agree j, v.owns q j)))
        (λ p j. simp find-erase (ground (arith, v.owns p j)))

  -- An operation on a thread's queue is of an object on that queue, and is all that the runtime has of it.
  pub waiting-found :
      (t : ℕ) (x : Wanted) (xs : List Wanted)
      → w.activity q ≡ waiting
      → outstanding t w.host.pending ≡ x ∷ xs
      → queue_of x ≡ q
      → (r : Rpc) × (find t w.host.rpcs ≡ some r)
        × (r.queue ≡ q)
        × (outstanding t w.host.pending ≡ x ∷ [])
  waiting-found t x xs a o mine = elim (Option-cases (find t w.host.rpcs)) [
    | inl e ↦ absurd (ground (arith, v.agree t))
    | inr (r, e) ↦ (r, e, ground (arith, v.agree t), ground (arith, v.agree t))
  ]

  gives_up-Confined :
      (e : Event) (x : Wanted) (xs : List Wanted)
      → w.activity q ≡ waiting
      → outstanding e.tag w.host.pending ≡ x ∷ xs
      → queue_of x ≡ q
      → Confined (put q (returned e.tag e.ok) w (completed e w.host))
  gives_up-Confined e x xs a o mine =
      let (r, here, on_q, all) = waiting-found e.tag x xs a o mine in
      put-Confined q w v (returned e.tag e.ok) (completed e w.host) refl tt refl (λ j gone. gone)
        (λ j. simp outstanding-complete (ground (arith, v.agree j, v.owns q j)))
        (λ p j. ground (arith, v.owns p j))

  receives-Confined :
      (e : Event) (x : Wanted) (xs : List Wanted)
      → w.activity q ≡ waiting
      → outstanding e.tag w.host.pending ≡ x ∷ xs
      → queue_of x ≡ q
      → Confined (put q (returned e.tag e.ok) w (received e w.host))
  receives-Confined e x xs a o mine =
      let (r, here, on_q, all) = waiting-found e.tag x xs a o mine in
      put-Confined q w v (returned e.tag e.ok) (received e w.host) refl tt refl
        (λ j gone. simp find-adjust (ground (arith, gone)))
        (λ j. simp (find-adjust, outstanding-complete) (ground (arith, v.agree j, v.owns q j)))
        (λ p j. simp find-adjust (ground (arith, v.owns p j)))

  pub waiting-Confined :
      (e : Event) (x : Wanted) (xs : List Wanted)
      → w.activity q ≡ waiting
      → outstanding e.tag w.host.pending ≡ x ∷ xs
      → queue_of x ≡ q
      → Confined (put q (returned e.tag e.ok) w (arrive e x w.host))
  unfolding arrive
  waiting-Confined e (finished queue) xs a o mine = gives_up-Confined e (finished queue) xs a o mine
  waiting-Confined e (receive k queue) xs a o mine = elim (Bool-cases e.ok) [
    | inl ok ↦
        subst (λ h. Confined (put q (returned e.tag e.ok) w h))
          (sym (ap (λ b. if b then received e w.host else completed e w.host) ok))
          (receives-Confined e (receive k queue) xs a o mine)
    | inr failed ↦
        subst (λ h. Confined (put q (returned e.tag e.ok) w h))
          (sym (ap (λ b. if b then received e w.host else completed e w.host) failed))
          (gives_up-Confined e (receive k queue) xs a o mine)
  ]
