-- ===== src/Rpc/Interleaving.antt =====
-- All interleavings of the threads' accesses (rpc/rpc_unary_async.cpp, rpc/rpc_pool.cpp, grpc_server.cpp).
use tiny_inference_engine.Base.{
  ℕ, ◌+◌, ◌%◌, ◌^◌, ◌<◌, ◌≤◌, ◌≡◌, ◌≢◌, inl, inr, refl, sym, ap, subst, Bool, true, false, none,
  some, List, [], ◌∷◌, arith, length, ◌==◌, ==_iff, Bool-cases,
}
use tiny_inference_engine.Base.Table.{find}
use tiny_inference_engine.Engine.{EngineInterface}
use tiny_inference_engine.Rpc.Classes.{class_of}
use tiny_inference_engine.Rpc.Host.{
  Rpc, RpcStatus, create, process, finish, Wanted, receive, finished, Host, Event, new_rpc,
  remove_rpc, outstanding,
}
use tiny_inference_engine.Rpc.Execute.{store, setup_request, arrive}
use tiny_inference_engine.Rpc.Threads.{
  serve, enroll, Activity, waiting, returned, allocating, inserting, setting_up, starting,
  processing, writing, finishing, removing, World, put, resume, executing, processed, written,
  queue_of, take_event, on_rpc, turn, schedule,
}
use tiny_inference_engine.Rpc.Confined.{free, stage, Confined, at-found}
use tiny_inference_engine.Rpc.Creation.{
  on-Confined, allocating-Confined, inserting-Confined, setting_up-Confined, starting-Confined,
}
use tiny_inference_engine.Rpc.Accesses.{
  processing-Confined, writing-Confined, finishing-Confined, removing-Confined, waiting-Confined,
}

next_id-arrive_lem :
    {S : Type 0} (e : Event) (x : Wanted) (h : Host S) → (arrive e x h).next_id ≡ h.next_id
unfolding arrive
next_id-arrive_lem e (receive k queue) h = ground arith
next_id-arrive_lem e (finished queue) h = refl

take_event-Confined :
    {S : Type 0} (q : ℕ) (e : Event) (w : World S) (xs : List Wanted)
    → Confined w
    → w.activity q ≡ waiting
    → outstanding e.tag w.host.pending ≡ xs
    → Confined (take_event xs q e w) × ((take_event xs q e w).host.next_id ≤ w.host.next_id)
take_event-Confined q e w [] v a o = (v, omega arith)
take_event-Confined q e w (x ∷ xs) v a o = elim (Bool-cases (queue_of x == q)) [
  | inl mine ↦ rw mine (
    waiting-Confined q w v e x xs a o ((==_iff (queue_of x) q).0 mine),
    omega (arith, next_id-arrive_lem e x w.host),
  )
  | inr other ↦ rw other (v, omega arith)
]

executing-Confined :
    {S : Type 0} (q t : ℕ) (ok b : Bool) (st : RpcStatus) (r : Rpc) (w : World S)
    → Confined w
    → w.activity q ≡ returned t ok
    → r.queue ≡ q
    → Confined (put q (executing b st t r) w w.host)
executing-Confined q t ok false st r w v a mine =
    on-Confined q w v (removing t) (λ j. rw a refl) refl tt
executing-Confined q t ok true create r w v a mine =
    on-Confined q w v (setting_up t (enroll [])) (λ j. rw a refl) refl tt
executing-Confined q t ok true process r w v a mine =
    on-Confined q w v (allocating (class_of r.kind).creates r.queue (serve t)) (λ j. rw a refl) refl
      mine
executing-Confined q t ok true finish r w v a mine =
    on-Confined q w v (removing t) (λ j. rw a refl) refl tt

pub on_rpc-found :
    {S : Type 0} (t : ℕ) (w : World S) (f : Rpc → World S) {r : Rpc}
    → find t w.host.rpcs ≡ some r
    → on_rpc t w f ≡ some (f r)
on_rpc-found t w f here = ap (λ o. elim o [ none ↦ none | some r ↦ some (f r) ]) here

-- The object that a thread is at.
pub at-object :
    {S : Type 0} (q t : ℕ) (w : World S) (a : Activity)
    → Confined w
    → w.activity q ≡ a
    → stage t a ≢ free
    → (r : Rpc) × (find t w.host.rpcs ≡ some r) × (r.queue ≡ q)
at-object q t w a v e at = at-found q t w v (subst (λ b. stage t b ≢ free) (sym e) at)

module _ {S : Type 0} (engine : EngineInterface S) where
  pub turn-Confined :
      (q : ℕ) (e : Event) (w : World S) (a : Activity)
      → w.host.next_id + 1 < 2 ^ 64
      → Confined w
      → w.activity q ≡ a
      → (w' : World S) × (turn engine q e w ≡ some w')
        × Confined w'
        × (w'.host.next_id ≤ w.host.next_id + 1)
  unfolding turn store setup_request remove_rpc
  turn-Confined q e w waiting lt v a =
      let (c, small) = take_event-Confined q e w (outstanding e.tag w.host.pending) v a refl in
      (take_event (outstanding e.tag w.host.pending) q e w, rw a refl, c, omega (arith, small))
  turn-Confined q e w (returned t ok) lt v a =
      let (r, here, mine) = at-object q t w (returned t ok) v a (λ z. ground arith) in
      let f : Rpc → World S = λ r. put q (executing ok r.state t r) w w.host in
      (
        f r,
        rw a (on_rpc-found t w f here),
        executing-Confined q t ok ok r.state r w v a mine,
        omega arith,
      )
  turn-Confined q e w (allocating k queue n) lt v a = (
    put q (inserting w.host.next_id k queue n) w
        (record w.host { next_id = (w.host.next_id + 1) % 2 ^ 64 }),
    rw a refl,
    allocating-Confined q w v k queue n a lt,
    omega arith,
  )
  turn-Confined q e w (inserting id k queue n) lt v a = (
    put q (setting_up id n) w (store id (new_rpc k queue) w.host),
    rw a refl,
    inserting-Confined q w v id k queue n a,
    omega arith,
  )
  turn-Confined q e w (setting_up id n) lt v a =
      let (r, here, mine) = at-object q id w (setting_up id n) v a (λ z. ground arith) in
      let f : Rpc → World S = λ r. put q (starting id n) w (setup_request id r w.host) in
      (
        f r,
        rw a (on_rpc-found id w f here),
        setting_up-Confined q w v id r n a here mine,
        omega arith,
      )
  turn-Confined q e w (starting id n) lt v a =
      let (r, here, mine) = at-object q id w (starting id n) v a (λ z. ground arith) in
      let f : Rpc → World S =
        λ r. put q (resume q n) w (store id (record r { state = process }) w.host) in
      (
        f r,
        rw a (on_rpc-found id w f here),
        starting-Confined q w v id r n a here mine,
        omega arith,
      )
  turn-Confined q e w (processing t) lt v a =
      let (r, here, mine) = at-object q t w (processing t) v a (λ z. ground arith) in
      let f : Rpc → World S = λ r. put q (writing t) w (processed engine t r w.host) in
      (
        f r,
        rw a (on_rpc-found t w f here),
        processing-Confined q w v engine t r a here mine,
        omega arith,
      )
  turn-Confined q e w (writing t) lt v a =
      let (r, here, mine) = at-object q t w (writing t) v a (λ z. ground arith) in
      let f : Rpc → World S = λ r. put q (finishing t) w (written engine t r w.host) in
      (
        f r,
        rw a (on_rpc-found t w f here),
        writing-Confined q w v engine t r a here mine,
        omega arith,
      )
  turn-Confined q e w (finishing t) lt v a =
      let (r, here, mine) = at-object q t w (finishing t) v a (λ z. ground arith) in
      let f : Rpc → World S = λ r. put q waiting w (store t (record r { state = finish }) w.host) in
      (f r, rw a (on_rpc-found t w f here), finishing-Confined q w v t r a here mine, omega arith)
  turn-Confined q e w (removing t) lt v a =
      let (r, here, mine) = at-object q t w (removing t) v a (λ z. ground arith) in
      let f : Rpc → World S = λ r. put q waiting w (remove_rpc t w.host) in
      (f r, rw a (on_rpc-found t w f here), removing-Confined q w v t r a here mine, omega arith)

  -- Whatever order the threads take their accesses in, from a world in which the objects are confined.
  pub schedule-Confined :
      (es : List (ℕ × Event)) (w : World S)
      → Confined w
      → w.host.next_id + length es < 2 ^ 64
      → (w' : World S) × (schedule engine es w ≡ some w')
        × Confined w'
        × (w'.host.next_id ≤ w.host.next_id + length es)
  unfolding schedule
  schedule-Confined [] w v lt = (w, refl, v, omega arith)
  schedule-Confined ((q, e) ∷ es) w v lt =
      let (w1, went, v1, small) = turn-Confined q e w (w.activity q) (omega arith) v refl in
      let (w2, rest, v2, small2) = schedule-Confined es w1 v1 (omega (arith, small)) in
      (w2, rw went rest, v2, omega (arith, small, small2))
