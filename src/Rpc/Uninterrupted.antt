-- ===== src/Rpc/Uninterrupted.antt =====
-- The accesses of a thread that is not interrupted while it treats an event
-- (rpc/rpc_unary_async.cpp, `rpc_handler` of grpc_server.cpp).
use tiny_inference_engine.Base.{
  ℕ, suc, ◌+◌, ◌%◌, ◌^◌, ◌≡◌, ◌≢◌, ◌⊎◌, refl, ◌∙◌, ap, true, false, Option, none, some, List, [],
  ◌∷◌, arith, replicate, ◌==◌, ==_iff, ==_refl,
}
use tiny_inference_engine.Base.Table.{find, assign, erase, Table, find-assign}
use tiny_inference_engine.Engine.{EngineInterface}
use tiny_inference_engine.Rpc.Process.{process_request}
use tiny_inference_engine.Rpc.Classes.{class_of}
use tiny_inference_engine.Rpc.Host.{
  Rpc, process, finish, Wanted, Host, Event, new_rpc, remove_rpc, outstanding, create_rpc,
}
use tiny_inference_engine.Rpc.Execute.{store, setup_request, arrive, spawn, respond}
use tiny_inference_engine.Rpc.Threads.{
  serve, Activity, waiting, returned, allocating, inserting, setting_up, starting, processing,
  writing, finishing, removing, World, put, executing, processed, written, queue_of, turn, schedule,
}
use tiny_inference_engine.Rpc.Interleaving.{on_rpc-found}

erase-erase {ℓ} : {V : Type ℓ} (k : ℕ) (m : Table V) → erase k (erase k m) ≡ erase k m
unfolding erase
erase-erase k [] = refl
erase-erase k ((j, v) ∷ m) = ground (arith, erase-erase k m)

assign-assign {ℓ} :
    {V : Type ℓ} (k : ℕ) (u v : V) (m : Table V) → assign k v (assign k u m) ≡ assign k v m
unfolding assign erase
assign-assign k u v m = rw ==_refl (ap (◌∷◌ (k, v)) (erase-erase k m))

put-at :
    {S : Type 0} (q : ℕ) (a : Activity) (w : World S) (h : Host S) → (put q a w h).activity q ≡ a
put-at q a w h = rw ==_refl refl

module _ {S : Type 0} (engine : EngineInterface S) (q : ℕ) (e : Event) where
  -- The thread makes this many accesses, and no other thread any.
  abbrev pub accesses : ℕ → World S → Option (World S)
  accesses k w = schedule engine (replicate k (q, e)) w

  pub more :
      (k : ℕ) (w w1 : World S) {o : Option (World S)}
      → turn engine q e w ≡ some w1
      → accesses k w1 ≡ o
      → accesses (suc k) w ≡ o
  unfolding schedule
  more k w w1 went rest = rw went rest

  pub stop : (w : World S) → accesses 0 w ≡ some w
  unfolding schedule
  stop w = refl

  pub turn-take :
      (x : Wanted) (xs : List Wanted) (w : World S)
      → w.activity q ≡ waiting
      → outstanding e.tag w.host.pending ≡ x ∷ xs
      → queue_of x ≡ q
      → turn engine q e w ≡ some (put q (returned e.tag e.ok) w (arrive e x w.host))
  unfolding turn
  turn-take x xs w a o mine = rw (a, o, (==_iff (queue_of x) q).1 mine) refl

  -- The removal of the object, once `Next` has returned.
  pub removes :
      (w : World S) (r : Rpc)
      → w.activity q ≡ returned e.tag e.ok
      → find e.tag w.host.rpcs ≡ some r
      → (e.ok ≡ false) ⊎ (r.state ≡ finish)
      → accesses 2 w
        ≡ some (put q waiting (put q (removing e.tag) w w.host) (remove_rpc e.tag w.host))
  unfolding turn remove_rpc
  removes w r a here c =
      let go : executing e.ok r.state e.tag r ≡ removing e.tag = ground arith in
      let w1 = put q (removing e.tag) w w.host in
      let f : Rpc → World S = λ r. put q (executing e.ok r.state e.tag r) w w.host in
      let g : Rpc → World S = λ r. put q waiting w1 (remove_rpc e.tag w1.host) in
      more 1 w w1 (rw a (on_rpc-found e.tag w f here ∙ ap (λ b. some (put q b w w.host)) go))
        (more 0 w1 (g r) (rw ==_refl (on_rpc-found e.tag w1 g here)) (stop (g r)))

  -- The answer to a call, once `Next` has returned.
  pub answers :
      (w : World S) (r : Rpc)
      → w.activity q ≡ returned e.tag true
      → find e.tag w.host.rpcs ≡ some r
      → find w.host.next_id w.host.rpcs ≡ none
      → r.state ≡ process
      → (w' : World S) × (accesses 8 w ≡ some w')
        × (w'.activity q ≡ waiting)
        × ((p : ℕ) → p ≢ q → w'.activity p ≡ w.activity p)
        × (w'.host ≡ respond engine e.tag r (spawn (class_of r.kind).creates r.queue w.host))
  unfolding turn spawn respond create_rpc store setup_request
  answers w r a here unused st =
      let t = e.tag in
      let id = w.host.next_id in
      let k = (class_of r.kind).creates in
      let new = new_rpc k r.queue in
      let apart : (id == t) ≡ false = ground arith in
      let f2 : Rpc → World S = λ r. put q (executing true r.state t r) w w.host in
      let w2 = put q (allocating k r.queue (serve t)) w w.host in
      let w3 =
        put q (inserting id k r.queue (serve t)) w2
          (record w2.host { next_id = (w2.host.next_id + 1) % 2 ^ 64 }) in
      let w4 = put q (setting_up id (serve t)) w3 (store id new w3.host) in
      let f5 : Rpc → World S = λ r. put q (starting id (serve t)) w4 (setup_request id r w4.host) in
      let w5 = f5 new in
      let f6 : Rpc → World S =
        λ r. put q (processing t) w5 (store id (record r { state = process }) w5.host) in
      let w6 = f6 new in
      let f7 : Rpc → World S = λ r. put q (writing t) w6 (processed engine t r w6.host) in
      let w7 = f7 r in
      let response = (process_request engine r.kind w6.host.engine r.request r.response).1 in
      let f8 : Rpc → World S = λ r. put q (finishing t) w7 (written engine t r w7.host) in
      let w8 = f8 (record r { response = response }) in
      let f9 : Rpc → World S =
        λ r. put q waiting w8 (store t (record r { state = finish }) w8.host) in
      let w9 = f9 (record r { response = response }) in
      let found4 : find id w4.host.rpcs ≡ some new = rw (find-assign, ==_refl id) refl in
      let found6 : find t w6.host.rpcs ≡ some r =
        rw (find-assign, apart, find-assign, apart) here in
      let found7 : find t w7.host.rpcs ≡ some (record r { response = response }) =
        rw (find-assign, ==_refl t) refl in
      (
        w9,
        more 7 w w2
            (rw a (
              on_rpc-found t w f2 here ∙ ap (λ s. some (put q (executing true s t r) w w.host)) st))
            (more 6 w2 w3 (rw ==_refl refl) (
              more 5 w3 w4 (rw ==_refl refl) (
                more 4 w4 w5 (rw ==_refl (on_rpc-found id w4 f5 found4)) (
                  more 3 w5 w6 (rw ==_refl (on_rpc-found id w5 f6 found4)) (
                    more 2 w6 w7 (rw ==_refl (on_rpc-found t w6 f7 found6)) (
                      more 1 w7 w8 (rw ==_refl (on_rpc-found t w7 f8 found7))
                        (more 0 w8 w9 (rw ==_refl (on_rpc-found t w8 f9 found7)) (stop w9)))))))),
        rw ==_refl refl,
        λ p other. let differs : (p == q) ≡ false = ground (arith, other) in rw differs refl,
        ap (λ m. record w9.host { rpcs = m })
            (assign-assign t (record r { response = response })
              (record (record r { response = response }) { state = finish }) w6.host.rpcs),
      )
