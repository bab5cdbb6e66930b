-- ===== src/Example/Likeness.antt =====
-- The example server (grpc_example/src/server.cpp) beside the event loop of the server
-- (rpc/rpc_unary_async.cpp, grpc_server.cpp), with the RPC objects of one method on one queue.
use mathlib.Core.Option
use tiny_inference_engine.Base.{
  ℕ, ◌+◌, ◌^◌, ◌<◌, ◌≡◌, refl, sym, ◌∙◌, ap, true, false, some, List, [], ◌∷◌, arith, Option-cases,
  inl, inr, ◌⊎◌, ◌≢◌,
}
use tiny_inference_engine.Base.Table.{find, find-assign, find-erase, find-adjust}
use tiny_inference_engine.Engine.{EngineInterface}
use tiny_inference_engine.Messages.{server_live}
use tiny_inference_engine.Rpc.Process.{process_request}
use tiny_inference_engine.Rpc.Host.{
  Rpc, process, finish, Wanted, receive, finished, Host, Event, new_rpc, remove_rpc, outstanding,
  create_rpc,
}
use tiny_inference_engine.Rpc.Classes.{class_of}
use tiny_inference_engine.Rpc.Execute.{
  arrive, step, handle_event, spawn, respond, store, setup_request, execute_create,
}
use tiny_inference_engine.Rpc.Invariant.{
  outstanding-complete, Inv, outstanding-found, arrive-Served,
}
use tiny_inference_engine.Rpc.Safety.{nonempty}
use tiny_inference_engine.Rpc.Steps.{
  next_id-arrive, state_cases, handle_called, handle_ended, step_delivers, called,
}
use tiny_inference_engine.Example.Server.{
  CallData, ServerImpl, serving, aborted, new_call, proceed_create, answer_live, proceed,
  receive_event, handle_rpc, round,
}

-- The RPC object that is like an object of the example.
abbrev pub rpc_of : CallData → Rpc
rpc_of c = record {
  kind = server_live;
  queue = 0;
  state = c.status;
  request = c.request;
  response = c.response;
}

-- The two servers have like objects and operations, and have given the same replies.
pub record Like {S : Type 0} (s : ServerImpl) (h : Host S) : Type 0 where
  pub next : s.next ≡ h.next_id
  pub objects : (t : ℕ) → find t h.rpcs ≡ Option.map rpc_of (find t s.calls)
  pub operations : (t : ℕ) → outstanding t s.pending ≡ outstanding t h.pending
  pub replies : s.replies ≡ h.replies

module _ {S : Type 0} where
  pub spawn-Like :
      (s : ServerImpl) (h : Host S)
      → h.next_id + 1 < 2 ^ 64
      → Like s h
      → Like (new_call s) (spawn server_live 0 h)
  unfolding new_call proceed_create spawn create_rpc execute_create store setup_request outstanding
      new_rpc class_of
  spawn-Like s h lt v = record {
    next = omega (arith, v.next);
    objects = λ t. simp (find-assign, v.next, v.objects t) (ground arith);
    operations = λ t. simp (v.next, v.operations t);
    replies = v.replies;
  }

  receive-Like :
      (e : Event) (w : Wanted) (s : ServerImpl) (h : Host S)
      → e.ok ≡ true
      → Like s h
      → Like (receive_event e w s) (arrive e w h)
  unfolding receive_event arrive
  receive-Like e (receive k queue) s h ok v = rw ok (record {
    next = v.next;
    objects = λ t. simp (find-adjust, v.objects t) (ground arith);
    operations = λ t. simp (outstanding-complete, v.operations t, v.operations e.tag);
    replies = v.replies;
  })
  receive-Like e (finished queue) s h ok v = record {
    next = v.next;
    objects = v.objects;
    operations = λ t. simp (outstanding-complete, v.operations t, v.operations e.tag);
    replies = v.replies;
  }

  delete-Like :
      (t : ℕ) (c : CallData) (s : ServerImpl) (h : Host S)
      → c.status ≡ finish
      → Like s h
      → Like (proceed t c s) (remove_rpc t h)
  unfolding proceed remove_rpc
  delete-Like t c s h done v = rw done (record {
    next = v.next;
    objects = λ j. simp (find-erase, v.objects j) (ground arith);
    operations = v.operations;
    replies = v.replies;
  })

module _ {S : Type 0} (engine : EngineInterface S) where
  respond-Like :
      (t : ℕ) (c : CallData) (s : ServerImpl) (h : Host S)
      → Like s h
      → Like (answer_live t c s) (respond engine t (rpc_of c) h)
  unfolding answer_live respond store process_request outstanding
  respond-Like t c s h v = record {
    next = v.next;
    objects = λ j. simp (find-assign, v.objects j) (ground arith);
    operations = λ j. simp (v.operations j);
    replies = rw v.replies refl;
  }

  Like-found :
      (t : ℕ) (s : ServerImpl) (h : Host S) (r : Rpc)
      → Like s h
      → find t h.rpcs ≡ some r
      → (c : CallData) × (find t s.calls ≡ some c) × (rpc_of c ≡ r)
  Like-found t s h r v here = elim (Option-cases (find t s.calls)) [
    | inl gone ↦ absurd (cc (v.objects t, ap (Option.map rpc_of) gone, here))
    | inr (c, there) ↦ (c, there, cc (v.objects t, ap (Option.map rpc_of) there, here))
  ]

  proceed-Like :
      (e : Event) (c : CallData) (s : ServerImpl) (h : Host S)
      → h.next_id + 1 < 2 ^ 64
      → Like s h
      → find e.tag h.rpcs ≡ some (rpc_of c)
      → e.ok ≡ true
      → (c.status ≡ process) ⊎ (c.status ≡ finish)
      → (h' : Host S) × (handle_event engine e h ≡ some h') × Like (proceed e.tag c s) h'
  unfolding proceed answer_live respond
  proceed-Like e c s h lt v here ok (inl st) = (
    respond engine e.tag (rpc_of c) (spawn server_live 0 h),
    handle_called engine e (rpc_of c) h here st ok,
    rw st (respond-Like e.tag c (new_call s) (spawn server_live 0 h) (spawn-Like s h lt v)),
  )
  proceed-Like e c s h lt v here ok (inr st) = (
    remove_rpc e.tag h,
    handle_ended engine e (rpc_of c) h here (inr st),
    delete-Like e.tag c s h st v,
  )

  -- The object of an event that has arrived.
  arrived :
      (e : Event) (h : Host S) (w : Wanted) (ws : List Wanted)
      → Inv h
      → e.ok ≡ true
      → outstanding e.tag h.pending ≡ w ∷ ws
      → (r : Rpc) × (find e.tag (arrive e w h).rpcs ≡ some r)
        × ((r.state ≡ process) ⊎ (r.state ≡ finish))
  unfolding arrive
  arrived e h w ws v ok o =
      let (r, here, d) = outstanding-found e.tag h w ws v o in
      elim (state_cases engine r w ws d) [
        | inl (st, same) ↦ (
          called e r,
          ap (λ x. find e.tag (arrive e x h).rpcs) same
              ∙ (arrive-Served e r h v here st ok).present,
          inl st,
        )
        | inr st ↦
            let same : w ≡ finished r.queue = ground (arith, d, st) in
            (r, ap (λ x. find e.tag (arrive e x h).rpcs) same ∙ here, inr st)
      ]

  handle_rpc-found :
      (e : Event) (s : ServerImpl) (c : CallData)
      → e.ok ≡ true
      → find e.tag s.calls ≡ some c
      → handle_rpc e s ≡ serving (proceed e.tag c s)
  unfolding handle_rpc
  handle_rpc-found e s c ok there = ground (arith, ok, there)

  round-found :
      (e : Event) (s : ServerImpl) (w : Wanted) (ws : List Wanted) (c : CallData)
      → outstanding e.tag s.pending ≡ w ∷ ws
      → e.ok ≡ true
      → find e.tag (receive_event e w s).calls ≡ some c
      → round e s ≡ some (serving (proceed e.tag c (receive_event e w s)))
  unfolding round
  round-found e s w ws c o ok there =
      rw o (ap some (handle_rpc-found e (receive_event e w s) c ok there))

  pub round-failed :
      (e : Event) (s : ServerImpl)
      → outstanding e.tag s.pending ≢ []
      → e.ok ≡ false
      → round e s ≡ some aborted
  unfolding round handle_rpc
  round-failed e s held failed =
      let (w, ws, o) = nonempty (outstanding e.tag s.pending) held in rw o (ground (arith, failed))

  -- One round, where `Next` returns true in `ok`.
  pub round-Like :
      (e : Event) (s : ServerImpl) (h : Host S)
      → h.next_id + 1 < 2 ^ 64
      → Inv h
      → Like s h
      → e.ok ≡ true
      → outstanding e.tag h.pending ≢ []
      → (s' : ServerImpl) × (h' : Host S) × (round e s ≡ some (serving s'))
        × (step engine e h ≡ some h')
        × Like s' h'
  round-Like e s h lt v like ok held =
      let (w, ws, o) = nonempty (outstanding e.tag h.pending) held in
      let (r, here, st) = arrived e h w ws v ok o in
      let like1 = receive-Like e w s h ok like in
      let (c, there, same) = Like-found e.tag (receive_event e w s) (arrive e w h) r like1 here in
      let (h', went, after) =
        proceed-Like e c (receive_event e w s) (arrive e w h) (rw (next_id-arrive engine e w h) lt)
          like1 (here ∙ ap some (sym same)) ok (rw (ap (λ (r : Rpc). r.state) same) st) in
      (
        proceed e.tag c (receive_event e w s),
        h',
        round-found e s w ws c (like.operations e.tag ∙ o) ok there,
        step_delivers engine e h w ws o ∙ went,
        after,
      )
