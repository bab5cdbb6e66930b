-- ===== src/Rpc/Steps.antt =====
-- What one round of the event loop does, by the object's state and the event's flag.
use tiny_inference_engine.Base.{
  ◌+◌, ◌^◌, ◌<◌, ◌≡◌, ◌⊎◌, refl, ◌∙◌, ap, true, false, some, List, [], ◌∷◌, arith, inl, inr,
  Bool-cases,
}
use tiny_inference_engine.Base.Table.{find}
use tiny_inference_engine.Engine.{EngineInterface}
use tiny_inference_engine.Rpc.Process.{process_request}
use tiny_inference_engine.Rpc.Classes.{class_of-listens, class_of-creates}
use tiny_inference_engine.Rpc.Host.{
  Rpc, process, finish, Wanted, receive, finished, Host, Event, remove_rpc, outstanding, complete,
  new_rpc,
}
use tiny_inference_engine.Rpc.Execute.{arrive, deliver, handle_event, execute, respond, spawn, step}
use tiny_inference_engine.Rpc.Invariant.{
  Inv, due_in, outstanding-found, arrive-Served, complete-Served, arrive-nothing, spawn-Served,
  respond-Inv, remove-Inv,
}

-- The object with the call that the event brought.
abbrev pub called : Event → Rpc → Rpc
called e r = record r { request = e.incoming r.kind }

module _ {S : Type 0} (engine : EngineInterface S) where
  -- The host after a call was answered.
  abbrev pub answer : Event → Rpc → Host S → Host S
  answer e r h =
      respond engine e.tag (called e r) (spawn r.kind r.queue (arrive e (receive r.kind r.queue) h))

  -- The host after an object has gone.
  abbrev pub removed : Event → Host S → Host S
  removed e h = remove_rpc e.tag (record h { pending = complete e.tag h.pending })

  pub data Outcome (e : Event) (h h' : Host S) : Type 0 where
    answered :
        (r : Rpc)
        → find e.tag h.rpcs ≡ some r
        → r.state ≡ process
        → e.ok ≡ true
        → h' ≡ answer e r h
        → Outcome e h h'
    ended :
        (r : Rpc) (w : Wanted)
        → find e.tag h.rpcs ≡ some r
        → due_in r.state r ≡ w ∷ []
        → (e.ok ≡ false) ⊎ (r.state ≡ finish)
        → h' ≡ removed e h
        → Outcome e h h'

  pub state_cases :
      (r : Rpc) (w : Wanted) (ws : List Wanted)
      → due_in r.state r ≡ w ∷ ws
      → ((r.state ≡ process) × (w ≡ receive r.kind r.queue)) ⊎ (r.state ≡ finish)
  state_cases r w ws d = ground arith

  pub handle_ended :
      (e : Event) (r : Rpc) (h : Host S)
      → find e.tag h.rpcs ≡ some r
      → (e.ok ≡ false) ⊎ (r.state ≡ finish)
      → handle_event engine e h ≡ some (remove_rpc e.tag h)
  unfolding handle_event execute
  handle_ended e r h here c = ground arith

  pub handle_called :
      (e : Event) (r : Rpc) (h : Host S)
      → find e.tag h.rpcs ≡ some r
      → r.state ≡ process
      → e.ok ≡ true
      → handle_event engine e h ≡ some (respond engine e.tag r (spawn r.kind r.queue h))
  unfolding handle_event execute
  handle_called e r h here st ok = ground (arith, class_of-creates r.kind)

  pub step_delivers :
      (e : Event) (h : Host S) (w : Wanted) (ws : List Wanted)
      → outstanding e.tag h.pending ≡ w ∷ ws
      → step engine e h ≡ handle_event engine e (arrive e w h)
  unfolding step deliver
  step_delivers e h w ws o = rw o

  pub due_single :
      (r : Rpc) (w : Wanted) (ws : List Wanted)
      → due_in r.state r ≡ w ∷ ws
      → due_in r.state r ≡ w ∷ []
  due_single r w ws d = ground arith

  pub step_answered :
      (e : Event) (r : Rpc) (h : Host S)
      → Inv h
      → find e.tag h.rpcs ≡ some r
      → r.state ≡ process
      → e.ok ≡ true
      → handle_event engine e (arrive e (receive r.kind r.queue) h) ≡ some (answer e r h)
  step_answered e r h v here st ok =
      handle_called e (called e r) (arrive e (receive r.kind r.queue) h)
        (arrive-Served e r h v here st ok).present st ok

  pub step_ended :
      (e : Event) (r : Rpc) (w : Wanted) (h : Host S)
      → find e.tag h.rpcs ≡ some r
      → due_in r.state r ≡ w ∷ []
      → (e.ok ≡ false) ⊎ (r.state ≡ finish)
      → handle_event engine e (arrive e w h) ≡ some (removed e h)
  step_ended e r w h here d c =
      rw (arrive-nothing e w r h d c)
        (handle_ended e r (record h { pending = complete e.tag h.pending }) here c)

  -- An event that the runtime can return is treated without touching a dangling tag, and either
  -- answers a call or removes its object.
  pub step-Outcome :
      (e : Event) (h : Host S) (w : Wanted) (ws : List Wanted)
      → Inv h
      → outstanding e.tag h.pending ≡ w ∷ ws
      → (h' : Host S) × (step engine e h ≡ some h') × Outcome e h h'
  step-Outcome e h w ws v o =
      let (r, here, d) = outstanding-found e.tag h w ws v o in
      let lost : (e.ok ≡ false) ⊎ (r.state ≡ finish)
          → (h' : Host S) × (step engine e h ≡ some h') × Outcome e h h' =
        λ c. (
          removed e h,
          step_delivers e h w ws o ∙ step_ended e r w h here (due_single r w ws d) c,
          ended r w here (due_single r w ws d) c refl,
        ) in
      elim (Bool-cases e.ok) [
        | inr failed ↦ lost (inl failed)
        | inl ok ↦ elim (state_cases r w ws d) [
          | inr st ↦ lost (inr st)
          | inl (st, same) ↦ (
            answer e r h,
            step_delivers e h w ws o
                ∙ ap (λ x. handle_event engine e (arrive e x h)) same
                ∙ step_answered e r h v here st ok,
            answered r here st ok refl,
          )
        ]
      ]

  pub next_id-arrive : (e : Event) (w : Wanted) (h : Host S) → (arrive e w h).next_id ≡ h.next_id
  unfolding arrive
  next_id-arrive e (receive k queue) h = ground arith
  next_id-arrive e (finished queue) h = refl

  -- A round preserves the invariant as long as ids do not wrap.
  pub Outcome-Inv :
      {e : Event} {h h' : Host S} → h.next_id + 1 < 2 ^ 64 → Inv h → Outcome e h h' → Inv h'
  Outcome-Inv {e} {h} lt v (answered r here st ok same) = rw same (
      respond-Inv engine e.tag (called e r) _ (
        spawn-Served e.tag (called e r) r.kind r.queue (arrive e (receive r.kind r.queue) h)
          (rw (next_id-arrive e (receive r.kind r.queue) h) lt) (arrive-Served e r h v here st ok)))
  Outcome-Inv {e} {h} lt v (ended r w here d c same) =
      rw same (remove-Inv e.tag r _ (complete-Served e.tag r w h v here d))

  pub answer-pending :
      (e : Event) (r : Rpc) (h : Host S)
      → e.ok ≡ true
      → (answer e r h).pending
        ≡ (e.tag, finished r.queue) ∷ (h.next_id, receive r.kind r.queue) ∷ complete e.tag h.pending
  unfolding respond spawn arrive new_rpc
  answer-pending e r h ok = rw (ok, class_of-listens)

  pub answer-engine :
      (e : Event) (r : Rpc) (h : Host S)
      → e.ok ≡ true
      → (answer e r h).engine
        ≡ (process_request engine r.kind h.engine (e.incoming r.kind) r.response).0
  unfolding respond spawn arrive
  answer-engine e r h ok = rw ok

  pub answer-replies :
      (e : Event) (r : Rpc) (h : Host S)
      → e.ok ≡ true
      → (answer e r h).replies
        ≡ record {
          tag = e.tag;
          kind = r.kind;
          response = (process_request engine r.kind h.engine (e.incoming r.kind) r.response).1;
        }
          ∷ h.replies
  unfolding respond spawn arrive
  answer-replies e r h ok = rw ok
