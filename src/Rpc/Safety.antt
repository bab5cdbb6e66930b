-- ===== src/Rpc/Safety.antt =====
-- Runs of the event loop: `grpc_server::rpc_handler` (grpc_server.cpp) over the pool.
use tiny_inference_engine.Base.{
  ◌+◌, ◌^◌, ◌<◌, ◌≤◌, ◌≡◌, ◌≢◌, refl, some, List, [], ◌∷◌, arith, length,
}
use tiny_inference_engine.Engine.{EngineInterface}
use tiny_inference_engine.Rpc.Host.{Wanted, Host, Event, outstanding, remove_rpc, receive}
use tiny_inference_engine.Rpc.Execute.{step, run, respond, spawn}
use tiny_inference_engine.Rpc.Invariant.{Inv}
use tiny_inference_engine.Rpc.Steps.{
  Outcome, answered, ended, step-Outcome, Outcome-Inv, next_id-arrive,
}

abbrev pub nonempty :
    (ws : List Wanted) → ws ≢ [] → (w : Wanted) × (vs : List Wanted) × (ws ≡ w ∷ vs)
nonempty [] n = absurd (n refl)
nonempty (w ∷ vs) n = (w, vs, refl)

module _ {S : Type 0} (engine : EngineInterface S) where
  -- The runtime returns each event for an operation that it still holds.
  abbrev pub Deliverable : List Event → Host S → Type 0
  Deliverable [] h = Unit {0}
  Deliverable (e ∷ es) h =
      (outstanding e.tag h.pending ≢ [])
      × ((h' : Host S) → step engine e h ≡ some h' → Deliverable es h')

  pub next_id-Outcome :
      {e : Event} {h h' : Host S}
      → h.next_id + 1 < 2 ^ 64
      → Outcome engine e h h'
      → h'.next_id ≤ h.next_id + 1
  unfolding respond spawn remove_rpc
  next_id-Outcome {e} {h} lt (answered r here st ok same) =
      rw same (omega (arith, next_id-arrive engine e (receive r.kind r.queue) h))
  next_id-Outcome lt (ended r w here d c same) = rw same (omega arith)

  -- What a run establishes holds after it if each round hands it on.
  pub run_induction {ℓ} :
      (P : List Event → Host S → Host S → Type ℓ)
      → ((h : Host S) → P [] h h)
      → ((e : Event) (es : List Event) (h h' h'' : Host S)
          → Inv h
          → h.next_id + 1 < 2 ^ 64
          → step engine e h ≡ some h'
          → Outcome engine e h h'
          → P es h' h''
          → P (e ∷ es) h h'')
      → (es : List Event) (h : Host S) → Inv h
      → h.next_id + length es < 2 ^ 64
      → Deliverable es h
      → (h' : Host S) × (run engine es h ≡ some h') × Inv h' × P es h h'
  unfolding run
  run_induction P start next [] h v lt d = (h, refl, v, start h)
  run_induction P start next (e ∷ es) h v lt (n, later) =
      let (w, ws, o) = nonempty (outstanding e.tag h.pending) n in
      let (h1, went, out) = step-Outcome engine e h w ws v o in
      let (h2, rest, v2, p) =
        run_induction P start next es h1 (Outcome-Inv engine (omega arith) v out)
          (omega (arith, next_id-Outcome {h = h} (omega arith) out)) (later h1 went) in
      (h2, rw went rest, v2, next e es h h1 h2 v (omega arith) went out p)

  -- Whatever completion events the runtime returns for the operations that it holds, in any order, with
  -- either flag and any messages, the event loops use no dangling tag, as long as fewer than 2 ^ 64 ids
  -- are given out; and the tags that the runtime then holds are again exactly those of the objects in the
  -- pool, one operation each.
  pub run_safe :
      (es : List Event) (h : Host S)
      → Inv h
      → h.next_id + length es < 2 ^ 64
      → Deliverable es h
      → (h' : Host S) × (run engine es h ≡ some h') × Inv h'
  run_safe es h v lt d =
      let (h', went, v', _) =
        run_induction (λ es h h'. Unit {0}) (λ h. tt) (λ e es h h1 h2 v lt s o p. tt) es h v lt d in
      (h', went, v')
