-- ===== src/Example/Runs.antt =====
-- Runs of the example server (grpc_example/src/server.cpp) and of the server's event loop
-- (grpc_server.cpp) over the same events.
use tiny_inference_engine.Base.{
  ◌+◌, ◌^◌, ◌<◌, ◌≡◌, ◌≢◌, inl, inr, refl, sym, subst, true, false, Option, none, some, List, [],
  ◌∷◌, ◌++◌, arith, length, length-append, ◌>>=◌, Option-cases,
}
use tiny_inference_engine.Base.Table.{find}
use tiny_inference_engine.Engine.{EngineInterface}
use tiny_inference_engine.Messages.{server_live}
use tiny_inference_engine.Rpc.Host.{Host, Event, outstanding}
use tiny_inference_engine.Rpc.Execute.{step, run, spawn}
use tiny_inference_engine.Rpc.Invariant.{Inv, spawn-Inv}
use tiny_inference_engine.Rpc.Safety.{Deliverable, nonempty, next_id-Outcome, run_safe}
use tiny_inference_engine.Rpc.Steps.{step-Outcome, Outcome-Inv}
use tiny_inference_engine.Server.Startup.{empty_host, empty_host-Ready}
use tiny_inference_engine.Example.Server.{
  ServerImpl, Life, serving, aborted, dangling, round, handle_rpcs, first_call,
}
use tiny_inference_engine.Example.Likeness.{Like, round-Like, round-failed, spawn-Like}

-- `Next` returns true in `ok` with each event.
abbrev pub AllOk : List Event → Type 0
AllOk [] = Unit {0}
AllOk (e ∷ es) = (e.ok ≡ true) × AllOk es

-- The server's pool and runtime with the object of `ServerLive` only.
abbrev pub live_only : {S : Type 0} → S → Host S
live_only s = spawn server_live 0 (empty_host s)

-- The rest of a run after a round.
abbrev after : List Event → Life → Option Life
after es (serving x) = handle_rpcs es x
after es aborted = some aborted
after es dangling = some dangling

live_only-next_id : {S : Type 0} (s : S) → (live_only s).next_id ≡ 1
unfolding spawn
live_only-next_id s = refl

module _ {S : Type 0} (engine : EngineInterface S) where
  runs-Like :
      (es : List Event) (x : ServerImpl) (h : Host S)
      → AllOk es
      → Inv h
      → Like x h
      → h.next_id + length es < 2 ^ 64
      → Deliverable engine es h
      → (x' : ServerImpl) × (h' : Host S) × (handle_rpcs es x ≡ some (serving x'))
        × (run engine es h ≡ some h')
        × Like x' h'
  unfolding handle_rpcs run
  runs-Like [] x h oks v like lt d = (x, h, refl, refl, like)
  runs-Like (e ∷ es) x h (ok, oks) v like lt (held, later) =
      let (w, ws, o) = nonempty (outstanding e.tag h.pending) held in
      let (h1, went, out) = step-Outcome engine e h w ws v o in
      let v1 = Outcome-Inv engine (omega arith) v out in
      let (x1, h1', rounded, went', like1) = round-Like engine e x h (omega arith) v like ok held in
      let same : h1' ≡ h1 = cc (went, went') in
      let (x2, h2, rest, ran, like2) =
        runs-Like es x1 h1 oks v1 (subst (Like x1) same like1)
          (omega (arith, next_id-Outcome engine {h = h} (omega arith) out)) (later h1 went) in
      (x2, h2, rw rounded rest, rw went ran, like2)

  prefix-Deliverable :
      (es ds : List Event) (h : Host S) → Deliverable engine (es ++ ds) h → Deliverable engine es h
  prefix-Deliverable [] ds h d = tt
  prefix-Deliverable (e ∷ es) ds h (held, later) =
      (held, λ h' went. prefix-Deliverable es ds h' (later h' went))

  last-held :
      (es : List Event) (e : Event) (h h' : Host S)
      → Deliverable engine (es ++ e ∷ []) h
      → run engine es h ≡ some h'
      → outstanding e.tag h'.pending ≢ []
  unfolding run
  last-held [] e h h' (held, later) ran = let same : h ≡ h' = cc ran in rw (sym same) held
  last-held (d ∷ es) e h h' (held, later) ran = elim (Option-cases (step engine d h)) [
    | inl fault ↦ absurd (cc (rw fault at ran))
    | inr (h1, went) ↦ last-held es e h1 h' (later h1 went) (rw went at ran)
  ]

  handle_rpcs-failed :
      (es : List Event) (e : Event) (x x' : ServerImpl)
      → handle_rpcs es x ≡ some (serving x')
      → round e x' ≡ some aborted
      → handle_rpcs (es ++ e ∷ []) x ≡ some aborted
  unfolding handle_rpcs
  handle_rpcs-failed [] e x x' went failed = let same : x ≡ x' = cc went in rw (same, failed) refl
  handle_rpcs-failed (d ∷ es) e x x' went failed =
      elim (round d x)
          as (λ o.
            (o >>= after es) ≡ some (serving x') → (o >>= after (es ++ e ∷ [])) ≡ some aborted) [
              | none ↦ λ z. absurd (cc z)
              | some (serving y) ↦ λ z. handle_rpcs-failed es e y x' z failed
              | some aborted ↦ λ z. absurd (cc z)
              | some dangling ↦ λ z. absurd (cc z)
            ]
        went

  first-Inv : (s : S) → Inv (live_only s)
  first-Inv s = spawn-Inv server_live 0 (empty_host s) (omega arith) (empty_host-Ready s).inv

  first-Like : (s : S) → Like first_call (live_only s)
  unfolding first_call find
  first-Like s =
      spawn-Like _ (empty_host s) (omega arith)
        (record { next = refl; objects = λ t. refl; operations = λ t. refl; replies = refl })

  -- As long as `Next` gives true in `ok`, the example server does as the server's event loop with the one
  -- object of `ServerLive`: neither meets a tag of an object that is gone, and both give the same
  -- replies; at the first event with false in `ok`, the example aborts, where the server goes on; if
  -- ids do not wrap.
  pub handle_rpcs-run :
      (s : S) (es : List Event) (e : Event)
      → AllOk es
      → e.ok ≡ false
      → length es + 2 < 2 ^ 64
      → Deliverable engine (es ++ e ∷ []) (live_only s)
      → (x' : ServerImpl) × (h' : Host S) × (handle_rpcs es first_call ≡ some (serving x'))
        × (run engine es (live_only s) ≡ some h')
        × (x'.replies ≡ h'.replies)
        × (handle_rpcs (es ++ e ∷ []) first_call ≡ some aborted)
        × (run engine (es ++ e ∷ []) (live_only s) ≢ none)
  handle_rpcs-run s es e oks failed lt d =
      let one : (live_only s).next_id ≡ 1 = live_only-next_id s in
      let (x', h', went, ran, like) =
        runs-Like es first_call (live_only s) oks (first-Inv s) (first-Like s) (omega (arith, one))
          (prefix-Deliverable es (e ∷ []) (live_only s) d) in
      let held = last-held es e (live_only s) h' d ran in
      let (_, all, _) =
        run_safe engine (es ++ e ∷ []) (live_only s) (first-Inv s)
          (omega (arith, one, length-append es (e ∷ []))) d in
      (
        x',
        h',
        went,
        ran,
        like.replies,
        handle_rpcs-failed es e first_call x' went
            (round-failed engine e x' (rw (like.operations e.tag) held) failed),
        λ z. cc (z, all),
      )
