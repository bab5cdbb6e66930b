-- ===== src/Rpc/Listening.antt =====
-- The calls that the server waits for: the pending `Request<Method>` operations.
use tiny_inference_engine.Base.{
  ℕ, ◌+◌, ◌^◌, ◌<◌, ◌≡◌, inl, inr, refl, ◌∙◌, ap, true, some, List, [], ◌∷◌, arith, length, ◌==◌,
  if◌then◌else◌,
}
use tiny_inference_engine.Engine.{EngineInterface}
use tiny_inference_engine.Messages.{Kind, Kind-discrete}
use tiny_inference_engine.Rpc.Host.{
  Rpc, Wanted, Host, Event, outstanding, receive, finished, finish, remove_rpc,
}
use tiny_inference_engine.Rpc.Execute.{run}
use tiny_inference_engine.Rpc.Counting.{count, count-complete}
use tiny_inference_engine.Rpc.Invariant.{Inv, due, due_in}
use tiny_inference_engine.Rpc.Steps.{Outcome, answered, ended, answer-pending}
use tiny_inference_engine.Rpc.Safety.{Deliverable, run_induction}

-- 1 for a call of the method awaited on the queue, else 0.
unfoldable pub awaits : Kind → ℕ → Wanted → ℕ
awaits k queue (receive j other) = elim (Kind-discrete j k) [
  | yes e ↦ if other == queue then 1 else 0
  | no n ↦ 0
]
awaits k queue (finished other) = 0

-- How many calls of the method are awaited on the queue.
unfoldable pub listening : Kind → ℕ → List (ℕ × Wanted) → ℕ
listening k queue p = count (awaits k queue) p

module _ {S : Type 0} (engine : EngineInterface S) (k : Kind) (queue : ℕ) where
  listening-ended :
      (r : Rpc) (w : Wanted) → due_in r.state r ≡ w ∷ [] → r.state ≡ finish → awaits k queue w ≡ 0
  unfolding awaits
  listening-ended r w d st = ground arith

  pub listening-Outcome :
      {e : Event} {h h' : Host S}
      → Inv h
      → e.ok ≡ true
      → Outcome engine e h h'
      → listening k queue h'.pending ≡ listening k queue h.pending
  unfolding remove_rpc listening awaits
  listening-Outcome {e} {h} v ok (answered r here st _ same) =
      let o : outstanding e.tag h.pending ≡ receive r.kind r.queue ∷ [] =
        v.agree e.tag ∙ cc (ap due here) in
      rw (same, answer-pending engine e r h ok)
        (omega
          (arith, count-complete (awaits k queue) e.tag (receive r.kind r.queue) [] h.pending o))
  listening-Outcome {e} {h} v ok (ended r w here d (inl failed) same) = cc
  listening-Outcome {e} {h} v ok (ended r w here d (inr st) same) =
      let o : outstanding e.tag h.pending ≡ w ∷ [] = v.agree e.tag ∙ ap due here ∙ d in
      rw same (
        omega
          (arith, count-complete (awaits k queue) e.tag w [] h.pending o, listening-ended r w d st))

  abbrev AllOk : List Event → Type 0
  AllOk [] = Unit {0}
  AllOk (e ∷ es) = (e.ok ≡ true) × AllOk es

  -- As long as no operation is cancelled, the server goes on listening: after any run of successful
  -- completion events, each method is awaited on each queue by as many calls as before the run, whatever
  -- calls were answered in between.
  pub run-listening :
      (es : List Event) (h : Host S)
      → Inv h
      → h.next_id + length es < 2 ^ 64
      → Deliverable engine es h
      → AllOk es
      → (h' : Host S) × (run engine es h ≡ some h')
        × (listening k queue h'.pending ≡ listening k queue h.pending)
  run-listening es h v lt d ok =
      let (h', went, _, kept) =
        run_induction engine
          (λ es h h'. AllOk es → listening k queue h'.pending ≡ listening k queue h.pending)
          (λ h ok. refl) (λ e es h h1 h2 v lt s o later ok. later ok.1 ∙ listening-Outcome v ok.0 o)
          es h v lt d in
      (h', went, kept ok)
