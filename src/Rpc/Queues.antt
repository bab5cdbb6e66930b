-- ===== src/Rpc/Queues.antt =====
-- The queues of the operations that the runtime holds (rpc/rpc_*.cpp, grpc_server.cpp): an object asks for
-- its operations on its own queue, and makes objects on that queue only.
use tiny_inference_engine.Base.{
  some_eq, sym, subst, Bool-cases, inl, inr, ℕ, ◌+◌, ◌^◌, ◌<◌, ◌≤◌, ◌≡◌, ap, ◌∙◌, some, List, [],
  ◌∷◌, length, ◌==◌,
}
use tiny_inference_engine.Engine.{EngineInterface}
use tiny_inference_engine.Rpc.Host.{Wanted, receive, Host, Event, outstanding, complete, remove_rpc}
use tiny_inference_engine.Rpc.Execute.{run}
use tiny_inference_engine.Rpc.Invariant.{Inv, due}
use tiny_inference_engine.Rpc.Steps.{Outcome, answered, ended, answer-pending}
use tiny_inference_engine.Rpc.Safety.{Deliverable, run_induction}
use tiny_inference_engine.Rpc.Threads.{queue_of}

-- Every operation is on one of the queues up to `n`.
abbrev pub OnQueues : ℕ → List (ℕ × Wanted) → Type 0
OnQueues n [] = Unit {0}
OnQueues n ((t, w) ∷ p) = (queue_of w ≤ n) × OnQueues n p

OnQueues-outstanding :
    (n t : ℕ) (w : Wanted) (ws : List Wanted) (p : List (ℕ × Wanted))
    → OnQueues n p
    → outstanding t p ≡ w ∷ ws
    → queue_of w ≤ n
unfolding outstanding
OnQueues-outstanding n t w ws [] on o = cc
OnQueues-outstanding n t w ws ((u, x) ∷ p) (le, on) o = elim (Bool-cases (u == t)) [
  | inl same ↦ let head : x ≡ w = cc (rw same at o) in rw (← head) le
  | inr differs ↦ OnQueues-outstanding n t w ws p on (rw differs at o)
]

pub OnQueues-complete : (n t : ℕ) (p : List (ℕ × Wanted)) → OnQueues n p → OnQueues n (complete t p)
unfolding complete
OnQueues-complete n t [] on = tt
OnQueues-complete n t ((u, x) ∷ p) (le, on) = elim (Bool-cases (u == t)) [
  | inl same ↦ rw same on
  | inr differs ↦ rw differs (le, OnQueues-complete n t p on)
]

module _ {S : Type 0} (engine : EngineInterface S) (n : ℕ) where
  OnQueues-Outcome :
      {e : Event} {h h' : Host S}
      → Inv h
      → Outcome engine e h h'
      → OnQueues n h.pending
      → OnQueues n h'.pending
  unfolding remove_rpc
  OnQueues-Outcome {e} {h} v (answered r here st ok same) on =
      let o : outstanding e.tag h.pending ≡ receive r.kind r.queue ∷ [] =
        v.agree e.tag ∙ cc (ap due here) in
      let le : r.queue ≤ n =
        OnQueues-outstanding n e.tag (receive r.kind r.queue) [] h.pending on o in
      rw (same, answer-pending engine e r h ok) (le, (le, OnQueues-complete n e.tag h.pending on))
  OnQueues-Outcome {e} {h} v (ended r w here d c same) on =
      rw same (OnQueues-complete n e.tag h.pending on)

  -- No event makes the runtime hold an operation on another queue.
  pub run-OnQueues :
      (es : List Event) (h h' : Host S)
      → Inv h
      → h.next_id + length es < 2 ^ 64
      → Deliverable engine es h
      → run engine es h ≡ some h'
      → OnQueues n h.pending
      → Inv h' × OnQueues n h'.pending
  run-OnQueues es h h' v lt d ran on =
      let (h1, went, v1, kept) =
        run_induction engine (λ es h h'. OnQueues n h.pending → OnQueues n h'.pending) (λ h on. on)
          (λ e es h h1 h2 v lt s o later on. later (OnQueues-Outcome v o on)) es h v lt d in
      let same : h1 ≡ h' = some_eq (sym went ∙ ran) in
      (subst Inv same v1, subst (λ x. OnQueues n x.pending) same (kept on))
