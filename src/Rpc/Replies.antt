-- ===== src/Rpc/Replies.antt =====
-- No call is answered twice: `write_response` is reached once in an object's life.
use tiny_inference_engine.Base.{
  ℕ, ◌+◌, ◌^◌, ◌<◌, ◌≤◌, ◌≡◌, true, Option, none, some, List, [], ◌∷◌, arith, length, ◌==◌,
  if◌then◌else◌,
}
use tiny_inference_engine.Base.Table.{find, find-assign, find-erase, find-adjust}
use tiny_inference_engine.Engine.{EngineInterface}
use tiny_inference_engine.Rpc.Host.{Rpc, RpcStatus, Host, Event, Reply, finish, remove_rpc, new_rpc}
use tiny_inference_engine.Rpc.Execute.{run, respond, spawn, arrive}
use tiny_inference_engine.Rpc.Invariant.{Inv}
use tiny_inference_engine.Rpc.Steps.{Outcome, answered, ended, answer, answer-replies}
use tiny_inference_engine.Rpc.Safety.{Deliverable, run_induction}

-- How often the tag was answered.
unfoldable pub replied : ℕ → List Reply → ℕ
replied t [] = 0
replied t (a ∷ as') = (if a.tag == t then 1 else 0) + replied t as'

-- How often an object may have been answered.
abbrev pub quota_in : RpcStatus → ℕ
quota_in finish = 1
quota_in _ = 0

abbrev pub quota : Option Rpc → ℕ
quota none = 1
quota (some r) = quota_in r.state

pub record Answered {S : Type 0} (h : Host S) : Type 0 where
  pub within : (t : ℕ) → replied t h.replies ≤ quota (find t h.rpcs)
  pub later : (t : ℕ) → h.next_id ≤ t → replied t h.replies ≡ 0

module _ {S : Type 0} (engine : EngineInterface S) where
  quota-answer :
      (t : ℕ) (e : Event) (r : Rpc) (h : Host S)
      → e.ok ≡ true
      → quota (find t (answer engine e r h).rpcs)
        ≡ (if e.tag == t then 1 else if h.next_id == t then 0 else quota (find t h.rpcs))
  unfolding respond spawn arrive new_rpc
  quota-answer t e r h ok = rw ok (simp (find-assign, find-adjust) (ground arith))

  next_id-answer :
      (e : Event) (r : Rpc) (h : Host S)
      → h.next_id + 1 < 2 ^ 64
      → e.ok ≡ true
      → (answer engine e r h).next_id ≡ h.next_id + 1
  unfolding respond spawn arrive
  next_id-answer e r h lt ok = rw ok (omega arith)

  Answered-Outcome :
      {e : Event} {h h' : Host S}
      → h.next_id + 1 < 2 ^ 64
      → Inv h
      → Outcome engine e h h'
      → Answered h
      → Answered h'
  unfolding remove_rpc replied
  Answered-Outcome {e} {h} lt v (answered r here st ok same) a =
      let unused : e.tag < h.next_id = ground (arith, v.fresh e.tag) in
      rw same (record {
        within = λ t.
            rw (answer-replies engine e r h ok, quota-answer t e r h ok)
              (ground (arith, a.within t, a.later t, here, st));
        later = λ t le.
            rw (answer-replies engine e r h ok)
              (ground (arith, a.later t, next_id-answer e r h lt ok));
      })
  Answered-Outcome {e} {h} lt v (ended r w here d c same) a =
      rw same
        (record { within = λ t. simp find-erase (ground (arith, a.within t)); later = a.later })

  -- After any run of completion events, no tag has been answered more than once.
  pub run-replied :
      (es : List Event) (h : Host S)
      → Inv h
      → Answered h
      → h.next_id + length es < 2 ^ 64
      → Deliverable engine es h
      → (h' : Host S) × (run engine es h ≡ some h') × ((t : ℕ) → replied t h'.replies ≤ 1)
  run-replied es h v a lt d =
      let (h', went, _, kept) =
        run_induction engine (λ es h h'. Answered h → Answered h') (λ h a. a)
          (λ e es h h1 h2 v lt s o later a. later (Answered-Outcome lt v o a)) es h v lt d in
      (h', went, λ t. ground (arith, (kept a).within t))
