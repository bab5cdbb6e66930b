-- ===== src/Rpc/Invariant.antt =====
-- The tags that the runtime holds are those of the objects in the pool.
use tiny_inference_engine.Base.{
  ℕ, ◌+◌, ◌^◌, ◌<◌, ◌≤◌, ◌≡◌, ◌⊎◌, refl, ap, true, false, Option, none, some, List, [], ◌∷◌,
  if◌then◌else◌, arith, ◌==◌, inl, inr, Option-cases,
}
use tiny_inference_engine.Base.Table.{find, find-assign, find-erase, find-adjust}
use tiny_inference_engine.Engine.{EngineInterface}
use tiny_inference_engine.Messages.{Kind}
use tiny_inference_engine.Rpc.Classes.{class_of-listens}
use tiny_inference_engine.Rpc.Host.{
  Rpc, RpcStatus, create, process, finish, Wanted, receive, finished, Host, Event, new_rpc,
  remove_rpc, outstanding, complete,
}
use tiny_inference_engine.Rpc.Execute.{arrive, respond, spawn}

-- What the runtime owes an object: in PROCESS a call of its method, in FINISH the end of its call.
abbrev pub due_in : RpcStatus → Rpc → List Wanted
due_in create r = []
due_in process r = receive r.kind r.queue ∷ []
due_in finish r = finished r.queue ∷ []

abbrev pub due : Option Rpc → List Wanted
due none = []
due (some r) = due_in r.state r

pub record Inv {S : Type 0} (h : Host S) : Type 0 where
  pub agree : (t : ℕ) → outstanding t h.pending ≡ due (find t h.rpcs)
  pub fresh : (t : ℕ) → h.next_id ≤ t → find t h.rpcs ≡ none

abbrev tail : List Wanted → List Wanted
tail [] = []
tail (w ∷ ws) = ws

pub outstanding-complete :
    (t j : ℕ) (p : List (ℕ × Wanted))
    → outstanding j (complete t p) ≡ (if t == j then tail (outstanding t p) else outstanding j p)
unfolding outstanding complete
outstanding-complete t j [] = ground arith
outstanding-complete t j ((u, w) ∷ p) = ground (arith, outstanding-complete t j p)

-- Between an event's delivery and the end of its round: the object `r` with the tag `t` has no
-- operation with the runtime.
pub record Served {S : Type 0} (t : ℕ) (r : Rpc) (h : Host S) : Type 0 where
  pub others : (j : ℕ) → outstanding j h.pending ≡ (if t == j then [] else due (find j h.rpcs))
  pub present : find t h.rpcs ≡ some r
  pub unused : (j : ℕ) → h.next_id ≤ j → find j h.rpcs ≡ none

module _ {S : Type 0} where
  pub spawn-Inv :
      (k : Kind) (queue : ℕ) (h : Host S) → h.next_id + 1 < 2 ^ 64 → Inv h → Inv (spawn k queue h)
  unfolding spawn outstanding new_rpc
  spawn-Inv k queue h lt v = record {
    agree = λ t. simp (find-assign, class_of-listens) (ground (arith, v.agree t, v.fresh t));
    fresh = λ t le. simp find-assign (ground (arith, v.fresh t));
  }

  pub spawn-Served :
      (t : ℕ) (r : Rpc) (k : Kind) (queue : ℕ) (h : Host S)
      → h.next_id + 1 < 2 ^ 64
      → Served t r h
      → Served t r (spawn k queue h)
  unfolding spawn outstanding new_rpc
  spawn-Served t r k queue h lt v = record {
    others = λ j.
        simp find-assign
          (ground (arith, class_of-listens k, v.others j, v.unused j, v.unused t, v.present));
    present = simp find-assign (ground (arith, v.unused t, v.present));
    unused = λ j le. simp find-assign (ground (arith, v.unused j));
  }

  pub respond-Inv :
      (engine : EngineInterface S) (t : ℕ) (r : Rpc) (h : Host S)
      → Served t r h
      → Inv (respond engine t r h)
  unfolding respond outstanding
  respond-Inv engine t r h v = record {
    agree = λ j. simp find-assign (ground (arith, v.others j));
    fresh = λ j le. simp find-assign (ground (arith, v.unused j, v.unused t, v.present));
  }

  pub remove-Inv : (t : ℕ) (r : Rpc) (h : Host S) → Served t r h → Inv (remove_rpc t h)
  unfolding remove_rpc
  remove-Inv t r h v = record {
    agree = λ j. simp find-erase (ground (arith, v.others j));
    fresh = λ j le. simp find-erase (ground (arith, v.unused j));
  }

  -- The object that an outstanding operation belongs to is in the pool, and awaits just that one.
  pub outstanding-found :
      (t : ℕ) (h : Host S) (w : Wanted) (ws : List Wanted)
      → Inv h
      → outstanding t h.pending ≡ w ∷ ws
      → (r : Rpc) × (find t h.rpcs ≡ some r) × (due_in r.state r ≡ w ∷ ws)
  outstanding-found t h w ws v o = elim (Option-cases (find t h.rpcs)) [
    | inl e ↦ cc (v.agree t, ap due e, o)
    | inr (r, e) ↦ (r, e, cc (v.agree t, ap due e, o))
  ]

  pub complete-Served :
      (t : ℕ) (r : Rpc) (w : Wanted) (h : Host S)
      → Inv h
      → find t h.rpcs ≡ some r
      → due_in r.state r ≡ w ∷ []
      → Served t r (record h { pending = complete t h.pending })
  complete-Served t r w h v here d = record {
    others = λ j. simp outstanding-complete (ground (arith, v.agree j, v.agree t, here));
    present = here;
    unused = v.fresh;
  }

  pub arrive-Served :
      (e : Event) (r : Rpc) (h : Host S)
      → Inv h
      → find e.tag h.rpcs ≡ some r
      → r.state ≡ process
      → e.ok ≡ true
      → Served e.tag
          (record r { request = e.incoming r.kind })
          (arrive e (receive r.kind r.queue) h)
  unfolding arrive
  arrive-Served e r h v here st ok = record {
    others = λ j.
        simp (outstanding-complete, find-adjust, ok)
          (ground (arith, v.agree j, v.agree e.tag, here));
    present = simp (find-adjust, ok, here) (ground arith);
    unused = λ j le. simp (find-adjust, ok) (ground (arith, v.fresh j));
  }

  -- An operation that ends without a message changes nothing else.
  pub arrive-nothing :
      (e : Event) (w : Wanted) (r : Rpc) (h : Host S)
      → due_in r.state r ≡ w ∷ []
      → (e.ok ≡ false) ⊎ (r.state ≡ finish)
      → arrive e w h ≡ record h { pending = complete e.tag h.pending }
  unfolding arrive
  arrive-nothing e (receive k queue) r h d c = ground arith
  arrive-nothing e (finished queue) r h d c = refl
