-- ===== src/Rpc/Sequential.antt =====
-- The event loops against a sequential server: one that takes the calls one at a time, in the order in
-- which their events are returned, and knows no objects, pool, tags or operations.
use mathlib.Core.Option
use tiny_inference_engine.Base.{
  Bool-cases, ℕ, ◌+◌, ◌^◌, ◌<◌, ◌≡◌, ◌⊎◌, inl, inr, refl, sym, subst, ◌∙◌, ap, Bool, true, false,
  Option, none, some, List, [], ◌∷◌, ◌++◌, arith, length, ◌==◌, if◌then◌else◌,
}
use tiny_inference_engine.Base.Table.{find, find-assign, find-erase, find-adjust}
use tiny_inference_engine.Engine.{EngineInterface}
use tiny_inference_engine.Messages.{Kind, RequestOf, default_response}
use tiny_inference_engine.Rpc.Process.{process_request}
use tiny_inference_engine.Rpc.Host.{
  Rpc, Wanted, Host, Event, Reply, outstanding, receive, finished, finish, process, remove_rpc,
  new_rpc,
}
use tiny_inference_engine.Rpc.Execute.{step, run, respond, spawn, arrive}
use tiny_inference_engine.Rpc.Invariant.{Inv, due, due_in}
use tiny_inference_engine.Rpc.Steps.{
  Outcome, answered, ended, answer, removed, answer-engine, answer-replies,
}
use tiny_inference_engine.Rpc.Safety.{Deliverable, run_induction}

-- A call as the runtime hands it over.
pub record Call : Type 0 where
  pub tag : ℕ
  pub kind : Kind
  pub request : RequestOf kind

-- What a sequential server keeps: the engine and the replies given, newest first.
pub record Session (S : Type 0) : Type 0 where
  pub engine : S
  pub replies : List Reply

abbrev pub session : {S : Type 0} → Host S → Session S
session h = record { engine = h.engine; replies = h.replies }

-- The call that an event brings, by the operation that it completes.
abbrev pub call_of : List Wanted → Event → List Call
call_of [] e = []
call_of (receive k queue ∷ ws) e =
    if e.ok then record { tag = e.tag; kind = k; request = e.incoming k } ∷ [] else []
call_of (finished queue ∷ ws) e = []

-- An object in PROCESS has a response with no field set.
abbrev pub IsBlank : Option Rpc → Type 0
IsBlank none = Unit {0}
IsBlank (some r) = r.state ≡ process → r.response ≡ default_response r.kind

abbrev pub Blank : {S : Type 0} → Host S → Type 0
Blank h = (t : ℕ) → IsBlank (find t h.rpcs)

if-IsBlank : (b : Bool) (o o' : Option Rpc) → IsBlank o → IsBlank o' → IsBlank (if b then o else o')
if-IsBlank true o o' p q = p
if-IsBlank false o o' p q = q

map-IsBlank :
    (e : Event) (o : Option Rpc)
    → IsBlank o
    → IsBlank (Option.map {A = Rpc} (λ r. record r { request = e.incoming r.kind }) o)
map-IsBlank e none b = tt
map-IsBlank e (some r) b = b

pub spawn-Blank :
    {S : Type 0} (k : Kind) (queue : ℕ) (h : Host S) → Blank h → Blank (spawn k queue h)
unfolding spawn new_rpc
spawn-Blank k queue h b t = rw find-assign (
    if-IsBlank (h.next_id == t) _ _ (λ _. refl)
      (rw find-assign (if-IsBlank (h.next_id == t) _ _ (λ _. refl) (b t))))

module _ {S : Type 0} (engine : EngineInterface S) where
  unfoldable pub serve : Call → Session S → Session S
  serve c s =
      let (e, response) =
        process_request engine c.kind s.engine c.request (default_response c.kind) in
      record {
        engine = e;
        replies = record { tag = c.tag; kind = c.kind; response = response } ∷ s.replies;
      }

  unfoldable pub serve_all : List Call → Session S → Session S
  serve_all [] s = s
  serve_all (c ∷ cs) s = serve_all cs (serve c s)

  unfoldable pub calls : List Event → Host S → List Call
  calls [] h = []
  calls (e ∷ es) h =
      call_of (outstanding e.tag h.pending) e
      ++ elim (step engine e h) [ none ↦ [] | some h' ↦ calls es h' ]

  arrive-Blank : (e : Event) (w : Wanted) (h : Host S) → Blank h → Blank (arrive e w h)
  unfolding arrive
  arrive-Blank e (receive k queue) h b t = elim (Bool-cases e.ok) [
    | inl ok ↦
        rw (ok, find-adjust)
          (if-IsBlank (e.tag == t) _ _ (map-IsBlank e (find t h.rpcs) (b t)) (b t))
    | inr failed ↦ rw failed (b t)
  ]
  arrive-Blank e (finished queue) h b t = b t

  answer-Blank : (e : Event) (r : Rpc) (h : Host S) → Blank h → Blank (answer engine e r h)
  unfolding respond
  answer-Blank e r h b t = rw find-assign (
      if-IsBlank (e.tag == t) _ _ (λ st. cc)
        (spawn-Blank r.kind r.queue _ (arrive-Blank e (receive r.kind r.queue) h b) t))

  removed-Blank : (e : Event) (h : Host S) → Blank h → Blank (removed engine e h)
  unfolding remove_rpc
  removed-Blank e h b t = rw find-erase (if-IsBlank (e.tag == t) _ _ tt (b t))

  call_of-ended :
      (e : Event) (r : Rpc) (w : Wanted)
      → due_in r.state r ≡ w ∷ []
      → (e.ok ≡ false) ⊎ (r.state ≡ finish)
      → call_of (w ∷ []) e ≡ []
  call_of-ended e r (receive k queue) d c = ground arith
  call_of-ended e r (finished queue) d c = refl

  -- One round, seen by the sequential server: it serves the call that the event brings, if any.
  pub serve-Outcome :
      {e : Event} {h h' : Host S}
      → Inv h
      → Blank h
      → Outcome engine e h h'
      → Blank h' × (session h' ≡ serve_all (call_of (outstanding e.tag h.pending) e) (session h))
  unfolding serve serve_all remove_rpc
  serve-Outcome {e} {h} {h'} v b (answered r here st ok same) =
      let o : outstanding e.tag h.pending ≡ receive r.kind r.queue ∷ [] =
        v.agree e.tag ∙ cc (ap due here) in
      let blank : r.response ≡ default_response r.kind = subst IsBlank here (b e.tag) st in
      (
        rw same (answer-Blank e r h b),
        rw (same, o, answer-engine engine e r h ok, answer-replies engine e r h ok, blank)
            (simp ok),
      )
  serve-Outcome {e} {h} {h'} v b (ended r w here d c same) =
      let o : outstanding e.tag h.pending ≡ w ∷ [] = v.agree e.tag ∙ ap due here ∙ d in
      (rw same (removed-Blank e h b), rw (same, o, call_of-ended e r w d c))

  serve_all-append :
      (cs ds : List Call) (s : Session S) → serve_all (cs ++ ds) s ≡ serve_all ds (serve_all cs s)
  unfolding serve_all
  serve_all-append [] ds s = refl
  serve_all-append (c ∷ cs) ds s = serve_all-append cs ds (serve c s)

  calls-step :
      (e : Event) (es : List Event) (h h' : Host S)
      → step engine e h ≡ some h'
      → calls (e ∷ es) h ≡ call_of (outstanding e.tag h.pending) e ++ calls es h'
  unfolding calls
  calls-step e es h h' went = rw went

  -- The event loops answer as a sequential server does: after any run of completion events, the
  -- engine's state and the replies are those of serving the calls that the events brought one by one, in
  -- order, each by `process_request` on a response with no field set.
  pub run-serve_all :
      (es : List Event) (h : Host S)
      → Inv h
      → Blank h
      → h.next_id + length es < 2 ^ 64
      → Deliverable engine es h
      → (h' : Host S) × (run engine es h ≡ some h')
        × (session h' ≡ serve_all (calls es h) (session h))
  unfolding calls serve_all
  run-serve_all es h v b lt d =
      let (h', went, _, served) =
        run_induction engine (λ es h h'. Blank h → session h' ≡ serve_all (calls es h) (session h))
          (λ h b. refl)
          (λ e es h h1 h2 v lt s o later b.
            let (b1, first) = serve-Outcome v b o in
            later b1
            ∙ ap (serve_all (calls es h1)) first
            ∙ sym (
                serve_all-append (call_of (outstanding e.tag h.pending) e) (calls es h1)
                  (session h))
            ∙ ap (λ cs. serve_all cs (session h)) (sym (calls-step e es h h1 s)))
          es h v lt d in
      (h', went, served b)
