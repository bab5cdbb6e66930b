-- ===== src/Server/Answering.antt =====
-- The calls of clients, one after another, on a started server (grpc_server.cpp): events that the runtime
-- can return, and the answers of `process_request` (rpc/rpc_*.cpp).
use mathlib.Core.Path.{subst_refl}
use tiny_inference_engine.Base.{
  some_eq, Bool-cases, ◌⊎◌, inl, inr, ℕ, ◌+◌, ◌^◌, ◌<◌, ◌≤◌, ◌≡◌, ◌≢◌, refl, sym, ap, subst, ◌∙◌,
  true, some, List, [], ◌∷◌, ◌++◌, map, length, arith, ◌==◌,
}
use tiny_inference_engine.Engine.{EngineInterface}
use tiny_inference_engine.Messages.{Kind, Kind-discrete, RequestOf, ResponseOf, default_request}
use tiny_inference_engine.Rpc.Host.{Host, Wanted, Event, outstanding, receive, finished}
use tiny_inference_engine.Rpc.Execute.{step, run}
use tiny_inference_engine.Rpc.Invariant.{Inv}
use tiny_inference_engine.Rpc.Counting.{count-held, single-head, Inv-Single}
use tiny_inference_engine.Rpc.Listening.{awaits, listening, listening-Outcome}
use tiny_inference_engine.Rpc.Steps.{Outcome, step-Outcome, Outcome-Inv}
use tiny_inference_engine.Rpc.Safety.{Deliverable, next_id-Outcome}
use tiny_inference_engine.Rpc.Sequential.{
  Session, session, Blank, call_of, serve, serve_all, serve-Outcome,
}
use tiny_inference_engine.Client.Grpc.{Stub}
use tiny_inference_engine.Client.Loopback.{loopback}

-- The messages of an event that brings this request.
incoming_for : (k : Kind) → RequestOf k → (j : Kind) → RequestOf j
incoming_for k r j = elim (Kind-discrete k j) [
  | yes e ↦ subst RequestOf e r
  | no n ↦ default_request j
]

Kind-IsSet : IsSet Kind
Kind-IsSet = hlevel

incoming_for-same : (k : Kind) (r : RequestOf k) → incoming_for k r k ≡ r
unfolding incoming_for
incoming_for-same k r =
    elim (Kind-discrete k k)
      as (λ d. (elim d [ yes e ↦ subst RequestOf e r | no n ↦ default_request k ]) ≡ r) [
        | yes e ↦ ap (λ e. subst RequestOf e r) (Kind-IsSet k k e refl) ∙ subst_refl RequestOf r
        | no n ↦ absurd (n refl)
      ]

awaits-receive : (k : Kind) (q : ℕ) (w : Wanted) → (awaits k q w ≡ 0) ⊎ (w ≡ receive k q)
unfolding awaits
awaits-receive k q (receive j other) = elim (Kind-discrete j k) [
  | yes e ↦ elim (Bool-cases (other == q)) [
    | inl same ↦ inr (ground (arith, e, same))
    | inr differs ↦ inl (ground (arith, differs))
  ]
  | no n ↦ inl (ground arith)
]
awaits-receive k q (finished other) = inl refl

-- An awaited call is an operation that the runtime holds.
pub listening-held :
    (k : Kind) (q : ℕ) (p : List (ℕ × Wanted))
    → 1 ≤ listening k q p
    → (t : ℕ) × (ws : List Wanted) × (vs : List Wanted) × (outstanding t p ≡ ws ++ receive k q ∷ vs)
unfolding listening
listening-held k q p h =
    let (t, ws, w, vs, held, pos) = count-held (awaits k q) p h in
    elim (awaits-receive k q w) [
      | inl none_there ↦ absurd (omega (arith, pos, none_there))
      | inr same ↦ (t, ws, vs, held ∙ ap (λ v. ws ++ v ∷ vs) same)
    ]

-- What a client is told, without the tag of the server's object.
abbrev pub Answer : Type 0
Answer = (k : Kind) × ResponseOf k

-- The calls of clients over a stub, each after the end of the one before; newest answer first.
abbrev pub asked :
    {W : Type 0} → Stub W → List ((k : Kind) × RequestOf k) → W × List Answer → W × List Answer
asked stub [] (w, answers) = (w, answers)
asked stub ((k, r) ∷ cs) (w, answers) =
    let (w', status, response) = stub.call k r w in asked stub cs (w', (k, response) ∷ answers)

-- The engine's state and the answers given.
abbrev pub heard : {S : Type 0} → Session S → S × List Answer
heard s = (s.engine, map (λ r. (r.kind, r.response)) s.replies)

-- Some queue awaits a call of each method.
abbrev pub Listens : {S : Type 0} → Host S → Type 0
Listens h = (k : Kind) → (q : ℕ) × (1 ≤ listening k q h.pending)

module _ {S : Type 0} (engine : EngineInterface S) where
  -- One call.
  call_answered :
      (k : Kind) (r : RequestOf k) (h : Host S)
      → Inv h
      → Blank h
      → Listens h
      → (e : Event) × (h' : Host S) × (outstanding e.tag h.pending ≢ [])
        × (step engine e h ≡ some h')
        × Outcome engine e h h'
        × Blank h'
        × Listens h'
        × (heard (session h') ≡ asked (loopback engine) ((k, r) ∷ []) (heard (session h)))
  unfolding serve serve_all
  call_answered k r h v b l =
      let (q, one) = l k in
      let (t, ws, vs, held) = listening-held k q h.pending one in
      let o : outstanding t h.pending ≡ receive k q ∷ [] =
        single-head t h.pending ws vs (receive k q) (Inv-Single h v) held in
      let e : Event = record { tag = t; ok = true; incoming = incoming_for k r } in
      let (h', went, out) = step-Outcome engine e h (receive k q) [] v o in
      let (b', served) = serve-Outcome engine v b out in
      (
        e,
        h',
        (λ z. cc (z, o)),
        went,
        out,
        b',
        (λ j.
            let (p, some_call) = l j in
            (p, rw (listening-Outcome engine j p v refl out) some_call)),
        ap heard served
            ∙ ap (λ ws. heard (serve_all engine (call_of ws e) (session h))) o
            ∙ ap
                (λ x.
                  heard
                    (serve_all engine (record { tag = t; kind = k; request = x } ∷ []) (session h)))
                (incoming_for-same k r),
      )

  asked-next :
      (k : Kind) (r : RequestOf k) (cs : List ((k : Kind) × RequestOf k)) (x y : S × List Answer)
      → y ≡ asked (loopback engine) ((k, r) ∷ []) x
      → asked (loopback engine) cs y ≡ asked (loopback engine) ((k, r) ∷ cs) x
  asked-next k r cs x y e = ap (asked (loopback engine) cs) e

  -- Between two calls.
  pub calls_answered :
      (cs : List ((k : Kind) × RequestOf k)) (h : Host S)
      → Inv h
      → Blank h
      → Listens h
      → h.next_id + length cs < 2 ^ 64
      → (es : List Event) × (h' : Host S) × Deliverable engine es h
        × (run engine es h ≡ some h')
        × (length es ≡ length cs)
        × Listens h'
        × (heard (session h') ≡ asked (loopback engine) cs (heard (session h)))
  unfolding run
  calls_answered [] h v b l lt = ([], h, tt, refl, refl, l, refl)
  calls_answered ((k, r) ∷ cs) h v b l lt =
      let (e, h1, held, went, out, b1, l1, told) = call_answered k r h v b l in
      let (es, h2, later, ran, same, l2, rest) =
        calls_answered cs h1 (Outcome-Inv engine (omega arith) v out) b1 l1
          (omega (arith, next_id-Outcome engine {h = h} (omega arith) out)) in
      (
        e ∷ es,
        h2,
        (held, λ h' s. subst (Deliverable engine es) (some_eq (sym went ∙ s)) later),
        rw (went) ran,
        omega (arith, same),
        l2,
        rest ∙ asked-next k r cs (heard (session h)) (heard (session h1)) told,
      )
