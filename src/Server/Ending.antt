-- ===== src/Server/Ending.antt =====
-- When `grpc_server::stop` (grpc_server.cpp) can still come to its end.
use tiny_inference_engine.Base.{
  ℕ, zero, suc, ◌+◌, ◌<◌, ◌≤◌, ◌≡◌, ◌⊎◌, ◌↔◌, inl, inr, refl, sym, ap, ◌∙◌, subst, true, some, List,
  [], ◌∷◌, ◌++◌, map, arith,
}
use tiny_inference_engine.Engine.{EngineInterface}
use tiny_inference_engine.Rpc.Host.{release}
use tiny_inference_engine.Rpc.Counting.{Single}
use tiny_inference_engine.Rpc.Threads.{waiting, World}
use tiny_inference_engine.Server.Grpc.{add_queues}
use tiny_inference_engine.Server.Shrinking.{Shrinks-released}
use tiny_inference_engine.Server.Halting.{
  Phase, releasing, shutting, closing, draining, joining, stopped, Halting, Turn, by_stop, load,
  stopping, released, stop_queues, stop_turn, halting,
}
use tiny_inference_engine.Server.Draining.{
  Kept, Kept-trans, Reaches, reach_refl, reach_step, halting-append, stop_turn_lem, no_event,
  drains,
}
use tiny_inference_engine.Server.Halted.{Each, Each-map, Closed, closes, joins, halts}
use tiny_inference_engine.Server.Untaken.{stop-untaken}
use tiny_inference_engine.Server.Calm.{Calm, OneOf, remaining, unshut, Calm-stop, Calm-released}
use tiny_inference_engine.Server.Calm.Threads.{Calm-halting}

Each-members : {P : ℕ → Type 0} (qs : List ℕ) → ((q : ℕ) → OneOf q qs → P q) → Each P qs
Each-members [] f = tt
Each-members (q ∷ qs) f = (f q (inl refl), Each-members qs (λ p m. f p (inr m)))

Each-add_queues :
    {P : ℕ → Type 0} (n next : ℕ)
    → ((q : ℕ) → q < next + n → P q)
    → Each P (map (λ q. q.id) (add_queues n next))
unfolding add_queues
Each-add_queues zero next f = tt
Each-add_queues (suc n) next f =
    (f next (omega arith), Each-add_queues n (suc next) (λ q lt. f q (omega (arith, lt))))

Each-stop_queues : {P : ℕ → Type 0} (n : ℕ) → ((q : ℕ) → q ≤ n → P q) → Each P (stop_queues n)
Each-stop_queues n f = (f n (omega arith), Each-add_queues n 0 (λ q lt. f q (omega (arith, lt))))

-- All queues are closed when `stop` joins its threads.
Calm-Closed :
    {S : Type 0} (queues : List ℕ) (x : Halting S)
    → Calm queues x
    → x.phase ≡ joining
    → Each (Closed x) queues
Calm-Closed queues x c ph = Each-members queues (λ q m.
    let shut : (x.is_shut q ≡ true) ⊎ OneOf q [] =
      subst (λ p. (x.is_shut q ≡ true) ⊎ OneOf q (unshut queues p)) ph (c.shut q m) in
    let empty : (load q x.world ≡ 0) ⊎ OneOf q [] =
      subst (λ p. (load q x.world ≡ 0) ⊎ OneOf q (remaining queues p)) ph (c.closed q m) in
    (
      elim shut [ inl s ↦ s | inr none_left ↦ absurd none_left ],
      elim empty [ inl e ↦ e | inr none_left ↦ absurd none_left ],
    ))

module _ {S : Type 0} (engine : EngineInterface S) (queues : List ℕ) where
  abbrev Ends : Halting S → Type 0
  Ends x = Reaches engine queues (λ y. y.phase ≡ stopped) x

  abbrev Idle : Halting S → Type 0
  Idle x = Each (λ q. x.world.activity q ≡ waiting) queues

  -- A course of `stop` to a state from which it ends.
  continues :
      (P : Halting S → Type 0) (x : Halting S)
      → Calm queues x
      → Idle x
      → Reaches engine queues P x
      → ((y : Halting S) → Calm queues y → Idle y → Kept x y → P y → Ends y)
      → Ends x
  continues P x c idle (ts, y, went, k, p) next =
      let (calm, _, _) = Calm-halting engine queues ts x y c went in
      let still = Each-map queues (λ q e. ap (λ a. a q) k.activity ∙ e) idle in
      let (us, z, goes, l, q) = next y calm still k p in
      (ts ++ us, z, halting-append engine queues ts us x y z went goes, Kept-trans k l, q)

  joining-Ends : (x : Halting S) → Calm queues x → Idle x → x.phase ≡ joining → Ends x
  joining-Ends x c idle ph =
      continues _ x c idle (joins engine queues x ph idle (Calm-Closed queues x c ph))
        (λ y c2 idle2 k (ph2, _). reach_refl engine queues _ y ph2)

  closing-Ends :
      (qs : List ℕ) (x : Halting S)
      → Calm queues x
      → Idle x
      → Single x.world.host.pending
      → x.phase ≡ closing qs
      → Ends x
  closing-Ends qs x c idle single ph =
      continues _ x c idle (closes engine queues qs x ph single)
        (λ y c2 idle2 k (ph2, _). joining-Ends y c2 idle2 ph2)

  shutting-Ends :
      (x : Halting S)
      → Calm queues x
      → Idle x
      → Single x.world.host.pending
      → x.phase ≡ shutting
      → Ends x
  shutting-Ends x c idle single ph =
      continues _ x c idle (halts engine queues x ph idle single)
        (λ y c2 idle2 k (ph2, _). reach_refl engine queues _ y ph2)

  releasing-Ends :
      (x : Halting S)
      → Calm queues x
      → Idle x
      → Single x.world.host.pending
      → x.phase ≡ releasing
      → Ends x
  unfolding stop_turn release
  releasing-Ends x c idle single ph =
      let y : Halting S = record x { world = released x.world; phase = shutting } in
      let k : Kept x y = record {
        activity = refl;
        rpcs = sym c.rpcs;
        is_shut = λ q e. e;
        ended = λ q e. e;
        shrinks = Shrinks-released x.world;
      } in
      reach_step engine queues _ (by_stop no_event) x y
        (stop_turn_lem engine queues releasing no_event x ph) k
        (shutting-Ends y (Calm-stop queues releasing no_event x ph c).0 idle single refl)

  -- With no thread in the way, `stop` ends from wherever it stands.
  ends :
      (p : Phase) (x : Halting S)
      → x.phase ≡ p
      → Calm queues x
      → Idle x
      → Single x.world.host.pending
      → Ends x
  ends releasing x ph c idle single = releasing-Ends x c idle single ph
  ends shutting x ph c idle single = shutting-Ends x c idle single ph
  ends (closing qs) x ph c idle single = closing-Ends qs x c idle single ph
  ends (draining q qs) x ph c idle single =
      continues _ x c idle (drains engine queues (load q x.world) q qs x ph refl single)
        (λ y c2 idle2 k (ph2, _). closing-Ends qs y c2 idle2 (k.shrinks.single single) ph2)
  ends joining x ph c idle single = joining-Ends x c idle ph
  ends stopped x ph c idle single = reach_refl engine queues _ x ph

module _ {S : Type 0} (engine : EngineInterface S) (n : ℕ) where
  -- After a release while all threads wait and no tag has two operations, and with no access to a freed
  -- object so far, in whatever order the accesses were made: `stop` can still come to its end if and only
  -- if none of the server's event loops has taken an event.
  pub halting-ends_iff :
      (w : World S) (ts : List Turn) (x : Halting S)
      → ((p : ℕ) → w.activity p ≡ waiting)
      → Single w.host.pending
      → halting engine
          (stop_queues n)
          ts
          (record (stopping w) { world = released w; phase = shutting })
        ≡ some x
      → ((us : List Turn) × (y : Halting S) × (halting engine (stop_queues n) us x ≡ some y)
          × (y.phase ≡ stopped))
        ↔ ((q : ℕ) → q ≤ n → x.world.activity q ≡ waiting)
  unfolding release
  halting-ends_iff w ts x idle single went = (
    λ (us, y, goes, at_end) q le. stop-untaken engine n w ts us x y q idle went goes at_end le,
    λ rests.
        let qs = stop_queues n in
        let (calm, _, less) = Calm-halting engine qs ts _ x (Calm-released qs w idle) went in
        let (us, y, goes, _, at_end) =
          ends engine qs x.phase x refl calm (Each-stop_queues n rests) (less.single single) in
        (us, y, goes, at_end),
  )
