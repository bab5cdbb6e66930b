-- ===== src/Server/Untaken.antt =====
-- Who takes the events that `grpc_server::stop` (grpc_server.cpp) leaves: its drains, or the event loops.
use tiny_inference_engine.Base.{ℕ, ◌≤◌, ◌≡◌, inl, inr, Bool, true, some, List, [], ◌∷◌, Bool-cases}
use tiny_inference_engine.Engine.{EngineInterface}
use tiny_inference_engine.Rpc.Threads.{waiting, World}
use tiny_inference_engine.Server.Halting.{
  shutting, stopped, Halting, Turn, halting, all_ended, stopping, released, stop_queues,
}
use tiny_inference_engine.Server.Halted.{Each}
use tiny_inference_engine.Server.Lifetime.{each-stop_queues}
use tiny_inference_engine.Server.Calm.{Calm-released}
use tiny_inference_engine.Server.Calm.Threads.{Calm-halting}

pub Each-all_ended :
    (qs : List ℕ) (ended : ℕ → Bool) → all_ended qs ended ≡ true → Each (λ q. ended q ≡ true) qs
Each-all_ended [] ended e = tt
Each-all_ended (q ∷ qs) ended e = elim (Bool-cases (ended q)) [
  | inl ends ↦ (ends, Each-all_ended qs ended (rw ends at e))
  | inr runs ↦ absurd (cc (rw runs at e))
]

module _ {S : Type 0} (engine : EngineInterface S) (n : ℕ) where
  -- Where `stop` releases the pool while all threads wait, and comes to its end with no access to a freed
  -- object, its drains have taken every event: at no moment after the release had one of the server's event
  -- loops taken one, in whatever order the accesses are made.
  pub stop-untaken :
      (w : World S) (ts us : List Turn) (x y : Halting S) (q : ℕ)
      → ((p : ℕ) → w.activity p ≡ waiting)
      → halting engine
          (stop_queues n)
          ts
          (record (stopping w) { world = released w; phase = shutting })
        ≡ some x
      → halting engine (stop_queues n) us x ≡ some y
      → y.phase ≡ stopped
      → q ≤ n
      → x.world.activity q ≡ waiting
  stop-untaken w ts us x y q idle went goes at_end le =
      let start = Calm-released (stop_queues n) w idle in
      let (calm, _, _) = Calm-halting engine (stop_queues n) ts _ x start went in
      let (calm2, kept, _) = Calm-halting engine (stop_queues n) us x y calm goes in
      let ended =
        each-stop_queues (λ p. y.ended p ≡ true) n
          (Each-all_ended (stop_queues n) y.ended (calm2.joined at_end)) q le in
      elim (calm.quiet q) [
        | inl rests ↦ rests
        | inr took ↦ let (t, ok, still) = kept q took in absurd (cc (calm2.left q ended, still))
      ]
