-- ===== src/Server/Refinement.antt =====
-- `grpc_server::stop` (grpc_server.cpp) access by access (Server/Halting) and as one change of the state
-- (Server/Grpc).
use tiny_inference_engine.Base.{true, ℕ, ◌≤◌, ◌≡◌, inl, inr, refl, subst, some, List, [], ◌∷◌}
use tiny_inference_engine.Engine.{EngineInterface}
use tiny_inference_engine.Rpc.Host.{Host, release}
use tiny_inference_engine.Rpc.Queues.{OnQueues}
use tiny_inference_engine.Rpc.Threads.{waiting, World}
use tiny_inference_engine.Server.Grpc.{GrpcServer, halt, stop}
use tiny_inference_engine.Server.Life.{stop-halt}
use tiny_inference_engine.Server.Halting.{
  Halting, Turn, shutting, stopped, stopping, released, stop_queues, halting, load,
}
use tiny_inference_engine.Server.Halted.{Each, Each-map}
use tiny_inference_engine.Server.Lifetime.{each-stop_queues, nothing_left}
use tiny_inference_engine.Server.Untaken.{Each-all_ended}
use tiny_inference_engine.Server.Calm.{OneOf, remaining, Calm-released}
use tiny_inference_engine.Server.Calm.Threads.{Calm-halting}

Each-OneOf : (qs : List ℕ) → Each (λ q. OneOf q qs) qs
Each-OneOf [] = tt
Each-OneOf (q ∷ qs) = (inl refl, Each-map qs (λ p m. inr m) (Each-OneOf qs))

host_eq :
    {S : Type 0} (h k : Host S)
    → h.engine ≡ k.engine
    → h.next_id ≡ k.next_id
    → h.rpcs ≡ k.rpcs
    → h.pending ≡ k.pending
    → h.replies ≡ k.replies
    → h ≡ k
host_eq h k e n r p s =
    λ i. record { engine = e i; next_id = n i; rpcs = r i; pending = p i; replies = s i }

module _ {S : Type 0} (engine : EngineInterface S) (n : ℕ) where
  -- `stop` does what its model as one change of the state says: where it releases the pool while all
  -- threads wait and the runtime's operations are on the server's queues, and comes to its end with no
  -- access to a freed object, then, in whatever order the accesses are made, every event loop of the
  -- server has ended, and the pool, the ids, the engine, the replies and the runtime's operations are
  -- those that `stop` of Server/Grpc leaves.
  pub halting-stop :
      (g : GrpcServer) (w : World S) (ts : List Turn) (y : Halting S)
      → g.is_running ≡ true
      → ((q : ℕ) → w.activity q ≡ waiting)
      → OnQueues n w.host.pending
      → halting engine
          (stop_queues n)
          ts
          (record (stopping w) { world = released w; phase = shutting })
        ≡ some y
      → y.phase ≡ stopped
      → (y.world.host ≡ (stop g w.host).1) × ((q : ℕ) → q ≤ n → y.ended q ≡ true)
  unfolding halt release
  halting-stop g w ts y running idle on went at_end =
      let qs = stop_queues n in
      let (calm, _, less) = Calm-halting engine qs ts _ y (Calm-released qs w idle) went in
      let empty : (q : ℕ) → q ≤ n → load q y.world ≡ 0 = λ q le.
        elim (calm.closed q (each-stop_queues (λ p. OneOf p qs) n (Each-OneOf qs) q le)) [
          | inl none_held ↦ none_held
          | inr left ↦ absurd (subst (λ ph. OneOf q (remaining qs ph)) at_end left)
        ] in
      let gone = nothing_left n y.world.host.pending (less.on_queues n on) empty in
      (
        rw (stop-halt g w.host running) (
            host_eq y.world.host (halt g w.host).1 less.engine less.next_id calm.rpcs gone
              less.replies),
        each-stop_queues (λ q. y.ended q ≡ true) n (Each-all_ended qs y.ended (calm.joined at_end)),
      )
