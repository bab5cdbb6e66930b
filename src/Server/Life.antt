-- ===== src/Server/Life.antt =====
-- Start, stop and destruction of the gRPC server (grpc_server.cpp).
use tiny_inference_engine.Base.{
  ℕ, ◌+◌, ◌≡◌, ◌≢◌, refl, ap, Bool, true, false, none, some, List, [], ◌∷◌, ◌++◌, map, arith,
}
use tiny_inference_engine.Base.Int.{rounds}
use tiny_inference_engine.Base.Table.{find}
use tiny_inference_engine.Engine.{EngineInterface}
use tiny_inference_engine.Rpc.Host.{Host, Event, Wanted, outstanding, release, receive, finished}
use tiny_inference_engine.Rpc.Execute.{deliver, arrive, handle_event, step}
use tiny_inference_engine.Rpc.Invariant.{Inv}
use tiny_inference_engine.Rpc.Steps.{step-Outcome}
use tiny_inference_engine.Rpc.Safety.{nonempty}
use tiny_inference_engine.Rpc.Shutdown.{cancelled}
use tiny_inference_engine.Server.Config.{ServerConfig}
use tiny_inference_engine.Server.Grpc.{
  GrpcServer, Queue, Thread, shut, joined, any_joinable, start, stop, destroy, halt, add_queues,
  register, registrations, launch,
}

any_joinable-joined : (ts : List Thread) → any_joinable (map joined ts) ≡ false
unfolding any_joinable
any_joinable-joined [] = refl
any_joinable-joined (t ∷ ts) = any_joinable-joined ts

pub any_joinable-last :
    (ts : List Thread) (q : ℕ)
    → any_joinable (ts ++ record { queue = q; joinable = true } ∷ []) ≡ true
unfolding any_joinable
any_joinable-last [] q = refl
any_joinable-last (t ∷ ts) q = ground (arith, any_joinable-last ts q)

map-shut : (qs : List Queue) → map shut (map shut qs) ≡ map shut qs
map-shut [] = refl
map-shut (q ∷ qs) = ap (◌∷◌ (shut q)) (map-shut qs)

map-joined : (ts : List Thread) → map joined (map joined ts) ≡ map joined ts
map-joined [] = refl
map-joined (t ∷ ts) = ap (◌∷◌ (joined t)) (map-joined ts)

abbrev pub AllShut : List Queue → Type 0
AllShut [] = Unit {0}
AllShut (q ∷ qs) = (q.is_shut ≡ true) × AllShut qs

AllShut-map : (qs : List Queue) → AllShut (map shut qs)
AllShut-map [] = tt
AllShut-map (q ∷ qs) = (refl, AllShut-map qs)

ids-shut : (qs : List Queue) → map (λ q. q.id) (map shut qs) ≡ map (λ q. q.id) qs
ids-shut [] = refl
ids-shut (q ∷ qs) = ap (◌∷◌ q.id) (ids-shut qs)

module _ {S : Type 0} where
  pub stop-halt : (s : GrpcServer) (h : Host S) → s.is_running ≡ true → stop s h ≡ halt s h
  unfolding stop
  stop-halt s h r = ground arith

  destroy-halt :
      (s : GrpcServer) (h : Host S) → s.is_running ≡ true → destroy s h ≡ some (halt s h).1
  unfolding destroy
  destroy-halt s h r = ground (arith, any_joinable-joined s.threads)

  -- Stopping a running server leaves it not running, with every inference queue shut, no thread left to
  -- join and an empty pool; a second `stop` changes nothing, and destruction, which stops it too, does
  -- not terminate the process.
  pub stop-running :
      (s : GrpcServer) (h : Host S)
      → s.is_running ≡ true
      → ((stop s h).0.is_running ≡ false)
        × AllShut (stop s h).0.inference_queues
        × (any_joinable (stop s h).0.threads ≡ false)
        × ((stop s h).1.rpcs ≡ [])
        × (stop (stop s h).0 (stop s h).1 ≡ stop s h)
        × (destroy s h ≡ some (stop s h).1)
  unfolding halt stop
  stop-running s h r =
      rw (destroy-halt s h r, r)
        (refl, AllShut-map s.inference_queues, any_joinable-joined s.threads, refl, refl, refl)

  start-launch :
      (config : ServerConfig) (built : Bool) (s : GrpcServer) (h : Host S)
      → s.is_running ≡ false
      → start config built s h ≡ launch config built s h
  unfolding start
  start-launch config built s h r = ground arith

  -- Where `BuildAndStart` fails, `start` returns false but has started its threads; `stop` then does
  -- nothing, and the destructor of the server terminates the process.
  pub start-failed :
      (config : ServerConfig) (s : GrpcServer) (h : Host S)
      → s.is_running ≡ false
      → ((start config false s h).2 ≡ false)
        × (stop (start config false s h).0 (start config false s h).1
            ≡ ((start config false s h).0, (start config false s h).1))
        × (destroy (start config false s h).0 (start config false s h).1 ≡ none)
  unfolding launch stop destroy
  start-failed config s h r =
      rw (start-launch config false s h r) (refl, refl, rw any_joinable-last)

  -- `stop` clears neither the queues nor the threads: when a running server is stopped and started again,
  -- the new start keeps the old inference queues, which are shut, before its new ones, and the joined
  -- threads before its new ones; it starts a thread and creates an RPC for each shut queue as for each new
  -- one.
  pub start-stop :
      (config : ServerConfig) (g : GrpcServer) (h : Host S)
      → g.is_running ≡ true
      → let n = rounds config.grpc_inference_threads in
        let old : List Queue = map shut g.inference_queues in
        let queues : List Queue = old ++ add_queues n g.next_queue in
        let common : ℕ = g.next_queue + n in
        let (g1, h1) = stop g h in
        let (g2, h2, ok) = start config true g1 h1 in
        AllShut old
        × (map (λ q. q.id) old ≡ map (λ q. q.id) g.inference_queues)
        × (g2.inference_queues ≡ queues)
        × (g2.threads
            ≡ map joined g.threads
              ++ map (λ q. record { queue = q.id; joinable = true }) queues
              ++ record { queue = common; joinable = true } ∷ [])
        × (h2 ≡ register (registrations queues common) h1)
        × (ok ≡ true)
  unfolding launch halt
  start-stop config g h r =
      rw
        (start-launch config true (stop g h).0 (stop g h).1 (stop-running g h r).0, stop-halt g h r)
        (AllShut-map g.inference_queues, ids-shut g.inference_queues, refl, refl, refl, refl)

  handle_dangling :
      (engine : EngineInterface S) (t : ℕ) (w : Wanted) (h : Host S)
      → handle_event engine (cancelled t) (arrive (cancelled t) w (release h)) ≡ none
  unfolding arrive release handle_event find
  handle_dangling engine t (receive k queue) h = refl
  handle_dangling engine t (finished queue) h = refl

  -- `stop` releases the pool while the runtime still holds the tags of its objects. Before the release
  -- the cancellation of any of their operations is treated; after it, the same event makes the event loop
  -- that takes it use a dangling tag.
  pub release-dangles :
      (engine : EngineInterface S) (t : ℕ) (h : Host S)
      → Inv h
      → outstanding t h.pending ≢ []
      → (e : Event) × (e.tag ≡ t)
        × (e.ok ≡ false)
        × (step engine e h ≢ none)
        × (deliver e (release h) ≢ none)
        × (step engine e (release h) ≡ none)
  unfolding step deliver release
  release-dangles engine t h v n =
      let (w, ws, o) = nonempty (outstanding t h.pending) n in
      let (h', went, _) = step-Outcome engine (cancelled t) h w ws v o in
      (cancelled t, refl, refl, λ e. cc went, rw o (λ e. cc), rw o (handle_dangling engine t w h))
