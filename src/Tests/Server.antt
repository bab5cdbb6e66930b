-- ===== src/Tests/Server.antt =====
-- Servers that start, fail to start, stop, and are restarted.
use tiny_inference_engine.Base.{ℕ, ◌++◌, map, ◌+◌, ◌≡◌, refl, true, false, none, List, [], ◌∷◌}
use tiny_inference_engine.Engine.{NullState, null_state}
use tiny_inference_engine.Rpc.Host.{Host}
use tiny_inference_engine.Server.Config.{ServerConfig}
use tiny_inference_engine.Server.Grpc.{
  Queue, shut, joined, register, registrations, add_queues, GrpcServer, new_server, launch, start,
  stop, destroy,
}
use tiny_inference_engine.Server.Startup.{empty_host}
use tiny_inference_engine.Server.Life.{AllShut, start-failed, start-stop}
use tiny_inference_engine.Server.Manager.{comes_to_end, Signal, sigint, sigterm}
use tiny_inference_engine.Server.Main.{Surroundings, main, serving, exited}
use tiny_inference_engine.Server.Exit.{main-once, main-restart}
use tiny_inference_engine.Tests.Rpc.{one_thread, first}

abbrev pub nothing : Host NullState
nothing = empty_host null_state

abbrev pub running : GrpcServer
running = (start one_thread true new_server nothing).0

pub running-is_running : running.is_running ≡ true
unfolding start launch new_server
running-is_running = refl

new_server-is_running : new_server.is_running ≡ false
unfolding new_server
new_server-is_running = refl

start-failed_example :
    ((start one_thread false new_server nothing).2 ≡ false)
    × (stop
          (start one_thread false new_server nothing).0
          (start one_thread false new_server nothing).1
        ≡ (
          (start one_thread false new_server nothing).0,
          (start one_thread false new_server nothing).1,
        ))
    × (destroy
          (start one_thread false new_server nothing).0
          (start one_thread false new_server nothing).1
        ≡ none)
start-failed_example = start-failed one_thread new_server nothing new_server-is_running

start-stop_example :
    let old : List Queue = map shut running.inference_queues in
    let queues : List Queue = old ++ add_queues 1 running.next_queue in
    let common : ℕ = running.next_queue + 1 in
    let (g1, h1) = stop running first in
    let (g2, h2, ok) = start one_thread true g1 h1 in
    AllShut old
    × (map (λ q. q.id) old ≡ map (λ q. q.id) running.inference_queues)
    × (g2.inference_queues ≡ queues)
    × (g2.threads
        ≡ map joined running.threads
          ++ map (λ q. record { queue = q.id; joinable = true }) queues
          ++ record { queue = common; joinable = true } ∷ [])
    × (h2 ≡ register (registrations queues common) h1)
    × (ok ≡ true)
start-stop_example = start-stop one_thread running first running-is_running

-- Two signals that come together, one that is lost, and one more.
abbrev pub time : List (List Signal)
time = [] ∷ (sigint ∷ sigterm ∷ []) ∷ (sigint ∷ []) ∷ [] ∷ (sigterm ∷ []) ∷ []

abbrev pub all_built : Surroundings
all_built = record { built = λ k. true; activity = λ k h. h; stops = λ k. comes_to_end }

main-once_example : main one_thread all_built nothing time ≡ exited
main-once_example = main-once one_thread all_built nothing time refl

abbrev restarting : ServerConfig
restarting = record one_thread { restart_server = true }

main-restart_example : main restarting all_built nothing time ≡ serving 2
main-restart_example = main-restart restarting all_built nothing time refl (λ j. refl)
