-- ===== src/Server/Main.antt =====
-- The main program after the command line was parsed (main.cpp): servers are made and run until one
-- returns that no restart is wanted.
use tiny_inference_engine.Base.{ℕ, [], ◌∷◌, zero, suc, length, Bool, true, false, none, some, List}
use tiny_inference_engine.Engine.{NullState}
use tiny_inference_engine.Rpc.Host.{Host}
use tiny_inference_engine.Server.Config.{ServerConfig}
use tiny_inference_engine.Server.Manager.{
  Signal, reset_shutdown_signal_handlers, received, Stopping, Course, goes_on, terminated, faulted,
  stuck, Manager, new_manager, start_all, main_loop, destroy_manager,
}

-- Where the process is when the given time has passed.
pub data Process : Type 0 where
  -- in `main_loop`, in the server with this number
  serving : ℕ → Process
  -- stopped by `std::terminate`
  crashed : Process
  -- after a call through a null pointer or an access to a freed object
  undefined : Process
  -- without end in the destructor of the server with this number
  stopping : ℕ → Process
  -- returned 0
  exited : Process
  -- the bound on the number of servers was too small
  out_of_fuel : Process

-- What the process does not decide: whether the `BuildAndStart` of server number `k` returns a server, what
-- its threads do to the pool and the engine while it serves, and what becomes of its `stop` beside them.
pub record Surroundings : Type 0 where
  pub built : ℕ → Bool
  pub activity : ℕ → Host NullState → Host NullState
  pub stops : ℕ → Stopping

-- The server number `k` when its `main_loop` returns.
unfoldable pub served : ServerConfig → Surroundings → ℕ → Host NullState → Manager
unfolding start_all
served config w k h =
    let m = start_all (w.built k) (new_manager config h) in record m { host = w.activity k m.host }

-- The signals that came after the last test of the flag and before its reset, and the time from then on.
abbrev pub before_reset : List (List Signal) → List Signal
before_reset [] = []
before_reset (signals ∷ later) = signals

abbrev pub after_reset : List (List Signal) → List (List Signal)
after_reset [] = []
after_reset (signals ∷ later) = later

-- The process at the end of server number `k`, whose manager is destroyed.
abbrev pub ended_as : Bool → ℕ → (Host NullState → Process) → Course (Host NullState) → Process
ended_as true k again (goes_on h) = again h
ended_as false k again (goes_on h) = exited
ended_as restart k again terminated = crashed
ended_as restart k again faulted = undefined
ended_as restart k again stuck = stopping k

-- The loop `while (restart_server)` from the server number `k` on.
-- The flag is reset before the manager is destroyed.
unfoldable pub serve_from :
    ℕ → ServerConfig → Surroundings → ℕ → ℕ → Host NullState → List (List Signal) → Process
unfolding served
serve_from zero config w k flag h time = out_of_fuel
serve_from (suc fuel) config w k flag h time = elim (main_loop flag 0 time) [
  | none ↦ serving k
  | some (flag', tick, later) ↦
      let again : Host NullState → Process = λ h'.
        serve_from fuel config w (suc k)
          (reset_shutdown_signal_handlers (received (before_reset later) flag')) h'
          (after_reset later) in
      ended_as config.restart_server k again (destroy_manager (w.stops k) (served config w k h))
]

-- `main`: the flag starts at 0, and each server that returns has used up some of the time.
unfoldable pub main : ServerConfig → Surroundings → Host NullState → List (List Signal) → Process
unfolding serve_from
main config w h time = serve_from (suc (length time)) config w 0 0 h time
