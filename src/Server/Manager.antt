-- ===== src/Server/Manager.antt =====
-- `server_manager` (server_manager.hpp, server_manager.cpp), `http_server` (http_server.hpp,
-- http_server.cpp) and the shutdown flag (server_shutdown.cpp).
--
-- Time is the list of the signals that came before each point where the flag matters: each of its tests in
-- `main_loop`, and its reset after the last of them.
use tiny_inference_engine.Base.{
  ℕ, ◌+◌, ◌%◌, ◌^◌, ◌==◌, Bool, true, false, not, Option, none, some, List, [], ◌∷◌, if◌then◌else◌,
}
use tiny_inference_engine.Engine.{NullState, null_state}
use tiny_inference_engine.Rpc.Host.{Host}
use tiny_inference_engine.Server.Config.{ServerConfig}
use tiny_inference_engine.Server.Grpc.{GrpcServer, new_server, start, stop, destroy}

pub record HttpServer : Type 0 where
  pub is_running : Bool

unfoldable pub new_http_server : HttpServer
new_http_server = record { is_running = false }

-- `http_server::start` and `stop` leave the server as it is.
unfoldable pub start_http_server : ServerConfig → HttpServer → HttpServer × Bool
start_http_server config s = (s, true)

unfoldable pub stop_http_server : HttpServer → HttpServer
stop_http_server s = s

-- `shutdown_server()` reads the flag, `signal_handler` sets it.
unfoldable pub shutdown_server : ℕ → Bool
shutdown_server shutdown_signal = not (shutdown_signal == 0)

unfoldable pub signal_handler : ℕ → ℕ → ℕ
signal_handler signal shutdown_signal = signal

-- `reset_shutdown_signal_handlers`
abbrev pub reset_shutdown_signal_handlers : ℕ → ℕ
reset_shutdown_signal_handlers shutdown_signal = 0

-- The signals for which `install_shutdown_signal_handlers` sets `signal_handler`, and their numbers on
-- Linux. The other signals do not reach the flag, and what they do is not modelled.
pub data Signal : Type 0 where
  sigint sigill sigabrt sigterm : Signal

unfoldable pub number : Signal → ℕ
number sigint = 2
number sigill = 4
number sigabrt = 6
number sigterm = 15

-- The handler is called for each of the signals.
unfoldable pub received : List Signal → ℕ → ℕ
unfolding signal_handler number
received [] shutdown_signal = shutdown_signal
received (signal ∷ signals) shutdown_signal =
    received signals (signal_handler (number signal) shutdown_signal)

-- What becomes of `stop` of a running gRPC server beside its threads (Server/Halting): it comes to its end, a
-- freed object is accessed, or it waits without end.
pub data Stopping : Type 0 where
  comes_to_end reaches_freed waits_forever : Stopping

-- How the process goes on: with a value, by `std::terminate`, by a call through a null pointer or an access
-- to a freed object, or not at all.
pub data Course (A : Type 0) : Type 0 where
  goes_on : A → Course A
  terminated faulted stuck : Course A

abbrev pub and_then : {A B : Type 0} → Course A → (A → Course B) → Course B
and_then (goes_on a) f = f a
and_then terminated f = terminated
and_then faulted f = faulted
and_then stuck f = stuck

-- The pool and the engine's state are in `host`.
pub record Manager : Type 0 where
  pub config : ServerConfig
  pub host : Host NullState
  pub grpc_server : Option GrpcServer
  pub http_server : Option HttpServer

-- The constructor makes a new engine; the pool is the process's.
unfoldable pub new_manager : ServerConfig → Host NullState → Manager
new_manager config h = record {
  config = config;
  host = record h { engine = null_state };
  grpc_server = none;
  http_server = none;
}

unfoldable pub start_grpc : Bool → Manager → Manager
start_grpc built m =
    if not m.config.is_grpc_server_enabled
    then m
    else (let (s, h, _) = start m.config built new_server m.host in
        record m { grpc_server = some s; host = h })

unfoldable pub start_http : Manager → Manager
unfolding start_http_server new_http_server
start_http m =
    if not m.config.is_http_server_enabled
    then m
    else (let (s, _) = start_http_server m.config new_http_server in
        record m { http_server = some s })

-- `main_loop`, with the flag, the tick and the time to come; `none`: the flag was not seen set yet.
unfoldable pub main_loop : ℕ → ℕ → List (List Signal) → Option (ℕ × ℕ × List (List Signal))
unfolding received shutdown_server
main_loop flag tick [] = none
main_loop flag tick (a ∷ as') =
    let flag' = received a flag in
    if shutdown_server flag'
    then some (flag', tick, as')
    else main_loop flag' ((tick + 1) % 2 ^ 32) as'

-- `run` up to `main_loop`, and from it to its return: whether to restart.
unfoldable pub start_all : Bool → Manager → Manager
unfolding start_grpc start_http
start_all built m = start_http (start_grpc built m)

-- `_grpc_server->stop()`
abbrev pub stop_in : Stopping → GrpcServer → Host NullState → Course (GrpcServer × Host NullState)
stop_in f s h = if not s.is_running then goes_on (s, h) else elim f [
  | comes_to_end ↦ goes_on (stop s h)
  | reaches_freed ↦ faulted
  | waits_forever ↦ stuck
]

unfoldable pub stop_grpc : Stopping → Manager → Course Manager
stop_grpc f m = if not m.config.is_grpc_server_enabled then goes_on m else elim m.grpc_server [
  | none ↦ faulted
  | some s ↦
      and_then (stop_in f s m.host)
        (λ (s', h). goes_on (record m { grpc_server = some s'; host = h }))
]

unfoldable pub stop_http : Manager → Course Manager
unfolding stop_http_server
stop_http m = if not m.config.is_http_server_enabled then goes_on m else elim m.http_server [
  | none ↦ faulted
  | some s ↦ goes_on (record m { http_server = some (stop_http_server s) })
]

-- The destruction of the member `_grpc_server`, which calls `stop` once more.
unfoldable pub drop_grpc : Stopping → Manager → Course (Host NullState)
drop_grpc f m = elim m.grpc_server [
  | none ↦ goes_on m.host
  | some s ↦
      and_then (stop_in f s m.host)
        (λ (s', h). elim (destroy s' h) [ none ↦ terminated | some h' ↦ goes_on h' ])
]

-- `~server_manager`, then its members.
unfoldable pub destroy_manager : Stopping → Manager → Course (Host NullState)
unfolding stop_grpc stop_http drop_grpc
destroy_manager f m = and_then (stop_grpc f m) (λ m'. and_then (stop_http m') (drop_grpc f))
