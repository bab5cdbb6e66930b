-- ===== src/Server/Program.antt =====
-- The whole of `main` (main.cpp): the command line, the loggers, and the servers.
use tiny_inference_engine.Base.{
  ℕ, ◌≡◌, refl, Bool, true, false, none, some, List, [], ◌++◌, String, ◌==◌, not, if◌then◌else◌,
}
use tiny_inference_engine.Engine.{NullState}
use tiny_inference_engine.Rpc.Host.{Host}
use tiny_inference_engine.Server.Config.{ServerConfig}
use tiny_inference_engine.Server.Members.{
  read, restart_server, enable_file_logger, is_grpc_server_enabled,
}
use tiny_inference_engine.Server.Options.{option_of}
use tiny_inference_engine.Server.CommandLine.{Cli, configure, configure-unset}
use tiny_inference_engine.Server.Logging.{setup_loggers, file_sinks, console_sinks}
use tiny_inference_engine.Server.Main.{
  Process, serving, crashed, exited, undefined, stopping, Surroundings, main,
}
use tiny_inference_engine.Server.Manager.{Signal, comes_to_end, reaches_freed, waits_forever}
use tiny_inference_engine.Server.Exit.{ended_servers, main-once}

-- What becomes of the program: it returns what the library makes of a `ParseError`, or it goes on.
pub data Ending : Type 0 where
  refused : Ending
  ran : Process → Ending

module _ (cli : Cli) (from_str : String → ℕ) (opens : String → Bool) where
  -- The exception of `setup_loggers` leaves `main`.
  unfoldable pub run_program :
      cli.Input → ServerConfig → Surroundings → Host NullState → List (List Signal) → Ending
  run_program i memory w h time = elim (configure cli i memory) [
    | none ↦ refused
    | some config ↦ elim (setup_loggers from_str opens config) [
      | none ↦ ran crashed
      | some logger ↦ ran (main config w h time)
    ]
  ]

  no_file_logger :
      (config : ServerConfig)
      → config.enable_file_logger ≡ false
      → setup_loggers from_str opens config
        ≡ some (record {
          name = "TIE";
          sinks = console_sinks from_str opens config ++ [];
          level = 0;
          flush_level = 2;
        })
  unfolding setup_loggers file_sinks
  no_file_logger config off = rw off refl

  -- Where neither the arguments nor the environment set the file logger, a restart or the gRPC server, and
  -- the command line is accepted, the program opens no log file and serves until signals come before one of
  -- the tests of the flag. It is then terminated if its gRPC server could not be built; else it returns 0,
  -- has no defined effect or waits without end, as `stop` beside the server's threads comes to its end,
  -- makes an access to a freed object or does not end.
  pub run_program-once :
      (i : cli.Input) (memory config : ServerConfig) (w : Surroundings) (h : Host NullState)
      (time : List (List Signal))
      → configure cli i memory ≡ some config
      → cli.given i "--restart_server" ≡ none
      → cli.given i "--enable_file_logger" ≡ none
      → cli.given i "--enable_grpc_server" ≡ none
      → run_program i memory w h time
        ≡ ran (
            if ended_servers time == 0
            then serving 0
            else if not (w.built 0)
            then crashed
            else elim (w.stops 0) [
              | comes_to_end ↦ exited
              | reaches_freed ↦ undefined
              | waits_forever ↦ stopping 0
            ])
  unfolding run_program option_of read
  run_program-once i memory config w h time e no_restart no_file no_grpc =
      let restart : config.restart_server ≡ false =
        configure-unset cli i memory config restart_server e no_restart in
      let file : config.enable_file_logger ≡ false =
        configure-unset cli i memory config enable_file_logger e no_file in
      let grpc : config.is_grpc_server_enabled ≡ true =
        configure-unset cli i memory config is_grpc_server_enabled e no_grpc in
      rw (run_program, e, no_file_logger config file, main-once config w h time restart, grpc) refl
