-- ===== src/Server/Logging.antt =====
-- `setup_loggers` (logging.cpp): the default logger that a configuration gives.
--
-- The library spdlog is a parameter: `from_str` is `spdlog::level::from_str`, and `opens` says whether a
-- file sink can open its file, which throws otherwise. Levels are spdlog's numbers, from 0, `trace`, to 6,
-- `off`. The pattern of the messages is left out.
use tiny_inference_engine.Base.{
  ℕ, String, Bool, Option, none, some, List, [], ◌∷◌, ◌++◌, if◌then◌else◌, ◌>>=◌,
}
use tiny_inference_engine.Server.Config.{ServerConfig}

pub data SinkKind : Type 0 where
  stdout_color : SinkKind
  basic_file : String → SinkKind

pub record Sink : Type 0 where
  pub kind : SinkKind
  pub level : ℕ

pub record Logger : Type 0 where
  pub name : String
  pub sinks : List Sink
  pub level : ℕ
  pub flush_level : ℕ

module _ (from_str : String → ℕ) (opens : String → Bool) where
  unfoldable pub console_sinks : ServerConfig → List Sink
  console_sinks config =
      if config.enable_console_logger
      then record { kind = stdout_color; level = from_str config.console_logger_level } ∷ []
      else []

  -- `none`: the exception of the file sink.
  unfoldable pub file_sinks : ServerConfig → Option (List Sink)
  file_sinks config =
      if config.enable_file_logger
      then (if opens config.log_file
          then some (
              record {
                kind = basic_file config.log_file;
                level = from_str config.file_logger_level;
              }
              ∷ [])
          else none)
      else some []

  unfoldable pub setup_loggers : ServerConfig → Option Logger
  unfolding console_sinks file_sinks
  setup_loggers config = file_sinks config >>= λ file.
      some
        (record { name = "TIE"; sinks = console_sinks config ++ file; level = 0; flush_level = 2 })
