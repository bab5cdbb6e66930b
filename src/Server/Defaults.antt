-- ===== src/Server/Defaults.antt =====
-- What the constructor of `command_line_parser` (command_line_parser.cpp) makes: the options and the
-- configuration with its defaults.
use tiny_inference_engine.Base.{true, false, List, [], ◌∷◌, ◌≡◌, refl, ite}
use tiny_inference_engine.Base.Int.{pos}
use tiny_inference_engine.Server.Config.{ServerConfig}
use tiny_inference_engine.Server.Members.{
  Member, Member-discrete, restart_server, models_repo, enable_console_logger, console_logger_level,
  enable_file_logger, file_logger_level, log_file, is_http_server_enabled, http_address, http_port,
  is_grpc_server_enabled, grpc_address, grpc_port, grpc_inference_threads, OptionSpec, perform,
  perform_all, write,
}
use tiny_inference_engine.Server.Options.{statements, options, option_of}

-- The options of a list that are bound to the member.
abbrev pub bound_to : Member → List OptionSpec → List OptionSpec
bound_to m [] = []
bound_to m (o ∷ os) = ite (Member-discrete o.member m) (o ∷ bound_to m os) (bound_to m os)

-- Each member of the configuration is bound to exactly one option.
pub bound_to-options : (m : Member) → bound_to m options ≡ option_of m ∷ []
unfolding options statements option_of Member-discrete
bound_to-options restart_server = refl
bound_to-options models_repo = refl
bound_to-options enable_console_logger = refl
bound_to-options console_logger_level = refl
bound_to-options enable_file_logger = refl
bound_to-options file_logger_level = refl
bound_to-options log_file = refl
bound_to-options is_http_server_enabled = refl
bound_to-options http_address = refl
bound_to-options http_port = refl
bound_to-options is_grpc_server_enabled = refl
bound_to-options grpc_address = refl
bound_to-options grpc_port = refl
bound_to-options grpc_inference_threads = refl

-- `_config` after the constructor, from any memory.
unfoldable pub constructed : ServerConfig → ServerConfig
unfolding statements perform_all perform write
constructed c = perform_all statements c

-- The defaults.
abbrev pub defaults : ServerConfig
defaults = record {
  restart_server = false;
  models_repo = "models";
  enable_console_logger = true;
  console_logger_level = "trace";
  enable_file_logger = false;
  file_logger_level = "trace";
  log_file = "server.log";
  is_http_server_enabled = false;
  http_address = "0.0.0.0";
  http_port = "8080";
  is_grpc_server_enabled = true;
  grpc_address = "0.0.0.0";
  grpc_port = "50051";
  grpc_inference_threads = pos 4;
}

-- The constructor leaves no member of the configuration as it was: from any memory it makes the defaults,
-- with the file logger off although it is first switched on.
pub constructed-defaults : (c : ServerConfig) → constructed c ≡ defaults
unfolding constructed
constructed-defaults c = refl
