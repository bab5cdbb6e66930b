-- ===== src/Server/Options.antt =====
-- The constructor of `command_line_parser` (command_line_parser.cpp): its assignments to `_config` and
-- the options that it adds, in order. What the library CLI11 does with them is Server/CommandLine.antt.
use tiny_inference_engine.Base.{String, true, false, List, [], ◌∷◌}
use tiny_inference_engine.Base.Int.{pos}
use tiny_inference_engine.Server.Members.{
  Member, restart_server, models_repo, enable_console_logger, console_logger_level,
  enable_file_logger, file_logger_level, log_file, is_http_server_enabled, http_address, http_port,
  is_grpc_server_enabled, grpc_address, grpc_port, grpc_inference_threads, existing_directory,
  valid_ipv4, positive_number, is_member, OptionSpec, Statement, assign, add, options_of,
}

abbrev pub levels : List String
levels = "trace" ∷ "debug" ∷ "info" ∷ "warning" ∷ "error" ∷ "critical" ∷ "off" ∷ []

abbrev pub restart_server_option : OptionSpec
restart_server_option = record {
  name = "--restart_server";
  member = restart_server;
  is_flag = true;
  group = "";
  default_val = false;
  validators = [];
  needs = [];
  envname = "TIE_RESTART_SERVER";
}

abbrev pub models_repo_option : OptionSpec
models_repo_option = record {
  name = "--models_repo";
  member = models_repo;
  is_flag = false;
  group = "";
  default_val = "models";
  validators = existing_directory ∷ [];
  needs = [];
  envname = "TIE_MODELS_REPO";
}

abbrev pub enable_console_logger_option : OptionSpec
enable_console_logger_option = record {
  name = "--enable_console_logger";
  member = enable_console_logger;
  is_flag = true;
  group = "Logger";
  default_val = true;
  validators = [];
  needs = [];
  envname = "TIE_ENABLE_CONSOLE_LOGGER";
}

abbrev pub console_logger_level_option : OptionSpec
console_logger_level_option = record {
  name = "--console_logger_level";
  member = console_logger_level;
  is_flag = false;
  group = "Logger";
  default_val = "trace";
  validators = is_member levels ∷ [];
  needs = "--enable_console_logger" ∷ [];
  envname = "TIE_CONSOLE_LOGGER_LEVEL";
}

abbrev pub enable_file_logger_option : OptionSpec
enable_file_logger_option = record {
  name = "--enable_file_logger";
  member = enable_file_logger;
  is_flag = true;
  group = "Logger";
  default_val = false;
  validators = [];
  needs = [];
  envname = "TIE_ENABLE_FILE_LOGGER";
}

abbrev pub file_logger_level_option : OptionSpec
file_logger_level_option = record {
  name = "--file_logger_level";
  member = file_logger_level;
  is_flag = false;
  group = "Logger";
  default_val = "trace";
  validators = is_member levels ∷ [];
  needs = "--enable_file_logger" ∷ [];
  envname = "TIE_FILE_LOGGER_LEVEL";
}

abbrev pub log_file_option : OptionSpec
log_file_option = record {
  name = "--log_file";
  member = log_file;
  is_flag = false;
  group = "Logger";
  default_val = "server.log";
  validators = [];
  needs = "--enable_file_logger" ∷ [];
  envname = "TIE_LOGGER_FILE";
}

abbrev pub is_http_server_enabled_option : OptionSpec
is_http_server_enabled_option = record {
  name = "--enable_http_server";
  member = is_http_server_enabled;
  is_flag = true;
  group = "HTTP Server";
  default_val = false;
  validators = [];
  needs = [];
  envname = "TIE_HTTP_SERVER_ENABLED";
}

abbrev pub http_address_option : OptionSpec
http_address_option = record {
  name = "--http_address";
  member = http_address;
  is_flag = false;
  group = "HTTP Server";
  default_val = "0.0.0.0";
  validators = valid_ipv4 ∷ [];
  needs = "--enable_http_server" ∷ [];
  envname = "TIE_HTTP_ADDRESS";
}

abbrev pub http_port_option : OptionSpec
http_port_option = record {
  name = "--http_port";
  member = http_port;
  is_flag = false;
  group = "HTTP Server";
  default_val = "8080";
  validators = positive_number ∷ [];
  needs = "--enable_http_server" ∷ [];
  envname = "TIE_HTTP_PORT";
}

abbrev pub is_grpc_server_enabled_option : OptionSpec
is_grpc_server_enabled_option = record {
  name = "--enable_grpc_server";
  member = is_grpc_server_enabled;
  is_flag = true;
  group = "gRPC Server";
  default_val = true;
  validators = [];
  needs = [];
  envname = "TIE_GRPC_SERVER_ENABLED";
}

abbrev pub grpc_address_option : OptionSpec
grpc_address_option = record {
  name = "--grpc_address";
  member = grpc_address;
  is_flag = false;
  group = "gRPC Server";
  default_val = "0.0.0.0";
  validators = valid_ipv4 ∷ [];
  needs = "--enable_grpc_server" ∷ [];
  envname = "TIE_GRPC_ADDRESS";
}

abbrev pub grpc_port_option : OptionSpec
grpc_port_option = record {
  name = "--grpc_port";
  member = grpc_port;
  is_flag = false;
  group = "gRPC Server";
  default_val = "50051";
  validators = positive_number ∷ [];
  needs = "--enable_grpc_server" ∷ [];
  envname = "TIE_GRPC_PORT";
}

abbrev pub grpc_inference_threads_option : OptionSpec
grpc_inference_threads_option = record {
  name = "--grpc_inference_threads";
  member = grpc_inference_threads;
  is_flag = false;
  group = "gRPC Server";
  default_val = pos 4;
  validators = positive_number ∷ [];
  needs = "--enable_grpc_server" ∷ [];
  envname = "TIE_GRPC_INFER_THREADS";
}

-- The body of the constructor.
unfoldable pub statements : List Statement
statements =
    assign restart_server false
    ∷ add restart_server_option
    ∷ add models_repo_option
    ∷ assign enable_console_logger true
    ∷ add enable_console_logger_option
    ∷ add console_logger_level_option
    ∷ assign enable_file_logger true
    ∷ add enable_file_logger_option
    ∷ add file_logger_level_option
    ∷ add log_file_option
    ∷ assign is_http_server_enabled false
    ∷ add is_http_server_enabled_option
    ∷ add http_address_option
    ∷ add http_port_option
    ∷ assign is_grpc_server_enabled true
    ∷ add is_grpc_server_enabled_option
    ∷ add grpc_address_option
    ∷ add grpc_port_option
    ∷ add grpc_inference_threads_option
    ∷ []

unfoldable pub options : List OptionSpec
unfolding statements
options = options_of statements

-- The option that is bound to a member.
unfoldable pub option_of : Member → OptionSpec
option_of restart_server = restart_server_option
option_of models_repo = models_repo_option
option_of enable_console_logger = enable_console_logger_option
option_of console_logger_level = console_logger_level_option
option_of enable_file_logger = enable_file_logger_option
option_of file_logger_level = file_logger_level_option
option_of log_file = log_file_option
option_of is_http_server_enabled = is_http_server_enabled_option
option_of http_address = http_address_option
option_of http_port = http_port_option
option_of is_grpc_server_enabled = is_grpc_server_enabled_option
option_of grpc_address = grpc_address_option
option_of grpc_port = grpc_port_option
option_of grpc_inference_threads = grpc_inference_threads_option
