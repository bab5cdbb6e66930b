-- ===== src/Server/Members.antt =====
-- The statements that the constructor of `command_line_parser` (command_line_parser.cpp) is made of, and
-- what they do to the members of `_config` (server_config.hpp).
use tiny_inference_engine.Base.{String, Bool, List, [], ◌∷◌}
use tiny_inference_engine.Base.Int.{ℤ}
use tiny_inference_engine.Server.Config.{ServerConfig}

-- The members of `_config`.
pub data Member : Type 0 where
  restart_server models_repo enable_console_logger console_logger_level : Member
  enable_file_logger file_logger_level log_file is_http_server_enabled : Member
  http_address http_port is_grpc_server_enabled grpc_address : Member
  grpc_port grpc_inference_threads : Member

unfoldable pub Member-discrete : Discrete Member
Member-discrete = hlevel

abbrev pub MemberType : Member → Type 0
MemberType restart_server = Bool
MemberType enable_console_logger = Bool
MemberType enable_file_logger = Bool
MemberType is_http_server_enabled = Bool
MemberType is_grpc_server_enabled = Bool
MemberType grpc_inference_threads = ℤ
MemberType _ = String

unfoldable pub read : (m : Member) → ServerConfig → MemberType m
read restart_server c = c.restart_server
read models_repo c = c.models_repo
read enable_console_logger c = c.enable_console_logger
read console_logger_level c = c.console_logger_level
read enable_file_logger c = c.enable_file_logger
read file_logger_level c = c.file_logger_level
read log_file c = c.log_file
read is_http_server_enabled c = c.is_http_server_enabled
read http_address c = c.http_address
read http_port c = c.http_port
read is_grpc_server_enabled c = c.is_grpc_server_enabled
read grpc_address c = c.grpc_address
read grpc_port c = c.grpc_port
read grpc_inference_threads c = c.grpc_inference_threads

unfoldable pub write : (m : Member) → MemberType m → ServerConfig → ServerConfig
write restart_server v c = record c { restart_server = v }
write models_repo v c = record c { models_repo = v }
write enable_console_logger v c = record c { enable_console_logger = v }
write console_logger_level v c = record c { console_logger_level = v }
write enable_file_logger v c = record c { enable_file_logger = v }
write file_logger_level v c = record c { file_logger_level = v }
write log_file v c = record c { log_file = v }
write is_http_server_enabled v c = record c { is_http_server_enabled = v }
write http_address v c = record c { http_address = v }
write http_port v c = record c { http_port = v }
write is_grpc_server_enabled v c = record c { is_grpc_server_enabled = v }
write grpc_address v c = record c { grpc_address = v }
write grpc_port v c = record c { grpc_port = v }
write grpc_inference_threads v c = record c { grpc_inference_threads = v }

-- What `->check(...)` is given.
pub data Validator : Type 0 where
  existing_directory valid_ipv4 positive_number : Validator
  is_member : List String → Validator

-- One call of `add_flag` or `add_option` with the calls chained to it. An empty group is the default one.
pub record OptionSpec : Type 0 where
  pub name : String
  pub member : Member
  pub is_flag : Bool
  pub group : String
  pub default_val : MemberType member
  pub validators : List Validator
  pub needs : List String
  pub envname : String

pub data Statement : Type 0 where
  assign : (m : Member) → MemberType m → Statement
  add : OptionSpec → Statement

-- The options that the parser then has.
abbrev pub options_of : List Statement → List OptionSpec
options_of [] = []
options_of (assign m v ∷ ss) = options_of ss
options_of (add o ∷ ss) = o ∷ options_of ss

-- `default_val` writes the value to the variable that the option is bound to.
unfoldable pub perform : Statement → ServerConfig → ServerConfig
unfolding write
perform (assign m v) c = write m v c
perform (add o) c = write o.member o.default_val c

unfoldable pub perform_all : List Statement → ServerConfig → ServerConfig
unfolding perform
perform_all [] c = c
perform_all (s ∷ ss) c = perform_all ss (perform s c)
