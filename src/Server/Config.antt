-- ===== src/Server/Config.antt =====
-- server_config.hpp. Paths are texts.
use tiny_inference_engine.Base.{String, Bool}
use tiny_inference_engine.Base.Int.{ℤ}

pub record ServerConfig : Type 0 where
  pub restart_server : Bool
  pub models_repo : String
  pub enable_console_logger : Bool
  pub console_logger_level : String
  pub enable_file_logger : Bool
  pub file_logger_level : String
  pub log_file : String
  pub is_http_server_enabled : Bool
  pub http_address : String
  pub http_port : String
  pub is_grpc_server_enabled : Bool
  pub grpc_address : String
  pub grpc_port : String
  pub grpc_inference_threads : ℤ
