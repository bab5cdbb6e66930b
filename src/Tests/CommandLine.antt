-- ===== src/Tests/CommandLine.antt =====
-- A command line library that knows two command lines: the empty one, and
-- `--enable_grpc_server --grpc_inference_threads 8`.
use text.Mathlib.Text.{◌==◌ as str_eq}
use tiny_inference_engine.Base.{
  ℕ, suc, ◌<◌, ◌^◌, ◌≡◌, refl, ap, Bool, true, false, Option, none, some, List, [], ◌∷◌, String,
  if◌then◌else◌, arith,
}
use tiny_inference_engine.Base.Int.{ℤ, pos}
use tiny_inference_engine.Engine.{null_state}
use tiny_inference_engine.Messages.{Kind}
use tiny_inference_engine.Rpc.Listening.{listening}
use tiny_inference_engine.Server.Config.{ServerConfig}
use tiny_inference_engine.Server.Members.{
  Member, MemberType, read, OptionSpec, Validator, positive_number, is_member, restart_server,
  models_repo, enable_console_logger, console_logger_level, enable_file_logger, file_logger_level,
  log_file, is_http_server_enabled, http_address, http_port, is_grpc_server_enabled, grpc_address,
  grpc_port, grpc_inference_threads,
}
use tiny_inference_engine.Server.Options.{options, option_of}
use tiny_inference_engine.Server.Defaults.{defaults, constructed-defaults}
use tiny_inference_engine.Server.CommandLine.{
  Among, AllGiven, Cli, configure, configure-listening, configure-grpc_unset,
}
use tiny_inference_engine.Server.Startup.{Ready, started, expected}
use tiny_inference_engine.Server.Program.{ran, run_program, run_program-once}
use tiny_inference_engine.Server.Main.{exited}
use tiny_inference_engine.Tests.Rpc.{one_thread}
use tiny_inference_engine.Tests.Server.{nothing, time, all_built}

abbrev given : Bool → String → Option String
given false n = none
given true n =
    if str_eq n "--enable_grpc_server"
    then some "true"
    else if str_eq n "--grpc_inference_threads"
    then some "8"
    else none

abbrev checked : List Validator → String → Option String
checked (is_member names ∷ vs) s = none
checked vs s = some s

abbrev value : (m : Member) → String → Option (MemberType m)
value restart_server t = some true
value enable_console_logger t = some true
value enable_file_logger t = some true
value is_http_server_enabled t = some true
value is_grpc_server_enabled t = some true
value grpc_inference_threads t = some (pos 8)
value models_repo t = some t
value console_logger_level t = some t
value file_logger_level t = some t
value log_file t = some t
value http_address t = some t
value http_port t = some t
value grpc_address t = some t
value grpc_port t = some t

abbrev parse : List OptionSpec → Bool → ServerConfig → Option ServerConfig
parse os false c = some c
parse os true c = some (record c { is_grpc_server_enabled = true; grpc_inference_threads = pos 8 })

parse_unset_lem :
    (i : Bool) (c c' : ServerConfig) (m : Member)
    → parse options i c ≡ some c'
    → given i (option_of m).name ≡ none
    → read m c' ≡ read m c
unfolding option_of read
parse_unset_lem false c c' m e u = ap (read m) (cc)
parse_unset_lem true c c' is_grpc_server_enabled e u = cc
parse_unset_lem true c c' grpc_inference_threads e u = cc
parse_unset_lem true c c' _ e u = cc

parse_set_lem :
    (i : Bool) (c c' : ServerConfig) (m : Member) (s : String)
    → parse options i c ≡ some c'
    → given i (option_of m).name ≡ some s
    → (t : String) × (checked (option_of m).validators s ≡ some t)
      × (value m t ≡ some (read m c'))
      × AllGiven (given i) (option_of m).needs
unfolding option_of read
parse_set_lem false c c' m s e g = cc
parse_set_lem true c c' is_grpc_server_enabled s e g = (s, refl, cc, tt)
parse_set_lem true c c' grpc_inference_threads s e g = (s, refl, cc, ((λ e. cc), tt))
parse_set_lem true c c' _ s e g = cc

positive_lem :
    (s t : String) (v : ℤ)
    → checked (positive_number ∷ []) s ≡ some t
    → value grpc_inference_threads t ≡ some v
    → (n : ℕ) × (v ≡ pos (suc n)) × (suc n < 2 ^ 31)
positive_lem s t v ok e = (7, cc, omega arith)

member_lem :
    (names : List String) (s t : String) → checked (is_member names ∷ []) s ≡ some t → Among t names
member_lem names s t ok = cc

text_lem : (t u : String) → some t ≡ some u → t ≡ u
text_lem t u e = cc

abbrev two_lines : Cli
two_lines = record {
  Input = Bool;
  given = given;
  checked = checked;
  value = value;
  parse = parse;
  parse_unset = parse_unset_lem;
  parse_set = parse_set_lem;
  checked_positive = positive_lem;
  checked_member = member_lem;
  value_level = text_lem;
  value_file_level = text_lem;
}

abbrev eight : ServerConfig
eight = record defaults { grpc_inference_threads = pos 8 }

configured : configure two_lines true one_thread ≡ some eight
unfolding configure
configured = ap (parse options true) (constructed-defaults one_thread)

configured_empty : configure two_lines false one_thread ≡ some defaults
unfolding configure
configured_empty = ap (parse options false) (constructed-defaults one_thread)

configure-listening_example :
    (n : ℕ) × (eight.grpc_inference_threads ≡ pos (suc n))
    × Ready (started eight null_state)
    × ((k : Kind) (queue : ℕ)
        → listening k queue (started eight null_state).pending ≡ expected (suc n) k queue)
configure-listening_example =
    configure-listening two_lines true one_thread eight null_state configured

configure-grpc_unset_example :
    (defaults.is_grpc_server_enabled ≡ true)
    × (defaults.grpc_address ≡ "0.0.0.0")
    × (defaults.grpc_port ≡ "50051")
    × (defaults.grpc_inference_threads ≡ pos 4)
configure-grpc_unset_example =
    configure-grpc_unset two_lines false one_thread defaults configured_empty refl

run_program-once_example :
    run_program two_lines (λ s. 0) (λ f. false) false one_thread all_built nothing time ≡ ran exited
run_program-once_example =
    run_program-once two_lines (λ s. 0) (λ f. false) false one_thread defaults all_built nothing
      time configured_empty refl refl refl
