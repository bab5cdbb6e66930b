-- ===== src/Server/CommandLine.antt =====
-- The command line and environment (command_line_parser.cpp): what the configuration is after `parse`.
--
-- The library CLI11, which `command_line_parser` derives from, is a parameter with its documented
-- behaviour: an option that neither the arguments nor the environment set keeps the value of its
-- variable; one that they set has passed its checks, which may rewrite the text, and its value is
-- written; and the options that it needs are set too.
use tiny_inference_engine.Base.{
  ℕ, suc, ◌+◌, ◌^◌, ◌<◌, ◌≡◌, ◌≢◌, refl, ap, ◌∙◌, subst, true, Option, none, some, List, [], ◌∷◌,
  String, arith, Option-cases, inl, inr, ◌⊎◌,
}
use tiny_inference_engine.Base.Int.{ℤ, pos, rounds}
use tiny_inference_engine.Messages.{Kind}
use tiny_inference_engine.Rpc.Listening.{listening}
use tiny_inference_engine.Server.Config.{ServerConfig}
use tiny_inference_engine.Server.Members.{
  Member, MemberType, read, OptionSpec, Validator, positive_number, is_member,
  grpc_inference_threads, grpc_port, grpc_address, console_logger_level, file_logger_level,
  is_grpc_server_enabled,
}
use tiny_inference_engine.Server.Options.{options, option_of, levels}
use tiny_inference_engine.Server.Defaults.{constructed, defaults, constructed-defaults}
use tiny_inference_engine.Server.Startup.{Ready, started, expected, start-listening}

-- The text is one of the names.
abbrev pub Among : String → List String → Type 0
Among s [] = ⊥
Among s (n ∷ names) = (s ≡ n) ⊎ Among s names

-- Every needed option is set.
abbrev pub AllGiven : (String → Option String) → List String → Type 0
AllGiven given [] = Unit {0}
AllGiven given (n ∷ names) = (given n ≢ none) × AllGiven given names

pub record Cli : Type 1 where
  -- the arguments and the environment
  pub Input : Type 0
  -- the text that they give to the option of a name
  pub given : Input → String → Option String
  -- the checks of an option
  pub checked : List Validator → String → Option String
  -- the value of a text
  pub value : (m : Member) → String → Option (MemberType m)
  -- `parse`; `none` is a `ParseError`
  pub parse : List OptionSpec → Input → ServerConfig → Option ServerConfig
  pub parse_unset :
      (i : Input) (c c' : ServerConfig) (m : Member)
      → parse options i c ≡ some c'
      → given i (option_of m).name ≡ none
      → read m c' ≡ read m c
  pub parse_set :
      (i : Input) (c c' : ServerConfig) (m : Member) (s : String)
      → parse options i c ≡ some c'
      → given i (option_of m).name ≡ some s
      → (t : String) × (checked (option_of m).validators s ≡ some t)
        × (value m t ≡ some (read m c'))
        × AllGiven (given i) (option_of m).needs
  pub checked_positive :
      (s t : String) (v : ℤ)
      → checked (positive_number ∷ []) s ≡ some t
      → value grpc_inference_threads t ≡ some v
      → (n : ℕ) × (v ≡ pos (suc n)) × (suc n < 2 ^ 31)
  pub checked_member :
      (names : List String) (s t : String)
      → checked (is_member names ∷ []) s ≡ some t
      → Among t names
  pub value_level : (t u : String) → value console_logger_level t ≡ some u → t ≡ u
  pub value_file_level : (t u : String) → value file_logger_level t ≡ some u → t ≡ u

module _ (cli : Cli) where
  -- The parser's configuration after `parse`, from the memory `c` that it is constructed in.
  unfoldable pub configure : cli.Input → ServerConfig → Option ServerConfig
  configure i c = cli.parse options i (constructed c)

  -- An option that is not set is as it was constructed.
  pub configure-unset :
      (i : cli.Input) (c config : ServerConfig) (m : Member)
      → configure i c ≡ some config
      → cli.given i (option_of m).name ≡ none
      → read m config ≡ read m defaults
  unfolding configure
  configure-unset i c config m e unset =
      cli.parse_unset i (constructed c) config m e unset ∙ ap (read m) (constructed-defaults c)

  -- At least one inference thread, and fewer than 2 ^ 31.
  threads-positive :
      (i : cli.Input) (c config : ServerConfig)
      → configure i c ≡ some config
      → (n : ℕ) × (config.grpc_inference_threads ≡ pos (suc n)) × (suc n < 2 ^ 31)
  unfolding configure option_of read
  threads-positive i c config e = elim (Option-cases (cli.given i "--grpc_inference_threads")) [
    | inl unset ↦ (3, configure-unset i c config grpc_inference_threads e unset, omega arith)
    | inr (s, set) ↦
        let (t, ok, v, _) = cli.parse_set i (constructed c) config grpc_inference_threads s e set in
        cli.checked_positive s t config.grpc_inference_threads ok v
  ]

  -- A configuration that the command line gives, whatever the arguments and the environment, makes a server
  -- that waits for events with all nine methods awaited, if `BuildAndStart` succeeds: it has at least
  -- one inference thread, awaits one inference call on each of the queues below their number, and
  -- one call of every other method on the common queue.
  pub configure-listening :
      {S : Type 0} (i : cli.Input) (c config : ServerConfig) (s : S)
      → configure i c ≡ some config
      → (n : ℕ) × (config.grpc_inference_threads ≡ pos (suc n))
        × Ready (started config s)
        × ((k : Kind) (queue : ℕ)
            → listening k queue (started config s).pending ≡ expected (suc n) k queue)
  configure-listening i c config s e =
      let (n, threads, small) = threads-positive i c config e in
      let count : rounds config.grpc_inference_threads ≡ suc n = ap rounds threads in
      let fits : rounds config.grpc_inference_threads + 8 < 2 ^ 64 = omega (arith, count, small) in
      (
        n,
        threads,
        (start-listening config s Kind.model_infer 0 fits).0,
        λ k queue. (start-listening config s k queue fits).1 ∙ ap (λ m. expected m k queue) count,
      )

  -- An option that needs another one is as it was constructed if that is not set.
  unset_needed :
      (i : cli.Input) (c config : ServerConfig) (m : Member) (flag : String)
      → configure i c ≡ some config
      → (option_of m).needs ≡ flag ∷ []
      → cli.given i flag ≡ none
      → read m config ≡ read m defaults
  unfolding configure
  unset_needed i c config m flag e needs none_given =
      elim (Option-cases (cli.given i (option_of m).name)) [
        | inl unset ↦ configure-unset i c config m e unset
        | inr (s, set) ↦
            let (t, _, _, given) = cli.parse_set i (constructed c) config m s e set in
            absurd ((subst (AllGiven (cli.given i)) needs given).0 none_given)
      ]

  -- Although the gRPC server is switched on by default, its options have no effect of their own: a
  -- configuration that is given without `--enable_grpc_server` has the server enabled, with the default
  -- address, port and number of threads, so that every other value is refused.
  pub configure-grpc_unset :
      (i : cli.Input) (c config : ServerConfig)
      → configure i c ≡ some config
      → cli.given i "--enable_grpc_server" ≡ none
      → (config.is_grpc_server_enabled ≡ true)
        × (config.grpc_address ≡ "0.0.0.0")
        × (config.grpc_port ≡ "50051")
        × (config.grpc_inference_threads ≡ pos 4)
  unfolding configure option_of read
  configure-grpc_unset i c config e unset = (
    configure-unset i c config is_grpc_server_enabled e unset,
    unset_needed i c config grpc_address "--enable_grpc_server" e refl unset,
    unset_needed i c config grpc_port "--enable_grpc_server" e refl unset,
    unset_needed i c config grpc_inference_threads "--enable_grpc_server" e refl unset,
  )

  -- The levels that a configuration names are among the seven names of the option's check.
  pub configure-levels :
      (i : cli.Input) (c config : ServerConfig)
      → configure i c ≡ some config
      → Among config.console_logger_level levels × Among config.file_logger_level levels
  unfolding configure option_of read
  configure-levels i c config e = (
    elim (Option-cases (cli.given i "--console_logger_level")) [
      | inl unset ↦ inl (configure-unset i c config console_logger_level e unset)
      | inr (s, set) ↦
          let (t, ok, v, _) = cli.parse_set i (constructed c) config console_logger_level s e set in
          subst (λ u. Among u levels) (cli.value_level t config.console_logger_level v)
            (cli.checked_member levels s t ok)
    ],
    elim (Option-cases (cli.given i "--file_logger_level")) [
      | inl unset ↦ inl (configure-unset i c config file_logger_level e unset)
      | inr (s, set) ↦
          let (t, ok, v, _) = cli.parse_set i (constructed c) config file_logger_level s e set in
          subst (λ u. Among u levels) (cli.value_file_level t config.file_logger_level v)
            (cli.checked_member levels s t ok)
    ],
  )
