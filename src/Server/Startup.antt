-- ===== src/Server/Startup.antt =====
-- `run` of crates/server/src/main.rs, up to the listener. The files that can be read are given.
pub mod Serving
use nats_server_rs.Prelude.{ℕ, Bool, Option, none, some, List, Bytes, if◌then◌else◌}
use nats_server_rs.Config.Strings.{Text}
use nats_server_rs.Config.Duration.{Float}
use nats_server_rs.Config.{ConfigError, Checked, ok, bail, Config, default, validate}
use nats_server_rs.Config.File.{Parsed, parse_config}
use nats_server_rs.Config.Flags.{Args, parse_args, apply_flags}

-- How `run` ends: with the usage and exit code 1, with an error and exit code 1, with a print and exit
-- code 0, or with a server.
pub data Outcome : Type 0 where
  usage : ConfigError → Outcome
  unreadable : Text → Outcome
  failed : ConfigError → Outcome
  version help tested : Outcome
  serves : Config → Outcome

module _ (float : Float) (read : Text → Option Text) where
  unfoldable pub validated : Args → Checked Config → Outcome
  validated args (bail e) = failed e
  validated args (ok cfg) = if args.test_config then tested else serves cfg

  unfoldable pub configured : Args → Config → Outcome
  unfolding validated validate apply_flags
  configured args cfg = validated args (validate (apply_flags cfg args))

  unfoldable pub parsed : Args → Checked Parsed → Outcome
  unfolding configured
  parsed args (bail e) = failed e
  parsed args (ok p) = configured args p.cfg

  unfoldable pub loaded : Args → Text → Option Text → Outcome
  unfolding parsed parse_config
  loaded args path none = unreadable path
  loaded args path (some text) = parsed args (parse_config float text)

  unfoldable pub with_file : Args → Option Text → Outcome
  unfolding configured loaded
  with_file args none = configured args default
  with_file args (some path) = loaded args path (read path)

  unfoldable pub with_args : Checked Args → Outcome
  unfolding with_file
  with_args (bail e) = usage e
  with_args (ok args) =
      if args.version then version else if args.help then help else with_file args args.config_file

  unfoldable pub run : List Text → Outcome
  unfolding with_args parse_args
  run argv = with_args (parse_args argv)
