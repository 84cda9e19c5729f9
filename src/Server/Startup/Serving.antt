-- ===== src/Server/Startup/Serving.antt =====
-- What `run` of crates/server/src/main.rs has seen to when it starts a server.
use mathlib.Core.Option
use nats_server_rs.Prelude.{
  ◌≤◌, Bool, true, false, Option, none, some, List, if◌then◌else◌, ltb, ltb-false→le, not, ◌&&◌,
  Bool-cases, inl, inr, ◌≡◌, subst, refl, arith, ◌||◌,
}
use nats_server_rs.Config.Strings.{Text}
use nats_server_rs.Config.Duration.{Float}
use nats_server_rs.Config.{Checked, ok, bail, Config, default, validate}
use nats_server_rs.Config.File.{Parsed, parse_config}
use nats_server_rs.Config.Flags.{Args, parse_args, or_keep, or_keep_some, apply_flags}
use nats_server_rs.Server.Startup.{
  Outcome, version, help, tested, serves, validated, configured, parsed, loaded, with_file,
  with_args, run,
}

-- What an option says, where it says something.
abbrev pub Wins : {A : Type 0} → Option A → A → Type 0
Wins none v = Unit
Wins (some a) v = v ≡ a

-- The options that a server starts with, for what the command line said.
pub record IsStarted (args : Args) (cfg : Config) : Type 0 where
  pub sane : cfg.max_payload ≤ cfg.max_pending
  pub no_print : (args.version ≡ false) × (args.help ≡ false) × (args.test_config ≡ false)
  pub host_wins : Wins args.host cfg.host
  pub port_wins : Wins args.port cfg.port
  pub name_wins : Wins (Option.map some args.server_name) cfg.server_name
  pub dir_wins : Wins (Option.map some args.ports_file_dir) cfg.ports_file_dir
  pub debug_wins : (args.debug && not cfg.debug) ≡ false
  pub trace_wins : (args.trace && not cfg.trace) ≡ false

abbrev Starts : Args → Outcome → Type 0
Starts args (serves cfg) = IsStarted args cfg
Starts args _ = Unit

or_wins : (b c : Bool) → (c && not (b || c)) ≡ false
or_wins b c = ground arith

or_keep-Wins : {A : Type 0} (o : Option A) (v : A) → Wins o (or_keep o v)
unfolding or_keep
or_keep-Wins none v = tt
or_keep-Wins (some a) v = refl

or_keep_some-Wins : (o v : Option Text) → Wins (Option.map some o) (or_keep_some o v)
unfolding or_keep_some
or_keep_some-Wins none v = tt
or_keep_some-Wins (some a) v = refl

applied-IsStarted :
    (args : Args) (cfg : Config)
    → args.version ≡ false
    → args.help ≡ false
    → args.test_config ≡ false
    → (apply_flags cfg args).max_payload ≤ (apply_flags cfg args).max_pending
    → IsStarted args (apply_flags cfg args)
unfolding apply_flags
applied-IsStarted args cfg v h t le = record {
  sane = le;
  no_print = (v, h, t);
  host_wins = or_keep-Wins args.host cfg.host;
  port_wins = or_keep-Wins args.port cfg.port;
  name_wins = or_keep_some-Wins args.server_name cfg.server_name;
  dir_wins = or_keep_some-Wins args.ports_file_dir cfg.ports_file_dir;
  debug_wins = or_wins cfg.debug args.debug;
  trace_wins = or_wins cfg.trace args.trace;
}

Starts-if :
    (args : Args) (b : Bool) (r s : Outcome)
    → (b ≡ true → Starts args r)
    → (b ≡ false → Starts args s)
    → Starts args (if b then r else s)
Starts-if args true r s f g = f refl
Starts-if args false r s f g = g refl

module _ (float : Float) (read : Text → Option Text) where
  configured-Starts :
      (args : Args) (cfg : Config)
      → args.version ≡ false
      → args.help ≡ false
      → Starts args (configured float read args cfg)
  unfolding configured validate validated
  configured-Starts args cfg v h =
      let c = apply_flags cfg args in
      elim (Bool-cases (ltb c.max_pending c.max_payload)) [
        | inl above ↦ rw above tt
        | inr sane ↦ rw sane (
            Starts-if args args.test_config tested (serves c) (λ _. tt)
              (λ t. applied-IsStarted args cfg v h t (ltb-false→le _ _ sane)))
      ]

  parsed-Starts :
      (args : Args) (r : Checked Parsed)
      → args.version ≡ false
      → args.help ≡ false
      → Starts args (parsed float read args r)
  unfolding parsed
  parsed-Starts args (bail e) v h = tt
  parsed-Starts args (ok p) v h = configured-Starts args p.cfg v h

  loaded-Starts :
      (args : Args) (path : Text) (r : Option Text)
      → args.version ≡ false
      → args.help ≡ false
      → Starts args (loaded float read args path r)
  unfolding loaded
  loaded-Starts args path none v h = tt
  loaded-Starts args path (some text) v h = parsed-Starts args (parse_config float text) v h

  with_file-Starts :
      (args : Args) (path : Option Text)
      → args.version ≡ false
      → args.help ≡ false
      → Starts args (with_file float read args path)
  unfolding with_file
  with_file-Starts args none v h = configured-Starts args default v h
  with_file-Starts args (some path) v h = loaded-Starts args path (read path) v h

  with_args-Starts : (args : Args) → Starts args (with_args float read (ok args))
  unfolding with_args
  with_args-Starts args =
      Starts-if args args.version version _ (λ _. tt)
        (λ v.
          Starts-if args args.help help _ (λ _. tt)
            (λ h. with_file-Starts args args.config_file v h))

  -- When the process goes on to serve, its command line was accepted and asked for no version,
  -- help or configuration test, the maximum payload is within the maximum pending bytes, and what
  -- the command line gives for the address, port, name and ports directory is what the server has,
  -- whatever the configuration file says; debug and trace are on where it turns them on.
  pub run-IsStarted :
      (argv : List Text) (cfg : Config)
      → run float read argv ≡ serves cfg
      → (args : Args) × (parse_args argv ≡ ok args) × IsStarted args cfg
  unfolding run
  run-IsStarted argv cfg h = started (parse_args argv) refl h
    where
      started :
          (r : Checked Args)
          → parse_args argv ≡ r
          → with_args float read r ≡ serves cfg
          → (args : Args) × (parse_args argv ≡ ok args) × IsStarted args cfg
      started (bail e) q g = cc
      started (ok args) q g = (args, q, subst (Starts args) g (with_args-Starts args))
