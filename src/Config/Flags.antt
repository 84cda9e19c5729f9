-- ===== src/Config/Flags.antt =====
-- `Args`, `parse_args` and `apply_flags` of crates/server/src/config.rs.
pub mod Manual
pub mod CommandLine
use nats_server_rs.Prelude.{
  ℕ, Bool, true, false, not, ◌&&◌, ◌||◌, Option, none, some, List, [], ◌∷◌, ◌==◌, equal, is_empty,
  if◌then◌else◌, ℤ, codes,
}
use nats_server_rs.Config.Strings.{Text, split_once}
use nats_server_rs.Config.Number.{parse_i32}
use nats_server_rs.Config.{
  ConfigError, needs_argument, invalid_port, undefined_flag, Checked, ok, bail, ◌>>=◌, Config,
}

pub record Args : Type 0 where
  pub config_file : Option Text
  pub test_config : Bool
  pub version : Bool
  pub help : Bool
  pub host : Option Text
  pub port : Option ℤ
  pub ports_file_dir : Option Text
  pub server_name : Option Text
  pub debug : Bool
  pub trace : Bool

-- `Args::default`
abbrev pub no_args : Args
no_args = record {
  config_file = none;
  test_config = false;
  version = false;
  help = false;
  host = none;
  port = none;
  ports_file_dir = none;
  server_name = none;
  debug = false;
  trace = false;
}

-- The arms of the `match` on a flag's name: those that take a value, those that do not, and the rest.
pub data Flag : Type 0 where
  host_flag port_flag name_flag config_flag ports_dir_flag : Flag
  test_flag version_flag help_flag debug_flag trace_flag unknown_flag : Flag

unfoldable pub is : Text → Text → Bool
unfolding equal
is name s = equal name s

unfoldable pub flag_of : Text → Flag
unfolding is codes
flag_of name =
    if is name (codes "-a") || is name (codes "--addr") || is name (codes "--net")
    then host_flag
    else if is name (codes "-p") || is name (codes "--port")
    then port_flag
    else if is name (codes "-n") || is name (codes "--name") || is name (codes "--server_name")
    then name_flag
    else if is name (codes "-c") || is name (codes "--config")
    then config_flag
    else if is name (codes "--ports_file_dir")
    then ports_dir_flag
    else if is name (codes "-t")
    then test_flag
    else if is name (codes "-v") || is name (codes "--version")
    then version_flag
    else if is name (codes "-h") || is name (codes "--help")
    then help_flag
    else if is name (codes "-D") || is name (codes "--debug")
    then debug_flag
    else if is name (codes "-V") || is name (codes "--trace")
    then trace_flag
    else unknown_flag

unfoldable pub takes_value : Flag → Bool
takes_value host_flag = true
takes_value port_flag = true
takes_value name_flag = true
takes_value config_flag = true
takes_value ports_dir_flag = true
takes_value _ = false

unfoldable pub with_port : Text → Args → Option ℤ → Checked Args
with_port v o none = bail (invalid_port v)
with_port v o (some p) = ok (record o { port = some p })

-- An arm with its value `v`, which only those that take one look at.
unfoldable pub set_flag : Flag → Text → Text → Args → Checked Args
unfolding with_port parse_i32
set_flag host_flag name v o = ok (record o { host = some v })
set_flag port_flag name v o = with_port v o (parse_i32 v)
set_flag name_flag name v o = ok (record o { server_name = some v })
set_flag config_flag name v o = ok (record o { config_file = some v })
set_flag ports_dir_flag name v o = ok (record o { ports_file_dir = some v })
set_flag test_flag name v o = ok (record o { test_config = true })
set_flag version_flag name v o = ok (record o { version = true })
set_flag help_flag name v o = ok (record o { help = true })
set_flag debug_flag name v o = ok (record o { debug = true })
set_flag trace_flag name v o = ok (record o { trace = true })
set_flag unknown_flag name v o = bail (undefined_flag name)

-- Go's flag package stops at the first argument that is no flag.
unfoldable pub is_plain : Text → Bool
is_plain [] = true
is_plain (c ∷ s) = not (c == b'-') || is_empty s

unfoldable pub is_long : Text → Bool
is_long (c ∷ d ∷ s) = c == b'-' && d == b'-'
is_long _ = false

-- The flag's name and its inline value: `--x=v`, but not `-x=v`.
unfoldable pub parted : Text → Option (Text × Text) → Text × Option Text
unfolding is_long
parted arg none = (arg, none)
parted arg (some (n, v)) = if is_long n then (n, some v) else (arg, none)

-- A round of the loop: what the options become, or the flag whose value is the next argument.
pub data Round : Type 0 where
  set : Checked Args → Round
  wants : Flag → Text → Round

unfoldable pub round_of : Flag → Args → Text × Option Text → Round
unfolding set_flag takes_value
round_of flag o (name, some v) = set (set_flag flag name v o)
round_of flag o (name, none) =
    if takes_value flag then wants flag name else set (set_flag flag name [] o)

unfoldable pub round : Text → Args → Round
unfolding round_of flag_of parted split_once
round arg o = let named = parted arg (split_once b'=' arg) in round_of (flag_of named.0) o named

-- `parse_args`, with the flag that waits for its value.
unfoldable pub parse_loop : List Text → Option (Flag × Text) → Args → Checked Args
unfolding set_flag round is_plain
parse_loop [] none o = ok o
parse_loop [] (some (flag, name)) o = bail (needs_argument name)
parse_loop (v ∷ argv) (some (flag, name)) o = set_flag flag name v o >>= parse_loop argv none
parse_loop (arg ∷ argv) none o = elim (is_plain arg) [
  | true ↦ ok o
  | false ↦ elim (round arg o) [
    | set r ↦ r >>= parse_loop argv none
    | wants flag name ↦ parse_loop argv (some (flag, name)) o
  ]
]

unfoldable pub parse_args : List Text → Checked Args
unfolding parse_loop
parse_args argv = parse_loop argv none no_args

unfoldable pub or_keep {ℓ} : {A : Type ℓ} → Option A → A → A
or_keep none old = old
or_keep (some new) old = new

unfoldable pub or_keep_some : Option Text → Option Text → Option Text
or_keep_some none old = old
or_keep_some (some new) old = some new

unfoldable pub apply_flags : Config → Args → Config
unfolding or_keep or_keep_some
apply_flags cfg args = record cfg {
  host = or_keep args.host cfg.host;
  port = or_keep args.port cfg.port;
  ports_file_dir = or_keep_some args.ports_file_dir cfg.ports_file_dir;
  server_name = or_keep_some args.server_name cfg.server_name;
  debug = cfg.debug || args.debug;
  trace = cfg.trace || args.trace;
}
