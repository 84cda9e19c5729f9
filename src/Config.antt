-- ===== src/Config.antt =====
-- crates/server/src/config.rs: the configuration. A `String` is a text, a path too, and a `Duration` its
-- nanoseconds; an error is what its message says.
pub mod Strings
pub mod Number
pub mod Duration
pub mod File
pub mod Flags
use nats_server_rs.Prelude.{
  ℕ, ◌+◌, ◌*◌, Bool, true, false, ◌||◌, Option, none, some, ltb, ◌==◌, if◌then◌else◌, ℤ, pos,
  negsuc, codes,
}
use nats_server_rs.Config.Strings.{Text}
use nats_server_rs.Config.Duration.{seconds}

pub data ConfigError : Type 0 where
  payload_above_pending : (max_payload : ℕ) → (max_pending : ℕ) → ConfigError
  needs_argument : (name : Text) → ConfigError
  invalid_port : (value : Text) → ConfigError
  undefined_flag : (name : Text) → ConfigError
  expected_key : (line : ℕ) → ConfigError
  unknown_field : (name : Text) → ConfigError
  expected_integer : (value : Text) → ConfigError
  expected_boolean : (value : Text) → ConfigError
  invalid_duration : (field : Text) → (value : Text) → ConfigError

-- `anyhow::Result`
pub data Checked {ℓ} (A : Type ℓ) : Type ℓ where
  ok : A → Checked A
  bail : ConfigError → Checked A

infixl 5 ◌>>=◌
abbrev pub ◌>>=◌ {ℓ κ} : {A : Type ℓ} {B : Type κ} → Checked A → (A → Checked B) → Checked B
ok a >>= f = f a
bail e >>= f = bail e

abbrev pub default_port : ℤ
default_port = pos 4222

-- RANDOM_PORT
abbrev pub random_port : ℤ
random_port = negsuc 0

pub record Config : Type 0 where
  pub host : Text
  pub port : ℤ
  pub ports_file_dir : Option Text
  pub server_name : Option Text
  pub max_payload : ℕ
  pub max_pending : ℕ
  pub max_control_line : ℕ
  pub max_connections : ℤ
  pub ping_interval : ℕ
  pub write_deadline : ℕ
  pub debug : Bool
  pub trace : Bool

-- `Config::default`, with the constants of the head of the file.
unfoldable pub default : Config
unfolding codes
default = record {
  host = codes "0.0.0.0";
  port = pos 0;
  ports_file_dir = none;
  server_name = none;
  max_payload = 1024 * 1024;
  max_pending = 64 * 1024 * 1024;
  max_control_line = 4096;
  max_connections = pos (64 * 1024);
  ping_interval = 120 * seconds;
  write_deadline = 10 * seconds;
  debug = false;
  trace = false;
}

unfoldable pub bind_port_of : ℤ → ℤ
bind_port_of (pos n) = if n == 0 then default_port else pos n
bind_port_of (negsuc n) = negsuc n

unfoldable pub bind_port : Config → ℤ
unfolding bind_port_of
bind_port cfg = bind_port_of cfg.port

unfoldable pub validate : Config → Checked Config
validate cfg =
    if ltb cfg.max_pending cfg.max_payload
    then bail (payload_above_pending cfg.max_payload cfg.max_pending)
    else ok cfg
