-- ===== src/Config/File.antt =====
-- `parse_config` of crates/server/src/config.rs and the parsers of its values.
pub mod Refused
use nats_server_rs.Prelude.{
  ℕ, suc, ◌+◌, ◌*◌, ◌%◌, ◌^◌, Bool, true, false, ◌||◌, Option, none, some, List, [], ◌∷◌, ◌++◌,
  ◌==◌, equal, is_empty, if◌then◌else◌, ℤ, codes,
}
use nats_server_rs.Config.Strings.{
  Text, trim, trim_by, trim_end_by, before, split_once, lines, strip_prefix,
}
use nats_server_rs.Config.Number.{from_str_radix, i64_max, parse_i64, as_u64, as_i32}
use nats_server_rs.Config.Duration.{Float, seconds, parse_duration_str}
use nats_server_rs.Config.{
  ConfigError, expected_key, unknown_field, expected_integer, expected_boolean, invalid_duration,
  Checked, ok, bail, ◌>>=◌, Config, default,
}

unfoldable pub unquote : Text → Text
unfolding trim trim_by trim_end_by
unquote v = trim_by (λ c. c == b'"' || c == 39) (trim (trim_end_by (λ c. c == b',') (trim v)))

unfoldable pub or_else : Option Text → Option Text → Option Text
or_else none other = other
or_else (some s) other = some s

unfoldable pub integer_or : Text → Option ℤ → Checked ℤ
integer_or s none = bail (expected_integer s)
integer_or s (some z) = ok z

unfoldable pub parse_unquoted : Text → Option Text → Checked ℤ
unfolding integer_or from_str_radix parse_i64
parse_unquoted s (some hex) = integer_or s (from_str_radix 16 i64_max hex)
parse_unquoted s none = integer_or s (parse_i64 s)

unfoldable pub parse_int : Text → Checked ℤ
unfolding parse_unquoted or_else strip_prefix unquote codes
parse_int v =
    let s = unquote v in
    parse_unquoted s (or_else (strip_prefix (codes "0x") s) (strip_prefix (codes "0X") s))

unfoldable pub parse_bool : Text → Checked Bool
unfolding unquote equal codes
parse_bool v =
    let s = unquote v in
    if equal s (codes "true") || equal s (codes "on") || equal s (codes "yes")
    then ok true
    else if equal s (codes "false") || equal s (codes "off") || equal s (codes "no")
    then ok false
    else bail (expected_boolean s)

unfoldable pub starts_quoted : Text → Bool
starts_quoted [] = false
starts_quoted (c ∷ s) = c == b'"' || c == 39

-- The configuration so far, and the fields that draw a warning.
pub record Parsed : Type 0 where
  pub cfg : Config
  pub warnings : List Text

unfoldable pub duration_or : Text → Text → Option ℕ → Checked ℕ
duration_or field s none = bail (invalid_duration field s)
duration_or field s (some d) = ok d

module _ (float : Float) where
  -- A value that is not quoted: whole seconds draw a warning.
  unfoldable pub plain_duration : Text → Text → List Text → Option ℤ → Checked (ℕ × List Text)
  unfolding duration_or parse_duration_str as_u64
  plain_duration field s warnings (some secs) = ok (as_u64 secs * seconds, warnings ++ field ∷ [])
  plain_duration field s warnings none =
      duration_or field s (parse_duration_str float s) >>= λ d. ok (d, warnings)

  unfoldable pub parse_duration : Text → Text → List Text → Checked (ℕ × List Text)
  unfolding plain_duration unquote trim starts_quoted parse_i64
  parse_duration v field warnings =
      let s = unquote v in
      if starts_quoted (trim v)
      then duration_or field s (parse_duration_str float s) >>= (λ d. ok (d, warnings))
      else plain_duration field s warnings (parse_i64 s)

  -- The arms of the `match` on a key.
  unfoldable pub set_key : Text → Text → Parsed → Checked Parsed
  unfolding unquote parse_int parse_bool parse_duration as_i32 as_u64 equal codes
  set_key key v p =
      let c = p.cfg in
      if equal key (codes "host")
      then ok (record p { cfg = record c { host = unquote v } })
      else if equal key (codes "port")
      then parse_int v >>= (λ z. ok (record p { cfg = record c { port = as_i32 z } }))
      else if equal key (codes "server_name") || equal key (codes "name")
      then ok (record p { cfg = record c { server_name = some (unquote v) } })
      else if equal key (codes "max_payload")
      then parse_int v >>= (λ z. ok (record p { cfg = record c { max_payload = as_u64 z } }))
      else if equal key (codes "max_pending")
      then parse_int v >>= (λ z. ok (record p { cfg = record c { max_pending = as_u64 z } }))
      else if equal key (codes "max_control_line")
      then parse_int v >>= (λ z. ok (record p { cfg = record c { max_control_line = as_u64 z } }))
      else if equal key (codes "max_connections") || equal key (codes "max_conn")
      then parse_int v >>= (λ z. ok (record p { cfg = record c { max_connections = z } }))
      else if equal key (codes "ping_interval")
      then parse_duration v key p.warnings
        >>= (λ r. ok (record { cfg = record c { ping_interval = r.0 }; warnings = r.1 }))
      else if equal key (codes "write_deadline")
      then parse_duration v key p.warnings
        >>= (λ r. ok (record { cfg = record c { write_deadline = r.0 }; warnings = r.1 }))
      else if equal key (codes "debug")
      then parse_bool v >>= (λ b. ok (record p { cfg = record c { debug = b } }))
      else if equal key (codes "trace")
      then parse_bool v >>= (λ b. ok (record p { cfg = record c { trace = b } }))
      else bail (unknown_field key)

  unfoldable pub key_value : ℕ → Option (Text × Text) → Parsed → Checked Parsed
  unfolding set_key trim trim_by
  key_value idx none p = bail (expected_key (idx + 1))
  key_value idx (some (key, v)) p = set_key (trim_by (λ c. c == b'"') (trim key)) v p

  -- One line: a comment is cut off, and a line that is empty then is passed over.
  unfoldable pub config_line : ℕ → Text → Parsed → Checked Parsed
  unfolding key_value trim before split_once
  config_line idx raw p =
      let line = trim (before b'#' raw) in
      if is_empty line then ok p else key_value idx (split_once b':' line) p

  unfoldable pub config_lines : ℕ → List Text → Parsed → Checked Parsed
  unfolding config_line
  config_lines idx [] p = ok p
  config_lines idx (raw ∷ raws) p = config_line idx raw p >>= config_lines (suc idx) raws

  -- `parse_config`
  unfoldable pub parse_config : Text → Checked Parsed
  unfolding config_lines lines
  parse_config text = config_lines 0 (lines text) (record { cfg = default; warnings = [] })
