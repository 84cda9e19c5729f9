-- ===== src/Server/Info/Reader.antt =====
-- A reader of JSON strings by RFC 8259, for what `push_str` of crates/server/src/info.rs writes.
use nats_server_rs.Prelude.{
  ℕ, ◌+◌, ◌-◌, ◌*◌, ◌^◌, ◌&&◌, ◌||◌, Bool, Option, none, some, [], ◌∷◌, Bytes, ltb, leb, ◌==◌,
  if◌then◌else◌, ◌≡◌,
}
use nats_server_rs.Config.Strings.{Text}

-- A hexadecimal digit, and its value.
unfoldable pub is_hex : ℕ → Bool
is_hex h = (leb b'0' h && leb h b'9') || ((leb b'a' h && leb h b'f') || (leb b'A' h && leb h b'F'))

abbrev pub unhex : ℕ → ℕ
unhex h = if leb h b'9' then h - b'0' else if leb h b'F' then h + 10 - b'A' else h + 10 - b'a'

unfoldable pub read_hex : Bytes → Option (ℕ × Bytes)
unfolding is_hex
read_hex (a ∷ b ∷ d ∷ e ∷ s) =
    if (is_hex a && is_hex b) && (is_hex d && is_hex e)
    then some (unhex a * 4096 + unhex b * 256 + unhex d * 16 + unhex e, s)
    else none
read_hex _ = none

-- What stands behind a backslash.
unfoldable pub read_escape : Bytes → Option (ℕ × Bytes)
unfolding read_hex
read_escape [] = none
read_escape (c ∷ s) =
    if c == b'"' || (c == 92 || c == b'/')
    then some (c, s)
    else if c == b'b'
    then some (8, s)
    else if c == b'f'
    then some (12, s)
    else if c == b'n'
    then some (10, s)
    else if c == b'r'
    then some (13, s)
    else if c == b't'
    then some (9, s)
    else if c == b'u'
    then read_hex s
    else none

-- A character in UTF-8, by the head of its first byte; the others are in 0x80 to 0xBF.
unfoldable pub is_tail : ℕ → Bool
is_tail b = leb 0x80 b && ltb b 0xC0

-- A code point that needs so many bytes: at least `low`, and one that there is.
unfoldable pub code_point : ℕ → ℕ → Bytes → Option (ℕ × Bytes)
code_point low c s = if leb low c && ltb c 0x110000 then some (c, s) else none

unfoldable pub two_bytes : ℕ → Bytes → Option (ℕ × Bytes)
unfolding is_tail code_point
two_bytes a (b ∷ s) = if is_tail b then code_point 0x80 (a * 2 ^ 6 + (b - 0x80)) s else none
two_bytes a _ = none

unfoldable pub three_bytes : ℕ → Bytes → Option (ℕ × Bytes)
unfolding is_tail code_point
three_bytes a (b ∷ c ∷ s) =
    if is_tail b && is_tail c
    then code_point 0x800 (a * 2 ^ 12 + (b - 0x80) * 2 ^ 6 + (c - 0x80)) s
    else none
three_bytes a _ = none

unfoldable pub four_bytes : ℕ → Bytes → Option (ℕ × Bytes)
unfolding is_tail code_point
four_bytes a (b ∷ c ∷ d ∷ s) =
    if is_tail b && (is_tail c && is_tail d)
    then code_point 0x10000 (a * 2 ^ 18 + (b - 0x80) * 2 ^ 12 + (c - 0x80) * 2 ^ 6 + (d - 0x80)) s
    else none
four_bytes a _ = none

unfoldable pub read_utf8 : ℕ → Bytes → Option (ℕ × Bytes)
unfolding two_bytes three_bytes four_bytes
read_utf8 a s =
    if ltb a 0x80
    then some (a, s)
    else if ltb a 0xC0
    then none
    else if ltb a 0xE0
    then two_bytes (a - 0xC0) s
    else if ltb a 0xF0
    then three_bytes (a - 0xE0) s
    else if ltb a 0xF8
    then four_bytes (a - 0xF0) s
    else none

-- A character of a string by RFC 8259: neither its closing quote nor a control character that is not
-- escaped.
unfoldable pub read_char : Bytes → Option (ℕ × Bytes)
unfolding read_escape read_utf8
read_char [] = none
read_char (c ∷ s) =
    if c == b'"' || ltb c 0x20 then none else if c == 92 then read_escape s else read_utf8 c s

-- The characters of a string to its closing quote, and what is behind it.
pub data Reads : Bytes → Text → Bytes → Type 0 where
  closed : (rest : Bytes) → Reads (b'"' ∷ rest) [] rest
  more :
      {s s' : Bytes} {c : ℕ} {text : Text} {rest : Bytes}
      → read_char s ≡ some (c, s')
      → Reads s' text rest
      → Reads s (c ∷ text) rest
