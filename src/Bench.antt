-- ===== src/Bench.antt =====
-- The subscriber of crates/bench/src/bin/floodpubsub.rs: `next_frame`, and the loop over the frames that
-- one read has brought.
pub mod Messages
use nats_server_rs.Prelude.{
  ℕ, zero, suc, ◌+◌, ◌-◌, ◌%◌, ◌^◌, Bool, true, false, Option, none, some, List, [], ◌∷◌, ◌++◌,
  Bytes, ltb, leb, ◌==◌, equal, length, take, drop, if◌then◌else◌, codes, ◌||◌,
}
use nats_server_rs.Config.Strings.{Text, trim}
use nats_server_rs.Config.Number.{digits_value}

pub data Frame : Type 0 where
  message : ℕ → Frame
  ping : Frame
  skip : ℕ → Frame
  need_more : Frame
  err : Bytes → Frame

unfoldable pub next_place : Option ℕ → Option ℕ
next_place none = none
next_place (some n) = some (n + 1)

-- `iter().position(|b| *b == c)`
unfoldable pub position : ℕ → Bytes → Option ℕ
unfolding next_place
position c [] = none
position c (b ∷ s) = if b == c then some 0 else next_place (position c s)

-- `rsplit(|c| *c == b' ').next()`: `piece` starts behind the last blank that was met.
unfoldable pub last_piece : Bytes → Bytes → Bytes
last_piece piece [] = piece
last_piece piece (b ∷ s) = if b == b' ' then last_piece s s else last_piece piece s

-- `str::parse` of a `usize`.
unfoldable pub parse_usize : Text → Option ℕ
unfolding digits_value
parse_usize [] = none
parse_usize (c ∷ []) = if c == b'+' then none else digits_value 10 (2 ^ 64 - 1) 0 (c ∷ [])
parse_usize (c ∷ d ∷ s) =
    if c == b'+'
    then digits_value 10 (2 ^ 64 - 1) 0 (d ∷ s)
    else digits_value 10 (2 ^ 64 - 1) 0 (c ∷ d ∷ s)

unfoldable pub or_all : Bytes → Option ℕ → ℕ
or_all body none = length body
or_all body (some n) = n

-- `std::str::from_utf8` is given: the text that bytes spell.
module _ (from_utf8 : Bytes → Option Text) where
  unfoldable pub parsed_size : Option Text → Option ℕ
  unfolding parse_usize trim
  parsed_size none = none
  parsed_size (some d) = parse_usize (trim d)

  unfoldable pub message_of : Bytes → ℕ → Bytes → Option ℕ → Frame
  message_of src nl line none = err line
  message_of src nl line (some total) =
      let need = (nl + 1 + total + 2) % 2 ^ 64 in
      if ltb (length src) need then need_more else message need

  unfoldable pub framed : Bytes → ℕ → Bytes → Bytes → ℕ → Frame
  unfolding message_of parsed_size last_piece codes
  framed src nl line body verb_len =
      let verb = take verb_len body in
      let behind = drop verb_len body in
      if equal verb (codes "MSG") || equal verb (codes "HMSG")
      then message_of src nl line (parsed_size (from_utf8 (last_piece behind behind)))
      else if equal verb (codes "PING")
      then ping
      else if equal verb (codes "-ERR")
      then err line
      else skip (nl + 1)

  unfoldable pub at_line_end : Bytes → Option ℕ → Frame
  unfolding framed position or_all
  at_line_end src none = need_more
  at_line_end src (some nl) =
      let line = take (nl + 1) src in
      let body = take (nl - 1) line in framed src nl line body (or_all body (position b' ' body))

  unfoldable pub next_frame : Bytes → Frame
  unfolding at_line_end position
  next_frame src = at_line_end src (position 10 src)
