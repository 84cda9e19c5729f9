-- ===== src/Proto/Line.antt =====
-- `parse_line` of crates/server/src/proto.rs and what it calls: one control line without its CRLF.
use nats_server_rs.Prelude.{
  ℕ, suc, ◌+◌, ◌-◌, ℤ, pos, negsuc, pos_part, ltb_ℤ, Bool, true, false, not, ◌&&◌, ◌||◌, Option,
  none, some, [], ◌∷◌, Bytes, ltb, leb, ◌==◌, length, is_empty, take, drop, if◌then◌else◌, codes,
}
use nats_server_rs.Proto.Types.{
  fatal, silent, unknown_op, max_payload_text, Result, ok, err, Limits, HpubOutcome, Event, Action,
}
use nats_server_rs.Proto.Size.{parse_size}
use nats_server_rs.Proto.Args.{Args, is_blank, slice}
use nats_server_rs.Proto.Args

-- `to_ascii_lowercase`
unfoldable pub to_lower : ℕ → ℕ
to_lower b = if leb b'A' b && leb b b'Z' then b + 32 else b

-- `zip` stops at the shorter of the two.
unfoldable pub fold_eq : Bytes → Bytes → Bool
unfolding to_lower
fold_eq (x ∷ a) (y ∷ b) = to_lower x == to_lower y && fold_eq a b
fold_eq _ _ = true

unfoldable pub eq_ignore : Bytes → Bytes → Bool
unfolding fold_eq
eq_ignore a b = length a == length b && fold_eq a b

unfoldable pub starts : Bytes → Bytes → Bool
unfolding eq_ignore
starts line prefix =
    leb (length prefix) (length line) && eq_ignore (take (length prefix) line) prefix

-- The index of the first blank, or the length: `position(..).unwrap_or(line.len())`.
unfoldable pub verb_end : Bytes → ℕ
unfolding is_blank
verb_end [] = 0
verb_end (b ∷ bs) = if is_blank b then 0 else suc (verb_end bs)

unfoldable pub suc_option : Option ℕ → Option ℕ
suc_option none = none
suc_option (some i) = some (suc i)

-- The index of the first byte that is no blank.
unfoldable pub arg_at : Bytes → Option ℕ
unfolding is_blank suc_option
arg_at [] = none
arg_at (b ∷ bs) = if is_blank b then suc_option (arg_at bs) else some 0

-- Where the reply and the sizes stand among the arguments; the subject is argument 0.
pub record Shape : Type 0 where
  pub reply : Option ℕ
  pub hdr : ℕ
  pub total : ℕ

unfoldable pub shape : Bool → ℕ → Option Shape
shape false n =
    if n == 2
    then some (record { reply = none; hdr = 1; total = 1 })
    else if n == 3
    then some (record { reply = some 1; hdr = 2; total = 2 })
    else none
shape true n =
    if n == 3
    then some (record { reply = none; hdr = 1; total = 2 })
    else if n == 4
    then some (record { reply = some 1; hdr = 2; total = 3 })
    else none

-- An argument list that describes no publish: for `HPUB` the answer is left to the client.
unfoldable pub refuse : Bool → Result Action
refuse true = ok (Action.event (Event.hpub_attempt HpubOutcome.args))
refuse false = err silent

unfoldable pub view_option : Args → Bytes → Option ℕ → Option Bytes
unfolding slice
view_option args line none = none
view_option args line (some i) = some (slice args line i)

-- The tests on the two sizes, in the order of the source.
unfoldable pub sized : Bool → Limits → Bytes → Option Bytes → ℤ → ℤ → Result Action
unfolding refuse
sized hpub lim subject reply hdr total =
    if ltb_ℤ hdr (pos 0) || ltb_ℤ total (pos 0) || ltb_ℤ total hdr
    then refuse hpub
    else if ltb lim.max_payload (pos_part total)
    then err (fatal max_payload_text)
    else ok (
        Action.body (record {
          subject = subject;
          reply = reply;
          hdr = pos_part hdr;
          need = pos_part total;
          hpub = hpub;
        }))

unfoldable pub pub_args : Bool → Limits → Bytes → Args → Option Shape → Result Action
unfolding sized view_option parse_size
pub_args hpub lim line args none = refuse hpub
pub_args hpub lim line args (some sh) =
    sized hpub lim (slice args line 0) (view_option args line sh.reply)
      (if hpub then parse_size (slice args line sh.hdr) else pos 0)
      (parse_size (slice args line sh.total))

unfoldable pub pub_line : Bytes → Bytes → Bool → Bool → Limits → Result Action
unfolding pub_args shape Args.of Args.count
pub_line line rest has_args hpub lim =
    if not has_args
    then err (fatal unknown_op)
    else let args = Args.of rest (length line - length rest) in
      pub_args hpub lim line args (shape hpub (Args.count args))

unfoldable pub sub_line : Bytes → Bytes → Bool → ℕ → Result Action
unfolding Args.of Args.count slice
sub_line line rest has_args end =
    if not has_args
    then err (fatal unknown_op)
    else let args = Args.of rest end in
      if Args.count args == 2
      then ok (Action.event (Event.subscribe (slice args line 0) none (slice args line 1)))
      else if Args.count args == 3
      then ok (
          Action.event
            (Event.subscribe (slice args line 0) (some (slice args line 1)) (slice args line 2)))
      else err silent

unfoldable pub unsub_line : Bytes → Bytes → Bool → ℕ → Result Action
unfolding Args.of Args.count slice parse_size
unsub_line line rest has_args end =
    if not has_args
    then err (fatal unknown_op)
    else let args = Args.of rest end in
      if Args.count args == 1
      then ok (Action.event (Event.unsubscribe (slice args line 0) (negsuc 0)))
      else if Args.count args == 2
      then ok
          (Action.event (Event.unsubscribe (slice args line 0) (parse_size (slice args line 1))))
      else err silent

-- `CONNECT` and `INFO` hand on what follows the verb and its blanks, here `tail` from `i` on.
unfoldable pub object_arg : (Bytes → Event) → Bytes → Option ℕ → Result Action
object_arg verb tail none = err silent
object_arg verb tail (some i) = ok (Action.event (verb (drop i tail)))

-- The `match` on the lower-cased first byte `c`; an arm that does not return falls through.
unfoldable pub dispatch : ℕ → Bytes → ℕ → Bytes → Bool → Limits → Result Action
unfolding starts eq_ignore arg_at pub_line sub_line unsub_line object_arg
dispatch c line end rest has_args lim =
    if c == b'p' && starts line (codes "PING")
    then ok (Action.event Event.ping)
    else if c == b'p' && starts line (codes "PONG")
    then ok (Action.event Event.pong)
    else if c == b'p' && end == 3 && eq_ignore (take 3 line) (codes "PUB")
    then pub_line line rest has_args false lim
    else if c == b'h' && end == 4 && eq_ignore (take 4 line) (codes "HPUB")
    then pub_line line rest has_args true lim
    else if c == b'c' && leb 7 (length line) && eq_ignore (take 7 line) (codes "CONNECT")
    then object_arg Event.connect (drop 7 line) (arg_at (drop 7 line))
    else if c == b'i' && leb 4 (length line) && eq_ignore (take 4 line) (codes "INFO")
    then object_arg Event.info (drop 4 line) (arg_at (drop 4 line))
    else if c == b'+' && end == 3 && eq_ignore (take 3 line) (codes "+OK")
    then ok (Action.event Event.client_ok)
    else if c == b'-' && end == 4 && eq_ignore (take 4 line) (codes "-ERR")
    then (if not has_args then err (fatal unknown_op) else ok (Action.event Event.client_err))
    else if c == b's' && end == 3 && eq_ignore (take 3 line) (codes "SUB")
    then sub_line line rest has_args end
    else if c == b'u' && end == 5 && eq_ignore (take 5 line) (codes "UNSUB")
    then unsub_line line rest has_args end
    else err (fatal unknown_op)

unfoldable pub parse_line : Bytes → Limits → Result Action
unfolding dispatch verb_end to_lower codes
parse_line [] lim = err (fatal unknown_op)
parse_line (b ∷ bs) lim =
    let line = b ∷ bs in
    let end = verb_end line in
    let rest = drop end line in dispatch (to_lower b) line end rest (not (is_empty rest)) lim
