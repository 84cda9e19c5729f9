-- ===== src/Proto/Feed.antt =====
-- `Parser::feed_into` of crates/server/src/proto.rs: complete operations are consumed from `src`, and
-- anything incomplete is left there or in the parser's state.
pub mod Progress
pub mod Bounds
pub mod Sizes
pub mod Monotone
pub mod Resume
pub mod Chunks
pub mod Stream
pub mod Failed
pub mod Reads
use nats_server_rs.Prelude.{
  ℕ, zero, suc, ◌+◌, ◌-◌, ◌*◌, min, Bool, true, false, Option, none, some, List, [], ◌∷◌, ◌++◌,
  Bytes, ltb, ◌==◌, length, take, drop, if◌then◌else◌,
}
use nats_server_rs.Proto.Types.{
  ProtoError, fatal, unknown_op, max_control_line_text, Result, Limits, HpubOutcome, Event, Header,
  Action,
}
use nats_server_rs.Proto.Types
use nats_server_rs.Proto.Parts.{Parts, own, take_body}
use nats_server_rs.Proto.Parts
use nats_server_rs.Proto.Line.{parse_line}

pub data State : Type 0 where
  line : State
  body : Header → Parts → State

-- What one round of the loop does: go round again, return `Ok(())`, or return an error. The first
-- `Ok(())` waits for more bytes; the second ends the batch at an `HPUB` that the client must judge.
pub data Turn : Type 0 where
  again : State → Bytes → List Event → Turn
  waits : State → Bytes → List Event → Turn
  stops : State → Bytes → List Event → Turn
  fails : ProtoError → List Event → Turn

-- `find_crlf`
unfoldable pub suc_found : Option ℕ → Option ℕ
suc_found none = none
suc_found (some i) = some (suc i)

unfoldable pub find_crlf : Bytes → Option ℕ
unfolding suc_found
find_crlf [] = none
find_crlf (b ∷ []) = none
find_crlf (b ∷ c ∷ bs) =
    if b == 13
    then (if c == 10 then some 0 else suc_found (find_crlf (c ∷ bs)))
    else suc_found (find_crlf (c ∷ bs))

pub own_option : Option Bytes → Option Bytes
unfolding own
own_option none = none
own_option (some b) = some (own b)

-- `hoist(&mut self.state)`
unfoldable pub hoist : State → State
unfolding own_option Parts.hoist
hoist line = line
hoist (body h p) =
    body (record h { subject = own h.subject; reply = own_option h.reply }) (Parts.hoist p)

-- A body that did not end where the frame said it would.
unfoldable pub hpub_frame_error : Bool → State → Bytes → List Event → Turn
hpub_frame_error true st src out =
    stops st src (out ++ Event.hpub_attempt (HpubOutcome.frame unknown_op) ∷ [])
hpub_frame_error false st src out = fails (fatal unknown_op) out

-- The arms of the `match` on the action, `src` standing behind the line.
unfoldable pub act : Result Action → Bytes → List Event → Turn
act (Result.err e) src out = fails e out
act (Result.ok (Action.event (Event.hpub_attempt HpubOutcome.args))) src out =
    stops line src (out ++ Event.hpub_attempt HpubOutcome.args ∷ [])
act (Result.ok (Action.event ev)) src out = again line src (out ++ ev ∷ [])
act (Result.ok (Action.body h)) src out =
    again (body h Parts.new) src
      (if h.hpub then out ++ Event.hpub_attempt HpubOutcome.ok ∷ [] else out)

unfoldable pub found_line : Limits → Bytes → List Event → Option ℕ → Turn
unfolding act parse_line
found_line lim src out none =
    if ltb (lim.max_control_line * 16) (length src)
    then fails (fatal max_control_line_text) out
    else waits line src out
found_line lim src out (some at) =
    if ltb lim.max_control_line at
    then fails (fatal max_control_line_text) out
    else act (parse_line (take at src) lim) (drop (at + 2) src) out

-- `matches!(src.first(), Some(b'\n'))`
unfoldable pub starts_lf : Bytes → Bool
starts_lf [] = false
starts_lf (b ∷ bs) = b == 10

unfoldable pub line_turn : Limits → Bytes → List Event → Turn
unfolding found_line find_crlf starts_lf
line_turn lim src out =
    if starts_lf src then fails (fatal unknown_op) out else found_line lim src out (find_crlf src)

-- What stands in the terminator's slot: too little to tell, a CRLF, or something else.
pub data Slot : Type 0 where
  short crlf broken : Slot

unfoldable pub slot : Bytes → Slot
slot [] = Slot.short
slot (b ∷ []) = if b == 13 then Slot.short else Slot.broken
slot (b ∷ c ∷ bs) = if b == 13 then (if c == 10 then Slot.crlf else Slot.broken) else Slot.broken

unfoldable pub published : Header → Bytes → Event
published h b = Event.publish (record {
  subject = h.subject;
  reply = h.reply;
  hdr = h.hdr;
  total = length b;
  body = b;
  hpub = h.hpub;
})

unfoldable pub end_body : Header → Parts → Bytes → List Event → Slot → Turn
unfolding hoist hpub_frame_error published take_body
end_body h p src out Slot.short = waits (hoist (body h p)) src out
end_body h p src out Slot.broken = hpub_frame_error h.hpub (body h p) src out
end_body h p src out Slot.crlf = again line (drop 2 src) (out ++ published h (take_body p) ∷ [])

-- Behind the split: `parts.got < *need` waits for more.
unfoldable pub taken_body : Header → Parts → Bytes → List Event → Turn
unfolding end_body slot
taken_body h p src out =
    if ltb p.got h.need then waits (hoist (body h p)) src out else end_body h p src out (slot src)

unfoldable pub body_turn : Header → Parts → Bytes → List Event → Turn
unfolding taken_body Parts.push
body_turn h p src out =
    let n = min (h.need - p.got) (length src) in
    taken_body h (if ltb 0 n then Parts.push p (take n src) else p) (drop n src) out

unfoldable pub turn : Limits → State → Bytes → List Event → Turn
unfolding line_turn body_turn
turn lim line src out = line_turn lim src out
turn lim (body h p) src out = body_turn h p src out

-- What a call of `feed_into` leaves: the state, the unread bytes, the batch, and its result. The
-- first two are `Ok(())`.
pub data Fed : Type 0 where
  waiting : State → Bytes → List Event → Fed
  stopped : State → Bytes → List Event → Fed
  failed : ProtoError → List Event → Fed

unfoldable pub settle : (State → Bytes → List Event → Option Fed) → Turn → Option Fed
settle loop (again st src out) = loop st src out
settle loop (waits st src out) = some (waiting st src out)
settle loop (stops st src out) = some (stopped st src out)
settle loop (fails e out) = some (failed e out)

-- The loop on fuel; `none` means that the fuel ran out.
unfoldable pub feed_loop : ℕ → Limits → State → Bytes → List Event → Option Fed
unfolding settle turn
feed_loop zero lim st src out = none
feed_loop (suc fuel) lim st src out = settle (feed_loop fuel lim) (turn lim st src out)

-- Each round but the last consumes two bytes at least.
unfoldable pub feed_into : Limits → State → Bytes → List Event → Option Fed
unfolding feed_loop
feed_into lim st src out = feed_loop (length src + 1) lim st src out

-- `feed`
unfoldable pub feed : Limits → State → Bytes → Option Fed
unfolding feed_into
feed lim st src = feed_into lim st src []
