-- ===== src/Wire/RoundTrip.antt =====
-- A publish that crates/core-it/src/wire.rs writes is the event that `feed_into` of
-- crates/server/src/proto.rs reads.
use nats_server_rs.Prelude.{
  ℕ, suc, ◌+◌, ◌-◌, ◌^◌, ◌≤◌, ◌<◌, Bool, true, false, Option, none, some, List, [], ◌∷◌, ◌++◌,
  append_assoc, Bytes, ltb, length, length-append, take, drop, take_all, take-append_of_le,
  drop-append_of_ge, if◌then◌else◌, arith, ◌≡◌, refl, sym, ap, ◌∙◌,
}
use nats_server_rs.Routing.Frame.{crlf}
use nats_server_rs.Proto.Types.{Limits, Event, Header, HpubOutcome}
use nats_server_rs.Proto.Parts.{new}
use nats_server_rs.Proto.Feed.{
  State, line, body, again, act, found_line, line_turn, starts_lf, slot, end_body, body_turn,
  published, turn, feed_loop, feed_into, settle,
}
use nats_server_rs.Proto.Feed.Progress.{feed_into_total, feed_loop_mono}
use nats_server_rs.Proto.Feed.Resume.{put, put-new-IsSingle}
use nats_server_rs.Proto.Feed.Chunks.{new_turn, full_turn}
use nats_server_rs.Wire.{pub_frame, hpub_frame}
use nats_server_rs.Wire.Frames.{IsToken, IsReply, asked}
use nats_server_rs.Wire.Published.{
  control, parse_line-control, find_crlf-control, pub_frame-control, hpub_frame-control,
}

take-append : (xs ys : Bytes) (n : ℕ) → n ≡ length xs → take n (xs ++ ys) ≡ xs
take-append xs ys n e = take-append_of_le n xs ys (omega arith) ∙ take_all n xs (omega arith)

drop-append : (xs ys : Bytes) (n : ℕ) → n ≡ length xs → drop n (xs ++ ys) ≡ ys
drop-append xs ys n e =
    drop-append_of_ge n xs ys (omega arith)
    ∙ ap (λ k. drop k ys) {x = n - length xs} {y = 0} (omega arith)

-- A body that is there whole, with its terminator.
body_turn-whole :
    (h : Header) (b rest : Bytes) (out : List Event)
    → length b ≡ h.need
    → body_turn h new (b ++ (crlf ++ rest)) out ≡ again line rest (out ++ published h b ∷ [])
unfolding slot end_body
body_turn-whole h b rest out full =
    let p = put new b in
    rw
      (
        new_turn h (b ++ (crlf ++ rest)) out,
        take-append b (crlf ++ rest) h.need (sym full),
        drop-append b (crlf ++ rest) h.need (sym full),
      )
      (full_turn h p (crlf ++ rest) out ((put-new-IsSingle b).got ∙ full)
        ∙ ap (λ (c : Bytes). again line rest (out ++ published h c ∷ []))
            (put-new-IsSingle b).content)

-- Two rounds that go on.
feed_into-two :
    (lim : Limits) (st st' st'' : State) (src src' src'' : Bytes) (out out' out'' : List Event)
    → turn lim st src out ≡ again st' src' out'
    → turn lim st' src' out' ≡ again st'' src'' out''
    → length src'' + 2 ≤ length src
    → feed_into lim st src out ≡ feed_into lim st'' src'' out''
unfolding feed_into feed_loop settle
feed_into-two lim st st' st'' src src' src'' out out' out'' e e' le =
    let (r, done) = feed_into_total lim st'' src'' out'' in
    let fuel : length src + 1 ≡ suc (suc (length src - 1)) = omega arith in
    rw (fuel, e, e')
      (feed_loop_mono (length src'' + 1) (length src - 1) lim st'' src'' out'' (omega arith) done
        ∙ sym done)

starts_lf-control :
    (hpub : Bool) (s : Bytes) (reply : Option Bytes) (h n : ℕ) (rest : Bytes)
    → starts_lf (control hpub s reply h n ++ rest) ≡ false
unfolding starts_lf
starts_lf-control false s reply h n rest = refl
starts_lf-control true s reply h n rest = refl

-- The batch behind the line.
abbrev pub begun : Bool → List Event → List Event
begun hpub out = if hpub then out ++ Event.hpub_attempt HpubOutcome.ok ∷ [] else out

line_turn-control :
    (lim : Limits) (hpub : Bool) (s : Bytes) (reply : Option Bytes) (h n : ℕ) (rest : Bytes)
    (out : List Event)
    → IsToken s
    → IsReply reply
    → h ≤ n
    → n < 10 ^ 9
    → n ≤ lim.max_payload
    → length (control hpub s reply h n) ≤ lim.max_control_line
    → line_turn lim (control hpub s reply h n ++ (crlf ++ rest)) out
      ≡ again (body (asked hpub s reply h n) new) rest (begun hpub out)
unfolding line_turn found_line act
line_turn-control lim hpub s reply h n rest out t r le small few fits =
    let c = control hpub s reply h n in
    let short : ltb lim.max_control_line (length c) ≡ false = ground arith in
    let behind : drop (length c + 2) (c ++ (crlf ++ rest)) ≡ rest =
      ap (drop (length c + 2)) (sym (append_assoc c crlf rest))
      ∙ drop-append (c ++ crlf) rest (length c + 2) (omega (arith, length-append c crlf)) in
    rw
      (
        starts_lf-control hpub s reply h n (crlf ++ rest),
        find_crlf-control hpub s reply h n rest t r (omega arith) small,
        short,
        take-append c (crlf ++ rest) (length c) refl,
        behind,
        parse_line-control hpub s reply h n lim t r le small few,
      )
      refl

-- A control line and its body, with what stands behind them.
control-published :
    (lim : Limits) (hpub : Bool) (s : Bytes) (reply : Option Bytes) (h : ℕ) (b rest : Bytes)
    (out : List Event)
    → IsToken s
    → IsReply reply
    → h ≤ length b
    → length b < 10 ^ 9
    → length b ≤ lim.max_payload
    → length (control hpub s reply h (length b)) ≤ lim.max_control_line
    → feed_into lim line (control hpub s reply h (length b) ++ (crlf ++ (b ++ (crlf ++ rest)))) out
      ≡ feed_into lim line rest
          (begun hpub out ++ published (asked hpub s reply h (length b)) b ∷ [])
unfolding turn
control-published lim hpub s reply h b rest out t r le small few fits =
    let c = control hpub s reply h (length b) in
    let hd = asked hpub s reply h (length b) in
    feed_into-two lim line (body hd new) line (c ++ (crlf ++ (b ++ (crlf ++ rest))))
      (b ++ (crlf ++ rest)) rest out _ _
      (line_turn-control lim hpub s reply h (length b) (b ++ (crlf ++ rest)) out t r le small few
        fits)
      (body_turn-whole hd b rest (begun hpub out) refl)
      (omega
        (arith, length-append c (crlf ++ (b ++ (crlf ++ rest))), length-append b (crlf ++ rest)))

abbrev pub is_some : Option Bytes → Bool
is_some none = false
is_some (some hdr) = true

-- A publish of the raw client, with a header block or without.
abbrev pub frame : Option Bytes → Bytes → Option Bytes → Bytes → Bytes
frame none s reply b = pub_frame s reply b
frame (some hdr) s reply b = hpub_frame s reply hdr b

-- What the sizes of the control line count.
abbrev pub head : Option Bytes → Bytes
head none = []
head (some hdr) = hdr

abbrev pub line_of : Option Bytes → Bytes → Option Bytes → Bytes → Bytes
line_of none s reply b = control false s reply 0 (length b)
line_of (some hdr) s reply b = control true s reply (length hdr) (length (hdr ++ b))

abbrev pub event_of : Option Bytes → Bytes → Option Bytes → Bytes → Event
event_of hdr s reply b = Event.publish (record {
  subject = s;
  reply = reply;
  hdr = length (head hdr);
  total = length (head hdr ++ b);
  body = head hdr ++ b;
  hpub = is_some hdr;
})

-- A publish that the test client writes, with a header block or without, is read by the parser as
-- that publish, with the same subject, reply, header size and body, and what stands behind it is
-- read on from there: if the subject and the reply are words without blank and CR, the header and
-- body together are below 10^9 bytes and within the payload limit, and the line is within its
-- limit.
pub feed_into-frame :
    (lim : Limits) (hdr : Option Bytes) (s : Bytes) (reply : Option Bytes) (b rest : Bytes)
    (out : List Event)
    → IsToken s
    → IsReply reply
    → length (head hdr ++ b) < 10 ^ 9
    → length (head hdr ++ b) ≤ lim.max_payload
    → length (line_of hdr s reply b) ≤ lim.max_control_line
    → feed_into lim line (frame hdr s reply b ++ rest) out
      ≡ feed_into lim line rest (begun (is_some hdr) out ++ event_of hdr s reply b ∷ [])
unfolding published
feed_into-frame lim none s reply b rest out t r small few fits =
    ap (λ src. feed_into lim line src out) (pub_frame-control s reply b rest)
    ∙ control-published lim false s reply 0 b rest out t r (omega arith) small few fits
feed_into-frame lim (some hdr) s reply b rest out t r small few fits =
    ap (λ src. feed_into lim line src out) (hpub_frame-control s reply hdr b rest)
    ∙ control-published lim true s reply (length hdr) (hdr ++ b) rest out t r
        (omega (arith, length-append hdr b)) small few fits
