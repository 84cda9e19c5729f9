-- ===== src/Proto/Feed/Progress.antt =====
-- The loop of `feed_into` in crates/server/src/proto.rs ends: each round that goes on consumes bytes.
use nats_server_rs.Prelude.{
  ℕ, zero, suc, ◌+◌, ◌-◌, ◌≤◌, ◌<◌, min, Bool, true, false, Option, none, some, List, [], ◌∷◌, ◌≡◌,
  refl, inl, inr, Bytes, length, take, drop, length-drop, ltb, Option-cases, arith, if◌then◌else◌,
}
use nats_server_rs.Proto.Types.{Limits, Event, Header, Result}
use nats_server_rs.Proto.Types
use nats_server_rs.Proto.Parts.{Parts}
use nats_server_rs.Proto.Parts
use nats_server_rs.Proto.Line.{parse_line}
use nats_server_rs.Proto.Feed.{
  State, line, body, Turn, again, waits, stops, fails, find_crlf, act, found_line, line_turn, Slot,
  slot, end_body, taken_body, body_turn, turn, Fed, settle, feed_loop, feed_into, hpub_frame_error,
}

pub find_crlf-le : (src : Bytes) (at : ℕ) → find_crlf src ≡ some at → at + 2 ≤ length src
unfolding find_crlf
find_crlf-le [] at h = cc
find_crlf-le (b ∷ []) at h = cc
find_crlf-le (b ∷ c ∷ bs) at h = elim (Option-cases (find_crlf (c ∷ bs))) [
  | inl e ↦ ground (arith, e)
  | inr (i, e) ↦ ground (arith, e, find_crlf-le (c ∷ bs) i e)
]

-- How much shorter the unread bytes are after a round that goes on.
abbrev pub Shrinks : ℕ → Turn → Type 0
Shrinks n (again st src out) = length src + 2 ≤ n
Shrinks n (waits st src out) = Unit
Shrinks n (stops st src out) = Unit
Shrinks n (fails e out) = Unit

act-Shrinks :
    (n : ℕ) (r : Result Types.Action) (src : Bytes) (out : List Event)
    → length src + 2 ≤ n
    → Shrinks n (act r src out)
unfolding act
act-Shrinks n (Result.err e) src out h = tt
act-Shrinks n (Result.ok (Types.Action.event (Event.hpub_attempt Types.HpubOutcome.args))) src out
      h =
    tt
act-Shrinks n (Result.ok (Types.Action.event ev)) src out h = h
act-Shrinks n (Result.ok (Types.Action.body hd)) src out h = h

found_line-Shrinks :
    (lim : Limits) (src : Bytes) (out : List Event) (found : Option ℕ)
    → ((at : ℕ) → found ≡ some at → at + 2 ≤ length src)
    → Shrinks (length src) (found_line lim src out found)
unfolding found_line
found_line-Shrinks lim src out none h = ground arith
found_line-Shrinks lim src out (some at) h =
    let acted =
      act-Shrinks (length src) (parse_line (take at src) lim) (drop (at + 2) src) out
        (omega (arith, length-drop (at + 2) src, h at refl)) in
    ground (arith, acted)

line_turn-Shrinks :
    (lim : Limits) (src : Bytes) (out : List Event) → Shrinks (length src) (line_turn lim src out)
unfolding line_turn
line_turn-Shrinks lim src out =
    ground (arith, found_line-Shrinks lim src out (find_crlf src) (find_crlf-le src))

pub slot-crlf : (src : Bytes) → slot src ≡ Slot.crlf → 2 ≤ length src
unfolding slot
slot-crlf [] h = cc
slot-crlf (b ∷ []) h = ground arith
slot-crlf (b ∷ c ∷ bs) h = omega arith

frame_error-Shrinks :
    (n : ℕ) (hpub : Bool) (st : State) (src : Bytes) (out : List Event)
    → Shrinks n (hpub_frame_error hpub st src out)
unfolding hpub_frame_error
frame_error-Shrinks n true st src out = tt
frame_error-Shrinks n false st src out = tt

end_body-Shrinks :
    (n : ℕ) (h : Header) (p : Parts) (src : Bytes) (out : List Event) (s : Slot)
    → length src ≤ n
    → (s ≡ Slot.crlf → 2 ≤ length src)
    → Shrinks n (end_body h p src out s)
unfolding end_body
end_body-Shrinks n h p src out Slot.short le two = tt
end_body-Shrinks n h p src out Slot.broken le two = frame_error-Shrinks n h.hpub (body h p) src out
end_body-Shrinks n h p src out Slot.crlf le two = omega (arith, length-drop 2 src, two refl)

taken_body-Shrinks :
    (n : ℕ) (h : Header) (p : Parts) (src : Bytes) (out : List Event)
    → length src ≤ n
    → Shrinks n (taken_body h p src out)
unfolding taken_body
taken_body-Shrinks n h p src out le =
    ground (arith, end_body-Shrinks n h p src out (slot src) le (slot-crlf src))

body_turn-Shrinks :
    (h : Header) (p : Parts) (src : Bytes) (out : List Event)
    → Shrinks (length src) (body_turn h p src out)
unfolding body_turn
body_turn-Shrinks h p src out =
    let n = min (h.need - p.got) (length src) in
    taken_body-Shrinks (length src) h (if ltb 0 n then Parts.push p (take n src) else p)
      (drop n src) out (omega (arith, length-drop n src))

pub turn-Shrinks :
    (lim : Limits) (st : State) (src : Bytes) (out : List Event)
    → Shrinks (length src) (turn lim st src out)
unfolding turn
turn-Shrinks lim line src out = line_turn-Shrinks lim src out
turn-Shrinks lim (body h p) src out = body_turn-Shrinks h p src out

settle_total :
    (n : ℕ) (loop : State → Bytes → List Event → Option Fed) (t : Turn)
    → Shrinks n t
    → ((st : State) (src : Bytes) (out : List Event)
        → length src + 2 ≤ n
        → (r : Fed) × (loop st src out ≡ some r))
    → (r : Fed) × (settle loop t ≡ some r)
unfolding settle
settle_total n loop (again st src out) h k = k st src out h
settle_total n loop (waits st src out) h k = (_, refl)
settle_total n loop (stops st src out) h k = (_, refl)
settle_total n loop (fails e out) h k = (_, refl)

feed_loop_total :
    (fuel : ℕ) (lim : Limits) (st : State) (src : Bytes) (out : List Event)
    → length src < fuel
    → (r : Fed) × (feed_loop fuel lim st src out ≡ some r)
unfolding feed_loop
feed_loop_total zero lim st src out h = absurd (omega arith)
feed_loop_total (suc fuel) lim st src out h =
    settle_total (length src) (feed_loop fuel lim) (turn lim st src out)
      (turn-Shrinks lim st src out)
      λ st' src' out' le. feed_loop_total fuel lim st' src' out' (omega arith)

-- Whatever the state and the bytes, `feed_into` returns: the loop never runs out of its fuel.
pub feed_into_total :
    (lim : Limits) (st : State) (src : Bytes) (out : List Event)
    → (r : Fed) × (feed_into lim st src out ≡ some r)
unfolding feed_into
feed_into_total lim st src out = feed_loop_total (length src + 1) lim st src out (omega arith)

settle_mono :
    (loop loop' : State → Bytes → List Event → Option Fed) (t : Turn) {r : Fed}
    → ((st : State) (src : Bytes) (out : List Event)
        → loop st src out ≡ some r
        → loop' st src out ≡ some r)
    → settle loop t ≡ some r
    → settle loop' t ≡ some r
unfolding settle
settle_mono loop loop' (again st src out) k h = k st src out h
settle_mono loop loop' (waits st src out) k h = h
settle_mono loop loop' (stops st src out) k h = h
settle_mono loop loop' (fails e out) k h = h

-- More fuel changes nothing once the loop has ended.
pub feed_loop_mono :
    (fuel fuel' : ℕ) (lim : Limits) (st : State) (src : Bytes) (out : List Event) {r : Fed}
    → fuel ≤ fuel'
    → feed_loop fuel lim st src out ≡ some r
    → feed_loop fuel' lim st src out ≡ some r
unfolding feed_loop
feed_loop_mono zero fuel' lim st src out le h = cc
feed_loop_mono (suc fuel) zero lim st src out le h = absurd (omega arith)
feed_loop_mono (suc fuel) (suc fuel') lim st src out le h =
    settle_mono (feed_loop fuel lim) (feed_loop fuel' lim) (turn lim st src out)
      (λ st' src' out' e. feed_loop_mono fuel fuel' lim st' src' out' (omega arith) e) h
