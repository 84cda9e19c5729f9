-- ===== src/Proto/Feed/Sizes.antt =====
-- The sizes of what `feed_into` of crates/server/src/proto.rs hands on, and of what it holds.
use nats_server_rs.Prelude.{
  ℕ, zero, suc, ◌+◌, ◌-◌, ◌≤◌, min, Bool, true, false, Option, none, some, List, [], ◌∷◌, ◌++◌, ◌≡◌,
  refl, sym, ap, ◌∙◌, Bytes, All, All-append, length, length-append, length-take, take, drop, ltb,
  subst, ltb-false→le, Bool-cases, inl, inr, arith, if◌then◌else◌,
}
use nats_server_rs.Proto.Types.{Limits, Event, Header, Publish, Result, Action, HpubOutcome}
use nats_server_rs.Proto.Parts.{Parts, new, push, concat, assemble, take_body}
use nats_server_rs.Proto.Parts
use nats_server_rs.Proto.Parts.Order.{take_body-hoist, assemble-concat, concat-append}
use nats_server_rs.Proto.Line.{parse_line}
use nats_server_rs.Proto.Feed.{
  State, line, body, Turn, again, waits, stops, fails, Slot, slot, act, found_line, line_turn,
  find_crlf, end_body, taken_body, body_turn, turn, hpub_frame_error, hoist, published, Fed,
  waiting, stopped, failed, settle, feed_loop, feed_into,
}
use nats_server_rs.Proto.Feed.Progress.{feed_into_total}
use nats_server_rs.Proto.Feed.Resume.{hoist_body, got-hoist}
use nats_server_rs.Proto.Feed.Bounds.{IsHeader, IsAction, NotPublish, parse_line-IsAction}

-- A publish: its total is the length of its body, the header block lies in the body, and the body
-- within the limit.
pub record IsPublish (lim : Limits) (e : Publish) : Type 0 where
  pub total_is : e.total ≡ length e.body
  pub within : e.hdr ≤ e.total
  pub limited : e.total ≤ lim.max_payload

abbrev pub IsEvent : Limits → Event → Type 0
IsEvent lim (Event.publish e) = IsPublish lim e
IsEvent lim _ = Unit

-- A body that is begun: `got` counts the bytes of its pieces, and they are not more than needed.
pub record IsBegun (lim : Limits) (h : Header) (p : Parts) : Type 0 where
  pub header : IsHeader lim h
  pub counted : p.got ≡ length (take_body p)
  pub enough : p.got ≤ h.need

abbrev pub IsState : Limits → State → Type 0
IsState lim line = Unit
IsState lim (body h p) = IsBegun lim h p

length-concat :
    (b : Bytes) (rest : List Bytes)
    → length (assemble (some b) rest) ≡ length b + length (concat rest)
unfolding assemble
length-concat b [] = unfold concat in omega arith
length-concat b (r ∷ rest) = length-append b (concat (r ∷ rest))

length-assemble_push :
    (first : Option Bytes) (rest : List Bytes) (b : Bytes)
    → length (assemble (Parts.place first rest b).0 (Parts.place first rest b).1)
      ≡ length (assemble first rest) + length b
unfolding Parts.place
length-assemble_push none rest b =
    omega (arith, length-concat b rest, ap length (assemble-concat rest))
length-assemble_push (some f) rest b = omega (
  arith,
  length-concat f rest,
  ap length (assemble-concat (rest ++ (f ∷ b ∷ []))),
  ap length (concat-append rest (f ∷ b ∷ [])),
  length-append (concat rest) (concat (f ∷ b ∷ [])),
  two f b,
)
  where
    two : (f b : Bytes) → length (concat (f ∷ b ∷ [])) ≡ length f + length b
    two f b = unfold concat in omega (arith, length-append f (b ++ []), length-append b [])

push_counted :
    (p : Parts) (b : Bytes)
    → p.got ≡ length (take_body p)
    → (push p b).got ≡ length (take_body (push p b))
unfolding push take_body
push_counted p b h = omega (arith, length-assemble_push p.first p.rest b)

hoist-IsBegun :
    (lim : Limits) (h : Header) (p : Parts) → IsBegun lim h p → IsBegun lim h (Parts.hoist p)
hoist-IsBegun lim h p v = record {
  header = v.header;
  counted = got-hoist p ∙ v.counted ∙ ap length (sym (take_body-hoist p));
  enough = omega (arith, got-hoist p, v.enough);
}

abbrev IsTurn : Limits → Turn → Type 0
IsTurn lim (again st src out) = IsState lim st × All (IsEvent lim) out
IsTurn lim (waits st src out) = IsState lim st × All (IsEvent lim) out
IsTurn lim (stops st src out) = IsState lim st × All (IsEvent lim) out
IsTurn lim (fails e out) = All (IsEvent lim) out

abbrev pub IsFed : Limits → Fed → Type 0
IsFed lim (waiting st src out) = IsState lim st × All (IsEvent lim) out
IsFed lim (stopped st src out) = IsState lim st × All (IsEvent lim) out
IsFed lim (failed e out) = All (IsEvent lim) out

some_inj : {r r' : Fed} → some r ≡ some r' → r ≡ r'
some_inj h = cc

module _ (lim : Limits) where
  one_more :
      (out : List Event) (ev : Event)
      → All (IsEvent lim) out
      → IsEvent lim ev
      → All (IsEvent lim) (out ++ ev ∷ [])
  one_more out ev h e = All-append (IsEvent lim) out (ev ∷ []) h (e, tt)

  plain : (ev : Event) → NotPublish ev → IsEvent lim ev
  plain (Event.publish e) n = absurd n
  plain _ n = tt

  act-IsTurn :
      (r : Result Action) (src : Bytes) (out : List Event)
      → IsAction lim r
      → All (IsEvent lim) out
      → IsTurn lim (act r src out)
  unfolding act
  act-IsTurn (Result.err e) src out a h = h
  act-IsTurn (Result.ok (Action.event (Event.hpub_attempt HpubOutcome.args))) src out a h =
      (tt, one_more out _ h tt)
  act-IsTurn (Result.ok (Action.event ev)) src out (IsAction.event _ n) h =
      (tt, one_more out ev h (plain ev n))
  act-IsTurn (Result.ok (Action.body hd)) src out (IsAction.body _ v) h = (
    record { header = v; counted = unfold take_body in refl; enough = omega arith },
    announced hd.hpub,
  )
    where
      announced :
          (hpub : Bool)
          → All (IsEvent lim) (if hpub then out ++ Event.hpub_attempt HpubOutcome.ok ∷ [] else out)
      announced true = one_more out _ h tt
      announced false = h

  found_line-IsTurn :
      (src : Bytes) (out : List Event) (found : Option ℕ)
      → All (IsEvent lim) out
      → IsTurn lim (found_line lim src out found)
  unfolding found_line
  found_line-IsTurn src out none h = ground arith
  found_line-IsTurn src out (some at) h =
      let r = parse_line (take at src) lim in
      ground (arith, act-IsTurn r (drop (at + 2) src) out (parse_line-IsAction lim (take at src)) h)

  line_turn-IsTurn :
      (src : Bytes) (out : List Event) → All (IsEvent lim) out → IsTurn lim (line_turn lim src out)
  unfolding line_turn
  line_turn-IsTurn src out h = ground (arith, found_line-IsTurn src out (find_crlf src) h)

  frame_error-IsTurn :
      (hpub : Bool) (st : State) (src : Bytes) (out : List Event)
      → IsState lim st
      → All (IsEvent lim) out
      → IsTurn lim (hpub_frame_error hpub st src out)
  unfolding hpub_frame_error
  frame_error-IsTurn true st src out v h = (v, one_more out _ h tt)
  frame_error-IsTurn false st src out v h = h

  published-IsEvent :
      (h : Header) (p : Parts)
      → IsBegun lim h p
      → h.need ≤ p.got
      → IsEvent lim (published h (take_body p))
  unfolding published
  published-IsEvent h p v full = record {
    total_is = refl;
    within = omega (arith, v.header.within, v.counted);
    limited = omega (arith, v.header.limited, v.counted, v.enough);
  }

  hoisted-IsState : (h : Header) (p : Parts) → IsBegun lim h p → IsState lim (hoist (body h p))
  hoisted-IsState h p v = subst (IsState lim) (sym (hoist_body h p)) (hoist-IsBegun lim h p v)

  end_body-IsTurn :
      (h : Header) (p : Parts) (src : Bytes) (out : List Event) (sl : Slot)
      → IsBegun lim h p
      → h.need ≤ p.got
      → All (IsEvent lim) out
      → IsTurn lim (end_body h p src out sl)
  unfolding end_body
  end_body-IsTurn h p src out Slot.short v full k = (hoisted-IsState h p v, k)
  end_body-IsTurn h p src out Slot.crlf v full k =
      (tt, one_more out (published h (take_body p)) k (published-IsEvent h p v full))
  end_body-IsTurn h p src out Slot.broken v full k =
      frame_error-IsTurn h.hpub (body h p) src out v k

  taken_body-IsTurn :
      (h : Header) (p : Parts) (src : Bytes) (out : List Event)
      → IsBegun lim h p
      → All (IsEvent lim) out
      → IsTurn lim (taken_body h p src out)
  taken_body-IsTurn h p src out v k = elim (Bool-cases (ltb p.got h.need)) [
    | inl lt ↦ unfold taken_body in rw lt (hoisted-IsState h p v, k)
    | inr ge ↦
        let full = ltb-false→le p.got h.need ge in
        unfold taken_body in rw ge (end_body-IsTurn h p src out (slot src) v full k)
  ]

  push_if-IsBegun :
      (h : Header) (p : Parts) (b : Bytes) (t : Bool)
      → IsBegun lim h p
      → p.got + length b ≤ h.need
      → IsBegun lim h (if t then push p b else p)
  push_if-IsBegun h p b true v le = record {
    header = v.header;
    counted = push_counted p b v.counted;
    enough = unfold push in le;
  }
  push_if-IsBegun h p b false v le = v

  body_turn-IsTurn :
      (h : Header) (p : Parts) (src : Bytes) (out : List Event)
      → IsBegun lim h p
      → All (IsEvent lim) out
      → IsTurn lim (body_turn h p src out)
  unfolding body_turn
  body_turn-IsTurn h p src out v k =
      let n = min (h.need - p.got) (length src) in
      taken_body-IsTurn h (if ltb 0 n then push p (take n src) else p) (drop n src) out
        (push_if-IsBegun h p (take n src) (ltb 0 n) v (omega (arith, length-take n src, v.enough)))
        k

  turn-IsTurn :
      (st : State) (src : Bytes) (out : List Event)
      → IsState lim st
      → All (IsEvent lim) out
      → IsTurn lim (turn lim st src out)
  unfolding turn
  turn-IsTurn line src out v k = line_turn-IsTurn src out k
  turn-IsTurn (body h p) src out v k = body_turn-IsTurn h p src out v k

  settle-IsFed :
      (loop : State → Bytes → List Event → Option Fed) (t : Turn) (r : Fed)
      → IsTurn lim t
      → ((st : State) (src : Bytes) (out : List Event)
          → IsState lim st
          → All (IsEvent lim) out
          → loop st src out ≡ some r
          → IsFed lim r)
      → settle loop t ≡ some r
      → IsFed lim r
  unfolding settle
  settle-IsFed loop (again st src out) r v ih e = ih st src out v.0 v.1 e
  settle-IsFed loop (waits st src out) r v ih e = subst (IsFed lim) (some_inj e) v
  settle-IsFed loop (stops st src out) r v ih e = subst (IsFed lim) (some_inj e) v
  settle-IsFed loop (fails er out) r v ih e = subst (IsFed lim) (some_inj e) v

  feed_loop-IsFed :
      (fuel : ℕ) (st : State) (src : Bytes) (out : List Event) (r : Fed)
      → IsState lim st
      → All (IsEvent lim) out
      → feed_loop fuel lim st src out ≡ some r
      → IsFed lim r
  unfolding feed_loop
  feed_loop-IsFed zero st src out r v k e = cc
  feed_loop-IsFed (suc fuel) st src out r v k e =
      settle-IsFed (feed_loop fuel lim) (turn lim st src out) r (turn-IsTurn st src out v k)
        (λ st' src' out' v' k'. feed_loop-IsFed fuel st' src' out' r v' k') e

-- From a good state and batch feed_into returns, and leaves a good state and batch: every publish
-- has the length of its body as its total, a header block within it and a body within the limit,
-- and a body that is begun has not more bytes than it needs.
pub feed_into-IsFed :
    (lim : Limits) (st : State) (src : Bytes) (out : List Event)
    → IsState lim st
    → All (IsEvent lim) out
    → (r : Fed) × (feed_into lim st src out ≡ some r) × IsFed lim r
feed_into-IsFed lim st src out v k =
    let (r, e) = feed_into_total lim st src out in
    (r, e, feed_loop-IsFed lim (length src + 1) st src out r v k (unfold feed_into in e))
