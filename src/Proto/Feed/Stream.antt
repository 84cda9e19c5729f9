-- ===== src/Proto/Feed/Stream.antt =====
-- The byte stream of crates/server/src/proto.rs cut in two: what `feed_into` makes of a read and the
-- next is what it makes of both at once.
use mathlib.Core.Option
use nats_server_rs.Prelude.{
  ℕ, zero, suc, ◌+◌, ◌≤◌, ◌<◌, Option, none, some, List, [], ◌++◌, ◌≡◌, refl, sym, ap, ◌∙◌, subst,
  Bool, true, false, Bytes, length, take, drop, min, ltb, ◌-◌, if◌then◌else◌, arith,
}
use nats_server_rs.Proto.Types.{ProtoError, Limits, Event, Header, Result, Action, HpubOutcome}
use nats_server_rs.Proto.Parts.{Parts, new}
use nats_server_rs.Proto.Parts
use nats_server_rs.Proto.Line.{parse_line}
use nats_server_rs.Proto.Feed.{
  State, line, body, Turn, again, waits, stops, fails, Slot, slot, act, found_line, line_turn,
  find_crlf, end_body, taken_body, body_turn, turn, hpub_frame_error, Fed, waiting, stopped, failed,
  settle, feed_loop, feed_into, feed,
}
use nats_server_rs.Proto.Feed.Progress.{feed_loop_mono, feed_into_total}
use nats_server_rs.Proto.Feed.Monotone.{norm, norm_turn, Follows, line_turn-Follows}
use nats_server_rs.Proto.Feed.Chunks.{body_turn-Follows}

-- Nothing of a body has been taken yet.
abbrev pub IsClean : State → Type 0
IsClean line = Unit
IsClean (body h p) = p ≡ new

abbrev pub GoesOnClean : Turn → Type 0
GoesOnClean (again st src out) = IsClean st
GoesOnClean (waits st src out) = Unit
GoesOnClean (stops st src out) = Unit
GoesOnClean (fails e out) = Unit

act_clean : (r : Result Action) (src : Bytes) (out : List Event) → GoesOnClean (act r src out)
unfolding act
act_clean (Result.err e) src out = tt
act_clean (Result.ok (Action.event (Event.hpub_attempt HpubOutcome.args))) src out = tt
act_clean (Result.ok (Action.event ev)) src out = tt
act_clean (Result.ok (Action.body h)) src out = refl

found_line_clean :
    (lim : Limits) (src : Bytes) (out : List Event) (found : Option ℕ)
    → GoesOnClean (found_line lim src out found)
unfolding found_line
found_line_clean lim src out none = ground arith
found_line_clean lim src out (some at) =
    ground (arith, act_clean (parse_line (take at src) lim) (drop (at + 2) src) out)

line_turn_clean :
    (lim : Limits) (src : Bytes) (out : List Event) → GoesOnClean (line_turn lim src out)
unfolding line_turn
line_turn_clean lim src out = ground (arith, found_line_clean lim src out (find_crlf src))

frame_error_clean :
    (hpub : Bool) (st : State) (src : Bytes) (out : List Event)
    → GoesOnClean (hpub_frame_error hpub st src out)
unfolding hpub_frame_error
frame_error_clean true st src out = tt
frame_error_clean false st src out = tt

end_body_clean :
    (h : Header) (p : Parts) (src : Bytes) (out : List Event) (sl : Slot)
    → GoesOnClean (end_body h p src out sl)
unfolding end_body
end_body_clean h p src out Slot.short = tt
end_body_clean h p src out Slot.crlf = tt
end_body_clean h p src out Slot.broken = frame_error_clean h.hpub (body h p) src out

taken_body_clean :
    (h : Header) (p : Parts) (src : Bytes) (out : List Event) → GoesOnClean (taken_body h p src out)
unfolding taken_body
taken_body_clean h p src out = ground (arith, end_body_clean h p src out (slot src))

body_turn_clean :
    (h : Header) (p : Parts) (src : Bytes) (out : List Event) → GoesOnClean (body_turn h p src out)
unfolding body_turn
body_turn_clean h p src out =
    let n = min (h.need - p.got) (length src) in
    taken_body_clean h (if ltb 0 n then Parts.push p (take n src) else p) (drop n src) out

pub turn_clean :
    (lim : Limits) (st : State) (src : Bytes) (out : List Event) → GoesOnClean (turn lim st src out)
unfolding turn
turn_clean lim line src out = line_turn_clean lim src out
turn_clean lim (body h p) src out = body_turn_clean h p src out

pub turn-Follows :
    (lim : Limits) (x : Bytes) (st : State) (src : Bytes) (out : List Event)
    → 0 < lim.max_control_line
    → IsClean st
    → Follows lim x (turn lim st src out) (turn lim st (src ++ x) out)
unfolding turn
turn-Follows lim x line src out pos c = line_turn-Follows lim x src out pos
turn-Follows lim x (body h p) src out pos c = rw c (body_turn-Follows lim x h src out)

-- What a call of `feed_into` leaves, whatever the pieces that a body begun in it stands in.
unfoldable pub norm_fed : Fed → Fed
norm_fed (waiting st src out) = waiting (norm st) src out
norm_fed (stopped st src out) = stopped (norm st) src out
norm_fed (failed e out) = failed e out

abbrev settle_norm : (State → Bytes → List Event → Option Fed) → Turn → Option Fed
settle_norm loop (again st src out) = Option.map norm_fed (loop st src out)
settle_norm loop (waits st src out) = some (waiting st src out)
settle_norm loop (stops st src out) = some (stopped st src out)
settle_norm loop (fails e out) = some (failed e out)

map-settle :
    (loop : State → Bytes → List Event → Option Fed) (t : Turn)
    → Option.map norm_fed (settle loop t) ≡ settle_norm loop (norm_turn t)
unfolding settle norm_fed
map-settle loop (again st src out) = refl
map-settle loop (waits st src out) = refl
map-settle loop (stops st src out) = refl
map-settle loop (fails e out) = refl

abbrev more : ℕ → ℕ → ℕ
more zero n = n
more (suc k) n = suc (more k n)

more-le : (k n : ℕ) → n ≤ more k n
more-le zero n = omega arith
more-le (suc k) n = omega (arith, more-le k n)

-- With `x` behind the bytes the loop comes to where it waited, `k` rounds later.
abbrev pub Resumes : Limits → Bytes → State → Bytes → List Event → Fed → Type 0
Resumes lim x st src out (waiting st' src' out') =
    (k : ℕ) × ((g : ℕ)
      → Option.map norm_fed (feed_loop (more k (suc g)) lim st (src ++ x) out)
        ≡ Option.map norm_fed (feed_loop (suc g) lim st' (src' ++ x) out'))
Resumes lim x st src out (stopped st' src' out') = Unit
Resumes lim x st src out (failed e out') =
    (f : ℕ) × (feed_loop f lim st (src ++ x) out ≡ some (failed e out'))

some_inj : {r r' : Fed} → some r ≡ some r' → r ≡ r'
some_inj h = cc

module _ (lim : Limits) (x : Bytes) where
  again-Resumes :
      (st : State) (src : Bytes) (out : List Event) (st1 : State) (src1 : Bytes) (out1 : List Event)
      → turn lim st (src ++ x) out ≡ again st1 (src1 ++ x) out1
      → (r : Fed) → Resumes lim x st1 src1 out1 r
      → Resumes lim x st src out r
  unfolding feed_loop
  again-Resumes st src out st1 src1 out1 e (waiting st' src' out') (k, same) =
      (suc k, λ g. rw e (same g))
  again-Resumes st src out st1 src1 out1 e (stopped st' src' out') m = tt
  again-Resumes st src out st1 src1 out1 e (failed err out') (f, same) = (suc f, rw e same)

  waits-Resumes :
      (st : State) (src : Bytes) (out : List Event) (st1 : State) (src1 : Bytes) (out1 : List Event)
      → norm_turn (turn lim st (src ++ x) out) ≡ norm_turn (turn lim st1 (src1 ++ x) out1)
      → Resumes lim x st src out (waiting st1 src1 out1)
  unfolding feed_loop
  waits-Resumes st src out st1 src1 out1 e = (
    zero,
    λ g.
        map-settle (feed_loop g lim) (turn lim st (src ++ x) out)
        ∙ ap (settle_norm (feed_loop g lim)) e
        ∙ sym (map-settle (feed_loop g lim) (turn lim st1 (src1 ++ x) out1)),
  )

  fails-Resumes :
      (st : State) (src : Bytes) (out : List Event) (e : ProtoError) (out1 : List Event)
      → turn lim st (src ++ x) out ≡ fails e out1
      → Resumes lim x st src out (failed e out1)
  unfolding feed_loop
  fails-Resumes st src out e out1 h = (1, rw h refl)

  step_Resumes :
      (fuel : ℕ) (st : State) (src : Bytes) (out : List Event) (t : Turn) (r : Fed)
      → Follows lim x t (turn lim st (src ++ x) out)
      → GoesOnClean t
      → ((st1 : State) (src1 : Bytes) (out1 : List Event)
          → IsClean st1
          → feed_loop fuel lim st1 src1 out1 ≡ some r
          → Resumes lim x st1 src1 out1 r)
      → settle (feed_loop fuel lim) t ≡ some r
      → Resumes lim x st src out r
  unfolding settle
  step_Resumes fuel st src out (again st1 src1 out1) r f c ih h =
      again-Resumes st src out st1 src1 out1 f r (ih st1 src1 out1 c h)
  step_Resumes fuel st src out (waits st1 src1 out1) r f c ih h =
      subst (Resumes lim x st src out) (some_inj h) (waits-Resumes st src out st1 src1 out1 f)
  step_Resumes fuel st src out (stops st1 src1 out1) r f c ih h =
      subst (Resumes lim x st src out) (some_inj h) tt
  step_Resumes fuel st src out (fails e out1) r f c ih h =
      subst (Resumes lim x st src out) (some_inj h) (fails-Resumes st src out e out1 f)

  pub feed_loop-Resumes :
      (fuel : ℕ) (st : State) (src : Bytes) (out : List Event) (r : Fed)
      → 0 < lim.max_control_line
      → IsClean st
      → feed_loop fuel lim st src out ≡ some r
      → Resumes lim x st src out r
  unfolding feed_loop
  feed_loop-Resumes zero st src out r pos c h = cc
  feed_loop-Resumes (suc fuel) st src out r pos c h =
      step_Resumes fuel st src out (turn lim st src out) r (turn-Follows lim x st src out pos c)
        (turn_clean lim st src out)
        (λ st1 src1 out1 c1. feed_loop-Resumes fuel st1 src1 out1 r pos c1) h

-- Any fuel above the number of bytes gives the result of `feed_into`.
pub feed_loop-feed_into :
    (lim : Limits) (st : State) (src : Bytes) (out : List Event) (fuel : ℕ)
    → length src < fuel
    → feed_loop fuel lim st src out ≡ feed_into lim st src out
unfolding feed_into
feed_loop-feed_into lim st src out fuel lt =
    let (r, e) = feed_into_total lim st src out in
    feed_loop_mono (length src + 1) fuel lim st src out (omega arith) e ∙ sym e

-- Cutting the stream after `a` changes no event, no error and no byte of a body that is begun: if
-- the first read of a connection waits for more, and a control line may have bytes, the second
-- read goes on to what one read of both gives.
pub feed_into-append :
    (lim : Limits) (a b : Bytes) (st : State) (rest : Bytes) (evs : List Event)
    → 0 < lim.max_control_line
    → feed lim line a ≡ some (waiting st rest evs)
    → Option.map norm_fed (feed_into lim st (rest ++ b) evs)
      ≡ Option.map norm_fed (feed lim line (a ++ b))
feed_into-append lim a b st rest evs pos h =
    let (k, same) =
      feed_loop-Resumes lim b (length a + 1) line a [] (waiting st rest evs) pos tt
        (unfold feed feed_into in h) in
    let g = length (a ++ b) + length (rest ++ b) in
    let here = feed_loop-feed_into lim st (rest ++ b) evs (suc g) (omega arith) in
    let there =
      feed_loop-feed_into lim line (a ++ b) [] (more k (suc g))
        (omega (arith, more-le k (suc g))) in
    ap (Option.map norm_fed) (sym here)
    ∙ sym (same g)
    ∙ ap (Option.map norm_fed) (there ∙ (unfold feed in refl))
