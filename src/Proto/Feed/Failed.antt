-- ===== src/Proto/Feed/Failed.antt =====
-- A read of crates/server/src/proto.rs that ends in an error, with other bytes behind it.
use native.Mathlib.Decide.{dec_lt}
use nats_server_rs.Prelude.{
  ℕ, zero, suc, ◌+◌, ◌-◌, ◌≤◌, ◌<◌, some, List, [], ◌∷◌, ◌++◌, ◌≡◌, refl, sym, ◌∙◌, Bool, true,
  false, Bytes, length, take, drop, take-append_of_le, drop-append_of_le, length-take, ltb, arith,
  Bool-cases, inl, inr,
}
use nats_server_rs.Proto.Types.{ProtoError, Limits, Event, Header}
use nats_server_rs.Proto.Parts.{Parts}
use nats_server_rs.Proto.Parts
use nats_server_rs.Proto.Feed.{
  State, line, body, Turn, again, waits, stops, fails, Slot, slot, end_body, taken_body, body_turn,
  turn, hpub_frame_error, failed, settle, feed_loop, feed_into,
}
use nats_server_rs.Proto.Feed.Progress.{feed_loop_mono}
use nats_server_rs.Proto.Feed.Monotone.{Follows}
use nats_server_rs.Proto.Feed.Resume.{put, body_turn-put}
use nats_server_rs.Proto.Feed.Chunks.{slot-append, crlf-Follows}
use nats_server_rs.Proto.Feed.Stream.{
  GoesOnClean, turn_clean, turn-Follows, feed_loop-Resumes, feed_loop-feed_into,
}

-- A round that neither waits nor stops does the same with `x` behind its bytes.
abbrev Kept : Bytes → Turn → Turn → Type 0
Kept x (again st src out) u = u ≡ again st (src ++ x) out
Kept x (fails e out) u = u ≡ fails e out
Kept x _ u = Unit

Follows-Kept : (lim : Limits) (x : Bytes) (t u : Turn) → Follows lim x t u → Kept x t u
Follows-Kept lim x (again st src out) u f = f
Follows-Kept lim x (waits st src out) u f = tt
Follows-Kept lim x (stops st src out) u f = tt
Follows-Kept lim x (fails e out) u f = f

got-put : (p : Parts) (b : Bytes) → (put p b).got ≡ p.got + length b
unfolding Parts.push
got-put p [] = omega arith
got-put p (c ∷ b) =
    let some_bytes : ltb 0 (length (c ∷ b)) ≡ true = ground arith in rw some_bytes refl

end_body-Kept :
    (lim : Limits) (x : Bytes) (h : Header) (p : Parts) (src : Bytes) (out : List Event) (sl : Slot)
    → slot src ≡ sl
    → Kept x (end_body h p src out sl) (end_body h p (src ++ x) out (slot (src ++ x)))
unfolding end_body hpub_frame_error
end_body-Kept lim x h p src out Slot.short e = tt
end_body-Kept lim x h p src out Slot.crlf e =
    rw (slot-append src x (rw e (λ k. cc)), e) (crlf-Follows lim x h p src out e)
end_body-Kept lim x h p src out Slot.broken e =
    rw (slot-append src x (rw e (λ k. cc)), e) (broken h.hpub)
  where
    broken :
        (hpub : Bool)
        → Kept x
            (hpub_frame_error hpub (body h p) src out)
            (hpub_frame_error hpub (body h p) (src ++ x) out)
    broken true = tt
    broken false = refl

taken_body-Kept :
    (lim : Limits) (x : Bytes) (h : Header) (p : Parts) (src : Bytes) (out : List Event)
    → Kept x (taken_body h p src out) (taken_body h p (src ++ x) out)
unfolding taken_body
taken_body-Kept lim x h p src out = elim (Bool-cases (ltb p.got h.need)) [
  | inl lacks ↦ rw lacks tt
  | inr full ↦ rw full (end_body-Kept lim x h p src out (slot src) refl)
]

body_turn-Kept :
    (lim : Limits) (x : Bytes) (h : Header) (p : Parts) (src : Bytes) (out : List Event)
    → Kept x (body_turn h p src out) (body_turn h p (src ++ x) out)
body_turn-Kept lim x h p src out =
    let m = h.need - p.got in
    elim (dec_lt (length src) m) [
      | yes lt ↦
          let few : length (take m src) ≤ length src = omega (arith, length-take m src) in
          let lacks : ltb (put p (take m src)).got h.need ≡ true =
            rw (got-put p (take m src)) (ground arith) in
          rw (body_turn-put h p src out) (unfold taken_body in rw lacks tt)
      | no ge ↦
          let le : m ≤ length src = omega arith in
          rw
            (
              body_turn-put h p src out,
              body_turn-put h p (src ++ x) out,
              take-append_of_le m src x le,
              drop-append_of_le m src x le,
            )
            (taken_body-Kept lim x h (put p (take m src)) (drop m src) out)
    ]

turn-Kept :
    (lim : Limits) (x : Bytes) (st : State) (src : Bytes) (out : List Event)
    → 0 < lim.max_control_line
    → Kept x (turn lim st src out) (turn lim st (src ++ x) out)
turn-Kept lim x line src out pos = Follows-Kept lim x _ _ (turn-Follows lim x line src out pos tt)
turn-Kept lim x (body h p) src out pos = unfold turn in body_turn-Kept lim x h p src out

module _ (lim : Limits) (x : Bytes) (pos : 0 < lim.max_control_line) where
  step_failed :
      (fuel : ℕ) (st : State) (src : Bytes) (out : List Event) (t : Turn) {e : ProtoError}
      {evs : List Event}
      → Kept x t (turn lim st (src ++ x) out)
      → GoesOnClean t
      → settle (feed_loop fuel lim) t ≡ some (failed e evs)
      → (f : ℕ) × (feed_loop f lim st (src ++ x) out ≡ some (failed e evs))
  unfolding settle feed_loop
  step_failed fuel st src out (again st1 src1 out1) k c h =
      let (f, same) = feed_loop-Resumes lim x fuel st1 src1 out1 _ pos c h in (suc f, rw k same)
  step_failed fuel st src out (waits st1 src1 out1) k c h = cc
  step_failed fuel st src out (stops st1 src1 out1) k c h = cc
  step_failed fuel st src out (fails e1 out1) k c h = (1, rw k h)

  loop_failed :
      (fuel : ℕ) (st : State) (src : Bytes) (out : List Event) {e : ProtoError} {evs : List Event}
      → feed_loop fuel lim st src out ≡ some (failed e evs)
      → (f : ℕ) × (feed_loop f lim st (src ++ x) out ≡ some (failed e evs))
  unfolding feed_loop
  loop_failed zero st src out h = cc
  loop_failed (suc fuel) st src out h =
      step_failed fuel st src out (turn lim st src out) (turn-Kept lim x st src out pos)
        (turn_clean lim st src out) h

-- A read that ends in an error, whatever state it finds the parser in and whatever events the
-- batch holds before it, ends in the same error with the same events whatever bytes come behind
-- it, if a control line may have bytes.
pub feed_into-append_failed :
    (lim : Limits) (a b : Bytes) (st : State) (out : List Event) (e : ProtoError) (evs : List Event)
    → 0 < lim.max_control_line
    → feed_into lim st a out ≡ some (failed e evs)
    → feed_into lim st (a ++ b) out ≡ some (failed e evs)
feed_into-append_failed lim a b st out e evs pos h =
    let run : feed_loop (length a + 1) lim st a out ≡ some (failed e evs) = unfold feed_into in h in
    let (f, same) = loop_failed lim b pos (length a + 1) st a out run in
    let n = f + length (a ++ b) + 1 in
    sym (feed_loop-feed_into lim st (a ++ b) out n (omega arith))
    ∙ feed_loop_mono f n lim st (a ++ b) out (omega arith) same
