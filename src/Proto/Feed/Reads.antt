-- ===== src/Proto/Feed/Reads.antt =====
-- A connection's reads in a row, through `Parser::feed_into` of crates/server/src/proto.rs, and a body
-- that spans three of them.
use native.Mathlib.Numerals.{add-one}
use nats_server_rs.Prelude.{
  ℕ, suc, ◌+◌, ◌-◌, ◌*◌, ◌≤◌, ◌<◌, Bool, true, false, Option, none, some, List, [], ◌∷◌, ◌++◌, ◌≡◌,
  refl, ap, ◌∙◌, append-nil, Bytes, length, take, drop, take_all, drop_all, ltb, arith,
  if◌then◌else◌,
}
use nats_server_rs.Proto.Types.{Limits, Event, Header}
use nats_server_rs.Proto.Parts.{Parts, new, push, take_body}
use nats_server_rs.Proto.Parts
use nats_server_rs.Proto.Feed.{
  State, line, body, again, waits, slot, published, end_body, taken_body, body_turn, line_turn,
  turn, Fed, waiting, stopped, failed, feed_into,
}
use nats_server_rs.Proto.Feed.Resume.{put, body_turn-put, hoist_body}
use nats_server_rs.Proto.Feed.Chunks.{full_turn}

take_front : (s x : Bytes) → take (length s) (s ++ x) ≡ s
take_front [] x = refl
take_front (b ∷ s) x = ap (◌∷◌ b) (take_front s x)

drop_front : (s x : Bytes) → drop (length s) (s ++ x) ≡ x
drop_front [] x = refl
drop_front (b ∷ s) x = drop_front s x

-- `read_loop` appends a read to what is unread, and calls `feed_into`.
pub next : (State → Bytes → List Event → Option Fed) → Option Fed → Option Fed
next rest_of (some (waiting st rest evs)) = rest_of st rest evs
next rest_of (some (stopped st rest evs)) = some (stopped st rest evs)
next rest_of (some (failed e evs)) = some (failed e evs)
next rest_of none = none

unfoldable pub reads : List Bytes → Limits → State → Bytes → List Event → Option Fed
unfolding next
reads [] lim st rest evs = some (waiting st rest evs)
reads (c ∷ cs) lim st rest evs = next (reads cs lim) (feed_into lim st (rest ++ c) evs)

-- A read that leaves the body short is taken whole.
short_turn :
    (h : Header) (p : Parts) (b : ℕ) (bs : Bytes) (out : List Event)
    → p.got + length (b ∷ bs) < h.need
    → body_turn h p (b ∷ bs) out ≡ waits (body h (Parts.hoist (push p (b ∷ bs)))) [] out
short_turn h p b bs out lt =
    let le : length (b ∷ bs) ≤ h.need - p.got = omega arith in
    let some_bytes : ltb 0 (suc (length bs)) ≡ true = ground arith in
    let short : ltb (push p (b ∷ bs)).got h.need ≡ true = unfold push in (ground arith) in
    rw
      (
        body_turn-put h p (b ∷ bs) out,
        take_all (h.need - p.got) (b ∷ bs) le,
        drop_all (h.need - p.got) (b ∷ bs) le,
        some_bytes,
      )
      (unfold taken_body in
        rw short (ap (λ (st : State). waits st [] out) (hoist_body h (push p (b ∷ bs)))))

-- A read that completes the body and its terminator.
last_turn :
    (h : Header) (p : Parts) (b : ℕ) (bs : Bytes) (out : List Event)
    → p.got + length (b ∷ bs) ≡ h.need
    → body_turn h p (b ∷ (bs ++ (13 ∷ 10 ∷ []))) out
      ≡ again line [] (out ++ published h (take_body (push p (b ∷ bs))) ∷ [])
last_turn h p b bs out e =
    let crlf : Bytes = 13 ∷ 10 ∷ [] in
    let src = b ∷ (bs ++ crlf) in
    let size : h.need - p.got ≡ length (b ∷ bs) = omega arith in
    let some_bytes : ltb 0 (suc (length bs)) ≡ true = ground arith in
    let taken = ap (λ (n : ℕ). take n src) size ∙ take_front (b ∷ bs) crlf in
    let unread = ap (λ (n : ℕ). drop n src) size ∙ drop_front (b ∷ bs) crlf in
    let p' = push p (b ∷ bs) in
    let full = full_turn h p' crlf out (unfold push in e) in
    body_turn-put h p src out
    ∙ (λ i. taken_body h (put p (taken i)) (unread i) out)
    ∙ ap (λ (t : Bool). taken_body h (if t then p' else p) crlf out) some_bytes
    ∙ full
    ∙ (unfold slot end_body in refl)

feed_into_waits :
    (lim : Limits) (st st' : State) (src src' : Bytes) (out out' : List Event)
    → turn lim st src out ≡ waits st' src' out'
    → feed_into lim st src out ≡ some (waiting st' src' out')
unfolding feed_into
feed_into_waits lim st st' src src' out out' e = rw (add-one (length src), e)

no_line : (n : ℕ) → ltb (n * 16) 0 ≡ false
no_line n = ground arith

feed_into_again :
    (lim : Limits) (st : State) (b : ℕ) (src : Bytes) (out out' : List Event)
    → turn lim st (b ∷ src) out ≡ again line [] out'
    → feed_into lim st (b ∷ src) out ≡ some (waiting line [] out')
unfolding feed_into line_turn
feed_into_again lim st b src out out' e =
    rw (add-one (length (b ∷ src)), e) (rw (no_line lim.max_control_line))

abbrev first_part : Bytes → Parts
first_part a = Parts.hoist (push new a)

abbrev two_parts : Bytes → Bytes → Parts
two_parts a b = Parts.hoist (push (first_part a) b)

got_first : (a : Bytes) → (first_part a).got ≡ length a
unfolding push Parts.hoist
got_first a = omega arith

got_two : (a b : Bytes) → (two_parts a b).got ≡ length a + length b
unfolding push Parts.hoist
got_two a b = omega arith

body_of_three : (a b c : Bytes) → take_body (push (two_parts a b) c) ≡ c ++ (a ++ b)
unfolding push Parts.hoist take_body
body_of_three a b c = ap (λ (r : Bytes). c ++ (a ++ r)) (append-nil b)

-- A body that is begun and arrives in three reads that are not empty and together have its size,
-- the last with its terminator behind it, is published as the third piece, the first and the
-- second.
pub reads_three :
    (lim : Limits) (h : Header) (x : ℕ) (a : Bytes) (y : ℕ) (b : Bytes) (z : ℕ) (c : Bytes)
    → length (x ∷ a) + length (y ∷ b) + length (z ∷ c) ≡ h.need
    → reads ((x ∷ a) ∷ (y ∷ b) ∷ (z ∷ (c ++ (13 ∷ 10 ∷ []))) ∷ []) lim (body h new) [] []
      ≡ some (waiting line [] (published h ((z ∷ c) ++ ((x ∷ a) ++ (y ∷ b))) ∷ []))
unfolding reads turn
reads_three lim h x a y b z c e =
    let p = first_part (x ∷ a) in
    let q = two_parts (x ∷ a) (y ∷ b) in
    let got_p = got_first (x ∷ a) in
    let got_q = got_two (x ∷ a) (y ∷ b) in
    let first = short_turn h new x a [] (omega arith) in
    let second = short_turn h p y b [] (omega arith) in
    let third = last_turn h q z c [] (omega arith) in
    rw
      (
        feed_into_waits lim (body h new) (body h p) (x ∷ a) [] [] [] first,
        feed_into_waits lim (body h p) (body h q) (y ∷ b) [] [] [] second,
        feed_into_again lim (body h q) z (c ++ (13 ∷ 10 ∷ [])) []
            (published h (take_body (push q (z ∷ c))) ∷ []) third,
      )
      (ap (λ (r : Bytes). some (waiting line [] (published h r ∷ [])))
        (body_of_three (x ∷ a) (y ∷ b) (z ∷ c)))
