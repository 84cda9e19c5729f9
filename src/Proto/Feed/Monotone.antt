-- ===== src/Proto/Feed/Monotone.antt =====
-- A round of `feed_into` of crates/server/src/proto.rs with more bytes behind `src`: a round that goes
-- on or fails does the same, and one that waits is taken up where it stopped.
use nats_server_rs.Prelude.{
  ℕ, ◌+◌, ◌*◌, ◌≤◌, ◌<◌, true, false, Option, none, some, List, [], ◌∷◌, ◌++◌, ◌≡◌, refl, inl, inr,
  Bytes, length, length-append, take, drop, take-append_of_le, drop-append_of_le, ltb, Bool-cases,
  Option-cases, arith,
}
use nats_server_rs.Proto.Types.{Limits, Event, Header, Result, Action, HpubOutcome}
use nats_server_rs.Proto.Types
use nats_server_rs.Proto.Parts.{Parts, take_body}
use nats_server_rs.Proto.Line.{parse_line}
use nats_server_rs.Proto.Feed.{
  State, line, body, Turn, again, waits, stops, fails, find_crlf, starts_lf, act, found_line,
  line_turn, turn,
}
use nats_server_rs.Proto.Feed.Progress.{find_crlf-le}

-- A state by the bytes that it holds, whatever pieces they stand in.
abbrev pub whole : Parts → Parts
whole p = record { first = some (take_body p); rest = []; got = p.got; fresh = false }

abbrev pub norm : State → State
norm line = line
norm (body h p) = body h (whole p)

abbrev pub norm_turn : Turn → Turn
norm_turn (again st src out) = again st src out
norm_turn (waits st src out) = waits (norm st) src out
norm_turn (stops st src out) = stops (norm st) src out
norm_turn (fails e out) = fails e out

-- `t` is a round on some bytes, and `u` the round on the same with `x` behind them.
abbrev pub Follows : Limits → Bytes → Turn → Turn → Type 0
Follows lim x (again st src out) u = u ≡ again st (src ++ x) out
Follows lim x (waits st src out) u = norm_turn u ≡ norm_turn (turn lim st (src ++ x) out)
Follows lim x (stops st src out) u = Unit
Follows lim x (fails e out) u = u ≡ fails e out

find_crlf-append :
    (src x : Bytes) (at : ℕ) → find_crlf src ≡ some at → find_crlf (src ++ x) ≡ some at
unfolding find_crlf
find_crlf-append [] x at h = cc
find_crlf-append (b ∷ []) x at h = cc
find_crlf-append (b ∷ c ∷ bs) x at h = elim (Option-cases (find_crlf (c ∷ bs))) [
  | inl e ↦ ground (arith, e)
  | inr (i, e) ↦ ground (arith, e, find_crlf-append (c ∷ bs) x i e)
]

find_crlf_later :
    (src x : Bytes) (at : ℕ)
    → find_crlf src ≡ none
    → find_crlf (src ++ x) ≡ some at
    → length src ≤ at + 1
unfolding find_crlf
find_crlf_later [] x at n h = omega arith
find_crlf_later (b ∷ []) x at n h = omega arith
find_crlf_later (b ∷ c ∷ bs) x at n h = elim (Option-cases (find_crlf ((c ∷ bs) ++ x))) [
  | inl e ↦ ground (arith, e)
  | inr (i, e) ↦ ground (arith, e, find_crlf_later (c ∷ bs) x i)
]

act-Follows :
    (lim : Limits) (x : Bytes) (r : Result Action) (src : Bytes) (out : List Event)
    → Follows lim x (act r src out) (act r (src ++ x) out)
unfolding act
act-Follows lim x (Result.err e) src out = refl
act-Follows lim x (Result.ok (Action.event (Event.hpub_attempt HpubOutcome.args))) src out = tt
act-Follows lim x (Result.ok (Action.event ev)) src out = refl
act-Follows lim x (Result.ok (Action.body h)) src out = refl

-- `src` has no line end yet.
unended_long :
    (lim : Limits) (x src : Bytes) (out : List Event)
    → 0 < lim.max_control_line
    → find_crlf src ≡ none
    → ltb (lim.max_control_line * 16) (length src) ≡ true
    → (found : Option ℕ) → find_crlf (src ++ x) ≡ found
    → found_line lim (src ++ x) out found ≡ fails (Types.fatal Types.max_control_line_text) out
unfolding found_line
unended_long lim x src out pos n long none e = ground (arith, length-append src x)
unended_long lim x src out pos n long (some at) e = ground (arith, find_crlf_later src x at n e)

unended-Follows :
    (lim : Limits) (x src : Bytes) (out : List Event)
    → 0 < lim.max_control_line
    → find_crlf src ≡ none
    → starts_lf (src ++ x) ≡ false
    → Follows lim x (found_line lim src out none) (line_turn lim (src ++ x) out)
unfolding line_turn
unended-Follows lim x src out pos n lf =
    elim (Bool-cases (ltb (lim.max_control_line * 16) (length src))) [
      | inl long ↦
          let more = unended_long lim x src out pos n long (find_crlf (src ++ x)) refl in
          unfold found_line in rw long (rw (line_turn, lf) more)
      | inr fits ↦ unfold found_line turn in rw fits refl
    ]

ended-Follows :
    (lim : Limits) (x src : Bytes) (out : List Event) (at : ℕ)
    → find_crlf src ≡ some at
    → Follows lim x (found_line lim src out (some at)) (found_line lim (src ++ x) out (some at))
unfolding found_line
ended-Follows lim x src out at e = elim (Bool-cases (ltb lim.max_control_line at)) [
  | inl long ↦ rw long refl
  | inr fits ↦
      let le = find_crlf-le src at e in
      rw (fits, take-append_of_le at src x (omega (arith, le)), drop-append_of_le (at + 2) src x le)
        (act-Follows lim x (parse_line (take at src) lim) (drop (at + 2) src) out)
]

line_turn-found_line :
    (lim : Limits) (src : Bytes) (out : List Event)
    → starts_lf src ≡ false
    → line_turn lim src out ≡ found_line lim src out (find_crlf src)
unfolding line_turn
line_turn-found_line lim src out lf = rw lf

pub line_turn-Follows :
    (lim : Limits) (x src : Bytes) (out : List Event)
    → 0 < lim.max_control_line
    → Follows lim x (line_turn lim src out) (line_turn lim (src ++ x) out)
line_turn-Follows lim x [] out pos = unfold line_turn turn in (rw (unread lim) refl)
  where
    unread : (lim : Limits) → ltb (lim.max_control_line * 16) 0 ≡ false
    unread lim = ground arith
line_turn-Follows lim x (b ∷ bs) out pos = elim (Bool-cases (starts_lf (b ∷ bs))) [
  | inl lf ↦ unfold line_turn starts_lf in rw lf refl
  | inr lf ↦
      let here = line_turn-found_line lim (b ∷ bs) out lf in
      let there = line_turn-found_line lim ((b ∷ bs) ++ x) out (unfold starts_lf in lf) in
      elim (Option-cases (find_crlf (b ∷ bs))) [
        | inl e ↦ rw (here, e) (unended-Follows lim x (b ∷ bs) out pos e (unfold starts_lf in lf))
        | inr (at, e) ↦
            rw (here, there, e, find_crlf-append (b ∷ bs) x at e)
              (ended-Follows lim x (b ∷ bs) out at e)
      ]
]
