-- ===== src/Proto/Feed/Resume.antt =====
-- A body of crates/server/src/proto.rs that was begun at this read: what a round on it does once more
-- bytes stand behind.
use nats_server_rs.Prelude.{
  ℕ, zero, suc, ◌+◌, ◌-◌, ◌≤◌, min, Bool, true, false, Option, none, some, List, [], ◌∷◌, ◌++◌, ◌≡◌,
  refl, sym, ap, ◌∙◌, inl, inr, append-nil, Bytes, length, take, drop, length-take, length-append,
  take_all, drop_all, ltb, Bool-cases, arith, if◌then◌else◌,
}
use native.Mathlib.Nat.{add-zero}
use native.Mathlib.Decide.{dec_le}
use nats_server_rs.Proto.Types.{Event, Header, HpubOutcome, unknown_op}
use nats_server_rs.Proto.Parts.{Parts, new, push, take_body, assemble, concat}
use nats_server_rs.Proto.Parts
use nats_server_rs.Proto.Parts.Order.{take_body-hoist}
use nats_server_rs.Proto.Feed.{
  State, line, body, again, waits, stops, Slot, slot, end_body, taken_body, body_turn,
  hpub_frame_error, hoist, own_option, published,
}
use nats_server_rs.Proto.Feed.Monotone.{whole, norm, norm_turn}

pub got-hoist : (p : Parts) → (Parts.hoist p).got ≡ p.got
unfolding Parts.hoist
got-hoist p = ground arith

own_option_lem : (r : Option Bytes) → own_option r ≡ r
unfolding own_option
own_option_lem none = refl
own_option_lem (some b) = refl

sub-zero : (n : ℕ) → n - 0 ≡ n
sub-zero n = omega arith

min_of_le : (n m : ℕ) → n ≤ m → min n m ≡ n
min_of_le n m h = omega arith

min_of_ge : (n m : ℕ) → m ≤ n → min n m ≡ m
min_of_ge n m h = omega arith

-- Two sets of pieces with the same bytes are as good as one another.
pub record SameBody (p q : Parts) : Type 0 where
  pub got : p.got ≡ q.got
  pub content : take_body p ≡ take_body q

whole-SameBody : {p q : Parts} → SameBody p q → whole p ≡ whole q
whole-SameBody s =
    λ i. record { first = some (s.content i); rest = []; got = s.got i; fresh = false }

pub hoist-SameBody : (p : Parts) → SameBody (Parts.hoist p) p
hoist-SameBody p = record { got = got-hoist p; content = take_body-hoist p }

pub hoist_body : (h : Header) (p : Parts) → hoist (body h p) ≡ body h (Parts.hoist p)
unfolding hoist
hoist_body h p =
    ap (λ (r : Option Bytes). body (record h { reply = r }) (Parts.hoist p))
      (own_option_lem h.reply)

hoist-norm : (h : Header) (p : Parts) → norm (hoist (body h p)) ≡ norm (body h p)
hoist-norm h p = ap norm (hoist_body h p) ∙ ap (body h) (whole-SameBody (hoist-SameBody p))

hoisted-SameBody :
    (h : Header) {p q : Parts} → SameBody p q → norm (hoist (body h p)) ≡ norm (hoist (body h q))
hoisted-SameBody h {p} {q} s =
    hoist-norm h p ∙ ap (body h) (whole-SameBody s) ∙ sym (hoist-norm h q)

frame_error-SameBody :
    (hpub : Bool) (h : Header) {p q : Parts} (src : Bytes) (out : List Event)
    → SameBody p q
    → norm_turn (hpub_frame_error hpub (body h p) src out)
      ≡ norm_turn (hpub_frame_error hpub (body h q) src out)
unfolding hpub_frame_error
frame_error-SameBody true h src out s =
    ap
      (λ (w : Parts).
        stops (body h w) src (out ++ Event.hpub_attempt (HpubOutcome.frame unknown_op) ∷ []))
      (whole-SameBody s)
frame_error-SameBody false h src out s = refl

end_body-SameBody :
    (h : Header) {p q : Parts} (src : Bytes) (out : List Event) (sl : Slot)
    → SameBody p q
    → norm_turn (end_body h p src out sl) ≡ norm_turn (end_body h q src out sl)
unfolding end_body
end_body-SameBody h src out Slot.short s =
    ap (λ (st : State). waits st src out) (hoisted-SameBody h s)
end_body-SameBody h src out Slot.crlf s =
    ap (λ (b : Bytes). again line (drop 2 src) (out ++ published h b ∷ [])) s.content
end_body-SameBody h src out Slot.broken s = frame_error-SameBody h.hpub h src out s

pub taken_body-SameBody :
    (h : Header) {p q : Parts} (src : Bytes) (out : List Event)
    → SameBody p q
    → norm_turn (taken_body h p src out) ≡ norm_turn (taken_body h q src out)
unfolding taken_body
taken_body-SameBody h {p} {q} src out s = elim (Bool-cases (ltb p.got h.need)) [
  | inl lt ↦
      let lt' : ltb q.got h.need ≡ true = rw (← s.got) lt in
      rw (lt, lt') (ap (λ (st : State). waits st src out) (hoisted-SameBody h s))
  | inr ge ↦
      let ge' : ltb q.got h.need ≡ false = rw (← s.got) ge in
      rw (ge, ge') (end_body-SameBody h src out (slot src) s)
]

-- `p` holds the bytes `b` in one piece at most.
pub record IsSingle (p : Parts) (b : Bytes) : Type 0 where
  pub rest_nil : p.rest ≡ []
  pub got : p.got ≡ length b
  pub content : take_body p ≡ b

abbrev pub put : Parts → Bytes → Parts
put p b = if ltb 0 (length b) then push p b else p

push_pieces :
    (first : Option Bytes) (rest : List Bytes) (got : ℕ) (fresh : Bool) (b c : Bytes)
    → rest ≡ []
    → take_body (record { first = first; rest = rest; got = got; fresh = fresh }) ≡ b
    → take_body (push (record { first = first; rest = rest; got = got; fresh = fresh }) c) ≡ b ++ c
unfolding push take_body
push_pieces none [] got fresh b c r e = rw (← e) refl
push_pieces (some f) [] got fresh b c r e = rw (← e) (ap (◌++◌ f) (append-nil c))
push_pieces first (x ∷ rest) got fresh b c r e = cc

got-push : (p : Parts) (b : Bytes) → (push p b).got ≡ p.got + length b
unfolding push
got-push p b = refl

-- Bytes put behind the single piece `b` are the body's bytes behind `b`.
put-IsSingle :
    (p : Parts) (b c : Bytes)
    → IsSingle p b
    → (take_body (put p c) ≡ b ++ c) × ((put p c).got ≡ length b + length c)
put-IsSingle p b [] s = (s.content ∙ sym (append-nil b), s.got ∙ sym (add-zero (length b)))
put-IsSingle p b (d ∷ c) s =
    let some_bytes : ltb 0 (suc (length c)) ≡ true = ground arith in
    rw some_bytes (
      push_pieces p.first p.rest p.got p.fresh b (d ∷ c) s.rest_nil s.content,
      got-push p (d ∷ c) ∙ ap (λ (n : ℕ). n + length (d ∷ c)) s.got,
    )

pub new-IsSingle : IsSingle new []
unfolding take_body
new-IsSingle = record { rest_nil = refl; got = refl; content = refl }

pub put-new-IsSingle : (b : Bytes) → IsSingle (put new b) b
unfolding push take_body
put-new-IsSingle [] = new-IsSingle
put-new-IsSingle (c ∷ b) =
    let some_bytes : ltb 0 (suc (length b)) ≡ true = ground arith in
    rw some_bytes (record { rest_nil = refl; got = omega arith; content = refl })

pub hoist-IsSingle : (p : Parts) (b : Bytes) → IsSingle p b → IsSingle (Parts.hoist p) b
hoist-IsSingle p b s = record {
  rest_nil = hoisted p.first p.rest p.got p.fresh s.rest_nil;
  got = got-hoist p ∙ s.got;
  content = take_body-hoist p ∙ s.content;
}
  where
    hoisted :
        (first : Option Bytes) (rest : List Bytes) (got : ℕ) (fresh : Bool)
        → rest ≡ []
        → (Parts.hoist (record { first = first; rest = rest; got = got; fresh = fresh })).rest ≡ []
    hoisted first [] got fresh e = unfold Parts.hoist in (ground arith)
    hoisted first (x ∷ rest) got fresh e = cc

-- A body begun with `b` and gone on with `c` is a body begun with both.
pub put-put-SameBody :
    (p : Parts) (b c : Bytes) → IsSingle p b → SameBody (put p c) (put new (b ++ c))
put-put-SameBody p b c s =
    let here = put-IsSingle p b c s in
    let there = put-new-IsSingle (b ++ c) in
    record {
      got = here.1 ∙ sym (length-append b c) ∙ sym there.got;
      content = here.0 ∙ sym there.content;
    }

take-min : (n : ℕ) (s : Bytes) → take (min n (length s)) s ≡ take n s
take-min n s = elim (dec_le n (length s)) [
  | yes le ↦ rw (min_of_le n (length s) le)
  | no gt ↦
      let long : length s ≤ n = omega arith in
      rw (min_of_ge n (length s) long, take_all (length s) s (omega arith), take_all n s long)
]

drop-min : (n : ℕ) (s : Bytes) → drop (min n (length s)) s ≡ drop n s
drop-min n s = elim (dec_le n (length s)) [
  | yes le ↦ rw (min_of_le n (length s) le)
  | no gt ↦
      let long : length s ≤ n = omega arith in
      rw (min_of_ge n (length s) long, drop_all (length s) s (omega arith), drop_all n s long)
]

-- A round on a body takes what is still needed, or what there is.
pub body_turn-put :
    (h : Header) (p : Parts) (src : Bytes) (out : List Event)
    → body_turn h p src out
      ≡ taken_body h (put p (take (h.need - p.got) src)) (drop (h.need - p.got) src) out
unfolding body_turn
body_turn-put h p src out =
    let n = min (h.need - p.got) (length src) in
    let bytes = take-min (h.need - p.got) src in
    let unread = drop-min (h.need - p.got) src in
    let size : n ≡ length (take (h.need - p.got) src) =
      omega (arith, length-take (h.need - p.got) src) in
    λ i. taken_body h (if ltb 0 (size i) then push p (bytes i) else p) (unread i) out

pub take-append_of_ge :
    (n : ℕ) (s x : Bytes) → length s ≤ n → take n (s ++ x) ≡ s ++ take (n - length s) x
take-append_of_ge n [] x h = rw (sub-zero n)
take-append_of_ge zero (b ∷ s) x h = elim h [ ]
take-append_of_ge (suc n) (b ∷ s) x h =
    let less : suc n - suc (length s) ≡ n - length s = omega arith in
    rw less (ap (◌∷◌ b) (take-append_of_ge n s x (omega arith)))
