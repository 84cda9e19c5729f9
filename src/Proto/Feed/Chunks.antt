-- ===== src/Proto/Feed/Chunks.antt =====
-- The byte stream of crates/server/src/proto.rs cut in two: what `feed_into` makes of a read and the
-- next is what it makes of both at once.
use native.Mathlib.Decide.{dec_lt}
use nats_server_rs.Prelude.{
  drop-append_of_ge, ℕ, ◌-◌, ◌≤◌, ◌<◌, Bool, true, false, List, [], ◌∷◌, ◌++◌, ◌≡◌, ◌≢◌, refl, sym,
  ap, ◌∙◌, Bytes, length, take, drop, length-take, take-append_of_le, drop-append_of_le, take_all,
  drop_all, ltb, arith,
}
use nats_server_rs.Proto.Types.{Limits, Event, Header}
use nats_server_rs.Proto.Parts.{Parts, new, push, take_body}
use nats_server_rs.Proto.Parts
use nats_server_rs.Proto.Feed.{
  State, line, body, again, Slot, slot, end_body, taken_body, body_turn, turn, published,
  hpub_frame_error, hoist,
}
use nats_server_rs.Proto.Feed.Progress.{slot-crlf}
use nats_server_rs.Proto.Feed.Monotone.{norm_turn, Follows}
use nats_server_rs.Proto.Feed.Resume.{
  taken_body-SameBody, IsSingle, put, put-new-IsSingle, hoist-IsSingle, put-put-SameBody,
  body_turn-put, take-append_of_ge, hoist_body, hoist-SameBody,
}

pub new_turn :
    (h : Header) (src : Bytes) (out : List Event)
    → body_turn h new src out ≡ taken_body h (put new (take h.need src)) (drop h.need src) out
new_turn h src out =
    let all : h.need - 0 ≡ h.need = omega arith in
    body_turn-put h new src out
    ∙ ap (λ (n : ℕ). taken_body h (put new (take n src)) (drop n src) out) all

resumed_turn :
    (lim : Limits) (h : Header) (p : Parts) (b src : Bytes) (out : List Event)
    → IsSingle p b
    → turn lim (hoist (body h p)) src out
      ≡ taken_body h
          (put (Parts.hoist p) (take (h.need - length b) src))
          (drop (h.need - length b) src)
          out
unfolding turn
resumed_turn lim h p b src out s =
    ap (λ (st : State). turn lim st src out) (hoist_body h p)
    ∙ body_turn-put h (Parts.hoist p) src out
    ∙ ap
        (λ (n : ℕ).
          taken_body h (put (Parts.hoist p) (take (h.need - n) src)) (drop (h.need - n) src) out)
        (hoist-IsSingle p b s).got

-- The body is not complete with `src`.
short_body-Follows :
    (lim : Limits) (x : Bytes) (h : Header) (src : Bytes) (out : List Event)
    → length src < h.need
    → norm_turn (body_turn h new (src ++ x) out)
      ≡ norm_turn (turn lim (hoist (body h (put new src))) x out)
short_body-Follows lim x h src out lt =
    let single = put-new-IsSingle src in
    let le : length src ≤ h.need = omega arith in
    let m = h.need - length src in
    let same =
      put-put-SameBody (Parts.hoist (put new src)) src (take m x)
        (hoist-IsSingle (put new src) src single) in
    ap norm_turn (new_turn h (src ++ x) out)
    ∙ ap (λ (b : Bytes). norm_turn (taken_body h (put new b) (drop h.need (src ++ x)) out))
        (take-append_of_ge h.need src x le)
    ∙ ap (λ (r : Bytes). norm_turn (taken_body h (put new (src ++ take m x)) r out))
        (drop-append_of_ge h.need src x le)
    ∙ sym (taken_body-SameBody h (drop m x) out same)
    ∙ ap norm_turn (sym (resumed_turn lim h (put new src) src x out single))

-- The body `b` is complete, and the terminator's slot is still short.
short_slot-Follows :
    (lim : Limits) (h : Header) (b src : Bytes) (out : List Event)
    → length b ≡ h.need
    → norm_turn (taken_body h (put new b) src out)
      ≡ norm_turn (turn lim (hoist (body h (put new b))) src out)
short_slot-Follows lim h b src out full =
    let single = put-new-IsSingle b in
    let none_left : h.need - length b ≡ 0 = omega arith in
    sym (
      ap norm_turn (resumed_turn lim h (put new b) b src out single)
      ∙ ap
          (λ (n : ℕ).
            norm_turn (taken_body h (put (Parts.hoist (put new b)) (take n src)) (drop n src) out))
          none_left
      ∙ taken_body-SameBody h src out (hoist-SameBody (put new b)))

pub slot-append : (s x : Bytes) → slot s ≢ Slot.short → slot (s ++ x) ≡ slot s
unfolding slot
slot-append [] x h = absurd (h refl)
slot-append (b ∷ []) [] h = refl
slot-append (b ∷ []) (c ∷ x) h = ground arith
slot-append (b ∷ c ∷ s) x h = refl

pub full_turn :
    (h : Header) (p : Parts) (src : Bytes) (out : List Event)
    → p.got ≡ h.need
    → taken_body h p src out ≡ end_body h p src out (slot src)
unfolding taken_body
full_turn h p src out full = let ge : ltb p.got h.need ≡ false = ground arith in rw ge

pub frame_error-Follows :
    (lim : Limits) (x : Bytes) (hpub : Bool) (st : State) (src : Bytes) (out : List Event)
    → Follows lim x (hpub_frame_error hpub st src out) (hpub_frame_error hpub st (src ++ x) out)
unfolding hpub_frame_error
frame_error-Follows lim x true st src out = tt
frame_error-Follows lim x false st src out = refl

pub crlf-Follows :
    (lim : Limits) (x : Bytes) (h : Header) (p : Parts) (src : Bytes) (out : List Event)
    → slot src ≡ Slot.crlf
    → Follows lim x (end_body h p src out Slot.crlf) (end_body h p (src ++ x) out Slot.crlf)
unfolding end_body
crlf-Follows lim x h p src out e =
    ap (λ (r : Bytes). again line r (out ++ published h (take_body p) ∷ []))
      (drop-append_of_le 2 src x (slot-crlf src e))

full_body-Follows :
    (lim : Limits) (x : Bytes) (h : Header) (b src : Bytes) (out : List Event) (sl : Slot)
    → length b ≡ h.need
    → slot src ≡ sl
    → Follows lim x (end_body h (put new b) src out sl) (taken_body h (put new b) (src ++ x) out)
full_body-Follows lim x h b src out Slot.short full e =
    unfold end_body in short_slot-Follows lim h b (src ++ x) out full
full_body-Follows lim x h b src out Slot.crlf full e =
    let same = slot-append src x (rw e (λ k. cc)) in
    rw (full_turn h (put new b) (src ++ x) out ((put-new-IsSingle b).got ∙ full), same, e)
      (crlf-Follows lim x h (put new b) src out e)
full_body-Follows lim x h b src out Slot.broken full e =
    let same = slot-append src x (rw e (λ k. cc)) in
    rw (full_turn h (put new b) (src ++ x) out ((put-new-IsSingle b).got ∙ full), same, e)
      (unfold end_body in frame_error-Follows lim x h.hpub (body h (put new b)) src out)

pub body_turn-Follows :
    (lim : Limits) (x : Bytes) (h : Header) (src : Bytes) (out : List Event)
    → Follows lim x (body_turn h new src out) (body_turn h new (src ++ x) out)
body_turn-Follows lim x h src out = elim (dec_lt (length src) h.need) [
  | yes lt ↦
      let p = put new src in
      let ltb_got : ltb p.got h.need ≡ true = rw (put-new-IsSingle src).got (ground arith) in
      let le : length src ≤ h.need = omega arith in
      rw (new_turn h src out, take_all h.need src le, drop_all h.need src le)
        (unfold taken_body in rw ltb_got (short_body-Follows lim x h src out lt))
  | no ge ↦
      let le : h.need ≤ length src = omega arith in
      let b = take h.need src in
      let full : length b ≡ h.need = omega (arith, length-take h.need src) in
      rw
        (
          new_turn h src out,
          new_turn h (src ++ x) out,
          take-append_of_le h.need src x le,
          drop-append_of_le h.need src x le,
          full_turn h (put new b) (drop h.need src) out ((put-new-IsSingle b).got ∙ full),
        )
        (full_body-Follows lim x h b (drop h.need src) out (slot (drop h.need src)) full refl)
]
