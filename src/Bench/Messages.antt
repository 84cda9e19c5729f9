-- ===== src/Bench/Messages.antt =====
-- A delivery as `next_frame` of crates/bench/src/bin/floodpubsub.rs reads it.
use nats_server_rs.Prelude.{
  ℕ, zero, suc, ◌+◌, ◌-◌, ◌%◌, ◌^◌, ◌≤◌, ◌<◌, Bool, false, Option, some, [], ◌∷◌, ◌++◌, Bytes, ltb,
  ◌==◌, equal, length, take, if◌then◌else◌, codes, length-append, ◌≡◌, refl, ap, ◌∙◌, arith,
}
use nats_server_rs.Config.Strings.{Text}
use nats_server_rs.Bench.{
  message, need_more, next_place, position, last_piece, parsed_size, message_of, framed,
  at_line_end, or_all, next_frame,
}

-- No line feed stands in a text.
abbrev pub IsPlain : Bytes → Type 0
IsPlain [] = Unit
IsPlain (b ∷ s) = ((b == 10) ≡ false) × IsPlain s

position-line :
    (s rest : Bytes) → IsPlain s → position 10 (s ++ 13 ∷ 10 ∷ rest) ≡ some (length s + 1)
unfolding position next_place
position-line [] rest h = refl
position-line (b ∷ s) rest h = rw (h.0, position-line s rest h.1) (ap some (omega arith))

take-take : (n m : ℕ) (s : Bytes) → n ≤ m → take n (take m s) ≡ take n s
take-take zero m s h = refl
take-take (suc n) zero s h = absurd (omega arith)
take-take (suc n) (suc m) [] h = refl
take-take (suc n) (suc m) (b ∷ s) h = ap (◌∷◌ b) (take-take n m s (omega arith))

take-length_append : (s rest : Bytes) → take (length s) (s ++ rest) ≡ s
take-length_append [] rest = refl
take-length_append (b ∷ s) rest = ap (◌∷◌ b) (take-length_append s rest)

-- The line without its end.
body-line : (s rest : Bytes) → take (length s + 1 - 1) (take (length s + 1 + 1) (s ++ rest)) ≡ s
body-line s rest =
    let same : length s + 1 - 1 ≡ length s = omega arith in
    rw same (
      take-take (length s) (length s + 1 + 1) (s ++ rest) (omega arith) ∙ take-length_append s rest)

same_test :
    (whole head words rest size : ℕ)
    → head ≡ words + 4
    → whole ≡ words + 6 + rest
    → ltb whole (head + 1 + 1 + size + 2) ≡ ltb rest (size + 2)
same_test whole head words rest size h k = ground arith

module _ (from_utf8 : Bytes → Option Text) where
  message_of_lem :
      (src line : Bytes) (nl size : ℕ)
      → nl + 1 + size + 2 < 2 ^ 64
      → message_of from_utf8 src nl line (some size)
        ≡ (if ltb (length src) (nl + 1 + size + 2) then need_more else message (nl + 1 + size + 2))
  unfolding message_of
  message_of_lem src line nl size h =
      let whole : (nl + 1 + size + 2) % 2 ^ 64 ≡ nl + 1 + size + 2 = omega arith in rw whole refl

  framed_message :
      (src line words : Bytes) (nl : ℕ)
      → framed from_utf8 src nl line
          (codes "MSG " ++ words)
          (or_all (codes "MSG " ++ words) (position b' ' (codes "MSG " ++ words)))
        ≡ message_of from_utf8 src nl line
            (parsed_size from_utf8 (from_utf8 (last_piece (b' ' ∷ words) (b' ' ∷ words))))
  unfolding framed codes position or_all next_place equal
  framed_message src line words nl = refl

  -- Of a delivery whose line begins with `MSG ` and has no line feed, and whose last word is read
  -- as a size n, the load generator's scanner asks for more until the n bytes of the body and two
  -- more have come, and then gives the length of line, line end, body and two more, as long as
  -- that is below 2^64.
  pub next_frame-message :
      (words rest : Bytes) (size : ℕ)
      → IsPlain words
      → parsed_size from_utf8 (from_utf8 (last_piece (b' ' ∷ words) (b' ' ∷ words))) ≡ some size
      → length words + size + 8 < 2 ^ 64
      → next_frame from_utf8 ((codes "MSG " ++ words) ++ 13 ∷ 10 ∷ rest)
        ≡ (if ltb (length rest) (size + 2) then need_more else message (length words + size + 8))
  unfolding codes
  next_frame-message words rest size plain sized_by small =
      let msg = codes "MSG " ++ words in
      let src = msg ++ 13 ∷ 10 ∷ rest in
      let nl = length msg + 1 in
      let line = take (nl + 1) src in
      let found : next_frame from_utf8 src ≡ at_line_end from_utf8 src (some nl) =
        unfold next_frame in
        ap (at_line_end from_utf8 src)
          (position-line msg rest (refl, (refl, (refl, (refl, plain))))) in
      let cut : at_line_end from_utf8 src (some nl)
          ≡ framed from_utf8 src nl line msg (or_all msg (position b' ' msg)) =
        unfold at_line_end in
        ap (λ (b : Bytes). framed from_utf8 src nl line b (or_all b (position b' ' b)))
          (body-line msg (13 ∷ 10 ∷ rest)) in
      let told =
        framed_message src line words nl ∙ ap (message_of from_utf8 src nl line) sized_by in
      let long : length src ≡ length words + 6 + length rest =
        omega (arith, length-append msg (13 ∷ 10 ∷ rest)) in
      let test : ltb (length src) (nl + 1 + size + 2) ≡ ltb (length rest) (size + 2) =
        same_test (length src) (length msg) (length words) (length rest) size (omega arith) long in
      let need : nl + 1 + size + 2 ≡ length words + size + 8 = omega arith in
      found
      ∙ (cut
          ∙ (told
              ∙ (message_of_lem src line nl size (omega arith)
                  ∙ (ap (λ (b : Bool). if b then need_more else message (nl + 1 + size + 2)) test
                      ∙ ap
                          (λ (k : ℕ). if ltb (length rest) (size + 2) then need_more else message k)
                          need))))
