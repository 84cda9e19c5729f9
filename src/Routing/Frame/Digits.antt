-- ===== src/Routing/Frame/Digits.antt =====
-- `push_u64` of crates/server/src/routing.rs against `parse_size` of crates/server/src/proto.rs.
use nats_server_rs.Prelude.{
  ℕ, zero, suc, ◌+◌, ◌*◌, ◌/◌, ◌%◌, ◌^◌, ◌≤◌, ◌<◌, true, false, [], ◌∷◌, Bytes, ltb, ◌==◌, pos,
  length, Bool-cases, inl, inr, ==_iff, arith, ◌≡◌, refl, ◌∙◌,
}
use nats_server_rs.Proto.Size.{is_digit, size_loop, parse_size}
use nats_server_rs.Routing.Frame.{digits, or_none, push_u64}

-- Powers of ten, by their exponent.
abbrev pub pow10 : ℕ → ℕ
pow10 zero = 1
pow10 (suc k) = 10 * pow10 k

size_loop_last :
    (n : ℕ) (acc : Bytes) → size_loop (n / 10) ((b'0' + n % 10) ∷ acc) ≡ size_loop n acc
unfolding size_loop is_digit
size_loop_last n acc = ground arith

size_loop_first :
    (n : ℕ) (acc : Bytes) → n / 10 ≡ 0 → size_loop 0 ((b'0' + n % 10) ∷ acc) ≡ size_loop n acc
unfolding size_loop is_digit
size_loop_first n acc h = ground arith

-- Reading the digits in front of what stands behind them gives the number.
size_loop-digits :
    (room n : ℕ) (acc : Bytes)
    → n < pow10 (suc room)
    → size_loop 0 (or_none (digits (suc room) n acc)) ≡ size_loop n acc
unfolding digits or_none
size_loop-digits zero n acc lt =
    let last : (n / 10 == 0) ≡ true = ground arith in rw last (size_loop_first n acc (omega arith))
size_loop-digits (suc room) n acc lt = elim (Bool-cases (n / 10 == 0)) [
  | inl last ↦ rw last (size_loop_first n acc ((==_iff _ _).0 last))
  | inr more ↦ rw more (size_loop-digits room (n / 10) _ (omega arith) ∙ size_loop_last n acc)
]

-- A number below the power has at most as many digits, and one at least.
pub length-digits :
    (k room n : ℕ) (acc : Bytes)
    → n < pow10 (suc k)
    → k ≤ room
    → (length acc < length (or_none (digits (suc room) n acc)))
      × (length (or_none (digits (suc room) n acc)) ≤ suc k + length acc)
unfolding digits or_none
length-digits zero room n acc lt le =
    let last : (n / 10 == 0) ≡ true = ground arith in rw last (omega arith, omega arith)
length-digits (suc k) zero n acc lt le = absurd (omega arith)
length-digits (suc k) (suc room) n acc lt le = elim (Bool-cases (n / 10 == 0)) [
  | inl last ↦ rw last (omega arith, omega arith)
  | inr more ↦
      let (some_more, few) =
        length-digits k room (n / 10) ((b'0' + n % 10) ∷ acc) (omega arith) (omega arith) in
      rw more (omega (arith, some_more), omega (arith, few))
]

pub length-push_u64 : (k n : ℕ) → n < pow10 (suc k) → k ≤ 19 → length (push_u64 n) ≤ suc k
unfolding push_u64
length-push_u64 k n lt le = omega (arith, (length-digits k 19 n [] lt le).1)

parse_size-size_loop : (d : Bytes) → 0 < length d → length d ≤ 9 → parse_size d ≡ size_loop 0 d
unfolding parse_size
parse_size-size_loop [] h le = elim h [ ]
parse_size-size_loop (b ∷ d) h le =
    let short : ltb 9 (length (b ∷ d)) ≡ false = ground arith in rw short refl

-- A number below 10^9 that `push_u64` writes is read back by the parser's `parse_size`.
pub parse_size-push_u64 : (n : ℕ) → n < 10 ^ 9 → parse_size (push_u64 n) ≡ pos n
unfolding push_u64
parse_size-push_u64 n lt =
    let (some_digits, few) = length-digits 8 19 n [] (omega arith) (omega arith) in
    parse_size-size_loop _ some_digits few
    ∙ size_loop-digits 19 n [] (omega arith)
    ∙ (unfold size_loop in refl)
