-- ===== src/Config/Duration.antt =====
-- `parse_duration_str` of crates/server/src/config.rs. A `Duration` is its nanoseconds. The bytes of a
-- character that is not ASCII are no digits and no dot, so going by characters parts a text as going by
-- bytes does.
pub mod Fuel
use nats_server_rs.Prelude.{
  ℕ, zero, suc, ◌+◌, ◌*◌, ◌%◌, ◌^◌, Bool, true, false, not, ◌&&◌, ◌||◌, Option, none, some, [], ◌∷◌,
  leb, ◌==◌, equal, length, is_empty, if◌then◌else◌, codes,
}
use nats_server_rs.Config.Strings.{Text}

-- What the source uses of `f64`: `str::parse`, and the cast `as u128`.
pub record Float : Type 1 where
  pub F64 : Type 0
  pub parse : Text → Option F64
  pub as_u128 : F64 → ℕ

unfoldable pub is_num : ℕ → Bool
is_num c = (leb b'0' c && leb c b'9') || c == b'.'

-- The longest prefix on which `p` is `b`, and the rest.
unfoldable pub span : (ℕ → Bool) → Text → Text × Text
span p [] = ([], [])
span p (c ∷ s) = let (l, r) = span p s in if p c then (c ∷ l, r) else ([], c ∷ s)

abbrev pub seconds : ℕ
seconds = 1000000000

unfoldable pub scale : Text → Option ℕ
unfolding equal codes
scale u =
    if equal u (codes "ns")
    then some 1
    else if equal u (codes "us") || equal u (0xB5 ∷ b's' ∷ [])
    then some 1000
    else if equal u (codes "ms")
    then some 1000000
    else if equal u (codes "s")
    then some seconds
    else if equal u (codes "m")
    then some (60 * seconds)
    else if equal u (codes "h")
    then some (3600 * seconds)
    else if is_empty u
    then some seconds
    else none

-- `usize::from(negative || b[0] == b'+')`
unfoldable pub skip_sign : Text → Text
skip_sign [] = []
skip_sign (c ∷ s) = if c == b'-' || c == b'+' then s else c ∷ s

unfoldable pub is_negative : Text → Bool
is_negative [] = false
is_negative (c ∷ s) = c == b'-'

module _ (float : Float) where
  -- One group of a number and its unit, added to the total: `u128` wraps.
  unfoldable pub with_scale : ℕ → ℕ → Option ℕ → Option ℕ
  with_scale total num none = none
  with_scale total num (some unit) = some ((total + num * unit) % 2 ^ 128)

  unfoldable pub with_num : ℕ → Text → Option (Float.F64 float) → Option ℕ
  unfolding with_scale scale
  with_num total unit none = none
  with_num total unit (some num) = with_scale total (Float.as_u128 float num) (scale unit)

  -- What a run of the loop comes to; the outer `none` is that the fuel ran out.
  unfoldable pub continue : (ℕ → Option (Option ℕ)) → Option ℕ → Option (Option ℕ)
  continue rest none = some none
  continue rest (some total) = rest total

  unfoldable pub duration_loop : ℕ → Text → ℕ → Option (Option ℕ)
  unfolding span is_num with_num continue
  duration_loop zero s total = none
  duration_loop (suc fuel) [] total = some (some total)
  duration_loop (suc fuel) (c ∷ s) total =
      let (num, behind) = span is_num (c ∷ s) in
      let (unit, rest) = span (λ d. not (is_num d)) behind in
      let after =
        continue (duration_loop fuel rest) (with_num total unit (Float.parse float num)) in
      if is_empty num then some none else after

  -- The sign check, and the cast to `u64`, behind the loop.
  unfoldable pub ended : Bool → Option (Option ℕ) → Option ℕ
  ended negative none = none
  ended negative (some none) = none
  ended negative (some (some total)) = if negative then none else some (total % 2 ^ 64)

  -- Each round of the loop takes one character at least.
  unfoldable pub parse_duration_str : Text → Option ℕ
  unfolding ended duration_loop skip_sign is_negative
  parse_duration_str s =
      if is_empty (skip_sign s)
      then none
      else ended (is_negative s) (duration_loop (length s + 1) (skip_sign s) 0)
