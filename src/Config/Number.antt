-- ===== src/Config/Number.antt =====
-- The integers of crates/server/src/config.rs: `str::parse` and `from_str_radix`, `parse_int`, and the
-- casts.
use nats_server_rs.Prelude.{
  ℕ, zero, suc, ◌+◌, ◌-◌, ◌*◌, ◌%◌, ◌^◌, ◌&&◌, ◌||◌, Option, none, some, [], ◌∷◌, leb, ltb, ◌==◌,
  if◌then◌else◌, ℤ, pos, negsuc,
}
use nats_server_rs.Config.Strings.{Text}

unfoldable pub digit_of : ℕ → ℕ → Option ℕ
digit_of radix c =
    if leb b'0' c && leb c b'9' && ltb (c - b'0') radix
    then some (c - b'0')
    else if leb b'a' c && leb c b'z' && ltb (c - b'a' + 10) radix
    then some (c - b'a' + 10)
    else if leb b'A' c && leb c b'Z' && ltb (c - b'A' + 10) radix
    then some (c - b'A' + 10)
    else none

unfoldable pub next_digit : ℕ → ℕ → ℕ → (ℕ → Option ℕ) → Option ℕ → Option ℕ
next_digit radix bound n rest none = none
next_digit radix bound n rest (some d) =
    if ltb bound (n * radix + d) then none else rest (n * radix + d)

-- The digits behind the value so far; a value above `bound` is an overflow.
unfoldable pub digits_value : ℕ → ℕ → ℕ → Text → Option ℕ
unfolding digit_of next_digit
digits_value radix bound n [] = some n
digits_value radix bound n (c ∷ s) =
    next_digit radix bound n (λ m. digits_value radix bound m s) (digit_of radix c)

unfoldable pub positive : Option ℕ → Option ℤ
positive none = none
positive (some n) = some (pos n)

unfoldable pub negative : Option ℕ → Option ℤ
negative none = none
negative (some zero) = some (pos 0)
negative (some (suc n)) = some (negsuc n)

-- `from_str_radix` of a signed integer whose greatest value is `bound`; the least is one further away.
unfoldable pub from_str_radix : ℕ → ℕ → Text → Option ℤ
unfolding digits_value positive negative
from_str_radix radix bound [] = none
from_str_radix radix bound (c ∷ []) =
    if c == b'+' || c == b'-' then none else positive (digits_value radix bound 0 (c ∷ []))
from_str_radix radix bound (c ∷ d ∷ s) =
    if c == b'-'
    then negative (digits_value radix (bound + 1) 0 (d ∷ s))
    else if c == b'+'
    then positive (digits_value radix bound 0 (d ∷ s))
    else positive (digits_value radix bound 0 (c ∷ d ∷ s))

abbrev pub i64_max : ℕ
i64_max = 2 ^ 63 - 1

abbrev pub i32_max : ℕ
i32_max = 2 ^ 31 - 1

unfoldable pub parse_i64 : Text → Option ℤ
unfolding from_str_radix
parse_i64 s = from_str_radix 10 i64_max s

unfoldable pub parse_i32 : Text → Option ℤ
unfolding from_str_radix
parse_i32 s = from_str_radix 10 i32_max s

-- The casts `as u64` of an `i64`, and `as i32`.
unfoldable pub as_u64 : ℤ → ℕ
as_u64 (pos n) = n
as_u64 (negsuc n) = 2 ^ 64 - 1 - n

unfoldable pub signed32 : ℕ → ℤ
signed32 w = if ltb w (2 ^ 31) then pos w else negsuc (2 ^ 32 - 1 - w)

unfoldable pub as_i32 : ℤ → ℤ
unfolding signed32 as_u64
as_i32 z = signed32 (as_u64 z % 2 ^ 32)
