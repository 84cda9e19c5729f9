-- ===== src/Proto/Size.antt =====
-- `parse_size` of crates/server/src/proto.rs: 1 to 9 ASCII digits, or -1.
use nats_server_rs.Prelude.{
  ℕ, ◌+◌, ◌*◌, ◌-◌, ℤ, pos, negsuc, Bool, ◌&&◌, ◌||◌, [], ◌∷◌, Bytes, ltb, leb, length, is_empty,
  if◌then◌else◌,
}

unfoldable pub is_digit : ℕ → Bool
is_digit b = leb b'0' b && leb b b'9'

-- The loop over the digits; at most nine rounds, so `n` stays far below the bound of an `i64`.
unfoldable pub size_loop : ℕ → Bytes → ℤ
unfolding is_digit
size_loop n [] = pos n
size_loop n (b ∷ bs) = if is_digit b then size_loop (n * 10 + (b - b'0')) bs else negsuc 0

unfoldable pub parse_size : Bytes → ℤ
unfolding size_loop
parse_size d = if is_empty d || ltb 9 (length d) then negsuc 0 else size_loop 0 d
