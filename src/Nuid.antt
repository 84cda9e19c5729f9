-- ===== src/Nuid.antt =====
-- crates/server/src/nuid.rs: the splitmix64 generator and the server's identifier.
use Prim.Native.Nat.{bit_xor}
use nats_server_rs.Prelude.{
  ℕ, zero, suc, ◌+◌, ◌*◌, ◌/◌, ◌%◌, ◌^◌, [], ◌∷◌, Bytes, ◌==◌, get_or, if◌then◌else◌, codes,
}

abbrev pub u64_mod : ℕ
u64_mod = 2 ^ 64

unfoldable pub wrapping_mul : ℕ → ℕ → ℕ
wrapping_mul a b = (a * b) % u64_mod

-- `Rng::new` over the seed that the environment gives; `rotate_left(17)` of a 64-bit word.
unfoldable pub new : ℕ → ℕ
unfolding wrapping_mul
new seed = let z = wrapping_mul seed 0x9E3779B97F4A7C15 in (z * 2 ^ 17) % u64_mod + z / 2 ^ 47

-- The state after a call, and the word that the call returns.
unfoldable pub next_u64 : ℕ → ℕ × ℕ
unfolding wrapping_mul
next_u64 s =
    let s' = (s + 0x9E3779B97F4A7C15) % u64_mod in
    let y = wrapping_mul (bit_xor s' (s' / 2 ^ 30)) 0xBF58476D1CE4E5B9 in
    let z = wrapping_mul (bit_xor y (y / 2 ^ 27)) 0x94D049BB133111EB in (s', bit_xor z (z / 2 ^ 31))

-- `below`: a zero bound draws nothing.
unfoldable pub below : ℕ → ℕ → ℕ × ℕ
unfolding next_u64
below s bound = if bound == 0 then (s, 0) else (let (s', z) = next_u64 s in (s', z % bound))

unfoldable pub alphabet : Bytes
unfolding codes
alphabet = codes "ABCDEFGHIJKLMNOPQRSTUVWXYZ234567"

-- The loop of `server_id`, over the rounds left.
unfoldable pub draw : ℕ → ℕ → Bytes
unfolding next_u64 alphabet
draw zero s = []
draw (suc n) s = let (s', z) = next_u64 s in get_or alphabet (z % 32) 0 ∷ draw n s'

unfoldable pub server_id : ℕ → Bytes
unfolding draw
server_id s = b'N' ∷ draw 55 s
