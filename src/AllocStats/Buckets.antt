-- ===== src/AllocStats/Buckets.antt =====
-- The histogram of crates/server/src/allocstats.rs against its bounds.
use nats_server_rs.Prelude.{
  ℕ, zero, suc, ◌/◌, ◌^◌, ◌≤◌, ◌<◌, false, ◌==◌, arith, ◌≡◌, Bool-cases, inl, inr, subst,
}
use native.Mathlib.Nat.{two-pow-succ}
use nats_server_rs.AllocStats.{bit_length, bucket}

-- The sizes that the histogram's doc gives to a bucket.
abbrev pub InBucket : ℕ → ℕ → Type 0
InBucket size zero = size ≡ 0
InBucket size (suc n) = (2 ^ n ≤ size) × (size < 2 ^ suc n)

InBucket-half : (size n : ℕ) → (size == 0) ≡ false → InBucket (size / 2) n → InBucket size (suc n)
InBucket-half size zero h l = ground (arith, h, l)
InBucket-half size (suc n) h l = omega (arith, two-pow-succ n, two-pow-succ (suc n))

InBucket-bit_length : (fuel size : ℕ) → size < 2 ^ fuel → InBucket size (bit_length fuel size)
unfolding bit_length
InBucket-bit_length zero size h = omega arith
InBucket-bit_length (suc fuel) size h = elim (Bool-cases (size == 0)) [
  | inl e ↦ rw e (ground arith)
  | inr e ↦ rw e (
      InBucket-half size _ e
        (InBucket-bit_length fuel (size / 2) (omega (arith, two-pow-succ fuel))))
]

-- Below the last bucket, a size of 64 bits falls in bucket 0 when it is 0, and otherwise in the
-- bucket n with 2^(n-1) <= size < 2^n.
pub bucket-InBucket : (size n : ℕ) → size < 2 ^ 64 → bucket size ≡ n → n < 27 → InBucket size n
unfolding bucket
bucket-InBucket size n h e lt =
    let same : bit_length 64 size ≡ n = omega arith in
    subst (InBucket size) same (InBucket-bit_length 64 size h)
