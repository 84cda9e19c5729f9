-- ===== src/Proto/Args.antt =====
-- `Args` of crates/server/src/proto.rs: an argument list, by range into the control line.
pub mod Words
use nats_server_rs.Prelude.{
  ℕ, suc, ◌+◌, ◌-◌, min, Bool, ◌||◌, Option, none, some, List, [], ◌∷◌, Bytes, ltb, ◌==◌, get_or,
  set, take, drop, if◌then◌else◌,
}

abbrev pub max_args : ℕ
max_args = 5

pub record Args : Type 0 where
  pub range : List (ℕ × ℕ)
  pub len : ℕ
  pub base : ℕ

abbrev pub no_args : ℕ → Args
no_args base = record {
  range = (0, 0) ∷ (0, 0) ∷ (0, 0) ∷ (0, 0) ∷ (0, 0) ∷ [];
  len = 0;
  base = base;
}

-- `self.len` counts on past the array, far below the bound at which it would saturate.
unfoldable pub push : Args → ℕ → ℕ → Args
push a from to = record a {
  range = if ltb a.len max_args then set a.range a.len (a.base + from, a.base + to) else a.range;
  len = a.len + 1;
}

unfoldable pub is_blank : ℕ → Bool
is_blank b = b == b' ' || b == 9

-- `start.take()` at a blank, `start = Some(i)` at the first byte of an argument.
unfoldable pub scan_blank : Option ℕ → ℕ → Args → Args
unfolding push
scan_blank none i a = a
scan_blank (some st) i a = push a st i

unfoldable pub scan_byte : Option ℕ → ℕ → Option ℕ
scan_byte none i = some i
scan_byte (some st) i = some st

-- The loop of `Args::of` over the bytes from index `i` on, and the push behind it.
unfoldable pub scan : Bytes → ℕ → Option ℕ → Args → Args
unfolding scan_blank scan_byte is_blank
scan [] i start a = scan_blank start i a
scan (b ∷ bs) i start a =
    scan bs (suc i) (if is_blank b then none else scan_byte start i)
      (if is_blank b then scan_blank start i a else a)

unfoldable pub of : Bytes → ℕ → Args
unfolding scan
of s base = scan s 0 none (no_args base)

unfoldable pub count : Args → ℕ
count a = min a.len max_args

-- `line[a..b]` of the argument's range; `view` and `slice` of the source give the same bytes.
unfoldable pub slice : Args → Bytes → ℕ → Bytes
slice args line i = let (a, b) = get_or args.range i (0, 0) in take (b - a) (drop a line)
