-- ===== src/Client/Options.antt =====
-- `Options` of crates/server/src/client.rs: what CONNECT said.
use Prim.Native.Nat.{bit_and, bit_or}
use nats_server_rs.Prelude.{
  ℕ, ◌*◌, Bool, true, false, not, Option, none, some, Bytes, ◌==◌, codes, ◌≡◌, refl,
}

pub record Options : Type 0 where
  pub verbose : Bool
  pub pedantic : Bool
  pub echo : Bool
  pub headers : Bool
  pub no_responders : Bool

-- `Options::default`
abbrev pub default : Options
default = record {
  verbose = true;
  pedantic = true;
  echo = true;
  headers = false;
  no_responders = false;
}

-- `b as u64`
unfoldable pub as_u64 : Bool → ℕ
as_u64 true = 1
as_u64 false = 0

unfoldable pub pack : Options → ℕ
unfolding as_u64
pack o = bit_or (as_u64 o.verbose) (
    bit_or (as_u64 o.pedantic * 2)
      (bit_or (as_u64 o.echo * 4) (bit_or (as_u64 o.headers * 8) (as_u64 o.no_responders * 16))))

unfoldable pub has_bit : ℕ → ℕ → Bool
has_bit word bit = not (bit_and word bit == 0)

unfoldable pub unpack : ℕ → Options
unfolding has_bit
unpack word = record {
  verbose = has_bit word 1;
  pedantic = has_bit word 2;
  echo = has_bit word 4;
  headers = has_bit word 8;
  no_responders = has_bit word 16;
}

unpack_bits :
    (v p e h n : Bool)
    → unpack (pack (record { verbose = v; pedantic = p; echo = e; headers = h; no_responders = n }))
      ≡ record { verbose = v; pedantic = p; echo = e; headers = h; no_responders = n }
unfolding unpack pack
unpack_bits true true true true true = refl
unpack_bits true true true true false = refl
unpack_bits true true true false true = refl
unpack_bits true true true false false = refl
unpack_bits true true false true true = refl
unpack_bits true true false true false = refl
unpack_bits true true false false true = refl
unpack_bits true true false false false = refl
unpack_bits true false true true true = refl
unpack_bits true false true true false = refl
unpack_bits true false true false true = refl
unpack_bits true false true false false = refl
unpack_bits true false false true true = refl
unpack_bits true false false true false = refl
unpack_bits true false false false true = refl
unpack_bits true false false false false = refl
unpack_bits false true true true true = refl
unpack_bits false true true true false = refl
unpack_bits false true true false true = refl
unpack_bits false true true false false = refl
unpack_bits false true false true true = refl
unpack_bits false true false true false = refl
unpack_bits false true false false true = refl
unpack_bits false true false false false = refl
unpack_bits false false true true true = refl
unpack_bits false false true true false = refl
unpack_bits false false true false true = refl
unpack_bits false false true false false = refl
unpack_bits false false false true true = refl
unpack_bits false false false true false = refl
unpack_bits false false false false true = refl
unpack_bits false false false false false = refl

-- The word that a connection keeps holds its options: unpacking it gives them back.
pub unpack-pack : (o : Options) → unpack (pack o) ≡ o
unpack-pack o = unpack_bits o.verbose o.pedantic o.echo o.headers o.no_responders

-- What client.rs uses of `serde_json`: parsing, and looking into the parsed value.
pub record Json : Type 1 where
  pub Value : Type 0
  pub Object : Type 0
  pub from_slice : Bytes → Option Value
  pub as_object : Value → Option Object
  pub get : Object → Bytes → Option Value
  pub as_bool : Value → Option Bool

-- The arms of one round of the loop: a key that is absent, or whose value is no Boolean, keeps `old`.
unfoldable pub or_old : Bool → Option Bool → Bool
or_old old none = old
or_old old (some b) = b

module _ (json : Json) where
  unfoldable pub bool_at : Bool → Option (Json.Value json) → Bool
  unfolding or_old
  bool_at old none = old
  bool_at old (some v) = or_old old (Json.as_bool json v)

  unfoldable pub apply_object : Options → Option (Json.Object json) → Bool × Options
  unfolding bool_at codes
  apply_object o none = (false, o)
  apply_object o (some obj) = (
    true,
    record {
      verbose = bool_at o.verbose (Json.get json obj (codes "verbose"));
      pedantic = bool_at o.pedantic (Json.get json obj (codes "pedantic"));
      echo = bool_at o.echo (Json.get json obj (codes "echo"));
      headers = bool_at o.headers (Json.get json obj (codes "headers"));
      no_responders = bool_at o.no_responders (Json.get json obj (codes "no_responders"));
    },
  )

  unfoldable pub apply_value : Options → Option (Json.Value json) → Bool × Options
  unfolding apply_object
  apply_value o none = (false, o)
  apply_value o (some v) = apply_object o (Json.as_object json v)

  -- `apply_connect`
  unfoldable pub apply_connect : Options → Bytes → Bool × Options
  unfolding apply_value
  apply_connect o text = apply_value o (Json.from_slice json text)
