-- ===== src/Proto/Parts.antt =====
-- `Parts` of crates/server/src/proto.rs: the pieces of a publish body seen so far. A `Bytes` is its
-- content here, so a copy that owns its bytes is the same value.
pub mod Order
use nats_server_rs.Prelude.{
  ℕ, ◌+◌, Bool, true, false, Option, none, some, List, [], ◌∷◌, ◌++◌, Bytes, length, if◌then◌else◌,
}

pub record Parts : Type 0 where
  pub first : Option Bytes
  pub rest : List Bytes
  pub got : ℕ
  pub fresh : Bool

abbrev pub new : Parts
new = record { first = none; rest = []; got = 0; fresh = false }

-- `push`: `first.take()` leaves `None` behind, and is filled again only where it was `None`.
unfoldable pub place : Option Bytes → List Bytes → Bytes → Option Bytes × List Bytes
place none rest b = (some b, rest)
place (some f) rest b = (none, rest ++ (f ∷ b ∷ []))

unfoldable pub push : Parts → Bytes → Parts
unfolding place
push p b =
    let (first, rest) = place p.first p.rest b in
    record { first = first; rest = rest; got = p.got + length b; fresh = true }

-- `own`: the same bytes in an allocation of their own.
unfoldable pub own : Bytes → Bytes
own b = b

-- `rest.last_mut()` is replaced by its owned copy, else `first` is.
pub own_last : List Bytes → List Bytes
unfolding own
own_last [] = []
own_last (b ∷ []) = own b ∷ []
own_last (b ∷ c ∷ bs) = b ∷ own_last (c ∷ bs)

pub own_first : Option Bytes → Option Bytes
unfolding own
own_first none = none
own_first (some f) = some (own f)

pub hoist_pieces : Option Bytes → List Bytes → Option Bytes × List Bytes
unfolding own_last own_first
hoist_pieces first [] = (own_first first, [])
hoist_pieces first (b ∷ bs) = (first, own_last (b ∷ bs))

unfoldable pub hoist : Parts → Parts
unfolding hoist_pieces
hoist p =
    let (first, rest) = hoist_pieces p.first p.rest in
    if p.fresh then record p { first = first; rest = rest; fresh = false } else p

-- `out.extend_from_slice(&part)` for each part.
unfoldable pub concat : List Bytes → Bytes
concat [] = []
concat (b ∷ bs) = b ++ concat bs

unfoldable pub assemble : Option Bytes → List Bytes → Bytes
unfolding concat
assemble (some b) [] = b
assemble none [] = []
assemble (some f) (b ∷ bs) = f ++ concat (b ∷ bs)
assemble none (b ∷ bs) = concat (b ∷ bs)

-- The body that `take_body` returns; the pieces are gone afterwards, with the state they stood in.
unfoldable pub take_body : Parts → Bytes
unfolding assemble
take_body p = assemble p.first p.rest
