-- ===== src/Config/Strings.antt =====
-- What crates/server/src/config.rs uses of `str`. A text is the list of its characters' code points.
use nats_server_rs.Prelude.{
  ℕ, Bool, ◌&&◌, ◌||◌, Option, none, some, List, [], ◌∷◌, ◌++◌, leb, ◌==◌, if◌then◌else◌,
}

abbrev pub Text : Type 0
Text = List ℕ

-- `char::is_whitespace`
unfoldable pub is_white : ℕ → Bool
is_white c =
    (leb 9 c && leb c 13)
    || c == 32
    || c == 0x85
    || c == 0xA0
    || c == 0x1680
    || (leb 0x2000 c && leb c 0x200A)
    || c == 0x2028
    || c == 0x2029
    || c == 0x202F
    || c == 0x205F
    || c == 0x3000

unfoldable pub trim_start_by : (ℕ → Bool) → Text → Text
trim_start_by p [] = []
trim_start_by p (c ∷ s) = let rest = trim_start_by p s in if p c then rest else c ∷ s

-- A character goes when it fits and nothing is left behind it.
unfoldable pub put_unless : Bool → ℕ → Text → Text
put_unless fits c [] = if fits then [] else c ∷ []
put_unless fits c (d ∷ s) = c ∷ d ∷ s

unfoldable pub trim_end_by : (ℕ → Bool) → Text → Text
unfolding put_unless
trim_end_by p [] = []
trim_end_by p (c ∷ s) = put_unless (p c) c (trim_end_by p s)

-- `trim_matches`
unfoldable pub trim_by : (ℕ → Bool) → Text → Text
unfolding trim_start_by trim_end_by
trim_by p s = trim_end_by p (trim_start_by p s)

unfoldable pub trim : Text → Text
unfolding trim_by is_white
trim s = trim_by is_white s

-- The text in front of the first `c`, or all of it: `match raw.find(c)`.
unfoldable pub before : ℕ → Text → Text
before c [] = []
before c (d ∷ s) = let rest = before c s in if d == c then [] else d ∷ rest

unfoldable pub onto_left : ℕ → Option (Text × Text) → Option (Text × Text)
onto_left c none = none
onto_left c (some (l, r)) = some (c ∷ l, r)

unfoldable pub split_once : ℕ → Text → Option (Text × Text)
unfolding onto_left
split_once c [] = none
split_once c (d ∷ s) = if d == c then some ([], s) else onto_left d (split_once c s)

-- `lines`: a line ends at `\n`, with a `\r` in front of it; no line stands behind the last `\n`.
unfoldable pub without_cr : Text → Text
without_cr [] = []
without_cr (c ∷ []) = if c == 13 then [] else c ∷ []
without_cr (c ∷ d ∷ s) = c ∷ without_cr (d ∷ s)

unfoldable pub lines_from : Text → Text → List Text
unfolding without_cr
lines_from [] [] = []
lines_from (c ∷ line) [] = (c ∷ line) ∷ []
lines_from line (c ∷ s) =
    if c == 10 then without_cr line ∷ lines_from [] s else lines_from (line ++ c ∷ []) s

unfoldable pub lines : Text → List Text
unfolding lines_from
lines s = lines_from [] s

unfoldable pub strip_prefix : Text → Text → Option Text
strip_prefix [] s = some s
strip_prefix (c ∷ p) [] = none
strip_prefix (c ∷ p) (d ∷ s) = if c == d then strip_prefix p s else none
