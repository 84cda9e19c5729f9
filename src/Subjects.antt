-- ===== src/Subjects.antt =====
-- crates/server/src/subjects.rs: tokenizing, validation and wildcard matching of subjects.
pub mod Split
pub mod Grammar
pub mod Matching
use nats_server_rs.Prelude.{
  ℕ, suc, ◌+◌, Bool, true, false, not, ◌&&◌, ◌||◌, Option, none, some, List, [], ◌∷◌, Bytes,
  if◌then◌else◌, ◌==◌, ltb, length, is_empty, any, equal,
}
use Split.{split}

-- `.`, the token separator; `*`, exactly one token; `>`, one or more trailing tokens.
abbrev pub sep : ℕ
sep = b'.'

abbrev pub pwc : ℕ
pwc = b'*'

abbrev pub fwc : ℕ
fwc = b'>'

-- `ILLEGAL_IN_TOKEN.contains(b)`: tab, newline, form feed, carriage return and space.
unfoldable pub is_illegal : ℕ → Bool
is_illegal b = b == 9 || b == 10 || b == 12 || b == 13 || b == 32

-- `tok[0] == wild`, for a token that is not empty.
abbrev pub first_is : ℕ → Bytes → Bool
first_is wild [] = false
first_is wild (b ∷ bs) = b == wild

-- One round of the loop of `is_valid`: `none` is its `return false`, `some` the next `after_fw`.
unfoldable pub check_token : Bool → Bytes → Option Bool
check_token after_fw tok =
    if is_empty tok || after_fw
    then none
    else if ltb 1 (length tok)
    then (if any is_illegal tok then none else some after_fw)
    else if first_is fwc tok
    then some true
    else some after_fw

unfoldable pub check_tokens : Bool → List Bytes → Bool
check_tokens after_fw [] = true
check_tokens after_fw (tok ∷ toks) = elim (check_token after_fw tok) [
  | none ↦ false
  | some after_fw' ↦ check_tokens after_fw' toks
]

unfoldable pub is_valid : Bytes → Bool
unfolding check_tokens check_token is_illegal split
is_valid s = if is_empty s then false else check_tokens false (split sep s)

-- `tok.len() == 1 && (tok[0] == PWC || tok[0] == FWC)`
unfoldable pub is_wild : Bytes → Bool
is_wild tok = length tok == 1 && (first_is pwc tok || first_is fwc tok)

unfoldable pub has_wildcard : Bytes → Bool
unfolding split is_wild
has_wildcard s = any is_wild (split sep s)

unfoldable pub is_valid_publish : Bytes → Bool
unfolding is_valid has_wildcard
is_valid_publish s = is_valid s && not (has_wildcard s)

-- The loop of `matches`: the arms of its `match (f.next(), s.next())`, in their order.
unfoldable pub match_tokens : List Bytes → List Bytes → Bool
match_tokens (ftok ∷ f) (stok ∷ s) =
    if equal ftok (fwc ∷ [])
    then true
    else if not (equal ftok stok) && not (equal ftok (pwc ∷ []))
    then false
    else match_tokens f s
match_tokens (ftok ∷ f) [] = false
match_tokens [] (stok ∷ s) = false
match_tokens [] [] = true

unfoldable pub matches : Bytes → Bytes → Bool
unfolding match_tokens split equal
matches filter subject = match_tokens (split sep filter) (split sep subject)

-- `s.iter().filter(|b| **b == SEP).count()`
unfoldable pub count_seps : Bytes → ℕ
count_seps [] = 0
count_seps (b ∷ bs) = (if b == sep then 1 else 0) + count_seps bs

unfoldable pub tokens : Bytes → ℕ
unfolding count_seps
tokens s = if is_empty s then 0 else count_seps s + 1
