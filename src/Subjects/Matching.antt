-- ===== src/Subjects/Matching.antt =====
-- `matches` of crates/server/src/subjects.rs against a relation between filters and subjects.
use nats_server_rs.Prelude.{
  true, false, List, [], ◌∷◌, ◌≡◌, ◌↔◌, ◌⊎◌, inl, inr, refl, Bytes, any, equal_iff, equal_self,
  arith,
}
use nats_server_rs.Subjects.Split.{split, split-injective}
use nats_server_rs.Subjects.{sep, pwc, fwc, is_wild, has_wildcard, match_tokens, matches}

-- The filter's tokens against the subject's: `>` stands for one or more, `*` for exactly one.
pub data Matches : List Bytes → List Bytes → Type 0 where
  done : Matches [] []
  rest : {ftok stok : Bytes} {f s : List Bytes} → ftok ≡ fwc ∷ [] → Matches (ftok ∷ f) (stok ∷ s)
  star :
      {ftok stok : Bytes} {f s : List Bytes}
      → ftok ≡ pwc ∷ []
      → Matches f s
      → Matches (ftok ∷ f) (stok ∷ s)
  same :
      {ftok stok : Bytes} {f s : List Bytes}
      → ftok ≡ stok
      → Matches f s
      → Matches (ftok ∷ f) (stok ∷ s)

match_tokens_cases :
    (ftok stok : Bytes) (f s : List Bytes)
    → match_tokens (ftok ∷ f) (stok ∷ s) ≡ true
    → (ftok ≡ fwc ∷ []) ⊎ ((ftok ≡ pwc ∷ []) ⊎ (ftok ≡ stok)) × (match_tokens f s ≡ true)
unfolding match_tokens
match_tokens_cases ftok stok f s h =
    ground (arith, equal_iff ftok (fwc ∷ []), equal_iff ftok (pwc ∷ []), equal_iff ftok stok)

match_tokens-sound : (f s : List Bytes) → match_tokens f s ≡ true → Matches f s
match_tokens-sound [] [] h = done
match_tokens-sound [] (stok ∷ s) h = unfold match_tokens in cc
match_tokens-sound (ftok ∷ f) [] h = unfold match_tokens in cc
match_tokens-sound (ftok ∷ f) (stok ∷ s) h = elim (match_tokens_cases ftok stok f s h) [
  | inl e ↦ rest e
  | inr (inl e, m) ↦ star e (match_tokens-sound f s m)
  | inr (inr e, m) ↦ same e (match_tokens-sound f s m)
]

match_tokens_complete : {f s : List Bytes} → Matches f s → match_tokens f s ≡ true
unfolding match_tokens
match_tokens_complete done = refl
match_tokens_complete (rest {ftok} e) = ground (arith, equal_iff ftok (fwc ∷ []))
match_tokens_complete (star {ftok} e m) =
    ground (arith, equal_iff ftok (pwc ∷ []), match_tokens_complete m)
match_tokens_complete (same {ftok} {stok} e m) =
    ground (arith, equal_iff ftok stok, match_tokens_complete m)

-- `matches` decides whether a filter's tokens match a subject's, by the relation in which `>`
-- stands for one or more tokens and `*` for exactly one.
pub matches_iff :
    (filter subject : Bytes)
    → (matches filter subject ≡ true) ↔ Matches (split sep filter) (split sep subject)
unfolding matches
matches_iff filter subject = (match_tokens-sound _ _, match_tokens_complete)

match_tokens_literal : (f s : List Bytes) → any is_wild f ≡ false → match_tokens f s ≡ true → f ≡ s
unfolding match_tokens is_wild
match_tokens_literal [] [] w h = refl
match_tokens_literal [] (stok ∷ s) w h = cc
match_tokens_literal (ftok ∷ f) [] w h = cc
match_tokens_literal (ftok ∷ f) (stok ∷ s) w h = ground (
  arith,
  equal_iff ftok (fwc ∷ []),
  equal_iff ftok (pwc ∷ []),
  equal_iff ftok stok,
  match_tokens_literal f s,
)

match_tokens_self : (f : List Bytes) → match_tokens f f ≡ true
unfolding match_tokens
match_tokens_self [] = refl
match_tokens_self (tok ∷ f) = ground (arith, equal_self tok, match_tokens_self f)

-- A filter with no wildcard token matches exactly the subject that is the same text.
pub matches_literal_iff :
    (filter subject : Bytes)
    → has_wildcard filter ≡ false
    → (matches filter subject ≡ true) ↔ (filter ≡ subject)
unfolding matches has_wildcard
matches_literal_iff filter subject w = (
  λ h. split-injective sep filter subject (match_tokens_literal _ _ w h),
  λ e. rw e (match_tokens_self (split sep subject)),
)
