-- ===== src/Subjects/Grammar.antt =====
-- `is_valid` of crates/server/src/subjects.rs against the grammar of subjects.
use nats_server_rs.Prelude.{
  ℕ, ◌<◌, Bool, true, false, List, [], ◌∷◌, ◌≡◌, ◌≢◌, ◌↔◌, refl, Bytes, All, length, any, arith,
}
use nats_server_rs.Subjects.Split.{split, split-ne-nil}
use nats_server_rs.Subjects.{sep, fwc, is_illegal, check_token, check_tokens, is_valid}

-- A token is not empty, and a token of several bytes holds no illegal one.
abbrev pub IsToken : Bytes → Type 0
IsToken tok = (tok ≢ []) × (1 < length tok → All (λ b. is_illegal b ≡ false) tok)

-- A subject or filter: one token at least, and `>` only as the last one.
abbrev pub IsSubject : List Bytes → Type 0
IsSubject [] = ⊥
IsSubject (tok ∷ []) = IsToken tok
IsSubject (tok ∷ tok' ∷ toks) = IsToken tok × (tok ≢ fwc ∷ []) × IsSubject (tok' ∷ toks)

any-All : (p : ℕ → Bool) (l : Bytes) → (any p l ≡ false) ↔ All (λ b. p b ≡ false) l
any-All p [] = (λ _. tt, λ _. refl)
any-All p (b ∷ bs) = ground (arith, any-All p bs)

-- After `>` no token may come.
check_tokens_after : (tok : Bytes) (toks : List Bytes) → check_tokens true (tok ∷ toks) ≡ false
unfolding check_tokens check_token
check_tokens_after [] toks = refl
check_tokens_after (b ∷ bs) toks = refl

check_tokens_iff :
    (tok : Bytes) (toks : List Bytes)
    → (check_tokens false (tok ∷ toks) ≡ true) ↔ IsSubject (tok ∷ toks)
unfolding check_tokens check_token
check_tokens_iff [] [] = (λ h. cc, λ h. absurd (h.0 refl))
check_tokens_iff [] (u ∷ us) = (λ h. cc, λ h. absurd (h.0.0 refl))
check_tokens_iff (b ∷ []) [] = (λ h. ground arith, λ h. ground arith)
check_tokens_iff (b ∷ c ∷ bs) [] =
    let spec = any-All is_illegal (b ∷ c ∷ bs) in
    (λ h. ((λ e. cc), λ _. spec.0 (ground arith)), λ h. ground (arith, spec.1 (h.1 (omega arith))))
check_tokens_iff (b ∷ []) (u ∷ us) =
    let ih = check_tokens_iff u us in
    let after = check_tokens_after u us in
    (λ h. ground (arith, ih.0), λ h. ground (arith, ih.1 h.2))
check_tokens_iff (b ∷ c ∷ bs) (u ∷ us) =
    let spec = any-All is_illegal (b ∷ c ∷ bs) in
    let ih = check_tokens_iff u us in
    (
      λ h. (((λ e. cc), λ _. spec.0 (ground arith)), (λ e. cc), ih.0 (ground arith)),
      λ h. ground (arith, spec.1 (h.0.1 (omega arith)), ih.1 h.2),
    )

check_tokens-IsSubject :
    (toks : List Bytes) → toks ≢ [] → (check_tokens false toks ≡ true) ↔ IsSubject toks
check_tokens-IsSubject [] h = absurd (h refl)
check_tokens-IsSubject (tok ∷ toks) h = check_tokens_iff tok toks

-- `is_valid` accepts exactly the texts whose tokens form a subject.
pub is_valid_iff : (s : Bytes) → (is_valid s ≡ true) ↔ IsSubject (split sep s)
unfolding is_valid
is_valid_iff [] = (λ h. cc, λ h. absurd (h.0 refl))
is_valid_iff (b ∷ bs) = check_tokens-IsSubject (split sep (b ∷ bs)) (split-ne-nil sep (b ∷ bs))
