-- ===== src/Subjects/Split.antt =====
-- The standard library's `slice::split`, which subjects.rs tokenizes with, and its inverse.
use nats_server_rs.Prelude.{
  ℕ, List, [], ◌∷◌, ◌++◌, ◌≡◌, ◌≢◌, refl, ap, sym, ◌∙◌, Bytes, if◌then◌else◌, ◌==◌, Bool-cases, inl,
  inr, arith,
}

-- Puts a byte in front of the first piece.
abbrev pub onto_first : ℕ → List Bytes → List Bytes
onto_first c [] = (c ∷ []) ∷ []
onto_first c (p ∷ ps) = (c ∷ p) ∷ ps

unfoldable pub split : ℕ → Bytes → List Bytes
split sep [] = [] ∷ []
split sep (c ∷ cs) = let rest = split sep cs in if c == sep then [] ∷ rest else onto_first c rest

-- The pieces with the separator between them.
unfoldable pub join : ℕ → List Bytes → Bytes
join sep [] = []
join sep (p ∷ []) = p
join sep (p ∷ q ∷ ps) = p ++ (sep ∷ join sep (q ∷ ps))

pub split-ne-nil : (sep : ℕ) (s : Bytes) → split sep s ≢ []
unfolding split
split-ne-nil sep [] h = cc
split-ne-nil sep (c ∷ cs) h = ground (arith, split-ne-nil sep cs)

join-onto_first : (sep c : ℕ) (ps : List Bytes) → join sep (onto_first c ps) ≡ c ∷ join sep ps
unfolding join
join-onto_first sep c [] = refl
join-onto_first sep c (p ∷ []) = refl
join-onto_first sep c (p ∷ q ∷ ps) = refl

join-nil_cons : (sep : ℕ) (ps : List Bytes) → ps ≢ [] → join sep ([] ∷ ps) ≡ sep ∷ join sep ps
unfolding join
join-nil_cons sep [] h = absurd (h refl)
join-nil_cons sep (p ∷ ps) h = refl

-- Joining the tokens of a text gives the text back.
pub join-split : (sep : ℕ) (s : Bytes) → join sep (split sep s) ≡ s
unfolding split
join-split sep [] = unfold join in refl
join-split sep (c ∷ cs) = elim (Bool-cases (c == sep)) [
  | inl hit ↦
      rw hit
        (join-nil_cons sep (split sep cs) (split-ne-nil sep cs) ∙ ground (arith, join-split sep cs))
  | inr miss ↦ rw miss (join-onto_first sep c (split sep cs) ∙ ap (◌∷◌ c) (join-split sep cs))
]

-- So the tokens determine the text.
pub split-injective : (sep : ℕ) (s t : Bytes) → split sep s ≡ split sep t → s ≡ t
split-injective sep s t h = sym (join-split sep s) ∙ ap (join sep) h ∙ join-split sep t
