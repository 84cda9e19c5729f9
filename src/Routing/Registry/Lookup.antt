-- ===== src/Routing/Registry/Lookup.antt =====
-- What a publish finds in the registry of crates/server/src/routing.rs.
use nats_server_rs.Prelude.{
  Bool, true, List, [], ◌∷◌, ◌++◌, ◌≡◌, refl, sym, ap, ◌∙◌, inl, inr, Bytes, equal, equal_iff,
  retain, All, Bool-cases, if◌then◌else◌, arith, append-nil,
}
use nats_server_rs.Subjects.{matches}
use nats_server_rs.Subjects.Matching.{matches_literal_iff}
use nats_server_rs.Routing.Registry.{Sub, SubjectMap, Registry, get, interested}
use nats_server_rs.Routing.Registry.Map.{IsLiteral, IsMap, IsFresh, flatten}
use nats_server_rs.Routing.Registry.Invariant.{IsRegistry}

-- Every subscription, in the order in which the map and the list hold them.
unfoldable pub all_subs : Registry → List Sub
unfolding flatten
all_subs r = flatten r.literal ++ r.wildcard

abbrev matching : Bytes → List Sub → List Sub
matching subject = retain (λ s. matches s.subject subject)

pub retain-append : (p : Sub → Bool) (l m : List Sub) → retain p (l ++ m) ≡ retain p l ++ retain p m
retain-append p [] m = refl
retain-append p (x ∷ l) m = ground (arith, retain-append p l m)

-- A literal filter is for its own subject alone.
IsLiteral-matches :
    (k subject : Bytes) (s : Sub) → IsLiteral k s → matches s.subject subject ≡ equal k subject
IsLiteral-matches k subject s v =
    let iff = matches_literal_iff s.subject subject v.literal in
    ground (arith, iff, v.subject_is, equal_iff k subject)

matching-All :
    (k subject : Bytes) (l : List Sub)
    → All (IsLiteral k) l
    → matching subject l ≡ (if equal k subject then l else [])
matching-All k subject [] v = ground arith
matching-All k subject (s ∷ l) v =
    ground (arith, IsLiteral-matches k subject s v.0, matching-All k subject l v.1)

get_fresh :
    (subject k : Bytes) (m : SubjectMap) → IsFresh k m → equal k subject ≡ true → get m subject ≡ []
unfolding get
get_fresh subject k [] v h = refl
get_fresh subject k ((j, l) ∷ m) v h =
    ground
      (arith, get_fresh subject k m v.1 h, equal_iff j k, equal_iff k subject, equal_iff j subject)

matching-flatten :
    (subject : Bytes) (m : SubjectMap) → IsMap m → matching subject (flatten m) ≡ get m subject
unfolding flatten get
matching-flatten subject [] v = refl
matching-flatten subject ((k, l) ∷ m) v = elim (Bool-cases (equal k subject)) [
  | inl hit ↦
      retain-append _ l (flatten m)
      ∙ rw
          (
            matching-All k subject l v.1,
            matching-flatten subject m v.3,
            hit,
            get_fresh subject k m v.2 hit,
          )
          (append-nil l)
  | inr miss ↦
      retain-append _ l (flatten m)
      ∙ rw (matching-All k subject l v.1, matching-flatten subject m v.3, miss)
]

-- In a well-formed registry the lookup of the subject among the literal filters and the scan of
-- the wildcard filters find what testing every subscription with `matches` finds, in the same
-- order.
pub interested-all_subs :
    (r : Registry) (subject : Bytes)
    → IsRegistry r
    → interested r subject ≡ retain (λ s. matches s.subject subject) (all_subs r)
unfolding interested all_subs
interested-all_subs r subject v = sym (
    retain-append _ (flatten r.literal) r.wildcard
    ∙ ap (λ (l : List Sub). l ++ matching subject r.wildcard)
        (matching-flatten subject r.literal v.entries))
