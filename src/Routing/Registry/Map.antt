-- ===== src/Routing/Registry/Map.antt =====
-- The map of literal subjects in crates/server/src/routing.rs: its well-formedness, and what each
-- operation does to it and to the number of its subscriptions.
use nats_server_rs.Prelude.{
  ℕ, ◌+◌, Bool, true, false, not, List, [], ◌∷◌, ◌++◌, ◌≡◌, refl, sym, subst, inl, inr, Bytes,
  equal, equal_iff, length, is_empty, retain, length-retain-le, All, All-retain, Bool-cases, arith,
}
use nats_server_rs.Subjects.{has_wildcard}
use nats_server_rs.Routing.Registry.{
  Sub, SubjectMap, get, update_entry, remove_entry, retain_values, removed_values, drop_empty,
}

-- A subscription in the list of subject `k`.
pub record IsLiteral (k : Bytes) (s : Sub) : Type 0 where
  pub subject_is : s.subject ≡ k
  pub not_wild : s.wildcard ≡ false
  pub literal : has_wildcard s.subject ≡ false

abbrev pub IsFresh : Bytes → SubjectMap → Type 0
IsFresh k [] = Unit
IsFresh k ((j, l) ∷ m) = (equal j k ≡ false) × IsFresh k m

-- Every key stands once, with a list that is not empty.
abbrev pub IsMap : SubjectMap → Type 0
IsMap [] = Unit
IsMap ((k, l) ∷ m) = (is_empty l ≡ false) × All (IsLiteral k) l × IsFresh k m × IsMap m

-- The subscriptions of the map, and how many they are.
unfoldable pub flatten : SubjectMap → List Sub
flatten [] = []
flatten ((k, l) ∷ m) = l ++ flatten m

unfoldable pub count : SubjectMap → ℕ
count [] = 0
count ((k, l) ∷ m) = length l + count m

equal-sym-false : (a b : Bytes) → equal a b ≡ false → equal b a ≡ false
equal-sym-false a b h = ground (arith, equal_iff a b, equal_iff b a)

pub get-All : (k : Bytes) (m : SubjectMap) → IsMap m → All (IsLiteral k) (get m k)
unfolding get
get-All k [] v = tt
get-All k ((j, l) ∷ m) v = elim (Bool-cases (equal j k)) [
  | inl hit ↦ rw (hit, ← (equal_iff j k).0 hit) (v.1)
  | inr miss ↦ rw miss (get-All k m v.3)
]

update_entry-IsFresh :
    (f : List Sub → List Sub) (j k : Bytes) (m : SubjectMap)
    → equal k j ≡ false
    → IsFresh j m
    → IsFresh j (update_entry f k m)
unfolding update_entry
update_entry-IsFresh f j k [] n v = (n, tt)
update_entry-IsFresh f j k ((i, l) ∷ m) n v = elim (Bool-cases (equal i k)) [
  | inl hit ↦ rw hit v
  | inr miss ↦ rw miss (v.0, update_entry-IsFresh f j k m n v.1)
]

pub update_entry-IsMap :
    (f : List Sub → List Sub) (k : Bytes) (m : SubjectMap)
    → is_empty (f (get m k)) ≡ false
    → All (IsLiteral k) (f (get m k))
    → IsMap m
    → IsMap (update_entry f k m)
unfolding update_entry get
update_entry-IsMap f k [] e a v = (e, a, tt, tt)
update_entry-IsMap f k ((j, l) ∷ m) e a v = elim (Bool-cases (equal j k)) [
  | inl hit ↦
      let here = rw hit at a in
      rw hit (
        rw hit at e,
        subst (λ (i : Bytes). All (IsLiteral i) (f l)) (sym ((equal_iff j k).0 hit)) here,
        v.2,
        v.3,
      )
  | inr miss ↦
      let other : equal k j ≡ false = equal-sym-false j k miss in
      rw miss (
        v.0,
        v.1,
        update_entry-IsFresh f j k m other v.2,
        update_entry-IsMap f k m (rw miss at e) (rw miss at a) v.3,
      )
]

-- An entry changed by `f` changes the number of subscriptions by what `f` adds to its list.
pub count-update_entry :
    (f : List Sub → List Sub) (k : Bytes) (m : SubjectMap)
    → count (update_entry f k m) + length (get m k) ≡ count m + length (f (get m k))
unfolding count update_entry get
count-update_entry f k [] = omega arith
count-update_entry f k ((j, l) ∷ m) = ground (arith, count-update_entry f k m)

remove_entry-IsFresh :
    (gone : Sub → Bool) (j k : Bytes) (m : SubjectMap)
    → IsFresh j m
    → IsFresh j (remove_entry gone k m)
unfolding remove_entry
remove_entry-IsFresh gone j k [] v = tt
remove_entry-IsFresh gone j k ((i, l) ∷ m) v = ground (arith, remove_entry-IsFresh gone j k m v.1)

pub remove_entry-IsMap :
    (gone : Sub → Bool) (k : Bytes) (m : SubjectMap) → IsMap m → IsMap (remove_entry gone k m)
unfolding remove_entry
remove_entry-IsMap gone k [] v = tt
remove_entry-IsMap gone k ((j, l) ∷ m) v =
    let kept = All-retain (IsLiteral j) (λ s. not (gone s)) l v.1 in
    elim (Bool-cases (equal j k)) [
      | inl hit ↦ elim (Bool-cases (is_empty (retain (λ s. not (gone s)) l))) [
        | inl bare ↦ rw (hit, bare) v.3
        | inr left ↦ rw (hit, left) (left, kept, v.2, v.3)
      ]
      | inr miss ↦
          rw miss (v.0, v.1, remove_entry-IsFresh gone j k m v.2, remove_entry-IsMap gone k m v.3)
    ]

empty-length : (l : List Sub) → is_empty l ≡ true → length l ≡ 0
empty-length [] e = refl
empty-length (s ∷ l) e = cc

-- What goes from the map is what goes from the entry.
pub count-remove_entry :
    (gone : Sub → Bool) (k : Bytes) (m : SubjectMap)
    → count (remove_entry gone k m) + length (get m k)
      ≡ count m + length (retain (λ s. not (gone s)) (get m k))
unfolding count remove_entry get
count-remove_entry gone k [] = refl
count-remove_entry gone k ((j, l) ∷ m) =
    ground (arith, count-remove_entry gone k m, empty-length (retain (λ s. not (gone s)) l))

retain_values-IsFresh :
    (keep : Sub → Bool) (j : Bytes) (m : SubjectMap)
    → IsFresh j m
    → IsFresh j (drop_empty (retain_values keep m))
unfolding retain_values drop_empty
retain_values-IsFresh keep j [] v = tt
retain_values-IsFresh keep j ((i, l) ∷ m) v = ground (arith, retain_values-IsFresh keep j m v.1)

pub retain_values-IsMap :
    (keep : Sub → Bool) (m : SubjectMap) → IsMap m → IsMap (drop_empty (retain_values keep m))
unfolding retain_values drop_empty
retain_values-IsMap keep [] v = tt
retain_values-IsMap keep ((j, l) ∷ m) v =
    let rest = retain_values-IsMap keep m v.3 in
    elim (Bool-cases (is_empty (retain keep l))) [
      | inl bare ↦ rw bare rest
      | inr left ↦
          rw left
            (left, All-retain (IsLiteral j) keep l v.1, retain_values-IsFresh keep j m v.2, rest)
    ]

pub count-retain_values :
    (keep : Sub → Bool) (m : SubjectMap)
    → count (drop_empty (retain_values keep m)) + removed_values keep m ≡ count m
unfolding count retain_values drop_empty removed_values
count-retain_values keep [] = omega arith
count-retain_values keep ((j, l) ∷ m) =
    ground
      (arith, count-retain_values keep m, length-retain-le keep l, empty-length (retain keep l))
