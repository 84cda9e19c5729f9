-- ===== src/Client/Route/Probe.antt =====
-- The probe of `pick_groups` in crates/server/src/routing.rs: the members of a group from a random start.
use native.Mathlib.Nat.{mod-lt, mod-eq_of_lt, mod-add-mod, add-mod_right}
use nats_server_rs.Prelude.{
  ℕ, zero, suc, ◌+◌, ◌-◌, ◌%◌, ◌≤◌, ◌<◌, Bool, true, false, ◌&&◌, Option, none, some, List, [], ◌∷◌,
  any, All, get_elem?, length, if◌then◌else◌, ltb, ==_iff, ◌==◌, ltb-false→le, Bool-cases, inl, inr,
  arith, ◌≡◌, refl, sym, ap, ◌∙◌, subst,
}
use nats_server_rs.Routing.Registry.{Sub}
use nats_server_rs.Client.Outbox.{wrapping_add, usize_mod}
use nats_server_rs.Client.World.{World, eligible, has_room}
use nats_server_rs.Client.Route.{onto, rotated, find, or_else, pick}

-- A place of the probe that lands on an index, for a start that is `r` modulo the length.
place : ℕ → ℕ → ℕ → ℕ
place r n i = if ltb i r then i + n - r else i - r

place-lt : (r n i : ℕ) → r < n → i < n → place r n i < n
unfolding place
place-lt r n i lr li = ground arith

place_mod : (r n i : ℕ) → r < n → i < n → (r + place r n i) % n ≡ i
unfolding place
place_mod r n i lr li = elim (Bool-cases (ltb i r)) [
  | inl e ↦
      let round : r + (i + n - r) ≡ i + n = omega arith in
      rw (e, round) (add-mod_right i n ∙ mod-eq_of_lt li)
  | inr e ↦
      let straight : r + (i - r) ≡ i = omega (arith, ltb-false→le i r e) in
      rw (e, straight) (mod-eq_of_lt li)
]

-- The probe lands on each index, as long as it does not go past the last `usize`.
place_lem :
    (start n i : ℕ)
    → start + n ≤ usize_mod
    → i < n
    → wrapping_add start (place (start % n) n i) % n ≡ i
unfolding wrapping_add
place_lem start n i small li =
    let lr : start % n < n = mod-lt start (omega arith) in
    let k = place (start % n) n i in
    let whole : (start + k) % usize_mod ≡ start + k =
      mod-eq_of_lt (omega (arith, place-lt (start % n) n i lr li)) in
    ap (λ x. x % n) whole ∙ sym (mod-add-mod start n k) ∙ place_mod (start % n) n i lr li

any_at :
    (p : Sub → Bool) (subs : List Sub)
    → any p subs ≡ true
    → (i : ℕ) × (s : Sub) × (i < length subs) × (get_elem? subs i ≡ some s) × (p s ≡ true)
any_at p [] h = cc
any_at p (sub ∷ subs) h = elim (Bool-cases (p sub)) [
  | inl e ↦ (zero, sub, omega arith, refl, e)
  | inr e ↦
      let (i, s, lt, at, e') = any_at p subs (ground (arith, e, h)) in
      (suc i, s, omega arith, at, e')
]

any-onto-some :
    (p : Sub → Bool) (s : Sub) (subs : List Sub) → p s ≡ true → any p (onto (some s) subs) ≡ true
unfolding onto
any-onto-some p s subs h = rw h refl

any-onto :
    (p : Sub → Bool) (o : Option Sub) (subs : List Sub)
    → any p subs ≡ true
    → any p (onto o subs) ≡ true
unfolding onto
any-onto p none subs h = h
any-onto p (some s) subs h = ground (arith, h)

any-rotated :
    (p : Sub → Bool) (start : ℕ) (members : List Sub) (left k j : ℕ) (s : Sub)
    → k ≤ j
    → j < k + left
    → get_elem? members (wrapping_add start j % length members) ≡ some s
    → p s ≡ true
    → any p (rotated start members left k) ≡ true
unfolding rotated
any-rotated p start members zero k j s le lt at e = absurd (omega arith)
any-rotated p start members (suc left) k j s le lt at e = elim (Bool-cases (k == j)) [
  | inl q ↦
      subst (λ o. any p (onto o (rotated start members left (suc k))) ≡ true)
        (sym at
          ∙ ap (λ x. get_elem? members (wrapping_add start x % length members))
              (sym ((==_iff k j).0 q)))
        (any-onto-some p s _ e)
  | inr q ↦
      any-onto p _ _
        (any-rotated p start members left (suc k) j s (ground (arith, q)) (omega arith) at e)
]

get_elem?-All {κ} :
    (P : Sub → Type κ) (subs : List Sub) (i : ℕ) (rest : List Sub)
    → All P subs
    → All P rest
    → All P (onto (get_elem? subs i) rest)
unfolding onto
get_elem?-All P [] i rest h hr = hr
get_elem?-All P (s ∷ subs) zero rest h hr = (h.0, hr)
get_elem?-All P (s ∷ subs) (suc i) rest h hr = get_elem?-All P subs i rest h.1 hr

rotated-All {κ} :
    (P : Sub → Type κ) (start : ℕ) (members : List Sub) (left k : ℕ)
    → All P members
    → All P (rotated start members left k)
unfolding rotated
rotated-All P start members zero k h = tt
rotated-All P start members (suc left) k h =
    get_elem?-All P members _ _ h (rotated-All P start members left (suc k) h)

-- What the search finds.
find-some {κ} :
    (P : Sub → Type κ) (p : Sub → Bool) (subs : List Sub)
    → All P subs
    → any p subs ≡ true
    → (s : Sub) × (find p subs ≡ some s) × (p s ≡ true) × P s
unfolding find
find-some P p [] h e = cc
find-some P p (s ∷ subs) h e = elim (Bool-cases (p s)) [
  | inl q ↦ (s, rw q refl, q, h.0)
  | inr q ↦
      let (s', f, r, held) = find-some P p subs h.1 (ground (arith, q, e)) in (s', rw q f, r, held)
]

find-none : (p : Sub → Bool) (subs : List Sub) → All (λ s. p s ≡ false) subs → find p subs ≡ none
unfolding find
find-none p [] h = refl
find-none p (s ∷ subs) h = rw (h.0, find-none p subs h.1) refl

any-false : (p : Sub → Bool) (subs : List Sub) → any p subs ≡ false → All (λ s. p s ≡ false) subs
any-false p [] h = tt
any-false p (s ∷ subs) h = (ground (arith, h), any-false p subs (ground (arith, h)))

any-rotated_all :
    (p : Sub → Bool) (start : ℕ) (members : List Sub)
    → start + length members ≤ usize_mod
    → any p members ≡ true
    → any p (rotated start members (length members) 0) ≡ true
any-rotated_all p start members small h =
    let (i, s, lt, at, e) = any_at p members h in
    let n = length members in
    any-rotated p start members n 0 (place (start % n) n i) s (omega arith)
      (omega (arith, place-lt (start % n) n i (mod-lt start (omega arith)) lt))
      (ap (get_elem? members) (place_lem start n i small lt) ∙ at) e

-- A group with an eligible member has one picked, by the first search or the second.
pub pick-some {κ} :
    (P : Sub → Type κ) (w : World) (from start : ℕ) (members : List Sub)
    → All P members
    → start + length members ≤ usize_mod
    → any (eligible w from) members ≡ true
    → (s : Sub) × (pick w from start members ≡ some s) × (eligible w from s ≡ true) × P s
unfolding pick or_else
pick-some P w from start members h small e =
    let order = rotated start members (length members) 0 in
    let q = λ (s : Sub). eligible w from s && has_room w s.conn in
    let all = rotated-All P start members (length members) 0 h in
    elim (Bool-cases (any q order)) [
      | inl some_q ↦
          let (s, f, e', held) = find-some P q order all some_q in
          (s, rw f refl, ground (arith, e'), held)
      | inr no_q ↦
          let (s, f, e', held) =
            find-some P (eligible w from) order all
              (any-rotated_all (eligible w from) start members small e) in
          (s, rw (find-none q order (any-false q order no_q), f) refl, e', held)
    ]

pub pick-none :
    (w : World) (from start : ℕ) (members : List Sub)
    → any (eligible w from) members ≡ false
    → pick w from start members ≡ none
unfolding pick or_else
pick-none w from start members e =
    let order = rotated start members (length members) 0 in
    let out =
      rotated-All (λ s. eligible w from s ≡ false) start members (length members) 0
        (any-false (eligible w from) members e) in
    rw
      (
        find-none (λ s. eligible w from s && has_room w s.conn) order (out_too order out),
        find-none (eligible w from) order out,
      )
      refl
  where
    out_too :
        (subs : List Sub)
        → All (λ s. eligible w from s ≡ false) subs
        → All (λ s. (eligible w from s && has_room w s.conn) ≡ false) subs
    out_too [] h = tt
    out_too (s ∷ subs) h = (ground (arith, h.0), out_too subs h.1)
