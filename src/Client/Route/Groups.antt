-- ===== src/Client/Route/Groups.antt =====
-- What `pick_groups` of crates/server/src/routing.rs delivers to each queue group.
use nats_server_rs.Prelude.{
  ℕ, ◌+◌, ◌≤◌, Bool, true, false, ◌&&◌, ◌||◌, Option, none, some, List, [], ◌∷◌, ◌++◌, Bytes, any,
  retain, All, length, length-retain-le, equal, equal_iff, if◌then◌else◌, Bool-cases, inl, inr,
  arith, ◌≡◌, refl, sym, ◌∙◌, subst,
}
use nats_server_rs.Routing.Registry.{Sub}
use nats_server_rs.Client.Outbox.{usize_mod}
use nats_server_rs.Client.World.{World, eligible}
use nats_server_rs.Client.Route.{onto, in_group, pick}
use nats_server_rs.Client.Route.Probe.{pick-some, pick-none}

module _ {A : Type 0} where
  pub retain-append :
      (p : A → Bool) (xs ys : List A) → retain p (xs ++ ys) ≡ retain p xs ++ retain p ys
  retain-append p [] ys = refl
  retain-append p (x ∷ xs) ys = elim (Bool-cases (p x)) [
    | inl e ↦ rw (e, retain-append p xs ys) refl
    | inr e ↦ rw (e, retain-append p xs ys) refl
  ]

  any-retain : (p q : A → Bool) (xs : List A) → any q (retain p xs) ≡ any (λ x. p x && q x) xs
  any-retain p q [] = refl
  any-retain p q (x ∷ xs) = elim (Bool-cases (p x)) [
    | inl e ↦ rw (e, any-retain p q xs) refl
    | inr e ↦ rw (e, any-retain p q xs) refl
  ]

  pub retain_holds : (p : A → Bool) (xs : List A) → All (λ x. p x ≡ true) (retain p xs)
  retain_holds p [] = tt
  retain_holds p (x ∷ xs) = elim (Bool-cases (p x)) [
    | inl e ↦ rw e (e, retain_holds p xs)
    | inr e ↦ rw e (retain_holds p xs)
  ]

  pub any-append : (p : A → Bool) (xs ys : List A) → any p (xs ++ ys) ≡ (any p xs || any p ys)
  any-append p [] ys = refl
  any-append p (x ∷ xs) ys = ground (arith, any-append p xs ys)

-- The subscriptions of a group.
abbrev pub members_of : Bytes → List Sub → List Sub
members_of g subs = retain (λ s. in_group g s.queue) subs

-- One, where a member of the group may have the message.
abbrev pub share : World → ℕ → Bytes → List Sub → ℕ
share w from g subs = if any (λ s. in_group g s.queue && eligible w from s) subs then 1 else 0

same_group :
    (g h : Bytes) (q : Option Bytes)
    → equal h g ≡ false
    → in_group h q ≡ true
    → in_group g q ≡ false
unfolding in_group
same_group g h none d k = refl
same_group g h (some i) d k = subst (λ x. equal x g ≡ false) (sym ((equal_iff i h).0 k)) d

-- A group that has been seen is another than one that has not.
pub unseen_other :
    (g h : Bytes) (groups : List Bytes)
    → any (λ seen. equal seen h) groups ≡ true
    → any (λ seen. equal seen g) groups ≡ false
    → equal h g ≡ false
unseen_other g h groups k l = elim (Bool-cases (equal h g)) [
  | inl e ↦
      let clash =
        sym (subst (λ x. any (λ seen. equal seen x) groups ≡ true) ((equal_iff h g).0 e) k) ∙ l in
      cc
  | inr e ↦ e
]

module _ (w : World) (from start : ℕ) where
  -- The pick of a group that has not been seen counts for that group,
  pub first_pick :
      (g : Bytes) (subs : List Sub)
      → start + length subs ≤ usize_mod
      → length (members_of g (onto (pick w from start (members_of g subs)) []))
        ≡ share w from g subs
  unfolding onto
  first_pick g subs small =
      let ms = members_of g subs in
      let few = length-retain-le (λ s. in_group g s.queue) subs in
      let moved = any-retain (λ s. in_group g s.queue) (eligible w from) subs in
      elim (Bool-cases (any (eligible w from) ms)) [
        | inl e ↦
            let (s, f, e', held) =
              pick-some (λ s. in_group g s.queue ≡ true) w from start ms
                (retain_holds (λ s. in_group g s.queue) subs) (omega (arith, few)) e in
            rw (f, held, sym moved ∙ e) refl
        | inr e ↦ rw (pick-none w from start ms e, sym moved ∙ e) refl
      ]

  -- and for no other.
  pub other_pick :
      (g h : Bytes) (subs : List Sub)
      → start + length subs ≤ usize_mod
      → equal h g ≡ false
      → length (members_of g (onto (pick w from start (members_of h subs)) [])) ≡ 0
  unfolding onto
  other_pick g h subs small d =
      let ms = members_of h subs in
      let few = length-retain-le (λ s. in_group h s.queue) subs in
      elim (Bool-cases (any (eligible w from) ms)) [
        | inl e ↦
            let (s, f, e', held) =
              pick-some (λ s. in_group h s.queue ≡ true) w from start ms
                (retain_holds (λ s. in_group h s.queue) subs) (omega (arith, few)) e in
            rw (f, same_group g h s.queue d held) refl
        | inr e ↦ rw (pick-none w from start ms e) refl
      ]
