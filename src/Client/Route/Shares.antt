-- ===== src/Client/Route/Shares.antt =====
-- How many picks `pick_groups` of crates/server/src/routing.rs makes for a queue group.
use nats_server_rs.Prelude.{
  ℕ, ◌+◌, ◌≤◌, true, false, Option, none, some, List, [], ◌∷◌, ◌++◌, Bytes, any, length,
  length-append, equal, equal_iff, equal_self, if◌then◌else◌, Bool-cases, inl, inr, arith, ◌≡◌,
  refl, sym, ap, ◌∙◌, subst,
}
use nats_server_rs.Routing.Registry.{Sub}
use nats_server_rs.Client.Outbox.{usize_mod}
use nats_server_rs.Client.World.{World}
use nats_server_rs.Client.Route.{onto, in_group, pick, picked, seen_after, pick_loop}
use nats_server_rs.Client.Route.Groups.{
  retain-append, any-append, members_of, share, unseen_other, first_pick, other_pick,
}

module _ (w : World) (from start : ℕ) where
  -- What is left of a group's share once the groups in a list have been seen.
  unfoldable pub left_of : Bytes → List Bytes → List Sub → ℕ
  left_of g groups subs = if any (λ seen. equal seen g) groups then 0 else share w from g subs

  share-other :
      (g : Bytes) (sub : Sub) (subs : List Sub)
      → in_group g sub.queue ≡ false
      → share w from g (sub ∷ subs) ≡ share w from g subs
  share-other g sub subs e = rw e refl

  left_other :
      (g : Bytes) (groups : List Bytes) (sub : Sub) (subs : List Sub)
      → in_group g sub.queue ≡ false
      → left_of g groups (sub ∷ subs) ≡ left_of g groups subs
  unfolding left_of
  left_other g groups sub subs e =
      ap (λ n. if any (λ seen. equal seen g) groups then 0 else n) (share-other g sub subs e)

  left_empty : (g : Bytes) (groups : List Bytes) → left_of g groups [] ≡ 0
  unfolding left_of
  left_empty g groups = ground arith

  -- The group of `sub` has been seen already.
  count-seen :
      (g h : Bytes) (groups : List Bytes) (sub : Sub) (subs : List Sub)
      → sub.queue ≡ some h
      → any (λ seen. equal seen h) groups ≡ true
      → left_of g groups subs ≡ left_of g groups (sub ∷ subs)
  unfolding left_of in_group
  count-seen g h groups sub subs q k = elim (Bool-cases (any (λ seen. equal seen g) groups)) [
    | inl e ↦ rw e refl
    | inr e ↦ rw e (sym (share-other g sub subs (rw q (unseen_other g h groups k e))))
  ]

  left_seen :
      (g : Bytes) (groups : List Bytes) (subs : List Sub)
      → any (λ seen. equal seen g) groups ≡ true
      → left_of g groups subs ≡ 0
  unfolding left_of
  left_seen g groups subs e = rw e refl

  left_unseen :
      (g : Bytes) (groups : List Bytes) (subs : List Sub)
      → any (λ seen. equal seen g) groups ≡ false
      → left_of g groups subs ≡ share w from g subs
  unfolding left_of
  left_unseen g groups subs e = rw e refl

  left_behind :
      (g h : Bytes) (groups : List Bytes) (subs : List Sub)
      → equal h g ≡ false
      → left_of g (groups ++ h ∷ []) subs ≡ left_of g groups subs
  unfolding left_of
  left_behind g h groups subs d =
      let p = λ (seen : Bytes). equal seen g in
      let same : any p (groups ++ h ∷ []) ≡ any p groups =
        ground (arith, any-append p groups (h ∷ []), d) in
      ap (λ b. if b then 0 else share w from g subs) same

  -- It has not, and its pick is made now: for the group itself,
  count-same :
      (h : Bytes) (groups : List Bytes) (subs : List Sub) (all : List Sub)
      → start + length all ≤ usize_mod
      → any (λ seen. equal seen h) groups ≡ false
      → length (members_of h (onto (pick w from start (members_of h all)) []))
          + left_of h (groups ++ h ∷ []) subs
        ≡ left_of h groups all
  count-same h groups subs all small k =
      let p = λ (seen : Bytes). equal seen h in
      let now : any p (groups ++ h ∷ []) ≡ true =
        ground (arith, any-append p groups (h ∷ []), equal_self h) in
      omega (
        arith,
        first_pick w from start h all small,
        left_seen h (groups ++ h ∷ []) subs now,
        left_unseen h groups all k,
      )

  -- and for any group.
  count-picked :
      (g h : Bytes) (groups : List Bytes) (sub : Sub) (subs : List Sub)
      → start + length (sub ∷ subs) ≤ usize_mod
      → sub.queue ≡ some h
      → any (λ seen. equal seen h) groups ≡ false
      → length (members_of g (onto (pick w from start (members_of h (sub ∷ subs))) []))
          + left_of g (groups ++ h ∷ []) subs
        ≡ left_of g groups (sub ∷ subs)
  unfolding in_group
  count-picked g h groups sub subs small q k =
      let all = sub ∷ subs in
      elim (Bool-cases (equal h g)) [
        | inl e ↦
            subst
              (λ x.
                length (members_of x (onto (pick w from start (members_of h all)) []))
                  + left_of x (groups ++ h ∷ []) subs
                ≡ left_of x groups all)
              ((equal_iff h g).0 e) (count-same h groups subs all small k)
        | inr e ↦
            let apart : left_of g groups all ≡ left_of g groups subs =
              left_other g groups sub subs (rw q e) in
            omega
              (arith, other_pick w from start g h all small e, left_behind g h groups subs e, apart)
      ]

  -- A round of the loop, for what the subscription's queue is.
  count_round :
      (g : Bytes) (groups : List Bytes) (sub : Sub) (subs : List Sub) (q : Option Bytes)
      → start + length (sub ∷ subs) ≤ usize_mod
      → sub.queue ≡ q
      → ((seen : List Bytes)
          → length (members_of g (pick_loop w from start seen subs)) ≡ left_of g seen subs)
      → length (members_of g (picked w from start groups sub (sub ∷ subs) q))
          + length (members_of g (pick_loop w from start (seen_after groups q) subs))
        ≡ left_of g groups (sub ∷ subs)
  unfolding picked seen_after in_group
  count_round g groups sub subs none small e ih =
      let out : in_group g sub.queue ≡ false = rw e refl in
      rw out (omega (arith, ih groups, left_other g groups sub subs out))
  count_round g groups sub subs (some h) small e ih =
      elim (Bool-cases (any (λ seen. equal seen h) groups)) [
        | inl k ↦ rw k (omega (arith, ih groups, count-seen g h groups sub subs e k))
        | inr k ↦ rw k (
            ap
              (λ n.
                length (members_of g (onto (pick w from start (members_of h (sub ∷ subs))) [])) + n)
              (ih (groups ++ h ∷ []))
            ∙ count-picked g h groups sub subs small e k)
      ]

  pub count-pick_loop :
      (g : Bytes) (groups : List Bytes) (subs : List Sub)
      → start + length subs ≤ usize_mod
      → length (members_of g (pick_loop w from start groups subs)) ≡ left_of g groups subs
  unfolding pick_loop
  count-pick_loop g groups [] small = sym (left_empty g groups)
  count-pick_loop g groups (sub ∷ subs) small =
      let now = picked w from start groups sub (sub ∷ subs) sub.queue in
      let rest = pick_loop w from start (seen_after groups sub.queue) subs in
      ap length (retain-append (λ s. in_group g s.queue) now rest)
      ∙ length-append (members_of g now) (members_of g rest)
      ∙ count_round g groups sub subs sub.queue small refl
          (λ seen. count-pick_loop g seen subs (omega arith))
