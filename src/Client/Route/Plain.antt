-- ===== src/Client/Route/Plain.antt =====
-- What `pick_groups` of crates/server/src/routing.rs delivers besides the queue groups, and all of it
-- together.
use nats_server_rs.Prelude.{
  ℕ, ◌+◌, ◌≤◌, Bool, true, false, ◌||◌, Option, none, some, List, [], ◌∷◌, ◌++◌, Bytes, any, retain,
  All, All-append, length, length-retain-le, equal, Bool-cases, inl, inr, arith, ◌≡◌, refl, sym, ap,
  ◌∙◌,
}
use nats_server_rs.Nuid.{next_u64}
use nats_server_rs.Routing.Registry.{Sub}
use nats_server_rs.Client.Outbox.{usize_mod}
use nats_server_rs.Client.World.{World, eligible}
use nats_server_rs.Client.Route.{onto, in_group, pick, picked, seen_after, pick_loop, pick_groups}
use nats_server_rs.Client.Route.Probe.{pick-some, pick-none}
use nats_server_rs.Client.Route.Groups.{members_of, share, retain-append, retain_holds}
use nats_server_rs.Client.Route.Shares.{left_of, count-pick_loop}

abbrev pub has_none : Option Bytes → Bool
has_none none = true
has_none (some g) = false

-- The subscriptions that belong to no group.
abbrev pub plain_of : List Sub → List Sub
plain_of subs = retain (λ s. has_none s.queue) subs

-- A subscription in a group has the message only where it may.
abbrev pub May : World → ℕ → Sub → Type 0
May w from s = (has_none s.queue || eligible w from s) ≡ true

grouped : (g : Bytes) (q : Option Bytes) → in_group g q ≡ true → has_none q ≡ false
unfolding in_group
grouped g none h = cc
grouped g (some i) h = refl

module _ (w : World) (from start : ℕ) where
  IsGroupPick : List Sub → Type 0
  IsGroupPick subs = (plain_of subs ≡ []) × All (May w from) subs

  pick-IsGroupPick :
      (h : Bytes) (subs : List Sub)
      → start + length subs ≤ usize_mod
      → IsGroupPick (onto (pick w from start (members_of h subs)) [])
  unfolding onto IsGroupPick
  pick-IsGroupPick h subs small =
      let ms = members_of h subs in
      let few = length-retain-le (λ s. in_group h s.queue) subs in
      elim (Bool-cases (any (eligible w from) ms)) [
        | inl e ↦
            let (s, f, e', held) =
              pick-some (λ s. in_group h s.queue ≡ true) w from start ms
                (retain_holds (λ s. in_group h s.queue) subs) (omega (arith, few)) e in
            let no = grouped h s.queue held in rw f (rw no refl, (ground (arith, e'), tt))
        | inr e ↦ rw (pick-none w from start ms e) (refl, tt)
      ]

  picked-round :
      (groups : List Bytes) (sub : Sub) (subs : List Sub) (q : Option Bytes)
      → start + length (sub ∷ subs) ≤ usize_mod
      → sub.queue ≡ q
      → (plain_of (picked w from start groups sub (sub ∷ subs) q) ≡ plain_of (sub ∷ []))
        × All (May w from) (picked w from start groups sub (sub ∷ subs) q)
  unfolding picked IsGroupPick
  picked-round groups sub subs none small e = (refl, (rw e refl, tt))
  picked-round groups sub subs (some h) small e =
      let none_here : plain_of (sub ∷ []) ≡ [] = rw e refl in
      elim (Bool-cases (any (λ seen. equal seen h) groups)) [
        | inl k ↦ rw k (sym none_here, tt)
        | inr k ↦
            let (none_plain, all) = pick-IsGroupPick h (sub ∷ subs) small in
            rw k (none_plain ∙ sym none_here, all)
      ]

  plain-pick_loop :
      (groups : List Bytes) (subs : List Sub)
      → start + length subs ≤ usize_mod
      → (plain_of (pick_loop w from start groups subs) ≡ plain_of subs)
        × All (May w from) (pick_loop w from start groups subs)
  unfolding pick_loop
  plain-pick_loop groups [] small = (refl, tt)
  plain-pick_loop groups (sub ∷ subs) small =
      let now = picked w from start groups sub (sub ∷ subs) sub.queue in
      let rest = pick_loop w from start (seen_after groups sub.queue) subs in
      let (here, all) = picked-round groups sub subs sub.queue small refl in
      let (later, more) = plain-pick_loop (seen_after groups sub.queue) subs (omega arith) in
      (
        retain-append (λ s. has_none s.queue) now rest
            ∙ ap (λ (l : List Sub). l ++ plain_of rest) here
            ∙ ap (λ (l : List Sub). plain_of (sub ∷ []) ++ l) later
            ∙ sym (retain-append (λ s. has_none s.queue) (sub ∷ []) subs),
        All-append (May w from) now rest all more,
      )

-- As long as the random start and the number of subscriptions together are at most 2^64, a message
-- is picked for exactly one member of a queue group that has a member who may have it, and for
-- none of a group that has no such member; every subscription outside the groups is picked, in its
-- order, and no member is picked who may not have the message.
pub pick_groups-share :
    (w : World) (from : ℕ) (subs : List Sub) (g : Bytes)
    → (next_u64 w.rng).1 + length subs ≤ usize_mod
    → (length (members_of g (pick_groups w from subs).1) ≡ share w from g subs)
      × (plain_of (pick_groups w from subs).1 ≡ plain_of subs)
      × All (May w from) (pick_groups w from subs).1
unfolding pick_groups left_of
pick_groups-share w from subs g small =
    let start = (next_u64 w.rng).1 in
    let (plain, all) = plain-pick_loop w from start [] subs small in
    (count-pick_loop w from start g [] subs small, plain, all)
