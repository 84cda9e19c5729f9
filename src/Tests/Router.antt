-- ===== src/Tests/Router.antt =====
-- The theorems on the registry, applied at concrete inputs.
use nats_server_rs.Prelude.{Bytes, none, some, [], ◌∷◌, any, retain, arith, ◌≡◌}
use nats_server_rs.Subjects.{matches}
use nats_server_rs.Routing.Registry.{
  Sub, new_sub, Registry, empty, insert, interested, no_interest, refresh,
}
use nats_server_rs.Routing.Registry.Invariant.{
  IsRegistry, new_sub-IsSub, empty-IsRegistry, insert-IsRegistry,
}
use nats_server_rs.Routing.Registry.Lookup.{all_subs, interested-all_subs}
use nats_server_rs.Routing.Registry.Cache.{
  inserts, removes, drops, apply_all, refresh-apply_all, apply_all-IsRegistry,
  no_interest-IsCoherent,
}

abbrev subject : Bytes
subject = b'a' ∷ b'.' ∷ b'b' ∷ []

abbrev first : Sub
first = new_sub 0 (b'a' ∷ b'.' ∷ b'*' ∷ []) none (b'1' ∷ []) 7

abbrev second : Sub
second = new_sub 1 subject (some (b'q' ∷ [])) (b'2' ∷ []) 7

abbrev one : Registry
one = (insert first empty).1

one-IsRegistry : IsRegistry one
one-IsRegistry = insert-IsRegistry first empty (new_sub-IsSub _ _ _ _ _) empty-IsRegistry

apply_all-IsRegistry_example :
    IsRegistry (apply_all (inserts first ∷ inserts second ∷ removes first ∷ drops 8 ∷ []) empty)
apply_all-IsRegistry_example =
    apply_all-IsRegistry (inserts first ∷ inserts second ∷ removes first ∷ drops 8 ∷ []) empty
      (new_sub-IsSub _ _ _ _ _, (new_sub-IsSub _ _ _ _ _, (tt, (tt, tt)))) empty-IsRegistry

interested-all_subs_example :
    interested one subject ≡ retain (λ s. matches s.subject subject) (all_subs one)
interested-all_subs_example = interested-all_subs one subject one-IsRegistry

refresh-apply_all_example :
    let r = apply_all (inserts first ∷ inserts second ∷ drops 8 ∷ []) empty in
    ((refresh r subject no_interest).subs ≡ interested r subject)
    × ((refresh r subject no_interest).queue ≡ any (λ s. s.queued) (interested r subject))
refresh-apply_all_example =
    refresh-apply_all (inserts first ∷ inserts second ∷ drops 8 ∷ []) empty no_interest subject
      (new_sub-IsSub _ _ _ _ _, (new_sub-IsSub _ _ _ _ _, (tt, tt))) empty-IsRegistry (omega arith)
      (no_interest-IsCoherent empty (omega arith))
