-- ===== src/Routing/Registry/Members.antt =====
-- What `remove_conn` of crates/server/src/routing.rs leaves of the registry.
use nats_server_rs.Prelude.{
  ℕ, Bool, true, false, not, List, [], ◌∷◌, ◌++◌, ◌≡◌, refl, sym, ap, ◌∙◌, retain, if◌then◌else◌,
  ◌==◌, length, ◌+◌, ◌-◌,
}
use nats_server_rs.Routing.Registry.{
  Sub, SubjectMap, Registry, changed, retain_values, drop_empty, removed_values, of_conn,
  remove_conn,
}
use nats_server_rs.Routing.Registry.Map.{flatten}
use nats_server_rs.Routing.Registry.Lookup.{all_subs, retain-append}

flatten-drop_empty : (m : SubjectMap) → flatten (drop_empty m) ≡ flatten m
unfolding flatten drop_empty
flatten-drop_empty [] = refl
flatten-drop_empty ((k, []) ∷ m) = flatten-drop_empty m
flatten-drop_empty ((k, s ∷ l) ∷ m) = ap (λ (r : List Sub). s ∷ (l ++ r)) (flatten-drop_empty m)

flatten-retain_values :
    (keep : Sub → Bool) (m : SubjectMap) → flatten (retain_values keep m) ≡ retain keep (flatten m)
unfolding flatten retain_values
flatten-retain_values keep [] = refl
flatten-retain_values keep ((k, l) ∷ m) =
    ap (λ (r : List Sub). retain keep l ++ r) (flatten-retain_values keep m)
    ∙ sym (retain-append keep l (flatten m))

all_subs-if :
    (b : Bool) (r : Registry) (l : List Sub)
    → all_subs r ≡ l
    → all_subs (if b then r else changed r) ≡ l
unfolding all_subs changed
all_subs-if true r l e = e
all_subs-if false r l e = e

-- Dropping a connection removes its subscriptions and keeps all others in their order.
pub all_subs-remove_conn :
    (conn : ℕ) (r : Registry)
    → all_subs (remove_conn conn r) ≡ retain (λ s. not (of_conn conn s)) (all_subs r)
unfolding remove_conn
all_subs-remove_conn conn r =
    let keep = λ (s : Sub). not (of_conn conn s) in
    let removed =
      removed_values keep r.literal + (length r.wildcard - length (retain keep r.wildcard)) in
    all_subs-if (removed == 0) _ _ (
      unfold all_subs in
      ap (λ (l : List Sub). l ++ retain keep r.wildcard)
        (flatten-drop_empty (retain_values keep r.literal) ∙ flatten-retain_values keep r.literal)
      ∙ sym (retain-append keep (flatten r.literal) r.wildcard))
