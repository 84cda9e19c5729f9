-- ===== src/Routing/Registry/Moves.antt =====
-- What the operations on the registry of crates/server/src/routing.rs do to the cached answers.
use nats_server_rs.Prelude.{
  ℕ, ◌+◌, ◌-◌, ◌^◌, ◌<◌, Bool, true, false, not, List, [], ◌∷◌, ◌++◌, ◌≡◌, refl, sym, ap, subst,
  inl, inr, Bytes, ◌==◌, ==_iff, length, any, retain, length-retain-le, Bool-cases, if◌then◌else◌,
  arith,
}
use nats_server_rs.Subjects.{is_valid, matches}
use nats_server_rs.Routing.Registry.{
  Sub, SubjectMap, Registry, same, get, update_entry, changed, insert_wildcard, insert_literal,
  insert, remove_sub, remove, retain_values, removed_values, drop_empty, of_conn, remove_conn,
  interested,
}
use nats_server_rs.Routing.Registry.Map.{IsMap}
use nats_server_rs.Routing.Registry.Invariant.{IsRegistry, insert_valid}

-- What an operation does to the answers: it moves the generation, or it changes no answer.
pub data Moves (r r' : Registry) : Type 0 where
  moved : r'.generation ≡ r.generation + 1 → Moves r r'
  kept :
      r'.generation ≡ r.generation
      → ((subject : Bytes) → interested r' subject ≡ interested r subject)
      → Moves r r'

changed-Moves :
    (r r' : Registry)
    → r'.generation ≡ r.generation
    → r.generation + 1 < 2 ^ 64
    → Moves r (changed r')
unfolding changed
changed-Moves r r' e small = moved (omega arith)

get-update_entry_id :
    (k subject : Bytes) (m : SubjectMap) → get (update_entry (λ l. l) k m) subject ≡ get m subject
unfolding get update_entry
get-update_entry_id k subject [] = ground arith
get-update_entry_id k subject ((j, l) ∷ m) = ground (arith, get-update_entry_id k subject m)

Moves-if :
    (r : Registry) (b : Bool) (s t : Registry)
    → (b ≡ true → Moves r s)
    → (b ≡ false → Moves r t)
    → Moves r (if b then s else t)
Moves-if r true s t hs ht = hs refl
Moves-if r false s t hs ht = ht refl

insert_wildcard-Moves :
    (sub : Sub) (r : Registry) → r.generation + 1 < 2 ^ 64 → Moves r (insert_wildcard sub r)
unfolding insert_wildcard
insert_wildcard-Moves sub r small =
    let added : Registry = record r { wildcard = r.wildcard ++ sub ∷ []; total = r.total + 1 } in
    Moves-if r (not (any (λ s. same s sub) r.wildcard)) (changed added) r
      (λ _. changed-Moves r added refl small) (λ _. kept refl (λ subject. refl))

insert_literal-Moves :
    (sub : Sub) (r : Registry) → r.generation + 1 < 2 ^ 64 → Moves r (insert_literal sub r)
unfolding insert_literal
insert_literal-Moves sub r small =
    let added : Registry = record r {
      literal = update_entry (λ l. l ++ sub ∷ []) sub.subject r.literal;
      total = r.total + 1;
    } in
    let touched : Registry = record r { literal = update_entry (λ l. l) sub.subject r.literal } in
    Moves-if r (not (any (λ s. same s sub) (get r.literal sub.subject))) (changed added) touched
      (λ _. changed-Moves r added refl small)
      (λ _. kept refl (λ subject.
        unfold interested in
        ap (λ (l : List Sub). l ++ retain (λ s. matches s.subject subject) r.wildcard)
          (get-update_entry_id sub.subject subject r.literal)))

pub insert-Moves : (sub : Sub) (r : Registry) → r.generation + 1 < 2 ^ 64 → Moves r (insert sub r).1
insert-Moves sub r small = elim (Bool-cases (is_valid sub.subject)) [
  | inr bad ↦ unfold insert in rw bad (kept refl (λ subject. refl))
  | inl valid ↦ subst (Moves r) (sym (insert_valid sub r valid)) (
      Moves-if r sub.wildcard (insert_wildcard sub r) (insert_literal sub r)
        (λ _. insert_wildcard-Moves sub r small) (λ _. insert_literal-Moves sub r small))
]

pub remove-Moves : (sub : Sub) (r : Registry) → r.generation + 1 < 2 ^ 64 → Moves r (remove sub r)
remove-Moves sub r small =
    unfold remove in changed-Moves r (remove_sub sub r) (generation-remove_sub sub r) small
  where
    generation-remove_sub :
        (sub : Sub) (r : Registry) → (remove_sub sub r).generation ≡ r.generation
    generation-remove_sub sub r = elim (Bool-cases sub.wildcard) [
      | inl w ↦ unfold remove_sub in rw w refl
      | inr l ↦ unfold remove_sub in rw l refl
    ]

retain_full : (p : Sub → Bool) (l : List Sub) → length l - length (retain p l) ≡ 0 → retain p l ≡ l
retain_full p [] h = refl
retain_full p (x ∷ l) h = ground (arith, length-retain-le p l, retain_full p l)

get-retain_values :
    (keep : Sub → Bool) (subject : Bytes) (m : SubjectMap)
    → IsMap m
    → removed_values keep m ≡ 0
    → get (drop_empty (retain_values keep m)) subject ≡ get m subject
unfolding get drop_empty retain_values removed_values
get-retain_values keep subject [] v h = refl
get-retain_values keep subject ((k, l) ∷ m) v h =
    let same_list = retain_full keep l (omega arith) in
    let rest = get-retain_values keep subject m v.3 (omega arith) in
    rw (same_list, v.0) (ground (arith, rest))

pub remove_conn-Moves :
    (conn : ℕ) (r : Registry)
    → IsRegistry r
    → r.generation + 1 < 2 ^ 64
    → Moves r (remove_conn conn r)
unfolding remove_conn
remove_conn-Moves conn r v small =
    let keep = λ (s : Sub). not (of_conn conn s) in
    let wild = retain keep r.wildcard in
    let removed = removed_values keep r.literal + (length r.wildcard - length wild) in
    let r' : Registry = record r {
      literal = drop_empty (retain_values keep r.literal);
      wildcard = wild;
      total = r.total - removed;
    } in
    Moves-if r (removed == 0) r' (changed r')
      (λ none_gone.
        let zero_removed = (==_iff removed 0).0 none_gone in
        kept refl (λ subject.
          unfold interested in
          (λ i.
            get-retain_values keep subject r.literal v.entries (omega arith) i
            ++ retain (λ s. matches s.subject subject)
                (retain_full keep r.wildcard (omega arith) i))))
      (λ _. changed-Moves r r' refl small)
