-- ===== src/Routing/Registry/Invariant.antt =====
-- What every operation on the registry of crates/server/src/routing.rs keeps.
use nats_server_rs.Prelude.{
  ℕ, ◌+◌, ◌-◌, Bool, true, false, not, Option, List, [], ◌∷◌, ◌++◌, ◌≡◌, refl, sym, ◌∙◌, subst,
  ◌==◌, inl, inr, Bytes, length, length-append, is_empty, any, retain, length-retain-le, All,
  All-append, All-retain, Bool-cases, if◌then◌else◌, arith,
}
use nats_server_rs.Subjects.{has_wildcard, is_valid}
use nats_server_rs.Routing.Registry.{
  Sub, Registry, empty, same, same_sid, get, changed, insert_wildcard, insert_literal, insert,
  remove_sub, remove, retain_values, removed_values, of_conn, remove_conn, drop_empty, new_sub,
}
use nats_server_rs.Routing.Registry.Map.{
  IsLiteral, IsMap, count, get-All, update_entry-IsMap, count-update_entry, remove_entry-IsMap,
  count-remove_entry, retain_values-IsMap, count-retain_values,
}

-- `wildcard` is what the subject says, as `Sub::new` computes it.
pub record IsSub (s : Sub) : Type 0 where
  pub wildcard_is : s.wildcard ≡ has_wildcard s.subject

pub new_sub-IsSub :
    (key : ℕ) (subject : Bytes) (queue : Option Bytes) (sid : Bytes) (conn : ℕ)
    → IsSub (new_sub key subject queue sid conn)
unfolding new_sub
new_sub-IsSub key subject queue sid conn = record { wildcard_is = refl }

-- Literal filters stand in the map and the others in the list, and `total` counts both.
pub record IsRegistry (r : Registry) : Type 0 where
  pub entries : IsMap r.literal
  pub wild : All (λ s. s.wildcard ≡ true) r.wildcard
  pub total_is : r.total ≡ count r.literal + length r.wildcard

pub empty-IsRegistry : IsRegistry empty
unfolding count
empty-IsRegistry = record { entries = tt; wild = tt; total_is = omega arith }

pub IsRegistry-changed : (r : Registry) → IsRegistry r → IsRegistry (changed r)
unfolding changed
IsRegistry-changed r v = record { entries = v.entries; wild = v.wild; total_is = v.total_is }

insert_wildcard-IsRegistry :
    (sub : Sub) (r : Registry)
    → sub.wildcard ≡ true
    → IsRegistry r
    → IsRegistry (insert_wildcard sub r)
insert_wildcard-IsRegistry sub r w v = elim (Bool-cases (any (λ s. same s sub) r.wildcard)) [
  | inl known ↦ unfold insert_wildcard in rw known v
  | inr fresh ↦
      let total = length-append r.wildcard (sub ∷ []) in
      unfold insert_wildcard in
      rw fresh (record {
        entries = v.entries;
        wild = All-append (λ (s : Sub). s.wildcard ≡ true) r.wildcard (sub ∷ []) v.wild (w, tt);
        total_is = omega (arith, v.total_is, total);
      })
]

snoc-not-empty : (l : List Sub) (s : Sub) → is_empty (l ++ s ∷ []) ≡ false
snoc-not-empty [] s = refl
snoc-not-empty (x ∷ l) s = refl

any-not-empty : (p : Sub → Bool) (l : List Sub) → any p l ≡ true → is_empty l ≡ false
any-not-empty p [] h = cc
any-not-empty p (x ∷ l) h = refl

insert_literal-IsRegistry :
    (sub : Sub) (r : Registry)
    → IsLiteral sub.subject sub
    → IsRegistry r
    → IsRegistry (insert_literal sub r)
insert_literal-IsRegistry sub r w v =
    let old = get r.literal sub.subject in
    let all = get-All sub.subject r.literal v.entries in
    elim (Bool-cases (any (λ s. same s sub) old)) [
      | inl known ↦
          let grown = count-update_entry (λ (l : List Sub). l) sub.subject r.literal in
          let kept =
            update_entry-IsMap (λ (l : List Sub). l) sub.subject r.literal
              (any-not-empty _ old known) all v.entries in
          unfold insert_literal in
          rw known
            (record { entries = kept; wild = v.wild; total_is = omega (arith, v.total_is, grown) })
      | inr fresh ↦
          let add = λ (l : List Sub). l ++ sub ∷ [] in
          let grown = count-update_entry add sub.subject r.literal in
          let longer = length-append old (sub ∷ []) in
          let kept =
            update_entry-IsMap add sub.subject r.literal (snoc-not-empty old sub)
              (All-append (IsLiteral sub.subject) old (sub ∷ []) all (w, tt)) v.entries in
          unfold insert_literal in
          rw fresh (record {
            entries = kept;
            wild = v.wild;
            total_is = omega (arith, v.total_is, grown, longer);
          })
    ]

pub IsRegistry-if :
    (b : Bool) (r s : Registry)
    → (b ≡ true → IsRegistry r)
    → (b ≡ false → IsRegistry s)
    → IsRegistry (if b then r else s)
IsRegistry-if true r s hr hs = hr refl
IsRegistry-if false r s hr hs = hs refl

pub insert_valid :
    (sub : Sub) (r : Registry)
    → is_valid sub.subject ≡ true
    → (insert sub r).1 ≡ (if sub.wildcard then insert_wildcard sub r else insert_literal sub r)
unfolding insert
insert_valid sub r valid = rw valid

-- Inserting a subscription as Sub::new makes them, whether it is refused, known or new, keeps the
-- registry well formed.
pub insert-IsRegistry :
    (sub : Sub) (r : Registry) → IsSub sub → IsRegistry r → IsRegistry (insert sub r).1
insert-IsRegistry sub r s v = elim (Bool-cases (is_valid sub.subject)) [
  | inl valid ↦ subst IsRegistry (sym (insert_valid sub r valid)) (
      IsRegistry-if sub.wildcard (insert_wildcard sub r) (insert_literal sub r)
        (λ w. insert_wildcard-IsRegistry sub r w v)
        (λ l.
          insert_literal-IsRegistry sub r
            (record { subject_is = refl; not_wild = l; literal = sym s.wildcard_is ∙ l }) v))
  | inr bad ↦ unfold insert in rw bad v
]

pub remove_sub-IsRegistry :
    (sub : Sub) (r : Registry) → IsRegistry r → IsRegistry (remove_sub sub r)
remove_sub-IsRegistry sub r v =
    let keep = λ (s : Sub). not (same_sid sub s) in
    elim (Bool-cases sub.wildcard) [
      | inl w ↦
          let fewer = length-retain-le keep r.wildcard in
          unfold remove_sub in
          rw w (record {
            entries = v.entries;
            wild = All-retain (λ (s : Sub). s.wildcard ≡ true) keep r.wildcard v.wild;
            total_is = omega (arith, v.total_is, fewer);
          })
      | inr l ↦
          let fewer = length-retain-le keep (get r.literal sub.subject) in
          let gone = count-remove_entry (same_sid sub) sub.subject r.literal in
          let kept = remove_entry-IsMap (same_sid sub) sub.subject r.literal v.entries in
          unfold remove_sub in
          rw l (record {
            entries = kept;
            wild = v.wild;
            total_is = omega (arith, v.total_is, fewer, gone);
          })
    ]

-- Removing a subscription keeps the registry well formed.
pub remove-IsRegistry : (sub : Sub) (r : Registry) → IsRegistry r → IsRegistry (remove sub r)
remove-IsRegistry sub r v =
    unfold remove in IsRegistry-changed (remove_sub sub r) (remove_sub-IsRegistry sub r v)

-- Dropping a connection keeps the registry well formed.
pub remove_conn-IsRegistry :
    (conn : ℕ) (r : Registry) → IsRegistry r → IsRegistry (remove_conn conn r)
unfolding remove_conn
remove_conn-IsRegistry conn r v =
    let keep = λ (s : Sub). not (of_conn conn s) in
    let left = count-retain_values keep r.literal in
    let fewer = length-retain-le keep r.wildcard in
    let wild = retain keep r.wildcard in
    let removed = removed_values keep r.literal + (length r.wildcard - length wild) in
    let r' : Registry = record r {
      literal = drop_empty (retain_values keep r.literal);
      wildcard = wild;
      total = r.total - removed;
    } in
    let kept : IsRegistry r' = record {
      entries = retain_values-IsMap keep r.literal v.entries;
      wild = All-retain (λ (s : Sub). s.wildcard ≡ true) keep r.wildcard v.wild;
      total_is = omega (arith, v.total_is, left, fewer);
    } in
    IsRegistry-if (removed == 0) r' (changed r') (λ _. kept) (λ _. IsRegistry-changed r' kept)
