-- ===== src/Routing/Registry/Cache.antt =====
-- The interest cache of crates/server/src/routing.rs: whatever the registry went through since an
-- answer was recorded, the next publish is routed by what the registry holds then.
use nats_server_rs.Prelude.{
  ℕ, ◌+◌, ◌-◌, ◌^◌, ◌≤◌, ◌<◌, List, [], ◌∷◌, ◌≡◌, refl, sym, ap, ◌∙◌, ◌⊎◌, inl, inr, Bytes, ◌==◌,
  ==_iff, equal, equal_iff, length, any, All, Bool-cases, arith,
}
use nats_server_rs.Routing.Registry.{
  Sub, Registry, Interest, no_interest, insert, remove, remove_conn, interested, resolve, refresh,
}
use nats_server_rs.Routing.Registry.Invariant.{
  IsSub, IsRegistry, insert-IsRegistry, remove-IsRegistry, remove_conn-IsRegistry,
}
use nats_server_rs.Routing.Registry.Moves.{
  Moves, moved, kept, insert-Moves, remove-Moves, remove_conn-Moves,
}

-- The value that marks an answer that was never recorded.
abbrev never : ℕ
never = 2 ^ 64 - 1

-- An answer is no newer than the registry, and one of the same generation is what the registry holds.
pub record IsCoherent (r : Registry) (i : Interest) : Type 0 where
  pub not_newer : (i.generation ≡ never) ⊎ (i.generation ≤ r.generation)
  pub current :
      i.generation ≡ r.generation
      → (i.subs ≡ interested r i.subject) × (i.queue ≡ any (λ s. s.queued) i.subs)

Moves-IsCoherent :
    (r r' : Registry) (i : Interest)
    → r.generation + 1 < never
    → Moves r r'
    → IsCoherent r i
    → IsCoherent r' i
Moves-IsCoherent r r' i small (moved e) c = record {
  not_newer = older c.not_newer;
  current = λ same_generation. absurd (stale same_generation c.not_newer);
}
  where
    older :
        (i.generation ≡ never) ⊎ (i.generation ≤ r.generation)
        → (i.generation ≡ never) ⊎ (i.generation ≤ r'.generation)
    older (inl n) = inl n
    older (inr le) = inr (omega arith)

    stale :
        i.generation ≡ r'.generation → (i.generation ≡ never) ⊎ (i.generation ≤ r.generation) → ⊥
    stale g (inl n) = omega arith
    stale g (inr le) = omega arith
Moves-IsCoherent r r' i small (kept e same_answers) c = record {
  not_newer = older c.not_newer;
  current = λ g.
      let (subs, queue) = c.current (omega arith) in (subs ∙ sym (same_answers i.subject), queue);
}
  where
    older :
        (i.generation ≡ never) ⊎ (i.generation ≤ r.generation)
        → (i.generation ≡ never) ⊎ (i.generation ≤ r'.generation)
    older (inl n) = inl n
    older (inr le) = inr (omega arith)

-- The changes that connections make to the registry between two publishes.
pub data Change : Type 0 where
  inserts : Sub → Change
  removes : Sub → Change
  drops : ℕ → Change

unfoldable pub apply : Change → Registry → Registry
apply (inserts sub) r = (insert sub r).1
apply (removes sub) r = remove sub r
apply (drops conn) r = remove_conn conn r

unfoldable pub apply_all : List Change → Registry → Registry
unfolding apply
apply_all [] r = r
apply_all (c ∷ cs) r = apply_all cs (apply c r)

abbrev pub IsChange : Change → Type 0
IsChange (inserts sub) = IsSub sub
IsChange _ = Unit

apply-IsRegistry : (c : Change) (r : Registry) → IsChange c → IsRegistry r → IsRegistry (apply c r)
unfolding apply
apply-IsRegistry (inserts sub) r s v = insert-IsRegistry sub r s v
apply-IsRegistry (removes sub) r s v = remove-IsRegistry sub r v
apply-IsRegistry (drops conn) r s v = remove_conn-IsRegistry conn r v

-- Through any inserts of subscriptions as Sub::new makes them, removals and closed connections,
-- the registry stays well formed: its total is the number of its subscriptions, each subject has
-- one entry at most, which is not empty and has literal filters of that subject only, and the
-- scanned list has wildcard filters only.
pub apply_all-IsRegistry :
    (cs : List Change) (r : Registry) → All IsChange cs → IsRegistry r → IsRegistry (apply_all cs r)
unfolding apply_all
apply_all-IsRegistry [] r s v = v
apply_all-IsRegistry (c ∷ cs) r s v =
    apply_all-IsRegistry cs (apply c r) s.1 (apply-IsRegistry c r s.0 v)

apply-Moves :
    (c : Change) (r : Registry) → IsRegistry r → r.generation + 1 < 2 ^ 64 → Moves r (apply c r)
unfolding apply
apply-Moves (inserts sub) r v small = insert-Moves sub r small
apply-Moves (removes sub) r v small = remove-Moves sub r small
apply-Moves (drops conn) r v small = remove_conn-Moves conn r v small

generation_step : (r r' : Registry) → Moves r r' → r'.generation ≤ r.generation + 1
generation_step r r' (moved e) = omega arith
generation_step r r' (kept e s) = omega arith

apply_all-IsCoherent :
    (cs : List Change) (r : Registry) (i : Interest)
    → All IsChange cs
    → IsRegistry r
    → r.generation + length cs < never
    → IsCoherent r i
    → IsCoherent (apply_all cs r) i × ((apply_all cs r).generation < never)
unfolding apply_all
apply_all-IsCoherent [] r i s v small c = (c, omega arith)
apply_all-IsCoherent (ch ∷ cs) r i s v small c =
    let moves = apply-Moves ch r v (omega arith) in
    apply_all-IsCoherent cs (apply ch r) i s.1 (apply-IsRegistry ch r s.0 v)
      (omega (arith, generation_step r (apply ch r) moves))
      (Moves-IsCoherent r (apply ch r) i (omega arith) moves c)

refresh-exact :
    (r : Registry) (subject : Bytes) (i : Interest)
    → IsCoherent r i
    → ((refresh r subject i).subs ≡ interested r subject)
      × ((refresh r subject i).queue ≡ any (λ s. s.queued) (interested r subject))
unfolding refresh
refresh-exact r subject i c = elim (Bool-cases (i.generation == r.generation)) [
  | inr stale ↦ rw stale (refl, refl)
  | inl same_generation ↦ elim (Bool-cases (equal i.subject subject)) [
    | inr other ↦ rw (same_generation, other) (refl, refl)
    | inl hit ↦
        let (subs, queue) = c.current ((==_iff _ _).0 same_generation) in
        let here = subs ∙ ap (interested r) ((equal_iff i.subject subject).0 hit) in
        rw (same_generation, hit) (here, queue ∙ ap (any (λ s. s.queued)) here)
  ]
]

-- From a well-formed registry and a coherent answer, after any inserts of subscriptions as
-- Sub::new makes them, removals and closed connections, the next publish of any subject goes by
-- exactly what the registry then holds for it, as long as the generation together with the number
-- of those changes stays below its last value.
pub refresh-apply_all :
    (cs : List Change) (r : Registry) (i : Interest) (subject : Bytes)
    → All IsChange cs
    → IsRegistry r
    → r.generation + length cs < 2 ^ 64 - 1
    → IsCoherent r i
    → let r' = apply_all cs r in
      ((refresh r' subject i).subs ≡ interested r' subject)
      × ((refresh r' subject i).queue ≡ any (λ s. s.queued) (interested r' subject))
refresh-apply_all cs r i subject s v small c =
    refresh-exact (apply_all cs r) subject i (apply_all-IsCoherent cs r i s v small c).0

-- An answer that was never recorded is coherent, and so is one that was just resolved.
pub no_interest-IsCoherent : (r : Registry) → r.generation < 2 ^ 64 - 1 → IsCoherent r no_interest
no_interest-IsCoherent r small = record {
  not_newer = inl refl;
  current = λ e. absurd (omega arith);
}

pub resolve-IsCoherent : (r : Registry) (subject : Bytes) → IsCoherent r (resolve r subject)
unfolding resolve
resolve-IsCoherent r subject = record { not_newer = inr (omega arith); current = λ e. (refl, refl) }
