-- ===== src/Config/Duration/Fuel.antt =====
-- The loop of `parse_duration_str` in crates/server/src/config.rs ends.
use nats_server_rs.Prelude.{
  ℕ, zero, suc, ◌+◌, ◌≤◌, ◌<◌, Bool, false, not, Option, none, some, [], ◌∷◌, length, is_empty,
  Bool-cases, inl, inr, arith, ◌≡◌, refl, ap, ◌∙◌,
}
use nats_server_rs.Config.Strings.{Text}
use nats_server_rs.Config.Duration.{Float, is_num, span, with_num, continue, duration_loop}

length-span_le : (p : ℕ → Bool) (s : Text) → length (span p s).1 ≤ length s
unfolding span
length-span_le p [] = omega arith
length-span_le p (c ∷ s) = ground (arith, length-span_le p s)

-- A prefix that is not empty leaves less than there was.
length-span_lt :
    (p : ℕ → Bool) (c : ℕ) (s : Text)
    → is_empty (span p (c ∷ s)).0 ≡ false
    → length (span p (c ∷ s)).1 < length (c ∷ s)
unfolding span
length-span_lt p c s h = ground (arith, length-span_le p s)

-- What a round leaves unread, and the total it makes.
abbrev unread : ℕ → Text → Text
unread c s = (span (λ d. not (is_num d)) (span is_num (c ∷ s)).1).1

abbrev sum : (float : Float) → ℕ → Text → ℕ → Option ℕ
sum float c s t =
    let (num, behind) = span is_num (c ∷ s) in
    with_num float t (span (λ d. not (is_num d)) behind).0 (Float.parse float num)

-- The unit's characters behind a number leave no more than that.
length-rest_lt :
    (c : ℕ) (s : Text)
    → is_empty (span is_num (c ∷ s)).0 ≡ false
    → length (unread c s) < length (c ∷ s)
length-rest_lt c s h = omega (
  arith,
  length-span_le (λ d. not (is_num d)) (span is_num (c ∷ s)).1,
  length-span_lt is_num c s h,
)

module _ (float : Float) where
  -- One result, whatever the fuel above the text's length.
  IsSettled : Text → ℕ → Type 0
  IsSettled s t =
      (r : Option ℕ) × ((fuel : ℕ) → length s < fuel → duration_loop float fuel s t ≡ some r)

  -- A loop that has at least one round left.
  above :
      (P : ℕ → Type 0) (n : ℕ)
      → ((fuel : ℕ) → n < suc fuel → P (suc fuel))
      → (fuel : ℕ) → n < fuel
      → P fuel
  above P n step zero lt = absurd (omega arith)
  above P n step (suc fuel) lt = step fuel lt

  -- What the round does that has read a number.
  duration_loop-number :
      (c : ℕ) (s : Text) (fuel t : ℕ)
      → is_empty (span is_num (c ∷ s)).0 ≡ false
      → duration_loop float (suc fuel) (c ∷ s) t
        ≡ continue float (duration_loop float fuel (unread c s)) (sum float c s t)
  unfolding duration_loop
  duration_loop-number c s fuel t h = rw h

  number-IsSettled :
      (c : ℕ) (s : Text) (t : ℕ) (sum' : Option ℕ)
      → sum float c s t ≡ sum'
      → is_empty (span is_num (c ∷ s)).0 ≡ false
      → ((t : ℕ) → IsSettled (unread c s) t)
      → IsSettled (c ∷ s) t
  unfolding continue IsSettled
  number-IsSettled c s t none e h ih = (
    none,
    above _ _ λ fuel lt.
        duration_loop-number c s fuel t h
        ∙ ap (continue float (duration_loop float fuel (unread c s))) e,
  )
  number-IsSettled c s t (some t') e h ih = (
    (ih t').0,
    above _ _ λ fuel lt.
        duration_loop-number c s fuel t h
        ∙ ap (continue float (duration_loop float fuel (unread c s))) e
        ∙ (ih t').1 fuel (omega (arith, length-rest_lt c s h)),
  )

  duration_loop-IsSettled : (n : ℕ) (s : Text) (t : ℕ) → length s < n → IsSettled s t
  unfolding IsSettled duration_loop
  duration_loop-IsSettled zero s t h = absurd (omega arith)
  duration_loop-IsSettled (suc n) [] t h = (some t, above _ _ λ fuel lt. refl)
  duration_loop-IsSettled (suc n) (c ∷ s) t h =
      elim (Bool-cases (is_empty (span is_num (c ∷ s)).0)) [
        | inl e ↦ (none, above _ _ λ fuel lt. rw e)
        | inr e ↦
            number-IsSettled c s t _ refl e
              λ t'. duration_loop-IsSettled n _ t' (omega (arith, length-rest_lt c s e))
      ]

  -- On any fuel above the text's length the loop of `parse_duration_str` ends, and with the result
  -- that it has on the fuel that is used.
  pub duration_loop_total :
      (fuel : ℕ) (s : Text) (t : ℕ)
      → length s < fuel
      → (r : Option ℕ) × (duration_loop float fuel s t ≡ some r)
        × (duration_loop float (length s + 1) s t ≡ some r)
  unfolding IsSettled
  duration_loop_total fuel s t h =
      let (r, all) = duration_loop-IsSettled fuel s t h in
      (r, all fuel h, all (length s + 1) (omega arith))
