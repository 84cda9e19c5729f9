-- ===== src/Proto/Args/Words.antt =====
-- `Args::of` of crates/server/src/proto.rs on arguments that stand behind one space each.
use nats_server_rs.Prelude.{
  ℕ, zero, suc, ◌+◌, ◌-◌, ◌≤◌, ◌<◌, true, false, Option, none, some, List, [], ◌∷◌, ◌++◌,
  append_assoc, Bytes, ltb, get_or, min, set, take, drop, length, length-append, drop-append_of_ge,
  take-append_of_le, take_all, Bool-cases, inl, inr, All, arith, ◌≡◌, refl, sym, ap, ◌∙◌,
}
use nats_server_rs.Proto.Args.{
  Args, max_args, no_args, push, is_blank, scan_blank, scan_byte, scan, of, count, slice,
}

-- A word has a byte, and no blank.
pub record IsWord (w : Bytes) : Type 0 where
  pub some_byte : 1 ≤ length w
  pub no_blank : All (λ b. is_blank b ≡ false) w

-- Each word behind a space.
unfoldable pub spaced : List Bytes → Bytes
spaced [] = []
spaced (w ∷ ws) = b' ' ∷ (w ++ spaced ws)

-- The ranges of the words, from an index on.
pushes : List Bytes → ℕ → Args → Args
pushes [] i a = a
pushes (w ∷ ws) i a = pushes ws (suc i + length w) (push a (suc i) (suc i + length w))

scan-byte :
    (b : ℕ) (bs : Bytes) (i : ℕ) (start : Option ℕ) (a : Args)
    → is_blank b ≡ false
    → scan (b ∷ bs) i start a ≡ scan bs (suc i) (scan_byte start i) a
unfolding scan
scan-byte b bs i start a h = cc

scan-in_word :
    (w bs : Bytes) (i st : ℕ) (a : Args)
    → All (λ b. is_blank b ≡ false) w
    → scan (w ++ bs) i (some st) a ≡ scan bs (i + length w) (some st) a
unfolding scan
scan-in_word [] bs i st a h = ap (λ k. scan bs k (some st) a) (omega arith)
scan-in_word (b ∷ w) bs i st a h =
    scan-byte b (w ++ bs) i (some st) a h.0
    ∙ scan-in_word w bs (suc i) st a h.1
    ∙ ap (λ k. scan bs k (some st) a) (omega arith)

scan-word :
    (w bs : Bytes) (i : ℕ) (a : Args)
    → IsWord w
    → scan (w ++ bs) i none a ≡ scan bs (i + length w) (some i) a
unfolding scan
scan-word [] bs i a h = absurd (omega (arith, h.some_byte))
scan-word (b ∷ w) bs i a h =
    scan-byte b (w ++ bs) i none a h.no_blank.0
    ∙ scan-in_word w bs (suc i) i a h.no_blank.1
    ∙ ap (λ k. scan bs k (some i) a) (omega arith)

scan-spaced :
    (ws : List Bytes) (i : ℕ) (start : Option ℕ) (a : Args)
    → All IsWord ws
    → scan (spaced ws) i start a ≡ pushes ws i (scan_blank start i a)
unfolding scan spaced pushes
scan-spaced [] i start a h = refl
scan-spaced (w ∷ ws) i start a h =
    scan-word w (spaced ws) (suc i) (scan_blank start i a) h.0
    ∙ scan-spaced ws (suc i + length w) (some (suc i)) (scan_blank start i a) h.1

len-pushes : (ws : List Bytes) (i : ℕ) (a : Args) → (pushes ws i a).len ≡ a.len + length ws
unfolding pushes push
len-pushes [] i a = omega arith
len-pushes (w ∷ ws) i a =
    omega (arith, len-pushes ws (suc i + length w) (push a (suc i) (suc i + length w)))

module _ {A : Type 0} (v d : A) where
  get_or-set_other : (xs : List A) (k j : ℕ) → j < k → get_or (set xs k v) j d ≡ get_or xs j d
  get_or-set_other [] k j h = refl
  get_or-set_other (x ∷ xs) zero j h = absurd (omega arith)
  get_or-set_other (x ∷ xs) (suc k) zero h = refl
  get_or-set_other (x ∷ xs) (suc k) (suc j) h = get_or-set_other xs k j (omega arith)

  get_or-set_same : (xs : List A) (k : ℕ) → k < length xs → get_or (set xs k v) k d ≡ v
  get_or-set_same [] k h = absurd (omega arith)
  get_or-set_same (x ∷ xs) zero h = refl
  get_or-set_same (x ∷ xs) (suc k) h = get_or-set_same xs k (omega arith)

  length-set : (xs : List A) (k : ℕ) → length (set xs k v) ≡ length xs
  length-set [] k = refl
  length-set (x ∷ xs) zero = refl
  length-set (x ∷ xs) (suc k) = ap suc (length-set xs k)

push-before :
    (a : Args) (from to j : ℕ)
    → j < a.len
    → get_or (push a from to).range j (0, 0) ≡ get_or a.range j (0, 0)
unfolding push
push-before a from to j h = elim (Bool-cases (ltb a.len max_args)) [
  | inl e ↦ rw e (get_or-set_other (a.base + from, a.base + to) (0, 0) a.range a.len j h)
  | inr e ↦ rw e refl
]

length-push : (a : Args) (from to : ℕ) → length (push a from to).range ≡ length a.range
unfolding push
length-push a from to = elim (Bool-cases (ltb a.len max_args)) [
  | inl e ↦ rw e (length-set (a.base + from, a.base + to) (0, 0) a.range a.len)
  | inr e ↦ rw e refl
]

pushes-before :
    (ws : List Bytes) (i : ℕ) (a : Args) (j : ℕ)
    → j < a.len
    → get_or (pushes ws i a).range j (0, 0) ≡ get_or a.range j (0, 0)
unfolding pushes
pushes-before [] i a j h = refl
pushes-before (w ∷ ws) i a j h =
    pushes-before ws (suc i + length w) (push a (suc i) (suc i + length w)) j
      (unfold push in omega arith)
    ∙ push-before a (suc i) (suc i + length w) j h

-- The bytes of a range.
abbrev cut : Bytes → ℕ × ℕ → Bytes
cut line r = take (r.1 - r.0) (drop r.0 line)

take-drop_middle :
    (pre w post : Bytes) (from to : ℕ)
    → from ≡ length pre
    → to ≡ length pre + length w
    → cut (pre ++ (w ++ post)) (from, to) ≡ w
take-drop_middle pre w post from to e f =
    let skipped : drop from (pre ++ (w ++ post)) ≡ w ++ post =
      drop-append_of_ge from pre (w ++ post) (omega arith)
      ∙ ap (λ k. drop k (w ++ post)) {x = from - length pre} {y = 0} (omega arith) in
    ap (take (to - from)) skipped
    ∙ take-append_of_le (to - from) w post (omega arith)
    ∙ take_all (to - from) w (omega arith)

-- The word's own range, as long as the array has a place for it.
pushes-here :
    (w : Bytes) (ws : List Bytes) (i : ℕ) (a : Args)
    → a.len < max_args
    → length a.range ≡ max_args
    → get_or (pushes (w ∷ ws) i a).range a.len (0, 0)
      ≡ (a.base + suc i, a.base + (suc i + length w))
unfolding pushes push
pushes-here w ws i a h e =
    let place : ltb a.len max_args ≡ true = ground arith in
    pushes-before ws (suc i + length w) (push a (suc i) (suc i + length w)) a.len (omega arith)
    ∙ rw place (
        get_or-set_same (a.base + suc i, a.base + (suc i + length w)) (0, 0) a.range a.len
          (omega (arith, e)))

slice-pushes :
    (ws : List Bytes) (pre line : Bytes) (i : ℕ) (a : Args) (j : ℕ)
    → line ≡ pre ++ spaced ws
    → a.base + i ≡ length pre
    → a.len + length ws ≤ max_args
    → length a.range ≡ max_args
    → j < length ws
    → slice (pushes ws i a) line (a.len + j) ≡ get_or ws j []
unfolding slice spaced pushes push scan_blank
slice-pushes [] pre line i a j e at few full h = absurd (omega arith)
slice-pushes (w ∷ ws) pre line i a zero e at few full h =
    let r : ℕ × ℕ = (a.base + suc i, a.base + (suc i + length w)) in
    let begun = length-append pre (b' ' ∷ []) in
    ap (λ k. cut line (get_or (pushes (w ∷ ws) i a).range k (0, 0))) {x = a.len + 0} {y = a.len}
      (omega arith)
    ∙ ap (cut line) (pushes-here w ws i a (omega arith) full)
    ∙ ap (λ l. cut l r) (e ∙ sym (append_assoc pre (b' ' ∷ []) (w ++ spaced ws)))
    ∙ take-drop_middle (pre ++ (b' ' ∷ [])) w (spaced ws) r.0 r.1 (omega arith) (omega arith)
slice-pushes (w ∷ ws) pre line i a (suc j) e at few full h =
    let a' = push a (suc i) (suc i + length w) in
    let begun = length-append pre (b' ' ∷ w) in
    ap (λ k. cut line (get_or (pushes (w ∷ ws) i a).range k (0, 0))) {x = a.len + suc j}
      {y = a.len + 1 + j} (omega arith)
    ∙ slice-pushes ws (pre ++ (b' ' ∷ w)) line (suc i + length w) a' j
        (e ∙ sym (append_assoc pre (b' ' ∷ w) (spaced ws))) (unfold push in omega arith)
        (unfold push in omega arith) (length-push a (suc i) (suc i + length w) ∙ full) (omega arith)

-- The arguments behind a verb are its words, in their order.
pub slice-of_spaced :
    (verb : Bytes) (ws : List Bytes) (j : ℕ)
    → All IsWord ws
    → length ws ≤ max_args
    → j < length ws
    → slice (of (spaced ws) (length verb)) (verb ++ spaced ws) j ≡ get_or ws j []
unfolding of scan_blank
slice-of_spaced verb ws j h few lt =
    ap (λ a. slice a (verb ++ spaced ws) j) (scan-spaced ws 0 none (no_args (length verb)) h)
    ∙ ap (λ k. slice (pushes ws 0 (no_args (length verb))) (verb ++ spaced ws) k) {x = j}
        {y = 0 + j} (omega arith)
    ∙ slice-pushes ws verb (verb ++ spaced ws) 0 (no_args (length verb)) j refl (omega arith)
        (omega arith) refl lt

pub count-of_spaced :
    (ws : List Bytes) (base : ℕ)
    → All IsWord ws
    → length ws ≤ max_args
    → count (of (spaced ws) base) ≡ length ws
unfolding of count scan_blank
count-of_spaced ws base h few =
    ap (λ (a : Args). min a.len max_args) (scan-spaced ws 0 none (no_args base) h)
    ∙ ap (λ n. min n max_args) (len-pushes ws 0 (no_args base))
    ∙ omega arith
