-- ===== src/Proto/Parts/Order.antt =====
-- In which order `Parts` of crates/server/src/proto.rs gives its pieces back.
use nats_server_rs.Prelude.{
  ℕ, ◌+◌, Bool, true, false, not, Option, none, some, List, [], ◌∷◌, ◌++◌, ◌≡◌, refl, sym, ap, ◌∙◌,
  append-nil, append_assoc, Bytes, length, arith,
}
use nats_server_rs.Proto.Parts.{Parts, new, push, hoist, concat, assemble, take_body, own_last}

-- `push` of each piece in turn.
abbrev pub push_all : Parts → List Bytes → Parts
push_all p [] = p
push_all p (b ∷ bs) = push_all (push p b) bs

abbrev pub is_even : List Bytes → Bool
is_even [] = true
is_even (b ∷ bs) = not (is_even bs)

pub concat-append : (bs cs : List Bytes) → concat (bs ++ cs) ≡ concat bs ++ concat cs
unfolding concat
concat-append [] cs = refl
concat-append (b ∷ bs) cs = rw (concat-append bs cs) (sym (append_assoc b (concat bs) (concat cs)))

pub assemble-concat : (bs : List Bytes) → assemble none bs ≡ concat bs
unfolding assemble
assemble-concat [] = refl
assemble-concat (b ∷ bs) = refl

-- `hoist` changes no byte.
pub own_last_lem : (bs : List Bytes) → own_last bs ≡ bs
unfolding own_last
own_last_lem [] = refl
own_last_lem (b ∷ []) = refl
own_last_lem (b ∷ c ∷ bs) = ap (◌∷◌ b) (own_last_lem (c ∷ bs))

pub take_body-hoist : (p : Parts) → take_body (hoist p) ≡ take_body p
unfolding take_body hoist
take_body-hoist p = go p.first p.rest p.got p.fresh
  where
    go :
        (first : Option Bytes) (rest : List Bytes) (got : ℕ) (fresh : Bool)
        → take_body (hoist (record { first = first; rest = rest; got = got; fresh = fresh }))
          ≡ assemble first rest
    go first rest got false = refl
    go none [] got true = refl
    go (some f) [] got true = refl
    go first (b ∷ bs) got true = rw (own_last_lem (b ∷ bs))

abbrev pieces : List Bytes → ℕ → Bool → Parts
pieces rest got fresh = record { first = none; rest = rest; got = got; fresh = fresh }

push_all_even :
    (bs rest : List Bytes) (got : ℕ) (fresh : Bool)
    → is_even bs ≡ true
    → (got' : ℕ) × (fresh' : Bool) × (push_all (pieces rest got fresh) bs
        ≡ pieces (rest ++ bs) got' fresh')
unfolding push
push_all_even [] rest got fresh h = (got, fresh, rw append-nil)
push_all_even (b ∷ []) rest got fresh h = cc
push_all_even (b ∷ c ∷ bs) rest got fresh h =
    let (got', fresh', e) =
      push_all_even bs (rest ++ (b ∷ c ∷ [])) (got + length b + length c) true (ground arith) in
    (got', fresh', e ∙ rw append_assoc)

take_body-push :
    (rest : List Bytes) (last : Bytes) (got : ℕ) (fresh : Bool)
    → take_body (push (pieces rest got fresh) last) ≡ last ++ concat rest
unfolding take_body push
take_body-push [] last got fresh = unfold concat in sym (append-nil last)
take_body-push (b ∷ bs) last got fresh = refl

push_all-append :
    (p : Parts) (bs cs : List Bytes) → push_all p (bs ++ cs) ≡ push_all (push_all p bs) cs
push_all-append p [] cs = refl
push_all-append p (b ∷ bs) cs = push_all-append (push p b) bs cs

-- The pieces of an even number of pushes come back in their order.
pub take_body-push_all_even :
    (bs : List Bytes) → is_even bs ≡ true → take_body (push_all new bs) ≡ concat bs
take_body-push_all_even bs h =
    let (got, fresh, e) = push_all_even bs [] 0 false h in
    rw e (unfold take_body in assemble-concat bs)

-- After an even number of pushes and one more, the last piece comes back in front of all the
-- others.
pub take_body-push_all_odd :
    (bs : List Bytes) (last : Bytes)
    → is_even bs ≡ true
    → take_body (push_all new (bs ++ last ∷ [])) ≡ last ++ concat bs
take_body-push_all_odd bs last h =
    let (got, fresh, e) = push_all_even bs [] 0 false h in
    rw (push_all-append new bs (last ∷ []), e) (take_body-push bs last got fresh)
