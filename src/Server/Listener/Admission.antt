-- ===== src/Server/Listener/Admission.antt =====
-- The connections that `accept_loop` of crates/server/src/net.rs has let in.
use nats_server_rs.Prelude.{
  ℕ, suc, ◌+◌, ◌%◌, ◌^◌, ◌≤◌, ◌<◌, Bool, true, false, not, List, [], ◌∷◌, leb, ◌==◌, ==_iff, length,
  any, retain, All, All-retain, if◌then◌else◌, Bool-cases, inl, inr, ℤ, pos, negsuc, ltb_ℤ,
  pos_part, arith, ◌≡◌, refl, ap, subst, ◌&&◌,
}
use nats_server_rs.Server.{Server, next_cid}
use nats_server_rs.Server.Listener.{Open, at_limit, accept, leave}

-- What happens at the listener: a socket comes, with whether TCP_NODELAY can be set on it, or the task
-- of a connection ends.
pub data Happening : Type 0 where
  comes : (nodelay : Bool) → Happening
  ends : (cid : ℕ) → Happening

-- Only a live connection's task can end.
unfoldable pub happen : Happening → Open → Open
happen (comes nodelay) o = accept nodelay o
happen (ends cid) o = if any (λ c. c == cid) o.live then leave cid o else o

unfoldable pub happen_all : List Happening → Open → Open
unfolding happen
happen_all [] o = o
happen_all (h ∷ hs) o = happen_all hs (happen h o)

abbrev pub Distinct : List ℕ → Type 0
Distinct [] = Unit
Distinct (c ∷ cs) = (any (λ d. d == c) cs ≡ false) × Distinct cs

-- A count within a limit; a negative limit is none.
abbrev pub Within : ℤ → ℕ → Type 0
Within (pos n) k = k ≤ n
Within (negsuc n) k = Unit

-- The counter counts the live connections, which have different numbers, all given out already, and
-- are no more than a limit that is set.
pub record IsOpen (o : Open) : Type 0 where
  pub counted : o.server.active ≡ length o.live
  pub numbered : All (λ c. c ≤ o.server.cids) o.live
  pub distinct : Distinct o.live
  pub limited : Within o.server.cfg.max_connections (length o.live)
  pub started : length o.live ≤ o.server.cids

IsOpen-if :
    (b : Bool) (o p : Open)
    → (b ≡ true → IsOpen o)
    → (b ≡ false → IsOpen p)
    → IsOpen (if b then o else p)
IsOpen-if true o p f g = f refl
IsOpen-if false o p f g = g refl

fresh_lem : (n : ℕ) (cs : List ℕ) → All (λ c. c ≤ n) cs → any (λ d. d == suc n) cs ≡ false
fresh_lem n [] h = refl
fresh_lem n (c ∷ cs) h = ground (arith, fresh_lem n cs h.1)

raised : (n : ℕ) (cs : List ℕ) → All (λ c. c ≤ n) cs → All (λ c. c ≤ suc n) cs
raised n [] h = tt
raised n (c ∷ cs) h = (omega arith, raised n cs h.1)

room_of :
    (m : ℤ) (active n : ℕ)
    → (not (ltb_ℤ m (pos 0)) && leb (pos_part m) active) ≡ false
    → active ≡ n
    → Within m (suc n)
room_of (pos k) active n h e = ground (arith, h)
room_of (negsuc k) active n h e = tt

room_left :
    (s : Server) (n : ℕ) → at_limit s ≡ false → s.active ≡ n → Within s.cfg.max_connections (suc n)
unfolding at_limit
room_left s n h e = room_of s.cfg.max_connections s.active n h e

Within-fewer : (m : ℤ) (k n : ℕ) → k ≤ n → Within m n → Within m k
Within-fewer (pos l) k n le h = omega arith
Within-fewer (negsuc l) k n le h = tt

accept-IsOpen :
    (nodelay : Bool) (o : Open) → o.server.cids + 1 < 2 ^ 64 → IsOpen o → IsOpen (accept nodelay o)
unfolding accept next_cid
accept-IsOpen nodelay o small v =
    IsOpen-if (not nodelay) o _ (λ _. v)
      (λ _.
        IsOpen-if (at_limit o.server) o _ (λ _. v)
          (λ room.
            let cid : (o.server.cids + 1) % 2 ^ 64 ≡ suc o.server.cids = omega arith in
            let active : (o.server.active + 1) % 2 ^ 64 ≡ suc o.server.active =
              omega (arith, v.counted, v.started) in
            rw (cid, active)
              (record {
                counted = omega (arith, v.counted);
                numbered = (omega arith, raised o.server.cids o.live v.numbered);
                distinct = (fresh_lem o.server.cids o.live v.numbered, v.distinct);
                limited = room_left o.server _ room v.counted;
                started = omega (arith, v.started);
              })))

any-retain_other :
    (p : ℕ → Bool) (c : ℕ) (cs : List ℕ)
    → any (λ d. d == c) cs ≡ false
    → any (λ d. d == c) (retain p cs) ≡ false
any-retain_other p c [] h = refl
any-retain_other p c (d ∷ cs) h = ground (arith, any-retain_other p c cs)

retain-Distinct : (p : ℕ → Bool) (cs : List ℕ) → Distinct cs → Distinct (retain p cs)
retain-Distinct p [] h = tt
retain-Distinct p (c ∷ cs) h = elim (Bool-cases (p c)) [
  | inl kept ↦ rw kept (any-retain_other p c cs h.0, retain-Distinct p cs h.1)
  | inr gone ↦ rw gone (retain-Distinct p cs h.1)
]

retain_absent :
    (c : ℕ) (cs : List ℕ)
    → any (λ d. d == c) cs ≡ false
    → length (retain (λ d. not (d == c)) cs) ≡ length cs
retain_absent c [] h = refl
retain_absent c (d ∷ cs) h = ground (arith, retain_absent c cs)

retain_present :
    (c : ℕ) (cs : List ℕ)
    → Distinct cs
    → any (λ d. d == c) cs ≡ true
    → suc (length (retain (λ d. not (d == c)) cs)) ≡ length cs
retain_present c [] k h = cc
retain_present c (d ∷ cs) k h = elim (Bool-cases (d == c)) [
  | inl here ↦
      let same = (==_iff d c).0 here in
      let absent = subst (λ x. any (λ y. y == x) cs ≡ false) same k.0 in
      rw here (ap suc (retain_absent c cs absent))
  | inr other ↦ let more = retain_present c cs k.1 in ground (arith, more)
]

leave-IsOpen :
    (cid : ℕ) (o : Open)
    → o.server.cids < 2 ^ 64
    → any (λ c. c == cid) o.live ≡ true
    → IsOpen o
    → IsOpen (leave cid o)
unfolding leave
leave-IsOpen cid o small here v =
    let fewer = retain_present cid o.live v.distinct here in
    record {
      counted = omega (arith, fewer, v.counted, v.started);
      numbered = All-retain (λ c. c ≤ o.server.cids) (λ c. not (c == cid)) o.live v.numbered;
      distinct = retain-Distinct (λ c. not (c == cid)) o.live v.distinct;
      limited = Within-fewer o.server.cfg.max_connections _ _ (omega (arith, fewer)) v.limited;
      started = omega (arith, fewer, v.started);
    }

-- How far a happening takes the numbers.
cids_step :
    (h : Happening) (o : Open)
    → o.server.cids + 1 < 2 ^ 64
    → (happen h o).server.cids ≤ o.server.cids + 1
unfolding happen accept leave next_cid
cids_step (comes nodelay) o small = ground arith
cids_step (ends cid) o small = ground arith

happen-IsOpen :
    (h : Happening) (o : Open) → o.server.cids + 1 < 2 ^ 64 → IsOpen o → IsOpen (happen h o)
unfolding happen
happen-IsOpen (comes nodelay) o small v = accept-IsOpen nodelay o small v
happen-IsOpen (ends cid) o small v =
    IsOpen-if (any (λ c. c == cid) o.live) (leave cid o) o
      (λ here. leave-IsOpen cid o (omega arith) here v) (λ _. v)

-- Through any order of sockets that come and connection tasks that end, as long as the numbers
-- given out before it and its events are together fewer than 2^64, the counter of active
-- connections is the number of live ones, their numbers are different and already given out, and a
-- limit that is set is never passed.
pub happen_all-IsOpen :
    (hs : List Happening) (o : Open)
    → o.server.cids + length hs < 2 ^ 64
    → IsOpen o
    → IsOpen (happen_all hs o)
unfolding happen_all
happen_all-IsOpen [] o small v = v
happen_all-IsOpen (h ∷ hs) o small v =
    happen_all-IsOpen hs (happen h o) (omega (arith, cids_step h o (omega arith)))
      (happen-IsOpen h o (omega arith) v)
