-- ===== src/Wire/Frames.antt =====
-- What crates/core-it/src/wire.rs writes, and what the parser of crates/server/src/proto.rs makes of it.
use nats_server_rs.Prelude.{
  ℕ, zero, suc, ◌-◌, ◌/◌, ◌^◌, ◌≤◌, ◌<◌, pos, Bool, true, false, Option, none, some, List, [], ◌∷◌,
  ◌++◌, Bytes, ◌==◌, length, length-append, All, if◌then◌else◌, arith, ◌≡◌, refl, ◌∙◌, Bool-cases,
  inl, inr,
}
use nats_server_rs.Routing.Frame.{push_u64, digits, or_none}
use nats_server_rs.Routing.Frame.Digits.{parse_size-push_u64, length-digits}
use nats_server_rs.Proto.Types.{Limits, Header, Action, Result}
use nats_server_rs.Proto.Args.{is_blank, of, max_args}
use nats_server_rs.Proto.Args.Words.{IsWord, spaced, slice-of_spaced, count-of_spaced}
use nats_server_rs.Proto.Line.{sized, shape, pub_args, pub_line, view_option}

-- A digit is no blank and no CR.
abbrev IsDigit : ℕ → Type 0
IsDigit b = (b'0' ≤ b) × (b ≤ b'9')

digits-IsDigit :
    (room n : ℕ) (acc : Bytes) → All IsDigit acc → All IsDigit (or_none (digits room n acc))
unfolding digits or_none
digits-IsDigit zero n acc h = tt
digits-IsDigit (suc room) n acc h = elim (Bool-cases (n / 10 == 0)) [
  | inl e ↦ rw e ((omega arith, omega arith), h)
  | inr e ↦ rw e (digits-IsDigit room (n / 10) _ ((omega arith, omega arith), h))
]

not_blank : (bs : Bytes) → All IsDigit bs → All (λ b. is_blank b ≡ false) bs
unfolding is_blank
not_blank [] h = tt
not_blank (b ∷ bs) h = (ground arith, not_blank bs h.1)

not_cr : (bs : Bytes) → All IsDigit bs → All (λ b. (b == 13) ≡ false) bs
not_cr [] h = tt
not_cr (b ∷ bs) h = (ground arith, not_cr bs h.1)

-- A word that does not end a line.
pub record IsToken (w : Bytes) : Type 0 where
  pub word : IsWord w
  pub no_cr : All (λ b. (b == 13) ≡ false) w

push_u64-IsToken : (n : ℕ) → n < 10 ^ 9 → IsToken (push_u64 n)
unfolding push_u64
push_u64-IsToken n lt =
    let ds = digits-IsDigit 20 n [] tt in
    let (some_digits, few) = length-digits 8 19 n [] (omega arith) (omega arith) in
    record {
      word = record { some_byte = omega (arith, some_digits); no_blank = not_blank _ ds };
      no_cr = not_cr _ ds;
    }

pub_line-words :
    (verb : Bytes) (ws : List Bytes) (hpub : Bool) (lim : Limits)
    → All IsWord ws
    → length ws ≤ max_args
    → pub_line (verb ++ spaced ws) (spaced ws) true hpub lim
      ≡ pub_args hpub lim
          (verb ++ spaced ws)
          (of (spaced ws) (length verb))
          (shape hpub (length ws))
unfolding pub_line
pub_line-words verb ws hpub lim h few =
    let base : length (verb ++ spaced ws) - length (spaced ws) ≡ length verb =
      omega (arith, length-append verb (spaced ws)) in
    rw (base, count-of_spaced ws (length verb) h few) refl

sized_ok :
    (hpub : Bool) (lim : Limits) (subject : Bytes) (reply : Option Bytes) (hdr total : ℕ)
    → hdr ≤ total
    → total ≤ lim.max_payload
    → sized hpub lim subject reply (pos hdr) (pos total)
      ≡ Result.ok (
          Action.body
            (record { subject = subject; reply = reply; hdr = hdr; need = total; hpub = hpub }))
unfolding sized
sized_ok hpub lim subject reply hdr total h few = ground arith

-- The words of a publish line: the subject, the reply, the header's size and the total.
abbrev pub words : Bool → Bytes → Option Bytes → ℕ → ℕ → List Bytes
words false s none h n = s ∷ push_u64 n ∷ []
words false s (some r) h n = s ∷ r ∷ push_u64 n ∷ []
words true s none h n = s ∷ push_u64 h ∷ push_u64 n ∷ []
words true s (some r) h n = s ∷ r ∷ push_u64 h ∷ push_u64 n ∷ []

abbrev pub IsReply : Option Bytes → Type 0
IsReply none = Unit
IsReply (some r) = IsToken r

-- What the line asks for.
abbrev pub asked : Bool → Bytes → Option Bytes → ℕ → ℕ → Header
asked hpub s reply h n = record {
  subject = s;
  reply = reply;
  hdr = if hpub then h else 0;
  need = n;
  hpub = hpub;
}

pub words-IsToken :
    (hpub : Bool) (s : Bytes) (reply : Option Bytes) (h n : ℕ)
    → IsToken s
    → IsReply reply
    → h < 10 ^ 9
    → n < 10 ^ 9
    → All IsToken (words hpub s reply h n)
words-IsToken false s none h n t r hl nl = (t, (push_u64-IsToken n nl, tt))
words-IsToken false s (some r) h n t tr hl nl = (t, (tr, (push_u64-IsToken n nl, tt)))
words-IsToken true s none h n t r hl nl = (t, (push_u64-IsToken h hl, (push_u64-IsToken n nl, tt)))
words-IsToken true s (some r) h n t tr hl nl =
    (t, (tr, (push_u64-IsToken h hl, (push_u64-IsToken n nl, tt))))

All-IsWord : (ws : List Bytes) → All IsToken ws → All IsWord ws
All-IsWord [] h = tt
All-IsWord (w ∷ ws) h = (h.0.word, All-IsWord ws h.1)

length-words-le :
    (hpub : Bool) (s : Bytes) (reply : Option Bytes) (h n : ℕ)
    → length (words hpub s reply h n) ≤ max_args
length-words-le false s none h n = omega arith
length-words-le false s (some r) h n = omega arith
length-words-le true s none h n = omega arith
length-words-le true s (some r) h n = omega arith

module _ (lim : Limits) (verb s : Bytes) (h n : ℕ) (hl : h < 10 ^ 9) (nl : n < 10 ^ 9)
    (few : n ≤ lim.max_payload) where
  pub_args-words :
      (hpub : Bool) (reply : Option Bytes)
      → h ≤ n
      → All IsWord (words hpub s reply h n)
      → pub_args hpub lim
          (verb ++ spaced (words hpub s reply h n))
          (of (spaced (words hpub s reply h n)) (length verb))
          (shape hpub (length (words hpub s reply h n)))
        ≡ Result.ok (Action.body (asked hpub s reply h n))
  unfolding pub_args shape view_option
  pub_args-words false none le ok =
      let at = λ (j : ℕ) (lt : j < 2).
        slice-of_spaced verb (words false s none h n) j ok (omega arith) lt in
      rw (at 0 (omega arith), at 1 (omega arith), parse_size-push_u64 n nl)
        (sized_ok false lim s none 0 n (omega arith) few)
  pub_args-words false (some r) le ok =
      let at = λ (j : ℕ) (lt : j < 3).
        slice-of_spaced verb (words false s (some r) h n) j ok (omega arith) lt in
      rw (at 0 (omega arith), at 1 (omega arith), at 2 (omega arith), parse_size-push_u64 n nl)
        (sized_ok false lim s (some r) 0 n (omega arith) few)
  pub_args-words true none le ok =
      let at = λ (j : ℕ) (lt : j < 3).
        slice-of_spaced verb (words true s none h n) j ok (omega arith) lt in
      rw
        (
          at 0 (omega arith),
          at 1 (omega arith),
          at 2 (omega arith),
          parse_size-push_u64 h hl,
          parse_size-push_u64 n nl,
        )
        (sized_ok true lim s none h n le few)
  pub_args-words true (some r) le ok =
      let at = λ (j : ℕ) (lt : j < 4).
        slice-of_spaced verb (words true s (some r) h n) j ok (omega arith) lt in
      rw
        (
          at 0 (omega arith),
          at 1 (omega arith),
          at 2 (omega arith),
          at 3 (omega arith),
          parse_size-push_u64 h hl,
          parse_size-push_u64 n nl,
        )
        (sized_ok true lim s (some r) h n le few)

-- A publish line with its words is a body that the parser then waits for.
pub pub_line-asked :
    (hpub : Bool) (verb s : Bytes) (reply : Option Bytes) (h n : ℕ) (lim : Limits)
    → IsToken s
    → IsReply reply
    → h ≤ n
    → n < 10 ^ 9
    → n ≤ lim.max_payload
    → pub_line
        (verb ++ spaced (words hpub s reply h n))
        (spaced (words hpub s reply h n))
        true
        hpub
        lim
      ≡ Result.ok (Action.body (asked hpub s reply h n))
pub_line-asked hpub verb s reply h n lim t r le small few =
    let ok = All-IsWord _ (words-IsToken hpub s reply h n t r (omega arith) small) in
    pub_line-words verb (words hpub s reply h n) hpub lim ok (length-words-le hpub s reply h n)
    ∙ pub_args-words lim verb s h n (omega arith) small few hpub reply le ok
