-- ===== src/Server/Info/Escape.antt =====
-- `push_str` of crates/server/src/info.rs against a reader of JSON strings.
use nats_server_rs.Prelude.{
  true, refl, ap, ◌∙◌, ◌/◌, ◌%◌, ◌≤◌, ltb→lt, ltb-false→le, ==_iff, ℕ, ◌+◌, ◌-◌, ◌*◌, ◌^◌, ◌<◌,
  Bool, false, Option, some, [], ◌∷◌, ◌++◌, append_assoc, Bytes, ltb, ◌==◌, All, if◌then◌else◌,
  arith, ◌≡◌, subst, sym,
}
use nats_server_rs.Config.Strings.{Text}
use nats_server_rs.Server.Info.{encode_utf8, hex, escape, escape_all}
use nats_server_rs.Server.Info.Reader.{
  is_hex, unhex, is_tail, code_point, read_utf8, read_char, Reads, closed, more,
}

tail_byte : (n : ℕ) → is_tail (0x80 + n % 2 ^ 6) ≡ true
unfolding is_tail
tail_byte n = ground arith

code_point_lem :
    (low n c : ℕ) (s : Bytes) → n ≡ c → low ≤ c → c < 0x110000 → code_point low n s ≡ some (c, s)
unfolding code_point
code_point_lem low n c s e ge lt = rw e (ground arith)

read_one : (c : ℕ) (rest : Bytes) → c < 0x80 → read_utf8 c rest ≡ some (c, rest)
unfolding read_utf8
read_one c rest lt = ground arith

read_two :
    (c : ℕ) (rest : Bytes)
    → 0x80 ≤ c
    → c < 0x800
    → read_utf8 (0xC0 + c / 2 ^ 6) ((0x80 + c % 2 ^ 6) ∷ rest) ≡ some (c, rest)
unfolding read_utf8
read_two c rest ge lt =
    let h0 : ltb (0xC0 + c / 2 ^ 6) 0x80 ≡ false = ground arith in
    let h1 : ltb (0xC0 + c / 2 ^ 6) 0xC0 ≡ false = ground arith in
    let h2 : ltb (0xC0 + c / 2 ^ 6) 0xE0 ≡ true = ground arith in
    let value : (0xC0 + c / 2 ^ 6 - 0xC0) * 2 ^ 6 + (0x80 + c % 2 ^ 6 - 0x80) ≡ c = omega arith in
    rw (h0, h1, h2, tail_byte c) (code_point_lem 0x80 _ c rest value ge (omega (arith, lt)))

read_three :
    (c : ℕ) (rest : Bytes)
    → 0x800 ≤ c
    → c < 0x10000
    → read_utf8 (0xE0 + c / 2 ^ 12) ((0x80 + c / 2 ^ 6 % 2 ^ 6) ∷ (0x80 + c % 2 ^ 6) ∷ rest)
      ≡ some (c, rest)
unfolding read_utf8
read_three c rest ge lt =
    let h0 : ltb (0xE0 + c / 2 ^ 12) 0x80 ≡ false = ground arith in
    let h1 : ltb (0xE0 + c / 2 ^ 12) 0xC0 ≡ false = ground arith in
    let h2 : ltb (0xE0 + c / 2 ^ 12) 0xE0 ≡ false = ground arith in
    let h3 : ltb (0xE0 + c / 2 ^ 12) 0xF0 ≡ true = ground arith in
    let value : (0xE0 + c / 2 ^ 12 - 0xE0) * 2 ^ 12
          + (0x80 + c / 2 ^ 6 % 2 ^ 6 - 0x80) * 2 ^ 6
          + (0x80 + c % 2 ^ 6 - 0x80)
        ≡ c =
      omega arith in
    rw (h0, h1, h2, h3, tail_byte (c / 2 ^ 6), tail_byte c)
      (code_point_lem 0x800 _ c rest value ge (omega (arith, lt)))

read_four :
    (c : ℕ) (rest : Bytes)
    → 0x10000 ≤ c
    → c < 0x110000
    → read_utf8
        (0xF0 + c / 2 ^ 18)
        ((0x80 + c / 2 ^ 12 % 2 ^ 6) ∷ (0x80 + c / 2 ^ 6 % 2 ^ 6) ∷ (0x80 + c % 2 ^ 6) ∷ rest)
      ≡ some (c, rest)
unfolding read_utf8
read_four c rest ge lt =
    let h0 : ltb (0xF0 + c / 2 ^ 18) 0x80 ≡ false = ground arith in
    let h1 : ltb (0xF0 + c / 2 ^ 18) 0xC0 ≡ false = ground arith in
    let h2 : ltb (0xF0 + c / 2 ^ 18) 0xE0 ≡ false = ground arith in
    let h3 : ltb (0xF0 + c / 2 ^ 18) 0xF0 ≡ false = ground arith in
    let h4 : ltb (0xF0 + c / 2 ^ 18) 0xF8 ≡ true = ground arith in
    let value : (0xF0 + c / 2 ^ 18 - 0xF0) * 2 ^ 18
          + (0x80 + c / 2 ^ 12 % 2 ^ 6 - 0x80) * 2 ^ 12
          + (0x80 + c / 2 ^ 6 % 2 ^ 6 - 0x80) * 2 ^ 6
          + (0x80 + c % 2 ^ 6 - 0x80)
        ≡ c =
      omega arith in
    rw (h0, h1, h2, h3, h4, tail_byte (c / 2 ^ 12), tail_byte (c / 2 ^ 6), tail_byte c)
      (code_point_lem 0x10000 _ c rest value ge (omega (arith, lt)))

-- What is read of a character, whichever way it is written.
read-if :
    (b : Bool) (x y rest : Bytes) (r : Option (ℕ × Bytes))
    → (b ≡ true → read_char (x ++ rest) ≡ r)
    → (b ≡ false → read_char (y ++ rest) ≡ r)
    → read_char ((if b then x else y) ++ rest) ≡ r
read-if true x y rest r f g = f refl
read-if false x y rest r f g = g refl

-- A byte that is neither a quote, a control character nor a backslash begins a character.
read_char-head :
    (a : ℕ) (s : Bytes)
    → (a == b'"') ≡ false
    → 0x20 ≤ a
    → (a == 92) ≡ false
    → read_char (a ∷ s) ≡ read_utf8 a s
unfolding read_char
read_char-head a s q ge k = let seen : ltb a 0x20 ≡ false = ground arith in rw (q, seen, k) refl

read_char-encode_utf8 :
    (c : ℕ) (rest : Bytes)
    → (c == b'"') ≡ false
    → 0x20 ≤ c
    → (c == 92) ≡ false
    → c < 0x110000
    → read_char (encode_utf8 c ++ rest) ≡ some (c, rest)
unfolding encode_utf8
read_char-encode_utf8 c rest q ge k lt =
    read-if (ltb c 0x80) _ _ rest _
      (λ one. read_char-head c rest q ge k ∙ read_one c rest (ltb→lt _ _ one))
      (λ n1.
        let ge1 = ltb-false→le c 0x80 n1 in
        read-if (ltb c 0x800) _ _ rest _
          (λ two.
            read_char-head (0xC0 + c / 2 ^ 6) _ (ground arith) (omega arith) (ground arith)
            ∙ read_two c rest ge1 (ltb→lt _ _ two))
          (λ n2.
            let ge2 = ltb-false→le c 0x800 n2 in
            read-if (ltb c 0x10000) _ _ rest _
              (λ three.
                read_char-head (0xE0 + c / 2 ^ 12) _ (ground arith) (omega arith) (ground arith)
                ∙ read_three c rest ge2 (ltb→lt _ _ three))
              (λ n3.
                read_char-head (0xF0 + c / 2 ^ 18) _ (ground arith) (omega arith) (ground arith)
                ∙ read_four c rest (ltb-false→le c 0x10000 n3) lt)))

special :
    (c k : ℕ) (s rest : Bytes)
    → (c == k) ≡ true
    → read_char s ≡ some (k, rest)
    → read_char s ≡ some (c, rest)
special c k s rest e h = h ∙ ap (λ (n : ℕ). some (n, rest)) (sym ((==_iff c k).0 e))

hex_lem : (d : ℕ) → d < 16 → (is_hex (hex d) ≡ true) × (unhex (hex d) ≡ d)
unfolding is_hex hex
hex_lem d lt = (ground arith, ground arith)

read_char-control :
    (c : ℕ) (rest : Bytes)
    → c < 0x20
    → read_char (92 ∷ b'u' ∷ b'0' ∷ b'0' ∷ hex (c / 16) ∷ hex (c % 16) ∷ rest) ≡ some (c, rest)
unfolding read_char
read_char-control c rest lt =
    let (hi, hi_value) = hex_lem (c / 16) (omega arith) in
    let (lo, lo_value) = hex_lem (c % 16) (omega arith) in
    rw (hi, lo, hi_value, lo_value) (ap (λ (n : ℕ). some (n, rest)) (omega arith))

read_char-escape :
    (c : ℕ) (rest : Bytes) → c < 0x110000 → read_char (escape c ++ rest) ≡ some (c, rest)
unfolding escape read_char
read_char-escape c rest lt =
    read-if (c == b'"') _ _ rest _ (λ e. special c b'"' (92 ∷ b'"' ∷ rest) rest e refl)
      (λ q.
        read-if (c == 92) _ _ rest _ (λ e. special c 92 (92 ∷ 92 ∷ rest) rest e refl)
          (λ k.
            read-if (c == 10) _ _ rest _ (λ e. special c 10 (92 ∷ b'n' ∷ rest) rest e refl)
              (λ _.
                read-if (c == 13) _ _ rest _ (λ e. special c 13 (92 ∷ b'r' ∷ rest) rest e refl)
                  (λ _.
                    read-if (c == 9) _ _ rest _ (λ e. special c 9 (92 ∷ b't' ∷ rest) rest e refl)
                      (λ _.
                        read-if (ltb c 0x20) _ _ rest _
                          (λ control. read_char-control c rest (ltb→lt _ _ control))
                          (λ n. read_char-encode_utf8 c rest q (ltb-false→le c 0x20 n) k lt))))))

-- A text of code points below 0x110000, escaped as the INFO line does and closed with a quote, is
-- read back as that text, up to that quote and no further, by a reader of JSON strings in UTF-8
-- that follows RFC 8259: it refuses a raw control character, an escape that is none of the
-- grammar's, a character that lacks a continuation byte or is longer than it need be, and code
-- points that there are not.
pub escape_all-Reads :
    (s : Text) (rest : Bytes)
    → All (λ c. c < 0x110000) s
    → Reads (escape_all s ++ (b'"' ∷ rest)) s rest
unfolding escape_all
escape_all-Reads [] rest h = closed rest
escape_all-Reads (c ∷ s) rest h =
    subst (λ v. Reads v (c ∷ s) rest) (sym (append_assoc (escape c) (escape_all s) (b'"' ∷ rest)))
      (more (read_char-escape c (escape_all s ++ (b'"' ∷ rest)) h.0) (escape_all-Reads s rest h.1))
