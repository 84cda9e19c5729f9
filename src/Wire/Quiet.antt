-- ===== src/Wire/Quiet.antt =====
-- `drain` of crates/core-it/src/wire.rs and the keepalive.
use nats_server_rs.Prelude.{
  ◌-◌, Bool, true, false, [], ◌∷◌, ◌++◌, append_assoc, append-nil, Bytes, ltb, equal, length,
  length-drop, drop, codes, arith, ◌≡◌, refl, sym, ap, equal_iff, ltb-false→le, ◌∙◌, Bool-cases,
  inl, inr,
}
use nats_server_rs.Routing.Frame.{crlf}
use nats_server_rs.Wire.{absorb_ping_bytes, drain}

-- Seven bytes are never the six of `PING\r\n`.
length-ping : (bytes : Bytes) → equal bytes (codes "PING" ++ crlf) ≡ true → length bytes ≡ 6
unfolding codes
length-ping bytes h = ap length ((equal_iff bytes (codes "PING" ++ crlf)).0 h)

absorb_ping_bytes_never :
    (auto_pong : Bool) (bytes : Bytes) → absorb_ping_bytes auto_pong bytes ≡ (false, bytes)
unfolding absorb_ping_bytes
absorb_ping_bytes_never false bytes = refl
absorb_ping_bytes_never true bytes = elim (Bool-cases (ltb (length bytes) 7)) [
  | inl e ↦ rw e refl
  | inr e ↦ elim (Bool-cases (equal (drop (length bytes - 7) bytes) (codes "PING" ++ crlf))) [
    | inl p ↦ absurd (
        omega (
          arith,
          ltb-false→le (length bytes) 7 e,
          length-drop (length bytes - 7) bytes,
          length-ping (drop (length bytes - 7) bytes) p,
        ))
    | inr p ↦ rw (e, p) refl
  ]
]

-- Whether or not a connection answers keepalives, `drain` of the test client returns every byte
-- that comes, a keepalive PING too.
pub drain_lem :
    (auto_pong : Bool) (out incoming : Bytes) → drain auto_pong out incoming ≡ out ++ incoming
unfolding drain
drain_lem auto_pong out [] = sym (append-nil out)
drain_lem auto_pong out (c ∷ cs) =
    ap (λ (r : Bool × Bytes). drain auto_pong r.1 cs)
      (absorb_ping_bytes_never auto_pong (out ++ c ∷ []))
    ∙ drain_lem auto_pong (out ++ c ∷ []) cs
    ∙ append_assoc out (c ∷ []) cs
