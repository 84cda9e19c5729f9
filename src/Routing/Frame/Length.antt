-- ===== src/Routing/Frame/Length.antt =====
-- The length of the 503 frame of crates/server/src/routing.rs, `no_responder_frame`.
use nats_server_rs.Prelude.{
  ◌+◌, ◌*◌, ◌++◌, [], ◌∷◌, Bytes, length, length-append, codes, ◌≡◌, ◌↔◌, arith,
}
use nats_server_rs.Routing.Frame.{push_u64, crlf, status_block, no_responder_head, asserted_len}

length-status_block : (published : Bytes) → length (status_block published) ≡ 32 + length published
unfolding status_block codes
length-status_block published = omega (arith, length-append published (13 ∷ 10 ∷ 13 ∷ 10 ∷ []))

length-no_responder_head :
    (reply sid published : Bytes)
    → length (no_responder_head reply sid published)
      ≡ 10
        + 2 * length (push_u64 (32 + length published))
        + length reply
        + length sid
        + (32 + length published)
unfolding no_responder_head codes
length-no_responder_head reply sid published =
    let n = push_u64 (32 + length published) in
    let block = status_block published in
    let second = n ++ (crlf ++ block) in
    let first = n ++ (b' ' ∷ second) in
    omega (
      arith,
      length-append reply (b' ' ∷ (sid ++ (b' ' ∷ first))),
      length-append sid (b' ' ∷ first),
      length-append n (b' ' ∷ second),
      length-append n (crlf ++ block),
      length-status_block published,
    )

-- The length that no_responder_frame asserts is the length of what it has built exactly when the
-- length of the status block has fifteen digits.
pub no_responder_head-asserted_len :
    (reply sid published : Bytes)
    → (length (no_responder_head reply sid published) ≡ asserted_len reply sid published)
      ↔ (length (push_u64 (32 + length published)) ≡ 15)
unfolding asserted_len
no_responder_head-asserted_len reply sid published =
    let real = length-no_responder_head reply sid published in
    (λ h. omega (arith, real), λ h. omega (arith, real))
