-- ===== src/Routing/Frame.antt =====
-- The frames of crates/server/src/routing.rs: `push_u64`, `build_frame` and `no_responder_frame`.
pub mod Length
pub mod Digits
pub mod Room
use nats_server_rs.Prelude.{
  ℕ, zero, suc, ◌+◌, ◌-◌, ◌*◌, ◌/◌, ◌%◌, Bool, not, ◌&&◌, Option, none, some, [], ◌∷◌, ◌++◌, Bytes,
  ltb, ◌==◌, length, is_empty, drop, if◌then◌else◌, codes,
}

-- The loop of `push_u64`, from the end of its buffer of twenty bytes: the fuel is the room left in it,
-- and `none` an index below its start.
unfoldable pub digits : ℕ → ℕ → Bytes → Option Bytes
digits zero n acc = none
digits (suc room) n acc =
    let acc' = (b'0' + n % 10) ∷ acc in
    let rest = digits room (n / 10) acc' in if n / 10 == 0 then some acc' else rest

unfoldable pub or_none : Option Bytes → Bytes
or_none none = []
or_none (some b) = b

unfoldable pub push_u64 : ℕ → Bytes
unfolding digits or_none
push_u64 n = or_none (digits 20 n [])

-- A message on its way to the registry.
pub record Msg : Type 0 where
  pub subject : Bytes
  pub reply : Option Bytes
  pub hdr : ℕ
  pub body : Bytes

abbrev pub crlf : Bytes
crlf = 13 ∷ 10 ∷ []

-- `msg.reply.unwrap_or(&[])`
unfoldable pub reply_bytes : Option Bytes → Bytes
reply_bytes none = []
reply_bytes (some r) = r

-- The body that a subscriber gets: a header block is cut off for one that declared no headers.
unfoldable pub frame_body : Bool → Msg → Bytes
frame_body headers msg = if ltb 0 msg.hdr && not headers then drop msg.hdr msg.body else msg.body

-- `build_frame` for a subscription's `sid` on a connection that does or does not support headers.
unfoldable pub build_frame : Bool → Bytes → Msg → Bytes
unfolding push_u64 reply_bytes frame_body codes
build_frame supports_headers sid msg =
    let headers = ltb 0 msg.hdr && supports_headers in
    let body = frame_body headers msg in
    let reply = reply_bytes msg.reply in
    (if headers then codes "HMSG " else codes "MSG ")
    ++ (msg.subject
        ++ (b' '
            ∷ (sid
                ++ ((if not (is_empty reply) then b' ' ∷ reply else [])
                    ++ (b' '
                        ∷ ((if headers then push_u64 msg.hdr ++ (b' ' ∷ []) else [])
                            ++ (push_u64 (length body) ++ (crlf ++ (body ++ crlf)))))))))

-- The room that `build_frame` asks the arena for.
unfoldable pub frame_need : Bool → Bytes → Msg → ℕ
unfolding reply_bytes frame_body
frame_need supports_headers sid msg =
    let body = frame_body (ltb 0 msg.hdr && supports_headers) msg in
    48
    + length msg.subject
    + length sid
    + length (reply_bytes msg.reply)
    + length body
    + 2 * length crlf

-- The status line and header of the 503 frame, to its blank line.
unfoldable pub status_block : Bytes → Bytes
unfolding codes
status_block published = codes "NATS/1.0 503\r\nNats-Subject: " ++ (published ++ codes "\r\n\r\n")

-- Up to the terminator, which follows the assertion on the length.
unfoldable pub no_responder_head : Bytes → Bytes → Bytes → Bytes
unfolding push_u64 status_block codes
no_responder_head reply sid published =
    let status_len = 32 + length published in
    codes "HMSG "
    ++ (reply
        ++ (b' '
            ∷ (sid
                ++ (b' '
                    ∷ (push_u64 status_len
                        ++ (b' ' ∷ (push_u64 status_len ++ (crlf ++ status_block published))))))))

unfoldable pub no_responder_frame : Bytes → Bytes → Bytes → Bytes
unfolding no_responder_head
no_responder_frame reply sid published = no_responder_head reply sid published ++ crlf

-- What `debug_assert_eq!` says of the length of the head.
unfoldable pub asserted_len : Bytes → Bytes → Bytes → ℕ
asserted_len reply sid published = 48 + length reply + length sid + (32 + length published) - 8
