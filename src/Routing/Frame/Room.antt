-- ===== src/Routing/Frame/Room.antt =====
-- The room that `build_frame` of crates/server/src/routing.rs asks its arena for.
use nats_server_rs.Prelude.{
  ℕ, ◌+◌, ◌^◌, ◌≤◌, ◌<◌, Bool, true, false, not, ◌&&◌, [], ◌∷◌, ◌++◌, Bytes, ltb, length,
  length-append, is_empty, if◌then◌else◌, codes, arith,
}
use nats_server_rs.Routing.Frame.{
  Msg, crlf, reply_bytes, frame_body, push_u64, build_frame, frame_need,
}
use nats_server_rs.Routing.Frame.Digits.{length-push_u64}

-- The parts of a frame that depend on a test.
verb_length : (headers : Bool) → length (if headers then codes "HMSG " else codes "MSG ") ≤ 5
unfolding codes
verb_length true = omega arith
verb_length false = omega arith

reply_length :
    (reply : Bytes) → length (if not (is_empty reply) then b' ' ∷ reply else []) ≤ 1 + length reply
reply_length [] = omega arith
reply_length (b ∷ bs) = omega arith

hdr_length :
    (headers : Bool) (n : ℕ)
    → n < 10 ^ 19
    → length (if headers then push_u64 n ++ (b' ' ∷ []) else []) ≤ 20
hdr_length true n lt = omega (
  arith,
  length-append (push_u64 n) (b' ' ∷ []),
  length-push_u64 18 n (omega arith) (omega arith),
)
hdr_length false n lt = omega arith

-- A frame is no longer than the room that `build_frame` asks for.
pub length-build_frame :
    (headers : Bool) (sid : Bytes) (msg : Msg)
    → msg.hdr < 10 ^ 19
    → length (frame_body (ltb 0 msg.hdr && headers) msg) < 10 ^ 19
    → length (build_frame headers sid msg) ≤ frame_need headers sid msg
unfolding build_frame frame_need
length-build_frame headers sid msg small fits =
    let h = ltb 0 msg.hdr && headers in
    let body = frame_body h msg in
    let reply = reply_bytes msg.reply in
    let verb = if h then codes "HMSG " else codes "MSG " in
    let r = if not (is_empty reply) then b' ' ∷ reply else [] in
    let d = if h then push_u64 msg.hdr ++ (b' ' ∷ []) else [] in
    let n = push_u64 (length body) in
    let end = crlf ++ (body ++ crlf) in
    let sized = d ++ (n ++ end) in
    let after = r ++ (b' ' ∷ sized) in
    omega (
      arith,
      verb_length h,
      reply_length reply,
      hdr_length h msg.hdr small,
      length-push_u64 18 (length body) (omega (arith, fits)) (omega arith),
      length-append verb (msg.subject ++ (b' ' ∷ (sid ++ after))),
      length-append msg.subject (b' ' ∷ (sid ++ after)),
      length-append sid after,
      length-append r (b' ' ∷ sized),
      length-append d (n ++ end),
      length-append n end,
      length-append body crlf,
    )
