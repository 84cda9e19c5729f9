-- ===== src/Arena/Build.antt =====
-- `build_frame` of crates/server/src/routing.rs as it writes into its connection's arena.
use nats_server_rs.Prelude.{
  Bool, not, ◌&&◌, List, [], ◌∷◌, Bytes, ltb, length, is_empty, if◌then◌else◌, codes,
}
use nats_server_rs.Routing.Frame.{Msg, crlf, reply_bytes, frame_body, push_u64, frame_need}
use nats_server_rs.Arena.{ByteBuf, Arena, tail, seal}

-- The calls of `put_slice`, `put_u8` and `push_u64`, in their order.
unfoldable pub pieces : Bool → Bytes → Msg → List Bytes
unfolding push_u64 reply_bytes frame_body codes
pieces supports_headers sid msg =
    let headers = ltb 0 msg.hdr && supports_headers in
    let body = frame_body headers msg in
    let reply = reply_bytes msg.reply in
    let tail_pieces = push_u64 (length body) ∷ crlf ∷ body ∷ crlf ∷ [] in
    let sized =
      (b' ' ∷ [])
      ∷ (if headers then push_u64 msg.hdr ∷ (b' ' ∷ []) ∷ tail_pieces else tail_pieces) in
    (if headers then codes "HMSG " else codes "MSG ")
    ∷ msg.subject
    ∷ (b' ' ∷ [])
    ∷ sid
    ∷ (if not (is_empty reply) then (b' ' ∷ []) ∷ reply ∷ sized else sized)

module _ (b : ByteBuf) where
  unfoldable pub put_all : ByteBuf.Buf b → List Bytes → ByteBuf.Buf b
  put_all x [] = x
  put_all x (p ∷ ps) = put_all (ByteBuf.put_slice b x p) ps

  unfoldable pub build : Arena b → Bool → Bytes → Msg → Arena b × Bytes
  unfolding tail seal put_all pieces frame_need
  build a supports_headers sid msg =
      let a' = tail b a (frame_need supports_headers sid msg) in
      seal b (record a' { chunk = put_all a'.chunk (pieces supports_headers sid msg) })
