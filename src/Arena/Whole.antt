-- ===== src/Arena/Whole.antt =====
-- The frames that a connection's arena hands over: crates/server/src/arena.rs with `build_frame`.
use nats_server_rs.Prelude.{
  ℕ, ◌+◌, ◌-◌, ◌^◌, ◌≤◌, ◌<◌, max, Bool, true, false, not, ◌&&◌, List, [], ◌∷◌, ◌++◌, append-nil,
  append_assoc, Bytes, ltb, ltb-false→le, length, length-append, is_empty, if◌then◌else◌,
  Bool-cases, inl, inr, arith, ◌≡◌, refl, sym, ap, ◌∙◌, codes,
}
use nats_server_rs.Proto.Parts.{concat}
use nats_server_rs.Routing.Frame.{
  Msg, crlf, reply_bytes, frame_body, push_u64, build_frame, frame_need,
}
use nats_server_rs.Routing.Frame.Room.{length-build_frame}
use nats_server_rs.Arena.{ByteBuf, IsByteBuf, Arena, fits, tail, seal}
use nats_server_rs.Arena.Build.{pieces, put_all, build}

joined :
    (headers no_reply : Bool) (verb subject sid reply hdr n body : Bytes)
    → concat (
        verb
        ∷ subject
        ∷ (b' ' ∷ [])
        ∷ sid
        ∷ (if not no_reply
            then (b' ' ∷ [])
              ∷ reply
              ∷ (b' ' ∷ [])
              ∷ (if headers
                  then hdr ∷ (b' ' ∷ []) ∷ n ∷ crlf ∷ body ∷ crlf ∷ []
                  else n ∷ crlf ∷ body ∷ crlf ∷ [])
            else (b' ' ∷ [])
              ∷ (if headers
                  then hdr ∷ (b' ' ∷ []) ∷ n ∷ crlf ∷ body ∷ crlf ∷ []
                  else n ∷ crlf ∷ body ∷ crlf ∷ [])))
      ≡ verb
        ++ (subject
            ++ (b' '
                ∷ (sid
                    ++ ((if not no_reply then b' ' ∷ reply else [])
                        ++ (b' '
                            ∷ ((if headers then hdr ++ (b' ' ∷ []) else [])
                                ++ (n ++ (crlf ++ (body ++ crlf)))))))))
unfolding concat
joined true true verb subject sid reply hdr n body = simp (append_assoc, append-nil) refl
joined true false verb subject sid reply hdr n body = simp (append_assoc, append-nil) refl
joined false true verb subject sid reply hdr n body = simp (append_assoc, append-nil) refl
joined false false verb subject sid reply hdr n body = simp (append_assoc, append-nil) refl

concat-pieces :
    (headers : Bool) (sid : Bytes) (msg : Msg)
    → concat (pieces headers sid msg) ≡ build_frame headers sid msg
unfolding pieces build_frame
concat-pieces headers sid msg =
    let h = ltb 0 msg.hdr && headers in
    let body = frame_body h msg in
    joined h (is_empty (reply_bytes msg.reply)) (if h then codes "HMSG " else codes "MSG ")
      msg.subject sid (reply_bytes msg.reply) (push_u64 msg.hdr) (push_u64 (length body)) body

module _ (b : ByteBuf) (law : IsByteBuf b) where
  contents-put_all :
      (x : ByteBuf.Buf b) (ps : List Bytes)
      → ByteBuf.contents b (put_all b x ps) ≡ ByteBuf.contents b x ++ concat ps
  unfolding put_all concat
  contents-put_all x [] = sym (append-nil _)
  contents-put_all x (p ∷ ps) =
      contents-put_all (ByteBuf.put_slice b x p) ps
      ∙ ap (λ (c : Bytes). c ++ concat ps) (law.contents-put_slice x p)
      ∙ append_assoc _ p _

  capacity-put_all :
      (x : ByteBuf.Buf b) (ps : List Bytes)
      → length (ByteBuf.contents b x) + length (concat ps) ≤ ByteBuf.capacity b x
      → ByteBuf.capacity b (put_all b x ps) ≡ ByteBuf.capacity b x
  unfolding put_all concat
  capacity-put_all x [] le = refl
  capacity-put_all x (p ∷ ps) le =
      let apart = length-append p (concat ps) in
      let here = law.capacity-put_slice x p (omega arith) in
      let longer = ap length (law.contents-put_slice x p) ∙ length-append _ p in
      capacity-put_all (ByteBuf.put_slice b x p) ps (omega (arith, here, longer, apart)) ∙ here

  -- Between two frames nothing is written that was not handed over.
  pub record IsArena (a : Arena b) : Type 0 where
    pub clean : ByteBuf.contents b a.chunk ≡ []

  tail-room :
      (a : Arena b) (need : ℕ)
      → IsArena a
      → (ByteBuf.contents b (tail b a need).chunk ≡ [])
        × (need ≤ ByteBuf.capacity b (tail b a need).chunk)
  unfolding tail fits
  tail-room a need v =
      elim (Bool-cases
        (ltb (ByteBuf.capacity b a.chunk - length (ByteBuf.contents b a.chunk)) need)) [
          | inl short ↦ rw short (
            law.contents-with_capacity (max need a.size),
            omega (arith, law.capacity-with_capacity (max need a.size)),
          )
          | inr room ↦ rw room (v.clean, omega (arith, ltb-false→le _ _ room))
        ]

  -- Over buffers that behave as the crate's documentation says, an arena that has nothing unsealed
  -- and builds a frame whose header size and body length are below 10^19 hands over exactly the
  -- bytes of `build_frame`, has nothing unsealed again, and has used up of the chunk's capacity
  -- what the frame is long: no write went past the room that was asked for.
  pub build-build_frame :
      (a : Arena b) (headers : Bool) (sid : Bytes) (msg : Msg)
      → IsArena a
      → msg.hdr < 10 ^ 19
      → length (frame_body (ltb 0 msg.hdr && headers) msg) < 10 ^ 19
      → ((build b a headers sid msg).1 ≡ build_frame headers sid msg)
        × IsArena (build b a headers sid msg).0
        × (ByteBuf.capacity b (build b a headers sid msg).0.chunk
            ≡ ByteBuf.capacity b (tail b a (frame_need headers sid msg)).chunk
              - length (build_frame headers sid msg))
  unfolding build seal
  build-build_frame a headers sid msg v small body_small =
      let need = frame_need headers sid msg in
      let x = (tail b a need).chunk in
      let (clean, room) = tail-room a need v in
      let ps = pieces headers sid msg in
      let whole = concat-pieces headers sid msg in
      let bounded = length-build_frame headers sid msg small body_small in
      let written = contents-put_all x ps ∙ ap (λ (c : Bytes). c ++ concat ps) clean ∙ whole in
      let in_place =
        capacity-put_all x ps (omega (arith, ap length clean, ap length whole, bounded, room)) in
      (
        law.split-bytes _ ∙ written,
        record { clean = law.split-contents _ },
        law.split-capacity _ ∙ omega (arith, in_place, ap length written),
      )
