-- ===== src/Tests/Wire.antt =====
-- The theorems on the raw client of the protocol tests, applied at concrete inputs.
use nats_server_rs.Prelude.{
  true, some, ltb, if◌then◌else◌, [], ◌∷◌, ◌++◌, Bytes, codes, arith, ◌≡◌, refl,
}
use nats_server_rs.Proto.Types.{Limits}
use nats_server_rs.Proto.Args.{is_blank}
use nats_server_rs.Proto.Args.Words.{spaced}
use nats_server_rs.Proto.Feed.{line, feed_into}
use nats_server_rs.Routing.Frame.{push_u64}
use nats_server_rs.Wire.{drain}
use nats_server_rs.Wire.Quiet.{drain_lem}
use nats_server_rs.Wire.RoundTrip.{frame, begun, event_of, feed_into-frame}
use nats_server_rs.Config.Strings.{trim, trim_by, trim_start_by, trim_end_by, is_white, put_unless}
use nats_server_rs.Config.Number.{digits_value, digit_of, next_digit}
use nats_server_rs.Bench.{message, need_more, parsed_size, last_piece, parse_usize, next_frame}
use nats_server_rs.Bench.Messages.{next_frame-message}

abbrev limits : Limits
limits = record { max_control_line = 4096; max_payload = 1024 }

-- `HPUB s r 12 14`, the header block alone with two bytes behind it.
abbrev block : Bytes
block = b'N' ∷ b'A' ∷ 13 ∷ 10 ∷ []

feed_into-frame_example :
    feed_into limits line
      (frame (some block) (b's' ∷ []) (some (b'r' ∷ [])) (b'h' ∷ b'i' ∷ []) ++ (b'P' ∷ []))
      []
    ≡ feed_into limits line (b'P' ∷ []) (
        begun true []
        ++ event_of (some block) (b's' ∷ []) (some (b'r' ∷ [])) (b'h' ∷ b'i' ∷ []) ∷ [])
unfolding is_blank
feed_into-frame_example =
    feed_into-frame limits (some block) (b's' ∷ []) (some (b'r' ∷ [])) (b'h' ∷ b'i' ∷ [])
      (b'P' ∷ []) []
      (record {
        word = record { some_byte = omega arith; no_blank = (refl, tt) };
        no_cr = (refl, tt);
      })
      (record {
        word = record { some_byte = omega arith; no_blank = (refl, tt) };
        no_cr = (refl, tt);
      })
      (omega arith) (omega arith) (unfold spaced push_u64 in omega arith)

drain_lem_example : drain true [] (codes "PING" ++ (13 ∷ 10 ∷ [])) ≡ codes "PING" ++ (13 ∷ 10 ∷ [])
drain_lem_example = drain_lem true [] (codes "PING" ++ (13 ∷ 10 ∷ []))

-- A delivery of two bytes, with the text that ASCII bytes spell.
next_frame-message_example :
    next_frame some ((codes "MSG " ++ codes "a 1 2") ++ 13 ∷ 10 ∷ codes "hi\r\n")
    ≡ (if ltb 4 4 then need_more else message 15)
unfolding codes parsed_size last_piece parse_usize trim trim_by trim_start_by trim_end_by is_white
    put_unless digits_value digit_of next_digit
next_frame-message_example =
    next_frame-message some (codes "a 1 2") (codes "hi\r\n") 2
      (refl, (refl, (refl, (refl, (refl, tt))))) refl (omega arith)
