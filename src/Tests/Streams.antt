-- ===== src/Tests/Streams.antt =====
-- The theorems on the parser, applied at concrete inputs.
use nats_server_rs.Prelude.{Bytes, none, some, false, [], ◌∷◌, ◌++◌, arith, ◌≡◌, refl}
use mathlib.Core.Option
use nats_server_rs.Proto.Types.{unknown_op, fatal, Limits, Header}
use nats_server_rs.Proto.Parts.{new}
use nats_server_rs.Proto.Feed.{line, body, Fed, waiting, failed, feed, feed_into, published}
use nats_server_rs.Proto.Feed.Progress.{feed_into_total}
use nats_server_rs.Proto.Feed.Sizes.{IsFed, feed_into-IsFed}
use nats_server_rs.Proto.Feed.Stream.{norm_fed, feed_into-append}
use nats_server_rs.Proto.Feed.Failed.{feed_into-append_failed}
use nats_server_rs.Proto.Parts
use nats_server_rs.Proto.Feed.{State}
use nats_server_rs.Proto.Feed.Reads.{reads, reads_three}

abbrev limits : Limits
limits = record { max_control_line = 4096; max_payload = 1048576 }

abbrev five_bytes : Header
five_bytes = record { subject = b'a' ∷ []; reply = none; hdr = 0; need = 5; hpub = false }

abbrev head : Bytes
head = b'P' ∷ b'U' ∷ b'B' ∷ b' ' ∷ b'a' ∷ b' ' ∷ b'5' ∷ 13 ∷ 10 ∷ []

abbrev body_end : Bytes
body_end = b'h' ∷ b'e' ∷ b'l' ∷ b'l' ∷ b'o' ∷ 13 ∷ 10 ∷ []

feed_into-append_example :
    Option.map norm_fed (feed_into limits (body five_bytes new) body_end [])
    ≡ Option.map norm_fed (feed limits line (head ++ body_end))
unfolding feed
feed_into-append_example =
    feed_into-append limits head body_end (body five_bytes new) [] [] (omega arith) refl

-- Four of five bytes have come; the read brings the fifth, and no line end behind it.
abbrev four_taken : State
four_taken = body five_bytes (Parts.push new (b'h' ∷ b'e' ∷ b'l' ∷ b'l' ∷ []))

feed_into-append_failed_example :
    feed_into limits four_taken ((b'o' ∷ b'!' ∷ []) ++ head) []
    ≡ some (failed (fatal unknown_op) [])
unfolding feed_into Parts.push
feed_into-append_failed_example =
    feed_into-append_failed limits (b'o' ∷ b'!' ∷ []) head four_taken [] (fatal unknown_op) []
      (omega arith) refl

reads_three_example :
    reads
      ((b'h' ∷ []) ∷ (b'e' ∷ b'l' ∷ []) ∷ (b'l' ∷ b'o' ∷ 13 ∷ 10 ∷ []) ∷ [])
      limits
      (body five_bytes new)
      []
      []
    ≡ some (waiting line [] (published five_bytes (b'l' ∷ b'o' ∷ b'h' ∷ b'e' ∷ b'l' ∷ []) ∷ []))
reads_three_example = reads_three limits five_bytes b'h' [] b'e' (b'l' ∷ []) b'l' (b'o' ∷ []) refl

feed_into_total_example : (r : Fed) × (feed_into limits (body five_bytes new) body_end [] ≡ some r)
feed_into_total_example = feed_into_total limits (body five_bytes new) body_end []

feed_into-IsFed_example :
    (r : Fed) × (feed_into limits line (head ++ body_end) [] ≡ some r) × IsFed limits r
feed_into-IsFed_example = feed_into-IsFed limits line (head ++ body_end) [] tt tt
