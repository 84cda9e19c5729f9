-- ===== src/Tests/Batches.antt =====
-- The theorems on subjects, options and the writer, applied at concrete inputs.
use nats_server_rs.Prelude.{
  ℕ, ◌+◌, ◌≤◌, ◌<◌, Bytes, true, false, refl, ap, List, [], ◌∷◌, length, arith, ◌≡◌, ◌↔◌,
}
use nats_server_rs.Proto.Parts.{concat}
use nats_server_rs.Subjects.{sep, is_valid, matches}
use nats_server_rs.Subjects.Split.{split}
use nats_server_rs.Subjects.Grammar.{IsSubject, is_valid_iff}
use nats_server_rs.Subjects.Matching.{Matches, matches_iff}
use nats_server_rs.Client.Options.{default, pack, unpack, unpack-pack}
use nats_server_rs.Client.Writer.{
  Batch, wrote, answered, going, write_turn, Waited, woken, stopped_accepting, ends,
}
use nats_server_rs.Client.Writer.Run.{idle, write_loop, IsTaking, write_loop_lem}
use nats_server_rs.Client.Writer.Stream.{
  stream, fresh, IsBatch, write_turn_many, concat-one, write_turn-woken, write_turn_partial,
}

abbrev filter : Bytes
filter = b'a' ∷ b'.' ∷ b'*' ∷ []

abbrev subject : Bytes
subject = b'a' ∷ b'.' ∷ b'b' ∷ []

is_valid_iff_example : (is_valid filter ≡ true) ↔ IsSubject (split sep filter)
is_valid_iff_example = is_valid_iff filter

matches_iff_example :
    (matches filter subject ≡ true) ↔ Matches (split sep filter) (split sep subject)
matches_iff_example = matches_iff filter subject

unpack-pack_example : unpack (pack default) ≡ default
unpack-pack_example = unpack-pack default

abbrev hello : Bytes
hello = b'h' ∷ b'e' ∷ b'l' ∷ b'l' ∷ b'o' ∷ []

write_turn_many_example :
    (b' : Batch) × (write_turn (fresh [] (hello ∷ subject ∷ [])) (answered (wrote 6)) ≡ going b' 6)
    × (stream b' ≡ stream (fresh [] (hello ∷ subject ∷ [])))
    × IsBatch b'
    × (b'.batch_bytes + 6 ≡ length (concat (hello ∷ subject ∷ [])))
unfolding concat
write_turn_many_example = write_turn_many [] hello subject [] 6 (omega arith) (omega arith)

write_turn_partial_example :
    (b' : Batch) × (write_turn
        (record { parts = hello ∷ []; batch_bytes = 5; sent = [] })
        (answered (wrote 2))
      ≡ going b' 2)
    × (stream b' ≡ b'h' ∷ b'e' ∷ b'o' ∷ [])
write_turn_partial_example = write_turn_partial [] hello 2 (omega arith) (omega arith)

write_turn-woken_example :
    (b' : Batch) × (write_turn (fresh [] (hello ∷ [])) (woken false) ≡ going b' 0)
    × (stream b' ≡ [])
    × (write_turn b' (answered (wrote 5)) ≡ ends stopped_accepting 5)
write_turn-woken_example = write_turn-woken [] hello (wrote 5)

-- A socket that takes one byte of several buffers, and a lone buffer whole.
abbrev byte_by_byte : List Bytes → Waited
byte_by_byte [] = answered (wrote 0)
byte_by_byte (buf ∷ []) = answered (wrote (length buf))
byte_by_byte (buf ∷ buf' ∷ parts) = answered (wrote 1)

takes_some :
    (parts : List Bytes)
    → 0 < length (concat parts)
    → (n : ℕ) × (byte_by_byte parts ≡ answered (wrote n)) × (0 < n) × (n ≤ length (concat parts))
takes_some [] h = absurd (unfold concat in omega arith)
takes_some (buf ∷ []) h =
    let lone = ap length (concat-one buf) in (length buf, refl, omega arith, omega arith)
takes_some (buf ∷ buf' ∷ parts) h = (1, refl, omega arith, omega arith)

byte_by_byte-IsTaking : IsTaking byte_by_byte
byte_by_byte-IsTaking = record { takes = takes_some; whole = λ buf h. refl }

write_loop_lem_example :
    write_loop byte_by_byte 3 (hello ∷ subject ∷ []) [] ≡ idle (concat (hello ∷ subject ∷ []))
write_loop_lem_example = write_loop_lem byte_by_byte byte_by_byte-IsTaking (hello ∷ subject ∷ [])
