-- ===== src/Client/Writer/Run.antt =====
-- `write_loop` of crates/server/src/client.rs on a queue, from its first frame to the last byte written.
use nats_server_rs.Prelude.{
  ℕ, zero, suc, ◌+◌, ◌≤◌, ◌<◌, false, List, [], ◌∷◌, ◌++◌, append-nil, append_assoc, Bytes, ◌==◌,
  length, if◌then◌else◌, ◌≡◌, refl, sym, ap, subst, ==_iff, ◌∙◌, arith, inl, inr, Bool-cases,
}
use nats_server_rs.Proto.Parts.{concat}
use nats_server_rs.Client.Writer.{
  Batch, add_frame, is_full, collect, gather, wrote, End, Turn, going, ends, Waited, answered,
  write_turn,
}
use nats_server_rs.Client.Writer.Stream.{
  stream, concat-one, IsBatch, fresh, write_turn_many, write_turn_whole, gather_lem,
}

-- What the inner loop comes to: the batch is written, with the bytes told to `drained`, or it returns.
pub data Batched : Type 0 where
  written : Batch → ℕ → Batched
  returned : End → Batched
  unfinished : Batched

pub data Run : Type 0 where
  idle : Bytes → Run
  stopped : End → Run
  unfinished : Run

module _ (select : List Bytes → Waited) where
  -- The bytes told to `drained`, added up.
  unfoldable pub drained_more : ℕ → Batched → Batched
  drained_more n (written b m) = written b (n + m)
  drained_more n r = r

  unfoldable pub after_turn : (Batch → Batched) → Turn → Batched
  unfolding drained_more
  after_turn loop (going b n) = drained_more n (loop b)
  after_turn loop (ends e n) = returned e

  -- `while batch_bytes > 0`, where `select` is what each `select!` on the buffers comes to.
  unfoldable pub write_all : ℕ → Batch → Batched
  unfolding after_turn write_turn
  write_all zero b = unfinished
  write_all (suc fuel) b =
      if b.batch_bytes == 0
      then written b 0
      else after_turn (write_all fuel) (write_turn b (select b.parts))

  unfoldable pub after_batch : (Bytes → Run) → Bytes → Batched → Run
  after_batch loop sent (written b n) = loop (sent ++ b.sent)
  after_batch loop sent (returned e) = stopped e
  after_batch loop sent unfinished = unfinished

  -- The outer loop, up to where it waits for work.
  unfoldable pub write_loop : ℕ → List Bytes → Bytes → Run
  unfolding after_batch write_all gather
  write_loop zero queue sent = unfinished
  write_loop (suc fuel) [] sent = idle sent
  write_loop (suc fuel) (frame ∷ queue) sent =
      let (b, rest) = gather frame queue in
      after_batch (write_loop fuel rest) sent (write_all (b.batch_bytes + 1) b)

-- A socket that takes at least a byte of what it is given, and all of a lone buffer.
pub record IsTaking (select : List Bytes → Waited) : Type 0 where
  pub takes :
      (parts : List Bytes)
      → 0 < length (concat parts)
      → (n : ℕ) × (select parts ≡ answered (wrote n)) × (0 < n) × (n ≤ length (concat parts))
  pub whole : (buf : Bytes) → 0 < length buf → select (buf ∷ []) ≡ answered (wrote (length buf))

-- What a round leaves of a batch.
record Turned (b : Batch) (t : Turn) : Type 0 where
  batch : Batch
  taken : ℕ
  goes : t ≡ going batch taken
  same : stream batch ≡ stream b
  valid : IsBatch batch
  fewer : batch.batch_bytes + taken ≡ b.batch_bytes
  some_taken : 0 < taken

none_behind : (sent rest : Bytes) → length rest ≡ 0 → sent ≡ sent ++ rest
none_behind sent [] h = sym (append-nil sent)
none_behind sent (x ∷ rest) h = absurd (omega arith)

length-collect : (queue : List Bytes) (b : Batch) → length (collect queue b).1 ≤ length queue
unfolding collect
length-collect [] b = omega arith
length-collect (frame ∷ queue) b =
    let b' = add_frame frame b in
    elim (Bool-cases (is_full b')) [
      | inl full ↦ rw full (omega arith)
      | inr room ↦ rw room (omega (arith, length-collect queue b'))
    ]

sent-collect : (queue : List Bytes) (b : Batch) → (collect queue b).0.sent ≡ b.sent
unfolding collect add_frame
sent-collect [] b = refl
sent-collect (frame ∷ queue) b =
    let b' = add_frame frame b in
    elim (Bool-cases (is_full b')) [
      | inl full ↦ rw full refl
      | inr room ↦ rw room (sent-collect queue b')
    ]

sent-gather : (frame : Bytes) (queue : List Bytes) → (gather frame queue).0.sent ≡ []
unfolding gather add_frame
sent-gather frame queue = sent-collect queue _

stream-gather :
    (frame : Bytes) (queue : List Bytes)
    → stream (gather frame queue).0 ≡ concat (gather frame queue).0.parts
unfolding stream
stream-gather frame queue =
    ap (λ (r : Bytes). r ++ concat (gather frame queue).0.parts) (sent-gather frame queue)

length-gather : (frame : Bytes) (queue : List Bytes) → length (gather frame queue).1 ≤ length queue
unfolding gather
length-gather frame queue = length-collect queue _

fresh-eq : (b : Batch) → IsBatch b → b ≡ fresh b.sent b.parts
fresh-eq b v = ap (λ (c : ℕ). record b { batch_bytes = c }) v.counted

module _ (select : List Bytes → Waited) (taking : IsTaking select) where
  fresh-Turned :
      (sent : Bytes) (parts : List Bytes)
      → 0 < length (concat parts)
      → Turned (fresh sent parts) (write_turn (fresh sent parts) (select parts))
  fresh-Turned sent [] h = absurd (unfold concat in omega arith)
  fresh-Turned sent (buf ∷ []) h =
      let lone = concat-one buf in
      let pos : 0 < length buf = omega (arith, ap length lone) in
      rw (lone, taking.whole buf pos)
        (record {
          batch = record { parts = []; batch_bytes = 0; sent = sent ++ buf };
          taken = length buf;
          goes = write_turn_whole sent buf pos;
          same =
              unfold stream in
              (append-nil (sent ++ buf) ∙ ap (λ (r : Bytes). sent ++ r) (sym lone));
          valid = record { counted = unfold concat in refl };
          fewer = omega arith;
          some_taken = pos;
        })
  fresh-Turned sent (buf ∷ buf' ∷ parts) h =
      let (n, e, pos, le) = taking.takes (buf ∷ buf' ∷ parts) h in
      let (b', g, s, v, c) = write_turn_many sent buf buf' parts n pos le in
      record {
        batch = b';
        taken = n;
        goes = rw e g;
        same = s;
        valid = v;
        fewer = c;
        some_taken = pos;
      }

  write_turn-Turned :
      (b : Batch)
      → IsBatch b
      → (b.batch_bytes == 0) ≡ false
      → Turned b (write_turn b (select b.parts))
  write_turn-Turned b v h =
      subst (λ (c : Batch). Turned c (write_turn c (select c.parts))) (sym (fresh-eq b v))
        (fresh-Turned b.sent b.parts (ground (arith, v.counted)))

  pub write_all_lem :
      (fuel : ℕ) (b : Batch)
      → IsBatch b
      → b.batch_bytes < fuel
      → (b' : Batch) × (write_all select fuel b ≡ written b' b.batch_bytes) × (b'.sent ≡ stream b)
  unfolding write_all
  write_all_lem zero b v h = absurd (omega arith)
  write_all_lem (suc fuel) b v h = elim (Bool-cases (b.batch_bytes == 0)) [
    | inl none_left ↦
        let zero_left = (==_iff b.batch_bytes 0).0 none_left in
        (
          b,
          rw none_left (ap (written b) (sym zero_left)),
          unfold stream in none_behind b.sent (concat b.parts) (omega (arith, v.counted)),
        )
    | inr some_left ↦
        let t = write_turn-Turned b v some_left in
        let (b', e, s) =
          write_all_lem fuel t.batch t.valid (omega (arith, t.fewer, t.some_taken)) in
        (b', rw (some_left, t.goes, e) (ap (written b') (omega (arith, t.fewer))), s ∙ t.same)
  ]

  write_loop_from :
      (fuel : ℕ) (queue : List Bytes) (sent : Bytes)
      → length queue < fuel
      → write_loop select fuel queue sent ≡ idle (sent ++ concat queue)
  unfolding write_loop
  write_loop_from zero queue sent h = absurd (omega arith)
  write_loop_from (suc fuel) [] sent h = unfold concat in rw (append-nil sent) refl
  write_loop_from (suc fuel) (frame ∷ queue) sent h =
      let (same, valid, few) = gather_lem frame queue in
      let (b, rest) = gather frame queue in
      let (b', e, s) = write_all_lem (b.batch_bytes + 1) b valid (omega arith) in
      let next =
        write_loop_from fuel rest (sent ++ b'.sent) (omega (arith, length-gather frame queue)) in
      rw e (
        next
        ∙ ap idle (
            append_assoc sent b'.sent (concat rest)
            ∙ ap (λ (r : Bytes). sent ++ r)
                (ap (λ (r : Bytes). r ++ concat rest) (s ∙ stream-gather frame queue) ∙ same)))

  -- Over a socket that takes at least one byte of what it is given and a lone buffer whole, the
  -- writer sends a queue of any length as the bytes of its frames in their order, none lost, none
  -- twice, in whatever batches and pieces they go, and then waits for work: no loop of it runs out
  -- of its fuel.
  pub write_loop_lem :
      (queue : List Bytes) → write_loop select (length queue + 1) queue [] ≡ idle (concat queue)
  write_loop_lem queue = write_loop_from (length queue + 1) queue [] (omega arith)
