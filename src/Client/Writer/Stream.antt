-- ===== src/Client/Writer/Stream.antt =====
-- `consume`, `write_loop` and `write_batch` of crates/server/src/client.rs, as what becomes of the bytes.
use nats_server_rs.Prelude.{
  ℕ, zero, suc, ◌+◌, ◌-◌, ◌≤◌, ◌<◌, Bool, true, false, List, [], ◌∷◌, ◌++◌, append-nil,
  append_assoc, Bytes, ltb, leb, ◌==◌, Bool-cases, inl, inr, length, take, drop, length-append,
  length-drop, take-append-drop, drop-append_of_le, drop-append_of_ge, if◌then◌else◌, arith, ◌≡◌,
  refl, sym, ap, ◌∙◌,
}
use nats_server_rs.Proto.Parts.{concat}
use nats_server_rs.Proto.Parts.Order.{concat-append}
use nats_server_rs.Client.Writer.{
  max_batch_parts, Batch, write_into, add_frame, is_full, collect, gather, consume, wrote, Answer,
  answered, woken, stopped_accepting, ends, going, write_turn,
}

-- `consume` takes the first n bytes of the parts away, and all of them when they are fewer.
pub concat-consume : (parts : List Bytes) (n : ℕ) → concat (consume parts n) ≡ drop n (concat parts)
unfolding consume concat
concat-consume [] zero = refl
concat-consume [] (suc n) = refl
concat-consume (front ∷ parts) zero = refl
concat-consume (front ∷ parts) (suc n) =
    let some_left : (suc n == 0) ≡ false = ground arith in
    elim (Bool-cases (leb (length front) (suc n))) [
      | inl le ↦
          rw (some_left, le)
            (concat-consume parts (suc n - length front)
              ∙ sym (drop-append_of_ge (suc n) front (concat parts) (ground arith)))
      | inr gt ↦
          rw (some_left, gt) (sym (drop-append_of_le (suc n) front (concat parts) (ground arith)))
    ]

-- What the peer gets of a batch: what was sent, and what is still to be written.
unfoldable pub stream : Batch → Bytes
unfolding concat
stream b = b.sent ++ concat b.parts

-- The count kept beside the parts is that of their bytes.
pub record IsBatch (b : Batch) : Type 0 where
  pub counted : b.batch_bytes ≡ length (concat b.parts)

-- A batch whose count is right.
abbrev pub fresh : Bytes → List Bytes → Batch
fresh sent parts = record { parts = parts; batch_bytes = length (concat parts); sent = sent }

-- Of a batch of two or more buffers whose count is right, a write of any number of bytes from one
-- to all of them loses none and repeats none of them, and leaves the count right.
pub write_turn_many :
    (sent buf buf' : Bytes) (parts : List Bytes) (n : ℕ)
    → 0 < n
    → n ≤ length (concat (buf ∷ buf' ∷ parts))
    → (b' : Batch) × (write_turn (fresh sent (buf ∷ buf' ∷ parts)) (answered (wrote n))
        ≡ going b' n)
      × (stream b' ≡ stream (fresh sent (buf ∷ buf' ∷ parts)))
      × IsBatch b'
      × (b'.batch_bytes + n ≡ length (concat (buf ∷ buf' ∷ parts)))
unfolding write_turn
write_turn_many sent buf buf' parts n pos le =
    let all = buf ∷ buf' ∷ parts in
    let left = concat-consume all n in
    let some_left : (n == 0) ≡ false = ground arith in
    (
      record {
        parts = consume all n;
        batch_bytes = length (concat all) - n;
        sent = sent ++ take n (concat all);
      },
      rw some_left refl,
      (unfold stream in
          rw left (
            append_assoc sent _ _
            ∙ ap (λ (r : Bytes). sent ++ r) (take-append-drop n (concat all)))),
      record { counted = sym (length-drop n (concat all)) ∙ ap length (sym left) },
      omega arith,
    )

-- A batch of one buffer that is not empty and that the kernel takes whole is sent, and nothing is
-- left.
pub write_turn_whole :
    (sent buf : Bytes)
    → 0 < length buf
    → write_turn
        (record { parts = buf ∷ []; batch_bytes = length buf; sent = sent })
        (answered (wrote (length buf)))
      ≡ going (record { parts = []; batch_bytes = 0; sent = sent ++ buf }) (length buf)
unfolding write_turn
write_turn_whole sent buf pos =
    let whole : ltb (length buf) (length buf) ≡ false = ground arith in
    let none_left : length buf - length buf ≡ 0 = omega arith in
    let some_left : (length buf == 0) ≡ false = ground arith in
    rw (whole, some_left, none_left) refl

-- A batch of one buffer that the kernel takes n bytes of, at least one and fewer than the buffer
-- has, loses the next n bytes.
pub write_turn_partial :
    (sent buf : Bytes) (n : ℕ)
    → 0 < n
    → n < length buf
    → (b' : Batch) × (write_turn
          (record { parts = buf ∷ []; batch_bytes = length buf; sent = sent })
          (answered (wrote n))
        ≡ going b' n)
      × (stream b' ≡ sent ++ (take n buf ++ drop n (drop n buf)))
unfolding write_turn stream
write_turn_partial sent buf n pos lt =
    let short : ltb n (length buf) ≡ true = ground arith in
    let some_left : (n == 0) ≡ false = ground arith in
    let left = concat-consume (drop n buf ∷ []) n in
    (
      record {
        parts = consume (drop n buf ∷ []) n;
        batch_bytes = length buf - n;
        sent = sent ++ take n buf;
      },
      rw (short, some_left) refl,
      rw left (
          append_assoc sent _ _
          ∙ ap (λ (r : Bytes). sent ++ (take n buf ++ drop n r)) (append-nil _)),
    )

pub concat-one : (buf : Bytes) → concat (buf ∷ []) ≡ buf
unfolding concat
concat-one buf = append-nil buf

-- When a close that is not hard wakes the writer while the write of a lone buffer waits, the
-- buffer is gone: nothing more is sent of it, and whatever comes, the next round ends as if the
-- socket had stopped accepting data.
pub write_turn-woken :
    (sent buf : Bytes) (a : Answer)
    → (b' : Batch) × (write_turn (fresh sent (buf ∷ [])) (woken false) ≡ going b' 0)
      × (stream b' ≡ sent)
      × (write_turn b' (answered a) ≡ ends stopped_accepting (length buf))
unfolding write_turn stream concat
write_turn-woken sent buf a = (
  record { parts = []; batch_bytes = length buf; sent = sent },
  rw (concat-one buf) refl,
  append-nil sent,
  refl,
)

concat-write_into :
    (frame : Bytes) (parts : List Bytes) → concat (write_into frame parts) ≡ concat parts ++ frame
unfolding write_into
concat-write_into [] parts = sym (append-nil _)
concat-write_into (x ∷ frame) parts =
    concat-append parts ((x ∷ frame) ∷ [])
    ∙ ap (λ (r : Bytes). concat parts ++ r) (unfold concat in append-nil (x ∷ frame))

length-write_into :
    (frame : Bytes) (parts : List Bytes) → length (write_into frame parts) ≤ length parts + 1
unfolding write_into
length-write_into [] parts = omega arith
length-write_into (x ∷ frame) parts = omega (arith, length-append parts ((x ∷ frame) ∷ []))

add_frame-IsBatch : (frame : Bytes) (b : Batch) → IsBatch b → IsBatch (add_frame frame b)
unfolding add_frame
add_frame-IsBatch frame b v = record {
  counted =
      rw (concat-write_into frame b.parts, length-append (concat b.parts) frame, v.counted) refl;
}

-- What `collect` leaves of a queue.
record Collected (b : Batch) (queue : List Bytes) (r : Batch × List Bytes) : Type 0 where
  same : concat r.0.parts ++ concat r.1 ≡ concat b.parts ++ concat queue
  valid : IsBatch r.0
  bounded : length r.0.parts ≤ max_batch_parts

Collected-if :
    {b : Batch} {queue : List Bytes} (c : Bool) (r s : Batch × List Bytes)
    → (c ≡ true → Collected b queue r)
    → (c ≡ false → Collected b queue s)
    → Collected b queue (if c then r else s)
Collected-if true r s f g = f refl
Collected-if false r s f g = g refl

is_full-false : (b : Batch) → is_full b ≡ false → length b.parts < max_batch_parts
unfolding is_full
is_full-false b h = ground arith

concat-add_frame :
    (frame : Bytes) (b : Batch) (queue : List Bytes)
    → concat (add_frame frame b).parts ++ concat queue ≡ concat b.parts ++ concat (frame ∷ queue)
unfolding add_frame concat
concat-add_frame frame b queue =
    ap (λ (r : Bytes). r ++ concat queue) (concat-write_into frame b.parts) ∙ append_assoc _ frame _

collect-Collected :
    (queue : List Bytes) (b : Batch)
    → IsBatch b
    → length b.parts < max_batch_parts
    → Collected b queue (collect queue b)
unfolding collect
collect-Collected [] b v small = record { same = refl; valid = v; bounded = omega arith }
collect-Collected (frame ∷ queue) b v small =
    let b' = add_frame frame b in
    let v' = add_frame-IsBatch frame b v in
    let longer : length (add_frame frame b).parts ≤ length b.parts + 1 =
      unfold add_frame in length-write_into frame b.parts in
    let moved = concat-add_frame frame b queue in
    Collected-if (is_full b') (b', queue) (collect queue b')
      (λ full. record { same = moved; valid = v'; bounded = omega arith })
      (λ more.
        let c = collect-Collected queue b' v' (is_full-false b' more) in
        record { same = c.same ∙ moved; valid = c.valid; bounded = c.bounded })

-- The batch that starts with a frame and what stays in the queue are, in order, the bytes that
-- were queued; the count is that of the batch's bytes, and the batch has at most 1000 buffers.
pub gather_lem :
    (frame : Bytes) (queue : List Bytes)
    → let (b, rest) = gather frame queue in
      (concat b.parts ++ concat rest ≡ frame ++ concat queue)
      × IsBatch b
      × (length b.parts ≤ max_batch_parts)
gather_lem frame queue =
    let empty : Batch = record { parts = []; batch_bytes = 0; sent = [] } in
    let small : length (add_frame frame empty).parts ≤ 1 =
      unfold add_frame in length-write_into frame [] in
    let c =
      collect-Collected queue (add_frame frame empty)
        (add_frame-IsBatch frame empty (record { counted = unfold concat in refl }))
        (omega arith) in
    let one : concat (add_frame frame empty).parts ≡ frame =
      unfold add_frame in concat-write_into frame [] ∙ (unfold concat in refl) in
    unfold gather in (c.same ∙ ap (λ (r : Bytes). r ++ concat queue) one, c.valid, c.bounded)
