-- ===== src/Client/Writer.antt =====
-- The writer task of crates/server/src/client.rs: `write_into`, the batch that `write_loop` collects, its
-- write attempts, `write_batch` and `consume`. The kernel's answers are given.
pub mod Stream
pub mod Run
use nats_server_rs.Prelude.{
  ℕ, zero, suc, ◌+◌, ◌-◌, ◌*◌, ◌≤◌, ◌<◌, Bool, true, false, ◌||◌, List, [], ◌∷◌, ◌++◌, Bytes, ltb,
  leb, ◌==◌, length, is_empty, take, drop, if◌then◌else◌, ◌≡◌,
}
use nats_server_rs.Proto.Parts.{concat}

abbrev pub max_batch_bytes : ℕ
max_batch_bytes = 256 * 1024

abbrev pub max_batch_parts : ℕ
max_batch_parts = 1000

-- The buffers still to be written, and the count of bytes that `write_loop` keeps beside them; `sent`
-- is what the kernel took of the batch.
pub record Batch : Type 0 where
  pub parts : List Bytes
  pub batch_bytes : ℕ
  pub sent : Bytes

-- `write_into`
unfoldable pub write_into : Bytes → List Bytes → List Bytes
write_into frame parts = if is_empty frame then parts else parts ++ frame ∷ []

unfoldable pub add_frame : Bytes → Batch → Batch
unfolding write_into
add_frame frame b = record b {
  parts = write_into frame b.parts;
  batch_bytes = b.batch_bytes + length frame;
}

unfoldable pub is_full : Batch → Bool
is_full b = leb max_batch_parts (length b.parts) || leb max_batch_bytes b.batch_bytes

-- `while let Ok(frame) = rx.try_recv()`: the batch, and what stays in the queue.
unfoldable pub collect : List Bytes → Batch → Batch × List Bytes
unfolding add_frame is_full
collect [] b = (b, [])
collect (frame ∷ queue) b =
    let b' = add_frame frame b in
    let rest = collect queue b' in if is_full b' then (b', queue) else rest

-- The batch that begins with the frame that woke the writer.
unfoldable pub gather : Bytes → List Bytes → Batch × List Bytes
unfolding collect add_frame
gather frame queue =
    collect queue (add_frame frame (record { parts = []; batch_bytes = 0; sent = [] }))

-- `consume`
unfoldable pub consume : List Bytes → ℕ → List Bytes
consume [] left = []
consume (front ∷ parts) left =
    let rest = consume parts (left - length front) in
    if left == 0
    then front ∷ parts
    else if leb (length front) left
    then rest
    else drop left front ∷ parts

-- What a write comes back with.
pub data Answer : Type 0 where
  wrote : ℕ → Answer
  timed_out interrupted broke : Answer

-- What `write_batch` leaves: its list, its result, and what the kernel took.
pub record Written : Type 0 where
  pub parts : List Bytes
  pub answer : Answer
  pub taken : Bytes

-- The buffer of a batch of one is out of the list during the call.
unfoldable pub write_one : Bytes → Answer → Written
write_one buf (wrote n) =
    if ltb n (length buf)
    then record { parts = drop n buf ∷ []; answer = wrote n; taken = take n buf }
    else record { parts = []; answer = wrote n; taken = buf }
write_one buf e = record { parts = buf ∷ []; answer = e; taken = [] }

unfoldable pub write_many : List Bytes → Answer → Written
unfolding concat
write_many parts (wrote n) = record {
  parts = parts;
  answer = wrote n;
  taken = take n (concat parts);
}
write_many parts e = record { parts = parts; answer = e; taken = [] }

-- `write_batch`
unfoldable pub write_batch : List Bytes → Answer → Written
unfolding write_one write_many
write_batch [] a = record { parts = []; answer = wrote 0; taken = [] }
write_batch (buf ∷ []) a = write_one buf a
write_batch (buf ∷ buf' ∷ parts) a = write_many (buf ∷ buf' ∷ parts) a

-- A write that is dropped while it waits takes its buffer with it.
unfoldable pub cancelled : List Bytes → List Bytes
cancelled (buf ∷ []) = []
cancelled parts = parts

pub data End : Type 0 where
  hard_close deadline stopped_accepting write_error : End

-- What a round of the inner loop does: goes on, with the bytes it tells `drained`, or returns.
pub data Turn : Type 0 where
  going : Batch → ℕ → Turn
  ends : End → ℕ → Turn

unfoldable pub settle : Batch → Written → Answer → Turn
unfolding consume
settle b w timed_out = ends deadline b.batch_bytes
settle b w interrupted = going (record b { parts = w.parts }) 0
settle b w broke = ends write_error b.batch_bytes
settle b w (wrote n) =
    if n == 0
    then ends stopped_accepting b.batch_bytes
    else going
        (record {
          parts = consume w.parts n;
          batch_bytes = b.batch_bytes - n;
          sent = b.sent ++ w.taken;
        })
        n

unfoldable pub after_write : Batch → Written → Turn
unfolding settle
after_write b w = settle b w w.answer

-- What ends the `select!` of a round: the write, or a wake with the connection hard closed or not.
pub data Waited : Type 0 where
  answered : Answer → Waited
  woken : (hard : Bool) → Waited

-- A round on a connection that is not hard closed when it starts.
unfoldable pub write_turn : Batch → Waited → Turn
unfolding after_write write_batch cancelled
write_turn b (answered a) = after_write b (write_batch b.parts a)
write_turn b (woken true) = ends hard_close b.batch_bytes
write_turn b (woken false) = going (record b { parts = cancelled b.parts }) 0
