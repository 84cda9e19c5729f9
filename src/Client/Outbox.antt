-- ===== src/Client/Outbox.antt =====
-- `Outbox` of crates/server/src/client.rs. The queue lock is held from the first read of an operation
-- that queues to its last write, so each operation is one step.
pub mod Pending
use nats_server_rs.Prelude.{
  ℕ, ◌+◌, ◌-◌, ◌*◌, ◌/◌, ◌%◌, ◌^◌, Bool, true, false, not, ◌&&◌, ◌||◌, List, [], ◌∷◌, ◌++◌, Bytes,
  String, ltb, leb, length, codes, if◌then◌else◌,
}

abbrev pub usize_mod : ℕ
usize_mod = 2 ^ 64

-- `fetch_add` and `fetch_sub` on an `AtomicUsize` wrap.
unfoldable pub wrapping_add : ℕ → ℕ → ℕ
wrapping_add a b = (a + b) % usize_mod

unfoldable pub wrapping_sub : ℕ → ℕ → ℕ
wrapping_sub a b = (a + usize_mod - b) % usize_mod

-- The frames that a connection says about a command.
unfoldable pub ok_frame : Bytes
unfolding codes
ok_frame = codes "+OK\r\n"

unfoldable pub err_frame : String → Bytes
unfolding codes
err_frame text = codes "-ERR '" ++ (codes text ++ codes "'\r\n")

unfoldable pub pong_frame : Bytes
unfolding codes
pong_frame = codes "PONG\r\n"

unfoldable pub ping_frame : Bytes
unfolding codes
ping_frame = codes "PING\r\n"

pub data Enqueue : Type 0 where
  ok soft_limit slow_consumer dropped : Enqueue

-- `sending` is that `tx` still holds a sender, `receiving` that the writer still holds the receiver;
-- `queue` is what the channel holds, oldest first.
pub record Outbox : Type 0 where
  pub sending : Bool
  pub receiving : Bool
  pub queue : List Bytes
  pub pending : ℕ
  pub soft : ℕ
  pub hard : ℕ
  pub gone : Bool

-- `Outbox::new` for a configured `max_pending`.
unfoldable pub new : ℕ → Outbox
new max_pending = record {
  sending = true;
  receiving = true;
  queue = [];
  pending = 0;
  soft = max_pending / 4 * 3;
  hard = max_pending;
  gone = false;
}

-- `push`: a refused frame takes its bytes off the counter again. The sum that is compared wraps, as it does
-- where overflow is not checked; a build that checks it panics there.
unfoldable pub push : Outbox → Bytes → Outbox × Enqueue
unfolding wrapping_add wrapping_sub
push o frame =
    let len = length frame in
    let before = wrapping_add o.pending len in
    let back = wrapping_sub before len in
    if ltb o.hard before
    then (record o { pending = back }, slow_consumer)
    else if not o.receiving
    then (record o { pending = back }, dropped)
    else (
      record o { pending = before; queue = o.queue ++ frame ∷ [] },
      if ltb o.soft before then soft_limit else ok,
    )

-- `enqueue`, and `queue_with` for a frame that is built under the lock.
unfoldable pub enqueue : Outbox → Bytes → Outbox × Enqueue
unfolding push
enqueue o frame = if o.sending then push o frame else (o, dropped)

unfoldable pub drained : Outbox → ℕ → Outbox
unfolding wrapping_sub
drained o bytes = if o.gone then o else record o { pending = wrapping_sub o.pending bytes }

-- Whether `drained` wakes the publishers that wait for space.
unfoldable pub drained_wakes : Outbox → ℕ → Bool
drained_wakes o bytes = not o.gone && (ltb o.soft o.pending && leb (o.pending - bytes) o.soft)

unfoldable pub room : Outbox → Bool
room o = o.gone || leb o.pending o.soft

unfoldable pub no_more_writes : Outbox → Outbox
no_more_writes o = record o { gone = true; pending = 0 }
