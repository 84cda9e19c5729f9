-- ===== src/Client/Stall.antt =====
-- `wait_for_space`, `drained`, `no_more_writes` and `push` of crates/server/src/client.rs, one access of a
-- shared atomic in each step: a publisher that waits for room, and the tasks that make or take it.
pub mod Places
pub mod Awake
pub mod Returns
pub mod Missed
use nats_server_rs.Prelude.{
  ℕ, ◌+◌, ◌-◌, ◌^◌, ◌≤◌, ◌<◌, Bool, true, false, not, ◌&&◌, ◌||◌, ltb, leb, if◌then◌else◌, ◌≡◌,
}
use nats_server_rs.Client.Outbox.{wrapping_add, wrapping_sub}

-- Where the waiting task stands: at the first test of room, its load of `gone` before that of `pending`;
-- before `enable`; at the second test; at the `await`; behind the call.
pub data Waiter : Type 0 where
  first_gone first_pending enabling second_gone second_pending parked returned : Waiter

-- The writer in `drained`: before the subtraction, and with a notification to give.
pub data Writer : Type 0 where
  writing : Writer
  draining : ℕ → Writer
  notifying : Writer

-- `finish`, which closes the queue once: before it, behind each store, and behind the notification.
pub data Closer : Type 0 where
  serving stored_gone stored_pending closed : Closer

-- A push under the queue lock whose frame is refused: its bytes are on the counter until it takes them off.
pub data Pusher : Type 0 where
  unlocked : Pusher
  refusing : ℕ → Pusher

-- What client.rs uses of tokio's `Notify`, with the one future that waits on it: `enable` makes that future
-- and registers it, and `is_notified` is whether its `await` returns.
pub record Notify : Type 1 where
  pub State : Type 0
  pub enable : State → State
  pub notify_waiters : State → State
  pub is_notified : State → Bool

-- What tokio's documentation says: no permit is stored for a future to come, `notify_waiters` reaches a
-- future that is registered, and a future stays notified.
pub record IsNotify (n : Notify) : Type 0 where
  pub is_notified-enable : (s : Notify.State n) → Notify.is_notified n (Notify.enable n s) ≡ false
  pub is_notified-reached :
      (s : Notify.State n)
      → Notify.is_notified n (Notify.notify_waiters n (Notify.enable n s)) ≡ true
  pub is_notified-kept :
      (s : Notify.State n)
      → Notify.is_notified n s ≡ true
      → Notify.is_notified n (Notify.notify_waiters n s) ≡ true

module _ (n : Notify) where
  pub record Space : Type 0 where
    pub pending : ℕ
    pub soft : ℕ
    pub hard : ℕ
    pub gone : Bool
    pub space : Notify.State n
    pub waiter : Waiter
    pub writer : Writer
    pub closer : Closer
    pub pusher : Pusher

  -- `room`
  unfoldable pub has_space : Space → Bool
  has_space s = s.gone || leb s.pending s.soft

  unfoldable pub notify_space : Space → Space
  notify_space s = record s { space = Notify.notify_waiters n s.space }

  -- The next step of the waiting task.
  unfoldable pub wait_step : Waiter → Space → Space
  wait_step first_gone s = record s { waiter = if s.gone then returned else first_pending }
  wait_step first_pending s = record s {
    waiter = if leb s.pending s.soft then returned else enabling;
  }
  wait_step enabling s = record s { waiter = second_gone; space = Notify.enable n s.space }
  wait_step second_gone s = record s { waiter = if s.gone then returned else second_pending }
  wait_step second_pending s = record s {
    waiter = if leb s.pending s.soft then returned else parked;
  }
  wait_step parked s = if Notify.is_notified n s.space then record s { waiter = first_gone } else s
  wait_step returned s = s

  unfoldable pub wait_for_space : Space → Space
  unfolding wait_step
  wait_for_space s = wait_step s.waiter s

  -- `drained`, from its load of `gone`.
  unfoldable pub drain_begin : ℕ → Space → Space
  drain_begin bytes s = record s { writer = if s.gone then writing else draining bytes }

  unfoldable pub drain_end : ℕ → Space → Space
  unfolding wrapping_sub
  drain_end bytes s = record s {
    pending = wrapping_sub s.pending bytes;
    writer = if ltb s.soft s.pending && leb (s.pending - bytes) s.soft then notifying else writing;
  }

  -- A step of the system. `overlap` is whether a refused push may be interleaved with other tasks.
  pub data Step (overlap : Bool) : Space → Space → Type 0 where
    waits : (s : Space) → Step overlap s (wait_for_space s)
    calls : (s : Space) → s.waiter ≡ returned → Step overlap s (record s { waiter = first_gone })
    begins_drain :
        (s : Space) (bytes : ℕ) → s.writer ≡ writing → Step overlap s (drain_begin bytes s)
    drains :
        (s : Space) (bytes : ℕ) → s.writer ≡ draining bytes → Step overlap s (drain_end bytes s)
    notifies :
        (s : Space)
        → s.writer ≡ notifying
        → Step overlap s (record (notify_space s) { writer = writing })
    accepts :
        (s : Space) (len : ℕ)
        → s.pusher ≡ unlocked
        → s.closer ≡ serving
        → s.pending + len ≤ s.hard
        → Step overlap s (record s { pending = wrapping_add s.pending len })
    raises :
        (s : Space) (len : ℕ)
        → overlap ≡ true
        → s.pusher ≡ unlocked
        → s.closer ≡ serving
        → s.hard < s.pending + len
        → s.pending + len < 2 ^ 64
        → Step overlap s (record s { pending = wrapping_add s.pending len; pusher = refusing len })
    lowers :
        (s : Space) (len : ℕ)
        → s.pusher ≡ refusing len
        → Step overlap s (record s { pending = wrapping_sub s.pending len; pusher = unlocked })
    stores_gone :
        (s : Space)
        → s.pusher ≡ unlocked
        → s.closer ≡ serving
        → Step overlap s (record s { gone = true; closer = stored_gone })
    stores_pending :
        (s : Space)
        → s.closer ≡ stored_gone
        → Step overlap s (record s { pending = 0; closer = stored_pending })
    wakes_all :
        (s : Space)
        → s.closer ≡ stored_pending
        → Step overlap s (record (notify_space s) { closer = closed })

  -- A call of `wait_for_space` on a queue that is served, with nothing else under way.
  unfoldable pub start : Notify.State n → (pending soft hard : ℕ) → Space
  start space pending soft hard = record {
    pending = pending;
    soft = soft;
    hard = hard;
    gone = false;
    space = space;
    waiter = first_gone;
    writer = writing;
    closer = serving;
    pusher = unlocked;
  }

  pub data Reach (overlap : Bool) : Space → Type 0 where
    begins :
        (space : Notify.State n) (pending soft hard : ℕ)
        → pending ≤ hard
        → hard < 2 ^ 64
        → Reach overlap (start space pending soft hard)
    steps : {s t : Space} → Reach overlap s → Step overlap s t → Reach overlap t
