-- ===== src/Tests/Stalls.antt =====
-- Concrete runs of `wait_for_space` of crates/server/src/client.rs.
use nats_server_rs.Prelude.{Bool, true, false, arith, ◌≡◌, refl}
use nats_server_rs.Client.Stall.{
  returned, Notify, IsNotify, notify_space, writing, Space, has_space, wait_step, wait_for_space,
  drain_begin, drain_end, waits, begins_drain, drains, notifies, start, Reach, begins, steps,
}
use nats_server_rs.Client.Stall.Awake.{is_awake, is_notifying, is_closing, Reach-is_awake}
use nats_server_rs.Client.Stall.Returns.{three_steps, Reach-returned}
use nats_server_rs.Client.Stall.Missed.{missed, missed_wakeup}

-- A future as whether a notification has reached it.
abbrev notice : Notify
notice = record {
  State = Bool;
  enable = λ s. false;
  notify_waiters = λ s. true;
  is_notified = λ s. s;
}

notice-IsNotify : IsNotify notice
notice-IsNotify = record {
  is_notified-enable = λ s. refl;
  is_notified-reached = λ s. refl;
  is_notified-kept = λ s h. refl;
}

-- A publisher that parks at 10 waiting bytes, and a writer that takes 4 of them to the threshold of 6.
abbrev waiting : Space notice
waiting = wait_for_space notice (
    wait_for_space notice (
      wait_for_space notice
        (wait_for_space notice (wait_for_space notice (start notice false 10 6 12)))))

abbrev drained : Space notice
drained = drain_end notice 4 (drain_begin notice 4 waiting)

abbrev woken : Space notice
woken = record (notify_space notice drained) { writer = writing }

waiting-Reach : Reach notice false waiting
waiting-Reach =
    steps
      (steps
        (steps
          (steps (steps (begins false 10 6 12 (omega arith) (omega arith)) (waits _)) (waits _))
          (waits _))
        (waits _))
      (waits _)

drained-Reach : Reach notice false drained
unfolding drain_end drain_begin wait_for_space start wait_step has_space is_notifying is_closing
    notify_space
drained-Reach =
    steps (steps waiting-Reach (begins_drain waiting 4 refl))
      (drains (drain_begin notice 4 waiting) 4 refl)

Reach-is_awake_example : is_awake notice drained ≡ true
unfolding drain_end drain_begin wait_for_space start wait_step has_space is_notifying is_closing
    notify_space
Reach-is_awake_example = Reach-is_awake notice notice-IsNotify drained-Reach refl refl

Reach-returned_example : (three_steps notice woken).waiter ≡ returned
unfolding drain_end drain_begin wait_for_space start wait_step has_space is_notifying is_closing
    notify_space
Reach-returned_example =
    Reach-returned notice {s = woken} notice-IsNotify (steps drained-Reach (notifies drained refl))
      refl refl refl

missed_wakeup_example :
    let s = missed notice false 10 6 12 4 in
    Reach notice true s × (has_space notice s ≡ true) × (is_awake notice s ≡ false)
missed_wakeup_example =
    missed_wakeup notice notice-IsNotify false 10 6 12 3 4 (omega arith) (omega arith) (omega arith)
      (omega arith) (omega arith) (omega arith) (omega arith)
