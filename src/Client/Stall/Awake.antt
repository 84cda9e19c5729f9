-- ===== src/Client/Stall/Awake.antt =====
-- No wakeup of a waiting publisher is lost in crates/server/src/client.rs, where no refused push overlaps.
use nats_server_rs.Prelude.{
  ℕ, ◌-◌, ◌<◌, ◌^◌, Bool, true, false, not, ◌&&◌, ◌||◌, ltb, leb, arith, ◌≡◌, refl,
}
use nats_server_rs.Prelude.{Bool-cases, subst, inl, inr}
use nats_server_rs.Client.Outbox.{wrapping_add, wrapping_sub}
use nats_server_rs.Client.Stall.{
  Waiter, first_gone, first_pending, enabling, second_gone, second_pending, parked, returned,
  Writer, draining, notifying, Closer, stored_gone, stored_pending, unlocked, Space, has_space,
  notify_space, Notify, IsNotify, wait_for_space, wait_step, drain_begin, drain_end, Step, waits,
  calls, begins_drain, drains, notifies, accepts, raises, lowers, stores_gone, stores_pending,
  wakes_all, start, Reach, begins, steps,
}
use nats_server_rs.Client.Stall.Places.{
  is_registered, Safe, Safe-less, Safe-notified, unregistered-if, unregistered, crossing, room-less,
}

unfoldable pub is_notifying : Writer → Bool
is_notifying notifying = true
is_notifying _ = false

unfoldable pub is_closing : Closer → Bool
is_closing stored_gone = true
is_closing stored_pending = true
is_closing _ = false

module _ (n : Notify) where
  -- A notification is there, or on its way.
  unfoldable pub is_awake : Space n → Bool
  unfolding is_notifying is_closing
  is_awake s = Notify.is_notified n s.space || (is_notifying s.writer || is_closing s.closer)

  pub record IsSafe (s : Space n) : Type 0 where
    pub bounded : s.pending < 2 ^ 64
    pub capped : s.hard < 2 ^ 64
    pub alone : s.pusher ≡ unlocked
    pub reached :
        is_registered s.waiter ≡ true
        → Notify.is_notified n (Notify.notify_waiters n s.space) ≡ true
    pub safe : Safe s.waiter s.gone (has_space n s) (is_awake s)

module _ (n : Notify) (laws : IsNotify n) where
  wait_step-Safe :
      (w : Waiter) (s : Space n)
      → s.waiter ≡ w
      → Safe w s.gone (has_space n s) (is_awake n s)
      → let t = wait_step n w s in Safe t.waiter t.gone (has_space n t) (is_awake n t)
  unfolding wait_step has_space is_awake
  wait_step-Safe first_gone s e h = elim (Bool-cases s.gone) [ inl g ↦ rw g tt | inr g ↦ rw g tt ]
  wait_step-Safe first_pending s e h = elim (Bool-cases (leb s.pending s.soft)) [
    | inl g ↦ rw g tt
    | inr g ↦ rw g tt
  ]
  wait_step-Safe enabling s e h = tt
  wait_step-Safe second_gone s e h = elim (Bool-cases s.gone) [
    | inl g ↦ rw g tt
    | inr g ↦ rw g refl
  ]
  wait_step-Safe second_pending s e h = elim (Bool-cases (leb s.pending s.soft)) [
    | inl g ↦ rw g tt
    | inr g ↦ rw g (ground arith)
  ]
  wait_step-Safe parked s e h = elim (Bool-cases (Notify.is_notified n s.space)) [
    | inl g ↦ rw g tt
    | inr g ↦ rw (g, e) (ground arith)
  ]
  wait_step-Safe returned s e h = rw e tt

  wait_step-reached :
      (w : Waiter) (s : Space n)
      → s.waiter ≡ w
      → (is_registered w ≡ true → Notify.is_notified n (Notify.notify_waiters n s.space) ≡ true)
      → let t = wait_step n w s in
        is_registered t.waiter ≡ true
        → Notify.is_notified n (Notify.notify_waiters n t.space) ≡ true
  unfolding wait_step is_registered
  wait_step-reached first_gone s e r h = absurd (unregistered-if s.gone first_pending refl h)
  wait_step-reached first_pending s e r h =
      absurd (unregistered-if (leb s.pending s.soft) enabling refl h)
  wait_step-reached enabling s e r h = IsNotify.is_notified-reached laws s.space
  wait_step-reached second_gone s e r h = r refl
  wait_step-reached second_pending s e r h = r refl
  wait_step-reached parked s e r h = elim (Bool-cases (Notify.is_notified n s.space)) [
    | inl g ↦ rw g (r refl)
    | inr g ↦ rw g (r refl)
  ]
  wait_step-reached returned s e r h = absurd (unregistered s.waiter returned e refl h)

  wait_step-kept :
      (w : Waiter) (s : Space n)
      → ((wait_step n w s).hard ≡ s.hard)
        × ((wait_step n w s).pending ≡ s.pending)
        × ((wait_step n w s).pusher ≡ s.pusher)
  unfolding wait_step
  wait_step-kept first_gone s = (refl, refl, refl)
  wait_step-kept first_pending s = (refl, refl, refl)
  wait_step-kept enabling s = (refl, refl, refl)
  wait_step-kept second_gone s = (refl, refl, refl)
  wait_step-kept second_pending s = (refl, refl, refl)
  wait_step-kept parked s = elim (Bool-cases (Notify.is_notified n s.space)) [
    | inl g ↦ rw g (refl, refl, refl)
    | inr g ↦ rw g (refl, refl, refl)
  ]
  wait_step-kept returned s = (refl, refl, refl)

  drain_end-awake :
      (bytes : ℕ) (s : Space n)
      → s.pending < 2 ^ 64
      → s.writer ≡ draining bytes
      → let t = drain_end n bytes s in
        ((has_space n t && not (is_awake n t)) && not (has_space n s && not (is_awake n s))) ≡ false
  unfolding has_space is_awake drain_end is_notifying
  drain_end-awake bytes s h e =
      elim (Bool-cases (ltb s.soft s.pending && leb (s.pending - bytes) s.soft)) [
        | inl g ↦ rw (e, g) (ground arith)
        | inr g ↦
            let k = crossing s.pending bytes s.soft h g in rw (e, g) (room-less s.gone _ _ _ k)
      ]

  Step-IsSafe : {s t : Space n} → Step n false s t → IsSafe n s → IsSafe n t
  unfolding is_registered wait_for_space has_space is_awake drain_begin drain_end notify_space
      wrapping_add wrapping_sub is_notifying is_closing
  Step-IsSafe (waits s) i =
      let k = wait_step-kept s.waiter s in
      record {
        bounded = rw k.1 i.bounded;
        capped = rw k.0 i.capped;
        alone = rw k.2 i.alone;
        reached = wait_step-reached s.waiter s refl i.reached;
        safe = wait_step-Safe s.waiter s refl i.safe;
      }
  Step-IsSafe (calls s e) i = record {
    bounded = i.bounded;
    capped = i.capped;
    alone = i.alone;
    reached = λ h. absurd (unregistered first_gone first_gone refl refl h);
    safe = tt;
  }
  Step-IsSafe (begins_drain s bytes e) i = record {
    bounded = i.bounded;
    capped = i.capped;
    alone = i.alone;
    reached = i.reached;
    safe = Safe-less s.waiter _ _ _ _ _ _ (rw e (ground arith)) (rw e (ground arith)) i.safe;
  }
  Step-IsSafe (drains s bytes e) i = record {
    bounded = omega arith;
    capped = i.capped;
    alone = i.alone;
    reached = i.reached;
    safe =
        Safe-less s.waiter _ _ _ _ _ _ (rw e (ground arith)) (drain_end-awake bytes s i.bounded e)
          i.safe;
  }
  Step-IsSafe (notifies s e) i = record {
    bounded = i.bounded;
    capped = i.capped;
    alone = i.alone;
    reached = λ h. IsNotify.is_notified-kept laws (Notify.notify_waiters n s.space) (i.reached h);
    safe = Safe-notified s.waiter _ _ _ _ i.reached;
  }
  Step-IsSafe (accepts s len u c h) i = record {
    bounded = omega arith;
    capped = i.capped;
    alone = i.alone;
    reached = i.reached;
    safe = Safe-less s.waiter _ _ _ _ _ _ (ground arith) (ground arith) i.safe;
  }
  Step-IsSafe (raises s len o u c h small) i = cc
  Step-IsSafe (lowers s len u) i = cc
  Step-IsSafe (stores_gone s u c) i = record {
    bounded = i.bounded;
    capped = i.capped;
    alone = i.alone;
    reached = i.reached;
    safe =
        Safe-less s.waiter s.gone (has_space n s) (is_awake n s) _ _ _ (ground arith) (ground arith)
          i.safe;
  }
  Step-IsSafe (stores_pending s c) i = record {
    bounded = omega arith;
    capped = i.capped;
    alone = i.alone;
    reached = i.reached;
    safe =
        Safe-less s.waiter s.gone (has_space n s) (is_awake n s) _ _ _ (ground arith)
          (rw c (ground arith)) i.safe;
  }
  Step-IsSafe (wakes_all s c) i = record {
    bounded = i.bounded;
    capped = i.capped;
    alone = i.alone;
    reached = λ h. IsNotify.is_notified-kept laws (Notify.notify_waiters n s.space) (i.reached h);
    safe = Safe-notified s.waiter _ _ _ _ i.reached;
  }

  pub Reach-IsSafe : {s : Space n} → Reach n false s → IsSafe n s
  unfolding start is_registered
  Reach-IsSafe (begins space pending soft hard h k) = record {
    bounded = omega arith;
    capped = k;
    alone = refl;
    reached = λ h. absurd (unregistered first_gone first_gone refl refl h);
    safe = tt;
  }
  Reach-IsSafe (steps r t) = Step-IsSafe t (Reach-IsSafe r)

  parked-is_awake :
      (s : Space n)
      → s.waiter ≡ parked
      → Safe s.waiter s.gone (has_space n s) (is_awake n s)
      → has_space n s ≡ true
      → is_awake n s ≡ true
  parked-is_awake s e h room =
      let k = subst (λ w. Safe w s.gone (has_space n s) (is_awake n s)) e h in ground arith

  -- No wakeup is lost: with a `Notify` as its documentation says, and as long as no refused push
  -- is interleaved with other tasks, whenever a publisher is parked in `wait_for_space` while
  -- there is room, it has been notified, or the writer or the closing task has the notification
  -- still to give.
  pub Reach-is_awake :
      {s : Space n}
      → Reach n false s
      → s.waiter ≡ parked
      → has_space n s ≡ true
      → is_awake n s ≡ true
  Reach-is_awake {s} r e room = parked-is_awake s e (Reach-IsSafe r).safe room
