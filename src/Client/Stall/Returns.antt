-- ===== src/Client/Stall/Returns.antt =====
-- `wait_for_space` of crates/server/src/client.rs returns where there is room and no other task is in the way.
use nats_server_rs.Prelude.{
  true, false, not, ◌&&◌, leb, arith, ◌≡◌, refl, Bool-cases, subst, inl, inr,
}
use nats_server_rs.Client.Stall.{
  Waiter, first_gone, first_pending, enabling, second_gone, second_pending, parked, returned,
  Notify, IsNotify, Space, has_space, wait_for_space, wait_step, Reach,
}
use nats_server_rs.Client.Stall.Awake.{is_notifying, is_closing, is_awake, Reach-IsSafe}
use nats_server_rs.Client.Stall.Places.{Safe}

module _ (n : Notify) where
  -- Three steps of the waiting task, from where it stands.
  unfoldable pub three_steps : Space n → Space n
  three_steps s = wait_for_space n (wait_for_space n (wait_for_space n s))

  has_space-soft :
      (s : Space n) → s.gone ≡ false → has_space n s ≡ true → leb s.pending s.soft ≡ true
  unfolding has_space
  has_space-soft s g h = ground arith

  gone-notified :
      (s : Space n)
      → s.gone ≡ true
      → (s.gone && not (Notify.is_notified n s.space)) ≡ false
      → Notify.is_notified n s.space ≡ true
  gone-notified s g h = ground arith

  room-notified :
      (s : Space n)
      → has_space n s ≡ true
      → (has_space n s && not (Notify.is_notified n s.space)) ≡ false
      → Notify.is_notified n s.space ≡ true
  room-notified s g h = ground arith

  returned-has_space :
      (w : Waiter) (s : Space n)
      → s.waiter ≡ w
      → has_space n s ≡ true
      → Safe w s.gone (has_space n s) (Notify.is_notified n s.space)
      → (three_steps s).waiter ≡ returned
  unfolding three_steps wait_for_space wait_step has_space
  returned-has_space first_gone s e room h = elim (Bool-cases s.gone) [
    | inl g ↦ rw (e, g) refl
    | inr g ↦ rw (e, g, has_space-soft s g room) refl
  ]
  returned-has_space first_pending s e room h = elim (Bool-cases s.gone) [
    | inl g ↦
        rw (e, g)
          (elim (Bool-cases (leb s.pending s.soft)) [ inl k ↦ rw k refl | inr k ↦ rw k refl ])
    | inr g ↦ rw (e, g, has_space-soft s g room) refl
  ]
  returned-has_space enabling s e room h = elim (Bool-cases s.gone) [
    | inl g ↦ rw (e, g) refl
    | inr g ↦ rw (e, g, has_space-soft s g room) refl
  ]
  returned-has_space second_gone s e room h = elim (Bool-cases s.gone) [
    | inl g ↦ rw (e, g) refl
    | inr g ↦ rw (e, g, has_space-soft s g room) refl
  ]
  returned-has_space second_pending s e room h = elim (Bool-cases s.gone) [
    | inl g ↦
        rw (e, g)
          (elim (Bool-cases (leb s.pending s.soft)) [
            | inl k ↦ rw k refl
            | inr k ↦ rw (k, gone-notified s g h) refl
          ])
    | inr g ↦ rw (e, g, has_space-soft s g room) refl
  ]
  returned-has_space parked s e room h =
      let n = room-notified s room h in
      elim (Bool-cases s.gone) [
        | inl g ↦ rw (e, n, g) refl
        | inr g ↦ rw (e, n, g, has_space-soft s g room) refl
      ]
  returned-has_space returned s e room h = rw e refl

  Safe-quiet :
      (s : Space n)
      → is_notifying s.writer ≡ false
      → is_closing s.closer ≡ false
      → Safe s.waiter s.gone (has_space n s) (is_awake n s)
      → Safe s.waiter s.gone (has_space n s) (Notify.is_notified n s.space)
  unfolding is_awake
  Safe-quiet s w c h = subst (λ a. Safe s.waiter s.gone (has_space n s) a) (ground arith) h

  -- Under the same conditions, once there is room and neither the writer nor the closing task has
  -- a notification to give, three more steps of the waiting publisher bring it out of
  -- `wait_for_space`, wherever it stood.
  pub Reach-returned :
      {s : Space n}
      → IsNotify n
      → Reach n false s
      → has_space n s ≡ true
      → is_notifying s.writer ≡ false
      → is_closing s.closer ≡ false
      → (three_steps s).waiter ≡ returned
  Reach-returned {s} laws r room w c =
      returned-has_space s.waiter s refl room (Safe-quiet s w c (Reach-IsSafe n laws r).safe)
