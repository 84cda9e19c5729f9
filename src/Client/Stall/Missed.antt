-- ===== src/Client/Stall/Missed.antt =====
-- A refused `push` that overlaps with `drained` in crates/server/src/client.rs.
use nats_server_rs.Prelude.{
  ℕ, ◌+◌, ◌-◌, ◌^◌, ◌≤◌, ◌<◌, true, false, ◌&&◌, ltb, leb, arith, ◌≡◌, refl, subst,
}
use nats_server_rs.Client.Outbox.{wrapping_add, wrapping_sub}
use nats_server_rs.Client.Stall.{
  Notify, IsNotify, parked, Space, has_space, wait_for_space, wait_step, drain_begin, drain_end,
  waits, begins_drain, raises, lowers, drains, start, Reach, begins, steps,
}
use nats_server_rs.Client.Stall.Awake.{is_awake, is_notifying, is_closing}

module _ (n : Notify) where
  -- The publisher is parked, and the writer took `bytes` off the counter; nothing else is under way.
  unfoldable pub missed : Notify.State n → (pending soft hard bytes : ℕ) → Space n
  missed space pending soft hard bytes = record (start n space pending soft hard) {
    pending = pending - bytes;
    space = Notify.enable n space;
    waiter = parked;
  }

  parks :
      (space : Notify.State n) (pending soft hard : ℕ)
      → leb pending soft ≡ false
      → wait_for_space n (
          wait_for_space n (
            wait_for_space n
              (wait_for_space n (wait_for_space n (start n space pending soft hard)))))
        ≡ record (start n space pending soft hard) {
          space = Notify.enable n space;
          waiter = parked;
        }
  unfolding wait_for_space wait_step start
  parks space p soft hard h = rw (h, h) refl

  parked-Reach :
      (space : Notify.State n) (pending soft hard : ℕ)
      → soft < pending
      → pending ≤ hard
      → hard < 2 ^ 64
      → Reach n true (record (start n space pending soft hard) {
        space = Notify.enable n space;
        waiter = parked;
      })
  parked-Reach space p soft hard a b c =
      subst (Reach n true) (parks space p soft hard (ground arith)) (
        steps
          (steps
            (steps (steps (steps (begins space p soft hard b c) (waits _)) (waits _)) (waits _))
            (waits _))
          (waits _))

  lowered :
      (p len x : ℕ)
      → p + len < 2 ^ 64
      → x ≤ p
      → wrapping_sub (wrapping_sub (wrapping_add p len) x) len ≡ p - x
  unfolding wrapping_add wrapping_sub
  lowered p len x h k = omega arith

  unseen :
      (p soft len x : ℕ)
      → p + len < 2 ^ 64
      → soft < (p + len) - x
      → (ltb soft (wrapping_add p len) && leb (wrapping_add p len - x) soft) ≡ false
  unfolding wrapping_add
  unseen p soft len x h k = ground arith

  missed-Reach :
      (space : Notify.State n) (pending soft hard len bytes : ℕ)
      → soft < pending
      → pending ≤ hard
      → hard < pending + len
      → pending + len < 2 ^ 64
      → bytes ≤ pending
      → soft < (pending + len) - bytes
      → Reach n true (missed space pending soft hard bytes)
  unfolding missed drain_begin drain_end start
  missed-Reach space p soft hard len x a b c d e f =
      let s = parked-Reach space p soft hard a b (omega arith) in
      let t = steps (steps s (begins_drain _ x refl)) (raises _ len refl refl refl c d) in
      let u = steps t (drains _ x refl) in
      let v = steps u (lowers _ len refl) in
      subst (Reach n true) (rw (lowered p len x d e, unseen p soft len x d f) refl) v

  -- Where a refused push overlaps with the writer, with a `Notify` as its documentation says: a
  -- publisher can be parked while there is room, with nobody left to notify it, namely when the
  -- bytes of the refused frame are on the counter while `drained` takes the waiting bytes below
  -- the soft threshold.
  pub missed_wakeup :
      IsNotify n
      → (space : Notify.State n) (pending soft hard len bytes : ℕ) → pending ≤ hard
      → hard < pending + len
      → pending + len < 2 ^ 64
      → bytes ≤ pending
      → pending - bytes ≤ soft
      → soft < (pending + len) - bytes
      → soft < pending
      → let s = missed space pending soft hard bytes in
        Reach n true s × (has_space n s ≡ true) × (is_awake n s ≡ false)
  unfolding has_space is_awake missed start is_notifying is_closing
  missed_wakeup laws space p soft hard len x b c d e g f a = (
    missed-Reach space p soft hard len x a b c d e f,
    ground arith,
    rw (IsNotify.is_notified-enable laws space) refl,
  )
