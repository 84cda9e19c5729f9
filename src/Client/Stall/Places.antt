-- ===== src/Client/Stall/Places.antt =====
-- What each place in `wait_for_space` of crates/server/src/client.rs lets the waiting task rely on.
use nats_server_rs.Prelude.{
  ℕ, ◌-◌, ◌<◌, ◌^◌, Bool, true, false, not, ◌&&◌, ◌||◌, ltb, leb, if◌then◌else◌, arith, ◌≡◌, refl,
}
use nats_server_rs.Client.Outbox.{wrapping_sub}
use nats_server_rs.Client.Stall.{
  Waiter, first_gone, first_pending, enabling, second_gone, second_pending, parked, returned,
}

unfoldable pub is_registered : Waiter → Bool
is_registered second_gone = true
is_registered second_pending = true
is_registered parked = true
is_registered _ = false

-- What a waiting task may rely on where it has tested or is parked: `g` is `gone`, `r` room, and `a` that
-- a notification is there or on its way.
abbrev pub Safe : Waiter → Bool → Bool → Bool → Type 0
Safe second_pending g r a = (g && not a) ≡ false
Safe parked g r a = (r && not a) ≡ false
Safe _ g r a = Unit

pub unregistered-if :
    (b : Bool) (w : Waiter)
    → is_registered w ≡ false
    → is_registered (if b then returned else w) ≡ true
    → ⊥
unfolding is_registered
unregistered-if true w e h = cc
unregistered-if false w e h = cc

pub unregistered : (v w : Waiter) → v ≡ w → is_registered w ≡ false → is_registered v ≡ true → ⊥
unregistered v w e u h = cc

-- A step of another task that makes room or shuts the queue only with a notification on its way.
pub Safe-less :
    (w : Waiter) (g r a g' r' a' : Bool)
    → ((g' && not a') && not (g && not a)) ≡ false
    → ((r' && not a') && not (r && not a)) ≡ false
    → Safe w g r a
    → Safe w g' r' a'
Safe-less first_gone g r a g' r' a' h k s = tt
Safe-less first_pending g r a g' r' a' h k s = tt
Safe-less enabling g r a g' r' a' h k s = tt
Safe-less second_gone g r a g' r' a' h k s = tt
Safe-less second_pending g r a g' r' a' h k s = ground arith
Safe-less parked g r a g' r' a' h k s = ground arith
Safe-less returned g r a g' r' a' h k s = tt

-- Whoever can be notified has been.
pub Safe-notified :
    (w : Waiter) (g r a b : Bool) → (is_registered w ≡ true → a ≡ true) → Safe w g r (a || b)
unfolding is_registered
Safe-notified first_gone g r a b h = tt
Safe-notified first_pending g r a b h = tt
Safe-notified enabling g r a b h = tt
Safe-notified second_gone g r a b h = tt
Safe-notified second_pending g r a b h = rw (h refl) (ground arith)
Safe-notified parked g r a b h = rw (h refl) (ground arith)
Safe-notified returned g r a b h = tt

-- Room where there was none is a crossing that `drained` sees.
pub crossing :
    (p b soft : ℕ)
    → p < 2 ^ 64
    → ltb soft p && leb (p - b) soft ≡ false
    → leb (wrapping_sub p b) soft && not (leb p soft) ≡ false
unfolding wrapping_sub
crossing p b soft h k = ground arith

pub room-less :
    (g r r' a : Bool)
    → (r' && not r) ≡ false
    → (((g || r') && not a) && not ((g || r) && not a)) ≡ false
room-less true r r' a h = ground arith
room-less false true r' a h = ground arith
room-less false false r' a h = ground arith
