-- ===== src/Client/Outbox/Pending.antt =====
-- The byte count of an `Outbox` of crates/server/src/client.rs.
use nats_server_rs.Prelude.{
  ℕ, ◌+◌, ◌≤◌, ◌<◌, ◌^◌, ◌++◌, [], ◌∷◌, ◌⊎◌, Bool, true, false, not, Bytes, ltb, length, Bool-cases,
  inl, inr, if◌then◌else◌, ◌≡◌, subst, sym, ltb→lt, ltb-false→le, refl, arith,
}
use nats_server_rs.Client.Outbox.{
  Enqueue, soft_limit, slow_consumer, dropped, Outbox, wrapping_add, wrapping_sub, push, enqueue,
}

-- The count is within the limit, and the limit is a `usize`.
pub record IsOutbox (o : Outbox) : Type 0 where
  pub bounded : o.pending ≤ o.hard
  pub small : o.hard < 2 ^ 64

back_lem : (p len : ℕ) → p < 2 ^ 64 → len < 2 ^ 64 → wrapping_sub (wrapping_add p len) len ≡ p
unfolding wrapping_add wrapping_sub
back_lem p len h k = omega arith

added_lem : (p len : ℕ) → p + len < 2 ^ 64 → wrapping_add p len ≡ p + len
unfolding wrapping_add
added_lem p len h = omega arith

-- What queueing one frame does: it is taken while the bytes that wait stay within the limit, and
-- changes nothing otherwise.
pub data Queued (o : Outbox) (frame : Bytes) : Outbox × Enqueue → Type 0 where
  closed : o.sending ≡ false → Queued o frame (o, dropped)
  no_writer : o.sending ≡ true → o.receiving ≡ false → Queued o frame (o, dropped)
  over : o.sending ≡ true → o.hard < o.pending + length frame → Queued o frame (o, slow_consumer)
  taken :
      (r : Enqueue)
      → o.sending ≡ true
      → o.receiving ≡ true
      → o.pending + length frame ≤ o.hard
      → ((r ≡ soft_limit) × (o.soft < o.pending + length frame))
        ⊎ ((r ≡ Enqueue.ok) × (o.pending + length frame ≤ o.soft))
      → Queued o frame
          (record o { pending = o.pending + length frame; queue = o.queue ++ frame ∷ [] }, r)

Queued-if :
    {o : Outbox} {frame : Bytes} (b : Bool) (r s : Outbox × Enqueue)
    → (b ≡ true → Queued o frame r)
    → (b ≡ false → Queued o frame s)
    → Queued o frame (if b then r else s)
Queued-if true r s f g = f refl
Queued-if false r s f g = g refl

soft_cases :
    (soft n : ℕ)
    → (((if ltb soft n then soft_limit else Enqueue.ok) ≡ soft_limit) × (soft < n))
      ⊎ (((if ltb soft n then soft_limit else Enqueue.ok) ≡ Enqueue.ok) × (n ≤ soft))
soft_cases soft n = elim (Bool-cases (ltb soft n)) [
  | inl above ↦ inl (rw above refl, ltb→lt soft n above)
  | inr below ↦ inr (rw below refl, ltb-false→le soft n below)
]

-- Where the bytes that wait are within a limit below 2^64, and together with the frame's stay
-- below 2^64, a frame is queued last and counted exactly when the queue is open at both ends and
-- the bytes that wait stay within the limit with it, and the answer is the soft limit exactly when
-- the bytes exceed it; any other frame is dropped or refused and changes nothing.
pub enqueue-Queued :
    (o : Outbox) (frame : Bytes)
    → IsOutbox o
    → o.pending + length frame < 2 ^ 64
    → Queued o frame (enqueue o frame)
unfolding enqueue push
enqueue-Queued o frame v small =
    let len = length frame in
    let back = back_lem o.pending len (omega (arith, v.bounded, v.small)) (omega arith) in
    let added = added_lem o.pending len small in
    let before = wrapping_add o.pending len in
    Queued-if o.sending _ _
      (λ sends.
        Queued-if (ltb o.hard before) _ _
          (λ full.
            subst (λ p. Queued o frame (record o { pending = p }, slow_consumer)) (sym back)
              (over sends (omega (arith, ltb→lt _ _ full, added))))
          (λ fits.
            let le = ltb-false→le o.hard before fits in
            Queued-if (not o.receiving) _ _
              (λ alone.
                subst (λ p. Queued o frame (record o { pending = p }, dropped)) (sym back)
                  (no_writer sends (ground (arith, alone))))
              (λ met.
                subst
                  (λ p. Queued o frame (
                    record o { pending = p; queue = o.queue ++ frame ∷ [] },
                    if ltb o.soft p then soft_limit else Enqueue.ok,
                  ))
                  (sym added)
                  (taken _ sends (ground (arith, met)) (omega (arith, le, added))
                    (soft_cases o.soft (o.pending + len))))))
      (λ shut. closed shut)
