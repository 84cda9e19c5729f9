-- ===== src/Client/Spawn.antt =====
-- `spawn` of crates/server/src/client.rs: the state of a connection that is accepted, its first line, and
-- what becomes of it when the reader has ended.
use nats_server_rs.Prelude.{
  ℕ, ◌+◌, ◌%◌, ◌^◌, ◌*◌, ◌/◌, Bool, true, false, not, [], ◌∷◌, Bytes, ltb, length, if◌then◌else◌,
  ◌≡◌, Bool-cases, inl, inr, arith, refl, ap, ◌∙◌,
}
use nats_server_rs.Config.{Config}
use nats_server_rs.Client.Outbox.{Enqueue, dropped, wrapping_add, enqueue, push, new}
use nats_server_rs.Client.Options.{default, pack}
use nats_server_rs.Client.World.{Conn, World, set_conn, put-same, finish}

-- The connection as it is made.
unfoldable pub new_conn : Config → Conn
unfolding new pack
new_conn cfg = record {
  out = new cfg.max_pending;
  flags = pack default;
  subs = [];
  closed = false;
  hard = false;
  pings_out = 0;
}

-- Whether the line is gone with its queue, in which case no task starts.
unfoldable pub is_dropped : Enqueue → Bool
is_dropped dropped = true
is_dropped _ = false

-- `spawn` up to its tasks, with the line of `info_line`: true means that they start.
unfoldable pub spawn : Config → World → ℕ → Bytes → World × Bool
unfolding new_conn enqueue set_conn is_dropped
spawn cfg w cid line =
    let c = new_conn cfg in
    let (out, answer) = enqueue c.out line in
    (set_conn w cid (record c { out = out }), not (is_dropped answer))

-- Behind the reader: the sender goes, and a writer that is not done in time is closed hard.
unfoldable pub reader_done : World → ℕ → (in_time : Bool) → World
unfolding set_conn finish
reader_done w cid in_time =
    let c = w.conns cid in
    let w' = set_conn w cid (record c { out = record c.out { sending = false } }) in
    if in_time then w' else finish true w' cid

push-new :
    (limit : ℕ) (line : Bytes)
    → let (out, answer) = push (new limit) line in
      (out.queue ≡ (if ltb limit (length line % 2 ^ 64) then [] else line ∷ []))
      × (is_dropped answer ≡ false)
unfolding push new is_dropped wrapping_add
push-new limit line =
    let counted : (0 + length line) % 2 ^ 64 ≡ length line % 2 ^ 64 = omega arith in
    elim (Bool-cases (ltb limit (length line % 2 ^ 64))) [
      | inl long ↦ rw (counted, long) (refl, refl)
      | inr fits ↦ elim (Bool-cases (ltb (limit / 4 * 3) (length line % 2 ^ 64))) [
        | inl above ↦ rw (counted, fits, above) (refl, refl)
        | inr below ↦ rw (counted, fits, below) (refl, refl)
      ]
    ]

-- A new connection's queue holds the line that it is told and nothing else when the line's length,
-- as a size of 64 bits, is within max_pending, and is empty when it is larger; either way its
-- tasks start.
pub spawn_lem :
    (cfg : Config) (w : World) (cid : ℕ) (line : Bytes)
    → (((spawn cfg w cid line).0.conns cid).out.queue
        ≡ (if ltb cfg.max_pending (length line % 2 ^ 64) then [] else line ∷ []))
      × ((spawn cfg w cid line).1 ≡ true)
unfolding spawn new_conn
spawn_lem cfg w cid line =
    let (queued, kept) = push-new cfg.max_pending line in
    (ap (λ (c : Conn). c.out.queue) (put-same w.conns cid _) ∙ queued, ap not kept)
