-- ===== src/Client/Reader/Loop/Keepalive.antt =====
-- The keepalive in `read_loop` of crates/server/src/client.rs: ticks with no byte between them.
use nats_server_rs.Prelude.{
  ℕ, ◌+◌, ◌%◌, ◌^◌, Bool, true, false, Bytes, List, [], ◌∷◌, leb, if◌then◌else◌, ◌≡◌, refl, ap, ◌∙◌,
}
use nats_server_rs.Proto.Types.{stale_connection}
use nats_server_rs.Config.{Config}
use nats_server_rs.Client.Options.{Json}
use nats_server_rs.Client.Outbox.{Enqueue, enqueue, ping_frame}
use nats_server_rs.Client.World.{
  Conn, World, set_conn, put-same, say, send_err, finish, note_ping_sent,
}
use nats_server_rs.Client.Reader.{tick}
use nats_server_rs.Client.Reader.Loop.{
  Awaited, ticked, Task, again, ended, after_tick, awaited, round, continue, read_loop,
}

-- The world behind an unanswered probe, and behind the close.
unfoldable pub probed : World → ℕ → World
probed w me = (say (note_ping_sent w me) me ping_frame).0

unfoldable pub stale : World → ℕ → World
stale w me = finish false (finish false (send_err w me stale_connection) me) me

pub if_false {ℓ} : {A : Type ℓ} {b : Bool} (x y : A) → b ≡ false → (if b then x else y) ≡ y
if_false x y h = rw h refl

pub if_true {ℓ} : {A : Type ℓ} {b : Bool} (x y : A) → b ≡ true → (if b then x else y) ≡ x
if_true x y h = rw h refl

-- A frame that is said leaves all but the queue of an open connection.
pub conns-say :
    (w : World) (me : ℕ) (frame : Bytes)
    → (w.conns me).closed ≡ false
    → (say w me frame).0.conns me ≡ record (w.conns me) { out = (enqueue (w.conns me).out frame).0 }
unfolding say set_conn
conns-say w me frame h =
    ap (λ (p : World × Enqueue). p.0.conns me) (if_false _ _ h) ∙ put-same w.conns me _

pub conns-note_ping_sent :
    (w : World) (me : ℕ)
    → (note_ping_sent w me).conns me
      ≡ record (w.conns me) { pings_out = ((w.conns me).pings_out + 1) % 2 ^ 64 }
unfolding note_ping_sent set_conn
conns-note_ping_sent w me = put-same w.conns me _

-- A connection that is open, with a number of probes unanswered.
record IsProbed (w : World) (me : ℕ) (k : ℕ) : Type 0 where
  is_open : (w.conns me).closed ≡ false
  out_now : (w.conns me).pings_out ≡ k

probed-IsProbed :
    (w : World) (me : ℕ) (k : ℕ) → IsProbed w me k → IsProbed (probed w me) me ((k + 1) % 2 ^ 64)
unfolding probed
probed-IsProbed w me k v =
    let noted = conns-note_ping_sent w me in
    let still_open = ap Conn.closed noted ∙ v.is_open in
    let said = conns-say (note_ping_sent w me) me ping_frame still_open in
    record {
      is_open = ap Conn.closed said ∙ still_open;
      out_now =
          ap Conn.pings_out said
          ∙ (ap Conn.pings_out noted ∙ ap (λ (n : ℕ). (n + 1) % 2 ^ 64) v.out_now);
    }

tick-probed :
    (w : World) (me k : ℕ) → IsProbed w me k → leb 2 k ≡ false → tick w me ≡ (probed w me, true)
unfolding tick probed
tick-probed w me k v h = if_false _ _ (ap (leb 2) v.out_now ∙ h)

tick-stale :
    (w : World) (me k : ℕ)
    → IsProbed w me k
    → leb 2 k ≡ true
    → tick w me ≡ (finish false (send_err w me stale_connection) me, false)
unfolding tick
tick-stale w me k v h = if_true _ _ (ap (leb 2) v.out_now ∙ h)

module _ (json : Json) (cfg : Config) (me : ℕ) where
  round-ticked :
      (t : Task) (k : ℕ)
      → IsProbed t.reader.world me k
      → leb 2 k ≡ false
      → round json cfg me t ticked
        ≡ again (record t { reader = record t.reader { world = probed t.reader.world me } })
  unfolding round awaited after_tick
  round-ticked t k v h =
      if_false _ _ v.is_open ∙ ap (after_tick json cfg me t) (tick-probed t.reader.world me k v h)

  round-stale :
      (t : Task) (k : ℕ)
      → IsProbed t.reader.world me k
      → leb 2 k ≡ true
      → round json cfg me t ticked ≡ ended (stale t.reader.world me)
  unfolding round awaited after_tick stale
  round-stale t k v h =
      if_false _ _ v.is_open ∙ ap (after_tick json cfg me t) (tick-stale t.reader.world me k v h)

  read_loop-again :
      (a : Awaited) (more : List Awaited) (t t' : Task)
      → round json cfg me t a ≡ again t'
      → read_loop json cfg me (a ∷ more) t ≡ read_loop json cfg me more t'
  unfolding read_loop continue
  read_loop-again a more t t' h = ap (continue json cfg me (read_loop json cfg me more)) h

  read_loop-ended :
      (a : Awaited) (more : List Awaited) (t : Task) (w : World)
      → round json cfg me t a ≡ ended w
      → read_loop json cfg me (a ∷ more) t ≡ ended w
  unfolding read_loop continue
  read_loop-ended a more t w h = ap (continue json cfg me (read_loop json cfg me more)) h

  -- The worlds that one, two and three ticks with nothing between them lead to.
  pub read_loop-ticked :
      (t : Task)
      → (t.reader.world.conns me).closed ≡ false
      → (t.reader.world.conns me).pings_out ≡ 0
      → let w = probed (probed t.reader.world me) me in
        (read_loop json cfg me (ticked ∷ []) t
          ≡ again (record t { reader = record t.reader { world = probed t.reader.world me } }))
        × (read_loop json cfg me (ticked ∷ ticked ∷ []) t
            ≡ again (record t { reader = record t.reader { world = w } }))
        × (read_loop json cfg me (ticked ∷ ticked ∷ ticked ∷ []) t ≡ ended (stale w me))
  unfolding read_loop continue
  read_loop-ticked t h k =
      let u : IsProbed t.reader.world me 0 = record { is_open = h; out_now = k } in
      let v = probed-IsProbed t.reader.world me 0 u in
      let w = probed-IsProbed (probed t.reader.world me) me 1 v in
      let t' : Task = record t { reader = record t.reader { world = probed t.reader.world me } } in
      let t'' : Task = record t {
        reader = record t.reader { world = probed (probed t.reader.world me) me };
      } in
      let first = read_loop-again ticked (ticked ∷ []) t t' (round-ticked t 0 u refl) in
      let again_first =
        read_loop-again ticked (ticked ∷ ticked ∷ []) t t' (round-ticked t 0 u refl) in
      let second = read_loop-again ticked [] t' t'' (round-ticked t' 1 v refl) in
      let again_second = read_loop-again ticked (ticked ∷ []) t' t'' (round-ticked t' 1 v refl) in
      (
        read_loop-again ticked [] t t' (round-ticked t 0 u refl),
        first ∙ second,
        again_first ∙ (again_second ∙ read_loop-ended ticked [] t'' _ (round-stale t'' 2 w refl)),
      )
