-- ===== src/Client/Reader/Loop/Silence.antt =====
-- What a client that answers no probe is sent by `read_loop` of crates/server/src/client.rs.
use nats_server_rs.Prelude.{
  ℕ, ◌+◌, ◌%◌, ◌^◌, ◌≤◌, ◌<◌, Bool, true, false, Bytes, List, [], ◌∷◌, ◌++◌, append_assoc, ltb,
  length, codes, ◌≡◌, refl, sym, ap, subst, ◌∙◌, arith,
}
use nats_server_rs.Proto.Types.{stale_connection}
use nats_server_rs.Config.{Config}
use nats_server_rs.Client.Options.{Json}
use nats_server_rs.Client.Outbox.{
  Outbox, wrapping_add, push, enqueue, ping_frame, err_frame, no_more_writes,
}
use nats_server_rs.Client.World.{
  Conn, World, set_conn, put-same, say, send_err, finished, finish, note_ping_sent,
}
use nats_server_rs.Client.Reader.Loop.{ticked, Task, again, ended, read_loop}
use nats_server_rs.Client.Reader.Loop.Keepalive.{
  probed, stale, if_false, if_true, conns-say, conns-note_ping_sent, read_loop-ticked,
}

-- An open connection with `k` probes unanswered and `queue` to be written, that has room for more bytes.
record IsRoomy (c : Conn) (k : ℕ) (queue : List Bytes) (room : ℕ) : Type 0 where
  is_open : c.closed ≡ false
  out_now : c.pings_out ≡ k
  sends : c.out.sending ≡ true
  receives : c.out.receiving ≡ true
  queued : c.out.queue ≡ queue
  fits : c.out.pending + room ≤ c.out.hard
  small : c.out.hard < 2 ^ 64

enqueue_fits :
    (o : Outbox) (frame : Bytes)
    → o.sending ≡ true
    → o.receiving ≡ true
    → o.pending + length frame ≤ o.hard
    → o.hard < 2 ^ 64
    → (enqueue o frame).0
      ≡ record o { pending = o.pending + length frame; queue = o.queue ++ frame ∷ [] }
unfolding enqueue push wrapping_add
enqueue_fits o frame s r h k =
    let sum : (o.pending + length frame) % 2 ^ 64 ≡ o.pending + length frame = omega arith in
    let below : ltb o.hard (o.pending + length frame) ≡ false = ground arith in
    rw (s, sum, below, r) refl

said-IsRoomy :
    (c : Conn) (frame : Bytes) (k : ℕ) (queue : List Bytes) (room : ℕ)
    → IsRoomy c k queue (length frame + room)
    → IsRoomy (record c { out = (enqueue c.out frame).0 }) k (queue ++ frame ∷ []) room
said-IsRoomy c frame k queue room v =
    let told = enqueue_fits c.out frame v.sends v.receives (omega (arith, v.fits)) v.small in
    subst (λ (o : Outbox). IsRoomy (record c { out = o }) k (queue ++ frame ∷ []) room) (sym told)
      (record {
        is_open = v.is_open;
        out_now = v.out_now;
        sends = v.sends;
        receives = v.receives;
        queued = ap (λ (q : List Bytes). q ++ frame ∷ []) v.queued;
        fits = omega (arith, v.fits);
        small = v.small;
      })

say-IsRoomy :
    (w : World) (me : ℕ) (frame : Bytes) (k : ℕ) (queue : List Bytes) (room : ℕ)
    → IsRoomy (w.conns me) k queue (length frame + room)
    → IsRoomy ((say w me frame).0.conns me) k (queue ++ frame ∷ []) room
say-IsRoomy w me frame k queue room v =
    subst (λ (c : Conn). IsRoomy c k (queue ++ frame ∷ []) room)
      (sym (conns-say w me frame v.is_open)) (said-IsRoomy (w.conns me) frame k queue room v)

probed-IsRoomy :
    (w : World) (me : ℕ) (k : ℕ) (queue : List Bytes) (room : ℕ)
    → IsRoomy (w.conns me) k queue (6 + room)
    → IsRoomy ((probed w me).conns me) ((k + 1) % 2 ^ 64) (queue ++ codes "PING\r\n" ∷ []) room
unfolding probed ping_frame codes
probed-IsRoomy w me k queue room v =
    let noted =
      subst (λ (c : Conn). IsRoomy c ((k + 1) % 2 ^ 64) queue (6 + room))
        (sym (conns-note_ping_sent w me))
        (record {
          is_open = v.is_open;
          out_now = ap (λ (n : ℕ). (n + 1) % 2 ^ 64) v.out_now;
          sends = v.sends;
          receives = v.receives;
          queued = v.queued;
          fits = v.fits;
          small = v.small;
        }) in
    say-IsRoomy (note_ping_sent w me) me ping_frame ((k + 1) % 2 ^ 64) queue room noted

conns-finish_open :
    (hard : Bool) (w : World) (me : ℕ)
    → (w.conns me).closed ≡ false
    → (finish hard w me).conns me ≡ finished hard (w.conns me)
unfolding finish set_conn
conns-finish_open hard w me h =
    ap (λ (u : World). u.conns me) (if_false _ _ h) ∙ put-same w.conns me _

conns-finish_closed :
    (hard : Bool) (w : World) (me : ℕ)
    → (w.conns me).closed ≡ true
    → (finish hard w me).conns me ≡ w.conns me
unfolding finish
conns-finish_closed hard w me h = ap (λ (u : World). u.conns me) (if_true _ _ h)

-- A connection's state and the frames that wait to be written.
pub record Told (c : Conn) (shut : Bool) (probes : ℕ) (queue : List Bytes) : Type 0 where
  pub is_shut : c.closed ≡ shut
  pub probes_out : c.pings_out ≡ probes
  pub frames : c.out.queue ≡ queue

IsRoomy-Told :
    (c : Conn) (k : ℕ) (queue : List Bytes) (room : ℕ)
    → IsRoomy c k queue room
    → Told c false k queue
IsRoomy-Told c k queue room v = record {
  is_shut = v.is_open;
  probes_out = v.out_now;
  frames = v.queued;
}

finished-Told :
    (c : Conn) (k : ℕ) (queue : List Bytes) (room : ℕ)
    → IsRoomy c k queue room
    → Told (finished false c) true k queue
unfolding finished no_more_writes
finished-Told c k queue room v = record {
  is_shut = refl;
  probes_out = v.out_now;
  frames = v.queued;
}

stale-Told :
    (w : World) (me : ℕ) (k : ℕ) (queue : List Bytes)
    → IsRoomy (w.conns me) k queue 25
    → Told ((stale w me).conns me) true k (queue ++ codes "-ERR 'Stale Connection'\r\n" ∷ [])
unfolding stale send_err err_frame codes
stale-Told w me k queue v =
    let u = send_err w me stale_connection in
    let all = queue ++ codes "-ERR 'Stale Connection'\r\n" ∷ [] in
    let last = say-IsRoomy w me (err_frame stale_connection) k queue 0 v in
    let once = conns-finish_open false u me last.is_open in
    let t = finished-Told (u.conns me) k all 0 last in
    let at_once = subst (λ (c : Conn). Told c true k all) (sym once) t in
    subst (λ (c : Conn). Told c true k all)
      (sym (conns-finish_closed false (finish false u me) me at_once.is_shut)) at_once

module _ (json : Json) (cfg : Config) (me : ℕ) where
  -- On an open connection with no probe unanswered, whose queue is open at both ends and has room
  -- for 37 more bytes within a hard limit below 2^64: after one tick the loop goes on with a PING
  -- queued last and one probe counted; after two with nothing between them it goes on with two
  -- PINGs queued last and two probes counted; after three it has ended, with the line `-ERR 'Stale
  -- Connection'` queued behind the two PINGs and the connection closed.
  pub read_loop-silent :
      (t : Task)
      → (t.reader.world.conns me).closed ≡ false
      → (t.reader.world.conns me).pings_out ≡ 0
      → (t.reader.world.conns me).out.sending ≡ true
      → (t.reader.world.conns me).out.receiving ≡ true
      → (t.reader.world.conns me).out.pending + 37 ≤ (t.reader.world.conns me).out.hard
      → (t.reader.world.conns me).out.hard < 2 ^ 64
      → let queue = (t.reader.world.conns me).out.queue in
        (t' : Task) × (t'' : Task) × (w : World) × (read_loop json cfg me (ticked ∷ []) t
          ≡ again t')
        × Told (t'.reader.world.conns me) false 1 (queue ++ codes "PING\r\n" ∷ [])
        × (read_loop json cfg me (ticked ∷ ticked ∷ []) t ≡ again t'')
        × Told
            (t''.reader.world.conns me)
            false
            2
            (queue ++ codes "PING\r\n" ∷ codes "PING\r\n" ∷ [])
        × (read_loop json cfg me (ticked ∷ ticked ∷ ticked ∷ []) t ≡ ended w)
        × Told (w.conns me) true 2 (
            queue ++ codes "PING\r\n" ∷ codes "PING\r\n" ∷ codes "-ERR 'Stale Connection'\r\n" ∷ [])
  read_loop-silent t h k s r fits small =
      let w = t.reader.world in
      let queue = (w.conns me).out.queue in
      let ping = codes "PING\r\n" in
      let start : IsRoomy (w.conns me) 0 queue (6 + 31) = record {
        is_open = h;
        out_now = k;
        sends = s;
        receives = r;
        queued = refl;
        fits = fits;
        small = small;
      } in
      let one = probed-IsRoomy w me 0 queue (6 + 25) start in
      let two = probed-IsRoomy (probed w me) me 1 (queue ++ ping ∷ []) 25 one in
      let w' = probed (probed w me) me in
      let both = append_assoc queue (ping ∷ []) (ping ∷ []) in
      let two' = subst (λ (q : List Bytes). IsRoomy (w'.conns me) 2 q 25) both two in
      let last = stale-Told w' me 2 _ two' in
      let all = append_assoc queue (ping ∷ ping ∷ []) (codes "-ERR 'Stale Connection'\r\n" ∷ []) in
      let (first, second, third) = read_loop-ticked json cfg me t h k in
      (
        record t { reader = record t.reader { world = probed w me } },
        record t { reader = record t.reader { world = w' } },
        stale w' me,
        first,
        IsRoomy-Told _ 1 _ _ one,
        second,
        IsRoomy-Told _ 2 _ _ two',
        third,
        subst (λ (q : List Bytes). Told ((stale w' me).conns me) true 2 q) all last,
      )
