-- ===== src/Client/World.antt =====
-- `Conn` of crates/server/src/client.rs, and the counters of `Sub` of crates/server/src/routing.rs, in
-- one state of the server. Connections are named by their `cid`, counters by their subscription's `key`.
use nats_server_rs.Prelude.{
  ℕ, ◌+◌, ◌%◌, ◌^◌, Bool, true, false, not, ◌&&◌, List, [], Bytes, String, ltb, leb, ◌==◌,
  if◌then◌else◌, ==_iff, ◌≡◌, refl, ℤ, pos, ltb_ℤ, pos_part,
}
use nats_server_rs.Routing.Registry.{Sub, Registry, remove_conn}
use nats_server_rs.Routing.Frame.{Msg, build_frame}
use nats_server_rs.Client.Outbox.{
  Outbox, Enqueue, dropped, enqueue, err_frame, no_more_writes, room,
}
use nats_server_rs.Client.Options.{Options, unpack, has_bit}

pub record Conn : Type 0 where
  pub out : Outbox
  pub flags : ℕ
  pub subs : List (Bytes × Sub)
  pub closed : Bool
  pub hard : Bool
  pub pings_out : ℕ

pub record Counter : Type 0 where
  pub delivered : ℕ
  pub limit : ℕ

-- `rng` is the registry's generator, and `next_key` the name of the next subscription's counters.
pub record World : Type 0 where
  pub conns : ℕ → Conn
  pub counters : ℕ → Counter
  pub registry : Registry
  pub rng : ℕ
  pub next_key : ℕ

abbrev pub put {ℓ} : {A : Type ℓ} → (ℕ → A) → ℕ → A → ℕ → A
put f k v j = if j == k then v else f j

pub put-same {ℓ} : {A : Type ℓ} (f : ℕ → A) (k : ℕ) (v : A) → put f k v k ≡ v
put-same f k v = let here : (k == k) ≡ true = (==_iff k k).1 refl in rw here refl

unfoldable pub set_conn : World → ℕ → Conn → World
set_conn w cid c = record w { conns = put w.conns cid c }

-- `set_limit`: true means that the subscription is gone.
unfoldable pub set_limit : ℤ → Counter → Counter × Bool
set_limit max c =
    if ltb_ℤ (pos 0) max && ltb c.delivered (pos_part max)
    then (record c { limit = pos_part max }, false)
    else (record c { limit = 0 }, true)

-- `account`: true means that the subscription is spent.
unfoldable pub account : Counter → Counter × Bool
account c = (
  record c { delivered = (c.delivered + 1) % 2 ^ 64 },
  not (c.limit == 0) && leb c.limit (c.delivered + 1),
)

unfoldable pub opts : World → ℕ → Options
unfolding unpack
opts w cid = unpack (w.conns cid).flags

unfoldable pub eligible : World → ℕ → Sub → Bool
unfolding has_bit
eligible w from sub =
    not (w.conns sub.conn).closed && not (sub.conn == from && not (has_bit (w.conns from).flags 4))

unfoldable pub has_room : World → ℕ → Bool
unfolding room
has_room w cid = room (w.conns cid).out

-- `Conn::enqueue`
unfoldable pub say : World → ℕ → Bytes → World × Enqueue
unfolding enqueue set_conn
say w cid frame =
    let c = w.conns cid in
    let (out, r) = enqueue c.out frame in
    if c.closed then (w, dropped) else (set_conn w cid (record c { out = out }), r)

-- `Conn::deliver`
unfoldable pub deliver : World → Sub → Msg → World × Enqueue
unfolding say build_frame has_bit
deliver w sub msg = say w sub.conn (build_frame (has_bit (w.conns sub.conn).flags 8) sub.sid msg)

-- `send_err` of crates/server/src/lib.rs.
unfoldable pub send_err : World → ℕ → String → World
unfolding say err_frame
send_err w cid text = (say w cid (err_frame text)).0

unfoldable pub finished : Bool → Conn → Conn
unfolding no_more_writes
finished hard c = record c {
  closed = true;
  hard = hard;
  subs = [];
  out = no_more_writes (record c.out { sending = false });
}

-- `finish`, with `hard` for `close_now` and without for `close`.
unfoldable pub finish : Bool → World → ℕ → World
unfolding finished set_conn
finish hard w cid =
    if (w.conns cid).closed
    then w
    else set_conn (record w { registry = remove_conn cid w.registry }) cid
        (finished hard (w.conns cid))

unfoldable pub note_ping_sent : World → ℕ → World
unfolding set_conn
note_ping_sent w cid =
    let c = w.conns cid in set_conn w cid (record c { pings_out = (c.pings_out + 1) % 2 ^ 64 })

unfoldable pub note_pong : World → ℕ → World
unfolding set_conn
note_pong w cid = set_conn w cid (record (w.conns cid) { pings_out = 0 })
