-- ===== src/Client/Reader.antt =====
-- `read_loop` of crates/server/src/client.rs: the size of the buffer, what becomes of a read, and the
-- keepalive.
pub mod Buffer
pub mod Loop
use nats_server_rs.Prelude.{
  ℕ, ◌+◌, ◌*◌, ◌/◌, ◌%◌, ◌^◌, min, max, Bool, true, false, ◌&&◌, Option, none, some, List, [], ◌∷◌,
  ◌++◌, Bytes, String, ltb, leb, if◌then◌else◌,
}
use nats_server_rs.Nuid.{below}
use nats_server_rs.Proto.Types.{ProtoError, err_line, closes, Event, stale_connection}
use nats_server_rs.Proto.Feed.{State}
use nats_server_rs.Routing.Registry.{Interest}
use nats_server_rs.Client.Outbox.{ping_frame}
use nats_server_rs.Client.Options.{Json}
use nats_server_rs.Client.World.{World, say, send_err, finish, note_ping_sent}
use nats_server_rs.Client.Handle.{Handled, handle}

abbrev pub start_read_buf : ℕ
start_read_buf = 16 * 1024

abbrev pub max_read_buf : ℕ
max_read_buf = 64 * 1024

abbrev pub shorts_to_shrink : ℕ
shorts_to_shrink = 2

-- The capacity of the read buffer, and the short reads since it last moved.
pub record Window : Type 0 where
  pub cap : ℕ
  pub short : ℕ

-- The count of short reads is a `u32`, which wraps.
unfoldable pub after_read : ℕ → Window → Window
after_read n v =
    let short = (v.short + 1) % 2 ^ 32 in
    if leb v.cap n
    then record { cap = min (v.cap * 2) max_read_buf; short = 0 }
    else if ltb n (v.cap / 2)
    then (if ltb shorts_to_shrink short && ltb start_read_buf v.cap
        then record { cap = v.cap / 2; short = 0 }
        else record v { short = short })
    else v

-- MAX_PINGS_OUT of crates/server/src/config.rs.
abbrev pub max_pings_out : ℕ
max_pings_out = 2

-- A tick of the keepalive: false means that the loop ends.
unfoldable pub tick : World → ℕ → World × Bool
unfolding say send_err finish note_ping_sent ping_frame
tick w me =
    if leb max_pings_out (World.conns w me).pings_out
    then (finish false (send_err w me stale_connection) me, false)
    else ((say (note_ping_sent w me) me ping_frame).0, true)

-- `keepalive_first` in milliseconds, with the state of a generator made for it.
abbrev pub first_ping_interval : ℕ
first_ping_interval = 2000

unfoldable pub keepalive_first : ℕ → ℕ → ℕ
unfolding below
keepalive_first rng interval =
    let cap = min first_ping_interval interval in cap + (below rng (max (cap / 5) 1)).1

-- The state of a reader between two reads.
pub record Reader : Type 0 where
  pub world : World
  pub interest : Interest
  pub state : State
  pub unread : Bytes

-- What a read comes to: the loop goes on, with the connections each event waited for, or it ends.
pub data Read : Type 0 where
  goes_on : Reader → Read
  over : World → Read

module _ (json : Json) where
  -- The batch in order, up to an event that ends the connection.
  unfoldable pub run : List Event → World → ℕ → Interest → Handled
  unfolding handle
  run [] w me interest = record { world = w; interest = interest; waits = []; alive = true }
  run (ev ∷ evs) w me interest =
      let h = handle json w me interest ev in
      let rest = run evs h.world me h.interest in
      if h.alive then record rest { waits = h.waits ++ rest.waits } else h

  unfoldable pub dispatched : ℕ → Handled → State → Bytes → Read
  unfolding finish
  dispatched me h st rest =
      if h.alive
      then goes_on (record { world = h.world; interest = h.interest; state = st; unread = rest })
      else over (finish false h.world me)

unfoldable pub told : World → ℕ → Option String → World
unfolding send_err
told w me none = w
told w me (some text) = send_err w me text

-- A read that the parser refuses: false means that the loop ends. The batch is not run.
unfoldable pub refused : World → ℕ → ProtoError → World × Bool
unfolding told err_line closes finish
refused w me e =
    let w' = told w me (err_line e) in if closes e then (finish false w' me, false) else (w', true)
