-- ===== src/Client/Reader/Loop.antt =====
-- The loop of `read_loop` of crates/server/src/client.rs: what the task does with each outcome of its
-- `select!`, up to the end of the connection.
pub mod Ends
pub mod Keepalive
pub mod Silence
use nats_server_rs.Prelude.{
  ℕ, zero, suc, ◌+◌, Bool, false, Option, none, some, List, [], ◌∷◌, ◌++◌, Bytes, length, drop,
  if◌then◌else◌,
}
use nats_server_rs.Proto.Types.{Limits, Event}
use nats_server_rs.Proto.Feed.{
  State, line, Turn, find_crlf, turn, Fed, waiting, stopped, failed, feed,
}
use nats_server_rs.Config.{Config}
use nats_server_rs.Client.Options.{Json}
use nats_server_rs.Client.World.{World, finish}
use nats_server_rs.Client.Reader.{
  Window, after_read, tick, Reader, Read, goes_on, over, run, dispatched, refused,
}

unfoldable pub limits_of : Config → Limits
limits_of cfg = record { max_control_line = cfg.max_control_line; max_payload = cfg.max_payload }

-- The bytes that `feed_into` has not consumed where it comes upon a line in error: those behind it.
unfoldable pub behind_line : Bytes → Option ℕ → Bytes
behind_line src none = src
behind_line src (some at) = drop (at + 2) src

unfoldable pub behind : (State → Bytes → Bytes) → Bytes → Turn → Bytes
unfolding behind_line find_crlf
behind loop src (Turn.again st src' out) = loop st src'
behind loop src t = behind_line src (find_crlf src)

unfoldable pub left_behind : ℕ → Limits → State → Bytes → Bytes
unfolding behind turn
left_behind zero lim st src = src
left_behind (suc fuel) lim st src = behind (left_behind fuel lim) src (turn lim st src [])

-- What ends the `select!`: a read of some bytes or none, a failed read, a wake, or a tick.
pub data Awaited : Type 0 where
  arrived : Bytes → Awaited
  read_failed woken ticked : Awaited

pub record Task : Type 0 where
  pub reader : Reader
  pub window : Window

pub data Round : Type 0 where
  again : Task → Round
  ended : World → Round
  unfinished : Round

unfoldable pub next_round : Window → Read → Round
next_round v (goes_on r) = again (record { reader = r; window = v })
next_round v (over w) = ended w

module _ (json : Json) (cfg : Config) (me : ℕ) where
  -- A soft error leaves the parser between two lines; behind any other, the loop is left.
  unfoldable pub fed : Reader → Bytes → Option Fed → Option Read
  unfolding dispatched run refused finish left_behind
  fed r src none = none
  fed r src (some (waiting st rest evs)) =
      some (dispatched json me (run json evs r.world me r.interest) st rest)
  fed r src (some (stopped st rest evs)) =
      some (dispatched json me (run json evs r.world me r.interest) st rest)
  fed r src (some (failed e evs)) =
      let (w, serving) = refused r.world me e in
      let rest = left_behind (length src + 1) (limits_of cfg) r.state src in
      some (
        if serving
        then goes_on (record r { world = w; state = line; unread = rest })
        else over (finish false w me))

  unfoldable pub after_fed : Window → Option Read → Round
  unfolding next_round
  after_fed v none = unfinished
  after_fed v (some r) = next_round v r

  unfoldable pub after_tick : Task → World × Bool → Round
  unfolding finish
  after_tick t (w, serving) =
      if serving
      then again (record t { reader = record t.reader { world = w } })
      else ended (finish false w me)

  unfoldable pub awaited : Task → Awaited → Round
  unfolding after_tick tick finish after_fed fed feed limits_of after_read
  awaited t woken = ended (finish false t.reader.world me)
  awaited t ticked = after_tick t (tick t.reader.world me)
  awaited t read_failed = ended (finish false (finish false t.reader.world me) me)
  awaited t (arrived []) = ended (finish false (finish false t.reader.world me) me)
  awaited t (arrived (b ∷ bs)) =
      let src = t.reader.unread ++ b ∷ bs in
      after_fed (after_read (length (b ∷ bs)) t.window)
        (fed t.reader src (feed (limits_of cfg) t.reader.state src))

  -- One round of the loop.
  unfoldable pub round : Task → Awaited → Round
  unfolding awaited finish
  round t a =
      if (t.reader.world.conns me).closed
      then ended (finish false t.reader.world me)
      else awaited t a

  unfoldable pub continue : (Task → Round) → Round → Round
  continue loop (again t) = loop t
  continue loop r = r

  -- The loop over the outcomes in their order, up to where it waits for the next.
  unfoldable pub read_loop : List Awaited → Task → Round
  unfolding continue round
  read_loop [] t = again t
  read_loop (a ∷ more) t = continue (read_loop more) (round t a)
