-- ===== src/Client/Reader/Loop/Ends.antt =====
-- How the loop of `read_loop` of crates/server/src/client.rs ends.
use nats_server_rs.Prelude.{
  ℕ, Bool, true, false, Option, none, some, List, [], ◌∷◌, ◌++◌, Bytes, if◌then◌else◌, ◌≡◌, refl,
  inl, inr, Bool-cases, ==_iff,
}
use nats_server_rs.Proto.Feed.{Fed, waiting, stopped, failed, feed}
use nats_server_rs.Proto.Feed.Progress.{feed_into_total}
use nats_server_rs.Config.{Config}
use nats_server_rs.Client.Options.{Json}
use nats_server_rs.Client.World.{World, set_conn, finished, finish}
use nats_server_rs.Client.Reader.{
  Window, tick, Reader, Read, goes_on, over, run, dispatched, refused,
}
use nats_server_rs.Client.Reader.Loop.{
  limits_of, Awaited, arrived, read_failed, woken, ticked, Task, Round, again, ended, unfinished,
  next_round, fed, after_fed, after_tick, awaited, round, continue, read_loop,
}

-- The loop is still on, or it has ended with its connection closed.
abbrev pub IsRound : ℕ → Round → Type 0
IsRound me (again t) = Unit
IsRound me (ended w) = (w.conns me).closed ≡ true
IsRound me unfinished = ⊥

abbrev IsRead : ℕ → Option Read → Type 0
IsRead me none = ⊥
IsRead me (some (goes_on r)) = Unit
IsRead me (some (over w)) = (w.conns me).closed ≡ true

IsRound-if :
    (b : Bool) (me : ℕ) (t : Task) (w : World)
    → (w.conns me).closed ≡ true
    → IsRound me (if b then again t else ended w)
IsRound-if true me t w h = tt
IsRound-if false me t w h = h

IsRound-else :
    (b : Bool) (me : ℕ) (w : World) (r : Round)
    → (w.conns me).closed ≡ true
    → IsRound me r
    → IsRound me (if b then ended w else r)
IsRound-else true me w r h k = h
IsRound-else false me w r h k = k

IsRead-if :
    (b : Bool) (me : ℕ) (r : Reader) (w : World)
    → (w.conns me).closed ≡ true
    → IsRead me (some (if b then goes_on r else over w))
IsRead-if true me r w h = tt
IsRead-if false me r w h = h

pub closed-finish : (hard : Bool) (w : World) (me : ℕ) → ((finish hard w me).conns me).closed ≡ true
unfolding finish set_conn finished
closed-finish hard w me = elim (Bool-cases (w.conns me).closed) [
  | inl is_closed ↦ rw is_closed is_closed
  | inr is_open ↦ rw (is_open, (==_iff me me).1 refl) refl
]

module _ (json : Json) (cfg : Config) (me : ℕ) where
  fed-IsRead : (r : Reader) (src : Bytes) (f : Fed) → IsRead me (fed json cfg me r src (some f))
  unfolding fed dispatched
  fed-IsRead r src (waiting st rest evs) =
      let h = run json evs r.world me r.interest in
      IsRead-if h.alive me _ _ (closed-finish false h.world me)
  fed-IsRead r src (stopped st rest evs) =
      let h = run json evs r.world me r.interest in
      IsRead-if h.alive me _ _ (closed-finish false h.world me)
  fed-IsRead r src (failed e evs) =
      let (w, serving) = refused r.world me e in IsRead-if serving me _ _ (closed-finish false w me)

  after_fed-IsRound :
      (v : Window) (r : Option Read) → IsRead me r → IsRound me (after_fed json cfg me v r)
  unfolding after_fed next_round
  after_fed-IsRound v none h = h
  after_fed-IsRound v (some (goes_on r)) h = h
  after_fed-IsRound v (some (over w)) h = h

  awaited-IsRound : (t : Task) (a : Awaited) → IsRound me (awaited json cfg me t a)
  unfolding awaited after_tick feed
  awaited-IsRound t woken = closed-finish false t.reader.world me
  awaited-IsRound t ticked =
      let (w, serving) = tick t.reader.world me in
      IsRound-if serving me _ _ (closed-finish false w me)
  awaited-IsRound t read_failed = closed-finish false (finish false t.reader.world me) me
  awaited-IsRound t (arrived []) = closed-finish false (finish false t.reader.world me) me
  awaited-IsRound t (arrived (b ∷ bs)) =
      let (f, e) = feed_into_total (limits_of cfg) t.reader.state (t.reader.unread ++ b ∷ bs) [] in
      after_fed-IsRound _ _ (rw e (fed-IsRead t.reader (t.reader.unread ++ b ∷ bs) f))

  round-IsRound : (t : Task) (a : Awaited) → IsRound me (round json cfg me t a)
  unfolding round
  round-IsRound t a =
      IsRound-else (t.reader.world.conns me).closed me _ _ (closed-finish false t.reader.world me)
        (awaited-IsRound t a)

  continue-IsRound :
      (loop : Task → Round) (r : Round)
      → ((t : Task) → IsRound me (loop t))
      → IsRound me r
      → IsRound me (continue json cfg me loop r)
  unfolding continue
  continue-IsRound loop (again t) k h = k t
  continue-IsRound loop (ended w) k h = h
  continue-IsRound loop unfinished k h = h

  -- Whatever the reads, wakes and ticks are that end the reader's waits, whatever bytes come and
  -- whatever the JSON library answers, the loop never runs out of the parser's fuel, and where it
  -- has ended its connection is closed.
  pub read_loop-IsRound :
      (outcomes : List Awaited) (t : Task) → IsRound me (read_loop json cfg me outcomes t)
  unfolding read_loop
  read_loop-IsRound [] t = tt
  read_loop-IsRound (a ∷ more) t =
      continue-IsRound (read_loop json cfg me more) _ (read_loop-IsRound more) (round-IsRound t a)
