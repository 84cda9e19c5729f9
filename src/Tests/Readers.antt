-- ===== src/Tests/Readers.antt =====
-- The theorems on the reader task, applied at concrete inputs.
use nats_server_rs.Prelude.{
  codes, arith, ◌%◌, ◌^◌, List, true, false, none, [], ◌∷◌, ◌≡◌, refl, length, Bytes, ltb,
  if◌then◌else◌,
}
use nats_server_rs.Subjects.{is_valid}
use nats_server_rs.Proto.Types.{Event}
use nats_server_rs.Proto.Feed.{line}
use nats_server_rs.Routing.Registry.{new_sub, empty, insert, no_interest}
use nats_server_rs.Config
use nats_server_rs.Client.Options.{default, pack, Json}
use nats_server_rs.Client.Spawn.{spawn, spawn_lem}
use nats_server_rs.Client.World.{Conn, World, finish}
use nats_server_rs.Client.Handle.{find_sub, queue_ok, handle}
use nats_server_rs.Client.Handle.Closed.{subscribe_closed}
use nats_server_rs.Client.Reader.Loop.{Awaited, arrived, ticked, Task, again, ended, read_loop}
use nats_server_rs.Client.Reader.Loop.Ends.{IsRound, read_loop-IsRound}
use nats_server_rs.Client.Reader.Loop.Silence.{Told, read_loop-silent}

abbrev no_json : Json
no_json = record {
  Value = Unit;
  Object = Unit;
  from_slice = λ _. none;
  as_object = λ _. none;
  get = λ _ _. none;
  as_bool = λ _. none;
}

abbrev idle_conn : Conn
idle_conn = record {
  out = record {
    sending = true;
    receiving = true;
    queue = [];
    pending = 0;
    soft = 600;
    hard = 800;
    gone = false;
  };
  flags = pack default;
  subs = [];
  closed = false;
  hard = false;
  pings_out = 0;
}

abbrev quiet : World
quiet = record {
  conns = λ _. idle_conn;
  counters = λ _. record { delivered = 0; limit = 0 };
  registry = empty;
  rng = 0;
  next_key = 1;
}

abbrev task : Task
task = record {
  reader = record { world = quiet; interest = no_interest; state = line; unread = [] };
  window = record { cap = 16384; short = 0 };
}

-- A PING in two reads, a tick, and the end of the stream.
abbrev outcomes : List Awaited
outcomes =
    arrived (b'P' ∷ b'I' ∷ []) ∷ arrived (b'N' ∷ b'G' ∷ 13 ∷ 10 ∷ []) ∷ ticked ∷ arrived [] ∷ []

read_loop-IsRound_example : IsRound 7 (read_loop no_json Config.default 7 outcomes task)
read_loop-IsRound_example = read_loop-IsRound no_json Config.default 7 outcomes task

read_loop-silent_example :
    (t' : Task) × (t'' : Task) × (w : World) × (read_loop no_json Config.default 7
        (ticked ∷ [])
        task
      ≡ again t')
    × Told (t'.reader.world.conns 7) false 1 (codes "PING\r\n" ∷ [])
    × (read_loop no_json Config.default 7 (ticked ∷ ticked ∷ []) task ≡ again t'')
    × Told (t''.reader.world.conns 7) false 2 (codes "PING\r\n" ∷ codes "PING\r\n" ∷ [])
    × (read_loop no_json Config.default 7 (ticked ∷ ticked ∷ ticked ∷ []) task ≡ ended w)
    × Told
        (w.conns 7)
        true
        2
        (codes "PING\r\n" ∷ codes "PING\r\n" ∷ codes "-ERR 'Stale Connection'\r\n" ∷ [])
read_loop-silent_example =
    read_loop-silent no_json Config.default 7 task refl refl refl refl (omega arith) (omega arith)

abbrev shut : World
shut = record quiet { conns = λ _. record idle_conn { closed = true } }

subscribe_closed_example :
    let w =
      finish false
        (handle no_json shut 7 no_interest (Event.subscribe (b'a' ∷ []) none (b'1' ∷ []))).world
        7 in
    ((w.conns 7).closed ≡ true)
    × (w.registry ≡ (insert (new_sub 1 (b'a' ∷ []) none (b'1' ∷ []) 7) empty).1)
unfolding is_valid queue_ok find_sub
subscribe_closed_example =
    subscribe_closed no_json shut 7 no_interest (b'a' ∷ []) none (b'1' ∷ []) refl refl refl refl

abbrev greeting : Bytes
greeting = b'I' ∷ b'N' ∷ b'F' ∷ b'O' ∷ 13 ∷ 10 ∷ []

spawn_lem_example :
    (((spawn Config.default quiet 8 greeting).0.conns 8).out.queue
      ≡ (if ltb Config.default.max_pending (length greeting % 2 ^ 64) then [] else greeting ∷ []))
    × ((spawn Config.default quiet 8 greeting).1 ≡ true)
spawn_lem_example = spawn_lem Config.default quiet 8 greeting
