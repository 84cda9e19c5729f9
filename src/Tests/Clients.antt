-- ===== src/Tests/Clients.antt =====
-- The theorems on connections and frames, applied at concrete inputs.
use nats_server_rs.Prelude.{
  All, List, not, true, false, none, some, [], ◌∷◌, Bytes, retain, length, arith, ◌+◌, ◌≡◌, ◌↔◌,
}
use nats_server_rs.Routing.Registry.{
  Sub, new_sub, Registry, empty, insert, remove_conn, of_conn, no_interest,
}
use nats_server_rs.Routing.Registry.Lookup.{all_subs}
use nats_server_rs.Routing.Registry.Members.{all_subs-remove_conn}
use nats_server_rs.Routing.Frame.{Msg, push_u64, no_responder_head, asserted_len}
use nats_server_rs.Routing.Frame.Length.{no_responder_head-asserted_len}
use nats_server_rs.Client.Outbox.{enqueue}
use nats_server_rs.Client.Outbox
use nats_server_rs.Client.Outbox.Pending.{Queued, enqueue-Queued}
use nats_server_rs.Client.Options.{default, pack, Json}
use nats_server_rs.Client.World.{Conn, World}
use nats_server_rs.Nuid.{next_u64}
use nats_server_rs.Client.Route.{pick_groups, route}
use nats_server_rs.Client.Route.Groups.{members_of, share}
use nats_server_rs.Client.Route.Plain.{plain_of, May, pick_groups-share}
use nats_server_rs.Client.Route.Keeps.{Keeps, route-Keeps}
use nats_server_rs.Proto.Types.{Event}
use nats_server_rs.Routing.Registry.Invariant.{new_sub-IsSub, empty-IsRegistry, insert-IsRegistry}
use nats_server_rs.Client.Route.Registered.{IsWorld}
use nats_server_rs.Client.Handle.{handle}
use nats_server_rs.Client.Handle.Registered.{handle-IsWorld}

abbrev spoken : Sub
spoken = new_sub 0 (b'a' ∷ []) none (b'1' ∷ []) 7

abbrev registry : Registry
registry = (insert spoken empty).1

all_subs-remove_conn_example :
    all_subs (remove_conn 7 registry) ≡ retain (λ s. not (of_conn 7 s)) (all_subs registry)
all_subs-remove_conn_example = all_subs-remove_conn 7 registry

abbrev outbox : Outbox.Outbox
outbox = record {
  sending = true;
  receiving = true;
  queue = [];
  pending = 0;
  soft = 6;
  hard = 8;
  gone = false;
}

enqueue-Queued_example : Queued outbox (b'h' ∷ b'i' ∷ []) (enqueue outbox (b'h' ∷ b'i' ∷ []))
enqueue-Queued_example =
    enqueue-Queued outbox (b'h' ∷ b'i' ∷ []) (record { bounded = omega arith; small = omega arith })
      (omega arith)

abbrev conn : Conn
conn = record {
  out = outbox;
  flags = pack default;
  subs = (b'1' ∷ [], spoken) ∷ [];
  closed = false;
  hard = false;
  pings_out = 0;
}

abbrev world : World
world = record {
  conns = λ _. conn;
  counters = λ _. record { delivered = 0; limit = 1 };
  registry = registry;
  rng = 0;
  next_key = 1;
}

abbrev msg : Msg
msg = record { subject = b'a' ∷ []; reply = none; hdr = 0; body = b'x' ∷ [] }

route-Keeps_example : Keeps world (route world 8 msg no_interest).0.world
route-Keeps_example = route-Keeps world 8 msg no_interest

abbrev dead : Bytes
dead = b'a' ∷ []

no_responder_head-asserted_len_example :
    (length (no_responder_head (b'r' ∷ []) (b'1' ∷ []) dead)
      ≡ asserted_len (b'r' ∷ []) (b'1' ∷ []) dead)
    ↔ (length (push_u64 (32 + length dead)) ≡ 15)
no_responder_head-asserted_len_example = no_responder_head-asserted_len (b'r' ∷ []) (b'1' ∷ []) dead

abbrev no_json : Json
no_json = record {
  Value = Unit;
  Object = Unit;
  from_slice = λ _. none;
  as_object = λ _. none;
  get = λ _ _. none;
  as_bool = λ _. none;
}

handle-IsWorld_example :
    IsWorld
      (handle no_json world 7 no_interest (Event.subscribe (b'b' ∷ []) none (b'2' ∷ []))).world
handle-IsWorld_example =
    handle-IsWorld no_json world 7 no_interest (Event.subscribe (b'b' ∷ []) none (b'2' ∷ []))
      (record {
        registered = insert-IsRegistry spoken empty (new_sub-IsSub _ _ _ _ _) empty-IsRegistry;
      })

-- Two members of one group, and one subscription outside it.
abbrev pair : List Sub
pair =
    new_sub 0 (b'a' ∷ []) (some (b'q' ∷ [])) (b'1' ∷ []) 7
    ∷ new_sub 1 (b'a' ∷ []) (some (b'q' ∷ [])) (b'2' ∷ []) 7
    ∷ new_sub 2 (b'a' ∷ []) none (b'3' ∷ []) 7
    ∷ []

pick_groups-share_example :
    (length (members_of (b'q' ∷ []) (pick_groups world 8 pair).1) ≡ share world 8 (b'q' ∷ []) pair)
    × (plain_of (pick_groups world 8 pair).1 ≡ plain_of pair)
    × All (May world 8) (pick_groups world 8 pair).1
pick_groups-share_example =
    pick_groups-share world 8 pair (b'q' ∷ []) (unfold next_u64 in omega arith)
