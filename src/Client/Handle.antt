-- ===== src/Client/Handle.antt =====
-- `handle` of crates/server/src/client.rs: one parsed operation of the connection `me`.
pub mod Registered
pub mod Closed
use nats_server_rs.Prelude.{
  ℕ, ◌+◌, Bool, true, false, not, ◌&&◌, ◌||◌, Option, none, some, List, [], ◌∷◌, ◌++◌, Bytes, equal,
  is_empty, if◌then◌else◌, ℤ,
}
use nats_server_rs.Subjects.{is_valid, is_valid_publish}
use nats_server_rs.Proto.Types.{
  Event, Publish, HpubOutcome, invalid_subject, invalid_publish_subject,
}
use nats_server_rs.Routing.Registry.{Sub, new_sub, insert, remove, Interest}
use nats_server_rs.Routing.Frame.{Msg}
use nats_server_rs.Client.Outbox.{ok_frame, pong_frame}
use nats_server_rs.Client.Options.{Json, pack, apply_connect}
use nats_server_rs.Client.World.{World, put, set_conn, set_limit, opts, say, send_err, note_pong}
use nats_server_rs.Client.Route.{route, no_responder_check}

-- What `handle` leaves: the connections whose room the publisher waits for, and in `alive` its result.
pub record Handled : Type 0 where
  pub world : World
  pub interest : Interest
  pub waits : List ℕ
  pub alive : Bool

unfoldable pub find_sub : List (Bytes × Sub) → Bytes → Option Sub
find_sub [] sid = none
find_sub ((k, sub) ∷ subs) sid =
    let rest = find_sub subs sid in if equal k sid then some sub else rest

-- `HashMap::insert` where the key is missing, and `HashMap::remove`.
unfoldable pub add_sub : World → ℕ → Bytes → Sub → World
unfolding set_conn
add_sub w me sid sub =
    set_conn w me (record (w.conns me) { subs = (w.conns me).subs ++ (sid, sub) ∷ [] })

unfoldable pub without : List (Bytes × Sub) → Bytes → List (Bytes × Sub)
without [] sid = []
without ((k, sub) ∷ subs) sid =
    let rest = without subs sid in if equal k sid then rest else (k, sub) ∷ rest

unfoldable pub drop_sub : World → ℕ → Bytes → World
unfolding set_conn without
drop_sub w me sid = set_conn w me (record (w.conns me) { subs = without (w.conns me).subs sid })

unfoldable pub ok_if : Bool → World → ℕ → World
unfolding say ok_frame
ok_if verbose w me = if verbose then (say w me ok_frame).0 else w

unfoldable pub queue_ok : Option Bytes → Bool
queue_ok none = true
queue_ok (some q) = is_valid q

-- An `sid` that is in use keeps its subscription.
unfoldable pub subscribed : World → ℕ → Bytes → Option Bytes → Bytes → Option Sub → World
unfolding new_sub insert add_sub
subscribed w me subject queue sid (some known) = w
subscribed w me subject queue sid none =
    let sub = new_sub w.next_key subject queue sid me in
    let (inserted, registry) = insert sub w.registry in
    let w' = record w {
      registry = registry;
      counters = put w.counters w.next_key (record { delivered = 0; limit = 0 });
      next_key = w.next_key + 1;
    } in
    if inserted then add_sub w' me sid sub else w'

unfoldable pub unsubscribed : World → ℕ → Bytes → ℤ → Option Sub → World
unfolding set_limit drop_sub remove
unsubscribed w me sid max none = w
unsubscribed w me sid max (some sub) =
    let (c, gone) = set_limit max (w.counters sub.key) in
    let w' = record w { counters = put w.counters sub.key c } in
    let w'' = drop_sub w' me sid in
    if gone then record w'' { registry = remove sub w''.registry } else w'

unfoldable pub msg_of : Publish → Msg
msg_of e = record { subject = e.subject; reply = e.reply; hdr = e.hdr; body = e.body }

-- A publish that may be routed.
unfoldable pub routed : World → ℕ → Interest → Publish → Handled
unfolding route no_responder_check msg_of
routed w me interest e =
    let (r, i) = route w me (msg_of e) interest in
    record {
      world = no_responder_check r.world me (msg_of e) r.count;
      interest = i;
      waits = r.stall;
      alive = true;
    }

unfoldable pub stays : World → Interest → Handled
stays w interest = record { world = w; interest = interest; waits = []; alive = true }

unfoldable pub goes : World → Interest → Handled
goes w interest = record { world = w; interest = interest; waits = []; alive = false }

unfoldable pub publish : World → ℕ → Interest → Publish → Handled
unfolding send_err ok_if routed stays goes
publish w me interest e =
    let o = opts w me in
    if e.hpub && not o.headers
    then goes w interest
    else let w' =
        if o.pedantic && not (is_valid_publish e.subject)
        then send_err w me invalid_publish_subject
        else w in
      let w'' = ok_if o.verbose w' me in
      if is_empty e.subject then stays w'' interest else routed w'' me interest e

unfoldable pub subscribe : World → ℕ → Interest → Bytes → Option Bytes → Bytes → Handled
unfolding queue_ok subscribed find_sub ok_if send_err stays
subscribe w me interest subject queue sid =
    if not (is_valid subject) || not (queue_ok queue)
    then stays (send_err w me invalid_subject) interest
    else stays
        (ok_if (opts w me).verbose
          (subscribed w me subject queue sid (find_sub (w.conns me).subs sid)) me)
        interest

unfoldable pub unsubscribe : World → ℕ → Interest → Bytes → ℤ → Handled
unfolding unsubscribed find_sub ok_if stays
unsubscribe w me interest sid max =
    stays
      (ok_if (opts w me).verbose (unsubscribed w me sid max (find_sub (w.conns me).subs sid)) me)
      interest

unfoldable pub hpub_attempt : World → ℕ → Interest → HpubOutcome → Handled
unfolding stays goes send_err
hpub_attempt w me interest HpubOutcome.ok = stays w interest
hpub_attempt w me interest HpubOutcome.args = goes w interest
hpub_attempt w me interest (HpubOutcome.frame text) = goes (send_err w me text) interest

module _ (json : Json) where
  unfoldable pub connect : World → ℕ → Interest → Bytes → Handled
  unfolding apply_connect set_conn pack ok_if stays goes
  connect w me interest text =
      let (read, o) = apply_connect json (opts w me) text in
      let w' = set_conn w me (record (w.conns me) { flags = pack o }) in
      if not read then goes w interest else stays (ok_if o.verbose w' me) interest

  -- `info_is_an_object`
  unfoldable pub has_object : Option (Json.Object json) → Bool
  has_object none = false
  has_object (some o) = true

  unfoldable pub value_is_object : Option (Json.Value json) → Bool
  unfolding has_object
  value_is_object none = false
  value_is_object (some v) = has_object (Json.as_object json v)

  unfoldable pub info_is_an_object : Bytes → Bool
  unfolding value_is_object
  info_is_an_object text = value_is_object (Json.from_slice json text)

  -- `handle`
  unfoldable pub handle : World → ℕ → Interest → Event → Handled
  unfolding connect subscribe unsubscribe publish info_is_an_object hpub_attempt stays goes say
      pong_frame note_pong
  handle w me interest (Event.connect text) = connect w me interest text
  handle w me interest (Event.subscribe subject queue sid) =
      subscribe w me interest subject queue sid
  handle w me interest (Event.unsubscribe sid max) = unsubscribe w me interest sid max
  handle w me interest (Event.publish e) = publish w me interest e
  handle w me interest Event.ping = stays (say w me pong_frame).0 interest
  handle w me interest Event.pong = stays (note_pong w me) interest
  handle w me interest (Event.info text) =
      if info_is_an_object text then stays w interest else goes w interest
  handle w me interest (Event.hpub_attempt outcome) =
      if not (opts w me).headers then goes w interest else hpub_attempt w me interest outcome
  handle w me interest Event.client_err = goes w interest
  handle w me interest Event.client_ok = stays w interest
