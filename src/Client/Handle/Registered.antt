-- ===== src/Client/Handle/Registered.antt =====
-- What `handle` of crates/server/src/client.rs leaves of the registry.
use nats_server_rs.Prelude.{
  ℕ, ℤ, String, Bool, true, false, not, ◌&&◌, ◌||◌, Option, none, some, Bytes, is_empty,
  if◌then◌else◌,
}
use nats_server_rs.Subjects.{is_valid, is_valid_publish}
use nats_server_rs.Proto.Types.{
  Event, Publish, HpubOutcome, invalid_subject, invalid_publish_subject,
}
use nats_server_rs.Routing.Registry.{Sub, new_sub, insert, Interest}
use nats_server_rs.Routing.Registry.Invariant.{new_sub-IsSub, insert-IsRegistry, remove-IsRegistry}
use nats_server_rs.Client.Outbox.{ok_frame, err_frame, pong_frame}
use nats_server_rs.Client.Options.{Json, apply_connect, pack}
use nats_server_rs.Client.World.{World, set_conn, set_limit, note_pong, say, send_err, opts}
use nats_server_rs.Client.Route.{route}
use nats_server_rs.Client.Route.Registered.{
  IsWorld, IsWorld-if, say-IsWorld, route-IsWorld, no_responder_check-IsWorld,
}
use nats_server_rs.Client.Handle.{
  Handled, stays, goes, ok_if, subscribed, unsubscribed, find_sub, queue_ok, subscribe, unsubscribe,
  routed, msg_of, publish, hpub_attempt, connect, info_is_an_object, handle,
}

handled-if :
    (b : Bool) (r s : Handled)
    → IsWorld r.world
    → IsWorld s.world
    → IsWorld (if b then r else s).world
handled-if true r s k l = k
handled-if false r s k l = l

ok_if-IsWorld : (b : Bool) (w : World) (me : ℕ) → IsWorld w → IsWorld (ok_if b w me)
unfolding ok_if
ok_if-IsWorld b w me v = IsWorld-if b (say w me ok_frame).0 w (say-IsWorld w me ok_frame v) v

send_err-IsWorld : (w : World) (me : ℕ) (text : String) → IsWorld w → IsWorld (send_err w me text)
unfolding send_err
send_err-IsWorld w me text v = say-IsWorld w me (err_frame text) v

subscribed-IsWorld :
    (w : World) (me : ℕ) (subject : Bytes) (queue : Option Bytes) (sid : Bytes) (known : Option Sub)
    → IsWorld w
    → IsWorld (subscribed w me subject queue sid known)
unfolding subscribed
subscribed-IsWorld w me subject queue sid (some known) v = v
subscribed-IsWorld w me subject queue sid none v =
    let sub = new_sub w.next_key subject queue sid me in
    let kept =
      insert-IsRegistry sub w.registry (new_sub-IsSub w.next_key subject queue sid me)
        v.registered in
    IsWorld-if (insert sub w.registry).0 _ _ (record { registered = kept })
      (record { registered = kept })

unsubscribed-IsWorld :
    (w : World) (me : ℕ) (sid : Bytes) (max : ℤ) (known : Option Sub)
    → IsWorld w
    → IsWorld (unsubscribed w me sid max known)
unfolding unsubscribed
unsubscribed-IsWorld w me sid max none v = v
unsubscribed-IsWorld w me sid max (some sub) v =
    IsWorld-if (set_limit max (w.counters sub.key)).1 _ _
      (record { registered = remove-IsRegistry sub w.registry v.registered })
      (record { registered = v.registered })

subscribe-IsWorld :
    (w : World) (me : ℕ) (i : Interest) (subject : Bytes) (queue : Option Bytes) (sid : Bytes)
    → IsWorld w
    → IsWorld (subscribe w me i subject queue sid).world
unfolding subscribe stays
subscribe-IsWorld w me i subject queue sid v =
    handled-if (not (is_valid subject) || not (queue_ok queue)) _ _
      (send_err-IsWorld w me invalid_subject v)
      (ok_if-IsWorld (opts w me).verbose _ me
        (subscribed-IsWorld w me subject queue sid (find_sub (w.conns me).subs sid) v))

publish-IsWorld :
    (w : World) (me : ℕ) (i : Interest) (e : Publish) → IsWorld w → IsWorld (publish w me i e).world
unfolding publish stays goes routed
publish-IsWorld w me i e v =
    let o = opts w me in
    let w' =
      if o.pedantic && not (is_valid_publish e.subject)
      then send_err w me invalid_publish_subject
      else w in
    let v' =
      IsWorld-if (o.pedantic && not (is_valid_publish e.subject)) _ w
        (send_err-IsWorld w me invalid_publish_subject v) v in
    let w'' = ok_if o.verbose w' me in
    let v'' = ok_if-IsWorld o.verbose w' me v' in
    let r = (route w'' me (msg_of e) i).0 in
    handled-if (e.hpub && not o.headers) _ _ v (
      handled-if (is_empty e.subject) _ _ v'' (
        no_responder_check-IsWorld r.world me (msg_of e) r.count
          (route-IsWorld w'' me (msg_of e) i v'')))

hpub_attempt-IsWorld :
    (w : World) (me : ℕ) (i : Interest) (outcome : HpubOutcome)
    → IsWorld w
    → IsWorld (hpub_attempt w me i outcome).world
unfolding hpub_attempt stays goes
hpub_attempt-IsWorld w me i HpubOutcome.ok v = v
hpub_attempt-IsWorld w me i HpubOutcome.args v = v
hpub_attempt-IsWorld w me i (HpubOutcome.frame text) v = send_err-IsWorld w me text v

connect-IsWorld :
    (json : Json) (w : World) (me : ℕ) (i : Interest) (text : Bytes)
    → IsWorld w
    → IsWorld (connect json w me i text).world
unfolding connect stays goes set_conn
connect-IsWorld json w me i text v =
    let a = apply_connect json (opts w me) text in
    let w' = set_conn w me (record (w.conns me) { flags = pack a.1 }) in
    let v' : IsWorld w' = record { registered = v.registered } in
    handled-if (not a.0) (goes w i) (stays (ok_if a.1.verbose w' me) i) v
      (ok_if-IsWorld a.1.verbose w' me v')

-- Whatever the operation, the JSON library's answers and the state of the connections, handling it
-- keeps the registry well formed, also where it routes a message, closes slow subscribers or
-- removes spent subscriptions.
pub handle-IsWorld :
    (json : Json) (w : World) (me : ℕ) (i : Interest) (ev : Event)
    → IsWorld w
    → IsWorld (handle json w me i ev).world
unfolding handle unsubscribe stays goes note_pong
handle-IsWorld json w me i (Event.connect text) v = connect-IsWorld json w me i text v
handle-IsWorld json w me i (Event.subscribe subject queue sid) v =
    subscribe-IsWorld w me i subject queue sid v
handle-IsWorld json w me i (Event.unsubscribe sid max) v =
    ok_if-IsWorld (opts w me).verbose _ me
      (unsubscribed-IsWorld w me sid max (find_sub (w.conns me).subs sid) v)
handle-IsWorld json w me i (Event.publish e) v = publish-IsWorld w me i e v
handle-IsWorld json w me i Event.ping v = say-IsWorld w me pong_frame v
handle-IsWorld json w me i Event.pong v = record { registered = v.registered }
handle-IsWorld json w me i (Event.info text) v = handled-if (info_is_an_object json text) _ _ v v
handle-IsWorld json w me i (Event.hpub_attempt outcome) v =
    handled-if (not (opts w me).headers) _ _ v (hpub_attempt-IsWorld w me i outcome v)
handle-IsWorld json w me i Event.client_err v = v
handle-IsWorld json w me i Event.client_ok v = v
