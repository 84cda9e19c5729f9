-- ===== src/Client/Handle/Closed.antt =====
-- `handle` of crates/server/src/client.rs on a connection that another task has closed.
use nats_server_rs.Prelude.{
  ℕ, ◌+◌, ◌==◌, Bool, true, false, Option, none, Bytes, if◌then◌else◌, ◌≡◌, refl, sym, subst, ap,
  ◌∙◌, ==_iff,
}
use nats_server_rs.Subjects.{is_valid}
use nats_server_rs.Proto.Types.{Event}
use nats_server_rs.Routing.Registry.{Sub, new_sub, Registry, insert, Interest}
use nats_server_rs.Client.Outbox.{ok_frame}
use nats_server_rs.Client.Options.{Json}
use nats_server_rs.Client.World.{World, set_conn, put, opts, say, finish}
use nats_server_rs.Client.Handle.{
  stays, find_sub, queue_ok, add_sub, ok_if, subscribed, subscribe, handle,
}

-- A closed connection, and the registry that it leaves as it is when it is closed again.
record IsLeft (w : World) (me : ℕ) (r : Registry) : Type 0 where
  is_closed : (w.conns me).closed ≡ true
  holds : w.registry ≡ r

say_closed :
    (w : World) (me : ℕ) (frame : Bytes) → (w.conns me).closed ≡ true → (say w me frame).0 ≡ w
unfolding say
say_closed w me frame h = rw h refl

ok_if_closed : (b : Bool) (w : World) (me : ℕ) → (w.conns me).closed ≡ true → ok_if b w me ≡ w
unfolding ok_if
ok_if_closed true w me h = say_closed w me ok_frame h
ok_if_closed false w me h = refl

IsLeft-if :
    (b : Bool) (u v : World) (me : ℕ) (r : Registry)
    → IsLeft u me r
    → IsLeft v me r
    → IsLeft (if b then u else v) me r
IsLeft-if true u v me r k l = k
IsLeft-if false u v me r k l = l

add_sub-IsLeft :
    (w : World) (me : ℕ) (sid : Bytes) (sub : Sub) (r : Registry)
    → IsLeft w me r
    → IsLeft (add_sub w me sid sub) me r
unfolding add_sub set_conn
add_sub-IsLeft w me sid sub r v =
    let same : (me == me) ≡ true = (==_iff me me).1 refl in
    record { is_closed = rw same (v.is_closed); holds = v.holds }

IsLeft-closed :
    (b : Bool) (u v : World) (me : ℕ) (r : Registry)
    → b ≡ true
    → IsLeft u me r
    → IsLeft (if b then u else v) me r
IsLeft-closed true u v me r h k = k
IsLeft-closed false u v me r h k = cc

subscribed-IsLeft :
    (w : World) (me : ℕ) (subject : Bytes) (queue : Option Bytes) (sid : Bytes)
    → (w.conns me).closed ≡ true
    → IsLeft
        (subscribed w me subject queue sid none)
        me
        (insert (new_sub w.next_key subject queue sid me) w.registry).1
unfolding subscribed
subscribed-IsLeft w me subject queue sid h =
    let sub = new_sub w.next_key subject queue sid me in
    let (inserted, registry) = insert sub w.registry in
    let w' : World = record w {
      registry = registry;
      counters = put w.counters w.next_key (record { delivered = 0; limit = 0 });
      next_key = w.next_key + 1;
    } in
    let left : IsLeft w' me registry = record { is_closed = h; holds = refl } in
    IsLeft-if inserted (add_sub w' me sid sub) w' me registry
      (add_sub-IsLeft w' me sid sub registry left) left

subscribe_accepted :
    (w : World) (me : ℕ) (i : Interest) (subject : Bytes) (queue : Option Bytes) (sid : Bytes)
    → is_valid subject ≡ true
    → queue_ok queue ≡ true
    → (subscribe w me i subject queue sid).world
      ≡ ok_if
          (opts w me).verbose
          (subscribed w me subject queue sid (find_sub (w.conns me).subs sid))
          me
unfolding subscribe stays
subscribe_accepted w me i subject queue sid valid fine = rw (valid, fine) refl

finish-IsLeft :
    (w : World) (me : ℕ) (r : Registry) → IsLeft w me r → IsLeft (finish false w me) me r
unfolding finish
finish-IsLeft w me r v = IsLeft-closed (w.conns me).closed w _ me r v.is_closed v

-- A subscription with a valid subject and queue and a new sid that is handled on a connection
-- which is already closed goes into the registry, and closing the connection again, as the reader
-- does at its end, does not take it out.
pub subscribe_closed :
    (json : Json) (w : World) (me : ℕ) (i : Interest) (subject : Bytes) (queue : Option Bytes)
    (sid : Bytes)
    → (w.conns me).closed ≡ true
    → is_valid subject ≡ true
    → queue_ok queue ≡ true
    → find_sub (w.conns me).subs sid ≡ none
    → let w' = finish false (handle json w me i (Event.subscribe subject queue sid)).world me in
      ((w'.conns me).closed ≡ true)
      × (w'.registry ≡ (insert (new_sub w.next_key subject queue sid me) w.registry).1)
unfolding handle
subscribe_closed json w me i subject queue sid h valid fine fresh =
    let verbose = (opts w me).verbose in
    let r = (insert (new_sub w.next_key subject queue sid me) w.registry).1 in
    let u = subscribed w me subject queue sid none in
    let v = subscribed-IsLeft w me subject queue sid h in
    let told = ok_if_closed verbose u me v.is_closed in
    let found =
      ap (λ (o : Option Sub). ok_if verbose (subscribed w me subject queue sid o) me) fresh in
    let world = subscribe_accepted w me i subject queue sid valid fine ∙ (found ∙ told) in
    let left = finish-IsLeft u me r v in
    let left' = subst (λ (x : World). IsLeft (finish false x me) me r) (sym world) left in
    (left'.is_closed, left'.holds)
