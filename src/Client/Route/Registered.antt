-- ===== src/Client/Route/Registered.antt =====
-- What `route` of crates/server/src/routing.rs and `no_responder_check` of crates/server/src/lib.rs leave
-- of the registry.
use nats_server_rs.Prelude.{
  ℕ, ◌==◌, Bool, true, false, not, ◌||◌, Option, none, some, List, [], ◌∷◌, Bytes, is_empty,
  if◌then◌else◌,
}
use nats_server_rs.Routing.Registry.{Sub, Registry, Interest, refresh, matching_of}
use nats_server_rs.Routing.Registry.Invariant.{
  IsRegistry, IsRegistry-changed, remove_sub-IsRegistry, remove_conn-IsRegistry,
}
use nats_server_rs.Routing.Frame.{Msg, no_responder_frame}
use nats_server_rs.Client.Outbox.{Enqueue, dropped}
use nats_server_rs.Client.World.{World, say, deliver, finish, opts, eligible}
use nats_server_rs.Client.Route.{
  Give, Routing, given, give, tally, route_sub, route_all, remove_subs, settled, route_list,
  pick_groups, route, say_all, unanswered, no_responder_check,
}

-- The registry of a world is well formed.
pub record IsWorld (w : World) : Type 0 where
  pub registered : IsRegistry w.registry

pub IsWorld-if : (b : Bool) (u v : World) → IsWorld u → IsWorld v → IsWorld (if b then u else v)
IsWorld-if true u v k l = k
IsWorld-if false u v k l = l

said-if :
    (b : Bool) (r s : World × Enqueue) → IsWorld r.0 → IsWorld s.0 → IsWorld (if b then r else s).0
said-if true r s k l = k
said-if false r s k l = l

pub say-IsWorld : (w : World) (me : ℕ) (frame : Bytes) → IsWorld w → IsWorld (say w me frame).0
unfolding say
say-IsWorld w me frame v =
    said-if (w.conns me).closed (w, dropped) _ v (record { registered = v.registered })

finish-IsWorld : (hard : Bool) (w : World) (me : ℕ) → IsWorld w → IsWorld (finish hard w me)
unfolding finish
finish-IsWorld hard w me v =
    IsWorld-if (w.conns me).closed w _ v
      (record { registered = remove_conn-IsRegistry me w.registry v.registered })

given-IsWorld :
    (sub : Sub) (w : World) (expired : List Sub) (r : Enqueue)
    → IsWorld w
    → IsWorld (given sub w expired r).0
unfolding given
given-IsWorld sub w expired Enqueue.ok v = record { registered = v.registered }
given-IsWorld sub w expired Enqueue.soft_limit v = record { registered = v.registered }
given-IsWorld sub w expired Enqueue.slow_consumer v = finish-IsWorld true w sub.conn v
given-IsWorld sub w expired Enqueue.dropped v = v

give-IsWorld :
    (w : World) (sub : Sub) (msg : Msg) (expired : List Sub)
    → IsWorld w
    → IsWorld (give w sub msg expired).0
unfolding give deliver
give-IsWorld w sub msg expired v = given-IsWorld sub _ expired _ (say-IsWorld w sub.conn _ v)

tally-IsWorld : (r : Routing) (g : Give) → IsWorld r.world → IsWorld (tally r g).world
unfolding tally
tally-IsWorld r Give.ok v = v
tally-IsWorld r (Give.stall cid) v = v
tally-IsWorld r Give.gone v = v

routed-if :
    (b : Bool) (r s : Routing)
    → IsWorld r.world
    → IsWorld s.world
    → IsWorld (if b then r else s).world
routed-if true r s k l = k
routed-if false r s k l = l

route_all-IsWorld :
    (from : ℕ) (msg : Msg) (subs : List Sub) (r : Routing)
    → IsWorld r.world
    → IsWorld (route_all from msg subs r).world
unfolding route_all route_sub
route_all-IsWorld from msg [] r v = v
route_all-IsWorld from msg (sub ∷ subs) r v = route_all-IsWorld from msg subs _ (
    routed-if (not (eligible r.world from sub)) r _ v
      (tally-IsWorld _ _ (give-IsWorld r.world sub msg r.expired v)))

remove_subs-IsRegistry :
    (subs : List Sub) (r : Registry) → IsRegistry r → IsRegistry (remove_subs subs r)
unfolding remove_subs
remove_subs-IsRegistry [] r v = v
remove_subs-IsRegistry (sub ∷ subs) r v =
    remove_subs-IsRegistry subs _ (remove_sub-IsRegistry sub r v)

settled-IsWorld : (r : Routing) → IsWorld r.world → IsWorld (settled r).world
unfolding settled
settled-IsWorld r v = routed-if (is_empty r.expired) r _ v (record {
  registered =
      IsRegistry-changed _ (remove_subs-IsRegistry r.expired r.world.registry v.registered);
})

route_list-IsWorld :
    (w : World) (from : ℕ) (msg : Msg) (subs : List Sub)
    → IsWorld w
    → IsWorld (route_list w from msg subs).world
unfolding route_list
route_list-IsWorld w from msg subs v =
    settled-IsWorld _ (
      route_all-IsWorld from msg subs (record { world = w; count = 0; stall = []; expired = [] }) v)

pub route-IsWorld :
    (w : World) (from : ℕ) (msg : Msg) (interest : Interest)
    → IsWorld w
    → IsWorld (route w from msg interest).0.world
unfolding route
route-IsWorld w from msg interest v =
    let i = refresh w.registry msg.subject interest in
    let p = pick_groups w from i.subs in
    routed-if i.queue (route_list p.0 from msg p.1) (route_list w from msg i.subs)
      (route_list-IsWorld p.0 from msg p.1
        (unfold pick_groups in record { registered = v.registered }))
      (route_list-IsWorld w from msg i.subs v)

say_all-IsWorld :
    (w : World) (me : ℕ) (reply published : Bytes) (subs : List Sub)
    → IsWorld w
    → IsWorld (say_all w me reply published subs)
unfolding say_all
say_all-IsWorld w me reply published [] v = v
say_all-IsWorld w me reply published (sub ∷ subs) v =
    let frame = no_responder_frame reply sub.sid published in
    say_all-IsWorld (say w me frame).0 me reply published subs (say-IsWorld w me frame v)

unanswered-IsWorld :
    (w : World) (me : ℕ) (msg : Msg) (reply : Option Bytes)
    → IsWorld w
    → IsWorld (unanswered w me msg reply)
unfolding unanswered
unanswered-IsWorld w me msg none v = v
unanswered-IsWorld w me msg (some reply) v =
    IsWorld-if (is_empty reply) w _ v
      (say_all-IsWorld w me reply msg.subject (matching_of w.registry me reply) v)

pub no_responder_check-IsWorld :
    (w : World) (me : ℕ) (msg : Msg) (count : ℕ)
    → IsWorld w
    → IsWorld (no_responder_check w me msg count)
unfolding no_responder_check
no_responder_check-IsWorld w me msg count v =
    IsWorld-if (not (count == 0) || not (opts w me).no_responders) w _ v
      (unanswered-IsWorld w me msg msg.reply v)
