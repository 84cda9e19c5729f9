-- ===== src/Client/Route/Keeps.antt =====
-- What routing a message leaves of the connections: crates/server/src/routing.rs `route`.
use nats_server_rs.Prelude.{
  ℕ, ◌==◌, Bool, true, false, not, List, [], ◌∷◌, Bytes, is_empty, Bool-cases, ==_iff, inl, inr,
  if◌then◌else◌, ◌≡◌, subst, sym, refl, ◌∙◌, arith,
}
use nats_server_rs.Routing.Registry.{Sub, Interest, refresh, remove_conn}
use nats_server_rs.Routing.Frame.{Msg}
use nats_server_rs.Client.Outbox.{Enqueue, dropped}
use nats_server_rs.Client.Outbox
use nats_server_rs.Client.World.{Conn, World, set_conn, eligible, say, deliver, finished, finish}
use nats_server_rs.Client.Route.{
  Give, Routing, booked, given, give, tally, route_sub, route_all, settled, route_list, pick_groups,
  route,
}

-- A connection that is closed stays so, and one that is open has its options and its subscriptions.
pub record KeepsConn (a b : Conn) : Type 0 where
  pub stays_closed : a.closed ≡ true → b.closed ≡ true
  pub subs_kept : b.closed ≡ false → b.subs ≡ a.subs
  pub flags_kept : b.flags ≡ a.flags

abbrev pub Keeps : World → World → Type 0
Keeps w w' = (cid : ℕ) → KeepsConn (w.conns cid) (w'.conns cid)

KeepsConn-refl : (a : Conn) → KeepsConn a a
KeepsConn-refl a = record { stays_closed = λ h. h; subs_kept = λ _. refl; flags_kept = refl }

open_before : (a b : Conn) → KeepsConn a b → b.closed ≡ false → a.closed ≡ false
open_before a b k h = elim (Bool-cases a.closed) [
  | inl shut ↦ let after = k.stays_closed shut in ground (arith, after, h)
  | inr still ↦ still
]

KeepsConn-trans : (a b c : Conn) → KeepsConn a b → KeepsConn b c → KeepsConn a c
KeepsConn-trans a b c k l = record {
  stays_closed = λ h. l.stays_closed (k.stays_closed h);
  subs_kept = λ h. l.subs_kept h ∙ k.subs_kept (open_before b c l h);
  flags_kept = l.flags_kept ∙ k.flags_kept;
}

Keeps-trans : (u v w : World) → Keeps u v → Keeps v w → Keeps u w
Keeps-trans u v w k l cid = KeepsConn-trans _ _ _ (k cid) (l cid)

KeepsConn-if :
    (b : Bool) (a c d : Conn) → KeepsConn a c → KeepsConn a d → KeepsConn a (if b then c else d)
KeepsConn-if true a c d k l = k
KeepsConn-if false a c d k l = l

Keeps-if :
    (b : Bool) (w u v : World)
    → (b ≡ true → Keeps w u)
    → (b ≡ false → Keeps w v)
    → Keeps w (if b then u else v)
Keeps-if true w u v k l = k refl
Keeps-if false w u v k l = l refl

set_conn-Keeps :
    (w : World) (me : ℕ) (c : Conn) → KeepsConn (w.conns me) c → Keeps w (set_conn w me c)
unfolding set_conn
set_conn-Keeps w me c k cid = elim (Bool-cases (cid == me)) [
  | inl same ↦ rw same (subst (λ n. KeepsConn (w.conns n) c) (sym ((==_iff cid me).0 same)) k)
  | inr other ↦ rw other (KeepsConn-refl _)
]

finished-KeepsConn : (hard : Bool) (c : Conn) → c.closed ≡ false → KeepsConn c (finished hard c)
unfolding finished
finished-KeepsConn hard c h = record {
  stays_closed = λ _. refl;
  subs_kept = λ e. absurd (ground (arith, e));
  flags_kept = refl;
}

finish-Keeps : (hard : Bool) (w : World) (me : ℕ) → Keeps w (finish hard w me)
unfolding finish
finish-Keeps hard w me =
    let left : World = record w { registry = remove_conn me w.registry } in
    Keeps-if (w.conns me).closed w w _ (λ _ cid. KeepsConn-refl _)
      (λ is_open.
        set_conn-Keeps left me (finished hard (w.conns me))
          (finished-KeepsConn hard (w.conns me) is_open))

said-if :
    (b : Bool) (w : World) (r s : World × Enqueue)
    → Keeps w r.0
    → Keeps w s.0
    → Keeps w (if b then r else s).0
said-if true w r s k l = k
said-if false w r s k l = l

say-Keeps : (w : World) (me : ℕ) (frame : Bytes) → Keeps w (say w me frame).0
unfolding say
say-Keeps w me frame =
    let c : Conn = record (w.conns me) { out = (Outbox.enqueue (w.conns me).out frame).0 } in
    said-if (w.conns me).closed w (w, dropped) _ (λ cid. KeepsConn-refl _)
      (set_conn-Keeps w me c
        (record { stays_closed = λ h. h; subs_kept = λ _. refl; flags_kept = refl }))

booked-Keeps : (sub : Sub) (w : World) (expired : List Sub) → Keeps w (booked sub w expired).0
unfolding booked
booked-Keeps sub w expired cid = KeepsConn-refl _

given-Keeps :
    (sub : Sub) (w : World) (expired : List Sub) (r : Enqueue) → Keeps w (given sub w expired r).0
unfolding given
given-Keeps sub w expired Enqueue.ok = booked-Keeps sub w expired
given-Keeps sub w expired Enqueue.soft_limit = booked-Keeps sub w expired
given-Keeps sub w expired Enqueue.slow_consumer = finish-Keeps true w sub.conn
given-Keeps sub w expired Enqueue.dropped = λ cid. KeepsConn-refl _

deliver-Keeps : (w : World) (sub : Sub) (msg : Msg) → Keeps w (deliver w sub msg).0
unfolding deliver
deliver-Keeps w sub msg = say-Keeps w sub.conn _

give-Keeps :
    (w : World) (sub : Sub) (msg : Msg) (expired : List Sub) → Keeps w (give w sub msg expired).0
unfolding give
give-Keeps w sub msg expired =
    let d = deliver w sub msg in
    Keeps-trans w d.0 (given sub d.0 expired d.1).0 (deliver-Keeps w sub msg)
      (given-Keeps sub d.0 expired d.1)

tally-world : (r : Routing) (g : Give) → (tally r g).world ≡ r.world
unfolding tally
tally-world r Give.ok = refl
tally-world r (Give.stall cid) = refl
tally-world r Give.gone = refl

routed-if :
    (b : Bool) (w : World) (r s : Routing)
    → Keeps w r.world
    → Keeps w s.world
    → Keeps w (if b then r else s).world
routed-if true w r s k l = k
routed-if false w r s k l = l

route_sub-Keeps :
    (from : ℕ) (msg : Msg) (sub : Sub) (r : Routing)
    → Keeps r.world (route_sub from msg sub r).world
unfolding route_sub
route_sub-Keeps from msg sub r =
    let g = give r.world sub msg r.expired in
    let r' : Routing = record r { world = g.0; expired = g.1 } in
    routed-if (not (eligible r.world from sub)) r.world r (tally r' g.2) (λ cid. KeepsConn-refl _)
      (subst (Keeps r.world) (sym (tally-world r' g.2)) (give-Keeps r.world sub msg r.expired))

route_all-Keeps :
    (from : ℕ) (msg : Msg) (subs : List Sub) (r : Routing)
    → Keeps r.world (route_all from msg subs r).world
unfolding route_all
route_all-Keeps from msg [] r = λ cid. KeepsConn-refl _
route_all-Keeps from msg (sub ∷ subs) r =
    Keeps-trans r.world (route_sub from msg sub r).world
      (route_all from msg subs (route_sub from msg sub r)).world (route_sub-Keeps from msg sub r)
      (route_all-Keeps from msg subs (route_sub from msg sub r))

route_list-Keeps :
    (w : World) (from : ℕ) (msg : Msg) (subs : List Sub)
    → Keeps w (route_list w from msg subs).world
unfolding route_list settled
route_list-Keeps w from msg subs =
    let r = route_all from msg subs (record { world = w; count = 0; stall = []; expired = [] }) in
    let k =
      route_all-Keeps from msg subs (record { world = w; count = 0; stall = []; expired = [] }) in
    routed-if (is_empty r.expired) w r _ k k

-- Routing a message leaves every connection that is still open afterwards with the options and the
-- table of subscriptions it had, also where a subscription was spent, and opens no closed
-- connection.
pub route-Keeps :
    (w : World) (from : ℕ) (msg : Msg) (interest : Interest)
    → Keeps w (route w from msg interest).0.world
unfolding route
route-Keeps w from msg interest =
    let i = refresh w.registry msg.subject interest in
    let p = pick_groups w from i.subs in
    routed-if i.queue w (route_list p.0 from msg p.1) (route_list w from msg i.subs)
      (λ cid. unfold pick_groups in route_list-Keeps p.0 from msg p.1 cid)
      (route_list-Keeps w from msg i.subs)
