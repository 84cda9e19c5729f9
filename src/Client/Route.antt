-- ===== src/Client/Route.antt =====
-- `route`, `pick_groups` and `give` of crates/server/src/routing.rs, and `no_responder_check` of
-- crates/server/src/lib.rs.
pub mod Probe
pub mod Groups
pub mod Shares
pub mod Plain
pub mod Keeps
pub mod Registered
use nats_server_rs.Prelude.{
  ℕ, zero, suc, ◌+◌, ◌%◌, Bool, true, false, not, ◌&&◌, ◌||◌, Option, none, some, List, [], ◌∷◌,
  ◌++◌, Bytes, ◌==◌, equal, any, retain, get_elem?, length, is_empty, if◌then◌else◌,
}
use nats_server_rs.Nuid.{next_u64}
use nats_server_rs.Routing.Registry.{
  Sub, Registry, Interest, refresh, remove_sub, changed, matching_of,
}
use nats_server_rs.Routing.Frame.{Msg, no_responder_frame}
use nats_server_rs.Client.Outbox.{Enqueue, soft_limit, slow_consumer, dropped, wrapping_add}
use nats_server_rs.Client.World.{
  World, put, account, opts, eligible, has_room, say, deliver, finish,
}

pub data Give : Type 0 where
  ok : Give
  stall : ℕ → Give
  gone : Give

-- A route under way: the counts, the connections to wait for, and the subscriptions that are spent.
pub record Routing : Type 0 where
  pub world : World
  pub count : ℕ
  pub stall : List ℕ
  pub expired : List Sub

-- `if sub.account() { expired.push(..) }`
unfoldable pub booked : Sub → World → List Sub → World × List Sub
unfolding account
booked sub w expired =
    let (c, spent) = account (w.counters sub.key) in
    (
      record w { counters = put w.counters sub.key c },
      if spent then expired ++ sub ∷ [] else expired,
    )

-- The arms of `give`.
unfoldable pub given : Sub → World → List Sub → Enqueue → World × List Sub × Give
unfolding booked finish
given sub w expired Enqueue.ok = let (w', e) = booked sub w expired in (w', e, Give.ok)
given sub w expired soft_limit = let (w', e) = booked sub w expired in (w', e, Give.stall sub.conn)
given sub w expired slow_consumer = (finish true w sub.conn, expired ++ sub ∷ [], Give.gone)
given sub w expired dropped = (w, expired, Give.gone)

unfoldable pub give : World → Sub → Msg → List Sub → World × List Sub × Give
unfolding given deliver
give w sub msg expired = let (w', r) = deliver w sub msg in given sub w' expired r

unfoldable pub tally : Routing → Give → Routing
tally r Give.ok = record r { count = r.count + 1 }
tally r (Give.stall cid) = record r { count = r.count + 1; stall = r.stall ++ cid ∷ [] }
tally r Give.gone = r

unfoldable pub route_sub : ℕ → Msg → Sub → Routing → Routing
unfolding give tally eligible
route_sub from msg sub r =
    let (w, expired, g) = give r.world sub msg r.expired in
    if not (eligible r.world from sub)
    then r
    else tally (record r { world = w; expired = expired }) g

unfoldable pub route_all : ℕ → Msg → List Sub → Routing → Routing
unfolding route_sub
route_all from msg [] r = r
route_all from msg (sub ∷ subs) r = route_all from msg subs (route_sub from msg sub r)

unfoldable pub remove_subs : List Sub → Registry → Registry
unfolding remove_sub
remove_subs [] reg = reg
remove_subs (sub ∷ subs) reg = remove_subs subs (remove_sub sub reg)

-- `(0..n).map(|k| members[(start + k) % n])`, from `k` on; `usize` wraps.
unfoldable pub onto : Option Sub → List Sub → List Sub
onto none subs = subs
onto (some sub) subs = sub ∷ subs

unfoldable pub rotated : ℕ → List Sub → ℕ → ℕ → List Sub
unfolding onto wrapping_add
rotated start members zero k = []
rotated start members (suc left) k =
    onto (get_elem? members (wrapping_add start k % length members))
      (rotated start members left (suc k))

unfoldable pub find : (Sub → Bool) → List Sub → Option Sub
find p [] = none
find p (sub ∷ subs) = let rest = find p subs in if p sub then some sub else rest

unfoldable pub or_else : Option Sub → Option Sub → Option Sub
or_else none other = other
or_else (some sub) other = some sub

unfoldable pub in_group : Bytes → Option Bytes → Bool
in_group group none = false
in_group group (some g) = equal g group

-- The member of a group that a message goes to.
unfoldable pub pick : World → ℕ → ℕ → List Sub → Option Sub
unfolding find or_else rotated eligible has_room
pick w from start members =
    let order = rotated start members (length members) 0 in
    or_else (find (λ s. eligible w from s && has_room w s.conn) order)
      (find (eligible w from) order)

-- What the index of `sub` adds to `out`; `later` begins with `sub`.
unfoldable pub picked : World → ℕ → ℕ → List Bytes → Sub → List Sub → Option Bytes → List Sub
unfolding pick onto in_group
picked w from start groups sub later none = sub ∷ []
picked w from start groups sub later (some group) =
    if any (λ seen. equal seen group) groups
    then []
    else onto (pick w from start (retain (λ s. in_group group s.queue) later)) []

unfoldable pub seen_after : List Bytes → Option Bytes → List Bytes
seen_after groups none = groups
seen_after groups (some group) =
    if any (λ seen. equal seen group) groups then groups else groups ++ group ∷ []

unfoldable pub pick_loop : World → ℕ → ℕ → List Bytes → List Sub → List Sub
unfolding picked seen_after
pick_loop w from start groups [] = []
pick_loop w from start groups (sub ∷ subs) =
    picked w from start groups sub (sub ∷ subs) sub.queue
    ++ pick_loop w from start (seen_after groups sub.queue) subs

-- `pick_groups`
unfoldable pub pick_groups : World → ℕ → List Sub → World × List Sub
unfolding pick_loop next_u64
pick_groups w from subs =
    let (rng, start) = next_u64 w.rng in (record w { rng = rng }, pick_loop w from start [] subs)

-- The tail of `route`: the spent subscriptions leave the registry together.
unfoldable pub settled : Routing → Routing
unfolding remove_subs changed
settled r = if is_empty r.expired then r else record r {
  world = record r.world { registry = changed (remove_subs r.expired r.world.registry) };
}

unfoldable pub route_list : World → ℕ → Msg → List Sub → Routing
unfolding route_all settled
route_list w from msg subs =
    settled (route_all from msg subs (record { world = w; count = 0; stall = []; expired = [] }))

-- `route`
unfoldable pub route : World → ℕ → Msg → Interest → Routing × Interest
unfolding refresh pick_groups route_list
route w from msg interest =
    let i = refresh w.registry msg.subject interest in
    let (w', chosen) = pick_groups w from i.subs in
    (if i.queue then route_list w' from msg chosen else route_list w from msg i.subs, i)

unfoldable pub say_all : World → ℕ → Bytes → Bytes → List Sub → World
unfolding say no_responder_frame
say_all w cid reply published [] = w
say_all w cid reply published (sub ∷ subs) =
    say_all (say w cid (no_responder_frame reply sub.sid published)).0 cid reply published subs

unfoldable pub unanswered : World → ℕ → Msg → Option Bytes → World
unfolding say_all matching_of
unanswered w cid msg none = w
unanswered w cid msg (some reply) =
    if is_empty reply then w else say_all w cid reply msg.subject (matching_of w.registry cid reply)

-- `no_responder_check`
unfoldable pub no_responder_check : World → ℕ → Msg → ℕ → World
unfolding unanswered opts
no_responder_check w cid msg count =
    if not (count == 0) || not (opts w cid).no_responders then w else unanswered w cid msg msg.reply
