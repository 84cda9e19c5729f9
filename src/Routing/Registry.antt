-- ===== src/Routing/Registry.antt =====
-- `Sub`, `Inner` and `Registry` of crates/server/src/routing.rs, without the deliveries. Each operation
-- runs under the registry's lock from its first read to its last write, so it is one step here. A
-- connection is named by its `cid`, which no other has, and a subscription's counters by its `key`, as
-- the place of its `Arc` in memory.
pub mod Map
pub mod Invariant
pub mod Lookup
pub mod Moves
pub mod Cache
pub mod Members
use nats_server_rs.Prelude.{
  ℕ, zero, suc, ◌+◌, ◌-◌, ◌%◌, ◌^◌, Bool, true, false, not, ◌&&◌, ◌||◌, Option, none, some, List,
  [], ◌∷◌, ◌++◌, Bytes, equal, ◌==◌, length, is_empty, any, retain, if◌then◌else◌,
}
use nats_server_rs.Subjects.{is_valid, has_wildcard, matches}

pub record Sub : Type 0 where
  pub key : ℕ
  pub subject : Bytes
  pub queue : Option Bytes
  pub sid : Bytes
  pub conn : ℕ
  pub wildcard : Bool
  pub queued : Bool

unfoldable pub is_some : Option Bytes → Bool
is_some none = false
is_some (some q) = true

-- `Sub::new`
unfoldable pub new_sub : ℕ → Bytes → Option Bytes → Bytes → ℕ → Sub
unfolding is_some
new_sub key subject queue sid conn = record {
  key = key;
  subject = subject;
  queue = queue;
  sid = sid;
  conn = conn;
  wildcard = has_wildcard subject;
  queued = is_some queue;
}

-- The map of literal subjects is an association list; no operation depends on the order of its keys.
abbrev pub SubjectMap : Type 0
SubjectMap = List (Bytes × List Sub)

pub record Registry : Type 0 where
  pub literal : SubjectMap
  pub wildcard : List Sub
  pub total : ℕ
  pub generation : ℕ

abbrev pub empty : Registry
empty = record { literal = []; wildcard = []; total = 0; generation = 0 }

-- `same`, and the identity that `remove_sub` goes by.
unfoldable pub same : Sub → Sub → Bool
same a b = equal a.sid b.sid && equal a.subject b.subject && a.conn == b.conn

unfoldable pub same_sid : Sub → Sub → Bool
same_sid sub s = equal s.sid sub.sid && s.conn == sub.conn

-- `HashMap::get`; a missing key is the empty list for every caller.
unfoldable pub get : SubjectMap → Bytes → List Sub
get [] subject = []
get ((k, l) ∷ m) subject = if equal k subject then l else get m subject

-- `entry(subject).or_default()`, its list rewritten by `f`.
unfoldable pub update_entry : (List Sub → List Sub) → Bytes → SubjectMap → SubjectMap
update_entry f subject [] = (subject, f []) ∷ []
update_entry f subject ((k, l) ∷ m) =
    if equal k subject then (k, f l) ∷ m else (k, l) ∷ update_entry f subject m

-- `changed`: `fetch_add` on an `AtomicU64` wraps.
unfoldable pub changed : Registry → Registry
changed r = record r { generation = (r.generation + 1) % 2 ^ 64 }

unfoldable pub insert_wildcard : Sub → Registry → Registry
unfolding changed same
insert_wildcard sub r =
    if not (any (λ s. same s sub) r.wildcard)
    then changed (record r { wildcard = r.wildcard ++ sub ∷ []; total = r.total + 1 })
    else r

unfoldable pub insert_literal : Sub → Registry → Registry
unfolding changed same get update_entry
insert_literal sub r =
    if not (any (λ s. same s sub) (get r.literal sub.subject))
    then changed (record r {
      literal = update_entry (λ l. l ++ sub ∷ []) sub.subject r.literal;
      total = r.total + 1;
    })
    else record r { literal = update_entry (λ l. l) sub.subject r.literal }

-- `insert`: `false` means that the filter is no legal subject.
unfoldable pub insert : Sub → Registry → Bool × Registry
unfolding insert_wildcard insert_literal
insert sub r =
    if not (is_valid sub.subject)
    then (false, r)
    else (true, if sub.wildcard then insert_wildcard sub r else insert_literal sub r)

-- The entry of one subject without the subscriptions that `gone` names; an entry that is empty
-- afterwards goes, and one that is missing stays so.
unfoldable pub remove_entry : (Sub → Bool) → Bytes → SubjectMap → SubjectMap
remove_entry gone subject [] = []
remove_entry gone subject ((k, l) ∷ m) =
    let left = retain (λ s. not (gone s)) l in
    if equal k subject
    then (if is_empty left then m else (k, left) ∷ m)
    else (k, l) ∷ remove_entry gone subject m

-- `Inner::remove_sub`
unfoldable pub remove_sub : Sub → Registry → Registry
unfolding same_sid remove_entry get
remove_sub sub r =
    if sub.wildcard
    then (let left = retain (λ s. not (same_sid sub s)) r.wildcard in
        record r { wildcard = left; total = r.total - (length r.wildcard - length left) })
    else (let before = get r.literal sub.subject in
        let left = retain (λ s. not (same_sid sub s)) before in
        record r {
          literal = remove_entry (same_sid sub) sub.subject r.literal;
          total = r.total - (length before - length left);
        })

-- `remove`: the generation moves whether or not the subscription was there.
unfoldable pub remove : Sub → Registry → Registry
unfolding remove_sub changed
remove sub r = changed (remove_sub sub r)

-- `remove_conn`: `values_mut` with `retain` on each list, and the sum of what went.
unfoldable pub retain_values : (Sub → Bool) → SubjectMap → SubjectMap
retain_values keep [] = []
retain_values keep ((k, l) ∷ m) = (k, retain keep l) ∷ retain_values keep m

unfoldable pub removed_values : (Sub → Bool) → SubjectMap → ℕ
removed_values keep [] = 0
removed_values keep ((k, l) ∷ m) = (length l - length (retain keep l)) + removed_values keep m

unfoldable pub drop_empty : SubjectMap → SubjectMap
drop_empty [] = []
drop_empty ((k, l) ∷ m) = if is_empty l then drop_empty m else (k, l) ∷ drop_empty m

unfoldable pub of_conn : ℕ → Sub → Bool
of_conn conn s = s.conn == conn

unfoldable pub remove_conn : ℕ → Registry → Registry
unfolding retain_values removed_values drop_empty of_conn changed
remove_conn conn r =
    let keep = λ (s : Sub). not (of_conn conn s) in
    let wild = retain keep r.wildcard in
    let removed = removed_values keep r.literal + (length r.wildcard - length wild) in
    let r' = record r {
      literal = drop_empty (retain_values keep r.literal);
      wildcard = wild;
      total = r.total - removed;
    } in
    if removed == 0 then r' else changed r'

-- The subscriptions whose filter matches `subject`, as `resolve` lists them.
unfoldable pub interested : Registry → Bytes → List Sub
unfolding get
interested r subject = get r.literal subject ++ retain (λ s. matches s.subject subject) r.wildcard

unfoldable pub matching_of : Registry → ℕ → Bytes → List Sub
unfolding get of_conn
matching_of r conn subject =
    retain (of_conn conn) (get r.literal subject)
    ++ retain (λ s. of_conn conn s && matches s.subject subject) r.wildcard

-- What one subject resolved to, kept by a publishing task; `chosen` and `groups` are scratch that is
-- cleared before each use.
pub record Interest : Type 0 where
  pub generation : ℕ
  pub subject : Bytes
  pub subs : List Sub
  pub queue : Bool

abbrev pub no_interest : Interest
no_interest = record { generation = 2 ^ 64 - 1; subject = []; subs = []; queue = false }

unfoldable pub resolve : Registry → Bytes → Interest
unfolding interested
resolve r subject = record {
  generation = r.generation;
  subject = subject;
  subs = interested r subject;
  queue = any (λ s. s.queued) (interested r subject);
}

-- The head of `route`: the cache answers unless the generation or the subject has changed.
unfoldable pub refresh : Registry → Bytes → Interest → Interest
unfolding resolve
refresh r subject i =
    if not (i.generation == r.generation) || not (equal i.subject subject)
    then resolve r subject
    else i
