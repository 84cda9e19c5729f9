-- ===== src/AllocStats.antt =====
-- crates/server/src/allocstats.rs with its feature on: the counters, which the allocator's calls and the
-- tagged sites advance. What the system's allocator returns goes through unchanged. A `usize` has 64 bits.
pub mod Ledger
pub mod Buckets
use nats_server_rs.Prelude.{
  ℕ, zero, suc, ◌+◌, ◌-◌, ◌/◌, ◌%◌, ◌^◌, min, Bool, List, [], ◌∷◌, ◌++◌, Bytes, ltb, ◌==◌,
  if◌then◌else◌, codes,
}
use nats_server_rs.Routing.Frame.{push_u64}

pub data Site : Type 0 where
  read_buf events frame_chunk payload subscribe control_line connection routing other : Site

-- `site as usize`
unfoldable pub site_index : Site → ℕ
site_index read_buf = 0
site_index events = 1
site_index frame_chunk = 2
site_index payload = 3
site_index subscribe = 4
site_index control_line = 5
site_index connection = 6
site_index routing = 7
site_index other = 8

abbrev pub site_count : ℕ
site_count = 9

-- NAMES
abbrev pub site_names : List Bytes
site_names =
    codes "read_buf"
    ∷ codes "events"
    ∷ codes "frame_chunk"
    ∷ codes "payload"
    ∷ codes "subscribe"
    ∷ codes "control_line"
    ∷ codes "connection"
    ∷ codes "routing"
    ∷ codes "other"
    ∷ []

-- HIST_BUCKETS
abbrev pub hist_buckets : ℕ
hist_buckets = 28

-- The statics: ALLOCS, BYTES, LIVE, COUNTERS and HIST.
pub record Stats : Type 0 where
  pub allocs : ℕ
  pub bytes : ℕ
  pub live : ℕ
  pub counters : List ℕ
  pub buckets : List ℕ

unfoldable pub zeros : ℕ → List ℕ
zeros zero = []
zeros (suc n) = 0 ∷ zeros n

unfoldable pub fresh : Stats
unfolding zeros
fresh = record {
  allocs = 0;
  bytes = 0;
  live = 0;
  counters = zeros site_count;
  buckets = zeros hist_buckets;
}

-- `fetch_add` and `fetch_sub` of an `AtomicU64`.
abbrev pub fetch_add : ℕ → ℕ → ℕ
fetch_add old n = (old + n) % 2 ^ 64

abbrev pub fetch_sub : ℕ → ℕ → ℕ
fetch_sub old n = (old + (2 ^ 64 - n % 2 ^ 64)) % 2 ^ 64

-- One more at an index; there is none behind the list's end.
unfoldable pub count_at : ℕ → List ℕ → List ℕ
count_at i [] = []
count_at zero (n ∷ ns) = fetch_add n 1 ∷ ns
count_at (suc i) (n ∷ ns) = n ∷ count_at i ns

unfoldable pub tag : Site → Stats → Stats
unfolding site_index count_at
tag site s = record s { counters = count_at (site_index site) s.counters }

-- `usize::BITS - size.leading_zeros()`, for a size of at most `fuel` bits.
unfoldable pub bit_length : ℕ → ℕ → ℕ
bit_length zero size = 0
bit_length (suc fuel) size =
    let rest = bit_length fuel (size / 2) in if size == 0 then 0 else suc rest

unfoldable pub bucket : ℕ → ℕ
unfolding bit_length
bucket size = min (bit_length 64 size) (hist_buckets - 1)

unfoldable pub hist : ℕ → Stats → Stats
unfolding bucket count_at
hist size s = record s { buckets = count_at (bucket size) s.buckets }

-- The macro `count!`, which `alloc` and `alloc_zeroed` call.
unfoldable pub counted : ℕ → Stats → Stats
unfolding hist
counted size s = record (hist size s) {
  allocs = fetch_add s.allocs 1;
  bytes = fetch_add s.bytes size;
  live = fetch_add s.live size;
}

unfoldable pub dealloc : ℕ → Stats → Stats
dealloc size s = record s { live = fetch_sub s.live size }

unfoldable pub realloc : ℕ → ℕ → Stats → Stats
realloc size new_size s = record s {
  allocs = fetch_add s.allocs 1;
  bytes = fetch_add s.bytes new_size;
  live = fetch_sub (fetch_add s.live new_size) size;
}

-- `tag_line`
unfoldable pub tag_items : List Bytes → List ℕ → Bytes
unfolding push_u64
tag_items (name ∷ names) (n ∷ counts) =
    b' ' ∷ (name ++ (b'=' ∷ (push_u64 n ++ tag_items names counts)))
tag_items _ _ = []

unfoldable pub tag_line : Stats → Bytes
unfolding tag_items codes
tag_line s = codes "alloctags" ++ tag_items site_names s.counters

-- `hist_line`, from the bucket's index on.
unfoldable pub hist_items : ℕ → List ℕ → Bytes
unfolding push_u64
hist_items i [] = []
hist_items i (n ∷ counts) =
    let rest = hist_items (suc i) counts in
    if n == 0 then rest else b' ' ∷ b'2' ∷ b'^' ∷ (push_u64 i ++ (b'=' ∷ (push_u64 n ++ rest)))

unfoldable pub or_none : Bytes → Bytes
unfolding codes
or_none [] = codes " (empty)"
or_none (c ∷ s) = c ∷ s

unfoldable pub hist_line : Stats → Bytes
unfolding hist_items or_none codes
hist_line s = codes "allochist" ++ or_none (hist_items 0 s.buckets)

unfoldable pub sum : List ℕ → ℕ
sum [] = 0
sum (n ∷ ns) = n + sum ns

-- The difference of two `i64`, and its `unsigned_abs`.
unfoldable pub distance : ℕ → ℕ
distance d = if ltb d (2 ^ 63) then d else 2 ^ 64 - d

unfoldable pub untagged : Stats → ℕ
unfolding sum distance
untagged s = distance (fetch_sub s.allocs (sum s.counters))
