-- ===== src/AllocStats/Ledger.antt =====
-- The counter LIVE of crates/server/src/allocstats.rs against the blocks that are in use.
use nats_server_rs.Prelude.{ℕ, ◌+◌, ◌%◌, ◌^◌, List, [], ◌∷◌, ◌++◌, arith, ◌≡◌, refl}
use nats_server_rs.AllocStats.{Stats, sum, counted, dealloc, realloc, tag, Site}

-- A call of the allocator or of `tag`, with the sizes of the blocks in use before and behind it.
pub data Step : Stats → List ℕ → Stats → List ℕ → Type 0 where
  allocated : (s : Stats) (bs : List ℕ) (size : ℕ) → Step s bs (counted size s) (size ∷ bs)
  freed :
      (s : Stats) (bs cs : List ℕ) (size : ℕ) → Step s (bs ++ size ∷ cs) (dealloc size s) (bs ++ cs)
  resized :
      (s : Stats) (bs cs : List ℕ) (size new_size : ℕ)
      → Step s (bs ++ size ∷ cs) (realloc size new_size s) (bs ++ new_size ∷ cs)
  tagged : (s : Stats) (bs : List ℕ) (site : Site) → Step s bs (tag site s) bs

pub data Runs : Stats → List ℕ → Stats → List ℕ → Type 0 where
  done : (s : Stats) (bs : List ℕ) → Runs s bs s bs
  go :
      {s s' s'' : Stats} {bs bs' bs'' : List ℕ}
      → Step s bs s' bs'
      → Runs s' bs' s'' bs''
      → Runs s bs s'' bs''

sum-insert : (bs cs : List ℕ) (n : ℕ) → sum (bs ++ n ∷ cs) ≡ n + sum (bs ++ cs)
unfolding sum
sum-insert [] cs n = refl
sum-insert (b ∷ bs) cs n = omega (arith, sum-insert bs cs n)

live-Step :
    {s s' : Stats} {bs bs' : List ℕ}
    → Step s bs s' bs'
    → s.live ≡ sum bs % 2 ^ 64
    → s'.live ≡ sum bs' % 2 ^ 64
unfolding counted dealloc realloc tag sum
live-Step (allocated s bs size) h = omega arith
live-Step (freed s bs cs size) h = omega (arith, sum-insert bs cs size)
live-Step (resized s bs cs size new_size) h =
    omega (arith, sum-insert bs cs size, sum-insert bs cs new_size)
live-Step (tagged s bs site) h = h

-- Through any allocations, frees of a block in use, reallocations of one and tagged sites, the
-- counter LIVE stays the sum of the sizes of the blocks in use, modulo 2^64.
pub live-Runs :
    {s s' : Stats} {bs bs' : List ℕ}
    → Runs s bs s' bs'
    → s.live ≡ sum bs % 2 ^ 64
    → s'.live ≡ sum bs' % 2 ^ 64
live-Runs (done s bs) h = h
live-Runs (go step rest) h = live-Runs rest (live-Step step h)
