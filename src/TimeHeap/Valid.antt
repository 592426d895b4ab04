-- ===== src/TimeHeap/Valid.antt =====
-- The invariant of the heap, and the multiset of the timers that it holds.
use c_model.Common.{ℕ, ◌≤◌, ◌<◌, ◌≡◌, ◌≢◌, none, some, arith}
use c_model.Array.{length, get_or, occurs, occurs-pos, occurs-index, get_elem?-get_or}
use c_model.TimeHeap.{Store, World, TimeHeap, null, remove, free, top}
use c_model.TimeHeap.Order.{IsHeapFrom, root_least}
use c_model.TimeHeap.Sift.{IsLive, Loaded, key, expire_of}

-- The array fits the heap's fields.
pub record IsSized (h : TimeHeap) : Type 0 where
  pub allocated : length h.array ≡ h.capacity
  pub bounded : h.cur_size ≤ h.capacity
  pub room : 0 < h.capacity

-- How often the heap holds a pointer.
abbrev pub held : World → ℕ → ℕ
held w p = occurs w.heap.cur_size w.heap.array p

-- The slots in use hold allocated timers, each once, in heap order, and NULL is not allocated.
pub record IsValid (w : World) : Type 0 where
  pub sized : IsSized w.heap
  pub live : (p : ℕ) → 0 < held w p → IsLive w.timers p
  pub once : (p : ℕ) → held w p ≤ 1
  pub ordered : IsHeapFrom 0 w.heap.cur_size (key w.timers w.heap.array)
  pub no_null : w.timers null ≡ none

pub IsValid-Loaded : (w : World) → IsValid w → Loaded w.timers w.heap.cur_size w.heap.array
IsValid-Loaded w v = record { fits = omega (arith, v.sized); live = v.live }

pub live-ne-null : (s : Store) (p : ℕ) → s null ≡ none → IsLive s p → p ≢ null
live-ne-null s p e (t, found) same = cc (sym_store same)
  where
    sym_store : p ≡ null → s p ≡ s null
    sym_store q = rw q

pub free-live : (s : Store) (p : ℕ) → s null ≡ none → IsLive s p → free s p ≡ some (remove s p)
unfolding free
free-live s p e (t, found) = let apart = live-ne-null s p e (t, found) in ground (arith, apart)

-- The timer in the first slot.
abbrev pub first_of_heap : World → ℕ
first_of_heap w = get_or w.heap.array 0 0

pub first-held : (w : World) → IsValid w → 0 < w.heap.cur_size → 0 < held w (first_of_heap w)
first-held w v h = occurs-pos w.heap.cur_size w.heap.array 0 h (omega (arith, v.sized))

pub first-IsLive : (w : World) → IsValid w → 0 < w.heap.cur_size → IsLive w.timers (first_of_heap w)
first-IsLive w v h = v.live (first_of_heap w) (first-held w v h)

-- No timer of a valid heap expires before the one in the first slot.
pub first_least :
    (w : World) (p : ℕ)
    → IsValid w
    → 0 < held w p
    → expire_of w.timers (first_of_heap w) ≤ expire_of w.timers p
first_least w p v h =
    let (i, below, inside, found) = occurs-index w.heap.cur_size w.heap.array p h in
    rw found at (root_least w.heap.cur_size (key w.timers w.heap.array) i v.ordered below)

-- `top` of a valid heap that holds a timer returns an allocated timer that the heap holds, and none
-- that it holds expires earlier.
pub top_earliest :
    (w : World) (q : ℕ)
    → IsValid w
    → 0 < held w q
    → (p : ℕ) × (top w.heap ≡ some p)
      × (0 < held w p)
      × IsLive w.timers p
      × (expire_of w.timers p ≤ expire_of w.timers q)
unfolding top
top_earliest w q v h =
    let (i, below, inside, found) = occurs-index w.heap.cur_size w.heap.array q h in
    let used : 0 < w.heap.cur_size = omega arith in
    (
      first_of_heap w,
      ground (arith, get_elem?-get_or w.heap.array 0 0 (omega arith)),
      first-held w v used,
      first-IsLive w v used,
      first_least w q v h,
    )
