-- ===== src/ContextPool.antt =====
-- mult_process_server/context.c and context.h: the pool of connection contexts of a worker process, an
-- array with the unused contexts linked by their indices.
-- A context is its index in `arr`. A failed `assert` ends the program and is a fault (`Run`), as is an
-- index outside the array. `int` is unbounded: all numbers stay below `total` + 1. Of the fields that
-- context.c does not touch, `ep_fd` and `cpu_id` are left out, for all contexts of a worker agree on
-- them, and `events` is an argument of the handlers; `fd_added` and `end_fd_added` are flags. `malloc`
-- succeeds, and the contents of its block are given.
pub mod FreeList
pub mod Alloc
mod Tests
use c_model.Common.{
  ℕ, zero, suc, ◌+◌, ◌-◌, List, Option, none, some, Bool, true, false, ltb, ◌==◌, if◌then◌else◌, ℤ,
  pos, negsuc,
}
use c_model.Array.{get_elem?, store}
use c_model.Run.{◌>>=◌}

-- The functions that `handler` may point to: `process_accept`, those of web_server.c, and those of
-- proxy_server.c.
pub data Handler : Type 0 where
  accepting : Handler
  reading writing : Handler
  reading_frontend writing_backend reading_backend writing_frontend : Handler

pub record ConnContext : Type 0 where
  pub fd : ℕ
  pub fd_added : Bool
  pub end_fd : ℕ
  pub end_fd_added : Bool
  -- whether PROXY_BACKEND_EVENT is set
  pub flags : Bool
  pub handler : Handler
  pub data_len : ℕ
  -- whether `pool` has been made to point to the pool
  pub pool : Bool
  pub next_idx : ℤ
  pub buf : List ℕ
  -- the addresses of the back-end servers, `pa_num` of them
  pub pa : List ℕ
  pub enable_proxy : Bool

pub record ContextPool : Type 0 where
  pub total : ℕ
  pub allocated : ℕ
  pub next_idx : ℤ
  pub arr : List ConnContext

-- `arr[i].next_idx = v`
unfoldable pub set_next_idx : List ConnContext → ℕ → ℤ → Option (List ConnContext)
unfolding store
set_next_idx arr i v = get_elem? arr i >>= λ c. store arr i (record c { next_idx = v })

-- The loop of `init_pool` over `k` indices from `i` on.
unfoldable pub link_from : ℕ → ℕ → List ConnContext → Option (List ConnContext)
unfolding set_next_idx
link_from zero i arr = some arr
link_from (suc k) i arr =
    let rest = λ (a : List ConnContext). link_from k (suc i) a in
    set_next_idx arr i (pos (suc i)) >>= rest

-- `init_pool`, where `malloc` gives the block `arr`.
unfoldable pub init_pool : ℕ → List ConnContext → Option ContextPool
unfolding link_from set_next_idx
init_pool size arr =
    if ltb 0 size
    then (link_from (size - 1) 0 arr >>= λ a. set_next_idx a (size - 1) (negsuc 0) >>= λ b.
        some (record { total = size; allocated = 0; next_idx = pos 0; arr = b }))
    else none

-- An index into the array.
unfoldable pub to_index : ℤ → Option ℕ
to_index (pos i) = some i
to_index (negsuc i) = none

-- A context as `alloc_context` hands it out.
unfoldable pub reset : ConnContext → ConnContext
reset c = record c {
  fd = 0;
  fd_added = false;
  end_fd = 0;
  end_fd_added = false;
  next_idx = negsuc 0;
  pool = true;
}

unfoldable pub alloc_context : ContextPool → Option (ℕ × ContextPool)
unfolding to_index reset store
alloc_context pool =
    if ltb pool.allocated pool.total
    then (to_index pool.next_idx >>= λ i. get_elem? pool.arr i >>= λ ret.
        store pool.arr i (reset ret) >>= λ a.
        some (i, record pool { allocated = suc pool.allocated; next_idx = ret.next_idx; arr = a }))
    else none

-- `free_context` of the context with index `i`. A context whose `pool` was never written faults.
unfoldable pub free_context : ContextPool → ℕ → Option ContextPool
free_context pool i = get_elem? pool.arr i >>= λ context.
    if context.pool
    then if ltb 0 pool.allocated
      then (set_next_idx pool.arr i pool.next_idx >>= λ a.
          some (record pool { allocated = pool.allocated - 1; next_idx = pos i; arr = a }))
      else none
    else none
