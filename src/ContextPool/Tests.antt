-- ===== src/ContextPool/Tests.antt =====
-- Runs of the pool of contexts, and its theorems at concrete inputs.
use c_model.Common.{
  ℕ, zero, suc, ◌<◌, ◌≡◌, ◌≢◌, refl, List, [], ◌∷◌, some, arith, true, false, pos, negsuc,
}
use c_model.Array.{count, replicate, store}
use c_model.Run.{◌>>=◌, Returns}
use c_model.ContextPool.{
  ConnContext, ContextPool, init_pool, alloc_context, free_context, reset, link_from, set_next_idx,
  to_index,
}
use c_model.ContextPool.FreeList.{no_context, context_at, Valid}
use c_model.ContextPool.Alloc.{alloc_context-free_context}

abbrev block : List ConnContext
block = replicate 3 no_context

-- Context 1 is in use; 2 and 0 are not, and 2 comes first.
abbrev mixed : ContextPool
mixed = record {
  total = 3;
  allocated = 1;
  next_idx = pos 2;
  arr =
      no_context ∷ record no_context { pool = true } ∷ record no_context { next_idx = pos 0 } ∷ [];
}

mixed-Valid : Valid mixed (2 ∷ 0 ∷ []) (1 ∷ [])
mixed-Valid = record {
  size = refl;
  linked = (refl, omega arith, (refl, omega arith, refl));
  once = λ q. ground arith;
  allocated = refl;
  unallocated = refl;
  owned = mixed_owned;
}
  where
    mixed_owned : (q : ℕ) → 0 < count q (1 ∷ []) → (context_at mixed.arr q).pool ≡ true
    mixed_owned zero h = absurd (ground arith)
    mixed_owned (suc zero) h = refl
    mixed_owned (suc (suc q)) h = absurd (ground arith)

alloc_context-free_context_example :
    Returns
      (λ r.
        (r.0 ≡ 1)
        × (context_at r.1.arr 1 ≡ record (context_at mixed.arr 1) {
          fd = 0;
          fd_added = false;
          end_fd = 0;
          end_fd_added = false;
          next_idx = negsuc 0;
          pool = true;
        })
        × ((q : ℕ) → 1 ≢ q → context_at r.1.arr q ≡ context_at mixed.arr q))
      (free_context mixed 1 >>= alloc_context)
alloc_context-free_context_example =
    alloc_context-free_context mixed 1 (2 ∷ 0 ∷ []) (1 ∷ []) mixed-Valid (omega arith)

-- All three contexts are handed out in order, and a fourth call ends the program.
three_and_no_more :
    (init_pool 3 block >>= λ p.
    alloc_context p >>= λ r. alloc_context r.1 >>= λ s. alloc_context s.1 >>= λ t. some t.0)
    ≡ some 2
unfolding init_pool alloc_context link_from set_next_idx to_index reset store
three_and_no_more = refl
