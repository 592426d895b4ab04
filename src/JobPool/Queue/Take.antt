-- ===== src/JobPool/Queue/Take.antt =====
-- `threadpool_function`: the queue without its oldest job.
use c_model.Common.{
  suc, ◌-◌, ◌≡◌, refl, sym, List, [], ◌∷◌, some, arith, Bool, true, false, ◌==◌, Bool-cases, inl,
  inr,
}
use c_model.Array.{length}
use c_model.Run.{Returns, returns, Returns-bind}
use c_model.JobPool.{Pool, Round, waits_for_job, exits, takes, unlink_head, threadpool_function}
use c_model.JobPool.Queue.{Cell, head_of, job_with, Holds}

-- The pool without its oldest job; the store is as before, for the job is freed later.
pub record Unlinked (pool : Pool) (c : Cell) (q : List Cell) (pool' : Pool) : Type 0 where
  pub holds : Holds pool' q
  pub fewer : pool.queue_cur_num ≡ suc pool'.queue_cur_num
  pub same_max : pool'.queue_max_num ≡ pool.queue_max_num
  pub same_close : (pool'.queue_close ≡ pool.queue_close) × (pool'.pool_close ≡ pool.pool_close)
  pub same_jobs : pool'.jobs ≡ pool.jobs

-- What a round of a thread leads to: it exits if the pool is closed; it waits if there is no job; or it
-- has the oldest job, `queue_empty` is signalled if it was the last one, and `queue_not_full` if the
-- queue was full.
pub data TakenFrom (pool : Pool) : List Cell → Round → Type 0 where
  leaves : {q : List Cell} → pool.pool_close ≡ true → TakenFrom pool q exits
  must_wait : pool.pool_close ≡ false → TakenFrom pool [] waits_for_job
  oldest :
      {c : Cell} {q : List Cell} {pool' : Pool} {last full : Bool}
      → pool.pool_close ≡ false
      → last ≡ (pool'.queue_cur_num == 0)
      → full ≡ (pool.queue_cur_num == pool.queue_max_num)
      → pool.jobs c.0 ≡ some (job_with c.1 (head_of q))
      → Unlinked pool c q pool'
      → TakenFrom pool (c ∷ q) (takes c.0 last full pool')

length-head :
    (pool : Pool) (c : Cell) (q : List Cell)
    → Holds pool (c ∷ q)
    → pool.queue_cur_num - 1 ≡ length q
length-head pool c q h = omega (arith, h.counted)

Holds-tail :
    (pool : Pool) (c : Cell) (q : List Cell)
    → Holds pool (c ∷ q)
    → Returns (Unlinked pool c q) (unlink_head pool (length q))
unfolding unlink_head
Holds-tail pool c [] h = returns (record {
  holds = record {
    linked = tt;
    first = refl;
    last = refl;
    counted = refl;
    bounded = omega arith;
    once = λ r. omega arith;
    no_null = refl;
  };
  fewer = h.counted;
  same_max = refl;
  same_close = (refl, refl);
  same_jobs = refl;
})
Holds-tail pool c (d ∷ q) h =
    rw (h.first, h.linked.0)
      (returns (record {
        holds = record {
          linked = h.linked.1;
          first = refl;
          last = h.last;
          counted = refl;
          bounded = omega (arith, h.counted, h.bounded);
          once = λ r. omega (arith, h.once r);
          no_null = omega (arith, h.no_null);
        };
        fewer = h.counted;
        same_max = refl;
        same_close = (refl, refl);
        same_jobs = refl;
      }))

-- A round of `threadpool_function` waits if nothing is closed and there is no job, exits if the pool is
-- closed, and otherwise takes the oldest job, and signals `queue_empty` if it was the last one and
-- `queue_not_full` if the queue was full. It does not fault.
pub function_takes :
    (pool : Pool) (q : List Cell)
    → Holds pool q
    → Returns (TakenFrom pool q) (threadpool_function pool)
unfolding threadpool_function
function_takes pool q h = elim (Bool-cases pool.pool_close) [
  | inl closed ↦ elim (Bool-cases (pool.queue_cur_num == 0)) [
    | inl z ↦ simp (closed, z) (returns (leaves closed))
    | inr z ↦ simp (closed, z) (returns (leaves closed))
  ]
  | inr not_closed ↦ takes_or_waits pool q h not_closed
]
  where
    takes_or_waits :
        (pool : Pool) (q : List Cell)
        → Holds pool q
        → pool.pool_close ≡ false
        → Returns (TakenFrom pool q) (threadpool_function pool)
    takes_or_waits pool [] h not_closed =
        let none_there : (pool.queue_cur_num == 0) ≡ true = rw h.counted refl in
        simp (not_closed, none_there) (returns (must_wait not_closed))
    takes_or_waits pool (c ∷ q) h not_closed =
        let some_there : (pool.queue_cur_num == 0) ≡ false = ground (arith, h.counted) in
        let left : pool.queue_cur_num - 1 ≡ length q = omega (arith, h.counted) in
        let whole : suc (length q) ≡ pool.queue_cur_num = sym h.counted in
        simp (not_closed, some_there, left, whole, h.first)
          (Returns-bind (Holds-tail pool c q h) λ pool' u.
            let counted' = u.holds.counted in
            returns (oldest not_closed (rw counted' refl) refl h.linked.0 u))
