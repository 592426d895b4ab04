-- ===== src/JobPool/Outcomes.antt =====
-- What the outcomes of the sections under the mutex say.
use c_model.Common.{
  ℕ, ◌≡◌, ◌≢◌, refl, List, [], ◌∷◌, Option, none, some, arith, Bool, true, false, ◌==◌, Bool-cases,
  inl, inr,
}
use c_model.JobPool.{
  null, Task, Pool, Adding, waits_for_room, added, is_closed, threadpool_add_job, waits_for_job,
  exits, takes,
}
use c_model.JobPool.Queue.{Cell, job_with, head_of}
use c_model.JobPool.Queue.Add.{Appended, AddedTo}
use c_model.JobPool.Queue.Take.{Unlinked, TakenFrom}

pub added-inv :
    {pool pool' : Pool} {q : List Cell} {t : Task} {mem : Option ℕ} {first : Bool}
    → AddedTo pool q t mem (added first pool')
    → (p : ℕ) × (is_closed pool ≡ false)
      × (mem ≡ some p)
      × (first ≡ (pool.queue_cur_num == 0))
      × Appended pool q (p, t) pool'
added-inv (AddedTo.queued p u m f a) = (p, u, m, f, a)

pub must_wait-inv :
    {pool : Pool} {q : List Cell} {t : Task} {mem : Option ℕ}
    → AddedTo pool q t mem waits_for_room
    → (pool.queue_cur_num ≡ pool.queue_max_num) × (is_closed pool ≡ false)
must_wait-inv (AddedTo.must_wait full u) = (full, u)

pub leaves-inv : {pool : Pool} {q : List Cell} → TakenFrom pool q exits → pool.pool_close ≡ true
leaves-inv (TakenFrom.leaves closed) = closed

pub nothing-inv :
    {pool : Pool} {q : List Cell}
    → TakenFrom pool q waits_for_job
    → (q ≡ []) × (pool.pool_close ≡ false)
nothing-inv (TakenFrom.must_wait u) = (refl, u)

-- The oldest job, and what is left.
pub record Oldest (pool : Pool) (q : List Cell) (p : ℕ) (last full : Bool) (pool' : Pool)
    : Type 0 where
  pub task : Task
  pub rest : List Cell
  pub split : q ≡ (p, task) ∷ rest
  pub was_last : last ≡ (pool'.queue_cur_num == 0)
  pub was_full : full ≡ (pool.queue_cur_num == pool.queue_max_num)
  pub found : pool.jobs p ≡ some (job_with task (head_of rest))
  pub unlinked : Unlinked pool (p, task) rest pool'

pub Oldest-inv :
    {pool pool' : Pool} {q : List Cell} {p : ℕ} {last full : Bool}
    → TakenFrom pool q (takes p last full pool')
    → Oldest pool q p last full pool'
Oldest-inv (TakenFrom.oldest {c = c} {q = q} u last full found a) = record {
  task = c.1;
  rest = q;
  split = refl;
  was_last = last;
  was_full = full;
  found = found;
  unlinked = a;
}

-- The assertions of `threadpool_add_job` hold where it gets past them.
pub asserted :
    (pool : Pool) (t : Task) (mem : Option ℕ) (r : Adding)
    → threadpool_add_job pool t mem ≡ some r
    → (t.0 ≢ null) × (t.1 ≢ null)
unfolding threadpool_add_job
asserted pool t mem r e = (null_callback, null_arg)
  where
    null_callback : t.0 ≢ null
    null_callback z =
        let hit : (t.0 == null) ≡ true = ground arith in
        let gone : threadpool_add_job pool t mem ≡ none = simp hit refl in cc

    null_arg : t.1 ≢ null
    null_arg z =
        let hit : (t.1 == null) ≡ true = ground arith in
        let gone : threadpool_add_job pool t mem ≡ none = elim (Bool-cases (t.0 == null)) [
          | inl f ↦ simp f refl
          | inr f ↦ simp (f, hit) refl
        ] in
        cc
