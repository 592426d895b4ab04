-- ===== src/JobPool.antt =====
-- threadpool/threadpool(C Implement)/threadpool.c: threads that run jobs from a linked queue, with
-- clients that wait while the queue is full and a shutdown that waits until it is empty.
-- A pointer is a number and 0 is NULL; the jobs stand in a store. A read or write through a pointer
-- that is not allocated faults (`Run`), and so does a failed assertion. What a function does under the
-- mutex, up to the next `pthread_cond_wait` or `pthread_mutex_unlock`, is one function here; its result
-- says which of the two comes, and which condition variables are signalled. The numbers of threads and
-- of jobs are not negative.
use c_model.Common.{
  ℕ, zero, suc, ◌+◌, ◌-◌, List, [], ◌∷◌, Option, none, some, Bool, true, false, not, ◌&&◌, ◌||◌,
  ◌==◌, if◌then◌else◌,
}
use c_model.Run.{◌>>=◌}
pub mod Queue
pub mod System
pub mod Waiters
pub mod Owners
pub mod Outcomes
pub mod Valid
pub mod Moves
pub mod Shutdown
pub mod Reach
mod Tests

abbrev pub null : ℕ
null = 0

-- A callback and its argument.
abbrev pub Task : Type 0
Task = ℕ × ℕ

pub record Job : Type 0 where
  pub callback_function : ℕ
  pub arg : ℕ
  pub next : ℕ

abbrev pub Store : Type 0
Store = ℕ → Option Job

-- `*p = j`, an allocation or an update.
abbrev pub write : Store → ℕ → Job → Store
write s p j q = if p == q then some j else s q

abbrev pub remove : Store → ℕ → Store
remove s p q = if p == q then none else s q

-- `struct threadpool`, with the store that its pointers lead into.
pub record Pool : Type 0 where
  pub thread_num : ℕ
  pub queue_max_num : ℕ
  pub head : ℕ
  pub tail : ℕ
  pub queue_cur_num : ℕ
  pub queue_close : Bool
  pub pool_close : Bool
  pub jobs : Store

-- The calls that may fail, in order: of `malloc` for the pool, of `pthread_mutex_init`, three times of
-- `pthread_cond_init`, and of `malloc` for the threads.
abbrev pub all_succeed : List Bool → Bool
all_succeed [] = true
all_succeed (ok ∷ calls) = ok && all_succeed calls

unfoldable pub threadpool_init : ℕ → ℕ → List Bool → Store → Option Pool
threadpool_init thread_num queue_max_num calls jobs =
    if all_succeed calls
    then some (record {
      thread_num = thread_num;
      queue_max_num = queue_max_num;
      head = null;
      tail = null;
      queue_cur_num = 0;
      queue_close = false;
      pool_close = false;
      jobs = jobs;
    })
    else none

-- What comes of an attempt to add a job: the client waits for `queue_not_full`, or -1 is returned, or
-- the job is in the queue, and `queue_not_empty` is signalled to all or not.
pub data Adding : Type 0 where
  waits_for_room refused : Adding
  added : Bool → Pool → Adding

abbrev pub is_closed : Pool → Bool
is_closed pool = pool.queue_close || pool.pool_close

-- `p->next = q`
unfoldable pub set_next : Store → ℕ → ℕ → Option Store
set_next s p q = s p >>= λ j. some (write s p (record j { next = q }))

-- The job, where `malloc` returned this pointer.
unfoldable pub append_job : Pool → Task → Option ℕ → Option Adding
unfolding set_next
append_job pool t none = some refused
append_job pool t (some p) =
    let job : Job = record { callback_function = t.0; arg = t.1; next = null } in
    if pool.head == null
    then some (
        added true (record pool {
          head = p;
          tail = p;
          queue_cur_num = suc pool.queue_cur_num;
          jobs = write pool.jobs p job;
        }))
    else set_next (write pool.jobs p job) pool.tail p >>= λ s.
        some
          (added false (record pool { tail = p; queue_cur_num = suc pool.queue_cur_num; jobs = s }))

unfoldable pub threadpool_add_job : Pool → Task → Option ℕ → Option Adding
unfolding append_job
threadpool_add_job pool t mem =
    if t.0 == null
    then none
    else if t.1 == null
    then none
    else if (pool.queue_cur_num == pool.queue_max_num) && not (is_closed pool)
    then some waits_for_room
    else if is_closed pool
    then some refused
    else append_job pool t mem

-- What comes of a round of a thread: it waits for `queue_not_empty`, or it exits, or it has the job at
-- a pointer, and `queue_empty` is signalled or not, and `queue_not_full` to all or not.
pub data Round : Type 0 where
  waits_for_job exits : Round
  takes : ℕ → Bool → Bool → Pool → Round

-- The job leaves the queue, which has this many jobs then.
unfoldable pub unlink_head : Pool → ℕ → Option Pool
unlink_head pool zero = some (record pool { queue_cur_num = 0; head = null; tail = null })
unlink_head pool (suc n) =
    pool.jobs pool.head >>= λ j. some (record pool { queue_cur_num = suc n; head = j.next })

unfoldable pub threadpool_function : Pool → Option Round
unfolding unlink_head
threadpool_function pool =
    let left = pool.queue_cur_num - 1 in
    if (pool.queue_cur_num == 0) && not pool.pool_close
    then some waits_for_job
    else if pool.pool_close
    then some exits
    else unlink_head pool left >>= λ p.
        some (takes pool.head (left == 0) (suc left == pool.queue_max_num) p)

-- The thread reads the callback and its argument from the job.
unfoldable pub call_of : Pool → ℕ → Option Task
call_of pool p = pool.jobs p >>= λ j. some (j.callback_function, j.arg)

-- `free(pjob)`
unfoldable pub free_job : Pool → ℕ → Option Pool
free_job pool p = pool.jobs p >>= λ j. some (record pool { jobs = remove pool.jobs p })

-- What comes of the test in `threadpool_destroy`: it waits for `queue_empty`, or goes on.
pub data Closing : Type 0 where
  waits_for_empty goes_on already_closed : Pool → Closing

unfoldable pub await_empty : Pool → Closing
await_empty pool =
    if pool.queue_cur_num == 0
    then goes_on (record pool { pool_close = true })
    else waits_for_empty pool

-- `threadpool_destroy` up to the first wait or unlock.
unfoldable pub threadpool_destroy : Pool → Closing
unfolding await_empty
threadpool_destroy pool =
    if is_closed pool then already_closed pool else await_empty (record pool { queue_close = true })

-- The last loop of `threadpool_destroy`, on fuel.
unfoldable pub free_queue : ℕ → Pool → Option Pool
unfolding free_job
free_queue zero pool = none
free_queue (suc k) pool =
    let rest = pool.jobs pool.head >>= λ j.
    free_job pool pool.head >>= λ p. free_queue k (record p { head = j.next }) in
    if pool.head == null then some pool else rest
