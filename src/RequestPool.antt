-- ===== src/RequestPool.antt =====
-- threadpool/ThreadPool(C++)/threadpool.h and locker.h: threads that take requests from a list behind a
-- mutex, and a semaphore that counts them.
-- A request is a pointer that the pool does not follow, a number, and NULL is 0. What a method does
-- under the mutex is one function here. The calls of pthread_mutex_lock, sem_post and sem_wait do not
-- fail; `sem_wait` blocks while the semaphore is 0.
pub mod Steps
pub mod Keeps
pub mod Progress
mod Tests
use c_model.Common.{
  ℕ, zero, suc, ◌+◌, List, [], ◌∷◌, ◌++◌, Option, none, some, Bool, true, false, ltb, ◌==◌,
  if◌then◌else◌,
}
use c_model.Array.{length}

pub record RequestPool : Type 0 where
  pub m_thread_number : ℕ
  pub m_max_requests : ℕ
  pub m_workqueue : List ℕ
  -- the value of the semaphore
  pub m_queuestat : ℕ
  pub m_stop : Bool

-- What the constructor leads to: an exception, when so many threads have been started, or a pool.
pub data Constructed : Type 0 where
  thrown : ℕ → Constructed
  made : RequestPool → Constructed

-- The rounds of the loop from `i` on. `calls` says whether `pthread_create` and `pthread_detach`
-- succeed; `none` is that all rounds do.
unfoldable pub start_from : ℕ → ℕ → (ℕ → Bool × Bool) → Option ℕ
start_from zero i calls = none
start_from (suc k) i calls =
    let rest = start_from k (suc i) calls in
    if (calls i).0 then if (calls i).1 then rest else some (suc i) else some i

-- The constructor, of numbers that are not negative.
unfoldable pub new_request_pool : ℕ → ℕ → (ℕ → Bool × Bool) → Constructed
unfolding start_from
new_request_pool thread_number max_requests calls =
    if thread_number == 0
    then thrown 0
    else if max_requests == 0
    then thrown 0
    else elim (start_from thread_number 0 calls) [
      | some n ↦ thrown n
      | none ↦ made (record {
        m_thread_number = thread_number;
        m_max_requests = max_requests;
        m_workqueue = [];
        m_queuestat = 0;
        m_stop = false;
      })
    ]

-- The destructor sets the flag.
unfoldable pub stop : RequestPool → RequestPool
stop pool = record pool { m_stop = true }

-- `append` under the mutex; `none` is that it returns false.
unfoldable pub append : RequestPool → ℕ → Option RequestPool
append pool request =
    if ltb pool.m_max_requests (length pool.m_workqueue)
    then none
    else some (record pool { m_workqueue = pool.m_workqueue ++ request ∷ [] })

-- `m_queuestat.post()` and `m_queuestat.wait()`, which blocks where this is `none`.
unfoldable pub post : RequestPool → RequestPool
post pool = record pool { m_queuestat = suc pool.m_queuestat }

abbrev pub lowered : RequestPool → ℕ → Option RequestPool
lowered pool zero = none
lowered pool (suc n) = some (record pool { m_queuestat = n })

unfoldable pub wait : RequestPool → Option RequestPool
wait pool = lowered pool pool.m_queuestat

-- What `run` does under the mutex: it takes the first request, or `none` if there is none.
abbrev pub without_first : RequestPool → List ℕ → Option (ℕ × RequestPool)
without_first pool [] = none
without_first pool (r ∷ q) = some (r, record pool { m_workqueue = q })

unfoldable pub take_request : RequestPool → Option (ℕ × RequestPool)
take_request pool = without_first pool pool.m_workqueue
