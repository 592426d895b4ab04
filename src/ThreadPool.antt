-- ===== src/ThreadPool.antt =====
-- threadpool/threadpool(C Implement+plus)/threadpool.c, threadpool.h and threadpoolmacro.h: a pool of
-- threads that take tasks from a bounded ring, under one mutex and one condition variable.
-- Each section that the mutex protects is one step here. `thiz` is not NULL: the tests for that only
-- return. A block that `malloc` returns has contents that the caller of the model gives; the mutex and
-- the condition variable are made without a failure, and `pthread_join` returns. A dangling pointer to a block is `none`, and so is
-- the identifier of a thread that nothing has been written to: reading either faults (`Run`).
-- `int` is unbounded, which is enough: all numbers stay below `max_task_num` + 2.
pub mod Ring
pub mod Threads
pub mod Workers
mod Tests
use c_model.Common.{
  ℕ, zero, suc, ◌+◌, ◌-◌, List, [], ◌∷◌, ◌++◌, Option, none, some, ltb, ◌==◌, if◌then◌else◌, ℤ, pos,
  negsuc,
}
use c_model.Array.{get_elem?, replicate, set, store}
use c_model.Run.{◌>>=◌}

-- A task: its function and the function's argument.
abbrev pub Task : Type 0
Task = ℕ × ℕ

pub record ThreadPool : Type 0 where
  pub threadnum_ : ℕ
  pub thread_ : List (Option ℕ)
  pub task_queue_ : Option (List ℕ)
  pub task_fun_ : Option (List ℕ)
  pub start : ℕ
  pub end : ℕ
  pub curr_task_num : ℕ
  pub max_task_num : ℕ

-- MAX_THREAD_NUM and MIN_THREAD_NUM
abbrev pub max_thread_num : ℕ
max_thread_num = 256

abbrev pub min_thread_num : ℕ
min_thread_num = 1

-- `if (++i > max_task_num) i = 1;`
unfoldable pub advance : ℕ → ℕ → ℕ
advance max_task_num i = if ltb max_task_num (suc i) then 1 else suc i

-- `block[i]` and `block[i] = v`
unfoldable pub load_from : Option (List ℕ) → ℕ → Option ℕ
load_from block i = block >>= λ a. get_elem? a i

unfoldable pub store_in : Option (List ℕ) → ℕ → ℕ → Option (Option (List ℕ))
unfolding store
store_in block i v = block >>= λ a. store a i v >>= λ b. some (some b)

-- The result, and the pool; the signal is part of the steps in Workers.
unfoldable pub threadpool_add_task : ThreadPool → ℕ → ℕ → Option (ℤ × ThreadPool)
unfolding advance store_in
threadpool_add_task thiz task_fun arg =
    if ltb thiz.max_task_num (thiz.curr_task_num + 2)
    then some (negsuc 0, thiz)
    else store_in thiz.task_queue_ thiz.end arg >>= λ args.
        store_in thiz.task_fun_ thiz.end task_fun >>= λ funs. some (
          pos 0,
          record thiz {
            curr_task_num = suc thiz.curr_task_num;
            task_queue_ = args;
            task_fun_ = funs;
            end = advance thiz.max_task_num thiz.end;
          },
        )

-- What one round of the loop in `threadpool_excute_task` does while it has the mutex: it takes a task,
-- or finds none and waits.
unfoldable pub threadpool_excute_task : ThreadPool → Option (Option Task × ThreadPool)
unfolding advance load_from
threadpool_excute_task thiz =
    if ltb 0 thiz.curr_task_num
    then (load_from thiz.task_queue_ thiz.start >>= λ tmp_arg.
        load_from thiz.task_fun_ thiz.start >>= λ task_fun. some (
          some (task_fun, tmp_arg),
          record thiz {
            start = advance thiz.max_task_num thiz.start;
            curr_task_num = thiz.curr_task_num - 1;
          },
        ))
    else some (none, thiz)

-- `thread_[i]`
unfoldable pub thread_at : List (Option ℕ) → ℕ → Option ℕ
thread_at thread_ i = get_elem? thread_ i >>= λ th. th

-- The loop of `threadpool_stop_all_task` from `i` on, and the threads that it cancels and joins.
unfoldable pub stop_from : ℕ → ℕ → List (Option ℕ) → Option (List ℕ)
unfolding thread_at
stop_from zero i thread_ = some []
stop_from (suc k) i thread_ =
    let rest = stop_from k (suc i) thread_ in
    thread_at thread_ i >>= λ th. rest >>= λ ths. some (th ∷ ths)

unfoldable pub threadpool_stop_all_task : ThreadPool → Option (List ℕ × ThreadPool)
unfolding stop_from thread_at store
threadpool_stop_all_task thiz = thread_at thiz.thread_ 0 >>= λ count.
    stop_from count 1 thiz.thread_ >>= λ stopped.
    store thiz.thread_ 0 (some 0) >>= λ t. some (stopped, record thiz { thread_ = t })

-- The two calls of `free` with which `threadpool_destroy` begins.
unfoldable pub free_queues : ThreadPool → ThreadPool
free_queues thiz = record thiz { task_queue_ = none; task_fun_ = none }

-- The threads that are stopped. The pool itself is gone after it.
unfoldable pub threadpool_destroy : ThreadPool → Option (List ℕ)
unfolding free_queues threadpool_stop_all_task
threadpool_destroy thiz = threadpool_stop_all_task (free_queues thiz) >>= λ r. some r.0

-- The loop of `threadpool_create` with `i` threads made. `create i` is what `pthread_create` gives then:
-- the thread, or `none` when it fails. The result is `none` for NULL.
unfoldable pub create_from : ℕ → (ℕ → Option ℕ) → ℕ → ThreadPool → Option (Option ThreadPool)
unfolding threadpool_destroy store
create_from zero create i tmp = some (some tmp)
create_from (suc thread_num) create i tmp =
    let rest : List (Option ℕ) → Option (Option ThreadPool) =
      λ t. create_from thread_num create (suc i) (record tmp { thread_ = t }) in
    elim (create i) [
      | none ↦ threadpool_destroy tmp >>= λ _. some none
      | some th ↦ store tmp.thread_ (suc i) (some th) >>= rest
    ]

-- The number of threads that `threadpool_create` goes on with.
unfoldable pub clamped : ℕ → ℕ
clamped thread_num = if ltb thread_num min_thread_num then min_thread_num else thread_num

-- The pool before the first thread is made, its queues in the blocks `args` and `funs`.
unfoldable pub initial : ℕ → ℕ → List ℕ → List ℕ → ThreadPool
initial thread_num max_task_num args funs = record {
  threadnum_ = thread_num;
  thread_ = some thread_num ∷ replicate max_thread_num none;
  task_queue_ = some args;
  task_fun_ = some funs;
  start = 0;
  end = 0;
  curr_task_num = 0;
  max_task_num = max_task_num;
}

unfoldable pub threadpool_create :
    ℤ → ℕ → (ℕ → Option ℕ) → List ℕ → List ℕ → Option (Option ThreadPool)
unfolding create_from clamped initial
threadpool_create (negsuc n) max_task_num create args funs = some none
threadpool_create (pos n) max_task_num create args funs =
    if ltb max_thread_num n
    then some none
    else create_from (clamped n) create 0 (initial (clamped n) max_task_num args funs)
