-- ===== src/ThreadPool/Tests.antt =====
-- Runs of the pool, and its theorems at concrete inputs.
use c_model.Common.{
  ℕ, zero, suc, ◌+◌, ◌≤◌, ◌<◌, ◌≡◌, refl, List, [], ◌∷◌, Option, none, some, arith, pos, negsuc,
}
use c_model.Array.{length, get_or, replicate, get_or-replicate, store}
use c_model.Run.{◌>>=◌, Returns}
use c_model.ThreadPool.{
  ThreadPool, threadpool_add_task, threadpool_excute_task, initial, advance, load_from, store_in,
}
use c_model.ThreadPool.Ring.{
  Holds, Added, Taken, add_task_enqueues, excute_task_dequeues, nth_index, no_task,
}
use c_model.ThreadPool.Threads.{Made, Created, initial-Created}
use c_model.ThreadPool.Workers.{
  ready, System, Valid, Reachable, at_start, further, adds, waits, woken, started_up, Created-Valid,
  Reachable-Valid, CanServe, tasks_served,
}

abbrev block : List ℕ
block = 9 ∷ 9 ∷ 9 ∷ 9 ∷ []

abbrev thread_name : ℕ → ℕ
thread_name i = 7 + i

abbrev make_thread : ℕ → Option ℕ
make_thread i = some (thread_name i)

abbrev two_threads : List (Option ℕ)
two_threads = some 2 ∷ some 7 ∷ some 8 ∷ replicate 254 none

two_threads-Made : Made 2 thread_name 2 two_threads
two_threads-Made = record { size = refl; number = refl; made = two_made; unset = none_else }
  where
    two_made : (j : ℕ) → j < 2 → get_or two_threads (suc j) none ≡ some (thread_name j)
    two_made zero h = refl
    two_made (suc zero) h = refl
    two_made (suc (suc j)) h = absurd (omega arith)

    none_else : (j : ℕ) → 2 ≤ j → get_or two_threads (suc j) none ≡ none
    none_else zero h = absurd (omega arith)
    none_else (suc zero) h = absurd (omega arith)
    none_else (suc (suc j)) h = get_or-replicate 254 j none

abbrev pool : ThreadPool
pool = record (initial 2 3 block block) { thread_ = two_threads }

pool-Created : Created 2 thread_name 3 pool
pool-Created = initial-Created 2 3 block block thread_name two_threads refl refl two_threads-Made

pool-Holds : Holds pool []
pool-Holds = pool-Created.no_task

-- The pool's limit of 3 lets two tasks in, and refuses the third.
two_fit :
    (threadpool_add_task pool 1 10 >>= λ r.
    threadpool_add_task r.1 2 20 >>= λ s. threadpool_add_task s.1 3 30 >>= λ t. some t.0)
    ≡ some (negsuc 0)
unfolding threadpool_add_task initial advance store_in store
two_fit = refl

-- A thread takes the first of them.
first_taken :
    (threadpool_add_task pool 1 10 >>= λ r.
    threadpool_add_task r.1 2 20 >>= λ s. threadpool_excute_task s.1 >>= λ t. some t.0)
    ≡ some (some (1, 10))
unfolding threadpool_add_task threadpool_excute_task initial advance load_from store_in store
first_taken = refl

add_task_enqueues_example : Returns (Added pool [] (1, 10)) (threadpool_add_task pool 1 10)
add_task_enqueues_example = add_task_enqueues pool [] 1 10 pool-Holds

-- The pool with one task.
abbrev loaded : ThreadPool
loaded = record pool {
  task_queue_ = some (10 ∷ 9 ∷ 9 ∷ 9 ∷ []);
  task_fun_ = some (1 ∷ 9 ∷ 9 ∷ 9 ∷ []);
  curr_task_num = 1;
  end = 1;
}

added : threadpool_add_task pool 1 10 ≡ some (pos 0, loaded)
unfolding threadpool_add_task initial advance store_in store
added = refl

abbrev system : System
system = started_up 2 pool

system-Valid : Valid system
system-Valid = Created-Valid 2 3 thread_name pool (omega arith) pool-Created

-- Thread 0 waits; a client adds a task, which wakes it.
abbrev woken_up : System
woken_up = record {
  pool = loaded;
  workers = ready ∷ ready ∷ [];
  accepted = (1, 10) ∷ [];
  started = [];
}

finds_nothing : threadpool_excute_task pool ≡ some (none, pool)
unfolding threadpool_excute_task initial
finds_nothing = refl

woken_up-Reachable : Reachable system woken_up
woken_up-Reachable =
    further (further at_start (waits 0 (omega arith) refl finds_nothing))
      (adds (1, 10) added (woken 0 (omega arith) refl))

Reachable-Valid_example : Valid woken_up
Reachable-Valid_example = Reachable-Valid system woken_up system-Valid woken_up-Reachable

loaded-Holds : Holds loaded ((1, 10) ∷ [])
unfolding initial nth_index
loaded-Holds = record {
  args = 10 ∷ 9 ∷ 9 ∷ 9 ∷ [];
  funs = 1 ∷ 9 ∷ 9 ∷ 9 ∷ [];
  queue = refl;
  functions = refl;
  size = refl;
  sizes = refl;
  from = omega arith;
  counted = refl;
  bounded = omega arith;
  until = refl;
  arg_at = first_arg;
  fun_at = first_fun;
}
  where
    first_arg :
        (k : ℕ)
        → k < 1
        → get_or (10 ∷ 9 ∷ 9 ∷ 9 ∷ []) (nth_index 3 0 k) 0 ≡ (get_or ((1, 10) ∷ []) k no_task).1
    first_arg zero h = refl
    first_arg (suc k) h = absurd (omega arith)

    first_fun :
        (k : ℕ)
        → k < 1
        → get_or (1 ∷ 9 ∷ 9 ∷ 9 ∷ []) (nth_index 3 0 k) 0 ≡ (get_or ((1, 10) ∷ []) k no_task).0
    first_fun zero h = refl
    first_fun (suc k) h = absurd (omega arith)

excute_task_dequeues_example : Returns (Taken loaded ((1, 10) ∷ [])) (threadpool_excute_task loaded)
excute_task_dequeues_example = excute_task_dequeues loaded ((1, 10) ∷ []) loaded-Holds

tasks_served_example : (i : ℕ) × (i < length woken_up.workers) × CanServe woken_up i
tasks_served_example =
    tasks_served 2 3 thread_name pool (omega arith) pool-Created woken_up woken_up-Reachable
      (omega arith)
