-- ===== src/JobPool/Tests.antt =====
-- Runs of the pool of jobs, and its theorems at concrete inputs.
use c_model.Common.{
  ℕ, ◌<◌, ◌≡◌, ◌≢◌, refl, List, [], ◌∷◌, none, some, arith, Bool, true, false, ◌==◌, if◌then◌else◌,
  zero, suc,
}
use c_model.Array.{get_or}
use c_model.Run.{Returns}
use c_model.JobPool.{
  Store, Pool, threadpool_add_job, threadpool_function, free_queue, threadpool_init,
  threadpool_destroy, await_empty, goes_on, append_job, unlink_head, call_of, free_job, write,
  remove,
}
use c_model.JobPool.Queue.{Holds, job_with}
use c_model.JobPool.Queue.Add.{AddedTo, add_job_queues}
use c_model.JobPool.Queue.Take.{TakenFrom, function_takes}
use c_model.JobPool.System.{
  is_waiting, is_blocked, is_exited, ready, exited, idle, outside, joined, System, Step, Reachable,
  at_start, further, adding,
}
use c_model.JobPool.Waiters.{AllExited}
use c_model.JobPool.Valid.{Valid}
use c_model.JobPool.Reach.{steps_keep_invariant}
use c_model.JobPool.Shutdown.{shutdown_complete, work_goes_on, started_up}
use c_model.JobPool.Moves.{job_waits, Progress}

abbrev no_jobs : Store
no_jobs p = none

abbrev calls : List Bool
calls = true ∷ true ∷ true ∷ true ∷ true ∷ true ∷ []

-- A pool for two jobs, as `threadpool_init` makes it.
abbrev new_pool : Pool
new_pool = record {
  thread_num = 1;
  queue_max_num = 2;
  head = 0;
  tail = 0;
  queue_cur_num = 0;
  queue_close = false;
  pool_close = false;
  jobs = no_jobs;
}

-- With a job at 8.
abbrev one_job : Store
one_job p = if p == 8 then some (job_with (5, 6) 0) else none

abbrev used_pool : Pool
used_pool = record new_pool { head = 8; tail = 8; queue_cur_num = 1; jobs = one_job }

used_pool-Holds : Holds used_pool ((8, (5, 6)) ∷ [])
used_pool-Holds = record {
  linked = (refl, tt);
  first = refl;
  last = refl;
  counted = refl;
  bounded = omega arith;
  once = λ p. ground arith;
  no_null = refl;
}

add_job_queues_example :
    Returns
      (AddedTo used_pool ((8, (5, 6)) ∷ []) (3, 4) (some 9))
      (threadpool_add_job used_pool (3, 4) (some 9))
add_job_queues_example =
    add_job_queues used_pool ((8, (5, 6)) ∷ []) (3, 4) (some 9) used_pool-Holds
      (λ e. absurd (omega arith)) (λ e. absurd (omega arith)) ((λ e. absurd (omega arith)), refl)

function_takes_example :
    Returns (TakenFrom used_pool ((8, (5, 6)) ∷ [])) (threadpool_function used_pool)
function_takes_example = function_takes used_pool ((8, (5, 6)) ∷ []) used_pool-Holds

abbrev used_system : System
used_system = record {
  pool = used_pool;
  workers = ready ∷ [];
  clients = idle ∷ [];
  destroyer = outside;
  accepted = (5, 6) ∷ [];
  started = [];
}

used_system-Valid : Valid used_system
used_system-Valid = record {
  queue = (8, (5, 6)) ∷ [];
  holds = used_pool-Holds;
  in_order = refl;
  owned = record { alone = λ p. ground arith; live = λ p h. absurd (omega arith) };
  told = record {
    workers_told = λ h i. none_waits i;
    clients_told = λ h i. none_blocked i;
    destroyer_told = λ h. absurd cc;
    closing = refl;
    closed = refl;
    drained = λ h. absurd (omega arith);
    all_awake = λ h. absurd (omega arith);
    all_free = λ h. absurd (omega arith);
    all_gone = λ h. absurd (omega arith);
    exits_closed = λ i e. absurd (none_exits i e);
  };
}
  where
    none_waits : (i : ℕ) → is_waiting (get_or (ready ∷ []) i ready) ≡ false
    none_waits zero = refl
    none_waits (suc i) = refl

    none_blocked : (i : ℕ) → is_blocked (get_or (idle ∷ []) i idle) ≡ false
    none_blocked zero = refl
    none_blocked (suc i) = refl

    none_exits : (i : ℕ) → is_exited (get_or (ready ∷ []) i ready) ≢ true
    none_exits zero e = cc
    none_exits (suc i) e = cc

-- The client calls `threadpool_add_job`.
abbrev after_call : System
after_call = record used_system { clients = adding (3, 4) ∷ [] }

called : Reachable used_system after_call
called =
    further at_start (
      Step.calls 0 (3, 4) (omega arith) refl (λ e. absurd (omega arith))
        (λ e. absurd (omega arith)))

steps_keep_invariant_example : Valid after_call
steps_keep_invariant_example = steps_keep_invariant used_system after_call used_system-Valid called

-- A pool of one thread, for two jobs at most, with one client.
abbrev start : System
start = started_up 1 1 new_pool

made : threadpool_init 1 2 calls no_jobs ≡ some new_pool
unfolding threadpool_init
made = refl

abbrev asked : System
asked = record start { clients = adding (5, 6) ∷ [] }

asked-Reachable : Reachable start asked
asked-Reachable =
    further at_start (
      Step.calls 0 (5, 6) (omega arith) refl (λ e. absurd (omega arith))
        (λ e. absurd (omega arith)))

-- The client has added a job at 8.
abbrev with_job : System
with_job = record start {
  pool = record used_pool { jobs = write no_jobs 8 (job_with (5, 6) 0) };
  accepted = (5, 6) ∷ [];
}

with_job-Reachable : Reachable start with_job
unfolding threadpool_add_job append_job
with_job-Reachable =
    further asked-Reachable
      (Step.adds 0 (5, 6) (some 8) (omega arith) refl ((λ e. absurd (omega arith)), refl) refl)

work_goes_on_example : Progress with_job
work_goes_on_example =
    work_goes_on 1 2 1 calls no_jobs new_pool with_job made with_job-Reachable (omega arith)
      (job_waits (omega arith))

-- The thread has run the job.
abbrev job_done : System
job_done = record start {
  pool = record new_pool { jobs = remove (write no_jobs 8 (job_with (5, 6) 0)) 8 };
  accepted = (5, 6) ∷ [];
  started = (5, 6) ∷ [];
}

job_done-Reachable : Reachable start job_done
unfolding threadpool_function unlink_head call_of free_job
job_done-Reachable =
    further (further with_job-Reachable (Step.begins 0 8 (5, 6) (omega arith) refl refl refl))
      (Step.finishes 0 8 (omega arith) refl refl)

-- `threadpool_destroy` has joined it.
abbrev shut_down : System
shut_down = record job_done {
  pool = record job_done.pool { queue_close = true; pool_close = true };
  workers = exited ∷ [];
  destroyer = joined;
}

shut_down-Reachable : Reachable start shut_down
unfolding threadpool_destroy await_empty threadpool_function unlink_head
shut_down-Reachable =
    further
      (further
        (further
          (further
            (further job_done-Reachable (
              Step.destroys
                (goes_on (record job_done.pool { queue_close = true; pool_close = true })) refl
                refl))
            (Step.tells_workers refl))
          (Step.tells_clients refl))
        (Step.ends 0 (omega arith) refl refl))
      (Step.joins refl all_exited)
  where
    all_exited : (i : ℕ) → i < 1 → get_or (exited ∷ []) i ready ≡ exited
    all_exited zero lt = refl
    all_exited (suc i) lt = absurd (omega arith)

shutdown_complete_example :
    (shut_down.started ≡ shut_down.accepted)
    × AllExited shut_down.workers
    × (shut_down.pool.pool_close ≡ true)
    × (free_queue 1 shut_down.pool ≡ some shut_down.pool)
shutdown_complete_example =
    shutdown_complete 1 2 1 calls no_jobs new_pool shut_down made shut_down-Reachable refl
