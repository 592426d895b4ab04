-- ===== src/JobPool/System.antt =====
-- The pool with its threads, its clients and the one that destroys it: the sections that the mutex
-- protects, and the condition variables, as steps in any order, up to the last `pthread_join`.
use c_model.Common.{
  ℕ, ◌<◌, ◌≡◌, ◌≢◌, List, [], ◌∷◌, ◌++◌, Option, some, Bool, true, false, if◌then◌else◌, map,
}
use c_model.Array.{length, get_or, set}
use c_model.JobPool.{
  null, Task, Pool, waits_for_room, refused, added, threadpool_add_job, waits_for_job, exits, takes,
  threadpool_function, call_of, free_job, Closing, waits_for_empty, goes_on, await_empty,
  threadpool_destroy,
}
use c_model.JobPool.Queue.Add.{Fresh}

-- A thread of the pool: about to lock the mutex, waiting for `queue_not_empty`, running the job at a
-- pointer, or at its end.
pub data Worker : Type 0 where
  ready waiting exited : Worker
  running : ℕ → Worker

-- A client: outside the pool, about to lock the mutex to add a job, or waiting for `queue_not_full`.
pub data Client : Type 0 where
  idle : Client
  adding blocked : Task → Client

-- `threadpool_destroy`: not called, about to lock the mutex again, waiting for `queue_empty`, before
-- the first broadcast, before the second one, joining the threads, and past that.
pub data Destroyer : Type 0 where
  outside checking awaiting telling_workers telling_clients joining joined : Destroyer

abbrev pub is_waiting : Worker → Bool
is_waiting ready = false
is_waiting waiting = true
is_waiting exited = false
is_waiting (running p) = false

abbrev pub is_exited : Worker → Bool
is_exited ready = false
is_exited waiting = false
is_exited exited = true
is_exited (running p) = false

abbrev pub is_blocked : Client → Bool
is_blocked idle = false
is_blocked (adding t) = false
is_blocked (blocked t) = true

-- `accepted` lists the tasks for which `threadpool_add_job` returned 0, and `started` those whose job a
-- thread has taken, both oldest first.
pub record System : Type 0 where
  pub pool : Pool
  pub workers : List Worker
  pub clients : List Client
  pub destroyer : Destroyer
  pub accepted : List Task
  pub started : List Task

-- What a signal does to a thread, a client and the one that destroys the pool.
abbrev pub wake_worker : Worker → Worker
wake_worker ready = ready
wake_worker waiting = ready
wake_worker exited = exited
wake_worker (running p) = running p

abbrev pub wake_client : Client → Client
wake_client idle = idle
wake_client (adding t) = adding t
wake_client (blocked t) = adding t

abbrev pub wake_destroyer : Destroyer → Destroyer
wake_destroyer outside = outside
wake_destroyer checking = checking
wake_destroyer awaiting = checking
wake_destroyer telling_workers = telling_workers
wake_destroyer telling_clients = telling_clients
wake_destroyer joining = joining
wake_destroyer joined = joined

-- What the test in `threadpool_destroy` leads to.
abbrev pub closing_pool : Closing → Pool
closing_pool (waits_for_empty pool) = pool
closing_pool (goes_on pool) = pool
closing_pool (Closing.already_closed pool) = pool

abbrev pub closing_stage : Closing → Destroyer
closing_stage (waits_for_empty pool) = awaiting
closing_stage (goes_on pool) = telling_workers
closing_stage (Closing.already_closed pool) = outside

pub data Step (s : System) : System → Type 0 where
  -- client `i`
  calls :
      (i : ℕ) (t : Task)
      → i < length s.clients
      → get_or s.clients i idle ≡ idle
      → t.0 ≢ null
      → t.1 ≢ null
      → Step s (record s { clients = set s.clients i (adding t) })
  adds :
      {p : Pool} {first : Bool} (i : ℕ) (t : Task) (mem : Option ℕ)
      → i < length s.clients
      → get_or s.clients i idle ≡ adding t
      → Fresh s.pool mem
      → threadpool_add_job s.pool t mem ≡ some (added first p)
      → Step s (record s {
        pool = p;
        clients = set s.clients i idle;
        workers = if first then map wake_worker s.workers else s.workers;
        accepted = s.accepted ++ t ∷ [];
      })
  is_refused :
      (i : ℕ) (t : Task) (mem : Option ℕ)
      → i < length s.clients
      → get_or s.clients i idle ≡ adding t
      → Fresh s.pool mem
      → threadpool_add_job s.pool t mem ≡ some refused
      → Step s (record s { clients = set s.clients i idle })
  blocks :
      (i : ℕ) (t : Task) (mem : Option ℕ)
      → i < length s.clients
      → get_or s.clients i idle ≡ adding t
      → Fresh s.pool mem
      → threadpool_add_job s.pool t mem ≡ some waits_for_room
      → Step s (record s { clients = set s.clients i (blocked t) })
  -- thread `i`
  begins :
      {q : Pool} {last full : Bool} (i p : ℕ) (t : Task)
      → i < length s.workers
      → get_or s.workers i ready ≡ ready
      → threadpool_function s.pool ≡ some (takes p last full q)
      → call_of q p ≡ some t
      → Step s (record s {
        pool = q;
        workers = set s.workers i (running p);
        clients = if full then map wake_client s.clients else s.clients;
        destroyer = if last then wake_destroyer s.destroyer else s.destroyer;
        started = s.started ++ t ∷ [];
      })
  waits :
      (i : ℕ)
      → i < length s.workers
      → get_or s.workers i ready ≡ ready
      → threadpool_function s.pool ≡ some waits_for_job
      → Step s (record s { workers = set s.workers i waiting })
  ends :
      (i : ℕ)
      → i < length s.workers
      → get_or s.workers i ready ≡ ready
      → threadpool_function s.pool ≡ some exits
      → Step s (record s { workers = set s.workers i exited })
  finishes :
      {q : Pool} (i p : ℕ)
      → i < length s.workers
      → get_or s.workers i ready ≡ running p
      → free_job s.pool p ≡ some q
      → Step s (record s { pool = q; workers = set s.workers i ready })
  -- `threadpool_destroy`
  destroys :
      (c : Closing)
      → s.destroyer ≡ outside
      → threadpool_destroy s.pool ≡ c
      → Step s (record s { pool = closing_pool c; destroyer = closing_stage c })
  checks :
      s.destroyer ≡ checking
      → Step s (record s {
        pool = closing_pool (await_empty s.pool);
        destroyer = closing_stage (await_empty s.pool);
      })
  tells_workers :
      s.destroyer ≡ telling_workers
      → Step s (record s { workers = map wake_worker s.workers; destroyer = telling_clients })
  tells_clients :
      s.destroyer ≡ telling_clients
      → Step s (record s { clients = map wake_client s.clients; destroyer = joining })
  joins :
      s.destroyer ≡ joining
      → ((i : ℕ) → i < length s.workers → get_or s.workers i ready ≡ exited)
      → Step s (record s { destroyer = joined })
  -- `pthread_cond_wait` returns without a signal
  wakes_worker :
      (i : ℕ)
      → i < length s.workers
      → get_or s.workers i ready ≡ waiting
      → Step s (record s { workers = set s.workers i ready })
  wakes_client :
      (i : ℕ) (t : Task)
      → i < length s.clients
      → get_or s.clients i idle ≡ blocked t
      → Step s (record s { clients = set s.clients i (adding t) })
  wakes_destroyer : s.destroyer ≡ awaiting → Step s (record s { destroyer = checking })

pub data Reachable (s : System) : System → Type 0 where
  at_start : Reachable s s
  further : {u v : System} → Reachable s u → Step u v → Reachable s v
