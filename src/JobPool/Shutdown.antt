-- ===== src/JobPool/Shutdown.antt =====
-- From `threadpool_init` to the end of `threadpool_destroy`.
use c_model.Common.{
  ℕ, zero, suc, ◌<◌, ◌≡◌, refl, ap, sym, subst, ◌∙◌, List, [], ◌∷◌, ◌++◌, none, some, arith, Bool,
  true, false, ◌==◌, Bool-cases, inl, inr, ◌⊎◌, append-nil,
}
use c_model.Array.{length, replicate, get_or-replicate}
use c_model.Run.{Returns, Returns-at}
use c_model.JobPool.{null, Store, Pool, all_succeed, threadpool_init, free_queue}
use c_model.JobPool.Queue.{Cell, tasks, head_of}
use c_model.JobPool.System.{ready, idle, outside, joined, is_exited, is_blocked, System, Reachable}
use c_model.JobPool.Waiters.{AllExited, Told}
use c_model.JobPool.Owners.{runs}
use c_model.JobPool.Valid.{Valid}
use c_model.JobPool.Reach.{steps_keep_invariant}
use c_model.JobPool.Moves.{Progress, Unfinished, remaining_moves}

-- The pool that `threadpool_init` returned, with its threads and some clients.
abbrev pub started_up : ℕ → ℕ → Pool → System
started_up n k pool = record {
  pool = pool;
  workers = replicate n ready;
  clients = replicate k idle;
  destroyer = outside;
  accepted = [];
  started = [];
}

no_runs : (p n : ℕ) → runs p (replicate n ready) ≡ 0
no_runs p zero = refl
no_runs p (suc n) = omega (arith, no_runs p n)

-- A pool that `threadpool_init` returns has an empty queue and makes a valid system, with all its
-- threads and any number of clients; it returns none if one of its calls fails.
pub init_starts :
    (n max k : ℕ) (calls : List Bool) (jobs : Store)
    → ((all_succeed calls ≡ true)
        × Returns (λ pool. Valid (started_up n k pool)) (threadpool_init n max calls jobs))
      ⊎ ((all_succeed calls ≡ false) × (threadpool_init n max calls jobs ≡ none))
unfolding threadpool_init
init_starts n max k calls jobs = elim (Bool-cases (all_succeed calls)) [
  | inl e ↦ inl (
    e,
    record {
      result = record {
        thread_num = n;
        queue_max_num = max;
        head = null;
        tail = null;
        queue_cur_num = 0;
        queue_close = false;
        pool_close = false;
        jobs = jobs;
      };
      ends = rw e refl;
      holds = record {
        queue = [];
        holds = record {
          linked = tt;
          first = refl;
          last = refl;
          counted = refl;
          bounded = omega arith;
          once = λ p. omega arith;
          no_null = refl;
        };
        in_order = refl;
        owned = record {
          alone = λ p. omega (arith, no_runs p n);
          live = λ p h. absurd (omega (arith, no_runs p n));
        };
        told = record {
          workers_told = λ h. absurd (omega arith);
          clients_told = λ h i. ap is_blocked (get_or-replicate k i idle);
          destroyer_told = λ h. absurd cc;
          closing = refl;
          closed = refl;
          drained = λ h. absurd (omega arith);
          all_awake = λ h. absurd (omega arith);
          all_free = λ h. absurd (omega arith);
          all_gone = λ h. absurd (omega arith);
          exits_closed = λ i e. let still = ap is_exited (get_or-replicate n i ready) in absurd cc;
        };
      };
    },
  )
  | inr e ↦ inr (e, rw e refl)
]

no_tasks : (q : List Cell) → length q ≡ 0 → (q ≡ [])
no_tasks [] h = refl
no_tasks (c ∷ q) h = absurd (omega arith)

init-Reachable-Valid :
    (n max k : ℕ) (calls : List Bool) (jobs : Store) (pool : Pool) (s : System)
    → threadpool_init n max calls jobs ≡ some pool
    → Reachable (started_up n k pool) s
    → Valid s
init-Reachable-Valid n max k calls jobs pool s made r = elim (init_starts n max k calls jobs) [
  | inl (ok, starts) ↦ steps_keep_invariant (started_up n k pool) s (Returns-at starts made) r
  | inr (fails, e) ↦ absurd cc
]

-- Let clients, threads and `threadpool_destroy` take turns in any way on a pool that `threadpool_init`
-- returned. Once `threadpool_destroy` has joined the threads, every task accepted has been started, in
-- the order of acceptance; every thread is at its end, so that no task still runs; the pool is closed
-- and its queue empty, and there is nothing left for the last loop to free.
pub shutdown_complete :
    (n max k : ℕ) (calls : List Bool) (jobs : Store) (pool : Pool) (s : System)
    → threadpool_init n max calls jobs ≡ some pool
    → Reachable (started_up n k pool) s
    → s.destroyer ≡ joined
    → (s.started ≡ s.accepted)
      × AllExited s.workers
      × (s.pool.pool_close ≡ true)
      × (free_queue 1 s.pool ≡ some s.pool)
unfolding free_queue
shutdown_complete n max k calls jobs pool s made r at =
    let v = init-Reachable-Valid n max k calls jobs pool s made r in
    let t = subst (Told s.pool s.workers s.clients) at v.told in
    let gone : v.queue ≡ [] = no_tasks v.queue (sym v.holds.counted ∙ t.drained (omega arith)) in
    let no_head : (s.pool.head == null) ≡ true =
      ap (λ p. p == null) (v.holds.first ∙ ap head_of gone) in
    (
      sym (v.in_order ∙ ap (λ q. s.started ++ tasks q) gone ∙ append-nil s.started),
      t.all_gone (omega arith),
      t.closed,
      simp no_head refl,
    )

-- No signal is lost: however clients, threads and `threadpool_destroy` take turns on a pool that
-- `threadpool_init` returned, with at least one thread, if there is something left to do, then a thread
-- can take a job, free one that it has run or come to its end, or `threadpool_destroy`, which was
-- called, can go on; without a call of a client and without a wake-up that no signal has caused.
pub work_goes_on :
    (n max k : ℕ) (calls : List Bool) (jobs : Store) (pool : Pool) (s : System)
    → threadpool_init n max calls jobs ≡ some pool
    → Reachable (started_up n k pool) s
    → 0 < length s.workers
    → Unfinished s
    → Progress s
work_goes_on n max k calls jobs pool s made r staffed u =
    remaining_moves s (init-Reachable-Valid n max k calls jobs pool s made r) staffed u
