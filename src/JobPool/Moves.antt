-- ===== src/JobPool/Moves.antt =====
-- The steps that a valid system can take while there is something left to do.
use c_model.Common.{
  ℕ, zero, suc, ◌≤◌, ◌<◌, ◌≡◌, refl, ap, ◌∙◌, List, [], ◌∷◌, some, arith, Bool, true, false, ltb,
  ◌==◌, Bool-cases, inl, inr, ◌⊎◌,
}
use c_model.Array.{length, get_or}
use c_model.Run.{◌>>=◌}
use c_model.JobPool.{remove, Round, threadpool_function, call_of, free_job}
use c_model.JobPool.Queue.{Cell}
use c_model.JobPool.Queue.Take.{TakenFrom, function_takes}
use c_model.JobPool.System.{
  Worker, ready, waiting, exited, running, idle, Destroyer, outside, checking, awaiting,
  telling_workers, telling_clients, joining, joined, is_waiting, is_exited, is_blocked, System,
  Step,
}
use c_model.JobPool.Waiters.{rank, is_awaiting}
use c_model.JobPool.Owners.{runs-at}
use c_model.JobPool.Valid.{Valid}

-- A step in which a thread takes a job, frees one that it has run or comes to its end, or in which
-- `threadpool_destroy` goes on after it was called.
abbrev pub is_progress : {s u : System} → Step s u → Bool
is_progress (Step.calls i t lt at f a) = false
is_progress (Step.adds i t mem lt at f e) = false
is_progress (Step.is_refused i t mem lt at f e) = false
is_progress (Step.blocks i t mem lt at f e) = false
is_progress (Step.waits i lt at e) = false
is_progress (Step.destroys c at e) = false
is_progress (Step.wakes_worker i lt at) = false
is_progress (Step.wakes_client i t lt at) = false
is_progress (Step.wakes_destroyer at) = false
is_progress step = true

-- A thread that is about to lock the mutex does not have to wait.
abbrev Busy : System → Type 0
Busy s = (0 < s.pool.queue_cur_num) ⊎ (s.pool.pool_close ≡ true)

abbrev pub Progress : System → Type 0
Progress s = (u : System) × (step : Step s u) × (is_progress step ≡ true)

ready_moves :
    (s : System) (i : ℕ) (q : List Cell) (r : Round)
    → i < length s.workers
    → get_or s.workers i ready ≡ ready
    → threadpool_function s.pool ≡ some r
    → TakenFrom s.pool q r
    → s.pool.queue_cur_num ≡ length q
    → Busy s
    → Progress s
unfolding call_of
ready_moves s i q r lt at e (TakenFrom.leaves closed) c b = (_, Step.ends i lt at e, refl)
ready_moves s i q r lt at e (TakenFrom.must_wait u) c (inl h) = absurd (omega arith)
ready_moves s i q r lt at e (TakenFrom.must_wait u) c (inr h) = absurd cc
ready_moves s i q r lt at e (TakenFrom.oldest {c = c} {q = rest} {pool' = p} u last full found a) n
      b =
    let called : call_of p c.0 ≡ some (c.1) =
      ap (λ jobs. jobs c.0 >>= λ j. some (j.callback_function, j.arg)) a.same_jobs
      ∙ ap (λ o. o >>= λ j. some (j.callback_function, j.arg)) found in
    (_, Step.begins i c.0 c.1 lt at e called, refl)

worker_moves :
    (s : System) (i : ℕ) (w : Worker)
    → Valid s
    → i < length s.workers
    → get_or s.workers i ready ≡ w
    → is_waiting w ≡ false
    → is_exited w ≡ false
    → Busy s
    → Progress s
unfolding free_job
worker_moves s i ready v lt at n e b =
    let r = function_takes s.pool v.queue v.holds in
    ready_moves s i v.queue r.result lt at r.ends r.holds v.holds.counted b
worker_moves s i waiting v lt at n e b = absurd cc
worker_moves s i exited v lt at n e b = absurd cc
worker_moves s i (running p) v lt at n e b =
    let (j, found) = v.owned.live p (runs-at s.workers i p lt at) in
    (
      _,
      Step.finishes i p lt at
          (ap (λ o. o >>= λ k. some (record s.pool { jobs = remove s.pool.jobs p })) found),
      refl,
    )

jobs_move : (s : System) → Valid s → 0 < length s.workers → 0 < s.pool.queue_cur_num → Progress s
jobs_move s v staffed h =
    let t = v.told in
    worker_moves s 0 (get_or s.workers 0 ready) v staffed refl (t.workers_told h 0)
      (elim (Bool-cases (is_exited (get_or s.workers 0 ready))) [
        | inl e ↦
            let closed = t.exits_closed 0 e in
            let as_ranked = t.closed in
            let late : 2 ≤ rank s.destroyer = ground arith in absurd (omega (arith, t.drained late))
        | inr e ↦ e
      ])
      (inl h)

exited_all_or_one :
    (ws : List Worker)
    → ((i : ℕ) → i < length ws → get_or ws i ready ≡ exited)
      ⊎ ((i : ℕ) × (i < length ws) × (is_exited (get_or ws i ready) ≡ false))
exited_all_or_one [] = inl (λ i lt. absurd (omega arith))
exited_all_or_one (ready ∷ ws) = inr (0, omega arith, refl)
exited_all_or_one (waiting ∷ ws) = inr (0, omega arith, refl)
exited_all_or_one (running p ∷ ws) = inr (0, omega arith, refl)
exited_all_or_one (exited ∷ ws) = elim (exited_all_or_one ws) [
  | inl all ↦ inl (all_after all)
  | inr (i, lt, e) ↦ inr (suc i, omega arith, e)
]
  where
    all_after :
        ((i : ℕ) → i < length ws → get_or ws i ready ≡ exited)
        → (i : ℕ) → i < length (exited ∷ ws)
        → get_or (exited ∷ ws) i ready ≡ exited
    all_after all zero lt = refl
    all_after all (suc i) lt = all i (omega arith)

stage_moves :
    (s : System) (d : Destroyer)
    → Valid s
    → 0 < length s.workers
    → s.destroyer ≡ d
    → 0 < rank d
    → rank d < 5
    → Progress s
stage_moves s outside v staffed at lo hi = absurd (omega arith)
stage_moves s checking v staffed at lo hi = (_, Step.checks at, refl)
stage_moves s awaiting v staffed at lo hi =
    jobs_move s v staffed (v.told.destroyer_told (ap is_awaiting at))
stage_moves s telling_workers v staffed at lo hi = (_, Step.tells_workers at, refl)
stage_moves s telling_clients v staffed at lo hi = (_, Step.tells_clients at, refl)
stage_moves s joining v staffed at lo hi = elim (exited_all_or_one s.workers) [
  | inl all ↦ (_, Step.joins at all, refl)
  | inr (i, lt, e) ↦
      worker_moves s i (get_or s.workers i ready) v lt refl
        (v.told.all_awake (omega (arith, ap rank at)) i) e
        (inr (v.told.closed ∙ ap (λ d. ltb 1 (rank d)) at))
]
stage_moves s joined v staffed at lo hi = absurd (omega arith)

-- What there is still to do: a job waits, or a client waits for room in a queue that can have jobs, or
-- `threadpool_destroy` has been called and has not joined the threads yet.
pub data Unfinished (s : System) : Type 0 where
  job_waits : 0 < s.pool.queue_cur_num → Unfinished s
  client_waits :
      (i : ℕ)
      → is_blocked (get_or s.clients i idle) ≡ true
      → 0 < s.pool.queue_max_num
      → Unfinished s
  closes : 0 < rank s.destroyer → rank s.destroyer < 5 → Unfinished s

pub remaining_moves : (s : System) → Valid s → 0 < length s.workers → Unfinished s → Progress s
remaining_moves s v staffed (Unfinished.job_waits h) = jobs_move s v staffed h
remaining_moves s v staffed (Unfinished.client_waits i b h) =
    elim (Bool-cases (s.pool.queue_cur_num == s.pool.queue_max_num)) [
      | inl full ↦ jobs_move s v staffed (ground arith)
      | inr room ↦ let told = v.told.clients_told (λ e. ground arith) i in absurd cc
    ]
remaining_moves s v staffed (Unfinished.closes lo hi) =
    stage_moves s s.destroyer v staffed refl lo hi
