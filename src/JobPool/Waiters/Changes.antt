-- ===== src/JobPool/Waiters/Changes.antt =====
-- What the sections that change the pool, and the steps of `threadpool_destroy`, do to those that wait.
use c_model.Common.{
  ℕ, zero, suc, ◌≤◌, ◌≡◌, refl, ap, sym, ◌∙◌, List, [], ◌∷◌, arith, true, false, ltb, ◌==◌, ◌||◌,
  ==-eq, map, Bool-cases, inl, inr,
}
use c_model.Array.{length, get_or}
use c_model.JobPool.{Pool, is_closed, await_empty, threadpool_destroy}
use c_model.JobPool.System.{
  Worker, ready, waiting, exited, running, Client, idle, Destroyer, outside, checking, is_waiting,
  is_exited, is_blocked, wake_worker, wake_client, closing_pool, closing_stage,
}
use c_model.JobPool.Waiters.{
  None, workers_woken, clients_woken, rank, is_awaiting, AllExited, Told, rank_not_closed,
}

-- The steps see only the number of jobs, the limit and the flags.
pub Told-same :
    (pool pool' : Pool) (ws : List Worker) (cs : List Client) (d : Destroyer)
    → pool'.queue_cur_num ≡ pool.queue_cur_num
    → pool'.queue_max_num ≡ pool.queue_max_num
    → (pool'.queue_close ≡ pool.queue_close) × (pool'.pool_close ≡ pool.pool_close)
    → Told pool ws cs d
    → Told pool' ws cs d
Told-same pool pool' ws cs d n m (q, p) t = record {
  workers_told = λ h. t.workers_told (omega arith);
  clients_told = λ h. t.clients_told (λ e. h (n ∙ e ∙ sym m));
  destroyer_told = λ h. omega (arith, t.destroyer_told h);
  closing = q ∙ t.closing;
  closed = p ∙ t.closed;
  drained = λ r. n ∙ t.drained r;
  all_awake = t.all_awake;
  all_free = t.all_free;
  all_gone = t.all_gone;
  exits_closed = λ i e. p ∙ t.exits_closed i e;
}

is_exited-wake :
    (ws : List Worker) (i : ℕ)
    → is_exited (get_or (map wake_worker ws) i ready) ≡ is_exited (get_or ws i ready)
is_exited-wake [] i = refl
is_exited-wake (ready ∷ ws) zero = refl
is_exited-wake (waiting ∷ ws) zero = refl
is_exited-wake (exited ∷ ws) zero = refl
is_exited-wake (running p ∷ ws) zero = refl
is_exited-wake (w ∷ ws) (suc i) = is_exited-wake ws i

length-wake : (ws : List Worker) → length (map wake_worker ws) ≡ length ws
length-wake [] = refl
length-wake (w ∷ ws) = ap suc (length-wake ws)

-- All threads are signalled.
pub Told-wake_workers :
    (pool : Pool) (ws : List Worker) (cs : List Client) (d : Destroyer)
    → Told pool ws cs d
    → Told pool (map wake_worker ws) cs d
Told-wake_workers pool ws cs d t = record {
  workers_told = λ h. workers_woken ws;
  clients_told = t.clients_told;
  destroyer_told = t.destroyer_told;
  closing = t.closing;
  closed = t.closed;
  drained = t.drained;
  all_awake = λ r. workers_woken ws;
  all_free = t.all_free;
  all_gone = λ r i lt. is_exited-wake ws i ∙ t.all_gone r i (omega (arith, length-wake ws));
  exits_closed = λ i e. t.exits_closed i (sym (is_exited-wake ws i) ∙ e);
}

-- All clients are signalled.
pub Told-wake_clients :
    (pool : Pool) (ws : List Worker) (cs : List Client) (d : Destroyer)
    → Told pool ws cs d
    → Told pool ws (map wake_client cs) d
Told-wake_clients pool ws cs d t = record {
  workers_told = t.workers_told;
  clients_told = λ h. clients_woken cs;
  destroyer_told = t.destroyer_told;
  closing = t.closing;
  closed = t.closed;
  drained = t.drained;
  all_awake = t.all_awake;
  all_free = λ r. clients_woken cs;
  all_gone = t.all_gone;
  exits_closed = t.exits_closed;
}

-- There is one more job; if it is the first one, no thread waits any more.
pub Told-more :
    (pool pool' : Pool) (ws : List Worker) (cs : List Client) (d : Destroyer)
    → pool'.queue_cur_num ≡ suc pool.queue_cur_num
    → pool'.queue_max_num ≡ pool.queue_max_num
    → pool'.queue_cur_num ≤ pool'.queue_max_num
    → (pool'.queue_close ≡ pool.queue_close) × (pool'.pool_close ≡ pool.pool_close)
    → is_closed pool ≡ false
    → (pool.queue_cur_num ≡ 0 → None is_waiting ready ws)
    → Told pool ws cs d
    → Told pool' ws cs d
Told-more pool pool' ws cs d n m le (q, p) u first t =
    let outside_yet : rank d ≡ 0 =
      rank_not_closed pool.queue_close pool.pool_close (rank d) u t.closing in
    record {
      workers_told = λ h. elim (Bool-cases (pool.queue_cur_num == 0)) [
        | inl z ↦ first (==-eq pool.queue_cur_num 0 z)
        | inr z ↦ t.workers_told (ground arith)
      ];
      clients_told = λ h. t.clients_told (omega arith);
      destroyer_told = λ h. omega arith;
      closing = q ∙ t.closing;
      closed = p ∙ t.closed;
      drained = λ r. absurd (omega arith);
      all_awake = t.all_awake;
      all_free = t.all_free;
      all_gone = t.all_gone;
      exits_closed = λ i e. p ∙ t.exits_closed i e;
    }

-- There is one job less, and no client waits any more if the queue was full, nor does
-- `threadpool_destroy` if it was the last one.
pub Told-fewer :
    (pool pool' : Pool) (ws : List Worker) (cs cs' : List Client) (d d' : Destroyer)
    → pool.queue_cur_num ≡ suc pool'.queue_cur_num
    → pool'.queue_max_num ≡ pool.queue_max_num
    → (pool'.queue_close ≡ pool.queue_close) × (pool'.pool_close ≡ pool.pool_close)
    → rank d' ≡ rank d
    → (None is_blocked idle cs → None is_blocked idle cs')
    → (pool.queue_cur_num ≡ pool.queue_max_num → None is_blocked idle cs')
    → (pool'.queue_cur_num ≡ 0 → is_awaiting d' ≡ false)
    → Told pool ws cs d
    → Told pool' ws cs' d'
Told-fewer pool pool' ws cs cs' d d' n m (q, p) r keep full last t = record {
  workers_told = λ h. t.workers_told (omega arith);
  clients_told = λ h. elim (Bool-cases (pool.queue_cur_num == pool.queue_max_num)) [
    | inl e ↦ full (==-eq pool.queue_cur_num pool.queue_max_num e)
    | inr e ↦ keep (t.clients_told (ground arith))
  ];
  destroyer_told = λ h. elim (Bool-cases (pool'.queue_cur_num == 0)) [
    | inl z ↦ (let gone = last (==-eq pool'.queue_cur_num 0 z) in absurd cc)
    | inr z ↦ ground arith
  ];
  closing = q ∙ t.closing ∙ ap (ltb 0) (sym r);
  closed = p ∙ t.closed ∙ ap (ltb 1) (sym r);
  drained = λ h. absurd (omega (arith, t.drained (omega arith)));
  all_awake = λ h. t.all_awake (omega arith);
  all_free = λ h. keep (t.all_free (omega arith));
  all_gone = λ h. t.all_gone (omega arith);
  exits_closed = λ i e. p ∙ t.exits_closed i e;
}

-- `threadpool_destroy` goes on within its rank.
pub Told-checking :
    (pool : Pool) (ws : List Worker) (cs : List Client) (d : Destroyer)
    → rank d ≡ 1
    → Told pool ws cs d
    → Told pool ws cs checking
Told-checking pool ws cs d r t = record {
  workers_told = t.workers_told;
  clients_told = t.clients_told;
  destroyer_told = λ h. absurd cc;
  closing = t.closing ∙ ap (ltb 0) r;
  closed = t.closed ∙ ap (ltb 1) r;
  drained = λ h. absurd (omega arith);
  all_awake = λ h. absurd (omega arith);
  all_free = λ h. absurd (omega arith);
  all_gone = λ h. absurd (omega arith);
  exits_closed = t.exits_closed;
}

-- The test of `threadpool_destroy`.
pub Told-await_empty :
    (pool : Pool) (ws : List Worker) (cs : List Client)
    → Told pool ws cs checking
    → Told (closing_pool (await_empty pool)) ws cs (closing_stage (await_empty pool))
unfolding await_empty
Told-await_empty pool ws cs t = elim (Bool-cases (pool.queue_cur_num == 0)) [
  | inl z ↦ simp z (record {
    workers_told = t.workers_told;
    clients_told = t.clients_told;
    destroyer_told = λ h. absurd cc;
    closing = t.closing;
    closed = refl;
    drained = λ h. ==-eq pool.queue_cur_num 0 z;
    all_awake = λ h. absurd (omega arith);
    all_free = λ h. absurd (omega arith);
    all_gone = λ h. absurd (omega arith);
    exits_closed = λ i e. refl;
  })
  | inr z ↦ simp z (record {
    workers_told = t.workers_told;
    clients_told = t.clients_told;
    destroyer_told = λ h. ground arith;
    closing = t.closing;
    closed = t.closed;
    drained = λ h. absurd (omega arith);
    all_awake = λ h. absurd (omega arith);
    all_free = λ h. absurd (omega arith);
    all_gone = λ h. absurd (omega arith);
    exits_closed = t.exits_closed;
  })
]

-- `threadpool_destroy` is called.
pub Told-destroy :
    (pool : Pool) (ws : List Worker) (cs : List Client)
    → Told pool ws cs outside
    → Told (closing_pool (threadpool_destroy pool)) ws cs (closing_stage (threadpool_destroy pool))
unfolding threadpool_destroy
Told-destroy pool ws cs t =
    let not_closed : is_closed pool ≡ false = ap (λ b. b || pool.pool_close) t.closing ∙ t.closed in
    simp not_closed (
      Told-await_empty (record pool { queue_close = true }) ws cs
        (record {
          workers_told = t.workers_told;
          clients_told = t.clients_told;
          destroyer_told = λ h. absurd cc;
          closing = refl;
          closed = t.closed;
          drained = λ h. absurd (omega arith);
          all_awake = λ h. absurd (omega arith);
          all_free = λ h. absurd (omega arith);
          all_gone = λ h. absurd (omega arith);
          exits_closed = t.exits_closed;
        }))

-- `threadpool_destroy` comes to the next stage, once the pool is closed and what that stage says holds.
pub Told-next :
    (pool : Pool) (ws : List Worker) (cs : List Client) (d d' : Destroyer)
    → rank d' ≡ suc (rank d)
    → 2 ≤ rank d
    → (rank d ≡ 2 → None is_waiting ready ws)
    → (rank d ≡ 3 → None is_blocked idle cs)
    → (rank d ≡ 4 → AllExited ws)
    → is_awaiting d' ≡ false
    → Told pool ws cs d
    → Told pool ws cs d'
Told-next pool ws cs d d' r past awake free gone a t =
    let before = t.closing in
    let closed_now = t.closed in
    record {
      workers_told = t.workers_told;
      clients_told = t.clients_told;
      destroyer_told = λ h. absurd cc;
      closing = t.closing ∙ ground arith;
      closed = t.closed ∙ ground arith;
      drained = λ h. t.drained past;
      all_awake = λ h. elim (Bool-cases (rank d == 2)) [
        | inl e ↦ awake (==-eq (rank d) 2 e)
        | inr e ↦ t.all_awake (ground arith)
      ];
      all_free = λ h. elim (Bool-cases (rank d == 3)) [
        | inl e ↦ free (==-eq (rank d) 3 e)
        | inr e ↦ t.all_free (ground arith)
      ];
      all_gone = λ h. elim (Bool-cases (rank d == 4)) [
        | inl e ↦ gone (==-eq (rank d) 4 e)
        | inr e ↦ t.all_gone (ground arith)
      ];
      exits_closed = t.exits_closed;
    }
