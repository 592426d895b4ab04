-- ===== src/JobPool/Waiters.antt =====
-- Who waits for what, and what the flags say: no thread, client or `threadpool_destroy` waits for
-- something that has already come.
pub mod Changes
use c_model.Common.{
  ℕ, zero, suc, ◌+◌, ◌≤◌, ◌<◌, ◌≡◌, ◌≢◌, refl, ap, sym, subst, ◌∙◌, List, [], ◌∷◌, arith, Bool,
  true, false, ltb, ◌==◌, ◌||◌, ==-eq, if◌then◌else◌, map, Bool-cases, inl, inr, ◌⊎◌,
}
use c_model.Array.{length, get_or, set}
use c_model.JobPool.{
  Pool, is_closed, Closing, waits_for_empty, goes_on, await_empty, threadpool_destroy,
}
use c_model.JobPool.Queue.{Cell}
use c_model.JobPool.Queue.Add.{Appended}
use c_model.JobPool.Queue.Take.{Unlinked}
use c_model.JobPool.System.{
  Worker, ready, waiting, exited, running, Client, idle, adding, blocked, Destroyer, outside,
  checking, awaiting, telling_workers, telling_clients, joining, joined, is_waiting, is_exited,
  is_blocked, wake_worker, wake_client, wake_destroyer, closing_pool, closing_stage,
}

module _ {A : Type 0} where
  -- No element has the property.
  abbrev pub None : (A → Bool) → A → List A → Type 0
  None f d xs = (i : ℕ) → f (get_or xs i d) ≡ false

  pub None-set :
      (f : A → Bool) (d : A) (xs : List A) (i : ℕ) (a : A)
      → None f d xs
      → f a ≡ false
      → None f d (set xs i a)
  None-set f d [] i a n e j = n j
  None-set f d (x ∷ xs) zero a n e zero = e
  None-set f d (x ∷ xs) zero a n e (suc j) = n (suc j)
  None-set f d (x ∷ xs) (suc i) a n e zero = n 0
  None-set f d (x ∷ xs) (suc i) a n e (suc j) = None-set f d xs i a (λ k. n (suc k)) e j

  pub None-map :
      (f : A → Bool) (g : A → A) (d : A) (xs : List A)
      → f d ≡ false
      → ((a : A) → f (g a) ≡ false)
      → None f d (map g xs)
  None-map f g d [] e h i = e
  None-map f g d (x ∷ xs) e h zero = h x
  None-map f g d (x ∷ xs) e h (suc i) = None-map f g d xs e h i

wake_worker_wakes : (w : Worker) → is_waiting (wake_worker w) ≡ false
wake_worker_wakes ready = refl
wake_worker_wakes waiting = refl
wake_worker_wakes exited = refl
wake_worker_wakes (running p) = refl

wake_client_wakes : (c : Client) → is_blocked (wake_client c) ≡ false
wake_client_wakes idle = refl
wake_client_wakes (adding t) = refl
wake_client_wakes (blocked t) = refl

pub workers_woken : (ws : List Worker) → None is_waiting ready (map wake_worker ws)
workers_woken ws = None-map is_waiting wake_worker ready ws refl wake_worker_wakes

pub clients_woken : (cs : List Client) → None is_blocked idle (map wake_client cs)
clients_woken cs = None-map is_blocked wake_client idle cs refl wake_client_wakes

-- How far `threadpool_destroy` has come.
abbrev pub rank : Destroyer → ℕ
rank outside = 0
rank checking = 1
rank awaiting = 1
rank telling_workers = 2
rank telling_clients = 3
rank joining = 4
rank joined = 5

pub rank-wake_destroyer : (d : Destroyer) → rank (wake_destroyer d) ≡ rank d
rank-wake_destroyer outside = refl
rank-wake_destroyer checking = refl
rank-wake_destroyer awaiting = refl
rank-wake_destroyer telling_workers = refl
rank-wake_destroyer telling_clients = refl
rank-wake_destroyer joining = refl
rank-wake_destroyer joined = refl

abbrev pub is_awaiting : Destroyer → Bool
is_awaiting outside = false
is_awaiting checking = false
is_awaiting awaiting = true
is_awaiting telling_workers = false
is_awaiting telling_clients = false
is_awaiting joining = false
is_awaiting joined = false

pub wake_destroyer_wakes : (d : Destroyer) → is_awaiting (wake_destroyer d) ≡ false
wake_destroyer_wakes outside = refl
wake_destroyer_wakes checking = refl
wake_destroyer_wakes awaiting = refl
wake_destroyer_wakes telling_workers = refl
wake_destroyer_wakes telling_clients = refl
wake_destroyer_wakes joining = refl
wake_destroyer_wakes joined = refl

abbrev pub AllExited : List Worker → Type 0
AllExited ws = (i : ℕ) → i < length ws → is_exited (get_or ws i ready) ≡ true

-- A thread exits only when the pool is closed.
abbrev pub ExitsClosed : Pool → List Worker → Type 0
ExitsClosed pool ws = (i : ℕ) → is_exited (get_or ws i ready) ≡ true → pool.pool_close ≡ true

pub record Told (pool : Pool) (ws : List Worker) (cs : List Client) (d : Destroyer) : Type 0 where
  pub workers_told : 0 < pool.queue_cur_num → None is_waiting ready ws
  pub clients_told : pool.queue_cur_num ≢ pool.queue_max_num → None is_blocked idle cs
  pub destroyer_told : is_awaiting d ≡ true → 0 < pool.queue_cur_num
  pub closing : pool.queue_close ≡ ltb 0 (rank d)
  pub closed : pool.pool_close ≡ ltb 1 (rank d)
  pub drained : 2 ≤ rank d → pool.queue_cur_num ≡ 0
  pub all_awake : 3 ≤ rank d → None is_waiting ready ws
  pub all_free : 4 ≤ rank d → None is_blocked idle cs
  pub all_gone : 5 ≤ rank d → AllExited ws
  pub exits_closed : ExitsClosed pool ws

rank_not_closed : (q p : Bool) (r : ℕ) → (q || p) ≡ false → q ≡ ltb 0 r → r ≡ 0
rank_not_closed true p r e c = absurd cc
rank_not_closed false p r e c = ground arith

-- A client goes on, or it waits for room while the queue is full.
pub Told-client :
    (pool : Pool) (ws : List Worker) (cs : List Client) (d : Destroyer) (i : ℕ) (c : Client)
    → Told pool ws cs d
    → (is_blocked c ≡ false)
      ⊎ ((pool.queue_cur_num ≡ pool.queue_max_num) × (is_closed pool ≡ false))
    → Told pool ws (set cs i c) d
Told-client pool ws cs d i c w how = record {
  workers_told = w.workers_told;
  clients_told = λ n.
      None-set is_blocked idle cs i c (w.clients_told n)
        (elim how [ inl e ↦ e | inr (full, u) ↦ absurd (n full) ]);
  destroyer_told = w.destroyer_told;
  closing = w.closing;
  closed = w.closed;
  drained = w.drained;
  all_awake = w.all_awake;
  all_free = λ r. None-set is_blocked idle cs i c (w.all_free r) (elim how [
    | inl e ↦ e
    | inr (full, u) ↦
        absurd
          (omega (arith, rank_not_closed pool.queue_close pool.pool_close (rank d) u w.closing))
  ]);
  all_gone = w.all_gone;
  exits_closed = w.exits_closed;
}

AllExited-no :
    (ws : List Worker) (i : ℕ)
    → i < length ws
    → is_exited (get_or ws i ready) ≡ false
    → ¬ AllExited ws
AllExited-no ws i lt e all = let yes = all i lt in absurd cc

ExitsClosed-set :
    (pool : Pool) (ws : List Worker) (i : ℕ) (w : Worker)
    → ExitsClosed pool ws
    → (is_exited w ≡ true → pool.pool_close ≡ true)
    → ExitsClosed pool (set ws i w)
ExitsClosed-set pool [] i w x e j = x j
ExitsClosed-set pool (v ∷ ws) zero w x e zero = e
ExitsClosed-set pool (v ∷ ws) zero w x e (suc j) = x (suc j)
ExitsClosed-set pool (v ∷ ws) (suc i) w x e zero = x 0
ExitsClosed-set pool (v ∷ ws) (suc i) w x e (suc j) =
    ExitsClosed-set pool ws i w (λ k. x (suc k)) e j

-- A thread that is not at its end goes on, or it waits for a job while there is none, or it exits when
-- the pool is closed.
pub Told-worker :
    (pool : Pool) (ws : List Worker) (cs : List Client) (d : Destroyer) (i : ℕ) (w : Worker)
    → Told pool ws cs d
    → i < length ws
    → is_exited (get_or ws i ready) ≡ false
    → (is_waiting w ≡ false) ⊎ ((pool.queue_cur_num ≡ 0) × (pool.pool_close ≡ false))
    → (is_exited w ≡ true → pool.pool_close ≡ true)
    → Told pool (set ws i w) cs d
Told-worker pool ws cs d i w t lt alive how leaves = record {
  workers_told = λ n.
      None-set is_waiting ready ws i w (t.workers_told n)
        (elim how [ inl e ↦ e | inr (none_there, u) ↦ absurd (omega arith) ]);
  clients_told = t.clients_told;
  destroyer_told = t.destroyer_told;
  closing = t.closing;
  closed = t.closed;
  drained = t.drained;
  all_awake = λ r. None-set is_waiting ready ws i w (t.all_awake r) (elim how [
    | inl e ↦ e
    | inr (none_there, u) ↦ (let not_yet = t.closed in absurd (ground arith))
  ]);
  all_free = t.all_free;
  all_gone = λ r. absurd (AllExited-no ws i lt alive (t.all_gone r));
  exits_closed = ExitsClosed-set pool ws i w t.exits_closed leaves;
}
