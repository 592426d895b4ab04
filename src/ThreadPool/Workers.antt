-- ===== src/ThreadPool/Workers.antt =====
-- The pool while clients add tasks and its threads work: the sections that the mutex protects, and the
-- condition variable, as steps in any order.
use c_model.Common.{
  ℕ, ◌<◌, ◌≡◌, refl, List, [], ◌∷◌, ◌++◌, Option, none, some, arith, pos, negsuc, ap, ◌∙◌, sym,
  subst, Bool, true, false, append_assoc, ◌⊎◌, inl, inr, ◌==◌,
}
use c_model.Array.{length, get_or, set, length-set, get_or-set, replicate, length-replicate}
use c_model.Run.{Returns-at}
use c_model.ThreadPool.{ThreadPool, Task, threadpool_add_task, threadpool_excute_task}
use c_model.ThreadPool.Threads.{Created}
use c_model.ThreadPool.Ring.{Holds, Added, Taken, add_task_enqueues, excute_task_dequeues}

-- What a thread of the pool does: it is about to lock the mutex, it waits on the condition variable, or
-- it runs a task.
pub data Worker : Type 0 where
  ready waiting : Worker
  running : Task → Worker

abbrev pub is_waiting : Worker → Bool
is_waiting ready = false
is_waiting waiting = true
is_waiting (running t) = false

-- The pool with its threads; `accepted` lists the tasks for which `threadpool_add_task` returned 0, and
-- `started` those that a thread has taken, both oldest first.
pub record System : Type 0 where
  pub pool : ThreadPool
  pub workers : List Worker
  pub accepted : List Task
  pub started : List Task

-- `pthread_cond_signal` wakes a thread that waits, if there is one.
pub data Signalled (ws : List Worker) : List Worker → Type 0 where
  unheard : ((i : ℕ) → i < length ws → is_waiting (get_or ws i ready) ≡ false) → Signalled ws ws
  woken :
      (i : ℕ)
      → i < length ws
      → is_waiting (get_or ws i ready) ≡ true
      → Signalled ws (set ws i ready)

-- One step: of a client that adds a task, or of thread `i`.
pub data Step (s : System) : System → Type 0 where
  adds :
      {p : ThreadPool} {ws : List Worker} (t : Task)
      → threadpool_add_task s.pool t.0 t.1 ≡ some (pos 0, p)
      → Signalled s.workers ws
      → Step s (record s { pool = p; workers = ws; accepted = s.accepted ++ (t ∷ []) })
  rejects :
      {p : ThreadPool} (t : Task)
      → threadpool_add_task s.pool t.0 t.1 ≡ some (negsuc 0, p)
      → Step s (record s { pool = p })
  takes :
      {p : ThreadPool} (i : ℕ) (t : Task)
      → i < length s.workers
      → get_or s.workers i ready ≡ ready
      → threadpool_excute_task s.pool ≡ some (some t, p)
      → Step s (record s {
        pool = p;
        workers = set s.workers i (running t);
        started = s.started ++ (t ∷ []);
      })
  waits :
      {p : ThreadPool} (i : ℕ)
      → i < length s.workers
      → get_or s.workers i ready ≡ ready
      → threadpool_excute_task s.pool ≡ some (none, p)
      → Step s (record s { pool = p; workers = set s.workers i waiting })
  -- `task_fun(tmp_arg)` returns
  finishes :
      (i : ℕ) (t : Task)
      → i < length s.workers
      → get_or s.workers i ready ≡ running t
      → Step s (record s { workers = set s.workers i ready })
  -- `pthread_cond_wait` returns without a signal
  wakes :
      (i : ℕ)
      → i < length s.workers
      → get_or s.workers i ready ≡ waiting
      → Step s (record s { workers = set s.workers i ready })

pub data Reachable (s : System) : System → Type 0 where
  at_start : Reachable s s
  further : {u v : System} → Reachable s u → Step u v → Reachable s v

abbrev pub Awake : List Worker → Type 0
Awake ws = (i : ℕ) × (i < length ws) × (is_waiting (get_or ws i ready) ≡ false)

-- The tasks accepted are those started, in the same order, and after them those in the ring; and while
-- the ring has a task, some thread does not wait.
pub record Valid (s : System) : Type 0 where
  pub ring : List Task
  pub holds : Holds s.pool ring
  pub in_order : s.accepted ≡ s.started ++ ring
  pub awake : 0 < length ring → Awake s.workers
  pub staffed : 0 < length s.workers

added-inv :
    {p p' : ThreadPool} {q : List Task} {t : Task}
    → Added p q t (pos 0, p')
    → Holds p' (q ++ (t ∷ []))
added-inv (Added.accepted room h limit) = h

refused-inv : {p p' : ThreadPool} {q : List Task} {t : Task} → Added p q t (negsuc 0, p') → p' ≡ p
refused-inv (Added.refused full) = refl

oldest-inv :
    {p p' : ThreadPool} {q : List Task} {t : Task}
    → Taken p q (some t, p')
    → (r : List Task) × (q ≡ t ∷ r) × Holds p' r
oldest-inv (Taken.oldest h limit) = (_, refl, h)

nothing-inv : {p p' : ThreadPool} {q : List Task} → Taken p q (none, p') → (q ≡ []) × (p' ≡ p)
nothing-inv Taken.nothing = (refl, refl)

Awake-set :
    (ws : List Worker) (i : ℕ) (w : Worker)
    → i < length ws
    → is_waiting w ≡ false
    → Awake (set ws i w)
Awake-set ws i w h e =
    let hit : (i == i) ≡ true = ground arith in
    let here : get_or (set ws i w) i ready ≡ w = get_or-set ws i i w ready h ∙ rw hit refl in
    (i, omega (arith, length-set ws i w), ap is_waiting here ∙ e)

Awake-Signalled : (ws ws' : List Worker) → 0 < length ws → Signalled ws ws' → Awake ws'
Awake-Signalled ws ws' h (unheard none_waits) = (0, h, none_waits 0 h)
Awake-Signalled ws ws' h (woken i below w) = Awake-set ws i ready below refl

length-Signalled : (ws ws' : List Worker) → Signalled ws ws' → length ws' ≡ length ws
length-Signalled ws ws' (unheard none_waits) = refl
length-Signalled ws ws' (woken i below w) = length-set ws i ready

-- A worker's state changes, and the pool does not.
changed-Valid :
    (s : System) (i : ℕ) (w : Worker)
    → i < length s.workers
    → is_waiting w ≡ false
    → Valid s
    → Valid (record s { workers = set s.workers i w })
changed-Valid s i w below e v = record {
  ring = v.ring;
  holds = v.holds;
  in_order = v.in_order;
  awake = λ h. Awake-set s.workers i w below e;
  staffed = omega (arith, v.staffed, length-set s.workers i w);
}

step-Valid : (s u : System) → Valid s → Step s u → Valid u
step-Valid s u v (adds t e g) = record {
  ring = v.ring ++ (t ∷ []);
  holds = added-inv (Returns-at (add_task_enqueues s.pool v.ring t.0 t.1 v.holds) e);
  in_order = ap (λ l. l ++ (t ∷ [])) v.in_order ∙ append_assoc s.started v.ring (t ∷ []);
  awake = λ h. Awake-Signalled s.workers u.workers v.staffed g;
  staffed = omega (arith, v.staffed, length-Signalled s.workers u.workers g);
}
step-Valid s u v (rejects t e) =
    let same = refused-inv (Returns-at (add_task_enqueues s.pool v.ring t.0 t.1 v.holds) e) in
    record {
      ring = v.ring;
      holds = subst (λ p. Holds p v.ring) (sym same) v.holds;
      in_order = v.in_order;
      awake = v.awake;
      staffed = v.staffed;
    }
step-Valid s u v (takes i t below r e) =
    let (rest, split, left) =
      oldest-inv (Returns-at (excute_task_dequeues s.pool v.ring v.holds) e) in
    record {
      ring = rest;
      holds = left;
      in_order =
          v.in_order ∙ ap (◌++◌ s.started) split ∙ sym (append_assoc s.started (t ∷ []) rest);
      awake = λ h. Awake-set s.workers i (running t) below refl;
      staffed = omega (arith, v.staffed, length-set s.workers i (running t));
    }
step-Valid s u v (waits i below r e) =
    let (nothing_left, same) =
      nothing-inv (Returns-at (excute_task_dequeues s.pool v.ring v.holds) e) in
    record {
      ring = v.ring;
      holds = subst (λ p. Holds p v.ring) (sym same) v.holds;
      in_order = v.in_order;
      awake = λ h. absurd (omega (arith, h, ap length nothing_left));
      staffed = omega (arith, v.staffed, length-set s.workers i waiting);
    }
step-Valid s u v (finishes i t below r) = changed-Valid s i ready below refl v
step-Valid s u v (wakes i below r) = changed-Valid s i ready below refl v

-- However clients and threads take turns: from a valid system only valid ones are reached. Every task
-- accepted has been started, once and in the order of acceptance, or still waits in the ring in that
-- order; and while one waits there, some thread does not wait for a signal.
pub Reachable-Valid : (s u : System) → Valid s → Reachable s u → Valid u
Reachable-Valid s u v at_start = v
Reachable-Valid s u v (further {u = m} r step) = step-Valid m u (Reachable-Valid s m v r) step

-- The pool of `n` threads that `threadpool_create` returned, none of which has run.
abbrev pub started_up : ℕ → ThreadPool → System
started_up n p = record { pool = p; workers = replicate n ready; accepted = []; started = [] }

-- A pool that `threadpool_create` returned makes a valid system with its threads.
pub Created-Valid :
    (n max : ℕ) (th : ℕ → ℕ) (p : ThreadPool) → 0 < n → Created n th max p → Valid (started_up n p)
Created-Valid n max th p h c = record {
  ring = [];
  holds = c.no_task;
  in_order = refl;
  awake = λ e. absurd (omega arith);
  staffed = omega (arith, length-replicate n ready);
}

-- Thread `i` can go on: its task ends, or it can take a task.
abbrev pub CanServe : System → ℕ → Type 0
CanServe s i =
    ((t : Task) × (get_or s.workers i ready ≡ running t))
    ⊎ ((get_or s.workers i ready ≡ ready)
        × (t : Task) × (p : ThreadPool) × (threadpool_excute_task s.pool ≡ some (some t, p)))

taken-some :
    {p : ThreadPool} {q : List Task} {r : Option Task × ThreadPool}
    → Taken p q r
    → 0 < length q
    → (t : Task) × (p' : ThreadPool) × (r ≡ (some t, p'))
taken-some (Taken.oldest h limit) used = (_, _, refl)
taken-some Taken.nothing used = absurd (omega arith)

can_take :
    (s : System)
    → Valid s
    → 0 < s.pool.curr_task_num
    → (t : Task) × (p : ThreadPool) × (threadpool_excute_task s.pool ≡ some (some t, p))
can_take s v h =
    let r = excute_task_dequeues s.pool v.ring v.holds in
    let (t, p, e) = taken-some r.holds (omega (arith, v.holds.counted)) in
    (t, p, r.ends ∙ ap some e)

serving :
    (s : System) (i : ℕ) (w : Worker)
    → Valid s
    → 0 < s.pool.curr_task_num
    → get_or s.workers i ready ≡ w
    → is_waiting w ≡ false
    → CanServe s i
serving s i ready v h e n = let (t, p, took) = can_take s v h in inr (e, t, p, took)
serving s i waiting v h e n = absurd cc
serving s i (running t) v h e n = inl (t, e)

task_served :
    (s : System)
    → Valid s
    → 0 < s.pool.curr_task_num
    → (i : ℕ) × (i < length s.workers) × CanServe s i
task_served s v h =
    let (i, below, e) = v.awake (omega (arith, v.holds.counted)) in
    (i, below, serving s i (get_or s.workers i ready) v h refl e)

-- No task is forgotten: however clients and the threads of a pool that `threadpool_create` returned take
-- turns, with at least one thread, while the ring has a task, some thread runs a task or can take one
-- now, without a further signal.
pub tasks_served :
    (n max : ℕ) (th : ℕ → ℕ) (p : ThreadPool)
    → 0 < n
    → Created n th max p
    → (s : System) → Reachable (started_up n p) s
    → 0 < s.pool.curr_task_num
    → (i : ℕ) × (i < length s.workers) × CanServe s i
tasks_served n max th p staffed c s r h =
    task_served s (Reachable-Valid (started_up n p) s (Created-Valid n max th p staffed c) r) h
