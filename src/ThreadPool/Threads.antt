-- ===== src/ThreadPool/Threads.antt =====
-- `threadpool_create`, `threadpool_stop_all_task` and `threadpool_destroy`: the threads that are made
-- and stopped.
use c_model.Common.{
  ℕ, zero, suc, ◌+◌, ◌≤◌, ◌<◌, ◌≡◌, refl, List, [], ◌∷◌, Option, none, some, arith, ltb, ◌==◌,
  ==-eq, pos, ap, ◌∙◌, subst, Bool-cases, Option-cases, inl, inr, true, false,
}
use c_model.Array.{
  length, get_or, set, length-replicate, get_or-replicate, store-eq_some, length-set, get_or-set,
  get_elem?-get_or,
}
use c_model.Run.{Returns, returns, Returns-map}
use c_model.ThreadPool.{
  ThreadPool, max_thread_num, thread_at, stop_from, threadpool_stop_all_task, free_queues,
  threadpool_destroy, create_from, clamped, initial, threadpool_create, threadpool_excute_task,
  load_from,
}
use c_model.ThreadPool.Ring.{Holds, nth_index}

-- The identifiers `th i`, `th (i + 1)` and so on, `k` of them.
unfoldable pub identifiers : (ℕ → ℕ) → ℕ → ℕ → List ℕ
identifiers th i zero = []
identifiers th i (suc k) = th i ∷ identifiers th (suc i) k

-- The array of a pool of `n` threads when `i` of them are made: their number, their identifiers, and
-- nothing behind these.
pub record Made (n : ℕ) (th : ℕ → ℕ) (i : ℕ) (thread_ : List (Option ℕ)) : Type 0 where
  pub size : length thread_ ≡ suc max_thread_num
  pub number : get_or thread_ 0 none ≡ some n
  pub made : (j : ℕ) → j < i → get_or thread_ (suc j) none ≡ some (th j)
  pub unset : (j : ℕ) → i ≤ j → get_or thread_ (suc j) none ≡ none

thread_at-get_or : (t : List (Option ℕ)) (i : ℕ) → i < length t → thread_at t i ≡ get_or t i none
unfolding thread_at
thread_at-get_or t i h = rw (get_elem?-get_or t i none h) refl

module _ (n : ℕ) (th : ℕ → ℕ) (bound : n ≤ max_thread_num) where
  stop_from-identifiers :
      (k i : ℕ) (t : List (Option ℕ))
      → k + i ≡ n
      → Made n th n t
      → stop_from k (suc i) t ≡ some (identifiers th i k)
  unfolding stop_from identifiers
  stop_from-identifiers zero i t e m = refl
  stop_from-identifiers (suc k) i t e m =
      rw
        (
          thread_at-get_or t (suc i) (omega (arith, m.size)),
          m.made i (omega arith),
          stop_from-identifiers k (suc i) t (omega arith) m,
        )
        refl

  pub destroy-identifiers :
      (p : ThreadPool) → Made n th n p.thread_ → threadpool_destroy p ≡ some (identifiers th 0 n)
  unfolding threadpool_destroy threadpool_stop_all_task free_queues
  destroy-identifiers p m =
      rw
        (
          thread_at-get_or p.thread_ 0 (omega (arith, m.size)),
          m.number,
          stop_from-identifiers n 0 p.thread_ (omega arith) m,
          store-eq_some p.thread_ 0 (some 0) (omega (arith, m.size)),
        )
        refl

  set-Made :
      (i : ℕ) (t : List (Option ℕ))
      → i < n
      → Made n th i t
      → Made n th (suc i) (set t (suc i) (some (th i)))
  set-Made i t h m =
      let at = λ (j : ℕ). get_or-set t (suc i) j (some (th i)) none (omega (arith, m.size)) in
      record {
        size = length-set t (suc i) (some (th i)) ∙ m.size;
        number = at 0 ∙ ground (arith, m.number);
        made = λ j below. at (suc j) ∙ elim (Bool-cases (suc i == suc j)) [
          | inl e ↦ rw e (ap (λ k. some (th k)) (ground arith))
          | inr e ↦ rw e (m.made j (ground arith))
        ];
        unset = λ j above.
            let other : (suc i == suc j) ≡ false = ground arith in
            at (suc j) ∙ rw other (m.unset j (omega arith));
      }

  initial-Made : (max : ℕ) (args funs : List ℕ) → Made n th 0 (initial n max args funs).thread_
  unfolding initial
  initial-Made max args funs = record {
    size = ap suc (length-replicate {A = Option ℕ} max_thread_num none);
    number = refl;
    made = λ j h. absurd (omega arith);
    unset = λ j h. get_or-replicate max_thread_num j none;
  }

  create_from-Made :
      (create : ℕ → Option ℕ) (k i : ℕ) (p : ThreadPool)
      → ((j : ℕ) → j < n → create j ≡ some (th j))
      → k + i ≡ n
      → Made n th i p.thread_
      → Returns
          (λ r. (t : List (Option ℕ)) × (r ≡ some (record p { thread_ = t })) × Made n th n t)
          (create_from k create i p)
  unfolding create_from
  create_from-Made create zero i p ok e m =
      returns (p.thread_, refl, subst (λ k. Made n th k p.thread_) (omega arith) m)
  create_from-Made create (suc k) i p ok e m =
      rw
        (
          ok i (omega arith),
          create_from,
          store-eq_some p.thread_ (suc i) (some (th i)) (omega (arith, m.size)),
        )
        (create_from-Made create k (suc i)
          (record p { thread_ = set p.thread_ (suc i) (some (th i)) }) ok (omega arith)
          (set-Made i p.thread_ (omega arith) m))

  stop_from-unset :
      (k i j : ℕ) (t : List (Option ℕ))
      → i ≤ j
      → j < i + k
      → i + k ≤ length t
      → get_or t j none ≡ none
      → stop_from k i t ≡ none
  unfolding stop_from
  stop_from-unset zero i j t le lt fits u = absurd (omega arith)
  stop_from-unset (suc k) i j t le lt fits u = elim (Bool-cases (i == j)) [
    | inl e ↦
        let here : thread_at t i ≡ none =
          thread_at-get_or t i (omega arith) ∙ ap (λ l. get_or t l none) (==-eq i j e) ∙ u in
        rw here refl
    | inr e ↦
        let later = stop_from-unset k (suc i) j t (ground arith) (omega arith) (omega arith) u in
        elim (Option-cases (thread_at t i)) [
          | inl gone ↦ rw gone refl
          | inr (a, found) ↦ rw (found, later) refl
        ]
  ]

  create_from-failing :
      (create : ℕ → Option ℕ) (k i f : ℕ) (p : ThreadPool)
      → ((j : ℕ) → j < f → create j ≡ some (th j))
      → create f ≡ none
      → i ≤ f
      → f < n
      → k + i ≡ n
      → Made n th i p.thread_
      → create_from k create i p ≡ none
  unfolding create_from threadpool_destroy threadpool_stop_all_task free_queues
  create_from-failing create zero i f p ok fail le lt e m = absurd (omega arith)
  create_from-failing create (suc k) i f p ok fail le lt e m = elim (Bool-cases (i == f)) [
    | inl eq ↦
        let here : create i ≡ none = ap create (==-eq i f eq) ∙ fail in
        let unset = m.unset i (omega arith) in
        rw
          (
            here,
            create_from,
            thread_at-get_or p.thread_ 0 (omega (arith, m.size)),
            m.number,
            stop_from-unset n 1 (suc i) p.thread_ (omega arith) (omega arith)
                (omega (arith, m.size)) unset,
          )
          refl
    | inr ne ↦
        rw
          (
            ok i (ground arith),
            create_from,
            store-eq_some p.thread_ (suc i) (some (th i)) (omega (arith, m.size)),
          )
          (create_from-failing create k (suc i) f
            (record p { thread_ = set p.thread_ (suc i) (some (th i)) }) ok fail (ground arith) lt
            (omega arith) (set-Made i p.thread_ (omega arith) m))
  ]

clamped-bound : (thread_num : ℕ) → thread_num ≤ max_thread_num → clamped thread_num ≤ max_thread_num
unfolding clamped
clamped-bound thread_num h = ground arith

-- The pool that `threadpool_create` returns: it has no task, and the `n` threads `th`.
pub record Created (n : ℕ) (th : ℕ → ℕ) (max : ℕ) (p : ThreadPool) : Type 0 where
  pub no_task : Holds p []
  pub limit : p.max_task_num ≡ max
  pub threads : Made n th n p.thread_
  pub thread_count : p.threadnum_ ≡ n

pub initial-Created :
    (n max : ℕ) (args funs : List ℕ) (th : ℕ → ℕ) (t : List (Option ℕ))
    → length args ≡ suc max
    → length funs ≡ suc max
    → Made n th n t
    → Created n th max (record (initial n max args funs) { thread_ = t })
unfolding initial nth_index
initial-Created n max args funs th t size sizes m = record {
  no_task = record {
    args = args;
    funs = funs;
    queue = refl;
    functions = refl;
    size = size;
    sizes = sizes;
    from = omega arith;
    counted = refl;
    bounded = omega arith;
    until = ground arith;
    arg_at = λ k h. absurd (omega arith);
    fun_at = λ k h. absurd (omega arith);
  };
  limit = refl;
  threads = m;
  thread_count = refl;
}

module _ (thread_num max : ℕ) (create : ℕ → Option ℕ) (th : ℕ → ℕ) (args funs : List ℕ)
    (bound : thread_num ≤ max_thread_num) where
  -- If `pthread_create` gives the thread `th j` in its `j`th call and the two blocks have the size that
  -- was asked for, `threadpool_create` of at most 256 threads returns a pool without tasks that has
  -- exactly these threads, as many as asked for and at least one.
  pub create_starts_threads :
      length args ≡ suc max
      → length funs ≡ suc max
      → ((j : ℕ) → j < clamped thread_num → create j ≡ some (th j))
      → Returns
          (λ r. (p : ThreadPool) × (r ≡ some p) × Created (clamped thread_num) th max p)
          (threadpool_create (pos thread_num) max create args funs)
  unfolding threadpool_create
  create_starts_threads size sizes ok =
      let n = clamped thread_num in
      let fits : ltb max_thread_num thread_num ≡ false = ground arith in
      let small = clamped-bound thread_num bound in
      rw fits (
        Returns-map
          (create_from-Made n th small create n 0 (initial n max args funs) ok (omega arith)
            (initial-Made n th small max args funs))
          λ r (t, e, m). (_, e, initial-Created n max args funs th t size sizes m))

  -- If a call of `pthread_create` fails, the clean-up in `threadpool_create` is undefined behaviour: the
  -- array's count is that of all threads, and an identifier that was never written is cancelled.
  pub create-thread_failure :
      (f : ℕ)
      → f < clamped thread_num
      → ((j : ℕ) → j < f → create j ≡ some (th j))
      → create f ≡ none
      → threadpool_create (pos thread_num) max create args funs ≡ none
  unfolding threadpool_create
  create-thread_failure f lt ok fail =
      let n = clamped thread_num in
      let fits : ltb max_thread_num thread_num ≡ false = ground arith in
      let small = clamped-bound thread_num bound in
      rw fits (
        create_from-failing n th small create n 0 f (initial n max args funs) ok fail (omega arith)
          lt (omega arith) (initial-Made n th small max args funs))

-- `threadpool_destroy` of a pool with `n` threads reads no identifier that was not written, and hands
-- each of them, in the order in which they were made, to `pthread_cancel` and `pthread_join`.
pub destroy_stops_threads :
    (n max : ℕ) (th : ℕ → ℕ) (p : ThreadPool)
    → n ≤ max_thread_num
    → Created n th max p
    → threadpool_destroy p ≡ some (identifiers th 0 n)
destroy_stops_threads n max th p bound c = destroy-identifiers n th bound p c.threads

-- Between the two calls of `free` in `threadpool_destroy` and the end of the workers, a worker that finds
-- a task reads from a freed block.
pub excute_task-freed :
    (p : ThreadPool) → 0 < p.curr_task_num → threadpool_excute_task (free_queues p) ≡ none
unfolding threadpool_excute_task free_queues load_from
excute_task-freed p h = let used : ltb 0 p.curr_task_num ≡ true = ground arith in rw used refl
