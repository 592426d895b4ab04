-- ===== src/ThreadPool/Ring.antt =====
-- The ring of tasks: `threadpool_add_task` and `threadpool_excute_task` against a queue.
use c_model.Common.{
  ℕ, zero, suc, ◌+◌, ◌-◌, ◌≤◌, ◌<◌, ◌≡◌, refl, List, [], ◌∷◌, ◌++◌, Option, none, some, arith, ltb,
  ◌==◌, if◌then◌else◌, ℤ, pos, negsuc, ap, ◌∙◌, sym, Bool-cases, true, false, inl, inr, ◌≢◌,
}
use c_model.Array.{
  length, get_or, set, store-eq_some, length-set, get_or-set, get_elem?-get_or, length-append,
}
use c_model.Run.{Returns, returns, Returns-if}
use c_model.ThreadPool.{
  ThreadPool, Task, advance, load_from, store_in, threadpool_add_task, threadpool_excute_task,
}

-- The index of the `k`th task after index `start`.
unfoldable pub nth_index : ℕ → ℕ → ℕ → ℕ
nth_index max start k = if ltb max (start + k) then start + k - max else start + k

abbrev pub no_task : Task
no_task = (0, 0)

-- The pool's ring contains the tasks `q`, oldest first.
pub record Holds (p : ThreadPool) (q : List Task) : Type 0 where
  pub args : List ℕ
  pub funs : List ℕ
  pub queue : p.task_queue_ ≡ some args
  pub functions : p.task_fun_ ≡ some funs
  pub size : length args ≡ suc p.max_task_num
  pub sizes : length funs ≡ suc p.max_task_num
  pub from : p.start ≤ p.max_task_num
  pub counted : length q ≡ p.curr_task_num
  pub bounded : p.curr_task_num ≤ p.max_task_num - 1
  pub until : p.end ≡ nth_index p.max_task_num p.start p.curr_task_num
  pub arg_at :
      (k : ℕ)
      → k < p.curr_task_num
      → get_or args (nth_index p.max_task_num p.start k) 0 ≡ (get_or q k no_task).1
  pub fun_at :
      (k : ℕ)
      → k < p.curr_task_num
      → get_or funs (nth_index p.max_task_num p.start k) 0 ≡ (get_or q k no_task).0

get_or-snoc :
    (q : List Task) (t : Task) (k : ℕ)
    → k ≤ length q
    → get_or (q ++ (t ∷ [])) k no_task ≡ (if k == length q then t else get_or q k no_task)
get_or-snoc [] t zero h = refl
get_or-snoc [] t (suc k) h = absurd (omega arith)
get_or-snoc (x ∷ q) t zero h = ground arith
get_or-snoc (x ∷ q) t (suc k) h = get_or-snoc q t k (omega arith) ∙ ground arith

-- The index that comes next is no index in use.
nth_index-apart :
    (max start n k : ℕ)
    → start ≤ max
    → n < max
    → k < n
    → nth_index max start n ≢ nth_index max start k
unfolding nth_index
nth_index-apart max start n k s h l = λ e. ground arith

nth_index-le : (max start n : ℕ) → start ≤ max → n ≤ max → nth_index max start n ≤ max
unfolding nth_index
nth_index-le max start n s h = ground arith

nth_index-suc :
    (max start n : ℕ)
    → start ≤ max
    → n < max
    → nth_index max start (suc n) ≡ advance max (nth_index max start n)
unfolding nth_index advance
nth_index-suc max start n s h = ground arith

nth_index-advance :
    (max start k : ℕ)
    → start ≤ max
    → suc k < max
    → nth_index max (advance max start) k ≡ nth_index max start (suc k)
unfolding nth_index advance
nth_index-advance max start k s h = ground arith

-- What adding `t` to a pool with the tasks `q` leads to: below its limit of `max_task_num` - 1 tasks it
-- takes `t` as the newest; at the limit it refuses, and stays as it was.
pub data Added (p : ThreadPool) (q : List Task) (t : Task) : ℤ × ThreadPool → Type 0 where
  accepted :
      {p' : ThreadPool}
      → length q + 2 ≤ p.max_task_num
      → Holds p' (q ++ (t ∷ []))
      → p'.max_task_num ≡ p.max_task_num
      → Added p q t (pos 0, p')
  refused : p.max_task_num < length q + 2 → Added p q t (negsuc 0, p)

module _ (p : ThreadPool) (q : List Task) (f a : ℕ) (h : Holds p q) where
  next_end : p.end ≤ p.max_task_num
  next_end = omega (
    arith,
    h.until,
    h.bounded,
    h.from,
    nth_index-le p.max_task_num p.start p.curr_task_num h.from (omega (arith, h.bounded)),
  )

  slots_after :
      (xs : List ℕ) (part : Task → ℕ)
      → length xs ≡ suc p.max_task_num
      → p.curr_task_num + 2 ≤ p.max_task_num
      → ((k : ℕ)
          → k < p.curr_task_num
          → get_or xs (nth_index p.max_task_num p.start k) 0 ≡ part (get_or q k no_task))
      → (k : ℕ) → k < suc p.curr_task_num
      → get_or (set xs p.end (part (f, a))) (nth_index p.max_task_num p.start k) 0
        ≡ part (get_or (q ++ ((f, a) ∷ [])) k no_task)
  slots_after xs part size room before k below =
      let n = p.curr_task_num in
      let m = p.max_task_num in
      let at = nth_index m p.start in
      rw
        (
          get_or-set xs p.end (at k) (part (f, a)) 0 (omega (arith, next_end)),
          get_or-snoc q (f, a) k (omega (arith, h.counted)),
          h.counted,
          h.until,
        )
        (elim (Bool-cases (k == n)) [
          | inl e ↦
              let same : k ≡ n = ground arith in
              let hit : (at n == at k) ≡ true = ground (arith, ap at same) in rw (e, hit) refl
          | inr e ↦
              let other = nth_index-apart m p.start n k h.from (omega arith) (ground arith) in
              let miss : (at n == at k) ≡ false = ground (arith, other) in
              rw (e, miss) (before k (ground arith))
        ])

  enqueued-Holds :
      (room : p.curr_task_num + 2 ≤ p.max_task_num)
      → Holds
          (record p {
            curr_task_num = suc p.curr_task_num;
            task_queue_ = some (set h.args p.end a);
            task_fun_ = some (set h.funs p.end f);
            end = advance p.max_task_num p.end;
          })
          (q ++ ((f, a) ∷ []))
  enqueued-Holds room =
      let n = p.curr_task_num in
      let m = p.max_task_num in
      let at = nth_index m p.start in
      record {
        args = set h.args p.end a;
        funs = set h.funs p.end f;
        queue = refl;
        functions = refl;
        size = length-set h.args p.end a ∙ h.size;
        sizes = length-set h.funs p.end f ∙ h.sizes;
        from = h.from;
        counted = omega (arith, h.counted, length-append q ((f, a) ∷ []));
        bounded = omega (arith, room);
        until = ap (advance m) h.until ∙ sym (nth_index-suc m p.start n h.from (omega arith));
        arg_at = slots_after h.args (λ t. t.1) h.size room h.arg_at;
        fun_at = slots_after h.funs (λ t. t.0) h.sizes room h.fun_at;
      }

  -- `threadpool_add_task` does not fault. With fewer than `max_task_num` - 1 tasks in the ring it returns
  -- 0 and the task is the newest; otherwise it returns -1 and nothing changes.
  pub add_task_enqueues : Returns (Added p q (f, a)) (threadpool_add_task p f a)
  unfolding threadpool_add_task store_in
  add_task_enqueues =
      Returns-if (ltb p.max_task_num (p.curr_task_num + 2))
        (λ e. returns (refused (ground (arith, h.counted))))
        λ e.
          rw
            (
              h.queue,
              store-eq_some h.args p.end a (omega (arith, h.size, next_end)),
              h.functions,
              store-eq_some h.funs p.end f (omega (arith, h.sizes, next_end)),
            )
            (returns (accepted (ground (arith, h.counted)) (enqueued-Holds (ground arith)) refl))

-- What one round of a worker leads to: it has the oldest task, or there is none and it waits.
pub data Taken (p : ThreadPool) : List Task → Option Task × ThreadPool → Type 0 where
  oldest :
      {t : Task} {q : List Task} {p' : ThreadPool}
      → Holds p' q
      → p'.max_task_num ≡ p.max_task_num
      → Taken p (t ∷ q) (some t, p')
  nothing : Taken p [] (none, p)

module _ (p : ThreadPool) (t : Task) (q : List Task) (h : Holds p (t ∷ q)) where
  dequeued-Holds :
      Holds
        (record p { start = advance p.max_task_num p.start; curr_task_num = p.curr_task_num - 1 })
        q
  unfolding advance
  dequeued-Holds =
      let n = p.curr_task_num - 1 in
      let m = p.max_task_num in
      let size : p.curr_task_num ≡ suc n = omega (arith, h.counted) in
      let room : suc n < m = omega (arith, h.bounded) in
      record {
        args = h.args;
        funs = h.funs;
        queue = h.queue;
        functions = h.functions;
        size = h.size;
        sizes = h.sizes;
        from = ground arith;
        counted = omega (arith, h.counted);
        bounded = omega (arith, h.bounded);
        until =
            h.until
            ∙ ap (nth_index m p.start) size
            ∙ sym (nth_index-advance m p.start n h.from room);
        arg_at = λ k below.
            ap (λ i. get_or h.args i 0) (nth_index-advance m p.start k h.from (omega arith))
            ∙ h.arg_at (suc k) (omega arith);
        fun_at = λ k below.
            ap (λ i. get_or h.funs i 0) (nth_index-advance m p.start k h.from (omega arith))
            ∙ h.fun_at (suc k) (omega arith);
      }

  start_at : nth_index p.max_task_num p.start 0 ≡ p.start
  unfolding nth_index
  start_at = ground (arith, h.from)

  loaded_arg : load_from p.task_queue_ p.start ≡ some t.1
  unfolding load_from
  loaded_arg =
      let arg : get_or h.args p.start 0 ≡ t.1 =
        ap (λ i. get_or h.args i 0) (sym start_at) ∙ h.arg_at 0 (omega (arith, h.counted)) in
      rw (h.queue, get_elem?-get_or h.args p.start 0 (omega (arith, h.size, h.from)), arg) refl

  loaded_fun : load_from p.task_fun_ p.start ≡ some t.0
  unfolding load_from
  loaded_fun =
      let fun : get_or h.funs p.start 0 ≡ t.0 =
        ap (λ i. get_or h.funs i 0) (sym start_at) ∙ h.fun_at 0 (omega (arith, h.counted)) in
      rw (h.functions, get_elem?-get_or h.funs p.start 0 (omega (arith, h.sizes, h.from)), fun) refl

  taken-oldest : Returns (Taken p (t ∷ q)) (threadpool_excute_task p)
  unfolding threadpool_excute_task
  taken-oldest =
      let used : ltb 0 p.curr_task_num ≡ true = ground (arith, h.counted) in
      rw (used, loaded_arg, loaded_fun) (returns (oldest dequeued-Holds refl))

-- One round of `threadpool_excute_task` does not fault. It takes the oldest task out of the ring, its
-- function with its own argument; it waits only if there is none.
pub excute_task_dequeues :
    (p : ThreadPool) (q : List Task) → Holds p q → Returns (Taken p q) (threadpool_excute_task p)
unfolding threadpool_excute_task
excute_task_dequeues p [] h =
    let none_left : ltb 0 p.curr_task_num ≡ false = ground (arith, h.counted) in
    rw none_left (returns nothing)
excute_task_dequeues p (t ∷ q) h = taken-oldest p t q h
