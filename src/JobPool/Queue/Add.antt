-- ===== src/JobPool/Queue/Add.antt =====
-- `threadpool_add_job`: the queue with one more job.
use c_model.Common.{
  ℕ, suc, ◌+◌, ◌≤◌, ◌<◌, ◌≡◌, ◌≢◌, refl, ap, sym, subst, ◌∙◌, List, [], ◌∷◌, ◌++◌, Option, none,
  some, arith, Bool, true, false, ◌==◌, ==-eq, if◌then◌else◌, Bool-cases, inl, inr, ◌⊎◌,
}
use c_model.Array.{length-append, count, count-append}
use c_model.Run.{Returns, returns, Returns-bind}
use c_model.JobPool.{
  null, Task, Job, Store, write, Pool, Adding, waits_for_room, refused, added, is_closed, set_next,
  append_job, threadpool_add_job,
}
use c_model.JobPool.Queue.{
  Cell, pointers, last_of, job_with, Linked, Holds, pointers-append, Linked-ext, Linked-live,
  last_of-member, last_of-append,
}

write_hit : (s : Store) (p : ℕ) (j : Job) → write s p j p ≡ some j
write_hit s p j = let hit : (p == p) ≡ true = ground arith in rw hit refl

write_miss : (s : Store) (p r : ℕ) (j : Job) → p ≢ r → write s p j r ≡ s r
write_miss s p r j n = let miss : (p == r) ≡ false = ground arith in rw miss refl

pub count-here : (p : ℕ) (ps : List ℕ) → count p (p ∷ ps) ≡ suc (count p ps)
count-here p ps = let hit : (p == p) ≡ true = ground arith in rw hit (omega arith)

-- The last job is linked to a new one.
Linked-snoc :
    (s : Store) (c : Cell) (q : List Cell) (p : ℕ) (t : Task)
    → Linked s (c ∷ q)
    → ((r : ℕ) → count r (pointers (c ∷ q)) ≤ 1)
    → count p (pointers (c ∷ q)) ≡ 0
    → s p ≡ some (job_with t null)
    → (j : Job) × (s (last_of (c ∷ q)) ≡ some j)
      × Linked (write s (last_of (c ∷ q)) (record j { next = p })) (c ∷ q ++ (p, t) ∷ [])
Linked-snoc s c [] p t (here, l) once new at_p =
    (_, here, (write_hit s c.0 _, (write_miss s c.0 p _ (ground arith) ∙ at_p, tt)))
Linked-snoc s c (d ∷ q) p t (here, l) once new at_p =
    let (j, found, linked) =
      Linked-snoc s d q p t l (λ r. omega (arith, once r)) (omega arith) at_p in
    let apart : last_of (d ∷ q) ≢ c.0 = λ e. absurd (
      omega (
        arith,
        once c.0,
        count-here c.0 (pointers (d ∷ q)),
        last_of-member d q,
        ap (λ r. count r (pointers (d ∷ q))) e,
      )) in
    (j, found, (write_miss s (last_of (d ∷ q)) c.0 _ apart ∙ here, linked))

-- What `malloc` returns: NULL, or a pointer that is not in use.
abbrev pub Fresh : Pool → Option ℕ → Type 0
Fresh pool none = Unit
Fresh pool (some p) = (p ≢ null) × (pool.jobs p ≡ none)

-- The pool has one more job, at the end; the rest of it and the other jobs in the store are as before.
pub record Appended (pool : Pool) (q : List Cell) (c : Cell) (pool' : Pool) : Type 0 where
  pub holds : Holds pool' (q ++ c ∷ [])
  pub more : pool'.queue_cur_num ≡ suc pool.queue_cur_num
  pub same_max : pool'.queue_max_num ≡ pool.queue_max_num
  pub same_close : (pool'.queue_close ≡ pool.queue_close) × (pool'.pool_close ≡ pool.pool_close)
  pub kept : (p : ℕ) → count p (pointers (q ++ c ∷ [])) ≡ 0 → pool'.jobs p ≡ pool.jobs p

-- What an attempt to add a job leads to: a wait, only if the queue is full and nothing is closed; a
-- refusal, only if something is closed or there is no memory; or the job stands at the end of the
-- queue, and all threads are signalled if it is the first one.
pub data AddedTo (pool : Pool) (q : List Cell) (t : Task) (mem : Option ℕ) : Adding → Type 0 where
  must_wait :
      pool.queue_cur_num ≡ pool.queue_max_num
      → is_closed pool ≡ false
      → AddedTo pool q t mem waits_for_room
  turned_away : (is_closed pool ≡ true) ⊎ (mem ≡ none) → AddedTo pool q t mem refused
  queued :
      {pool' : Pool} {first : Bool} (p : ℕ)
      → is_closed pool ≡ false
      → mem ≡ some p
      → first ≡ (pool.queue_cur_num == 0)
      → Appended pool q (p, t) pool'
      → AddedTo pool q t mem (added first pool')

pub not_member :
    (s : Store) (q : List Cell) (p : ℕ) → Linked s q → s p ≡ none → count p (pointers q) ≡ 0
not_member s q p l e = elim (Bool-cases (count p (pointers q) == 0)) [
  | inl z ↦ ==-eq _ 0 z
  | inr z ↦ (let (j, found) = Linked-live s q p l (ground arith) in absurd cc)
]

pub count-snoc :
    (r p : ℕ) (t : Task) (q : List Cell)
    → count r (pointers (q ++ (p, t) ∷ [])) ≡ count r (pointers q) + (if p == r then 1 else 0)
count-snoc r p t q =
    ap (count r) (pointers-append q ((p, t) ∷ []))
    ∙ count-append r (pointers q) (p ∷ [])
    ∙ omega arith

module _ (pool : Pool) (t : Task) (p : ℕ) (full : pool.queue_cur_num < pool.queue_max_num)
    (fresh : (p ≢ null) × (pool.jobs p ≡ none)) where
  appended_once :
      (q : List Cell) → Holds pool q → (r : ℕ) → count r (pointers (q ++ (p, t) ∷ [])) ≤ 1
  appended_once q h r =
      let new = not_member pool.jobs q p h.linked fresh.1 in
      elim (Bool-cases (p == r)) [
        | inl e ↦
            let there : count r (pointers q) ≡ 0 =
              subst (λ k. count k (pointers q) ≡ 0) (==-eq p r e) new in
            ground (arith, count-snoc r p t q)
        | inr e ↦ ground (arith, count-snoc r p t q, h.once r)
      ]

  appended_no_null : (q : List Cell) → Holds pool q → count null (pointers (q ++ (p, t) ∷ [])) ≡ 0
  appended_no_null q h =
      let some_pointer = fresh.0 in ground (arith, count-snoc null p t q, h.no_null)

  miss_of_count : (q : List Cell) (r : ℕ) → count r (pointers (q ++ (p, t) ∷ [])) ≡ 0 → p ≢ r
  miss_of_count q r n e = ground (arith, count-snoc r p t q)

  append_first :
      Holds pool []
      → Appended pool []
          (p, t)
          (record pool {
            head = p;
            tail = p;
            queue_cur_num = suc pool.queue_cur_num;
            jobs = write pool.jobs p (job_with t null);
          })
  append_first h = record {
    holds = record {
      linked = (write_hit pool.jobs p _, tt);
      first = refl;
      last = refl;
      counted = ap suc h.counted;
      bounded = full;
      once = appended_once [] h;
      no_null = appended_no_null [] h;
    };
    more = refl;
    same_max = refl;
    same_close = (refl, refl);
    kept = λ r n. write_miss pool.jobs p r _ (miss_of_count [] r n);
  }

  append_next :
      (c : Cell) (q : List Cell)
      → Holds pool (c ∷ q)
      → Returns
          (λ s.
            Appended pool
              (c ∷ q)
              (p, t)
              (record pool { tail = p; queue_cur_num = suc pool.queue_cur_num; jobs = s }))
          (set_next (write pool.jobs p (job_with t null)) pool.tail p)
  unfolding set_next
  append_next c q h =
      let new = not_member pool.jobs (c ∷ q) p h.linked fresh.1 in
      let kept_links =
        Linked-ext pool.jobs (write pool.jobs p (job_with t null)) (c ∷ q)
          (λ r m.
            write_miss pool.jobs p r _
              λ e. absurd (omega (arith, new, ap (λ k. count k (pointers (c ∷ q))) e)))
          h.linked in
      let (j, found, linked) =
        Linked-snoc (write pool.jobs p (job_with t null)) c q p t kept_links h.once new
          (write_hit pool.jobs p _) in
      let at_tail : write pool.jobs p (job_with t null) pool.tail ≡ some j =
        ap (write pool.jobs p (job_with t null)) h.last ∙ found in
      rw at_tail (
        returns (record {
          holds = record {
            linked =
                subst
                  (λ l.
                    Linked (write (write pool.jobs p (job_with t null)) l (record j { next = p }))
                      (c ∷ q ++ (p, t) ∷ []))
                  (sym h.last) linked;
            first = h.first;
            last = sym (last_of-append (c ∷ q) (p, t));
            counted = ap suc h.counted ∙ omega (arith, length-append (c ∷ q) ((p, t) ∷ []));
            bounded = full;
            once = appended_once (c ∷ q) h;
            no_null = appended_no_null (c ∷ q) h;
          };
          more = refl;
          same_max = refl;
          same_close = (refl, refl);
          kept = λ r n.
              write_miss (write pool.jobs p (job_with t null)) pool.tail r (record j { next = p })
                (λ e. ground (
                  arith,
                  count-snoc r p t (c ∷ q),
                  last_of-member c q,
                  ap (λ k. count k (pointers (c ∷ q))) (sym h.last ∙ e),
                ))
              ∙ write_miss pool.jobs p r (job_with t null) (miss_of_count (c ∷ q) r n);
        }))

add_open :
    (pool : Pool) (q : List Cell) (t : Task) (mem : Option ℕ)
    → Holds pool q
    → is_closed pool ≡ false
    → pool.queue_cur_num < pool.queue_max_num
    → Fresh pool mem
    → Returns (AddedTo pool q t mem) (append_job pool t mem)
unfolding append_job
add_open pool q t none h not_closed room fresh = returns (turned_away (inr refl))
add_open pool [] t (some p) h not_closed room fresh =
    let nothing : (pool.head == null) ≡ true = rw h.first refl in
    let none_there : true ≡ (pool.queue_cur_num == 0) = sym (rw h.counted refl) in
    rw nothing (returns (queued p not_closed refl none_there (append_first pool t p room fresh h)))
add_open pool (c ∷ q) t (some p) h not_closed room fresh =
    let some_head : (pool.head == null) ≡ false = ground (arith, h.first, h.no_null) in
    let some_there : false ≡ (pool.queue_cur_num == 0) = ground (arith, h.counted) in
    rw some_head (
      Returns-bind (append_next pool t p room fresh c q h)
        λ s a. returns (queued p not_closed refl some_there a))

-- `threadpool_add_job` of a callback and an argument that are not NULL makes the client wait if the
-- queue is full and nothing is closed, returns -1 if something is closed or `malloc` fails, and
-- otherwise puts the job at the end of the queue, and signals `queue_not_empty` if the queue was empty.
-- It does not fault.
pub add_job_queues :
    (pool : Pool) (q : List Cell) (t : Task) (mem : Option ℕ)
    → Holds pool q
    → t.0 ≢ null
    → t.1 ≢ null
    → Fresh pool mem
    → Returns (AddedTo pool q t mem) (threadpool_add_job pool t mem)
unfolding threadpool_add_job
add_job_queues pool q t mem h f a fresh =
    let some_f : (t.0 == null) ≡ false = ground arith in
    let some_a : (t.1 == null) ≡ false = ground arith in
    rw (some_f, some_a)
      (elim (Bool-cases (is_closed pool)) [
        | inl closed ↦ elim (Bool-cases (pool.queue_cur_num == pool.queue_max_num)) [
          | inl full ↦ rw (full, closed) (returns (turned_away (inl closed)))
          | inr room ↦ rw (room, closed) (returns (turned_away (inl closed)))
        ]
        | inr not_closed ↦ elim (Bool-cases (pool.queue_cur_num == pool.queue_max_num)) [
          | inl full ↦ rw (full, not_closed) (returns (must_wait (==-eq _ _ full) not_closed))
          | inr room ↦
              rw (room, not_closed)
                (add_open pool q t mem h not_closed (ground (arith, h.bounded)) fresh)
        ]
      ])
