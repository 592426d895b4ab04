-- ===== src/JobPool/Queue.antt =====
-- The jobs from the head on as a queue.
pub mod Add
pub mod Take
use c_model.Common.{
  ℕ, zero, suc, ◌+◌, ◌-◌, ◌≤◌, ◌<◌, ◌≡◌, ◌≢◌, refl, ap, sym, subst, ◌∙◌, List, [], ◌∷◌, ◌++◌,
  Option, none, some, arith, Bool, true, false, not, ◌&&◌, ◌||◌, ◌==◌, ==-eq, if◌then◌else◌,
  Bool-cases, Option-cases, inl, inr, ◌⊎◌,
}
use c_model.Array.{length, length-append, count, count-append}
use c_model.Run.{◌>>=◌, Returns, returns, Returns-if, Returns-bind, Returns-map}
use c_model.JobPool.{
  null, Task, Job, Store, write, remove, Pool, Adding, waits_for_room, refused, added, is_closed,
  set_next, append_job, threadpool_add_job, Round, waits_for_job, exits, takes, unlink_head,
  threadpool_function,
}

-- A pointer and the task of the job there.
abbrev pub Cell : Type 0
Cell = ℕ × Task

abbrev pub pointers : List Cell → List ℕ
pointers [] = []
pointers (c ∷ q) = c.0 ∷ pointers q

abbrev pub tasks : List Cell → List Task
tasks [] = []
tasks (c ∷ q) = c.1 ∷ tasks q

abbrev pub head_of : List Cell → ℕ
head_of [] = null
head_of (c ∷ q) = c.0

abbrev pub last_of : List Cell → ℕ
last_of [] = null
last_of (c ∷ []) = c.0
last_of (c ∷ d ∷ q) = last_of (d ∷ q)

abbrev pub job_with : Task → ℕ → Job
job_with t next = record { callback_function = t.0; arg = t.1; next = next }

-- The jobs of a list of cells, each linked to the next.
abbrev pub Linked : Store → List Cell → Type 0
Linked s [] = Unit
Linked s (c ∷ q) = (s c.0 ≡ some (job_with c.1 (head_of q))) × Linked s q

-- A queue holds these jobs, oldest first.
pub record Holds (pool : Pool) (q : List Cell) : Type 0 where
  pub linked : Linked pool.jobs q
  pub first : pool.head ≡ head_of q
  pub last : pool.tail ≡ last_of q
  pub counted : pool.queue_cur_num ≡ length q
  pub bounded : pool.queue_cur_num ≤ pool.queue_max_num
  pub once : (p : ℕ) → count p (pointers q) ≤ 1
  pub no_null : count null (pointers q) ≡ 0

pub pointers-append : (q r : List Cell) → pointers (q ++ r) ≡ pointers q ++ pointers r
pointers-append [] r = refl
pointers-append (c ∷ q) r = ap (◌∷◌ c.0) (pointers-append q r)

pub tasks-append : (q r : List Cell) → tasks (q ++ r) ≡ tasks q ++ tasks r
tasks-append [] r = refl
tasks-append (c ∷ q) r = ap (◌∷◌ c.1) (tasks-append q r)

pub Linked-ext :
    (s r : Store) (q : List Cell)
    → ((p : ℕ) → 0 < count p (pointers q) → r p ≡ s p)
    → Linked s q
    → Linked r q
Linked-ext s r [] same l = tt
Linked-ext s r (c ∷ q) same (here, l) =
    (same c.0 (ground arith) ∙ here, Linked-ext s r q (λ p m. same p (omega arith)) l)

-- A member of the queue is allocated.
pub Linked-live :
    (s : Store) (q : List Cell) (p : ℕ)
    → Linked s q
    → 0 < count p (pointers q)
    → (j : Job) × (s p ≡ some j)
Linked-live s [] p l m = absurd (omega arith)
Linked-live s (c ∷ q) p (here, l) m = elim (Bool-cases (c.0 == p)) [
  | inl e ↦ (job_with c.1 (head_of q), ap s (sym (==-eq c.0 p e)) ∙ here)
  | inr e ↦ Linked-live s q p l (ground arith)
]

pub last_of-member : (c : Cell) (q : List Cell) → 0 < count (last_of (c ∷ q)) (pointers (c ∷ q))
last_of-member c [] = ground arith
last_of-member c (d ∷ q) = omega (arith, last_of-member d q)

pub last_of-append : (q : List Cell) (c : Cell) → last_of (q ++ c ∷ []) ≡ c.0
last_of-append [] c = refl
last_of-append (d ∷ []) c = refl
last_of-append (d ∷ e ∷ q) c = last_of-append (e ∷ q) c
