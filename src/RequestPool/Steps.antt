-- ===== src/RequestPool/Steps.antt =====
-- The pool with its threads and clients, as steps in any order.
use c_model.Common.{
  ℕ, zero, suc, ◌+◌, ◌≤◌, ◌<◌, ◌≡◌, ap, List, [], ◌∷◌, ◌++◌, none, some, arith, true, false,
}
use c_model.Array.{length, get_or, set}
use c_model.RequestPool.{RequestPool, stop, append, post, wait, take_request}

-- A thread in `run`: about to test `m_stop`, in `wait`, past it but before the mutex, in the request's
-- `process`, or at its end.
pub data Runner : Type 0 where
  testing waiting woken exited : Runner
  processing : ℕ → Runner

-- After the section under the mutex, which took this request.
abbrev pub with_request : ℕ → Runner
with_request zero = testing
with_request (suc r) = processing (suc r)

-- `posting` clients are in `append` between the mutex and `post`. `accepted` lists the requests that
-- were put into the queue, and `taken` those that threads took out, both oldest first.
pub record System : Type 0 where
  pub pool : RequestPool
  pub runners : List Runner
  pub posting : ℕ
  pub accepted : List ℕ
  pub taken : List ℕ

pub data Step (s : System) : System → Type 0 where
  appends :
      {p : RequestPool} (r : ℕ)
      → append s.pool r ≡ some p
      → Step s (record s { pool = p; posting = suc s.posting; accepted = s.accepted ++ r ∷ [] })
  rejects : (r : ℕ) → append s.pool r ≡ none → Step s s
  posts : (n : ℕ) → s.posting ≡ suc n → Step s (record s { pool = post s.pool; posting = n })
  stops : Step s (record s { pool = stop s.pool })
  -- thread `i`
  goes_on :
      (i : ℕ)
      → i < length s.runners
      → get_or s.runners i testing ≡ testing
      → s.pool.m_stop ≡ false
      → Step s (record s { runners = set s.runners i waiting })
  leaves :
      (i : ℕ)
      → i < length s.runners
      → get_or s.runners i testing ≡ testing
      → s.pool.m_stop ≡ true
      → Step s (record s { runners = set s.runners i exited })
  passes :
      {p : RequestPool} (i : ℕ)
      → i < length s.runners
      → get_or s.runners i testing ≡ waiting
      → wait s.pool ≡ some p
      → Step s (record s { pool = p; runners = set s.runners i woken })
  takes :
      {p : RequestPool} (i r : ℕ)
      → i < length s.runners
      → get_or s.runners i testing ≡ woken
      → take_request s.pool ≡ some (r, p)
      → Step s (record s {
        pool = p;
        runners = set s.runners i (with_request r);
        taken = s.taken ++ r ∷ [];
      })
  finds_none :
      (i : ℕ)
      → i < length s.runners
      → get_or s.runners i testing ≡ woken
      → take_request s.pool ≡ none
      → Step s (record s { runners = set s.runners i testing })
  finishes :
      (i r : ℕ)
      → i < length s.runners
      → get_or s.runners i testing ≡ processing r
      → Step s (record s { runners = set s.runners i testing })

pub data Reachable (s : System) : System → Type 0 where
  at_start : Reachable s s
  further : {u v : System} → Reachable s u → Step u v → Reachable s v

-- Threads that have passed `wait` and not taken a request yet, and threads that have left.
abbrev pub is_woken : Runner → ℕ
is_woken testing = 0
is_woken waiting = 0
is_woken woken = 1
is_woken exited = 0
is_woken (processing r) = 0

abbrev pub is_exited : Runner → ℕ
is_exited testing = 0
is_exited waiting = 0
is_exited woken = 0
is_exited exited = 1
is_exited (processing r) = 0

-- The sum of a number over the threads.
abbrev pub total : (Runner → ℕ) → List Runner → ℕ
total f [] = 0
total f (w ∷ ws) = f w + total f ws

pub total-set :
    (f : Runner → ℕ) (ws : List Runner) (i : ℕ) (v w : Runner)
    → i < length ws
    → get_or ws i testing ≡ v
    → total f (set ws i w) + f v ≡ total f ws + f w
total-set f [] i v w h e = absurd (omega arith)
total-set f (x ∷ ws) zero v w h e = omega (arith, ap f e)
total-set f (x ∷ ws) (suc i) v w h e = omega (arith, total-set f ws i v w (omega arith) e)

pub total-get_or :
    (f : Runner → ℕ) (ws : List Runner) (i : ℕ)
    → i < length ws
    → f (get_or ws i testing) ≤ total f ws
total-get_or f [] i h = absurd (omega arith)
total-get_or f (w ∷ ws) zero h = omega arith
total-get_or f (w ∷ ws) (suc i) h = omega (arith, total-get_or f ws i (omega arith))

-- Every request in the queue has one post: still to come, in the semaphore, or passed by a thread that
-- has not taken a request yet.
pub record Valid (s : System) : Type 0 where
  pub in_order : s.accepted ≡ s.taken ++ s.pool.m_workqueue
  pub posted : length s.pool.m_workqueue ≡ s.pool.m_queuestat + s.posting + total is_woken s.runners
  pub bounded : length s.pool.m_workqueue ≤ suc s.pool.m_max_requests
  pub running : s.pool.m_stop ≡ false → total is_exited s.runners ≡ 0
