-- ===== src/RequestPool/Tests.antt =====
-- Runs of the pool of requests, and its theorems at concrete inputs.
use c_model.Common.{◌≡◌, refl, [], ◌∷◌, some, arith, true, false}
use c_model.Array.{length}
use c_model.Run.{◌>>=◌}
use c_model.RequestPool.{RequestPool, thrown, made, start_from, new_request_pool, append}
use c_model.RequestPool.Steps.{System, Step, Reachable, at_start, further, Valid}
use c_model.RequestPool.Keeps.{requests_all_posted}
use c_model.RequestPool.Progress.{Forward, requests_go_on, launched, launched-Valid}

abbrev small_pool : RequestPool
small_pool = record {
  m_thread_number = 1;
  m_max_requests = 2;
  m_workqueue = [];
  m_queuestat = 0;
  m_stop = false;
}

abbrev with_one : RequestPool
with_one = record small_pool { m_workqueue = 7 ∷ [] }

-- After a client has put a request into the queue, and before it posts.
abbrev put_in : System
put_in = record (launched 1 small_pool) { pool = with_one; posting = 1; accepted = 7 ∷ [] }

one_put : Reachable (launched 1 small_pool) put_in
unfolding append
one_put = further at_start (Step.appends 7 refl)

requests_all_posted_example : Valid put_in
requests_all_posted_example =
    requests_all_posted (launched 1 small_pool) put_in (launched-Valid 1 2) one_put

requests_go_on_example : Forward put_in
requests_go_on_example =
    requests_go_on put_in
      (requests_all_posted (launched 1 small_pool) put_in (launched-Valid 1 2) one_put)
      (omega arith) refl (omega arith)

made_as_asked : new_request_pool 1 2 (λ i. (true, true)) ≡ made small_pool
unfolding new_request_pool start_from
made_as_asked = refl

first_not_detached : new_request_pool 3 2 (λ i. (true, false)) ≡ thrown 1
unfolding new_request_pool start_from
first_not_detached = refl

-- The limit is passed by one.
one_too_many :
    (append small_pool 7 >>= λ p.
    append p 8 >>= λ q. append q 9 >>= λ r. some (length r.m_workqueue))
    ≡ some 3
unfolding append
one_too_many = refl
