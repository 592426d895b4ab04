-- ===== src/JobPool/Reach.antt =====
-- Every step keeps the invariant.
use c_model.Common.{◌≡◌, refl, ap, subst, ◌∙◌, List, arith, true, ◌==◌, map, Bool-cases, inl, inr}
use c_model.Array.{length}
use c_model.Run.{Returns-at}
use c_model.JobPool.{Pool, waits_for_room, is_closed, await_empty, threadpool_destroy}
use c_model.JobPool.Queue.{Cell, pointers, Holds}
use c_model.JobPool.Queue.Take.{function_takes}
use c_model.JobPool.System.{
  ready, waiting, exited, idle, adding, blocked, Destroyer, outside, checking, awaiting,
  telling_workers, telling_clients, joining, joined, is_exited, wake_worker, wake_client,
  closing_pool, closing_stage, System, Step, Reachable, at_start, further,
}
use c_model.JobPool.Waiters.{workers_woken, clients_woken, Told}
use c_model.JobPool.Waiters.Changes.{
  Told-wake_workers, Told-wake_clients, Told-checking, Told-await_empty, Told-destroy, Told-next,
}
use c_model.JobPool.Owners.{Owned-wake}
use c_model.JobPool.Outcomes.{must_wait-inv, leaves-inv, nothing-inv}
use c_model.JobPool.Valid.{
  Valid, add_job-AddedTo, client-Valid, worker-Valid, adds-Valid, begins-Valid, finishes-Valid,
  Told-Valid,
}

Holds-destroyed :
    (pool : Pool) (q : List Cell) (d : Destroyer)
    → Holds pool q
    → Holds (closing_pool (await_empty pool)) q
      × (((closing_pool (await_empty pool)).jobs) ≡ pool.jobs)
unfolding await_empty
Holds-destroyed pool q d h = elim (Bool-cases (pool.queue_cur_num == 0)) [
  | inl z ↦ simp z (
    record {
      linked = h.linked;
      first = h.first;
      last = h.last;
      counted = h.counted;
      bounded = h.bounded;
      once = h.once;
      no_null = h.no_null;
    },
    refl,
  )
  | inr z ↦ simp z (h, refl)
]

Holds-closing :
    (pool : Pool) (q : List Cell)
    → Holds pool q
    → Holds (closing_pool (threadpool_destroy pool)) q
      × (((closing_pool (threadpool_destroy pool)).jobs) ≡ pool.jobs)
unfolding threadpool_destroy
Holds-closing pool q h = elim (Bool-cases (is_closed pool)) [
  | inl z ↦ simp z (h, refl)
  | inr z ↦ simp z (
      Holds-destroyed (record pool { queue_close = true }) q outside
        (record {
          linked = h.linked;
          first = h.first;
          last = h.last;
          counted = h.counted;
          bounded = h.bounded;
          once = h.once;
          no_null = h.no_null;
        }))
]

at_stage :
    (s : System) (v : Valid s) (d : Destroyer) → s.destroyer ≡ d → Told s.pool s.workers s.clients d
at_stage s v d e = subst (Told s.pool s.workers s.clients) e v.told

step-Valid : (s u : System) → Valid s → Step s u → Valid u
step-Valid s u v (Step.calls i t lt at f a) = client-Valid s v i (adding t) (inl refl)
step-Valid s u v (Step.adds {p = p} {first = first} i t mem lt at fresh e) =
    adds-Valid s v p first i t mem fresh e
step-Valid s u v (Step.is_refused i t mem lt at fresh e) = client-Valid s v i idle (inl refl)
step-Valid s u v (Step.blocks i t mem lt at fresh e) =
    client-Valid s v i (blocked t)
      (inr (must_wait-inv (add_job-AddedTo s v t mem waits_for_room fresh e)))
step-Valid s u v (Step.begins {q = q} {last = last} {full = full} i p t lt at e called) =
    begins-Valid s v q last full i p t lt at e called
step-Valid s u v (Step.waits i lt at e) =
    let (none_left, u) = nothing-inv (Returns-at (function_takes s.pool v.queue v.holds) e) in
    worker-Valid s v i ready waiting lt at refl (λ p. refl) (λ p. refl)
      (inr (v.holds.counted ∙ ap length none_left, u)) (λ x. absurd cc)
step-Valid s u v (Step.ends i lt at e) =
    worker-Valid s v i ready exited lt at refl (λ p. refl) (λ p. refl) (inl refl)
      (λ x. leaves-inv (Returns-at (function_takes s.pool v.queue v.holds) e))
step-Valid s u v (Step.finishes {q = q} i p lt at e) = finishes-Valid s v q i p lt at e
step-Valid s u v (Step.destroys c at e) =
    let (h, same) = Holds-closing s.pool v.queue v.holds in
    subst (λ c. Valid (record s { pool = closing_pool c; destroyer = closing_stage c })) e
      (Told-Valid s v (closing_pool (threadpool_destroy s.pool)) s.clients
        (closing_stage (threadpool_destroy s.pool)) h same
        (Told-destroy s.pool s.workers s.clients (at_stage s v outside at)))
step-Valid s u v (Step.checks at) =
    let (h, same) = Holds-destroyed s.pool v.queue checking v.holds in
    Told-Valid s v (closing_pool (await_empty s.pool)) s.clients
      (closing_stage (await_empty s.pool)) h same
      (Told-await_empty s.pool s.workers s.clients (at_stage s v checking at))
step-Valid s u v (Step.tells_workers at) = record {
  queue = v.queue;
  holds = v.holds;
  in_order = v.in_order;
  owned = Owned-wake s.pool.jobs (pointers v.queue) s.workers v.owned;
  told =
      Told-next s.pool (map wake_worker s.workers) s.clients telling_workers telling_clients refl
        (omega arith) (λ r. workers_woken s.workers) (λ r. absurd (omega arith))
        (λ r. absurd (omega arith)) refl
        (Told-wake_workers s.pool s.workers s.clients telling_workers
          (at_stage s v telling_workers at));
}
step-Valid s u v (Step.tells_clients at) =
    Told-Valid s v s.pool (map wake_client s.clients) joining v.holds refl (
      Told-next s.pool s.workers (map wake_client s.clients) telling_clients joining refl
        (omega arith) (λ r. absurd (omega arith)) (λ r. clients_woken s.clients)
        (λ r. absurd (omega arith)) refl
        (Told-wake_clients s.pool s.workers s.clients telling_clients
          (at_stage s v telling_clients at)))
step-Valid s u v (Step.joins at all) = Told-Valid s v s.pool s.clients joined v.holds refl (
    Told-next s.pool s.workers s.clients joining joined refl (omega arith)
      (λ r. absurd (omega arith)) (λ r. absurd (omega arith)) (λ r i lt. ap is_exited (all i lt))
      refl (at_stage s v joining at))
step-Valid s u v (Step.wakes_worker i lt at) =
    worker-Valid s v i waiting ready lt at refl (λ p. refl) (λ p. refl) (inl refl) (λ x. absurd cc)
step-Valid s u v (Step.wakes_client i t lt at) = client-Valid s v i (adding t) (inl refl)
step-Valid s u v (Step.wakes_destroyer at) =
    Told-Valid s v s.pool s.clients checking v.holds refl
      (Told-checking s.pool s.workers s.clients awaiting refl (at_stage s v awaiting at))

-- However the clients, the threads and `threadpool_destroy` take turns, a valid system leads to valid
-- ones only: every task accepted has been started, once and in the order of acceptance, or waits in the
-- queue in that order, and the queue never has more than `queue_max_num`; no two threads have the same
-- job, and none has one that is freed; a thread that waits finds no job, a client that waits finds the
-- queue full, and `threadpool_destroy` does not wait for an empty queue.
pub steps_keep_invariant : (s u : System) → Valid s → Reachable s u → Valid u
steps_keep_invariant s u v at_start = v
steps_keep_invariant s u v (further {u = m} r step) =
    step-Valid m u (steps_keep_invariant s m v r) step
