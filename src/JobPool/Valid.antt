-- ===== src/JobPool/Valid.antt =====
-- The invariant of the pool with its threads and clients, and which step keeps which part of it.

use c_model.Common.{
  ℕ, ◌<◌, ◌≡◌, refl, ap, sym, subst, ◌∙◌, List, [], ◌∷◌, ◌++◌, Option, none, some, arith, Bool,
  true, false, ◌==◌, if◌then◌else◌, map, inl, ◌⊎◌, append_assoc,
}
use c_model.Array.{length, get_or, set}
use c_model.Run.{◌>>=◌, Returns-at}
use c_model.JobPool.{
  Task, Pool, Adding, added, is_closed, threadpool_add_job, takes, threadpool_function, call_of,
  free_job,
}
use c_model.JobPool.Queue.{Cell, pointers, tasks, tasks-append, job_with, head_of, Holds}
use c_model.JobPool.Queue.Add.{Fresh, AddedTo, add_job_queues}
use c_model.JobPool.Queue.Take.{function_takes}
use c_model.JobPool.System.{
  Worker, ready, running, Client, idle, Destroyer, is_waiting, is_exited, is_blocked, wake_worker,
  wake_client, wake_destroyer, System,
}
use c_model.JobPool.Waiters.{
  None, workers_woken, clients_woken, rank, rank-wake_destroyer, is_awaiting, wake_destroyer_wakes,
  Told, Told-client, Told-worker,
}
use c_model.JobPool.Waiters.Changes.{Told-same, Told-wake_workers, Told-more, Told-fewer}
use c_model.JobPool.Owners.{
  Owned, runs_of, Owned-added, Owned-taken, Owned-freed, Owned-worker, Owned-wake, freed-inv,
  Linked-freed,
}
use c_model.JobPool.Outcomes.{added-inv, Oldest-inv, asserted}

-- Each task accepted has been started, or its job is in the queue; the jobs in the queue and those that
-- threads run are allocated and different; and nobody waits in vain.
pub record Valid (s : System) : Type 0 where
  pub queue : List Cell
  pub holds : Holds s.pool queue
  pub in_order : s.accepted ≡ s.started ++ tasks queue
  pub owned : Owned s.pool.jobs (pointers queue) s.workers
  pub told : Told s.pool s.workers s.clients s.destroyer

pub add_job-AddedTo :
    (s : System) (v : Valid s) (t : Task) (mem : Option ℕ) (r : Adding)
    → Fresh s.pool mem
    → threadpool_add_job s.pool t mem ≡ some r
    → AddedTo s.pool v.queue t mem r
add_job-AddedTo s v t mem r fresh e =
    let (f, a) = asserted s.pool t mem r e in
    Returns-at (add_job_queues s.pool v.queue t mem v.holds f a fresh) e

pub is_none_there : {n : ℕ} → n ≡ 0 → (n == 0) ≡ true
is_none_there e = ground arith

is_same : {n k : ℕ} → n ≡ k → (n == k) ≡ true
is_same e = ground arith

some-inj : {A : Type 0} {a b : A} → some a ≡ some b → a ≡ b
some-inj e = cc

module _ (s : System) (v : Valid s) where
  -- A client's step that leaves the pool as it is.
  pub client-Valid :
      (i : ℕ) (c : Client)
      → (is_blocked c ≡ false)
        ⊎ ((s.pool.queue_cur_num ≡ s.pool.queue_max_num) × (is_closed s.pool ≡ false))
      → Valid (record s { clients = set s.clients i c })
  client-Valid i c how = record {
    queue = v.queue;
    holds = v.holds;
    in_order = v.in_order;
    owned = v.owned;
    told = Told-client s.pool s.workers s.clients s.destroyer i c v.told how;
  }

  -- A thread's step that leaves the pool as it is.
  pub worker-Valid :
      (i : ℕ) (o w : Worker)
      → i < length s.workers
      → get_or s.workers i ready ≡ o
      → is_exited o ≡ false
      → ((p : ℕ) → runs_of p o ≡ 0)
      → ((p : ℕ) → runs_of p w ≡ 0)
      → (is_waiting w ≡ false) ⊎ ((s.pool.queue_cur_num ≡ 0) × (s.pool.pool_close ≡ false))
      → (is_exited w ≡ true → s.pool.pool_close ≡ true)
      → Valid (record s { workers = set s.workers i w })
  worker-Valid i o w lt at alive before after how leaves = record {
    queue = v.queue;
    holds = v.holds;
    in_order = v.in_order;
    owned = Owned-worker s.pool.jobs (pointers v.queue) s.workers i o w lt at before after v.owned;
    told =
        Told-worker s.pool s.workers s.clients s.destroyer i w v.told lt (ap is_exited at ∙ alive)
          how leaves;
  }

  pub adds-Valid :
      (p : Pool) (first : Bool) (i : ℕ) (t : Task) (mem : Option ℕ)
      → Fresh s.pool mem
      → threadpool_add_job s.pool t mem ≡ some (added first p)
      → Valid (record s {
        pool = p;
        clients = set s.clients i idle;
        workers = if first then map wake_worker s.workers else s.workers;
        accepted = s.accepted ++ t ∷ [];
      })
  adds-Valid p first i t mem fresh e =
      let (at, u, m, f, a) = added-inv (add_job-AddedTo s v t mem (added first p) fresh e) in
      let new : s.pool.jobs at ≡ none = (subst (Fresh s.pool) m fresh).1 in
      let owned = Owned-added s.pool p v.queue at t s.workers v.holds.linked new a v.owned in
      let more =
        λ (ws : List Worker) (none_wait : s.pool.queue_cur_num ≡ 0 → None is_waiting ready ws)
            (t : Told s.pool ws s.clients s.destroyer).
          Told-client p ws s.clients s.destroyer i idle
            (Told-more s.pool p ws s.clients s.destroyer a.more a.same_max a.holds.bounded
              a.same_close u none_wait t)
            (inl refl) in
      record {
        queue = v.queue ++ (at, t) ∷ [];
        holds = a.holds;
        in_order =
            ap (λ l. l ++ t ∷ []) v.in_order
            ∙ append_assoc s.started (tasks v.queue) (t ∷ [])
            ∙ ap (◌++◌ s.started) (sym (tasks-append v.queue ((at, t) ∷ [])));
        owned =
            woken_or_not (Owned p.jobs (pointers (v.queue ++ (at, t) ∷ []))) first
              (λ y. Owned-wake p.jobs (pointers (v.queue ++ (at, t) ∷ [])) s.workers owned)
              (λ n. owned);
        told =
            woken_or_not (λ ws. Told p ws (set s.clients i idle) s.destroyer) first
              (λ y.
                more (map wake_worker s.workers) (λ z. workers_woken s.workers)
                  (Told-wake_workers s.pool s.workers s.clients s.destroyer v.told))
              λ n.
                more s.workers (λ z. let was_first = sym (is_none_there z) ∙ sym f in absurd cc)
                  v.told;
      }
    where
      woken_or_not :
          (Q : List Worker → Type 0) (b : Bool)
          → (b ≡ true → Q (map wake_worker s.workers))
          → (b ≡ false → Q s.workers)
          → Q (if b then map wake_worker s.workers else s.workers)
      woken_or_not Q true y n = y refl
      woken_or_not Q false y n = n refl

  pub begins-Valid :
      (p : Pool) (last full : Bool) (i at : ℕ) (t : Task)
      → i < length s.workers
      → get_or s.workers i ready ≡ ready
      → threadpool_function s.pool ≡ some (takes at last full p)
      → call_of p at ≡ some t
      → Valid (record s {
        pool = p;
        workers = set s.workers i (running at);
        clients = if full then map wake_client s.clients else s.clients;
        destroyer = if last then wake_destroyer s.destroyer else s.destroyer;
        started = s.started ++ t ∷ [];
      })
  unfolding call_of
  begins-Valid p last full i at t lt is_ready e called =
      let o = Oldest-inv (Returns-at (function_takes s.pool v.queue v.holds) e) in
      let u = o.unlinked in
      let found : p.jobs at ≡ some (job_with o.task (head_of o.rest)) =
        ap (λ jobs. jobs at) u.same_jobs ∙ o.found in
      let ran : t ≡ o.task =
        sym (
          some-inj (sym (ap (λ c. c >>= λ j. some (j.callback_function, j.arg)) found) ∙ called)) in
      record {
        queue = o.rest;
        holds = u.holds;
        in_order =
            v.in_order
            ∙ ap (λ q. s.started ++ tasks q) o.split
            ∙ sym (append_assoc s.started (o.task ∷ []) (tasks o.rest))
            ∙ ap (λ x. (s.started ++ x ∷ []) ++ tasks o.rest) (sym ran);
        owned = Owned-taken p.jobs at (pointers o.rest) _ s.workers i lt is_ready found (
            subst (λ jobs. Owned jobs (at ∷ pointers o.rest) s.workers) (sym u.same_jobs)
              (subst (λ q. Owned s.pool.jobs (pointers q) s.workers) o.split v.owned));
        told =
            Told-worker p s.workers _ _ i (running at)
              (Told-fewer s.pool p s.workers s.clients
                (if full then map wake_client s.clients else s.clients) s.destroyer
                (if last then wake_destroyer s.destroyer else s.destroyer) u.fewer u.same_max
                u.same_close (ranked last) (kept full)
                (λ f. let all : full ≡ true = o.was_full ∙ is_same f in all_woken full all)
                (λ z.
                  let only : last ≡ true = o.was_last ∙ is_none_there z in
                  destroyer_woken last only)
                v.told)
              lt (ap is_exited is_ready) (inl refl) (λ x. absurd cc);
      }
    where
      ranked :
          (b : Bool)
          → rank (if b then wake_destroyer s.destroyer else s.destroyer) ≡ rank s.destroyer
      ranked true = rank-wake_destroyer s.destroyer
      ranked false = refl

      kept :
          (b : Bool)
          → None is_blocked idle s.clients
          → None is_blocked idle (if b then map wake_client s.clients else s.clients)
      kept true n = clients_woken s.clients
      kept false n = n

      all_woken :
          (b : Bool)
          → b ≡ true
          → None is_blocked idle (if b then map wake_client s.clients else s.clients)
      all_woken b y = rw y (clients_woken s.clients)

      destroyer_woken :
          (b : Bool)
          → b ≡ true
          → is_awaiting (if b then wake_destroyer s.destroyer else s.destroyer) ≡ false
      destroyer_woken b y = rw y (wake_destroyer_wakes s.destroyer)

  pub finishes-Valid :
      (p : Pool) (i at : ℕ)
      → i < length s.workers
      → get_or s.workers i ready ≡ running at
      → free_job s.pool at ≡ some p
      → Valid (record s { pool = p; workers = set s.workers i ready })
  finishes-Valid p i at lt runs_it e =
      let same = freed-inv s.pool p at e in
      subst (λ q. Valid (record s { pool = q; workers = set s.workers i ready })) (sym same)
        (record {
          queue = v.queue;
          holds = record {
            linked =
                Linked-freed s.pool.jobs v.queue s.workers i at lt runs_it v.owned v.holds.linked;
            first = v.holds.first;
            last = v.holds.last;
            counted = v.holds.counted;
            bounded = v.holds.bounded;
            once = v.holds.once;
            no_null = v.holds.no_null;
          };
          in_order = v.in_order;
          owned = Owned-freed s.pool.jobs v.queue s.workers i at lt runs_it v.owned;
          told =
              Told-worker _ s.workers s.clients s.destroyer i ready
                (Told-same s.pool _ s.workers s.clients s.destroyer refl refl (refl, refl) v.told)
                lt (ap is_exited runs_it) (inl refl) (λ x. absurd cc);
        })

  -- A step that leaves all but the flags and the waiters as they are.
  pub Told-Valid :
      (p : Pool) (cs : List Client) (d : Destroyer)
      → Holds p v.queue
      → p.jobs ≡ s.pool.jobs
      → Told p s.workers cs d
      → Valid (record s { pool = p; clients = cs; destroyer = d })
  Told-Valid p cs d h same t = record {
    queue = v.queue;
    holds = h;
    in_order = v.in_order;
    owned = subst (λ jobs. Owned jobs (pointers v.queue) s.workers) (sym same) v.owned;
    told = t;
  }
