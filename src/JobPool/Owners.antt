-- ===== src/JobPool/Owners.antt =====
-- Who has which job: the queue, or one thread.
use c_model.Common.{
  ℕ, zero, suc, ◌+◌, ◌≤◌, ◌<◌, ◌≡◌, ◌≢◌, refl, ap, subst, ◌∙◌, List, [], ◌∷◌, ◌++◌, none, some,
  arith, true, false, ◌==◌, ==-eq, if◌then◌else◌, map, Bool-cases, Option-cases, inl, inr,
}
use c_model.Array.{length, get_or, set, count}
use c_model.Run.{◌>>=◌}
use c_model.JobPool.{Task, Job, Store, remove, Pool, free_job}
use c_model.JobPool.Queue.{Cell, pointers, Linked, Linked-ext}
use c_model.JobPool.Queue.Add.{Appended, not_member, count-snoc}
use c_model.JobPool.System.{Worker, ready, waiting, exited, running, wake_worker}

-- Whether a thread runs the job at `p`, and how many do.
abbrev pub runs_of : ℕ → Worker → ℕ
runs_of p ready = 0
runs_of p waiting = 0
runs_of p exited = 0
runs_of p (running q) = if q == p then 1 else 0

abbrev pub runs : ℕ → List Worker → ℕ
runs p [] = 0
runs p (w ∷ ws) = runs_of p w + runs p ws

pub runs-set :
    (p : ℕ) (ws : List Worker) (i : ℕ) (w : Worker)
    → i < length ws
    → runs p (set ws i w) + runs_of p (get_or ws i ready) ≡ runs p ws + runs_of p w
runs-set p [] i w h = absurd (omega arith)
runs-set p (v ∷ ws) zero w h = omega arith
runs-set p (v ∷ ws) (suc i) w h = omega (arith, runs-set p ws i w (omega arith))

runs-wake : (p : ℕ) (ws : List Worker) → runs p (map wake_worker ws) ≡ runs p ws
runs-wake p [] = refl
runs-wake p (ready ∷ ws) = ap (◌+◌ 0) (runs-wake p ws)
runs-wake p (waiting ∷ ws) = ap (◌+◌ 0) (runs-wake p ws)
runs-wake p (exited ∷ ws) = ap (◌+◌ 0) (runs-wake p ws)
runs-wake p (running q ∷ ws) = ap (λ n. runs_of p (running q) + n) (runs-wake p ws)

pub record Owned (jobs : Store) (ps : List ℕ) (ws : List Worker) : Type 0 where
  pub alone : (p : ℕ) → count p ps + runs p ws ≤ 1
  pub live : (p : ℕ) → 0 < runs p ws → (j : Job) × (jobs p ≡ some j)

pub Owned-wake :
    (jobs : Store) (ps : List ℕ) (ws : List Worker)
    → Owned jobs ps ws
    → Owned jobs ps (map wake_worker ws)
Owned-wake jobs ps ws o = record {
  alone = λ p. omega (arith, o.alone p, runs-wake p ws);
  live = λ p h. o.live p (omega (arith, runs-wake p ws));
}

-- A thread that runs no job does something else than to run one.
pub Owned-worker :
    (jobs : Store) (ps : List ℕ) (ws : List Worker) (i : ℕ) (v w : Worker)
    → i < length ws
    → get_or ws i ready ≡ v
    → ((p : ℕ) → runs_of p v ≡ 0)
    → ((p : ℕ) → runs_of p w ≡ 0)
    → Owned jobs ps ws
    → Owned jobs ps (set ws i w)
Owned-worker jobs ps ws i v w lt at nv nw o =
    let same : (p : ℕ) → runs p (set ws i w) ≡ runs p ws =
      λ p. omega (arith, runs-set p ws i w lt, ap (runs_of p) at, nv p, nw p) in
    record {
      alone = λ p. omega (arith, o.alone p, same p);
      live = λ p h. o.live p (omega (arith, same p));
    }

-- A job is added.
pub Owned-added :
    (pool pool' : Pool) (q : List Cell) (p : ℕ) (t : Task) (ws : List Worker)
    → Linked pool.jobs q
    → pool.jobs p ≡ none
    → Appended pool q (p, t) pool'
    → Owned pool.jobs (pointers q) ws
    → Owned pool'.jobs (pointers (q ++ (p, t) ∷ [])) ws
Owned-added pool pool' q p t ws l new a o = record { alone = one; live = kept }
  where
    unused : runs p ws ≡ 0
    unused = elim (Bool-cases (runs p ws == 0)) [
      | inl z ↦ ==-eq (runs p ws) 0 z
      | inr z ↦ (let (j, found) = o.live p (ground arith) in absurd cc)
    ]

    one : (r : ℕ) → count r (pointers (q ++ (p, t) ∷ [])) + runs r ws ≤ 1
    one r = elim (Bool-cases (p == r)) [
      | inl e ↦
          let same = ==-eq p r e in
          let idle_r : runs r ws ≡ 0 = subst (λ k. runs k ws ≡ 0) same unused in
          let new_r : count r (pointers q) ≡ 0 =
            subst (λ k. count k (pointers q) ≡ 0) same (not_member pool.jobs q p l new) in
          ground (arith, count-snoc r p t q)
      | inr e ↦ ground (arith, count-snoc r p t q, o.alone r)
    ]

    kept : (r : ℕ) → 0 < runs r ws → (j : Job) × (pool'.jobs r ≡ some j)
    kept r h =
        let (j, found) = o.live r h in let only = one r in (j, a.kept r (omega arith) ∙ found)

-- A thread takes the oldest job.
pub Owned-taken :
    (jobs : Store) (p : ℕ) (ps : List ℕ) (j : Job) (ws : List Worker) (i : ℕ)
    → i < length ws
    → get_or ws i ready ≡ ready
    → jobs p ≡ some j
    → Owned jobs (p ∷ ps) ws
    → Owned jobs ps (set ws i (running p))
Owned-taken jobs p ps j ws i lt at found o = record {
  alone = λ r. omega (arith, o.alone r, runs-set r ws i (running p) lt, ap (runs_of r) at);
  live = λ r h. elim (Bool-cases (p == r)) [
    | inl e ↦ (j, subst (λ k. jobs k ≡ some j) (==-eq p r e) found)
    | inr e ↦ o.live r (ground (arith, runs-set r ws i (running p) lt, ap (runs_of r) at))
  ];
}

pub freed-inv :
    (pool pool' : Pool) (p : ℕ)
    → free_job pool p ≡ some pool'
    → pool' ≡ record pool { jobs = remove pool.jobs p }
unfolding free_job
freed-inv pool pool' p e = elim (Option-cases (pool.jobs p)) [
  | inl f ↦ absurd cc
  | inr (j, f) ↦
      (let same : (pool.jobs p >>= λ k. some (record pool { jobs = remove pool.jobs p }))
            ≡ some (record pool { jobs = remove pool.jobs p }) =
          ap (λ o. o >>= λ k. some (record pool { jobs = remove pool.jobs p })) f in
        cc)
]

remove_miss : (s : Store) (p r : ℕ) → p ≢ r → remove s p r ≡ s r
remove_miss s p r n = let miss : (p == r) ≡ false = ground arith in rw miss refl

-- The job at `p` is run.
pub runs-at :
    (ws : List Worker) (i p : ℕ) → i < length ws → get_or ws i ready ≡ running p → 0 < runs p ws
runs-at ws i p lt at =
    let hit : (p == p) ≡ true = ground arith in
    ground (arith, runs-set p ws i ready lt, ap (runs_of p) at)

module _ (jobs : Store) (q : List Cell) (ws : List Worker) (i p : ℕ) (lt : i < length ws)
    (at : get_or ws i ready ≡ running p) (o : Owned jobs (pointers q) ws) where
  run_over : runs p (set ws i ready) ≡ 0
  run_over =
      let hit : (p == p) ≡ true = ground arith in
      ground (arith, runs-set p ws i ready lt, ap (runs_of p) at, o.alone p)

  -- A thread frees its job and goes on.
  pub Owned-freed : Owned (remove jobs p) (pointers q) (set ws i ready)
  Owned-freed = record {
    alone = λ r. omega (arith, o.alone r, runs-set r ws i ready lt);
    live = λ r h.
        let (j, found) = o.live r (omega (arith, runs-set r ws i ready lt)) in
        (
          j,
          remove_miss jobs p r
                (λ e. absurd (omega (arith, run_over, ap (λ k. runs k (set ws i ready)) e)))
              ∙ found,
        );
  }

  pub Linked-freed : Linked jobs q → Linked (remove jobs p) q
  Linked-freed l =
      Linked-ext jobs (remove jobs p) q
        (λ r m. remove_miss jobs p r λ e.
          absurd (omega (arith, runs-at ws i p lt at, o.alone p, ap (λ k. count k (pointers q)) e)))
        l
