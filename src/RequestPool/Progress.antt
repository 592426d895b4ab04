-- ===== src/RequestPool/Progress.antt =====
-- No request is left in the queue of a pool that runs.
use c_model.Common.{
  ℕ, zero, suc, ◌<◌, ◌≡◌, refl, ap, List, [], ◌∷◌, some, arith, Bool, true, false, ◌==◌, Bool-cases,
  inl, inr,
}
use c_model.Array.{length, get_or, replicate}
use c_model.RequestPool.{RequestPool, lowered, wait, take_request}
use c_model.RequestPool.Steps.{
  Runner, testing, waiting, woken, exited, processing, System, Step, is_woken, is_exited, total,
  total-get_or, Valid,
}
use c_model.RequestPool.Keeps.{found_one, first_there}

-- A step that is none of a client's calls of `append`, and not the destructor.
abbrev pub goes_forward : {s u : System} → Step s u → Bool
goes_forward (Step.appends r e) = false
goes_forward (Step.rejects r e) = false
goes_forward Step.stops = false
goes_forward step = true

abbrev pub Forward : System → Type 0
Forward s = (u : System) × (step : Step s u) × (goes_forward step ≡ true)

woken_takes :
    (s : System) (i : ℕ)
    → Valid s
    → i < length s.runners
    → get_or s.runners i testing ≡ woken
    → Forward s
unfolding take_request
woken_takes s i v lt at =
    let (r, p, e) = first_there s.pool s.pool.m_workqueue (found_one s i v lt at) in
    (_, Step.takes i r lt at e, refl)

positive-lowered :
    (pool : RequestPool) (n : ℕ) → 0 < n → (p : RequestPool) × (lowered pool n ≡ some p)
positive-lowered pool zero h = absurd (omega arith)
positive-lowered pool (suc n) h = (record pool { m_queuestat = n }, refl)

runner_moves :
    (s : System) (i : ℕ) (w : Runner)
    → Valid s
    → i < length s.runners
    → get_or s.runners i testing ≡ w
    → s.pool.m_stop ≡ false
    → 0 < s.pool.m_queuestat
    → Forward s
unfolding wait
runner_moves s i testing v lt at runs h = (_, Step.goes_on i lt at runs, refl)
runner_moves s i waiting v lt at runs h =
    let (p, e) = positive-lowered s.pool s.pool.m_queuestat h in (_, Step.passes i lt at e, refl)
runner_moves s i woken v lt at runs h = woken_takes s i v lt at
runner_moves s i exited v lt at runs h =
    absurd (omega (arith, v.running runs, total-get_or is_exited s.runners i lt, ap is_exited at))
runner_moves s i (processing r) v lt at runs h = (_, Step.finishes i r lt at, refl)

some_woken :
    (ws : List Runner)
    → 0 < total is_woken ws
    → (i : ℕ) × (i < length ws) × (get_or ws i testing ≡ woken)
some_woken [] h = absurd (omega arith)
some_woken (woken ∷ ws) h = (0, omega arith, refl)
some_woken (testing ∷ ws) h =
    let (i, lt, e) = some_woken ws (omega arith) in (suc i, omega arith, e)
some_woken (waiting ∷ ws) h =
    let (i, lt, e) = some_woken ws (omega arith) in (suc i, omega arith, e)
some_woken (exited ∷ ws) h = let (i, lt, e) = some_woken ws (omega arith) in (suc i, omega arith, e)
some_woken (processing r ∷ ws) h =
    let (i, lt, e) = some_woken ws (omega arith) in (suc i, omega arith, e)

posting_goes_on : (s : System) (n : ℕ) → s.posting ≡ n → 0 < n → Forward s
posting_goes_on s zero e h = absurd (omega arith)
posting_goes_on s (suc n) e h = (_, Step.posts n e, refl)

-- In a valid system that has a thread and where `m_stop` is not set, while there is a request in the
-- queue, a thread can take a step, or a client can post, without a further call of `append`.
pub requests_go_on :
    (s : System)
    → Valid s
    → 0 < length s.runners
    → s.pool.m_stop ≡ false
    → 0 < length s.pool.m_workqueue
    → Forward s
requests_go_on s v staffed runs h = elim (Bool-cases (s.posting == 0)) [
  | inr some_post ↦ posting_goes_on s s.posting refl (ground arith)
  | inl no_post ↦ elim (Bool-cases (total is_woken s.runners == 0)) [
    | inr some_one ↦
        (let (i, lt, e) = some_woken s.runners (ground arith) in woken_takes s i v lt e)
    | inl no_one ↦
        runner_moves s 0 (get_or s.runners 0 testing) v staffed refl runs (ground (arith, v.posted))
  ]
]

-- The pool of `n` threads that the constructor made, none of which has run.
abbrev pub launched : ℕ → RequestPool → System
launched n pool = record {
  pool = pool;
  runners = replicate n testing;
  posting = 0;
  accepted = [];
  taken = [];
}

none_of : (f : Runner → ℕ) (n : ℕ) → f testing ≡ 0 → total f (replicate n testing) ≡ 0
none_of f zero e = refl
none_of f (suc n) e = omega (arith, e, none_of f n e)

-- The pool that the constructor makes is valid with its threads.
pub launched-Valid :
    (n max : ℕ)
    → Valid (
        launched n (record {
          m_thread_number = n;
          m_max_requests = max;
          m_workqueue = [];
          m_queuestat = 0;
          m_stop = false;
        }))
launched-Valid n max = record {
  in_order = refl;
  posted = omega (arith, none_of is_woken n refl);
  bounded = omega arith;
  running = λ e. none_of is_exited n refl;
}
