-- ===== src/RequestPool/Keeps.antt =====
-- Every step keeps the invariant.
use c_model.Common.{
  ℕ, zero, suc, ◌<◌, ◌≡◌, refl, ap, sym, subst, ◌∙◌, List, [], ◌∷◌, ◌++◌, none, some, arith, false,
  ltb, Bool-cases, inl, inr, append_assoc,
}
use c_model.Array.{length, length-append, get_or, set}
use c_model.RequestPool.{
  RequestPool, stop, append, post, lowered, wait, without_first, take_request,
}
use c_model.RequestPool.Steps.{
  Runner, testing, waiting, woken, exited, processing, with_request, System, Step, Reachable,
  at_start, further, is_woken, is_exited, total-set, total-get_or, Valid,
}

-- A thread that is not woken goes to a state in which it is not, and does not leave while the pool runs.
moves-Valid :
    (s : System) (i : ℕ) (v w : Runner)
    → i < length s.runners
    → get_or s.runners i testing ≡ v
    → is_woken v ≡ 0
    → is_woken w ≡ 0
    → (s.pool.m_stop ≡ false → is_exited w ≡ 0)
    → Valid s
    → Valid (record s { runners = set s.runners i w })
moves-Valid s i v w lt at before after stays valid = record {
  in_order = valid.in_order;
  posted = omega (arith, valid.posted, total-set is_woken s.runners i v w lt at);
  bounded = valid.bounded;
  running = λ e. omega (arith, valid.running e, stays e, total-set is_exited s.runners i v w lt at);
}

is_woken-with_request : (r : ℕ) → is_woken (with_request r) ≡ 0
is_woken-with_request zero = refl
is_woken-with_request (suc r) = refl

is_exited-with_request : (r : ℕ) → is_exited (with_request r) ≡ 0
is_exited-with_request zero = refl
is_exited-with_request (suc r) = refl

appends-Valid :
    (s : System) (p : RequestPool) (r : ℕ)
    → append s.pool r ≡ some p
    → Valid s
    → Valid (record s { pool = p; posting = suc s.posting; accepted = s.accepted ++ r ∷ [] })
unfolding append
appends-Valid s p r e v =
    elim (Bool-cases (ltb s.pool.m_max_requests (length s.pool.m_workqueue))) [
      | inl full ↦ (let gone : append s.pool r ≡ none = simp full refl in absurd cc)
      | inr room ↦
          let put : append s.pool r
              ≡ some (record s.pool { m_workqueue = s.pool.m_workqueue ++ r ∷ [] }) =
            simp room refl in
          let same : record s.pool { m_workqueue = s.pool.m_workqueue ++ r ∷ [] } ≡ p = cc in
          subst
            (λ p.
              Valid
                (record s { pool = p; posting = suc s.posting; accepted = s.accepted ++ r ∷ [] }))
            same
            (record {
              in_order =
                  ap (λ l. l ++ r ∷ []) v.in_order
                  ∙ append_assoc s.taken s.pool.m_workqueue (r ∷ []);
              posted = omega (arith, v.posted, length-append s.pool.m_workqueue (r ∷ []));
              bounded = ground (arith, length-append s.pool.m_workqueue (r ∷ []));
              running = v.running;
            })
    ]

passes-Valid :
    (s : System) (p : RequestPool) (n i : ℕ)
    → i < length s.runners
    → get_or s.runners i testing ≡ waiting
    → s.pool.m_queuestat ≡ n
    → lowered s.pool n ≡ some p
    → Valid s
    → Valid (record s { pool = p; runners = set s.runners i woken })
passes-Valid s p zero i lt at n e v = absurd cc
passes-Valid s p (suc m) i lt at n e v =
    let same : record s.pool { m_queuestat = m } ≡ p = cc in
    subst (λ p. Valid (record s { pool = p; runners = set s.runners i woken })) same
      (record {
        in_order = v.in_order;
        posted = omega (arith, v.posted, total-set is_woken s.runners i waiting woken lt at);
        bounded = v.bounded;
        running =
            λ r. omega (arith, v.running r, total-set is_exited s.runners i waiting woken lt at);
      })

takes-Valid :
    (s : System) (p : RequestPool) (q : List ℕ) (i r : ℕ)
    → i < length s.runners
    → get_or s.runners i testing ≡ woken
    → s.pool.m_workqueue ≡ q
    → without_first s.pool q ≡ some (r, p)
    → Valid s
    → Valid (record s {
      pool = p;
      runners = set s.runners i (with_request r);
      taken = s.taken ++ r ∷ [];
    })
takes-Valid s p [] i r lt at q e v = absurd cc
takes-Valid s p (x ∷ rest) i r lt at q e v =
    let same_r : x ≡ r = cc in
    let same_p : record s.pool { m_workqueue = rest } ≡ p = cc in
    subst
      (λ p. Valid (record s {
        pool = p;
        runners = set s.runners i (with_request r);
        taken = s.taken ++ r ∷ [];
      }))
      same_p
      (record {
        in_order =
            v.in_order
            ∙ ap (◌++◌ s.taken) q
            ∙ sym (append_assoc s.taken (x ∷ []) rest)
            ∙ ap (λ y. (s.taken ++ y ∷ []) ++ rest) same_r;
        posted = omega (
          arith,
          v.posted,
          ap length q,
          is_woken-with_request r,
          total-set is_woken s.runners i woken (with_request r) lt at,
        );
        bounded = omega (arith, v.bounded, ap length q);
        running = λ n. omega (
          arith,
          v.running n,
          is_exited-with_request r,
          total-set is_exited s.runners i woken (with_request r) lt at,
        );
      })

-- A thread that has passed `wait` finds a request.
pub found_one :
    (s : System) (i : ℕ)
    → Valid s
    → i < length s.runners
    → get_or s.runners i testing ≡ woken
    → 0 < length s.pool.m_workqueue
found_one s i v lt at =
    omega (arith, v.posted, total-get_or is_woken s.runners i lt, ap is_woken at)

pub first_there :
    (pool : RequestPool) (q : List ℕ)
    → 0 < length q
    → (r : ℕ) × (p : RequestPool) × (without_first pool q ≡ some (r, p))
first_there pool [] h = absurd (omega arith)
first_there pool (r ∷ q) h = (r, record pool { m_workqueue = q }, refl)

step-Valid : (s u : System) → Valid s → Step s u → Valid u
unfolding post stop wait take_request
step-Valid s u v (Step.appends {p = p} r e) = appends-Valid s p r e v
step-Valid s u v (Step.rejects r e) = v
step-Valid s u v (Step.posts n e) = record {
  in_order = v.in_order;
  posted = omega (arith, v.posted);
  bounded = v.bounded;
  running = v.running;
}
step-Valid s u v Step.stops = record {
  in_order = v.in_order;
  posted = v.posted;
  bounded = v.bounded;
  running = λ e. absurd cc;
}
step-Valid s u v (Step.goes_on i lt at e) =
    moves-Valid s i testing waiting lt at refl refl (λ n. refl) v
step-Valid s u v (Step.leaves i lt at e) =
    moves-Valid s i testing exited lt at refl refl (λ n. absurd cc) v
step-Valid s u v (Step.passes {p = p} i lt at e) =
    passes-Valid s p s.pool.m_queuestat i lt at refl e v
step-Valid s u v (Step.takes {p = p} i r lt at e) =
    takes-Valid s p s.pool.m_workqueue i r lt at refl e v
step-Valid s u v (Step.finds_none i lt at e) =
    let (r, p, found) = first_there s.pool s.pool.m_workqueue (found_one s i v lt at) in absurd cc
step-Valid s u v (Step.finishes i r lt at) =
    moves-Valid s i (processing r) testing lt at refl refl (λ n. refl) v

-- However clients and threads take turns, a valid system leads to valid ones only: the requests put
-- into the queue are those taken out, in the same order, and after them those in the queue; each of
-- these has a post, still to come, in the semaphore, or passed by a thread that has not taken a request
-- yet; there are at most `m_max_requests` + 1 of them; and no thread leaves before `m_stop` is set.
pub requests_all_posted : (s u : System) → Valid s → Reachable s u → Valid u
requests_all_posted s u v at_start = v
requests_all_posted s u v (further {u = m} r step) =
    step-Valid m u (requests_all_posted s m v r) step
