-- ===== src/ProcessPool/Child/Serves.antt =====
-- Whom a child serves, and when it stops.
use c_model.Common.{
  ℕ, ◌<◌, ◌≡◌, refl, ap, sym, subst, ◌∙◌, List, [], ◌∷◌, ◌++◌, Option, none, some, arith, Bool,
  true, false, ltb, ◌==◌, ==-eq, ◌&&◌, ◌||◌, if◌then◌else◌, Bool-cases, inl, inr, ◌⊎◌,
}
use c_model.Array.{count, count-append, get_elem?}
use c_model.Run.{Returns, returns, Returns-if, Returns-bind, Returns-map}
use c_model.ProcessPool.{Signal, sigchld, sigterm, sigint, other}
use c_model.ProcessPool.Spawn.{Process, Built}
use c_model.ProcessPool.Child.{
  Child, Ready, user_per_process, accept_client, child_signals, child_event, child_events,
  child_loop, new_child, run_child,
}

-- Only connections that were initialised were processed, and all connections that were added are
-- initialised and have a handler.
pub record Served (s : Child) : Type 0 where
  pub after_init : (fd : ℕ) → 0 < count fd s.processed → 0 < count fd s.inited
  pub in_array : (fd : ℕ) → 0 < count fd s.added → fd < user_per_process
  pub ready : (fd : ℕ) → 0 < count fd s.added → 0 < count fd s.inited

-- What `epoll_wait` reports to a child: descriptors that were added. And `accept` gives descriptors for
-- which there is a handler.
pub record Plausible (pipefd sigfd : ℕ) (s : Child) (e : Ready) : Type 0 where
  pub known :
      e.epollin ≡ true → (e.sockfd ≡ pipefd) ⊎ ((e.sockfd ≡ sigfd) ⊎ (0 < count e.sockfd s.added))
  pub fits : (fd : ℕ) → e.connfd ≡ some fd → fd < user_per_process

abbrev pub AllPlausible : ℕ → ℕ → Child → List Ready → Type 0
AllPlausible pipefd sigfd s [] = Unit
AllPlausible pipefd sigfd s (e ∷ events) =
    Plausible pipefd sigfd s e × AllPlausible pipefd sigfd s events

-- So are all reports, each in the state in which it comes.
abbrev pub Reported : ℕ → ℕ → Child → List (List Ready) → Type 0
Reported pipefd sigfd s [] = Unit
Reported pipefd sigfd s (events ∷ later) =
    AllPlausible pipefd sigfd s events
    × ((u : Child) → child_events pipefd sigfd events s ≡ some u → Reported pipefd sigfd u later)

-- Whether a signal that ends the child is among those read.
abbrev pub ends_child : List Signal → Bool
ends_child [] = false
ends_child (sigchld ended ∷ sigs) = ends_child sigs
ends_child (sigterm ∷ sigs) = true
ends_child (sigint ∷ sigs) = true
ends_child (other ∷ sigs) = ends_child sigs

-- From one state to a later one: connections are only added, and a child that stops stays stopped.
pub record Onward (s u : Child) : Type 0 where
  pub served : Served u
  pub more : (fd : ℕ) → 0 < count fd s.added → 0 < count fd u.added
  pub stopped : s.m_stop ≡ true → u.m_stop ≡ true
  pub same_closed : u.closed ≡ s.closed

Onward-self : (s : Child) → Served s → Onward s s
Onward-self s w = record { served = w; more = λ fd h. h; stopped = λ e. e; same_closed = refl }

Onward-trans : (s t u : Child) → Onward s t → Onward t u → Onward s u
Onward-trans s t u a b = record {
  served = b.served;
  more = λ fd h. b.more fd (a.more fd h);
  stopped = λ e. b.stopped (a.stopped e);
  same_closed = b.same_closed ∙ a.same_closed;
}

or_true : (b : Bool) → (b || true) ≡ true
or_true true = refl
or_true false = refl

-- Of the child's state, signals change `m_stop` only.
pub signals-kept :
    (sigs : List Signal) (s : Child)
    → child_signals sigs s ≡ record s { m_stop = ends_child sigs || s.m_stop }
unfolding child_signals
signals-kept [] s = refl
signals-kept (sigchld ended ∷ sigs) s = signals-kept sigs s
signals-kept (sigterm ∷ sigs) s =
    signals-kept sigs (record s { m_stop = true })
    ∙ ap (λ b. record s { m_stop = b }) (or_true (ends_child sigs))
signals-kept (sigint ∷ sigs) s =
    signals-kept sigs (record s { m_stop = true })
    ∙ ap (λ b. record s { m_stop = b }) (or_true (ends_child sigs))
signals-kept (other ∷ sigs) s = signals-kept sigs s

or_kept : (b c : Bool) → c ≡ true → (b || c) ≡ true
or_kept true c e = refl
or_kept false c e = e

pub signals-Onward : (sigs : List Signal) (s : Child) → Served s → Onward s (child_signals sigs s)
signals-Onward sigs s w = subst (Onward s) (sym (signals-kept sigs s)) (record {
  served = record { after_init = w.after_init; in_array = w.in_array; ready = w.ready };
  more = λ fd h. h;
  stopped = λ e. or_kept (ends_child sigs) s.m_stop e;
  same_closed = refl;
})

accept-Onward :
    (connfd : Option ℕ) (s : Child)
    → Served s
    → ((fd : ℕ) → connfd ≡ some fd → fd < user_per_process)
    → Returns (Onward s) (accept_client connfd s)
unfolding accept_client
accept-Onward none s w fits = returns (Onward-self s w)
accept-Onward (some fd) s w fits =
    let below = fits fd refl in
    let inside : ltb fd user_per_process ≡ true = ground arith in
    rw inside (
      returns (record {
        served = record {
          after_init = λ k h. omega (arith, count-append k s.inited (fd ∷ []), w.after_init k h);
          in_array = λ k h. elim (Bool-cases (fd == k)) [
            | inl e ↦ (let same = ==-eq fd k e in omega arith)
            | inr e ↦ w.in_array k (ground (arith, count-append k s.added (fd ∷ []), h))
          ];
          ready = λ k h. ground (
            arith,
            count-append k s.added (fd ∷ []),
            count-append k s.inited (fd ∷ []),
            w.ready k,
          );
        };
        more = λ k h. omega (arith, count-append k s.added (fd ∷ []), h);
        stopped = λ e. e;
        same_closed = refl;
      }))

process-Onward :
    (fd : ℕ) (s : Child)
    → Served s
    → 0 < count fd s.added
    → Returns (Onward s) (
        if ltb fd user_per_process
        then some (record s { processed = s.processed ++ fd ∷ [] })
        else none)
process-Onward fd s w known =
    let below = w.in_array fd known in
    let inside : ltb fd user_per_process ≡ true = ground arith in
    rw inside (
      returns (record {
        served = record {
          after_init = λ k h. elim (Bool-cases (fd == k)) [
            | inl e ↦ subst (λ j. 0 < count j s.inited) (==-eq fd k e) (w.ready fd known)
            | inr e ↦ w.after_init k (ground (arith, count-append k s.processed (fd ∷ []), h))
          ];
          in_array = w.in_array;
          ready = w.ready;
        };
        more = λ k h. h;
        stopped = λ e. e;
        same_closed = refl;
      }))

pub event-Onward :
    (pipefd sigfd : ℕ) (e : Ready) (s : Child)
    → Served s
    → Plausible pipefd sigfd s e
    → Returns (Onward s) (child_event pipefd sigfd e s)
unfolding child_event
event-Onward pipefd sigfd e s w p =
    Returns-if ((e.sockfd == pipefd) && e.epollin)
      (λ is_pipe.
        Returns-if e.received (λ r. accept-Onward e.connfd s w p.fits)
          (λ r. returns (Onward-self s w)))
      λ not_pipe.
        Returns-if ((e.sockfd == sigfd) && e.epollin)
          (λ is_sig. returns (signals-Onward e.signals s w))
          λ not_sig.
            Returns-if e.epollin
              (λ readable. process-Onward e.sockfd s w (client readable not_pipe not_sig))
              λ n. returns (Onward-self s w)
  where
    other_fd : (a b : ℕ) (c : Bool) → c ≡ true → ((a == b) && c) ≡ false → (a == b) ≡ false
    other_fd a b c readable n = elim (Bool-cases (a == b)) [
      | inl y ↦ (let both : ((a == b) && c) ≡ true = rw y readable in absurd cc)
      | inr z ↦ z
    ]

    client :
        e.epollin ≡ true
        → ((e.sockfd == pipefd) && e.epollin) ≡ false
        → ((e.sockfd == sigfd) && e.epollin) ≡ false
        → 0 < count e.sockfd s.added
    client readable np ns =
        let not_pipe = other_fd e.sockfd pipefd e.epollin readable np in
        let not_sig = other_fd e.sockfd sigfd e.epollin readable ns in
        elim (p.known readable) [
          | inl same ↦ absurd (ground arith)
          | inr (inl same) ↦ absurd (ground arith)
          | inr (inr known) ↦ known
        ]

pub Plausible-later :
    (pipefd sigfd : ℕ) (s u : Child) (events : List Ready)
    → ((fd : ℕ) → 0 < count fd s.added → 0 < count fd u.added)
    → AllPlausible pipefd sigfd s events
    → AllPlausible pipefd sigfd u events
Plausible-later pipefd sigfd s u [] more p = tt
Plausible-later pipefd sigfd s u (e ∷ events) more (p, ps) = (
  record {
    known = λ r. elim (p.known r) [
      | inl same ↦ inl same
      | inr (inl same) ↦ inr (inl same)
      | inr (inr there) ↦ inr (inr (more e.sockfd there))
    ];
    fits = p.fits;
  },
  Plausible-later pipefd sigfd s u events more ps,
)

pub events-Onward :
    (pipefd sigfd : ℕ) (events : List Ready) (s : Child)
    → Served s
    → AllPlausible pipefd sigfd s events
    → Returns (Onward s) (child_events pipefd sigfd events s)
unfolding child_events
events-Onward pipefd sigfd [] s w p = returns (Onward-self s w)
events-Onward pipefd sigfd (e ∷ events) s w (p, ps) =
    Returns-bind (event-Onward pipefd sigfd e s w p) λ t o.
      Returns-map
        (events-Onward pipefd sigfd events t o.served
          (Plausible-later pipefd sigfd s t events o.more ps))
        λ u o'. Onward-trans s t u o o'

loop-Onward :
    (pipefd sigfd : ℕ) (reports : List (List Ready)) (s : Child)
    → Served s
    → Reported pipefd sigfd s reports
    → Returns (Onward s) (child_loop pipefd sigfd reports s)
unfolding child_loop
loop-Onward pipefd sigfd [] s w r = returns (Onward-self s w)
loop-Onward pipefd sigfd (events ∷ later) s w (p, rest) =
    Returns-if s.m_stop (λ e. returns (Onward-self s w))
      λ e.
        let b = events-Onward pipefd sigfd events s w p in
        rw b.ends (
          Returns-map
            (loop-Onward pipefd sigfd later b.result b.holds.served (rest b.result b.ends))
            λ u o. Onward-trans s b.result u b.holds o)

-- `run_child` in a process whose index is one of the array's, if `epoll_wait` reports only descriptors
-- that were added and `accept` gives descriptors below 65536: it does not fault, it calls `init` for
-- every connection that it adds and `process` only for connections for which it has called `init`, and
-- it ends by closing its end of its own pipe and its epoll descriptor, and no other descriptor.
pub run_child_serves :
    (pool : Built) (i epollfd sigfd : ℕ) (p : Process) (reports : List (List Ready))
    → pool.m_idx ≡ some i
    → get_elem? pool.m_sub_process i ≡ some p
    → Reported p.m_pipefd.1 sigfd new_child reports
    → Returns
        (λ s. Served s × (s.closed ≡ p.m_pipefd.1 ∷ epollfd ∷ []))
        (run_child pool epollfd sigfd reports)
unfolding run_child
run_child_serves pool i epollfd sigfd p reports at found r =
    let fresh : Served new_child = record {
      after_init = λ fd h. absurd (omega arith);
      in_array = λ fd h. absurd (omega arith);
      ready = λ fd h. absurd (omega arith);
    } in
    rw (at, found)
      (Returns-bind (loop-Onward p.m_pipefd.1 sigfd reports new_child fresh r) λ s o. returns (
        record {
          after_init = o.served.after_init;
          in_array = o.served.in_array;
          ready = o.served.ready;
        },
        ap (λ l. l ++ p.m_pipefd.1 ∷ epollfd ∷ []) o.same_closed,
      ))
