-- ===== src/ProcessPool/Signals.antt =====
-- Signals that the parent process receives.
use c_model.Common.{
  ℕ, zero, suc, ◌<◌, ◌≡◌, ◌↔◌, refl, ap, sym, ◌∙◌, List, [], ◌∷◌, ◌++◌, Option, none, some, arith,
  true, false, ◌==◌, if◌then◌else◌, ==-eq, Bool-cases, Option-cases, inl, inr,
}
use c_model.Array.{get_or, count}
use c_model.ProcessPool.{
  Parent, is_process, mark_ended, close_ended, reap, all_ended, running_pids, sigchld, sigterm,
  on_signal,
}

-- The child with index `i`: its process, or `none` when it has ended or there is no such child.
abbrev pub child : List (Option ℕ) → ℕ → Option ℕ
child procs i = get_or procs i none

-- A child with process `pid`, once the processes `ended` are reported.
abbrev pub survivor : List ℕ → Option ℕ → Option ℕ
survivor ended none = none
survivor ended (some pid) = if count pid ended == 0 then some pid else none

mark_ended-child :
    (e : ℕ) (procs : List (Option ℕ)) (i : ℕ)
    → child (mark_ended e procs) i ≡ (if is_process (child procs i) e then none else child procs i)
unfolding mark_ended is_process
mark_ended-child e [] i = refl
mark_ended-child e (pid ∷ procs) zero = refl
mark_ended-child e (pid ∷ procs) (suc i) = mark_ended-child e procs i

survivor-suc :
    (e : ℕ) (ended : List ℕ) (c : Option ℕ)
    → survivor ended (if is_process c e then none else c) ≡ survivor (e ∷ ended) c
unfolding is_process
survivor-suc e ended none = refl
survivor-suc e ended (some pid) = elim (Bool-cases (pid == e)) [
  | inl same ↦
      let counted : (count pid (e ∷ ended) == 0) ≡ false = ground arith in rw (same, counted) refl
  | inr differs ↦
      let counted : (count pid (e ∷ ended) == 0) ≡ (count pid ended == 0) = ground arith in
      rw (differs, counted) refl
]

unreported : (c : Option ℕ) → c ≡ survivor [] c
unreported none = refl
unreported (some pid) = refl

reap-child :
    (ended : List ℕ) (s : Parent) (i : ℕ)
    → child (reap ended s).m_sub_process i ≡ survivor ended (child s.m_sub_process i)
unfolding reap
reap-child [] s i = unreported (child s.m_sub_process i)
reap-child (e ∷ ended) s i =
    reap-child ended
      (record s {
        m_sub_process = mark_ended e s.m_sub_process;
        closed = s.closed ++ close_ended e 0 s.m_sub_process;
      })
      i
    ∙ ap (survivor ended) (mark_ended-child e s.m_sub_process i)
    ∙ survivor-suc e ended (child s.m_sub_process i)

all_ended-child :
    (procs : List (Option ℕ)) → all_ended procs ≡ true → (i : ℕ) → child procs i ≡ none
unfolding all_ended
all_ended-child [] e i = refl
all_ended-child (none ∷ procs) e zero = refl
all_ended-child (none ∷ procs) e (suc i) = all_ended-child procs e i
all_ended-child (some pid ∷ procs) e i = absurd cc

child-all_ended :
    (procs : List (Option ℕ)) → ((i : ℕ) → child procs i ≡ none) → all_ended procs ≡ true
unfolding all_ended
child-all_ended [] none_left = refl
child-all_ended (none ∷ procs) none_left = child-all_ended procs λ i. none_left (suc i)
child-all_ended (some pid ∷ procs) none_left = absurd (let e = none_left 0 in cc)

-- After SIGCHLD, a child is held to be running just if it was before and its process is not among those
-- that `waitpid` reported; the parent stops just if no child is running.
pub sigchld_tracks_children :
    (ended : List ℕ) (s : Parent)
    → ((i : ℕ)
        → child (on_signal (sigchld ended) s).m_sub_process i
          ≡ survivor ended (child s.m_sub_process i))
      × ((on_signal (sigchld ended) s).m_stop ≡ true
          ↔ ((i : ℕ) → survivor ended (child s.m_sub_process i) ≡ none))
unfolding on_signal
sigchld_tracks_children ended s =
    let procs = (reap ended s).m_sub_process in
    (
      reap-child ended s,
      (
        λ e i. sym (reap-child ended s i) ∙ all_ended-child procs e i,
        λ gone. child-all_ended procs λ i. reap-child ended s i ∙ gone i,
      ),
    )

pub running_pids-child :
    (procs : List (Option ℕ)) (i pid : ℕ)
    → child procs i ≡ some pid
    → 0 < count pid (running_pids procs)
unfolding running_pids
running_pids-child [] i pid e = absurd cc
running_pids-child (none ∷ procs) zero pid e = absurd cc
running_pids-child (none ∷ procs) (suc i) pid e = running_pids-child procs i pid e
running_pids-child (some p ∷ procs) zero pid e = let same : p ≡ pid = cc in ground arith
running_pids-child (some p ∷ procs) (suc i) pid e = omega (arith, running_pids-child procs i pid e)

pub child-running_pids :
    (procs : List (Option ℕ)) (pid : ℕ)
    → 0 < count pid (running_pids procs)
    → (i : ℕ) × (child procs i ≡ some pid)
unfolding running_pids
child-running_pids [] pid h = absurd (omega arith)
child-running_pids (none ∷ procs) pid h = let (i, e) = child-running_pids procs pid h in (suc i, e)
child-running_pids (some p ∷ procs) pid h = elim (Bool-cases (p == pid)) [
  | inl e ↦ (0, ap some (==-eq p pid e))
  | inr e ↦ (let (i, found) = child-running_pids procs pid (ground arith) in (suc i, found))
]

survivor-gone : (ended : List ℕ) (pid : ℕ) → 0 < count pid ended → survivor ended (some pid) ≡ none
survivor-gone ended pid h =
    let counted : (count pid ended == 0) ≡ false = ground arith in rw counted refl

survivor-running_pids :
    (procs : List (Option ℕ)) (i : ℕ) → survivor (running_pids procs) (child procs i) ≡ none
survivor-running_pids procs i = elim (Option-cases (child procs i)) [
  | inl gone ↦ rw gone refl
  | inr (pid, e) ↦
      ap (survivor (running_pids procs)) e
      ∙ survivor-gone (running_pids procs) pid (running_pids-child procs i pid e)
]

-- On SIGTERM the parent sends a signal to the process of each running child, and to no other; and once
-- all of these have been reported it stops.
pub sigterm_leads_to_stop :
    (s : Parent)
    → (pids : List ℕ) × ((on_signal sigterm s).killed ≡ s.killed ++ pids)
      × ((i pid : ℕ) → child s.m_sub_process i ≡ some pid → 0 < count pid pids)
      × ((pid : ℕ) → 0 < count pid pids → (i : ℕ) × (child s.m_sub_process i ≡ some pid))
      × ((on_signal (sigchld pids) (on_signal sigterm s)).m_stop ≡ true)
unfolding on_signal
sigterm_leads_to_stop s =
    let procs = s.m_sub_process in
    let killing : Parent = record s { killed = s.killed ++ running_pids procs } in
    (
      running_pids procs,
      refl,
      running_pids-child procs,
      child-running_pids procs,
      child-all_ended (reap (running_pids procs) killing).m_sub_process
          λ i. reap-child (running_pids procs) killing i ∙ survivor-running_pids procs i,
    )
