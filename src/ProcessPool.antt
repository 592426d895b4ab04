-- ===== src/ProcessPool.antt =====
-- ProcessPool/process_pool/processpool.h: how the parent process hands connections to its children in
-- turn, and what it does on signals (`run_parent`). The constructor is in Spawn, `run_child` in Child.
-- A child is its index in `m_sub_process`. An `m_pid` of -1, of a child that has ended, is `none`. What
-- the system calls give, the connection that is ready and the signals and children that are reported,
-- are arguments; the calls of `send`, `close` and `kill` only leave entries in logs.
pub mod Dispatch
pub mod Signals
pub mod Loop
pub mod Spawn
pub mod Child
mod Tests
use c_model.Common.{
  ℕ, zero, suc, ◌+◌, ◌%◌, List, [], ◌∷◌, ◌++◌, Option, none, some, Bool, true, false, ◌==◌,
  if◌then◌else◌,
}
use c_model.Array.{length, get_elem?}
use c_model.Run.{◌>>=◌}

-- The members and local variables of `run_parent`, and the children that were sent a connection, whose
-- pipe was closed, and the processes that were sent SIGTERM, each oldest first.
pub record Parent : Type 0 where
  pub m_sub_process : List (Option ℕ)
  pub m_stop : Bool
  pub sub_process_counter : ℕ
  pub sent : List ℕ
  pub closed : List ℕ
  pub killed : List ℕ

-- The loop that looks for a child that has not ended, on fuel.
unfoldable pub find_child : ℕ → List (Option ℕ) → ℕ → ℕ → Option ℕ
find_child zero procs counter i = none
find_child (suc k) procs counter i =
    let j = (i + 1) % length procs in
    let rest = find_child k procs counter j in
    get_elem? procs i >>= λ pid. elim pid [
      | some p ↦ some i
      | none ↦ if j == counter then some j else rest
    ]

-- A connection is ready on `m_listenfd`. The result says whether the loop over the events is left.
unfoldable pub new_connection : Parent → Option (Bool × Parent)
unfolding find_child
new_connection s =
    find_child (length s.m_sub_process) s.m_sub_process s.sub_process_counter s.sub_process_counter
    >>= λ i. get_elem? s.m_sub_process i >>= λ pid. elim pid [
      | none ↦ some (true, record s { m_stop = true })
      | some p ↦ some (
        false,
        record s {
          sub_process_counter = (i + 1) % length s.m_sub_process;
          sent = s.sent ++ (i ∷ []);
        },
      )
    ]

-- Whether child `pid` is the process `ended`.
unfoldable pub is_process : Option ℕ → ℕ → Bool
is_process none ended = false
is_process (some pid) ended = pid == ended

-- The children after process `ended` was reported, and those of them, from index `i` on, whose pipe
-- is closed.
unfoldable pub mark_ended : ℕ → List (Option ℕ) → List (Option ℕ)
unfolding is_process
mark_ended ended [] = []
mark_ended ended (pid ∷ procs) =
    (if is_process pid ended then none else pid) ∷ mark_ended ended procs

unfoldable pub close_ended : ℕ → ℕ → List (Option ℕ) → List ℕ
unfolding is_process
close_ended ended i [] = []
close_ended ended i (pid ∷ procs) =
    let rest = close_ended ended (suc i) procs in if is_process pid ended then i ∷ rest else rest

-- The loop over what `waitpid` returns.
unfoldable pub reap : List ℕ → Parent → Parent
unfolding mark_ended close_ended
reap [] s = s
reap (ended ∷ more) s = reap more (record s {
  m_sub_process = mark_ended ended s.m_sub_process;
  closed = s.closed ++ close_ended ended 0 s.m_sub_process;
})

unfoldable pub all_ended : List (Option ℕ) → Bool
all_ended [] = true
all_ended (none ∷ procs) = all_ended procs
all_ended (some pid ∷ procs) = false

unfoldable pub running_pids : List (Option ℕ) → List ℕ
running_pids [] = []
running_pids (none ∷ procs) = running_pids procs
running_pids (some pid ∷ procs) = pid ∷ running_pids procs

-- A byte in the pipe for signals: SIGCHLD, after which `waitpid` returns the processes `ended`, or SIGTERM
-- or SIGINT, or another.
pub data Signal : Type 0 where
  sigchld : List ℕ → Signal
  sigterm sigint other : Signal

unfoldable pub on_signal : Signal → Parent → Parent
unfolding reap all_ended running_pids
on_signal (sigchld ended) s = record (reap ended s) {
  m_stop = all_ended (reap ended s).m_sub_process;
}
on_signal sigterm s = record s { killed = s.killed ++ running_pids s.m_sub_process }
on_signal sigint s = record s { killed = s.killed ++ running_pids s.m_sub_process }
on_signal other s = s

-- The loop over the bytes read from the pipe for signals.
unfoldable pub on_signals : List Signal → Parent → Parent
on_signals [] s = s
on_signals (sig ∷ sigs) s = on_signals sigs (on_signal sig s)

-- An event that `epoll_wait` reports: a connection, the bytes `recv` gives from the pipe for signals, of
-- which there are none when it fails, or another.
pub data Event : Type 0 where
  connection : Event
  signals : List Signal → Event
  unknown : Event

-- The loop over the events that one `epoll_wait` reports.
unfoldable pub handle_events : List Event → Parent → Option Parent
handle_events [] s = some s
handle_events (connection ∷ events) s =
    let rest = λ (u : Parent). handle_events events u in
    new_connection s >>= λ r. if r.0 then some r.1 else rest r.1
handle_events (signals sigs ∷ events) s = handle_events events (on_signals sigs s)
handle_events (unknown ∷ events) s = handle_events events s

-- The loop of `run_parent`, as long as `epoll_wait` reports what is listed.
unfoldable pub run_parent : List (List Event) → Parent → Option Parent
run_parent [] s = some s
run_parent (events ∷ later) s =
    let rest = λ (u : Parent). run_parent later u in
    if s.m_stop then some s else handle_events events s >>= rest
