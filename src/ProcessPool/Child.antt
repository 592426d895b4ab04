-- ===== src/ProcessPool/Child.antt =====
-- A child process (`run_child`).
-- What the system calls give is part of the events. `user` is the array of 65536 handlers, of which only
-- is kept which were called: `init` for a new connection, `process` for a readable one. A descriptor
-- outside the array faults. That `process` may close connections is left out: an event for a
-- descriptor that was never added is what is excluded.
pub mod Serves
pub mod Stops
use c_model.Common.{
  ℕ, ◌+◌, List, [], ◌∷◌, ◌++◌, Option, none, some, Bool, true, false, ltb, ◌==◌, ◌&&◌,
  if◌then◌else◌,
}
use c_model.Array.{get_elem?}
use c_model.Run.{◌>>=◌}
use c_model.ProcessPool.{Signal, sigchld, sigterm, sigint, other}
use c_model.ProcessPool.Spawn.{Process, Built}

abbrev pub user_per_process : ℕ
user_per_process = 65536

-- `m_stop`, the connections that were added to the epoll table, those for which `init` and `process`
-- were called, and the descriptors closed, oldest first.
pub record Child : Type 0 where
  pub m_stop : Bool
  pub added : List ℕ
  pub inited : List ℕ
  pub processed : List ℕ
  pub closed : List ℕ

-- An event: its descriptor, whether it has EPOLLIN, what `recv` and `accept` give if it is the pipe to
-- the parent, and the bytes that `recv` gives if it is the pipe for signals.
pub record Ready : Type 0 where
  pub sockfd : ℕ
  pub epollin : Bool
  pub received : Bool
  pub connfd : Option ℕ
  pub signals : List Signal

unfoldable pub accept_client : Option ℕ → Child → Option Child
accept_client none s = some s
accept_client (some fd) s =
    if ltb fd user_per_process
    then some (record s { added = s.added ++ fd ∷ []; inited = s.inited ++ fd ∷ [] })
    else none

unfoldable pub child_signals : List Signal → Child → Child
child_signals [] s = s
child_signals (sigchld ended ∷ sigs) s = child_signals sigs s
child_signals (sigterm ∷ sigs) s = child_signals sigs (record s { m_stop = true })
child_signals (sigint ∷ sigs) s = child_signals sigs (record s { m_stop = true })
child_signals (other ∷ sigs) s = child_signals sigs s

-- The body of the loop over the events.
unfoldable pub child_event : ℕ → ℕ → Ready → Child → Option Child
unfolding accept_client child_signals
child_event pipefd sigfd e s =
    if (e.sockfd == pipefd) && e.epollin
    then if e.received then accept_client e.connfd s else some s
    else if (e.sockfd == sigfd) && e.epollin
    then some (child_signals e.signals s)
    else if e.epollin
    then if ltb e.sockfd user_per_process
      then some (record s { processed = s.processed ++ e.sockfd ∷ [] })
      else none
    else some s

unfoldable pub child_events : ℕ → ℕ → List Ready → Child → Option Child
unfolding child_event
child_events pipefd sigfd [] s = some s
child_events pipefd sigfd (e ∷ events) s =
    child_event pipefd sigfd e s >>= λ u. child_events pipefd sigfd events u

-- The loop, as long as `epoll_wait` reports what is listed.
unfoldable pub child_loop : ℕ → ℕ → List (List Ready) → Child → Option Child
unfolding child_events
child_loop pipefd sigfd [] s = some s
child_loop pipefd sigfd (events ∷ later) s =
    let rest = λ (u : Child). child_loop pipefd sigfd later u in
    if s.m_stop then some s else child_events pipefd sigfd events s >>= rest

abbrev pub new_child : Child
new_child = record { m_stop = false; added = []; inited = []; processed = []; closed = [] }

unfoldable pub run_child : Built → ℕ → ℕ → List (List Ready) → Option Child
unfolding child_loop
run_child pool epollfd sigfd reports = pool.m_idx >>= λ i. get_elem? pool.m_sub_process i >>= λ p.
    child_loop p.m_pipefd.1 sigfd reports new_child >>= λ s.
    some (record s { closed = s.closed ++ p.m_pipefd.1 ∷ epollfd ∷ [] })
