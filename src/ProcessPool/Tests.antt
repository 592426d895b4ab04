-- ===== src/ProcessPool/Tests.antt =====
-- Runs of the parent process, and its theorems at concrete inputs.
use c_model.Common.{
  inl, inr, zero, suc, ℕ, ◌<◌, ◌≡◌, ◌↔◌, refl, List, [], ◌∷◌, ◌++◌, none, some, arith, true, false,
}
use c_model.Array.{count}
use c_model.Run.{◌>>=◌, Returns}
use c_model.ProcessPool.{
  Parent, new_connection, find_child, sigchld, sigterm, on_signal, reap, mark_ended, is_process,
  all_ended,
}
use c_model.ProcessPool.{Event, connection, signals, run_parent, handle_events, on_signals}
use c_model.ProcessPool.Loop.{Continues, run_parent-Continues}
use c_model.ProcessPool.Dispatch.{Dispatched, new_connection_takes_turns}
use c_model.ProcessPool.Signals.{child, survivor, sigchld_tracks_children, sigterm_leads_to_stop}
use c_model.ProcessPool.Spawn.{
  Built, Calls, processpool, processes, no_process, constructor_in_parent,
}
use c_model.ProcessPool.Child.{
  Ready, new_child, run_child, child_loop, child_events, child_event, accept_client, child_signals,
}
use c_model.ProcessPool.Child.Serves.{Served, run_child_serves}
use c_model.ProcessPool.Child.Stops.{sigterm_leaves_loop}

-- Three children, of which the second has ended; it is the turn of the second.
abbrev parent : Parent
parent = record {
  m_sub_process = some 40 ∷ none ∷ some 42 ∷ [];
  m_stop = false;
  sub_process_counter = 1;
  sent = [];
  closed = 1 ∷ [];
  killed = [];
}

new_connection_takes_turns_example : Returns (Dispatched parent) (new_connection parent)
new_connection_takes_turns_example = new_connection_takes_turns parent (omega arith)

-- The ended child is passed over.
three_connections :
    (new_connection parent >>= λ r.
    new_connection r.1 >>= λ t. new_connection t.1 >>= λ u. some u.1.sent)
    ≡ some (2 ∷ 0 ∷ 2 ∷ [])
unfolding new_connection find_child
three_connections = refl

last_ended : (on_signal (sigchld (42 ∷ 40 ∷ [])) parent).m_stop ≡ true
unfolding on_signal reap mark_ended is_process all_ended
last_ended = refl

sigchld_tracks_children_example :
    ((i : ℕ)
      → child (on_signal (sigchld (42 ∷ [])) parent).m_sub_process i
        ≡ survivor (42 ∷ []) (child parent.m_sub_process i))
    × ((on_signal (sigchld (42 ∷ [])) parent).m_stop ≡ true
        ↔ ((i : ℕ) → survivor (42 ∷ []) (child parent.m_sub_process i) ≡ none))
sigchld_tracks_children_example = sigchld_tracks_children (42 ∷ []) parent

sigterm_leads_to_stop_example :
    (pids : List ℕ) × ((on_signal sigterm parent).killed ≡ parent.killed ++ pids)
    × ((i pid : ℕ) → child parent.m_sub_process i ≡ some pid → 0 < count pid pids)
    × ((pid : ℕ) → 0 < count pid pids → (i : ℕ) × (child parent.m_sub_process i ≡ some pid))
    × ((on_signal (sigchld pids) (on_signal sigterm parent)).m_stop ≡ true)
sigterm_leads_to_stop_example = sigterm_leads_to_stop parent

abbrev reports : List (List Event)
reports = (connection ∷ signals (sigchld (42 ∷ []) ∷ []) ∷ []) ∷ (connection ∷ []) ∷ []

run_parent-Continues_example : Returns (Continues parent) (run_parent reports parent)
run_parent-Continues_example = run_parent-Continues reports parent (omega arith)

-- Once child 2 has ended, child 0 gets the next connection.
both_connections : (run_parent reports parent >>= λ u. some u.sent) ≡ some (2 ∷ 0 ∷ [])
unfolding run_parent handle_events new_connection find_child on_signals on_signal reap mark_ended
    is_process all_ended
both_connections = refl

-- Two rounds of the constructor that are in the parent, and a third one in the child.
abbrev rounds : Calls
rounds zero = (some (3, 4), some 70)
rounds (suc zero) = (some (5, 6), some 71)
rounds (suc (suc i)) = (some (7, 8), some 0)

two_children_built :
    processpool 2 rounds
    ≡ some (record {
      m_sub_process = processes ((70, (3, 4)) ∷ (71, (5, 6)) ∷ []);
      m_idx = none;
      closed = 4 ∷ 6 ∷ [];
    })
two_children_built =
    constructor_in_parent rounds ((70, (3, 4)) ∷ (71, (5, 6)) ∷ [])
      (refl, refl, (λ e. absurd (omega arith)), (refl, refl, (λ e. absurd (omega arith)), tt))
      (omega arith) (omega arith)

-- The third child: a connection at 20 comes, becomes readable, and then SIGTERM.
abbrev third : Built
third = record {
  m_sub_process =
      processes ((70, (3, 4)) ∷ (71, (5, 6)) ∷ [])
      ++ record { m_pid = some 0; m_pipefd = (7, 8) } ∷ no_process ∷ [];
  m_idx = some 2;
  closed = 4 ∷ 6 ∷ 7 ∷ [];
}

abbrev comes : Ready
comes = record { sockfd = 8; epollin = true; received = true; connfd = some 20; signals = [] }

abbrev readable_client : Ready
readable_client = record {
  sockfd = 20;
  epollin = true;
  received = true;
  connfd = none;
  signals = [];
}

abbrev stops : Ready
stops = record {
  sockfd = 11;
  epollin = true;
  received = true;
  connfd = none;
  signals = sigterm ∷ [];
}

run_child_serves_example :
    Returns
      (λ s. Served s × (s.closed ≡ 8 ∷ 9 ∷ []))
      (run_child third 9 11 ((comes ∷ stops ∷ []) ∷ []))
run_child_serves_example =
    run_child_serves third 2 9 11 (record { m_pid = some 0; m_pipefd = (7, 8) })
      ((comes ∷ stops ∷ []) ∷ []) refl refl
      (
        (
          record { known = λ r. inl refl; fits = λ fd e. omega (arith, accepted-is fd e) },
          (record { known = λ r. inr (inl refl); fits = λ fd e. absurd cc }, tt),
        ),
        λ u e. tt,
      )
  where
    accepted-is : (fd : ℕ) → some 20 ≡ some fd → fd ≡ 20
    accepted-is fd e = cc

sigterm_leaves_loop_example :
    Returns
      (λ u. child_loop 8 11 ((stops ∷ []) ∷ (comes ∷ []) ∷ []) new_child ≡ some u)
      (child_events 8 11 (stops ∷ []) new_child)
sigterm_leaves_loop_example =
    sigterm_leaves_loop 8 11 [] [] stops ((comes ∷ []) ∷ []) new_child
      (record {
        after_init = λ fd h. absurd (omega arith);
        in_array = λ fd h. absurd (omega arith);
        ready = λ fd h. absurd (omega arith);
      })
      refl (record { known = λ r. inr (inl refl); fits = λ fd e. absurd cc }, tt)
      (record { on_sig = refl; apart = refl; readable = refl; ending = refl })

served_in_turn :
    (run_child third 9 11 ((comes ∷ []) ∷ (readable_client ∷ stops ∷ []) ∷ []) >>= λ s.
    some s.processed)
    ≡ some (20 ∷ [])
unfolding run_child child_loop child_events child_event accept_client child_signals
served_in_turn = refl
