-- ===== src/ProcessPool/Loop.antt =====
-- The loops of `run_parent` over events.
use c_model.Common.{
  ℕ, suc, ◌+◌, ◌<◌, ◌≡◌, refl, ap, ◌∙◌, List, [], ◌∷◌, ◌++◌, Option, none, arith, ◌==◌, Bool,
  if◌then◌else◌, ==-eq, Bool-cases, inl, inr,
}
use c_model.Array.{length, count, count-append}
use c_model.Run.{Returns, returns, Returns-bind, Returns-map, Returns-if}
use c_model.ProcessPool.{
  Parent, mark_ended, close_ended, reap, Signal, sigchld, sigterm, sigint, other, on_signal,
  on_signals, Event, connection, signals, unknown, handle_events, run_parent,
}
use c_model.ProcessPool.Signals.{child, survivor, sigchld_tracks_children}
use c_model.ProcessPool.Dispatch.{
  Dispatched, Chosen-lt, handed, none_runs, new_connection_takes_turns,
}

-- How the parent may change: it keeps its children, none of which runs again once it has ended; its
-- counter stays an index; and it has sent connections only to children that ran in the beginning.
pub record Continues (s u : Parent) : Type 0 where
  pub children : length u.m_sub_process ≡ length s.m_sub_process
  pub counter : u.sub_process_counter < length s.m_sub_process
  pub ended : (i : ℕ) → child s.m_sub_process i ≡ none → child u.m_sub_process i ≡ none
  pub sent_to : (i : ℕ) → child s.m_sub_process i ≡ none → count i u.sent ≡ count i s.sent

Continues-self : (s : Parent) → s.sub_process_counter < length s.m_sub_process → Continues s s
Continues-self s h = record {
  children = refl;
  counter = h;
  ended = λ i e. e;
  sent_to = λ i e. refl;
}

Continues-trans : (s u v : Parent) → Continues s u → Continues u v → Continues s v
Continues-trans s u v p q = record {
  children = q.children ∙ p.children;
  counter = omega (arith, q.counter, p.children);
  ended = λ i e. q.ended i (p.ended i e);
  sent_to = λ i e. q.sent_to i (p.ended i e) ∙ p.sent_to i e;
}

length-mark_ended : (e : ℕ) (procs : List (Option ℕ)) → length (mark_ended e procs) ≡ length procs
unfolding mark_ended
length-mark_ended e [] = refl
length-mark_ended e (pid ∷ procs) = ap suc (length-mark_ended e procs)

-- Only the children and the log of closed pipes change when children are reported.
reap-kept :
    (ended : List ℕ) (s : Parent)
    → (length (reap ended s).m_sub_process ≡ length s.m_sub_process)
      × ((reap ended s).sub_process_counter ≡ s.sub_process_counter)
      × ((reap ended s).sent ≡ s.sent)
unfolding reap
reap-kept [] s = (refl, refl, refl)
reap-kept (e ∷ ended) s =
    let (long, counter, sent) = reap-kept ended (record s {
      m_sub_process = mark_ended e s.m_sub_process;
      closed = s.closed ++ close_ended e 0 s.m_sub_process;
    }) in
    (long ∙ length-mark_ended e s.m_sub_process, counter, sent)

on_signal-Continues :
    (sig : Signal) (s : Parent)
    → s.sub_process_counter < length s.m_sub_process
    → Continues s (on_signal sig s)
unfolding on_signal
on_signal-Continues (sigchld pids) s h =
    let (long, counter, sent) = reap-kept pids s in
    record {
      children = long;
      counter = omega (arith, h, counter);
      ended = λ i e. (sigchld_tracks_children pids s).0 i ∙ ap (survivor pids) e;
      sent_to = λ i e. ap (count i) sent;
    }
on_signal-Continues sigterm s h = record {
  children = refl;
  counter = h;
  ended = λ i e. e;
  sent_to = λ i e. refl;
}
on_signal-Continues sigint s h = record {
  children = refl;
  counter = h;
  ended = λ i e. e;
  sent_to = λ i e. refl;
}
on_signal-Continues other s h = Continues-self s h

on_signals-Continues :
    (sigs : List Signal) (s : Parent)
    → s.sub_process_counter < length s.m_sub_process
    → Continues s (on_signals sigs s)
unfolding on_signals
on_signals-Continues [] s h = Continues-self s h
on_signals-Continues (sig ∷ sigs) s h =
    let p = on_signal-Continues sig s h in
    Continues-trans s (on_signal sig s) (on_signals sigs (on_signal sig s)) p
      (on_signals-Continues sigs (on_signal sig s) (omega (arith, p.counter, p.children)))

Dispatched-Continues :
    (s : Parent) (r : Bool × Parent)
    → s.sub_process_counter < length s.m_sub_process
    → Dispatched s r
    → Continues s r.1
Dispatched-Continues s r h (handed i c) =
    let inside = Chosen-lt s.m_sub_process s.sub_process_counter i h c in
    record {
      children = refl;
      counter = ground arith;
      ended = λ j e. e;
      sent_to = λ j e. count-append j s.sent (i ∷ []) ∙ not_chosen j e;
    }
  where
    not_chosen :
        (j : ℕ)
        → child s.m_sub_process j ≡ none
        → count j s.sent + ((if i == j then 1 else 0) + 0) ≡ count j s.sent
    not_chosen j e = elim (Bool-cases (i == j)) [
      | inl same ↦ absurd (
          let gone : child s.m_sub_process i ≡ none =
            ap (child s.m_sub_process) (==-eq i j same) ∙ e in
          let at = c.running.1 in cc)
      | inr differs ↦ rw differs (omega arith)
    ]
Dispatched-Continues s r h (none_runs gone) = record {
  children = refl;
  counter = h;
  ended = λ i e. e;
  sent_to = λ i e. refl;
}

handle_events-Continues :
    (events : List Event) (s : Parent)
    → s.sub_process_counter < length s.m_sub_process
    → Returns (Continues s) (handle_events events s)
unfolding handle_events
handle_events-Continues [] s h = returns (Continues-self s h)
handle_events-Continues (connection ∷ events) s h =
    Returns-bind (new_connection_takes_turns s h) λ r d.
      let p = Dispatched-Continues s r h d in
      Returns-if r.0 (λ e. returns p)
        λ e.
          Returns-map (handle_events-Continues events r.1 (omega (arith, p.counter, p.children)))
            (λ v q. Continues-trans s r.1 v p q)
handle_events-Continues (signals sigs ∷ events) s h =
    let p = on_signals-Continues sigs s h in
    let u = on_signals sigs s in
    Returns-map (handle_events-Continues events u (omega (arith, p.counter, p.children)))
      (λ v q. Continues-trans s u v p q)
handle_events-Continues (unknown ∷ events) s h = handle_events-Continues events s h

-- From a state whose counter is an index of the array, `run_parent` handles whatever `epoll_wait` reports
-- without a fault. It keeps the counter in range, holds no ended child to be running again, and sends
-- no connection to a child that has ended before.
pub run_parent-Continues :
    (batches : List (List Event)) (s : Parent)
    → s.sub_process_counter < length s.m_sub_process
    → Returns (Continues s) (run_parent batches s)
unfolding run_parent
run_parent-Continues [] s h = returns (Continues-self s h)
run_parent-Continues (events ∷ later) s h =
    Returns-if s.m_stop (λ e. returns (Continues-self s h))
      λ e. Returns-bind (handle_events-Continues events s h) λ u p.
        Returns-map (run_parent-Continues later u (omega (arith, p.counter, p.children)))
          (λ v q. Continues-trans s u v p q)
