-- ===== src/ProcessPool/Child/Stops.antt =====
-- When a child stops.
use c_model.Common.{
  ℕ, ◌≡◌, refl, ap, ◌∙◌, List, [], ◌∷◌, ◌++◌, some, arith, true, false, ◌==◌, ◌||◌,
}
use c_model.Run.{◌>>=◌, Returns, returns, Returns-bind, Returns-map}
use c_model.ProcessPool.Child.{Child, Ready, child_event, child_events, child_loop}
use c_model.ProcessPool.Child.Serves.{
  Served, AllPlausible, ends_child, Onward, signals-kept, signals-Onward, event-Onward,
  events-Onward, Plausible-later,
}

-- An event on the pipe for signals, with a signal that ends the child.
pub record Ends (pipefd sigfd : ℕ) (e : Ready) : Type 0 where
  pub on_sig : e.sockfd ≡ sigfd
  pub apart : (sigfd == pipefd) ≡ false
  pub readable : e.epollin ≡ true
  pub ending : ends_child e.signals ≡ true

event_stops :
    (pipefd sigfd : ℕ) (e : Ready) (s : Child)
    → Served s
    → Ends pipefd sigfd e
    → Returns (λ u. Onward s u × (u.m_stop ≡ true)) (child_event pipefd sigfd e s)
unfolding child_event
event_stops pipefd sigfd e s w d =
    let hit : (sigfd == sigfd) ≡ true = ground arith in
    rw (d.on_sig, d.apart, hit, d.readable)
      (returns (
        signals-Onward e.signals s w,
        ap (λ u. u.m_stop) (signals-kept e.signals s) ∙ ap (λ b. b || s.m_stop) d.ending,
      ))

events_stop :
    (pipefd sigfd : ℕ) (xs ys : List Ready) (e : Ready) (s : Child)
    → Served s
    → AllPlausible pipefd sigfd s (xs ++ e ∷ ys)
    → Ends pipefd sigfd e
    → Returns (λ u. u.m_stop ≡ true) (child_events pipefd sigfd (xs ++ e ∷ ys) s)
unfolding child_events
events_stop pipefd sigfd [] ys e s w (p, ps) d =
    Returns-bind (event_stops pipefd sigfd e s w d) λ t (o, stop).
      Returns-map
        (events-Onward pipefd sigfd ys t o.served (Plausible-later pipefd sigfd s t ys o.more ps))
        λ u o'. o'.stopped stop
events_stop pipefd sigfd (x ∷ xs) ys e s w (p, ps) d =
    Returns-bind (event-Onward pipefd sigfd x s w p) λ t o.
      events_stop pipefd sigfd xs ys e t o.served
        (Plausible-later pipefd sigfd s t (xs ++ e ∷ ys) o.more ps) d

loop-stopped :
    (pipefd sigfd : ℕ) (later : List (List Ready)) (s : Child)
    → s.m_stop ≡ true
    → child_loop pipefd sigfd later s ≡ some s
unfolding child_loop
loop-stopped pipefd sigfd [] s e = refl
loop-stopped pipefd sigfd (events ∷ later) s e = simp e refl

-- A child that is served plausible events, with SIGTERM or SIGINT on the pipe for signals among them,
-- handles all of them without a fault, and then leaves the loop, whatever is reported later.
pub sigterm_leaves_loop :
    (pipefd sigfd : ℕ) (xs ys : List Ready) (e : Ready) (later : List (List Ready)) (s : Child)
    → Served s
    → s.m_stop ≡ false
    → AllPlausible pipefd sigfd s (xs ++ e ∷ ys)
    → Ends pipefd sigfd e
    → Returns
        (λ u. child_loop pipefd sigfd ((xs ++ e ∷ ys) ∷ later) s ≡ some u)
        (child_events pipefd sigfd (xs ++ e ∷ ys) s)
unfolding child_loop
sigterm_leaves_loop pipefd sigfd xs ys e later s w going p d =
    let r = events_stop pipefd sigfd xs ys e s w p d in
    let handled = loop-stopped pipefd sigfd later r.result r.holds in
    let goes_on : child_loop pipefd sigfd ((xs ++ e ∷ ys) ∷ later) s
        ≡ (child_events pipefd sigfd (xs ++ e ∷ ys) s >>= λ u. child_loop pipefd sigfd later u) =
      simp going refl in
    record {
      result = r.result;
      ends = r.ends;
      holds = goes_on ∙ ap (λ o. o >>= λ u. child_loop pipefd sigfd later u) r.ends ∙ handled;
    }
