-- ===== src/ConnServer/Serve.antt =====
-- The loop of a worker process, over any number of calls of `epoll_wait`.
use c_model.Common.{
  ℕ, suc, ◌%◌, ◌^◌, ◌==◌, ◌<◌, ◌≡◌, ◌≢◌, refl, ap, sym, subst, ◌∙◌, List, [], ◌∷◌, Option, some,
  arith, true, false, Bool-cases, inl, inr, ◌⊎◌,
}
use c_model.Array.{length, count, get_elem?, length-set, store-eq_some}
use c_model.Run.{Returns, returns, Returns-on, Returns-map, Returns-bind}
use c_model.ContextPool.{
  Handler, accepting, reading, writing, reading_frontend, writing_backend, reading_backend,
  writing_frontend, ConnContext,
}
use c_model.ContextPool.FreeList.{context_at}
use c_model.ConnServer.{Interest, Worker, WorkerData}
use c_model.ConnServer.Loop.{
  Event, note_polls, note_in, Polled, interrupted, failed, batch, minus_one, turn, serve,
}
use c_model.ConnServer.Held.{Setup, Counted, counted_up, get_elem?-inside}
use c_model.ConnServer.Fits.{FitsAs, Sound}
use c_model.ConnServer.Batch.{
  contexts, descriptors, Distinct, AllUsed, PossibleBatch, Running, handle_batch_keeps_invariant,
}

-- An event is of an open descriptor that the worker has added to epoll, and comes with the context that
-- it was added with.
pub record Reported (S : Setup) (w : Worker) (e : Event) : Type 0 where
  pub there : w.kernel.is_open e.fd ≡ true
  pub added : S.base e.fd ≡ false
  pub kind : Interest
  pub waited : w.kernel.interest e.fd ≡ some (kind, e.ctx)

abbrev pub AllReported : Setup → Worker → List Event → Type 0
AllReported S w [] = Unit {0}
AllReported S w (e ∷ events) = Reported S w e × AllReported S w events

-- Each descriptor of a connection was added with the connection's context.
FitsAs-added :
    (S : Setup) (i : ℕ) (f : ℕ → Option (Interest × ℕ)) (c : ConnContext) (h : Handler)
    → FitsAs S i f c h
    → ((k : Interest) × (f c.fd ≡ some (k, i)))
      × ((c.end_fd ≡ 0) ⊎ ((S.proxy ≡ true) × ((k : Interest) × (f c.end_fd ≡ some (k, i)))))
FitsAs-added S i f c accepting (a, b, p, t) = ((_, a), inl b)
FitsAs-added S i f c reading (a, b) = ((_, a), inl b)
FitsAs-added S i f c writing (a, b) = ((_, a), inl b)
FitsAs-added S i f c reading_frontend (a, b, p, t) = ((_, a), inl b)
FitsAs-added S i f c writing_backend (a, n, b, l, p) = ((_, a), inr (p, (_, b)))
FitsAs-added S i f c reading_backend (a, n, b, l, p) = ((_, a), inr (p, (_, b)))
FitsAs-added S i f c writing_frontend (a, n, b, l, p) = ((_, a), inr (p, (_, b)))

added_with :
    (f : ℕ → Option (Interest × ℕ)) (d : ℕ) (k k' : Interest) (i j : ℕ)
    → f d ≡ some (k, i)
    → f d ≡ some (k', j)
    → i ≡ j
added_with f d k k' i j e e' =
    let same : ◌≡◌ {A = Option (Interest × ℕ)} (some (k, i)) (some (k', j)) = sym e ∙ e' in cc

module _ (S : Setup) (w : Worker) (free used : List ℕ) (s : Sound S w free used) where
  -- The context of an event is in use, and in a web server its descriptor is the event's.
  event_own :
      (e : Event)
      → Reported S w e
      → (0 < count e.ctx used) × (S.proxy ≡ false → (context_at w.pool.arr e.ctx).fd ≡ e.fd)
  event_own e r = elim (s.held.no_leak e.fd r.there) [
    | inl b ↦ (let added = r.added in absurd cc)
    | inr (m, place) ↦
        let o : ℕ = s.held.owner e.fd in
        let ((k, waits), back) =
          FitsAs-added S o w.kernel.interest (context_at w.pool.arr o)
            (context_at w.pool.arr o).handler (s.fit o m) in
        elim place [
          | inl at_front ↦
              let here : o ≡ e.ctx =
                added_with w.kernel.interest e.fd k r.kind o e.ctx
                  (ap w.kernel.interest (sym at_front) ∙ waits) r.waited in
              subst
                (λ i. (0 < count i used) × (S.proxy ≡ false → (context_at w.pool.arr i).fd ≡ e.fd))
                here (m, λ p. at_front)
          | inr at_back ↦ elim back [
            | inl no_end ↦
                let std = s.held.stdin in
                let at_zero = subst (λ d. S.base d ≡ false) (sym at_back ∙ no_end) r.added in
                absurd cc
            | inr (proxied, (k', waits')) ↦
                let here : o ≡ e.ctx =
                  added_with w.kernel.interest e.fd k' r.kind o e.ctx
                    (ap w.kernel.interest (sym at_back) ∙ waits') r.waited in
                (subst (λ i. 0 < count i used) here m, λ p. absurd cc)
          ]
        ]
  ]

  pub events_used : (events : List Event) → AllReported S w events → AllUsed used (contexts events)
  events_used [] r = tt
  events_used (e ∷ events) (r, rs) = ((event_own e r).0, events_used events rs)

  other_context :
      (e : Event) (events : List Event)
      → S.proxy ≡ false
      → Reported S w e
      → AllReported S w events
      → count e.fd (descriptors events) ≡ 0
      → count e.ctx (contexts events) ≡ 0
  other_context e [] no_proxy r rs n = refl
  other_context e (e' ∷ events) no_proxy r (r', rs) n =
      let at = (event_own e r).1 no_proxy in
      let at' = (event_own e' r').1 no_proxy in
      let apart : e'.ctx ≢ e.ctx = λ x.
        let same : e'.fd ≡ e.fd = sym at' ∙ ap (λ i. (context_at w.pool.arr i).fd) x ∙ at in
        ground arith in
      let rest = other_context e events no_proxy r rs (ground arith) in ground arith

  -- In a web server different descriptors are of different contexts.
  contexts-Distinct :
      (events : List Event)
      → S.proxy ≡ false
      → AllReported S w events
      → Distinct (descriptors events)
      → Distinct (contexts events)
  contexts-Distinct [] no_proxy r d = tt
  contexts-Distinct (e ∷ events) no_proxy (r, rs) (d, ds) =
      (other_context e events no_proxy r rs d, contexts-Distinct events no_proxy rs ds)

-- A batch has at most one event of a descriptor, and in a proxy, where two descriptors may have the same
-- context, at most one event of a context.
abbrev pub AtMostOnce : Setup → List Event → Type 0
AtMostOnce S events = Distinct (descriptors events) × (S.proxy ≡ true → Distinct (contexts events))

-- The count of the worker's calls has not come to its largest value.
abbrev pub Countable : Worker → Type 0
Countable w = (d : WorkerData) → get_elem? w.wdata w.cpu_id ≡ some d → suc d.polls_cnt < 2 ^ 64

-- What a call of `epoll_wait` gives, and what the system calls after it give, is possible.
abbrev pub PossibleTurn : Setup → Worker → Polled → Type 0
PossibleTurn S w interrupted = Unit {0}
PossibleTurn S w failed = Countable w
PossibleTurn S w (batch events) =
    Countable w
    × AllReported S w events
    × AtMostOnce S events
    × ((v : Worker) → note_in w (length events) ≡ some v → PossibleBatch v events)

abbrev pub PossibleTurns : Setup → Worker → List Polled → Type 0
PossibleTurns S w [] = Unit {0}
PossibleTurns S w (p ∷ turns) =
    PossibleTurn S w p × ((u : Worker) → turn w p ≡ some u → PossibleTurns S u turns)

pub note_polls-Returns :
    (n : ℕ) (d : WorkerData)
    → suc d.polls_cnt < 2 ^ 64
    → Returns (λ e. e.polls_cnt ≡ suc d.polls_cnt) (note_polls n d)
unfolding note_polls
note_polls-Returns n d h =
    let counts : suc d.polls_cnt % 2 ^ 64 ≡ suc d.polls_cnt = omega arith in
    let nonzero : (suc d.polls_cnt % 2 ^ 64 == 0) ≡ false = ground arith in
    rw nonzero (returns counts)

pub note_in-Counted :
    (w : Worker) (n : ℕ)
    → w.cpu_id < length w.wdata
    → Countable w
    → Returns (Counted w) (note_in w n)
unfolding note_in
note_in-Counted w n r h =
    let (d, found) = get_elem?-inside w.wdata w.cpu_id r in
    Returns-on _ found (
      Returns-bind (note_polls-Returns n d (h d found)) λ e c.
        Returns-on _ (store-eq_some w.wdata w.cpu_id e r)
          (returns (counted_up _ (length-set w.wdata w.cpu_id e))))

pub Sound-Counted :
    (S : Setup) (w v : Worker) (free used : List ℕ)
    → Sound S w free used
    → Counted w v
    → Sound S v free used
Sound-Counted S w v free used s (counted_up all e) = record {
  held = s.held;
  ranged = record {
    counted = subst (λ n. w.cpu_id < n) (sym e) s.ranged.counted;
    turn = s.ranged.turn;
  };
  fit = s.fit;
}

noted-Running : (S : Setup) (w v : Worker) (r : Running S w) → Counted w v → Running S v
noted-Running S w v r c = record {
  free = r.free;
  used = r.used;
  sound = Sound-Counted S w v r.free r.used r.sound c;
}

turn-Running :
    (S : Setup) (w : Worker) (p : Polled)
    → Running S w
    → PossibleTurn S w p
    → Returns (Running S) (turn w p)
unfolding turn
turn-Running S w interrupted r p = returns r
turn-Running S w failed r p =
    Returns-map (note_in-Counted w minus_one r.sound.ranged.counted p)
      λ v c. noted-Running S w v r c
turn-Running S w (batch events) r (countable, reported, (d, d'), p) =
    let s = r.sound in
    let once : Distinct (contexts events) = elim (Bool-cases S.proxy) [
      | inl proxied ↦ d' proxied
      | inr no_proxy ↦ contexts-Distinct S w r.free r.used s events no_proxy reported d
    ] in
    let c = note_in-Counted w (length events) s.ranged.counted countable in
    Returns-on _ c.ends (
      handle_batch_keeps_invariant S c.result r.free r.used events
        (Sound-Counted S w c.result r.free r.used s c.holds)
        (events_used S w r.free r.used s events reported) once (p c.result c.ends))

-- A worker that meets the invariant takes any number of turns of its loop without a fault and meets it
-- again at the end, if each event is of an open descriptor that the worker has added to epoll and comes
-- with the context that it was added with, no batch has two events of a descriptor or, in a proxy, of a
-- connection, the system calls give what is possible, and the count of the calls of `epoll_wait` does not
-- come to 2^64. Calls that are interrupted or fail are among the turns.
pub serve_never_faults :
    (S : Setup) (w : Worker) (turns : List Polled)
    → Running S w
    → PossibleTurns S w turns
    → Returns (Running S) (serve w turns)
unfolding serve
serve_never_faults S w [] r p = returns r
serve_never_faults S w (e ∷ turns) r (p, ps) =
    let t = turn-Running S w e r p in
    Returns-on _ t.ends (serve_never_faults S t.result turns t.holds (ps t.result t.ends))
