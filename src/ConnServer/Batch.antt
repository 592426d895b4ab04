-- ===== src/ConnServer/Batch.antt =====
-- A batch of events, and the loop of a worker process.
use c_model.Common.{ℕ, ◌<◌, ◌≡◌, refl, List, [], ◌∷◌, some, arith}
use c_model.Array.{count, get_elem?-get_or}
use c_model.Run.{Returns, returns, Returns-on}
use c_model.ContextPool.{
  Handler, accepting, reading, writing, reading_frontend, writing_backend, reading_backend,
  writing_frontend,
}
use c_model.ContextPool.FreeList.{no_context, context_at}
use c_model.ConnServer.{Worker}
use c_model.ConnServer.Loop.{Event, run_handler, dispatch, handle_batch}
use c_model.ConnServer.Held.{Setup, used-inside}
use c_model.ConnServer.Fits.{FitsAs, Sound, Handled, Possible}
use c_model.ConnServer.Accept.{process_accept-Handled}
use c_model.ConnServer.Web.{process_read-Handled, process_write-Handled}
use c_model.ConnServer.Relay.{
  process_read_frontend-Handled, process_write_backend-Handled, process_read_backend-Handled,
  process_write_frontend-Handled,
}

module _ (S : Setup) (w : Worker) (free used : List ℕ) (s : Sound S w free used) (e : Event)
    (m : 0 < count e.ctx used) (possible : Possible w e.outcomes) where
  run_handler-Handled :
      (h : Handler)
      → (context_at w.pool.arr e.ctx).handler ≡ h
      → FitsAs S e.ctx w.kernel.interest (context_at w.pool.arr e.ctx) h
      → Returns (Handled S w e.ctx used) (run_handler h w e.ctx e.err e.outcomes)
  unfolding run_handler
  run_handler-Handled accepting bound f =
      process_accept-Handled S w e.ctx free used e.err e.outcomes s m f (s.fit e.ctx m) possible
  run_handler-Handled reading bound f =
      process_read-Handled S w e.ctx free used s m e.err e.outcomes f
  run_handler-Handled writing bound f =
      process_write-Handled S w e.ctx free used s m e.err e.outcomes f
  run_handler-Handled reading_frontend bound f =
      process_read_frontend-Handled S w e.ctx free used s m e.err e.outcomes possible f
  run_handler-Handled writing_backend bound f =
      process_write_backend-Handled S w e.ctx free used s m e.err e.outcomes f
  run_handler-Handled reading_backend bound f =
      process_read_backend-Handled S w e.ctx free used s m e.err e.outcomes f
  run_handler-Handled writing_frontend bound f =
      process_write_frontend-Handled S w e.ctx free used s m e.err e.outcomes

  -- An event of a context in use is served without a fault by whichever handler is bound to it, whatever
  -- the system calls give, if descriptors that they open are new and `accept` gives one only while there
  -- is an unused context. Afterwards each context in use holds open descriptors that no other holds, no
  -- other descriptor is left open, each handler is the one for the events that epoll waits for, and the
  -- other contexts in use are as they were.
  pub dispatch_keeps_invariant : Returns (Handled S w e.ctx used) (dispatch w e)
  unfolding dispatch
  dispatch_keeps_invariant =
      Returns-on _
        (get_elem?-get_or w.pool.arr e.ctx no_context
          (used-inside w.pool free used e.ctx s.held.valid m))
        (run_handler-Handled (context_at w.pool.arr e.ctx).handler refl (s.fit e.ctx m))

abbrev pub contexts : List Event → List ℕ
contexts [] = []
contexts (e ∷ events) = e.ctx ∷ contexts events

abbrev pub descriptors : List Event → List ℕ
descriptors [] = []
descriptors (e ∷ events) = e.fd ∷ descriptors events

-- Each number occurs once.
abbrev pub Distinct : List ℕ → Type 0
Distinct [] = Unit {0}
Distinct (i ∷ is) = (count i is ≡ 0) × Distinct is

-- The contexts are in use.
abbrev pub AllUsed : List ℕ → List ℕ → Type 0
AllUsed used [] = Unit {0}
AllUsed used (i ∷ is) = (0 < count i used) × AllUsed used is

-- What the system calls give is possible at each event of the batch.
abbrev pub PossibleBatch : Worker → List Event → Type 0
PossibleBatch w [] = Unit {0}
PossibleBatch w (e ∷ events) =
    Possible w e.outcomes × ((u : Worker) → dispatch w e ≡ some u → PossibleBatch u events)

-- The invariant holds, for some contexts in use.
pub record Running (S : Setup) (w : Worker) : Type 0 where
  pub free : List ℕ
  pub used : List ℕ
  pub sound : Sound S w free used

still_used :
    (S : Setup) (w u : Worker) (i : ℕ) (used is : List ℕ)
    → (h : Handled S w i used u) → count i is ≡ 0
    → AllUsed used is
    → AllUsed h.used' is
still_used S w u i used [] h out m = tt
still_used S w u i used (q ∷ is) h out (n, m) =
    ((h.still q (ground arith) n).0, still_used S w u i used is h (omega arith) m)

-- A batch of events of different contexts, all of them in use, is served without a fault, and the
-- invariant holds again. The system calls may give all that is possible at each event.
pub handle_batch_keeps_invariant :
    (S : Setup) (w : Worker) (free used : List ℕ) (events : List Event)
    → Sound S w free used
    → AllUsed used (contexts events)
    → Distinct (contexts events)
    → PossibleBatch w events
    → Returns (Running S) (handle_batch w events)
unfolding handle_batch
handle_batch_keeps_invariant S w free used [] s m d p =
    returns (record { free = free; used = used; sound = s })
handle_batch_keeps_invariant S w free used (e ∷ events) s (m, ms) (d, ds) (p, ps) =
    let r = dispatch_keeps_invariant S w free used s e m p in
    let h = r.holds in
    Returns-on _ r.ends (
      handle_batch_keeps_invariant S r.result h.free' h.used' events h.sound
        (still_used S w r.result e.ctx used (contexts events) h d ms) ds (ps r.result r.ends))
