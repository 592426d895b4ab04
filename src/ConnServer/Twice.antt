-- ===== src/ConnServer/Twice.antt =====
-- Two events of one connection in a batch, where the first one gives the connection up.
use c_model.Common.{
  ℕ, ◌<◌, ◌≡◌, refl, ap, sym, subst, ◌∙◌, List, [], ◌∷◌, ◌++◌, Option, none, arith, Bool, true,
  false, if◌then◌else◌,
}
use c_model.Array.{length, count, get_elem?-get_or}
use c_model.Run.{bind_on, ◌>>=◌, Returns, Returns-bind, Returns-map, Returns-if, Returns-on}
use c_model.ContextPool.{writing_frontend}
use c_model.ContextPool.FreeList.{no_context, context_at}
use c_model.ConnServer.{
  Worker, WorkerData, Kernel, Outcomes, close_fd, drop_fd, process_close, count_in, free_back,
}
use c_model.ConnServer.Proxy.{process_write_frontend}
use c_model.ConnServer.Loop.{Event, run_handler, dispatch, handle_batch}
use c_model.ConnServer.Held.{Setup, used-inside, Counted, counted_up, count_in-Counted}
use c_model.ConnServer.Release.{free_back-Released}
use c_model.ConnServer.Fits.{Sound, Midway}
use c_model.ConnServer.Steps.{Sound-Midway, Midway-log, Midway-Counted}

-- The context is of a closed descriptor and still bound to `process_write_frontend`.
pub record Stale (i : ℕ) (u : Worker) : Type 0 where
  pub inside : i < length u.pool.arr
  pub bound : (context_at u.pool.arr i).handler ≡ writing_frontend
  pub counted : u.cpu_id < length u.wdata
  pub shut : u.kernel.is_open (context_at u.pool.arr i).fd ≡ false

drop_fd-closed :
    (k : Kernel) (added : Bool) (d : ℕ) → k.is_open d ≡ false → drop_fd k added d ≡ none
unfolding drop_fd close_fd
drop_fd-closed k true d o = rw o refl
drop_fd-closed k false d o = rw o refl

free_back-Stale : (i : ℕ) (u : Worker) → Stale i u → free_back u i ≡ none
unfolding free_back process_close
free_back-Stale i u s =
    rw
      (
        get_elem?-get_or u.pool.arr i no_context s.inside,
        drop_fd-closed u.kernel (context_at u.pool.arr i).fd_added (context_at u.pool.arr i).fd
            s.shut,
      )
      refl

both_none {ℓ} :
    {A : Type ℓ} {x y : Option A} (b : Bool) → x ≡ none → y ≡ none → (if b then x else y) ≡ none
both_none true e e' = e
both_none false e e' = e'

Stale-kept : (i : ℕ) (u v : Worker) → Stale i u → Counted u v → Stale i v
Stale-kept i u v s (counted_up all e) = record {
  inside = s.inside;
  bound = s.bound;
  counted = subst (λ n. u.cpu_id < n) (sym e) s.counted;
  shut = s.shut;
}

counted-Stale :
    (i : ℕ) (u : Worker) (f : WorkerData → WorkerData)
    → Stale i u
    → (count_in u f >>= λ v. free_back v i) ≡ none
counted-Stale i u f s =
    let c = count_in-Counted u f s.counted in
    bind_on _ c.ends (free_back-Stale i c.result (Stale-kept i u c.result s c.holds))

written-Stale :
    (i : ℕ) (u : Worker) (err : Bool) (o : Outcomes)
    → Stale i u
    → process_write_frontend u i err o ≡ none
unfolding process_write_frontend
written-Stale i u err o s =
    let c = context_at u.pool.arr i in
    bind_on _ (get_elem?-get_or u.pool.arr i no_context s.inside) (
      both_none c.flags (free_back-Stale i u s) (
        both_none o.written
          (counted-Stale i (record u { sent = u.sent ++ (c.fd, c.buf) ∷ [] }) _
            (record { inside = s.inside; bound = s.bound; counted = s.counted; shut = s.shut }))
          (free_back-Stale i u s)))

dispatch-Stale : (u : Worker) (e : Event) → Stale e.ctx u → dispatch u e ≡ none
unfolding dispatch run_handler
dispatch-Stale u e s = bind_on _ (get_elem?-get_or u.pool.arr e.ctx no_context s.inside) (
    ap (λ h. run_handler h u e.ctx e.err e.outcomes) s.bound
    ∙ written-Stale e.ctx u e.err e.outcomes s)

module _ (S : Setup) (w : Worker) (i : ℕ) (free used : List ℕ) (s : Sound S w free used)
    (m : 0 < count i used) (bound : (context_at w.pool.arr i).handler ≡ writing_frontend) where
  freed-Stale :
      (u : Worker)
      → Midway S w i free used u
      → context_at u.pool.arr i ≡ context_at w.pool.arr i
      → Returns (Stale i) (free_back u i)
  freed-Stale u h same = Returns-map (free_back-Released S u i free used h.held h.in_use) λ v r.
      let valid = r.held.valid in
      record {
        inside = ground (arith, valid.size, valid.once i);
        bound = ap (λ c. c.handler) (r.mine) ∙ ap (λ c. c.handler) same ∙ bound;
        counted =
            subst (λ n. n < length v.wdata) (sym r.rest.1)
              (subst (λ a. u.cpu_id < length a) (sym r.rest.0) h.ranged.counted);
        shut = subst (λ d. v.kernel.is_open d ≡ false) (sym (ap (λ c. c.fd) r.mine)) r.shut;
      }

  first-Stale : (err : Bool) (o : Outcomes) → Returns (Stale i) (process_write_frontend w i err o)
  unfolding process_write_frontend
  first-Stale err o =
      let c = context_at w.pool.arr i in
      let here = Sound-Midway S w i free used s m in
      Returns-on _
        (get_elem?-get_or w.pool.arr i no_context (used-inside w.pool free used i s.held.valid m))
        (Returns-if c.flags (λ y. freed-Stale w here refl)
          λ y.
            Returns-if o.written
              (λ y'.
                Returns-bind
                  (count_in-Counted (record w { sent = w.sent ++ (c.fd, c.buf) ∷ [] }) _
                    s.ranged.counted)
                  λ v counted.
                    after_count v
                      (Midway-Counted S w i free used _ v
                        (Midway-log S w i free used w (w.sent ++ (c.fd, c.buf) ∷ []) w.connects
                          w.last here s.ranged.turn)
                        counted)
                      counted)
              (λ y'. freed-Stale w here refl))
    where
      after_count :
          (v : Worker)
          → Midway S w i free used v
          → Counted
              (record w {
                sent = w.sent ++ ((context_at w.pool.arr i).fd, (context_at w.pool.arr i).buf) ∷ [];
              })
              v
          → Returns (Stale i) (free_back v i)
      after_count v h (counted_up all e) = freed-Stale v h refl

-- In a worker that meets the invariant, let `process_write_frontend` be bound to a context in use. A
-- batch that begins with two events of this context, such as one of the client's descriptor and one of
-- the back-end server's, faults, whatever the system calls give.
pub second_event_faults :
    (S : Setup) (w : Worker) (free used : List ℕ) (e e' : Event) (events : List Event)
    → Sound S w free used
    → 0 < count e.ctx used
    → (context_at w.pool.arr e.ctx).handler ≡ writing_frontend
    → e'.ctx ≡ e.ctx
    → handle_batch w (e ∷ e' ∷ events) ≡ none
unfolding handle_batch dispatch run_handler
second_event_faults S w free used e e' events s m bound same =
    let r = first-Stale S w e.ctx free used s m bound e.err e.outcomes in
    let stale : Stale e'.ctx r.result = subst (λ i. Stale i r.result) (sym same) r.holds in
    bind_on _
      (bind_on _
        (get_elem?-get_or w.pool.arr e.ctx no_context
          (used-inside w.pool free used e.ctx s.held.valid m))
        (ap (λ h. run_handler h w e.ctx e.err e.outcomes) bound ∙ r.ends))
      (ap (λ c. c >>= λ u. handle_batch u events) (dispatch-Stale r.result e' stale))
