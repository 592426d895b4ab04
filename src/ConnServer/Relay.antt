-- ===== src/ConnServer/Relay.antt =====
-- The handlers of a proxy's connections and the invariant.
use c_model.Common.{
  ℕ, ◌<◌, ◌≢◌, refl, ap, sym, subst, ◌∙◌, List, [], ◌∷◌, ◌++◌, Option, none, some, Bool, true,
  false, not, inr,
}
use c_model.Array.{length, count, get_elem?-get_or}
use c_model.Run.{Returns, Returns-if, Returns-on}
use c_model.ContextPool.{
  writing_backend, reading_backend, reading_frontend, writing_frontend, ConnContext,
}
use c_model.ContextPool.FreeList.{no_context, context_at}
use c_model.ConnServer.{
  for_read, for_write, only_errors, Worker, Outcomes, at_fd, watched, with_kernel,
}
use c_model.ConnServer.Proxy.{
  process_read_frontend, process_write_backend, read_backend, process_read_backend,
  process_write_frontend,
}
use c_model.ConnServer.Held.{Setup, put-eq_some}
use c_model.ConnServer.Fits.{
  Fits, FitsAs, Sound, Midway, Handled, Possible, at_fd-here, at_fd-other,
}
use c_model.ConnServer.Steps.{
  after_put, Sound-Midway, mine_here, Midway-put, Midway-watched, Midway-log, freed-Handled,
  counted-Handled, own_front, own_back, ctl-Handled, put_ctl-Handled,
}
use c_model.ConnServer.Dial.{inside, owned, read_frontend-Handled}

module _ (S : Setup) (w : Worker) (i : ℕ) (free used : List ℕ) (s : Sound S w free used)
    (m : 0 < count i used) where
  start : Midway S w i free used w
  start = Sound-Midway S w i free used s m

  -- `process_read_frontend` keeps the invariant of the worker, and no other connection is touched.
  pub process_read_frontend-Handled :
      (err : Bool) (o : Outcomes)
      → Possible w o
      → FitsAs S i w.kernel.interest (context_at w.pool.arr i) reading_frontend
      → Returns (Handled S w i used) (process_read_frontend w i err o)
  unfolding process_read_frontend
  process_read_frontend-Handled err o possible f =
      Returns-if err (λ y. freed-Handled S w i free used w start)
        (λ y. read_frontend-Handled S w i free used o.received o start possible f)

  -- `process_write_backend` keeps the invariant of the worker, and no other connection is touched.
  pub process_write_backend-Handled :
      (err : Bool) (o : Outcomes)
      → FitsAs S i w.kernel.interest (context_at w.pool.arr i) writing_backend
      → Returns (Handled S w i used) (process_write_backend w i err o)
  unfolding process_write_backend
  process_write_backend-Handled err o (quiet, n, waits, e, proxied) =
      let c = context_at w.pool.arr i in
      let (own, apart) = own_back S w i free used w c.end_fd start refl n in
      let give_up = freed-Handled S w i free used w start in
      Returns-on _ (get_elem?-get_or w.pool.arr i no_context (inside S w i free used w start)) (
        Returns-if err (λ y. give_up)
          λ y.
            Returns-if (not c.flags) (λ y'. give_up)
              λ y'.
                Returns-if o.written
                  (λ y''.
                    put_ctl-Handled S w i free used
                      (record w { sent = w.sent ++ (c.end_fd, c.buf) ∷ [] })
                      (record c { handler = reading_backend; flags = true }) o.ctl c.end_fd for_read
                      (Midway-log S w i free used w (w.sent ++ (c.end_fd, c.buf) ∷ []) w.connects
                        w.last start s.ranged.turn)
                      (owned S w i free used w start) refl refl (inr (refl, n))
                      (
                        at_fd-other w.kernel.interest c.end_fd c.fd (some (for_read, i))
                              (λ x. apart (sym x))
                            ∙ quiet,
                        n,
                        at_fd-here w.kernel.interest c.end_fd (some (for_read, i)),
                        refl,
                        proxied,
                      ))
                  (λ y''. give_up))

  read_backend-Handled :
      (received : Option (List ℕ)) (o : Outcomes)
      → FitsAs S i w.kernel.interest (context_at w.pool.arr i) reading_backend
      → Returns (Handled S w i used) (read_backend w i (context_at w.pool.arr i) received o)
  unfolding read_backend
  read_backend-Handled none o f = counted-Handled S w i free used w _ start
  read_backend-Handled (some bytes) o (quiet, n, waits, e, proxied) =
      let c = context_at w.pool.arr i in
      let c' : ConnContext = record c {
        handler = writing_frontend;
        flags = false;
        data_len = length bytes;
        buf = bytes;
      } in
      let lt = inside S w i free used w start in
      let v = after_put w i c' in
      let m' = Midway-put S w i free used w c' start (owned S w i free used w start) refl refl in
      let here = mine_here S w i free used w c' start in
      let v' = with_kernel v (watched v.kernel c.fd (some (for_write, i))) in
      let m'' =
        Midway-watched S w i free used v c.fd (some (for_write, i)) m'
          (own_front S w i free used v c.fd m' (ap (λ x. x.fd) here)) in
      let (own, apart) = own_back S w i free used v' c.end_fd m'' (ap (λ x. x.end_fd) here) n in
      let apart' : c.end_fd ≢ c.fd = λ x. apart (ap (λ y. y.fd) here ∙ sym x) in
      rw (put-eq_some w i c' lt) (
        Returns-if o.ctl
          (λ y. ctl-Handled S w i free used v' o.ctl_next c.end_fd only_errors m'' own (
            subst (Fits S i (at_fd v'.kernel.interest c.end_fd (some (only_errors, i)))) (sym here)
              (
                at_fd-other v'.kernel.interest c.end_fd c.fd (some (only_errors, i)) apart'
                    ∙ at_fd-here w.kernel.interest c.fd (some (for_write, i)),
                n,
                at_fd-here v'.kernel.interest c.end_fd (some (only_errors, i)),
                refl,
                proxied,
              )))
          (λ y. freed-Handled S w i free used v m'))

  -- `process_read_backend` keeps the invariant of the worker, and no other connection is touched.
  pub process_read_backend-Handled :
      (err : Bool) (o : Outcomes)
      → FitsAs S i w.kernel.interest (context_at w.pool.arr i) reading_backend
      → Returns (Handled S w i used) (process_read_backend w i err o)
  unfolding process_read_backend
  process_read_backend-Handled err o f =
      Returns-on _ (get_elem?-get_or w.pool.arr i no_context (inside S w i free used w start)) (
        Returns-if (not (context_at w.pool.arr i).flags)
          (λ y. freed-Handled S w i free used w start) (λ y. read_backend-Handled o.received o f))

  -- `process_write_frontend` keeps the invariant of the worker, and no other connection is touched.
  pub process_write_frontend-Handled :
      (err : Bool) (o : Outcomes) → Returns (Handled S w i used) (process_write_frontend w i err o)
  unfolding process_write_frontend
  process_write_frontend-Handled err o =
      let c = context_at w.pool.arr i in
      Returns-on _ (get_elem?-get_or w.pool.arr i no_context (inside S w i free used w start)) (
        Returns-if c.flags (λ y. freed-Handled S w i free used w start)
          λ y.
            Returns-if o.written
              (λ y'.
                counted-Handled S w i free used (record w { sent = w.sent ++ (c.fd, c.buf) ∷ [] }) _
                  (Midway-log S w i free used w (w.sent ++ (c.fd, c.buf) ∷ []) w.connects w.last
                    start s.ranged.turn))
              (λ y'. freed-Handled S w i free used w start))
