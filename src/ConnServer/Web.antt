-- ===== src/ConnServer/Web.antt =====
-- The handlers of a web server's connections and the invariant.
use c_model.Common.{ℕ, ◌<◌, ◌≡◌, refl, List, [], ◌∷◌, ◌++◌, Option, none, some, Bool, true, inl}
use c_model.Array.{length, count, get_elem?-get_or}
use c_model.Run.{◌>>=◌, Returns, Returns-bind, Returns-if}
use c_model.ContextPool.{reading, writing, ConnContext}
use c_model.ContextPool.FreeList.{no_context, context_at}
use c_model.ConnServer.{
  for_read, for_write, Worker, Outcomes, put, ctl_or_free, read_request, process_read,
  written_response, process_write,
}
use c_model.ConnServer.Held.{Setup, used-inside, Counted, counted_up, count_in-Counted}
use c_model.ConnServer.Fits.{FitsAs, Sound, Midway, Handled, at_fd-here}
use c_model.ConnServer.Steps.{
  Sound-Midway, Midway-log, Midway-Counted, freed-Handled, counted-Handled, put_ctl-Handled,
}

module _ (S : Setup) (w : Worker) (i : ℕ) (free used : List ℕ) (s : Sound S w free used)
    (m : 0 < count i used) where
  here : Midway S w i free used w
  here = Sound-Midway S w i free used s m

  inside : i < length w.pool.arr
  inside = used-inside w.pool free used i s.held.valid m

  owned : (context_at w.pool.arr i).pool ≡ true
  owned = let v = s.held.valid in v.owned i m

  -- `process_read` keeps the invariant of the worker, and no other connection is touched.
  pub process_read-Handled :
      (err : Bool) (o : Outcomes)
      → FitsAs S i w.kernel.interest (context_at w.pool.arr i) reading
      → Returns (Handled S w i used) (process_read w i err o)
  unfolding process_read
  process_read-Handled err o (waits, no_end) =
      Returns-if err (λ e. freed-Handled S w i free used w here) (λ e. read_cases o.received)
    where
      read_cases :
          (received : Option (List ℕ))
          → Returns (Handled S w i used) (read_request w i received o.ctl)
      read_cases none = counted-Handled S w i free used w _ here
      read_cases (some []) = freed-Handled S w i free used w here
      read_cases (some (b ∷ bytes)) =
          let c = context_at w.pool.arr i in
          rw (get_elem?-get_or w.pool.arr i no_context inside) (
            put_ctl-Handled S w i free used w
              (record c { data_len = length (b ∷ bytes); buf = b ∷ bytes; handler = writing }) o.ctl
              c.fd for_write here owned refl refl (inl refl)
              (at_fd-here w.kernel.interest c.fd (some (for_write, i)), no_end))

  written-Handled :
      (ok : Bool)
      → (context_at w.pool.arr i).end_fd ≡ 0
      → Returns (Handled S w i used) (written_response w i ok)
  unfolding written_response
  written-Handled ok no_end = rw (get_elem?-get_or w.pool.arr i no_context inside) (
      Returns-bind
        (count_in-Counted
          (record w { sent = w.sent ++ ((context_at w.pool.arr i).fd, w.http_200) ∷ [] }) _
          s.ranged.counted)
        λ u counted. rebind u counted)
    where
      c : ConnContext
      c = context_at w.pool.arr i

      rebind :
          (u : Worker)
          → Counted (record w { sent = w.sent ++ (c.fd, w.http_200) ∷ [] }) u
          → Returns
              (Handled S w i used)
              (put u i (record c { handler = reading }) >>= λ v. ctl_or_free v i ok c.fd for_read)
      rebind u (counted_up all e) =
          put_ctl-Handled S w i free used _ (record c { handler = reading }) ok c.fd for_read
            (Midway-Counted S w i free used _ _
              (Midway-log S w i free used w (w.sent ++ (c.fd, w.http_200) ∷ []) w.connects w.last
                here s.ranged.turn)
              (counted_up all e))
            owned refl refl (inl refl)
            (at_fd-here w.kernel.interest c.fd (some (for_read, i)), no_end)

  -- `process_write` keeps the invariant of the worker, and no other connection is touched.
  pub process_write-Handled :
      (err : Bool) (o : Outcomes)
      → FitsAs S i w.kernel.interest (context_at w.pool.arr i) writing
      → Returns (Handled S w i used) (process_write w i err o)
  unfolding process_write
  process_write-Handled err o (waits, no_end) =
      Returns-if err (λ e. freed-Handled S w i free used w here)
        λ e.
          Returns-if o.written (λ e'. written-Handled o.ctl no_end)
            (λ e'. counted-Handled S w i free used w _ here)
