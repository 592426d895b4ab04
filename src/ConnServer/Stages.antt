-- ===== src/ConnServer/Stages.antt =====
-- A connection through a proxy, from the request to the response, where all system calls succeed.
use c_model.Common.{
  ℕ, ◌<◌, ◌≡◌, ap, sym, subst, ◌∙◌, List, [], ◌∷◌, ◌++◌, Option, none, some, Bool, true, false,
}
use c_model.Array.{length, set, length-set, get_elem?, get_elem?-get_or}
use c_model.Run.{Returns, returns, Returns-on}
use c_model.ContextPool.{writing_backend, reading_backend, writing_frontend, ConnContext}
use c_model.ContextPool.FreeList.{no_context, context_at, set_here}
use c_model.ConnServer.{only_errors, Worker, Outcomes, opened, watched, with_kernel, put}
use c_model.ConnServer.Proxy.{
  select_backend, dial, connect_backend, read_frontend, process_read_frontend,
  process_write_backend, read_backend, process_read_backend,
}
use c_model.ConnServer.Held.{put-eq_some}
use c_model.ConnServer.Steps.{after_put}

-- What the system calls give: `read` gives `bytes`, `socket` gives `fd` if it is called, and the others
-- succeed.
abbrev pub passing : List ℕ → Option ℕ → Outcomes
passing bytes fd = record {
  accepted = none;
  received = some bytes;
  written = true;
  socket = fd;
  linger = true;
  connected = true;
  ctl = true;
  ctl_next = true;
}

-- Connection `i` has context `c`, and `sent` and `connects` are what was written and asked for.
pub record Stage (i : ℕ) (c : ConnContext) (sent : List (ℕ × List ℕ)) (connects : List (ℕ × ℕ))
    (u : Worker) : Type 0 where
  pub inside : i < length u.pool.arr
  pub here : context_at u.pool.arr i ≡ c
  pub counted : u.cpu_id < length u.wdata
  pub written : u.sent ≡ sent
  pub asked : u.connects ≡ connects

-- The context with the request, while the back-end server is asked, and while its response is awaited;
-- and with the response.
abbrev pub asking : ConnContext → List ℕ → ℕ → ConnContext
asking c request fd = record c {
  data_len = length request;
  buf = request;
  end_fd = fd;
  handler = writing_backend;
  flags = true;
  end_fd_added = true;
}

abbrev pub awaiting : ConnContext → ConnContext
awaiting c = record c { handler = reading_backend; flags = true }

abbrev pub answering : ConnContext → List ℕ → ConnContext
answering c response = record c {
  handler = writing_frontend;
  flags = false;
  data_len = length response;
  buf = response;
}

module _ (i : ℕ) where
  abbrev inside_put :
      (u : Worker) (c : ConnContext) → i < length u.pool.arr → i < length (set u.pool.arr i c)
  inside_put u c lt = subst (λ n. i < n) (sym (length-set u.pool.arr i c)) lt

  pub got :
      (u : Worker) (c : ConnContext)
      → i < length u.pool.arr
      → context_at u.pool.arr i ≡ c
      → get_elem? u.pool.arr i ≡ some c
  got u c lt e = get_elem?-get_or u.pool.arr i no_context lt ∙ ap some e

  got_put :
      (u : Worker) (c : ConnContext)
      → i < length u.pool.arr
      → get_elem? (set u.pool.arr i c) i ≡ some c
  got_put u c lt =
      get_elem?-get_or (set u.pool.arr i c) i no_context (inside_put u c lt)
      ∙ ap some (set_here u.pool.arr i c lt)

  put-Stage :
      (u : Worker) (c : ConnContext) (sent : List (ℕ × List ℕ)) (connects : List (ℕ × ℕ))
      → i < length u.pool.arr
      → u.cpu_id < length u.wdata
      → u.sent ≡ sent
      → u.connects ≡ connects
      → Returns (Stage i c sent connects) (put u i c)
  put-Stage u c sent connects lt r e e' = rw (put-eq_some u i c lt) (
      returns (record {
        inside = inside_put u c lt;
        here = set_here u.pool.arr i c lt;
        counted = r;
        written = e;
        asked = e';
      }))

  dial-Stage :
      (u : Worker) (c : ConnContext) (fd addr : ℕ) (bytes : List ℕ) (sent : List (ℕ × List ℕ))
      (connects : List (ℕ × ℕ))
      → Stage i c sent connects u
      → get_elem? c.pa u.last ≡ some addr
      → Returns
          (Stage i
            (record c { handler = writing_backend; flags = true; end_fd_added = true })
            sent
            (connects ++ (fd, addr) ∷ []))
          (dial u i fd (passing bytes (some fd)))
  unfolding dial select_backend
  dial-Stage u c fd addr bytes sent connects s found =
      rw (got u c s.inside s.here, found)
        (Returns-on _ (put-eq_some _ i _ s.inside) (
          put-Stage _ _ sent (connects ++ (fd, addr) ∷ [])
            (inside_put u (record c { handler = writing_backend; flags = true }) s.inside) s.counted
            s.written (ap (λ k. k ++ (fd, addr) ∷ []) s.asked)))

  pub process_read_frontend-Stage :
      (u : Worker) (c : ConnContext) (fd addr : ℕ) (request : List ℕ) (sent : List (ℕ × List ℕ))
      (connects : List (ℕ × ℕ))
      → Stage i c sent connects u
      → get_elem? c.pa u.last ≡ some addr
      → Returns
          (Stage i (asking c request fd) sent (connects ++ (fd, addr) ∷ []))
          (process_read_frontend u i false (passing request (some fd)))
  unfolding process_read_frontend read_frontend connect_backend
  process_read_frontend-Stage u c fd addr request sent connects s found =
      let c' : ConnContext = record c { data_len = length request; buf = request } in
      let c'' : ConnContext = record c' { end_fd = fd } in
      let v = after_put u i c' in
      let v' = with_kernel v (watched v.kernel c.fd (some (only_errors, i))) in
      let new = with_kernel v' (opened v'.kernel fd) in
      let lt = inside_put u c' s.inside in
      Returns-on _ (got u c s.inside s.here) (
        Returns-on _ (put-eq_some u i c' s.inside) (
          Returns-on _ (got_put u c' s.inside) (
            Returns-on _ (put-eq_some new i c'' lt) (
              dial-Stage (after_put new i c'') c'' fd addr request sent connects
                (record {
                  inside = inside_put new c'' lt;
                  here = set_here new.pool.arr i c'' lt;
                  counted = s.counted;
                  written = s.written;
                  asked = s.asked;
                })
                found))))

  pub process_write_backend-Stage :
      (u : Worker) (c : ConnContext) (bytes : List ℕ) (sent : List (ℕ × List ℕ))
      (connects : List (ℕ × ℕ))
      → Stage i c sent connects u
      → c.flags ≡ true
      → Returns
          (Stage i (awaiting c) (sent ++ (c.end_fd, c.buf) ∷ []) connects)
          (process_write_backend u i false (passing bytes none))
  unfolding process_write_backend
  process_write_backend-Stage u c bytes sent connects s enabled =
      Returns-on _ (got u c s.inside s.here) (
        rw enabled (
          Returns-on _ (put-eq_some _ i (awaiting c) s.inside) (
            returns (record {
              inside = inside_put u (awaiting c) s.inside;
              here = set_here u.pool.arr i (awaiting c) s.inside;
              counted = s.counted;
              written = ap (λ k. k ++ (c.end_fd, c.buf) ∷ []) s.written;
              asked = s.asked;
            }))))

  pub process_read_backend-Stage :
      (u : Worker) (c : ConnContext) (response : List ℕ) (err : Bool) (sent : List (ℕ × List ℕ))
      (connects : List (ℕ × ℕ))
      → Stage i c sent connects u
      → c.flags ≡ true
      → Returns
          (Stage i (answering c response) sent connects)
          (process_read_backend u i err (passing response none))
  unfolding process_read_backend read_backend
  process_read_backend-Stage u c response err sent connects s enabled =
      Returns-on _ (got u c s.inside s.here) (
        rw enabled (
          Returns-on _ (put-eq_some u i (answering c response) s.inside) (
            returns (record {
              inside = inside_put u (answering c response) s.inside;
              here = set_here u.pool.arr i (answering c response) s.inside;
              counted = s.counted;
              written = s.written;
              asked = s.asked;
            }))))
