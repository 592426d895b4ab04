-- ===== src/ConnServer/Proxy.antt =====
-- mult_process_server/proxy_server.c: a connection that is passed on to one of the back-end servers.
use c_model.Common.{
  ℕ, suc, List, [], ◌∷◌, ◌++◌, Option, none, some, Bool, true, false, not, ◌==◌, if◌then◌else◌,
}
use c_model.Array.{length, get_elem?}
use c_model.Run.{◌>>=◌}
use c_model.ContextPool.{writing_backend, reading_backend, writing_frontend, ConnContext}
use c_model.ConnServer.{
  for_read, for_write, only_errors, Worker, Outcomes, opened, watched, with_kernel, put, count_in,
  free_back, ctl_or_free,
}

-- The turn after `last`, of `n` servers.
unfoldable pub next_turn : ℕ → ℕ → ℕ
next_turn last n = if suc last == n then 0 else suc last

-- The address chosen. A turn that is not among the servers' is a fault.
unfoldable pub select_backend : Worker → ConnContext → Option (ℕ × Worker)
unfolding next_turn
select_backend w c = get_elem? c.pa w.last >>= λ addr.
    some (addr, record w { last = next_turn w.last (length c.pa) })

-- `process_read_frontend` from `connect` on, with the new descriptor.
unfoldable pub dial : Worker → ℕ → ℕ → Outcomes → Option Worker
unfolding select_backend put free_back
dial w i fd o = get_elem? w.pool.arr i >>= λ c. select_backend w c >>= λ r.
    let asked : Worker = record r.1 { connects = w.connects ++ (fd, r.0) ∷ [] } in
    if o.connected
    then (put asked i (record c { handler = writing_backend; flags = true }) >>= λ u.
        if o.ctl_next
        then put (with_kernel u (watched u.kernel fd (some (for_write, i)))) i
            (record c { handler = writing_backend; flags = true; end_fd_added = true })
        else free_back u i)
    else free_back asked i

-- From `socket` on.
unfoldable pub connect_backend : Worker → ℕ → Option ℕ → Outcomes → Option Worker
unfolding dial put free_back
connect_backend w i none o = free_back w i
connect_backend w i (some fd) o = get_elem? w.pool.arr i >>= λ c.
    put (with_kernel w (opened w.kernel fd)) i (record c { end_fd = fd }) >>= λ u.
    if o.linger then dial u i fd o else free_back u i

-- With what `read` gives.
unfoldable pub read_frontend : Worker → ℕ → Option (List ℕ) → Outcomes → Option Worker
unfolding connect_backend count_in put free_back
read_frontend w i none o =
    count_in w (λ d. record d { read_cnt = suc d.read_cnt }) >>= λ u. free_back u i
read_frontend w i (some bytes) o = get_elem? w.pool.arr i >>= λ c.
    put w i (record c { data_len = length bytes; buf = bytes }) >>= λ u.
    if o.ctl
    then connect_backend (with_kernel u (watched u.kernel c.fd (some (only_errors, i)))) i o.socket
        o
    else free_back u i

unfoldable pub process_read_frontend : Worker → ℕ → Bool → Outcomes → Option Worker
unfolding read_frontend free_back
process_read_frontend w i err o = if err then free_back w i else read_frontend w i o.received o

unfoldable pub process_write_backend : Worker → ℕ → Bool → Outcomes → Option Worker
unfolding put free_back
process_write_backend w i err o = get_elem? w.pool.arr i >>= λ c.
    if err
    then free_back w i
    else if not c.flags
    then free_back w i
    else if o.written
    then (put (record w { sent = w.sent ++ (c.end_fd, c.buf) ∷ [] }) i
          (record c { handler = reading_backend; flags = true })
        >>= λ u. ctl_or_free u i o.ctl c.end_fd for_read)
    else free_back w i

-- `process_read_backend` with what `read` gives.
unfoldable pub read_backend : Worker → ℕ → ConnContext → Option (List ℕ) → Outcomes → Option Worker
unfolding count_in put free_back
read_backend w i c none o =
    count_in w (λ d. record d { read_cnt = suc d.read_cnt }) >>= λ u. free_back u i
read_backend w i c (some bytes) o =
    put w i
      (record c { handler = writing_frontend; flags = false; data_len = length bytes; buf = bytes })
    >>= λ u.
        if o.ctl
        then ctl_or_free (with_kernel u (watched u.kernel c.fd (some (for_write, i)))) i o.ctl_next
            c.end_fd only_errors
        else free_back u i

unfoldable pub process_read_backend : Worker → ℕ → Bool → Outcomes → Option Worker
unfolding read_backend free_back
process_read_backend w i err o = get_elem? w.pool.arr i >>= λ c.
    if not c.flags then free_back w i else read_backend w i c o.received o

unfoldable pub process_write_frontend : Worker → ℕ → Bool → Outcomes → Option Worker
unfolding count_in free_back
process_write_frontend w i err o = get_elem? w.pool.arr i >>= λ c.
    if c.flags
    then free_back w i
    else if o.written
    then (count_in (record w { sent = w.sent ++ (c.fd, c.buf) ∷ [] })
          (λ d. record d { trancnt = suc d.trancnt })
        >>= λ u. free_back u i)
    else free_back w i
