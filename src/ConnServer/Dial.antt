-- ===== src/ConnServer/Dial.antt =====
-- `process_read_frontend`, and the connection to a back-end server that it asks for.
use c_model.Common.{
  ℕ, ◌<◌, ◌≡◌, ◌≢◌, refl, ap, sym, subst, ◌∙◌, List, [], ◌∷◌, ◌++◌, Option, none, some, arith, Bool,
  true, false, if◌then◌else◌,
}
use c_model.Array.{length, get_elem?-get_or}
use c_model.Run.{◌>>=◌, Returns, returns, Returns-if}
use c_model.ContextPool.{writing_backend, reading_frontend, ConnContext}
use c_model.ContextPool.FreeList.{no_context, context_at, set_here}
use c_model.ConnServer.{
  for_write, only_errors, Worker, Outcomes, at_fd, opened, watched, with_kernel, put, free_back,
}
use c_model.ConnServer.Proxy.{next_turn, select_backend, dial, connect_backend, read_frontend}
use c_model.ConnServer.Held.{Setup, used-inside, put-eq_some, get_elem?-inside}
use c_model.ConnServer.Fits.{Fits, FitsAs, Midway, Handled, Possible, at_fd-here, at_fd-other}
use c_model.ConnServer.Steps.{
  after_put, mine_here, Midway-put, Midway-watched, Midway-opened, Midway-log, Midway-Handled,
  freed-Handled, counted-Handled, own_front, own_back,
}

pub next_turn-lt : (last n : ℕ) → last < n → next_turn last n < n
unfolding next_turn
next_turn-lt last n h = ground arith

module _ (S : Setup) (w : Worker) (i : ℕ) (free used : List ℕ) where
  pub inside : (u : Worker) → Midway S w i free used u → i < length u.pool.arr
  inside u m = used-inside u.pool free used i m.held.valid m.in_use

  pub owned : (u : Worker) → Midway S w i free used u → (context_at u.pool.arr i).pool ≡ true
  owned u m = let v = m.held.valid in v.owned i m.in_use

  -- The connection to the back-end server is under way: epoll is to wait until it can be written.
  asked-Handled :
      (u : Worker) (fd : ℕ) (ok : Bool)
      → Midway S w i free used u
      → (context_at u.pool.arr i).end_fd ≡ fd
      → fd ≢ 0
      → u.kernel.interest (context_at u.pool.arr i).fd ≡ some (only_errors, i)
      → S.proxy ≡ true
      → Returns (Handled S w i used) (
          put u i (record (context_at u.pool.arr i) { handler = writing_backend; flags = true })
          >>= λ v.
              if ok
              then put
                  (with_kernel v (watched v.kernel fd (some (for_write, i))))
                  i
                  (record (context_at u.pool.arr i) {
                    handler = writing_backend;
                    flags = true;
                    end_fd_added = true;
                  })
              else free_back v i)
  asked-Handled u fd ok m e n quiet proxied =
      let c = context_at u.pool.arr i in
      let c' : ConnContext = record c { handler = writing_backend; flags = true } in
      let c'' : ConnContext = record c' { end_fd_added = true } in
      let v = after_put u i c' in
      let m' = Midway-put S w i free used u c' m (owned u m) refl refl in
      let here = mine_here S w i free used u c' m in
      let (own, apart) = own_back S w i free used v fd m' (ap (λ x. x.end_fd) here ∙ e) n in
      let waiting = with_kernel v (watched v.kernel fd (some (for_write, i))) in
      let watching = Midway-watched S w i free used v fd (some (for_write, i)) m' own in
      rw (put-eq_some u i c' (inside u m)) (
        Returns-if ok
          (λ y. rw (put-eq_some waiting i c'' (inside v m')) (
            returns (
              Midway-Handled S w i free used (after_put waiting i c'')
                (Midway-put S w i free used waiting c'' watching (owned u m)
                  (ap (λ x. x.fd) (sym here)) (ap (λ x. x.end_fd) (sym here)))
                (subst (Fits S i waiting.kernel.interest)
                  (sym (mine_here S w i free used waiting c'' watching))
                  (
                    at_fd-other u.kernel.interest fd c.fd (some (for_write, i))
                          (λ x. apart (ap (λ y. y.fd) here ∙ sym x))
                        ∙ quiet,
                    λ x. n (sym e ∙ x),
                    subst
                        (λ x.
                          at_fd u.kernel.interest fd (some (for_write, i)) x ≡ some (for_write, i))
                        (sym e) (at_fd-here u.kernel.interest fd (some (for_write, i))),
                    refl,
                    proxied,
                  )))))
          (λ y. freed-Handled S w i free used v m'))

  dial-Handled :
      (u : Worker) (fd : ℕ) (o : Outcomes)
      → Midway S w i free used u
      → (context_at u.pool.arr i).end_fd ≡ fd
      → fd ≢ 0
      → u.kernel.interest (context_at u.pool.arr i).fd ≡ some (only_errors, i)
      → S.proxy ≡ true
      → (context_at u.pool.arr i).pa ≡ S.targets
      → Returns (Handled S w i used) (dial u i fd o)
  unfolding dial select_backend
  dial-Handled u fd o m e n quiet proxied t =
      let c = context_at u.pool.arr i in
      let in_turn : u.last < length c.pa =
        subst (λ l. u.last < length l) (sym t) (m.ranged.turn proxied) in
      let (addr, found) = get_elem?-inside c.pa u.last in_turn in
      let log =
        Midway-log S w i free used u u.sent (u.connects ++ (fd, addr) ∷ [])
          (next_turn u.last (length c.pa)) m
          (λ p.
            subst (λ l. next_turn u.last (length c.pa) < length l) t
              (next_turn-lt u.last (length c.pa) in_turn)) in
      rw (get_elem?-get_or u.pool.arr i no_context (inside u m), found)
        (Returns-if o.connected (λ y. asked-Handled _ fd o.ctl_next log e n quiet proxied)
          (λ y. freed-Handled S w i free used _ log))

  connect_backend-Handled :
      (u : Worker) (socket : Option ℕ) (o : Outcomes)
      → Midway S w i free used u
      → ((d : ℕ) → socket ≡ some d → u.kernel.is_open d ≡ false)
      → (context_at u.pool.arr i).end_fd ≡ 0
      → u.kernel.interest (context_at u.pool.arr i).fd ≡ some (only_errors, i)
      → S.proxy ≡ true
      → (context_at u.pool.arr i).pa ≡ S.targets
      → Returns (Handled S w i used) (connect_backend u i socket o)
  unfolding connect_backend
  connect_backend-Handled u none o m fresh no_end quiet proxied t =
      freed-Handled S w i free used u m
  connect_backend-Handled u (some fd) o m fresh no_end quiet proxied t =
      let c = context_at u.pool.arr i in
      let c' : ConnContext = record c { end_fd = fd } in
      let new = with_kernel u (opened u.kernel fd) in
      let v = after_put new i c' in
      let m' =
        Midway-opened S w i free used u fd c' m (fresh fd refl) no_end (owned u m) refl refl in
      let lt = inside u m in
      let here : context_at v.pool.arr i ≡ c' = set_here u.pool.arr i c' lt in
      let (was_open, mine, base) = m.held.front i m.in_use in
      let apart : fd ≢ c.fd =
        λ x. let shut = subst (λ d. u.kernel.is_open d ≡ false) x (fresh fd refl) in absurd cc in
      let nonzero : fd ≢ 0 = λ x.
        let shut = subst (λ d. u.kernel.is_open d ≡ false) x (fresh fd refl) in
        let std = m.held.base_open 0 m.held.stdin in absurd cc in
      rw (get_elem?-get_or u.pool.arr i no_context lt, put-eq_some new i c' lt)
        (Returns-if o.linger
          (λ y.
            dial-Handled v fd o m' (ap (λ x. x.end_fd) here) nonzero
              (subst (λ x. at_fd u.kernel.interest fd none x.fd ≡ some (only_errors, i)) (sym here)
                (at_fd-other u.kernel.interest fd c.fd none apart ∙ quiet))
              proxied (ap (λ x. x.pa) here ∙ t))
          (λ y. freed-Handled S w i free used v m'))

  pub read_frontend-Handled :
      (received : Option (List ℕ)) (o : Outcomes)
      → Midway S w i free used w
      → Possible w o
      → FitsAs S i w.kernel.interest (context_at w.pool.arr i) reading_frontend
      → Returns (Handled S w i used) (read_frontend w i received o)
  unfolding read_frontend
  read_frontend-Handled none o m possible f = counted-Handled S w i free used w _ m
  read_frontend-Handled (some bytes) o m possible (waits, no_end, proxied, t) =
      let c = context_at w.pool.arr i in
      let c' : ConnContext = record c { data_len = length bytes; buf = bytes } in
      let v = after_put w i c' in
      let m' = Midway-put S w i free used w c' m (owned w m) refl refl in
      let here = mine_here S w i free used w c' m in
      let own = own_front S w i free used v c.fd m' (ap (λ x. x.fd) here) in
      rw (get_elem?-get_or w.pool.arr i no_context (inside w m), put-eq_some w i c' (inside w m))
        (Returns-if o.ctl
          (λ y.
            connect_backend-Handled (with_kernel v (watched v.kernel c.fd (some (only_errors, i))))
              o.socket o (Midway-watched S w i free used v c.fd (some (only_errors, i)) m' own)
              possible.socket_new (ap (λ x. x.end_fd) here ∙ no_end)
              (subst
                (λ x.
                  at_fd w.kernel.interest c.fd (some (only_errors, i)) x.fd ≡ some (only_errors, i))
                (sym here) (at_fd-here w.kernel.interest c.fd (some (only_errors, i))))
              proxied (ap (λ x. x.pa) here ∙ t))
          (λ y. freed-Handled S w i free used v m'))
