-- ===== src/ConnServer/Exchange.antt =====
-- One exchange through a proxy: the request of a client and the response of a back-end server.
use c_model.Common.{
  ℕ, ◌<◌, ◌≡◌, refl, ap, sym, subst, List, [], ◌∷◌, ◌++◌, none, some, Bool, false, ◌==◌,
  if◌then◌else◌,
}
use c_model.Array.{get_elem?, store}
use c_model.Run.{Returns, returns, Returns-bind, Returns-on}
use c_model.ContextPool.{reading_frontend, ConnContext, free_context}
use c_model.ContextPool.FreeList.{context_at}
use c_model.ConnServer.{
  Worker, WorkerData, with_kernel, with_pool, count_in, drop_fd, process_close, free_back,
}
use c_model.ConnServer.Proxy.{process_write_frontend}
use c_model.ConnServer.Loop.{Event, run_handler, dispatch, handle_batch, Polled, batch, turn, serve}
use c_model.ConnServer.Held.{Counted, counted_up}
use c_model.ConnServer.Keeps.{Keeps, Keeps-bind, some-Keeps, Keeps-next, Keeps-on, Keeps-same}
use c_model.ConnServer.Stages.{
  passing, Stage, asking, awaiting, answering, got, process_read_frontend-Stage,
  process_write_backend-Stage, process_read_backend-Stage,
}
use c_model.ConnServer.Batch.{Running}
use c_model.ConnServer.Serve.{
  Countable, PossibleTurns, note_in-Counted, serve_never_faults, events_used,
}
use c_model.ConnServer.Held.{Setup, used-inside}

-- What was written and asked for.
abbrev pub traffic : Worker → List (ℕ × List ℕ) × List (ℕ × ℕ)
traffic w = (w.sent, w.connects)

process_close-Keeps : (u : Worker) (i : ℕ) → Keeps traffic (traffic u) (process_close u i)
unfolding process_close
process_close-Keeps u i = Keeps-bind traffic (traffic u) (get_elem? u.pool.arr i) _ λ c.
    Keeps-bind traffic (traffic u) (drop_fd u.kernel c.fd_added c.fd) _ λ k.
      Keeps-bind traffic (traffic u)
        (if c.end_fd == 0 then some k else drop_fd k c.end_fd_added c.end_fd) _
        λ k'. some-Keeps traffic (with_kernel u k')

free_back-Keeps : (u : Worker) (i : ℕ) → Keeps traffic (traffic u) (free_back u i)
unfolding free_back
free_back-Keeps u i =
    Keeps-next traffic (traffic u) (process_close u i) _ (process_close-Keeps u i) λ v.
      Keeps-bind traffic (traffic v) (free_context v.pool i) _
        λ p. some-Keeps traffic (with_pool v p)

count_in-Keeps :
    (u : Worker) (f : WorkerData → WorkerData) → Keeps traffic (traffic u) (count_in u f)
unfolding count_in
count_in-Keeps u f = Keeps-bind traffic (traffic u) (get_elem? u.wdata u.cpu_id) _ λ d.
    Keeps-bind traffic (traffic u) (store u.wdata u.cpu_id (f d)) _
      λ all. some-Keeps traffic (record u { wdata = all })

process_write_frontend-Keeps :
    (u : Worker) (i : ℕ) (c : ConnContext) (bytes : List ℕ) (err : Bool) (sent : List (ℕ × List ℕ))
    (connects : List (ℕ × ℕ))
    → Stage i c sent connects u
    → c.flags ≡ false
    → Keeps traffic
        (sent ++ (c.fd, c.buf) ∷ [], connects)
        (process_write_frontend u i err (passing bytes none))
unfolding process_write_frontend
process_write_frontend-Keeps u i c bytes err sent connects s disabled =
    let u' : Worker = record u { sent = u.sent ++ (c.fd, c.buf) ∷ [] } in
    Keeps-on traffic _ _ (got i u c s.inside s.here) (
      rw disabled (
        Keeps-same traffic (traffic u') (sent ++ (c.fd, c.buf) ∷ [], connects)
          (rw (s.written, s.asked) refl)
          (Keeps-next traffic (traffic u') (count_in u' _) _ (count_in-Keeps u' _)
            λ v. free_back-Keeps v i)))

Stage-Counted :
    (i : ℕ) (c : ConnContext) (sent : List (ℕ × List ℕ)) (connects : List (ℕ × ℕ)) (u v : Worker)
    → Stage i c sent connects u
    → Counted u v
    → Stage i c sent connects v × (v.last ≡ u.last)
Stage-Counted i c sent connects u v s (counted_up all e) = (
  record {
    inside = s.inside;
    here = s.here;
    counted = subst (λ n. u.cpu_id < n) (sym e) s.counted;
    written = s.written;
    asked = s.asked;
  },
  refl,
)

-- A turn with one event, of a connection at some stage.
module _ (c : ConnContext) (sent : List (ℕ × List ℕ)) (connects : List (ℕ × ℕ)) (u : Worker)
    (e : Event) (s : Stage e.ctx c sent connects u) (countable : Countable u) where
  turn-Returns :
      (P : Worker → Type 0)
      → ((v : Worker)
          → Stage e.ctx c sent connects v
          → v.last ≡ u.last
          → Returns P (run_handler c.handler v e.ctx e.err e.outcomes))
      → Returns P (turn u (batch (e ∷ [])))
  unfolding turn handle_batch dispatch
  turn-Returns P h =
      let n = note_in-Counted u 1 s.counted countable in
      let (s', same) = Stage-Counted e.ctx c sent connects u n.result s n.holds in
      Returns-on _ n.ends (
        Returns-bind (Returns-on _ (got e.ctx n.result c s'.inside s'.here) (h n.result s' same))
          λ v p. returns p)

  turn-Keeps :
      (x : List (ℕ × List ℕ) × List (ℕ × ℕ))
      → ((v : Worker)
          → Stage e.ctx c sent connects v
          → Keeps traffic x (run_handler c.handler v e.ctx e.err e.outcomes))
      → Keeps traffic x (turn u (batch (e ∷ [])))
  unfolding turn handle_batch dispatch
  turn-Keeps x h =
      let n = note_in-Counted u 1 s.counted countable in
      let (s', same) = Stage-Counted e.ctx c sent connects u n.result s n.holds in
      Keeps-on traffic x _ n.ends (
        Keeps-next traffic x (dispatch n.result e) _
          (Keeps-on traffic x _ (got e.ctx n.result c s'.inside s'.here) (h n.result s'))
          λ v. some-Keeps traffic v)

-- The turns of an exchange: the request comes, the back-end server can be written, its response comes,
-- the client can be written.
abbrev pub requested : ℕ → ℕ → ℕ → List ℕ → Event
requested i front back request = record {
  fd = front;
  ctx = i;
  err = false;
  outcomes = passing request (some back);
}

abbrev pub back_writable : ℕ → ℕ → Event
back_writable i back = record { fd = back; ctx = i; err = false; outcomes = passing [] none }

abbrev pub responded : ℕ → ℕ → List ℕ → Event
responded i back response = record {
  fd = back;
  ctx = i;
  err = false;
  outcomes = passing response none;
}

abbrev pub front_writable : ℕ → ℕ → Event
front_writable i front = record { fd = front; ctx = i; err = false; outcomes = passing [] none }

abbrev pub exchange : ℕ → ℕ → ℕ → List ℕ → List ℕ → List Polled
exchange i front back request response =
    batch (requested i front back request ∷ [])
    ∷ batch (back_writable i back ∷ [])
    ∷ batch (responded i back response ∷ [])
    ∷ batch (front_writable i front ∷ [])
    ∷ []

-- The first three turns.
module _ (w : Worker) (i back addr : ℕ) (c : ConnContext) (request response : List ℕ)
    (s : Stage i c w.sent w.connects w) (bound : c.handler ≡ reading_frontend)
    (found : get_elem? c.pa w.last ≡ some addr) where
  abbrev sent_on : List (ℕ × List ℕ)
  sent_on = w.sent ++ (back, request) ∷ []

  abbrev asked_for : List (ℕ × ℕ)
  asked_for = w.connects ++ (back, addr) ∷ []

  first_turn :
      Countable w
      → Returns
          (Stage i (asking c request back) w.sent asked_for)
          (turn w (batch (requested i c.fd back request ∷ [])))
  unfolding run_handler
  first_turn countable =
      turn-Returns c w.sent w.connects w (requested i c.fd back request) s countable
        (Stage i (asking c request back) w.sent asked_for)
        λ v t same.
          subst
            (λ h.
              Returns (Stage i (asking c request back) w.sent asked_for)
                (run_handler h v i false (passing request (some back))))
            (sym bound)
            (process_read_frontend-Stage i v c back addr request w.sent w.connects t
              (subst (λ l. get_elem? c.pa l ≡ some addr) (sym same) found))

  second_turn :
      (u : Worker)
      → Stage i (asking c request back) w.sent asked_for u
      → Countable u
      → Returns
          (Stage i (awaiting (asking c request back)) sent_on asked_for)
          (turn u (batch (back_writable i back ∷ [])))
  unfolding run_handler
  second_turn u t countable =
      turn-Returns (asking c request back) w.sent asked_for u (back_writable i back) t countable
        (Stage i (awaiting (asking c request back)) sent_on asked_for)
        λ v t' same.
          process_write_backend-Stage i v (asking c request back) [] w.sent asked_for t' refl

  third_turn :
      (u : Worker)
      → Stage i (awaiting (asking c request back)) sent_on asked_for u
      → Countable u
      → Returns
          (Stage i (answering (awaiting (asking c request back)) response) sent_on asked_for)
          (turn u (batch (responded i back response ∷ [])))
  unfolding run_handler
  third_turn u t countable =
      turn-Returns (awaiting (asking c request back)) sent_on asked_for u
        (responded i back response) t countable
        (Stage i (answering (awaiting (asking c request back)) response) sent_on asked_for)
        λ v t' same.
          process_read_backend-Stage i v (awaiting (asking c request back)) response false sent_on
            asked_for t' refl

  last_turn :
      (u : Worker)
      → Stage i (answering (awaiting (asking c request back)) response) sent_on asked_for u
      → Countable u
      → Keeps traffic
          (sent_on ++ (c.fd, response) ∷ [], asked_for)
          (turn u (batch (front_writable i c.fd ∷ [])))
  unfolding run_handler
  last_turn u t countable =
      turn-Keeps (answering (awaiting (asking c request back)) response) sent_on asked_for u
        (front_writable i c.fd) t countable (sent_on ++ (c.fd, response) ∷ [], asked_for)
        λ v t'.
          process_write_frontend-Keeps v i (answering (awaiting (asking c request back)) response)
            [] false sent_on asked_for t' refl

  four_turns :
      (S : Setup)
      → PossibleTurns S w (exchange i c.fd back request response)
      → Keeps traffic
          (sent_on ++ (c.fd, response) ∷ [], asked_for)
          (serve w (exchange i c.fd back request response))
  unfolding serve
  four_turns S (t, ts) =
      let one = first_turn t.0 in
      let (t1, ts1) = ts one.result one.ends in
      let two = second_turn one.result one.holds t1.0 in
      let (t2, ts2) = ts1 two.result two.ends in
      let three = third_turn two.result two.holds t2.0 in
      let (t3, ts3) = ts2 three.result three.ends in
      let x : List (ℕ × List ℕ) × List (ℕ × ℕ) = (sent_on ++ (c.fd, response) ∷ [], asked_for) in
      Keeps-on traffic x _ one.ends (
        Keeps-on traffic x _ two.ends (
          Keeps-on traffic x _ three.ends (
            Keeps-next traffic x (turn three.result (batch (front_writable i c.fd ∷ []))) _
              (last_turn three.result three.holds t3.0) λ v. some-Keeps traffic v)))

-- In a proxy that meets the invariant, let a client's request be awaited on a connection, and let the turn
-- be at a back-end server. If the system calls succeed and write all that they are given, then after four
-- turns with one event of the connection each, which are possible, the proxy has asked for a connection to
-- that server, has written the bytes of the request there and the bytes of the response to the client, in
-- this order and nothing else, and meets the invariant again.
pub exchange_passes_bytes :
    (S : Setup) (w : Worker) (i back addr : ℕ) (request response : List ℕ)
    → Running S w
    → (context_at w.pool.arr i).handler ≡ reading_frontend
    → get_elem? (context_at w.pool.arr i).pa w.last ≡ some addr
    → PossibleTurns S w (exchange i (context_at w.pool.arr i).fd back request response)
    → Returns
        (λ u.
          Running S u
          × (u.sent
              ≡ (w.sent ++ (back, request) ∷ []) ++ ((context_at w.pool.arr i).fd, response) ∷ [])
          × (u.connects ≡ w.connects ++ (back, addr) ∷ []))
        (serve w (exchange i (context_at w.pool.arr i).fd back request response))
exchange_passes_bytes S w i back addr request response r bound found p =
    let c = context_at w.pool.arr i in
    let s = r.sound in
    let used = events_used S w r.free r.used s (requested i c.fd back request ∷ []) p.0.1 in
    let start : Stage i c w.sent w.connects w = record {
      inside = used-inside w.pool r.free r.used i s.held.valid used.0;
      here = refl;
      counted = s.ranged.counted;
      written = refl;
      asked = refl;
    } in
    let all = serve_never_faults S w (exchange i c.fd back request response) r p in
    let k = four_turns w i back addr c request response start bound found S p in
    let same = k.keep all.result all.ends in
    record {
      result = all.result;
      ends = all.ends;
      holds = (all.holds, ap (λ x. x.0) same, ap (λ x. x.1) same);
    }
