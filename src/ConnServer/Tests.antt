-- ===== src/ConnServer/Tests.antt =====
-- The theorems at the proxy of Sample.
use c_model.Common.{
  ℕ, ◌+◌, ◌%◌, ◌<◌, ◌≡◌, refl, sym, subst, suc, ◌^◌, ltb, Bool, List, [], ◌∷◌, Option, none, some,
  arith, true, false, ◌==◌, if◌then◌else◌,
}
use c_model.Array.{length, get_elem?}
use c_model.Run.{Returns}
use c_model.ContextPool.FreeList.{no_context}
use c_model.ConnServer.{for_read, for_write, WorkerData, Worker, Outcomes, free_back}
use c_model.ConnServer.Loop.{
  note_in, note_polls, Polled, interrupted, failed, batch, turn, Launch, Event, cleared, dispatch,
  handle_batch, serve, start_worker, fork_worker, report,
}
use c_model.ConnServer.Held.{Setup}
use c_model.ConnServer.Release.{Released, free_back-Released}
use c_model.ConnServer.Fits.{Handled, Possible}
use c_model.ConnServer.Batch.{
  PossibleBatch, Running, dispatch_keeps_invariant, handle_batch_keeps_invariant,
}
use c_model.ConnServer.Stages.{passing}
use c_model.ConnServer.Exchange.{
  requested, back_writable, responded, front_writable, exchange, exchange_passes_bytes,
}
use c_model.ConnServer.Serve.{Countable, PossibleTurn, PossibleTurns, Reported, serve_never_faults}
use c_model.ConnServer.Listen.{Started, start_worker_meets_invariant}
use c_model.ConnServer.Twice.{second_event_faults}
use c_model.ConnServer.Polls.{
  Statistics, numbers, observed, note_polls_counts_all, worked, total, report_since_last,
}
use c_model.ConnServer.Workers.{worker_on_high_cpu_faults}
use c_model.ConnServer.Rounds.{select_many, select_backend_takes_turns}
use c_model.ConnServer.Sample.{
  due, kernel, worker, setup, free, used, worker-Held, worker-Sound, waiting, waiting-Running,
}

abbrev quiet : Outcomes
quiet = record {
  accepted = none;
  received = none;
  written = true;
  socket = none;
  linger = true;
  connected = true;
  ctl = true;
  ctl_next = true;
}

-- A client connects, with descriptor 4, and the response is written.
abbrev connecting : Event
connecting = record { fd = 3; ctx = 0; err = false; outcomes = record quiet { accepted = some 4 } }

abbrev writable : Event
writable = record { fd = 5; ctx = 1; err = false; outcomes = quiet }

-- The listening socket is reported, but the client is gone.
abbrev gone : Event
gone = record { fd = 3; ctx = 0; err = false; outcomes = quiet }

-- The back-end server has closed its end.
abbrev hung_up : Event
hung_up = record { fd = 6; ctx = 1; err = true; outcomes = quiet }

quiet-Possible : (w : Worker) → Possible w quiet
quiet-Possible w = record {
  accepted_new = λ d e. absurd cc;
  room = λ d e. absurd cc;
  socket_new = λ d e. absurd cc;
}

connecting-Possible : Possible worker connecting.outcomes
connecting-Possible = record {
  accepted_new =
      λ d e. let same : ◌≡◌ {A = ℕ} 4 d = cc in subst (λ x. kernel.is_open x ≡ false) same refl;
  room = λ d e. omega arith;
  socket_new = λ d e. absurd cc;
}

worker-Running : Running setup worker
worker-Running = record { free = free; used = used; sound = worker-Sound }

free_back-Released_example : Returns (Released setup worker 1 free used) (free_back worker 1)
free_back-Released_example = free_back-Released setup worker 1 free used worker-Held (omega arith)

dispatch_keeps_invariant_example :
    Returns (Handled setup worker 0 used) (dispatch worker connecting)
dispatch_keeps_invariant_example =
    dispatch_keeps_invariant setup worker free used worker-Sound connecting (omega arith)
      connecting-Possible

handle_batch_keeps_invariant_example :
    Returns (Running setup) (handle_batch worker (writable ∷ gone ∷ []))
handle_batch_keeps_invariant_example =
    handle_batch_keeps_invariant setup worker free used (writable ∷ gone ∷ []) worker-Sound
      (omega arith, (omega arith, tt)) (refl, (refl, tt))
      (quiet-Possible worker, λ u e. (quiet-Possible u, λ v e'. tt))

writable-Reported : Reported setup worker writable
writable-Reported = record { there = refl; added = refl; kind = for_write; waited = refl }

gone-Reported : Reported setup worker gone
gone-Reported = record { there = refl; added = refl; kind = for_read; waited = refl }

abbrev is_countable : Worker → Bool
is_countable w = elim (get_elem? w.wdata w.cpu_id) [
  | none ↦ true
  | some d ↦ ltb (suc d.polls_cnt) (2 ^ 64)
]

known_count : (w : Worker) → is_countable w ≡ true → Countable w
known_count w h d e =
    let test : ltb (suc d.polls_cnt) (2 ^ 64) ≡ true =
      subst (λ o. elim o [ none ↦ true | some c ↦ ltb (suc c.polls_cnt) (2 ^ 64) ] ≡ true) e h in
    ground arith

serve_never_faults_example :
    Returns (Running setup) (serve worker (batch (writable ∷ gone ∷ []) ∷ interrupted ∷ []))
serve_never_faults_example =
    serve_never_faults setup worker (batch (writable ∷ gone ∷ []) ∷ interrupted ∷ []) worker-Running
      (
        (
          known_count worker refl,
          (writable-Reported, (gone-Reported, tt)),
          ((refl, (refl, tt)), λ p. (refl, (refl, tt))),
          λ v e. (quiet-Possible v, λ u e'. (quiet-Possible u, λ x e''. tt)),
        ),
        λ u e. (tt, λ v e'. tt),
      )

second_event_faults_example : handle_batch worker (writable ∷ hung_up ∷ []) ≡ none
second_event_faults_example =
    second_event_faults setup worker free used writable hung_up [] worker-Sound (omega arith) refl
      refl

abbrev two_listening : Setup
two_listening = record setup {
  base = λ d. if d == 0 then true else if d == 3 then true else d == 4;
}

-- There are two CPUs, and `epoll_create` gives 6.
abbrev launch : Launch
launch = record { cpus = 2; affinity = true; ep_fd = some 6; ctl = λ d. true }

start_worker_meets_invariant_example : Returns (Started two_listening launch 0 (3 ∷ 4 ∷ [])) (
    start_worker launch 3
      (no_context ∷ no_context ∷ no_context ∷ [])
      (record { is_open = two_listening.base; interest = λ d. none })
      (cleared 0 ∷ [])
      0
      (9 ∷ [])
      true
      (80 ∷ 81 ∷ [])
      (3 ∷ 4 ∷ []))
start_worker_meets_invariant_example =
    start_worker_meets_invariant two_listening launch 3 (no_context ∷ no_context ∷ no_context ∷ [])
      (λ d. none) (cleared 0 ∷ []) 0 (9 ∷ []) (3 ∷ 4 ∷ []) (omega arith) refl (omega arith)
      (λ p. omega arith) refl (omega arith) (omega arith) (refl, (refl, tt))
      (refl, omega arith, (refl, omega arith, tt))

abbrev some_calls : List Polled
some_calls = batch (gone ∷ []) ∷ failed ∷ interrupted ∷ batch (writable ∷ gone ∷ []) ∷ []

note_polls_counts_all_example :
    Returns (Statistics (numbers some_calls)) (observed some_calls (cleared 0))
note_polls_counts_all_example = note_polls_counts_all some_calls 0 (omega arith)

abbrev busy : List WorkerData
busy = record (cleared 0) { trancnt = 4 } ∷ record (cleared 1) { trancnt = 6 } ∷ []

report_since_last_example : (report (worked (2 ∷ 3 ∷ []) (report busy).1)).0 ≡ total (2 ∷ 3 ∷ [])
report_since_last_example =
    report_since_last busy (2 ∷ 3 ∷ []) (omega arith, (omega arith, tt)) refl (omega arith)

worker_on_high_cpu_faults_example :
    fork_worker
      (record launch { cpus = 3 })
      1
      2
      1
      3
      (no_context ∷ no_context ∷ no_context ∷ [])
      kernel
      []
      false
      []
      (3 ∷ [])
    ≡ none
worker_on_high_cpu_faults_example =
    worker_on_high_cpu_faults (record launch { cpus = 3 }) 1 2 1 3 6
      (no_context ∷ no_context ∷ no_context ∷ []) kernel [] false [] (3 ∷ []) (omega arith)
      (omega arith) (omega arith) refl refl refl

select_backend_takes_turns_example :
    Returns
      (λ q.
        (length q.0 ≡ 3)
        × ((j : ℕ)
            → j < 3
            → get_elem? q.0 j ≡ get_elem? due.pa ((worker.last + j) % length due.pa)))
      (select_many 3 worker due)
select_backend_takes_turns_example = select_backend_takes_turns 3 worker due (omega arith)

passing-Possible :
    (u : Worker) (bytes : List ℕ) (socket : Option ℕ)
    → ((d : ℕ) → socket ≡ some d → u.kernel.is_open d ≡ false)
    → Possible u (passing bytes socket)
passing-Possible u bytes socket new = record {
  accepted_new = λ d e. absurd cc;
  room = λ d e. absurd cc;
  socket_new = new;
}

-- A call with a known result.
known :
    (P : Worker → Type 0) (call : Option Worker) (a : Worker)
    → call ≡ some a
    → P a
    → (u : Worker) → call ≡ some u
    → P u
known P call a e p u e' = let same : a ≡ u = cc in subst P same p

-- A turn in which no socket is opened.
later_turn :
    (w : Worker) (e : Event) (bytes : List ℕ) (turns : List Polled)
    → e.outcomes ≡ passing bytes none
    → is_countable w ≡ true
    → Reported setup w e
    → ((u : Worker) → turn w (batch (e ∷ [])) ≡ some u → PossibleTurns setup u turns)
    → PossibleTurns setup w (batch (e ∷ []) ∷ turns)
later_turn w e bytes turns same k r next = (
  (
    known_count w k,
    (r, tt),
    ((refl, tt), λ p. (refl, tt)),
    λ v e'. (
      subst (Possible v) (sym same) (passing-Possible v bytes none (λ d x. absurd cc)),
      λ u x. tt,
    ),
  ),
  next,
)

abbrev request_turns : List Polled
request_turns = exchange 1 5 6 (7 ∷ []) (8 ∷ 9 ∷ [])

abbrev last_turns : List Polled
last_turns = batch (front_writable 1 5 ∷ []) ∷ []

abbrev response_turns : List Polled
response_turns = batch (responded 1 6 (8 ∷ 9 ∷ []) ∷ []) ∷ last_turns

-- The proxy after a turn that does not fault.
abbrev after : Option Worker → Worker
after none = waiting
after (some w) = w

abbrev requested_state : Worker
unfolding turn note_in note_polls
requested_state = after (turn waiting (batch (requested 1 5 6 (7 ∷ []) ∷ [])))

abbrev passed_on : Worker
unfolding turn note_in note_polls
passed_on = after (turn requested_state (batch (back_writable 1 6 ∷ [])))

abbrev answered : Worker
unfolding turn note_in note_polls
answered = after (turn passed_on (batch (responded 1 6 (8 ∷ 9 ∷ []) ∷ [])))

passed_on-turn : turn requested_state (batch (back_writable 1 6 ∷ [])) ≡ some passed_on
unfolding turn note_in note_polls
passed_on-turn = refl

answered-turn : turn passed_on (batch (responded 1 6 (8 ∷ 9 ∷ []) ∷ [])) ≡ some answered
unfolding turn note_in note_polls
answered-turn = refl

last_possible : PossibleTurns setup answered last_turns
unfolding turn note_in note_polls
last_possible =
    later_turn answered (front_writable 1 5) [] [] refl refl
      (record { there = refl; added = refl; kind = for_write; waited = refl }) (λ u e. tt)

response_possible : PossibleTurns setup passed_on response_turns
unfolding turn note_in note_polls
response_possible =
    later_turn passed_on (responded 1 6 (8 ∷ 9 ∷ [])) (8 ∷ 9 ∷ []) last_turns refl refl
      (record { there = refl; added = refl; kind = for_read; waited = refl })
      (known (λ u. PossibleTurns setup u last_turns) _ answered answered-turn last_possible)

back_possible :
    PossibleTurns setup requested_state (batch (back_writable 1 6 ∷ []) ∷ response_turns)
unfolding turn note_in note_polls
back_possible =
    later_turn requested_state (back_writable 1 6) [] response_turns refl refl
      (record { there = refl; added = refl; kind = for_write; waited = refl })
      (known (λ u. PossibleTurns setup u response_turns) _ passed_on passed_on-turn
        response_possible)

request_possible : PossibleTurn setup waiting (batch (requested 1 5 6 (7 ∷ []) ∷ []))
unfolding note_in note_polls
request_possible = (
  known_count waiting refl,
  (record { there = refl; added = refl; kind = for_read; waited = refl }, tt),
  ((refl, tt), λ p. (refl, tt)),
  known (λ v. PossibleBatch v (requested 1 5 6 (7 ∷ []) ∷ [])) _ _ refl
      (
        passing-Possible _ (7 ∷ []) (some 6) (λ d e.
            let same : ◌≡◌ {A = ℕ} 6 d = cc in
            subst (λ x. waiting.kernel.is_open x ≡ false) same refl),
        λ u e. tt,
      ),
)

requested-turn : turn waiting (batch (requested 1 5 6 (7 ∷ []) ∷ [])) ≡ some requested_state
unfolding turn note_in note_polls
requested-turn = refl

exchange_possible : PossibleTurns setup waiting request_turns
exchange_possible = (
  request_possible,
  known (λ u. PossibleTurns setup u (batch (back_writable 1 6 ∷ []) ∷ response_turns)) _
      requested_state requested-turn back_possible,
)

exchange_passes_bytes_example :
    Returns
      (λ u.
        Running setup u
        × (u.sent ≡ (6, 7 ∷ []) ∷ (5, 8 ∷ 9 ∷ []) ∷ [])
        × (u.connects ≡ (6, 81) ∷ []))
      (serve waiting request_turns)
exchange_passes_bytes_example =
    exchange_passes_bytes setup waiting 1 6 81 (7 ∷ []) (8 ∷ 9 ∷ []) waiting-Running refl refl
      exchange_possible
