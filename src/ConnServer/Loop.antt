-- ===== src/ConnServer/Loop.antt =====
-- mult_process_server/server.c: `init_processes` and `process_clients`, the life of a worker process, and
-- the report of `do_stats`.
-- What one call of `epoll_wait` gives is a `Polled`. The CPUs there are, what `sched_setaffinity` gives and
-- the descriptor that `epoll_create` gives are a `Launch`, with the listening sockets that `epoll_ctl` adds.
use c_model.Common.{
  ℕ, zero, suc, ◌+◌, ◌-◌, ◌/◌, ◌%◌, ◌^◌, List, [], ◌∷◌, Option, none, some, Bool, true, false, ltb,
  ◌==◌, if◌then◌else◌,
}
use c_model.Array.{length, get_elem?, store}
use c_model.Run.{◌>>=◌}
use c_model.ContextPool.{
  Handler, accepting, reading, writing, reading_frontend, writing_backend, reading_backend,
  writing_frontend, ConnContext, ContextPool, init_pool, alloc_context,
}
use c_model.ConnServer.{
  for_read, WorkerData, Kernel, Worker, Outcomes, watched, with_kernel, with_pool, put, count_in,
  opened, process_accept, process_read, process_write,
}
use c_model.ConnServer.Proxy.{
  process_read_frontend, process_write_backend, process_read_backend, process_write_frontend,
}

-- An event: the descriptor it is of, the context that was registered with it, whether it has EPOLLHUP or
-- EPOLLERR, and what the system calls of its handler give.
pub record Event : Type 0 where
  pub fd : ℕ
  pub ctx : ℕ
  pub err : Bool
  pub outcomes : Outcomes

unfoldable pub run_handler : Handler → Worker → ℕ → Bool → Outcomes → Option Worker
unfolding process_accept process_read process_write process_read_frontend process_write_backend
    process_read_backend process_write_frontend
run_handler accepting = process_accept
run_handler reading = process_read
run_handler writing = process_write
run_handler reading_frontend = process_read_frontend
run_handler writing_backend = process_write_backend
run_handler reading_backend = process_read_backend
run_handler writing_frontend = process_write_frontend

-- `ctx->handler(ctx, wdata)`
unfoldable pub dispatch : Worker → Event → Option Worker
unfolding run_handler
dispatch w e = get_elem? w.pool.arr e.ctx >>= λ c. run_handler c.handler w e.ctx e.err e.outcomes

unfoldable pub handle_batch : Worker → List Event → Option Worker
unfolding dispatch
handle_batch w [] = some w
handle_batch w (e ∷ events) = dispatch w e >>= λ u. handle_batch u events

-- The statistics of a call of `epoll_wait` that gives `n`, as an `uint64_t`. The counters have 64 bits; if
-- that of the calls has come round to 0, the division by it is undefined.
unfoldable pub note_polls : ℕ → WorkerData → Option WorkerData
note_polls n d =
    let polls_sum : ℕ = (d.polls_sum + n) % 2 ^ 64 in
    let polls_cnt : ℕ = suc d.polls_cnt % 2 ^ 64 in
    if polls_cnt == 0
    then none
    else some (record d {
      polls_mpt = if n == 0 then suc d.polls_mpt % 2 ^ 64 else d.polls_mpt;
      polls_min = if n == 0 then d.polls_min else if ltb n d.polls_min then n else d.polls_min;
      polls_max = if ltb d.polls_max n then n else d.polls_max;
      polls_sum = polls_sum;
      polls_cnt = polls_cnt;
      polls_avg = polls_sum / polls_cnt;
      polls_lst = n;
    })

unfoldable pub note_in : Worker → ℕ → Option Worker
unfolding note_polls store
note_in w n = get_elem? w.wdata w.cpu_id >>= λ d.
    note_polls n d >>= λ e. store w.wdata w.cpu_id e >>= λ all. some (record w { wdata = all })

-- What a call of `epoll_wait` gives: it was interrupted by a signal, it failed in another way, or it
-- gives events.
pub data Polled : Type 0 where
  interrupted failed : Polled
  batch : List Event → Polled

-- -1 as an `uint64_t`
abbrev pub minus_one : ℕ
minus_one = 2 ^ 64 - 1

-- One turn of the loop. A call that failed is noted as one that gave -1 events.
unfoldable pub turn : Worker → Polled → Option Worker
unfolding note_in handle_batch
turn w interrupted = some w
turn w failed = note_in w minus_one
turn w (batch events) = note_in w (length events) >>= λ u. handle_batch u events

unfoldable pub serve : Worker → List Polled → Option Worker
unfolding turn
serve w [] = some w
serve w (p ∷ turns) = turn w p >>= λ u. serve u turns

-- The context of a listening socket.
abbrev pub listener_of : Bool → List ℕ → ConnContext → ℕ → ConnContext
listener_of proxy pa c fd = record c {
  fd = fd;
  handler = accepting;
  enable_proxy = proxy;
  pa = if proxy then pa else c.pa;
}

unfoldable pub listen_on : Worker → Bool → List ℕ → ℕ → Option Worker
unfolding put
listen_on w proxy pa fd = alloc_context w.pool >>= λ r. get_elem? r.1.arr r.0 >>= λ c.
    put (with_pool w r.1) r.0 (listener_of proxy pa c fd) >>= λ u.
    some (with_kernel u (watched u.kernel fd (some (for_read, r.0))))

unfoldable pub listen_all : Worker → Bool → List ℕ → List ℕ → Option Worker
unfolding listen_on
listen_all w proxy pa [] = some w
listen_all w proxy pa (fd ∷ fds) = listen_on w proxy pa fd >>= λ u. listen_all u proxy pa fds

-- The number of CPUs, whether `sched_setaffinity` succeeds, the descriptor of `epoll_create`, and for which
-- listening sockets `epoll_ctl` succeeds.
pub record Launch : Type 0 where
  pub cpus : ℕ
  pub affinity : Bool
  pub ep_fd : Option ℕ
  pub ctl : ℕ → Bool

unfoldable pub bind_process_cpu : ℕ → ℕ → Bool → Bool
bind_process_cpu cpu cpus ok = if ltb cpu cpus then ok else false

-- What `process_clients` comes to: it ends the program, or enters its loop.
pub data Start : Type 0 where
  exits : Start
  runs : Worker → Start

abbrev pub new_worker : ContextPool → Kernel → List WorkerData → ℕ → List ℕ → Worker
new_worker pool kernel wdata cpu_id http_200 = record {
  pool = pool;
  kernel = kernel;
  wdata = wdata;
  cpu_id = cpu_id;
  http_200 = http_200;
  last = 0;
  sent = [];
  connects = [];
}

-- Whether `epoll_ctl` succeeds for all of the sockets.
abbrev pub all_added : (ℕ → Bool) → List ℕ → Bool
all_added ctl [] = true
all_added ctl (fd ∷ fds) = if ctl fd then all_added ctl fds else false

-- The listening sockets are registered, where the program ends if `epoll_ctl` fails for one, and `polls_min` is set. If there is none, the local `cpu_id` has
-- no value, and the write through it is undefined.
unfoldable pub register : (ℕ → Bool) → Worker → Bool → List ℕ → List ℕ → Option Start
unfolding listen_all count_in
register ctl w proxy pa [] = none
register ctl w proxy pa (fd ∷ fds) =
    if all_added ctl (fd ∷ fds)
    then (listen_all w proxy pa (fd ∷ fds) >>= λ u.
        count_in u (λ d. record d { polls_min = 64 }) >>= λ v. some (runs v))
    else some exits

-- `process_clients` before its loop, where `malloc` gives the block `arr` for the contexts.
unfoldable pub start_worker :
    Launch
    → ℕ
    → List ConnContext
    → Kernel
    → List WorkerData
    → ℕ
    → List ℕ
    → Bool
    → List ℕ
    → List ℕ
    → Option Start
unfolding bind_process_cpu register
start_worker launch size arr kernel wdata cpu_id http_200 proxy pa fds =
    if bind_process_cpu cpu_id launch.cpus launch.affinity
    then (init_pool size arr >>= λ pool. elim launch.ep_fd [
      | none ↦ some exits
      | some ep_fd ↦
          register launch.ctl (new_worker pool (opened kernel ep_fd) wdata cpu_id http_200) proxy pa
            fds
    ])
    else some exits

-- A worker's counters, all 0 but `cpu_id`, and those of `k` workers from number `i` on.
abbrev pub cleared : ℕ → WorkerData
cleared cpu_id = record {
  process = 0;
  trancnt = 0;
  trancnt_prev = 0;
  cpu_id = cpu_id;
  polls_max = 0;
  polls_min = 0;
  polls_avg = 0;
  polls_cnt = 0;
  polls_sum = 0;
  polls_mpt = 0;
  polls_lst = 0;
  accept_cnt = 0;
  read_cnt = 0;
  write_cnt = 0;
}

unfoldable pub init_processes : ℕ → ℕ → ℕ → List WorkerData
init_processes start_cpu i zero = []
init_processes start_cpu i (suc k) = cleared (i + start_cpu) ∷ init_processes start_cpu (suc i) k

-- Worker `i` of `num_workers`, up to its loop.
unfoldable pub fork_worker :
    Launch
    → ℕ
    → ℕ
    → ℕ
    → ℕ
    → List ConnContext
    → Kernel
    → List ℕ
    → Bool
    → List ℕ
    → List ℕ
    → Option Start
unfolding init_processes start_worker
fork_worker launch start_cpu num_workers i size arr kernel http_200 proxy pa fds =
    get_elem? (init_processes start_cpu 0 num_workers) i >>= λ mydata.
    start_worker launch size arr kernel (init_processes start_cpu 0 num_workers) mydata.cpu_id
      http_200 proxy pa fds

-- The transactions since the last SIGALRM, which `do_stats` prints, and the counters after that.
unfoldable pub report : List WorkerData → ℕ × List WorkerData
report [] = (0, [])
report (d ∷ all) =
    let rest : ℕ × List WorkerData = report all in
    (
      (d.trancnt + 2 ^ 64 - d.trancnt_prev + rest.0) % 2 ^ 64,
      record d { trancnt_prev = d.trancnt } ∷ rest.1,
    )
