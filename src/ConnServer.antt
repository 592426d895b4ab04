-- ===== src/ConnServer.antt =====
-- mult_process_server/conn_process.c, web_server.c, common.h: the connections of a worker process, from
-- `accept` to `close`, on top of the pool of contexts (the modules Proxy and Loop have proxy_server.c and
-- server.c).
-- A context is its index in the pool. What the system calls give is an argument of each handler
-- (`Outcomes`). The kernel's side is which descriptors are open, and which events of a descriptor
-- `epoll_wait` waits for; closing a descriptor takes it out of the epoll table. Closing one that is not
-- open counts as a fault, for the number may be another connection's by then. EPOLLHUP and EPOLLERR are
-- one flag, and `write` that does not fail writes all. Counters do not overflow.
pub mod Proxy
pub mod Loop
pub mod Held
pub mod Close
pub mod Release
pub mod Admit
pub mod Fits
pub mod Accept
pub mod Web
pub mod Dial
pub mod Relay
pub mod Steps
pub mod Batch
pub mod Serve
pub mod HandOver
pub mod Listen
pub mod Twice
pub mod Polls
pub mod Workers
pub mod Rounds
pub mod Keeps
pub mod Stages
pub mod Exchange
mod Sample
mod Tests
use c_model.Common.{
  ℕ, zero, suc, ◌+◌, List, [], ◌∷◌, ◌++◌, Option, none, some, Bool, true, false, ◌==◌,
  if◌then◌else◌,
}
use c_model.Array.{length, get_elem?, store}
use c_model.Run.{◌>>=◌}
use c_model.ContextPool.{
  Handler, accepting, reading, writing, reading_frontend, writing_backend, reading_backend,
  writing_frontend, ConnContext, ContextPool, alloc_context, free_context,
}

-- The events that `epoll_wait` reports for a descriptor besides EPOLLHUP and EPOLLERR.
pub data Interest : Type 0 where
  for_read for_write only_errors : Interest

pub record Kernel : Type 0 where
  pub is_open : ℕ → Bool
  pub interest : ℕ → Option (Interest × ℕ)

pub record WorkerData : Type 0 where
  pub process : ℕ
  pub trancnt : ℕ
  pub trancnt_prev : ℕ
  pub cpu_id : ℕ
  pub polls_max : ℕ
  pub polls_min : ℕ
  pub polls_avg : ℕ
  pub polls_cnt : ℕ
  pub polls_sum : ℕ
  pub polls_mpt : ℕ
  pub polls_lst : ℕ
  pub accept_cnt : ℕ
  pub read_cnt : ℕ
  pub write_cnt : ℕ

-- A worker process: its pool, the kernel's side, the counters of all workers with the index that this
-- one uses, the text of a response, the turn of `select_backend`, and what was written and to which
-- back-end servers connections were asked for, oldest first.
pub record Worker : Type 0 where
  pub pool : ContextPool
  pub kernel : Kernel
  pub wdata : List WorkerData
  pub cpu_id : ℕ
  pub http_200 : List ℕ
  pub last : ℕ
  pub sent : List (ℕ × List ℕ)
  pub connects : List (ℕ × ℕ)

-- What the calls of one handler give: the descriptors of `accept` and `socket` and the bytes of `read`,
-- `none` for -1, and whether `write`, `setsockopt`, `connect` (or it is in progress) and the first and
-- second `epoll_ctl` succeed.
pub record Outcomes : Type 0 where
  pub accepted : Option ℕ
  pub received : Option (List ℕ)
  pub written : Bool
  pub socket : Option ℕ
  pub linger : Bool
  pub connected : Bool
  pub ctl : Bool
  pub ctl_next : Bool

-- `f` with another value at `d`.
abbrev pub at_fd {ℓ} : {A : Type ℓ} → (ℕ → A) → ℕ → A → ℕ → A
at_fd f d a e = if d == e then a else f e

-- A descriptor that `accept` or `socket` gives, one that epoll waits for, and one that it no longer
-- does.
abbrev pub opened : Kernel → ℕ → Kernel
opened k d = record { is_open = at_fd k.is_open d true; interest = at_fd k.interest d none }

abbrev pub watched : Kernel → ℕ → Option (Interest × ℕ) → Kernel
watched k d e = record k { interest = at_fd k.interest d e }

unfoldable pub close_fd : Kernel → ℕ → Option Kernel
close_fd k d =
    if k.is_open d
    then some (record { is_open = at_fd k.is_open d false; interest = at_fd k.interest d none })
    else none

-- The worker with another kernel's side, and with another context at `i`.
abbrev pub with_kernel : Worker → Kernel → Worker
with_kernel w k = record w { kernel = k }

abbrev pub with_pool : Worker → ContextPool → Worker
with_pool w p = record w { pool = p }

unfoldable pub put : Worker → ℕ → ConnContext → Option Worker
unfolding store
put w i c = store w.pool.arr i c >>= λ arr. some (with_pool w (record w.pool { arr = arr }))

-- `wdata[cpu_id]` with its counters changed.
unfoldable pub count_in : Worker → (WorkerData → WorkerData) → Option Worker
unfolding store
count_in w f = get_elem? w.wdata w.cpu_id >>= λ d.
    store w.wdata w.cpu_id (f d) >>= λ all. some (record w { wdata = all })

-- Delete a descriptor from epoll if it was added, and close it.
unfoldable pub drop_fd : Kernel → Bool → ℕ → Option Kernel
unfolding close_fd
drop_fd k added d = close_fd (if added then watched k d none else k) d

unfoldable pub process_close : Worker → ℕ → Option Worker
unfolding drop_fd
process_close w i = get_elem? w.pool.arr i >>= λ c. drop_fd w.kernel c.fd_added c.fd >>= λ k.
    (if c.end_fd == 0 then some k else drop_fd k c.end_fd_added c.end_fd) >>= λ k'.
    some (with_kernel w k')

-- `free_back`, where all handlers end that give up a connection.
unfoldable pub free_back : Worker → ℕ → Option Worker
unfolding process_close
free_back w i = process_close w i >>= λ u. free_context u.pool i >>= λ p. some (with_pool u p)

-- `epoll_ctl` for descriptor `d`, where a failure gives up the connection.
abbrev pub ctl_or_free : Worker → ℕ → Bool → ℕ → Interest → Option Worker
ctl_or_free w i ok d e =
    if ok then some (with_kernel w (watched w.kernel d (some (e, i)))) else free_back w i

-- The context of a new connection.
abbrev pub client_of : ConnContext → ConnContext → ℕ → ConnContext
client_of listen_ctx c fd = record c {
  fd = fd;
  handler = if listen_ctx.enable_proxy then reading_frontend else reading;
  enable_proxy = if listen_ctx.enable_proxy then true else c.enable_proxy;
  pa = if listen_ctx.enable_proxy then listen_ctx.pa else c.pa;
}

-- `process_accept` after `accept` has given `fd`.
unfoldable pub admit : Worker → ℕ → ℕ → Bool → Option Worker
unfolding put free_back
admit w i fd ok = alloc_context w.pool >>= λ r. get_elem? r.1.arr i >>= λ listen_ctx.
    get_elem? r.1.arr r.0 >>= λ c. put (with_pool w r.1) r.0 (client_of listen_ctx c fd) >>= λ u.
    if ok
    then put (with_kernel u (watched u.kernel fd (some (for_read, r.0)))) r.0
        (record (client_of listen_ctx c fd) { fd_added = true })
    else free_back u r.0

unfoldable pub process_accept : Worker → ℕ → Bool → Outcomes → Option Worker
unfolding admit count_in
process_accept w i err o = if err then some w else elim o.accepted [
  | none ↦ count_in w (λ d. record d { accept_cnt = suc d.accept_cnt })
  | some fd ↦ admit (with_kernel w (opened w.kernel fd)) i fd o.ctl
]

-- `process_read` with what `read` gives.
unfoldable pub read_request : Worker → ℕ → Option (List ℕ) → Bool → Option Worker
unfolding count_in put free_back
read_request w i none ok =
    count_in w (λ d. record d { read_cnt = suc d.read_cnt }) >>= λ u. free_back u i
read_request w i (some []) ok = free_back w i
read_request w i (some (b ∷ bytes)) ok = get_elem? w.pool.arr i >>= λ c.
    put w i (record c { data_len = length (b ∷ bytes); buf = b ∷ bytes; handler = writing })
    >>= λ u. ctl_or_free u i ok c.fd for_write

unfoldable pub process_read : Worker → ℕ → Bool → Outcomes → Option Worker
unfolding read_request free_back
process_read w i err o = if err then free_back w i else read_request w i o.received o.ctl

-- `process_write` after `write` has succeeded.
unfoldable pub written_response : Worker → ℕ → Bool → Option Worker
unfolding count_in put free_back
written_response w i ok = get_elem? w.pool.arr i >>= λ c.
    count_in (record w { sent = w.sent ++ (c.fd, w.http_200) ∷ [] })
      (λ d. record d { trancnt = suc d.trancnt })
    >>= λ u. put u i (record c { handler = reading }) >>= λ v. ctl_or_free v i ok c.fd for_read

unfoldable pub process_write : Worker → ℕ → Bool → Outcomes → Option Worker
unfolding written_response count_in free_back
process_write w i err o =
    if err
    then free_back w i
    else if o.written
    then written_response w i o.ctl
    else count_in w (λ d. record d { write_cnt = suc d.write_cnt }) >>= λ u. free_back u i
