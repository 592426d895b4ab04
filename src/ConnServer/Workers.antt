-- ===== src/ConnServer/Workers.antt =====
-- The worker processes and their entries of the shared counters.
use c_model.Common.{
  ℕ, zero, suc, ◌+◌, ◌≤◌, ◌<◌, ◌≡◌, refl, ap, sym, ◌∙◌, List, [], ◌∷◌, Option, none, some, arith,
  Bool, true, ltb, ◌<◌,
}
use c_model.Array.{length, get_elem?, store}
use c_model.Run.{◌>>=◌}
use c_model.ContextPool.{ConnContext, init_pool, alloc_context}
use c_model.ConnServer.{
  WorkerData, Kernel, Worker, for_read, watched, with_kernel, with_pool, put, count_in, opened,
}
use c_model.ConnServer.Keeps.{Keeps, Keeps-bind, some-Keeps, Keeps-next}
use c_model.ConnServer.Loop.{
  listener_of, cleared, listen_on, listen_all, start_worker, init_processes, fork_worker, Launch,
  bind_process_cpu, all_added, register, new_worker,
}

-- The shared counters and the worker's index into them.
abbrev place : Worker → List WorkerData × ℕ
place w = (w.wdata, w.cpu_id)

put-Keeps : (w : Worker) (i : ℕ) (c : ConnContext) → Keeps place (place w) (put w i c)
unfolding put
put-Keeps w i c =
    Keeps-bind place (place w) (store w.pool.arr i c)
      (λ arr. some (with_pool w (record w.pool { arr = arr })))
      λ arr. some-Keeps place (with_pool w (record w.pool { arr = arr }))

listen_on-Keeps :
    (w : Worker) (proxy : Bool) (pa : List ℕ) (d : ℕ)
    → Keeps place (place w) (listen_on w proxy pa d)
unfolding listen_on
listen_on-Keeps w proxy pa d = Keeps-bind place (place w) (alloc_context w.pool) _ λ r.
    Keeps-bind place (place w) (get_elem? r.1.arr r.0) _ λ c.
      Keeps-next place (place w) (put (with_pool w r.1) r.0 (listener_of proxy pa c d)) _
        (put-Keeps (with_pool w r.1) r.0 (listener_of proxy pa c d))
        λ u. some-Keeps place (with_kernel u (watched u.kernel d (some (for_read, r.0))))

listen_all-Keeps :
    (ds : List ℕ) (w : Worker) (proxy : Bool) (pa : List ℕ)
    → Keeps place (place w) (listen_all w proxy pa ds)
unfolding listen_all
listen_all-Keeps [] w proxy pa = some-Keeps place w
listen_all-Keeps (d ∷ ds) w proxy pa =
    Keeps-next place (place w) (listen_on w proxy pa d) _ (listen_on-Keeps w proxy pa d)
      λ u. listen_all-Keeps ds u proxy pa

get_elem?-outside : {A : Type 0} (xs : List A) (i : ℕ) → length xs ≤ i → get_elem? xs i ≡ none
get_elem?-outside [] i h = refl
get_elem?-outside (x ∷ xs) zero h = absurd (omega arith)
get_elem?-outside (x ∷ xs) (suc i) h = get_elem?-outside xs i (omega arith)

none_after {ℓ} :
    {A : Type ℓ} {B : Type 0} (call : Option A) (f : A → Option B)
    → ((a : A) → call ≡ some a → f a ≡ none)
    → (call >>= f) ≡ none
none_after none f h = refl
none_after (some a) f h = h a refl

count_in-outside :
    (w : Worker) (f : WorkerData → WorkerData) → length w.wdata ≤ w.cpu_id → count_in w f ≡ none
unfolding count_in
count_in-outside w f h = rw (get_elem?-outside w.wdata w.cpu_id h) refl

pub length-init_processes : (start_cpu i k : ℕ) → length (init_processes start_cpu i k) ≡ k
unfolding init_processes
length-init_processes start_cpu i zero = refl
length-init_processes start_cpu i (suc k) = ap suc (length-init_processes start_cpu (suc i) k)

get_elem?-init_processes :
    (start_cpu i k j : ℕ)
    → j < k
    → get_elem? (init_processes start_cpu i k) j ≡ some (cleared (i + j + start_cpu))
unfolding init_processes
get_elem?-init_processes start_cpu i zero j h = absurd (omega arith)
get_elem?-init_processes start_cpu i (suc k) zero h = ap (λ n. some (cleared n)) (omega arith)
get_elem?-init_processes start_cpu i (suc k) (suc j) h =
    get_elem?-init_processes start_cpu (suc i) k j (omega arith)
    ∙ ap (λ n. some (cleared n)) (omega arith)

register-outside :
    (ctl : ℕ → Bool) (w : Worker) (proxy : Bool) (pa fds : List ℕ)
    → length w.wdata ≤ w.cpu_id
    → all_added ctl fds ≡ true
    → register ctl w proxy pa fds ≡ none
unfolding register
register-outside ctl w proxy pa [] out all = refl
register-outside ctl w proxy pa (d ∷ ds) out all = rw all (
    none_after (listen_all w proxy pa (d ∷ ds)) _ λ u e.
      let k = listen_all-Keeps (d ∷ ds) w proxy pa in
      let same = k.keep u e in
      let outside =
        count_in-outside u (λ d. record d { polls_min = 64 })
          (omega (arith, ap (λ x. length x.0) same, ap (λ (x : List WorkerData × ℕ). x.1) same)) in
      rw outside refl)

start_worker-outside :
    (launch : Launch) (size : ℕ) (arr : List ConnContext) (kernel : Kernel)
    (wdata : List WorkerData) (cpu_id ep_fd : ℕ) (http_200 : List ℕ) (proxy : Bool)
    (pa fds : List ℕ)
    → cpu_id < launch.cpus
    → launch.affinity ≡ true
    → launch.ep_fd ≡ some ep_fd
    → all_added launch.ctl fds ≡ true
    → length wdata ≤ cpu_id
    → start_worker launch size arr kernel wdata cpu_id http_200 proxy pa fds ≡ none
unfolding start_worker bind_process_cpu
start_worker-outside launch size arr kernel wdata cpu_id ep_fd http_200 proxy pa fds there bound ep
      all out =
    let below : ltb cpu_id launch.cpus ≡ true = ground arith in
    rw (below, bound, ep)
      (none_after (init_pool size arr) _ λ pool e.
        register-outside launch.ctl (new_worker pool (opened kernel ep_fd) wdata cpu_id http_200)
          proxy pa fds out all)

-- Let the number of a worker process plus that of the first CPU be the number of a CPU that exists, and
-- not below the number of workers. If the process is bound to that CPU, `epoll_create` succeeds, and so
-- does `epoll_ctl` for each listening socket, then it faults before its loop: it indexes the shared
-- counters by its CPU.
pub worker_on_high_cpu_faults :
    (launch : Launch) (start_cpu num_workers i size ep_fd : ℕ) (arr : List ConnContext)
    (kernel : Kernel) (http_200 : List ℕ) (proxy : Bool) (pa fds : List ℕ)
    → i < num_workers
    → num_workers ≤ i + start_cpu
    → i + start_cpu < launch.cpus
    → launch.affinity ≡ true
    → launch.ep_fd ≡ some ep_fd
    → all_added launch.ctl fds ≡ true
    → fork_worker launch start_cpu num_workers i size arr kernel http_200 proxy pa fds ≡ none
unfolding fork_worker
worker_on_high_cpu_faults launch start_cpu num_workers i size ep_fd arr kernel http_200 proxy pa fds
      h out there bound ep all =
    none_after (get_elem? (init_processes start_cpu 0 num_workers) i) _ λ mydata e.
      let same : ◌≡◌ {A = Option WorkerData} (some (cleared (0 + i + start_cpu))) (some mydata) =
        sym (get_elem?-init_processes start_cpu 0 num_workers i h) ∙ e in
      let same' : cleared (0 + i + start_cpu) ≡ mydata = cc in
      let number : 0 + i + start_cpu ≡ mydata.cpu_id = ap (λ d. d.cpu_id) same' in
      start_worker-outside launch size arr kernel (init_processes start_cpu 0 num_workers)
        mydata.cpu_id ep_fd http_200 proxy pa fds (omega (arith, number)) bound ep all
        (omega (arith, number, length-init_processes start_cpu 0 num_workers))
