-- ===== src/ConnServer/Listen.antt =====
-- What a worker process does before its loop.
use c_model.Common.{
  ℕ, ◌≤◌, ◌<◌, ◌≡◌, ◌≢◌, ◌∙◌, List, [], ◌∷◌, Option, none, some, arith, true, false, inl, inr, Bool,
  Bool-cases, refl, ltb, ◌⊎◌, sym, subst,
}
use c_model.Array.{length, count}
use c_model.Run.{Returns, returns, Returns-bind, Returns-map}
use c_model.ContextPool.{ConnContext, ContextPool}
use c_model.ContextPool.FreeList.{indices, length-indices, Initial, initial, init_pool_links_all}
use c_model.ConnServer.{Interest, WorkerData, Worker, Kernel, opened, at_fd}
use c_model.ConnServer.Loop.{
  listen_all, start_worker, Launch, Start, exits, runs, bind_process_cpu, all_added, register,
  new_worker,
}
use c_model.ConnServer.Held.{Setup, count_in-Counted}
use c_model.ConnServer.Fits.{Sound, at_fd-other}
use c_model.ConnServer.Batch.{Distinct, Running}
use c_model.ConnServer.Serve.{Sound-Counted}
use c_model.ConnServer.HandOver.{handed_over, listen_on-Sound}

-- Each of them becomes a connection's, and each of them is one of the process's own and not 0.
abbrev pub all_handed_over : Setup → List ℕ → Setup
all_handed_over S [] = S
all_handed_over S (d ∷ ds) = all_handed_over (handed_over S d) ds

abbrev pub AllBase : Setup → List ℕ → Type 0
AllBase S [] = Unit {0}
AllBase S (d ∷ ds) = (S.base d ≡ true) × (d ≢ 0) × AllBase S ds

handed_over-AllBase :
    (S : Setup) (d : ℕ) (ds : List ℕ) → count d ds ≡ 0 → AllBase S ds → AllBase (handed_over S d) ds
handed_over-AllBase S d [] out b = tt
handed_over-AllBase S d (e ∷ ds) out (b, n, bs) = (
  at_fd-other S.base d e false (ground arith) ∙ b,
  n,
  handed_over-AllBase S d ds (ground arith) bs,
)

listen_all-Running :
    (S : Setup) (w : Worker) (free used ds : List ℕ)
    → Sound S w free used
    → length ds ≤ length free
    → Distinct ds
    → AllBase S ds
    → Returns (Running (all_handed_over S ds)) (listen_all w S.proxy S.targets ds)
unfolding listen_all
listen_all-Running S w free used [] s room distinct b =
    returns (record { free = free; used = used; sound = s })
listen_all-Running S w [] used (d ∷ ds) s room distinct b = absurd (omega arith)
listen_all-Running S w (j ∷ left) used (d ∷ ds) s room (out, distinct) (b, n, bs) =
    Returns-bind (listen_on-Sound S w j left used s d b n) λ u s'.
      listen_all-Running (handed_over S d) u left (j ∷ used) ds s' (omega arith) distinct
        (handed_over-AllBase S d ds out bs)

-- The descriptor of `epoll_create` is one of the process's own.
abbrev pub with_epoll : Setup → ℕ → Setup
with_epoll S ep_fd = record S { base = at_fd S.base ep_fd true }

with_epoll-AllBase :
    (S : Setup) (ep_fd : ℕ) (ds : List ℕ) → AllBase S ds → AllBase (with_epoll S ep_fd) ds
with_epoll-AllBase S ep_fd [] b = tt
with_epoll-AllBase S ep_fd (d ∷ ds) (b, n, bs) = (ground arith, n, with_epoll-AllBase S ep_fd ds bs)

-- What `process_clients` comes to: it ends the program where the CPU does not exist, or the worker cannot
-- be bound to it, or `epoll_create` fails, or `epoll_ctl` for a listening socket; else it enters its loop, where the invariant holds.
pub data Started (S : Setup) (launch : Launch) (cpu_id : ℕ) (ds : List ℕ) : Start → Type 0 where
  ended :
      (launch.cpus ≤ cpu_id)
        ⊎ ((launch.affinity ≡ false) ⊎ ((launch.ep_fd ≡ none) ⊎ (all_added launch.ctl ds ≡ false)))
      → Started S launch cpu_id ds exits
  entered :
      (ep_fd : ℕ) {w : Worker}
      → cpu_id < launch.cpus
      → launch.affinity ≡ true
      → launch.ep_fd ≡ some ep_fd
      → all_added launch.ctl ds ≡ true
      → Running (all_handed_over (with_epoll S ep_fd) ds) w
      → Started S launch cpu_id ds (runs w)

bind_process_cpu-cases :
    (cpu cpus : ℕ) (ok : Bool)
    → ((bind_process_cpu cpu cpus ok ≡ true) × (cpu < cpus) × (ok ≡ true))
      ⊎ ((bind_process_cpu cpu cpus ok ≡ false) × ((cpus ≤ cpu) ⊎ (ok ≡ false)))
unfolding bind_process_cpu
bind_process_cpu-cases cpu cpus ok = elim (Bool-cases (ltb cpu cpus)) [
  | inl e ↦ elim (Bool-cases ok) [
    | inl o ↦ inl (rw (e, o) refl, ground arith, o)
    | inr o ↦ inr (rw (e, o) refl, inr o)
  ]
  | inr e ↦ inr (rw e refl, inl (ground arith))
]

register-not_added :
    (ctl : ℕ → Bool) (w : Worker) (proxy : Bool) (pa ds : List ℕ)
    → 0 < length ds
    → all_added ctl ds ≡ false
    → register ctl w proxy pa ds ≡ some exits
unfolding register
register-not_added ctl w proxy pa [] some_fd e = absurd (omega arith)
register-not_added ctl w proxy pa (d ∷ ds) some_fd e = rw e refl

module _ (S : Setup) (size : ℕ) (arr : List ConnContext) (interest : ℕ → Option (Interest × ℕ))
    (wdata : List WorkerData) (cpu_id : ℕ) (http_200 : List ℕ) (counted : cpu_id < length wdata)
    (turns : S.proxy ≡ true → 0 < length S.targets) (std : S.base 0 ≡ true) where
  abbrev kernel : Kernel
  kernel = record { is_open = S.base; interest = interest }

  new_worker-Sound :
      (pool : ContextPool) (ep_fd : ℕ)
      → Initial size pool
      → Sound
          (with_epoll S ep_fd)
          (new_worker pool (opened kernel ep_fd) wdata cpu_id http_200)
          (indices 0 size)
          []
  new_worker-Sound pool ep_fd (initial total none_yet valid) = record {
    held = record {
      valid = valid;
      owner = λ d. d;
      front = λ q k. absurd (omega arith);
      back = λ q k. absurd (omega arith);
      no_leak = λ d o. inl o;
      base_open = λ d o. o;
      stdin = ground arith;
    };
    ranged = record { counted = counted; turn = turns };
    fit = λ q k. absurd (omega arith);
  }

  register-Running :
      (ctl : ℕ → Bool) (pool : ContextPool) (ep_fd : ℕ) (ds : List ℕ)
      → all_added ctl ds ≡ true
      → Initial size pool
      → 0 < length ds
      → length ds ≤ size
      → Distinct ds
      → AllBase S ds
      → Returns
          (λ r. (w : Worker) × (r ≡ runs w) × Running (all_handed_over (with_epoll S ep_fd) ds) w)
          (register ctl
            (new_worker pool (opened kernel ep_fd) wdata cpu_id http_200)
            S.proxy
            S.targets
            ds)
  unfolding register
  register-Running ctl pool ep_fd [] all i some_fd room distinct b = absurd (omega arith)
  register-Running ctl pool ep_fd (d ∷ ds) all i some_fd room distinct b = rw all (
      Returns-bind
        (listen_all-Running (with_epoll S ep_fd) _ (indices 0 size) [] (d ∷ ds)
          (new_worker-Sound pool ep_fd i) (omega (arith, length-indices 0 size, room)) distinct
          (with_epoll-AllBase S ep_fd (d ∷ ds) b))
        λ w r.
          let s = r.sound in
          Returns-bind (count_in-Counted w _ s.ranged.counted) λ v n. returns (
            v,
            refl,
            record {
              free = r.free;
              used = r.used;
              sound =
                  Sound-Counted (all_handed_over (with_epoll S ep_fd) (d ∷ ds)) w v r.free r.used s
                    n;
            },
          ))

-- Let a worker process start with descriptor 0 open, a pool of more than 0 contexts, at least one
-- listening socket and no more than it has contexts, all of them open and different and none 0, with an
-- entry for its counters in range and, for a proxy, at least one back-end server. It does not fault. It
-- ends the program where its CPU does not exist or it cannot be bound to it, or `epoll_create` fails, or
-- `epoll_ctl` for one of the sockets; and else it comes to its loop, where the invariant of a worker
-- holds: the descriptors that are open are those of the listening connections, that of `epoll_create`,
-- and those that the process had otherwise.
pub start_worker_meets_invariant :
    (S : Setup) (launch : Launch) (size : ℕ) (arr : List ConnContext)
    (interest : ℕ → Option (Interest × ℕ)) (wdata : List WorkerData) (cpu_id : ℕ)
    (http_200 ds : List ℕ)
    → 0 < size
    → length arr ≡ size
    → cpu_id < length wdata
    → (S.proxy ≡ true → 0 < length S.targets)
    → S.base 0 ≡ true
    → 0 < length ds
    → length ds ≤ size
    → Distinct ds
    → AllBase S ds
    → Returns (Started S launch cpu_id ds) (
        start_worker launch size arr
          (record { is_open = S.base; interest = interest })
          wdata
          cpu_id
          http_200
          S.proxy
          S.targets
          ds)
unfolding start_worker
start_worker_meets_invariant S launch size arr interest wdata cpu_id http_200 ds h e c t std some_fd
      room distinct b =
    elim (bind_process_cpu-cases cpu_id launch.cpus launch.affinity) [
      | inr (fails, why) ↦
          rw fails (returns (ended (elim why [ inl x ↦ inl x | inr x ↦ inr (inl x) ])))
      | inl (binds, there, bound) ↦ rw binds (
          Returns-bind (init_pool_links_all size arr h e)
            λ pool i. with_ep_fd pool i there bound launch.ep_fd refl)
    ]
  where
    with_ep_fd :
        (pool : ContextPool)
        → Initial size pool
        → cpu_id < launch.cpus
        → launch.affinity ≡ true
        → (o : Option ℕ) → launch.ep_fd ≡ o
        → Returns (Started S launch cpu_id ds) (elim o [
          | none ↦ some exits
          | some ep_fd ↦
              register launch.ctl
                (new_worker pool
                  (opened (record { is_open = S.base; interest = interest }) ep_fd)
                  wdata
                  cpu_id
                  http_200)
                S.proxy
                S.targets
                ds
        ])
    with_ep_fd pool i there bound none ep = returns (ended (inr (inr (inl ep))))
    with_ep_fd pool i there bound (some ep_fd) ep = elim (Bool-cases (all_added launch.ctl ds)) [
      | inl all ↦
          Returns-map
            (register-Running S size arr interest wdata cpu_id http_200 c t std launch.ctl pool
              ep_fd ds all i some_fd room distinct b)
            λ r (w, same, running).
              subst (Started S launch cpu_id ds) (sym same)
                (entered ep_fd there bound ep all running)
      | inr not_all ↦
          rw (register-not_added launch.ctl _ S.proxy S.targets ds some_fd not_all)
            (returns (ended (inr (inr (inr not_all)))))
    ]
