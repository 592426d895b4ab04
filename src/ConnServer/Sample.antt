-- ===== src/ConnServer/Sample.antt =====
-- A proxy with a listening connection and one other, at two moments.
use c_model.Common.{
  ℕ, zero, suc, ◌<◌, ◌≡◌, ◌≢◌, refl, List, [], ◌∷◌, none, some, arith, true, false, ◌==◌,
  if◌then◌else◌, Bool-cases, inl, inr, ◌⊎◌, pos,
}
use c_model.Array.{count}
use c_model.ContextPool.{accepting, reading_frontend, writing_frontend, ConnContext}
use c_model.ContextPool.FreeList.{no_context, context_at}
use c_model.ConnServer.{for_read, for_write, only_errors, Kernel, Worker}
use c_model.ConnServer.Loop.{cleared}
use c_model.ConnServer.Held.{Setup, Held}
use c_model.ConnServer.Fits.{Fits, Sound}
use c_model.ConnServer.Batch.{Running}

abbrev pub listener : ConnContext
listener = record no_context {
  fd = 3;
  handler = accepting;
  pool = true;
  pa = 80 ∷ 81 ∷ [];
  enable_proxy = true;
}

abbrev pub due : ConnContext
due = record no_context {
  fd = 5;
  fd_added = true;
  end_fd = 6;
  end_fd_added = true;
  handler = writing_frontend;
  data_len = 2;
  pool = true;
  buf = 7 ∷ 8 ∷ [];
  pa = 80 ∷ 81 ∷ [];
  enable_proxy = true;
}

abbrev pub kernel : Kernel
kernel = record {
  is_open = λ d. if d == 0 then true else if d == 3 then true else if d == 5 then true else d == 6;
  interest = λ d.
      if d == 3
      then some (for_read, 0)
      else if d == 5
      then some (for_write, 1)
      else if d == 6
      then some (only_errors, 1)
      else none;
}

abbrev pub worker : Worker
worker = record {
  pool = record {
    total = 3;
    allocated = 2;
    next_idx = pos 2;
    arr = listener ∷ due ∷ no_context ∷ [];
  };
  kernel = kernel;
  wdata = cleared 0 ∷ [];
  cpu_id = 0;
  http_200 = 9 ∷ [];
  last = 1;
  sent = [];
  connects = [];
}

abbrev pub setup : Setup
setup = record { base = λ d. d == 0; proxy = true; targets = 80 ∷ 81 ∷ [] }

abbrev pub free : List ℕ
free = 2 ∷ []

abbrev pub used : List ℕ
used = 0 ∷ 1 ∷ []

pub in_use : (P : ℕ → Type 0) → P 0 → P 1 → (q : ℕ) → 0 < count q used → P q
in_use P p p' zero k = p
in_use P p p' (suc zero) k = p'
in_use P p p' (suc (suc q)) k = absurd (ground arith)

abbrev pub owner : ℕ → ℕ
owner d = if d == 3 then 0 else 1

pub worker-Held : Held setup worker.pool worker.kernel.is_open free used
worker-Held = record {
  valid = record {
    size = refl;
    linked = (refl, omega arith, refl);
    once = λ q. ground arith;
    allocated = refl;
    unallocated = refl;
    owned = in_use (λ q. (context_at worker.pool.arr q).pool ≡ true) refl refl;
  };
  owner = owner;
  front =
      in_use
        (λ q.
          (worker.kernel.is_open (context_at worker.pool.arr q).fd ≡ true)
          × (owner (context_at worker.pool.arr q).fd ≡ q)
          × (setup.base (context_at worker.pool.arr q).fd ≡ false))
        (refl, refl, refl) (refl, refl, refl);
  back =
      in_use
        (λ q.
          ((context_at worker.pool.arr q).end_fd ≡ 0)
          ⊎ ((worker.kernel.is_open (context_at worker.pool.arr q).end_fd ≡ true)
              × (owner (context_at worker.pool.arr q).end_fd ≡ q)
              × (setup.base (context_at worker.pool.arr q).end_fd ≡ false)
              × ((context_at worker.pool.arr q).fd ≢ (context_at worker.pool.arr q).end_fd)))
        (inl refl) (inr (refl, refl, refl, omega arith));
  no_leak = λ d o. elim (Bool-cases (d == 0)) [
    | inl e ↦ inl e
    | inr e ↦ elim (Bool-cases (d == 3)) [
      | inl e' ↦ inr (ground arith, inl (ground arith))
      | inr e' ↦ elim (Bool-cases (d == 5)) [
        | inl e'' ↦ inr (ground arith, inl (rw e' (ground arith)))
        | inr e'' ↦ inr (ground arith, inr (rw e' (ground arith)))
      ]
    ]
  ];
  base_open = λ d b. ground arith;
  stdin = refl;
}

pub worker-Sound : Sound setup worker free used
worker-Sound = record {
  held = worker-Held;
  ranged = record { counted = omega arith; turn = λ p. omega arith };
  fit =
      in_use (λ q. Fits setup q worker.kernel.interest (context_at worker.pool.arr q))
        (refl, refl, refl, λ p. refl) (refl, omega arith, refl, refl, refl);
}

-- The proxy before the request has come.
abbrev pub client : ConnContext
client = record due {
  end_fd = 0;
  end_fd_added = false;
  handler = reading_frontend;
  data_len = 0;
  buf = [];
}

abbrev pub waiting : Worker
waiting = record worker {
  pool = record worker.pool { arr = listener ∷ client ∷ no_context ∷ [] };
  kernel = record {
    is_open = λ d. if d == 0 then true else if d == 3 then true else d == 5;
    interest =
        λ d. if d == 3 then some (for_read, 0) else if d == 5 then some (for_read, 1) else none;
  };
}

pub waiting-Held : Held setup waiting.pool waiting.kernel.is_open free used
waiting-Held = record {
  valid = record {
    size = refl;
    linked = (refl, omega arith, refl);
    once = λ q. ground arith;
    allocated = refl;
    unallocated = refl;
    owned = in_use (λ q. (context_at waiting.pool.arr q).pool ≡ true) refl refl;
  };
  owner = owner;
  front =
      in_use
        (λ q.
          (waiting.kernel.is_open (context_at waiting.pool.arr q).fd ≡ true)
          × (owner (context_at waiting.pool.arr q).fd ≡ q)
          × (setup.base (context_at waiting.pool.arr q).fd ≡ false))
        (refl, refl, refl) (refl, refl, refl);
  back =
      in_use
        (λ q.
          ((context_at waiting.pool.arr q).end_fd ≡ 0)
          ⊎ ((waiting.kernel.is_open (context_at waiting.pool.arr q).end_fd ≡ true)
              × (owner (context_at waiting.pool.arr q).end_fd ≡ q)
              × (setup.base (context_at waiting.pool.arr q).end_fd ≡ false)
              × ((context_at waiting.pool.arr q).fd ≢ (context_at waiting.pool.arr q).end_fd)))
        (inl refl) (inl refl);
  no_leak = λ d o. elim (Bool-cases (d == 0)) [
    | inl e ↦ inl e
    | inr e ↦ elim (Bool-cases (d == 3)) [
      | inl e' ↦ inr (ground arith, inl (ground arith))
      | inr e' ↦ inr (ground arith, inl (rw e' (ground arith)))
    ]
  ];
  base_open = λ d b. ground arith;
  stdin = refl;
}

pub waiting-Running : Running setup waiting
waiting-Running = record {
  free = free;
  used = used;
  sound = record {
    held = waiting-Held;
    ranged = record { counted = omega arith; turn = λ p. omega arith };
    fit =
        in_use (λ q. Fits setup q waiting.kernel.interest (context_at waiting.pool.arr q))
          (refl, refl, refl, λ p. refl) (refl, refl, refl, refl);
  };
}
