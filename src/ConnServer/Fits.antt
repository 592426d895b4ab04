-- ===== src/ConnServer/Fits.antt =====
-- What epoll waits for while a handler is bound to a connection, and the invariant of a worker.
use c_model.Common.{ℕ, ◌<◌, ◌≡◌, ◌≢◌, refl, ◌∙◌, List, Option, some, arith, Bool, true, false, ◌==◌}
use c_model.Array.{count}
use c_model.ContextPool.{
  Handler, accepting, reading, writing, reading_frontend, writing_backend, reading_backend,
  writing_frontend, ConnContext,
}
use c_model.ContextPool.FreeList.{context_at}
use c_model.ConnServer.{Interest, for_read, for_write, only_errors, Worker, Outcomes, at_fd}
use c_model.ConnServer.Held.{Setup, Held, InRange}

abbrev pub FitsAs : Setup → ℕ → (ℕ → Option (Interest × ℕ)) → ConnContext → Handler → Type 0
FitsAs S i f c accepting =
    (f c.fd ≡ some (for_read, i))
    × (c.end_fd ≡ 0)
    × (c.enable_proxy ≡ S.proxy)
    × (S.proxy ≡ true → c.pa ≡ S.targets)
FitsAs S i f c reading = (f c.fd ≡ some (for_read, i)) × (c.end_fd ≡ 0)
FitsAs S i f c writing = (f c.fd ≡ some (for_write, i)) × (c.end_fd ≡ 0)
FitsAs S i f c reading_frontend =
    (f c.fd ≡ some (for_read, i)) × (c.end_fd ≡ 0) × (S.proxy ≡ true) × (c.pa ≡ S.targets)
FitsAs S i f c writing_backend =
    (f c.fd ≡ some (only_errors, i))
    × (c.end_fd ≢ 0)
    × (f c.end_fd ≡ some (for_write, i))
    × (c.flags ≡ true)
    × (S.proxy ≡ true)
FitsAs S i f c reading_backend =
    (f c.fd ≡ some (only_errors, i))
    × (c.end_fd ≢ 0)
    × (f c.end_fd ≡ some (for_read, i))
    × (c.flags ≡ true)
    × (S.proxy ≡ true)
FitsAs S i f c writing_frontend =
    (f c.fd ≡ some (for_write, i))
    × (c.end_fd ≢ 0)
    × (f c.end_fd ≡ some (only_errors, i))
    × (c.flags ≡ false)
    × (S.proxy ≡ true)

-- The handler that is bound to the connection is the one for the events that epoll waits for.
abbrev pub Fits : Setup → ℕ → (ℕ → Option (Interest × ℕ)) → ConnContext → Type 0
Fits S i f c = FitsAs S i f c c.handler

-- The invariant of a worker between two events.
pub record Sound (S : Setup) (w : Worker) (free used : List ℕ) : Type 0 where
  pub held : Held S w.pool w.kernel.is_open free used
  pub ranged : InRange S w
  pub fit : (q : ℕ) → 0 < count q used → Fits S q w.kernel.interest (context_at w.pool.arr q)

FitsAs-same :
    (S : Setup) (i : ℕ) (f g : ℕ → Option (Interest × ℕ)) (c : ConnContext) (h : Handler)
    → g c.fd ≡ f c.fd
    → (c.end_fd ≢ 0 → g c.end_fd ≡ f c.end_fd)
    → FitsAs S i f c h
    → FitsAs S i g c h
FitsAs-same S i f g c accepting e e' (a, b, p, t) = (e ∙ a, b, p, t)
FitsAs-same S i f g c reading e e' (a, b) = (e ∙ a, b)
FitsAs-same S i f g c writing e e' (a, b) = (e ∙ a, b)
FitsAs-same S i f g c reading_frontend e e' (a, b, p, t) = (e ∙ a, b, p, t)
FitsAs-same S i f g c writing_backend e e' (a, n, b, l, p) = (e ∙ a, n, e' n ∙ b, l, p)
FitsAs-same S i f g c reading_backend e e' (a, n, b, l, p) = (e ∙ a, n, e' n ∙ b, l, p)
FitsAs-same S i f g c writing_frontend e e' (a, n, b, l, p) = (e ∙ a, n, e' n ∙ b, l, p)

-- It depends on the connection's own descriptors only.
pub Fits-same :
    (S : Setup) (i : ℕ) (f g : ℕ → Option (Interest × ℕ)) (c : ConnContext)
    → g c.fd ≡ f c.fd
    → (c.end_fd ≢ 0 → g c.end_fd ≡ f c.end_fd)
    → Fits S i f c
    → Fits S i g c
Fits-same S i f g c = FitsAs-same S i f g c c.handler

FitsAs-base :
    (S : Setup) (b : ℕ → Bool) (i : ℕ) (f : ℕ → Option (Interest × ℕ)) (c : ConnContext)
    (h : Handler)
    → FitsAs S i f c h
    → FitsAs (record S { base = b }) i f c h
FitsAs-base S b i f c accepting x = x
FitsAs-base S b i f c reading x = x
FitsAs-base S b i f c writing x = x
FitsAs-base S b i f c reading_frontend x = x
FitsAs-base S b i f c writing_backend x = x
FitsAs-base S b i f c reading_backend x = x
FitsAs-base S b i f c writing_frontend x = x

-- The process's own descriptors do not matter.
pub Fits-base :
    (S : Setup) (b : ℕ → Bool) (i : ℕ) (f : ℕ → Option (Interest × ℕ)) (c : ConnContext)
    → Fits S i f c
    → Fits (record S { base = b }) i f c
Fits-base S b i f c = FitsAs-base S b i f c c.handler

pub at_fd-here {ℓ} : {A : Type ℓ} (f : ℕ → A) (d : ℕ) (a : A) → at_fd f d a d ≡ a
at_fd-here f d a = let hit : (d == d) ≡ true = ground arith in rw hit refl

pub at_fd-other {ℓ} : {A : Type ℓ} (f : ℕ → A) (d e : ℕ) (a : A) → d ≢ e → at_fd f d a e ≡ f e
at_fd-other f d e a n = let miss : (d == e) ≡ false = ground arith in rw miss refl

-- In the middle of a handler that began in `w` and has come to `u`: all holds but that connection `i`
-- may not fit, and the other contexts are as they were.
pub record Midway (S : Setup) (w : Worker) (i : ℕ) (free used : List ℕ) (u : Worker) : Type 0 where
  pub held : Held S u.pool u.kernel.is_open free used
  pub ranged : InRange S u
  pub in_use : 0 < count i used
  pub others :
      (q : ℕ) → i ≢ q → 0 < count q used → Fits S q u.kernel.interest (context_at u.pool.arr q)
  pub same : (q : ℕ) → i ≢ q → context_at u.pool.arr q ≡ context_at w.pool.arr q

-- What serving an event of connection `i` leads to: the invariant again, and the other connections are
-- still there.
pub record Handled (S : Setup) (w : Worker) (i : ℕ) (used : List ℕ) (u : Worker) : Type 0 where
  pub free' : List ℕ
  pub used' : List ℕ
  pub sound : Sound S u free' used'
  pub still :
      (q : ℕ)
      → i ≢ q
      → 0 < count q used
      → (0 < count q used') × (context_at u.pool.arr q ≡ context_at w.pool.arr q)

-- What the system calls of a handler may give: a descriptor that they open was not open before, and
-- `accept` gives one only if there is an unused context for it.
pub record Possible (w : Worker) (o : Outcomes) : Type 0 where
  pub accepted_new : (d : ℕ) → o.accepted ≡ some d → w.kernel.is_open d ≡ false
  pub room : (d : ℕ) → o.accepted ≡ some d → w.pool.allocated < w.pool.total
  pub socket_new : (d : ℕ) → o.socket ≡ some d → w.kernel.is_open d ≡ false
