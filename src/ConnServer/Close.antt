-- ===== src/ConnServer/Close.antt =====
-- The descriptors that `process_close` closes.
use c_model.Common.{
  ℕ, ◌≡◌, ◌≢◌, refl, ap, sym, ◌∙◌, arith, Bool, true, false, ◌==◌, Bool-cases, inl, inr,
}
use c_model.Run.{Returns, returns}
use c_model.ContextPool.{ConnContext}
use c_model.ConnServer.{Worker, Kernel, at_fd, with_kernel, close_fd, drop_fd}

-- A descriptor is closed, and epoll waits for the others as before.
pub record Dropped (k : Kernel) (d : ℕ) (k' : Kernel) : Type 0 where
  pub shut : k'.is_open ≡ at_fd k.is_open d false
  pub others : (e : ℕ) → d ≢ e → k'.interest e ≡ k.interest e

pub drop_fd-Dropped :
    (k : Kernel) (added : Bool) (d : ℕ)
    → k.is_open d ≡ true
    → Returns (Dropped k d) (drop_fd k added d)
unfolding drop_fd close_fd
drop_fd-Dropped k true d o = rw o (
    returns (record {
      shut = refl;
      others = λ e n. let miss : (d == e) ≡ false = ground arith in rw miss refl;
    }))
drop_fd-Dropped k false d o = rw o (
    returns (record {
      shut = refl;
      others = λ e n. let miss : (d == e) ≡ false = ground arith in rw miss refl;
    }))

-- Descriptor `d` is not one that a context with these two loses.
abbrev pub Survives : ℕ → ℕ → ℕ → Type 0
Survives fd end_fd d = (d ≢ fd) × (d ≡ end_fd → end_fd ≡ 0)

-- Exactly the descriptors of the context are closed.
pub record Closed (k : Kernel) (c : ConnContext) (k' : Kernel) : Type 0 where
  pub shut : (d : ℕ) → k'.is_open d ≡ true → (k.is_open d ≡ true) × Survives c.fd c.end_fd d
  pub kept : (d : ℕ) → k.is_open d ≡ true → Survives c.fd c.end_fd d → k'.is_open d ≡ true
  pub interest : (d : ℕ) → Survives c.fd c.end_fd d → d ≢ 0 → k'.interest d ≡ k.interest d

at_fd-cases : (f : ℕ → Bool) (d e : ℕ) → at_fd f d false e ≡ true → (f e ≡ true) × (e ≢ d)
at_fd-cases f d e h = elim (Bool-cases (d == e)) [
  | inl y ↦ (let off : at_fd f d false e ≡ false = rw y refl in absurd cc)
  | inr n ↦ (let same : at_fd f d false e ≡ f e = rw n refl in (sym same ∙ h, ground arith))
]

pub at_fd-kept : (f : ℕ → Bool) (d e : ℕ) → f e ≡ true → e ≢ d → at_fd f d false e ≡ true
at_fd-kept f d e h n = let miss : (d == e) ≡ false = ground arith in rw miss h

-- The front descriptor only, and both.
pub front_shut :
    (k k' : Kernel) (c : ConnContext) → c.end_fd ≡ 0 → Dropped k c.fd k' → Closed k c k'
front_shut k k' c none_there d = record {
  shut = λ e o.
      let (before, n) = at_fd-cases k.is_open c.fd e (sym (ap (λ f. f e) d.shut) ∙ o) in
      (before, (n, λ s. none_there));
  kept = λ e o (n, s). ap (λ f. f e) d.shut ∙ at_fd-kept k.is_open c.fd e o n;
  interest = λ e (n, s) z. d.others e (λ x. n (sym x));
}

pub both_shut :
    (k k' k'' : Kernel) (c : ConnContext)
    → c.end_fd ≢ 0
    → Dropped k c.fd k'
    → Dropped k' c.end_fd k''
    → Closed k c k''
both_shut k k' k'' c some_there d d' = record {
  shut = λ e o.
      let (between, n') = at_fd-cases k'.is_open c.end_fd e (sym (ap (λ f. f e) d'.shut) ∙ o) in
      let (before, n) = at_fd-cases k.is_open c.fd e (sym (ap (λ f. f e) d.shut) ∙ between) in
      (before, (n, λ s. absurd (n' s)));
  kept = λ e o (n, s).
      ap (λ f. f e) d'.shut
      ∙ at_fd-kept k'.is_open c.end_fd e (ap (λ f. f e) d.shut ∙ at_fd-kept k.is_open c.fd e o n)
          (λ x. some_there (s x));
  interest = λ e (n, s) z. d'.others e (λ x. some_there (s (sym x))) ∙ d.others e (λ x. n (sym x));
}

-- The worker whose kernel has closed them.
pub data ClosedBy (w : Worker) (c : ConnContext) : Worker → Type 0 where
  closed_by : (k : Kernel) → Closed w.kernel c k → ClosedBy w c (with_kernel w k)
