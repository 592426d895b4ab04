-- ===== src/ConnServer/Held.antt =====
-- Who holds which descriptor.
use c_model.Common.{
  ℕ, zero, suc, ◌<◌, ◌≡◌, ◌≢◌, refl, ap, sym, subst, ◌∙◌, List, [], ◌∷◌, some, arith, Bool, true,
  false, ◌==◌, ==-eq, if◌then◌else◌, Bool-cases, inl, inr, ◌⊎◌,
}
use c_model.Array.{length, set, count, length-set, get_or-set, get_elem?, store-eq_some}
use c_model.Run.{Returns, returns}
use c_model.ContextPool.{ConnContext, ContextPool}
use c_model.ContextPool.FreeList.{no_context, context_at, Linked, set_here, set_other, set-Linked}
use c_model.ContextPool.FreeList as FreeList
use c_model.ConnServer.{Worker, WorkerData, with_pool, put, count_in}

-- What a worker starts from: the descriptors that are open for the process itself, whether it is a
-- proxy, and the addresses of the back-end servers.
pub record Setup : Type 0 where
  pub base : ℕ → Bool
  pub proxy : Bool
  pub targets : List ℕ

-- The contexts in use hold open descriptors, no two the same one, and no descriptor is open that is
-- neither the process's own nor held.
pub record Held (S : Setup) (pool : ContextPool) (is_open : ℕ → Bool) (free used : List ℕ)
    : Type 0 where
  pub valid : FreeList.Valid pool free used
  pub owner : ℕ → ℕ
  pub front :
      (i : ℕ)
      → 0 < count i used
      → (is_open (context_at pool.arr i).fd ≡ true)
        × (owner (context_at pool.arr i).fd ≡ i)
        × (S.base (context_at pool.arr i).fd ≡ false)
  pub back :
      (i : ℕ)
      → 0 < count i used
      → ((context_at pool.arr i).end_fd ≡ 0)
        ⊎ ((is_open (context_at pool.arr i).end_fd ≡ true)
            × (owner (context_at pool.arr i).end_fd ≡ i)
            × (S.base (context_at pool.arr i).end_fd ≡ false)
            × ((context_at pool.arr i).fd ≢ (context_at pool.arr i).end_fd))
  pub no_leak :
      (d : ℕ)
      → is_open d ≡ true
      → (S.base d ≡ true)
        ⊎ ((0 < count (owner d) used)
            × (((context_at pool.arr (owner d)).fd ≡ d)
                ⊎ ((context_at pool.arr (owner d)).end_fd ≡ d)))
  pub base_open : (d : ℕ) → S.base d ≡ true → is_open d ≡ true
  pub stdin : S.base 0 ≡ true

-- The counters and the turn are in range.
pub record InRange (S : Setup) (w : Worker) : Type 0 where
  pub counted : w.cpu_id < length w.wdata
  pub turn : S.proxy ≡ true → w.last < length S.targets

pub used-inside :
    (pool : ContextPool) (free used : List ℕ) (i : ℕ)
    → FreeList.Valid pool free used
    → 0 < count i used
    → i < length pool.arr
used-inside pool free used i v m = ground (arith, v.size, v.once i)

-- The context at `i` as it was written, and the others.
pub at_written :
    (pool : ContextPool) (i q : ℕ) (c : ConnContext)
    → i < length pool.arr
    → context_at (set pool.arr i c) q ≡ (if i == q then c else context_at pool.arr q)
at_written pool i q c lt = get_or-set pool.arr i q c no_context lt

pub put-eq_some :
    (w : Worker) (i : ℕ) (c : ConnContext)
    → i < length w.pool.arr
    → put w i c ≡ some (with_pool w (record w.pool { arr = set w.pool.arr i c }))
unfolding put
put-eq_some w i c lt = rw (store-eq_some w.pool.arr i c lt) refl

-- The worker with other counters.
pub data Counted (w : Worker) : Worker → Type 0 where
  counted_up :
      (all : List WorkerData) → length all ≡ length w.wdata → Counted w (record w { wdata = all })

pub get_elem?-inside :
    {A : Type 0} (xs : List A) (i : ℕ) → i < length xs → (a : A) × (get_elem? xs i ≡ some a)
get_elem?-inside [] i h = absurd (omega arith)
get_elem?-inside (x ∷ xs) zero h = (x, refl)
get_elem?-inside (x ∷ xs) (suc i) h = get_elem?-inside xs i (omega arith)

-- A counter in range goes up.
pub count_in-Counted :
    (w : Worker) (f : WorkerData → WorkerData)
    → w.cpu_id < length w.wdata
    → Returns (Counted w) (count_in w f)
unfolding count_in
count_in-Counted w f r =
    let (d, found) = get_elem?-inside w.wdata w.cpu_id r in
    rw (found, store-eq_some w.wdata w.cpu_id (f d) r)
      (returns (counted_up _ (length-set w.wdata w.cpu_id (f d))))

pub put-Valid :
    (pool : ContextPool) (free used : List ℕ) (i : ℕ) (c : ConnContext)
    → FreeList.Valid pool free used
    → 0 < count i used
    → c.pool ≡ true
    → FreeList.Valid (record pool { arr = set pool.arr i c }) free used
put-Valid pool free used i c v m owned =
    let lt = used-inside pool free used i v m in
    record {
      size = length-set pool.arr i c ∙ v.size;
      linked = set-Linked pool.arr i c pool.next_idx free lt (ground (arith, v.once i)) v.linked;
      once = v.once;
      allocated = v.allocated;
      unallocated = v.unallocated;
      owned = λ q n.
          ap (λ d. d.pool) (at_written pool i q c lt)
          ∙ elim (Bool-cases (i == q)) [ inl e ↦ rw e owned | inr e ↦ rw e (v.owned q n) ];
    }

-- A context is written, and its descriptors stay.
pub put-Held :
    (S : Setup) (pool : ContextPool) (is_open : ℕ → Bool) (free used : List ℕ) (i : ℕ)
    (c : ConnContext)
    → Held S pool is_open free used
    → 0 < count i used
    → c.pool ≡ true
    → c.fd ≡ (context_at pool.arr i).fd
    → c.end_fd ≡ (context_at pool.arr i).end_fd
    → Held S (record pool { arr = set pool.arr i c }) is_open free used
put-Held S pool is_open free used i c h m owned same_fd same_end = record {
  valid = put-Valid pool free used i c h.valid m owned;
  owner = h.owner;
  front = λ q n.
      subst (λ d. (is_open d ≡ true) × (h.owner d ≡ q) × (S.base d ≡ false)) (sym (same_fds q))
        (h.front q n);
  back = λ q n.
      subst
        (λ d.
          (d ≡ 0)
          ⊎ ((is_open d ≡ true)
              × (h.owner d ≡ q)
              × (S.base d ≡ false)
              × ((context_at (set pool.arr i c) q).fd ≢ d)))
        (sym (same_ends q))
        (subst
          (λ f.
            ((context_at pool.arr q).end_fd ≡ 0)
            ⊎ ((is_open (context_at pool.arr q).end_fd ≡ true)
                × (h.owner (context_at pool.arr q).end_fd ≡ q)
                × (S.base (context_at pool.arr q).end_fd ≡ false)
                × (f ≢ (context_at pool.arr q).end_fd)))
          (sym (same_fds q)) (h.back q n));
  no_leak = λ d o. elim (h.no_leak d o) [
    | inl b ↦ inl b
    | inr (n, inl e) ↦ inr (n, inl (same_fds (h.owner d) ∙ e))
    | inr (n, inr e) ↦ inr (n, inr (same_ends (h.owner d) ∙ e))
  ];
  base_open = h.base_open;
  stdin = h.stdin;
}
  where
    lt : i < length pool.arr
    lt = used-inside pool free used i h.valid m

    same_fds : (q : ℕ) → (context_at (set pool.arr i c) q).fd ≡ (context_at pool.arr q).fd
    same_fds q = ap (λ d. d.fd) (at_written pool i q c lt) ∙ elim (Bool-cases (i == q)) [
      | inl e ↦ rw e (same_fd ∙ ap (λ k. (context_at pool.arr k).fd) (==-eq i q e))
      | inr e ↦ rw e refl
    ]

    same_ends : (q : ℕ) → (context_at (set pool.arr i c) q).end_fd ≡ (context_at pool.arr q).end_fd
    same_ends q = ap (λ d. d.end_fd) (at_written pool i q c lt) ∙ elim (Bool-cases (i == q)) [
      | inl e ↦ rw e (same_end ∙ ap (λ k. (context_at pool.arr k).end_fd) (==-eq i q e))
      | inr e ↦ rw e refl
    ]
