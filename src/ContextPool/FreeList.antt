-- ===== src/ContextPool/FreeList.antt =====
-- The list of the unused contexts, and the invariant of the pool.
use c_model.Common.{
  ℕ, zero, suc, ◌+◌, ◌-◌, ◌≤◌, ◌<◌, ◌≡◌, ◌≢◌, refl, ap, ◌∙◌, List, [], ◌∷◌, some, arith, true,
  false, ltb, ◌==◌, ==-eq, Bool-cases, inl, inr, subst, if◌then◌else◌, ℤ, pos, negsuc,
}
use c_model.Array.{
  length, get_or, set, count, length-set, get_or-set, get_elem?-get_or, store-eq_some,
}
use c_model.Run.{Returns, returns, Returns-bind, Returns-map}
use c_model.ContextPool.{reading, ConnContext, ContextPool, set_next_idx, link_from, init_pool}

abbrev pub no_context : ConnContext
no_context = record {
  fd = 0;
  fd_added = false;
  end_fd = 0;
  end_fd_added = false;
  flags = false;
  handler = reading;
  data_len = 0;
  pool = false;
  next_idx = negsuc 0;
  buf = [];
  pa = [];
  enable_proxy = false;
}

-- The context with index `i`.
abbrev pub context_at : List ConnContext → ℕ → ConnContext
context_at arr i = get_or arr i no_context

-- From the index `next` on, the links lead through `free` and end at -1.
abbrev pub Linked : List ConnContext → ℤ → List ℕ → Type 0
Linked arr next [] = next ≡ negsuc 0
Linked arr next (i ∷ free) =
    (next ≡ pos i) × (i < length arr) × Linked arr (context_at arr i).next_idx free

-- `free` are the unused contexts, in the order in which they are handed out, and `used` the others.
-- Each context is in one of the two, and once.
pub record Valid (p : ContextPool) (free used : List ℕ) : Type 0 where
  pub size : length p.arr ≡ p.total
  pub linked : Linked p.arr p.next_idx free
  pub once : (q : ℕ) → count q free + count q used ≡ (if ltb q p.total then 1 else 0)
  pub allocated : length used ≡ p.allocated
  pub unallocated : length free + p.allocated ≡ p.total
  pub owned : (q : ℕ) → 0 < count q used → (context_at p.arr q).pool ≡ true

pub set_here :
    (arr : List ConnContext) (i : ℕ) (c : ConnContext)
    → i < length arr
    → context_at (set arr i c) i ≡ c
set_here arr i c h =
    let hit : (i == i) ≡ true = ground arith in get_or-set arr i i c no_context h ∙ rw hit refl

pub set_other :
    (arr : List ConnContext) (i j : ℕ) (c : ConnContext)
    → i < length arr
    → i ≢ j
    → context_at (set arr i c) j ≡ context_at arr j
set_other arr i j c h ne =
    let other : (i == j) ≡ false = ground arith in get_or-set arr i j c no_context h ∙ rw other refl

-- A write to a context outside the list leaves the list as it is.
pub set-Linked :
    (arr : List ConnContext) (i : ℕ) (c : ConnContext) (next : ℤ) (free : List ℕ)
    → i < length arr
    → count i free ≡ 0
    → Linked arr next free
    → Linked (set arr i c) next free
set-Linked arr i c next [] h out l = l
set-Linked arr i c next (j ∷ free) h out (e, inside, l) =
    let same : context_at (set arr i c) j ≡ context_at arr j =
      set_other arr i j c h (ground arith) in
    (
      e,
      omega (arith, inside, length-set arr i c),
      rw same (set-Linked arr i c (context_at arr j).next_idx free h (omega (arith, out)) l),
    )

pub set_next_idx-eq_some :
    (arr : List ConnContext) (i : ℕ) (v : ℤ)
    → i < length arr
    → set_next_idx arr i v ≡ some (set arr i (record (context_at arr i) { next_idx = v }))
unfolding set_next_idx
set_next_idx-eq_some arr i v h =
    rw
      (
        get_elem?-get_or arr i no_context h,
        store-eq_some arr i (record (context_at arr i) { next_idx = v }) h,
      )
      refl

-- The indices from `i` on, `k` of them.
unfoldable pub indices : ℕ → ℕ → List ℕ
indices i zero = []
indices i (suc k) = i ∷ indices (suc i) k

pub count-indices :
    (q i k : ℕ) → count q (indices i k) ≡ (if ltb q i then 0 else if ltb q (i + k) then 1 else 0)
unfolding indices
count-indices q i zero = ground arith
count-indices q i (suc k) = rw (count-indices q (suc i) k) (ground arith)

pub length-indices : (i k : ℕ) → length (indices i k) ≡ k
unfolding indices
length-indices i zero = refl
length-indices i (suc k) = ap suc (length-indices (suc i) k)

-- The loop of `init_pool` links `k` contexts from `i` on, and changes none before them.
abbrev Links : ℕ → ℕ → List ConnContext → List ConnContext → Type 0
Links k i arr a =
    (length a ≡ length arr)
    × ((j : ℕ) → i ≤ j → j < i + k → (context_at a j).next_idx ≡ pos (suc j))
    × ((j : ℕ) → j < i → context_at a j ≡ context_at arr j)

link_from-Links :
    (k i : ℕ) (arr : List ConnContext)
    → i + k ≤ length arr
    → Returns (Links k i arr) (link_from k i arr)
unfolding link_from
link_from-Links zero i arr h = returns (refl, (λ j le lt. absurd (omega arith)), λ j lt. refl)
link_from-Links (suc k) i arr h =
    let c = record (context_at arr i) { next_idx = pos (suc i) } in
    let size = length-set arr i c in
    rw (set_next_idx-eq_some arr i (pos (suc i)) (omega arith)) (
      Returns-map (link_from-Links k (suc i) (set arr i c) (omega (arith, size)))
        λ a (long, linked, kept). (
          long ∙ size,
          λ j le lt. elim (Bool-cases (i == j)) [
            | inl e ↦
                let same : i ≡ j = ==-eq i j e in
                subst (λ l. (context_at a l).next_idx ≡ pos (suc l)) same
                  (ap (λ d. d.next_idx) (kept i (omega arith) ∙ set_here arr i c (omega arith)))
            | inr e ↦ linked j (ground arith) (omega arith)
          ],
          λ j lt. kept j (omega arith) ∙ set_other arr i j c (omega arith) (ground arith),
        ))

indices-Linked :
    (k i : ℕ) (arr : List ConnContext)
    → i + suc k ≡ length arr
    → ((j : ℕ) → suc j < length arr → (context_at arr j).next_idx ≡ pos (suc j))
    → ((j : ℕ) → suc j ≡ length arr → (context_at arr j).next_idx ≡ negsuc 0)
    → Linked arr (pos i) (indices i (suc k))
unfolding indices
indices-Linked zero i arr e links last = (refl, omega arith, last i (omega arith))
indices-Linked (suc k) i arr e links last = (
  refl,
  omega arith,
  rw (links i (omega arith)) (indices-Linked k (suc i) arr (omega arith) links last),
)

pub data Initial (size : ℕ) (p : ContextPool) : Type 0 where
  initial : p.total ≡ size → p.allocated ≡ 0 → Valid p (indices 0 size) [] → Initial size p

-- `init_pool` of a size that is not 0 does not fault. In the pool that it makes all contexts are unused,
-- and will be handed out in the order of the array.
pub init_pool_links_all :
    (size : ℕ) (arr : List ConnContext)
    → 0 < size
    → length arr ≡ size
    → Returns (Initial size) (init_pool size arr)
unfolding init_pool
init_pool_links_all size arr h e =
    let some_size : ltb 0 size ≡ true = ground arith in
    rw some_size (
      Returns-bind (link_from-Links (size - 1) 0 arr (omega arith)) λ a (long, linked, kept).
        let c = record (context_at a (size - 1)) { next_idx = negsuc 0 } in
        let b_size = length-set a (size - 1) c in
        rw (set_next_idx-eq_some a (size - 1) (negsuc 0) (omega arith)) (
          returns (
            initial refl refl (record {
              size = b_size ∙ long ∙ e;
              linked =
                  subst (λ l. Linked (set a (size - 1) c) (pos 0) (indices 0 l)) (omega arith)
                    (indices-Linked (size - 1) 0 (set a (size - 1) c) (omega (arith, b_size))
                      (λ j lt.
                        ap (λ d. d.next_idx)
                          (set_other a (size - 1) j c (omega arith) (omega (arith, b_size)))
                        ∙ linked j (omega arith) (omega (arith, b_size)))
                      λ j lt.
                        let same : size - 1 ≡ j = omega (arith, b_size) in
                        subst (λ l. (context_at (set a (size - 1) c) l).next_idx ≡ negsuc 0) same
                          (ap (λ d. d.next_idx) (set_here a (size - 1) c (omega arith))));
              once = λ q. rw (count-indices q 0 size) (ground arith);
              allocated = refl;
              unallocated = omega (arith, length-indices 0 size);
              owned = λ q m. absurd (omega arith);
            }))))
