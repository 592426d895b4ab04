-- ===== src/ContextPool/Alloc.antt =====
-- The operations of the pool of contexts.
use c_model.Common.{
  ℕ, suc, ◌+◌, ◌-◌, ◌<◌, ◌≡◌, ◌≢◌, refl, ap, sym, subst, ◌∙◌, List, ◌∷◌, ◌++◌, arith, true, false,
  ltb, ◌==◌, Bool-cases, if◌then◌else◌, pos, negsuc, inl, inr,
}
use c_model.Array.{
  length, set, count, count-append, length-append, length-set, get_or-set, get_elem?-get_or,
  store-eq_some, member-split,
}
use c_model.Run.{◌>>=◌, Returns, returns, Returns-bind, Returns-map}
use c_model.ContextPool.{ConnContext, ContextPool, to_index, reset, alloc_context, free_context}
use c_model.ContextPool.FreeList.{
  no_context, context_at, Linked, Valid, set_here, set_other, set-Linked, set_next_idx-eq_some,
}

-- What handing out a context leads to: `i` was the first unused one and is used now, it is reset, and
-- no other context changes.
pub record Allocated (p : ContextPool) (i : ℕ) (free used : List ℕ) (r : ℕ × ContextPool)
    : Type 0 where
  pub index : r.0 ≡ i
  pub valid : Valid r.1 free (i ∷ used)
  pub fresh : context_at r.1.arr i ≡ reset (context_at p.arr i)
  pub others : (q : ℕ) → i ≢ q → context_at r.1.arr q ≡ context_at p.arr q

module _ (p : ContextPool) (i : ℕ) (free used : List ℕ) (v : Valid p (i ∷ free) used) where
  inside : i < length p.arr
  inside = v.linked.1

  at_context :
      (c : ConnContext) (q : ℕ)
      → context_at (set p.arr i c) q ≡ (if i == q then c else context_at p.arr q)
  at_context c q = get_or-set p.arr i q c no_context inside

  allocated-Valid :
      Valid
        (record p {
          allocated = suc p.allocated;
          next_idx = (context_at p.arr i).next_idx;
          arr = set p.arr i (reset (context_at p.arr i));
        })
        free
        (i ∷ used)
  unfolding reset
  allocated-Valid =
      let alone : count i free ≡ 0 = ground (arith, v.once i) in
      record {
        size = length-set p.arr i (reset (context_at p.arr i)) ∙ v.size;
        linked =
            set-Linked p.arr i (reset (context_at p.arr i)) (context_at p.arr i).next_idx free
              inside alone v.linked.2;
        once = λ q. omega (arith, v.once q);
        allocated = omega (arith, v.allocated);
        unallocated = omega (arith, v.unallocated);
        owned = λ q m.
            ap (λ c. c.pool) (at_context (reset (context_at p.arr i)) q)
            ∙ elim (Bool-cases (i == q)) [
              | inl e ↦ rw e refl
              | inr e ↦ rw e (v.owned q (ground arith))
            ];
      }

  -- `alloc_context` of a pool that has an unused context returns the first of them, which was not in
  -- use, with its descriptors and flags reset. The pool stays valid and no other context changes.
  pub alloc_context_takes_first : Returns (Allocated p i free used) (alloc_context p)
  unfolding alloc_context to_index
  alloc_context_takes_first =
      let room : ltb p.allocated p.total ≡ true = ground (arith, v.unallocated) in
      rw
        (
          room,
          v.linked.0,
          get_elem?-get_or p.arr i no_context inside,
          store-eq_some p.arr i (reset (context_at p.arr i)) inside,
        )
        (returns (record {
          index = refl;
          valid = allocated-Valid;
          fresh = set_here p.arr i (reset (context_at p.arr i)) inside;
          others = λ q. set_other p.arr i q (reset (context_at p.arr i)) inside;
        }))

-- What returning context `i` leads to: it is unused and will be handed out next, and all other
-- contexts, used ones and unused ones, are as they were.
pub record Freed (p : ContextPool) (i : ℕ) (free used : List ℕ) (p' : ContextPool) : Type 0 where
  pub left : List ℕ
  pub valid : Valid p' (i ∷ free) left
  pub still_used : (q : ℕ) → i ≢ q → count q left ≡ count q used
  pub same : context_at p'.arr i ≡ record (context_at p.arr i) { next_idx = p.next_idx }
  pub others : (q : ℕ) → i ≢ q → context_at p'.arr q ≡ context_at p.arr q

module _ (p : ContextPool) (i : ℕ) (free used : List ℕ) (v : Valid p free used)
    (m : 0 < count i used) where
  used_inside : i < length p.arr
  used_inside = ground (arith, v.size, v.once i)

  returned : ConnContext
  returned = record (context_at p.arr i) { next_idx = p.next_idx }

  at_returned :
      (q : ℕ)
      → context_at (set p.arr i returned) q ≡ (if i == q then returned else context_at p.arr q)
  at_returned q = get_or-set p.arr i q returned no_context used_inside

  freed-Valid :
      (xs ys : List ℕ)
      → used ≡ xs ++ i ∷ ys
      → Valid
          (record p { allocated = p.allocated - 1; next_idx = pos i; arr = set p.arr i returned })
          (i ∷ free)
          (xs ++ ys)
  unfolding returned
  freed-Valid xs ys e =
      let counted : (q : ℕ) → count q used ≡ (if i == q then 1 else 0) + count q (xs ++ ys) =
        λ q. ap (count q) e ∙ count-append q xs (i ∷ ys) ∙ omega (arith, count-append q xs ys) in
      let long : length used ≡ suc (length (xs ++ ys)) =
        ap length e ∙ length-append xs (i ∷ ys) ∙ omega (arith, length-append xs ys) in
      let here : context_at (set p.arr i returned) i ≡ returned =
        set_here p.arr i returned used_inside in
      record {
        size = length-set p.arr i returned ∙ v.size;
        linked = (
          refl,
          omega (arith, used_inside, length-set p.arr i returned),
          subst (λ n. Linked (set p.arr i returned) n free) (sym (ap (λ c. c.next_idx) here))
              (set-Linked p.arr i returned p.next_idx free used_inside (ground (arith, v.once i))
                v.linked),
        );
        once = λ q. ground (arith, v.once q, counted q);
        allocated = omega (arith, v.allocated, long);
        unallocated = omega (arith, v.unallocated, v.allocated, long);
        owned = λ q n. ap (λ c. c.pool) (at_returned q) ∙ elim (Bool-cases (i == q)) [
          | inl same ↦ rw same (v.owned i m)
          | inr other ↦ rw other (v.owned q (ground (arith, counted q)))
        ];
      }

  -- `free_context` of a context that is in use does not fault. The context is the next one to be handed
  -- out, the pool stays valid, and no other context changes.
  pub free_context_gives_back : Returns (Freed p i free used) (free_context p i)
  unfolding free_context returned
  free_context_gives_back =
      let (xs, ys, e) = member-split i used m in
      let long : length used ≡ suc (length xs + length ys) =
        ap length e ∙ length-append xs (i ∷ ys) ∙ omega arith in
      let any : ltb 0 p.allocated ≡ true = ground (arith, v.allocated, long) in
      rw
        (
          get_elem?-get_or p.arr i no_context used_inside,
          v.owned i m,
          any,
          set_next_idx-eq_some p.arr i p.next_idx used_inside,
        )
        (returns (record {
          left = xs ++ ys;
          valid = freed-Valid xs ys e;
          still_used = λ q ne.
              let other : (i == q) ≡ false = ground arith in
              sym (
                ap (count q) e
                ∙ count-append q xs (i ∷ ys)
                ∙ rw other (omega (arith, count-append q xs ys)));
          same = set_here p.arr i returned used_inside;
          others = λ q. set_other p.arr i q returned used_inside;
        }))

  -- In a valid pool, a context in use that is given back is the one that the next `alloc_context` hands
  -- out: neither call faults, the two descriptors of the context are 0 then, it is marked as not added to
  -- epoll and as one of the pool, with no next one, its other fields are as before, and so are all other
  -- contexts.
  pub alloc_context-free_context :
      Returns
        (λ r.
          (r.0 ≡ i)
          × (context_at r.1.arr i ≡ record (context_at p.arr i) {
            fd = 0;
            fd_added = false;
            end_fd = 0;
            end_fd_added = false;
            next_idx = negsuc 0;
            pool = true;
          })
          × ((q : ℕ) → i ≢ q → context_at r.1.arr q ≡ context_at p.arr q))
        (free_context p i >>= alloc_context)
  unfolding reset
  alloc_context-free_context = Returns-bind free_context_gives_back λ u f.
      Returns-map (alloc_context_takes_first u i free f.left f.valid)
        λ r a. (a.index, a.fresh ∙ ap reset f.same, λ q ne. a.others q ne ∙ f.others q ne)
