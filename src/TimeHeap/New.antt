-- ===== src/TimeHeap/New.antt =====
-- The constructors and the destructor of `time_heap`.
use c_model.Common.{
  ℕ, zero, suc, ◌+◌, ◌-◌, ◌/◌, ◌≤◌, ◌<◌, ◌≡◌, refl, ◌∙◌, sym, subst, List, [], Option, none, some,
  arith, ltb, ◌==◌, if◌then◌else◌, Bool-cases, inl, inr,
}
use c_model.Array.{
  length, get_or, length-replicate, replicate, get_elem?-get_or, occurs, occurs-ext, occurs-suc,
  occurs-pos, occurs-none, occurs-twice, occurs_mono,
}
use c_model.Run.{◌>>=◌, Returns, returns, Returns-bind, Returns-map}
use c_model.TimeHeap.{
  Store, World, TimeHeap, too_small, null, remove, percolate_down, copy_slots, heapify, new_empty,
  new_from, destroy_from, destroy,
}
use c_model.TimeHeap.Order.{IsHeapFrom}
use c_model.TimeHeap.Sift.{IsLive, Loaded, key, percolate_down_loop-Sifted}
use c_model.TimeHeap.Valid.{IsValid, held, free-live}
use c_model.TimeHeap.Add.{copy_slots-Copied}

-- The first constructor makes a valid heap that holds nothing.
pub new_empty-IsValid :
    (cap : ℕ) (s : Store) (calls : List (ℕ × ℕ))
    → 0 < cap
    → s null ≡ none
    → IsValid (record { heap = new_empty cap; timers = s; calls = calls })
unfolding new_empty
new_empty-IsValid cap s calls h e = record {
  sized = record { allocated = length-replicate cap null; bounded = omega arith; room = h };
  live = λ p q. absurd (omega arith);
  once = λ p. omega arith;
  ordered = λ c p q r. absurd (omega arith);
  no_null = e;
}

-- `g` holds the timers of `h`, in order from slot `lo` on.
record Heaped (lo : ℕ) (s : Store) (h g : TimeHeap) : Type 0 where
  size : length g.array ≡ length h.array
  heap : IsHeapFrom lo h.cur_size (key s g.array)
  same : (p : ℕ) → occurs h.cur_size g.array p ≡ occurs h.cur_size h.array p
  same_cur_size : g.cur_size ≡ h.cur_size
  same_capacity : g.capacity ≡ h.capacity

percolate_down-Heaped :
    (s : Store) (i : ℕ) (h : TimeHeap)
    → i < h.cur_size
    → Loaded s h.cur_size h.array
    → IsHeapFrom (suc i) h.cur_size (key s h.array)
    → Returns (Heaped i s h) (percolate_down s h i)
unfolding percolate_down
percolate_down-Heaped s i h below l ordered =
    let a = h.array in
    rw (get_elem?-get_or a i 0 (omega (arith, l.fits))) (
      Returns-bind
        (percolate_down_loop-Sifted (suc h.cur_size) i s h.cur_size (get_or a i 0) a i (omega arith)
          below l (l.live (get_or a i 0) (occurs-pos h.cur_size a i below (omega (arith, l.fits))))
          (record {
            edges = λ c p q r t u. ordered c p q (omega arith);
            above = λ p q. absurd (omega arith);
            bridged = λ c p q r t u. absurd (omega arith);
          }))
        λ b d. returns (record {
          size = d.size;
          heap = d.heap;
          same = λ p. omega (arith, d.same p);
          same_cur_size = refl;
          same_capacity = refl;
        }))

heapify-Heaped :
    (i : ℕ) (s : Store) (h : TimeHeap)
    → i ≤ h.cur_size
    → Loaded s h.cur_size h.array
    → IsHeapFrom i h.cur_size (key s h.array)
    → Returns (Heaped 0 s h) (heapify i s h)
unfolding heapify
heapify-Heaped zero s h b l d =
    returns (record {
      size = refl;
      heap = d;
      same = λ p. refl;
      same_cur_size = refl;
      same_capacity = refl;
    })
heapify-Heaped (suc i) s h b l d = Returns-bind (percolate_down-Heaped s i h b l d) λ g e.
    let n : g.cur_size ≡ h.cur_size = e.same_cur_size in
    let loaded : Loaded s h.cur_size g.array = record {
      fits = omega (arith, e.size, l.fits);
      live = λ p q. l.live p (omega (arith, e.same p));
    } in
    Returns-map
      (heapify-Heaped i s g (omega arith) (subst (λ k. Loaded s k g.array) (sym n) loaded)
        (subst (λ k. IsHeapFrom i k (key s g.array)) (sym n) e.heap))
      λ f c. record {
        size = c.size ∙ e.size;
        heap = subst (λ k. IsHeapFrom 0 k (key s f.array)) n c.heap;
        same = λ p. subst (λ k. occurs k f.array p ≡ occurs k g.array p) n (c.same p) ∙ e.same p;
        same_cur_size = c.same_cur_size ∙ n;
        same_capacity = c.same_capacity ∙ e.same_capacity;
      }

-- The heap holds the first `size` pointers of `init`.
abbrev pub Holding : Store → List ℕ → ℕ → ℕ → TimeHeap → Type 0
Holding s init size capacity h =
    IsValid (record { heap = h; timers = s; calls = [] })
    × ((p : ℕ) → occurs h.cur_size h.array p ≡ occurs size init p)
    × (h.capacity ≡ capacity)

module _ (s : Store) (init : List ℕ) (size capacity : ℕ) (room : 0 < capacity)
    (enough : size ≤ capacity) (given : size ≤ length init) (no_null : s null ≡ none)
    (live : (p : ℕ) → 0 < occurs size init p → IsLive s p)
    (once : (p : ℕ) → occurs size init p ≤ 1) where
  built :
      (a : List ℕ)
      → length a ≡ capacity
      → ((p : ℕ) → occurs size a p ≡ occurs size init p)
      → 0 < size
      → Returns (Holding s init size capacity) (
          heapify
            (suc ((size - 1) / 2))
            s
            (record { array = a; capacity = capacity; cur_size = size }))
  built a len same pos =
      Returns-map
        (heapify-Heaped (suc ((size - 1) / 2)) s
          (record { array = a; capacity = capacity; cur_size = size }) (omega arith)
          (record { fits = omega arith; live = λ p h. live p (omega (arith, same p)) })
          (λ c p q r. absurd (omega arith)))
        λ h d.
          let held : (p : ℕ) → occurs h.cur_size h.array p ≡ occurs size init p = λ p.
            subst (λ k. occurs k h.array p ≡ occurs size a p) (sym d.same_cur_size) (d.same p)
            ∙ same p in
          (
            record {
              sized = record {
                allocated = omega (arith, d.size, d.same_capacity);
                bounded = omega (arith, d.same_cur_size, d.same_capacity);
                room = omega (arith, d.same_capacity);
              };
              live = λ p q. live p (omega (arith, held p));
              once = λ p. omega (arith, held p, once p);
              ordered = subst (λ k. IsHeapFrom 0 k (key s h.array)) (sym d.same_cur_size) d.heap;
              no_null = no_null;
            },
            held,
            d.same_capacity,
          )

  copied :
      0 < size
      → Returns (Holding s init size capacity) (
          copy_slots size 0 init (replicate capacity null) >>= λ a.
          heapify
            (suc ((size - 1) / 2))
            s
            (record { array = a; capacity = capacity; cur_size = size }))
  copied pos =
      let len = length-replicate capacity null in
      Returns-bind
        (copy_slots-Copied size 0 init (replicate capacity null) (omega arith) (omega (arith, len)))
        λ a (long, at).
          built a (long ∙ len)
            (λ p.
              occurs-ext size a init p (omega (arith, long, len)) given
                (λ i below. ground (arith, at i)))
            pos

  empty-Holding : size ≡ 0 → Holding s init size capacity (new_empty capacity)
  unfolding new_empty
  empty-Holding e =
      (new_empty-IsValid capacity s [] room no_null, λ p. sym (occurs-none size init p e), refl)

  -- The second constructor, with a capacity above 0 and given at most `capacity` allocated timers, each
  -- once, makes a valid heap of exactly these timers.
  pub new_from_holds :
      (r : Option TimeHeap) × (new_from s init size capacity ≡ inr r)
      × Returns (Holding s init size capacity) r
  unfolding new_from
  new_from_holds = elim (Bool-cases (size == 0)) [
    | inl nothing ↦
        (some (new_empty capacity), ground arith, returns (empty-Holding (ground arith)))
    | inr something ↦ (
      copy_slots size 0 init (replicate capacity null) >>= λ a.
          heapify (suc ((size - 1) / 2)) s
            (record { array = a; capacity = capacity; cur_size = size }),
      ground arith,
      copied (ground arith),
    )
  ]

-- The second constructor throws if the pointers given do not fit.
new_from-too_small :
    (s : Store) (init : List ℕ) (size capacity : ℕ)
    → capacity < size
    → new_from s init size capacity ≡ inl too_small
unfolding new_from
new_from-too_small s init size capacity h = ground arith

destroy_from_lem :
    (k i n : ℕ) (a : List ℕ) (s : Store)
    → n ≡ i + k
    → n ≤ length a
    → s null ≡ none
    → ((p : ℕ) → occurs n a p ≤ 1)
    → ((j : ℕ) → i ≤ j → j < n → IsLive s (get_or a j 0))
    → Returns
        (λ r. (q : ℕ) → r q ≡ (if ltb (occurs i a q) (occurs n a q) then none else s q))
        (destroy_from k i a s)
unfolding destroy_from
destroy_from_lem zero i n a s sum fits e once live =
    returns (λ q. let same : n ≡ i = omega arith in rw same (ground arith))
destroy_from_lem (suc k) i n a s sum fits e once live =
    let p = get_or a i 0 in
    rw (get_elem?-get_or a i 0 (omega arith), free-live s p e (live i (omega arith) (omega arith)))
      (Returns-map
        (destroy_from_lem k (suc i) n a (remove s p) (omega arith) fits (ground arith) once
          (λ j above below.
            let (t, found) = live j (omega arith) below in
            (t, ground (arith, occurs-twice n a i j (omega arith) below fits, once p))))
        λ r gone q.
          gone q
          ∙ ground (arith, occurs-suc i a q (omega arith), occurs_mono (suc i) n a q (omega arith)))

-- The destructor of a valid heap does not fault. It deletes every timer that the heap holds, each
-- once, and no other.
pub destroy_deletes_held :
    (w : World)
    → IsValid w
    → Returns
        (λ r. (q : ℕ) → r q ≡ (if ltb 0 (held w q) then none else w.timers q))
        (destroy w.heap w.timers)
unfolding destroy
destroy_deletes_held w v =
    destroy_from_lem w.heap.cur_size 0 w.heap.cur_size w.heap.array w.timers (omega arith)
      (omega (arith, v.sized)) v.no_null v.once
      (λ j p q.
        v.live (get_or w.heap.array j 0)
          (occurs-pos w.heap.cur_size w.heap.array j q (omega (arith, v.sized))))
