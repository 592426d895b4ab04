-- ===== src/TimeHeap/Pop.antt =====
-- `percolate_down` and `pop_timer`.
use c_model.Common.{
  ℕ, suc, ◌+◌, ◌-◌, ◌≤◌, ◌<◌, ◌≡◌, refl, ◌∙◌, ap, sym, subst, List, some, arith, ltb, ◌==◌,
  if◌then◌else◌, Bool-cases, inl, inr,
}
use c_model.Array.{
  length, get_or, set, length-set, get_or-set, get_elem?-get_or, store-eq_some, occurs, occurs-set,
  occurs-suc, occurs-pos, occurs-none,
}
use c_model.Run.{Returns, returns, Returns-bind, Returns-map, Returns-if}
use c_model.TimeHeap.{
  Store, World, null, remove, parent, empty, percolate_down, percolate_down_loop, pop_timer,
}
use c_model.TimeHeap.Order.{IsHeapFrom, DownInv}
use c_model.TimeHeap.Sift.{
  IsLive, Loaded, key, expire_of, percolate_down_loop-Sifted, percolate_down_loop-leaf,
}
use c_model.TimeHeap.Valid.{IsValid, held, live-ne-null, free-live, first_of_heap, first-IsLive}

-- What `pop_timer` leads to: the first timer is gone from the heap and deleted.
pub record Popped (w w' : World) : Type 0 where
  pub valid : IsValid w'
  pub one_less : (p : ℕ) → held w' p + (if first_of_heap w == p then 1 else 0) ≡ held w p
  pub smaller : suc w'.heap.cur_size ≡ w.heap.cur_size
  pub timers_left : w'.timers ≡ remove w.timers (first_of_heap w)
  pub same_calls : w'.calls ≡ w.calls

module _ (w : World) (v : IsValid w) (n : ℕ) (size : w.heap.cur_size ≡ suc n) where
  abbrev last : ℕ
  last = get_or w.heap.array n 0

  -- the last timer takes the first slot
  abbrev moved : List ℕ
  moved = set w.heap.array 0 last

  abbrev timers_left : Store
  timers_left = remove w.timers (first_of_heap w)

  long : suc n ≤ length w.heap.array
  long = omega (arith, size, v.sized)

  held-split : (p : ℕ) → held w p ≡ occurs n w.heap.array p + (if last == p then 1 else 0)
  held-split p = rw size (occurs-suc n w.heap.array p (omega (arith, long)))

  moved-occurs :
      (p : ℕ) → 0 < n → occurs n moved p + (if first_of_heap w == p then 1 else 0) ≡ held w p
  moved-occurs p pos =
      omega (arith, held-split p, occurs-set n w.heap.array 0 last p pos (omega (arith, long)))

  moved-Loaded : 0 < n → Loaded timers_left n moved
  moved-Loaded pos = record {
    fits = omega (arith, long, length-set w.heap.array 0 last);
    live = λ p h.
        let (t, found) : IsLive w.timers p = v.live p (ground (arith, moved-occurs p pos)) in
        (t, ground (arith, moved-occurs p pos, v.once p));
  }

  -- the slots behind the first hold timers that are not deleted
  moved-key : (c : ℕ) → 0 < c → c < n → key timers_left moved c ≡ key w.timers w.heap.array c
  moved-key c pos below = ground (
    arith,
    long,
    get_or-set w.heap.array 0 c last 0 (omega (arith, long)),
    length-set w.heap.array 0 last,
    occurs-pos n moved c below,
    moved-occurs (first_of_heap w) (omega arith),
    v.once (first_of_heap w),
  )

  moved-DownInv : 0 < n → DownInv 0 n (key timers_left moved) (expire_of timers_left last) 0
  moved-DownInv pos = record {
    edges = λ c p q r s t.
        rw (moved-key c p q, moved-key (parent c) (omega arith) (omega arith))
          (v.ordered c p (omega (arith, size)) r);
    above = λ p. absurd (omega arith);
    bridged = λ c p q r s. absurd (omega arith);
  }

  popped :
      (a : List ℕ)
      → length a ≡ length w.heap.array
      → IsHeapFrom 0 n (key timers_left a)
      → ((p : ℕ) → occurs n a p + (if first_of_heap w == p then 1 else 0) ≡ held w p)
      → Popped w
          (record w { heap = record w.heap { array = a; cur_size = n }; timers = timers_left })
  popped a same_length heap less = record {
    valid = record {
      sized = record {
        allocated = same_length ∙ v.sized.allocated;
        bounded = omega (arith, size, v.sized);
        room = v.sized.room;
      };
      live = λ p h.
          let (t, found) : IsLive w.timers p = v.live p (ground (arith, less p)) in
          (t, ground (arith, less p, v.once p));
      once = λ p. omega (arith, less p, v.once p);
      ordered = heap;
      no_null = ground (arith, v.no_null);
    };
    one_less = less;
    smaller = sym size;
    timers_left = refl;
    same_calls = refl;
  }

  -- what `percolate_down` leaves in place of the array with the last timer moved
  abbrev Sunk : List ℕ → Type 0
  Sunk a =
      Popped w (record w { heap = record w.heap { array = a; cur_size = n }; timers = timers_left })

  sink_one : n ≡ 0 → Sunk (set moved 0 last)
  sink_one e =
      let same : last ≡ first_of_heap w = ap (λ k. get_or w.heap.array k 0) e in
      popped (set moved 0 last) (length-set moved 0 last ∙ length-set w.heap.array 0 last)
        (λ c p q r. absurd (omega arith))
        (λ p. ground (
          arith,
          held-split p,
          occurs-none n w.heap.array p e,
          occurs-none n (set moved 0 last) p e,
        ))

  sink_more :
      0 < n
      → get_or moved 0 0 ≡ last
      → Returns Sunk (percolate_down_loop (suc n) timers_left n last moved 0)
  sink_more pos start =
      let l = moved-Loaded pos in
      let live : IsLive timers_left last =
        subst (IsLive timers_left) start
          (l.live (get_or moved 0 0) (occurs-pos n moved 0 pos (omega (arith, l.fits)))) in
      Returns-map
        (percolate_down_loop-Sifted (suc n) 0 timers_left n last moved 0 (omega arith) pos l live
          (moved-DownInv pos))
        λ a d.
          popped a (d.size ∙ length-set w.heap.array 0 last) d.heap
            (λ p. ground (arith, d.same p, moved-occurs p pos))

  sink_last :
      Returns
        (λ h. Popped w (record w { heap = h; timers = timers_left }))
        (percolate_down timers_left (record w.heap { array = moved; cur_size = n }) 0)
  unfolding percolate_down
  sink_last =
      let len = length-set w.heap.array 0 last in
      let start : get_or moved 0 0 ≡ last =
        ground (arith, long, get_or-set w.heap.array 0 0 last 0) in
      rw (get_elem?-get_or moved 0 0 (omega (arith, long, len)), start)
        (elim (Bool-cases (ltb 0 n)) [
          | inl more ↦ Returns-bind (sink_more (ground arith) start) (λ a p. returns p)
          | inr one ↦
              rw
                (percolate_down_loop-leaf n timers_left n last moved 0 (ground arith)
                  (omega (arith, long, len)))
                (returns (sink_one (ground arith)))
        ])

-- `pop_timer` of a heap that is not empty does not fault. It removes and deletes the first timer, and
-- no other.
pub pop_timer_removes_first :
    (w : World) → IsValid w → 0 < w.heap.cur_size → Returns (Popped w) (pop_timer w)
unfolding pop_timer
pop_timer_removes_first w v h =
    let n = w.heap.cur_size - 1 in
    let size : w.heap.cur_size ≡ suc n = omega arith in
    let first = first_of_heap w in
    let live = first-IsLive w v h in
    Returns-if (empty w.heap) (λ e. absurd (ground arith))
      λ _. rw (get_elem?-get_or w.heap.array 0 0 (omega (arith, v.sized))) (
        Returns-if (first == null)
          (λ e. absurd (ground (arith, live-ne-null w.timers first v.no_null live)))
          λ _.
            rw
              (
                free-live w.timers first v.no_null live,
                get_elem?-get_or w.heap.array n 0 (omega (arith, v.sized)),
                store-eq_some w.heap.array 0 (get_or w.heap.array n 0) (omega (arith, v.sized)),
              )
              (Returns-bind (sink_last w v n size) λ g p. returns p))

-- `pop_timer` of an empty heap changes nothing.
pub pop_timer-empty : (w : World) → w.heap.cur_size ≡ 0 → pop_timer w ≡ some w
unfolding pop_timer
pop_timer-empty w h = ground arith
