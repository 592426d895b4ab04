-- ===== src/TimeHeap/Add.antt =====
-- `add_timer` and `resize`.
use c_model.Common.{
  ℕ, zero, suc, ◌+◌, ◌*◌, ◌≤◌, ◌<◌, ◌≡◌, ◌≢◌, refl, sym, subst, List, none, some, arith, ltb, leb,
  ◌==◌, if◌then◌else◌, ◌&&◌, Bool-cases, inl, inr,
}
use c_model.Array.{
  length, get_or, set, replicate, length-set, length-replicate, get_or-set, get_elem?-get_or,
  store-eq_some, occurs, occurs-ext, occurs-set, occurs-suc,
}
use c_model.Run.{Returns, returns, Returns-bind, Returns-map, Returns-if}
use c_model.TimeHeap.{World, TimeHeap, null, parent, copy_slots, resize, add_timer, new_empty}
use c_model.TimeHeap.Order.{UpInv}
use c_model.TimeHeap.Sift.{IsLive, Loaded, Sifted, key, expire_of, percolate_up_loop-Sifted}
use c_model.TimeHeap.Valid.{IsSized, IsValid, held, live-ne-null}

-- The slots from `i` on, `k` of them, are those of `source`, and the others are those of `target`.
abbrev pub Copied : ℕ → ℕ → List ℕ → List ℕ → List ℕ → Type 0
Copied k i source target b =
    (length b ≡ length target)
    × ((j : ℕ)
        → get_or b j 0
          ≡ (if leb i j && ltb j (i + k) then get_or source j 0 else get_or target j 0))

pub copy_slots-Copied :
    (k i : ℕ) (source target : List ℕ)
    → i + k ≤ length source
    → i + k ≤ length target
    → Returns (Copied k i source target) (copy_slots k i source target)
unfolding copy_slots
copy_slots-Copied zero i source target p q = returns (refl, λ j. ground arith)
copy_slots-Copied (suc k) i source target p q =
    let v = get_or source i 0 in
    rw (get_elem?-get_or source i 0 (omega arith), store-eq_some target i v (omega arith))
      (Returns-map
        (copy_slots-Copied k (suc i) source (set target i v) (omega arith)
          (omega (arith, length-set target i v)))
        λ b (size, at). (
          omega (arith, size, length-set target i v),
          λ j. ground (arith, at j, get_or-set target i j v 0),
        ))

-- The heap `g` is larger than `h` and has the same slots in use.
abbrev pub Resized : TimeHeap → TimeHeap → Type 0
Resized h g =
    IsSized g
    × (g.cur_size ≡ h.cur_size)
    × (h.capacity < g.capacity)
    × ((i : ℕ) → i < h.cur_size → get_or g.array i 0 ≡ get_or h.array i 0)

-- `resize` of a sized heap does not fault. It leads to a sized heap of larger capacity that has the
-- same size and the same pointers in the slots in use.
pub resize-Resized : (h : TimeHeap) → IsSized h → Returns (Resized h) (resize h)
unfolding resize
resize-Resized h z =
    let size = length-replicate (2 * h.capacity) null in
    Returns-bind
      (copy_slots-Copied h.cur_size 0 h.array (replicate (2 * h.capacity) null) (omega (arith, z))
        (omega (arith, z, size)))
      λ b (long, at). returns (
        record {
          allocated = omega (arith, long, size);
          bounded = omega (arith, z);
          room = omega (arith, z);
        },
        refl,
        omega (arith, z),
        λ i p. ground (arith, at i),
      )

-- The heap with room for one more timer that `add_timer` goes on with.
abbrev Roomy : TimeHeap → TimeHeap → Type 0
Roomy h g =
    IsSized g
    × (g.cur_size ≡ h.cur_size)
    × (h.cur_size < g.capacity)
    × ((i : ℕ) → i < h.cur_size → get_or g.array i 0 ≡ get_or h.array i 0)

make_room-Roomy :
    (h : TimeHeap)
    → IsSized h
    → Returns (Roomy h) (if leb h.capacity h.cur_size then resize h else some h)
make_room-Roomy h z =
    Returns-if (leb h.capacity h.cur_size)
      (λ full.
        Returns-map (resize-Resized h z)
          λ g (sized, same, larger, kept). (sized, same, omega (arith, z), kept))
      (λ space. returns (z, refl, ground arith, λ i p. refl))

-- What `add_timer` leads to.
pub record Added (w : World) (timer : ℕ) (w' : World) : Type 0 where
  pub valid : IsValid w'
  pub one_more : (p : ℕ) → held w' p ≡ held w p + (if timer == p then 1 else 0)
  pub same_timers : w'.timers ≡ w.timers
  pub same_calls : w'.calls ≡ w.calls

module _ (w : World) (timer : ℕ) (v : IsValid w) (live : IsLive w.timers timer)
    (new : held w timer ≡ 0) (g : TimeHeap) (r : Roomy w.heap g) where
  roomy-held : (p : ℕ) → occurs g.cur_size g.array p ≡ held w p
  roomy-held p =
      subst (λ k. occurs k g.array p ≡ held w p) (sym r.1)
        (occurs-ext w.heap.cur_size g.array w.heap.array p (omega (arith, r.0, r.2))
          (omega (arith, v.sized)) r.3)

  placed-occurs :
      (p : ℕ)
      → occurs (suc g.cur_size) (set g.array g.cur_size timer) p
        ≡ held w p + (if timer == p then 1 else 0)
  placed-occurs p = omega (
    arith,
    r.0,
    r.2,
    roomy-held p,
    occurs-suc g.cur_size g.array p (omega (arith, r.0, r.1, r.2)),
    occurs-set (suc g.cur_size) g.array g.cur_size timer p (omega arith)
        (omega (arith, r.0, r.1, r.2)),
  )

  placed-Loaded : Loaded w.timers (suc g.cur_size) (set g.array g.cur_size timer)
  placed-Loaded = record {
    fits = omega (arith, r.0, r.1, r.2, length-set g.array g.cur_size timer);
    live = λ p h. elim (Bool-cases (timer == p)) [
      | inl e ↦ subst (IsLive w.timers) (ground arith) live
      | inr e ↦ v.live p (ground (arith, placed-occurs p))
    ];
  }

  hole-UpInv : UpInv (suc g.cur_size) (key w.timers g.array) (expire_of w.timers timer) g.cur_size
  hole-UpInv = record {
    edges = λ c p q s t. ground (arith, r.1, v.ordered c, r.3 c, r.3 (parent c));
    below = λ c p q s. absurd (omega arith);
    bridged = λ c p q s t. absurd (omega arith);
  }

  added :
      (a : List ℕ)
      → Sifted 0 w.timers (suc g.cur_size) timer g.array g.cur_size a
      → Added w timer (record w { heap = record g { array = a; cur_size = suc g.cur_size } })
  added a d =
      let more : (p : ℕ) → occurs (suc g.cur_size) a p ≡ held w p + (if timer == p then 1 else 0) =
        λ p. omega (
          arith,
          d.same p,
          roomy-held p,
          occurs-suc g.cur_size g.array p (omega (arith, r.0, r.1, r.2)),
        ) in
      record {
        valid = record {
          sized = record {
            allocated = omega (arith, d.size, r.0);
            bounded = omega (arith, r.1, r.2);
            room = r.0.room;
          };
          live = λ p h. elim (Bool-cases (timer == p)) [
            | inl e ↦ subst (IsLive w.timers) (ground arith) live
            | inr e ↦ v.live p (ground (arith, more p))
          ];
          once = λ p. ground (arith, more p, v.once p, new);
          ordered = d.heap;
          no_null = v.no_null;
        };
        one_more = more;
        same_timers = refl;
        same_calls = refl;
      }

-- `add_timer` of an allocated timer that the heap does not hold does not fault, enlarging the array
-- if it is full. It leads to a valid heap that holds one timer more, and changes no timer.
pub add_timer_holds :
    (w : World) (timer : ℕ)
    → IsValid w
    → IsLive w.timers timer
    → held w timer ≡ 0
    → Returns (Added w timer) (add_timer w timer)
unfolding add_timer
add_timer_holds w timer v live new =
    Returns-if (timer == null)
      (λ e. absurd (ground (arith, live-ne-null w.timers timer v.no_null live)))
      λ _. Returns-bind (make_room-Roomy w.heap v.sized) λ g r.
        Returns-bind
          (percolate_up_loop-Sifted (suc g.cur_size) w.timers (suc g.cur_size) timer g.array
            g.cur_size (omega arith) (omega arith) (placed-Loaded w timer v live new g r) live
            (hole-UpInv w timer v live new g r))
          λ a d. returns (added w timer v live new g r a d)

-- A heap made with capacity 0 faults when the first timer is added: twice the capacity is 0 still.
pub add_timer-no_capacity :
    (w : World) (timer : ℕ) → timer ≢ null → w.heap ≡ new_empty 0 → add_timer w timer ≡ none
unfolding add_timer new_empty
add_timer-no_capacity w timer h e = rw e (ground arith)
