-- ===== src/TimeHeap/Sift.antt =====
-- `percolate_down` and the loop of `add_timer`: they do not fault, end, keep the timers and order the
-- heap.
use mathlib.Core.Path.{fun_ext}
use c_model.Common.{
  ℕ, zero, suc, ◌+◌, ◌-◌, ◌*◌, ◌≤◌, ◌<◌, ◌≡◌, ◌≢◌, sym, subst, List, Option, none, some, arith, ltb,
  leb, ◌==◌, if◌then◌else◌,
}
use c_model.Array.{
  length, get_or, set, occurs, length-set, get_or-set, get_elem?-get_or, store, store-eq_some,
  occurs-set, occurs-pos,
}
use c_model.Run.{◌>>=◌, Returns, returns, Returns-bind, Returns-map, Returns-if}
use c_model.TimeHeap.{
  HeapTimer, Store, parent, expire_at, slot_expire, pick_child, percolate_down_loop,
  percolate_up_loop,
}
use c_model.TimeHeap.Order.{
  IsHeapFrom, update, DownInv, IsFirstChild, DownInv-sink, DownInv-settle, DownInv-leaf, UpInv,
  UpInv-rise, UpInv-settle,
}

abbrev pub IsLive : Store → ℕ → Type 0
IsLive s p = (t : HeapTimer) × (s p ≡ some t)

abbrev pub expire_or : Option HeapTimer → ℕ
expire_or none = 0
expire_or (some t) = t.expire

abbrev pub expire_of : Store → ℕ → ℕ
expire_of s p = expire_or (s p)

-- The expiry time of the timer in slot `i`.
abbrev pub key : Store → List ℕ → ℕ → ℕ
key s a i = expire_of s (get_or a i 0)

-- The first `n` slots of the array exist and hold pointers to timers.
pub record Loaded (s : Store) (n : ℕ) (a : List ℕ) : Type 0 where
  pub fits : n ≤ length a
  pub live : (p : ℕ) → 0 < occurs n a p → IsLive s p

pub key-set :
    (s : Store) (a : List ℕ) (h p : ℕ)
    → h < length a
    → key s (set a h p) ≡ update (key s a) h (expire_of s p)
key-set s a h p inside = fun_ext λ c. ground (arith, get_or-set a h c p 0 inside)

pub expire_at-eq_some : (s : Store) (p : ℕ) → IsLive s p → expire_at s p ≡ some (expire_of s p)
unfolding expire_at
expire_at-eq_some s p (t, e) = rw (e, ◌>>=◌)

pub slot_expire-eq_some :
    (s : Store) (n : ℕ) (a : List ℕ) (i : ℕ)
    → Loaded s n a
    → i < n
    → slot_expire s a i ≡ some (key s a i)
unfolding slot_expire
slot_expire-eq_some s n a i l h = rw (get_elem?-get_or a i 0 (omega (arith, l.fits))) (
    expire_at-eq_some s (get_or a i 0)
      (l.live (get_or a i 0) (occurs-pos n a i h (omega (arith, l.fits)))))

-- What placing `temp` in place of the timer in slot `hole` leads to.
pub record Sifted (lo : ℕ) (s : Store) (n temp : ℕ) (a : List ℕ) (hole : ℕ) (b : List ℕ)
    : Type 0 where
  pub size : length b ≡ length a
  pub heap : IsHeapFrom lo n (key s b)
  pub same :
      (p : ℕ)
      → occurs n b p + (if get_or a hole 0 == p then 1 else 0)
        ≡ occurs n a p + (if temp == p then 1 else 0)

module _ (s : Store) (n temp : ℕ) (a : List ℕ) (hole : ℕ) (inside : hole < n)
    (fits : n ≤ length a) where
  settle-Sifted :
      (lo : ℕ)
      → IsHeapFrom lo n (update (key s a) hole (expire_of s temp))
      → Returns (Sifted lo s n temp a hole) (store a hole temp)
  settle-Sifted lo h =
      let room : hole < length a = omega arith in
      rw (store-eq_some a hole temp room) (
        returns (record {
          size = length-set a hole temp;
          heap = subst (IsHeapFrom lo n) (sym (key-set s a hole temp room)) h;
          same = λ p. occurs-set n a hole temp p inside room;
        }))

  -- The hole moves from `hole` to `i`.
  move-Sifted :
      (lo i : ℕ)
      → i < n
      → {r : Option (List ℕ)} → Returns (Sifted lo s n temp (set a hole (get_or a i 0)) i) r
      → Returns (Sifted lo s n temp a hole) r
  move-Sifted lo i below run = Returns-map run λ b d. record {
    size = omega (arith, d.size, length-set a hole (get_or a i 0));
    heap = d.heap;
    same = λ p. ground (
      arith,
      d.same p,
      occurs-set n a hole (get_or a i 0) p inside,
      get_or-set a hole i (get_or a i 0) 0,
    );
  }

-- Copying another slot into the hole keeps every slot loaded.
move-Loaded :
    (s : Store) (n : ℕ) (a : List ℕ) (hole i : ℕ)
    → hole < n
    → i < n
    → Loaded s n a
    → Loaded s n (set a hole (get_or a i 0))
move-Loaded s n a hole i inside below l = record {
  fits = omega (arith, length-set a hole (get_or a i 0), l.fits);
  live = λ p h.
      l.live p (
        ground
          (arith, l.fits, occurs-set n a hole (get_or a i 0) p inside, occurs-pos n a i below));
}

pick_child-IsFirstChild :
    (s : Store) (n : ℕ) (a : List ℕ) (h : ℕ)
    → Loaded s n a
    → h * 2 + 1 < n
    → Returns (IsFirstChild n (key s a) h) (pick_child s n a (h * 2 + 1))
unfolding pick_child
pick_child-IsFirstChild s n a h l q =
    Returns-if (ltb (h * 2 + 1) (n - 1))
      (λ two.
        rw
          (
            slot_expire-eq_some s n a (h * 2 + 1 + 1) l (ground arith),
            slot_expire-eq_some s n a (h * 2 + 1) l (ground arith),
          )
          (grind (arith, returns)))
      (λ one.
        returns (record { inside = q; child = ground arith; least = λ c p r t. ground arith }))

pub percolate_down_loop-Sifted :
    (k lo : ℕ) (s : Store) (n temp : ℕ) (a : List ℕ) (hole : ℕ)
    → n - hole < k
    → hole < n
    → Loaded s n a
    → IsLive s temp
    → DownInv lo n (key s a) (expire_of s temp) hole
    → Returns (Sifted lo s n temp a hole) (percolate_down_loop k s n temp a hole)
unfolding percolate_down_loop
percolate_down_loop-Sifted zero lo s n temp a hole f inside l live v = absurd (omega arith)
percolate_down_loop-Sifted (suc k) lo s n temp a hole f inside l live v =
    Returns-if (leb (hole * 2 + 1) (n - 1))
      (λ more. Returns-bind (pick_child-IsFirstChild s n a hole l (ground arith)) λ m first.
        rw (slot_expire-eq_some s n a m l first.inside, expire_at-eq_some s temp live)
          (Returns-if (ltb (key s a m) (expire_of s temp))
            (λ below.
              rw
                (
                  get_elem?-get_or a m 0 (omega (arith, l.fits, first.inside)),
                  store-eq_some a hole (get_or a m 0) (omega (arith, l.fits)),
                )
                (move-Sifted s n temp a hole inside l.fits lo m first.inside (
                  percolate_down_loop-Sifted k lo s n temp (set a hole (get_or a m 0)) m
                    (omega (arith, first.child, first.inside)) first.inside
                    (move-Loaded s n a hole m inside first.inside l) live
                    (rw (key-set s a hole (get_or a m 0) (omega (arith, l.fits))) (
                      DownInv-sink lo n (key s a) (expire_of s temp) hole m v first
                        (ground arith))))))
            (λ settled.
              settle-Sifted s n temp a hole inside l.fits lo
                (DownInv-settle lo n (key s a) (expire_of s temp) hole m v first (ground arith)))))
      (λ leaf.
        settle-Sifted s n temp a hole inside l.fits lo
          (DownInv-leaf lo n (key s a) (expire_of s temp) hole v (ground arith)))

-- A slot with no child takes the timer at once.
pub percolate_down_loop-leaf :
    (k : ℕ) (s : Store) (n temp : ℕ) (a : List ℕ) (hole : ℕ)
    → n ≤ hole * 2 + 1
    → hole < length a
    → percolate_down_loop (suc k) s n temp a hole ≡ some (set a hole temp)
unfolding percolate_down_loop store
percolate_down_loop-leaf k s n temp a hole leaf inside = ground arith

module _ (s : Store) (n temp : ℕ) (a : List ℕ) (hole i : ℕ) (inside : hole < n) (below : i < n)
    (other : i ≢ hole) (l : Loaded s n (set a hole temp)) where
  slot_beside_hole : slot_expire s a i ≡ some (key s a i)
  unfolding slot_expire
  slot_beside_hole =
      let room : n ≤ length a = omega (arith, l.fits, length-set a hole temp) in
      let same : get_or (set a hole temp) i 0 ≡ get_or a i 0 =
        ground (arith, get_or-set a hole i temp 0) in
      rw (get_elem?-get_or a i 0 (omega arith)) (
        expire_at-eq_some s (get_or a i 0) (
          subst (IsLive s) same (
            l.live (get_or (set a hole temp) i 0)
              (occurs-pos n (set a hole temp) i below (omega (arith, l.fits))))))

  -- The hole and the slot that is copied into it change places.
  rise-Loaded : Loaded s n (set (set a hole (get_or a i 0)) i temp)
  rise-Loaded =
      let v = get_or a i 0 in
      let len = length-set a hole v in
      let room : n ≤ length a = omega (arith, l.fits, length-set a hole temp) in
      record {
        fits = omega (arith, len, length-set (set a hole v) i temp);
        live = λ p h. l.live p (
            ground (
              arith,
              len,
              occurs-set n a hole temp p inside,
              occurs-set n a hole v p inside,
              occurs-set n (set a hole v) i temp p below,
              get_or-set a hole i v 0,
            ));
      }

pub percolate_up_loop-Sifted :
    (k : ℕ) (s : Store) (n temp : ℕ) (a : List ℕ) (hole : ℕ)
    → hole < k
    → hole < n
    → Loaded s n (set a hole temp)
    → IsLive s temp
    → UpInv n (key s a) (expire_of s temp) hole
    → Returns (Sifted 0 s n temp a hole) (percolate_up_loop k s temp a hole)
unfolding percolate_up_loop
percolate_up_loop-Sifted zero s n temp a hole f inside l live v = absurd (omega arith)
percolate_up_loop-Sifted (suc k) s n temp a hole f inside l live v =
    let fits : n ≤ length a = omega (arith, l.fits, length-set a hole temp) in
    let up = parent hole in
    let settle = settle-Sifted s n temp a hole inside fits 0 in
    Returns-if (ltb 0 hole)
      (λ pos.
        let apart : up ≢ hole = ground arith in
        let below : up < n = omega arith in
        rw (slot_beside_hole s n temp a hole up inside below apart l, expire_at-eq_some s temp live)
          (Returns-if (leb (key s a up) (expire_of s temp))
            (λ settled.
              settle (UpInv-settle n (key s a) (expire_of s temp) hole v (λ _. ground arith)))
            (λ above.
              rw
                (
                  get_elem?-get_or a up 0 (omega arith),
                  store-eq_some a hole (get_or a up 0) (omega arith),
                )
                (move-Sifted s n temp a hole inside fits 0 up below (
                  percolate_up_loop-Sifted k s n temp (set a hole (get_or a up 0)) up (ground arith)
                    below (rise-Loaded s n temp a hole up inside below apart l) live
                    (rw (key-set s a hole (get_or a up 0) (omega arith)) (
                      UpInv-rise n (key s a) (expire_of s temp) hole v (ground arith) inside
                        (ground arith))))))))
      (λ root.
        settle (UpInv-settle n (key s a) (expire_of s temp) hole v (λ pos. absurd (ground arith))))
