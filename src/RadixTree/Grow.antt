-- ===== src/RadixTree/Grow.antt =====
-- `radix_tree_extend`: a tree with more levels has the same items.
use c_model.Common.{
  ℕ, zero, suc, ◌+◌, ◌-◌, ◌≤◌, ◌<◌, ◌≡◌, refl, sym, subst, ◌∙◌, List, [], ◌∷◌, some, arith, Bool,
  true, false, ltb, ◌==◌, if◌then◌else◌, Bool-cases, inl, inr,
}
use c_model.Run.{Returns, returns, Returns-if, Returns-bind, Returns-map}
use c_model.RadixTree.{
  Slot, empty, item, node, set_slot, no_slots, is_empty, Head, offset, shift_of, maxindex, map_size,
  radix_tree_lookup, find_height, grow, radix_tree_extend, node_alloc,
}
use c_model.RadixTree.Shape.{
  IsShaped, empty-IsShaped, Valid, filled_slot, filled-set_slot, filled-no_slots,
}
use c_model.RadixTree.Insert.{look, look-node, look-empty, Plenty, Plenty-rest, Plenty-ok}
use c_model.RadixTree.Lookup.{table, table-maxindex, lookup-look}

offset_low : (h j : ℕ) → h ≤ 2 → j ≤ maxindex h → offset j (shift_of (suc h)) ≡ 0
unfolding maxindex offset shift_of
offset_low zero j le h = omega arith
offset_low (suc zero) j le h = omega arith
offset_low (suc (suc zero)) j le h = omega arith
offset_low (suc (suc (suc k))) j le h = absurd (omega arith)

offset_high :
    (h j : ℕ) → h ≤ 2 → maxindex h < j → j ≤ maxindex (suc h) → 0 < offset j (shift_of (suc h))
unfolding maxindex offset shift_of
offset_high zero j le h g = omega arith
offset_high (suc zero) j le h g = omega arith
offset_high (suc (suc zero)) j le h g = omega arith
offset_high (suc (suc (suc k))) j le h g = absurd (omega arith)

pub maxindex_mono : (h : ℕ) → h ≤ 2 → maxindex h < maxindex (suc h)
unfolding maxindex
maxindex_mono zero le = omega arith
maxindex_mono (suc zero) le = omega arith
maxindex_mono (suc (suc zero)) le = omega arith
maxindex_mono (suc (suc (suc k))) le = absurd (omega arith)

-- The same tree with a level on top.
abbrev taller : Head → Head
taller head = record head {
  rnode = node 1 (set_slot no_slots 0 head.rnode);
  height = suc head.height;
}

filled_one : (s : Slot) → is_empty s ≡ false → filled_slot s ≡ 1
filled_one s e = rw e refl

taller-Valid :
    (head : Head) → Valid head → head.height ≤ 2 → is_empty head.rnode ≡ false → Valid (taller head)
taller-Valid head v le used = record {
  table = v.table;
  low = omega arith;
  shaped = (
    omega (
      arith,
      filled_one head.rnode used,
      filled-set_slot map_size no_slots 0 head.rnode (omega arith),
      filled-no_slots map_size,
    ),
    children,
  );
  rootless = λ e. absurd (omega arith);
}
  where
    children : (i : ℕ) → i < map_size → IsShaped head.height (set_slot no_slots 0 head.rnode i)
    children i lt = elim (Bool-cases (0 == i)) [
      | inl e ↦ rw e v.shaped
      | inr e ↦ rw e (empty-IsShaped head.height)
    ]

taller-lookup :
    (head : Head) (j : ℕ)
    → Valid head
    → head.height ≤ 2
    → is_empty head.rnode ≡ false
    → radix_tree_lookup (taller head) j ≡ radix_tree_lookup head j
taller-lookup head j v le used =
    let h = head.height in
    let o = offset j (shift_of (suc h)) in
    let more = maxindex_mono h le in
    let down : look (suc h) j (taller head).rnode ≡ look h j (set_slot no_slots 0 head.rnode o) =
      look-node h j 1 (set_slot no_slots 0 head.rnode) (omega arith) in
    rw (lookup-look (taller head) j (taller-Valid head v le used), lookup-look head j v)
      (elim (Bool-cases (ltb (maxindex (suc h)) j)) [
        | inl e ↦ let out : ltb (maxindex h) j ≡ true = ground (arith, more) in rw (e, out) refl
        | inr e ↦ elim (Bool-cases (ltb (maxindex h) j)) [
          | inl f ↦
              let other : (0 == o) ≡ false =
                ground (arith, offset_high h j le (ground arith) (ground arith)) in
              rw (e, f, down, other) (look-empty h j)
          | inr f ↦
              let zero_digit : (0 == o) ≡ true = ground (arith, offset_low h j le (ground arith)) in
              rw (e, f, down, zero_digit) refl
        ]
      ])

-- What growing leads to: the same items under the same indices, and `rounds` more levels if the function
-- came to its end, as it does if so many allocations succeed.
record GrownBy (head : Head) (rounds : ℕ) (allocs : List Bool) (r : Bool × Head × List Bool)
    : Type 0 where
  valid : Valid r.1
  same : (j : ℕ) → radix_tree_lookup r.1 j ≡ radix_tree_lookup head j
  reached : r.0 ≡ true → r.1.height ≡ rounds + head.height
  enough : (n : ℕ) → Plenty (rounds + n) allocs → (r.0 ≡ true) × Plenty n r.2

grow-GrownBy :
    (rounds : ℕ) (head : Head) (allocs : List Bool)
    → Valid head
    → is_empty head.rnode ≡ false
    → rounds + head.height ≤ 3
    → GrownBy head rounds allocs (grow rounds head allocs)
unfolding grow
grow-GrownBy zero head allocs v used le = record {
  valid = v;
  same = λ j. refl;
  reached = λ e. omega arith;
  enough = λ n plenty. (refl, subst (λ k. Plenty k allocs) (omega arith) plenty);
}
grow-GrownBy (suc rounds) head allocs v used le =
    let w = taller-Valid head v (omega arith) used in
    let g = grow-GrownBy rounds (taller head) (node_alloc allocs).1 w refl (omega arith) in
    let more : (n : ℕ) → suc rounds + n ≡ suc (rounds + n) = λ n. omega arith in
    elim (Bool-cases (node_alloc allocs).0) [
      | inl e ↦ rw e (record {
        valid = g.valid;
        same = λ j. g.same j ∙ taller-lookup head j v (omega arith) used;
        reached = λ ok. omega (arith, g.reached ok);
        enough = λ n plenty.
            g.enough n
              (Plenty-rest (rounds + n) allocs (subst (λ k. Plenty k allocs) (more n) plenty));
      })
      | inr e ↦ rw e (record {
        valid = v;
        same = λ j. refl;
        reached = λ ok. absurd cc;
        enough = λ n plenty. absurd (
            let ok = Plenty-ok (rounds + n) allocs (subst (λ k. Plenty k allocs) (more n) plenty) in
            cc);
      })
    ]

pub below_top : (i index : ℕ) → i ≤ 3 → index ≤ 511 → maxindex i < index → suc i ≤ 3
unfolding maxindex
below_top zero index le top h = omega arith
below_top (suc zero) index le top h = omega arith
below_top (suc (suc zero)) index le top h = omega arith
below_top (suc (suc (suc zero))) index le top h = absurd (omega arith)
below_top (suc (suc (suc (suc i)))) index le top h = absurd (omega arith)

find_height_lem :
    (k i index : ℕ)
    → i ≤ 3
    → 3 < i + k
    → index ≤ 511
    → Returns (λ h. (i ≤ h) × (h ≤ 3) × (index ≤ maxindex h)) (find_height k table index i)
unfolding find_height
find_height_lem zero i index le fuel top = absurd (omega arith)
find_height_lem (suc k) i index le fuel top = rw (table-maxindex i le) (
    Returns-if (ltb (maxindex i) index)
      (λ e.
        Returns-map
          (find_height_lem k (suc i) index (below_top i index le top (ground arith)) (omega arith)
            top)
          λ h (a, b, c). (omega arith, b, c))
      λ e. returns (omega arith, le, ground arith))

pub Plenty-le : (m n : ℕ) (allocs : List Bool) → m ≤ n → Plenty n allocs → Plenty m allocs
Plenty-le zero n allocs h plenty = tt
Plenty-le (suc m) zero allocs h plenty = absurd (omega arith)
Plenty-le (suc m) (suc n) [] h plenty = absurd plenty
Plenty-le (suc m) (suc n) (ok ∷ allocs) h (e, plenty) =
    (e, Plenty-le m n allocs (omega arith) plenty)

-- What `radix_tree_extend` leads to: the same items under the same indices, and room for `index` if it
-- came to its end, as it does if three allocations succeed.
pub record Extended (head : Head) (index : ℕ) (allocs : List Bool) (r : Bool × Head × List Bool)
    : Type 0 where
  pub valid : Valid r.1
  pub same : (j : ℕ) → radix_tree_lookup r.1 j ≡ radix_tree_lookup head j
  pub room : r.0 ≡ true → index ≤ maxindex r.1.height
  pub used : r.0 ≡ true → 0 < r.1.height
  pub enough : (n : ℕ) → Plenty (3 + n) allocs → (r.0 ≡ true) × Plenty n r.2

grow-Extended :
    (head : Head) (index height : ℕ) (allocs : List Bool)
    → Valid head
    → is_empty head.rnode ≡ false
    → suc head.height ≤ height
    → height ≤ 3
    → index ≤ maxindex height
    → Extended head index allocs (grow (height - head.height) head allocs)
grow-Extended head index height allocs v used above below fits =
    let g = grow-GrownBy (height - head.height) head allocs v used (omega arith) in
    let whole : height - head.height + head.height ≡ height = omega arith in
    record {
      valid = g.valid;
      same = g.same;
      room = λ e. subst (λ h. index ≤ maxindex h) (sym (g.reached e ∙ whole)) fits;
      used = λ e. omega (arith, g.reached e);
      enough = λ n plenty.
          g.enough n (Plenty-le (height - head.height + n) (3 + n) allocs (omega arith) plenty);
    }

-- A tree without a root may have any number of levels.
raised-Extended :
    (head : Head) (index height : ℕ) (allocs : List Bool)
    → Valid head
    → head.rnode ≡ empty
    → suc head.height ≤ height
    → height ≤ 3
    → index ≤ maxindex height
    → Extended head index allocs (true, record head { height = height }, allocs)
raised-Extended head index height allocs v none_yet above below fits =
    let w : Valid (record head { height = height }) = record {
      table = v.table;
      low = below;
      shaped = rw none_yet (empty-IsShaped height);
      rootless = λ e. none_yet;
    } in
    record {
      valid = w;
      same = λ j.
          lookup-look (record head { height = height }) j w
          ∙ no_item height j
          ∙ sym (lookup-look head j v ∙ no_item head.height j);
      room = λ e. fits;
      used = λ e. omega arith;
      enough = λ n plenty. (refl, Plenty-le n (3 + n) allocs (omega arith) plenty);
    }
  where
    no_item : (h j : ℕ) → (if ltb (maxindex h) j then some 0 else look h j head.rnode) ≡ some 0
    no_item h j = elim (Bool-cases (ltb (maxindex h) j)) [
      | inl e ↦ rw e refl
      | inr e ↦ rw (e, none_yet) (look-empty h j)
    ]

empty-is_empty : (s : Slot) → is_empty s ≡ true → s ≡ empty
empty-is_empty empty e = refl
empty-is_empty (item p) e = absurd cc
empty-is_empty (node count slots) e = absurd cc

-- `radix_tree_extend` of a valid tree of at most two levels does not fault, for an index up to 511.
pub extend-Extended :
    (head : Head) (index : ℕ) (allocs : List Bool)
    → Valid head
    → head.height ≤ 2
    → index ≤ 511
    → Returns (Extended head index allocs) (radix_tree_extend head index allocs)
unfolding radix_tree_extend
extend-Extended head index allocs v le top =
    let found =
      subst
        (λ t.
          Returns (λ h. (head.height + 1 ≤ h) × (h ≤ 3) × (index ≤ maxindex h))
            (find_height 5 t index (head.height + 1)))
        (sym v.table) (find_height_lem 5 (head.height + 1) index (omega arith) (omega arith) top) in
    Returns-bind found λ height (above, below, fits). elim (Bool-cases (is_empty head.rnode)) [
      | inl e ↦ rw e (
          returns (
            raised-Extended head index height allocs v (empty-is_empty head.rnode e) (omega arith)
              below fits))
      | inr e ↦ rw e (returns (grow-Extended head index height allocs v e (omega arith) below fits))
    ]
