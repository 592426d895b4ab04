-- ===== src/RadixTree/Map.antt =====
-- `radix_tree_insert` and `radix_tree_lookup` as the operations of a map.
use c_model.Common.{
  ℕ, zero, suc, ◌+◌, ◌≤◌, ◌<◌, ◌≡◌, ◌≢◌, refl, ap, sym, subst, ◌∙◌, List, none, some, arith, Bool,
  true, false, ltb, ◌==◌, if◌then◌else◌, Bool-cases, ==-eq, inl, inr,
}
use c_model.Run.{◌>>=◌, Returns, returns, Returns-if, Returns-bind, Returns-map}
use c_model.RadixTree.{
  Head, lookup_from, find_height, shift_of, maxindex, radix_tree_maxindex, radix_tree_lookup,
  radix_tree_insert, radix_tree_extend, insert_below, Inserted, radix_tree_initial,
  radix_tree_head_new, init_from,
}
use c_model.RadixTree.Shape.{Valid}
use c_model.RadixTree.Digits.{Agree, Agree-eq}
use c_model.RadixTree.Insert.{look, Plenty, Descended, insert_from-Descended}
use c_model.RadixTree.Lookup.{table, lookup-look, Valid-maxindex}
use c_model.RadixTree.Grow.{Plenty-le, below_top, Extended, extend-Extended}

-- What an insertion leads to: the index was free and has the item now, and no other index changes; or
-- nothing changes, which is so only if the index was taken or one of `n` allocations failed.
pub data Stored (n : ℕ) (head : Head) (index p : ℕ) (allocs : List Bool) : ℕ × Head → Type 0 where
  stored :
      {g : Head}
      → Valid g
      → radix_tree_lookup head index ≡ some 0
      → ((j : ℕ)
          → radix_tree_lookup g j ≡ (if index == j then some p else radix_tree_lookup head j))
      → Stored n head index p allocs (0, g)
  unchanged :
      {g : Head}
      → Valid g
      → ((j : ℕ) → radix_tree_lookup g j ≡ radix_tree_lookup head j)
      → (Plenty n allocs → radix_tree_lookup head index ≢ some 0)
      → Stored n head index p allocs (1, g)

module _ (head : Head) (index p : ℕ) (allocs : List Bool) (v : Valid head)
    (fits : index ≤ maxindex head.height) (used : 0 < head.height) where
  with_root-Valid :
      (r : Inserted)
      → Descended head.height index p head.rnode allocs r
      → Valid (record head { rnode = r.slot })
  with_root-Valid r d = record {
    table = v.table;
    low = v.low;
    shaped = d.shaped;
    rootless = λ e. absurd (omega arith);
  }

  below-Stored :
      (r : Inserted)
      → Descended head.height index p head.rnode allocs r
      → Stored 3 head index p allocs (r.result, record head { rnode = r.slot })
  below-Stored r d =
      let w = with_root-Valid r d in
      let g : Head = record head { rnode = r.slot } in
      let inside : ltb (maxindex head.height) index ≡ false = ground arith in
      let at_index : radix_tree_lookup head index ≡ look head.height index head.rnode =
        lookup-look head index v ∙ rw inside refl in
      elim d.outcome [
        | inl (ok, free, found, others) ↦
            subst (λ c. Stored 3 head index p allocs (c, g)) (sym ok)
              (stored w (at_index ∙ free) λ j. elim (Bool-cases (ltb (maxindex head.height) j)) [
                | inl e ↦
                    let other : (index == j) ≡ false = ground arith in
                    lookup-look g j w ∙ rw (e, other) (sym (lookup-look head j v ∙ rw e refl))
                | inr e ↦ elim (Bool-cases (index == j)) [
                  | inl f ↦
                      lookup-look g j w
                      ∙ rw (e, f)
                          (subst (λ k. look head.height k r.slot ≡ some p) (==-eq index j f) found)
                  | inr f ↦
                      let apart : ¬ Agree head.height index j = λ a.
                        let same = Agree-eq head.height index j v.low fits (ground arith) a in
                        ground arith in
                      lookup-look g j w
                      ∙ rw (e, f) (others j apart ∙ sym (lookup-look head j v ∙ rw e refl))
                ]
              ])
        | inr (refused, all_same, why) ↦
            subst (λ c. Stored 3 head index p allocs (c, g)) (sym refused)
              (unchanged w
                (λ j.
                  lookup-look g j w
                  ∙ ap (λ o. if ltb (maxindex head.height) j then some 0 else o) (all_same j)
                  ∙ sym (lookup-look head j v))
                λ plenty e. why (Plenty-le head.height 3 allocs v.low plenty) (sym (at_index) ∙ e))
      ]

  insert_below-Stored :
      0 < p → Returns (Stored 3 head index p allocs) (insert_below head index p allocs)
  unfolding insert_below
  insert_below-Stored pos_p =
      Returns-bind
        (insert_from-Descended head.height index p head.rnode allocs v.low pos_p v.shaped)
        λ r d. returns (below-Stored r d)

Extended-Stored :
    (head : Head) (index p : ℕ) (allocs : List Bool) (r : Bool × Head × List Bool) (s : ℕ × Head)
    → Extended head index allocs r
    → r.0 ≡ true
    → Stored 3 r.1 index p r.2 s
    → Stored 6 head index p allocs s
Extended-Stored head index p allocs r s x ok (stored w free found) =
    stored w (sym (x.same index) ∙ free)
      λ j. found j ∙ ap (λ o. if index == j then some p else o) (x.same j)
Extended-Stored head index p allocs r s x ok (unchanged w same why) =
    unchanged w (λ j. same j ∙ x.same j) λ plenty e. why (x.enough 3 plenty).1 (x.same index ∙ e)

fewer_enough :
    (head : Head) (index p : ℕ) (allocs : List Bool) (s : ℕ × Head)
    → Stored 3 head index p allocs s
    → Stored 6 head index p allocs s
fewer_enough head index p allocs s (stored w free found) = stored w free found
fewer_enough head index p allocs s (unchanged w same why) =
    unchanged w same λ plenty. why (Plenty-le 3 6 allocs (omega arith) plenty)

low_of_zero : (h : ℕ) → h ≤ 3 → maxindex h ≡ 0 → h ≤ 2
unfolding maxindex
low_of_zero zero le e = omega arith
low_of_zero (suc zero) le e = omega arith
low_of_zero (suc (suc zero)) le e = omega arith
low_of_zero (suc (suc (suc zero))) le e = absurd (omega arith)
low_of_zero (suc (suc (suc (suc h)))) le e = absurd (omega arith)

used_of_nonzero : (h : ℕ) → maxindex h ≢ 0 → 0 < h
unfolding maxindex
used_of_nonzero zero n = absurd (n refl)
used_of_nonzero (suc h) n = omega arith

-- `radix_tree_insert` of an item that is not NULL, at an index up to 511, into a valid tree does not
-- fault and leaves a valid tree. It returns 0 if the index was free, and then a lookup of the index
-- gives the item, and of any other index what it gave before. Otherwise it returns 1 and every lookup
-- gives what it gave before; this is so only if the index was taken or an allocation failed.
pub insert_stores :
    (head : Head) (index p : ℕ) (allocs : List Bool)
    → Valid head
    → index ≤ 511
    → 0 < p
    → Returns (Stored 6 head index p allocs) (radix_tree_insert head index p allocs)
unfolding radix_tree_insert
insert_stores head index p allocs v top pos_p = rw (Valid-maxindex head v) (
    Returns-if (ltb (maxindex head.height) index)
      (λ e. grow_first (omega (arith, below_top head.height index v.low top (ground arith))))
      λ e.
        Returns-if (maxindex head.height == 0)
          (λ f. grow_first (low_of_zero head.height v.low (ground arith)))
          λ f.
            Returns-map
              (insert_below-Stored head index p allocs v (ground arith)
                (used_of_nonzero head.height (ground arith)) pos_p)
              (λ s d. fewer_enough head index p allocs s d))
  where
    grow_first :
        head.height ≤ 2
        → Returns (Stored 6 head index p allocs) (
            radix_tree_extend head index allocs >>= λ r.
            if r.0 then insert_below r.1 index p r.2 else some (1, r.1))
    grow_first low = Returns-bind (extend-Extended head index allocs v low top) λ r x.
        Returns-if r.0
          (λ e.
            Returns-map (insert_below-Stored r.1 index p r.2 x.valid (x.room e) (x.used e) pos_p)
              (λ s d. Extended-Stored head index p allocs r s x e d))
          λ e.
            returns
              (unchanged x.valid x.same λ plenty free. let ok = (x.enough 3 plenty).0 in absurd cc)

-- A new tree, once `radix_tree_initial` has filled its table, is valid and has no item.
pub initial-Valid :
    Valid (radix_tree_initial radix_tree_head_new)
    × ((j : ℕ) → radix_tree_lookup (radix_tree_initial radix_tree_head_new) j ≡ some 0)
unfolding radix_tree_initial radix_tree_head_new init_from maxindex radix_tree_lookup lookup_from
    shift_of radix_tree_maxindex
initial-Valid = (
  record { table = refl; low = omega arith; shaped = tt; rootless = λ e. refl },
  λ j. ground arith,
)

find_height_over : (k i index : ℕ) → 511 < index → find_height k table index i ≡ none
unfolding find_height
find_height_over zero i index h = refl
find_height_over (suc k) zero index h = rw (find_height_over k 1 index h) (ground arith)
find_height_over (suc k) (suc zero) index h = rw (find_height_over k 2 index h) (ground arith)
find_height_over (suc k) (suc (suc zero)) index h = rw (find_height_over k 3 index h) (ground arith)
find_height_over (suc k) (suc (suc (suc zero))) index h =
    rw (find_height_over k 4 index h) (ground arith)
find_height_over (suc k) (suc (suc (suc (suc i)))) index h = refl

extend_over :
    (head : Head) (index : ℕ) (allocs : List Bool)
    → Valid head
    → 511 < index
    → radix_tree_extend head index allocs ≡ none
unfolding radix_tree_extend
extend_over head index allocs v h =
    let over : find_height 5 head.height_to_maxindex index (head.height + 1) ≡ none =
      ap (λ t. find_height 5 t index (head.height + 1)) v.table
      ∙ find_height_over 5 (head.height + 1) index h in
    rw over refl

maxindex_bound : (h : ℕ) → h ≤ 3 → maxindex h ≤ 511
unfolding maxindex
maxindex_bound zero le = omega arith
maxindex_bound (suc zero) le = omega arith
maxindex_bound (suc (suc zero)) le = omega arith
maxindex_bound (suc (suc (suc zero))) le = omega arith
maxindex_bound (suc (suc (suc (suc h)))) le = absurd (omega arith)

-- An index above 511 makes `radix_tree_insert` read past the end of `height_to_maxindex`.
pub insert-table_overrun :
    (head : Head) (index p : ℕ) (allocs : List Bool)
    → Valid head
    → 511 < index
    → radix_tree_insert head index p allocs ≡ none
unfolding radix_tree_insert
insert-table_overrun head index p allocs v h =
    let above : ltb (maxindex head.height) index ≡ true =
      ground (arith, maxindex_bound head.height v.low) in
    rw (Valid-maxindex head v, above, extend_over head index allocs v h) refl
