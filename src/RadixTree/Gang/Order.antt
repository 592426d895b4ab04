-- ===== src/RadixTree/Gang/Order.antt =====
-- `radix_tree_gang_lookup` places the items in the order of their indices.
use c_model.Common.{
  ℕ, zero, suc, ◌+◌, ◌-◌, ◌/◌, ◌%◌, ◌≤◌, ◌<◌, ◌≡◌, ◌≢◌, refl, ap, sym, ◌∙◌, List, [], ◌∷◌, ◌++◌,
  none, some, arith, true, false, ltb, ◌==◌, if◌then◌else◌, Bool-cases, Option-cases, inl, inr,
  append-nil,
}
use c_model.Array.{length}
use c_model.Run.{◌>>=◌, Returns, returns, Returns-if, Returns-bind}
use c_model.RadixTree.{
  Slot, empty, item, node, is_empty, Head, offset, shift_of, lookup_from, maxindex, map_size,
  pointer_of, lookup_leaf, gang_from, radix_tree_lookup, radix_tree_gang_lookup,
}
use c_model.RadixTree.Shape.{Valid}
use c_model.RadixTree.Insert.{look, look-node}
use c_model.RadixTree.Lookup.{lookup-look, lookup_total}
use c_model.RadixTree.Gang.{
  leaf_of, scan_from, items_from, take, take-nil, items_from_zero, items_from-none, items_from-some,
  or_zero, Scanned, scan_leaf-Scanned, head-lookup_leaf, gang_lookup-gang_from, used_height,
}

same_path :
    (h j l : ℕ)
    → h ≤ 1
    → j / 8 ≡ l / 8
    → offset j (shift_of (suc (suc h))) ≡ offset l (shift_of (suc (suc h)))
unfolding offset shift_of
same_path zero j l le e = omega arith
same_path (suc zero) j l le e = omega arith
same_path (suc (suc h)) j l le e = absurd (omega arith)

last_digit : (j : ℕ) → offset j (shift_of 1) ≡ j % map_size
unfolding offset shift_of
last_digit j = omega arith

look_leaf : (j : ℕ) (s : Slot) → look 0 j s ≡ pointer_of s
unfolding lookup_from pointer_of
look_leaf j empty = refl
look_leaf j (item p) = refl
look_leaf j (node count slots) = refl

-- All indices of a leaf are found in its slots.
leaf_of-look :
    (h j l : ℕ) (s : Slot) (slots : ℕ → Slot)
    → h ≤ 3
    → j / 8 ≡ l / 8
    → leaf_of h j s ≡ some slots
    → look h l s ≡ pointer_of (slots (l % map_size))
unfolding leaf_of
leaf_of-look zero j l s slots le e f = absurd cc
leaf_of-look (suc h) j l empty slots le e f = absurd cc
leaf_of-look (suc h) j l (item p) slots le e f = absurd cc
leaf_of-look (suc zero) j l (node count below) slots le e f =
    let same : below ≡ slots = cc in
    look-node 0 l count below (omega arith)
    ∙ look_leaf l (below (offset l (shift_of 1)))
    ∙ ap (λ i. pointer_of (below i)) (last_digit l)
    ∙ ap (λ g. pointer_of (g (l % map_size))) same
leaf_of-look (suc (suc h)) j l (node count below) slots le e f =
    look-node (suc h) l count below (omega arith)
    ∙ ap (λ i. look (suc h) l (below i)) (sym (same_path h j l (omega arith) e))
    ∙ leaf_of-look (suc h) j l (below (offset j (shift_of (suc (suc h))))) slots (omega arith) e f

items_from-add :
    (at : ℕ → ℕ) (a b j : ℕ)
    → items_from at (a + b) j ≡ items_from at a j ++ items_from at b (j + a)
items_from-add at zero b j =
    let here : j ≡ j + 0 = omega arith in
    let only_b : 0 + b ≡ b = omega arith in
    ap (λ n. items_from at n j) only_b
    ∙ ap (items_from at b) here
    ∙ ap (λ xs. xs ++ items_from at b (j + 0)) (sym (items_from_zero at j))
items_from-add at (suc a) b j =
    let next : suc j + a ≡ j + suc a = omega arith in
    let one_more : suc a + b ≡ suc (a + b) = omega arith in
    ap (λ n. items_from at n j) one_more ∙ elim (Bool-cases (at j == 0)) [
      | inl z ↦
          items_from-none at (a + b) j z
          ∙ items_from-add at a b (suc j)
          ∙ rw (items_from-none at a j z, next) refl
      | inr nz ↦
          items_from-some at (a + b) j nz
          ∙ ap (◌∷◌ (at j)) (items_from-add at a b (suc j))
          ∙ rw (items_from-some at a j nz, next) refl
    ]

take-append : (n : ℕ) (xs ys : List ℕ) → take n (xs ++ ys) ≡ take n xs ++ take (n - length xs) ys
unfolding take
take-append zero xs ys = let none_left : 0 - length xs ≡ 0 = omega arith in rw none_left refl
take-append (suc n) [] ys = let all : suc n ≡ suc n - 0 = omega arith in ap (λ k. take k ys) all
take-append (suc n) (x ∷ xs) ys =
    let fewer : suc n - suc (length xs) ≡ n - length xs = omega arith in
    ap (◌∷◌ x) (take-append n xs ys) ∙ rw fewer refl

take-whole : (n : ℕ) (xs : List ℕ) → length xs ≤ n → take n xs ≡ xs
unfolding take
take-whole zero [] h = refl
take-whole zero (x ∷ xs) h = absurd (omega arith)
take-whole (suc n) [] h = refl
take-whole (suc n) (x ∷ xs) h = ap (◌∷◌ x) (take-whole n xs (omega arith))

-- The leaves lie one after another.
leaf_end :
    (h j : ℕ) → h ≢ 0 → h ≤ 3 → j ≤ maxindex h → j + (map_size - j % map_size) ≤ suc (maxindex h)
unfolding maxindex
leaf_end zero j n le b = absurd (n refl)
leaf_end (suc zero) j n le b = omega arith
leaf_end (suc (suc zero)) j n le b = omega arith
leaf_end (suc (suc (suc zero))) j n le b = omega arith
leaf_end (suc (suc (suc (suc h)))) j n le b = absurd (omega arith)

whole : (h : ℕ) → h ≢ 0 → h ≤ 3 → suc (maxindex h) % map_size ≡ 0
unfolding maxindex
whole zero n le = absurd (n refl)
whole (suc zero) n le = omega arith
whole (suc (suc zero)) n le = omega arith
whole (suc (suc (suc zero))) n le = omega arith
whole (suc (suc (suc (suc h)))) n le = absurd (omega arith)

take_none : (xs : List ℕ) → take 0 xs ≡ []
unfolding take
take_none xs = refl

-- The item under an index, or 0.
abbrev pub item_at : Head → ℕ → ℕ
item_at head j = or_zero (radix_tree_lookup head j)

item_at-lookup :
    (head : Head) (j : ℕ) → Valid head → radix_tree_lookup head j ≡ some (item_at head j)
item_at-lookup head j v =
    let r = lookup_total head j v in r.ends ∙ sym (ap (λ o. some (or_zero o)) r.ends)

-- Every index from `first` to the largest one has a leaf.
abbrev pub HasLeaves : Head → ℕ → Type 0
HasLeaves head first =
    (j : ℕ) → first ≤ j → j ≤ maxindex head.height → leaf_of head.height j head.rnode ≢ none

-- What a walk from index `cur` on finds.
abbrev pub items_to_end : Head → ℕ → List ℕ
items_to_end head cur = items_from (item_at head) (suc (maxindex head.height) - cur) cur

module _ (head : Head) (v : Valid head) (used : is_empty head.rnode ≡ false) where
  leaf-items :
      (cur : ℕ) (slots : ℕ → Slot)
      → cur ≤ maxindex head.height
      → leaf_of head.height cur head.rnode ≡ some slots
      → (t : ℕ) → t < map_size - cur % map_size
      → pointer_of (slots (cur % map_size + t)) ≡ some (item_at head (cur + t))
  leaf-items cur slots inside found t lt =
      let in_leaf : (cur + t) % map_size ≡ cur % map_size + t = omega arith in
      let end = leaf_end head.height cur (used_height head v used) v.low inside in
      let in_range : ltb (maxindex head.height) (cur + t) ≡ false = ground arith in
      ap (λ i. pointer_of (slots i)) (sym in_leaf)
      ∙ sym (leaf_of-look head.height cur (cur + t) head.rnode slots v.low (omega arith) found)
      ∙ sym (lookup-look head (cur + t) v ∙ rw in_range refl)
      ∙ item_at-lookup head (cur + t) v

  -- One round finds what the leaf of the current index has.
  round-Scanned :
      (cur left : ℕ)
      → cur ≤ maxindex head.height
      → leaf_of head.height cur head.rnode ≢ none
      → Returns
          (Scanned
            (items_from (item_at head) (map_size - cur % map_size) cur)
            (cur + (map_size - cur % map_size))
            (suc left))
          (lookup_leaf head.height (shift_of head.height) cur head.rnode (suc left))
  unfolding scan_from
  round-Scanned cur left inside there = elim (Option-cases (leaf_of head.height cur head.rnode)) [
    | inl gone ↦ absurd (there gone)
    | inr (slots, found) ↦
        rw (head-lookup_leaf head cur (suc left) v used, found)
          (scan_leaf-Scanned (item_at head) slots (map_size - cur % map_size) (cur % map_size) cur 0
            left (suc left) (omega arith) (leaf-items cur slots inside found))
  ]

  split_to_end :
      (cur rounds : ℕ)
      → cur + rounds ≤ suc (maxindex head.height)
      → items_to_end head cur
        ≡ items_from (item_at head) rounds cur ++ items_to_end head (cur + rounds)
  split_to_end cur rounds le =
      let whole : suc (maxindex head.height) - cur
          ≡ rounds + (suc (maxindex head.height) - (cur + rounds)) =
        omega arith in
      ap (λ n. items_from (item_at head) n cur) whole
      ∙ items_from-add (item_at head) rounds (suc (maxindex head.height) - (cur + rounds)) cur

  next_round :
      (k cur l : ℕ) (r : List ℕ × ℕ)
      → cur ≤ maxindex head.height
      → Scanned
          (items_from (item_at head) (map_size - cur % map_size) cur)
          (cur + (map_size - cur % map_size))
          (suc l)
          r
      → ((left : ℕ)
          → Returns
              (λ rs. rs ≡ take left (items_to_end head (cur + (map_size - cur % map_size))))
              (gang_from k head (maxindex head.height) (cur + (map_size - cur % map_size)) left))
      → Returns
          (λ rs. rs ≡ take (suc l) (items_to_end head cur))
          (if r.1 == 0
            then some r.0
            else gang_from k head (maxindex head.height) r.1 (suc l - length r.0) >>= λ rest.
                some (r.0 ++ rest))
  next_round k cur l r inside (found, go_on) rest =
      let here = items_from (item_at head) (map_size - cur % map_size) cur in
      let beyond = items_to_end head (cur + (map_size - cur % map_size)) in
      let end = leaf_end head.height cur (used_height head v used) v.low inside in
      let split = split_to_end cur (map_size - cur % map_size) end in
      elim (Bool-cases (ltb (length here) (suc l))) [
        | inl more ↦
            let whole : r.0 ≡ here = found ∙ take-whole (suc l) here (ground arith) in
            let next : r.1 ≡ cur + (map_size - cur % map_size) = go_on ∙ rw more refl in
            let not_done : (r.1 == 0) ≡ false = ground arith in
            rw (not_done, next, whole)
              (Returns-bind (rest (suc l - length here)) λ rs e. returns (
                ap (◌++◌ here) e
                ∙ sym (
                    ap (take (suc l)) split
                    ∙ take-append (suc l) here beyond
                    ∙ rw (take-whole (suc l) here (ground arith)) refl)))
        | inr full ↦
            let done : (r.1 == 0) ≡ true = ground arith in
            let none_left : suc l - length here ≡ 0 = ground arith in
            rw done (
              returns (
                found
                ∙ sym (
                    ap (take (suc l)) split
                    ∙ take-append (suc l) here beyond
                    ∙ rw none_left (rw (take_none beyond) (append-nil (take (suc l) here))))))
      ]

  -- Enough fuel for the leaves that are left.
  gang_from-items :
      (k cur left : ℕ)
      → 0 < k
      → suc (maxindex head.height) / map_size < cur / map_size + k
      → HasLeaves head cur
      → Returns
          (λ rs. rs ≡ take left (items_to_end head cur))
          (gang_from k head (maxindex head.height) cur left)
  unfolding gang_from
  gang_from-items zero cur left some_fuel fuel leaves = absurd (omega arith)
  gang_from-items (suc k) cur zero some_fuel fuel leaves = returns (sym (take_none _))
  gang_from-items (suc k) cur (suc l) some_fuel fuel leaves =
      let whole_leaves = whole head.height (used_height head v used) v.low in
      let wanted : (suc l == 0) ≡ false = ground arith in
      rw wanted (
        Returns-if (ltb (maxindex head.height) cur)
          (λ over.
            let nothing : suc (maxindex head.height) - cur ≡ 0 = ground arith in
            returns (sym (rw (nothing, items_from_zero (item_at head) cur) (take-nil (suc l)))))
          λ inside.
            Returns-bind
              (round-Scanned cur l (ground arith) (leaves cur (omega arith) (ground arith)))
              λ r scanned. next_round k cur l r (ground arith) scanned λ left.
                gang_from-items k (cur + (map_size - cur % map_size)) left
                  (omega (arith, le_of inside)) (omega (arith, le_of inside))
                  λ j from. leaves j (omega arith))
    where
      le_of : ltb (maxindex head.height) cur ≡ false → cur ≤ maxindex head.height
      le_of e = ground arith

-- In a valid tree that has all leaves from the first index on, `radix_tree_gang_lookup` does not fault
-- and ends, and places the first `max_items` items under the indices from the first one on, in the
-- order of their indices, where an item is what `radix_tree_lookup` gives.
pub gang_lookup_ordered :
    (head : Head) (first max_items : ℕ)
    → Valid head
    → is_empty head.rnode ≡ false
    → HasLeaves head first
    → Returns
        (λ rs. rs ≡ take max_items (items_to_end head first))
        (radix_tree_gang_lookup head first max_items)
gang_lookup_ordered head first max_items v used leaves =
    let some_leaf = whole head.height (used_height head v used) v.low in
    rw (gang_lookup-gang_from head first max_items v used) (
      gang_from-items head v used (suc (maxindex head.height)) first max_items (omega arith)
        (omega arith) leaves)
