-- ===== src/RadixTree/Gang.antt =====
-- `radix_tree_gang_lookup`: the items from an index on.
pub mod Order
use c_model.Common.{
  ℕ, zero, suc, ◌+◌, ◌-◌, ◌*◌, ◌/◌, ◌%◌, ◌^◌, ◌≤◌, ◌<◌, ◌≡◌, ◌≢◌, refl, ap, sym, subst, ◌∙◌, List,
  [], ◌∷◌, ◌++◌, Option, none, some, arith, Bool, true, false, ltb, leb, ◌==◌, if◌then◌else◌,
  Bool-cases, inl, inr, append-nil, append_assoc,
}
use c_model.Array.{length, length-append}
use c_model.Run.{◌>>=◌, Returns, returns, Returns-if, Returns-bind, Returns-map}
use c_model.RadixTree.{
  Slot, empty, item, node, is_empty, Head, offset, shift_of, lower, lookup_from, maxindex, map_size,
  pointer_of, scan_leaf, lookup_leaf, gang_from, radix_tree_maxindex, radix_tree_lookup,
  radix_tree_gang_lookup,
}
use c_model.RadixTree.Shape.{IsShaped, Valid}
use c_model.RadixTree.Digits.{offset-lt, lower-shift_of}
use c_model.RadixTree.Insert.{look, look-node}
use c_model.RadixTree.Lookup.{lookup-look, Valid-maxindex}

-- The slots of the leaf for an index, if there is one.
unfoldable pub leaf_of : ℕ → ℕ → Slot → Option (ℕ → Slot)
leaf_of zero j s = none
leaf_of (suc h) j empty = none
leaf_of (suc h) j (item p) = none
leaf_of (suc zero) j (node count slots) = some slots
leaf_of (suc (suc h)) j (node count slots) =
    leaf_of (suc h) j (slots (offset j (shift_of (suc (suc h)))))

unfoldable pub scan_from : ℕ → ℕ → Option (ℕ → Slot) → Option (List ℕ × ℕ)
scan_from j max leaf =
    leaf >>= λ slots. scan_leaf (map_size - j % map_size) (j % map_size) j slots 0 max

lookup_leaf-leaf_of :
    (h j max : ℕ) (s : Slot)
    → suc h ≤ 3
    → lookup_leaf (suc h) (shift_of (suc h)) j s max ≡ scan_from j max (leaf_of (suc h) j s)
unfolding lookup_leaf leaf_of scan_from
lookup_leaf-leaf_of h j max empty le = refl
lookup_leaf-leaf_of h j max (item p) le = refl
lookup_leaf-leaf_of zero j max (node count slots) le = refl
lookup_leaf-leaf_of (suc h) j max (node count slots) le =
    let below = slots (offset j (shift_of (suc (suc h)))) in
    ap (λ shift. lookup_leaf (suc h) shift j below max) (lower-shift_of (suc h) (omega arith))
    ∙ lookup_leaf-leaf_of h j max below (omega arith)

pub used_height : (head : Head) → Valid head → is_empty head.rnode ≡ false → head.height ≢ 0
used_height head v used e = let gone = ap is_empty (v.rootless e) in cc

height-maxindex : (h : ℕ) → h ≢ 0 → h ≤ 3 → 0 < maxindex h
unfolding maxindex
height-maxindex zero n le = absurd (n refl)
height-maxindex (suc zero) n le = omega arith
height-maxindex (suc (suc zero)) n le = omega arith
height-maxindex (suc (suc (suc zero))) n le = omega arith
height-maxindex (suc (suc (suc (suc h)))) n le = absurd (omega arith)

pub gang_lookup-gang_from :
    (head : Head) (first max_items : ℕ)
    → Valid head
    → is_empty head.rnode ≡ false
    → radix_tree_gang_lookup head first max_items
      ≡ gang_from (suc (maxindex head.height)) head (maxindex head.height) first max_items
unfolding radix_tree_gang_lookup
gang_lookup-gang_from head first max_items v used =
    let some_index : (maxindex head.height == 0) ≡ false =
      ground (arith, height-maxindex head.height (used_height head v used) v.low) in
    rw (Valid-maxindex head v, used, some_index) refl

pub head-lookup_leaf :
    (head : Head) (j max : ℕ)
    → Valid head
    → is_empty head.rnode ≡ false
    → lookup_leaf head.height (shift_of head.height) j head.rnode max
      ≡ scan_from j max (leaf_of head.height j head.rnode)
head-lookup_leaf head j max v used =
    let h = head.height - 1 in
    let e : head.height ≡ suc h = omega (arith, used_height head v used) in
    subst
      (λ k. lookup_leaf k (shift_of k) j head.rnode max ≡ scan_from j max (leaf_of k j head.rnode))
      (sym e) (lookup_leaf-leaf_of h j max head.rnode (omega (arith, v.low)))

-- In a valid tree that is not empty, let the first index not be above the largest one and at least one
-- item be wanted: where the leaf for the first index is missing, `radix_tree_gang_lookup` follows a NULL
-- pointer.
pub gang_lookup-missing_leaf :
    (head : Head) (first max_items : ℕ)
    → Valid head
    → is_empty head.rnode ≡ false
    → first ≤ maxindex head.height
    → 0 < max_items
    → leaf_of head.height first head.rnode ≡ none
    → radix_tree_gang_lookup head first max_items ≡ none
unfolding gang_from scan_from
gang_lookup-missing_leaf head first max_items v used inside wanted gone =
    let some_wanted : (max_items == 0) ≡ false = ground arith in
    let in_range : ltb (maxindex head.height) first ≡ false = ground arith in
    gang_lookup-gang_from head first max_items v used
    ∙ rw (some_wanted, in_range, head-lookup_leaf head first max_items v used, gone) refl

-- The items under the `n` indices from `j` on, where `at` gives the item or 0.
unfoldable pub items_from : (ℕ → ℕ) → ℕ → ℕ → List ℕ
items_from at zero j = []
items_from at (suc n) j =
    if at j == 0 then items_from at n (suc j) else at j ∷ items_from at n (suc j)

unfoldable pub take : ℕ → List ℕ → List ℕ
take zero xs = []
take (suc n) [] = []
take (suc n) (x ∷ xs) = x ∷ take n xs

abbrev pub or_zero : Option ℕ → ℕ
or_zero none = 0
or_zero (some p) = p

-- What a scan over indices with these items leads to: the first `left` of them, and where to go on,
-- which is `next` if there are fewer.
abbrev pub Scanned : List ℕ → ℕ → ℕ → List ℕ × ℕ → Type 0
Scanned items next left r =
    (r.0 ≡ take left items) × (r.1 ≡ (if ltb (length items) left then next else 0))

pub items_from_zero : (at : ℕ → ℕ) (j : ℕ) → items_from at 0 j ≡ []
unfolding items_from
items_from_zero at j = refl

pub take-nil : (n : ℕ) → take n [] ≡ []
unfolding take
take-nil zero = refl
take-nil (suc n) = refl

pub items_from-none :
    (at : ℕ → ℕ) (n j : ℕ) → (at j == 0) ≡ true → items_from at (suc n) j ≡ items_from at n (suc j)
unfolding items_from
items_from-none at n j z = rw z refl

pub items_from-some :
    (at : ℕ → ℕ) (n j : ℕ)
    → (at j == 0) ≡ false
    → items_from at (suc n) j ≡ at j ∷ items_from at n (suc j)
unfolding items_from
items_from-some at n j z = rw z refl

module _ (at : ℕ → ℕ) (slots : ℕ → Slot) where
  first_slot :
      (rounds j index : ℕ)
      → ((t : ℕ) → t < suc rounds → pointer_of (slots (j + t)) ≡ some (at (index + t)))
      → pointer_of (slots j) ≡ some (at index)
  first_slot rounds j index e =
      let here : j ≡ j + 0 = omega arith in
      ap (λ k. pointer_of (slots k)) here
      ∙ e 0 (omega arith)
      ∙ ap (λ k. some (at k)) (let back : index + 0 ≡ index = omega arith in back)

  later_slots :
      (rounds j index : ℕ)
      → ((t : ℕ) → t < suc rounds → pointer_of (slots (j + t)) ≡ some (at (index + t)))
      → (t : ℕ) → t < rounds
      → pointer_of (slots (suc j + t)) ≡ some (at (suc index + t))
  later_slots rounds j index e t lt =
      let here : suc j + t ≡ j + suc t = omega arith in
      let there : index + suc t ≡ suc index + t = omega arith in
      ap (λ k. pointer_of (slots k)) here ∙ e (suc t) (omega arith) ∙ ap (λ k. some (at k)) there

  taken :
      (rounds index nr left max : ℕ) (rest : Option (List ℕ × ℕ))
      → max ≡ nr + suc left
      → ((l : ℕ)
          → left ≡ suc l
          → Returns (Scanned (items_from at rounds (suc index)) (suc index + rounds) (suc l)) rest)
      → Returns
          (Scanned (at index ∷ items_from at rounds (suc index)) (index + suc rounds) (suc left))
          (if suc nr == max
            then some (at index ∷ [], 0)
            else rest >>= λ r. some (at index ∷ r.0, r.1))
  unfolding take
  taken rounds index nr zero max rest m ih =
      let full : (suc nr == max) ≡ true = ground arith in rw full (returns (refl, ground arith))
  taken rounds index nr (suc l) max rest m ih =
      let room : (suc nr == max) ≡ false = ground arith in
      rw room (
        Returns-bind (ih l refl) λ r (a, b). returns (ap (λ xs. at index ∷ xs) a, b ∙ ground arith))

  pub scan_leaf-Scanned :
      (rounds j index nr left max : ℕ)
      → max ≡ nr + suc left
      → ((t : ℕ) → t < rounds → pointer_of (slots (j + t)) ≡ some (at (index + t)))
      → Returns
          (Scanned (items_from at rounds index) (index + rounds) (suc left))
          (scan_leaf rounds j index slots nr max)
  unfolding scan_leaf take
  scan_leaf-Scanned zero j index nr left max m e =
      rw (items_from_zero at index) (returns (refl, ground arith))
  scan_leaf-Scanned (suc rounds) j index nr left max m e =
      rw (first_slot rounds j index e) (elim (Bool-cases (at index == 0)) [
        | inl z ↦
            rw (items_from-none at rounds index z, z)
              (Returns-map
                (scan_leaf-Scanned rounds (suc j) (suc index) nr left max m
                  (later_slots rounds j index e))
                λ r (a, b). (a, b ∙ ground arith))
        | inr nz ↦
            rw (items_from-some at rounds index nz, nz)
              (taken rounds index nr left max
                (scan_leaf rounds (suc j) (suc index) slots (suc nr) max) m
                λ l f.
                  scan_leaf-Scanned rounds (suc j) (suc index) (suc nr) l max (omega arith)
                    (later_slots rounds j index e))
      ])
