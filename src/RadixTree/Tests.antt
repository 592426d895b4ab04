-- ===== src/RadixTree/Tests.antt =====
-- Runs of the radix tree, and its theorems at concrete inputs.
use c_model.Common.{
  Bool-cases, inl, inr, ◌+◌, ◌^◌, ℕ, ◌≡◌, refl, List, [], ◌∷◌, Option, none, some, arith, Bool,
  true, ◌==◌,
}
use c_model.Array.{replicate}
use c_model.Run.{◌>>=◌, Returns}
use c_model.RadixTree.{
  Slot, Head, radix_tree_head_new, radix_tree_initial, radix_tree_maxindex, radix_tree_lookup,
  radix_tree_insert, radix_tree_extend, maxindex, init_from, shift_of, lower, offset, item, node,
  set_slot, no_slots, lookup_from, node_alloc, find_height, grow, place, insert_from, insert_below,
  radix_tree_gang_lookup, gang_from, lookup_leaf, scan_leaf, pointer_of,
}
use c_model.RadixTree.Map.{Stored, insert_stores, initial-Valid, insert-table_overrun}
use c_model.RadixTree.Lookup.{lookup_total}
use c_model.RadixTree.Shape.{Valid, IsShaped, empty-IsShaped}
use c_model.RadixTree.Digits.{maxindex_lem}
use c_model.RadixTree.Gang.{take, leaf_of, gang_lookup-missing_leaf}
use c_model.RadixTree.Gang.Order.{HasLeaves, items_to_end, gang_lookup_ordered}

abbrev new_tree : Head
unfolding radix_tree_initial radix_tree_head_new
new_tree = radix_tree_initial radix_tree_head_new

abbrev plenty : List Bool
plenty = replicate 20 true

insert_stores_example :
    Returns
      (Stored 6 (radix_tree_initial radix_tree_head_new) 300 7 plenty)
      (radix_tree_insert (radix_tree_initial radix_tree_head_new) 300 7 plenty)
insert_stores_example =
    insert_stores (radix_tree_initial radix_tree_head_new) 300 7 plenty (initial-Valid.0)
      (omega arith) (omega arith)

insert-table_overrun_example :
    radix_tree_insert (radix_tree_initial radix_tree_head_new) 512 7 plenty ≡ none
insert-table_overrun_example =
    insert-table_overrun (radix_tree_initial radix_tree_head_new) 512 7 plenty (initial-Valid.0)
      (omega arith)

lookup_total_example :
    Returns (λ p. Unit {0}) (radix_tree_lookup (radix_tree_initial radix_tree_head_new) 9)
lookup_total_example = lookup_total (radix_tree_initial radix_tree_head_new) 9 (initial-Valid.0)

-- Items at 5, 9 and 300: the tree grows twice.
abbrev three_items : Option Head
three_items = radix_tree_insert (radix_tree_initial radix_tree_head_new) 5 1 plenty >>= λ r.
    radix_tree_insert r.1 9 2 plenty >>= λ s. radix_tree_insert s.1 300 3 plenty >>= λ t. some t.1

found_again : (three_items >>= λ head. radix_tree_lookup head 9) ≡ some 2
unfolding radix_tree_head_new radix_tree_initial radix_tree_maxindex radix_tree_lookup
    radix_tree_insert radix_tree_extend maxindex init_from shift_of lower offset lookup_from
    node_alloc find_height grow place insert_from insert_below
found_again = refl

two_in_order :
    (radix_tree_insert (radix_tree_initial radix_tree_head_new) 5 1 plenty >>= λ r.
    radix_tree_insert r.1 9 2 plenty >>= λ s. radix_tree_gang_lookup s.1 0 2)
    ≡ some (1 ∷ 2 ∷ [])
unfolding radix_tree_head_new radix_tree_initial radix_tree_maxindex radix_tree_insert
    radix_tree_extend maxindex init_from shift_of lower offset node_alloc find_height grow place
    insert_from insert_below radix_tree_gang_lookup gang_from lookup_leaf scan_leaf pointer_of
two_in_order = refl

set_slot-IsShaped :
    (h k : ℕ) (s : Slot) (i : ℕ) → IsShaped h s → IsShaped h (set_slot no_slots k s i)
set_slot-IsShaped h k s i w = elim (Bool-cases (k == i)) [
  | inl e ↦ rw e w
  | inr e ↦ rw e (empty-IsShaped h)
]

-- A tree with an item at index 5.
abbrev leaf : Slot
leaf = node 1 (set_slot no_slots 5 (item 4))

abbrev one_leaf : Head
one_leaf = record { height = 1; rnode = leaf; height_to_maxindex = 0 ∷ 7 ∷ 63 ∷ 511 ∷ [] }

leaf-IsShaped : IsShaped 1 leaf
leaf-IsShaped = (refl, λ i lt. set_slot-IsShaped 0 5 (item 4) i (omega arith))

one_leaf-Valid : Valid one_leaf
one_leaf-Valid = record {
  table = refl;
  low = omega arith;
  shaped = leaf-IsShaped;
  rootless = λ e. absurd (omega arith);
}

one_leaf-HasLeaves : HasLeaves one_leaf 3
unfolding leaf_of
one_leaf-HasLeaves j from to e = absurd cc

gang_lookup_ordered_example :
    Returns (λ rs. rs ≡ take 2 (items_to_end one_leaf 3)) (radix_tree_gang_lookup one_leaf 3 2)
gang_lookup_ordered_example =
    gang_lookup_ordered one_leaf 3 2 one_leaf-Valid refl one_leaf-HasLeaves

-- A tree with an item at index 13 only: the leaf of the indices below 8 is missing.
abbrev second_leaf : Head
second_leaf = record {
  height = 2;
  rnode = node 1 (set_slot no_slots 1 leaf);
  height_to_maxindex = 0 ∷ 7 ∷ 63 ∷ 511 ∷ [];
}

second_leaf-Valid : Valid second_leaf
second_leaf-Valid = record {
  table = refl;
  low = omega arith;
  shaped = (refl, λ i lt. set_slot-IsShaped 1 1 leaf i leaf-IsShaped);
  rootless = λ e. absurd (omega arith);
}

no_first_leaf : leaf_of 2 0 second_leaf.rnode ≡ none
unfolding leaf_of offset shift_of
no_first_leaf = refl

gang_lookup-missing_leaf_example : radix_tree_gang_lookup second_leaf 0 4 ≡ none
unfolding maxindex
gang_lookup-missing_leaf_example =
    gang_lookup-missing_leaf second_leaf 0 4 second_leaf-Valid refl (omega arith) (omega arith)
      no_first_leaf

maxindex_lem_example : maxindex 2 + 1 ≡ 8 ^ 2
maxindex_lem_example = maxindex_lem 2 (omega arith)
