-- ===== src/RadixTree/Lookup.antt =====
-- `radix_tree_lookup` in a valid tree.
use c_model.Common.{
  ℕ, zero, suc, ◌≤◌, ◌≡◌, refl, ap, ◌∙◌, List, [], ◌∷◌, some, arith, ltb, if◌then◌else◌,
}
use c_model.Array.{get_elem?}
use c_model.Run.{Returns, returns, Returns-if}
use c_model.RadixTree.{
  Slot, empty, item, node, Head, offset, shift_of, lookup_from, maxindex, radix_tree_maxindex,
  radix_tree_lookup,
}
use c_model.RadixTree.Shape.{IsShaped, Valid}
use c_model.RadixTree.Digits.{offset-lt}
use c_model.RadixTree.Insert.{look, look-node}

abbrev pub table : List ℕ
table = 0 ∷ 7 ∷ 63 ∷ 511 ∷ []

pub table-maxindex : (h : ℕ) → h ≤ 3 → get_elem? table h ≡ some (maxindex h)
unfolding maxindex
table-maxindex zero le = refl
table-maxindex (suc zero) le = refl
table-maxindex (suc (suc zero)) le = refl
table-maxindex (suc (suc (suc zero))) le = refl
table-maxindex (suc (suc (suc (suc h)))) le = absurd (omega arith)

pub Valid-maxindex :
    (head : Head) → Valid head → radix_tree_maxindex head ≡ some (maxindex head.height)
unfolding radix_tree_maxindex
Valid-maxindex head v = ap (λ t. get_elem? t head.height) v.table ∙ table-maxindex head.height v.low

pub lookup-look :
    (head : Head) (j : ℕ)
    → Valid head
    → radix_tree_lookup head j
      ≡ (if ltb (maxindex head.height) j then some 0 else look head.height j head.rnode)
unfolding radix_tree_lookup
lookup-look head j v = rw (Valid-maxindex head v) refl

look-Returns : (h j : ℕ) (s : Slot) → h ≤ 3 → IsShaped h s → Returns (λ p. Unit {0}) (look h j s)
unfolding lookup_from
look-Returns zero j empty le w = returns tt
look-Returns zero j (item p) le w = returns tt
look-Returns zero j (node count slots) le w = absurd w
look-Returns (suc h) j empty le w = returns tt
look-Returns (suc h) j (item p) le w = absurd w
look-Returns (suc h) j (node count slots) le w = rw (look-node h j count slots (omega arith)) (
    look-Returns h j (slots (offset j (shift_of (suc h)))) (omega arith)
      (w.1 (offset j (shift_of (suc h))) (offset-lt j (shift_of (suc h)))))

-- `radix_tree_lookup` in a valid tree does not fault, whatever the index.
pub lookup_total :
    (head : Head) (j : ℕ) → Valid head → Returns (λ p. Unit {0}) (radix_tree_lookup head j)
lookup_total head j v = rw (lookup-look head j v) (
    Returns-if (ltb (maxindex head.height) j) (λ e. returns tt)
      (λ e. look-Returns head.height j head.rnode v.low v.shaped))
