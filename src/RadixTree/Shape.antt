-- ===== src/RadixTree/Shape.antt =====
-- Well-formed trees.
use c_model.Common.{
  ℕ, zero, suc, ◌+◌, ◌≤◌, ◌<◌, ◌≡◌, refl, ap, Bool-cases, inl, inr, ==-eq, [], ◌∷◌, arith, false,
  ◌==◌, if◌then◌else◌,
}
use c_model.RadixTree.{Slot, empty, item, node, set_slot, no_slots, is_empty, map_size, Head}

abbrev pub filled_slot : Slot → ℕ
filled_slot s = if is_empty s then 0 else 1

-- How many of the first `n` slots are not NULL.
abbrev pub filled : ℕ → (ℕ → Slot) → ℕ
filled zero slots = 0
filled (suc n) slots = filled_slot (slots n) + filled n slots

-- A slot at a height: NULL, or at height 0 an item that is not NULL, and above it a node whose count is
-- that of its slots in use, which are well formed at the height below.
abbrev pub IsShaped : ℕ → Slot → Type 0
IsShaped zero empty = Unit
IsShaped zero (item p) = 0 < p
IsShaped zero (node count slots) = ⊥
IsShaped (suc h) empty = Unit
IsShaped (suc h) (item p) = ⊥
IsShaped (suc h) (node count slots) =
    (count ≡ filled map_size slots) × ((i : ℕ) → i < map_size → IsShaped h (slots i))

pub empty-IsShaped : (h : ℕ) → IsShaped h empty
empty-IsShaped zero = tt
empty-IsShaped (suc h) = tt

filled_above :
    (n : ℕ) (slots : ℕ → Slot) (i : ℕ) (s : Slot)
    → n ≤ i
    → filled n (set_slot slots i s) ≡ filled n slots
filled_above zero slots i s h = refl
filled_above (suc n) slots i s h =
    let other : (i == n) ≡ false = ground arith in
    rw (other, filled_above n slots i s (omega arith)) refl

pub filled-set_slot :
    (n : ℕ) (slots : ℕ → Slot) (i : ℕ) (s : Slot)
    → i < n
    → filled n (set_slot slots i s) + filled_slot (slots i) ≡ filled n slots + filled_slot s
filled-set_slot zero slots i s h = absurd (omega arith)
filled-set_slot (suc n) slots i s h = elim (Bool-cases (i == n)) [
  | inl e ↦
      let same : i ≡ n = ==-eq i n e in
      rw (e, ap (λ k. filled_slot (slots k)) same, filled_above n slots i s (omega arith))
        (omega arith)
  | inr e ↦ rw e (omega (arith, filled-set_slot n slots i s (ground arith)))
]

pub filled-no_slots : (n : ℕ) → filled n no_slots ≡ 0
filled-no_slots zero = refl
filled-no_slots (suc n) = omega (arith, filled-no_slots n)

-- A tree between two calls: the table is filled in, there are at most three levels, and a tree without
-- levels has no root.
pub record Valid (head : Head) : Type 0 where
  pub table : head.height_to_maxindex ≡ 0 ∷ 7 ∷ 63 ∷ 511 ∷ []
  pub low : head.height ≤ 3
  pub shaped : IsShaped head.height head.rnode
  pub rootless : head.height ≡ 0 → head.rnode ≡ empty
