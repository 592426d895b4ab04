-- ===== src/RadixTree/Digits.antt =====
-- The offsets of an index on its way down.
use c_model.Common.{ℕ, zero, suc, ◌+◌, ◌^◌, ◌≤◌, ◌<◌, ◌≡◌, refl, arith}
use c_model.RadixTree.{offset, shift_of, lower, map_size, maxindex}

pub offset-lt : (index shift : ℕ) → offset index shift < map_size
unfolding offset
offset-lt index shift = omega arith

pub lower-shift_of : (h : ℕ) → h ≤ 3 → lower (shift_of (suc h)) ≡ shift_of h
unfolding lower shift_of
lower-shift_of h le = omega arith

-- The offset of an index in the node at height `h`.
abbrev pub digit : ℕ → ℕ → ℕ
unfolding offset shift_of
digit h index = offset index (shift_of h)

-- Two indices go the same way down from height `h`.
abbrev pub Agree : ℕ → ℕ → ℕ → Type 0
Agree zero i j = Unit
Agree (suc h) i j = (offset i (shift_of (suc h)) ≡ offset j (shift_of (suc h))) × Agree h i j

pub Agree-refl : (h i : ℕ) → Agree h i i
Agree-refl zero i = tt
Agree-refl (suc h) i = (refl, Agree-refl h i)

-- The largest index of a tree of height `h`, which is 8 ^ h - 1.
pub maxindex_lem : (h : ℕ) → h ≤ 3 → maxindex h + 1 ≡ map_size ^ h
unfolding maxindex
maxindex_lem zero le = refl
maxindex_lem (suc zero) le = refl
maxindex_lem (suc (suc zero)) le = refl
maxindex_lem (suc (suc (suc zero))) le = refl
maxindex_lem (suc (suc (suc (suc h)))) le = absurd (omega arith)

-- Indices that a tree of height `h` has room for go different ways.
pub Agree-eq : (h i j : ℕ) → h ≤ 3 → i ≤ maxindex h → j ≤ maxindex h → Agree h i j → i ≡ j
unfolding maxindex offset shift_of
Agree-eq zero i j le hi hj a = omega arith
Agree-eq (suc zero) i j le hi hj a = omega arith
Agree-eq (suc (suc zero)) i j le hi hj a = omega arith
Agree-eq (suc (suc (suc zero))) i j le hi hj a = omega arith
Agree-eq (suc (suc (suc (suc h)))) i j le hi hj a = absurd (omega arith)
