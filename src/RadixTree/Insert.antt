-- ===== src/RadixTree/Insert.antt =====
-- The descent of `radix_tree_insert`.
use c_model.Common.{
  ℕ, zero, suc, ◌+◌, ◌≤◌, ◌<◌, ◌≡◌, ◌≢◌, refl, ap, sym, ◌∙◌, List, [], ◌∷◌, Option, some, arith,
  Bool, true, false, ◌==◌, if◌then◌else◌, Bool-cases, ==-eq, inl, inr, ◌⊎◌,
}
use c_model.Run.{Returns, returns, Returns-bind, Returns-if}
use c_model.RadixTree.{
  Slot, empty, item, node, set_slot, no_slots, map_size, offset, shift_of, lookup_from, insert_from,
  place, put_back, Inserted, node_alloc,
}
use c_model.RadixTree.Shape.{
  IsShaped, empty-IsShaped, filled, filled_slot, filled-set_slot, filled-no_slots,
}
use c_model.RadixTree.Digits.{Agree, offset-lt, lower-shift_of}

-- What is found in a slot at height `h` under an index.
abbrev pub look : ℕ → ℕ → Slot → Option ℕ
look h index s = lookup_from h (shift_of h) index s

-- The next `n` calls of `calloc` succeed.
abbrev pub Plenty : ℕ → List Bool → Type 0
Plenty zero allocs = Unit
Plenty (suc n) [] = ⊥
Plenty (suc n) (ok ∷ allocs) = (ok ≡ true) × Plenty n allocs

pub Plenty-rest :
    (n : ℕ) (allocs : List Bool) → Plenty (suc n) allocs → Plenty n (node_alloc allocs).1
unfolding node_alloc
Plenty-rest n [] plenty = absurd plenty
Plenty-rest n (ok ∷ allocs) plenty = plenty.1

pub Plenty-ok : (n : ℕ) (allocs : List Bool) → Plenty (suc n) allocs → (node_alloc allocs).0 ≡ true
unfolding node_alloc
Plenty-ok n [] plenty = absurd plenty
Plenty-ok n (ok ∷ allocs) plenty = plenty.0

pub Plenty-less : (n : ℕ) (allocs : List Bool) → Plenty (suc n) allocs → Plenty n allocs
Plenty-less zero allocs plenty = tt
Plenty-less (suc n) [] plenty = absurd plenty
Plenty-less (suc n) (ok ∷ allocs) (e, plenty) = (e, Plenty-less n allocs plenty)

pub look-node :
    (h index count : ℕ) (slots : ℕ → Slot)
    → h ≤ 3
    → look (suc h) index (node count slots) ≡ look h index (slots (offset index (shift_of (suc h))))
unfolding lookup_from
look-node h index count slots le = rw (lower-shift_of h le) refl

pub look-empty : (h index : ℕ) → look h index empty ≡ some 0
unfolding lookup_from
look-empty zero index = refl
look-empty (suc h) index = refl

-- What a descent leads to: the slot is well formed and counted; either the index was free and has the
-- item, and no other index changes, or no index changes at all, which is so only if the index was taken
-- or an allocation failed.
pub record Descended (h index p : ℕ) (s : Slot) (allocs : List Bool) (r : Inserted) : Type 0 where
  pub shaped : IsShaped h r.slot
  pub count : filled_slot r.slot ≡ filled_slot s + (if r.counted then 1 else 0)
  pub outcome :
      ((r.result ≡ 0)
        × (look h index s ≡ some 0)
        × (look h index r.slot ≡ some p)
        × ((j : ℕ) → ¬ Agree h index j → look h j r.slot ≡ look h j s))
      ⊎ ((r.result ≡ 1)
          × ((j : ℕ) → look h j r.slot ≡ look h j s)
          × (Plenty h allocs → look h index s ≢ some 0))

place-Descended :
    (index p : ℕ) (s : Slot) (allocs : List Bool)
    → 0 < p
    → IsShaped 0 s
    → Descended 0 index p s allocs (place p s)
unfolding place lookup_from
place-Descended index zero s allocs h w = absurd (omega arith)
place-Descended index (suc p) empty allocs h w = record {
  shaped = h;
  count = refl;
  outcome = inl (refl, refl, refl, λ j n. absurd (n tt));
}
place-Descended index (suc p) (item q) allocs h w = record {
  shaped = w;
  count = refl;
  outcome = inr (refl, (λ j. refl), λ plenty e. let same : q ≡ 0 = cc in omega arith);
}
place-Descended index (suc p) (node count slots) allocs h w = absurd w

module _ (h index p count : ℕ) (slots : ℕ → Slot) (le : h ≤ 3)
    (counted : count ≡ filled map_size slots)
    (children : (i : ℕ) → i < map_size → IsShaped h (slots i)) where
  new_count : Inserted → ℕ
  new_count below = if below.counted then suc count else count

  new_slots : Inserted → ℕ → Slot
  new_slots below = set_slot slots (offset index (shift_of (suc h))) below.slot

  counted_still :
      (below : Inserted)
      → filled_slot below.slot
        ≡ filled_slot (slots (offset index (shift_of (suc h)))) + (if below.counted then 1 else 0)
      → new_count below ≡ filled map_size (new_slots below)
  unfolding new_count new_slots
  counted_still below e =
      let i = offset index (shift_of (suc h)) in
      let sum = filled-set_slot map_size slots i below.slot (offset-lt index (shift_of (suc h))) in
      elim (Bool-cases below.counted) [
        | inl c ↦
            let more : filled_slot below.slot ≡ filled_slot (slots i) + 1 = e ∙ rw c refl in
            rw c (omega (arith, counted, sum, more))
        | inr c ↦
            let more : filled_slot below.slot ≡ filled_slot (slots i) + 0 = e ∙ rw c refl in
            rw c (omega (arith, counted, sum, more))
      ]

  new_children :
      (below : Inserted)
      → IsShaped h below.slot
      → (k : ℕ) → k < map_size
      → IsShaped h (new_slots below k)
  unfolding new_slots
  new_children below w k lt = elim (Bool-cases (offset index (shift_of (suc h)) == k)) [
    | inl e ↦ rw e w
    | inr e ↦ rw e (children k lt)
  ]

  look_hit :
      (below : Inserted) (j : ℕ)
      → offset index (shift_of (suc h)) ≡ offset j (shift_of (suc h))
      → look (suc h) j (node (new_count below) (new_slots below)) ≡ look h j below.slot
  unfolding new_count new_slots
  look_hit below j e =
      let i = offset index (shift_of (suc h)) in
      let hit : (i == offset j (shift_of (suc h))) ≡ true = ground arith in
      look-node h j (new_count below) (new_slots below) le ∙ rw hit refl

  look_miss :
      (below : Inserted) (j : ℕ)
      → offset index (shift_of (suc h)) ≢ offset j (shift_of (suc h))
      → look (suc h) j (node (new_count below) (new_slots below))
        ≡ look h j (slots (offset j (shift_of (suc h))))
  unfolding new_count new_slots
  look_miss below j e =
      let i = offset index (shift_of (suc h)) in
      let miss : (i == offset j (shift_of (suc h))) ≡ false = ground arith in
      look-node h j (new_count below) (new_slots below) le ∙ rw miss refl

  put_back-Descended :
      (s : Slot) (added : Bool) (allocs rest : List Bool) (below : Inserted)
      → ((j : ℕ) → look (suc h) j s ≡ look h j (slots (offset j (shift_of (suc h)))))
      → (Plenty (suc h) allocs → Plenty h rest)
      → 1 ≡ filled_slot s + (if added then 1 else 0)
      → Descended h index p (slots (offset index (shift_of (suc h)))) rest below
      → Descended
          (suc h)
          index
          p
          s
          allocs
          (put_back count slots (offset index (shift_of (suc h))) added below)
  unfolding new_count new_slots
  put_back-Descended s added allocs rest below same fewer one d =
      let o = λ (j : ℕ). offset j (shift_of (suc h)) in
      record {
        shaped = (counted_still below d.count, new_children below d.shaped);
        count = one;
        outcome = elim d.outcome [
          | inl (ok, free, found, others) ↦ inl (
            ok,
            same index ∙ free,
            look_hit below index refl ∙ found,
            λ j n. elim (Bool-cases (o index == o j)) [
              | inl e ↦
                  let at : o index ≡ o j = ==-eq (o index) (o j) e in
                  look_hit below j at
                  ∙ others j (λ a. n (at, a))
                  ∙ ap (λ k. look h j (slots k)) at
                  ∙ sym (same j)
              | inr e ↦ look_miss below j (ground arith) ∙ sym (same j)
            ],
          )
          | inr (refused, all_same, why) ↦ inr (
            refused,
            λ j. elim (Bool-cases (o index == o j)) [
              | inl e ↦
                  let at : o index ≡ o j = ==-eq (o index) (o j) e in
                  look_hit below j at ∙ all_same j ∙ ap (λ k. look h j (slots k)) at ∙ sym (same j)
              | inr e ↦ look_miss below j (ground arith) ∙ sym (same j)
            ],
            λ plenty e. why (fewer plenty) (sym (same index) ∙ e),
          )
        ];
      }

failed-Descended :
    (h index p : ℕ) (allocs : List Bool)
    → (node_alloc allocs).0 ≡ false
    → Descended (suc h) index p empty allocs (record { result = 1; slot = empty; counted = false })
failed-Descended h index p allocs e = record {
  shaped = tt;
  count = refl;
  outcome = inr (refl, (λ j. refl), λ plenty. absurd (let ok = Plenty-ok h allocs plenty in cc));
}

-- The descent in a well-formed tree does not fault.
pub insert_from-Descended :
    (h index p : ℕ) (s : Slot) (allocs : List Bool)
    → h ≤ 3
    → 0 < p
    → IsShaped h s
    → Returns (Descended h index p s allocs) (insert_from h (shift_of h) index p s allocs)
unfolding insert_from
insert_from-Descended zero index p s allocs le h w = returns (place-Descended index p s allocs h w)
insert_from-Descended (suc h) index p empty allocs le pos_p w =
    rw (lower-shift_of h (omega arith)) (
      Returns-if (node_alloc allocs).0
        (λ e.
          Returns-bind
            (insert_from-Descended h index p empty (node_alloc allocs).1 (omega arith) pos_p
              (empty-IsShaped h))
            λ r d. returns (
              put_back-Descended h index p 0 no_slots (omega arith) (sym (filled-no_slots map_size))
                (λ i lt. empty-IsShaped h) empty true allocs (node_alloc allocs).1 r
                (λ j. look-empty (suc h) j ∙ sym (look-empty h j)) (Plenty-rest h allocs) refl d))
        λ e. returns (failed-Descended h index p allocs e))
insert_from-Descended (suc h) index p (item q) allocs le pos_p w = absurd w
insert_from-Descended (suc h) index p (node count slots) allocs le pos_p w =
    rw (lower-shift_of h (omega arith)) (
      Returns-bind
        (insert_from-Descended h index p (slots (offset index (shift_of (suc h)))) allocs
          (omega arith) pos_p
          (w.1 (offset index (shift_of (suc h))) (offset-lt index (shift_of (suc h)))))
        λ r d. returns (
          put_back-Descended h index p count slots (omega arith) w.0 w.1 (node count slots) false
            allocs allocs r (λ j. look-node h j count slots (omega arith)) (Plenty-less h allocs)
            refl d))
