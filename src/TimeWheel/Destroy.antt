-- ===== src/TimeWheel/Destroy.antt =====
-- The destructor of the wheel.
use c_model.Common.{
  ℕ, zero, suc, ◌+◌, ◌≤◌, ◌<◌, ◌≡◌, ◌≢◌, refl, ◌∙◌, subst, List, [], ◌∷◌, none, some, arith, ◌==◌,
  ltb, if◌then◌else◌, false, Bool-cases, inl, inr,
}
use c_model.Array.{
  length, get_or, set, get_or-set, length-set, get_elem?-get_or, store-eq_some, count,
}
use c_model.Run.{Returns, returns, Returns-bind, Returns-map}
use c_model.TimeWheel.{
  TwTimer, Store, Wheel, null, remove, slot_count, drain_slot, destroy_from, destroy,
}
use c_model.TimeWheel.Chain.{head_of, Linked, IsDistinct}
use c_model.TimeWheel.Relink.{free-eq_some}
use c_model.TimeWheel.Valid.{View, Arranged, home_unique}
use c_model.TimeWheel.Timing.{LengthsBelow}

-- Links forward are all that the destructor follows.
abbrev Chained : Store → List ℕ → Type 0
Chained s [] = Unit
Chained s (p ∷ ps) = ((t : TwTimer) × (s p ≡ some t) × (t.next ≡ head_of ps)) × Chained s ps

Linked-Chained : (s : Store) (prev : ℕ) (ps : List ℕ) → Linked s prev ps → Chained s ps
Linked-Chained s prev [] l = tt
Linked-Chained s prev (p ∷ ps) ((t, found, back, on), l) = ((t, found, on), Linked-Chained s p ps l)

Chained-ext :
    (s r : Store) (ps : List ℕ)
    → ((p : ℕ) → 0 < count p ps → r p ≡ s p)
    → Chained s ps
    → Chained r ps
Chained-ext s r [] same l = tt
Chained-ext s r (p ∷ ps) same ((t, found, on), l) =
    ((t, same p (ground arith) ∙ found, on), Chained-ext s r ps (λ q m. same q (omega arith)) l)

record Drained (w : Wheel) (i : ℕ) (ps : List ℕ) (u : Wheel) : Type 0 where
  size : length u.slots ≡ length w.slots
  others : (j : ℕ) → j ≢ i → get_or u.slots j 0 ≡ get_or w.slots j 0
  left : (q : ℕ) → u.timers q ≡ (if ltb 0 (count q ps) then none else w.timers q)

drain_slot-Drained :
    (k : ℕ) (w : Wheel) (i : ℕ) (ps : List ℕ)
    → length ps < k
    → i < length w.slots
    → get_or w.slots i 0 ≡ head_of ps
    → Chained w.timers ps
    → IsDistinct ps
    → Returns (Drained w i ps) (drain_slot k w i)
unfolding drain_slot
drain_slot-Drained zero w i ps enough inside head l d = absurd (omega arith)
drain_slot-Drained (suc k) w i [] enough inside head l d =
    rw (get_elem?-get_or w.slots i 0 inside, head)
      (returns (record { size = refl; others = λ j ne. refl; left = λ q. refl }))
drain_slot-Drained (suc k) w i (p ∷ ps) enough inside head ((t, found, on), l) d =
    let real : (p == null) ≡ false = ground (arith, d.no_null) in
    let s = remove w.timers p in
    let slots = set w.slots i (head_of ps) in
    rw
      (
        get_elem?-get_or w.slots i 0 inside,
        head,
        real,
        found,
        on,
        store-eq_some w.slots i (head_of ps) inside,
        free-eq_some w.timers p t found,
      )
      (Returns-map
        (drain_slot-Drained k (record w { slots = slots; timers = s }) i ps (omega arith)
          (omega (arith, length-set w.slots i (head_of ps)))
          (ground (arith, get_or-set w.slots i i (head_of ps) 0 inside))
          (Chained-ext w.timers s ps (λ q m. ground (arith, d.once q)) l)
          (record { once = λ q. omega (arith, d.once q); no_null = omega (arith, d.no_null) }))
        λ u r. record {
          size = r.size ∙ length-set w.slots i (head_of ps);
          others =
              λ j ne. r.others j ne ∙ ground (arith, get_or-set w.slots i j (head_of ps) 0 inside);
          left = λ q. r.left q ∙ ground (arith, d.once q);
        })

-- What deleting the timers of the slots from `i` on leads to.
pub record Destroyed (i : ℕ) (w : Wheel) (view : View) (u : Wheel) : Type 0 where
  pub deleted : (j q : ℕ) → i ≤ j → j < slot_count → 0 < count q (view j) → u.timers q ≡ none
  pub kept :
      (q : ℕ) → ((j : ℕ) → i ≤ j → j < slot_count → count q (view j) ≡ 0) → u.timers q ≡ w.timers q

-- The lists from slot `i` on are whole, and no timer stands in two of them.
record Standing (i k : ℕ) (w : Wheel) (view : View) : Type 0 where
  size : length w.slots ≡ slot_count
  head : (j : ℕ) → i ≤ j → j < slot_count → get_or w.slots j 0 ≡ head_of (view j)
  chained : (j : ℕ) → i ≤ j → j < slot_count → Chained w.timers (view j)
  distinct : (j : ℕ) → j < slot_count → IsDistinct (view j)
  short : (j : ℕ) → length (view j) < k
  apart :
      (j l q : ℕ)
      → j < slot_count
      → l < slot_count
      → 0 < count q (view j)
      → 0 < count q (view l)
      → j ≡ l

next-Standing :
    (i k : ℕ) (w : Wheel) (view : View) (u : Wheel)
    → i < slot_count
    → Standing i k w view
    → Drained w i (view i) u
    → Standing (suc i) k u view
next-Standing i k w view u h s d = record {
  size = d.size ∙ s.size;
  head = λ j above below. d.others j (omega arith) ∙ s.head j (omega arith) below;
  chained = λ j above below.
      Chained-ext w.timers u.timers (view j)
        (λ q m. d.left q ∙ ground (arith, s.apart i j q h below)) (s.chained j (omega arith) below);
  distinct = s.distinct;
  short = s.short;
  apart = s.apart;
}

absent-after :
    (i k : ℕ) (w : Wheel) (view : View)
    → Standing i k w view
    → (q l : ℕ) → i < slot_count
    → 0 < count q (view i)
    → i < l
    → l < slot_count
    → count q (view l) ≡ 0
absent-after i k w view s q l h here past inside = elim (Bool-cases (ltb 0 (count q (view l)))) [
  | inl both ↦ absurd (omega (arith, s.apart i l q h inside here (ground arith)))
  | inr gone ↦ ground arith
]

destroy_from-Destroyed :
    (rounds i k : ℕ) (w : Wheel) (view : View)
    → rounds + i ≡ slot_count
    → Standing i k w view
    → Returns (Destroyed i w view) (destroy_from rounds i k w)
unfolding destroy_from
destroy_from-Destroyed zero i k w view sum s =
    returns (record { deleted = λ j q above below m. absurd (omega arith); kept = λ q h. refl })
destroy_from-Destroyed (suc rounds) i k w view sum s =
    let h : i < slot_count = omega arith in
    Returns-bind
      (drain_slot-Drained k w i (view i) (s.short i) (omega (arith, s.size))
        (s.head i (omega arith) h) (s.chained i (omega arith) h) (s.distinct i h))
      λ u d.
        Returns-map
          (destroy_from-Destroyed rounds (suc i) k u view (omega arith)
            (next-Standing i k w view u h s d))
          λ v r. record {
            deleted = λ j q above below m. elim (Bool-cases (i == j)) [
              | inl e ↦
                  (let same : j ≡ i = ground arith in
                    let here : 0 < count q (view i) = subst (λ l. 0 < count q (view l)) same m in
                    r.kept q (λ l past inside. absent-after i k w view s q l h here past inside)
                    ∙ d.left q
                    ∙ ground arith)
              | inr e ↦ r.deleted j q (ground arith) below m
            ];
            kept = λ q none_in.
                r.kept q (λ j above below. none_in j (omega arith) below)
                ∙ d.left q
                ∙ ground (arith, none_in i (omega arith) h);
          }

-- The destructor of a wheel whose lists are arranged does not fault, deletes every timer that stands in a
-- list, and no other; `k` bounds the lengths of the lists.
pub destroy_deletes_all :
    (k : ℕ) (w : Wheel) (view : View)
    → Arranged w view
    → LengthsBelow k view
    → Returns (Destroyed 0 w view) (destroy (suc k) w)
unfolding destroy
destroy_deletes_all k w view a h = destroy_from-Destroyed slot_count 0 (suc k) w view refl (record {
  size = a.size;
  head = λ j above below. a.head j below;
  chained = λ j above below. Linked-Chained w.timers null (view j) (a.linked j below);
  distinct = a.distinct;
  short = λ j. omega (arith, h j);
  apart = λ j l q hj hl mj ml. home_unique w view j l q a hj hl mj ml;
})
