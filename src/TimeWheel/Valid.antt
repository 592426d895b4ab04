-- ===== src/TimeWheel/Valid.antt =====
-- The invariant of the wheel, over the lists that its slots hold.
use c_model.Common.{
  ℕ, ◌+◌, ◌-◌, ◌*◌, ◌%◌, ◌≤◌, ◌<◌, ◌≡◌, refl, List, [], ◌∷◌, Option, none, some, arith,
  if◌then◌else◌,
}
use c_model.Array.{length, get_or, get_or-replicate, length-replicate, count}
use c_model.TimeWheel.{Store, Wheel, null, slot_count, new_wheel}
use c_model.TimeWheel.Chain.{head_of, Linked, IsDistinct}
use c_model.TimeWheel.Info.{Info, infos, waits, waiting}

-- The timers of each slot, in the order of its list.
abbrev pub View : Type 0
View = ℕ → List ℕ

-- Each slot is the head of a list of distinct timers that were put there and have a callback.
pub record Arranged (w : Wheel) (view : View) : Type 0 where
  pub size : length w.slots ≡ slot_count
  pub current : w.cur_slot < slot_count
  pub no_null : w.timers null ≡ none
  pub linked : (i : ℕ) → i < slot_count → Linked w.timers null (view i)
  pub head : (i : ℕ) → i < slot_count → get_or w.slots i 0 ≡ head_of (view i)
  pub distinct : (i : ℕ) → i < slot_count → IsDistinct (view i)
  pub home :
      (i q : ℕ)
      → i < slot_count
      → 0 < count q (view i)
      → (j : Info) × (f : ℕ) × (infos w q ≡ some j) × (j.time_slot ≡ i) × (j.cb_func ≡ some f)

-- No timer stands in two slots.
pub home_unique :
    (w : Wheel) (view : View) (i k q : ℕ)
    → Arranged w view
    → i < slot_count
    → k < slot_count
    → 0 < count q (view i)
    → 0 < count q (view k)
    → i ≡ k
home_unique w view i k q a hi hk mi mk =
    let (j, f, at, there, cb) = a.home i q hi mi in
    let (l, g, at', there', cb') = a.home k q hk mk in ground arith

-- The wheel waits for this many ticks to come and go before the one in which a timer fires.
abbrev pub ticks_left : ℕ → Info → ℕ
ticks_left cur_slot j = j.rotation * slot_count + (j.time_slot + slot_count - cur_slot) % slot_count

pub count-waiting :
    (v : ℕ → Option Info) (q : ℕ) (ps : List ℕ)
    → count q (waiting v ps) ≡ (if waits (v q) then count q ps else 0)
count-waiting v q [] = ground arith
count-waiting v q (p ∷ ps) = ground (arith, count-waiting v q ps)

pub length-waiting : (v : ℕ → Option Info) (ps : List ℕ) → length (waiting v ps) ≤ length ps
length-waiting v [] = omega arith
length-waiting v (p ∷ ps) = ground (arith, length-waiting v ps)

-- The constructor makes a wheel with empty slots.
pub new_wheel-Arranged : (s : Store) → s null ≡ none → Arranged (new_wheel s) (λ i. [])
unfolding new_wheel
new_wheel-Arranged s e = record {
  size = length-replicate slot_count null;
  current = omega arith;
  no_null = e;
  linked = λ i h. tt;
  head = λ i h. get_or-replicate slot_count i null;
  distinct = λ i h. record { once = λ p. omega arith; no_null = refl };
  home = λ i q h m. absurd (omega arith);
}
