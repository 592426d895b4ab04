-- ===== src/TimeWheel/Tick.antt =====
-- `tick`: the timers of the current slot that are due fire, all others come one tick nearer.
use c_model.Common.{
  ℕ, suc, ◌+◌, ◌-◌, ◌%◌, ◌<◌, ◌≡◌, ◌≢◌, refl, ◌∙◌, subst, [], some, arith, ◌==◌, ltb, if◌then◌else◌,
  true, Bool-cases, inl, inr,
}
use c_model.Array.{get_or, count}
use c_model.TimeWheel.{Wheel, null, slot_count}
use c_model.TimeWheel.Chain.{head_of, Linked, IsDistinct, Linked-ext}
use c_model.TimeWheel.Info.{Info, infos, waits, waiting}
use c_model.TimeWheel.Sweep.{Sweeping, Swept}
use c_model.TimeWheel.Valid.{View, Arranged, home_unique, ticks_left, count-waiting}

-- The slots after a tick.
abbrev pub view_after : Wheel → View → View
view_after w view i = if w.cur_slot == i then waiting (infos w) (view i) else view i

pub start-Sweeping : (w : Wheel) (view : View) → Arranged w view → Sweeping w [] (view w.cur_slot)
start-Sweeping w view a = record {
  no_null = a.no_null;
  distinct = a.distinct w.cur_slot a.current;
  linked = a.linked w.cur_slot a.current;
  inside = omega (arith, a.size, a.current);
  head = a.head w.cur_slot a.current;
  callable = λ q m. let (j, f, at, there, cb) = a.home w.cur_slot q a.current m in (j, f, at, cb);
}

module _ (w : Wheel) (view : View) (a : Arranged w view) (u : Wheel)
    (s : Swept w [] (view w.cur_slot) u) where
  -- the wheel at the end of `tick`
  abbrev pub turned : Wheel
  turned = record u { cur_slot = (u.cur_slot + 1) % slot_count }

  elsewhere :
      (i q : ℕ)
      → i < slot_count
      → w.cur_slot ≢ i
      → 0 < count q (view i)
      → count q (view w.cur_slot) ≡ 0
  elsewhere i q h ne m = elim (Bool-cases (ltb 0 (count q (view w.cur_slot)))) [
    | inl both ↦ absurd (ne (home_unique w view w.cur_slot i q a a.current h (ground arith) m))
    | inr gone ↦ ground arith
  ]

  here : (i : ℕ) → (w.cur_slot == i) ≡ true → w.cur_slot ≡ i
  here i e = ground arith

  turned-Linked : (i : ℕ) → i < slot_count → Linked u.timers null (view_after w view i)
  turned-Linked i h = elim (Bool-cases (w.cur_slot == i)) [
    | inl e ↦
        rw e (subst (λ k. Linked u.timers null (waiting (infos w) (view k))) (here i e) s.linked)
    | inr e ↦ rw e (
        Linked-ext w.timers u.timers null (view i)
          (λ p m. s.untouched p (elsewhere i p h (ground arith) m)) (a.linked i h))
  ]

  turned-head : (i : ℕ) → i < slot_count → get_or u.slots i 0 ≡ head_of (view_after w view i)
  turned-head i h = elim (Bool-cases (w.cur_slot == i)) [
    | inl e ↦
        rw e
          (subst (λ k. get_or u.slots k 0 ≡ head_of (waiting (infos w) (view k))) (here i e) s.head)
    | inr e ↦ rw e (s.others i (ground arith) ∙ a.head i h)
  ]

  turned-IsDistinct : (i : ℕ) → i < slot_count → IsDistinct (view_after w view i)
  turned-IsDistinct i h = record {
    once = λ p. ground (arith, (a.distinct i h).once p, count-waiting (infos w) p (view i));
    no_null = ground (arith, (a.distinct i h).no_null, count-waiting (infos w) 0 (view i));
  }

  turned-home :
      (i q : ℕ)
      → i < slot_count
      → 0 < count q (view_after w view i)
      → (j : Info) × (f : ℕ) × (infos u q ≡ some j) × (j.time_slot ≡ i) × (j.cb_func ≡ some f)
  turned-home i q h m = elim (Bool-cases (w.cur_slot == i)) [
    | inl e ↦
        (let kept : 0 < count q (waiting (infos w) (view i)) = rw e at m in
          let (j, f, at, there, cb) =
            a.home i q h (ground (arith, count-waiting (infos w) q (view i))) in
          let same = here i e in
          (
            record j { rotation = j.rotation - 1 },
            f,
            s.handled q ∙ ground (arith, count-waiting (infos w) q (view i), same),
            there,
            cb,
          ))
    | inr e ↦
        (let before : 0 < count q (view i) = rw e at m in
          let (j, f, at, there, cb) = a.home i q h before in
          (j, f, s.handled q ∙ ground (arith, elsewhere i q h (ground arith) before), there, cb))
  ]

  pub turned-Arranged : Arranged turned (view_after w view)
  turned-Arranged = record {
    size = s.size ∙ a.size;
    current = omega arith;
    no_null = s.untouched null ((a.distinct w.cur_slot a.current).no_null) ∙ a.no_null;
    linked = turned-Linked;
    head = turned-head;
    distinct = turned-IsDistinct;
    home = turned-home;
  }

  -- a timer that is due is in the current slot and does not wait
  pub due-here :
      (i q : ℕ) (j : Info)
      → i < slot_count
      → 0 < count q (view i)
      → infos w q ≡ some j
      → ticks_left w.cur_slot j ≡ 0
      → (w.cur_slot ≡ i) × (j.rotation ≡ 0)
  due-here i q j h m at none_left =
      let (l, f, at', there, cb) = a.home i q h m in
      let same : j.time_slot ≡ i = ground arith in omega (arith, a.current)

  -- how near a timer is after the tick
  pub nearer :
      (i q : ℕ) (j : Info) (n : ℕ)
      → i < slot_count
      → 0 < count q (view i)
      → infos w q ≡ some j
      → ticks_left w.cur_slot j ≡ suc n
      → (l : Info) × (infos u q ≡ some l)
        × (l.cb_func ≡ j.cb_func)
        × (l.user_data ≡ j.user_data)
        × (ticks_left turned.cur_slot l ≡ n)
        × (0 < count q (view_after w view i))
  nearer i q j n h m at left =
      let (l, f, at', there, cb) = a.home i q h m in
      let same : j.time_slot ≡ i = ground arith in
      elim (Bool-cases (w.cur_slot == i)) [
        | inl e ↦
            (let c = here i e in
              let more : 0 < j.rotation = omega (arith, a.current) in
              let stays : waits (infos w q) ≡ true = rw at (ground arith) in
              (
                record j { rotation = j.rotation - 1 },
                s.handled q ∙ ground (arith, c),
                refl,
                refl,
                rw s.same_slot (omega (arith, a.current)),
                ground (arith, count-waiting (infos w) q (view i)),
              ))
        | inr e ↦
            (let apart : w.cur_slot ≢ i = ground arith in
              (
                j,
                s.handled q ∙ ground (arith, elsewhere i q h apart m),
                refl,
                refl,
                rw s.same_slot (omega (arith, a.current)),
                ground arith,
              ))
      ]
