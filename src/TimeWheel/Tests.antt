-- ===== src/TimeWheel/Tests.antt =====
-- Runs of the wheel, and its theorems at concrete inputs.
use c_model.Common.{
  ℕ, zero, suc, ◌∙◌, false, ◌<◌, ◌≡◌, refl, [], ◌∷◌, none, some, arith, ◌==◌, if◌then◌else◌, pos,
  Bool-cases, inl, inr,
}
use c_model.Array.{count, replicate, get_or, get_or-replicate}
use c_model.Run.{Returns, ◌>>=◌}
use c_model.TimeWheel.{
  Store, Wheel, slot_count, new_wheel, ticks_of, slot_of, add_timer, del_timer, tick, tick_loop,
  wait_round, fire, set_prev, destroy,
}
use c_model.TimeWheel.Chain.{head_of, Linked}
use c_model.TimeWheel.Info.{Info, infos}
use c_model.TimeWheel.Valid.{View, Arranged, new_wheel-Arranged}
use c_model.TimeWheel.Timing.{Ticked, LengthsBelow, ticks, tick_counts_down}
use c_model.TimeWheel.Add.{Added, add_timer_schedules, fires_on_time}
use c_model.TimeWheel.Calls.{called}
use c_model.TimeWheel.Due.{IsIn}
use c_model.TimeWheel.Del.{Deleted, del_timer_unlinks}
use c_model.TimeWheel.Destroy.{Destroyed, destroy_deletes_all}

abbrev nothing : Store
nothing p = none

abbrev fresh : Wheel
fresh = new_wheel nothing

abbrev no_timers : View
no_timers i = []

fresh-Arranged : Arranged fresh no_timers
fresh-Arranged = new_wheel-Arranged nothing refl

-- Timers 4 and 5 wait in slot 0, where 4 fires now and 5 in the next round; 6 is in slot 1.
abbrev waiting_timers : Store
waiting_timers p =
    if p == 4
    then some (record {
      rotation = 0;
      time_slot = 0;
      cb_func = some 8;
      user_data = 80;
      next = 5;
      prev = 0;
    })
    else if p == 5
    then some (record {
      rotation = 1;
      time_slot = 0;
      cb_func = some 9;
      user_data = 90;
      next = 0;
      prev = 4;
    })
    else none

abbrev busy_view : View
busy_view i = if 0 == i then 4 ∷ 5 ∷ [] else []

abbrev busy : Wheel
busy = record { slots = 4 ∷ replicate 59 0; cur_slot = 0; timers = waiting_timers; calls = [] }

busy-head : (i : ℕ) → get_or busy.slots i 0 ≡ head_of (busy_view i)
busy-head zero = refl
busy-head (suc i) = get_or-replicate 59 i 0 ∙ ground arith

busy-Linked : (i : ℕ) → Linked waiting_timers 0 (busy_view i)
busy-Linked zero = ((_, refl, refl, refl), ((_, refl, refl, refl), tt))
busy-Linked (suc i) = let other : (0 == suc i) ≡ false = ground arith in rw other tt

busy-home :
    (i q : ℕ)
    → i < slot_count
    → 0 < count q (busy_view i)
    → (j : Info) × (f : ℕ) × (infos busy q ≡ some j) × (j.time_slot ≡ i) × (j.cb_func ≡ some f)
busy-home i q h m = elim (Bool-cases (4 == q)) [
  | inl e ↦ (
    record { rotation = 0; time_slot = 0; cb_func = some 8; user_data = 80 },
    8,
    ground arith,
    ground arith,
    refl,
  )
  | inr e ↦ (
    record { rotation = 1; time_slot = 0; cb_func = some 9; user_data = 90 },
    9,
    ground arith,
    ground arith,
    refl,
  )
]

busy-Arranged : Arranged busy busy_view
busy-Arranged = record {
  size = refl;
  current = omega arith;
  no_null = refl;
  linked = λ i h. busy-Linked i;
  head = λ i h. busy-head i;
  distinct = λ i h. record { once = λ p. ground arith; no_null = ground arith };
  home = busy-home;
}

busy-LengthsBelow : LengthsBelow 2 busy_view
busy-LengthsBelow i = ground arith

tick_counts_down_example : Returns (Ticked busy busy_view) (tick 2 busy)
tick_counts_down_example = tick_counts_down 2 busy busy_view busy-Arranged (omega arith)

del_timer_unlinks_example : Returns (Deleted busy busy_view 0 5) (del_timer busy 5)
del_timer_unlinks_example =
    del_timer_unlinks busy busy_view 0 5 busy-Arranged (omega arith) (omega arith)

destroy_deletes_all_example : Returns (Destroyed 0 busy busy_view) (destroy 3 busy)
destroy_deletes_all_example = destroy_deletes_all 2 busy busy_view busy-Arranged busy-LengthsBelow

-- Two timers for the same slot: the later one is the head, and both have run after two ticks.
two_ticks :
    (add_timer fresh 4 (pos 1) (some 8) 80 >>= λ r.
    add_timer r.1 5 (pos 0) (some 9) 90 >>= λ s. ticks 2 3 s.1 >>= λ u. some u.calls)
    ≡ some ((9, 90) ∷ (8, 80) ∷ [])
unfolding new_wheel add_timer ticks_of slot_of set_prev ticks tick tick_loop fire wait_round
two_ticks = refl

fires_on_time_example :
    Returns
      (λ u. IsIn u 4 8 80 × (called 8 80 u.calls ≡ 0))
      (add_timer fresh 4 (pos 61) (some 8) 80 >>= λ r. ticks 30 1 r.1)
    × Returns
        (λ u. (infos u 4 ≡ none) × (called 8 80 u.calls ≡ 1))
        (add_timer fresh 4 (pos 61) (some 8) 80 >>= λ r. ticks 62 1 r.1)
unfolding new_wheel
fires_on_time_example =
    fires_on_time fresh no_timers 4 61 8 80 fresh-Arranged refl (omega arith) 1 30
      (λ i. ground arith) (λ i q j h m. absurd (omega arith)) (omega arith)

add_timer_schedules_example :
    Returns (Added fresh no_timers 4 61 8 80) (add_timer fresh 4 (pos 61) (some 8) 80)
unfolding new_wheel
add_timer_schedules_example =
    add_timer_schedules fresh no_timers 4 61 8 80 fresh-Arranged refl (omega arith)
