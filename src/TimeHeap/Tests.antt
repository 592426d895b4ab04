-- ===== src/TimeHeap/Tests.antt =====
-- Runs of the heap, and its theorems at concrete inputs.
use c_model.Common.{
  ℕ, ◌*◌, ◌<◌, ◌≡◌, refl, [], ◌∷◌, Option, none, some, arith, ◌==◌, if◌then◌else◌, inl, inr,
  Bool-cases,
}
use c_model.Array.{occurs}
use c_model.Run.{Returns, ◌>>=◌}
use c_model.TimeHeap.{HeapTimer, Store, TimeHeap, World, add_timer, pop_timer, tick, new_from}
use c_model.TimeHeap.Sift.{IsLive}
use c_model.TimeHeap.Valid.{IsValid, held}
use c_model.TimeHeap.Add.{Added, add_timer_holds}
use c_model.TimeHeap.Pop.{Popped, pop_timer_removes_first}
use c_model.TimeHeap.Tick.{Ticked, tick_fires_due}
use c_model.TimeHeap.New.{Holding, new_from_holds}

abbrev timer_at : ℕ → ℕ → HeapTimer
timer_at e f = record { expire = e; cb_func = some f; user_data = 10 * f }

abbrev timers : Store
timers p =
    if p == 1
    then some (timer_at 5 71)
    else if p == 2
    then some (timer_at 9 72)
    else if p == 3
    then some (timer_at 3 73)
    else none

abbrev pair : World
pair = record {
  heap = record { array = 1 ∷ 2 ∷ []; capacity = 2; cur_size = 2 };
  timers = timers;
  calls = [];
}

pair-IsLive : (p : ℕ) → 0 < held pair p → IsLive timers p
pair-IsLive p h = elim (Bool-cases (1 == p)) [
  | inl e ↦ (timer_at 5 71, ground arith)
  | inr e ↦ (timer_at 9 72, ground arith)
]

pair-IsValid : IsValid pair
pair-IsValid = record {
  sized = omega arith;
  live = pair-IsLive;
  once = λ p. ground arith;
  ordered = λ c p q r. let second : c ≡ 1 = omega arith in rw second (omega arith);
  no_null = refl;
}

-- A third timer makes the array grow, and goes to the root.
grown :
    (add_timer pair 3 >>= λ w. some w.heap)
    ≡ some (record { array = 3 ∷ 2 ∷ 1 ∷ 0 ∷ []; capacity = 4; cur_size = 3 })
unfolding add_timer
grown = refl

-- At time 6 the timers 3 and 1 have fired, in this order.
fired_by_six :
    (add_timer pair 3 >>= λ w. tick 6 w >>= λ u. some u.calls) ≡ some ((73, 730) ∷ (71, 710) ∷ [])
unfolding add_timer tick
fired_by_six = refl

three-IsLive : IsLive timers 3
three-IsLive = (timer_at 3 73, refl)

tick_fires_due_example : Returns (Ticked 6 pair) (tick 6 pair)
tick_fires_due_example = tick_fires_due 6 pair pair-IsValid

add_timer_holds_example : Returns (Added pair 3) (add_timer pair 3)
add_timer_holds_example = add_timer_holds pair 3 pair-IsValid three-IsLive refl

pop_timer_removes_first_example : Returns (Popped pair) (pop_timer pair)
pop_timer_removes_first_example = pop_timer_removes_first pair pair-IsValid (omega arith)

given-IsLive : (p : ℕ) → 0 < occurs 2 (2 ∷ 1 ∷ []) p → IsLive timers p
given-IsLive p h = elim (Bool-cases (1 == p)) [
  | inl e ↦ (timer_at 5 71, ground arith)
  | inr e ↦ (timer_at 9 72, ground arith)
]

new_from_holds_example :
    (r : Option TimeHeap) × (new_from timers (2 ∷ 1 ∷ []) 2 4 ≡ inr r)
    × Returns (Holding timers (2 ∷ 1 ∷ []) 2 4) r
new_from_holds_example =
    new_from_holds timers (2 ∷ 1 ∷ []) 2 4 (omega arith) (omega arith) (omega arith) refl
      given-IsLive (λ p. ground arith)
