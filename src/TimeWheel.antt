-- ===== src/TimeWheel.antt =====
-- timer/时间轮/time_wheel.h: a wheel of 60 slots, each the head of a doubly linked list of timers. A tick
-- handles the current slot and goes on to the next; a timer waits for its slot to come round as often
-- as its rotation says.
-- A pointer is a number and 0 is NULL; the objects stand in a store. A read or write through a pointer
-- that is not allocated, a call through a NULL callback and an access outside the array fault (`Run`).
-- `int` is unbounded above. A callback only leaves an entry in a log; it does not call the wheel.
pub mod Chain
pub mod Unlink
pub mod Relink
pub mod Fire
pub mod Info
pub mod Sweep
pub mod Valid
pub mod Tick
pub mod Add
pub mod Del
pub mod Calls
pub mod Due
pub mod Timing
pub mod Destroy
mod Tests
use c_model.Common.{
  ℕ, zero, suc, ◌+◌, ◌-◌, ◌/◌, ◌%◌, List, [], ◌∷◌, ◌++◌, Option, none, some, ltb, ◌==◌,
  if◌then◌else◌, ℤ, pos, negsuc,
}
use c_model.Array.{length, get_elem?, replicate, store}
use c_model.Run.{◌>>=◌}

pub record TwTimer : Type 0 where
  pub rotation : ℕ
  pub time_slot : ℕ
  -- the callback, `none` for NULL
  pub cb_func : Option ℕ
  pub user_data : ℕ
  pub next : ℕ
  pub prev : ℕ

abbrev pub Store : Type 0
Store = ℕ → Option TwTimer

abbrev pub null : ℕ
null = 0

-- The members of `time_wheel`, the store that its pointers lead into, and the calls made of callbacks,
-- oldest first: the callback and its argument.
pub record Wheel : Type 0 where
  pub slots : List ℕ
  pub cur_slot : ℕ
  pub timers : Store
  pub calls : List (ℕ × ℕ)

-- N
abbrev pub slot_count : ℕ
slot_count = 60

-- SI, in seconds
abbrev pub interval : ℕ
interval = 1

-- `*p = t`, an allocation or an update.
abbrev pub write : Store → ℕ → TwTimer → Store
write s p t q = if p == q then some t else s q

abbrev pub remove : Store → ℕ → Store
remove s p q = if p == q then none else s q

-- `p->next = v` and `p->prev = v`
unfoldable pub set_next : Store → ℕ → ℕ → Option Store
set_next s p v = s p >>= λ t. some (write s p (record t { next = v }))

unfoldable pub set_prev : Store → ℕ → ℕ → Option Store
set_prev s p v = s p >>= λ t. some (write s p (record t { prev = v }))

-- `if (p) p->prev = v;`
unfoldable pub set_prev_if : Store → ℕ → ℕ → Option Store
unfolding set_prev
set_prev_if s p v = if p == null then some s else set_prev s p v

-- `delete p`, of a pointer that is not NULL
unfoldable pub free : Store → ℕ → Option Store
free s p = s p >>= λ _. some (remove s p)

-- `time_wheel()`, in a program where the store holds `s`.
unfoldable pub new_wheel : Store → Wheel
new_wheel s = record { slots = replicate slot_count null; cur_slot = 0; timers = s; calls = [] }

-- The number of ticks for a timeout that is not negative.
unfoldable pub ticks_of : ℕ → ℕ
ticks_of timeout = if ltb timeout interval then 1 else timeout / interval

unfoldable pub slot_of : ℕ → ℕ → ℕ
slot_of cur_slot ticks = (cur_slot + ticks % slot_count) % slot_count

-- `add_timer`, where `new` returns the pointer `p`.
unfoldable pub add_timer : Wheel → ℕ → ℤ → Option ℕ → ℕ → Option (ℕ × Wheel)
add_timer w p (negsuc n) cb user_data = some (null, w)
add_timer w p (pos timeout) cb user_data =
    let ticks = ticks_of timeout in
    let ts = slot_of w.cur_slot ticks in
    let timer : TwTimer = record {
      rotation = ticks / slot_count;
      time_slot = ts;
      cb_func = cb;
      user_data = user_data;
      next = null;
      prev = null;
    } in
    get_elem? w.slots ts >>= λ head.
    (if head == null
      then some (write w.timers p timer)
      else set_prev (write w.timers p (record timer { next = head })) head p)
    >>= λ s. store w.slots ts p >>= λ slots. some (p, record w { slots = slots; timers = s })

unfoldable pub del_timer : Wheel → ℕ → Option Wheel
del_timer w timer =
    let found = λ (t : TwTimer). get_elem? w.slots t.time_slot >>= λ head.
    if timer == head
    then (store w.slots t.time_slot t.next >>= λ slots. set_prev_if w.timers t.next null >>= λ s.
        free s timer >>= λ r. some (record w { slots = slots; timers = r }))
    else (set_next w.timers t.prev t.next >>= λ s. set_prev_if s t.next t.prev >>= λ r.
        free r timer >>= λ q. some (record w { timers = q })) in
    if timer == null then some w else w.timers timer >>= found

-- The branch of `tick` for a timer with rounds to wait.
unfoldable pub wait_round : Wheel → ℕ → TwTimer → Wheel
wait_round w tmp t = record w {
  timers = write w.timers tmp (record t { rotation = t.rotation - 1 });
}

-- The branch for a timer that fires: the call, and the unlinking. The loop goes on at what was the
-- next timer, which in the first case is the head of the slot by then.
unfoldable pub fire : Wheel → ℕ → TwTimer → Option Wheel
unfolding set_next set_prev_if free store
fire w tmp t = t.cb_func >>= λ f.
    let calls = w.calls ++ ((f, t.user_data) ∷ []) in
    get_elem? w.slots w.cur_slot >>= λ head.
    if tmp == head
    then (store w.slots w.cur_slot t.next >>= λ slots. free w.timers tmp >>= λ s.
        set_prev_if s t.next null >>= λ r.
        some (record w { slots = slots; timers = r; calls = calls }))
    else (set_next w.timers t.prev t.next >>= λ s. set_prev_if s t.next t.prev >>= λ r.
        free r tmp >>= λ q. some (record w { timers = q; calls = calls }))

-- The loop of `tick` with `tmp` in hand, on fuel.
unfoldable pub tick_loop : ℕ → Wheel → ℕ → Option Wheel
tick_loop zero w tmp = none
tick_loop (suc k) w tmp =
    let on : Wheel → ℕ → Option Wheel = λ u next. tick_loop k u next in
    let round = λ (t : TwTimer).
      if ltb 0 t.rotation
      then on (wait_round w tmp t) t.next
      else fire w tmp t >>= λ u. on u t.next in
    if tmp == null then some w else w.timers tmp >>= round

-- `tick`, where `k` bounds the length of the current slot's list.
unfoldable pub tick : ℕ → Wheel → Option Wheel
tick k w = get_elem? w.slots w.cur_slot >>= λ head.
    tick_loop (suc k) w head >>= λ u. some (record u { cur_slot = (u.cur_slot + 1) % slot_count })

-- `~time_wheel`: the timers of slot `i` are deleted from the head on.
unfoldable pub drain_slot : ℕ → Wheel → ℕ → Option Wheel
drain_slot zero w i = none
drain_slot (suc k) w i =
    let rest : List ℕ → Store → Option Wheel =
      λ slots s. drain_slot k (record w { slots = slots; timers = s }) i in
    get_elem? w.slots i >>= λ tmp.
    if tmp == null
    then some w
    else w.timers tmp >>= λ t.
        store w.slots i t.next >>= λ slots. free w.timers tmp >>= λ s. rest slots s

-- The slots from `i` on, `rounds` of them.
unfoldable pub destroy_from : ℕ → ℕ → ℕ → Wheel → Option Wheel
destroy_from zero i k w = some w
destroy_from (suc rounds) i k w = drain_slot k w i >>= λ u. destroy_from rounds (suc i) k u

-- The whole destructor, where `k` is larger than the length of any list.
unfoldable pub destroy : ℕ → Wheel → Option Wheel
destroy k w = destroy_from slot_count 0 k w
