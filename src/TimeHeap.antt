-- ===== src/TimeHeap.antt =====
-- timer/时间堆/time_heap.h: timers in a binary min-heap of pointers, ordered by their expiry time.
-- A pointer is a number and 0 is NULL; the objects stand in a store, which maps a pointer to the
-- timer that it leads to, and to `none` when nothing is allocated there. A read through such a
-- pointer and an access outside the array fault (`Run`).
-- `int` is unbounded: indices stay below 2 * capacity + 2. An expiry time is a number of seconds from
-- the epoch. A callback only leaves an entry in a log; it does not call the heap.
pub mod Order
pub mod Sift
pub mod Valid
pub mod Add
pub mod Pop
pub mod Del
pub mod Tick
pub mod New
mod Tests
use c_model.Common.{
  ℕ, zero, suc, ◌+◌, ◌-◌, ◌*◌, ◌/◌, ◌≤◌, ◌<◌, ◌≡◌, Bool, List, [], ◌∷◌, ◌++◌, Option, none, some,
  ltb, leb, ◌==◌, if◌then◌else◌, ◌⊎◌, inl, inr,
}
use c_model.Array.{length, set, get_elem?, replicate, store}
use c_model.Run.{◌>>=◌}

pub record HeapTimer : Type 0 where
  pub expire : ℕ
  -- the callback, `none` for NULL
  pub cb_func : Option ℕ
  pub user_data : ℕ

abbrev pub Store : Type 0
Store = ℕ → Option HeapTimer

abbrev pub null : ℕ
null = 0

-- The private members of `time_heap`.
pub record TimeHeap : Type 0 where
  pub array : List ℕ
  pub capacity : ℕ
  pub cur_size : ℕ

-- The heap, the store that its pointers lead into, and the calls made of callbacks, oldest first:
-- the callback and its argument.
pub record World : Type 0 where
  pub heap : TimeHeap
  pub timers : Store
  pub calls : List (ℕ × ℕ)

-- `*p = t`, an allocation or an update.
unfoldable pub write : Store → ℕ → HeapTimer → Store
write s p t q = if p == q then some t else s q

abbrev pub remove : Store → ℕ → Store
remove s p q = if p == q then none else s q

-- `delete p`, which faults at a pointer that is not allocated, except that deleting NULL does
-- nothing.
unfoldable pub free : Store → ℕ → Option Store
free s p = if p == null then some s else s p >>= λ _. some (remove s p)

-- `p->expire`
unfoldable pub expire_at : Store → ℕ → Option ℕ
expire_at s p = s p >>= λ t. some t.expire

-- `array[i]->expire`
unfoldable pub slot_expire : Store → List ℕ → ℕ → Option ℕ
unfolding expire_at
slot_expire s a i = get_elem? a i >>= λ p. expire_at s p

unfoldable pub empty : TimeHeap → Bool
empty h = h.cur_size == 0

abbrev pub parent : ℕ → ℕ
parent c = (c - 1) / 2

-- The choice of the child to compare with in the loop of `percolate_down`.
unfoldable pub pick_child : Store → ℕ → List ℕ → ℕ → Option ℕ
unfolding slot_expire
pick_child s n a child =
    if ltb child (n - 1)
    then (slot_expire s a (child + 1) >>= λ right.
        slot_expire s a child >>= λ left. some (if ltb right left then child + 1 else child))
    else some child

-- The loop of `percolate_down` with `temp` in hand, and the write after it, on fuel.
unfoldable pub percolate_down_loop : ℕ → Store → ℕ → ℕ → List ℕ → ℕ → Option (List ℕ)
unfolding pick_child expire_at slot_expire store
percolate_down_loop zero s n temp a hole = none
percolate_down_loop (suc k) s n temp a hole =
    let sink : ℕ → Option (List ℕ) = λ child.
      get_elem? a child >>= λ p. store a hole p >>= λ b. percolate_down_loop k s n temp b child in
    let round = pick_child s n a (hole * 2 + 1) >>= λ child. slot_expire s a child >>= λ below.
    expire_at s temp >>= λ mine. if ltb below mine then sink child else store a hole temp in
    if leb (hole * 2 + 1) (n - 1) then round else store a hole temp

unfoldable pub percolate_down : Store → TimeHeap → ℕ → Option TimeHeap
unfolding percolate_down_loop
percolate_down s h hole = get_elem? h.array hole >>= λ temp.
    percolate_down_loop (suc h.cur_size) s h.cur_size temp h.array hole >>= λ a.
    some (record h { array = a })

-- `for (i = from; i < from + count; ++i) temp[i] = array[i]`
unfoldable pub copy_slots : ℕ → ℕ → List ℕ → List ℕ → Option (List ℕ)
unfolding store
copy_slots zero i source target = some target
copy_slots (suc k) i source target =
    let rest = λ (b : List ℕ). copy_slots k (suc i) source b in
    get_elem? source i >>= λ p. store target i p >>= rest

-- A twice as large array, filled with NULL, takes over the slots in use.
unfoldable pub resize : TimeHeap → Option TimeHeap
unfolding copy_slots
resize h = copy_slots h.cur_size 0 h.array (replicate (2 * h.capacity) null) >>= λ a.
    some (record h { array = a; capacity = 2 * h.capacity })

-- The loop of `add_timer` that moves the hole towards the root, and the write after it, on fuel.
unfoldable pub percolate_up_loop : ℕ → Store → ℕ → List ℕ → ℕ → Option (List ℕ)
unfolding slot_expire expire_at store
percolate_up_loop zero s timer a hole = none
percolate_up_loop (suc k) s timer a hole =
    let rise = get_elem? a (parent hole) >>= λ p.
    store a hole p >>= λ b. percolate_up_loop k s timer b (parent hole) in
    let round = slot_expire s a (parent hole) >>= λ above.
    expire_at s timer >>= λ mine. if leb above mine then store a hole timer else rise in
    if ltb 0 hole then round else store a hole timer

unfoldable pub add_timer : World → ℕ → Option World
unfolding resize percolate_up_loop
add_timer w timer =
    if timer == null
    then some w
    else ((if leb w.heap.capacity w.heap.cur_size then resize w.heap else some w.heap) >>= λ h.
        percolate_up_loop (suc h.cur_size) w.timers timer h.array h.cur_size >>= λ a.
        some (record w { heap = record h { array = a; cur_size = suc h.cur_size } }))

-- The timer stays in the heap and loses its callback.
unfoldable pub del_timer : World → ℕ → Option World
unfolding write
del_timer w timer =
    if timer == null
    then some w
    else w.timers timer >>= λ t.
        some (record w { timers = write w.timers timer (record t { cb_func = none }) })

unfoldable pub top : TimeHeap → Option ℕ
unfolding empty
top h = if empty h then some null else get_elem? h.array 0

unfoldable pub pop_timer : World → Option World
unfolding empty free percolate_down store
pop_timer w =
    let drop = λ (first : ℕ). free w.timers first >>= λ s.
    get_elem? w.heap.array (w.heap.cur_size - 1) >>= λ p. store w.heap.array 0 p >>= λ a.
    percolate_down s (record w.heap { array = a; cur_size = w.heap.cur_size - 1 }) 0 >>= λ h.
    some (record w { heap = h; timers = s }) in
    if empty w.heap
    then some w
    else get_elem? w.heap.array 0 >>= λ first. if first == null then some w else drop first

-- `array[0]->cb_func( array[0]->user_data )`, if there is a callback.
unfoldable pub run_callback : World → Option World
run_callback w = get_elem? w.heap.array 0 >>= λ p. w.timers p >>= λ t. elim t.cb_func [
  | none ↦ some w
  | some f ↦ some (record w { calls = w.calls ++ ((f, t.user_data) ∷ []) })
]

-- The loop of `tick` at time `cur` with `tmp` in hand, on fuel.
unfoldable pub tick_loop : ℕ → ℕ → World → ℕ → Option World
unfolding empty expire_at run_callback pop_timer
tick_loop zero cur w tmp = none
tick_loop (suc k) cur w tmp =
    let fire = run_callback w >>= λ v.
    pop_timer v >>= λ u. get_elem? u.heap.array 0 >>= λ next. tick_loop k cur u next in
    let round = expire_at w.timers tmp >>= λ e. if ltb cur e then some w else fire in
    if empty w.heap then some w else if tmp == null then some w else round

unfoldable pub tick : ℕ → World → Option World
unfolding tick_loop
tick cur w = get_elem? w.heap.array 0 >>= λ tmp. tick_loop (suc w.heap.cur_size) cur w tmp

-- `time_heap( int cap )`
unfoldable pub new_empty : ℕ → TimeHeap
new_empty cap = record { array = replicate cap null; capacity = cap; cur_size = 0 }

-- `for ( int i = from; i >= 0; --i ) percolate_down( i )`, where the
-- first argument is `from` + 1.
unfoldable pub heapify : ℕ → Store → TimeHeap → Option TimeHeap
unfolding percolate_down
heapify zero s h = some h
heapify (suc i) s h = percolate_down s h i >>= λ g. heapify i s g

-- What the second constructor throws.
pub data Exception : Type 0 where
  too_small : Exception

-- `time_heap( heap_timer** init_array, int size, int capacity )`
unfoldable pub new_from : Store → List ℕ → ℕ → ℕ → Exception ⊎ Option TimeHeap
unfolding copy_slots heapify
new_from s init_array size capacity =
    if ltb capacity size
    then inl too_small
    else inr (
        if size == 0
        then some (new_empty capacity)
        else copy_slots size 0 init_array (replicate capacity null) >>= λ a.
            heapify (suc ((size - 1) / 2)) s
              (record { array = a; capacity = capacity; cur_size = size }))

-- `~time_heap`: deletes the timers from slot `i` on; the array goes away with the heap.
unfoldable pub destroy_from : ℕ → ℕ → List ℕ → Store → Option Store
unfolding free
destroy_from zero i a s = some s
destroy_from (suc k) i a s =
    let rest = λ (r : Store). destroy_from k (suc i) a r in get_elem? a i >>= λ p. free s p >>= rest

unfoldable pub destroy : TimeHeap → Store → Option Store
unfolding destroy_from
destroy h s = destroy_from h.cur_size 0 h.array s
