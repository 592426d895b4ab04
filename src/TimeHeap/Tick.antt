-- ===== src/TimeHeap/Tick.antt =====
-- `tick`: all timers that are due run, in the order of their expiry times, and leave the heap.
use c_model.Common.{
  ℕ, zero, suc, ◌+◌, ◌≤◌, ◌<◌, ◌≡◌, ◌≢◌, refl, ◌∙◌, sym, subst, List, [], ◌∷◌, ◌++◌, Option, none,
  some, arith, ltb, ◌==◌, if◌then◌else◌, Bool-cases, inl, inr, append-nil, append_assoc,
}
use c_model.Array.{count-pos-ne, get_elem?, get_elem?-get_or, count, occurs-none}
use c_model.Run.{◌>>=◌, Returns, returns, Returns-bind, Returns-map, Returns-if}
use c_model.TimeHeap.{HeapTimer, Store, World, null, remove, empty, run_callback, tick_loop, tick}
use c_model.TimeHeap.Sift.{expire_of, expire_at-eq_some}
use c_model.TimeHeap.Valid.{IsValid, held, live-ne-null, first_of_heap, first-IsLive, first_least}
use c_model.TimeHeap.Pop.{Popped, pop_timer_removes_first}

-- The call that a timer leads to when it fires.
abbrev pub call_of : Option HeapTimer → List (ℕ × ℕ)
call_of none = []
call_of (some t) = elim t.cb_func [ none ↦ [] | some f ↦ (f, t.user_data) ∷ [] ]

abbrev pub calls_of : Store → List ℕ → List (ℕ × ℕ)
calls_of s [] = []
calls_of s (p ∷ ps) = call_of (s p) ++ calls_of s ps

-- In ascending order of expiry.
abbrev pub IsSorted : Store → List ℕ → Type 0
IsSorted s [] = Unit
IsSorted s (p ∷ ps) = ((q : ℕ) → 0 < count q ps → expire_of s p ≤ expire_of s q) × IsSorted s ps

-- What `tick` at time `cur` leads to: `fired` holds the timers that were due, in ascending order of
-- expiry. They are gone from the heap and deleted, their callbacks have run in that order, and the
-- timers that are left in the heap expire later.
pub record Ticked (cur : ℕ) (w w' : World) : Type 0 where
  pub fired : List ℕ
  pub valid : IsValid w'
  pub split : (p : ℕ) → held w' p + count p fired ≡ held w p
  pub due : (p : ℕ) → 0 < count p fired → expire_of w.timers p ≤ cur
  pub sorted : IsSorted w.timers fired
  pub pending : (p : ℕ) → 0 < held w' p → cur < expire_of w.timers p
  pub timers : (p : ℕ) → w'.timers p ≡ (if ltb 0 (count p fired) then none else w.timers p)
  pub ran : w'.calls ≡ w.calls ++ calls_of w.timers fired

calls_of-remove :
    (s : Store) (p : ℕ) (ps : List ℕ) → count p ps ≡ 0 → calls_of (remove s p) ps ≡ calls_of s ps
calls_of-remove s p [] h = refl
calls_of-remove s p (q ∷ ps) h =
    let other : remove s p q ≡ s q = ground arith in
    rw (other, calls_of-remove s p ps (omega arith))

IsSorted-remove :
    (s : Store) (p : ℕ) (ps : List ℕ) → count p ps ≡ 0 → IsSorted (remove s p) ps → IsSorted s ps
IsSorted-remove s p [] h o = tt
IsSorted-remove s p (q ∷ ps) h o =
    (λ r m. ground (arith, o.0 r, count-pos-ne p r ps), IsSorted-remove s p ps (omega arith) o.1)

-- `run_callback` logs the call of the first timer, if it has a callback.
run_callback_lem :
    (w : World)
    → IsValid w
    → 0 < w.heap.cur_size
    → run_callback w ≡ some (record w { calls = w.calls ++ call_of (w.timers (first_of_heap w)) })
unfolding run_callback
run_callback_lem w v h =
    let (t, found) = first-IsLive w v h in
    rw (get_elem?-get_or w.heap.array 0 0 (omega (arith, v.sized)), found) (log t)
  where
    log :
        (t : HeapTimer)
        → ((some t >>= λ u. elim u.cb_func [
          | none ↦ some w
          | some f ↦ some (record w { calls = w.calls ++ ((f, u.user_data) ∷ []) })
        ])
            ≡ some (record w { calls = w.calls ++ call_of (some t) }))
    log t = ground (arith, append-nil w.calls)

-- The callback of the first timer does not touch the heap.
with_calls-IsValid : (w : World) (c : List (ℕ × ℕ)) → IsValid w → IsValid (record w { calls = c })
with_calls-IsValid w c v = record {
  sized = v.sized;
  live = v.live;
  once = v.once;
  ordered = v.ordered;
  no_null = v.no_null;
}

-- A tick that finds nothing due.
idle-Ticked :
    (cur : ℕ) (w : World)
    → IsValid w
    → ((p : ℕ) → 0 < held w p → cur < expire_of w.timers p)
    → Ticked cur w w
idle-Ticked cur w v later = record {
  fired = [];
  valid = v;
  split = λ p. omega arith;
  due = λ p h. absurd (omega arith);
  sorted = tt;
  pending = later;
  timers = λ p. refl;
  ran = sym (append-nil w.calls);
}

-- The first timer fires, and then the others that are due.
fire-Ticked :
    (cur : ℕ) (w u w' : World)
    → IsValid w
    → 0 < w.heap.cur_size
    → expire_of w.timers (first_of_heap w) ≤ cur
    → Popped (record w { calls = w.calls ++ call_of (w.timers (first_of_heap w)) }) u
    → Ticked cur u w'
    → Ticked cur w w'
fire-Ticked cur w u w' v pos due d t =
    let p = first_of_heap w in
    let gone : count p t.fired ≡ 0 = ground (arith, t.split p, d.one_less p, v.once p) in
    let fired : (q : ℕ) → 0 < count q t.fired → p ≢ q = λ q m. count-pos-ne p q t.fired gone m in
    let kept : (q : ℕ) → p ≢ q → u.timers q ≡ w.timers q =
      λ q ne. rw d.timers_left (ground arith) in
    let pending : (q : ℕ) → 0 < held w' q → p ≢ q = λ q h e.
      let h' : 0 < held w' p = subst (λ k. 0 < held w' k) (sym e) h in
      absurd (ground (arith, t.split p, d.one_less p, v.once p, gone)) in
    record {
      fired = p ∷ t.fired;
      valid = t.valid;
      split = λ q. omega (arith, t.split q, d.one_less q);
      due = λ q m. elim (Bool-cases (p == q)) [
        | inl e ↦ ground arith
        | inr e ↦ ground (arith, t.due q, kept q)
      ];
      sorted = (
        λ q m. first_least w q v (ground (arith, t.split q, d.one_less q)),
        IsSorted-remove w.timers p t.fired gone (rw d.timers_left at t.sorted),
      );
      pending = λ q h. ground (arith, t.pending q, kept q, pending q);
      timers = λ q. t.timers q ∙ rw d.timers_left (ground arith);
      ran =
          t.ran
          ∙ rw (d.same_calls, d.timers_left, calls_of-remove w.timers p t.fired gone)
              (append_assoc w.calls (call_of (w.timers p)) (calls_of w.timers t.fired));
    }

tick_loop-Ticked :
    (k cur : ℕ) (w : World)
    → w.heap.cur_size < k
    → IsValid w
    → Returns (Ticked cur w) (tick_loop k cur w (first_of_heap w))
unfolding tick_loop empty
tick_loop-Ticked zero cur w f v = absurd (omega arith)
tick_loop-Ticked (suc k) cur w f v =
    let p = first_of_heap w in
    Returns-if (empty w.heap)
      (λ e. returns (
        idle-Ticked cur w v
          (λ q h. absurd (ground (arith, occurs-none w.heap.cur_size w.heap.array q)))))
      λ some_left.
        let pos : 0 < w.heap.cur_size = ground arith in
        let live = first-IsLive w v pos in
        Returns-if (p == null)
          (λ e. absurd (ground (arith, live-ne-null w.timers p v.no_null live)))
          λ _. rw (expire_at-eq_some w.timers p live) (
            Returns-if (ltb cur (expire_of w.timers p))
              (λ later. returns (idle-Ticked cur w v (λ q h. ground (arith, first_least w q v h))))
              λ due. rw (run_callback_lem w v pos) (
                Returns-bind
                  (pop_timer_removes_first (record w { calls = w.calls ++ call_of (w.timers p) })
                    (with_calls-IsValid w (w.calls ++ call_of (w.timers p)) v) pos)
                  λ u d. rw (get_elem?-get_or u.heap.array 0 0 (omega (arith, d.valid.sized))) (
                    Returns-map (tick_loop-Ticked k cur u (omega (arith, d.smaller)) d.valid)
                      λ w' t. fire-Ticked cur w u w' v pos (ground arith) d t)))

tick-start :
    (cur : ℕ) (w : World) (p : ℕ)
    → get_elem? w.heap.array 0 ≡ some p
    → tick cur w ≡ tick_loop (suc w.heap.cur_size) cur w p
unfolding tick
tick-start cur w p e = rw e

-- `tick` on a valid heap does not fault and ends. It fires exactly the timers that are due, in
-- ascending order of expiry, runs their callbacks in that order, and deletes them; the heap that is
-- left is valid, and all of its timers expire later.
pub tick_fires_due : (cur : ℕ) (w : World) → IsValid w → Returns (Ticked cur w) (tick cur w)
tick_fires_due cur w v =
    rw
      (tick-start cur w (first_of_heap w)
        (get_elem?-get_or w.heap.array 0 0 (omega (arith, v.sized))))
      (tick_loop-Ticked (suc w.heap.cur_size) cur w (omega arith) v)
