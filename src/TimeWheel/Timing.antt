-- ===== src/TimeWheel/Timing.antt =====
-- When a timer fires.
use c_model.Common.{
  ℕ, zero, suc, ◌+◌, ◌%◌, ◌≤◌, ◌<◌, ◌≡◌, ap, ◌∙◌, sym, subst, List, [], ◌∷◌, ◌++◌, Option, none,
  some, arith, ◌==◌, ==-eq, if◌then◌else◌, Bool-cases, inl, inr, append_assoc,
}
use c_model.Array.{length, get_or, get_elem?-get_or, count}
use c_model.Run.{◌>>=◌, Returns, returns, Returns-bind}
use c_model.TimeWheel.{Wheel, slot_count, tick, tick_loop}
use c_model.TimeWheel.Chain.{head_of}
use c_model.TimeWheel.Info.{Info, infos, waits, due_calls, call_of}
use c_model.TimeWheel.Sweep.{tick_loop-Swept}
use c_model.TimeWheel.Valid.{View, Arranged, ticks_left, length-waiting}
use c_model.TimeWheel.Tick.{view_after, start-Sweeping, turned-Arranged, due-here, nearer}

-- Among the calls made between two states is one of `f` with `user_data`.
abbrev pub HasCalled : Wheel → Wheel → ℕ → ℕ → Type 0
HasCalled w w' f user_data =
    (before : List (ℕ × ℕ)) × (after : List (ℕ × ℕ)) × (w'.calls
      ≡ w.calls ++ (before ++ (f, user_data) ∷ after))

-- What a tick leads to: `ran` are the calls of the timers of the current slot that do not wait, in the
-- order of the list; a timer that is due is deleted and its callback has been called; any other comes
-- nearer by one tick and keeps its callback.
pub record Ticked (w : Wheel) (view : View) (w' : Wheel) : Type 0 where
  pub arranged : Arranged w' (view_after w view)
  pub ran : w'.calls ≡ w.calls ++ due_calls (infos w) (view w.cur_slot)
  pub due :
      (i q : ℕ) (j : Info)
      → i < slot_count
      → 0 < count q (view i)
      → infos w q ≡ some j
      → ticks_left w.cur_slot j ≡ 0
      → (infos w' q ≡ none) × ((f : ℕ) → j.cb_func ≡ some f → HasCalled w w' f j.user_data)
  pub nearer :
      (i q : ℕ) (j : Info) (n : ℕ)
      → i < slot_count
      → 0 < count q (view i)
      → infos w q ≡ some j
      → ticks_left w.cur_slot j ≡ suc n
      → (l : Info) × (infos w' q ≡ some l)
        × (l.cb_func ≡ j.cb_func)
        × (l.user_data ≡ j.user_data)
        × (ticks_left w'.cur_slot l ≡ n)
        × (0 < count q (view_after w view i))

due_calls-member :
    (v : ℕ → Option Info) (q : ℕ) (ps : List ℕ) (j : Info) (f : ℕ)
    → 0 < count q ps
    → v q ≡ some j
    → j.rotation ≡ 0
    → j.cb_func ≡ some f
    → (before : List (ℕ × ℕ)) × (after : List (ℕ × ℕ)) × (due_calls v ps
        ≡ before ++ (f, j.user_data) ∷ after)
due_calls-member v q [] j f m at now cb = absurd (omega arith)
due_calls-member v q (p ∷ ps) j f m at now cb = elim (Bool-cases (p == q)) [
  | inl e ↦
      (let same : v p ≡ some j = ap v (==-eq p q e) ∙ at in
        ([], due_calls v ps, ap (λ c. c ++ due_calls v ps) (called (v p) same)))
  | inr e ↦
      (let (before, after, eq) = due_calls-member v q ps j f (ground arith) at now cb in
        let mine = if waits (v p) then [] else call_of (v p) in
        (
          mine ++ before,
          after,
          ap (◌++◌ mine) eq ∙ sym (append_assoc mine before ((f, j.user_data) ∷ after)),
        ))
]
  where
    called :
        (o : Option Info) → o ≡ some j → (if waits o then [] else call_of o) ≡ (f, j.user_data) ∷ []
    called o same = ground arith

tick-turned :
    (k : ℕ) (w : Wheel) (p : ℕ)
    → w.cur_slot < length w.slots
    → get_or w.slots w.cur_slot 0 ≡ p
    → tick k w ≡ (
        tick_loop (suc k) w p >>= λ u. some (record u { cur_slot = (u.cur_slot + 1) % slot_count }))
unfolding tick
tick-turned k w p inside e = rw (get_elem?-get_or w.slots w.cur_slot 0 inside, e)

-- A tick of a wheel whose lists are arranged does not fault, and ends if `k` bounds the length of the
-- current list. It fires the timers that are due and no other, and brings all others one tick nearer.
pub tick_counts_down :
    (k : ℕ) (w : Wheel) (view : View)
    → Arranged w view
    → length (view w.cur_slot) ≤ k
    → Returns (Ticked w view) (tick k w)
tick_counts_down k w view a enough =
    rw
      (tick-turned k w (head_of (view w.cur_slot)) (omega (arith, a.size, a.current))
        (a.head w.cur_slot a.current))
      (Returns-bind
        (tick_loop-Swept (suc k) w [] (view w.cur_slot) (omega arith) (start-Sweeping w view a))
        λ u s. returns (record {
          arranged = turned-Arranged w view a u s;
          ran = s.ran;
          due = λ i q j h m at now.
              let (c, r) = due-here w view a u s i q j h m at now in
              let here = subst (λ t. 0 < count q (view t)) (sym c) m in
              (
                s.handled q ∙ ground (arith, r),
                λ f cb.
                    let (before, after, eq) =
                      due_calls-member (infos w) q (view w.cur_slot) j f here at r cb in
                    (before, after, s.ran ∙ ap (◌++◌ w.calls) eq),
              );
          nearer = nearer w view a u s;
        }))

-- `n` ticks, one after another.
unfoldable pub ticks : ℕ → ℕ → Wheel → Option Wheel
ticks zero k w = some w
ticks (suc n) k w = tick k w >>= ticks n k

-- A timer with `m` ticks to wait for, which stands in slot `i`.
pub record Pending (w : Wheel) (view : View) (i q f user_data m : ℕ) : Type 0 where
  pub arranged : Arranged w view
  pub slot : i < slot_count
  pub member : 0 < count q (view i)
  pub timer :
      (j : Info) × (infos w q ≡ some j)
      × (ticks_left w.cur_slot j ≡ m)
      × (j.cb_func ≡ some f)
      × (j.user_data ≡ user_data)

abbrev pub LengthsBelow : ℕ → View → Type 0
LengthsBelow k view = (i : ℕ) → length (view i) ≤ k

pub view_after-LengthsBelow :
    (k : ℕ) (w : Wheel) (view : View) → LengthsBelow k view → LengthsBelow k (view_after w view)
view_after-LengthsBelow k w view h i = ground (arith, h i, length-waiting (infos w) (view i))
