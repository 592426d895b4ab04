-- ===== src/TimeWheel/Due.antt =====
-- The only timer with its callback and data, tick by tick: what is called before it is due, and when.
use c_model.Common.{
  ℕ, zero, suc, ◌+◌, ◌<◌, ◌≡◌, ◌≢◌, refl, ap, sym, subst, ◌∙◌, some, none, arith, ◌==◌, Bool-cases,
  inl, inr, Option,
}
use c_model.Array.{count}
use c_model.Run.{Returns, returns, Returns-bind, Returns-map}
use c_model.TimeWheel.{Wheel, slot_count, tick}
use c_model.TimeWheel.Info.{Info, infos, due_calls}
use c_model.TimeWheel.Valid.{View, Arranged, ticks_left, count-waiting}
use c_model.TimeWheel.Tick.{view_after}
use c_model.TimeWheel.Calls.{called, called-append, due_calls-Silent, due_calls-once}
use c_model.TimeWheel.Timing.{
  Ticked, tick_counts_down, ticks, Pending, LengthsBelow, view_after-LengthsBelow,
}

-- No timer but `p` has the callback `f` and this data.
abbrev pub Only : Wheel → View → ℕ → ℕ → ℕ → Type 0
Only w view p f user_data =
    (i q : ℕ) (j : Info)
    → i < slot_count
    → 0 < count q (view i)
    → p ≢ q
    → infos w q ≡ some j
    → j.cb_func ≡ some f
    → j.user_data ≢ user_data

-- The timer is in the wheel, with its callback and data.
abbrev pub IsIn : Wheel → ℕ → ℕ → ℕ → Type 0
IsIn w p f user_data =
    (j : Info) × (infos w p ≡ some j) × (j.cb_func ≡ some f) × (j.user_data ≡ user_data)

module _ (k : ℕ) (w : Wheel) (view : View) (i p f d : ℕ) where
  Only-Ticked :
      (u : Wheel)
      → Arranged w view
      → Ticked w view u
      → Only w view p f d
      → Only u (view_after w view) p f d
  Only-Ticked u a t only i q l h m ne at cb same =
      let before : 0 < count q (view i) = ground (arith, count-waiting (infos w) q (view i)) in
      let (j, g, was, there, cb') = a.home i q h before in
      by_ticks j was before (ticks_left w.cur_slot j) refl
    where
      by_ticks :
          (j : Info)
          → infos w q ≡ some j
          → 0 < count q (view i)
          → (n : ℕ) → ticks_left w.cur_slot j ≡ n
          → ⊥
      by_ticks j was before zero left =
          let (gone, calls) = t.due i q j h before was left in absurd cc
      by_ticks j was before (suc n) left =
          let (l', at', cb', data', left', member) = t.nearer i q j n h before was left in
          let both : ◌≡◌ {A = Option Info} (some l') (some l) = sym at' ∙ at in
          let same_info : l' ≡ l = cc in
          only i q j h before ne was (sym cb' ∙ ap (λ x. x.cb_func) same_info ∙ cb)
            (sym data' ∙ ap (λ x. x.user_data) same_info ∙ same)

  -- A timer that waits for a tick more is not called by this one, nor is another with its data.
  silent_tick :
      (m : ℕ)
      → Pending w view i p f d (suc m)
      → Only w view p f d
      → called f d (due_calls (infos w) (view w.cur_slot)) ≡ 0
  silent_tick m pending only = due_calls-Silent (infos w) f d (view w.cur_slot) λ q member.
      elim (Bool-cases (p == q)) [
        | inl e ↦
            (let a = pending.arranged in
              let (l, g, at, there, cb) = a.home w.cur_slot q a.current member in
              let (j, at', left, cb', data') = pending.timer in
              let same : p ≡ q = ground arith in
              let both : ◌≡◌ {A = Option Info} (some j) (some l) =
                sym at' ∙ ap (infos w) same ∙ at in
              let same_info : j ≡ l = cc in
              let more : 0 < l.rotation =
                omega (arith, a.current, left, ap (ticks_left w.cur_slot) same_info) in
              λ x here now. absurd (ground (arith, at)))
        | inr e ↦
            λ j here now. only w.cur_slot q j pending.arranged.current member (ground arith) here
      ]

  last_tick :
      Pending w view i p f d 0
      → Only w view p f d
      → called f d (due_calls (infos w) (view w.cur_slot)) ≡ 1
  last_tick pending only =
      let a = pending.arranged in
      let (j, at, left, cb, data') = pending.timer in
      let (l, g, at', there, cb') = a.home i p pending.slot pending.member in
      let both : ◌≡◌ {A = Option Info} (some j) (some l) = sym at ∙ at' in
      let same_info : j ≡ l = cc in
      let home_slot : j.time_slot ≡ i = ap (λ x. x.time_slot) same_info ∙ there in
      let slot_lt = pending.slot in
      let current : i ≡ w.cur_slot = omega (arith, a.current) in
      let now : j.rotation ≡ 0 = omega arith in
      let here : 0 < count p (view w.cur_slot) =
        subst (λ c. 0 < count p (view c)) current pending.member in
      due_calls-once (infos w) f d p j at now cb data' (view w.cur_slot)
        (omega (arith, (a.distinct w.cur_slot a.current).once p))
        λ q member ne l here' waits_not. only w.cur_slot q l a.current member ne here'

-- The timer with `m` ticks to wait for, after some ticks in which `f` was not called with this data.
pub record Later (k : ℕ) (w : Wheel) (i p f d m : ℕ) (u : Wheel) : Type 0 where
  pub view : View
  pub short : LengthsBelow k view
  pub pending : Pending u view i p f d m
  pub only : Only u view p f d
  pub calls : called f d u.calls ≡ called f d w.calls

tick-Later :
    (k : ℕ) (w : Wheel) (view : View) (i p f d m : ℕ)
    → LengthsBelow k view
    → Pending w view i p f d (suc m)
    → Only w view p f d
    → Returns (Later k w i p f d m) (tick k w)
tick-Later k w view i p f d m h pending only =
    let (j, at, left, cb, given) = pending.timer in
    Returns-map (tick_counts_down k w view pending.arranged (h w.cur_slot)) λ u t.
      let (l, at', cb', given', left', member) =
        t.nearer i p j m pending.slot pending.member at left in
      record {
        view = view_after w view;
        short = view_after-LengthsBelow k w view h;
        pending = record {
          arranged = t.arranged;
          slot = pending.slot;
          member = member;
          timer = (l, at', left', cb' ∙ cb, given' ∙ given);
        };
        only = Only-Ticked k w view i p f d u pending.arranged t only;
        calls =
            ap (called f d) t.ran
            ∙ called-append f d w.calls (due_calls (infos w) (view w.cur_slot))
            ∙ omega (arith, silent_tick k w view i p f d m pending only);
      }

-- In the ticks that it waits for, the timer stays in the wheel, and `f` is not called with its data.
pub ticks-Later :
    (n k m : ℕ) (w : Wheel) (view : View) (i p f d : ℕ)
    → LengthsBelow k view
    → Pending w view i p f d (n + m)
    → Only w view p f d
    → Returns (Later k w i p f d m) (ticks n k w)
unfolding ticks
ticks-Later zero k m w view i p f d h pending only = returns (record {
  view = view;
  short = h;
  pending = subst (Pending w view i p f d) (omega arith) pending;
  only = only;
  calls = refl;
})
ticks-Later (suc n) k m w view i p f d h pending only =
    let next : Pending w view i p f d (suc (n + m)) =
      subst (Pending w view i p f d) (omega arith) pending in
    Returns-bind (tick-Later k w view i p f d (n + m) h next only) λ u r.
      Returns-map (ticks-Later n k m u r.view i p f d r.short r.pending r.only) λ u' r'. record {
        view = r'.view;
        short = r'.short;
        pending = r'.pending;
        only = r'.only;
        calls = r'.calls ∙ r.calls;
      }

-- The timer is deleted, and `f` was called with its data, once.
abbrev pub Fired : Wheel → ℕ → ℕ → ℕ → Wheel → Type 0
Fired w p f d u = (infos u p ≡ none) × (called f d u.calls ≡ suc (called f d w.calls))

pub ticks-Fired :
    (n k : ℕ) (w : Wheel) (view : View) (i p f d : ℕ)
    → LengthsBelow k view
    → Pending w view i p f d n
    → Only w view p f d
    → Returns (Fired w p f d) (ticks (suc n) k w)
unfolding ticks
ticks-Fired zero k w view i p f d h pending only =
    let (j, at, left, cb, given) = pending.timer in
    Returns-bind (tick_counts_down k w view pending.arranged (h w.cur_slot)) λ u t.
      let (gone, calls) = t.due i p j pending.slot pending.member at left in
      returns (
        gone,
        ap (called f d) t.ran
            ∙ called-append f d w.calls (due_calls (infos w) (view w.cur_slot))
            ∙ omega (arith, last_tick k w view i p f d pending only),
      )
ticks-Fired (suc n) k w view i p f d h pending only =
    Returns-bind (tick-Later k w view i p f d n h pending only) λ u r.
      Returns-map (ticks-Fired n k u r.view i p f d r.short r.pending r.only)
        λ u' (gone, once). (gone, once ∙ ap suc r.calls)
