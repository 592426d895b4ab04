-- ===== src/TimeWheel/Add.antt =====
-- `add_timer`: a new timer becomes the head of the list of the slot in which it is due.
use mathlib.Core.Path.{fun_ext}
use c_model.Common.{
  ℕ, zero, suc, ◌+◌, ◌-◌, ◌%◌, ◌≤◌, ltb, sym, ◌/◌, ◌<◌, ◌≡◌, ◌≢◌, refl, ap, ◌∙◌, subst, List, [],
  ◌∷◌, Option, none, some, arith, ◌==◌, if◌then◌else◌, false, Bool-cases, inl, inr, pos, negsuc,
}
use c_model.Array
use c_model.Array.{
  length, get_or, get_or-set, length-set, get_elem?-get_or, store, store-eq_some, count,
}
use c_model.Run.{◌>>=◌, Returns, returns, Returns-bind, Returns-map}
use c_model.TimeWheel.{
  TwTimer, Store, Wheel, null, write, set_prev, slot_count, ticks_of, slot_of, add_timer,
}
use c_model.TimeWheel.Chain.{head_of, Linked, IsDistinct, Linked-ext, Linked-live}
use c_model.TimeWheel.Relink.{NullOrLive, is_null, is_live}
use c_model.TimeWheel.Fire.{head_of-NullOrLive}
use c_model.TimeWheel.Info.{Info, infos}
use c_model.TimeWheel.Valid.{View, Arranged, home_unique, ticks_left}
use c_model.TimeWheel.Timing.{Pending, LengthsBelow, ticks}
use c_model.TimeWheel.Calls.{called}
use c_model.TimeWheel.Due.{Only, IsIn, ticks-Later, ticks-Fired}

-- The timer that `add_timer` makes.
abbrev new_timer : Wheel → ℕ → Option ℕ → ℕ → ℕ → TwTimer
new_timer w timeout cb user_data next = record {
  rotation = ticks_of timeout / slot_count;
  time_slot = slot_of w.cur_slot (ticks_of timeout);
  cb_func = cb;
  user_data = user_data;
  next = next;
  prev = null;
}

-- The store with the timer `t` at `p` in front of `head`.
abbrev prepended : Store → ℕ → TwTimer → ℕ → Store
prepended s p t head q =
    if p == q
    then some t
    else s q >>= λ u. some (record u { prev = if head == q then p else u.prev })

abbrev pub view_with : ℕ → ℕ → View → View
view_with ts p view i = if ts == i then p ∷ view i else view i

prepended-Linked :
    (s : Store) (p : ℕ) (t : TwTimer) (ps : List ℕ)
    → Linked s null ps
    → IsDistinct ps
    → ((q : ℕ) → 0 < count q ps → p ≢ q)
    → Linked (prepended s p t (head_of ps)) p ps
prepended-Linked s p t [] l d new = tt
prepended-Linked s p t (h ∷ ps) ((u, found, back, on), l) d new = (
  (record u { prev = p }, ground (arith, new h), refl, on),
  Linked-ext s (prepended s p t h) h ps (λ q m. ground (arith, new q (omega arith), d.once q)) l,
)

-- The two branches of `add_timer` come to the same.
prepend-eq_some :
    (s : Store) (p h : ℕ) (t : ℕ → TwTimer)
    → s null ≡ none
    → s p ≡ none
    → p ≢ null
    → NullOrLive s h
    → (if h == null then some (write s p (t null)) else set_prev (write s p (t h)) h p)
      ≡ some (prepended s p (t h) h)
unfolding set_prev
prepend-eq_some s p h t e fresh real (is_null n) = rw n (ap some (fun_ext λ q. ground arith))
prepend-eq_some s p h t e fresh real (is_live u found) =
    let other : (h == null) ≡ false = ground arith in
    let old : write s p (t h) h ≡ some u = ground arith in
    rw (other, old, ◌>>=◌) (ap some (fun_ext λ q. ground arith))

-- The ticks after which a timer with a timeout in seconds is due, at one tick a second: one for 0 seconds.
abbrev pub ticks_due : ℕ → ℕ
ticks_due zero = 1
ticks_due (suc n) = suc n

-- The slot that is current after so many ticks.
abbrev pub slot_due : ℕ → ℕ → ℕ
slot_due cur_slot ticks = (cur_slot + ticks) % slot_count

ticks_of-due : (timeout : ℕ) → ticks_of timeout ≡ ticks_due timeout
unfolding ticks_of
ticks_of-due zero = refl
ticks_of-due (suc n) = let whole : ltb (suc n) 1 ≡ false = ground arith in rw whole (omega arith)

slot_of-due : (cur_slot ticks : ℕ) → slot_of cur_slot ticks ≡ slot_due cur_slot ticks
unfolding slot_of
slot_of-due cur_slot ticks = omega arith

-- What adding a timer with a timeout that is not negative leads to.
pub record Added (w : Wheel) (view : View) (p timeout f user_data : ℕ) (r : ℕ × Wheel)
    : Type 0 where
  pub returned : r.0 ≡ p
  pub pending :
      Pending r.1
        (view_with (slot_due w.cur_slot (ticks_due timeout)) p view)
        (slot_due w.cur_slot (ticks_due timeout))
        p
        f
        user_data
        (ticks_due timeout)
  pub others : (q : ℕ) → q ≢ p → infos r.1 q ≡ infos w q
  pub same_calls : r.1.calls ≡ w.calls
  pub same_slot : r.1.cur_slot ≡ w.cur_slot

module _ (w : Wheel) (view : View) (p timeout f user_data : ℕ) (a : Arranged w view)
    (fresh : w.timers p ≡ none) (real : p ≢ null) where
  abbrev ts : ℕ
  ts = slot_of w.cur_slot (ticks_of timeout)

  abbrev head : ℕ
  head = head_of (view ts)

  abbrev timer : TwTimer
  timer = new_timer w timeout (some f) user_data head

  abbrev added : Wheel
  added = record w { slots = Array.set w.slots ts p; timers = prepended w.timers p timer head }

  ts-lt : ts < slot_count
  unfolding slot_of
  ts-lt = omega arith

  abbrev new_info : Info
  new_info = record {
    rotation = ticks_of timeout / slot_count;
    time_slot = ts;
    cb_func = some f;
    user_data = user_data;
  }

  due-ticks : ticks_left w.cur_slot new_info ≡ ticks_of timeout
  unfolding slot_of
  due-ticks = omega (arith, a.current)

  member-ne : (i q : ℕ) → i < slot_count → 0 < count q (view i) → p ≢ q
  member-ne i q h m e =
      let (t, found) = Linked-live w.timers null q (view i) (a.linked i h) m in
      ground (arith, fresh)

  head-other : (i q : ℕ) → i < slot_count → ts ≢ i → 0 < count q (view i) → head ≢ q
  head-other i q h apart m = head_of-other (view ts) refl
    where
      head_of-other : (ps : List ℕ) → view ts ≡ ps → head_of ps ≢ q
      head_of-other [] e same =
          let (t, found) = Linked-live w.timers null q (view i) (a.linked i h) m in
          ground (arith, a.no_null)
      head_of-other (r ∷ ps) e same =
          let first : 0 < count r (view ts) = rw e (ground arith) in
          let here : 0 < count q (view ts) = subst (λ k. 0 < count k (view ts)) same first in
          apart (home_unique w view ts i q a ts-lt h here m)

  added-Linked : (i : ℕ) → i < slot_count → Linked added.timers null (view_with ts p view i)
  added-Linked i h = elim (Bool-cases (ts == i)) [
    | inl e ↦
        (let same : ts ≡ i = ground arith in
          rw e (
            subst (λ k. Linked added.timers null (p ∷ view k)) same
              (
                (timer, ground arith, refl, refl),
                prepended-Linked w.timers p timer (view ts) (a.linked ts ts-lt)
                    (a.distinct ts ts-lt) (λ q m. member-ne ts q ts-lt m),
              )))
    | inr e ↦ rw e (
        Linked-ext w.timers added.timers null (view i)
          (λ q m. ground (arith, member-ne i q h m, head-other i q h (ground arith) m))
          (a.linked i h))
  ]

  -- the assignments of the two branches
  linked_in :
      (if head == null
        then some (write w.timers p (new_timer w timeout (some f) user_data null))
        else set_prev (write w.timers p timer) head p)
      ≡ some (prepended w.timers p timer head)
  linked_in =
      prepend-eq_some w.timers p head (new_timer w timeout (some f) user_data) a.no_null fresh real
        (head_of-NullOrLive w.timers null (view ts) (a.linked ts ts-lt))

  add_timer-added : add_timer w p (pos timeout) (some f) user_data ≡ some (p, added)
  unfolding add_timer
  add_timer-added = rw (
    get_elem?-get_or w.slots ts 0 (omega (arith, a.size, ts-lt)),
    a.head ts ts-lt,
    linked_in,
    store-eq_some w.slots ts p (omega (arith, a.size, ts-lt)),
  )

  added-Arranged : Arranged added (view_with ts p view)
  added-Arranged = record {
    size = length-set w.slots ts p ∙ a.size;
    current = a.current;
    no_null = ground (arith, a.no_null);
    linked = added-Linked;
    head = λ i h.
        ground (arith, get_or-set w.slots ts i p 0 (omega (arith, a.size, ts-lt)), a.head i h);
    distinct = λ i h. record {
      once = λ q. ground (arith, (a.distinct i h).once q, member-ne i q h);
      no_null = ground (arith, (a.distinct i h).no_null);
    };
    home = λ i q h m. elim (Bool-cases (p == q)) [
      | inl e ↦
          (let same : ts ≡ i = ground (arith, member-ne i q h) in
            (new_info, f, ground arith, same, refl))
      | inr e ↦
          (let (j, g, at, there, cb) = a.home i q h (ground arith) in
            (j, g, ground arith, there, cb))
    ];
  }

  added-Pending : Pending added (view_with ts p view) ts p f user_data (ticks_of timeout)
  added-Pending = record {
    arranged = added-Arranged;
    slot = ts-lt;
    member = ground arith;
    timer = (_, ground arith, due-ticks, refl, refl);
  }

  due_slot : ts ≡ slot_due w.cur_slot (ticks_due timeout)
  due_slot =
      slot_of-due w.cur_slot (ticks_of timeout) ∙ ap (slot_due w.cur_slot) (ticks_of-due timeout)

  -- `add_timer` of a fresh pointer puts a timer into the wheel that is due after as many ticks as its
  -- timeout has seconds, and after one tick for 0 seconds: it stands in the slot that will be current then,
  -- with its callback and data, and waits for that many ticks. No other timer changes, and nothing is
  -- called.
  pub add_timer_schedules :
      Returns (Added w view p timeout f user_data) (add_timer w p (pos timeout) (some f) user_data)
  add_timer_schedules = rw add_timer-added (
      returns (record {
        returned = refl;
        pending =
            subst (λ s. Pending added (view_with s p view) s p f user_data (ticks_due timeout))
              due_slot
              (subst (Pending added (view_with ts p view) ts p f user_data) (ticks_of-due timeout)
                added-Pending);
        others = λ q ne. ground arith;
        same_calls = refl;
        same_slot = refl;
      }))

  added-Only :
      (u : Wheel) (i : ℕ)
      → ((q : ℕ) → q ≢ p → infos u q ≡ infos w q)
      → Only w view p f user_data
      → Only u (view_with i p view) p f user_data
  added-Only u i others only k q j h m ne at cb =
      only k q j h (ground arith) ne (sym (others q (λ e. ne (sym e))) ∙ at) cb

  -- Let no other timer in the wheel have this callback with this data. A timer added with a timeout of `t`
  -- seconds is in the wheel with its callback and data after each number of ticks up to `t` (one, for 0
  -- seconds), and the callback has not been called with its data until then; after one tick more it is
  -- deleted, and the callback has been called with its data once.
  pub fires_on_time :
      (k n : ℕ)
      → LengthsBelow k (view_with (slot_due w.cur_slot (ticks_due timeout)) p view)
      → Only w view p f user_data
      → n ≤ ticks_due timeout
      → Returns
          (λ u. IsIn u p f user_data × (called f user_data u.calls ≡ called f user_data w.calls))
          (add_timer w p (pos timeout) (some f) user_data >>= λ r. ticks n k r.1)
        × Returns
            (λ u.
              (infos u p ≡ none) × (called f user_data u.calls ≡ suc (called f user_data w.calls)))
            (add_timer w p (pos timeout) (some f) user_data >>= λ r.
              ticks (suc (ticks_due timeout)) k r.1)
  fires_on_time k n h only early =
      let i : ℕ = slot_due w.cur_slot (ticks_due timeout) in
      (
        (Returns-bind add_timer_schedules λ r d.
            let left : ticks_due timeout ≡ n + (ticks_due timeout - n) = omega arith in
            Returns-map
              (ticks-Later n k (ticks_due timeout - n) r.1 (view_with i p view) i p f user_data h
                (subst (Pending r.1 (view_with i p view) i p f user_data) left d.pending)
                (added-Only r.1 i d.others only))
              λ u later.
                let (j, at, waits, cb, given) = later.pending.timer in
                ((j, at, cb, given), later.calls ∙ ap (called f user_data) d.same_calls)),
        (Returns-bind add_timer_schedules λ r d.
            Returns-map
              (ticks-Fired (ticks_due timeout) k r.1 (view_with i p view) i p f user_data h
                d.pending (added-Only r.1 i d.others only))
              λ u (gone, once). (gone, once ∙ ap (λ c. suc (called f user_data c)) d.same_calls)),
      )

-- A negative timeout is refused.
pub add_timer-negative :
    (w : Wheel) (p n user_data : ℕ) (cb : Option ℕ)
    → add_timer w p (negsuc n) cb user_data ≡ some (null, w)
unfolding add_timer
add_timer-negative w p n user_data cb = refl
