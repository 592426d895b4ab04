-- ===== src/TimeWheel/Del.antt =====
-- `del_timer`: a timer leaves the list of its slot and is deleted.
use c_model.Common.{
  ℕ, ◌+◌, ◌<◌, ◌≡◌, ◌≢◌, refl, ap, ◌∙◌, sym, subst, List, [], ◌∷◌, ◌++◌, none, some, arith, ◌==◌,
  ltb, if◌then◌else◌, true, false, Bool-cases, inl, inr,
}
use c_model.Array.{
  length, get_or, set, set_same, get_or-set, length-set, get_elem?-get_or, store-eq_some, count,
  count-append, member-split,
}
use c_model.Run.{Returns, returns, bind_chain, bind_chain_two}
use c_model.TimeWheel.{TwTimer, Wheel, null, free, set_next, set_prev_if, slot_count, del_timer}
use c_model.TimeWheel.Chain.{
  head_of, head_of-ne, last_of, Linked, IsDistinct, Linked-ext, Linked-live, Linked-member,
}
use c_model.TimeWheel.Unlink.{unlinked, unlinked-other, unlinked-Linked}
use c_model.TimeWheel.Relink.{prev_then_free, relink_then_free}
use c_model.TimeWheel.Fire.{Around, Around-Neighbours, last_of-live, last_of-ne}
use c_model.TimeWheel.Info.{infos}
use c_model.TimeWheel.Valid.{View, Arranged, home_unique}

-- What deleting `x` from slot `i` leads to.
abbrev pub deleted : Wheel → ℕ → ℕ → List ℕ → List ℕ → Wheel
deleted w i x xs ys = record w {
  slots = set w.slots i (head_of (xs ++ ys));
  timers = unlinked w.timers x (last_of null xs) (head_of ys);
}

del_timer-deleted :
    (w : Wheel) (i x : ℕ) (xs ys : List ℕ) (t : TwTimer)
    → i < length w.slots
    → get_or w.slots i 0 ≡ head_of (xs ++ x ∷ ys)
    → Around w.timers x xs ys
    → w.timers x ≡ some t
    → t.time_slot ≡ i
    → del_timer w x ≡ some (deleted w i x xs ys)
unfolding del_timer
del_timer-deleted w i x [] ys t inside head a found home =
    let (u, at, back, on) = Linked-member w.timers null x [] ys a.linked in
    let same : t.next ≡ head_of ys = ground arith in
    let first : (x == x) ≡ true = ground arith in
    let real : (x == null) ≡ false = ground (arith, a.no_null) in
    rw
      (
        real,
        found,
        home,
        get_elem?-get_or w.slots i 0 inside,
        head,
        first,
        same,
        store-eq_some w.slots i (head_of ys) inside,
      )
      (bind_chain (set_prev_if w.timers (head_of ys) null) (λ s. free s x)
        (λ r. some (record w { slots = set w.slots i (head_of ys); timers = r }))
        (prev_then_free w.timers x (head_of ys) (Around-Neighbours w.timers x [] ys a)))
del_timer-deleted w i x (p ∷ xs) ys t inside head a found home =
    let (u, at, back, on) = Linked-member w.timers null x (p ∷ xs) ys a.linked in
    let next : t.next ≡ head_of ys = ground arith in
    let prev : t.prev ≡ last_of p xs = ground arith in
    let later : (x == p) ≡ false =
      ground (arith, a.distinct.once x, count-append x (p ∷ xs) (x ∷ ys)) in
    let real : (x == null) ≡ false = ground (arith, a.no_null) in
    let (b, before) = last_of-live w.timers null p xs (x ∷ ys) a.linked in
    rw
      (
        real,
        found,
        home,
        get_elem?-get_or w.slots i 0 inside,
        head,
        later,
        next,
        prev,
        set_same w.slots i p 0 inside head,
      )
      (bind_chain_two (set_next w.timers (last_of p xs) (head_of ys))
        (λ s. set_prev_if s (head_of ys) (last_of p xs)) (λ r. free r x)
        (λ q. some (record w { timers = q }))
        (relink_then_free w.timers x (last_of p xs) (head_of ys) b
          (Around-Neighbours w.timers x (p ∷ xs) ys a) before))

-- The slots without `x`.
abbrev pub view_without : ℕ → List ℕ → View → View
view_without i rest view k = if i == k then rest else view k

-- What `del_timer` of a timer in slot `i` leads to: the timer is out of the slot's list and deleted; the
-- others are in their lists as before, with nothing but links changed.
pub record Deleted (w : Wheel) (view : View) (i x : ℕ) (w' : Wheel) : Type 0 where
  pub left : List ℕ
  pub arranged : Arranged w' (view_without i left view)
  pub gone : (w'.timers x ≡ none) × (count x left ≡ 0)
  pub kept : (q : ℕ) → q ≢ x → (infos w' q ≡ infos w q) × (count q left ≡ count q (view i))
  pub same_calls : w'.calls ≡ w.calls
  pub same_slot : w'.cur_slot ≡ w.cur_slot

module _ (w : Wheel) (view : View) (i x : ℕ) (xs ys : List ℕ) (a : Arranged w view)
    (h : i < slot_count) (here : view i ≡ xs ++ x ∷ ys) where
  around : Around w.timers x xs ys
  around = record {
    no_null = a.no_null;
    distinct = subst IsDistinct here (a.distinct i h);
    linked = subst (Linked w.timers null) here (a.linked i h);
  }

  counted : (q : ℕ) → count q (xs ++ x ∷ ys) ≡ count q xs + count q (x ∷ ys)
  counted q = count-append q xs (x ∷ ys)

  elsewhere : (k q : ℕ) → k < slot_count → i ≢ k → 0 < count q (view k) → count q (xs ++ x ∷ ys) ≡ 0
  elsewhere k q hk apart m = elim (Bool-cases (ltb 0 (count q (xs ++ x ∷ ys)))) [
    | inl both ↦ absurd (apart (home_unique w view i k q a h hk (rw here (ground arith)) m))
    | inr none_here ↦ ground arith
  ]

  other-links :
      (k q : ℕ)
      → k < slot_count
      → i ≢ k
      → 0 < count q (view k)
      → (deleted w i x xs ys).timers q ≡ w.timers q
  other-links k q hk apart m =
      let (t, found) = Linked-live w.timers null q (view k) (a.linked k hk) m in
      let none_here = elsewhere k q hk apart m in
      let real : q ≢ null = ground (arith, a.no_null) in
      unlinked-other w.timers x (last_of null xs) (head_of ys) q
        (ground (arith, counted q, none_here))
        (last_of-ne q null xs (λ e. real (sym e)) (omega (arith, counted q, none_here)))
        (head_of-ne q ys real (omega (arith, counted q, none_here)))

  rest_counted : (q : ℕ) → count q (xs ++ ys) + (if x == q then 1 else 0) ≡ count q (view i)
  rest_counted q = rw here (omega (arith, counted q, count-append q xs ys))

  rest-Linked :
      (k : ℕ)
      → k < slot_count
      → Linked (deleted w i x xs ys).timers null (view_without i (xs ++ ys) view k)
  rest-Linked k hk = elim (Bool-cases (i == k)) [
    | inl e ↦ rw e (
        unlinked-Linked w.timers null x xs ys around.distinct around.distinct.no_null around.linked)
    | inr e ↦ rw e (
        Linked-ext w.timers (deleted w i x xs ys).timers null (view k)
          (λ q m. other-links k q hk (ground arith) m) (a.linked k hk))
  ]

  deleted-Arranged : Arranged (deleted w i x xs ys) (view_without i (xs ++ ys) view)
  deleted-Arranged = record {
    size = length-set w.slots i (head_of (xs ++ ys)) ∙ a.size;
    current = a.current;
    no_null = ground (arith, a.no_null);
    linked = rest-Linked;
    head = λ k hk.
        ground (
          arith,
          get_or-set w.slots i k (head_of (xs ++ ys)) 0 (omega (arith, a.size)),
          a.head k hk,
        );
    distinct = λ k hk. record {
      once = λ q. ground (arith, (a.distinct k hk).once q, rest_counted q);
      no_null = ground (arith, (a.distinct k hk).no_null, rest_counted 0);
    };
    home = λ k q hk m.
        let before : 0 < count q (view k) = ground (arith, rest_counted q) in
        let (j, f, at, there, cb) = a.home k q hk before in
        let alive : x ≢ q =
          ground (arith, rest_counted q, (a.distinct i h).once q, elsewhere k q hk, counted q) in
        (j, f, ground arith, there, cb);
  }

-- `del_timer` of a timer that stands in a slot's list does not fault. It takes the timer out of the list
-- and deletes it, and every other timer stays as it was.
pub del_timer_unlinks :
    (w : Wheel) (view : View) (i x : ℕ)
    → Arranged w view
    → i < slot_count
    → 0 < count x (view i)
    → Returns (Deleted w view i x) (del_timer w x)
del_timer_unlinks w view i x a h m =
    let (xs, ys, here) = member-split x (view i) m in
    let at_home = a.home i x h m in
    let b = around w view i x xs ys a h here in
    let (t, found, back, on) = Linked-member w.timers null x xs ys b.linked in
    let slot : t.time_slot ≡ i = ground (arith, at_home) in
    let split = rest_counted w view i x xs ys a h here in
    rw
      (del_timer-deleted w i x xs ys t (omega (arith, a.size)) (a.head i h ∙ ap head_of here) b
        found slot)
      (returns (record {
        left = xs ++ ys;
        arranged = deleted-Arranged w view i x xs ys a h here;
        gone = (ground arith, ground (arith, split x, (a.distinct i h).once x));
        kept = λ q ne. (ground arith, ground (arith, split q));
        same_calls = refl;
        same_slot = refl;
      }))
