-- ===== src/TimeWheel/Sweep.antt =====
-- The loop of `tick` over a slot's list: timers that wait have one round less to wait, and the others
-- fire.
use c_model.Common.{
  ℕ, zero, suc, ◌-◌, ◌<◌, ◌≡◌, ◌≢◌, refl, ap, ◌∙◌, sym, subst, List, [], ◌∷◌, ◌++◌, none, some,
  true, false, arith, ◌==◌, ltb, if◌then◌else◌, Bool-cases, inl, inr, append-nil, append_assoc,
}
use c_model.Array.{length, get_or, get_or-set, length-set, count, count-append, count-pos-ne}
use c_model.Run.{◌>>=◌, Returns, returns, Returns-map, Returns-if}
use c_model.TimeWheel.{TwTimer, Wheel, null, write, wait_round, fire, tick_loop}
use c_model.TimeWheel.Chain.{
  head_of, head_of-ne, last_of, Linked, IsDistinct, Linked-SameLinks, Linked-member,
}
use c_model.TimeWheel.Unlink.{unlinked-other, unlinked-Linked}
use c_model.TimeWheel.Fire.{Around, last_of-ne, fired, fire-fired}
use c_model.TimeWheel.Info.{
  Info, waits, after_sweep, waiting, call_of, due_calls, infos, waiting-ext, due_calls-ext,
  after_sweep-due,
}

-- The slot's list is `xs`, which has been handled, and `ys`.
pub record Sweeping (w : Wheel) (xs ys : List ℕ) : Type 0 where
  pub no_null : w.timers null ≡ none
  pub distinct : IsDistinct (xs ++ ys)
  pub linked : Linked w.timers null (xs ++ ys)
  pub inside : w.cur_slot < length w.slots
  pub head : get_or w.slots w.cur_slot 0 ≡ head_of (xs ++ ys)
  pub callable :
      (q : ℕ) → 0 < count q ys → (i : Info) × (f : ℕ) × (infos w q ≡ some i) × (i.cb_func ≡ some f)

-- What handling `ys` leads to.
pub record Swept (w : Wheel) (xs ys : List ℕ) (w' : Wheel) : Type 0 where
  pub linked : Linked w'.timers null (xs ++ waiting (infos w) ys)
  pub head : get_or w'.slots w.cur_slot 0 ≡ head_of (xs ++ waiting (infos w) ys)
  pub size : length w'.slots ≡ length w.slots
  pub others : (j : ℕ) → j ≢ w.cur_slot → get_or w'.slots j 0 ≡ get_or w.slots j 0
  pub same_slot : w'.cur_slot ≡ w.cur_slot
  pub handled :
      (q : ℕ) → infos w' q ≡ (if ltb 0 (count q ys) then after_sweep (infos w q) else infos w q)
  pub untouched : (q : ℕ) → count q (xs ++ ys) ≡ 0 → w'.timers q ≡ w.timers q
  pub ran : w'.calls ≡ w.calls ++ due_calls (infos w) ys

module _ (w : Wheel) (x : ℕ) (xs ys : List ℕ) (s : Sweeping w xs (x ∷ ys)) where
  alone : count x ys ≡ 0
  alone = ground (arith, s.distinct.once x, count-append x xs (x ∷ ys))

  other : (q : ℕ) → 0 < count q ys → x ≢ q
  other q m = count-pos-ne x q ys alone m

  fired-info :
      (call : ℕ × ℕ) (q : ℕ) → infos (fired w x xs ys call) q ≡ (if x == q then none else infos w q)
  fired-info call q = ground arith

  fired-Sweeping : (call : ℕ × ℕ) → Sweeping (fired w x xs ys call) xs ys
  fired-Sweeping call = record {
    no_null = ground (arith, s.no_null);
    distinct = record {
      once =
          λ p. omega (arith, s.distinct.once p, count-append p xs (x ∷ ys), count-append p xs ys);
      no_null = omega (arith, s.distinct.no_null, count-append 0 xs (x ∷ ys), count-append 0 xs ys);
    };
    linked = unlinked-Linked w.timers null x xs ys s.distinct s.distinct.no_null s.linked;
    inside = omega (arith, s.inside, length-set w.slots w.cur_slot (head_of (xs ++ ys)));
    head = ground (arith, get_or-set w.slots w.cur_slot w.cur_slot (head_of (xs ++ ys)) 0 s.inside);
    callable = λ q m.
        let (i, f, at, cb) = s.callable q (omega arith) in
        (i, f, ground (arith, fired-info call q, other q m), cb);
  }

  away :
      (call : ℕ × ℕ) (q : ℕ)
      → count q (xs ++ x ∷ ys) ≡ 0
      → (fired w x xs ys call).timers q ≡ w.timers q
  away call q none_here = elim (Bool-cases (q == null)) [
    | inl e ↦ ground (arith, s.no_null)
    | inr e ↦
        (let counted = count-append q xs (x ∷ ys) in
          unlinked-other w.timers x (last_of null xs) (head_of ys) q
            (ground (arith, counted, none_here))
            (last_of-ne q null xs (ground arith) (omega (arith, counted, none_here)))
            (head_of-ne q ys (ground arith) (omega (arith, counted, none_here))))
  ]

  -- the rest of the list, after `x` has fired
  fired-Swept :
      (call : ℕ × ℕ) (w' : Wheel)
      → waits (infos w x) ≡ false
      → call_of (infos w x) ≡ call ∷ []
      → Swept (fired w x xs ys call) xs ys w'
      → Swept w xs (x ∷ ys) w'
  fired-Swept call w' due called t =
      let u = infos (fired w x xs ys call) in
      let same : (q : ℕ) → 0 < count q ys → u q ≡ infos w q =
        λ q m. ground (arith, fired-info call q, other q m) in
      let kept : waiting u ys ≡ waiting (infos w) (x ∷ ys) =
        rw due (waiting-ext u (infos w) ys same) in
      record {
        linked = subst (λ l. Linked w'.timers null (xs ++ l)) kept t.linked;
        head = t.head ∙ ap (λ l. head_of (xs ++ l)) kept;
        size = t.size ∙ length-set w.slots w.cur_slot (head_of (xs ++ ys));
        others = λ j ne.
            t.others j ne
            ∙ ground (arith, get_or-set w.slots w.cur_slot j (head_of (xs ++ ys)) 0 s.inside);
        same_slot = t.same_slot;
        handled = λ q.
            t.handled q
            ∙ ground (arith, fired-info call q, other q, alone, after_sweep-due (infos w x) due);
        untouched = λ q none_here.
            t.untouched q
              (omega (arith, none_here, count-append q xs (x ∷ ys), count-append q xs ys))
            ∙ away call q none_here;
        ran =
            t.ran
            ∙ rw (due, called, due_calls-ext u (infos w) ys same)
                (append_assoc w.calls (call ∷ []) (due_calls (infos w) ys));
      }

  -- the rest of the list, after `x` has waited a round
  waited-Swept :
      (t : TwTimer) (w' : Wheel)
      → w.timers x ≡ some t
      → ltb 0 t.rotation ≡ true
      → Swept (wait_round w x t) (xs ++ x ∷ []) ys w'
      → Swept w xs (x ∷ ys) w'
  unfolding wait_round
  waited-Swept t w' found more r =
      let v = infos (wait_round w x t) in
      let same : (q : ℕ) → 0 < count q ys → v q ≡ infos w q = λ q m. ground (arith, other q m) in
      let stays : waits (infos w x) ≡ true = rw found more in
      let kept : (xs ++ x ∷ []) ++ waiting v ys ≡ xs ++ waiting (infos w) (x ∷ ys) =
        rw (stays, waiting-ext v (infos w) ys same)
          (append_assoc xs (x ∷ []) (waiting (infos w) ys)) in
      record {
        linked = subst (Linked w'.timers null) kept r.linked;
        head = r.head ∙ ap head_of kept;
        size = r.size;
        others = r.others;
        same_slot = r.same_slot;
        handled = λ q. r.handled q ∙ ground (arith, other q, alone);
        untouched = λ q none_here.
            let counted = count-append q xs (x ∷ ys) in
            r.untouched q (rw (append_assoc xs (x ∷ []) ys) none_here)
            ∙ ground (arith, counted, none_here);
        ran = r.ran ∙ rw (stays, due_calls-ext v (infos w) ys same);
      }

  waited-Sweeping :
      (t : TwTimer) → w.timers x ≡ some t → Sweeping (wait_round w x t) (xs ++ x ∷ []) ys
  unfolding wait_round
  waited-Sweeping t found =
      let round = append_assoc xs (x ∷ []) ys in
      record {
        no_null = ground (arith, s.no_null);
        distinct = rw round s.distinct;
        linked = rw round (
            Linked-SameLinks w.timers (write w.timers x (record t { rotation = t.rotation - 1 }))
              null (xs ++ x ∷ ys)
              (λ p m. record {
                kept = λ u at. elim (Bool-cases (x == p)) [
                  | inl e ↦ (
                    record t { rotation = t.rotation - 1 },
                    ground arith,
                    ground arith,
                    ground arith,
                  )
                  | inr e ↦ (u, ground arith, refl, refl)
                ];
              })
              s.linked);
        inside = s.inside;
        head = s.head ∙ ap head_of (sym round);
        callable = λ q m.
            let (i, f, at, cb) = s.callable q (omega arith) in
            (i, f, ground (arith, other q m), cb);
      }

-- A round of the loop.
tick_loop-suc :
    (k : ℕ) (w : Wheel) (x after : ℕ) (t : TwTimer)
    → x ≢ null
    → w.timers x ≡ some t
    → t.next ≡ after
    → tick_loop (suc k) w x ≡ (
        if ltb 0 t.rotation
        then tick_loop k (wait_round w x t) after
        else fire w x t >>= λ u. tick_loop k u after)
unfolding tick_loop
tick_loop-suc k w x after t real found on =
    let other : (x == null) ≡ false = ground arith in
    rw (other, found)
      (ap
        (λ n.
          if ltb 0 t.rotation
          then tick_loop k (wait_round w x t) n
          else fire w x t >>= λ u. tick_loop k u n)
        on)

tick_loop-null : (k : ℕ) (w : Wheel) → tick_loop (suc k) w null ≡ some w
unfolding tick_loop
tick_loop-null k w = refl

nothing-Swept : (w : Wheel) (xs : List ℕ) → Sweeping w xs [] → Swept w xs [] w
nothing-Swept w xs s = record {
  linked = s.linked;
  head = s.head;
  size = refl;
  others = λ j ne. refl;
  same_slot = refl;
  handled = λ q. refl;
  untouched = λ q none_here. refl;
  ran = sym (append-nil w.calls);
}

pub tick_loop-Swept :
    (k : ℕ) (w : Wheel) (xs ys : List ℕ)
    → length ys < k
    → Sweeping w xs ys
    → Returns (Swept w xs ys) (tick_loop k w (head_of ys))
tick_loop-Swept zero w xs ys enough s = absurd (omega arith)
tick_loop-Swept (suc k) w xs [] enough s = rw (tick_loop-null k w) (returns (nothing-Swept w xs s))
tick_loop-Swept (suc k) w xs (x ∷ ys) enough s =
    let (t, found, back, on) = Linked-member w.timers null x xs ys s.linked in
    let (i, f, at, cb) = s.callable x (ground arith) in
    let real : x ≢ null = ground (arith, s.no_null) in
    rw (tick_loop-suc k w x (head_of ys) t real found on) (
      Returns-if (ltb 0 t.rotation)
        (λ more.
          Returns-map
            (tick_loop-Swept k (wait_round w x t) (xs ++ x ∷ []) ys (omega arith)
              (waited-Sweeping w x xs ys s t found))
            λ w' r. waited-Swept w x xs ys s t w' found more r)
        (λ due.
          let a : Around w.timers x xs ys = record {
            no_null = s.no_null;
            distinct = s.distinct;
            linked = s.linked;
          } in
          let call : t.cb_func ≡ some f = ground arith in
          rw (fire-fired w x xs ys t f s.inside s.head a found call) (
            Returns-map
              (tick_loop-Swept k (fired w x xs ys (f, t.user_data)) xs ys (omega arith)
                (fired-Sweeping w x xs ys s (f, t.user_data)))
              λ w' r.
                fired-Swept w x xs ys s (f, t.user_data) w' (rw found due) (rw (found, call)) r)))
