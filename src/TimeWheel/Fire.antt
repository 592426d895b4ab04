-- ===== src/TimeWheel/Fire.antt =====
-- `fire` takes the timer out of its list and deletes it, wherever in the list it stands.
use c_model.Common.{
  ℕ, ◌<◌, ◌≡◌, ◌≢◌, refl, sym, List, [], ◌∷◌, ◌++◌, none, some, true, false, arith, ◌==◌,
}
use c_model.Array.{
  length, get_or, set, set_same, get_elem?-get_or, store-eq_some, count, count-append,
}
use c_model.Run.{bind_chain, bind_chain_two}
use c_model.TimeWheel.{TwTimer, Store, Wheel, null, free, set_next, set_prev_if, fire}
use c_model.TimeWheel.Chain.{head_of, last_of, Linked, IsDistinct, Linked-member, head_of-ne}
use c_model.TimeWheel.Unlink.{unlinked}
use c_model.TimeWheel.Relink.{
  NullOrLive, is_null, is_live, Neighbours, free_then_prev, relink_then_free,
}

pub head_of-NullOrLive :
    (s : Store) (prev : ℕ) (ps : List ℕ) → Linked s prev ps → NullOrLive s (head_of ps)
head_of-NullOrLive s prev [] l = is_null refl
head_of-NullOrLive s prev (p ∷ ps) ((t, found, back, on), l) = is_live t found

Linked-after :
    (s : Store) (prev x : ℕ) (xs ys : List ℕ) → Linked s prev (xs ++ x ∷ ys) → Linked s x ys
Linked-after s prev x [] ys l = l.1
Linked-after s prev x (p ∷ xs) ys l = Linked-after s p x xs ys l.1

-- A list in which `x` stands between `xs` and `ys`.
pub record Around (s : Store) (x : ℕ) (xs ys : List ℕ) : Type 0 where
  pub no_null : s null ≡ none
  pub distinct : IsDistinct (xs ++ x ∷ ys)
  pub linked : Linked s null (xs ++ x ∷ ys)

pub last_of-ne : (x p : ℕ) (ps : List ℕ) → p ≢ x → count x ps ≡ 0 → last_of p ps ≢ x
last_of-ne x p [] h c = h
last_of-ne x p (q ∷ ps) h c = last_of-ne x q ps (ground arith) (omega arith)

pub Around-Neighbours :
    (s : Store) (x : ℕ) (xs ys : List ℕ)
    → Around s x xs ys
    → Neighbours s x (last_of null xs) (head_of ys)
Around-Neighbours s x xs ys a =
    let (t, found, back, on) = Linked-member s null x xs ys a.linked in
    let counted = count-append x xs (x ∷ ys) in
    let not_null : x ≢ null = ground (arith, a.no_null) in
    record {
      no_null = a.no_null;
      live = (t, found);
      next_live = head_of-NullOrLive s x ys (Linked-after s null x xs ys a.linked);
      next_other = head_of-ne x ys not_null (ground (arith, a.distinct.once x, counted));
      apart =
          last_of-ne x null xs (λ e. not_null (sym e)) (ground (arith, a.distinct.once x, counted));
    }

pub last_of-live :
    (s : Store) (prev p : ℕ) (xs ys : List ℕ)
    → Linked s prev (p ∷ xs ++ ys)
    → (t : TwTimer) × (s (last_of p xs) ≡ some t)
last_of-live s prev p [] ys ((t, found, back, on), l) = (t, found)
last_of-live s prev p (q ∷ xs) ys (h, l) = last_of-live s p q xs ys l

-- What firing `x` leads to.
abbrev pub fired : Wheel → ℕ → List ℕ → List ℕ → ℕ × ℕ → Wheel
fired w x xs ys call = record w {
  slots = set w.slots w.cur_slot (head_of (xs ++ ys));
  timers = unlinked w.timers x (last_of null xs) (head_of ys);
  calls = w.calls ++ (call ∷ []);
}

pub fire-fired :
    (w : Wheel) (x : ℕ) (xs ys : List ℕ) (t : TwTimer) (f : ℕ)
    → w.cur_slot < length w.slots
    → get_or w.slots w.cur_slot 0 ≡ head_of (xs ++ x ∷ ys)
    → Around w.timers x xs ys
    → w.timers x ≡ some t
    → t.cb_func ≡ some f
    → fire w x t ≡ some (fired w x xs ys (f, t.user_data))
unfolding fire
fire-fired w x [] ys t f inside head a found cb =
    let (u, at, back, on) = Linked-member w.timers null x [] ys a.linked in
    let same : t.next ≡ head_of ys = ground arith in
    let first : (x == x) ≡ true = ground arith in
    rw
      (
        cb,
        get_elem?-get_or w.slots w.cur_slot 0 inside,
        head,
        first,
        store-eq_some w.slots w.cur_slot t.next inside,
        same,
      )
      (bind_chain (free w.timers x) (λ s. set_prev_if s (head_of ys) null)
        (λ r. some (record w {
          slots = set w.slots w.cur_slot (head_of ys);
          timers = r;
          calls = w.calls ++ ((f, t.user_data) ∷ []);
        }))
        (free_then_prev w.timers x (head_of ys) (Around-Neighbours w.timers x [] ys a)))
fire-fired w x (p ∷ xs) ys t f inside head a found cb =
    let (u, at, back, on) = Linked-member w.timers null x (p ∷ xs) ys a.linked in
    let next : t.next ≡ head_of ys = ground arith in
    let prev : t.prev ≡ last_of p xs = ground arith in
    let later : (x == p) ≡ false =
      ground (arith, a.distinct.once x, count-append x (p ∷ xs) (x ∷ ys)) in
    let (b, before) = last_of-live w.timers null p xs (x ∷ ys) a.linked in
    rw
      (
        cb,
        get_elem?-get_or w.slots w.cur_slot 0 inside,
        head,
        later,
        next,
        prev,
        set_same w.slots w.cur_slot p 0 inside head,
      )
      (bind_chain_two (set_next w.timers (last_of p xs) (head_of ys))
        (λ s. set_prev_if s (head_of ys) (last_of p xs)) (λ r. free r x)
        (λ q. some (record w { timers = q; calls = w.calls ++ ((f, t.user_data) ∷ []) }))
        (relink_then_free w.timers x (last_of p xs) (head_of ys) b
          (Around-Neighbours w.timers x (p ∷ xs) ys a) before))
