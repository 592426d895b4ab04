-- ===== src/TimeWheel/Unlink.antt =====
-- Taking a timer out of its list.
use c_model.Common.{ℕ, ◌≡◌, ◌≢◌, ◌∙◌, List, [], ◌∷◌, ◌++◌, none, some, arith, ◌==◌, if◌then◌else◌}
use c_model.Array.{count, count-append, count-pos-ne}
use c_model.Run.{◌>>=◌}
use c_model.TimeWheel.{TwTimer, Store}
use c_model.TimeWheel.Chain.{
  head_of, last_of, Linked, IsDistinct, head_of-ne, Linked-ext, last_of-member,
}

abbrev pub relink : ℕ → ℕ → ℕ → TwTimer → TwTimer
relink before after q t = record t {
  next = if before == q then after else t.next;
  prev = if after == q then before else t.prev;
}

-- The store without `x`, whose neighbours `before` and `after` are linked to one another.
abbrev pub unlinked : Store → ℕ → ℕ → ℕ → Store
unlinked s x before after q = if x == q then none else s q >>= λ t. some (relink before after q t)

pub unlinked-other :
    (s : Store) (x before after q : ℕ)
    → x ≢ q
    → before ≢ q
    → after ≢ q
    → unlinked s x before after q ≡ s q
unlinked-other s x before after q h b a = ground arith

IsDistinct-tail : (p : ℕ) (ps : List ℕ) → IsDistinct (p ∷ ps) → IsDistinct ps
IsDistinct-tail p ps d = record {
  once = λ q. omega (arith, d.once q);
  no_null = omega (arith, d.no_null);
}

-- The first timer of a list in which `x` comes later keeps its own predecessor, and is followed by what
-- follows when `x` is gone.
before-unlinked :
    (s : Store) (p x : ℕ) (xs ys : List ℕ) (t : TwTimer)
    → IsDistinct (p ∷ xs ++ x ∷ ys)
    → s p ≡ some t
    → t.next ≡ head_of (xs ++ x ∷ ys)
    → (u : TwTimer) × (unlinked s x (last_of p xs) (head_of ys) p ≡ some u)
      × (u.prev ≡ t.prev)
      × (u.next ≡ head_of (xs ++ ys))
before-unlinked s p x [] ys t d found on =
    let after = head_of-ne p ys (ground (arith, d.no_null)) (ground (arith, d.once p)) in
    (relink p (head_of ys) p t, ground (arith, d.once p), ground arith, ground arith)
before-unlinked s p x (r ∷ xs) ys t d found on =
    let counted = count-append p (r ∷ xs) (x ∷ ys) in
    let after = head_of-ne p ys (ground (arith, d.no_null)) (ground (arith, d.once p, counted)) in
    let before =
      count-pos-ne p (last_of r xs) (r ∷ xs) (ground (arith, d.once p, counted))
        (last_of-member p (r ∷ xs) (λ e. cc)) in
    (
      relink (last_of r xs) (head_of ys) p t,
      ground (arith, d.once p, counted),
      ground arith,
      ground arith,
    )

-- A list without `x`, whose neighbours are linked to one another, is linked.
pub unlinked-Linked :
    (s : Store) (prev x : ℕ) (xs ys : List ℕ)
    → IsDistinct (xs ++ x ∷ ys)
    → count prev (xs ++ x ∷ ys) ≡ 0
    → Linked s prev (xs ++ x ∷ ys)
    → Linked (unlinked s x (last_of prev xs) (head_of ys)) prev (xs ++ ys)
unlinked-Linked s prev x [] [] d new l = tt
unlinked-Linked s prev x [] (y ∷ ys) d new ((tx, fx, bx, nx), ((ty, fy, by, ny), l)) = (
  (relink prev y y ty, ground (arith, d.once y), ground arith, ground arith),
  Linked-ext s (unlinked s x prev y) y ys
      (λ p m.
        unlinked-other s x prev y p (ground (arith, d.once p))
          (count-pos-ne prev p (y ∷ ys) (omega arith) (omega arith)) (ground (arith, d.once p)))
      l,
)
unlinked-Linked s prev x (p ∷ xs) ys d new ((t, found, back, on), l) =
    let (u, at, b, n) = before-unlinked s p x xs ys t d found on in
    (
      (u, at, b ∙ back, n),
      unlinked-Linked s p x xs ys (IsDistinct-tail p (xs ++ x ∷ ys) d) (ground (arith, d.once p)) l,
    )
