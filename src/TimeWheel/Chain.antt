-- ===== src/TimeWheel/Chain.antt =====
-- Doubly linked lists in the store: which pointers a slot's list goes through.
use c_model.Common.{
  ℕ, ◌≤◌, ◌<◌, ◌≡◌, ◌≢◌, refl, ◌∙◌, List, [], ◌∷◌, ◌++◌, some, arith, ◌==◌, Bool-cases, inl, inr,
}
use c_model.Array.{count}
use c_model.TimeWheel.{TwTimer, Store}

-- The pointer to a list, and to the last element of a list that follows `p`.
abbrev pub head_of : List ℕ → ℕ
head_of [] = 0
head_of (p ∷ ps) = p

abbrev pub last_of : ℕ → List ℕ → ℕ
last_of p [] = p
last_of p (q ∷ ps) = last_of q ps

-- `ps` are allocated timers, linked to one another in this order, the first one back to `prev`.
abbrev pub Linked : Store → ℕ → List ℕ → Type 0
Linked s prev [] = Unit
Linked s prev (p ∷ ps) =
    ((t : TwTimer) × (s p ≡ some t) × (t.prev ≡ prev) × (t.next ≡ head_of ps)) × Linked s p ps

-- No pointer stands twice in `ps`, nor does NULL.
pub record IsDistinct (ps : List ℕ) : Type 0 where
  pub once : (p : ℕ) → count p ps ≤ 1
  pub no_null : count 0 ps ≡ 0

pub count-head : (p : ℕ) (ps : List ℕ) → 0 < count p (p ∷ ps)
count-head p ps = ground arith

-- Only the timers of the list matter.
pub Linked-ext :
    (s r : Store) (prev : ℕ) (ps : List ℕ)
    → ((p : ℕ) → 0 < count p ps → r p ≡ s p)
    → Linked s prev ps
    → Linked r prev ps
Linked-ext s r prev [] same l = tt
Linked-ext s r prev (p ∷ ps) same ((t, found, back, on), l) = (
  (t, same p (count-head p ps) ∙ found, back, on),
  Linked-ext s r p ps (λ q m. same q (omega arith)) l,
)

-- Nor do fields other than the links.
pub record SameLinks (s r : Store) (p : ℕ) : Type 0 where
  pub kept :
      (t : TwTimer)
      → s p ≡ some t
      → (u : TwTimer) × (r p ≡ some u) × (u.next ≡ t.next) × (u.prev ≡ t.prev)

pub Linked-SameLinks :
    (s r : Store) (prev : ℕ) (ps : List ℕ)
    → ((p : ℕ) → 0 < count p ps → SameLinks s r p)
    → Linked s prev ps
    → Linked r prev ps
Linked-SameLinks s r prev [] same l = tt
Linked-SameLinks s r prev (p ∷ ps) same ((t, found, back, on), l) =
    let (u, at, n, b) = (same p (count-head p ps)).kept t found in
    ((u, at, b ∙ back, n ∙ on), Linked-SameLinks s r p ps (λ q m. same q (omega arith)) l)

-- A member of a list: the timer, with its links.
pub Linked-member :
    (s : Store) (prev x : ℕ) (xs ys : List ℕ)
    → Linked s prev (xs ++ x ∷ ys)
    → (t : TwTimer) × (s x ≡ some t) × (t.prev ≡ last_of prev xs) × (t.next ≡ head_of ys)
Linked-member s prev x [] ys l = l.0
Linked-member s prev x (p ∷ xs) ys l = Linked-member s p x xs ys l.1

pub Linked-live :
    (s : Store) (prev p : ℕ) (ps : List ℕ)
    → Linked s prev ps
    → 0 < count p ps
    → (t : TwTimer) × (s p ≡ some t)
Linked-live s prev p [] l m = absurd (omega arith)
Linked-live s prev p (q ∷ ps) ((t, found, back, on), l) m = elim (Bool-cases (q == p)) [
  | inl e ↦ (t, ground arith)
  | inr e ↦ Linked-live s q p ps l (ground arith)
]

-- The last of a list that is not empty is a member, and so is the first.
pub last_of-member : (p : ℕ) (ps : List ℕ) → ps ≢ [] → 0 < count (last_of p ps) ps
last_of-member p [] h = absurd (h refl)
last_of-member p (q ∷ []) h = ground arith
last_of-member p (q ∷ r ∷ ps) h = omega (arith, last_of-member q (r ∷ ps) (λ e. cc))

pub head_of-ne : (p : ℕ) (ps : List ℕ) → p ≢ 0 → count p ps ≡ 0 → head_of ps ≢ p
head_of-ne p [] h c = ground arith
head_of-ne p (q ∷ ps) h c = ground arith
