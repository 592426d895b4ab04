-- ===== src/Array.antt =====
-- C arrays as lists under native indices. The slots are pointers or other words, so an array is a
-- list of numbers; `get_or` and `set` out of range are excluded by the checks of `load` and `store`.
use c_model.Common.{
  ℕ, zero, suc, ◌+◌, ◌≤◌, ◌<◌, ◌≡◌, ◌≢◌, refl, ap, sym, List, [], ◌∷◌, ◌++◌, Option, none, some,
  arith, ltb, ◌==◌, if◌then◌else◌, Bool-cases, inl, inr,
}

module _ {ℓ} {A : Type ℓ} where
  abbrev pub length : List A → ℕ
  length [] = 0
  length (_ ∷ xs) = suc (length xs)

  abbrev pub get_or : List A → ℕ → A → A
  get_or [] i d = d
  get_or (x ∷ xs) zero d = x
  get_or (x ∷ xs) (suc i) d = get_or xs i d

  abbrev pub set : List A → ℕ → A → List A
  set [] i v = []
  set (x ∷ xs) zero v = v ∷ xs
  set (x ∷ xs) (suc i) v = x ∷ set xs i v

  abbrev pub replicate : ℕ → A → List A
  replicate zero a = []
  replicate (suc n) a = a ∷ replicate n a

  abbrev pub get_elem? : List A → ℕ → Option A
  get_elem? [] i = none
  get_elem? (x ∷ xs) zero = some x
  get_elem? (x ∷ xs) (suc i) = get_elem? xs i

  pub length-set : (xs : List A) (i : ℕ) (v : A) → length (set xs i v) ≡ length xs
  length-set [] i v = refl
  length-set (x ∷ xs) zero v = refl
  length-set (x ∷ xs) (suc i) v = ap suc (length-set xs i v)

  pub length-append : (xs ys : List A) → length (xs ++ ys) ≡ length xs + length ys
  length-append [] ys = omega arith
  length-append (x ∷ xs) ys = omega (arith, length-append xs ys)

  pub length-replicate : (n : ℕ) (a : A) → length (replicate n a) ≡ n
  length-replicate zero a = refl
  length-replicate (suc n) a = ap suc (length-replicate n a)

  pub get_or-set :
      (xs : List A) (i j : ℕ) (v d : A)
      → i < length xs
      → get_or (set xs i v) j d ≡ (if i == j then v else get_or xs j d)
  get_or-set [] i j v d h = absurd (omega arith)
  get_or-set (x ∷ xs) zero zero v d h = refl
  get_or-set (x ∷ xs) (suc i) (suc j) v d h = ground (arith, get_or-set xs i j v d)
  get_or-set (x ∷ xs) i j v d h = ground arith

  pub set_same :
      (xs : List A) (i : ℕ) (v d : A) → i < length xs → get_or xs i d ≡ v → set xs i v ≡ xs
  set_same [] i v d h e = refl
  set_same (x ∷ xs) zero v d h e = ap (λ y. y ∷ xs) (sym e)
  set_same (x ∷ xs) (suc i) v d h e = ap (◌∷◌ x) (set_same xs i v d (omega arith) e)

  pub get_or-replicate : (n i : ℕ) (a : A) → get_or (replicate n a) i a ≡ a
  get_or-replicate zero i a = refl
  get_or-replicate (suc n) zero a = refl
  get_or-replicate (suc n) (suc i) a = get_or-replicate n i a

  pub get_elem?-get_or :
      (xs : List A) (i : ℕ) (d : A) → i < length xs → get_elem? xs i ≡ some (get_or xs i d)
  get_elem?-get_or [] i d h = absurd (omega arith)
  get_elem?-get_or (x ∷ xs) zero d h = refl
  get_elem?-get_or (x ∷ xs) (suc i) d h = get_elem?-get_or xs i d (omega arith)

  pub get_or-append :
      (xs ys : List A) (i : ℕ) (d : A) → i < length xs → get_or (xs ++ ys) i d ≡ get_or xs i d
  get_or-append [] ys i d h = absurd (omega arith)
  get_or-append (x ∷ xs) ys zero d h = refl
  get_or-append (x ∷ xs) ys (suc i) d h = get_or-append xs ys i d (omega arith)

  -- `a[i] = v`, which faults out of range
  unfoldable pub store : List A → ℕ → A → Option (List A)
  store xs i v = if ltb i (length xs) then some (set xs i v) else none

  pub store-eq_some :
      (xs : List A) (i : ℕ) (v : A) → i < length xs → store xs i v ≡ some (set xs i v)
  unfolding store
  store-eq_some xs i v h = ground arith

-- how often `p` occurs in a list
abbrev pub count : ℕ → List ℕ → ℕ
count p [] = 0
count p (x ∷ xs) = (if x == p then 1 else 0) + count p xs

-- how often `p` stands in the first `n` slots
abbrev pub occurs : ℕ → List ℕ → ℕ → ℕ
occurs zero xs p = 0
occurs (suc n) [] p = 0
occurs (suc n) (x ∷ xs) p = (if x == p then 1 else 0) + occurs n xs p

pub occurs-set :
    (n : ℕ) (xs : List ℕ) (i v p : ℕ)
    → i < n
    → i < length xs
    → occurs n (set xs i v) p + (if get_or xs i 0 == p then 1 else 0)
      ≡ occurs n xs p + (if v == p then 1 else 0)
occurs-set zero xs i v p h l = absurd (omega arith)
occurs-set (suc n) [] i v p h l = absurd (omega arith)
occurs-set (suc n) (x ∷ xs) zero v p h l = omega arith
occurs-set (suc n) (x ∷ xs) (suc i) v p h l =
    omega (arith, occurs-set n xs i v p (omega arith) (omega arith))

pub occurs-suc :
    (n : ℕ) (xs : List ℕ) (p : ℕ)
    → n < length xs
    → occurs (suc n) xs p ≡ occurs n xs p + (if get_or xs n 0 == p then 1 else 0)
occurs-suc n [] p h = absurd (omega arith)
occurs-suc zero (x ∷ xs) p h = omega arith
occurs-suc (suc n) (x ∷ xs) p h = omega (arith, occurs-suc n xs p (omega arith))

pub occurs-pos :
    (n : ℕ) (xs : List ℕ) (i : ℕ) → i < n → i < length xs → 0 < occurs n xs (get_or xs i 0)
occurs-pos zero xs i h l = absurd (omega arith)
occurs-pos (suc n) [] i h l = absurd (omega arith)
occurs-pos (suc n) (x ∷ xs) zero h l = ground arith
occurs-pos (suc n) (x ∷ xs) (suc i) h l =
    omega (arith, occurs-pos n xs i (omega arith) (omega arith))

-- an entry of the first `n` slots stands in one of them
pub occurs-index :
    (n : ℕ) (xs : List ℕ) (p : ℕ)
    → 0 < occurs n xs p
    → (i : ℕ) × (i < n) × (i < length xs) × (get_or xs i 0 ≡ p)
occurs-index zero xs p h = absurd (omega arith)
occurs-index (suc n) [] p h = absurd (omega arith)
occurs-index (suc n) (x ∷ xs) p h = elim (Bool-cases (x == p)) [
  | inl e ↦ (0, omega arith, omega arith, ground arith)
  | inr e ↦
      (let (i, below, inside, at) = occurs-index n xs p (ground arith) in
        (suc i, omega arith, omega arith, at))
]

-- Only the first `n` slots matter.
pub occurs-ext :
    (n : ℕ) (xs ys : List ℕ) (p : ℕ)
    → n ≤ length xs
    → n ≤ length ys
    → ((i : ℕ) → i < n → get_or xs i 0 ≡ get_or ys i 0)
    → occurs n xs p ≡ occurs n ys p
occurs-ext zero xs ys p l m h = refl
occurs-ext (suc n) [] ys p l m h = absurd (omega arith)
occurs-ext (suc n) (x ∷ xs) [] p l m h = absurd (omega arith)
occurs-ext (suc n) (x ∷ xs) (y ∷ ys) p l m h =
    let head : x ≡ y = h 0 (omega arith) in
    rw (head, occurs-ext n xs ys p (omega arith) (omega arith) (λ i q. h (suc i) (omega arith)))

pub occurs-none : (n : ℕ) (xs : List ℕ) (p : ℕ) → n ≡ 0 → occurs n xs p ≡ 0
occurs-none zero xs p e = refl
occurs-none (suc n) xs p e = absurd (omega arith)

pub occurs_mono : (m n : ℕ) (xs : List ℕ) (p : ℕ) → m ≤ n → occurs m xs p ≤ occurs n xs p
occurs_mono zero n xs p h = omega arith
occurs_mono (suc m) zero xs p h = absurd (omega arith)
occurs_mono (suc m) (suc n) [] p h = omega arith
occurs_mono (suc m) (suc n) (x ∷ xs) p h = omega (arith, occurs_mono m n xs p (omega arith))

-- Two slots with the same entry count twice.
pub occurs-twice :
    (n : ℕ) (xs : List ℕ) (i j : ℕ)
    → i < j
    → j < n
    → n ≤ length xs
    → get_or xs i 0 ≡ get_or xs j 0
    → 2 ≤ occurs n xs (get_or xs i 0)
occurs-twice n xs i j before below fits same = ground (
  arith,
  occurs-pos j xs i before,
  occurs-suc j xs (get_or xs i 0),
  occurs_mono (suc j) n xs (get_or xs i 0),
)

pub count-pos-ne : (p r : ℕ) (ps : List ℕ) → count p ps ≡ 0 → 0 < count r ps → p ≢ r
count-pos-ne p r ps h m e = absurd (omega (arith, ap (λ k. count k ps) e))

pub count-append : (p : ℕ) (xs ys : List ℕ) → count p (xs ++ ys) ≡ count p xs + count p ys
count-append p [] ys = omega arith
count-append p (x ∷ xs) ys = omega (arith, count-append p xs ys)

-- Where a member stands.
abbrev pub Position : ℕ → List ℕ → Type 0
Position p ps = (xs : List ℕ) × (ys : List ℕ) × (ps ≡ xs ++ p ∷ ys)

pub member-split : (p : ℕ) (ps : List ℕ) → 0 < count p ps → Position p ps
member-split p [] m = absurd (omega arith)
member-split p (q ∷ ps) m = elim (Bool-cases (q == p)) [
  | inl e ↦ ([], ps, ground arith)
  | inr e ↦ (let (xs, ys, same) = member-split p ps (ground arith) in (q ∷ xs, ys, ap (◌∷◌ q) same))
]
