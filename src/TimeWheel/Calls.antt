-- ===== src/TimeWheel/Calls.antt =====
-- How often a callback is called with its data, in the log of calls that `tick` makes.
use c_model.Common.{
  ℕ, ◌+◌, ◌<◌, ◌≡◌, ◌≢◌, refl, ap, sym, ◌∙◌, List, [], ◌∷◌, ◌++◌, Option, none, some, false, arith,
  ◌==◌, ◌&&◌, if◌then◌else◌, Bool-cases, inl, inr,
}
use c_model.Array.{count}
use c_model.TimeWheel.Info.{Info, waits, call_of, due_calls}

-- How many calls in the log are of `f` with `user_data`.
abbrev pub called : ℕ → ℕ → List (ℕ × ℕ) → ℕ
called f user_data [] = 0
called f user_data (c ∷ cs) =
    (if (c.0 == f) && (c.1 == user_data) then 1 else 0) + called f user_data cs

pub called-append :
    (f d : ℕ) (cs es : List (ℕ × ℕ)) → called f d (cs ++ es) ≡ called f d cs + called f d es
called-append f d [] es = omega arith
called-append f d (c ∷ cs) es = omega (arith, called-append f d cs es)

module _ (v : ℕ → Option Info) (f d : ℕ) where
  -- A tick of its slot does not make the timer call `f` with `d`.
  abbrev pub Silent : ℕ → Type 0
  Silent q = (j : Info) → v q ≡ some j → waits (v q) ≡ false → j.cb_func ≡ some f → j.user_data ≢ d

  call_of-Silent :
      (o : Option Info)
      → ((j : Info) → o ≡ some j → j.cb_func ≡ some f → j.user_data ≢ d)
      → called f d (call_of o) ≡ 0
  call_of-Silent none h = refl
  call_of-Silent (some j) h = by_callback j.cb_func refl
    where
      by_callback :
          (c : Option ℕ)
          → j.cb_func ≡ c
          → called f d (elim c [ none ↦ [] | some g ↦ (g, j.user_data) ∷ [] ]) ≡ 0
      by_callback none e = refl
      by_callback (some g) e = elim (Bool-cases (g == f)) [
        | inl hit ↦
            (let same : j.cb_func ≡ some f = e ∙ ground arith in
              let apart = h j refl same in
              let other : (j.user_data == d) ≡ false = ground arith in rw (hit, other) refl)
        | inr miss ↦ rw miss refl
      ]

  pub due_calls-Silent :
      (ps : List ℕ) → ((q : ℕ) → 0 < count q ps → Silent q) → called f d (due_calls v ps) ≡ 0
  due_calls-Silent [] h = refl
  due_calls-Silent (p ∷ ps) h =
      let rest = due_calls-Silent ps (λ q m. h q (omega arith)) in
      elim (Bool-cases (waits (v p))) [
        | inl e ↦ rw e rest
        | inr e ↦
            (let none_here = call_of-Silent (v p) (λ j at. h p (ground arith) j at e) in
              rw e (called-append f d (call_of (v p)) (due_calls v ps) ∙ omega arith))
      ]

  -- The only timer with that callback and data is due, and stands once in the list.
  pub due_calls-once :
      (p : ℕ) (j : Info)
      → v p ≡ some j
      → j.rotation ≡ 0
      → j.cb_func ≡ some f
      → j.user_data ≡ d
      → (ps : List ℕ) → count p ps ≡ 1
      → ((q : ℕ) → 0 < count q ps → p ≢ q → Silent q)
      → called f d (due_calls v ps) ≡ 1
  due_calls-once p j at now cb same_data [] n h = absurd (omega arith)
  due_calls-once p j at now cb same_data (r ∷ ps) n h = elim (Bool-cases (p == r)) [
    | inl e ↦
        (let same : p ≡ r = ground arith in
          let rest =
            due_calls-Silent ps
              (λ q m. h q (omega arith) (λ x. ground (arith, ap (λ y. count y ps) x))) in
          let mine : (if waits (v r) then [] else call_of (v r)) ≡ (f, d) ∷ [] =
            calls_now (v r) (ap v (sym same) ∙ at) in
          ap (λ c. called f d (c ++ due_calls v ps)) mine ∙ rw rest (ground arith))
    | inr e ↦
        (let rest =
            due_calls-once p j at now cb same_data ps (ground arith) (λ q m. h q (omega arith)) in
          elim (Bool-cases (waits (v r))) [
            | inl e' ↦ rw e' rest
            | inr e' ↦
                (let none_here =
                    call_of-Silent (v r) (λ l here. h r (ground arith) (ground arith) l here e') in
                  rw e' (called-append f d (call_of (v r)) (due_calls v ps) ∙ omega arith))
          ])
  ]
    where
      calls_now : (o : Option Info) → o ≡ some j → (if waits o then [] else call_of o) ≡ (f, d) ∷ []
      calls_now o same = ground arith
