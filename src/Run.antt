-- ===== src/Run.antt =====
-- Code that may fault: a call ends in `some` result, or in `none`, which stands for undefined
-- behaviour (a read through a null or dangling pointer, an access out of range) and for a loop that
-- is out of fuel. A theorem that a call ends in `some` result excludes both.
use c_model.Common.{
  ◌≡◌, refl, ap, subst, ◌∙◌, Bool, true, false, Option, none, some, if◌then◌else◌, Bool-cases, inl,
  inr,
}

infixl 5 ◌>>=◌
abbrev pub ◌>>=◌ {ℓ κ} : {A : Type ℓ} {B : Type κ} → Option A → (A → Option B) → Option B
none >>= f = none
some a >>= f = f a

module _ {ℓ κ} {A : Type ℓ} (P : A → Type κ) where
  -- The call does not fault, and its result satisfies `P`.
  pub record Returns (call : Option A) : Type (ℓ ⊔ κ) where
    pub result : A
    pub ends : call ≡ some result
    pub holds : P result

module _ {ℓ κ} {A : Type ℓ} {P : A → Type κ} where
  pub returns : {a : A} → P a → Returns P (some a)
  returns {a} p = record { result = a; ends = refl; holds = p }

  -- The result that is known satisfies what every result does.
  pub Returns-at : {call : Option A} {a : A} → Returns P call → call ≡ some a → P a
  Returns-at {a = a} r e = let same : r.result ≡ a = cc in subst P same r.holds

  pub Returns-if :
      {x y : Option A} (b : Bool)
      → (b ≡ true → Returns P x)
      → (b ≡ false → Returns P y)
      → Returns P (if b then x else y)
  Returns-if b p q = elim (Bool-cases b) [ inl e ↦ rw e (p e) | inr e ↦ rw e (q e) ]

  pub Returns-map {κ'} :
      {Q : A → Type κ'} {call : Option A} → Returns P call → ((a : A) → P a → Q a) → Returns Q call
  Returns-map r f = record { result = r.result; ends = r.ends; holds = f r.result r.holds }

  pub Returns-bind {ℓ' κ'} :
      {B : Type ℓ'} {Q : B → Type κ'} {call : Option A} {f : A → Option B}
      → Returns P call
      → ((a : A) → P a → Returns Q (f a))
      → Returns Q (call >>= f)
  Returns-bind {f = f} r next =
      let after = next r.result r.holds in
      record {
        result = after.result;
        ends = ap (λ c. c >>= f) r.ends ∙ after.ends;
        holds = after.holds;
      }

-- A call whose result is known.
pub Returns-on {ℓ ℓ' κ} :
    {A : Type ℓ} {B : Type ℓ'} {Q : B → Type κ} {call : Option A} {a : A} (f : A → Option B)
    → call ≡ some a
    → Returns Q (f a)
    → Returns Q (call >>= f)
Returns-on f e after = record {
  result = after.result;
  ends = ap (λ c. c >>= f) e ∙ after.ends;
  holds = after.holds;
}

pub bind_on {ℓ κ} :
    {A : Type ℓ} {B : Type κ} {call : Option A} {a : A} {r : Option B} (f : A → Option B)
    → call ≡ some a
    → f a ≡ r
    → (call >>= f) ≡ r
bind_on f e h = ap (λ c. c >>= f) e ∙ h

-- What follows a chain whose result is known.
module _ {ℓ ℓ' ℓ''} {A : Type ℓ} {B : Type ℓ'} {C : Type ℓ''} (m : Option A) where
  pub bind_chain :
      (g : A → Option B) (k : B → Option C) {b : B}
      → (m >>= g) ≡ some b
      → (m >>= λ a. g a >>= k) ≡ k b
  bind_chain g k e = bind_chain_on m e
    where
      bind_chain_on : (m' : Option A) {b : B} → (m' >>= g) ≡ some b → (m' >>= λ a. g a >>= k) ≡ k b
      bind_chain_on none e = cc
      bind_chain_on (some a) e = rw e

pub bind_chain_two {ℓ ℓ' ℓ'' κ} :
    {A : Type ℓ} {B : Type ℓ'} {C : Type ℓ''} {D : Type κ} (m : Option A) (g : A → Option B)
    (h : B → Option C) (k : C → Option D) {c : C}
    → (m >>= λ a. g a >>= h) ≡ some c
    → (m >>= λ a. g a >>= λ b. h b >>= k) ≡ k c
bind_chain_two none g h k e = cc
bind_chain_two (some a) g h k e = bind_chain (g a) h k e
