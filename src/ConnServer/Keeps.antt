-- ===== src/ConnServer/Keeps.antt =====
-- Parts of a worker that a call leaves as they are, if it does not fault.
use c_model.Common.{◌≡◌, refl, ap, sym, subst, ◌∙◌, Option, none, some}
use c_model.Run.{◌>>=◌}
use c_model.ConnServer.{Worker}

-- After the call the worker, seen through `view`, is `x`.
pub record Keeps {ℓ} {X : Type ℓ} (view : Worker → X) (x : X) (call : Option Worker) : Type ℓ where
  pub keep : (u : Worker) → call ≡ some u → view u ≡ x

module _ {ℓ} {X : Type ℓ} (view : Worker → X) where
  pub Keeps-bind {κ} :
      {A : Type κ} (x : X) (call : Option A) (f : A → Option Worker)
      → ((a : A) → Keeps view x (f a))
      → Keeps view x (call >>= f)
  Keeps-bind x none f h = record { keep = λ u e. absurd cc }
  Keeps-bind x (some a) f h = h a

  pub some-Keeps : (u : Worker) → Keeps view (view u) (some u)
  some-Keeps u = record { keep = λ v e. let same : u ≡ v = cc in ap view (sym same) }

  -- A step keeps them if it does so after one that does.
  pub Keeps-next :
      (x : X) (call : Option Worker) (f : Worker → Option Worker)
      → Keeps view x call
      → ((u : Worker) → Keeps view (view u) (f u))
      → Keeps view x (call >>= f)
  Keeps-next x none f h h' = record { keep = λ u e. absurd cc }
  Keeps-next x (some a) f h h' = let k = h' a in record { keep = λ v e. k.keep v e ∙ h.keep a refl }

  -- A call whose result is known.
  pub Keeps-on {κ} :
      {A : Type κ} (x : X) {call : Option A} {a : A} (f : A → Option Worker)
      → call ≡ some a
      → Keeps view x (f a)
      → Keeps view x (call >>= f)
  Keeps-on x f e h = subst (Keeps view x) (sym (ap (λ c. c >>= f) e)) h

  pub Keeps-same : (x y : X) {call : Option Worker} → x ≡ y → Keeps view x call → Keeps view y call
  Keeps-same x y e k = record { keep = λ u e'. k.keep u e' ∙ e }
