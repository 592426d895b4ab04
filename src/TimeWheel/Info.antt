-- ===== src/TimeWheel/Info.antt =====
-- A timer without its links, and which timers of a list a tick fires.
use c_model.Common.{
  ℕ, ◌-◌, ◌<◌, ◌≡◌, refl, List, [], ◌∷◌, ◌++◌, Option, none, some, Bool, false, arith, ltb,
  if◌then◌else◌,
}
use c_model.Array.{count}
use c_model.TimeWheel.{TwTimer, Wheel}

-- A timer without its links.
pub record Info : Type 0 where
  pub rotation : ℕ
  pub time_slot : ℕ
  pub cb_func : Option ℕ
  pub user_data : ℕ

abbrev pub info : Option TwTimer → Option Info
info none = none
info (some t) = some (record {
  rotation = t.rotation;
  time_slot = t.time_slot;
  cb_func = t.cb_func;
  user_data = t.user_data;
})

-- Whether a timer lets this round pass.
abbrev pub waits : Option Info → Bool
waits none = false
waits (some i) = ltb 0 i.rotation

-- What is left of a timer when its slot has been handled.
abbrev pub after_sweep : Option Info → Option Info
after_sweep none = none
after_sweep (some i) =
    if ltb 0 i.rotation then some (record i { rotation = i.rotation - 1 }) else none

-- The timers of a list that wait, and the calls of the others.
abbrev pub waiting : (ℕ → Option Info) → List ℕ → List ℕ
waiting v [] = []
waiting v (p ∷ ps) = if waits (v p) then p ∷ waiting v ps else waiting v ps

abbrev pub call_of : Option Info → List (ℕ × ℕ)
call_of none = []
call_of (some i) = elim i.cb_func [ none ↦ [] | some f ↦ (f, i.user_data) ∷ [] ]

abbrev pub due_calls : (ℕ → Option Info) → List ℕ → List (ℕ × ℕ)
due_calls v [] = []
due_calls v (p ∷ ps) = (if waits (v p) then [] else call_of (v p)) ++ due_calls v ps

abbrev pub infos : Wheel → ℕ → Option Info
infos w q = info (w.timers q)

pub waiting-ext :
    (v u : ℕ → Option Info) (ps : List ℕ)
    → ((p : ℕ) → 0 < count p ps → v p ≡ u p)
    → waiting v ps ≡ waiting u ps
waiting-ext v u [] same = refl
waiting-ext v u (p ∷ ps) same =
    rw (same p (ground arith), waiting-ext v u ps (λ q m. same q (omega arith)))

pub due_calls-ext :
    (v u : ℕ → Option Info) (ps : List ℕ)
    → ((p : ℕ) → 0 < count p ps → v p ≡ u p)
    → due_calls v ps ≡ due_calls u ps
due_calls-ext v u [] same = refl
due_calls-ext v u (p ∷ ps) same =
    rw (same p (ground arith), due_calls-ext v u ps (λ q m. same q (omega arith)))

pub after_sweep-due : (v : Option Info) → waits v ≡ false → after_sweep v ≡ none
after_sweep-due none h = refl
after_sweep-due (some i) h = rw h
