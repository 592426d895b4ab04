-- ===== src/ProcessPool/Dispatch.antt =====
-- The choice of a child for a new connection.
use native.Mathlib.Nat.{mod-eq_of_lt, mod_self}
use c_model.Common.{
  ℕ, zero, suc, ◌+◌, ◌-◌, ◌%◌, ◌<◌, ◌≡◌, ◌≢◌, refl, ap, sym, ◌∙◌, subst, List, [], ◌∷◌, ◌++◌,
  Option, none, some, arith, true, ltb, ◌==◌, ==-eq, if◌then◌else◌, Bool, true, false, Bool-cases,
  Option-cases, inl, inr, ◌⊎◌,
}
use c_model.Array.{length, get_elem?, get_elem?-get_or}
use c_model.Run.{◌>>=◌, Returns, returns, Returns-bind, Returns-if}
use c_model.ProcessPool.{Parent, find_child, new_connection}
use c_model.ProcessPool.Signals.{child}

-- The index `d` places after `c` in a circle of `n`.
unfoldable pub around : ℕ → ℕ → ℕ → ℕ
around n c d = if ltb (c + d) n then c + d else c + d - n

succ-mod : (n i : ℕ) → i < n → (i + 1) % n ≡ (if suc i == n then 0 else suc i)
succ-mod n i h = elim (Bool-cases (suc i == n)) [
  | inl e ↦ let same : i + 1 ≡ n = ground arith in ap (λ k. k % n) same ∙ mod_self n ∙ rw e refl
  | inr e ↦ let below : i + 1 < n = ground arith in mod-eq_of_lt below ∙ rw e (omega arith)
]

around-suc : (n c d : ℕ) → c < n → d < n → (around n c d + 1) % n ≡ around n c (suc d)
unfolding around
around-suc n c d hc hd = succ-mod n (around n c d) (ground arith) ∙ ground arith

around-le : (n c d : ℕ) → c < n → d < n → around n c d < n
unfolding around
around-le n c d hc hd = ground arith

around-whole : (n c d : ℕ) → c < n → d < n → around n c (suc d) ≡ c → suc d ≡ n
unfolding around
around-whole n c d hc hd e = ground arith

around-part : (n c d : ℕ) → c < n → d < n → around n c (suc d) ≢ c → suc d < n
unfolding around
around-part n c d hc hd e = ground arith

around-onto : (n c i : ℕ) → c < n → i < n → (d : ℕ) × (d < n) × (around n c d ≡ i)
unfolding around
around-onto n c i hc hi = elim (Bool-cases (ltb i c)) [
  | inl e ↦ (n - c + i, ground arith, ground arith)
  | inr e ↦ (i - c, ground arith, ground arith)
]

around-start : (n c : ℕ) → c < n → around n c 0 ≡ c
unfolding around
around-start n c h = ground arith

-- The child at index `i` is the first from `c` on that has not ended.
pub record Chosen (procs : List (Option ℕ)) (c i : ℕ) : Type 0 where
  pub distance : ℕ
  pub near : distance < length procs
  pub place : i ≡ around (length procs) c distance
  pub running : (pid : ℕ) × (child procs i ≡ some pid)
  pub skipped : (d : ℕ) → d < distance → child procs (around (length procs) c d) ≡ none

pub Chosen-lt :
    (procs : List (Option ℕ)) (c i : ℕ) → c < length procs → Chosen procs c i → i < length procs
Chosen-lt procs c i h r =
    subst (λ j. j < length procs) (sym r.place) (around-le (length procs) c r.distance h r.near)

-- No child runs, and the loop ended where it began.
abbrev NoneLeft : List (Option ℕ) → ℕ → ℕ → Type 0
NoneLeft procs c i =
    (i ≡ c) × ((d : ℕ) → d < length procs → child procs (around (length procs) c d) ≡ none)

abbrev Found : List (Option ℕ) → ℕ → ℕ → Type 0
Found procs c i = Chosen procs c i ⊎ NoneLeft procs c i

find_child-Chosen :
    (k d : ℕ) (procs : List (Option ℕ)) (c : ℕ)
    → c < length procs
    → k + d ≡ length procs
    → 0 < k
    → ((e : ℕ) → e < d → child procs (around (length procs) c e) ≡ none)
    → Returns (Found procs c) (find_child k procs c (around (length procs) c d))
unfolding find_child
find_child-Chosen zero d procs c h e pos_k none_before = absurd (omega arith)
find_child-Chosen (suc k) d procs c h e pos_k none_before =
    let n = length procs in
    let i = around n c d in
    let inside : i < n = around-le n c d h (omega arith) in
    let next = around-suc n c d h (omega arith) in
    elim (Option-cases (child procs i)) [
      | inr (pid, found) ↦
          rw (get_elem?-get_or procs i none inside, found)
            (returns (
              inl (record {
                distance = d;
                near = omega arith;
                place = refl;
                running = (pid, found);
                skipped = none_before;
              })))
      | inl gone ↦
          rw (get_elem?-get_or procs i none inside, gone, next)
            (Returns-if (around n c (suc d) == c)
              (λ back.
                let again : around n c (suc d) ≡ c = ==-eq (around n c (suc d)) c back in
                let whole : suc d ≡ n = around-whole n c d h (omega arith) again in
                returns (inr (again, λ l below. none_so_far gone l (omega arith))))
              λ on.
                let more : suc d < n = around-part n c d h (omega arith) (ground arith) in
                find_child-Chosen k (suc d) procs c h (omega arith) (omega arith)
                  (λ l below. none_so_far gone l below))
    ]
  where
    none_so_far :
        child procs (around (length procs) c d) ≡ none
        → (l : ℕ) → l < suc d
        → child procs (around (length procs) c l) ≡ none
    none_so_far gone l below = elim (Bool-cases (l == d)) [
      | inl same ↦ ap (λ x. child procs (around (length procs) c x)) (==-eq l d same) ∙ gone
      | inr other ↦ none_before l (ground arith)
    ]

-- What a new connection leads to: the first running child from the counter on, in a circle, is sent it,
-- and the counter moves behind this child; or no child runs, and the parent is to stop.
pub data Dispatched (s : Parent) : Bool × Parent → Type 0 where
  handed :
      (i : ℕ)
      → Chosen s.m_sub_process s.sub_process_counter i
      → Dispatched s (
        false,
        record s {
          sub_process_counter = if suc i == length s.m_sub_process then 0 else suc i;
          sent = s.sent ++ (i ∷ []);
        },
      )
  none_runs :
      ((i : ℕ) → i < length s.m_sub_process → child s.m_sub_process i ≡ none)
      → Dispatched s (true, record s { m_stop = true })

hand_over :
    (s : Parent) (h : s.sub_process_counter < length s.m_sub_process) (i : ℕ)
    → Found s.m_sub_process s.sub_process_counter i
    → Returns (Dispatched s) (
        get_elem? s.m_sub_process i >>= λ pid. elim pid [
          | none ↦ some (true, record s { m_stop = true })
          | some p ↦ some (
            false,
            record s {
              sub_process_counter = (i + 1) % length s.m_sub_process;
              sent = s.sent ++ (i ∷ []);
            },
          )
        ])
hand_over s h i (inl c) =
    let n = length s.m_sub_process in
    let inside = Chosen-lt s.m_sub_process s.sub_process_counter i h c in
    rw (get_elem?-get_or s.m_sub_process i none inside, c.running.1, succ-mod n i inside)
      (returns (handed i c))
hand_over s h i (inr (back, gone)) =
    let n = length s.m_sub_process in
    let all_gone : (j : ℕ) → j < n → child s.m_sub_process j ≡ none = λ j below.
      let (d, near, place) = around-onto n s.sub_process_counter j h below in
      subst (λ l. child s.m_sub_process l ≡ none) place (gone d near) in
    rw
      (
        back,
        get_elem?-get_or s.m_sub_process s.sub_process_counter none h,
        all_gone s.sub_process_counter h,
      )
      (returns (none_runs all_gone))

-- If the counter is an index of the array, the choice of a child for a new connection ends without a
-- fault, within as many rounds as there are children. It takes the first child from the counter on that
-- has not ended, so that running children take turns; if all have ended, the parent stops.
pub new_connection_takes_turns :
    (s : Parent)
    → s.sub_process_counter < length s.m_sub_process
    → Returns (Dispatched s) (new_connection s)
unfolding new_connection
new_connection_takes_turns s h =
    let n = length s.m_sub_process in
    let c = s.sub_process_counter in
    let found =
      subst (λ i. Returns (Found s.m_sub_process c) (find_child n s.m_sub_process c i))
        (around-start n c h)
        (find_child-Chosen n 0 s.m_sub_process c h (omega arith) (omega arith)
          (λ e below. absurd (omega arith))) in
    Returns-bind found λ i r. hand_over s h i r
