-- ===== src/TimeWheel/Relink.antt =====
-- The assignments that take a timer out of its list.
use mathlib.Core.Path.{fun_ext}
use c_model.Common.{ℕ, ◌≡◌, ◌≢◌, ap, none, some, false, arith, ◌==◌, if◌then◌else◌}
use c_model.Run.{◌>>=◌}
use c_model.TimeWheel.{TwTimer, Store, null, remove, set_next, set_prev_if, free}
use c_model.TimeWheel.Unlink.{unlinked}

-- The pointers that the code reads from a member of a list.
pub data NullOrLive (s : Store) (p : ℕ) : Type 0 where
  is_null : p ≡ null → NullOrLive s p
  is_live : (t : TwTimer) → s p ≡ some t → NullOrLive s p

-- What `x` is linked to in a list: `before` and `after`.
pub record Neighbours (s : Store) (x before after : ℕ) : Type 0 where
  pub no_null : s null ≡ none
  pub live : (t : TwTimer) × (s x ≡ some t)
  pub next_live : NullOrLive s after
  pub next_other : after ≢ x
  pub apart : before ≢ x

abbrev with_next : Store → ℕ → ℕ → Store
with_next s p v q = s q >>= λ t. some (record t { next = if p == q then v else t.next })

abbrev with_prev : Store → ℕ → ℕ → Store
with_prev s p v q = s q >>= λ t. some (record t { prev = if p == q then v else t.prev })

pub free-eq_some : (s : Store) (x : ℕ) (t : TwTimer) → s x ≡ some t → free s x ≡ some (remove s x)
unfolding free
free-eq_some s x t found = rw found

set_next-eq_some :
    (s : Store) (p v : ℕ) (t : TwTimer) → s p ≡ some t → set_next s p v ≡ some (with_next s p v)
unfolding set_next
set_next-eq_some s p v t found = rw (found, ◌>>=◌) (ap some (fun_ext λ q. ground arith))

set_prev_if-eq_some :
    (s : Store) (p v : ℕ)
    → s null ≡ none
    → NullOrLive s p
    → set_prev_if s p v ≡ some (with_prev s p v)
unfolding set_prev_if
set_prev_if-eq_some s p v e (is_null n) = rw n (ap some (fun_ext λ q. ground arith))
set_prev_if-eq_some s p v e (is_live t found) =
    let other : (p == null) ≡ false = ground arith in
    rw (other, found, ◌>>=◌) (ap some (fun_ext λ q. ground arith))

-- An update that keeps the set of allocated pointers keeps this.
NullOrLive-step :
    (s r : Store) (p : ℕ)
    → ((t : TwTimer) → s p ≡ some t → (u : TwTimer) × (r p ≡ some u))
    → NullOrLive s p
    → NullOrLive r p
NullOrLive-step s r p keep (is_null e) = is_null e
NullOrLive-step s r p keep (is_live t found) = let (u, at) = keep t found in is_live u at

-- `fire` on the first timer of a list: the timer is deleted, and then the second loses its link back.
pub free_then_prev :
    (s : Store) (x after : ℕ)
    → Neighbours s x null after
    → (free s x >>= λ r. set_prev_if r after null) ≡ some (unlinked s x null after)
free_then_prev s x after n =
    let (t, found) = n.live in
    let left : NullOrLive (remove s x) after =
      NullOrLive-step s (remove s x) after (λ u at. (u, ground (arith, n.next_other)))
        n.next_live in
    rw
      (
        free-eq_some s x t found,
        set_prev_if-eq_some (remove s x) after null (ground (arith, n.no_null)) left,
      )
      (ap some (fun_ext λ q. ground (arith, n.no_null)))

-- `del_timer` does so in the other order.
pub prev_then_free :
    (s : Store) (x after : ℕ)
    → Neighbours s x null after
    → (set_prev_if s after null >>= λ r. free r x) ≡ some (unlinked s x null after)
prev_then_free s x after n =
    let (t, found) = n.live in
    let r = with_prev s after null in
    rw
      (
        set_prev_if-eq_some s after null n.no_null n.next_live,
        free-eq_some r x (record t { prev = if after == x then null else t.prev }) (ground arith),
      )
      (ap some (fun_ext λ q. ground (arith, n.no_null)))

-- Both do the same further down the list.
pub relink_then_free :
    (s : Store) (x before after : ℕ) (b : TwTimer)
    → Neighbours s x before after
    → s before ≡ some b
    → (set_next s before after >>= λ r. set_prev_if r after before >>= λ q. free q x)
      ≡ some (unlinked s x before after)
relink_then_free s x before after b n at =
    let (t, found) = n.live in
    let r = with_next s before after in
    let q = with_prev r after before in
    let left : NullOrLive r after =
      NullOrLive-step s r after
        (λ u h. (record u { next = if before == after then after else u.next }, ground arith))
        n.next_live in
    rw
      (
        set_next-eq_some s before after b at,
        set_prev_if-eq_some r after before (ground (arith, n.no_null)) left,
        free-eq_some q x
            (record t {
              next = if before == x then after else t.next;
              prev = if after == x then before else t.prev;
            })
            (ground arith),
      )
      (ap some (fun_ext λ p. ground arith))
