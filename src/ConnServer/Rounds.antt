-- ===== src/ConnServer/Rounds.antt =====
-- The order in which `select_backend` takes the back-end servers.
use native.Mathlib.Nat.{mod-eq_of_lt, add-mod_left}
use c_model.Common.{
  ℕ, zero, suc, ◌+◌, ◌%◌, ◌<◌, ◌≡◌, refl, ap, sym, ◌∙◌, List, [], ◌∷◌, Option, some, arith, ◌==◌,
  ==-eq, Bool-cases, inl, inr,
}
use c_model.Array.{length, get_elem?}
use c_model.Run.{◌>>=◌, Returns, returns, Returns-bind}
use c_model.ContextPool.{ConnContext}
use c_model.ConnServer.{Worker}
use c_model.ConnServer.Proxy.{next_turn, select_backend}
use c_model.ConnServer.Held.{get_elem?-inside}
use c_model.ConnServer.Dial.{next_turn-lt}

-- The addresses that `k` calls of `select_backend` choose.
unfoldable pub select_many : ℕ → Worker → ConnContext → Option (List ℕ × Worker)
unfolding select_backend
select_many zero w c = some ([], w)
select_many (suc k) w c =
    select_backend w c >>= λ r. select_many k r.1 c >>= λ q. some (r.0 ∷ q.0, q.1)

next_turn-mod : (last n j : ℕ) → last < n → (next_turn last n + j) % n ≡ (last + suc j) % n
unfolding next_turn
next_turn-mod last n j h = elim (Bool-cases (suc last == n)) [
  | inl e ↦
      let wraps : suc last ≡ n = ==-eq (suc last) n e in
      let from_first : 0 + j ≡ j = omega arith in
      let same : last + suc j ≡ n + j = omega arith in
      rw e (ap (λ x. x % n) from_first ∙ sym (ap (λ x. x % n) same ∙ add-mod_left n j))
  | inr e ↦ rw e (ap (λ x. x % n) (let same : suc last + j ≡ last + suc j = omega arith in same))
]

-- Of `n` servers, with the turn at one of them, the calls of `select_backend` choose the servers in turn
-- from there on and from the first one again after the last: the choice `j` calls later is server number
-- `(last + j) % n`. No call faults.
pub select_backend_takes_turns :
    (k : ℕ) (w : Worker) (c : ConnContext)
    → w.last < length c.pa
    → Returns
        (λ q.
          (length q.0 ≡ k)
          × ((j : ℕ) → j < k → get_elem? q.0 j ≡ get_elem? c.pa ((w.last + j) % length c.pa)))
        (select_many k w c)
unfolding select_many select_backend
select_backend_takes_turns zero w c h = returns (refl, λ j lt. absurd (omega arith))
select_backend_takes_turns (suc k) w c h =
    let (addr, found) = get_elem?-inside c.pa w.last h in
    let next : Worker = record w { last = next_turn w.last (length c.pa) } in
    rw found (
      Returns-bind (select_backend_takes_turns k next c (next_turn-lt w.last (length c.pa) h))
        λ q (long, each). returns (ap suc long, at_turn q each addr found))
  where
    at_turn :
        (q : List ℕ × Worker)
        → ((j : ℕ)
            → j < k
            → get_elem? q.0 j ≡ get_elem? c.pa ((next_turn w.last (length c.pa) + j) % length c.pa))
        → (addr : ℕ) → get_elem? c.pa w.last ≡ some addr
        → (j : ℕ) → j < suc k
        → get_elem? (addr ∷ q.0) j ≡ get_elem? c.pa ((w.last + j) % length c.pa)
    at_turn q each addr found zero lt = sym (
        ap (get_elem? c.pa) (
          ap (λ x. x % length c.pa) (let same : w.last + 0 ≡ w.last = omega arith in same)
          ∙ mod-eq_of_lt h)
        ∙ found)
    at_turn q each addr found (suc j) lt =
        each j (omega arith) ∙ ap (get_elem? c.pa) (next_turn-mod w.last (length c.pa) j h)
