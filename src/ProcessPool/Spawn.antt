-- ===== src/ProcessPool/Spawn.antt =====
-- The constructor of `processpool`: the children and the pipes to them.
use c_model.Common.{
  ℕ, zero, suc, ◌+◌, ◌≤◌, ◌<◌, ◌≡◌, ◌≢◌, refl, ap, ◌∙◌, List, [], ◌∷◌, ◌++◌, Option, none, some,
  arith, false, ltb, ◌==◌, if◌then◌else◌,
}
use c_model.Array.{length, replicate}
use c_model.Run.{◌>>=◌}

abbrev pub max_process_number : ℕ
max_process_number = 16

-- `class process`; an entry that the constructor does not come to has `m_pid` -1, which is `none`, and
-- no pipe.
pub record Process : Type 0 where
  pub m_pid : Option ℕ
  pub m_pipefd : ℕ × ℕ

abbrev pub no_process : Process
no_process = record { m_pid = none; m_pipefd = (0, 0) }

-- What `socketpair` and `fork` give in a round, `none` where they fail. `fork` gives 0 in the child.
abbrev pub Calls : Type 0
Calls = ℕ → Option (ℕ × ℕ) × Option ℕ

-- `m_sub_process`, `m_idx`, which is `none` for -1, and the descriptors that were closed.
pub record Built : Type 0 where
  pub m_sub_process : List Process
  pub m_idx : Option ℕ
  pub closed : List ℕ

-- A round in the parent, before the later ones, and in the child, where it is the last one of `k` more.
abbrev pub in_parent : Process → Built → Built
in_parent p b = record {
  m_sub_process = p ∷ b.m_sub_process;
  m_idx = b.m_idx;
  closed = p.m_pipefd.1 ∷ b.closed;
}

abbrev pub in_child : Process → ℕ → ℕ → Built
in_child p i k = record {
  m_sub_process = p ∷ replicate k no_process;
  m_idx = some i;
  closed = p.m_pipefd.0 ∷ [];
}

-- The rounds of the loop from `i` on. A failed assertion faults.
unfoldable pub spawn_from : ℕ → ℕ → Calls → Option Built
spawn_from zero i calls = some (record { m_sub_process = []; m_idx = none; closed = [] })
spawn_from (suc k) i calls =
    let rest = λ (p : Process). spawn_from k (suc i) calls >>= λ b. some (in_parent p b) in
    (calls i).0 >>= λ pipe. (calls i).1 >>= λ pid.
    let p : Process = record { m_pid = some pid; m_pipefd = pipe } in
    if pid == 0 then some (in_child p i k) else rest p

-- The constructor, of a number of processes that is not negative.
unfoldable pub processpool : ℕ → Calls → Option Built
unfolding spawn_from
processpool process_number calls =
    if process_number == 0
    then none
    else if ltb max_process_number process_number
    then none
    else spawn_from process_number 0 calls

-- The calls of the rounds from `i` to `i + n - 1` succeed in the parent, with these pipes and pids.
abbrev pub AsParent : Calls → ℕ → List (ℕ × (ℕ × ℕ)) → Type 0
AsParent calls i [] = Unit
AsParent calls i (c ∷ cs) =
    ((calls i).0 ≡ some c.1) × ((calls i).1 ≡ some c.0) × (c.0 ≢ 0) × AsParent calls (suc i) cs

abbrev pub child_ends : List (ℕ × (ℕ × ℕ)) → List ℕ
child_ends [] = []
child_ends (c ∷ cs) = c.1.1 ∷ child_ends cs

abbrev pub processes : List (ℕ × (ℕ × ℕ)) → List Process
processes [] = []
processes (c ∷ cs) = record { m_pid = some c.0; m_pipefd = c.1 } ∷ processes cs

spawn-parent :
    (calls : Calls) (i : ℕ) (cs : List (ℕ × (ℕ × ℕ)))
    → AsParent calls i cs
    → spawn_from (length cs) i calls
      ≡ some (record { m_sub_process = processes cs; m_idx = none; closed = child_ends cs })
unfolding spawn_from
spawn-parent calls i [] a = refl
spawn-parent calls i (c ∷ cs) (pipe, pid, nonzero, a) =
    let parent_here : (c.0 == 0) ≡ false = ground arith in
    rw (pipe, pid, parent_here, spawn-parent calls (suc i) cs a) refl

spawn-child :
    (calls : Calls) (i k : ℕ) (cs : List (ℕ × (ℕ × ℕ))) (pipe : ℕ × ℕ)
    → AsParent calls i cs
    → (calls (i + length cs)).0 ≡ some pipe
    → (calls (i + length cs)).1 ≡ some 0
    → spawn_from (length cs + suc k) i calls
      ≡ some (record {
        m_sub_process =
            processes cs ++ record { m_pid = some 0; m_pipefd = pipe } ∷ replicate k no_process;
        m_idx = some (i + length cs);
        closed = child_ends cs ++ pipe.0 ∷ [];
      })
unfolding spawn_from
spawn-child calls i k [] pipe a p f =
    let here : i + 0 ≡ i = omega arith in
    let one_more : 0 + suc k ≡ suc k = omega arith in
    let p' : (calls i).0 ≡ some pipe = ap (λ j. (calls j).0) (omega arith) ∙ p in
    let f' : (calls i).1 ≡ some 0 = ap (λ j. (calls j).1) (omega arith) ∙ f in
    rw (one_more, here, p', f') refl
spawn-child calls i k (c ∷ cs) pipe (at, pid, nonzero, a) p f =
    let parent_here : (c.0 == 0) ≡ false = ground arith in
    let one_more : length (c ∷ cs) + suc k ≡ suc (length cs + suc k) = omega arith in
    let shift : i + suc (length cs) ≡ suc i + length cs = omega arith in
    let p' : (calls (suc i + length cs)).0 ≡ some pipe = ap (λ j. (calls j).0) (omega arith) ∙ p in
    let f' : (calls (suc i + length cs)).1 ≡ some 0 = ap (λ j. (calls j).1) (omega arith) ∙ f in
    rw (one_more, at, pid, parent_here, spawn-child calls (suc i) k cs pipe a p' f', shift) refl

-- The constructor for at most 16 processes, where no call fails and every `fork` gives a process, which
-- is so in the parent: all processes are recorded with their pipes, the ends of the pipes that are the
-- children's are closed, and `m_idx` is -1.
pub constructor_in_parent :
    (calls : Calls) (cs : List (ℕ × (ℕ × ℕ)))
    → AsParent calls 0 cs
    → 0 < length cs
    → length cs ≤ max_process_number
    → processpool (length cs) calls
      ≡ some (record { m_sub_process = processes cs; m_idx = none; closed = child_ends cs })
unfolding processpool
constructor_in_parent calls cs a some_process few =
    let not_none : (length cs == 0) ≡ false = ground arith in
    let fits : ltb max_process_number (length cs) ≡ false = ground arith in
    rw (not_none, fits) (spawn-parent calls 0 cs a)

-- The constructor for at most 16 processes, where no call fails and the `fork` after some others gives
-- 0, which is so in a child: `m_idx` is the number of the others, its own process and the earlier ones
-- are recorded, and what is closed is the parent's end of its own pipe and, of the earlier pipes, the
-- ends that are the earlier children's.
pub constructor_in_child :
    (calls : Calls) (cs : List (ℕ × (ℕ × ℕ))) (k : ℕ) (pipe : ℕ × ℕ)
    → AsParent calls 0 cs
    → length cs + suc k ≤ max_process_number
    → (calls (length cs)).0 ≡ some pipe
    → (calls (length cs)).1 ≡ some 0
    → processpool (length cs + suc k) calls
      ≡ some (record {
        m_sub_process =
            processes cs ++ record { m_pid = some 0; m_pipefd = pipe } ∷ replicate k no_process;
        m_idx = some (length cs);
        closed = child_ends cs ++ pipe.0 ∷ [];
      })
unfolding processpool
constructor_in_child calls cs k pipe a few p f =
    let not_none : (length cs + suc k == 0) ≡ false = ground arith in
    let fits : ltb max_process_number (length cs + suc k) ≡ false = ground arith in
    let from_zero : 0 + length cs ≡ length cs = omega arith in
    rw (not_none, fits)
      (spawn-child calls 0 k cs pipe a (ap (λ j. (calls j).0) from_zero ∙ p)
          (ap (λ j. (calls j).1) from_zero ∙ f)
        ∙ rw from_zero refl)
