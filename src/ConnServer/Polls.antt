-- ===== src/ConnServer/Polls.antt =====
-- The counters of a worker: the statistics of its calls of `epoll_wait`, and the transactions that
-- `do_stats` prints.
use c_model.Common.{
  ℕ, suc, ◌+◌, ◌/◌, ◌%◌, ◌^◌, ◌≤◌, ◌<◌, ◌≡◌, ◌≢◌, refl, sym, subst, List, [], ◌∷◌, arith, ltb,
  Option, some, false, if◌then◌else◌, ◌==◌, Bool-cases, inl, inr, ◌⊎◌,
}
use c_model.Array.{length, count}
use c_model.ConnServer.{WorkerData}
use c_model.ConnServer.Loop.{
  note_polls, Polled, interrupted, failed, batch, minus_one, cleared, report,
}
use c_model.Run.{◌>>=◌, Returns, returns, Returns-bind}

abbrev pub total : List ℕ → ℕ
total [] = 0
total (n ∷ ns) = n + total ns

-- The counters after the calls of `epoll_wait` that gave `ps`, newest first, from those at the start of
-- the loop.
unfoldable pub observed : List Polled → WorkerData → Option WorkerData
unfolding note_polls
observed [] d = some (record d { polls_min = 64 })
observed (interrupted ∷ ps) d = observed ps d
observed (failed ∷ ps) d = observed ps d >>= note_polls minus_one
observed (batch events ∷ ps) d = observed ps d >>= note_polls (length events)

-- The numbers that are noted: -1, as an `uint64_t`, for a call that failed.
abbrev pub numbers : List Polled → List ℕ
numbers [] = []
numbers (interrupted ∷ ps) = numbers ps
numbers (failed ∷ ps) = minus_one ∷ numbers ps
numbers (batch events ∷ ps) = length events ∷ numbers ps

-- The counters are the statistics of `ns`.
pub record Statistics (ns : List ℕ) (d : WorkerData) : Type 0 where
  pub cnt : d.polls_cnt ≡ length ns
  pub sum : d.polls_sum ≡ total ns % 2 ^ 64
  pub avg : 0 < length ns → d.polls_avg ≡ (total ns % 2 ^ 64) / length ns
  pub mpt : d.polls_mpt ≡ count 0 ns
  pub max_above : (n : ℕ) → 0 < count n ns → n ≤ d.polls_max
  pub max_met : (d.polls_max ≡ 0) ⊎ (0 < count d.polls_max ns)
  pub min_below : (n : ℕ) → 0 < count n ns → n ≢ 0 → d.polls_min ≤ n
  pub min_met : (d.polls_min ≡ 64) ⊎ ((d.polls_min ≢ 0) × (0 < count d.polls_min ns))

count-length : (x : ℕ) (ns : List ℕ) → count x ns ≤ length ns
count-length x [] = omega arith
count-length x (n ∷ ns) = ground (arith, count-length x ns)

-- The counters that `note_polls` leaves.
abbrev noted : ℕ → WorkerData → WorkerData
noted n d = record d {
  polls_mpt = if n == 0 then suc d.polls_mpt % 2 ^ 64 else d.polls_mpt;
  polls_min = if n == 0 then d.polls_min else if ltb n d.polls_min then n else d.polls_min;
  polls_max = if ltb d.polls_max n then n else d.polls_max;
  polls_sum = (d.polls_sum + n) % 2 ^ 64;
  polls_cnt = suc d.polls_cnt % 2 ^ 64;
  polls_avg = ((d.polls_sum + n) % 2 ^ 64) / (suc d.polls_cnt % 2 ^ 64);
  polls_lst = n;
}

noted-Statistics :
    (n : ℕ) (ns : List ℕ) (d : WorkerData)
    → Statistics ns d
    → suc (length ns) < 2 ^ 64
    → Statistics (n ∷ ns) (noted n d)
noted-Statistics n ns d s h =
    let old : (noted n d).polls_min ≡ d.polls_min
        → ((noted n d).polls_min ≡ 64)
          ⊎ (((noted n d).polls_min ≢ 0) × (0 < count (noted n d).polls_min (n ∷ ns))) =
      λ same.
        subst (λ x. (x ≡ 64) ⊎ ((x ≢ 0) × (0 < count x (n ∷ ns)))) (sym same)
          (elim s.min_met [ inl e ↦ inl e | inr (z, e) ↦ inr (z, omega arith) ]) in
    let sums : (d.polls_sum + n) % 2 ^ 64 ≡ (n + total ns) % 2 ^ 64 = omega (arith, s.sum) in
    let counts : suc d.polls_cnt % 2 ^ 64 ≡ suc (length ns) = omega (arith, s.cnt) in
    let no_call : suc d.polls_mpt % 2 ^ 64 ≡ suc d.polls_mpt =
      omega (arith, s.mpt, count-length 0 ns) in
    record {
      cnt = counts;
      sum = sums;
      avg = λ k. rw (sums, counts) refl;
      mpt = ground (arith, s.mpt, no_call);
      max_above = λ m k. ground (arith, s.max_above m);
      max_met = elim (Bool-cases (ltb d.polls_max n)) [
        | inl y ↦ rw y (inr (ground arith))
        | inr z ↦
            let same : (noted n d).polls_max ≡ d.polls_max = rw z refl in
            subst (λ x. (x ≡ 0) ⊎ (0 < count x (n ∷ ns))) (sym same)
              (elim s.max_met [ inl e ↦ inl e | inr e ↦ inr (omega arith) ])
      ];
      min_below = λ m k z. ground (arith, s.min_below m);
      min_met = elim (Bool-cases (n == 0)) [
        | inl y ↦ (let same : (noted n d).polls_min ≡ d.polls_min = rw y refl in old same)
        | inr y ↦ elim (Bool-cases (ltb n d.polls_min)) [
          | inl l ↦ rw (y, l) (inr (ground arith, ground arith))
          | inr l ↦ (let same : (noted n d).polls_min ≡ d.polls_min = rw (y, l) refl in old same)
        ]
      ];
    }

note_polls-Statistics :
    (n : ℕ) (ns : List ℕ) (d : WorkerData)
    → Statistics ns d
    → suc (length ns) < 2 ^ 64
    → Returns (Statistics (n ∷ ns)) (note_polls n d)
unfolding note_polls
note_polls-Statistics n ns d s h =
    let counts : suc d.polls_cnt % 2 ^ 64 ≡ suc (length ns) = omega (arith, s.cnt) in
    let nonzero : (suc d.polls_cnt % 2 ^ 64 == 0) ≡ false = ground arith in
    let stats = noted-Statistics n ns d s h in rw nonzero (returns stats)

-- After calls of `epoll_wait`, less than 2^64 not counting those that a signal interrupted, no division
-- by zero has come up, and a worker's counters are the number of these calls, the sum modulo 2^64 of the
-- numbers of events that they gave, that sum divided by the number of calls, the largest and the smallest
-- of the numbers, where calls without an event are counted apart and not as the smallest. A call that
-- failed counts as one that gave 2^64 - 1 events. The largest starts at 0 and the smallest at 64.
pub note_polls_counts_all :
    (ps : List Polled) (cpu_id : ℕ)
    → length (numbers ps) < 2 ^ 64
    → Returns (Statistics (numbers ps)) (observed ps (cleared cpu_id))
unfolding observed
note_polls_counts_all [] cpu_id h = returns (record {
  cnt = refl;
  sum = refl;
  avg = λ k. absurd (omega arith);
  mpt = refl;
  max_above = λ n k. absurd (omega arith);
  max_met = inl refl;
  min_below = λ n k z. absurd (omega arith);
  min_met = inl refl;
})
note_polls_counts_all (interrupted ∷ ps) cpu_id h = note_polls_counts_all ps cpu_id h
note_polls_counts_all (failed ∷ ps) cpu_id h =
    Returns-bind (note_polls_counts_all ps cpu_id (omega arith))
      λ d s. note_polls-Statistics minus_one (numbers ps) d s h
note_polls_counts_all (batch events ∷ ps) cpu_id h =
    Returns-bind (note_polls_counts_all ps cpu_id (omega arith))
      λ d s. note_polls-Statistics (length events) (numbers ps) d s h

-- The workers do `ks` transactions, each one its number. The counters wrap around.
unfoldable pub worked : List ℕ → List WorkerData → List WorkerData
worked [] all = all
worked (k ∷ ks) [] = []
worked (k ∷ ks) (d ∷ all) = record d { trancnt = (d.trancnt + k) % 2 ^ 64 } ∷ worked ks all

abbrev pub AllWords : List WorkerData → Type 0
AllWords [] = Unit {0}
AllWords (d ∷ all) = (d.trancnt < 2 ^ 64) × AllWords all

-- Let the workers do some transactions each after a report, less than 2^64 together. The next report is
-- their sum, also when counters, of 64 bits, wrap around in between.
pub report_since_last :
    (all : List WorkerData) (ks : List ℕ)
    → AllWords all
    → length ks ≡ length all
    → total ks < 2 ^ 64
    → (report (worked ks (report all).1)).0 ≡ total ks
unfolding report worked
report_since_last [] [] w e h = refl
report_since_last [] (k ∷ ks) w e h = absurd (omega arith)
report_since_last (d ∷ all) [] w e h = absurd (omega arith)
report_since_last (d ∷ all) (k ∷ ks) (w, ws) e h =
    let rest = report_since_last all ks ws (omega arith) (omega arith) in omega (arith, rest)
