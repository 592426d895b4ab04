-- ===== src/TimeHeap/Del.antt =====
-- `del_timer`: a timer loses its callback and stays in the heap.
use c_model.Common.{
  ℕ, ◌≡◌, ◌≢◌, refl, none, some, false, arith, ◌==◌, if◌then◌else◌, Bool-cases, inl, inr,
}
use c_model.Array.{get_or}
use c_model.Run.{Returns, returns}
use c_model.TimeHeap.{HeapTimer, Store, World, null, write, parent, del_timer}
use c_model.TimeHeap.Sift.{expire_of}
use c_model.TimeHeap.Valid.{IsValid, live-ne-null}

-- What `del_timer` leads to: the heap is as it was, and only the callback of the timer is gone.
pub record Disarmed (w : World) (timer : ℕ) (t : HeapTimer) (w' : World) : Type 0 where
  pub valid : IsValid w'
  pub same_heap : w'.heap ≡ w.heap
  pub disarmed : w'.timers timer ≡ some (record t { cb_func = none })
  pub others : (q : ℕ) → q ≢ timer → w'.timers q ≡ w.timers q
  pub same_calls : w'.calls ≡ w.calls

-- `del_timer` of an allocated timer does not fault and keeps the heap valid, with the timer in its place
-- and without its callback; no other timer changes.
pub del_timer_disarms :
    (w : World) (timer : ℕ) (t : HeapTimer)
    → IsValid w
    → w.timers timer ≡ some t
    → Returns (Disarmed w timer t) (del_timer w timer)
unfolding del_timer
del_timer_disarms w timer t v found =
    let real : (timer == null) ≡ false =
      ground (arith, live-ne-null w.timers timer v.no_null (t, found)) in
    let s = write w.timers timer (record t { cb_func = none }) in
    rw (real, found) (returns (disarmed_lem s (λ q. ground arith)))
  where
    disarmed_lem :
        (s : Store)
        → ((q : ℕ) → s q ≡ (if timer == q then some (record t { cb_func = none }) else w.timers q))
        → Disarmed w timer t (record w { timers = s })
    disarmed_lem s at =
        let same : (q : ℕ) → expire_of s q ≡ expire_of w.timers q = λ q. ground (arith, at q) in
        record {
          valid = record {
            sized = v.sized;
            live = λ p h. elim (Bool-cases (timer == p)) [
              | inl e ↦ (record t { cb_func = none }, ground (arith, at p))
              | inr e ↦ let (u, here) = v.live p h in (u, ground (arith, at p))
            ];
            once = v.once;
            ordered = λ c p q r.
                rw (same (get_or w.heap.array (parent c) 0), same (get_or w.heap.array c 0))
                  (v.ordered c p q r);
            no_null =
                ground
                  (arith, at null, v.no_null, live-ne-null w.timers timer v.no_null (t, found));
          };
          same_heap = refl;
          disarmed = ground (arith, at timer);
          others = λ q ne. ground (arith, at q);
          same_calls = refl;
        }
