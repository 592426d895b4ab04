-- ===== src/ConnServer/Accept.antt =====
-- `process_accept` and the invariant.
use c_model.Common.{
  ℕ, suc, ◌<◌, ◌≡◌, ◌≢◌, refl, ap, sym, subst, ◌∙◌, List, [], ◌∷◌, Option, none, some, arith, Bool,
  true, false, ◌==◌, if◌then◌else◌, Bool-cases, inl, inr,
}
use c_model.Array.{count, get_elem?-get_or}
use c_model.Run.{Returns, returns, Returns-bind, Returns-map, Returns-if}
use c_model.ContextPool.{accepting, ConnContext, ContextPool, reset}
use c_model.ContextPool.FreeList.{no_context, context_at, set_here, set_other}
use c_model.ContextPool.Alloc.{Allocated, alloc_context_takes_first}
use c_model.ConnServer.{
  Interest, for_read, Worker, Outcomes, at_fd, opened, watched, with_kernel, with_pool, put,
  count_in, free_back, client_of, admit, process_accept,
}
use c_model.ConnServer.Held.{Setup, used-inside, put-eq_some, Counted, counted_up, count_in-Counted}
use c_model.ConnServer.Admit.{admit-Held}
use c_model.ConnServer.Fits.{Fits, FitsAs, Sound, Midway, Handled, Possible, at_fd-here}
use c_model.ConnServer.Steps.{
  after_put, opened-Fits, Sound-Midway, mine_here, Midway-put, Midway-watched, Midway-Counted,
  Midway-Handled, freed-Handled, own_front,
}

client_of-Fits :
    (S : Setup) (j : ℕ) (f : ℕ → Option (Interest × ℕ)) (l c : ConnContext) (fd : ℕ)
    → l.enable_proxy ≡ S.proxy
    → (S.proxy ≡ true → l.pa ≡ S.targets)
    → c.end_fd ≡ 0
    → f fd ≡ some (for_read, j)
    → Fits S j f (record (client_of l c fd) { fd_added = true })
client_of-Fits S j f l c fd same t no_end waits = elim (Bool-cases l.enable_proxy) [
  | inl e ↦ rw e (waits, no_end, sym same ∙ e, t (sym same ∙ e))
  | inr e ↦ rw e (waits, no_end)
]

-- Counting does not end a connection.
kept-Handled :
    (S : Setup) (w : Worker) (i : ℕ) (free used : List ℕ) (v : Worker)
    → Midway S w i free used w
    → Fits S i w.kernel.interest (context_at w.pool.arr i)
    → Counted w v
    → Handled S w i used v
kept-Handled S w i free used v m f (counted_up all e) =
    Midway-Handled S w i free used _ (Midway-Counted S w i free used w _ m (counted_up all e)) f

-- The new connection's context, with the descriptor of `accept`.
module _ (S : Setup) (w : Worker) (i j : ℕ) (left used : List ℕ) (s : Sound S w (j ∷ left) used)
    (m : 0 < count i used) (p : ContextPool) (a : Allocated w.pool j left used (j, p)) (fd : ℕ)
    (fresh : w.kernel.is_open fd ≡ false) where
  abbrev client : ConnContext
  client = client_of (context_at p.arr i) (context_at p.arr j) fd

  abbrev admitted : Worker
  admitted = after_put (with_pool (with_kernel w (opened w.kernel fd)) p) j client

  unused : count j used ≡ 0
  unused = let v = s.held.valid in ground (arith, v.once j)

  client_reset : (client.pool ≡ true) × (client.end_fd ≡ 0)
  unfolding reset
  client_reset = (ap (λ c. c.pool) a.fresh, ap (λ c. c.end_fd) a.fresh)

  admitted-Midway : Midway S w j left (j ∷ used) admitted
  admitted-Midway =
      let k : 0 < count j (j ∷ used) = ground arith in
      let lt = used-inside p left (j ∷ used) j a.valid k in
      let same : (q : ℕ) → j ≢ q → context_at admitted.pool.arr q ≡ context_at w.pool.arr q =
        λ q n. set_other p.arr j q client lt n ∙ a.others q n in
      record {
        held =
            admit-Held S w.pool w.kernel.is_open (j ∷ left) used s.held fd fresh p j left client
              a.valid a.others unused client_reset.0 refl client_reset.1;
        ranged = record { counted = s.ranged.counted; turn = s.ranged.turn };
        in_use = k;
        others = λ q n l.
            let was : 0 < count q used = ground arith in
            subst (Fits S q (at_fd w.kernel.interest fd none)) (sym (same q n))
              (opened-Fits S w (j ∷ left) used fd q s.held fresh was (s.fit q was));
        same = same;
      }

  -- For the listening connection the new one is another.
  admitted-Handled : (u : Worker) → Handled S w j (j ∷ used) u → Handled S w i used u
  admitted-Handled u h = record {
    free' = h.free';
    used' = h.used';
    sound = h.sound;
    still = λ q n k.
        let other : j ≢ q = λ e. absurd (omega (arith, unused, ap (λ x. count x used) e)) in
        let miss : (j == q) ≡ false = ground arith in h.still q other (rw miss (omega arith));
  }

  added-Handled :
      (ok : Bool)
      → FitsAs S i w.kernel.interest (context_at w.pool.arr i) accepting
      → Returns (Handled S w j (j ∷ used)) (
          if ok
          then put
              (with_kernel admitted (watched admitted.kernel fd (some (for_read, j))))
              j
              (record client { fd_added = true })
          else free_back admitted j)
  added-Handled ok (waits, no_end, same, t) =
      let lt = used-inside p left (j ∷ used) j a.valid (ground arith) in
      let here : context_at admitted.pool.arr j ≡ client = set_here p.arr j client lt in
      let two : ConnContext = record client { fd_added = true } in
      let waiting = with_kernel admitted (watched admitted.kernel fd (some (for_read, j))) in
      let m' = admitted-Midway in
      let watching =
        Midway-watched S w j left (j ∷ used) admitted fd (some (for_read, j)) m'
          (own_front S w j left (j ∷ used) admitted fd m' (ap (λ c. c.fd) here)) in
      let inside = used-inside admitted.pool left (j ∷ used) j m'.held.valid m'.in_use in
      let apart : j ≢ i = λ e. absurd (omega (arith, unused, ap (λ x. count x used) e)) in
      let listens = a.others i apart in
      Returns-if ok
        (λ e. rw (put-eq_some waiting j two inside) (
          returns (
            Midway-Handled S w j left (j ∷ used) (after_put waiting j two)
              (Midway-put S w j left (j ∷ used) waiting two watching client_reset.0
                (ap (λ c. c.fd) (sym here)) (ap (λ c. c.end_fd) (sym here)))
              (subst (Fits S j waiting.kernel.interest)
                (sym (mine_here S w j left (j ∷ used) waiting two watching))
                (client_of-Fits S j waiting.kernel.interest (context_at p.arr i)
                  (context_at p.arr j) fd (ap (λ c. c.enable_proxy) listens ∙ same)
                  (λ x. ap (λ c. c.pa) listens ∙ t x) client_reset.1
                  (at_fd-here (at_fd w.kernel.interest fd none) fd (some (for_read, j))))))))
        (λ e. freed-Handled S w j left (j ∷ used) admitted m')

admit-Handled :
    (S : Setup) (w : Worker) (i : ℕ) (free used : List ℕ) (fd : ℕ) (ok : Bool)
    → Sound S w free used
    → 0 < count i used
    → FitsAs S i w.kernel.interest (context_at w.pool.arr i) accepting
    → w.kernel.is_open fd ≡ false
    → w.pool.allocated < w.pool.total
    → Returns (Handled S w i used) (admit (with_kernel w (opened w.kernel fd)) i fd ok)
unfolding admit
admit-Handled S w i [] used fd ok s m f fresh room =
    let v = s.held.valid in absurd (omega (arith, v.unallocated))
admit-Handled S w i (j ∷ left) used fd ok s m f fresh room =
    Returns-bind (alloc_context_takes_first w.pool j left used s.held.valid) λ (r, p) a.
      let a' : Allocated w.pool j left used (j, p) =
        subst (λ x. Allocated w.pool j left used (x, p)) a.index a in
      let v = a'.valid in
      let inside = used-inside p left (j ∷ used) j v (ground arith) in
      let listening = used-inside p left (j ∷ used) i v (ground arith) in
      rw
        (
          a.index,
          get_elem?-get_or p.arr i no_context listening,
          get_elem?-get_or p.arr j no_context inside,
          put-eq_some (with_pool (with_kernel w (opened w.kernel fd)) p) j
              (client_of (context_at p.arr i) (context_at p.arr j) fd) inside,
        )
        (Returns-map (added-Handled S w i j left used s m p a' fd fresh ok f)
          λ u h. admitted-Handled S w i j left used s m p a' fd fresh u h)

-- `process_accept` keeps the invariant of the worker, and no other connection is touched.
pub process_accept-Handled :
    (S : Setup) (w : Worker) (i : ℕ) (free used : List ℕ) (err : Bool) (o : Outcomes)
    → Sound S w free used
    → 0 < count i used
    → FitsAs S i w.kernel.interest (context_at w.pool.arr i) accepting
    → Fits S i w.kernel.interest (context_at w.pool.arr i)
    → Possible w o
    → Returns (Handled S w i used) (process_accept w i err o)
unfolding process_accept
process_accept-Handled S w i free used err o s m f f' possible =
    let m' = Sound-Midway S w i free used s m in
    Returns-if err (λ e. returns (Midway-Handled S w i free used w m' f'))
      (λ e. accept_cases o.accepted refl)
  where
    accept_cases :
        (acc : Option ℕ)
        → o.accepted ≡ acc
        → Returns (Handled S w i used) (elim acc [
          | none ↦ count_in w (λ d. record d { accept_cnt = suc d.accept_cnt })
          | some fd ↦ admit (with_kernel w (opened w.kernel fd)) i fd o.ctl
        ])
    accept_cases none e =
        Returns-map (count_in-Counted w _ s.ranged.counted)
          λ v c. kept-Handled S w i free used v (Sound-Midway S w i free used s m) f' c
    accept_cases (some fd) e =
        admit-Handled S w i free used fd o.ctl s m f (possible.accepted_new fd e)
          (possible.room fd e)
