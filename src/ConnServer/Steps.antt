-- ===== src/ConnServer/Steps.antt =====
-- The parts that the handlers are made of, for a connection that is being served.
use c_model.Common.{
  ℕ, ◌<◌, ◌≡◌, ◌≢◌, refl, ap, sym, subst, ◌∙◌, List, ◌∷◌, Option, none, some, arith, Bool, true,
  false, ◌==◌, ==-eq, Bool-cases, inl, inr, ◌⊎◌,
}
use c_model.Array.{length, count, set}
use c_model.Run.{◌>>=◌, Returns, returns, Returns-bind, Returns-map}
use c_model.ContextPool.{ConnContext}
use c_model.ContextPool.FreeList.{context_at, set_here, set_other}
use c_model.ConnServer.{
  Interest, Worker, WorkerData, at_fd, opened, watched, with_kernel, with_pool, put, count_in,
  free_back, ctl_or_free,
}
use c_model.ConnServer.Held.{
  Setup, Held, used-inside, put-eq_some, put-Held, Counted, counted_up, count_in-Counted,
}
use c_model.ConnServer.Release.{Released, free_back-Released, other_safe}
use c_model.ConnServer.Admit.{attach-Held}
use c_model.ConnServer.Fits.{Fits, Fits-same, Sound, Midway, Handled, at_fd-other}

-- The worker after `put`.
abbrev pub after_put : Worker → ℕ → ConnContext → Worker
after_put u i c = with_pool u (record u.pool { arr = set u.pool.arr i c })

-- A descriptor that was not open is none of a connection's own.
pub opened-Fits :
    (S : Setup) (w : Worker) (free used : List ℕ) (d q : ℕ)
    → Held S w.pool w.kernel.is_open free used
    → w.kernel.is_open d ≡ false
    → 0 < count q used
    → Fits S q w.kernel.interest (context_at w.pool.arr q)
    → Fits S q (at_fd w.kernel.interest d none) (context_at w.pool.arr q)
opened-Fits S w free used d q h fresh k f =
    let apart : (x : ℕ) → w.kernel.is_open x ≡ true → d ≢ x =
      λ x o y. let same = subst (λ z. w.kernel.is_open z ≡ false) y fresh in absurd cc in
    let (o, mine, b) = h.front q k in
    Fits-same S q w.kernel.interest (at_fd w.kernel.interest d none) (context_at w.pool.arr q)
      (at_fd-other w.kernel.interest d _ none (apart _ o))
      (λ z. elim (h.back q k) [
        | inl y ↦ absurd (z y)
        | inr (o', mine', b', a) ↦ at_fd-other w.kernel.interest d _ none (apart _ o')
      ])
      f

module _ (S : Setup) (w : Worker) (i : ℕ) (free used : List ℕ) where
  pub Sound-Midway : Sound S w free used → 0 < count i used → Midway S w i free used w
  Sound-Midway s m = record {
    held = s.held;
    ranged = s.ranged;
    in_use = m;
    others = λ q n k. s.fit q k;
    same = λ q n. refl;
  }

  -- The connection's context.
  pub mine_here :
      (u : Worker) (c : ConnContext)
      → Midway S w i free used u
      → context_at (after_put u i c).pool.arr i ≡ c
  mine_here u c m = set_here u.pool.arr i c (used-inside u.pool free used i m.held.valid m.in_use)

  pub Midway-put :
      (u : Worker) (c : ConnContext)
      → Midway S w i free used u
      → c.pool ≡ true
      → c.fd ≡ (context_at u.pool.arr i).fd
      → c.end_fd ≡ (context_at u.pool.arr i).end_fd
      → Midway S w i free used (after_put u i c)
  Midway-put u c m owned e e' =
      let lt = used-inside u.pool free used i m.held.valid m.in_use in
      record {
        held = put-Held S u.pool u.kernel.is_open free used i c m.held m.in_use owned e e';
        ranged = record { counted = m.ranged.counted; turn = m.ranged.turn };
        in_use = m.in_use;
        others = λ q n k.
            subst (Fits S q u.kernel.interest) (sym (set_other u.pool.arr i q c lt n))
              (m.others q n k);
        same = λ q n. set_other u.pool.arr i q c lt n ∙ m.same q n;
      }

  -- The kernel waits for other events of a descriptor of this connection.
  pub Midway-watched :
      (u : Worker) (d : ℕ) (e : Option (Interest × ℕ))
      → (m : Midway S w i free used u) → m.held.owner d ≡ i
      → Midway S w i free used (with_kernel u (watched u.kernel d e))
  Midway-watched u d e m own = record {
    held = m.held;
    ranged = record { counted = m.ranged.counted; turn = m.ranged.turn };
    in_use = m.in_use;
    others = λ q n k.
        let (o, mine, b) = m.held.front q k in
        Fits-same S q u.kernel.interest (at_fd u.kernel.interest d e) (context_at u.pool.arr q)
          (at_fd-other u.kernel.interest d _ e (λ x. n (sym own ∙ ap m.held.owner x ∙ mine)))
          (λ z. elim (m.held.back q k) [
            | inl y ↦ absurd (z y)
            | inr (o', mine', b', a) ↦
                at_fd-other u.kernel.interest d _ e (λ x. n (sym own ∙ ap m.held.owner x ∙ mine'))
          ])
          (m.others q n k);
    same = m.same;
  }

  -- `socket` gives a descriptor that the connection gets.
  pub Midway-opened :
      (u : Worker) (d : ℕ) (c : ConnContext)
      → Midway S w i free used u
      → u.kernel.is_open d ≡ false
      → (context_at u.pool.arr i).end_fd ≡ 0
      → c.pool ≡ true
      → c.fd ≡ (context_at u.pool.arr i).fd
      → c.end_fd ≡ d
      → Midway S w i free used (after_put (with_kernel u (opened u.kernel d)) i c)
  Midway-opened u d c m fresh none_yet owned e e' =
      let lt = used-inside u.pool free used i m.held.valid m.in_use in
      record {
        held =
            attach-Held S u.pool u.kernel.is_open free used m.held d fresh i c m.in_use none_yet
              owned e e';
        ranged = record { counted = m.ranged.counted; turn = m.ranged.turn };
        in_use = m.in_use;
        others = λ q n k.
            subst (Fits S q (at_fd u.kernel.interest d none))
              (sym (set_other u.pool.arr i q c lt n))
              (opened-Fits S u free used d q m.held fresh k (m.others q n k));
        same = λ q n. set_other u.pool.arr i q c lt n ∙ m.same q n;
      }

  -- What was written and asked for does not matter, nor whose turn it is.
  pub Midway-log :
      (u : Worker) (s : List (ℕ × List ℕ)) (k : List (ℕ × ℕ)) (n : ℕ)
      → Midway S w i free used u
      → (S.proxy ≡ true → n < length S.targets)
      → Midway S w i free used (record u { sent = s; connects = k; last = n })
  Midway-log u s k n m t = record {
    held = m.held;
    ranged = record { counted = m.ranged.counted; turn = t };
    in_use = m.in_use;
    others = m.others;
    same = m.same;
  }

  pub Midway-Counted :
      (u v : Worker) → Midway S w i free used u → Counted u v → Midway S w i free used v
  Midway-Counted u v m (counted_up all e) = record {
    held = m.held;
    ranged = record {
      counted = subst (λ n. u.cpu_id < n) (sym e) m.ranged.counted;
      turn = m.ranged.turn;
    };
    in_use = m.in_use;
    others = m.others;
    same = m.same;
  }

  -- The handler ends with the connection kept.
  pub Midway-Handled :
      (u : Worker)
      → Midway S w i free used u
      → Fits S i u.kernel.interest (context_at u.pool.arr i)
      → Handled S w i used u
  Midway-Handled u m f = record {
    free' = free;
    used' = used;
    sound = record {
      held = m.held;
      ranged = m.ranged;
      fit = λ q k. elim (Bool-cases (i == q)) [
        | inl y ↦ subst (λ x. Fits S x u.kernel.interest (context_at u.pool.arr x)) (==-eq i q y) f
        | inr n ↦ m.others q (ground arith) k
      ];
    };
    still = λ q n k. (k, m.same q n);
  }

  Released-Handled :
      (u v : Worker) → Midway S w i free used u → Released S u i free used v → Handled S w i used v
  Released-Handled u v m r = record {
    free' = i ∷ free;
    used' = r.left;
    sound = record {
      held = r.held;
      ranged = record {
        counted =
            subst (λ n. n < length v.wdata) (sym r.rest.1)
              (subst (λ a. u.cpu_id < length a) (sym r.rest.0) m.ranged.counted);
        turn = λ p. subst (λ n. n < length S.targets) (sym r.rest.2) (m.ranged.turn p);
      };
      fit = λ q k.
          let other : i ≢ q = λ e. absurd (omega (arith, r.gone, ap (λ x. count x r.left) e)) in
          let was : 0 < count q used = omega (arith, r.still_used q other) in
          let (o, mine, b) = m.held.front q was in
          let ends = other_safe S u i free used m.held m.in_use q other in
          subst (Fits S q v.kernel.interest) (sym (r.others q other)) (
            Fits-same S q u.kernel.interest v.kernel.interest (context_at u.pool.arr q)
              (r.interest _ (ends _ mine) (λ z.
                let at_zero = subst (λ x. S.base x ≡ false) z b in
                let std = m.held.stdin in absurd cc))
              (λ z. elim (m.held.back q was) [
                | inl y ↦ absurd (z y)
                | inr (o', mine', b', a) ↦ r.interest _ (ends _ mine') z
              ])
              (m.others q other was));
    };
    still = λ q n k. (omega (arith, r.still_used q n), r.others q n ∙ m.same q n);
  }

  -- The handler ends at `free_back`.
  pub freed-Handled :
      (u : Worker) → Midway S w i free used u → Returns (Handled S w i used) (free_back u i)
  freed-Handled u m =
      Returns-map (free_back-Released S u i free used m.held m.in_use)
        λ v r. Released-Handled u v m r

  pub counted-Handled :
      (u : Worker) (f : WorkerData → WorkerData)
      → Midway S w i free used u
      → Returns (Handled S w i used) (count_in u f >>= λ v. free_back v i)
  counted-Handled u f m =
      Returns-bind (count_in-Counted u f m.ranged.counted)
        λ v c. freed-Handled v (Midway-Counted u v m c)

  pub ctl-Handled :
      (u : Worker) (ok : Bool) (d : ℕ) (e : Interest)
      → (m : Midway S w i free used u) → m.held.owner d ≡ i
      → Fits S i (at_fd u.kernel.interest d (some (e, i))) (context_at u.pool.arr i)
      → Returns (Handled S w i used) (ctl_or_free u i ok d e)
  ctl-Handled u true d e m own f =
      returns (Midway-Handled _ (Midway-watched u d (some (e, i)) m own) f)
  ctl-Handled u false d e m own f = freed-Handled u m

  -- The connection's own descriptors.
  pub own_front :
      (u : Worker) (d : ℕ)
      → (m : Midway S w i free used u) → (context_at u.pool.arr i).fd ≡ d
      → m.held.owner d ≡ i
  own_front u d m e = subst (λ x. m.held.owner x ≡ i) e (m.held.front i m.in_use).1

  pub own_back :
      (u : Worker) (d : ℕ)
      → (m : Midway S w i free used u) → (context_at u.pool.arr i).end_fd ≡ d
      → d ≢ 0
      → (m.held.owner d ≡ i) × ((context_at u.pool.arr i).fd ≢ d)
  own_back u d m e n = elim (m.held.back i m.in_use) [
    | inl z ↦ absurd (n (sym e ∙ z))
    | inr (o, mine, b, a) ↦ (subst (λ x. m.held.owner x ≡ i) e mine, λ x. a (x ∙ sym e))
  ]

  -- The context is written and the kernel told what to wait for next.
  pub put_ctl-Handled :
      (u : Worker) (c : ConnContext) (ok : Bool) (d : ℕ) (e : Interest)
      → Midway S w i free used u
      → c.pool ≡ true
      → c.fd ≡ (context_at u.pool.arr i).fd
      → c.end_fd ≡ (context_at u.pool.arr i).end_fd
      → (c.fd ≡ d) ⊎ ((c.end_fd ≡ d) × (d ≢ 0))
      → Fits S i (at_fd u.kernel.interest d (some (e, i))) c
      → Returns (Handled S w i used) (put u i c >>= λ v. ctl_or_free v i ok d e)
  put_ctl-Handled u c ok d e m owned a b own f =
      let lt = used-inside u.pool free used i m.held.valid m.in_use in
      let m' = Midway-put u c m owned a b in
      let here = mine_here u c m in
      rw (put-eq_some u i c lt) (
        ctl-Handled (after_put u i c) ok d e m'
          (elim own [
            | inl x ↦ own_front (after_put u i c) d m' (ap (λ y. y.fd) here ∙ x)
            | inr (x, n) ↦ (own_back (after_put u i c) d m' (ap (λ y. y.end_fd) here ∙ x) n).0
          ])
          (subst (Fits S i (at_fd u.kernel.interest d (some (e, i)))) (sym here) f))
