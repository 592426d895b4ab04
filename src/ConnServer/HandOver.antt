-- ===== src/ConnServer/HandOver.antt =====
-- A listening socket gets a context.
use c_model.Common.{
  ℕ, ◌<◌, ◌≡◌, ◌≢◌, refl, ap, sym, subst, ◌∙◌, List, ◌∷◌, some, arith, Bool, true, false, ◌==◌,
  ==-eq, Bool-cases, inl, inr,
}
use mathlib.Core.Path.{fun_ext}
use c_model.Array.{count, get_elem?-get_or}
use c_model.Run.{Returns, returns, Returns-bind}
use c_model.ContextPool.{ConnContext, ContextPool, reset}
use c_model.ContextPool.FreeList.{no_context, context_at, set_here, set_other}
use c_model.ContextPool.Alloc.{Allocated, alloc_context_takes_first}
use c_model.ConnServer.{for_read, Worker, at_fd, watched, with_kernel, with_pool}
use c_model.ConnServer.Loop.{listener_of, listen_on}
use c_model.ConnServer.Held.{Setup, Held, used-inside, put-eq_some}
use c_model.ConnServer.Admit.{admit-Held}
use c_model.ConnServer.Fits.{Fits, Fits-same, Fits-base, Sound, at_fd-here, at_fd-other}
use c_model.ConnServer.Steps.{after_put}

-- One of the process's own descriptors becomes a connection's.
abbrev pub handed_over : Setup → ℕ → Setup
handed_over S d = record S { base = at_fd S.base d false }

handed_over-Held :
    (S : Setup) (pool : ContextPool) (is_open : ℕ → Bool) (free used : List ℕ) (d : ℕ)
    → Held S pool is_open free used
    → S.base d ≡ true
    → d ≢ 0
    → Held (handed_over S d) pool (at_fd is_open d false) free used
handed_over-Held S pool is_open free used d h b n = record {
  valid = h.valid;
  owner = h.owner;
  front = λ q k.
      let (o, mine, not_base) = h.front q k in
      let a = apart _ not_base in
      (at_fd-other is_open d _ false a ∙ o, mine, at_fd-other S.base d _ false a ∙ not_base);
  back = λ q k. elim (h.back q k) [
    | inl z ↦ inl z
    | inr (o, mine, not_base, two) ↦
        let a = apart _ not_base in
        inr (
          at_fd-other is_open d _ false a ∙ o,
          mine,
          at_fd-other S.base d _ false a ∙ not_base,
          two,
        )
  ];
  no_leak = λ e o. elim (Bool-cases (d == e)) [
    | inl y ↦ (let off : at_fd is_open d false e ≡ false = rw y refl in absurd cc)
    | inr z ↦
        let on : is_open e ≡ true = sym (at_fd-other is_open d e false (ground arith)) ∙ o in
        elim (h.no_leak e on) [
          | inl base ↦ inl (at_fd-other S.base d e false (ground arith) ∙ base)
          | inr held ↦ inr held
        ]
  ];
  base_open = λ e o. elim (Bool-cases (d == e)) [
    | inl y ↦ (let off : at_fd S.base d false e ≡ false = rw y refl in absurd cc)
    | inr z ↦
        at_fd-other is_open d e false (ground arith)
        ∙ h.base_open e (sym (at_fd-other S.base d e false (ground arith)) ∙ o)
  ];
  stdin = at_fd-other S.base d 0 false n ∙ h.stdin;
}
  where
    apart : (e : ℕ) → S.base e ≡ false → d ≢ e
    apart e not_base x = let same = subst (λ y. S.base y ≡ true) x b in absurd cc

-- It stays open all the while.
at_fd-back : (f : ℕ → Bool) (d : ℕ) → f d ≡ true → at_fd (at_fd f d false) d true ≡ f
at_fd-back f d on = fun_ext (λ e. elim (Bool-cases (d == e)) [
  | inl y ↦ rw y (sym on ∙ ap f (==-eq d e y))
  | inr n ↦ rw n refl
])

module _ (S : Setup) (w : Worker) (j : ℕ) (left used : List ℕ) (s : Sound S w (j ∷ left) used)
    (d : ℕ) (b : S.base d ≡ true) (n : d ≢ 0) where
  listening-Sound :
      (p : ContextPool) (a : Allocated w.pool j left used (j, p))
      → Sound
          (handed_over S d)
          (with_kernel
            (after_put (with_pool w p) j (listener_of S.proxy S.targets (context_at p.arr j) d))
            (watched w.kernel d (some (for_read, j))))
          left
          (j ∷ used)
  unfolding reset
  listening-Sound p a =
      let c : ConnContext = listener_of S.proxy S.targets (context_at p.arr j) d in
      let v = s.held.valid in
      let unused : count j used ≡ 0 = ground (arith, v.once j) in
      let lt = used-inside p left (j ∷ used) j a.valid (ground arith) in
      let on = s.held.base_open d b in
      record {
        held =
            subst
              (λ f. Held (handed_over S d) (after_put (with_pool w p) j c).pool f left (j ∷ used))
              (at_fd-back w.kernel.is_open d on)
              (admit-Held (handed_over S d) w.pool (at_fd w.kernel.is_open d false) (j ∷ left) used
                (handed_over-Held S w.pool w.kernel.is_open (j ∷ left) used d s.held b n) d
                (at_fd-here w.kernel.is_open d false) p j left c a.valid a.others unused
                (ap (λ x. x.pool) a.fresh) refl (ap (λ x. x.end_fd) a.fresh));
        ranged = record { counted = s.ranged.counted; turn = s.ranged.turn };
        fit = λ q k. elim (Bool-cases (j == q)) [
          | inl y ↦
              subst
                (λ x.
                  Fits (handed_over S d) x (at_fd w.kernel.interest d (some (for_read, j)))
                    (context_at (after_put (with_pool w p) j c).pool.arr x))
                (==-eq j q y)
                (subst (Fits (handed_over S d) j (at_fd w.kernel.interest d (some (for_read, j))))
                  (sym (set_here p.arr j c lt))
                  (
                    at_fd-here w.kernel.interest d (some (for_read, j)),
                    ap (λ x. x.end_fd) a.fresh,
                    refl,
                    λ t. rw t refl,
                  ))
          | inr z ↦
              let was : 0 < count q used = ground arith in
              let other : j ≢ q = ground arith in
              let (o, mine, not_base) = s.held.front q was in
              let apart : (e : ℕ) → S.base e ≡ false → d ≢ e =
                λ e f x. let same = subst (λ y. S.base y ≡ true) x b in absurd cc in
              subst (Fits (handed_over S d) q (at_fd w.kernel.interest d (some (for_read, j))))
                (sym (set_other p.arr j q c lt other ∙ a.others q other))
                (Fits-same (handed_over S d) q w.kernel.interest
                  (at_fd w.kernel.interest d (some (for_read, j))) (context_at w.pool.arr q)
                  (at_fd-other w.kernel.interest d _ (some (for_read, j)) (apart _ not_base))
                  (λ y. elim (s.held.back q was) [
                    | inl x ↦ absurd (y x)
                    | inr (o', mine', not_base', two) ↦
                        at_fd-other w.kernel.interest d _ (some (for_read, j)) (apart _ not_base')
                  ])
                  (Fits-base S (at_fd S.base d false) q w.kernel.interest (context_at w.pool.arr q)
                    (s.fit q was)))
        ];
      }

  pub listen_on-Sound :
      Returns (λ u. Sound (handed_over S d) u left (j ∷ used)) (listen_on w S.proxy S.targets d)
  unfolding listen_on
  listen_on-Sound =
      Returns-bind (alloc_context_takes_first w.pool j left used s.held.valid) λ (r, p) a.
        let a' : Allocated w.pool j left used (j, p) =
          subst (λ x. Allocated w.pool j left used (x, p)) a.index a in
        let lt = used-inside p left (j ∷ used) j a'.valid (ground arith) in
        rw
          (
            a.index,
            get_elem?-get_or p.arr j no_context lt,
            put-eq_some (with_pool w p) j (listener_of S.proxy S.targets (context_at p.arr j) d) lt,
          )
          (returns (listening-Sound p a'))
