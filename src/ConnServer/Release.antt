-- ===== src/ConnServer/Release.antt =====
-- A connection that is given up (`process_close` and `free_context`).
use c_model.Common.{
  ℕ, ◌<◌, ◌≡◌, ◌≢◌, refl, ap, sym, subst, ◌∙◌, List, ◌∷◌, some, arith, true, false, ◌==◌, ==-eq,
  Bool-cases, inl, inr, ◌⊎◌,
}
use c_model.Array.{count, get_elem?-get_or}
use c_model.Run.{◌>>=◌, Returns, returns, Returns-bind}
use c_model.ContextPool.{ContextPool, free_context}
use c_model.ContextPool.FreeList.{no_context, context_at}
use c_model.ContextPool.Alloc.{Freed, free_context_gives_back}
use c_model.ConnServer.{Worker, Kernel, with_pool, process_close, free_back}
use c_model.ConnServer.Held.{Setup, Held, used-inside}
use c_model.ConnServer.Close.{
  drop_fd-Dropped, Survives, Closed, at_fd-kept, front_shut, both_shut, ClosedBy, closed_by,
}

-- What giving up the connection of context `i` leads to: its descriptors are closed, the context is
-- unused, and all else is as it was.
pub record Released (S : Setup) (w : Worker) (i : ℕ) (free used : List ℕ) (u : Worker)
    : Type 0 where
  pub left : List ℕ
  pub held : Held S u.pool u.kernel.is_open (i ∷ free) left
  pub gone : count i left ≡ 0
  pub still_used : (q : ℕ) → i ≢ q → count q left ≡ count q used
  pub others : (q : ℕ) → i ≢ q → context_at u.pool.arr q ≡ context_at w.pool.arr q
  pub mine :
      context_at u.pool.arr i ≡ record (context_at w.pool.arr i) { next_idx = w.pool.next_idx }
  pub shut : u.kernel.is_open (context_at w.pool.arr i).fd ≡ false
  pub interest :
      (d : ℕ)
      → Survives (context_at w.pool.arr i).fd (context_at w.pool.arr i).end_fd d
      → d ≢ 0
      → u.kernel.interest d ≡ w.kernel.interest d
  pub rest :
      (u.wdata ≡ w.wdata)
      × (u.cpu_id ≡ w.cpu_id)
      × (u.last ≡ w.last)
      × (u.sent ≡ w.sent)
      × (u.connects ≡ w.connects)

module _ (S : Setup) (w : Worker) (i : ℕ) (free used : List ℕ)
    (h : Held S w.pool w.kernel.is_open free used) (m : 0 < count i used) where
  process_close-Closed : Returns (ClosedBy w (context_at w.pool.arr i)) (process_close w i)
  unfolding process_close
  process_close-Closed =
      let c = context_at w.pool.arr i in
      let (front_open, mine, not_base) = h.front i m in
      rw (get_elem?-get_or w.pool.arr i no_context (used-inside w.pool free used i h.valid m)) (
        Returns-bind (drop_fd-Dropped w.kernel c.fd_added c.fd front_open) λ k d.
          elim (h.back i m) [
            | inl none_there ↦
                let no_end : (c.end_fd == 0) ≡ true = ground arith in
                rw no_end (returns (closed_by k (front_shut w.kernel k c none_there d)))
            | inr (end_open, mine_too, other_base, apart) ↦
                let nonzero : c.end_fd ≢ 0 = λ z.
                  let at_zero = subst (λ e. S.base e ≡ false) z other_base in
                  let std = h.stdin in absurd cc in
                let has_end : (c.end_fd == 0) ≡ false = ground arith in
                let still : k.is_open c.end_fd ≡ true =
                  ap (λ f. f c.end_fd) d.shut
                  ∙ at_fd-kept w.kernel.is_open c.fd c.end_fd end_open (λ x. apart (sym x)) in
                rw has_end (
                  Returns-bind (drop_fd-Dropped k c.end_fd_added c.end_fd still)
                    λ k' d'. returns (closed_by k' (both_shut w.kernel k k' c nonzero d d')))
          ])

  -- Another context's descriptors survive.
  pub other_safe :
      (q : ℕ)
      → i ≢ q
      → (d : ℕ) → h.owner d ≡ q
      → Survives (context_at w.pool.arr i).fd (context_at w.pool.arr i).end_fd d
  other_safe q n d own =
      let (front_open, mine, not_base) = h.front i m in
      (
        λ e. n (sym mine ∙ sym (ap h.owner e) ∙ own),
        λ e. elim (h.back i m) [
          | inl z ↦ z
          | inr (end_open, mine_too, other_base, apart) ↦
              absurd (n (sym mine_too ∙ sym (ap h.owner e) ∙ own))
        ],
      )

  base_safe :
      (d : ℕ)
      → S.base d ≡ true
      → Survives (context_at w.pool.arr i).fd (context_at w.pool.arr i).end_fd d
  base_safe d b =
      let (front_open, mine, not_base) = h.front i m in
      (
        λ e. let at_d = subst (λ x. S.base x ≡ false) (sym e) not_base in absurd cc,
        λ e. elim (h.back i m) [
          | inl z ↦ z
          | inr (end_open, mine_too, other_base, apart) ↦
              (let at_d = subst (λ x. S.base x ≡ false) (sym e) other_base in absurd cc)
        ],
      )

  released-Held :
      (k : Kernel) (p : ContextPool) (f : Freed w.pool i free used p)
      → Closed w.kernel (context_at w.pool.arr i) k
      → count i f.left ≡ 0
      → Held S p k.is_open (i ∷ free) f.left
  released-Held k p f cl gone = record {
    valid = f.valid;
    owner = h.owner;
    front = λ q n.
        let other : i ≢ q = λ e. absurd (omega (arith, gone, ap (λ x. count x f.left) e)) in
        let was : 0 < count q used = omega (arith, f.still_used q other) in
        let (o, mine, b) = h.front q was in
        subst (λ c. (k.is_open c.fd ≡ true) × (h.owner c.fd ≡ q) × (S.base c.fd ≡ false))
          (sym (f.others q other)) (cl.kept _ o (other_safe q other _ mine), mine, b);
    back = λ q n.
        let other : i ≢ q = λ e. absurd (omega (arith, gone, ap (λ x. count x f.left) e)) in
        let was : 0 < count q used = omega (arith, f.still_used q other) in
        subst
          (λ c.
            (c.end_fd ≡ 0)
            ⊎ ((k.is_open c.end_fd ≡ true)
                × (h.owner c.end_fd ≡ q)
                × (S.base c.end_fd ≡ false)
                × (c.fd ≢ c.end_fd)))
          (sym (f.others q other))
          (elim (h.back q was) [
            | inl z ↦ inl z
            | inr (o, mine, b, a) ↦ inr (cl.kept _ o (other_safe q other _ mine), mine, b, a)
          ]);
    no_leak = λ d o.
        let (before, (n, s)) = cl.shut d o in
        elim (h.no_leak d before) [
          | inl b ↦ inl b
          | inr (was, place) ↦ elim (Bool-cases (i == h.owner d)) [
            | inl e ↦
                let here : i ≡ h.owner d = ==-eq i (h.owner d) e in
                elim place [
                  | inl front_at ↦
                      absurd (n (sym front_at ∙ ap (λ x. (context_at w.pool.arr x).fd) (sym here)))
                  | inr end_at ↦
                      let mine : d ≡ (context_at w.pool.arr i).end_fd =
                        sym end_at ∙ ap (λ x. (context_at w.pool.arr x).end_fd) (sym here) in
                      inl (subst (λ x. S.base x ≡ true) (sym (mine ∙ s mine)) h.stdin)
                ]
            | inr e ↦
                let other : i ≢ h.owner d = ground arith in
                let same = f.others (h.owner d) other in
                inr (
                  omega (arith, f.still_used (h.owner d) other, was),
                  elim place [
                    | inl front_at ↦ inl (ap (λ c. c.fd) same ∙ front_at)
                    | inr end_at ↦ inr (ap (λ c. c.end_fd) same ∙ end_at)
                  ],
                )
          ]
        ];
    base_open = λ d b. cl.kept d (h.base_open d b) (base_safe d b);
    stdin = h.stdin;
  }

  freed-Released :
      (u : Worker)
      → ClosedBy w (context_at w.pool.arr i) u
      → Returns (Released S w i free used) (free_context u.pool i >>= λ p. some (with_pool u p))
  freed-Released u (closed_by k cl) =
      Returns-bind (free_context_gives_back w.pool i free used h.valid m) λ p f.
        let v = f.valid in
        let gone : count i f.left ≡ 0 = ground (arith, v.once i) in
        returns (record {
          left = f.left;
          held = released-Held k p f cl gone;
          gone = gone;
          still_used = f.still_used;
          others = f.others;
          mine = f.same;
          shut = elim (Bool-cases (k.is_open (context_at w.pool.arr i).fd)) [
            | inl o ↦ absurd ((cl.shut (context_at w.pool.arr i).fd o).1.0 refl)
            | inr z ↦ z
          ];
          interest = cl.interest;
          rest = (refl, refl, refl, refl, refl);
        })

  pub free_back-Released : Returns (Released S w i free used) (free_back w i)
  unfolding free_back
  free_back-Released = Returns-bind process_close-Closed freed-Released
