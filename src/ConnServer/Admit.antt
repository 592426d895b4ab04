-- ===== src/ConnServer/Admit.antt =====
-- A new descriptor, of `accept` or `socket`, and the context that gets it.
use c_model.Common.{
  ℕ, ◌<◌, ◌≡◌, ◌≢◌, refl, ap, sym, subst, ◌∙◌, List, ◌∷◌, arith, Bool, true, false, ◌==◌, ==-eq,
  Bool-cases, inl, inr, ◌⊎◌,
}
use c_model.Array.{set, count}
use c_model.ContextPool.{ConnContext, ContextPool}
use c_model.ContextPool.FreeList.{no_context, context_at, set_here, set_other}
use c_model.ContextPool.FreeList as FreeList
use c_model.ConnServer.{at_fd}
use c_model.ConnServer.Held.{Setup, Held, used-inside, put-Valid}

-- `d` is open for context `i` and is none of the process's own.
abbrev pub Owns : (S : Setup) → (ℕ → Bool) → (ℕ → ℕ) → ℕ → ℕ → Type 0
Owns S is_open owner i d = (is_open d ≡ true) × (owner d ≡ i) × (S.base d ≡ false)

module _ (S : Setup) (pool : ContextPool) (is_open : ℕ → Bool) (free used : List ℕ)
    (h : Held S pool is_open free used) (d : ℕ) (fresh : is_open d ≡ false) where
  apart : (e : ℕ) → is_open e ≡ true → (d == e) ≡ false
  apart e o = elim (Bool-cases (d == e)) [
    | inl y ↦ (let same = subst (λ x. is_open x ≡ false) (==-eq d e y) fresh in absurd cc)
    | inr n ↦ n
  ]

  open_still : (e : ℕ) → is_open e ≡ true → at_fd is_open d true e ≡ true
  open_still e o = rw (apart e o) o

  owner_still : (i e : ℕ) → is_open e ≡ true → at_fd h.owner d i e ≡ h.owner e
  owner_still i e o = rw (apart e o) refl

  not_base : S.base d ≡ false
  not_base = elim (Bool-cases (S.base d)) [
    | inl y ↦ (let o = h.base_open d y in absurd cc)
    | inr n ↦ n
  ]

  new_own : (i : ℕ) → Owns S (at_fd is_open d true) (at_fd h.owner d i) i d
  new_own i = let hit : (d == d) ≡ true = ground arith in (rw hit refl, rw hit refl, not_base)

  -- Context `i` gets the descriptor, and the others are as before.
  new-Held :
      (pool' : ContextPool) (free' used' : List ℕ) (i : ℕ) (c : ConnContext)
      → FreeList.Valid pool' free' used'
      → context_at pool'.arr i ≡ c
      → 0 < count i used'
      → ((q : ℕ)
          → i ≢ q
          → (context_at pool'.arr q ≡ context_at pool.arr q) × (count q used' ≡ count q used))
      → Owns S (at_fd is_open d true) (at_fd h.owner d i) i c.fd
      → (c.end_fd ≡ 0)
        ⊎ ((at_fd is_open d true c.end_fd ≡ true)
            × (at_fd h.owner d i c.end_fd ≡ i)
            × (S.base c.end_fd ≡ false)
            × (c.fd ≢ c.end_fd))
      → (c.fd ≡ d) ⊎ (c.end_fd ≡ d)
      → ((e : ℕ)
          → is_open e ≡ true
          → h.owner e ≡ i
          → 0 < count i used
          → ((context_at pool.arr i).fd ≡ e) ⊎ ((context_at pool.arr i).end_fd ≡ e)
          → (S.base e ≡ true) ⊎ ((c.fd ≡ e) ⊎ (c.end_fd ≡ e)))
      → Held S pool' (at_fd is_open d true) free' used'
  new-Held pool' free' used' i c v here m others front back has_d covers = record {
    valid = v;
    owner = at_fd h.owner d i;
    front = λ q n. elim (Bool-cases (i == q)) [
      | inl y ↦
          subst
            (λ x. Owns S (at_fd is_open d true) (at_fd h.owner d i) x (context_at pool'.arr x).fd)
            (==-eq i q y)
            (subst (λ x. Owns S (at_fd is_open d true) (at_fd h.owner d i) i x.fd) (sym here) front)
      | inr z ↦
          let (same, counted) = others q (ground arith) in
          let (o, mine, b) = h.front q (omega arith) in
          subst (λ x. Owns S (at_fd is_open d true) (at_fd h.owner d i) q x.fd) (sym same)
            (open_still _ o, owner_still i _ o ∙ mine, b)
    ];
    back = λ q n. elim (Bool-cases (i == q)) [
      | inl y ↦
          subst
            (λ x.
              ((context_at pool'.arr x).end_fd ≡ 0)
              ⊎ ((at_fd is_open d true (context_at pool'.arr x).end_fd ≡ true)
                  × (at_fd h.owner d i (context_at pool'.arr x).end_fd ≡ x)
                  × (S.base (context_at pool'.arr x).end_fd ≡ false)
                  × ((context_at pool'.arr x).fd ≢ (context_at pool'.arr x).end_fd)))
            (==-eq i q y)
            (subst
              (λ x.
                (x.end_fd ≡ 0)
                ⊎ ((at_fd is_open d true x.end_fd ≡ true)
                    × (at_fd h.owner d i x.end_fd ≡ i)
                    × (S.base x.end_fd ≡ false)
                    × (x.fd ≢ x.end_fd)))
              (sym here) back)
      | inr z ↦
          let (same, counted) = others q (ground arith) in
          subst
            (λ x.
              (x.end_fd ≡ 0)
              ⊎ ((at_fd is_open d true x.end_fd ≡ true)
                  × (at_fd h.owner d i x.end_fd ≡ q)
                  × (S.base x.end_fd ≡ false)
                  × (x.fd ≢ x.end_fd)))
            (sym same)
            (elim (h.back q (omega arith)) [
              | inl e ↦ inl e
              | inr (o, mine, b, a) ↦ inr (open_still _ o, owner_still i _ o ∙ mine, b, a)
            ])
    ];
    no_leak = λ e o. elim (Bool-cases (d == e)) [
      | inl y ↦ inr (
        rw y m,
        rw y (elim has_d [
          | inl f ↦ inl (ap (λ x. x.fd) here ∙ f ∙ ==-eq d e y)
          | inr f ↦ inr (ap (λ x. x.end_fd) here ∙ f ∙ ==-eq d e y)
        ]),
      )
      | inr z ↦
          let before : is_open e ≡ true =
            sym (let same : at_fd is_open d true e ≡ is_open e = rw z refl in same) ∙ o in
          elim (h.no_leak e before) [
            | inl b ↦ inl b
            | inr (n, place) ↦ elim (Bool-cases (i == h.owner e)) [
              | inl y ↦
                  let own : h.owner e ≡ i = sym (==-eq i (h.owner e) y) in
                  elim (covers e before own (subst (λ x. 0 < count x used) own n) (
                    subst
                      (λ x. ((context_at pool.arr x).fd ≡ e) ⊎ ((context_at pool.arr x).end_fd ≡ e))
                      own place)) [
                        | inl b ↦ inl b
                        | inr found ↦ inr (
                          rw (z, own) m,
                          rw (z, own)
                              (elim found [
                                | inl f ↦ inl (ap (λ x. x.fd) here ∙ f)
                                | inr f ↦ inr (ap (λ x. x.end_fd) here ∙ f)
                              ]),
                        )
                      ]
              | inr w ↦
                  let (same, counted) = others (h.owner e) (ground arith) in
                  inr (
                    rw z (omega (arith, counted, n)),
                    rw z (elim place [
                      | inl f ↦ inl (ap (λ x. x.fd) same ∙ f)
                      | inr f ↦ inr (ap (λ x. x.end_fd) same ∙ f)
                    ]),
                  )
            ]
          ]
    ];
    base_open = λ e b. open_still e (h.base_open e b);
    stdin = h.stdin;
  }

  -- A context in use without a back-end connection gets one.
  pub attach-Held :
      (i : ℕ) (c : ConnContext)
      → 0 < count i used
      → (context_at pool.arr i).end_fd ≡ 0
      → c.pool ≡ true
      → c.fd ≡ (context_at pool.arr i).fd
      → c.end_fd ≡ d
      → Held S (record pool { arr = set pool.arr i c }) (at_fd is_open d true) free used
  attach-Held i c m none_yet owned same_fd at_d =
      let lt = used-inside pool free used i h.valid m in
      let (o, mine, b) = h.front i m in
      new-Held (record pool { arr = set pool.arr i c }) free used i c
        (put-Valid pool free used i c h.valid m owned) (set_here pool.arr i c lt) m
        (λ q n. (set_other pool.arr i q c lt n, refl))
        (subst (Owns S (at_fd is_open d true) (at_fd h.owner d i) i) (sym same_fd)
          (open_still _ o, owner_still i _ o ∙ mine, b))
        (inr (
          subst
            (λ x.
              (at_fd is_open d true x ≡ true)
              × (at_fd h.owner d i x ≡ i)
              × (S.base x ≡ false)
              × (c.fd ≢ x))
            (sym at_d)
            (
              (new_own i).0,
              (new_own i).1,
              (new_own i).2,
              λ e.
                  let here : is_open d ≡ true = subst (λ x. is_open x ≡ true) (sym same_fd ∙ e) o in
                  cc,
            )))
        (inr at_d)
        (λ e op own n. λ place. elim place [
          | inl f ↦ inr (inl (same_fd ∙ f))
          | inr f ↦ inl (subst (λ x. S.base x ≡ true) (sym none_yet ∙ f) h.stdin)
        ])

  -- An unused context gets a new connection.
  pub admit-Held :
      (p : ContextPool) (i : ℕ) (left : List ℕ) (c : ConnContext)
      → FreeList.Valid p left (i ∷ used)
      → ((q : ℕ) → i ≢ q → context_at p.arr q ≡ context_at pool.arr q)
      → count i used ≡ 0
      → c.pool ≡ true
      → c.fd ≡ d
      → c.end_fd ≡ 0
      → Held S (record p { arr = set p.arr i c }) (at_fd is_open d true) left (i ∷ used)
  admit-Held p i left c v others unused owned at_d no_end =
      let m : 0 < count i (i ∷ used) = ground arith in
      let lt = used-inside p left (i ∷ used) i v m in
      new-Held (record p { arr = set p.arr i c }) left (i ∷ used) i c
        (put-Valid p left (i ∷ used) i c v m owned) (set_here p.arr i c lt) m
        (λ q n. (
          set_other p.arr i q c lt n ∙ others q n,
          let miss : (i == q) ≡ false = ground arith in rw miss (omega arith),
        ))
        (subst (Owns S (at_fd is_open d true) (at_fd h.owner d i) i) (sym at_d) (new_own i))
        (inl no_end) (inl at_d) (λ e op own n. λ place. absurd (omega arith))
