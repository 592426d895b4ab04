-- ===== src/TimeHeap/Order.antt =====
-- The heap order, as a property of the expiry times by slot, and what moving a hole does to it.
use c_model.Common.{ℕ, zero, suc, ◌+◌, ◌*◌, ◌≤◌, ◌<◌, ◌≡◌, ◌≢◌, ◌⊎◌, arith, ◌==◌, if◌then◌else◌}
use c_model.TimeHeap.{parent}

-- Below `n`, no slot from `lo` on expires after its children.
abbrev pub IsHeapFrom : ℕ → ℕ → (ℕ → ℕ) → Type 0
IsHeapFrom lo n f = (c : ℕ) → 0 < c → c < n → lo ≤ parent c → f (parent c) ≤ f c

-- `f`, but `k` at `h`.
abbrev pub update : (ℕ → ℕ) → ℕ → ℕ → ℕ → ℕ
update f h k c = if h == c then k else f c

-- Slot `h` is a hole for a timer with expiry `k`: the edges elsewhere are in order, `k` may go below
-- the slot above the hole, and the slots below the hole may go there too.
pub record DownInv (lo n : ℕ) (f : ℕ → ℕ) (k h : ℕ) : Type 0 where
  pub edges : (c : ℕ) → 0 < c → c < n → lo ≤ parent c → parent c ≢ h → c ≢ h → f (parent c) ≤ f c
  pub above : 0 < h → lo ≤ parent h → f (parent h) ≤ k
  pub bridged : (c : ℕ) → 0 < c → c < n → parent c ≡ h → 0 < h → lo ≤ parent h → f (parent h) ≤ f c

-- `m` is the child of `h` that expires first.
pub record IsFirstChild (n : ℕ) (f : ℕ → ℕ) (h m : ℕ) : Type 0 where
  pub inside : m < n
  pub child : (m ≡ h * 2 + 1) ⊎ (m ≡ h * 2 + 1 + 1)
  pub least : (c : ℕ) → 0 < c → c < n → parent c ≡ h → f m ≤ f c

pub DownInv-sink :
    (lo n : ℕ) (f : ℕ → ℕ) (k h m : ℕ)
    → DownInv lo n f k h
    → IsFirstChild n f h m
    → f m < k
    → DownInv lo n (update f h (f m)) k m
DownInv-sink lo n f k h m v s below = record {
  edges = λ c p q r t u. ground (arith, v.edges c, v.bridged m, s.least c);
  above = λ p q. ground (arith, s.child);
  bridged = λ c p q r t u. ground (arith, v.edges c);
}

pub DownInv-settle :
    (lo n : ℕ) (f : ℕ → ℕ) (k h m : ℕ)
    → DownInv lo n f k h
    → IsFirstChild n f h m
    → k ≤ f m
    → IsHeapFrom lo n (update f h k)
DownInv-settle lo n f k h m v s settled c p q r = ground (arith, v.edges c, s.least c, v.above)

pub DownInv-leaf :
    (lo n : ℕ) (f : ℕ → ℕ) (k h : ℕ)
    → DownInv lo n f k h
    → n ≤ h * 2 + 1
    → IsHeapFrom lo n (update f h k)
DownInv-leaf lo n f k h v leaf c p q r = ground (arith, v.edges c, v.above)

-- Slot `h` is a hole for a timer with expiry `k` that may have to rise.
pub record UpInv (n : ℕ) (f : ℕ → ℕ) (k h : ℕ) : Type 0 where
  pub edges : (c : ℕ) → 0 < c → c < n → c ≢ h → parent c ≢ h → f (parent c) ≤ f c
  pub below : (c : ℕ) → 0 < c → c < n → parent c ≡ h → k ≤ f c
  pub bridged : (c : ℕ) → 0 < c → c < n → parent c ≡ h → 0 < h → f (parent h) ≤ f c

pub UpInv-rise :
    (n : ℕ) (f : ℕ → ℕ) (k h : ℕ)
    → UpInv n f k h
    → 0 < h
    → h < n
    → k < f (parent h)
    → UpInv n (update f h (f (parent h))) k (parent h)
UpInv-rise n f k h v pos inside above = record {
  edges = λ c p q r t. ground (arith, v.edges c, v.bridged c);
  below = λ c p q r. ground (arith, v.edges c);
  bridged = λ c p q r t. ground (arith, v.edges c, v.edges (parent h));
}

pub UpInv-settle :
    (n : ℕ) (f : ℕ → ℕ) (k h : ℕ)
    → UpInv n f k h
    → (0 < h → f (parent h) ≤ k)
    → IsHeapFrom 0 n (update f h k)
UpInv-settle n f k h v settled c p q r = ground (arith, v.edges c, v.below c, settled)

root_least_below : (b n : ℕ) (f : ℕ → ℕ) (i : ℕ) → IsHeapFrom 0 n f → i < b → i < n → f 0 ≤ f i
root_least_below zero n f i h p q = absurd (omega arith)
root_least_below (suc b) n f i h p q = ground (arith, h i, root_least_below b n f (parent i) h)

-- The root of a heap expires first.
pub root_least : (n : ℕ) (f : ℕ → ℕ) (i : ℕ) → IsHeapFrom 0 n f → i < n → f 0 ≤ f i
root_least n f i h p = root_least_below (suc i) n f i h (omega arith) p
