-- ===== src/Kheap/Owners.antt =====
-- A client of src/kheap.c that calls `kmalloc` and `kfree` in any order, and frees only what it
-- holds.
use computer_os.Prelude.{
  ℕ, ◌+◌, ◌≤◌, ◌≡◌, ◌≢◌, ◌⊎◌, inl, inr, refl, ◌∙◌, Option, none, some, arith, if◌then◌else◌, ◌==◌,
  Bool-cases,
}
use computer_os.Kheap.{Pages, Heap, kmalloc, kfree}
use computer_os.Kheap.Tiling.{IsValid}
use computer_os.Kheap.Live.{live, live-disjoint}
use computer_os.Kheap.Malloc.{Sane, Granted, Allocated, granted, refused, kmalloc-Allocated}
use computer_os.Kheap.Release.{Freed, kfree-Freed}

module _ {M : Type 0} (ops : Pages M) where
  -- The heap and what the client holds: the size that it asked for, by address.
  pub data Reach (h₀ : Heap M) : Heap M → (ℕ → Option ℕ) → Type 0 where
    start : Reach h₀ h₀ (λ q. none)
    allocate :
        {h : Heap M} {held : ℕ → Option ℕ} (n : ℕ)
        → Sane n
        → (kmalloc ops n h).0 ≢ 0
        → Reach h₀ h held
        → Reach h₀ (kmalloc ops n h).1 (λ q. if (kmalloc ops n h).0 == q then some n else held q)
    -- The call returned 0.
    refuse :
        {h : Heap M} {held : ℕ → Option ℕ} (n : ℕ)
        → Sane n
        → (kmalloc ops n h).0 ≡ 0
        → Reach h₀ h held
        → Reach h₀ (kmalloc ops n h).1 held
    release :
        {h : Heap M} {held : ℕ → Option ℕ} (p n : ℕ)
        → held p ≡ some n
        → Reach h₀ h held
        → Reach h₀ (kfree p h) (λ q. if p == q then none else held q)

-- Two ranges of bytes, each by its address and its length.
abbrev pub Disjoint : ℕ → ℕ → ℕ → ℕ → Type 0
Disjoint p n q m = (p + n ≤ q) ⊎ (q + m ≤ p)

-- The block of an address that is held is allocated, and large enough.
abbrev pub Kept : {M : Type 0} → Heap M → (ℕ → Option ℕ) → Type 0
Kept h held = (q n : ℕ) → held q ≡ some n → (k : ℕ) × (live h.blocks q ≡ some k) × (n ≤ k)

module _ {M : Type 0} (ops : Pages M) where
  Granted-Kept :
      (n : ℕ) (h h' : Heap M) (p : ℕ) (held : ℕ → Option ℕ)
      → Granted n h p h'
      → Kept h held
      → Kept h' (λ q. if p == q then some n else held q)
  Granted-Kept n h h' p held g kept q m e = elim (Bool-cases (p == q)) [
    | inl hit ↦ (g.given, ground (arith, g.marks q), ground (arith, g.enough))
    | inr miss ↦
        let (k, alive, fits) = kept q m (ground (arith, e)) in
        (k, ground (arith, g.marks q, alive), fits)
  ]

  allocate-Kept :
      (n : ℕ) (h : Heap M) (r : ℕ × Heap M) (held : ℕ → Option ℕ)
      → Allocated n h r
      → r.0 ≢ 0
      → Kept h held
      → IsValid r.1 × Kept r.1 (λ q. if r.0 == q then some n else held q)
  allocate-Kept n h (p, h') held (granted g) ne kept = (g.valid, Granted-Kept n h h' p held g kept)
  allocate-Kept n h (p, h') held (refused v same) ne kept = absurd (ne refl)

  refuse-Kept :
      (n : ℕ) (h : Heap M) (r : ℕ × Heap M) (held : ℕ → Option ℕ)
      → Allocated n h r
      → r.0 ≡ 0
      → Kept h held
      → IsValid r.1 × Kept r.1 held
  refuse-Kept n h (p, h') held (granted g) z kept = absurd (g.nonzero z)
  refuse-Kept n h (p, h') held (refused v same) z kept =
      (v, λ q m e. let (k, alive, fits) = kept q m e in (k, same q ∙ alive, fits))

  freed-Kept :
      (p : ℕ) (h h' : Heap M) (held : ℕ → Option ℕ)
      → Freed p h.blocks h'.blocks
      → Kept h held
      → Kept h' (λ q. if p == q then none else held q)
  freed-Kept p h h' held freed kept q m e = elim (Bool-cases (p == q)) [
    | inl hit ↦ ground (arith, e)
    | inr miss ↦
        let (k, alive, fits) = kept q m (ground (arith, e)) in
        (k, ground (arith, freed q, alive), fits)
  ]

  Reach-Kept :
      (h₀ h : Heap M) (held : ℕ → Option ℕ)
      → IsValid h₀
      → Reach ops h₀ h held
      → IsValid h × Kept h held
  Reach-Kept h₀ h held v start = (v, λ q n e. absurd cc)
  Reach-Kept h₀ h held v (allocate n sane ne r) =
      let (valid, kept) = Reach-Kept h₀ _ _ v r in
      allocate-Kept n _ _ _ (kmalloc-Allocated ops n _ sane valid) ne kept
  Reach-Kept h₀ h held v (refuse n sane z r) =
      let (valid, kept) = Reach-Kept h₀ _ _ v r in
      refuse-Kept n _ _ _ (kmalloc-Allocated ops n _ sane valid) z kept
  Reach-Kept h₀ h held v (release {h = h'} {held = held'} p n holds r) =
      let (valid, kept) = Reach-Kept h₀ h' held' v r in
      let (k, alive, fits) = kept p n holds in
      let (valid', freed) = kfree-Freed h' p k valid alive in
      (valid', freed-Kept p h' (kfree p h') held' freed kept)

  -- A client that starts with a valid heap and makes calls of `kmalloc` and `kfree` in any order,
  -- for sizes at least 48 below 2 ^ 32, and frees only what it holds, always finds a valid heap,
  -- and any two allocations that it holds at different addresses do not overlap, in the sizes that
  -- it asked for.
  pub Reach-Disjoint :
      (h₀ h : Heap M) (held : ℕ → Option ℕ) (p q n m : ℕ)
      → IsValid h₀
      → Reach ops h₀ h held
      → held p ≡ some n
      → held q ≡ some m
      → p ≢ q
      → IsValid h × Disjoint p n q m
  Reach-Disjoint h₀ h held p q n m v r first second ne =
      let (valid, kept) = Reach-Kept h₀ h held v r in
      let (j, alive, fits) = kept p n first in
      let (k, alive', fits') = kept q m second in
      let apart = live-disjoint h.blocks h.start h.end p q j k valid.tiled alive alive' ne in
      (valid, omega (arith, apart, fits, fits'))
