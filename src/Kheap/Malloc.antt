-- ===== src/Kheap/Malloc.antt =====
-- `kmalloc` of src/kheap.c: what an allocation gives, and when it is refused.
use computer_os.Prelude.{
  ℕ, ◌+◌, ◌%◌, ◌<◌, ◌≤◌, ◌^◌, ◌≡◌, ◌≢◌, refl, sym, ◌∙◌, true, ◌||◌, inl, inr, Option, none, some,
  List, arith, if◌then◌else◌, ◌==◌, u32, Bool-cases,
}
use computer_os.Kheap.{
  Pages, Block, Heap, header_size, align8, is_empty, grow, find_fit, retry, kmalloc, with_fit,
}
use computer_os.Kheap.Tiling.{IsValid}
use computer_os.Kheap.Live.{live, live-bounds}
use computer_os.Kheap.Fit.{Request, Fitted, Search, found, missing, find_fit-Search}
use computer_os.Kheap.Grow.{Grown, grow-Grown}

-- The sizes that a caller may ask for: rounding up does not wrap.
abbrev pub Sane : ℕ → Type 0
Sane n = n + 48 < 2 ^ 32

pub align8-bounds : (n : ℕ) → Sane n → (n ≤ align8 n) × (align8 n < n + 8) × Request (align8 n)
unfolding align8
align8-bounds n h = omega arith

module _ {M : Type 0} where
  -- `p` is a fresh allocation of at least `n` bytes, and no other one has changed.
  pub record Granted (n : ℕ) (h : Heap M) (p : ℕ) (h' : Heap M) : Type 0 where
    pub valid : IsValid h'
    pub nonzero : p ≢ 0
    pub aligned : p % 8 ≡ 0
    pub given : ℕ
    pub enough : n ≤ given
    pub tight : given < n + 32
    pub fresh : live h.blocks p ≡ none
    pub marks : (q : ℕ) → live h'.blocks q ≡ (if p == q then some given else live h.blocks q)

  pub data Allocated (n : ℕ) (h : Heap M) : ℕ × Heap M → Type 0 where
    granted : {p : ℕ} {h' : Heap M} → Granted n h p h' → Allocated n h (p, h')
    refused :
        {h' : Heap M}
        → IsValid h'
        → ((q : ℕ) → live h'.blocks q ≡ live h.blocks q)
        → Allocated n h (0, h')

  -- A search that succeeds allocates, in a heap that has the allocations of `h`.
  fit-Granted :
      (n : ℕ) (h g : Heap M) (p : ℕ) (bs : List Block)
      → Sane n
      → IsValid g
      → ((q : ℕ) → live g.blocks q ≡ live h.blocks q)
      → Fitted true g.start g.end (align8 n) g.blocks p bs
      → Granted n h p (record g { blocks = bs })
  fit-Granted n h g p bs sane v same f = record {
    valid = record {
      tiled = f.tiled;
      apart = f.apart;
      cap = v.cap;
      narrow = v.narrow;
      top = v.top;
      aligned = v.aligned;
      nonzero = v.nonzero;
    };
    nonzero = omega (arith, f.above);
    aligned = omega (arith, (live-bounds bs g.start g.end p f.given f.tiled alive).2, v.aligned);
    given = f.given;
    enough = omega (arith, f.enough, align8-bounds n sane);
    tight = omega (arith, f.tight, align8-bounds n sane);
    fresh = sym (same p) ∙ f.fresh;
    marks = λ q. ground (arith, f.marks q, same q);
  }
    where
      alive : live bs p ≡ some f.given
      alive = ground (arith, f.marks p)

  pub search :
      (n : ℕ) (g : Heap M)
      → Sane n
      → IsValid g
      → Search true g.start g.end (align8 n) g.blocks (find_fit (align8 n) g.blocks)
  search n g sane v =
      find_fit-Search true g.start g.end (align8 n) g.blocks (align8-bounds n sane).2
        (omega (arith, v.narrow, v.cap)) v.tiled v.apart

  Search-Allocated :
      (n : ℕ) (h g : Heap M) (o : Option (ℕ × List Block))
      → Sane n
      → IsValid g
      → ((q : ℕ) → live g.blocks q ≡ live h.blocks q)
      → Search true g.start g.end (align8 n) g.blocks o
      → Allocated n h (with_fit g (0, g) o)
  Search-Allocated n h g none sane v same (missing m) = refused v same
  Search-Allocated n h g (some (p, bs)) sane v same (found f) =
      granted (fit-Granted n h g p bs sane v same f)

  module _ (ops : Pages M) where
    retry-Allocated :
        (n : ℕ) (h : Heap M) (r : ℕ × Heap M)
        → Sane n
        → IsValid h
        → Grown ops h r.0 r.1
        → Allocated n h (retry ops (align8 n) r)
    unfolding retry
    retry-Allocated n h (added, g) sane v gr = elim (Bool-cases (added == 0)) [
      | inl stop ↦ rw stop (refused gr.valid gr.same)
      | inr go ↦ rw go (Search-Allocated n h g _ sane gr.valid gr.same (search n g sane gr.valid))
    ]

    first-Allocated :
        (n : ℕ) (h : Heap M) (o : Option (ℕ × List Block))
        → Sane n
        → IsValid h
        → Search true h.start h.end (align8 n) h.blocks o
        → Allocated n h
            (with_fit h (retry ops (align8 n) (grow ops (u32 (align8 n + header_size)) h)) o)
    first-Allocated n h (some (p, bs)) sane v (found f) =
        granted (fit-Granted n h h p bs sane v (λ q. refl) f)
    first-Allocated n h none sane v (missing m) =
        retry-Allocated n h (grow ops (u32 (align8 n + header_size)) h) sane v
          (grow-Grown ops (u32 (align8 n + header_size)) h v)

    -- In a valid heap, and for a size at least 48 below 2 ^ 32, `kmalloc` keeps the heap valid and
    -- either returns 0 with every allocation as it was, or a fresh, nonzero address, a multiple of
    -- 8, of a block that is large enough and at most 31 bytes larger, with every other allocation
    -- as it was.
    pub kmalloc-Allocated :
        (n : ℕ) (h : Heap M) → Sane n → IsValid h → Allocated n h (kmalloc ops n h)
    unfolding kmalloc
    kmalloc-Allocated n h sane v = elim (Bool-cases ((n == 0) || is_empty h.blocks)) [
      | inl stop ↦ rw stop (refused v (λ q. refl))
      | inr go ↦
          rw go (first-Allocated n h (find_fit (align8 n) h.blocks) sane v (search n h sane v))
    ]
