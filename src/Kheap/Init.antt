-- ===== src/Kheap/Init.antt =====
-- `kheap_init` of src/kheap.c: the first block.
use computer_os.Prelude.{ℕ, ◌+◌, ◌*◌, ◌%◌, ◌<◌, ◌^◌, ◌≡◌, refl, true, false, none, arith, max}
use computer_os.Kheap.{Pages, Heap, page, map_region, init}
use computer_os.Kheap.Tiling.{IsValid}
use computer_os.Kheap.Live.{live}

-- A heap that `kheap_init` may be asked for: aligned, not empty, and narrower than `unsigned int`.
pub record Layout (base initial max_pages : ℕ) : Type 0 where
  pub nonzero : 0 < base
  pub aligned : base % 8 ≡ 0
  pub some_pages : 0 < initial
  pub narrow : max max_pages initial * page < 2 ^ 32
  pub top : base + max max_pages initial * page < 2 ^ 64

-- For an aligned nonzero base and page counts that fit, the larger one narrower than 2 ^ 32 bytes:
-- once its pages are mapped, `kheap_init` leaves a valid heap of the initial size with nothing
-- allocated and room to grow up to the larger of the two page counts; when they cannot be mapped,
-- it changes nothing but the memory.
pub init-IsValid :
    {M : Type 0} (ops : Pages M) (base initial max_pages : ℕ) (h : Heap M)
    → Layout base initial max_pages
    → let h' = init ops base initial max_pages h in
      let mapping = map_region ops base initial h.mem in
      (mapping.0 ≡ true
        → IsValid h'
          × ((q : ℕ) → live h'.blocks q ≡ none)
          × (h'.end ≡ base + initial * page)
          × (h'.limit ≡ base + max max_pages initial * page))
      × (mapping.0 ≡ false → h' ≡ record h { mem = mapping.1 })
unfolding init live
init-IsValid ops base initial max_pages h l = (
  λ mapped. rw mapped (
    record {
      tiled = (refl, omega arith, omega arith);
      apart = (refl, tt);
      cap = ground arith;
      narrow = ground arith;
      top = ground arith;
      aligned = l.aligned;
      nonzero = l.nonzero;
    },
    λ q. ground arith,
    omega arith,
    ground arith,
  ),
  λ failed. rw (failed, init) refl,
)
