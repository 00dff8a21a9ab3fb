-- ===== src/Kheap/Served.antt =====
-- When `kmalloc` of src/kheap.c serves a request: a fit, or room to grow.
use computer_os.Prelude.{
  ℕ, ◌+◌, ◌*◌, ◌<◌, ◌≤◌, ◌≡◌, ◌≢◌, Bool, true, false, ◌||◌, ◌⊎◌, inl, inr, Option, none, some, List,
  [], ◌∷◌, arith, ◌==◌, u32, Bool-cases,
}
use computer_os.Kheap.{
  Pages, Block, Heap, header_size, page, align8, map_region, stitch, is_empty, grow_pages, grow,
  find_fit, retry, kmalloc, with_fit,
}
use computer_os.Kheap.Tiling.{Tiled, Narrow, Tiled-le, IsValid}
use computer_os.Kheap.Grow.{grow-Grown}
use computer_os.Kheap.Fit.{Search, found, missing, NoFit}
use computer_os.Kheap.Malloc.{Sane, align8-bounds, search}

-- Behind a grown heap, a search fails only for a size that the new region does not hold.
NoFit-stitch :
    (bs : List Block) (s e added size : ℕ)
    → Narrow s (e + added)
    → header_size ≤ added
    → Tiled s e bs
    → NoFit size (stitch e added bs)
    → added < size + header_size
unfolding stitch
NoFit-stitch [] s e added size narrow big t m = ground arith
NoFit-stitch (b ∷ []) s e added size narrow big t m = ground arith
NoFit-stitch (b ∷ c ∷ r) s e added size narrow big t m =
    NoFit-stitch (c ∷ r) (s + header_size + b.size) e added size (omega arith) big t.2 m.1

module _ {M : Type 0} (ops : Pages M) (n : ℕ) (h : Heap M) (sane : Sane n) (v : IsValid h) where
  abbrev wanted : ℕ
  wanted = u32 (align8 n + header_size)

  abbrev pages : ℕ
  pages = grow_pages ops wanted h

  abbrev mapping : Bool × M
  mapping = map_region ops h.end pages h.mem

  -- Why the heap cannot grow enough.
  abbrev pub Stuck : Type 0
  Stuck = (mapping.0 ≡ false) ⊎ (h.limit < h.end + align8 n + header_size + page)

  pages-room : h.end + pages * page ≤ h.limit
  unfolding grow_pages
  pages-room = ground (arith, v.cap)

  -- Few pages are mapped only where there is no room for more.
  pages-few :
      pages * page < align8 n + header_size → h.limit < h.end + align8 n + header_size + page
  unfolding grow_pages
  pages-few few =
      ground (arith, v.cap, v.narrow, align8-bounds n sane, Tiled-le h.blocks h.start h.end v.tiled)

  -- A search that succeeds does not return 0.
  with_fit-zero :
      (g : Heap M) (r : ℕ × Heap M) (o : Option (ℕ × List Block))
      → Search true g.start g.end (align8 n) g.blocks o
      → (with_fit g r o).0 ≡ 0
      → NoFit (align8 n) g.blocks × (r.0 ≡ 0)
  with_fit-zero g r none (missing m) z = (m, z)
  with_fit-zero g r (some (p, bs)) (found f) z = absurd (omega (arith, f.above))

  exact : u32 (pages * page) ≡ pages * page
  exact = omega (arith, pages-room, v.narrow, Tiled-le h.blocks h.start h.end v.tiled)

  -- Growing by nothing.
  grow-zero : is_empty h.blocks ≡ false → (grow ops wanted h).0 ≡ 0 → Stuck
  unfolding grow
  grow-zero full z = elim (Bool-cases mapping.0) [
    | inr failed ↦ inl failed
    | inl mapped ↦ inr (ground (arith, pages-few, exact))
  ]

  -- Growing by something.
  grow-some :
      (grow ops wanted h).0 ≢ 0
      → ((grow ops wanted h).0 ≡ u32 (pages * page))
        × ((grow ops wanted h).1.blocks ≡ stitch h.end (u32 (pages * page)) h.blocks)
  unfolding grow
  grow-some ne = ground arith

  -- The second search fails only where the heap has not grown by enough.
  retry-Stuck : is_empty h.blocks ≡ false → (retry ops (align8 n) (grow ops wanted h)).0 ≡ 0 → Stuck
  unfolding retry
  retry-Stuck full z = elim (Bool-cases ((grow ops wanted h).0 == 0)) [
    | inl nothing ↦ grow-zero full (ground arith)
    | inr something ↦
        let ne : (grow ops wanted h).0 ≢ 0 = ground arith in
        let grown = grow-some ne in
        let valid = (grow-Grown ops wanted h v).valid in
        let miss =
          with_fit-zero (grow ops wanted h).1 (0, (grow ops wanted h).1) _
            (search n (grow ops wanted h).1 sane valid) (rw something at z) in
        let few =
          NoFit-stitch h.blocks h.start h.end (u32 (pages * page)) (align8 n)
            (omega (arith, exact, pages-room, v.narrow)) (omega (arith, exact, grown.0)) v.tiled
            (rw grown.1 at miss.0) in
        inr (pages-few (omega (arith, few, exact)))
  ]

  -- In a valid heap with a block, for a size from 1 to 48 below 2 ^ 32, `kmalloc` returns 0 only if
  -- no free block is large enough and either the mapping of new pages fails or less is left below
  -- the limit than the request with its header and a page.
  pub kmalloc-zero :
      n ≢ 0
      → is_empty h.blocks ≡ false
      → (kmalloc ops n h).0 ≡ 0
      → NoFit (align8 n) h.blocks × Stuck
  unfolding kmalloc
  kmalloc-zero ne full z =
      let go : ((n == 0) || is_empty h.blocks) ≡ false = ground arith in
      let parts =
        with_fit-zero h (retry ops (align8 n) (grow ops wanted h)) (find_fit (align8 n) h.blocks)
          (search n h sane v) (rw go at z) in
      (parts.0, retry-Stuck full parts.1)
