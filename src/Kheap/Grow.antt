-- ===== src/Kheap/Grow.antt =====
-- `kheap_grow` of src/kheap.c: the heap gets longer, and no allocation changes.
use computer_os.Prelude.{
  ℕ, ◌+◌, ◌*◌, ◌%◌, ◌≤◌, ◌≡◌, ◌≢◌, refl, Bool, true, false, ◌||◌, inl, inr, List, [], ◌∷◌, arith,
  ◌==◌, u32, u64, leb, Bool-cases,
}
use computer_os.Kheap.{
  Pages, Block, Heap, header_size, page, map_region, stitch, is_empty, grow_pages, grow,
}
use computer_os.Kheap.Tiling.{Tiled, ApartAfter, Narrow, Tiled-le, IsValid}
use computer_os.Kheap.Live.{live}

-- The list `out` is `bs` with `added` bytes of free space behind its end `e`.
record Stitched (u : Bool) (s e added : ℕ) (bs out : List Block) : Type 0 where
  pub tiled : Tiled s (e + added) out
  pub apart : ApartAfter u out
  pub same : (q : ℕ) → live out q ≡ live bs q

stitch-Stitched :
    (bs : List Block) (u : Bool) (s e added : ℕ)
    → (is_empty bs ≡ false)
    → Narrow s (e + added)
    → added % 8 ≡ 0
    → header_size ≤ added
    → Tiled s e bs
    → ApartAfter u bs
    → Stitched u s e added bs (stitch e added bs)
unfolding stitch live
stitch-Stitched [] u s e added full narrow whole room t a = cc
stitch-Stitched (b ∷ []) u s e added full narrow whole room t a = elim (Bool-cases b.used) [
  | inl busy ↦ rw busy (record {
    tiled = (t.0, t.1, (omega arith, omega arith, omega arith));
    apart = (ground (arith, a.0), (refl, tt));
    same = λ q. ground arith;
  })
  | inr idle ↦ rw idle (record {
    tiled = (t.0, omega arith, omega arith);
    apart = (ground (arith, a.0), tt);
    same = λ q. ground arith;
  })
]
stitch-Stitched (b ∷ c ∷ r) u s e added full narrow whole room t a =
    let rest =
      stitch-Stitched (c ∷ r) b.used (s + header_size + b.size) e added refl (omega arith) whole
        room t.2 a.1 in
    record {
      tiled = (t.0, t.1, rest.tiled);
      apart = (a.0, rest.apart);
      same = λ q. ground (arith, rest.same q);
    }

module _ {M : Type 0} (ops : Pages M) where
  -- What `kheap_grow` returns, and the heap that it leaves.
  pub record Grown (h : Heap M) (added : ℕ) (h' : Heap M) : Type 0 where
    pub valid : IsValid h'
    pub same : (q : ℕ) → live h'.blocks q ≡ live h.blocks q
    pub longer : h'.end ≡ h.end + added
    pub start : h'.start ≡ h.start
    pub limit : h'.limit ≡ h.limit

  grow_pages-room :
      (min_bytes : ℕ) (h : Heap M)
      → h.end ≤ h.limit
      → h.end + grow_pages ops min_bytes h * page ≤ h.limit
  unfolding grow_pages
  grow_pages-room min_bytes h cap = ground arith

  -- The branch of `kheap_grow` in which the pages have been mapped.
  grown : ℕ → M → Heap M → Heap M
  grown added m h = record h {
    blocks = stitch h.end added h.blocks;
    end = u64 (h.end + added);
    mem = m;
  }

  grown-IsValid :
      (added : ℕ) (m : M) (h : Heap M)
      → IsValid h
      → is_empty h.blocks ≡ false
      → header_size ≤ added
      → added % 8 ≡ 0
      → h.end + added ≤ h.limit
      → IsValid (grown added m h)
        × ((q : ℕ) → live (stitch h.end added h.blocks) q ≡ live h.blocks q)
  unfolding grown
  grown-IsValid added m h v full big whole room = (
    record {
      tiled = rw wrap st.tiled;
      apart = st.apart;
      cap = rw wrap room;
      narrow = v.narrow;
      top = v.top;
      aligned = v.aligned;
      nonzero = v.nonzero;
    },
    st.same,
  )
    where
      wrap : u64 (h.end + added) ≡ h.end + added
      wrap = omega (arith, v.top)

      st : Stitched true h.start h.end added h.blocks (stitch h.end added h.blocks)
      st =
          stitch-Stitched h.blocks true h.start h.end added full (omega (arith, v.narrow)) whole big
            v.tiled v.apart

  unchanged : (h : Heap M) (m : M) → IsValid h → Grown h 0 (record h { mem = m })
  unchanged h m v = record {
    valid = record {
      tiled = v.tiled;
      apart = v.apart;
      cap = v.cap;
      narrow = v.narrow;
      top = v.top;
      aligned = v.aligned;
      nonzero = v.nonzero;
    };
    same = λ q. refl;
    longer = omega arith;
    start = refl;
    limit = refl;
  }

  -- `kheap_grow` keeps a valid heap valid, its start, its limit and every allocation, and moves the
  -- end by exactly what it returns, which is 0 when it cannot grow.
  pub grow-Grown :
      (min_bytes : ℕ) (h : Heap M)
      → IsValid h
      → Grown h (grow ops min_bytes h).0 (grow ops min_bytes h).1
  unfolding grow grown
  grow-Grown min_bytes h v = elim (Bool-cases (is_empty h.blocks || leb h.limit h.end)) [
    | inl stop ↦ rw stop (unchanged h h.mem v)
    | inr go ↦ rw go (elim (Bool-cases (grow_pages ops min_bytes h == 0)) [
      | inl none_left ↦ rw none_left (unchanged h h.mem v)
      | inr more ↦
          rw more (elim (Bool-cases (map_region ops h.end (grow_pages ops min_bytes h) h.mem).0) [
            | inr failed ↦ rw failed (unchanged h _ v)
            | inl mapped ↦ rw mapped (longer (ground arith) (ground arith))
          ])
    ])
  ]
    where
      pages : ℕ
      pages = grow_pages ops min_bytes h

      added : ℕ
      added = u32 (pages * page)

      longer :
          is_empty h.blocks ≡ false
          → pages ≢ 0
          → Grown h added (grown added (map_region ops h.end pages h.mem).1 h)
      longer full more = record {
        valid = valid.0;
        same = valid.1;
        longer = omega (arith, exact, room, v.top);
        start = refl;
        limit = refl;
      }
        where
          room : h.end + pages * page ≤ h.limit
          room = grow_pages-room min_bytes h v.cap

          exact : added ≡ pages * page
          exact = omega (arith, room, v.narrow, Tiled-le h.blocks h.start h.end v.tiled)

          valid :
              IsValid (grown added (map_region ops h.end pages h.mem).1 h)
              × ((q : ℕ) → live (stitch h.end added h.blocks) q ≡ live h.blocks q)
          valid =
              grown-IsValid added _ h v full (omega (arith, exact, more)) (omega (arith, exact))
                (omega (arith, exact, room))
