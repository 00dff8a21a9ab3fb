-- ===== src/Pmm/Boot.antt =====
-- `pmm_init` of src/pmm.c as a whole: the state in which the system starts to allocate.
use computer_os.Prelude.{
  ℕ, ◌+◌, ◌-◌, ◌*◌, ◌/◌, ◌<◌, ◌≤◌, ◌^◌, ◌≡◌, ◌≢◌, ◌↔◌, ◌⊎◌, inl, inr, refl, ◌∙◌, sym, Bool, true,
  false, Option, none, some, List, arith, u64, min, subst, some_inj, eq_false,
}
use mathlib.Core.Bool.{false≢true}
use computer_os.Pmm.{
  Pmm, Entry, usable, bootloader_reclaim, addr_cap, page_size, mark_used, find_region, free_regions,
  total_of, bitmap_bytes, init,
}
use computer_os.Pmm.Inv.{used, IsCounted, IsValid}
use computer_os.Pmm.Loops.{Marked, in_range, use_pages-Marked}
use computer_os.Pmm.Init.{
  Covered, AllSane, Touches, Freeing, free_regions-Freeing, blank, blank-IsCounted, blank-used,
  find_region-some, highest-le,
}

-- The pages that `mark_used` marks are those that share a byte with the range.
touched : ℕ → ℕ → ℕ → ℕ → Bool
touched base size total j =
    in_range (base / page_size)
      (min (u64 (base + size + page_size - 1) / page_size) total - base / page_size) j

touched_iff :
    (base size total j : ℕ)
    → base + size + page_size < 2 ^ 64
    → 0 < size
    → j < total
    → (touched base size total j ≡ true) ↔ Touches base size j
unfolding touched
touched_iff base size total j fits pos inside = (λ h. ground arith, λ h. ground arith)

mark_used-Marked :
    (base size : ℕ) (p : Pmm)
    → IsCounted p
    → base / page_size ≤ p.total_pages
    → Marked p (touched base size p.total_pages) true (mark_used base size p)
unfolding mark_used touched
mark_used-Marked base size p c start = use_pages-Marked _ _ p c (omega arith)

-- The total and the region that `pmm_init` computes are within bounds.
total_of-bounds :
    (es : List Entry) (phys : ℕ)
    → find_region (bitmap_bytes (total_of es)) es ≡ some phys
    → (0 < total_of es)
      × (total_of es * page_size ≤ addr_cap)
      × (phys / page_size ≤ total_of es)
      × (phys < addr_cap)
unfolding total_of
total_of-bounds es phys h = ground (
  arith,
  find_region-some (bitmap_bytes (total_of es)) es 0 phys h,
  highest-le es 0 (omega arith),
)

-- The state that `pmm_init` leaves behind.
pub record Booted (hhdm : ℕ) (es : List Entry) (q : Pmm) : Type 0 where
  pub valid : IsValid q
  pub total : q.total_pages ≡ total_of es
  -- The bitmap lies at `phys`, and is reached through the direct map.
  pub phys : ℕ
  pub hosted : find_region (bitmap_bytes q.total_pages) es ≡ some phys
  pub pointer : q.bitmap_ptr ≡ u64 (phys + hhdm)
  -- A page is free exactly if it lies in a region that may be used, outside the bitmap and page 0.
  pub pages :
      (j : ℕ)
      → j < q.total_pages
      → (used q j ≡ false) ↔ (
          (Covered usable es j ⊎ Covered bootloader_reclaim es j)
          × ¬ Touches phys (bitmap_bytes q.total_pages) j
          × (j ≢ 0))

module _ (hhdm : ℕ) (es : List Entry) (p : Pmm) (phys : ℕ) (sane : AllSane es)
    (scan : p.next_scan ≡ 0) (found : find_region (bitmap_bytes (total_of es)) es ≡ some phys) where
  bounds :
      (0 < total_of es)
      × (total_of es * page_size ≤ addr_cap)
      × (phys / page_size ≤ total_of es)
      × (phys < addr_cap)
  bounds = total_of-bounds es phys found

  abbrev start : Pmm
  start = blank p (total_of es) hhdm (u64 (phys + hhdm)) (omega (arith, bounds))

  start-IsCounted : IsCounted start
  start-IsCounted = blank-IsCounted p (total_of es) hhdm (u64 (phys + hhdm)) (omega (arith, bounds))

  abbrev freed : Pmm
  freed = free_regions bootloader_reclaim es (free_regions usable es start)

  usable-Freeing : Freeing usable es start (free_regions usable es start)
  usable-Freeing = free_regions-Freeing usable es start start-IsCounted sane bounds.1

  reclaim-Freeing : Freeing bootloader_reclaim es (free_regions usable es start) freed
  reclaim-Freeing =
      free_regions-Freeing bootloader_reclaim es (free_regions usable es start)
        usable-Freeing.counted sane (omega (arith, usable-Freeing.total, bounds))

  abbrev bytes : ℕ
  bytes = bitmap_bytes (total_of es)

  freed-total : freed.total_pages ≡ total_of es
  freed-total = reclaim-Freeing.total ∙ usable-Freeing.total

  bitmap-Marked :
      Marked freed (touched phys bytes freed.total_pages) true (mark_used phys bytes freed)
  bitmap-Marked =
      mark_used-Marked phys bytes freed reclaim-Freeing.counted (omega (arith, bounds, freed-total))

  abbrev final : Pmm
  final = mark_used 0 page_size (mark_used phys bytes freed)

  final-Marked :
      Marked
        (mark_used phys bytes freed)
        (touched 0 page_size (mark_used phys bytes freed).total_pages)
        true
        final
  final-Marked =
      mark_used-Marked 0 page_size (mark_used phys bytes freed) bitmap-Marked.counted (omega arith)

  final-total : final.total_pages ≡ total_of es
  final-total = final-Marked.total ∙ bitmap-Marked.total ∙ freed-total

  in_bitmap_iff :
      (j : ℕ)
      → j < total_of es
      → (touched phys bytes freed.total_pages j ≡ true) ↔ Touches phys bytes j
  unfolding bitmap_bytes
  in_bitmap_iff j h =
      touched_iff phys bytes freed.total_pages j (omega (arith, bounds)) (omega (arith, bounds))
        (omega (arith, freed-total))

  at_zero_iff :
      (j : ℕ)
      → j < total_of es
      → (touched 0 page_size (mark_used phys bytes freed).total_pages j ≡ true) ↔ (j ≡ 0)
  at_zero_iff j h =
      let test =
        touched_iff 0 page_size (mark_used phys bytes freed).total_pages j (omega arith)
          (omega arith) (omega (arith, bitmap-Marked.total, freed-total)) in
      (λ t. omega (arith, test.0 t), λ z. test.1 (omega arith))

  -- The two reservations at the end take away their pages and no other.
  reserve_iff :
      (j : ℕ)
      → j < total_of es
      → (used final j ≡ false) ↔ ((used freed j ≡ false) × ¬ Touches phys bytes j × (j ≢ 0))
  reserve_iff j h = (
    λ free. (
      ground (arith, bitmap-Marked.marks j, final-Marked.marks j),
      λ t.
          let hit = (in_bitmap_iff j h).1 t in
          ground (arith, bitmap-Marked.marks j, final-Marked.marks j),
      λ z. let hit = (at_zero_iff j h).1 z in ground (arith, final-Marked.marks j),
    ),
    λ (free, off, ne).
        let misses = eq_false _ (λ t. off ((in_bitmap_iff j h).0 t)) in
        let nonzero = eq_false _ (λ t. ne ((at_zero_iff j h).0 t)) in
        ground (arith, bitmap-Marked.marks j, final-Marked.marks j),
  )

  -- The two passes free the pages of the regions and no other.
  source_iff :
      (j : ℕ)
      → j < total_of es
      → (used freed j ≡ false) ↔ (Covered usable es j ⊎ Covered bootloader_reclaim es j)
  source_iff j h =
      let second = reclaim-Freeing.pages j (omega (arith, usable-Freeing.total)) in
      let first = usable-Freeing.pages j h in
      (
        λ free. elim (second.0 free) [
          | inl a ↦ elim (first.0 a) [
            | inl b ↦ absurd (
                false≢true (
                  sym b
                  ∙ (blank-used p (total_of es) hhdm (u64 (phys + hhdm)) (omega (arith, bounds)) j
                      h)))
            | inr b ↦ inl b
          ]
          | inr a ↦ inr a
        ],
        λ source. elim source [
          | inl a ↦ second.1 (inl (first.1 (inr a)))
          | inr a ↦ second.1 (inr a)
        ],
      )

  final-Booted : Booted hhdm es final
  final-Booted = record {
    valid = record {
      counted = final-Marked.counted;
      scan_in = omega (
        arith, final-Marked.scan, bitmap-Marked.scan, reclaim-Freeing.scan, usable-Freeing.scan,
        scan,
      );
      zero_used = let hit = (at_zero_iff 0 bounds.0).1 refl in ground (arith, final-Marked.marks 0);
    };
    total = final-total;
    phys = phys;
    hosted = rw final-total found;
    pointer =
        final-Marked.pointer ∙ bitmap-Marked.pointer ∙ reclaim-Freeing.pointer
        ∙ usable-Freeing.pointer;
    pages = λ j h.
        let lt : j < total_of es = omega (arith, final-total) in
        let reserve = reserve_iff j lt in
        let source = source_iff j lt in
        rw final-total (
          λ free. (source.0 (reserve.0 free).0, (reserve.0 free).1, (reserve.0 free).2),
          λ (from, off, ne). reserve.1 (source.1 from, off, ne),
        );
  }

-- What `init` returns, as the section above names it.
init-some :
    (hhdm : ℕ) (es : List Entry) (p q : Pmm) (r : Option ℕ)
    → find_region (bitmap_bytes (total_of es)) es ≡ r
    → AllSane es
    → p.next_scan ≡ 0
    → init hhdm es p ≡ some q
    → Booted hhdm es q
unfolding init
init-some hhdm es p q none found sane scan h = cc (rw (found, init) at h)
init-some hhdm es p q (some phys) found sane scan h =
    subst (Booted hhdm es) (some_inj (rw (found, init) at h))
      (final-Booted hhdm es p phys sane scan found)

-- Over regions that end more than a page below the top of the address space, and with the scan
-- position at 0, a `pmm_init` that does not halt leaves the allocator valid, its bitmap in the
-- first region that fits it, and exactly the pages free that are covered by usable or reclaimable
-- regions and hold neither a part of the bitmap nor address 0.
pub init-Booted :
    (hhdm : ℕ) (es : List Entry) (p : Pmm) {q : Pmm}
    → AllSane es
    → p.next_scan ≡ 0
    → init hhdm es p ≡ some q
    → Booted hhdm es q
init-Booted hhdm es p {q} sane scan h =
    init-some hhdm es p q (find_region (bitmap_bytes (total_of es)) es) refl sane scan h
