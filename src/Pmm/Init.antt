-- ===== src/Pmm/Init.antt =====
-- `pmm_init` of src/pmm.c: which pages are free once the boot memory map has been read.
use computer_os.Prelude.{
  ℕ, ◌+◌, ◌-◌, ◌*◌, ◌/◌, ◌%◌, ◌<◌, ◌≤◌, ◌^◌, ◌≡◌, ◌↔◌, ◌⊎◌, inl, inr, refl, ◌∙◌, sym, Bool, true,
  false, ◌&&◌, ◌||◌, not, some, List, [], ◌∷◌, arith, if◌then◌else◌, ◌==◌, ltb, leb, Bool-cases,
  lt→ltb, replicate, length-replicate, get_or-replicate,
}
use computer_os.Pmm.{
  Pmm, Entry, usable, bootloader_reclaim, addr_cap, page_size, bit_test, byte_test, capped_end,
  highest, bitmap_base, hosts_bitmap, find_region, region_len, region_start, region_end,
  free_region, free_regions, bitmap_bytes,
}
use computer_os.Pmm.Inv.{used, IsCounted}
use computer_os.Prelude.Search.{each_below, each_below_at}
use computer_os.Pmm.Count.{clear_count-eq-zero}
use computer_os.Pmm.Loops.{Marked, in_range, free_pages_from-Marked}

-- Page `j` lies wholly inside the region.
abbrev pub Covers : Entry → ℕ → Type 0
Covers e j = (e.base ≤ j * page_size) × ((j + 1) * page_size ≤ e.base + e.size)

-- Some region of that kind has page `j`.
pub Covered : ℕ → List Entry → ℕ → Type 0
Covered kind [] j = ⊥
Covered kind (e ∷ es) j = ((e.kind ≡ kind) × Covers e j) ⊎ Covered kind es j

-- The firmware's regions end below the top of the address space.
unfoldable pub AllSane : List Entry → Type 0
AllSane [] = Unit
AllSane (e ∷ es) = (e.base + e.size + page_size < 2 ^ 64) × AllSane es

-- A page that shares a byte with `[base, base + size)`.
abbrev pub Touches : ℕ → ℕ → ℕ → Type 0
Touches base size j = (j * page_size < base + size) × (base < (j + 1) * page_size)

capped_end-le : (e : Entry) → capped_end e ≤ addr_cap
unfolding capped_end
capped_end-le e = ground arith

pub highest-le : (es : List Entry) (top : ℕ) → top ≤ addr_cap → highest es top ≤ addr_cap
unfolding highest
highest-le [] top h = h
highest-le (e ∷ es) top h = highest-le es _ (ground (arith, capped_end-le e))

highest-ge : (es : List Entry) (top : ℕ) → top ≤ highest es top
unfolding highest
highest-ge [] top = omega arith
highest-ge (e ∷ es) top = ground (
  arith,
  highest-ge es (
      if not (e.kind == usable) && not (e.kind == bootloader_reclaim)
      then top
      else if ltb top (capped_end e)
      then capped_end e
      else top),
)

hosts_bitmap-facts :
    (bytes : ℕ) (e : Entry)
    → hosts_bitmap bytes e ≡ true
    → (0x100000 ≤ bitmap_base e) × (bitmap_base e < capped_end e) × ((e.kind == usable) ≡ true)
unfolding hosts_bitmap bitmap_base capped_end
hosts_bitmap-facts bytes e h = ground arith

-- The region that `pmm_init` chooses lies above 1 MB and below the highest address.
pub find_region-some :
    (bytes : ℕ) (es : List Entry) (top phys : ℕ)
    → find_region bytes es ≡ some phys
    → (0x100000 ≤ phys) × (phys < highest es top)
unfolding find_region highest
find_region-some bytes [] top phys h = cc
find_region-some bytes (e ∷ es) top phys h = elim (Bool-cases (hosts_bitmap bytes e)) [
  | inl hosts ↦ ground (
    arith,
    hosts_bitmap-facts bytes e hosts,
    highest-ge es (
        if not (e.kind == usable) && not (e.kind == bootloader_reclaim)
        then top
        else if ltb top (capped_end e)
        then capped_end e
        else top),
  )
  | inr hosts ↦ find_region-some bytes es _ phys (rw hosts at h)
]

all_ones : (k : ℕ) → k < 8 → byte_test 255 k ≡ true
unfolding byte_test each_below
all_ones k h = each_below_at 8 (λ k. byte_test 255 k) refl k h

module _ (p : Pmm) (total hhdm ptr : ℕ) (small : total < 2 ^ 52) where
  -- The state after the bitmap has been filled with ones.
  abbrev pub blank : Pmm
  blank = record p {
    hhdm_offset = hhdm;
    bitmap_ptr = ptr;
    bitmap = replicate (bitmap_bytes total) 0xff;
    total_pages = total;
    free_pages = 0;
  }

  pub blank-used : (j : ℕ) → j < total → used blank j ≡ true
  unfolding bit_test bitmap_bytes
  blank-used j h =
      rw (get_or-replicate ((total + 7) / 8) (j / 8) full 0)
        (rw (lt→ltb (j / 8) ((total + 7) / 8) (omega arith)) (all_ones (j % 8) (omega arith)))
    where
      full : ℕ
      full = 255

  pub blank-IsCounted : IsCounted blank
  unfolding bitmap_bytes
  blank-IsCounted = record {
    bytes = λ i. rw (get_or-replicate ((total + 7) / 8) i full 0) (ground arith);
    room = omega (arith, length-replicate ((total + 7) / 8) full);
    small = small;
    count = sym (clear_count-eq-zero (used blank) total blank-used);
  }
    where
      full : ℕ
      full = 255

-- The pages that `free_region` clears.
region_has : ℕ → ℕ → Entry → ℕ → Bool
region_has kind total e j =
    not (not (e.kind == kind) || leb addr_cap e.base)
    && (in_range (region_start e) (region_end total e - region_start e) j && ltb j total)

free_region-Marked :
    (kind : ℕ) (e : Entry) (p : Pmm)
    → IsCounted p
    → Marked p (region_has kind p.total_pages e) false (free_region kind e p)
unfolding free_region region_has
free_region-Marked kind e p c = elim (Bool-cases (not (e.kind == kind) || leb addr_cap e.base)) [
  | inl skip ↦
      rw skip
        (record { counted = c; total = refl; scan = refl; pointer = refl; marks = λ j. rw skip })
  | inr keep ↦
      let run =
        free_pages_from-Marked (region_end p.total_pages e - region_start e) (region_start e) p c in
      rw keep (record {
        counted = run.counted;
        total = run.total;
        scan = run.scan;
        pointer = run.pointer;
        marks = λ j. rw keep (run.marks j);
      })
]

-- They are the whole pages of the region below the cap.
region_has_iff :
    (kind total : ℕ) (e : Entry) (j : ℕ)
    → e.base + e.size + page_size < 2 ^ 64
    → total * page_size ≤ addr_cap
    → j < total
    → (region_has kind total e j ≡ true) ↔ ((e.kind ≡ kind) × Covers e j)
unfolding region_has region_start region_end region_len
region_has_iff kind total e j sane cap inside = (λ h. ground arith, λ h. ground arith)

-- Part of a run of passes 3 and 4: the pages of some region of that kind are free as well.
pub record Freeing (kind : ℕ) (es : List Entry) (p q : Pmm) : Type 0 where
  pub counted : IsCounted q
  pub total : q.total_pages ≡ p.total_pages
  pub scan : q.next_scan ≡ p.next_scan
  pub pointer : q.bitmap_ptr ≡ p.bitmap_ptr
  pub pages :
      (j : ℕ) → j < p.total_pages → (used q j ≡ false) ↔ ((used p j ≡ false) ⊎ Covered kind es j)

pub free_regions-Freeing :
    (kind : ℕ) (es : List Entry) (p : Pmm)
    → IsCounted p
    → AllSane es
    → p.total_pages * page_size ≤ addr_cap
    → Freeing kind es p (free_regions kind es p)
unfolding free_regions AllSane Covered
free_regions-Freeing kind [] p c sane cap = record {
  counted = c;
  total = refl;
  scan = refl;
  pointer = refl;
  pages = λ j h. (inl, λ d. elim d [ inl a ↦ a | inr b ↦ absurd b ]);
}
free_regions-Freeing kind (e ∷ es) p c sane cap =
    let first = free_region-Marked kind e p c in
    let rest =
      free_regions-Freeing kind es (free_region kind e p) first.counted sane.1
        (omega (arith, first.total)) in
    record {
      counted = rest.counted;
      total = rest.total ∙ first.total;
      scan = rest.scan ∙ first.scan;
      pointer = rest.pointer ∙ first.pointer;
      pages = λ j h.
          let has = region_has_iff kind p.total_pages e j sane.0 cap h in
          let later = rest.pages j (omega (arith, first.total)) in
          (
            λ free. forth j has (first.marks j) (later.0 free),
            λ some_way. later.1 (back j has (first.marks j) some_way),
          );
    }
  where
    forth :
        (j : ℕ)
        → (region_has kind p.total_pages e j ≡ true) ↔ ((e.kind ≡ kind) × Covers e j)
        → used (free_region kind e p) j
          ≡ (if region_has kind p.total_pages e j then false else used p j)
        → (used (free_region kind e p) j ≡ false) ⊎ Covered kind es j
        → (used p j ≡ false) ⊎ (((e.kind ≡ kind) × Covers e j) ⊎ Covered kind es j)
    forth j has marks (inr b) = inr (inr b)
    forth j has marks (inl a) = elim (Bool-cases (region_has kind p.total_pages e j)) [
      | inl inside ↦ inr (inl (has.0 inside))
      | inr outside ↦ inl (ground arith)
    ]

    back :
        (j : ℕ)
        → (region_has kind p.total_pages e j ≡ true) ↔ ((e.kind ≡ kind) × Covers e j)
        → used (free_region kind e p) j
          ≡ (if region_has kind p.total_pages e j then false else used p j)
        → (used p j ≡ false) ⊎ (((e.kind ≡ kind) × Covers e j) ⊎ Covered kind es j)
        → (used (free_region kind e p) j ≡ false) ⊎ Covered kind es j
    back j has marks (inr (inr b)) = inr b
    back j has marks (inr (inl a)) = inl (let inside = has.1 a in ground arith)
    back j has marks (inl a) = inl (ground arith)
