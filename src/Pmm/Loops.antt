-- ===== src/Pmm/Loops.antt =====
-- The loops of src/pmm.c that mark a range of pages as used or as free.
use computer_os.Prelude.{
  ℕ, zero, suc, ◌+◌, ◌<◌, ◌≤◌, ◌≡◌, refl, ◌∙◌, Bool, true, false, ◌&&◌, arith, if◌then◌else◌, ◌==◌,
  ltb, leb, Bool-cases, inl, inr,
}
use computer_os.Pmm.{Pmm, use_page, use_pages, mark_free_page, free_pages_from}
use computer_os.Pmm.Bitmap.{test-bit_set, test-bit_clear}
use computer_os.Pmm.Inv.{
  used, IsCounted, set-IsCounted, clear-IsCounted, free_pages-le, page-Within,
}
use computer_os.Pmm.Alloc.{counter_pos}

abbrev pub in_range : ℕ → ℕ → ℕ → Bool
in_range i n j = leb i j && ltb j (i + n)

-- Part of a run: the counter fits, and exactly the pages that `change` names have become `b`.
pub record Marked (p : Pmm) (change : ℕ → Bool) (b : Bool) (q : Pmm) : Type 0 where
  pub counted : IsCounted q
  pub total : q.total_pages ≡ p.total_pages
  pub scan : q.next_scan ≡ p.next_scan
  pub pointer : q.bitmap_ptr ≡ p.bitmap_ptr
  pub marks : (j : ℕ) → used q j ≡ (if change j then b else used p j)

use_page-Marked :
    {p : Pmm} (i : ℕ) → IsCounted p → i < p.total_pages → Marked p (λ j. i == j) true (use_page i p)
unfolding use_page
use_page-Marked {p} i c inside = elim (Bool-cases (used p i)) [
  | inl set ↦
      rw set (record {
        counted = c;
        total = refl;
        scan = refl;
        pointer = refl;
        marks = λ j. ground arith;
      })
  | inr clear ↦ rw clear (record {
    counted =
        set-IsCounted p i p.next_scan _ c inside clear
          (ground (arith, counter_pos i c inside clear));
    total = refl;
    scan = refl;
    pointer = refl;
    marks = λ j. ground (arith, test-bit_set p.bitmap i c.bytes (page-Within c i inside) j);
  })
]

-- In a state whose bitmap has room and whose counter agrees with it, the loop of `mark_used` over
-- `n` managed pages from `i` on makes exactly these used, and the counter agrees with the bitmap
-- again.
pub use_pages-Marked :
    (n i : ℕ) (p : Pmm)
    → IsCounted p
    → i + n ≤ p.total_pages
    → Marked p (in_range i n) true (use_pages n i p)
unfolding use_pages
use_pages-Marked zero i p c h = record {
  counted = c;
  total = refl;
  scan = refl;
  pointer = refl;
  marks = λ j. ground arith;
}
use_pages-Marked (suc n) i p c h =
    let first = use_page-Marked i c (omega arith) in
    let rest =
      use_pages-Marked n (i + 1) (use_page i p) first.counted (omega (arith, first.total)) in
    record {
      counted = rest.counted;
      total = rest.total ∙ first.total;
      scan = rest.scan ∙ first.scan;
      pointer = rest.pointer ∙ first.pointer;
      marks = λ j. ground (arith, rest.marks j, first.marks j);
    }

mark_free_page-Marked :
    {p : Pmm} (i : ℕ)
    → IsCounted p
    → Marked p (λ j. (i == j) && ltb j p.total_pages) false (mark_free_page i p)
unfolding mark_free_page
mark_free_page-Marked {p} i c = elim (Bool-cases (leb p.total_pages i)) [
  | inl out ↦
      rw out (record {
        counted = c;
        total = refl;
        scan = refl;
        pointer = refl;
        marks = λ j. ground arith;
      })
  | inr inside ↦ rw inside (elim (Bool-cases (used p i)) [
    | inl set ↦ rw set (record {
      counted =
          clear-IsCounted p i p.next_scan _ c (ground arith) set
            (omega (arith, free_pages-le c, c.small));
      total = refl;
      scan = refl;
      pointer = refl;
      marks =
          λ j. ground (arith, test-bit_clear p.bitmap i c.bytes (page-Within c i (ground arith)) j);
    })
    | inr clear ↦ rw clear (record {
      counted = c;
      total = refl;
      scan = refl;
      pointer = refl;
      marks = λ j. ground arith;
    })
  ])
]

-- The loops of passes 3 and 4: the managed ones of the `n` pages from `i` on become free.
pub free_pages_from-Marked :
    (n i : ℕ) (p : Pmm)
    → IsCounted p
    → Marked p (λ j. in_range i n j && ltb j p.total_pages) false (free_pages_from n i p)
unfolding free_pages_from
free_pages_from-Marked zero i p c = record {
  counted = c;
  total = refl;
  scan = refl;
  pointer = refl;
  marks = λ j. ground arith;
}
free_pages_from-Marked (suc n) i p c =
    let first = mark_free_page-Marked i c in
    let rest = free_pages_from-Marked n (i + 1) (mark_free_page i p) first.counted in
    record {
      counted = rest.counted;
      total = rest.total ∙ first.total;
      scan = rest.scan ∙ first.scan;
      pointer = rest.pointer ∙ first.pointer;
      marks = λ j. ground (arith, rest.marks j, first.marks j, first.total);
    }
