-- ===== src/Pmm/Alloc.antt =====
-- `pmm_alloc` of src/pmm.c: the two scans, and what an allocation does to the bitmap.
use computer_os.Prelude.{
  ℕ, zero, suc, ◌+◌, ◌-◌, ◌*◌, ◌^◌, ◌<◌, ◌≤◌, ◌≡◌, ◌≢◌, refl, true, false, Option, none, some, List,
  arith, if◌then◌else◌, ◌==◌, sym, ◌∙◌, u64,
}
use mathlib.Core.Bool.{false≢true}
use native.Mathlib.Decide.{ℕ_discrete, dec_lt}
use computer_os.Pmm.{Pmm, bit_test, bit_set, page_size, scan, take_page, alloc}
use computer_os.Pmm.Bitmap.{test-bit_set}
use computer_os.Pmm.Count.{clear_count-eq-zero, clear_count_pos}
use computer_os.Pmm.Inv.{used, IsCounted, IsValid, set-IsCounted, free_pages-le, page-Within}

-- A scan that finds a page finds a free one of its range.
scan-some :
    (bm : List ℕ) (n i k : ℕ)
    → scan bm n i ≡ some k
    → (i ≤ k) × (k < i + n) × (bit_test bm k ≡ false)
unfolding scan
scan-some bm zero i k e = cc
scan-some bm (suc n) i k e = ground (arith, scan-some bm n (i + 1) k)

-- A scan that finds none has seen every page of its range in use.
scan-none :
    (bm : List ℕ) (n i : ℕ)
    → scan bm n i ≡ none
    → (k : ℕ) → i ≤ k
    → k < i + n
    → bit_test bm k ≡ true
unfolding scan
scan-none bm zero i e k lo hi = absurd (omega arith)
scan-none bm (suc n) i e k lo hi = elim (ℕ_discrete i k) [
  | yes same ↦ ground arith
  | no ne ↦ ground (
    arith,
    λ (f : scan bm n (i + 1) ≡ none) (lo' : i + 1 ≤ k) (hi' : k < i + 1 + n).
        scan-none bm n (i + 1) f k lo' hi',
  )
]

-- Page `a / page_size` was free and now is not, and no other page has changed.
pub record Granted (p : Pmm) (a : ℕ) (q : Pmm) : Type 0 where
  pub page : ℕ
  pub address : a ≡ page * page_size
  pub nonzero : 0 < page
  pub inside : page < p.total_pages
  pub was_free : used p page ≡ false
  pub marks : (j : ℕ) → used q j ≡ (if page == j then true else used p j)
  pub counter : q.free_pages + 1 ≡ p.free_pages
  pub total : q.total_pages ≡ p.total_pages
  pub valid : IsValid q

-- What the caller of `pmm_alloc` may rely on.
pub data Allocated (p : Pmm) : ℕ × Pmm → Type 0 where
  -- No page is free; nothing has changed.
  exhausted :
      ((i : ℕ) → i < p.total_pages → used p i ≡ true) → p.free_pages ≡ 0 → Allocated p (0, p)
  granted : {a : ℕ} {q : Pmm} → Granted p a q → Allocated p (a, q)

-- A result other than 0 is a grant.
pub Granted-of_ne_zero : {p : Pmm} {r : ℕ × Pmm} → Allocated p r → r.0 ≢ 0 → Granted p r.0 r.1
Granted-of_ne_zero (exhausted full none_left) ne = absurd (ne refl)
Granted-of_ne_zero (granted g) ne = g

-- The result 0 leaves the allocator as it was.
pub unchanged_of_zero : {p : Pmm} {r : ℕ × Pmm} → Allocated p r → r.0 ≡ 0 → r.1 ≡ p
unchanged_of_zero (exhausted full none_left) z = refl
unchanged_of_zero (granted g) z = absurd (omega (arith, g.address, g.nonzero))

-- The counter is positive where a page is free, so that `g_free_pages--` does not wrap.
pub counter_pos :
    {p : Pmm} (i : ℕ) → IsCounted p → i < p.total_pages → used p i ≡ false → 0 < p.free_pages
counter_pos {p} i c inside clear =
    omega (arith, c.count, clear_count_pos (used p) p.total_pages i inside clear)

take_page-Allocated :
    {p : Pmm} (i : ℕ)
    → IsValid p
    → 0 < i
    → i < p.total_pages
    → used p i ≡ false
    → Allocated p (take_page i p)
unfolding take_page
take_page-Allocated {p} i v pos inside clear = granted (record {
  page = i;
  address = omega (arith, v.counted.small);
  nonzero = pos;
  inside = inside;
  was_free = clear;
  marks = marks;
  counter = fewer;
  total = refl;
  valid = record {
    counted = set-IsCounted p i (i + 1) _ v.counted inside clear fewer;
    scan_in = omega arith;
    zero_used = ground (arith, marks 0, v.zero_used);
  };
})
  where
    marks : (j : ℕ) → bit_test (bit_set p.bitmap i) j ≡ (if i == j then true else used p j)
    marks = test-bit_set p.bitmap i v.counted.bytes (page-Within v.counted i inside)

    fewer : u64 (p.free_pages + (2 ^ 64 - 1)) + 1 ≡ p.free_pages
    fewer =
        omega
          (arith, counter_pos i v.counted inside clear, free_pages-le v.counted, v.counted.small)

-- A page that the bitmap records as free is not page 0.
page_pos : {p : Pmm} (i : ℕ) → IsValid p → used p i ≡ false → 0 < i
page_pos zero v clear = absurd (false≢true (sym clear ∙ v.zero_used))
page_pos (suc i) v clear = omega arith

module _ {p : Pmm} (v : IsValid p) where
  scans-none :
      scan p.bitmap (p.total_pages - p.next_scan) p.next_scan ≡ none
      → scan p.bitmap (p.next_scan - 1) 1 ≡ none
      → (i : ℕ) → i < p.total_pages
      → used p i ≡ true
  scans-none above below zero inside = v.zero_used
  scans-none above below (suc i) inside = elim (dec_lt (suc i) p.next_scan) [
    | yes lt ↦ scan-none p.bitmap _ _ below (suc i) (omega arith) (omega arith)
    | no ge ↦ scan-none p.bitmap _ _ above (suc i) (omega arith) (omega (arith, v.scan_in))
  ]

-- In a valid state `pmm_alloc` returns 0 and changes nothing when no page is free; else it returns
-- the address of a managed page other than page 0 that was free, marks it and no other, and counts
-- one free page less.
pub alloc-Allocated : {p : Pmm} → IsValid p → Allocated p (alloc p)
unfolding alloc
alloc-Allocated {p} v =
    go (scan p.bitmap (p.total_pages - p.next_scan) p.next_scan) refl
      (scan p.bitmap (p.next_scan - 1) 1) refl
  where
    go :
        (a : Option ℕ)
        → scan p.bitmap (p.total_pages - p.next_scan) p.next_scan ≡ a
        → (b : Option ℕ) → scan p.bitmap (p.next_scan - 1) 1 ≡ b
        → Allocated p (elim a [
          | some i ↦ take_page i p
          | none ↦ elim b [ some i ↦ take_page i p | none ↦ (0, p) ]
        ])
    go (some i) above b below =
        let facts = scan-some p.bitmap _ _ i above in
        take_page-Allocated i v (page_pos i v facts.2) (omega (arith, facts.1, v.scan_in)) facts.2
    go none above (some i) below =
        let facts = scan-some p.bitmap _ _ i below in
        take_page-Allocated i v (page_pos i v facts.2) (omega (arith, facts.1, v.scan_in)) facts.2
    go none above none below =
        let full = scans-none v above below in
        exhausted full (v.counted.count ∙ clear_count-eq-zero (used p) p.total_pages full)
