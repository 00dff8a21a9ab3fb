-- ===== src/Pmm/Free.antt =====
-- `pmm_free` of src/pmm.c, on each of its branches.
use computer_os.Prelude.{
  ℕ, ◌+◌, ◌/◌, ◌<◌, ◌≤◌, ◌≡◌, refl, Bool, true, false, ◌&&◌, arith, if◌then◌else◌, ◌==◌, ltb,
  Bool-cases, inl, inr, u64,
}
use computer_os.Pmm.{Pmm, bit_test, bit_clear, page_size, free}
use computer_os.Pmm.Bitmap.{test-bit_clear}
use computer_os.Pmm.Inv.{used, IsValid, clear-IsCounted, free_pages-le, page-Within}

-- The page behind an address that `pmm_free` gives back: inside the managed range and in use.
abbrev pub frees : Pmm → ℕ → Bool
frees p phys = ltb (phys / page_size) p.total_pages && used p (phys / page_size)

pub record Freed (p : Pmm) (phys : ℕ) (q : Pmm) : Type 0 where
  pub valid : IsValid q
  pub marks :
      (j : ℕ) → used q j ≡ (if frees p phys && (phys / page_size == j) then false else used p j)
  pub counter : q.free_pages ≡ p.free_pages + (if frees p phys then 1 else 0)
  pub total : q.total_pages ≡ p.total_pages
  pub found_next : q.next_scan ≤ p.next_scan

-- The state after a page is given back.
cleared : Pmm → ℕ → Pmm
cleared p phys = record p {
  bitmap = bit_clear p.bitmap (phys / page_size);
  free_pages = u64 (p.free_pages + 1);
  next_scan = if ltb (phys / page_size) p.next_scan then phys / page_size else p.next_scan;
}

free-some : (p : Pmm) (phys : ℕ) → frees p phys ≡ true → free phys p ≡ cleared p phys
unfolding free cleared
free-some p phys h = ground arith

free-none : (p : Pmm) (phys : ℕ) → frees p phys ≡ false → free phys p ≡ p
unfolding free
free-none p phys h = ground arith

cleared-Freed :
    {p : Pmm} (phys : ℕ)
    → IsValid p
    → page_size ≤ phys
    → frees p phys ≡ true
    → Freed p phys (cleared p phys)
unfolding cleared
cleared-Freed {p} phys v pos hit = record {
  valid = record {
    counted = clear-IsCounted p (phys / page_size) _ _ v.counted inside (ground arith) more;
    scan_in = ground (arith, v.scan_in);
    zero_used = ground (arith, marks 0, v.zero_used);
  };
  marks = λ j. ground (arith, marks j);
  counter = ground (arith, more);
  total = refl;
  found_next = ground arith;
}
  where
    inside : phys / page_size < p.total_pages
    inside = ground arith

    marks :
        (j : ℕ)
        → bit_test (bit_clear p.bitmap (phys / page_size)) j
          ≡ (if phys / page_size == j then false else used p j)
    marks =
        test-bit_clear p.bitmap (phys / page_size) v.counted.bytes
          (page-Within v.counted (phys / page_size) inside)

    more : u64 (p.free_pages + 1) ≡ p.free_pages + 1
    more = omega (arith, free_pages-le v.counted, v.counted.small)

-- In a valid state and for an address behind page 0, `pmm_free` gives back exactly the page of the
-- address, counts it, and lets the next scan start no later, if the page is managed and in use;
-- else no page changes.
pub free-Freed : {p : Pmm} (phys : ℕ) → IsValid p → page_size ≤ phys → Freed p phys (free phys p)
free-Freed {p} phys v pos = elim (Bool-cases (frees p phys)) [
  | inl hit ↦ rw (free-some p phys hit) (cleared-Freed phys v pos hit)
  | inr miss ↦ rw (free-none p phys miss) (record {
    valid = v;
    marks = λ j. rw miss;
    counter = rw miss (omega arith);
    total = refl;
    found_next = omega arith;
  })
]
