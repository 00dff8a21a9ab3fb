-- ===== src/Pmm/Inv.antt =====
-- The representation invariant of the page allocator of src/pmm.c.
use computer_os.Prelude.{ℕ, ◌+◌, ◌*◌, ◌<◌, ◌≤◌, ◌^◌, ◌≡◌, Bool, true, false, arith, length}
use computer_os.Pmm.{Pmm, bit_test, bit_set, bit_clear}
use computer_os.Pmm.Bitmap.{
  AllBytes, Within, test-bit_set, test-bit_clear, bit_set-AllBytes, bit_clear-AllBytes,
  length-bit_set, length-bit_clear,
}
use computer_os.Pmm.Count.{free_below, clear_count-flip, clear_count_le}

-- Whether the bitmap says that page `i` is used.
abbrev pub used : Pmm → ℕ → Bool
used p i = bit_test p.bitmap i

-- What holds of the bitmap and the counter at every point, the initialisation included.
pub record IsCounted (p : Pmm) : Type 0 where
  pub bytes : AllBytes p.bitmap
  pub room : p.total_pages ≤ 8 * length p.bitmap
  pub small : p.total_pages < 2 ^ 52
  pub count : p.free_pages ≡ free_below p.bitmap p.total_pages

-- What holds between the calls of a running system. Page 0 is never handed out: its address means
-- "out of memory".
pub record IsValid (p : Pmm) : Type 0 where
  pub counted : IsCounted p
  pub scan_in : p.next_scan ≤ p.total_pages
  pub zero_used : used p 0 ≡ true

-- Setting the bit of a free page, with the counter one lower.
pub set-IsCounted :
    (p : Pmm) (i scan n : ℕ)
    → IsCounted p
    → i < p.total_pages
    → used p i ≡ false
    → n + 1 ≡ p.free_pages
    → IsCounted (record p { bitmap = bit_set p.bitmap i; free_pages = n; next_scan = scan })
set-IsCounted p i scan n c inside clear e = record {
  bytes = bit_set-AllBytes p.bitmap i c.bytes (omega arith);
  room = omega (arith, c.room, length-bit_set p.bitmap i);
  small = c.small;
  count = omega (
    arith,
    c.count,
    clear_count-flip (used p) (bit_test (bit_set p.bitmap i)) i
        (λ j ne. ground (arith, test-bit_set p.bitmap i c.bytes (omega arith) j)) p.total_pages
        inside clear (ground (arith, test-bit_set p.bitmap i c.bytes (omega arith) i)),
  );
}

-- Clearing the bit of a used page, with the counter one higher.
pub clear-IsCounted :
    (p : Pmm) (i scan n : ℕ)
    → IsCounted p
    → i < p.total_pages
    → used p i ≡ true
    → n ≡ p.free_pages + 1
    → IsCounted (record p { bitmap = bit_clear p.bitmap i; free_pages = n; next_scan = scan })
clear-IsCounted p i scan n c inside set e = record {
  bytes = bit_clear-AllBytes p.bitmap i c.bytes (omega arith);
  room = omega (arith, c.room, length-bit_clear p.bitmap i);
  small = c.small;
  count = omega (
    arith,
    c.count,
    clear_count-flip (bit_test (bit_clear p.bitmap i)) (used p) i
        (λ j ne. ground (arith, test-bit_clear p.bitmap i c.bytes (omega arith) j)) p.total_pages
        inside (ground (arith, test-bit_clear p.bitmap i c.bytes (omega arith) i)) set,
  );
}

-- The counter stays far from the range of `uint64_t`.
pub free_pages-le : {p : Pmm} → IsCounted p → p.free_pages ≤ p.total_pages
free_pages-le {p} c = omega (arith, c.count, clear_count_le (used p) p.total_pages)

-- Page `i` has its bit inside the bitmap.
pub page-Within : {p : Pmm} → IsCounted p → (i : ℕ) → i < p.total_pages → Within p.bitmap i
page-Within c i h = omega (arith, c.room)
