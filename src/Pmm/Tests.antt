-- ===== src/Pmm/Tests.antt =====
-- Runs of the page allocator of src/pmm.c, and the theorems at concrete states.
use computer_os.Prelude.{◌≡◌, refl, some, List, [], ◌∷◌, arith, get_or-le, replicate, ◌++◌}
use computer_os.Pmm.{
  Pmm, Entry, usable, bit_test, bit_set, bit_clear, alloc, free, init, byte_test, byte_set,
  byte_clear, scan, take_page, use_pages, mark_used, free_regions, free_region, free_pages_from,
  mark_free_page, region_len, region_start, region_end, total_of, bitmap_bytes, find_region,
  hosts_bitmap, bitmap_base, highest, capped_end, use_page,
}
use computer_os.Pmm.Count.{clear_count}
use computer_os.Pmm.Inv.{IsCounted, IsValid}
use computer_os.Pmm.Alloc.{Allocated, alloc-Allocated}
use computer_os.Pmm.Init.{AllSane}
use computer_os.Pmm.Boot.{Booted, init-Booted}
use computer_os.Pmm.Owners.{System, take, Reach, boot, later, Inv, Reach-Inv}

-- 16 pages, of which 3, 4 and 12 are free.
abbrev small : Pmm
small = record {
  hhdm_offset = 0;
  bitmap_ptr = 0;
  bitmap = 0xe7 ∷ 0xef ∷ [];
  total_pages = 16;
  free_pages = 3;
  next_scan = 4;
}

small-IsCounted : IsCounted small
unfolding bit_test byte_test clear_count
small-IsCounted = record {
  bytes = λ i. omega (arith, get_or-le small.bitmap 255 i refl);
  room = omega arith;
  small = omega arith;
  count = refl;
}

small-IsValid : IsValid small
unfolding bit_test byte_test
small-IsValid = record { counted = small-IsCounted; scan_in = omega arith; zero_used = refl }

-- Page 4 is taken.
abbrev one_taken : Pmm
one_taken = record small { bitmap = 0xf7 ∷ 0xef ∷ []; free_pages = 2; next_scan = 5 }

first_alloc : alloc small ≡ (0x4000, one_taken)
unfolding alloc scan take_page bit_test bit_set byte_test byte_set
first_alloc = refl

given_back : free 0x4000 one_taken ≡ small
unfolding free bit_test bit_clear byte_test byte_clear
given_back = refl

double_free : free 0x4000 (free 0x4000 one_taken) ≡ small
unfolding free bit_test bit_clear byte_test byte_clear
double_free = refl

alloc-Allocated_example : Allocated small (alloc small)
alloc-Allocated_example = alloc-Allocated small-IsValid

after_alloc : System
after_alloc = record { pmm = one_taken; owned = 0x4000 ∷ [] }

one_step : Reach small after_alloc
unfolding after_alloc
one_step = later boot (take 0x4000 one_taken first_alloc (λ e. omega (arith, e)))

Reach-Inv_example : Inv small after_alloc
Reach-Inv_example = Reach-Inv small-IsValid one_step

-- Two megabytes of memory: below 1 MB up to the firmware's hole, and the second megabyte.
abbrev entries : List Entry
entries =
    record { base = 0x1000; size = 0x9e000; kind = usable }
    ∷ record { base = 0x100000; size = 0x8000; kind = usable }
    ∷ []

abbrev unset : Pmm
unset = record {
  hhdm_offset = 0;
  bitmap_ptr = 0;
  bitmap = [];
  total_pages = 0;
  free_pages = 0;
  next_scan = 0;
}

abbrev booted : Pmm
booted = record {
  hhdm_offset = 0xffff800000000000;
  bitmap_ptr = 0xffff800000100000;
  bitmap = (1 ∷ replicate 18 0) ++ (0x80 ∷ replicate 12 0xff) ++ (1 ∷ []);
  total_pages = 264;
  free_pages = 165;
  next_scan = 0;
}

boot_run : init 0xffff800000000000 entries unset ≡ some booted
unfolding init total_of highest capped_end bitmap_bytes find_region hosts_bitmap bitmap_base
    free_regions free_region free_pages_from mark_free_page region_len region_start region_end
    mark_used use_pages use_page bit_test bit_set bit_clear byte_test byte_set byte_clear
boot_run = refl

init-Booted_example : Booted 0xffff800000000000 entries booted
unfolding AllSane
init-Booted_example =
    init-Booted 0xffff800000000000 entries unset (omega arith, (omega arith, tt)) refl boot_run
