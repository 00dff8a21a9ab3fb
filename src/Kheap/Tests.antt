-- ===== src/Kheap/Tests.antt =====
-- Runs of the kernel heap of src/kheap.c, and the theorems at concrete heaps.
use computer_os.Prelude.{
  ℕ, ◌+◌, ◌*◌, ◌≡◌, refl, true, false, List, [], ◌∷◌, arith, some, none, if◌then◌else◌, ◌==◌,
}
use computer_os.Kheap.{
  Pages, Block, Heap, page, align8, map_region, map_pages, rollback, stitch, take_block, find_fit,
  merge_next, release, merge_prev, grow_pages, grow, retry, kmalloc, kfree,
}
use computer_os.Kheap.Tiling.{IsValid}
use computer_os.Kheap.Live.{live}
use computer_os.Kheap.Owners.{Disjoint, start, allocate, Reach-Disjoint}
use computer_os.Kheap.Fit.{NoFit}
use computer_os.Kheap.Malloc.{Allocated, kmalloc-Allocated}
use computer_os.Kheap.Served.{Stuck, kmalloc-zero}
use computer_os.Kheap.Release.{Freed, kfree-Freed}
use computer_os.Kheap.Init.{Layout}

-- A machine whose pages never run out: the state counts the pages handed out.
abbrev plenty : Pages ℕ
plenty = record {
  alloc = λ m. ((m + 1) * page, m + 1);
  free = λ a m. m;
  map = λ v a m. (true, m);
  unmap = λ v m. m;
  resolve = λ v m. 0;
}

-- A heap of one page at 0x10000 that may grow to 32 pages, with 100 bytes allocated.
abbrev used_block : Block
used_block = record { addr = 0x10000; size = 104; used = true }

abbrev free_block : Block
free_block = record { addr = 0x10078; size = 3960; used = false }

abbrev one_page : Heap ℕ
one_page = record {
  blocks = used_block ∷ free_block ∷ [];
  start = 0x10000;
  end = 0x11000;
  limit = 0x30000;
  mem = 1;
}

one_page-IsValid : IsValid one_page
one_page-IsValid = record {
  tiled = (refl, refl, (refl, refl, refl));
  apart = (refl, (refl, tt));
  cap = omega arith;
  narrow = omega arith;
  top = omega arith;
  aligned = refl;
  nonzero = omega arith;
}

-- Everything is free again.
abbrev all_free : List Block
all_free = record { addr = 0x10000; size = 4080; used = false } ∷ []

free_run : (kfree 0x10010 one_page).blocks ≡ all_free
unfolding kfree release merge_next merge_prev
free_run = refl

malloc_run : kmalloc plenty 100 (record one_page { blocks = all_free }) ≡ (0x10010, one_page)
unfolding kmalloc align8 find_fit take_block
malloc_run = refl

-- A request that does not fit makes the heap grow by 16 pages.
grow_run : (kmalloc plenty 5000 one_page).0 ≡ 0x10088
unfolding kmalloc align8 find_fit take_block retry grow grow_pages map_region map_pages stitch
grow_run = refl

-- A size at the top of `unsigned int` wraps to 0 when it is rounded up, and is served.
wrap_run : (kmalloc plenty 0xfffffffa one_page).0 ≡ 0x10088
unfolding kmalloc align8 find_fit take_block
wrap_run = refl

kmalloc-Allocated_example : Allocated 5000 one_page (kmalloc plenty 5000 one_page)
kmalloc-Allocated_example = kmalloc-Allocated plenty 5000 one_page (omega arith) one_page-IsValid

kfree-Freed_example :
    IsValid (kfree 0x10010 one_page) × Freed 0x10010 one_page.blocks (kfree 0x10010 one_page).blocks
unfolding live
kfree-Freed_example = kfree-Freed one_page 0x10010 104 one_page-IsValid refl

-- Two allocations in a row: 100 bytes, then 200.
abbrev empty_page : Heap ℕ
empty_page = record one_page { blocks = all_free }

abbrev empty_page-IsValid : IsValid empty_page
empty_page-IsValid = record {
  tiled = (refl, refl, refl);
  apart = (refl, tt);
  cap = omega arith;
  narrow = omega arith;
  top = omega arith;
  aligned = refl;
  nonzero = omega arith;
}

abbrev after_first : Heap ℕ
after_first = (kmalloc plenty 100 empty_page).1

abbrev after_second : Heap ℕ
after_second = (kmalloc plenty 200 after_first).1

Reach-Disjoint_example : IsValid after_second × Disjoint 0x10010 100 0x10088 200
unfolding kmalloc align8 find_fit take_block
Reach-Disjoint_example =
    Reach-Disjoint plenty empty_page after_second
      (λ q. if 0x10088 == q then some 200 else (if 0x10010 == q then some 100 else none)) 0x10010
      0x10088 100 200 empty_page-IsValid
      (allocate 200 (omega arith) (λ e. omega (arith, e))
        (allocate 100 (omega arith) (λ e. omega (arith, e)) start))
      refl refl (λ e. omega (arith, e))

-- Nothing is left: no page can be had.
abbrev empty : Pages ℕ
empty = record plenty { alloc = λ m. (0, m) }

kmalloc-zero_example :
    NoFit (align8 5000) one_page.blocks × Stuck empty 5000 one_page (omega arith) one_page-IsValid
unfolding kmalloc align8 find_fit take_block retry grow grow_pages map_region map_pages rollback
    stitch
kmalloc-zero_example =
    kmalloc-zero empty 5000 one_page (omega arith) one_page-IsValid (λ e. omega (arith, e)) refl
      refl

abbrev before : Heap ℕ
before = record { blocks = []; start = 0; end = 0; limit = 0; mem = 0 }

abbrev layout : Layout 0x10000 1 32
layout = record {
  nonzero = omega arith;
  aligned = refl;
  some_pages = omega arith;
  narrow = omega arith;
  top = omega arith;
}
