-- ===== src/Pmm.antt =====
-- The physical page allocator of src/pmm.c, over the memory map of src/memmap.c.
-- The functions update the record `Pmm` of the file's static variables; `bitmap` is the memory
-- behind the pointer `g_bitmap`, a list of bytes. What a function prints is left out.
pub mod Bitmap
pub mod Count
pub mod Inv
pub mod Alloc
pub mod Free
pub mod Owners
pub mod Loops
pub mod Init
pub mod Boot
mod Tests
use computer_os.Prelude.{
  ℕ, zero, suc, ◌+◌, ◌-◌, ◌*◌, ◌/◌, ◌%◌, Bool, true, false, ◌&&◌, ◌||◌, not, Option, none, some,
  List, [], ◌∷◌, ltb, leb, ◌==◌, if◌then◌else◌, bit_or, bit_and, get_or, set, replicate, ◌<<<◌,
  ◌>>>◌, ◌^◌, u64, min,
}

abbrev pub page_size : ℕ
page_size = 4096

-- `memmap_entry_t`. The field `pad` is always 0.
pub record Entry : Type 0 where
  pub base : ℕ
  pub size : ℕ
  pub kind : ℕ

abbrev pub usable : ℕ
usable = 0

abbrev pub bootloader_reclaim : ℕ
bootloader_reclaim = 5

-- `pmm_init` caps every address at 8 GB.
abbrev pub addr_cap : ℕ
addr_cap = 8 * 1024 * 1024 * 1024

pub record Pmm : Type 0 where
  pub hhdm_offset : ℕ
  pub bitmap_ptr : ℕ
  pub bitmap : List ℕ
  pub total_pages : ℕ
  pub free_pages : ℕ
  pub next_scan : ℕ

-- A byte `b` with bit `k` set, with bit `k` cleared, and the value of bit `k`.
byte_set : ℕ → ℕ → ℕ
byte_set b k = bit_or b (1 <<< k)

byte_clear : ℕ → ℕ → ℕ
byte_clear b k = bit_and b (255 - (1 <<< k))

byte_test : ℕ → ℕ → Bool
byte_test b k = (b >>> k) % 2 == 1

pub bit_set : List ℕ → ℕ → List ℕ
unfolding byte_set
bit_set bm i = set bm (i / 8) (byte_set (get_or bm (i / 8) 0) (i % 8))

pub bit_clear : List ℕ → ℕ → List ℕ
unfolding byte_clear
bit_clear bm i = set bm (i / 8) (byte_clear (get_or bm (i / 8) 0) (i % 8))

pub bit_test : List ℕ → ℕ → Bool
unfolding byte_test
bit_test bm i = byte_test (get_or bm (i / 8) 0) (i % 8)

-- One round of the loop of `mark_used`.
pub use_page : ℕ → Pmm → Pmm
use_page i p = if bit_test p.bitmap i then p else record p {
  bitmap = bit_set p.bitmap i;
  free_pages = if p.free_pages == 0 then 0 else p.free_pages - 1;
}

-- `n` rounds from page `i` on.
pub use_pages : ℕ → ℕ → Pmm → Pmm
use_pages zero i p = p
use_pages (suc n) i p = use_pages n (i + 1) (use_page i p)

pub mark_used : ℕ → ℕ → Pmm → Pmm
mark_used base size p =
    let start = base / page_size in
    let end = u64 (base + size + page_size - 1) / page_size in
    use_pages (min end p.total_pages - start) start p

pub mark_free_page : ℕ → Pmm → Pmm
mark_free_page i p =
    if leb p.total_pages i
    then p
    else if bit_test p.bitmap i
    then record p { bitmap = bit_clear p.bitmap i; free_pages = u64 (p.free_pages + 1) }
    else p

pub free_pages_from : ℕ → ℕ → Pmm → Pmm
free_pages_from zero i p = p
free_pages_from (suc n) i p = free_pages_from n (i + 1) (mark_free_page i p)

-- Pass 1: the highest address of a usable or reclaimable region, at most the cap.
pub capped_end : Entry → ℕ
capped_end e = let end = u64 (e.base + e.size) in if ltb addr_cap end then addr_cap else end

pub highest : List Entry → ℕ → ℕ
highest [] top = top
highest (e ∷ es) top = highest es (
    if not (e.kind == usable) && not (e.kind == bootloader_reclaim)
    then top
    else if ltb top (capped_end e)
    then capped_end e
    else top)

-- Pass 2: the first usable region below 4 GB with room for the bitmap above 1 MB.
pub bitmap_base : Entry → ℕ
bitmap_base e = if ltb e.base 0x100000 then 0x100000 else e.base

pub hosts_bitmap : ℕ → Entry → Bool
hosts_bitmap bytes e =
    (e.kind == usable)
    && ltb e.base 0x100000000
    && ltb (bitmap_base e) (u64 (e.base + e.size))
    && leb bytes (u64 (e.base + e.size) - bitmap_base e)

pub find_region : ℕ → List Entry → Option ℕ
find_region bytes [] = none
find_region bytes (e ∷ es) =
    if hosts_bitmap bytes e then some (bitmap_base e) else find_region bytes es

-- Passes 3 and 4: free the whole pages of every region of one kind.
pub region_len : Entry → ℕ
region_len e = if ltb addr_cap (u64 (e.base + e.size)) then addr_cap - e.base else e.size

pub region_start : Entry → ℕ
region_start e = u64 (e.base + page_size - 1) / page_size

pub region_end : ℕ → Entry → ℕ
region_end total e =
    let end = u64 (e.base + region_len e) / page_size in if ltb total end then total else end

pub free_region : ℕ → Entry → Pmm → Pmm
free_region kind e p =
    if not (e.kind == kind) || leb addr_cap e.base
    then p
    else free_pages_from (region_end p.total_pages e - region_start e) (region_start e) p

pub free_regions : ℕ → List Entry → Pmm → Pmm
free_regions kind [] p = p
free_regions kind (e ∷ es) p = free_regions kind es (free_region kind e p)

pub total_of : List Entry → ℕ
total_of es = let top = highest es 0 in (if top == 0 then 0x10000000 else top) / page_size

pub bitmap_bytes : ℕ → ℕ
bitmap_bytes total = (total + 7) / 8

-- `none` is the endless `hlt` after "no region for bitmap".
pub init : ℕ → List Entry → Pmm → Option Pmm
init hhdm es p =
    let total = total_of es in
    elim (find_region (bitmap_bytes total) es) [
      | none ↦ none
      | some phys ↦
          let blank = record p {
            hhdm_offset = hhdm;
            bitmap_ptr = u64 (phys + hhdm);
            bitmap = replicate (bitmap_bytes total) 0xff;
            total_pages = total;
            free_pages = 0;
          } in
          let freed = free_regions bootloader_reclaim es (free_regions usable es blank) in
          some (mark_used 0 page_size (mark_used phys (bitmap_bytes total) freed))
    ]

-- The first free page of the `n` pages from `i` on.
pub scan : List ℕ → ℕ → ℕ → Option ℕ
scan bm zero i = none
scan bm (suc n) i = if bit_test bm i then scan bm n (i + 1) else some i

pub take_page : ℕ → Pmm → ℕ × Pmm
take_page i p = (
  u64 (i * page_size),
  record p {
    bitmap = bit_set p.bitmap i;
    free_pages = u64 (p.free_pages + (2 ^ 64 - 1));
    next_scan = i + 1;
  },
)

-- From the scan position to the end, then from page 1 to the scan position; 0 when none is free.
pub alloc : Pmm → ℕ × Pmm
alloc p = elim (scan p.bitmap (p.total_pages - p.next_scan) p.next_scan) [
  | some i ↦ take_page i p
  | none ↦ elim (scan p.bitmap (p.next_scan - 1) 1) [ some i ↦ take_page i p | none ↦ (0, p) ]
]

pub free : ℕ → Pmm → Pmm
free phys p =
    let i = phys / page_size in
    if leb p.total_pages i then p else if not (bit_test p.bitmap i) then p else record p {
      bitmap = bit_clear p.bitmap i;
      free_pages = u64 (p.free_pages + 1);
      next_scan = if ltb i p.next_scan then i else p.next_scan;
    }
