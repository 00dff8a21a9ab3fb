-- ===== src/Kheap.antt =====
-- The kernel heap of src/kheap.c, over the operations of the page and mapping layers that it calls.
-- The linked list of block headers is the list `blocks`, in the order of the `next` pointers; each
-- block carries the address of its header. `heap_head == 0` is the empty list.
pub mod Tiling
pub mod Live
pub mod Fit
pub mod Grow
pub mod Malloc
pub mod Served
pub mod Sums
pub mod Release
pub mod Init
pub mod Owners
mod Tests
use computer_os.Prelude.{
  ℕ, zero, suc, ◌+◌, ◌-◌, ◌*◌, ◌/◌, ◌%◌, ◌^◌, Bool, true, false, ◌&&◌, ◌||◌, not, Option, none,
  some, List, [], ◌∷◌, ltb, leb, ◌==◌, if◌then◌else◌, u32, u64,
}

-- The functions of pmm.c and vmm.c that the heap calls, over a state `M`.
pub record Pages (M : Type 0) : Type 0 where
  pub alloc : M → ℕ × M
  pub free : ℕ → M → M
  pub map : ℕ → ℕ → M → Bool × M
  pub unmap : ℕ → M → M
  pub resolve : ℕ → M → ℕ

pub record Block : Type 0 where
  pub addr : ℕ
  pub size : ℕ
  pub used : Bool

pub record Heap (M : Type 0) : Type 0 where
  pub blocks : List Block
  pub start : ℕ
  pub end : ℕ
  pub limit : ℕ
  pub mem : M

-- `sizeof(block_t)`: 4 bytes, 1 byte and its padding, and a pointer of 8.
abbrev pub header_size : ℕ
header_size = 16

abbrev pub page : ℕ
page = 4096

abbrev pub min_grow_pages : ℕ
min_grow_pages = 16

-- `unsigned int` subtraction.
abbrev pub sub32 : ℕ → ℕ → ℕ
sub32 a b = u32 (a + 2 ^ 32 - u32 b)

pub align8 : ℕ → ℕ
align8 n = u32 (n + 7) / 8 * 8

abbrev pub page_addr : ℕ → ℕ → ℕ
page_addr virt i = u64 (virt + u32 (i * page))

module _ {M : Type 0} (ops : Pages M) where
  -- The loop at `fail:`, with `n` of its rounds left.
  pub rollback : ℕ → ℕ → ℕ → M → M
  rollback virt zero j m = m
  rollback virt (suc n) j m =
      let v = page_addr virt j in
      let p = ops.resolve v m in
      let m' = ops.unmap v m in rollback virt n (j + 1) (if p == 0 then m' else ops.free p m')

  -- `n` rounds of the loop of `map_region` are left, of which the next maps page `i`.
  pub map_pages : ℕ → ℕ → ℕ → M → Bool × M
  map_pages virt zero i m = (true, m)
  map_pages virt (suc n) i m =
      let (phys, m1) = ops.alloc m in
      elim (phys == 0) [
        | true ↦ (false, rollback virt i 0 m1)
        | false ↦
            let (mapped, m2) = ops.map (page_addr virt i) phys m1 in
            elim mapped [
              | true ↦ map_pages virt n (i + 1) m2
              | false ↦ (false, rollback virt i 0 (ops.free phys m2))
            ]
      ]

  pub map_region : ℕ → ℕ → M → Bool × M
  map_region virt pages m = map_pages virt pages 0 m

-- The new region joins the last block if that is free, and else becomes a block of its own.
pub stitch : ℕ → ℕ → List Block → List Block
stitch region added [] = record { addr = region; size = sub32 added header_size; used = false } ∷ []
stitch region added (b ∷ []) =
    if b.used
    then b ∷ record { addr = region; size = sub32 added header_size; used = false } ∷ []
    else record b { size = u32 (b.size + added) } ∷ []
stitch region added (b ∷ c ∷ r) = b ∷ stitch region added (c ∷ r)

-- Whether the search passes a block by, and whether it splits the block that it takes.
abbrev pub unfit : ℕ → Block → Bool
unfit size b = b.used || ltb b.size size

abbrev pub splits : ℕ → Block → Bool
splits size b = leb (u32 (size + header_size + 8)) b.size

pub take_block : ℕ → Block → List Block → List Block
take_block size b r =
    if splits size b
    then record b { size = size; used = true }
      ∷ record {
        addr = b.addr + header_size + size;
        size = sub32 (sub32 b.size size) header_size;
        used = false;
      }
      ∷ r
    else record b { used = true } ∷ r

-- The first fit: the address of its payload, and the list that is left.
pub find_fit : ℕ → List Block → Option (ℕ × List Block)
find_fit size [] = none
find_fit size (b ∷ r) =
    if unfit size b
    then (elim (find_fit size r) [ none ↦ none | some (p, r') ↦ some (p, b ∷ r') ])
    else some (b.addr + header_size, take_block size b r)

-- `b->next` is absorbed if it is free.
pub merge_next : Block → List Block → List Block
merge_next b [] = b ∷ []
merge_next b (c ∷ r) =
    if c.used then b ∷ c ∷ r else record b { size = u32 (b.size + (header_size + c.size)) } ∷ r

-- The block at `a` becomes free and absorbs its successor. `kfree` of an address that is no block
-- has no defined behaviour; here it changes nothing.
pub release : ℕ → List Block → List Block
release a [] = []
release a (b ∷ r) =
    if b.addr == a then merge_next (record b { used = false }) r else b ∷ release a r

-- The walk from the head: a free block before the block at `a` absorbs it.
pub merge_prev : ℕ → List Block → List Block
merge_prev a [] = []
merge_prev a (p ∷ []) = p ∷ []
merge_prev a (p ∷ b ∷ r) =
    if (b.addr == a) && not p.used
    then record p { size = u32 (p.size + (header_size + b.size)) } ∷ r
    else p ∷ merge_prev a (b ∷ r)

abbrev pub is_empty : List Block → Bool
is_empty [] = true
is_empty (b ∷ r) = false

-- What a call returns for the outcome of its search: the address found, or else `otherwise`.
abbrev pub with_fit : {M : Type 0} → Heap M → ℕ × Heap M → Option (ℕ × List Block) → ℕ × Heap M
with_fit h otherwise none = otherwise
with_fit h otherwise (some (p, bs)) = (p, record h { blocks = bs })

module _ {M : Type 0} (ops : Pages M) where
  pub init : ℕ → ℕ → ℕ → Heap M → Heap M
  init base initial max h =
      let max' = if ltb max initial then initial else max in
      let (mapped, m) = map_region ops base initial h.mem in
      if mapped
      then record {
        blocks =
            record { addr = base; size = sub32 (u32 (initial * page)) header_size; used = false }
            ∷ [];
        start = base;
        end = u64 (base + u32 (initial * page));
        limit = u64 (base + u32 (max' * page));
        mem = m;
      }
      else record h { mem = m }

  -- The number of pages by which the heap grows, before anything is mapped; 0 for none.
  pub grow_pages : ℕ → Heap M → ℕ
  grow_pages min_bytes h =
      let needed = u32 (min_bytes + (page - 1)) / page in
      let wanted = if ltb needed min_grow_pages then min_grow_pages else needed in
      let room = u32 ((h.limit - h.end) / page) in if ltb room wanted then room else wanted

  pub grow : ℕ → Heap M → ℕ × Heap M
  grow min_bytes h =
      if is_empty h.blocks || leb h.limit h.end
      then (0, h)
      else if grow_pages min_bytes h == 0
      then (0, h)
      else (let (mapped, m) = map_region ops h.end (grow_pages min_bytes h) h.mem in
          let added = u32 (grow_pages min_bytes h * page) in
          if mapped
          then (
            added,
            record h { blocks = stitch h.end added h.blocks; end = u64 (h.end + added); mem = m },
          )
          else (0, record h { mem = m }))

  -- The second search, after the heap has grown.
  pub retry : ℕ → ℕ × Heap M → ℕ × Heap M
  retry size (added, h) = if added == 0 then (0, h) else with_fit h (0, h) (find_fit size h.blocks)

  pub kmalloc : ℕ → Heap M → ℕ × Heap M
  kmalloc n h =
      if (n == 0) || is_empty h.blocks
      then (0, h)
      else with_fit h (retry (align8 n) (grow (u32 (align8 n + header_size)) h))
          (find_fit (align8 n) h.blocks)

module _ {M : Type 0} where
  pub kfree : ℕ → Heap M → Heap M
  kfree ptr h = if ptr == 0 then h else record h {
    blocks = merge_prev (ptr - header_size) (release (ptr - header_size) h.blocks);
  }

  pub heap_size : Heap M → ℕ
  heap_size h = u32 (h.end - h.start)

-- The loops of `kheap_used`, `kheap_free` and `kheap_blocks`, with their running totals.
pub used_sum : ℕ → List Block → ℕ
used_sum total [] = total
used_sum total (b ∷ r) = used_sum (if b.used then u32 (total + b.size) else total) r

pub free_sum : ℕ → List Block → ℕ
free_sum total [] = total
free_sum total (b ∷ r) = free_sum (if not b.used then u32 (total + b.size) else total) r

pub block_count : ℕ → List Block → ℕ
block_count n [] = n
block_count n (b ∷ r) = block_count (u32 (n + 1)) r
