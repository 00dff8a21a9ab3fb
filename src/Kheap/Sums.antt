-- ===== src/Kheap/Sums.antt =====
-- The reports of src/kheap.c: `kheap_used`, `kheap_free`, `kheap_blocks` and `kheap_size`.
use computer_os.Prelude.{
  ℕ, ◌+◌, ◌*◌, ◌-◌, ◌<◌, ◌^◌, ◌≡◌, not, List, [], ◌∷◌, arith, if◌then◌else◌, u32,
}
use computer_os.Kheap.{Block, Heap, header_size, used_sum, free_sum, block_count, heap_size}
use computer_os.Kheap.Tiling.{Tiled, Tiled-le, IsValid}

-- The three loops over a tiling, from any totals that leave room for it.
sums-tile :
    (bs : List Block) (s e a b n : ℕ)
    → Tiled s e bs
    → a + b + header_size * n + (e - s) < 2 ^ 32
    → used_sum a bs + free_sum b bs + header_size * block_count n bs
      ≡ a + b + header_size * n + (e - s)
unfolding used_sum free_sum block_count
sums-tile [] s e a b n t room = omega arith
sums-tile (c ∷ r) s e a b n t room = ground (
  arith,
  Tiled-le r (s + header_size + c.size) e t.2,
  sums-tile r (s + header_size + c.size) e (if c.used then u32 (a + c.size) else a)
      (if not c.used then u32 (b + c.size) else b) (u32 (n + 1)) t.2,
)

-- In a valid heap the bytes in use, the free bytes and the headers make up the whole heap: no byte
-- is lost or counted twice, and no total wraps.
pub sums-heap_size :
    {M : Type 0} (h : Heap M)
    → IsValid h
    → used_sum 0 h.blocks + free_sum 0 h.blocks + header_size * block_count 0 h.blocks ≡ heap_size h
unfolding heap_size
sums-heap_size h v = omega (
  arith,
  v.narrow,
  v.cap,
  Tiled-le h.blocks h.start h.end v.tiled,
  sums-tile h.blocks h.start h.end 0 0 0 v.tiled (omega (arith, v.narrow, v.cap)),
)
