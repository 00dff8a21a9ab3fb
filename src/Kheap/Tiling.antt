-- ===== src/Kheap/Tiling.antt =====
-- The representation invariant of src/kheap.c: the blocks tile the heap in address order.
use computer_os.Prelude.{
  ℕ, ◌+◌, ◌%◌, ◌<◌, ◌≤◌, ◌^◌, ◌≡◌, refl, Bool, true, ◌||◌, List, [], ◌∷◌, arith,
}
use computer_os.Kheap.{Block, Heap, header_size, page}

-- The blocks fill `[s, e)` with their headers and payloads, and each size is a multiple of 8.
abbrev pub Tiled : ℕ → ℕ → List Block → Type 0
Tiled s e [] = s ≡ e
Tiled s e (b ∷ r) = (b.addr ≡ s) × (b.size % 8 ≡ 0) × Tiled (s + header_size + b.size) e r

-- No two free blocks follow each other, behind a block whose flag is `u`.
abbrev pub ApartAfter : Bool → List Block → Type 0
ApartAfter u [] = Unit {0}
ApartAfter u (c ∷ r) = ((u || c.used) ≡ true) × ApartAfter c.used r

-- The extent of a heap fits `unsigned int`, a page to spare.
abbrev pub Narrow : ℕ → ℕ → Type 0
Narrow s e = e + page ≤ s + 2 ^ 32

module _ {M : Type 0} where
  pub record IsValid (h : Heap M) : Type 0 where
    pub tiled : Tiled h.start h.end h.blocks
    pub apart : ApartAfter true h.blocks
    pub cap : h.end ≤ h.limit
    pub narrow : Narrow h.start h.limit
    pub top : h.limit < 2 ^ 64
    pub aligned : h.start % 8 ≡ 0
    pub nonzero : 0 < h.start

-- A tiling runs upwards.
pub Tiled-le : (bs : List Block) (s e : ℕ) → Tiled s e bs → s ≤ e
Tiled-le [] s e t = omega arith
Tiled-le (b ∷ r) s e t = omega (arith, Tiled-le r (s + header_size + b.size) e t.2)

-- Behind a used block anything may follow that may follow a free one.
pub ApartAfter-true : (u : Bool) (r : List Block) → ApartAfter u r → ApartAfter true r
ApartAfter-true u [] a = tt
ApartAfter-true u (c ∷ r) a = (refl, a.1)
