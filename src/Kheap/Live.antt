-- ===== src/Kheap/Live.antt =====
-- What a client of src/kheap.c sees: which payload addresses are allocated, and how large they are.
use computer_os.Prelude.{
  ℕ, ◌+◌, ◌%◌, ◌<◌, ◌≤◌, ◌≡◌, ◌≢◌, refl, ◌&&◌, ◌⊎◌, inl, inr, Option, none, some, List, [], ◌∷◌,
  arith, if◌then◌else◌, ◌==◌, Bool-cases,
}
use computer_os.Kheap.{Block, header_size}
use computer_os.Kheap.Tiling.{Tiled, Tiled-le}

-- The size of the allocation at payload address `p`.
unfoldable pub live : List Block → ℕ → Option ℕ
live [] p = none
live (b ∷ r) p = if (b.addr + header_size == p) && b.used then some b.size else live r p

-- Every allocation lies behind a header, inside the heap, and is aligned as the heap is.
pub live-bounds :
    (bs : List Block) (s e p n : ℕ)
    → Tiled s e bs
    → live bs p ≡ some n
    → (s + header_size ≤ p) × (p + n ≤ e) × (p % 8 ≡ s % 8)
unfolding live
live-bounds [] s e p n t h = cc
live-bounds (b ∷ r) s e p n t h = elim (Bool-cases ((b.addr + header_size == p) && b.used)) [
  | inl hit ↦ ground (arith, Tiled-le r (s + header_size + b.size) e t.2)
  | inr miss ↦
      let rest = live-bounds r (s + header_size + b.size) e p n t.2 (rw miss at h) in omega arith
]

-- Nothing is allocated before the start of a tiling.
pub live-below :
    (bs : List Block) (s e p : ℕ) → Tiled s e bs → p < s + header_size → live bs p ≡ none
unfolding live
live-below [] s e p t h = refl
live-below (b ∷ r) s e p t h = ground (arith, live-below r (s + header_size + b.size) e p t.2)

-- In a list of blocks that tile a range, two allocations at different addresses do not overlap.
pub live-disjoint :
    (bs : List Block) (s e p q n k : ℕ)
    → Tiled s e bs
    → live bs p ≡ some n
    → live bs q ≡ some k
    → p ≢ q
    → (p + n ≤ q) ⊎ (q + k ≤ p)
unfolding live
live-disjoint [] s e p q n k t hp hq ne = cc
live-disjoint (b ∷ r) s e p q n k t hp hq ne =
    elim (Bool-cases ((b.addr + header_size == p) && b.used)) [
      | inl hit ↦ inl (ground (arith, live-bounds r (s + header_size + b.size) e q k t.2))
      | inr miss ↦ elim (Bool-cases ((b.addr + header_size == q) && b.used)) [
        | inl hit ↦ inr (ground (arith, live-bounds r (s + header_size + b.size) e p n t.2))
        | inr miss' ↦
            live-disjoint r (s + header_size + b.size) e p q n k t.2 (rw miss at hp)
              (rw miss' at hq) ne
      ]
    ]
