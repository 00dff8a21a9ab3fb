-- ===== src/Kheap/Fit.antt =====
-- `find_fit` of src/kheap.c: the first fit, and its split.
use computer_os.Prelude.{
  ℕ, ◌+◌, ◌%◌, ◌<◌, ◌≤◌, ◌^◌, ◌≡◌, Bool, true, false, inl, inr, Option, none, some, List, [], ◌∷◌,
  arith, if◌then◌else◌, ◌==◌, Bool-cases,
}
use computer_os.Kheap.{Block, header_size, sub32, unfit, splits, take_block, find_fit}
use computer_os.Kheap.Tiling.{Tiled, ApartAfter, Narrow, Tiled-le, ApartAfter-true}
use computer_os.Kheap.Live.{live, live-below}

-- What a search may be asked for: a rounded size that does not wrap with a header and a rest.
abbrev pub Request : ℕ → Type 0
Request size = (size % 8 ≡ 0) × (size + 32 < 2 ^ 32)

-- The list `bs'` is `bs` with the free block behind `p` allocated, and nothing else changed.
pub record Fitted (u : Bool) (s e size : ℕ) (bs : List Block) (p : ℕ) (bs' : List Block)
    : Type 0 where
  pub tiled : Tiled s e bs'
  pub apart : ApartAfter u bs'
  pub given : ℕ
  pub enough : size ≤ given
  pub tight : given < size + header_size + 8
  pub fresh : live bs p ≡ none
  pub above : s + header_size ≤ p
  pub marks : (q : ℕ) → live bs' q ≡ (if p == q then some given else live bs q)

take_block-Fitted :
    (u : Bool) (s e size : ℕ) (b : Block) (r : List Block)
    → Request size
    → Narrow s e
    → Tiled s e (b ∷ r)
    → ApartAfter u (b ∷ r)
    → unfit size b ≡ false
    → Fitted u s e size (b ∷ r) (b.addr + header_size) (take_block size b r)
unfolding take_block live
take_block-Fitted u s e size b r req narrow t a fit = elim (Bool-cases (splits size b)) [
  | inl split ↦ rw split (record {
    tiled = (t.0, req.0, (rest split, size_aligned split, rw (joined split) t.2));
    apart = ground (arith, a.1);
    given = size;
    enough = omega arith;
    tight = omega arith;
    fresh = fresh;
    above = omega arith;
    marks = λ q. ground arith;
  })
  | inr whole ↦ rw whole (record {
    tiled = t;
    apart = (ground arith, ApartAfter-true b.used r a.1);
    given = b.size;
    enough = ground arith;
    tight = ground arith;
    fresh = fresh;
    above = omega arith;
    marks = λ q. ground arith;
  })
]
  where
    span : b.size + 16 + 4096 ≤ 2 ^ 32
    span = omega (arith, Tiled-le r (s + header_size + b.size) e t.2)

    room : splits size b ≡ true → size + 24 ≤ b.size
    room split = ground arith

    rest : splits size b ≡ true → b.addr + header_size + size ≡ s + header_size + size
    rest split = omega arith

    exact :
        splits size b ≡ true → sub32 (sub32 b.size size) header_size + header_size + size ≡ b.size
    exact split = omega (arith, room split, span)

    size_aligned : splits size b ≡ true → sub32 (sub32 b.size size) header_size % 8 ≡ 0
    size_aligned split = let same = exact split in omega arith

    joined :
        splits size b ≡ true
        → s + header_size + size + header_size + sub32 (sub32 b.size size) header_size
          ≡ s + header_size + b.size
    joined split = let same = exact split in omega arith

    fresh : live (b ∷ r) (b.addr + header_size) ≡ none
    fresh = ground (arith, live-below r (s + header_size + b.size) e (b.addr + header_size) t.2)

-- A block that the search passes by stays in front.
skip-Fitted :
    (u : Bool) (s e size : ℕ) (b : Block) (r : List Block) (p : ℕ) (r' : List Block)
    → Tiled s e (b ∷ r)
    → ApartAfter u (b ∷ r)
    → Fitted b.used (s + header_size + b.size) e size r p r'
    → Fitted u s e size (b ∷ r) p (b ∷ r')
unfolding live
skip-Fitted u s e size b r p r' t a f = record {
  tiled = (t.0, t.1, f.tiled);
  apart = (a.0, f.apart);
  given = f.given;
  enough = f.enough;
  tight = f.tight;
  fresh = ground (arith, f.fresh, f.above);
  above = omega (arith, f.above);
  marks = λ q. ground (arith, f.marks q, f.above);
}

-- Every block is passed by.
abbrev pub NoFit : ℕ → List Block → Type 0
NoFit size [] = Unit {0}
NoFit size (b ∷ r) = (unfit size b ≡ true) × NoFit size r

pub data Search (u : Bool) (s e size : ℕ) (bs : List Block) : Option (ℕ × List Block) → Type 0 where
  found :
      {p : ℕ} {bs' : List Block} → Fitted u s e size bs p bs' → Search u s e size bs (some (p, bs'))
  missing : NoFit size bs → Search u s e size bs none

skip-Search :
    (u : Bool) (s e size : ℕ) (b : Block) (r : List Block) (o : Option (ℕ × List Block))
    → Tiled s e (b ∷ r)
    → ApartAfter u (b ∷ r)
    → unfit size b ≡ true
    → Search b.used (s + header_size + b.size) e size r o
    → Search u s e size (b ∷ r) (elim o [ none ↦ none | some (p, r') ↦ some (p, b ∷ r') ])
skip-Search u s e size b r (some (p, r')) t a unfits (found f) =
    found (skip-Fitted u s e size b r p r' t a f)
skip-Search u s e size b r none t a unfits (missing m) = missing (unfits, m)

-- For a rounded size more than 32 below 2 ^ 32, over blocks that tile a range narrower than 2 ^ 32
-- with no two free ones in a row, `find_fit` either returns the payload of a free block that is
-- large enough, allocates it with at most 23 bytes to spare and changes no other allocation, or
-- finds none and every block is in use or too small.
pub find_fit-Search :
    (u : Bool) (s e size : ℕ) (bs : List Block)
    → Request size
    → Narrow s e
    → Tiled s e bs
    → ApartAfter u bs
    → Search u s e size bs (find_fit size bs)
unfolding find_fit
find_fit-Search u s e size [] req narrow t a = missing tt
find_fit-Search u s e size (b ∷ r) req narrow t a = elim (Bool-cases (unfit size b)) [
  | inl unfits ↦ rw unfits (
      skip-Search u s e size b r (find_fit size r) t a unfits
        (find_fit-Search b.used (s + header_size + b.size) e size r req (omega arith) t.2 a.1))
  | inr fits ↦ rw fits (found (take_block-Fitted u s e size b r req narrow t a fits))
]
