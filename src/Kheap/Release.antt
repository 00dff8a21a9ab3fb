-- ===== src/Kheap/Release.antt =====
-- `kfree` of src/kheap.c: the block becomes free and joins its free neighbours.
use computer_os.Prelude.{
  ℕ, ◌+◌, ◌%◌, ◌-◌, ◌<◌, ◌≡◌, refl, Bool, true, false, ◌&&◌, not, inl, inr, none, some, List, [],
  ◌∷◌, arith, if◌then◌else◌, ◌==◌, u32, Bool-cases,
}
use computer_os.Kheap.{Block, Heap, header_size, merge_next, release, merge_prev, kfree}
use computer_os.Kheap.Tiling.{Tiled, ApartAfter, Narrow, Tiled-le, ApartAfter-true, IsValid}
use computer_os.Kheap.Live.{live, live-below, live-bounds}

-- `bs'` has the allocation at `p` no more, and every other one as before.
abbrev pub Freed : ℕ → List Block → List Block → Type 0
Freed p bs bs' = (q : ℕ) → live bs' q ≡ (if p == q then none else live bs q)

-- What the freed block `b` becomes: of size `size`, before the blocks `rest`.
record Merged (s e : ℕ) (b : Block) (r : List Block) : Type 0 where
  pub size : ℕ
  pub rest : List Block
  pub shape : merge_next b r ≡ record b { size = size } ∷ rest
  pub whole : size % 8 ≡ 0
  pub tiled : Tiled (s + header_size + size) e rest
  pub apart : ApartAfter false rest
  pub same : (q : ℕ) → live rest q ≡ live r q

merge_next-Merged :
    (s e : ℕ) (b : Block) (r : List Block)
    → Narrow s e
    → Tiled s e (b ∷ r)
    → ApartAfter true r
    → Merged s e b r
unfolding merge_next live
merge_next-Merged s e b [] narrow t a = record {
  size = b.size;
  rest = [];
  shape = refl;
  whole = t.1;
  tiled = t.2;
  apart = tt;
  same = λ q. refl;
}
merge_next-Merged s e b (c ∷ r) narrow t a = elim (Bool-cases c.used) [
  | inl busy ↦ record {
    size = b.size;
    rest = c ∷ r;
    shape = rw (busy, merge_next);
    whole = t.1;
    tiled = t.2;
    apart = (busy, a.1);
    same = λ q. refl;
  }
  | inr idle ↦ record {
    size = b.size + (header_size + c.size);
    rest = r;
    shape = rw (idle, fits);
    whole = omega arith;
    tiled = rw joined t.2.2;
    apart = rw idle at a.1;
    same = λ q. ground arith;
  }
]
  where
    joined :
        s + header_size + (b.size + (header_size + c.size))
        ≡ s + header_size + b.size + header_size + c.size
    joined = omega arith

    fits : u32 (b.size + (header_size + c.size)) ≡ b.size + (header_size + c.size)
    fits = omega (arith, Tiled-le r (s + header_size + b.size + header_size + c.size) e t.2.2)

merge_prev-absent :
    (a s e : ℕ) (x : Block) (r : List Block) → Tiled s e r → a < s → merge_prev a (x ∷ r) ≡ x ∷ r
unfolding merge_prev
merge_prev-absent a s e x [] t lt = refl
merge_prev-absent a s e x (b ∷ r) t lt =
    ground (arith, merge_prev-absent a (s + header_size + b.size) e b r t.2)

-- The list with its block at `a` freed.
abbrev pub freed_list : ℕ → List Block → List Block
freed_list a bs = merge_prev a (release a bs)

pub record Released (u : Bool) (s e a : ℕ) (bs out : List Block) : Type 0 where
  pub tiled : Tiled s e out
  pub apart : ApartAfter u out
  pub freed : Freed (a + header_size) bs out

-- The block at the head of the list is freed.
release-head :
    (s e a n : ℕ) (b : Block) (r : List Block)
    → Narrow s e
    → Tiled s e (b ∷ r)
    → ApartAfter true (b ∷ r)
    → live (b ∷ r) (a + header_size) ≡ some n
    → (b.addr == a) ≡ true
    → Released true s e a (b ∷ r) (freed_list a (b ∷ r))
unfolding release live
release-head s e a n b r narrow t ap h here =
    rw (here, m.shape)
      (rw
        (merge_prev-absent a (s + header_size + m.size) e (record b { size = m.size; used = false })
          m.rest m.tiled (ground arith))
        (record {
          tiled = (t.0, m.whole, m.tiled);
          apart = (refl, m.apart);
          freed = λ q. ground (arith, m.same q, none_after);
        }))
  where
    none_after : live r (a + header_size) ≡ none
    none_after = live-below r (s + header_size + b.size) e (a + header_size) t.2 (ground arith)

    m : Merged s e (record b { used = false }) r
    m = merge_next-Merged s e (record b { used = false }) r narrow t (ApartAfter-true b.used r ap.1)

-- A free block before it absorbs it.
release-second :
    (u : Bool) (s e a n : ℕ) (b c : Block) (r : List Block)
    → Narrow s e
    → Tiled s e (b ∷ c ∷ r)
    → ApartAfter u (b ∷ c ∷ r)
    → live (b ∷ c ∷ r) (a + header_size) ≡ some n
    → (b.addr == a) ≡ false
    → (c.addr == a) ≡ true
    → b.used ≡ false
    → Released u s e a (b ∷ c ∷ r) (freed_list a (b ∷ c ∷ r))
unfolding release live merge_prev
release-second u s e a n b c r narrow t ap h other here idle =
    rw (other, here, m.shape, here, idle, fits)
      (record {
        tiled = (t.0, aligned, rw joined m.tiled);
        apart = (ground (arith, ap.0), m.apart);
        freed = λ q. ground (arith, m.same q, none_after);
      })
  where
    none_after : live r (a + header_size) ≡ none
    none_after =
        live-below r (s + header_size + b.size + header_size + c.size) e (a + header_size) t.2.2
          (ground arith)

    m : Merged (s + header_size + b.size) e (record c { used = false }) r
    m =
        merge_next-Merged (s + header_size + b.size) e (record c { used = false }) r (omega arith)
          t.2 (ApartAfter-true c.used r ap.1.1)

    fits : u32 (b.size + (header_size + m.size)) ≡ b.size + (header_size + m.size)
    fits =
        omega (arith, Tiled-le m.rest (s + header_size + b.size + header_size + m.size) e m.tiled)

    aligned : (b.size + (header_size + m.size)) % 8 ≡ 0
    aligned = omega (arith, m.whole)

    joined :
        s + header_size + (b.size + (header_size + m.size))
        ≡ s + header_size + b.size + header_size + m.size
    joined = omega arith

-- A block that is neither freed nor joined stays in front.
merge_prev-skip :
    (a : ℕ) (b y : Block) (t : List Block)
    → ((y.addr == a) && not b.used) ≡ false
    → merge_prev a (b ∷ y ∷ t) ≡ b ∷ merge_prev a (y ∷ t)
unfolding merge_prev
merge_prev-skip a b y t h = rw h

merge_next-addr :
    (b : Block) (r : List Block)
    → (y : Block) × (t : List Block) × (merge_next b r ≡ y ∷ t) × (y.addr ≡ b.addr)
unfolding merge_next
merge_next-addr b [] = (b, [], refl, refl)
merge_next-addr b (c ∷ r) = elim (Bool-cases c.used) [
  | inl busy ↦ (b, c ∷ r, rw (busy, merge_next), refl)
  | inr idle ↦
      (record b { size = u32 (b.size + (header_size + c.size)) }, r, rw (idle, merge_next), refl)
]

release-addr :
    (a : ℕ) (b : Block) (r : List Block)
    → (y : Block) × (t : List Block) × (release a (b ∷ r) ≡ y ∷ t) × (y.addr ≡ b.addr)
unfolding release
release-addr a b r = elim (Bool-cases (b.addr == a)) [
  | inl here ↦ rw here (merge_next-addr (record b { used = false }) r)
  | inr other ↦ (b, release a r, rw other, refl)
]

freed_list-skip :
    (a : ℕ) (b c : Block) (r : List Block)
    → (b.addr == a) ≡ false
    → ((c.addr == a) && not b.used) ≡ false
    → freed_list a (b ∷ c ∷ r) ≡ b ∷ freed_list a (c ∷ r)
freed_list-skip a b c r other apart =
    let (y, t, shape, addr) = release-addr a c r in
    rw (first, shape) (merge_prev-skip a b y t (rw addr apart))
  where
    first : release a (b ∷ c ∷ r) ≡ b ∷ release a (c ∷ r)
    first = unfold release in rw other

skip-Released :
    (u : Bool) (s e a : ℕ) (b : Block) (r out : List Block)
    → Tiled s e (b ∷ r)
    → ApartAfter u (b ∷ r)
    → (b.addr == a) ≡ false
    → Released b.used (s + header_size + b.size) e a r out
    → Released u s e a (b ∷ r) (b ∷ out)
unfolding live
skip-Released u s e a b r out t ap other rel = record {
  tiled = (t.0, t.1, rel.tiled);
  apart = (ap.0, rel.apart);
  freed = λ q. ground (arith, rel.freed q);
}

abbrev HeadUsed : Bool → ℕ → List Block → Type 0
HeadUsed u a [] = Unit
HeadUsed u a (b ∷ r) = ((b.addr == a) && not u) ≡ false

-- Freeing an allocated block frees it alone, and keeps the tiling and the separation.
pub freed_list-Released :
    (bs : List Block) (u : Bool) (s e a n : ℕ)
    → Narrow s e
    → Tiled s e bs
    → ApartAfter u bs
    → HeadUsed u a bs
    → live bs (a + header_size) ≡ some n
    → Released u s e a bs (freed_list a bs)
unfolding live
freed_list-Released [] u s e a n narrow t ap head h = cc
freed_list-Released (b ∷ []) u s e a n narrow t ap head h = elim (Bool-cases (b.addr == a)) [
  | inl here ↦
      let up : u ≡ true = ground arith in
      rw up (release-head s e a n b [] narrow t (rw up at ap) h here)
  | inr other ↦ absurd (ground arith)
]
freed_list-Released (b ∷ c ∷ r) u s e a n narrow t ap head h = elim (Bool-cases (b.addr == a)) [
  | inl here ↦
      let up : u ≡ true = ground arith in
      rw up (release-head s e a n b (c ∷ r) narrow t (rw up at ap) h here)
  | inr other ↦ elim (Bool-cases ((c.addr == a) && not b.used)) [
    | inl joins ↦ release-second u s e a n b c r narrow t ap h other (ground arith) (ground arith)
    | inr apart ↦ rw (freed_list-skip a b c r other apart) (
        skip-Released u s e a b (c ∷ r) (freed_list a (c ∷ r)) t ap other (
          freed_list-Released (c ∷ r) b.used (s + header_size + b.size) e a n (omega arith) t.2 ap.1
            apart (ground arith)))
  ]
]

-- `kfree` of an allocated pointer keeps a valid heap valid, its free blocks merged, takes that
-- allocation away, and leaves every other allocation as it was.
pub kfree-Freed :
    {M : Type 0} (h : Heap M) (p n : ℕ)
    → IsValid h
    → live h.blocks p ≡ some n
    → IsValid (kfree p h) × Freed p h.blocks (kfree p h).blocks
unfolding kfree
kfree-Freed h p n v alive =
    let where_is = live-bounds h.blocks h.start h.end p n v.tiled alive in
    let here : p - header_size + header_size ≡ p = omega arith in
    let nonzero : (p == 0) ≡ false = ground arith in
    let rel : Released true h.start h.end (p - header_size) h.blocks
        (freed_list (p - header_size) h.blocks) =
      freed_list-Released h.blocks true h.start h.end (p - header_size) n
        (omega (arith, v.narrow, v.cap)) v.tiled v.apart (head_used h.blocks) (rw here alive) in
    rw nonzero (
      record {
        tiled = rel.tiled;
        apart = rel.apart;
        cap = v.cap;
        narrow = v.narrow;
        top = v.top;
        aligned = v.aligned;
        nonzero = v.nonzero;
      },
      λ q. rw (rel.freed q) (rw here refl),
    )
  where
    head_used : (bs : List Block) → HeadUsed true (p - header_size) bs
    head_used [] = tt
    head_used (b ∷ r) = ground arith
