-- ===== src/Inflate/Output/Copy.antt =====
-- Writes to the output buffer of src/inflate.c, and its back-references.
use computer_os.Prelude.{
  ℕ, zero, suc, ◌+◌, ◌-◌, ◌<◌, ◌≤◌, ◌≡◌, refl, ◌∙◌, Option, none, some, arith, ltb, leb, get_or,
  length, length-set, get_or-set, Bool-cases, inl, inr, sym,
}
use native.Mathlib.Decide.{ℕ_discrete}
use computer_os.Inflate.Output.{OutBuf, out_byte, copy_loop, out_copy}

-- The buffer has room for its capacity, and the position is inside it.
pub record IsValid (out : OutBuf) : Type 0 where
  pub room : out.cap ≤ length out.buf
  pub within : out.pos ≤ out.cap

-- From `out` to `out'` only bytes from `out.pos` up to `out'.pos` have been written.
pub record Extends (out out' : OutBuf) : Type 0 where
  pub valid : IsValid out'
  pub cap : out'.cap ≡ out.cap
  pub later : out.pos ≤ out'.pos
  pub kept : (i : ℕ) → i < out.pos → get_or out'.buf i 0 ≡ get_or out.buf i 0
  pub beyond : (i : ℕ) → out'.pos ≤ i → get_or out'.buf i 0 ≡ get_or out.buf i 0

pub Extends-refl : {out : OutBuf} → IsValid out → Extends out out
Extends-refl v = record {
  valid = v;
  cap = refl;
  later = omega arith;
  kept = λ i h. refl;
  beyond = λ i h. refl;
}

pub Extends-trans : {a b c : OutBuf} → Extends a b → Extends b c → Extends a c
Extends-trans p q = record {
  valid = q.valid;
  cap = q.cap ∙ p.cap;
  later = omega (arith, p.later, q.later);
  kept = λ i h. q.kept i (omega (arith, p.later)) ∙ p.kept i h;
  beyond = λ i h. q.beyond i h ∙ p.beyond i (omega (arith, q.later));
}

pub data Wrote (out : OutBuf) (b : ℕ) : Option OutBuf → Type 0 where
  wrote :
      {out' : OutBuf}
      → Extends out out'
      → out'.pos ≡ out.pos + 1
      → get_or out'.buf out.pos 0 ≡ b
      → Wrote out b (some out')
  full : out.pos ≡ out.cap → Wrote out b none

-- `out_byte` writes the next byte, or the buffer is full.
pub out_byte-Wrote : (out : OutBuf) (b : ℕ) → IsValid out → Wrote out b (out_byte out b)
unfolding out_byte
out_byte-Wrote out b v = elim (Bool-cases (leb out.cap out.pos)) [
  | inl stop ↦ rw stop (full (ground (arith, v.within)))
  | inr free ↦
      let inside : out.pos < length out.buf = ground (arith, v.room) in
      rw free (
        wrote
          (record {
            valid = record {
              room = omega (arith, length-set out.buf out.pos b, v.room);
              within = ground arith;
            };
            cap = refl;
            later = omega arith;
            kept = λ i h. ground (arith, get_or-set out.buf out.pos i b 0 inside);
            beyond = λ i h. ground (arith, get_or-set out.buf out.pos i b 0 inside);
          })
          refl (ground (arith, get_or-set out.buf out.pos out.pos b 0 inside)))
]

-- Each of the `len` new bytes repeats the byte `dist` before it, which may be new itself.
pub record Copied (dist len : ℕ) (out out' : OutBuf) : Type 0 where
  pub extends : Extends out out'
  pub count : out'.pos ≡ out.pos + len
  pub repeats :
      (i : ℕ) → out.pos ≤ i → i < out'.pos → get_or out'.buf i 0 ≡ get_or out'.buf (i - dist) 0

pub data Copy (dist len : ℕ) (out : OutBuf) : Option OutBuf → Type 0 where
  copied :
      {out' : OutBuf} → dist ≤ out.pos → Copied dist len out out' → Copy dist len out (some out')
  too_far : out.pos < dist → Copy dist len out none
  overflow : out.cap < out.pos + len → Copy dist len out none

-- One more byte in front of a copy.
prepend-Copied :
    (dist len : ℕ) (out mid out' : OutBuf)
    → 0 < dist
    → dist ≤ out.pos
    → Extends out mid
    → mid.pos ≡ out.pos + 1
    → get_or mid.buf out.pos 0 ≡ get_or out.buf (out.pos - dist) 0
    → Copied dist len mid out'
    → Copied dist (suc len) out out'
prepend-Copied dist len out mid out' pos near ext next byte c = record {
  extends = Extends-trans ext c.extends;
  count = omega (arith, c.count);
  repeats = λ i lo hi. elim (ℕ_discrete i out.pos) [
    | yes first ↦ rw first (
        c.extends.kept out.pos (omega arith)
        ∙ byte
        ∙ sym (ext.kept (out.pos - dist) (omega arith))
        ∙ sym (c.extends.kept (out.pos - dist) (omega arith)))
    | no after ↦ c.repeats i (omega arith) hi
  ];
}

prepend-Copy :
    (dist len : ℕ) (out mid : OutBuf) {o : Option OutBuf}
    → 0 < dist
    → dist ≤ out.pos
    → Extends out mid
    → mid.pos ≡ out.pos + 1
    → get_or mid.buf out.pos 0 ≡ get_or out.buf (out.pos - dist) 0
    → Copy dist len mid o
    → Copy dist (suc len) out o
prepend-Copy dist len out mid pos near ext next byte (copied {out'} near' c) =
    copied near (prepend-Copied dist len out mid out' pos near ext next byte c)
prepend-Copy dist len out mid pos near ext next byte (too_far far) = absurd (omega arith)
prepend-Copy dist len out mid pos near ext next byte (overflow short) =
    overflow (omega (arith, ext.cap))

step-Copy :
    (dist len : ℕ) (out : OutBuf)
    → 0 < dist
    → dist ≤ out.pos
    → {o : Option OutBuf} → Wrote out (get_or out.buf (out.pos - dist) 0) o
    → ((mid : OutBuf) → IsValid mid → dist ≤ mid.pos → Copy dist len mid (copy_loop dist len mid))
    → Copy dist (suc len) out (elim o [ none ↦ none | some mid ↦ copy_loop dist len mid ])
step-Copy dist len out pos near (full at_end) ih = overflow (omega arith)
step-Copy dist len out pos near (wrote {out' = mid} ext next byte) ih =
    prepend-Copy dist len out mid pos near ext next byte (ih mid ext.valid (omega arith))

copy_loop-Copy :
    (len dist : ℕ) (out : OutBuf)
    → 0 < dist
    → IsValid out
    → dist ≤ out.pos
    → Copy dist len out (copy_loop dist len out)
unfolding copy_loop
copy_loop-Copy zero dist out pos v near = copied near (record {
  extends = Extends-refl v;
  count = omega arith;
  repeats = λ i lo hi. absurd (omega arith);
})
copy_loop-Copy (suc len) dist out pos v near =
    step-Copy dist len out pos near (out_byte-Wrote out (get_or out.buf (out.pos - dist) 0) v)
      (λ mid. copy_loop-Copy len dist mid pos)

-- For a distance above 0 `out_copy` fails only if the distance goes back before the output or the
-- copy does not fit; when it succeeds it has appended `len` bytes, each equal to the byte `dist`
-- before it, and written nowhere else.
pub out_copy-Copy :
    (dist len : ℕ) (out : OutBuf)
    → 0 < dist
    → IsValid out
    → Copy dist len out (out_copy out dist len)
unfolding out_copy
out_copy-Copy dist len out pos v = elim (Bool-cases (ltb out.pos dist)) [
  | inl far ↦ rw far (too_far (ground arith))
  | inr near ↦ rw near (copy_loop-Copy len dist out pos v (ground arith))
]
