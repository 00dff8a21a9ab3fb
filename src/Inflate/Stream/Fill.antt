-- ===== src/Inflate/Stream/Fill.antt =====
-- The bit buffer of src/inflate.c: its invariant, and `bs_fill`.
use computer_os.Prelude.{
  ℕ, zero, suc, ◌+◌, ◌*◌, ◌^◌, ◌<◌, ◌≤◌, ◌≡◌, refl, ◌∙◌, ap, arith, length, get_or, drop, ltb,
  Bool-cases, inl, inr, bit_or, bit_or_shifted, u32, ◌<<<◌,
}
use native.Mathlib.Nat.{pow-le-pow_right}
use computer_os.Inflate.Stream.{BitStream, fill_byte, fill_loop, bs_fill}
use computer_os.Inflate.Stream.Pow.{pow-add, le_value, le_value-drop, le_value-beyond}

-- The input is bytes, and the buffer holds `nbits` bits and fits `unsigned int`.
pub record IsValid (bs : BitStream) : Type 0 where
  pub bytes : (i : ℕ) → get_or bs.src i 0 < 256
  pub in_src : bs.src_pos ≤ length bs.src
  pub fits : bs.bits < 2 ^ bs.nbits
  pub narrow : bs.nbits < 32

-- What is still to be read, as one number whose lowest bit comes first. Behind the end of the input
-- it has zeros.
unfoldable pub unread : BitStream → ℕ
unread bs = bs.bits + 2 ^ bs.nbits * le_value (drop bs.src_pos bs.src)

pub record Filled (bs : BitStream) (bs' : BitStream) : Type 0 where
  pub valid : IsValid bs'
  pub same : unread bs' ≡ unread bs
  pub src : bs'.src ≡ bs.src

fill_byte-Filled :
    (bs : BitStream)
    → IsValid bs
    → bs.nbits < 24
    → Filled bs (fill_byte bs) × ((fill_byte bs).nbits ≡ bs.nbits + 8)
unfolding fill_byte unread
fill_byte-Filled bs v small = elim (Bool-cases (ltb bs.src_pos (length bs.src))) [
  | inl more ↦ rw more (
    record {
      valid = record {
        bytes = v.bytes;
        in_src = ground arith;
        fits = omega (arith, joined, next, byte, product);
        narrow = omega arith;
      };
      same = omega (arith, joined, next, unrolled (ground arith));
      src = refl;
    },
    refl,
  )
  | inr done ↦ rw done (
    record {
      valid = record {
        bytes = v.bytes;
        in_src = v.in_src;
        fits = omega (arith, next, v.fits);
        narrow = omega arith;
      };
      same = omega (arith, no_more (ground arith) bs.nbits, no_more (ground arith) (bs.nbits + 8));
      src = refl;
    },
    refl,
  )
]
  where
    b : ℕ
    b = get_or bs.src bs.src_pos 0

    byte : b < 256
    byte = v.bytes bs.src_pos

    next : 2 ^ (bs.nbits + 8) ≡ 2 ^ bs.nbits * 256
    next = pow-add bs.nbits 8

    bound : 2 ^ bs.nbits ≤ 2 ^ 23
    bound = pow-le-pow_right (omega arith) {j = 23} (omega arith)

    product : b * 2 ^ bs.nbits ≤ 255 * 2 ^ bs.nbits
    product = grind arith

    joined : bit_or bs.bits (u32 (b <<< bs.nbits)) ≡ bs.bits + b * 2 ^ bs.nbits
    joined =
        let whole : u32 (b <<< bs.nbits) ≡ b * 2 ^ bs.nbits = omega (arith, product, bound) in
        rw whole (bit_or_shifted bs.nbits bs.bits b v.fits)

    unrolled :
        bs.src_pos < length bs.src
        → 2 ^ bs.nbits * le_value (drop bs.src_pos bs.src)
          ≡ b * 2 ^ bs.nbits + 2 ^ (bs.nbits + 8) * le_value (drop (bs.src_pos + 1) bs.src)
    unrolled h = omega (
      arith,
      next,
      ap (λ (t : ℕ). 2 ^ bs.nbits * t) (le_value-drop bs.src bs.src_pos h),
      ap (λ (t : ℕ). t * le_value (drop (bs.src_pos + 1) bs.src)) next,
    )

    no_more : length bs.src ≤ bs.src_pos → (k : ℕ) → 2 ^ k * le_value (drop bs.src_pos bs.src) ≡ 0
    no_more h k = omega (arith, ap (λ (t : ℕ). 2 ^ k * t) (le_value-beyond bs.src bs.src_pos h))

-- Enough rounds put `n` bits into the buffer, and change nothing that is still to be read.
fill_loop-Filled :
    (fuel n : ℕ) (bs : BitStream)
    → IsValid bs
    → n ≤ 24
    → n ≤ bs.nbits + fuel
    → Filled bs (fill_loop fuel n bs) × (n ≤ (fill_loop fuel n bs).nbits)
unfolding fill_loop
fill_loop-Filled zero n bs v small enough =
    (record { valid = v; same = refl; src = refl }, omega arith)
fill_loop-Filled (suc fuel) n bs v small enough = elim (Bool-cases (ltb bs.nbits n)) [
  | inr full ↦ rw (full, fill_loop) (record { valid = v; same = refl; src = refl }, ground arith)
  | inl short ↦
      let step = fill_byte-Filled bs v (ground arith) in
      let rest =
        fill_loop-Filled fuel n (fill_byte bs) step.0.valid small (omega (arith, step.1)) in
      rw (short, fill_loop)
        (
          record {
            valid = rest.0.valid;
            same = rest.0.same ∙ step.0.same;
            src = rest.0.src ∙ step.0.src;
          },
          rest.1,
        )
]

pub bs_fill-Filled :
    (n : ℕ) (bs : BitStream)
    → IsValid bs
    → n ≤ 24
    → Filled bs (bs_fill n bs) × (n ≤ (bs_fill n bs).nbits)
unfolding bs_fill
bs_fill-Filled n bs v small = fill_loop-Filled n n bs v small (omega arith)
