-- ===== src/Inflate/Stream/Read.antt =====
-- `bs_read`, `bs_align` and `bs_read_u16_le` of src/inflate.c against the number that is unread.
use computer_os.Prelude.{
  ℕ, ◌+◌, ◌-◌, ◌*◌, ◌/◌, ◌%◌, ◌^◌, ◌<◌, ◌≤◌, ◌≡◌, refl, ◌∙◌, ap, sym, subst, List, arith, get_or,
  drop, bit_or_shifted, u32, ◌>>>◌,
}
use computer_os.Inflate.Stream.{
  BitStream, bs_init, bs_fill, bs_peek, bs_drop, bs_read, bs_align, bs_read_u16_le,
}
use computer_os.Inflate.Stream.Pow.{mod-pow_split, div-pow_split, div-pow-lt, le_value}
use computer_os.Inflate.Stream.Fill.{IsValid, unread, bs_fill-Filled}

-- Taking the low `n` bits out of the buffer.
pub record Dropped (n : ℕ) (bs bs' : BitStream) : Type 0 where
  pub valid : IsValid bs'
  pub rest : unread bs' ≡ unread bs / 2 ^ n
  pub src : bs'.src ≡ bs.src

drop-Dropped :
    (n : ℕ) (bs : BitStream)
    → IsValid bs
    → n ≤ bs.nbits
    → Dropped n bs (record bs { bits = bs.bits >>> n; nbits = u32 (bs.nbits + 2 ^ 32 - n) })
      × (unread bs % 2 ^ n ≡ bs.bits % 2 ^ n)
unfolding unread
drop-Dropped n bs v enough = (
  record {
    valid = record {
      bytes = v.bytes;
      in_src = v.in_src;
      fits = rw left (div-pow-lt n (bs.nbits - n) bs.bits (rw split at v.fits));
      narrow = omega (arith, left);
    };
    rest = rw left (
        sym (
          subst
            (λ w. (bs.bits + 2 ^ w * above) / 2 ^ n ≡ bs.bits / 2 ^ n + 2 ^ (bs.nbits - n) * above)
            (sym split) (div-pow_split n (bs.nbits - n) bs.bits above)));
    src = refl;
  },
  subst (λ w. (bs.bits + 2 ^ w * above) % 2 ^ n ≡ bs.bits % 2 ^ n) (sym split)
      (mod-pow_split n (bs.nbits - n) bs.bits above),
)
  where
    above : ℕ
    above = le_value (drop bs.src_pos bs.src)

    split : bs.nbits ≡ n + (bs.nbits - n)
    split = omega arith

    left : u32 (bs.nbits + 2 ^ 32 - n) ≡ bs.nbits - n
    left = omega (arith, v.narrow)

-- For a valid stream and at most 24 bits, `bs_read` returns the next `n` bits as a number, the
-- first bit lowest, and takes exactly these away from what is unread; behind the end of the input
-- the bits are zeros.
pub bs_read-lem :
    (n : ℕ) (bs : BitStream)
    → IsValid bs
    → n ≤ 24
    → ((bs_read n bs).0 ≡ unread bs % 2 ^ n) × Dropped n bs (bs_read n bs).1
unfolding bs_read bs_peek bs_drop
bs_read-lem n bs v small =
    let filled = bs_fill-Filled n bs v small in
    let dropped = drop-Dropped n (bs_fill n bs) filled.0.valid filled.1 in
    (
      sym dropped.1 ∙ ap (λ (t : ℕ). t % 2 ^ n) filled.0.same,
      record {
        valid = dropped.0.valid;
        rest = dropped.0.rest ∙ ap (λ (t : ℕ). t / 2 ^ n) filled.0.same;
        src = dropped.0.src ∙ filled.0.src;
      },
    )

-- `bs_align` drops the bits that are left of the byte at which the reader stands.
pub bs_align-Dropped :
    (bs : BitStream)
    → IsValid bs
    → Dropped (bs.nbits % 8) bs (bs_align bs) × ((bs_align bs).nbits % 8 ≡ 0)
unfolding bs_align
bs_align-Dropped bs v =
    ((drop-Dropped (bs.nbits % 8) bs v (omega arith)).0, omega (arith, v.narrow))

-- From a valid stream `bs_read_u16_le` returns the two bytes after the next byte boundary, the low
-- one first, and takes exactly these and the bits before them away from what is unread.
pub bs_read_u16_le-lem :
    (bs : BitStream)
    → IsValid bs
    → let next = unread bs / 2 ^ (bs.nbits % 8) in
      ((bs_read_u16_le bs).0 ≡ next % 2 ^ 16)
      × IsValid (bs_read_u16_le bs).1
      × (unread (bs_read_u16_le bs).1 ≡ next / 2 ^ 16)
unfolding bs_read_u16_le
bs_read_u16_le-lem bs v =
    let aligned = (bs_align-Dropped bs v).0 in
    let low = bs_read-lem 8 (bs_align bs) aligned.valid (omega arith) in
    let high = bs_read-lem 8 (bs_read 8 (bs_align bs)).1 low.1.valid (omega arith) in
    let joined =
      bit_or_shifted 8 (bs_read 8 (bs_align bs)).0 (bs_read 8 (bs_read 8 (bs_align bs)).1).0
        (omega (arith, low.0)) in
    (
      joined ∙ omega (arith, low.0, low.1.rest, high.0, aligned.rest),
      high.1.valid,
      omega (arith, low.1.rest, high.1.rest, aligned.rest),
    )

-- A reader at the start of its input has all of it to read.
pub bs_init-lem :
    (src : List ℕ)
    → ((i : ℕ) → get_or src i 0 < 256)
    → IsValid (bs_init src) × (unread (bs_init src) ≡ le_value src)
unfolding bs_init unread
bs_init-lem src bytes = (
  record { bytes = bytes; in_src = omega arith; fits = omega arith; narrow = omega arith },
  omega arith,
)
