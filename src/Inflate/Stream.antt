-- ===== src/Inflate/Stream.antt =====
-- The bit-stream reader of src/inflate.c.
pub mod Pow
pub mod Fill
pub mod Read
pub mod Moved
use computer_os.Prelude.{
  ℕ, zero, suc, ◌+◌, ◌-◌, ◌*◌, ◌/◌, ◌%◌, ◌^◌, Bool, true, false, List, ltb, if◌then◌else◌, bit_or,
  get_or, length, ◌<<<◌, ◌>>>◌, u32,
}

-- `src` holds the `src_len` bytes behind the pointer of the source.
pub record BitStream : Type 0 where
  pub src : List ℕ
  pub src_pos : ℕ
  pub bits : ℕ
  pub nbits : ℕ

unfoldable pub bs_init : List ℕ → BitStream
bs_init src = record { src = src; src_pos = 0; bits = 0; nbits = 0 }

-- One round of the loop of `bs_fill`. Behind the end of the input there are zeros.
unfoldable pub fill_byte : BitStream → BitStream
fill_byte bs =
    if ltb bs.src_pos (length bs.src)
    then record bs {
      bits = bit_or bs.bits (u32 (get_or bs.src bs.src_pos 0 <<< bs.nbits));
      src_pos = bs.src_pos + 1;
      nbits = bs.nbits + 8;
    }
    else record bs { nbits = bs.nbits + 8 }

-- The loop, with a bound on its rounds: each adds 8 bits, so `n` rounds are enough.
unfoldable pub fill_loop : ℕ → ℕ → BitStream → BitStream
fill_loop zero n bs = bs
fill_loop (suc fuel) n bs = elim (ltb bs.nbits n) [
  | true ↦ fill_loop fuel n (fill_byte bs)
  | false ↦ bs
]

unfoldable pub bs_fill : ℕ → BitStream → BitStream
bs_fill n bs = fill_loop n n bs

unfoldable pub bs_peek : ℕ → BitStream → ℕ × BitStream
bs_peek n bs = let bs' = bs_fill n bs in (bs'.bits % 2 ^ n, bs')

unfoldable pub bs_drop : ℕ → BitStream → BitStream
bs_drop n bs = record bs { bits = bs.bits >>> n; nbits = u32 (bs.nbits + 2 ^ 32 - n) }

unfoldable pub bs_read : ℕ → BitStream → ℕ × BitStream
bs_read n bs = let (v, bs') = bs_peek n bs in (v, bs_drop n bs')

unfoldable pub bs_align : BitStream → BitStream
bs_align bs =
    let discard = bs.nbits % 8 in
    record bs { bits = bs.bits >>> discard; nbits = u32 (bs.nbits + 2 ^ 32 - discard) }

unfoldable pub bs_read_u16_le : BitStream → ℕ × BitStream
bs_read_u16_le bs =
    let (lo, bs1) = bs_read 8 (bs_align bs) in
    let (hi, bs2) = bs_read 8 bs1 in (bit_or lo (hi <<< 8), bs2)
