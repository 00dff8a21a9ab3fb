-- ===== src/Inflate/Gzip.antt =====
-- The gzip container of src/inflate.c: header, sequence of blocks, trailer.
pub mod Header
pub mod Blocks
pub mod Whole
use computer_os.Prelude.{
  ℕ, zero, suc, ◌+◌, ◌-◌, ◌*◌, ◌/◌, ◌%◌, ◌^◌, Bool, true, false, ◌||◌, not, Option, none, some,
  List, [], ◌∷◌, ltb, leb, ◌==◌, if◌then◌else◌, get_or, length, take, drop, bit_or, bit_xor, u8,
  u32, ℤ, int_of, ◌<<<◌, ◌>>>◌,
}
use computer_os.Inflate.Run.{Run, done, failed, out_of_fuel, and_then}
use computer_os.Inflate.Stream.{BitStream, bs_init, bs_read, bs_align, bs_read_u16_le}
use computer_os.Inflate.Huffman.{fixed_litlen, fixed_dist}
use computer_os.Inflate.Output.{OutBuf, out_byte}
use computer_os.Inflate.Block.{inflate_block}
use computer_os.Inflate.Dynamic.{inflate_dynamic, built}

-- `crc32`: eight rounds for each byte.
unfoldable pub crc_bits : ℕ → ℕ → ℕ
crc_bits zero crc = crc
crc_bits (suc n) crc = crc_bits n (bit_xor (crc >>> 1) (if crc % 2 == 1 then 0xedb88320 else 0))

unfoldable pub crc_bytes : List ℕ → ℕ → ℕ
crc_bytes [] crc = crc
crc_bytes (b ∷ r) crc = crc_bytes r (crc_bits 8 (bit_xor crc b))

unfoldable pub crc32 : List ℕ → ℕ
crc32 bytes = bit_xor (crc_bytes bytes 0xffffffff) 0xffffffff

-- Bit `k` of the flags byte.
abbrev pub flag : ℕ → ℕ → Bool
flag flags k = (flags >>> k) % 2 == 1

-- `while (pos < in_len && in[pos] != 0) pos++;` with `n` bytes left.
unfoldable pub skip_string : List ℕ → ℕ → ℕ → ℕ
skip_string input zero pos = pos
skip_string input (suc n) pos =
    let rest = skip_string input n (pos + 1) in if get_or input pos 0 == 0 then pos else rest

-- The field after the end of a string, if the flag is set.
unfoldable pub skip_flagged : Bool → List ℕ → ℕ → ℕ
skip_flagged set input pos =
    if set then u32 (skip_string input (length input - pos) pos + 1) else pos

-- FEXTRA; `none` is the result -1.
unfoldable pub skip_extra : ℕ → List ℕ → Option ℕ
skip_extra flags input =
    if flag flags 2
    then (if ltb (length input) 12
        then none
        else some (10 + (2 + bit_or (get_or input 10 0) (get_or input 11 0 <<< 8))))
    else some 10

unfoldable pub skip_rest : ℕ → List ℕ → ℕ → Option ℕ
skip_rest flags input pos =
    let named = skip_flagged (flag flags 3) input pos in
    let commented = skip_flagged (flag flags 4) input named in
    let checked = if flag flags 1 then u32 (commented + 2) else commented in
    if leb (length input) checked then none else some checked

-- The position of the compressed data.
unfoldable pub header : List ℕ → Option ℕ
header input =
    if ltb (length input) 18
    then none
    else if not (get_or input 0 0 == 0x1f) || not (get_or input 1 0 == 0x8b)
    then none
    else if not (get_or input 2 0 == 8)
    then none
    else elim (skip_extra (get_or input 3 0) input) [
      | none ↦ none
      | some pos ↦ skip_rest (get_or input 3 0) input pos
    ]

-- `n` rounds of the loop over a stored block.
unfoldable pub stored_loop : ℕ → BitStream → OutBuf → Run (BitStream × OutBuf)
stored_loop zero bs out = done (bs, out)
stored_loop (suc n) bs out =
    let (b, bs') = bs_read 8 bs in
    elim (out_byte out (u8 b)) [ none ↦ failed | some out' ↦ stored_loop n bs' out' ]

unfoldable pub stored_block : BitStream → OutBuf → Run (BitStream × OutBuf)
stored_block bs out =
    let (blen, bs1) = bs_read_u16_le (bs_align bs) in
    let (bnlen, bs2) = bs_read_u16_le bs1 in
    if bit_xor blen bnlen == 0xffff then stored_loop blen bs2 out else failed

-- More rounds than the output has room for.
abbrev pub rounds_for : OutBuf → ℕ
rounds_for out = out.cap - out.pos + 1

unfoldable pub one_block : ℕ → BitStream → OutBuf → Run (BitStream × OutBuf)
one_block btype bs out =
    if btype == 0
    then stored_block bs out
    else if btype == 1
    then (built fixed_litlen
        λ litlen. built fixed_dist λ dist_h. inflate_block litlen dist_h (rounds_for out) bs out)
    else if btype == 2
    then inflate_dynamic (rounds_for out) bs out
    else failed

-- `while (!final_block)`, entered; `fuel` bounds the rounds.
unfoldable pub blocks : ℕ → BitStream → OutBuf → Run (BitStream × OutBuf)
blocks zero bs out = out_of_fuel
blocks (suc fuel) bs out =
    let (final, bs1) = bs_read 1 bs in
    let (btype, bs2) = bs_read 2 bs1 in
    and_then (one_block btype bs2 out)
      λ (bs3, out'). elim (final == 0) [ true ↦ blocks fuel bs3 out' | false ↦ done (bs3, out') ]

-- Four bytes, the low one first.
unfoldable pub read_u32_le : List ℕ → ℕ → ℕ
read_u32_le input off =
    bit_or
      (bit_or (bit_or (get_or input off 0) (get_or input (off + 1) 0 <<< 8))
        (get_or input (off + 2) 0 <<< 16))
      (get_or input (off + 3) 0 <<< 24)

unfoldable pub trailer_pos : ℕ → BitStream → ℕ
trailer_pos pos bs = u32 (pos + bs.src_pos + 2 ^ 32 - bs.nbits / 8)

unfoldable pub check_trailer : List ℕ → ℕ → BitStream × OutBuf → Run (ℤ × OutBuf)
check_trailer input pos (bs, out) =
    let off = trailer_pos pos (bs_align bs) in
    if ltb (length input) (u32 (off + 8))
    then failed
    else if not (read_u32_le input (off + 4) == out.pos)
    then failed
    else if not (crc32 (take out.pos out.buf) == read_u32_le input off)
    then failed
    else done (int_of out.pos, out)

-- `out` is the caller's buffer. Every block but the last takes at least three bits of the input.
unfoldable pub inflate_gzip : List ℕ → List ℕ → ℕ → Run (ℤ × OutBuf)
inflate_gzip input out out_cap = elim (header input) [
  | none ↦ failed
  | some pos ↦
      and_then
        (blocks (8 * length input + 1) (bs_init (drop pos input))
          (record { buf = out; cap = out_cap; pos = 0 }))
        (check_trailer input pos)
]

pub inflate_gzip_size : List ℕ → ℕ
inflate_gzip_size input = if ltb (length input) 4 then 0 else read_u32_le input (length input - 4)
