-- ===== src/Inflate/Tests.antt =====
-- Runs of the decompressor of src/inflate.c, and the theorems at concrete inputs.
use computer_os.Prelude.{
  ℕ, ◌≡◌, refl, pos, int_of, Option, none, some, List, [], ◌∷◌, arith, get_or-le, replicate,
}
use computer_os.Inflate.Run.{done}
use computer_os.Inflate.Stream.{
  BitStream, bs_init, fill_byte, fill_loop, bs_fill, bs_peek, bs_drop, bs_read, bs_align,
  bs_read_u16_le,
}
use computer_os.Inflate.Stream.Pow.{le_value}
use computer_os.Inflate.Stream.Fill.{IsValid, unread}
use computer_os.Inflate.Huffman.{
  Huffman, tally, base_codes, base_syms, sort_symbols, huff_build, decode_loop, huff_decode, blank,
  fixed_litlen, fixed_dist,
}
use computer_os.Inflate.Output.{OutBuf, out_byte, copy_loop, out_copy}
use computer_os.Inflate.Output.Copy
use computer_os.Inflate.Output.Copy.{out_copy-Copy}
use computer_os.Inflate.Block.{distance_round, length_round, symbol_round, inflate_block}
use computer_os.Inflate.Block.Loop.{Ended}
use computer_os.Inflate.Gzip.{
  crc_bits, crc_bytes, crc32, skip_flagged, skip_extra, skip_rest, header, stored_loop,
  stored_block, one_block, blocks, read_u32_le, trailer_pos, check_trailer, inflate_gzip,
}
use computer_os.Inflate.Gzip.Blocks.{blocks-Ended}
use computer_os.Inflate.Gzip.Whole.{Inflated, inflate_gzip-Inflated}

crc_run : crc32 (0x61 ∷ []) ≡ 0xe8b7be43
unfolding crc32 crc_bytes crc_bits
crc_run = refl

-- "a" in a stored block.
abbrev stored_a : List ℕ
stored_a =
    0x1f ∷ 0x8b ∷ 8 ∷ 0 ∷ 0 ∷ 0 ∷ 0 ∷ 0 ∷ 0 ∷ 3 ∷ 1 ∷ 1 ∷ 0 ∷ 0xfe ∷ 0xff ∷ 0x61 ∷ 0x43 ∷ 0xbe
    ∷ 0xb7 ∷ 0xe8 ∷ 1 ∷ 0 ∷ 0 ∷ 0 ∷ []

stored_run :
    inflate_gzip stored_a (replicate 4 0) 4
    ≡ done (pos 1, record { buf = 0x61 ∷ 0 ∷ 0 ∷ 0 ∷ []; cap = 4; pos = 1 })
unfolding int_of inflate_gzip header skip_extra skip_rest skip_flagged blocks bs_init fill_byte
    fill_loop bs_fill bs_peek bs_drop bs_read bs_align bs_read_u16_le one_block stored_block
    stored_loop out_byte check_trailer trailer_pos read_u32_le crc32 crc_bytes crc_bits
stored_run = refl

-- Five times "a" in a block of fixed codes: two literals, and a copy of length 3 from distance 1.
abbrev fixed_a : List ℕ
fixed_a =
    0x1f ∷ 0x8b ∷ 8 ∷ 0 ∷ 0 ∷ 0 ∷ 0 ∷ 0 ∷ 0 ∷ 3 ∷ 0x4b ∷ 0x4c ∷ 0x04 ∷ 0x02 ∷ 0x00 ∷ 0xb9 ∷ 0x93
    ∷ 0xac ∷ 0xee ∷ 5 ∷ 0 ∷ 0 ∷ 0 ∷ []

fixed_run :
    inflate_gzip fixed_a (replicate 8 0) 8
    ≡ done (
      pos 5,
      record { buf = 0x61 ∷ 0x61 ∷ 0x61 ∷ 0x61 ∷ 0x61 ∷ 0 ∷ 0 ∷ 0 ∷ []; cap = 8; pos = 5 },
    )
unfolding int_of inflate_gzip header skip_extra skip_rest skip_flagged blocks bs_init fill_byte
    fill_loop bs_fill bs_peek bs_drop bs_read bs_align bs_read_u16_le one_block stored_block
    stored_loop out_byte check_trailer trailer_pos read_u32_le crc32 crc_bytes crc_bits fixed_litlen
    fixed_dist huff_build tally base_codes base_syms sort_symbols huff_decode decode_loop
    inflate_block symbol_round length_round distance_round out_copy copy_loop
fixed_run = refl

-- The stream at the compressed data of `fixed_a`.
abbrev data_a : BitStream
data_a = record { src = 0x4b ∷ 0x4c ∷ 0x04 ∷ 0x02 ∷ 0x00 ∷ []; src_pos = 0; bits = 0; nbits = 0 }

data_a-IsValid : IsValid data_a
data_a-IsValid = record {
  bytes = λ i. omega (arith, get_or-le data_a.src 255 i refl);
  in_src = omega arith;
  fits = omega arith;
  narrow = omega arith;
}

abbrev room : OutBuf
room = record { buf = replicate 8 0; cap = 8; pos = 0 }

room-IsValid : Copy.IsValid room
room-IsValid = record { room = omega arith; within = omega arith }

abbrev table : Option Huffman → Huffman
table none = blank
table (some h) = h

abbrev one_byte : OutBuf
one_byte = record { buf = 0x61 ∷ replicate 7 0; cap = 8; pos = 1 }

copy_run :
    out_copy one_byte 1 4
    ≡ some (record { buf = 0x61 ∷ 0x61 ∷ 0x61 ∷ 0x61 ∷ 0x61 ∷ 0 ∷ 0 ∷ 0 ∷ []; cap = 8; pos = 5 })
unfolding out_copy copy_loop out_byte
copy_run = refl

out_copy-Copy_example : Copy.Copy 1 4 one_byte (out_copy one_byte 1 4)
out_copy-Copy_example =
    out_copy-Copy 1 4 one_byte (omega arith) (record { room = omega arith; within = omega arith })

blocks-Ended_example : Ended data_a room (blocks 41 data_a room)
unfolding unread le_value
blocks-Ended_example = blocks-Ended 40 data_a room data_a-IsValid room-IsValid (omega arith)

inflate_gzip-Inflated_example :
    Inflated stored_a (replicate 4 0) 4 (inflate_gzip stored_a (replicate 4 0) 4)
inflate_gzip-Inflated_example =
    inflate_gzip-Inflated stored_a (replicate 4 0) 4
      (λ i. omega (arith, get_or-le stored_a 255 i refl)) (omega arith) (omega arith) (omega arith)
