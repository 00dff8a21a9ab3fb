-- ===== src/Inflate/Block.antt =====
-- The loop over the symbols of one compressed block in src/inflate.c.
pub mod Step
pub mod Loop
use computer_os.Prelude.{
  ℕ, zero, suc, ◌+◌, ◌-◌, Bool, true, false, Option, none, some, List, [], ◌∷◌, ltb, leb, ◌==◌,
  if◌then◌else◌, get_or, u8, u32,
}
use computer_os.Inflate.Run.{Run, done, failed, out_of_fuel}
use computer_os.Inflate.Stream.{BitStream, bs_read}
use computer_os.Inflate.Huffman.{Huffman, huff_decode}
use computer_os.Inflate.Output.{OutBuf, out_byte, out_copy}

-- The tables for the length codes from 257 and the distance codes.
abbrev pub len_extra : List ℕ
len_extra =
    0 ∷ 0 ∷ 0 ∷ 0 ∷ 0 ∷ 0 ∷ 0 ∷ 0 ∷ 1 ∷ 1 ∷ 1 ∷ 1 ∷ 2 ∷ 2 ∷ 2 ∷ 2 ∷ 3 ∷ 3 ∷ 3 ∷ 3 ∷ 4 ∷ 4 ∷ 4 ∷ 4
    ∷ 5 ∷ 5 ∷ 5 ∷ 5 ∷ 0 ∷ []

abbrev pub len_base : List ℕ
len_base =
    3 ∷ 4 ∷ 5 ∷ 6 ∷ 7 ∷ 8 ∷ 9 ∷ 10 ∷ 11 ∷ 13 ∷ 15 ∷ 17 ∷ 19 ∷ 23 ∷ 27 ∷ 31 ∷ 35 ∷ 43 ∷ 51 ∷ 59 ∷ 67
    ∷ 83 ∷ 99 ∷ 115 ∷ 131 ∷ 163 ∷ 195 ∷ 227 ∷ 258 ∷ []

abbrev pub dist_extra : List ℕ
dist_extra =
    0 ∷ 0 ∷ 0 ∷ 0 ∷ 1 ∷ 1 ∷ 2 ∷ 2 ∷ 3 ∷ 3 ∷ 4 ∷ 4 ∷ 5 ∷ 5 ∷ 6 ∷ 6 ∷ 7 ∷ 7 ∷ 8 ∷ 8 ∷ 9 ∷ 9 ∷ 10 ∷ 10
    ∷ 11 ∷ 11 ∷ 12 ∷ 12 ∷ 13 ∷ 13 ∷ []

abbrev pub dist_base : List ℕ
dist_base =
    1 ∷ 2 ∷ 3 ∷ 4 ∷ 5 ∷ 7 ∷ 9 ∷ 13 ∷ 17 ∷ 25 ∷ 33 ∷ 49 ∷ 65 ∷ 97 ∷ 129 ∷ 193 ∷ 257 ∷ 385 ∷ 513 ∷ 769
    ∷ 1025 ∷ 1537 ∷ 2049 ∷ 3073 ∷ 4097 ∷ 6145 ∷ 8193 ∷ 12289 ∷ 16385 ∷ 24577 ∷ []

-- One round of `for (;;)`: go round again, leave by the `break`, or return -1.
pub data Round : Type 0 where
  again : BitStream → OutBuf → Round
  stop : BitStream → OutBuf → Round
  bad : Round

abbrev pub again_with : BitStream → Option OutBuf → Round
again_with bs none = bad
again_with bs (some out) = again bs out

-- The distance that follows a length; `d` is the decoded distance code.
unfoldable pub distance_round : ℕ → OutBuf → Option ℕ × BitStream → Round
distance_round len out (none, bs) = bad
distance_round len out (some d, bs) =
    if leb 30 d
    then bad
    else (let (extra, bs') = bs_read (get_or dist_extra d 0) bs in
        again_with bs' (out_copy out (get_or dist_base d 0 + extra) len))

-- A back-reference by the length code `lcode`.
unfoldable pub length_round : Huffman → ℕ → BitStream → OutBuf → Round
length_round dist_h lcode bs out =
    if leb 29 lcode
    then bad
    else (let (extra, bs') = bs_read (get_or len_extra lcode 0) bs in
        distance_round (get_or len_base lcode 0 + extra) out (huff_decode dist_h bs'))

unfoldable pub symbol_round : Huffman → OutBuf → Option ℕ × BitStream → Round
symbol_round dist_h out (none, bs) = bad
symbol_round dist_h out (some sym, bs) =
    if ltb sym 256
    then again_with bs (out_byte out sym)
    else if sym == 256
    then stop bs out
    else length_round dist_h (sym - 257) bs out

-- `fuel` bounds the rounds.
unfoldable pub inflate_block : Huffman → Huffman → ℕ → BitStream → OutBuf → Run (BitStream × OutBuf)
inflate_block litlen dist_h zero bs out = out_of_fuel
inflate_block litlen dist_h (suc fuel) bs out =
    elim (symbol_round dist_h out (huff_decode litlen bs)) [
      | again bs' out' ↦ inflate_block litlen dist_h fuel bs' out'
      | stop bs' out' ↦ done (bs', out')
      | bad ↦ failed
    ]
