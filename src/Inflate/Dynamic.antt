-- ===== src/Inflate/Dynamic.antt =====
-- Blocks with their own code tables, in src/inflate.c.
pub mod Lengths
pub mod Ends
use computer_os.Prelude.{
  ℕ, zero, suc, ◌+◌, ◌-◌, Bool, true, false, ◌||◌, Option, none, some, List, [], ◌∷◌, ltb, leb,
  ◌==◌, if◌then◌else◌, get_or, set, replicate, take, drop, u8,
}
use computer_os.Inflate.Run.{Run, done, failed, out_of_fuel, and_then}
use computer_os.Inflate.Stream.{BitStream, bs_read}
use computer_os.Inflate.Huffman.{Huffman, huff_build, huff_decode, blank}
use computer_os.Inflate.Output.{OutBuf}
use computer_os.Inflate.Block.{inflate_block}

abbrev pub codelen_order : List ℕ
codelen_order =
    16 ∷ 17 ∷ 18 ∷ 0 ∷ 8 ∷ 7 ∷ 9 ∷ 6 ∷ 10 ∷ 5 ∷ 11 ∷ 4 ∷ 12 ∷ 3 ∷ 13 ∷ 2 ∷ 14 ∷ 1 ∷ 15 ∷ []

-- `n` rounds of the loop that reads the lengths of the code length alphabet, from round `i` on.
pub read_codelens : ℕ → ℕ → List ℕ → BitStream → List ℕ × BitStream
read_codelens zero i ls bs = (ls, bs)
read_codelens (suc n) i ls bs =
    let (v, bs') = bs_read 3 bs in
    read_codelens n (i + 1) (set ls (get_or codelen_order i 0) (u8 v)) bs'

-- `for (r = 0; r < rep && i < total; r++) all_lengths[i++] = v`.
pub repeat_length : ℕ → ℕ → ℕ → ℕ → List ℕ → ℕ × List ℕ
repeat_length total v zero i all = (i, all)
repeat_length total v (suc r) i all =
    let rest = repeat_length total v r (i + 1) (set all i v) in
    if ltb i total then rest else (i, all)

-- One round of `while (i < total)`: the next index and array, or the result -1.
pub data Round : Type 0 where
  next : ℕ × List ℕ → BitStream → Round
  bad : Round

-- The repetition of `v` for at least `least` times, by `n` bits.
pub repeat_round : ℕ → ℕ → ℕ → ℕ → ℕ → List ℕ → BitStream → Round
repeat_round total v n least i all bs =
    let (extra, bs') = bs_read n bs in next (repeat_length total v (extra + least) i all) bs'

pub length_round : ℕ → ℕ → List ℕ → Option ℕ × BitStream → Round
length_round total i all (none, bs) = bad
length_round total i all (some sym, bs) =
    if ltb sym 16
    then next (i + 1, set all i (u8 sym)) bs
    else if sym == 16
    then (if i == 0 then bad else repeat_round total (get_or all (i - 1) 0) 2 3 i all bs)
    else if sym == 17
    then repeat_round total 0 3 3 i all bs
    else if sym == 18
    then repeat_round total 0 7 11 i all bs
    else bad

-- `fuel` bounds the rounds.
pub read_lengths : Huffman → ℕ → ℕ → ℕ × List ℕ → BitStream → Run (List ℕ × BitStream)
read_lengths cl_tree total zero at bs = out_of_fuel
read_lengths cl_tree total (suc fuel) (i, all) bs = elim (ltb i total) [
  | false ↦ done (all, bs)
  | true ↦ elim (length_round total i all (huff_decode cl_tree bs)) [
    | next at bs' ↦ read_lengths cl_tree total fuel at bs'
    | bad ↦ failed
  ]
]

abbrev pub built : {A : Type 0} → Option Huffman → (Huffman → Run A) → Run A
built none k = failed
built (some h) k = k h

-- `rounds` is the bound for `inflate_block`.
pub with_lengths : ℕ → ℕ → ℕ → OutBuf → List ℕ × BitStream → Run (BitStream × OutBuf)
with_lengths rounds hlit hdist out (all, bs) =
    built (huff_build blank (take hlit all)) λ litlen_tree.
      built (huff_build blank (take hdist (drop hlit all)))
        λ dist_tree. inflate_block litlen_tree dist_tree rounds bs out

-- `all_lengths` has 316 elements; none is read before it is written.
pub with_codelens : ℕ → ℕ → ℕ → OutBuf → List ℕ × BitStream → Run (BitStream × OutBuf)
with_codelens rounds hlit hdist out (cl_lengths, bs) =
    built (huff_build blank cl_lengths) λ cl_tree.
      and_then (read_lengths cl_tree (hlit + hdist) (hlit + hdist + 1) (0, replicate 316 0) bs)
        (with_lengths rounds hlit hdist out)

pub inflate_dynamic : ℕ → BitStream → OutBuf → Run (BitStream × OutBuf)
inflate_dynamic rounds bs out =
    let (a, bs1) = bs_read 5 bs in
    let (b, bs2) = bs_read 5 bs1 in
    let (c, bs3) = bs_read 4 bs2 in
    let hlit = a + 257 in
    let hdist = b + 1 in
    let hclen = c + 4 in
    if ltb 286 hlit || ltb 30 hdist || ltb 19 hclen
    then failed
    else with_codelens rounds hlit hdist out (read_codelens hclen 0 (replicate 19 0) bs3)
