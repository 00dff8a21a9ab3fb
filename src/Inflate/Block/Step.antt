-- ===== src/Inflate/Block/Step.antt =====
-- One round of `inflate_block` in src/inflate.c.
use computer_os.Prelude.{
  ℕ, ◌+◌, ◌-◌, ◌<◌, ◌≤◌, refl, Option, none, some, arith, ltb, leb, ◌==◌, get_or, Bool-cases, inl,
  inr, get_or-le, get_or-ge,
}
use computer_os.Inflate.Stream.{BitStream, bs_read}
use computer_os.Inflate.Stream.Moved.{Moved, Moved-trans, bs_read-Moved}
use computer_os.Inflate.Huffman.{Huffman, huff_decode}
use computer_os.Inflate.Huffman.Moves.{huff_decode-Moved}
use computer_os.Inflate.Output.{OutBuf}
use computer_os.Inflate.Output.Copy
use computer_os.Inflate.Output.Copy.{
  Extends, Extends-refl, Wrote, out_byte-Wrote, Copied, Copy, out_copy-Copy, wrote, full, overflow,
  copied, too_far,
}
use computer_os.Inflate.Block.{
  len_extra, len_base, dist_extra, dist_base, Round, again, stop, bad, again_with, distance_round,
  length_round, symbol_round,
}

-- A round reads on and, unless it is the last, writes at least one byte.
pub data Progress (bs : BitStream) (out : OutBuf) : Round → Type 0 where
  goes_on :
      {bs' : BitStream} {out' : OutBuf}
      → Moved bs bs'
      → Extends out out'
      → out.pos < out'.pos
      → Progress bs out (again bs' out')
  ends :
      {bs' : BitStream} {out' : OutBuf}
      → Moved bs bs'
      → Extends out out'
      → Progress bs out (stop bs' out')
  fails : Progress bs out bad

literal-Progress :
    {bs bs' : BitStream} {out : OutBuf} {b : ℕ} {o : Option OutBuf}
    → Moved bs bs'
    → Wrote out b o
    → Progress bs out (again_with bs' o)
literal-Progress m (wrote ext next byte) = goes_on m ext (omega arith)
literal-Progress m (full at_end) = fails

Copy-Progress :
    {bs bs' : BitStream} {out : OutBuf} {dist len : ℕ} {o : Option OutBuf}
    → Moved bs bs'
    → 0 < len
    → Copy dist len out o
    → Progress bs out (again_with bs' o)
Copy-Progress m pos (copied near c) = goes_on m c.extends (omega (arith, c.count))
Copy-Progress m pos (too_far far) = fails
Copy-Progress m pos (overflow short) = fails

-- The extra bits are few enough for the bit buffer, and no distance is 0.
dist_extra-le : (d : ℕ) → get_or dist_extra d 0 ≤ 24
dist_extra-le d = get_or-le dist_extra 24 d refl

len_extra-le : (lcode : ℕ) → get_or len_extra lcode 0 ≤ 24
len_extra-le lcode = get_or-le len_extra 24 lcode refl

dist_base-ge : (d : ℕ) → d < 30 → 1 ≤ get_or dist_base d 0
dist_base-ge d h = get_or-ge dist_base 1 d refl h

len_base-ge : (lcode : ℕ) → lcode < 29 → 3 ≤ get_or len_base lcode 0
len_base-ge lcode h = get_or-ge len_base 3 lcode refl h

distance-Progress :
    (len : ℕ) (bs : BitStream) (out : OutBuf) (r : Option ℕ × BitStream)
    → 0 < len
    → Copy.IsValid out
    → Moved bs r.1
    → Progress bs out (distance_round len out r)
unfolding distance_round
distance-Progress len bs out (none, bs1) pos v m = fails
distance-Progress len bs out (some d, bs1) pos v m = elim (Bool-cases (leb 30 d)) [
  | inl high ↦ rw high fails
  | inr known ↦
      let read = bs_read-Moved (get_or dist_extra d 0) bs1 m.valid (dist_extra-le d) in
      let base = dist_base-ge d (ground arith) in
      rw known (
        Copy-Progress (Moved-trans m read) pos (
          out_copy-Copy (get_or dist_base d 0 + (bs_read (get_or dist_extra d 0) bs1).0) len out
            (omega arith) v))
]

length-Progress :
    (dist_h : Huffman) (lcode : ℕ) (bs bs1 : BitStream) (out : OutBuf)
    → Copy.IsValid out
    → Moved bs bs1
    → Progress bs out (length_round dist_h lcode bs1 out)
unfolding length_round
length-Progress dist_h lcode bs bs1 out v m = elim (Bool-cases (leb 29 lcode)) [
  | inl high ↦ rw high fails
  | inr known ↦
      let read = bs_read-Moved (get_or len_extra lcode 0) bs1 m.valid (len_extra-le lcode) in
      let base = len_base-ge lcode (ground arith) in
      rw known (
        distance-Progress (get_or len_base lcode 0 + (bs_read (get_or len_extra lcode 0) bs1).0) bs
          out (huff_decode dist_h (bs_read (get_or len_extra lcode 0) bs1).1) (omega arith) v
          (Moved-trans m (Moved-trans read (huff_decode-Moved dist_h _ read.valid))))
]

-- Every round makes progress, whatever the two code tables are.
pub symbol-Progress :
    (dist_h : Huffman) (bs : BitStream) (out : OutBuf) (r : Option ℕ × BitStream)
    → Copy.IsValid out
    → Moved bs r.1
    → Progress bs out (symbol_round dist_h out r)
unfolding symbol_round
symbol-Progress dist_h bs out (none, bs1) v m = fails
symbol-Progress dist_h bs out (some sym, bs1) v m = elim (Bool-cases (ltb sym 256)) [
  | inl literal ↦ rw literal (literal-Progress m (out_byte-Wrote out sym v))
  | inr other ↦ rw other (elim (Bool-cases (sym == 256)) [
    | inl last ↦ rw last (ends m (Extends-refl v))
    | inr more ↦ rw more (length-Progress dist_h (sym - 257) bs bs1 out v m)
  ])
]
