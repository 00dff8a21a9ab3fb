-- ===== src/Inflate/Dynamic/Ends.antt =====
-- `inflate_dynamic` of src/inflate.c terminates and stays inside its buffer.
use computer_os.Prelude.{
  ℕ, ◌+◌, ◌-◌, ◌<◌, Bool, ◌||◌, Option, none, some, List, arith, ltb, replicate, take, drop,
  Bool-cases, inl, inr,
}
use computer_os.Inflate.Run.{Run, and_then}
use computer_os.Inflate.Stream.{BitStream, bs_read}
use computer_os.Inflate.Stream.Fill.{IsValid}
use computer_os.Inflate.Stream.Moved.{Moved, Moved-trans, bs_read-Moved}
use computer_os.Inflate.Huffman.{Huffman, huff_build, blank}
use computer_os.Inflate.Output.{OutBuf}
use computer_os.Inflate.Output.Copy
use computer_os.Inflate.Output.Copy.{Extends-refl}
use computer_os.Inflate.Block.Loop.{Ended, gave_up, Ended-trans, inflate_block-Ended}
use computer_os.Inflate.Dynamic.{read_codelens, built, with_lengths, with_codelens, inflate_dynamic}
use computer_os.Inflate.Dynamic.Lengths
use computer_os.Inflate.Dynamic.Lengths.{Read, read_codelens-Moved, read_lengths-Read}

-- A table that cannot be built is a failure; any other serves.
pub built-Ended :
    (bs : BitStream) (out : OutBuf) (o : Option Huffman) (k : Huffman → Run (BitStream × OutBuf))
    → ((h : Huffman) → Ended bs out (k h))
    → Ended bs out (built o k)
built-Ended bs out none k ends = gave_up
built-Ended bs out (some h) k ends = ends h

module _ (rounds hlit hdist : ℕ) (out : OutBuf) (w : Copy.IsValid out)
    (room : out.cap - out.pos < rounds) where
  with_lengths-Ended :
      (all : List ℕ) (bs : BitStream)
      → IsValid bs
      → Ended bs out (with_lengths rounds hlit hdist out (all, bs))
  unfolding with_lengths
  with_lengths-Ended all bs v =
      built-Ended bs out (huff_build blank (take hlit all)) _ λ litlen_tree.
        built-Ended bs out (huff_build blank (take hdist (drop hlit all))) _
          λ dist_tree. inflate_block-Ended litlen_tree dist_tree rounds bs out v w room

  after-Ended :
      (bs : BitStream) {r : Run (List ℕ × BitStream)}
      → Read bs r
      → Ended bs out (and_then r (with_lengths rounds hlit hdist out))
  after-Ended bs (Lengths.returned {all} {bs'} m) =
      Ended-trans m (Extends-refl w) (with_lengths-Ended all bs' m.valid)
  after-Ended bs Lengths.gave_up = gave_up

  with_codelens-Ended :
      (ls : List ℕ) (bs : BitStream)
      → IsValid bs
      → Ended bs out (with_codelens rounds hlit hdist out (ls, bs))
  unfolding with_codelens
  with_codelens-Ended ls bs v = built-Ended bs out (huff_build blank ls) _ λ cl_tree.
      after-Ended bs (
        read_lengths-Read cl_tree (hlit + hdist) (hlit + hdist + 1) (0, replicate 316 0) bs v
          (omega arith))

-- With more rounds than the output has room for bytes, and from a valid stream and output,
-- `inflate_dynamic` ends, also while it reads its own code lengths: it returns -1, or it has only
-- read on in the input and only appended to the output.
pub inflate_dynamic-Ended :
    (rounds : ℕ) (bs : BitStream) (out : OutBuf)
    → IsValid bs
    → Copy.IsValid out
    → out.cap - out.pos < rounds
    → Ended bs out (inflate_dynamic rounds bs out)
unfolding inflate_dynamic
inflate_dynamic-Ended rounds bs out v w room = elim (Bool-cases refused) [
  | inl stop ↦ rw stop gave_up
  | inr go ↦ rw go (
      Ended-trans (Moved-trans head table) (Extends-refl w) (
        with_codelens-Ended rounds ((bs_read 5 bs).0 + 257) ((bs_read 5 (bs_read 5 bs).1).0 + 1) out
          w room _ _ table.valid))
]
  where
    one : Moved bs (bs_read 5 bs).1
    one = bs_read-Moved 5 bs v (omega arith)

    two : Moved (bs_read 5 bs).1 (bs_read 5 (bs_read 5 bs).1).1
    two = bs_read-Moved 5 (bs_read 5 bs).1 one.valid (omega arith)

    rest : BitStream
    rest = (bs_read 4 (bs_read 5 (bs_read 5 bs).1).1).1

    head : Moved bs rest
    head =
        Moved-trans one
          (Moved-trans two (bs_read-Moved 4 (bs_read 5 (bs_read 5 bs).1).1 two.valid (omega arith)))

    hclen : ℕ
    hclen = (bs_read 4 (bs_read 5 (bs_read 5 bs).1).1).0 + 4

    table : Moved rest (read_codelens hclen 0 (replicate 19 0) rest).1
    table = read_codelens-Moved hclen 0 (replicate 19 0) rest head.valid

    refused : Bool
    refused =
        ltb 286 ((bs_read 5 bs).0 + 257)
        || ltb 30 ((bs_read 5 (bs_read 5 bs).1).0 + 1)
        || ltb 19 hclen
