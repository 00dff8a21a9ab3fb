-- ===== src/Inflate/Block/Loop.antt =====
-- `inflate_block` of src/inflate.c terminates, stays inside its buffer and keeps what was written.
use computer_os.Prelude.{ℕ, zero, suc, ◌-◌, ◌<◌, arith}
use computer_os.Inflate.Run.{Run, done, failed}
use computer_os.Inflate.Stream.{BitStream}
use computer_os.Inflate.Stream.Fill.{IsValid}
use computer_os.Inflate.Stream.Moved.{Moved, Moved-trans}
use computer_os.Inflate.Huffman.{Huffman, huff_decode}
use computer_os.Inflate.Huffman.Moves.{huff_decode-Moved}
use computer_os.Inflate.Output.{OutBuf}
use computer_os.Inflate.Output.Copy
use computer_os.Inflate.Output.Copy.{Extends, Extends-trans}
use computer_os.Inflate.Block.{Round, again, stop, bad, inflate_block}
use computer_os.Inflate.Block.Step.{Progress, goes_on, ends, fails, symbol-Progress}

-- A run that ends: it fails, or it has read on and appended to the output.
pub data Ended (bs : BitStream) (out : OutBuf) : Run (BitStream × OutBuf) → Type 0 where
  returned :
      {bs' : BitStream} {out' : OutBuf}
      → Moved bs bs'
      → Extends out out'
      → Ended bs out (done (bs', out'))
  gave_up : Ended bs out failed

pub Ended-trans :
    {bs bs' : BitStream} {out out' : OutBuf} {r : Run (BitStream × OutBuf)}
    → Moved bs bs'
    → Extends out out'
    → Ended bs' out' r
    → Ended bs out r
Ended-trans m e (returned m' e') = returned (Moved-trans m m') (Extends-trans e e')
Ended-trans m e gave_up = gave_up

next-Ended :
    (litlen dist_h : Huffman) (fuel : ℕ) (bs : BitStream) (out : OutBuf) {r : Round}
    → Progress bs out r
    → out.cap - out.pos < suc fuel
    → ((bs' : BitStream) (out' : OutBuf)
        → IsValid bs'
        → Copy.IsValid out'
        → out'.cap - out'.pos < fuel
        → Ended bs' out' (inflate_block litlen dist_h fuel bs' out'))
    → Ended bs out (elim r [
      | again bs' out' ↦ inflate_block litlen dist_h fuel bs' out'
      | stop bs' out' ↦ done (bs', out')
      | bad ↦ failed
    ])
next-Ended litlen dist_h fuel bs out (goes_on {bs'} {out'} m e more) room ih =
    Ended-trans m e (ih bs' out' m.valid e.valid (omega (arith, e.cap, e.valid.within)))
next-Ended litlen dist_h fuel bs out (ends m e) room ih = returned m e
next-Ended litlen dist_h fuel bs out fails room ih = gave_up

-- With more rounds than the output has room for bytes, and from a valid stream and output,
-- `inflate_block` ends, also on input that has run out and whatever the code tables are: it returns
-- -1, or it has only read on in the input and only appended to the output, inside its capacity.
pub inflate_block-Ended :
    (litlen dist_h : Huffman) (fuel : ℕ) (bs : BitStream) (out : OutBuf)
    → IsValid bs
    → Copy.IsValid out
    → out.cap - out.pos < fuel
    → Ended bs out (inflate_block litlen dist_h fuel bs out)
unfolding inflate_block
inflate_block-Ended litlen dist_h zero bs out v w room = absurd (omega arith)
inflate_block-Ended litlen dist_h (suc fuel) bs out v w room =
    next-Ended litlen dist_h fuel bs out
      (symbol-Progress dist_h bs out (huff_decode litlen bs) w (huff_decode-Moved litlen bs v)) room
      (inflate_block-Ended litlen dist_h fuel)
