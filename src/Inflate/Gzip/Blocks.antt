-- ===== src/Inflate/Gzip/Blocks.antt =====
-- The sequence of blocks in `inflate_gzip` of src/inflate.c ends.
use computer_os.Prelude.{
  ℕ, zero, suc, ◌/◌, ◌%◌, ◌^◌, ◌<◌, ◌≡◌, refl, ◌∙◌, ap, Bool, true, false, Option, none, some,
  arith, ◌==◌, bit_xor, u8, Bool-cases, inl, inr,
}
use native.Mathlib.Nat.{pow-suc, zero-div}
use computer_os.Inflate.Run.{Run, done, failed, and_then}
use computer_os.Inflate.Stream.{BitStream, bs_read, bs_align, bs_read_u16_le}
use computer_os.Inflate.Stream.Fill.{IsValid, unread}
use computer_os.Inflate.Stream.Read.{Dropped, bs_read-lem, bs_align-Dropped, bs_read_u16_le-lem}
use computer_os.Inflate.Stream.Moved.{
  Moved, Moved-refl, Moved-trans, Moved-of_Dropped, bs_read-Moved, u16-Moved,
}
use computer_os.Inflate.Huffman.{fixed_litlen, fixed_dist}
use computer_os.Inflate.Output.{OutBuf}
use computer_os.Inflate.Output.Copy
use computer_os.Inflate.Output.Copy.{
  Extends, Extends-refl, Extends-trans, Wrote, wrote, full, out_byte-Wrote,
}
use computer_os.Inflate.Block.Loop.{Ended, returned, gave_up, Ended-trans, inflate_block-Ended}
use computer_os.Inflate.Dynamic.Ends.{built-Ended, inflate_dynamic-Ended}
use computer_os.Inflate.Gzip.{stored_loop, stored_block, one_block, blocks, rounds_for}

byte-Ended :
    (n : ℕ) (bs bs' : BitStream) (out : OutBuf) {b : ℕ} {o : Option OutBuf}
    → Moved bs bs'
    → Wrote out b o
    → ((out' : OutBuf) → Copy.IsValid out' → Ended bs' out' (stored_loop n bs' out'))
    → Ended bs out (elim o [ none ↦ failed | some out' ↦ stored_loop n bs' out' ])
byte-Ended n bs bs' out m (full at_end) ih = gave_up
byte-Ended n bs bs' out m (wrote {out'} ext next byte) ih = Ended-trans m ext (ih out' ext.valid)

stored_loop-Ended :
    (n : ℕ) (bs : BitStream) (out : OutBuf)
    → IsValid bs
    → Copy.IsValid out
    → Ended bs out (stored_loop n bs out)
unfolding stored_loop
stored_loop-Ended zero bs out v w = returned (Moved-refl v) (Extends-refl w)
stored_loop-Ended (suc n) bs out v w =
    let read = bs_read-Moved 8 bs v (omega arith) in
    byte-Ended n bs (bs_read 8 bs).1 out read (out_byte-Wrote out (u8 (bs_read 8 bs).0) w)
      (λ out' w'. stored_loop-Ended n (bs_read 8 bs).1 out' read.valid w')

stored_block-Ended :
    (bs : BitStream) (out : OutBuf)
    → IsValid bs
    → Copy.IsValid out
    → Ended bs out (stored_block bs out)
unfolding stored_block
stored_block-Ended bs out v w = elim (Bool-cases checked) [
  | inr bad ↦ rw bad gave_up
  | inl good ↦ rw good (
      Ended-trans (Moved-trans aligned (Moved-trans first second)) (Extends-refl w)
        (stored_loop-Ended _ _ out second.valid w))
]
  where
    bs1 : BitStream
    bs1 = (bs_read_u16_le (bs_align bs)).1

    checked : Bool
    checked = bit_xor (bs_read_u16_le (bs_align bs)).0 (bs_read_u16_le bs1).0 == 0xffff

    aligned : Moved bs (bs_align bs)
    aligned = Moved-of_Dropped (bs.nbits % 8) (bs_align-Dropped bs v).0

    first : Moved (bs_align bs) bs1
    first = u16-Moved (bs_align bs) aligned.valid

    second : Moved bs1 (bs_read_u16_le bs1).1
    second = u16-Moved bs1 first.valid

exhausted :
    (bs : BitStream)
    → IsValid bs
    → unread bs ≡ 0
    → ((bs_read_u16_le bs).0 ≡ 0)
      × IsValid (bs_read_u16_le bs).1
      × (unread (bs_read_u16_le bs).1 ≡ 0)
exhausted bs v none_left =
    let read = bs_read_u16_le-lem bs v in
    let next : unread bs / 2 ^ (bs.nbits % 8) ≡ 0 =
      ap (λ (t : ℕ). t / 2 ^ (bs.nbits % 8)) none_left ∙ zero-div _ in
    (omega (arith, read.0, next), read.1, omega (arith, read.2, next))

-- A stored block behind the end of the input is refused: its two lengths are both 0.
stored_block-exhausted :
    (bs : BitStream) (out : OutBuf) → IsValid bs → unread bs ≡ 0 → stored_block bs out ≡ failed
unfolding stored_block
stored_block-exhausted bs out v none_left = rw (first_zero, second_zero)
  where
    aligned : Dropped (bs.nbits % 8) bs (bs_align bs)
    aligned = (bs_align-Dropped bs v).0

    aligned_zero : unread (bs_align bs) ≡ 0
    aligned_zero = aligned.rest ∙ ap (λ (t : ℕ). t / 2 ^ (bs.nbits % 8)) none_left ∙ zero-div _

    first :
        ((bs_read_u16_le (bs_align bs)).0 ≡ 0)
        × IsValid (bs_read_u16_le (bs_align bs)).1
        × (unread (bs_read_u16_le (bs_align bs)).1 ≡ 0)
    first = exhausted (bs_align bs) aligned.valid aligned_zero

    first_zero : (bs_read_u16_le (bs_align bs)).0 ≡ 0
    first_zero = first.0

    second_zero : (bs_read_u16_le (bs_read_u16_le (bs_align bs)).1).0 ≡ 0
    second_zero = (exhausted (bs_read_u16_le (bs_align bs)).1 first.1 first.2).0

one_block-stored : (bs : BitStream) (out : OutBuf) → one_block 0 bs out ≡ stored_block bs out
unfolding one_block
one_block-stored bs out = refl

pub one_block-Ended :
    (btype : ℕ) (bs : BitStream) (out : OutBuf)
    → IsValid bs
    → Copy.IsValid out
    → Ended bs out (one_block btype bs out)
unfolding one_block
one_block-Ended btype bs out v w = elim (Bool-cases (btype == 0)) [
  | inl stored ↦ rw stored (stored_block-Ended bs out v w)
  | inr other ↦ rw other (elim (Bool-cases (btype == 1)) [
    | inl fixed ↦ rw fixed (
        built-Ended bs out fixed_litlen _ λ litlen.
          built-Ended bs out fixed_dist _
            λ dist_h. inflate_block-Ended litlen dist_h (rounds_for out) bs out v w (omega arith))
    | inr not1 ↦ rw not1 (elim (Bool-cases (btype == 2)) [
      | inl dynamic ↦ rw dynamic (inflate_dynamic-Ended (rounds_for out) bs out v w (omega arith))
      | inr reserved ↦ rw reserved gave_up
    ])
  ])
]

again-Ended :
    (fuel final : ℕ) (bs bs2 : BitStream) (out : OutBuf) {r : Run (BitStream × OutBuf)}
    → Moved bs bs2
    → Ended bs2 out r
    → ((bs3 : BitStream) (out' : OutBuf)
        → Moved bs2 bs3
        → Copy.IsValid out'
        → Ended bs3 out' (blocks fuel bs3 out'))
    → Ended bs out (
        and_then r λ (bs3, out'). elim (final == 0) [
          | true ↦ blocks fuel bs3 out'
          | false ↦ done (bs3, out')
        ])
again-Ended fuel final bs bs2 out m gave_up ih = gave_up
again-Ended fuel final bs bs2 out m (returned {bs'} {out'} m' e) ih =
    elim (Bool-cases (final == 0)) [
      | inl more ↦ rw more (Ended-trans (Moved-trans m m') e (ih bs' out' m' e.valid))
      | inr last ↦ rw last (returned (Moved-trans m m') e)
    ]

-- From a valid stream and output, the loop over the blocks ends within one round more than the bits
-- that are left: it returns -1, or it has only read on in the input and only appended to the
-- output, inside its capacity.
pub blocks-Ended :
    (k : ℕ) (bs : BitStream) (out : OutBuf)
    → IsValid bs
    → Copy.IsValid out
    → unread bs < 2 ^ k
    → Ended bs out (blocks (suc k) bs out)
unfolding blocks
blocks-Ended zero bs out v w few = rw refused gave_up
  where
    bs1 : BitStream
    bs1 = (bs_read 1 bs).1

    one : ((bs_read 1 bs).0 ≡ unread bs % 2 ^ 1) × Dropped 1 bs bs1
    one = bs_read-lem 1 bs v (omega arith)

    two : ((bs_read 2 bs1).0 ≡ unread bs1 % 2 ^ 2) × Dropped 2 bs1 (bs_read 2 bs1).1
    two = bs_read-lem 2 bs1 one.1.valid (omega arith)

    stored : (bs_read 2 bs1).0 ≡ 0
    stored = omega (arith, two.0, one.1.rest)

    refused : one_block (bs_read 2 bs1).0 (bs_read 2 bs1).1 out ≡ failed
    refused = rw stored (
        one_block-stored (bs_read 2 bs1).1 out
        ∙ stored_block-exhausted (bs_read 2 bs1).1 out two.1.valid
            (omega (arith, two.1.rest, one.1.rest)))
blocks-Ended (suc k) bs out v w few =
    let one = bs_read-lem 1 bs v (omega arith) in
    let two = bs_read-Moved 2 (bs_read 1 bs).1 one.1.valid (omega arith) in
    again-Ended (suc k) (bs_read 1 bs).0 bs (bs_read 2 (bs_read 1 bs).1).1 out
      (Moved-trans (Moved-of_Dropped 1 one.1) two)
      (one_block-Ended (bs_read 2 (bs_read 1 bs).1).0 (bs_read 2 (bs_read 1 bs).1).1 out two.valid
        w)
      (λ bs3 out' m w'.
        blocks-Ended k bs3 out' m.valid w'
          (omega (arith, m.less, two.less, one.1.rest, pow-suc 2 k)))
