-- ===== src/Inflate/Dynamic/Lengths.antt =====
-- The code lengths of a dynamic block in src/inflate.c: each round fills at least one of them.
use computer_os.Prelude.{
  ℕ, zero, suc, ◌+◌, ◌-◌, ◌<◌, ◌≤◌, Option, none, some, List, arith, ltb, ◌==◌, get_or, set,
  Bool-cases, inl, inr,
}
use computer_os.Inflate.Run.{Run, done, failed}
use computer_os.Inflate.Stream.{BitStream, bs_read}
use computer_os.Inflate.Stream.Fill.{IsValid}
use computer_os.Inflate.Stream.Moved.{Moved, Moved-refl, Moved-trans, bs_read-Moved}
use computer_os.Inflate.Huffman.{Huffman, huff_decode}
use computer_os.Inflate.Huffman.Moves.{huff_decode-Moved}
use computer_os.Inflate.Dynamic.{
  read_codelens, repeat_length, Round, next, bad, repeat_round, length_round, read_lengths,
}

pub read_codelens-Moved :
    (n i : ℕ) (ls : List ℕ) (bs : BitStream) → IsValid bs → Moved bs (read_codelens n i ls bs).1
unfolding read_codelens
read_codelens-Moved zero i ls bs v = Moved-refl v
read_codelens-Moved (suc n) i ls bs v =
    let step = bs_read-Moved 3 bs v (omega arith) in
    Moved-trans step (read_codelens-Moved n (i + 1) _ (bs_read 3 bs).1 step.valid)

repeat_length-ge : (total v r i : ℕ) (all : List ℕ) → i ≤ (repeat_length total v r i all).0
unfolding repeat_length
repeat_length-ge total v zero i all = omega arith
repeat_length-ge total v (suc r) i all =
    ground (arith, repeat_length-ge total v r (i + 1) (set all i v))

repeat_length-gt :
    (total v r i : ℕ) (all : List ℕ) → 0 < r → i < total → i < (repeat_length total v r i all).0
unfolding repeat_length
repeat_length-gt total v zero i all pos h = absurd (omega arith)
repeat_length-gt total v (suc r) i all pos h =
    ground (arith, repeat_length-ge total v r (i + 1) (set all i v))

-- A round reads on and fills the array further.
data Progress (bs : BitStream) (i : ℕ) : Round → Type 0 where
  goes_on :
      {at : ℕ × List ℕ} {bs' : BitStream} → Moved bs bs' → i < at.0 → Progress bs i (next at bs')
  fails : Progress bs i bad

repeat-Progress :
    (total v n least i : ℕ) (all : List ℕ) (bs bs1 : BitStream)
    → n ≤ 24
    → 0 < least
    → i < total
    → Moved bs bs1
    → Progress bs i (repeat_round total v n least i all bs1)
unfolding repeat_round
repeat-Progress total v n least i all bs bs1 small pos h m =
    goes_on (Moved-trans m (bs_read-Moved n bs1 m.valid small))
      (repeat_length-gt total v ((bs_read n bs1).0 + least) i all (omega arith) h)

length-Progress :
    (total i : ℕ) (all : List ℕ) (bs : BitStream) (r : Option ℕ × BitStream)
    → i < total
    → Moved bs r.1
    → Progress bs i (length_round total i all r)
unfolding length_round
length-Progress total i all bs (none, bs1) h m = fails
length-Progress total i all bs (some sym, bs1) h m = elim (Bool-cases (ltb sym 16)) [
  | inl plain ↦ rw plain (goes_on m (omega arith))
  | inr other ↦ rw other (elim (Bool-cases (sym == 16)) [
    | inl copy ↦ rw copy (elim (Bool-cases (i == 0)) [
      | inl first ↦ rw first fails
      | inr later ↦ rw later (
          repeat-Progress total (get_or all (i - 1) 0) 2 3 i all bs bs1 (omega arith) (omega arith)
            h m)
    ])
    | inr not16 ↦ rw not16 (elim (Bool-cases (sym == 17)) [
      | inl few ↦ rw few (repeat-Progress total 0 3 3 i all bs bs1 (omega arith) (omega arith) h m)
      | inr not17 ↦ rw not17 (elim (Bool-cases (sym == 18)) [
        | inl many ↦
            rw many (repeat-Progress total 0 7 11 i all bs bs1 (omega arith) (omega arith) h m)
        | inr unknown ↦ rw unknown fails
      ])
    ])
  ])
]

-- The loop ends: it fails or has read on.
pub data Read (bs : BitStream) : Run (List ℕ × BitStream) → Type 0 where
  returned : {all : List ℕ} {bs' : BitStream} → Moved bs bs' → Read bs (done (all, bs'))
  gave_up : Read bs failed

Read-trans :
    {bs bs' : BitStream} {r : Run (List ℕ × BitStream)} → Moved bs bs' → Read bs' r → Read bs r
Read-trans m (returned m') = returned (Moved-trans m m')
Read-trans m gave_up = gave_up

next-Read :
    (cl_tree : Huffman) (total fuel i : ℕ) (bs : BitStream) {r : Round}
    → Progress bs i r
    → total - i < suc fuel
    → i < total
    → ((at : ℕ × List ℕ) (bs' : BitStream)
        → IsValid bs'
        → total - at.0 < fuel
        → Read bs' (read_lengths cl_tree total fuel at bs'))
    → Read bs (elim r [ next at bs' ↦ read_lengths cl_tree total fuel at bs' | bad ↦ failed ])
next-Read cl_tree total fuel i bs (goes_on {at} {bs'} m more) room h ih =
    Read-trans m (ih at bs' m.valid (omega arith))
next-Read cl_tree total fuel i bs fails room h ih = gave_up

pub read_lengths-Read :
    (cl_tree : Huffman) (total fuel : ℕ) (at : ℕ × List ℕ) (bs : BitStream)
    → IsValid bs
    → total - at.0 < fuel
    → Read bs (read_lengths cl_tree total fuel at bs)
unfolding read_lengths
read_lengths-Read cl_tree total zero at bs v room = absurd (omega arith)
read_lengths-Read cl_tree total (suc fuel) (i, all) bs v room = elim (Bool-cases (ltb i total)) [
  | inr full ↦ rw (full, read_lengths) (returned (Moved-refl v))
  | inl more ↦
      rw (more, read_lengths)
        (next-Read cl_tree total fuel i bs
          (length-Progress total i all bs (huff_decode cl_tree bs) (ground arith)
            (huff_decode-Moved cl_tree bs v))
          room (ground arith) (read_lengths-Read cl_tree total fuel))
]
