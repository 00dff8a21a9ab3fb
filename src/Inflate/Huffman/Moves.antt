-- ===== src/Inflate/Huffman/Moves.antt =====
-- `huff_decode` of src/inflate.c as a consumer of the bit stream.
use computer_os.Prelude.{
  ℕ, zero, suc, ◌+◌, ◌&&◌, arith, ltb, leb, ◌==◌, get_or, bit_or, u32, ◌<<<◌, Bool-cases, inl, inr,
}
use computer_os.Inflate.Stream.{BitStream, bs_read}
use computer_os.Inflate.Stream.Fill.{IsValid}
use computer_os.Inflate.Stream.Moved.{Moved, Moved-refl, Moved-trans, bs_read-Moved}
use computer_os.Inflate.Huffman.{Huffman, decode_loop, huff_decode}

decode_loop-Moved :
    (n len code : ℕ) (h : Huffman) (bs : BitStream)
    → IsValid bs
    → Moved bs (decode_loop n len code h bs).1
unfolding decode_loop
decode_loop-Moved zero len code h bs v = Moved-refl v
decode_loop-Moved (suc n) len code h bs v =
    let bit = bs_read-Moved 1 bs v (omega arith) in
    let code' = bit_or (u32 (code <<< 1)) (bs_read 1 bs).0 in
    let rest = Moved-trans bit (decode_loop-Moved n (len + 1) code' h (bs_read 1 bs).1 bit.valid) in
    elim (Bool-cases (get_or h.count len 0 == 0)) [
      | inl unused ↦ rw unused rest
      | inr used ↦
          rw used
            (elim (Bool-cases (
              leb (get_or h.base_code len 0) code'
              && ltb code' (u32 (get_or h.base_code len 0 + get_or h.count len 0)))) [
                | inl hit ↦ rw hit bit
                | inr miss ↦ rw miss rest
              ])
    ]

pub huff_decode-Moved : (h : Huffman) (bs : BitStream) → IsValid bs → Moved bs (huff_decode h bs).1
unfolding huff_decode
huff_decode-Moved h bs v = decode_loop-Moved 15 1 0 h bs v
