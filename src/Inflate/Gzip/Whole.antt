-- ===== src/Inflate/Gzip/Whole.antt =====
-- `inflate_gzip` of src/inflate.c as a whole.
use computer_os.Prelude.{
  ℕ, suc, ◌+◌, ◌*◌, ◌^◌, ◌<◌, ◌≤◌, ◌≡◌, refl, sym, ◌∙◌, subst, not, Option, none, some, List, arith,
  ltb, ℤ, pos, int_of-pos, ◌==◌, get_or, length, take, drop, get_or-drop, length-drop, u32,
  Bool-cases, inl, inr,
}
use native.Mathlib.Nat.{pow-le-pow_right}
use computer_os.Inflate.Run.{Run, done, failed, out_of_fuel, and_then}
use computer_os.Inflate.Stream.{BitStream, bs_init, bs_align}
use computer_os.Inflate.Stream.Pow.{le_value, le_value-lt}
use computer_os.Inflate.Stream.Fill.{IsValid, unread}
use computer_os.Inflate.Stream.Read.{bs_align-Dropped, bs_init-lem}
use computer_os.Inflate.Stream.Moved.{Moved}
use computer_os.Inflate.Output.{OutBuf}
use computer_os.Inflate.Output.Copy.{Extends}
use computer_os.Inflate.Block.Loop.{Ended, returned, gave_up}
use computer_os.Inflate.Gzip.{
  header, blocks, read_u32_le, trailer_pos, crc32, check_trailer, inflate_gzip,
}
use computer_os.Inflate.Gzip.Header.{header-bounds}
use computer_os.Inflate.Gzip.Blocks.{blocks-Ended}

abbrev pub buffer : List ℕ → ℕ → OutBuf
buffer out cap = record { buf = out; cap = cap; pos = 0 }

-- The call ends: it returns -1, or the count of bytes that it has written.
pub data Inflated (input out : List ℕ) (cap : ℕ) : Run (ℤ × OutBuf) → Type 0 where
  refused : Inflated input out cap failed
  -- The output fits, nothing behind it has changed, and the trailer inside the input holds its
  -- length and its checksum.
  inflated :
      {out' : OutBuf} (off : ℕ)
      → Extends (buffer out cap) out'
      → off + 8 ≤ length input
      → read_u32_le input (off + 4) ≡ out'.pos
      → read_u32_le input off ≡ crc32 (take out'.pos out'.buf)
      → Inflated input out cap (done (pos out'.pos, out'))

module _ (input out : List ℕ) (cap : ℕ) (bytes : (i : ℕ) → get_or input i 0 < 256)
    (small : length input + 2 ^ 17 ≤ 2 ^ 32) (room : cap ≤ length out) (narrow : cap < 2 ^ 31) where
  -- The trailer lies behind the header; its position does not wrap.
  trailer_pos-le :
      (at_byte : ℕ) (bs : BitStream)
      → (10 ≤ at_byte) × (at_byte < length input)
      → Moved (bs_init (drop at_byte input)) bs
      → trailer_pos at_byte (bs_align bs) ≤ length input
  unfolding trailer_pos bs_init
  trailer_pos-le at_byte bs start m =
      let aligned = (bs_align-Dropped bs m.valid).0 in
      let same : (bs_align bs).src ≡ drop at_byte input = aligned.src ∙ m.src in
      let inside : (bs_align bs).src_pos ≤ length (drop at_byte input) =
        subst (λ xs. (bs_align bs).src_pos ≤ length xs) same aligned.valid.in_src in
      omega (arith, inside, length-drop at_byte input, aligned.valid.narrow)

  trailer-Inflated :
      (at_byte : ℕ) (r : Run (BitStream × OutBuf))
      → (10 ≤ at_byte) × (at_byte < length input)
      → Ended (bs_init (drop at_byte input)) (buffer out cap) r
      → Inflated input out cap (and_then r (check_trailer input at_byte))
  unfolding check_trailer
  trailer-Inflated at_byte failed start gave_up = refused
  trailer-Inflated at_byte out_of_fuel start x = elim x [ ]
  trailer-Inflated at_byte (done (bs, out')) start (returned m e) =
      let off = trailer_pos at_byte (bs_align bs) in
      let inside : off ≤ length input = trailer_pos-le at_byte bs start m in
      elim (Bool-cases (ltb (length input) (u32 (off + 8)))) [
        | inl short ↦ rw short refused
        | inr long ↦ rw long (elim (Bool-cases (not (read_u32_le input (off + 4) == out'.pos))) [
          | inl wrong ↦ rw wrong refused
          | inr size ↦
              rw size
                (elim (Bool-cases (not (crc32 (take out'.pos out'.buf) == read_u32_le input off))) [
                  | inl wrong ↦ rw wrong refused
                  | inr sum ↦
                      rw (sum, int_of-pos out'.pos (omega (arith, e.valid.within, e.cap, narrow)))
                        (inflated off e (ground arith) (ground arith) (ground arith))
                ])
        ])
      ]

  start-IsValid :
      (at_byte : ℕ)
      → IsValid (bs_init (drop at_byte input))
        × (unread (bs_init (drop at_byte input)) ≡ le_value (drop at_byte input))
  start-IsValid at_byte =
      bs_init-lem (drop at_byte input)
        (λ i. subst (λ b. b < 256) (sym (get_or-drop at_byte input i 0)) (bytes (at_byte + i)))

  from-Inflated :
      (o : Option ℕ)
      → header input ≡ o
      → Inflated input out cap (elim o [
        | none ↦ failed
        | some at_byte ↦
            and_then
              (blocks (8 * length input + 1) (bs_init (drop at_byte input)) (buffer out cap))
              (check_trailer input at_byte)
      ])
  from-Inflated none e = refused
  from-Inflated (some at_byte) e =
      let start = start-IsValid at_byte in
      let few : le_value (drop at_byte input) < 2 ^ (8 * length (drop at_byte input)) =
        le_value-lt (drop at_byte input)
          (λ i. subst (λ b. b < 256) (sym (get_or-drop at_byte input i 0)) (bytes (at_byte + i))) in
      let wide : 2 ^ (8 * length (drop at_byte input)) ≤ 2 ^ (8 * length input) =
        pow-le-pow_right (omega arith) {j = 8 * length input}
          (omega (arith, length-drop at_byte input)) in
      trailer-Inflated at_byte _ (header-bounds input at_byte bytes small e) (
        let fuel : 8 * length input + 1 ≡ suc (8 * length input) = omega arith in
        rw fuel (
          blocks-Ended (8 * length input) (bs_init (drop at_byte input)) (buffer out cap) start.0
            (record { room = room; within = omega arith }) (omega (arith, start.1, few, wide))))

  -- On every input of bytes, also a malformed or a truncated one, that is 2 ^ 17 shorter than 2 ^
  -- 32, with an output buffer that has its capacity, which is below 2 ^ 31, `inflate_gzip` ends: it
  -- returns -1, or it has written only the first bytes of the buffer, as many as the `int` that it
  -- returns, and eight bytes inside the input hold their CRC-32 and their number.
  pub inflate_gzip-Inflated : Inflated input out cap (inflate_gzip input out cap)
  unfolding inflate_gzip
  inflate_gzip-Inflated = from-Inflated (header input) refl
