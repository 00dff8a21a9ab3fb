-- ===== src/Inflate/Huffman.antt =====
-- The canonical Huffman decoder of src/inflate.c.
pub mod Moves
use computer_os.Prelude.{
  ℕ, zero, suc, ◌+◌, ◌-◌, ◌*◌, ◌/◌, ◌%◌, ◌^◌, Bool, true, false, ◌&&◌, not, Option, none, some,
  List, [], ◌∷◌, ◌++◌, ltb, leb, ◌==◌, if◌then◌else◌, bit_or, get_or, set, length, replicate, ◌<<<◌,
  u16, u32,
}
use computer_os.Inflate.Stream.{BitStream, bs_read}

abbrev pub huff_max_bits : ℕ
huff_max_bits = 15

-- `count`, `base_code` and `base_sym` have 16 elements, `symbols` has 288.
pub record Huffman : Type 0 where
  pub count : List ℕ
  pub base_code : List ℕ
  pub base_sym : List ℕ
  pub symbols : List ℕ
  pub nsyms : ℕ

-- The count of each length; `none` for a length above 15.
unfoldable pub tally : List ℕ → List ℕ → Option (List ℕ)
tally [] count = some count
tally (l ∷ ls) count =
    if ltb huff_max_bits l then none else tally ls (set count l (u32 (get_or count l 0 + 1)))

-- The loops over the lengths `i` to 15, with `n` rounds left.
unfoldable pub base_codes : ℕ → ℕ → ℕ → List ℕ → List ℕ → List ℕ
base_codes zero i code count table = table
base_codes (suc n) i code count table =
    base_codes n (i + 1) (u32 (u32 (code + get_or count i 0) <<< 1)) count (set table i code)

unfoldable pub base_syms : ℕ → ℕ → ℕ → List ℕ → List ℕ → List ℕ
base_syms zero i idx count table = table
base_syms (suc n) i idx count table =
    base_syms n (i + 1) (u32 (idx + get_or count i 0)) count (set table i idx)

-- The loop that sorts the symbols: `i` is the symbol of the first length left.
unfoldable pub sort_symbols : List ℕ → ℕ → List ℕ → List ℕ → List ℕ
sort_symbols [] i offsets symbols = symbols
sort_symbols (l ∷ ls) i offsets symbols =
    sort_symbols ls (i + 1)
      (if ltb 0 l then set offsets l (u32 (get_or offsets l 0 + 1)) else offsets)
      (if ltb 0 l then set symbols (get_or offsets l 0) (u16 i) else symbols)

-- `lengths` is the array with its `nsyms` elements; `h` holds what was there before.
unfoldable pub huff_build : Huffman → List ℕ → Option Huffman
huff_build h lengths = elim (tally lengths (replicate 16 0)) [
  | none ↦ none
  | some tallied ↦
      let count = set tallied 0 0 in
      let base_sym = base_syms 15 1 0 count h.base_sym in
      some (record {
        count = count;
        base_code = base_codes 15 1 0 count h.base_code;
        base_sym = base_sym;
        symbols = sort_symbols lengths 0 base_sym h.symbols;
        nsyms = length lengths;
      })
]

-- `n` rounds are left, of which the next reads the bit that makes `code` one of `len` bits; `none`
-- is the result -1.
unfoldable pub decode_loop : ℕ → ℕ → ℕ → Huffman → BitStream → Option ℕ × BitStream
decode_loop zero len code h bs = (none, bs)
decode_loop (suc n) len code h bs =
    let (bit, bs') = bs_read 1 bs in
    let code' = bit_or (u32 (code <<< 1)) bit in
    let base = get_or h.base_code len 0 in
    let idx = u32 (get_or h.base_sym len 0 + (code' + 2 ^ 32 - base)) in
    let rest = decode_loop n (len + 1) code' h bs' in
    if get_or h.count len 0 == 0
    then rest
    else if leb base code' && ltb code' (u32 (base + get_or h.count len 0))
    then ((if leb h.nsyms idx then none else some (get_or h.symbols idx 0)), bs')
    else rest

unfoldable pub huff_decode : Huffman → BitStream → Option ℕ × BitStream
huff_decode h bs = decode_loop 15 1 0 h bs

-- What stands in a table before it is built.
abbrev pub blank : Huffman
blank = record {
  count = replicate 16 0;
  base_code = replicate 16 0;
  base_sym = replicate 16 0;
  symbols = replicate 288 0;
  nsyms = 0;
}

-- `g_fixed_litlen` and `g_fixed_dist`, which start as zeros.
abbrev pub fixed_lengths : List ℕ
fixed_lengths = replicate 144 8 ++ (replicate 112 9 ++ (replicate 24 7 ++ replicate 8 8))

unfoldable pub fixed_litlen : Option Huffman
fixed_litlen = huff_build blank fixed_lengths

unfoldable pub fixed_dist : Option Huffman
fixed_dist = huff_build blank (replicate 30 5)
