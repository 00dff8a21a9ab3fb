-- ===== src/Tar.antt =====
-- The headers of src/tar.c. An archive is the list of its bytes, and a header is 512 of them.
pub mod Paths
pub mod Process
pub mod Octal
mod Tests
use computer_os.Prelude.{
  ℕ, zero, suc, ◌+◌, ◌-◌, ◌*◌, ◌%◌, ◌^◌, Bool, true, false, ◌&&◌, ◌||◌, not, Option, none, some,
  List, [], ◌∷◌, ◌++◌, ltb, leb, ◌==◌, if◌then◌else◌, length, take, drop, get_or, bind,
}
use computer_os.Vfs.Path.{Text, slash, is_empty}

abbrev pub tar_block : ℕ
tar_block = 512

-- The loop of `octal_to_uint`; the shift loses what is above 32 bits.
unfoldable pub octal_from : ℕ → Text → ℕ
octal_from v [] = v
octal_from v (c ∷ s) =
    let rest = octal_from (v * 8 % 2 ^ 32 + (c - b'0')) s in
    if leb b'0' c && leb c b'7' then rest else v

abbrev pub octal_to_uint : Text → ℕ
octal_to_uint s = octal_from 0 s

-- `len` bytes of a header, or of the archive, from `off` on.
abbrev pub field : ℕ → ℕ → Text → Text
field off len h = take len (drop off h)

unfoldable pub block_is_zero : Text → Bool
block_is_zero [] = true
block_is_zero (c ∷ blk) = (c == 0) && block_is_zero blk

unfoldable pub sum_of : Text → ℕ
sum_of [] = 0
sum_of (c ∷ b) = c + sum_of b

-- The sum with the eight bytes of the checksum counted as spaces; it is below 2 ^ 17.
abbrev pub checksum : Text → ℕ
checksum h = sum_of (take 148 h) + 8 * b' ' + sum_of (drop 156 h)

abbrev pub checksum_ok : Text → Bool
checksum_ok h = checksum h == octal_to_uint (field 148 8 h)

-- The characters before the first 0.
unfoldable pub until_nul : Text → Text
until_nul [] = []
until_nul (c ∷ s) = let rest = until_nul s in if c == 0 then [] else c ∷ rest

-- What is appended to `out` before it has `limit` characters.
abbrev pub append_in : ℕ → Text → Text → Text
append_in limit out s = out ++ take (limit - length out) s

abbrev pub has_ustar : Text → Bool
has_ustar h =
    (get_or h 257 0 == b'u')
    && (get_or h 258 0 == b's')
    && (get_or h 259 0 == b't')
    && (get_or h 260 0 == b'a')
    && (get_or h 261 0 == b'r')

unfoldable pub build_name : Text → ℕ → Text
build_name h outsz =
    if has_ustar h && not (get_or h 345 0 == 0)
    then append_in (outsz - 1)
        (append_in (outsz - 1) (take (outsz - 1) (until_nul (field 345 155 h))) (slash ∷ []))
        (until_nul (field 0 100 h))
    else until_nul (field 0 99 h)
