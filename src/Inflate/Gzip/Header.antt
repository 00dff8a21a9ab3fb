-- ===== src/Inflate/Gzip/Header.antt =====
-- The header of a gzip file in src/inflate.c.
use computer_os.Prelude.{
  ℕ, zero, suc, ◌+◌, ◌-◌, ◌^◌, ◌<◌, ◌≤◌, ◌≡◌, refl, Bool, Option, none, some, List, arith, get_or,
  length, bit_or_shifted,
}
use computer_os.Inflate.Gzip.{flag, skip_string, skip_flagged, skip_extra, skip_rest, header}

skip_string-ge : (input : List ℕ) (n pos : ℕ) → pos ≤ skip_string input n pos
unfolding skip_string
skip_string-ge input zero pos = omega arith
skip_string-ge input (suc n) pos = ground (arith, skip_string-ge input n (pos + 1))

skip_string-le : (input : List ℕ) (n pos : ℕ) → skip_string input n pos ≤ pos + n
unfolding skip_string
skip_string-le input zero pos = omega arith
skip_string-le input (suc n) pos = ground (arith, skip_string-le input n (pos + 1))

skip_flagged-bounds :
    (set : Bool) (input : List ℕ) (pos k : ℕ)
    → length input + 2 ^ 17 ≤ 2 ^ 32
    → pos ≤ length input + k
    → k + 1 < 2 ^ 17
    → (pos ≤ skip_flagged set input pos) × (skip_flagged set input pos ≤ length input + (k + 1))
unfolding skip_flagged
skip_flagged-bounds set input pos k small near few = ground (
  arith,
  skip_string-ge input (length input - pos) pos,
  skip_string-le input (length input - pos) pos,
)

skip_extra-bounds :
    (flags : ℕ) (input : List ℕ) (pos : ℕ)
    → ((i : ℕ) → get_or input i 0 < 256)
    → skip_extra flags input ≡ some pos
    → (10 ≤ pos) × (pos ≤ 10 + 2 + 65535)
unfolding skip_extra
skip_extra-bounds flags input pos bytes h =
    ground (arith, bytes 10, bytes 11, bit_or_shifted 8 (get_or input 10 0) (get_or input 11 0))

skip_rest-bounds :
    (flags : ℕ) (input : List ℕ) (pos out : ℕ)
    → length input + 2 ^ 17 ≤ 2 ^ 32
    → (10 ≤ pos) × (pos ≤ 10 + 2 + 65535)
    → skip_rest flags input pos ≡ some out
    → (10 ≤ out) × (out < length input)
unfolding skip_rest
skip_rest-bounds flags input pos out small start h =
    let named =
      skip_flagged-bounds (flag flags 3) input pos (10 + 2 + 65535) small (omega arith)
        (omega arith) in
    let commented =
      skip_flagged-bounds (flag flags 4) input (skip_flagged (flag flags 3) input pos)
        (10 + 2 + 65535 + 1) small (omega arith) (omega arith) in
    ground arith

-- Of an input of bytes that is 2 ^ 17 shorter than 2 ^ 32, an accepted gzip header is at least 10
-- bytes long and leaves at least one byte behind it.
pub header-bounds :
    (input : List ℕ) (pos : ℕ)
    → ((i : ℕ) → get_or input i 0 < 256)
    → length input + 2 ^ 17 ≤ 2 ^ 32
    → header input ≡ some pos
    → (10 ≤ pos) × (pos < length input)
unfolding header
header-bounds input pos bytes small h = go (skip_extra (get_or input 3 0) input) refl
  where
    go :
        (o : Option ℕ) → skip_extra (get_or input 3 0) input ≡ o → (10 ≤ pos) × (pos < length input)
    go none e = absurd (ground arith)
    go (some p) e =
        skip_rest-bounds (get_or input 3 0) input p pos small
          (skip_extra-bounds (get_or input 3 0) input p bytes e) (ground arith)
