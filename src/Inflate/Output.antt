-- ===== src/Inflate/Output.antt =====
-- The output buffer of src/inflate.c.
pub mod Copy
use computer_os.Prelude.{
  ℕ, zero, suc, ◌+◌, ◌-◌, Bool, true, false, Option, none, some, List, ltb, leb, if◌then◌else◌,
  get_or, set,
}

pub record OutBuf : Type 0 where
  pub buf : List ℕ
  pub cap : ℕ
  pub pos : ℕ

-- `none` is the result -1.
unfoldable pub out_byte : OutBuf → ℕ → Option OutBuf
out_byte out b =
    if leb out.cap out.pos
    then none
    else some (record out { buf = set out.buf out.pos b; pos = out.pos + 1 })

-- `n` rounds of the loop of `out_copy`.
unfoldable pub copy_loop : ℕ → ℕ → OutBuf → Option OutBuf
copy_loop dist zero out = some out
copy_loop dist (suc n) out = elim (out_byte out (get_or out.buf (out.pos - dist) 0)) [
  | none ↦ none
  | some out' ↦ copy_loop dist n out'
]

unfoldable pub out_copy : OutBuf → ℕ → ℕ → Option OutBuf
out_copy out dist len = if ltb out.pos dist then none else copy_loop dist len out
