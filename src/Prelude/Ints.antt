-- ===== src/Prelude/Ints.antt =====
-- The 32-bit `int` of C, and the conversion of an unsigned number to it.
use Prim.Native.Nat.{ℕ, ◌-◌, ◌^◌, ◌<◌}
use mathlib.Core.Path.{◌≡◌, refl}
use mathlib.Core.Bool.{true}
use native.Mathlib.Omega.{arith}
use computer_os.Prelude.Tests.{ltb, if◌then◌else◌}

-- `negsuc n` is the number `-(n + 1)`.
pub data ℤ : Type 0 where
  pos : ℕ → ℤ
  negsuc : ℕ → ℤ

-- `(int)n` for an `n` of 32 bits.
unfoldable pub int_of : ℕ → ℤ
int_of n = if ltb n (2 ^ 31) then pos n else negsuc (2 ^ 32 - 1 - n)

pub int_of-pos : (n : ℕ) → n < 2 ^ 31 → int_of n ≡ pos n
unfolding int_of
int_of-pos n small = let fits : ltb n (2 ^ 31) ≡ true = ground arith in rw fits refl
