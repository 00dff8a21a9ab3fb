-- ===== src/Prelude/Words.antt =====
-- Machine words as native numbers: the shifts of C, and bit operations at variables.
use Prim.Native.Nat.{ℕ, zero, suc, ◌+◌, ◌*◌, ◌/◌, ◌%◌, ◌^◌, ◌≤◌, ◌<◌, max}
use Prim.Native.Nat.{bit_or, digits, bit_or-bitwise}
use mathlib.Core.Path.{◌≡◌, ap, ◌∙◌}
use native.Mathlib.Nat.{pow-suc, le_refl}
use native.Mathlib.Omega.{arith}

infixl 75 ◌<<<◌ ◌>>>◌
abbrev pub ◌<<<◌ : ℕ → ℕ → ℕ
x <<< k = x * 2 ^ k

abbrev pub ◌>>>◌ : ℕ → ℕ → ℕ
x >>> k = x / 2 ^ k

-- A conversion to an unsigned type of 8, 16, 32 or 64 bits.
abbrev pub u8 : ℕ → ℕ
u8 n = n % 2 ^ 8

abbrev pub u16 : ℕ → ℕ
u16 n = n % 2 ^ 16

abbrev pub u32 : ℕ → ℕ
u32 n = n % 2 ^ 32

abbrev pub u64 : ℕ → ℕ
u64 n = n % 2 ^ 64

-- The digits of an `or` whose operands do not overlap, on any fuel from `a` on.
or_digits :
    (fuel k a b : ℕ) → a ≤ fuel → a < 2 ^ k → digits (λ y. y) max fuel a (b * 2 ^ k) ≡ a + b * 2 ^ k
or_digits zero k zero b enough low = omega arith
or_digits (suc fuel) k zero b enough low = omega arith
or_digits zero k (suc a) b enough low = absurd (omega arith)
or_digits (suc fuel) zero (suc a) b enough low = absurd (omega arith)
or_digits (suc fuel) (suc k) (suc a) b enough low =
    let halved : b * 2 ^ suc k / 2 ≡ b * 2 ^ k = omega (arith, shifted_once) in
    let rest = or_digits fuel k (suc a / 2) b (omega arith) (omega (arith, pow-suc 2 k)) in
    rw (halved, rest) (ground (arith, shifted_once))
  where
    shifted_once : b * 2 ^ suc k ≡ 2 * (b * 2 ^ k)
    shifted_once = omega (arith, ap (λ (t : ℕ). b * t) (pow-suc 2 k))

-- `a | (b << k)` is a sum where `a` has `k` bits.
pub bit_or_shifted : (k a b : ℕ) → a < 2 ^ k → bit_or a (b <<< k) ≡ a + b * 2 ^ k
bit_or_shifted k a b low = bit_or-bitwise a (b * 2 ^ k) ∙ or_digits a k a b (le_refl a) low
