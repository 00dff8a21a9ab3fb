-- ===== src/Inflate/Stream/Pow.antt =====
-- Powers of 2 and little-endian numbers, for the bit stream of src/inflate.c.
use computer_os.Prelude.{
  ℕ, zero, suc, ◌+◌, ◌*◌, ◌/◌, ◌%◌, ◌^◌, ◌<◌, ◌≤◌, ◌≡◌, refl, ap, List, [], ◌∷◌, arith, length,
  get_or, drop,
}
use native.Mathlib.Nat.{
  pow-suc, one-le-pow, add-mul-div_left, add-mul-mod_self_left, mul_assoc, mul_comm,
  div-lt_iff_lt-mul,
}

pub pow-add : (a b : ℕ) → 2 ^ (a + b) ≡ 2 ^ a * 2 ^ b
pow-add a zero = let e : a + 0 ≡ a = omega arith in rw e (omega arith)
pow-add a (suc b) =
    let e : a + suc b ≡ suc (a + b) = omega arith in
    rw e (
      omega (
        arith,
        pow-suc 2 (a + b),
        pow-suc 2 b,
        pow-add a b,
        ap (λ (t : ℕ). 2 ^ a * t) (pow-suc 2 b),
      ))

pub pow_pos : (k : ℕ) → 1 ≤ 2 ^ k
pow_pos k = one-le-pow k 2 (omega arith)

-- The low and the high part of `x + 2 ^ (n + k) * y`.
pub mod-pow_split : (n k x y : ℕ) → (x + 2 ^ (n + k) * y) % 2 ^ n ≡ x % 2 ^ n
mod-pow_split n k x y =
    rw (pow-add n k, mul_assoc (2 ^ n) (2 ^ k) y) (add-mul-mod_self_left x (2 ^ n) (2 ^ k * y))

pub div-pow_split : (n k x y : ℕ) → (x + 2 ^ (n + k) * y) / 2 ^ n ≡ x / 2 ^ n + 2 ^ k * y
div-pow_split n k x y =
    rw (pow-add n k, mul_assoc (2 ^ n) (2 ^ k) y)
      (add-mul-div_left x (2 ^ k * y) {y = 2 ^ n} (pow_pos n))

-- A number of `n + k` bits, without its low `n` bits, has `k` bits.
pub div-pow-lt : (n k x : ℕ) → x < 2 ^ (n + k) → x / 2 ^ n < 2 ^ k
div-pow-lt n k x h =
    (div-lt_iff_lt-mul (pow_pos n)).1 (rw (← mul_comm (2 ^ n) (2 ^ k), ← pow-add n k) h)

-- The number that bytes spell, the lowest first.
unfoldable pub le_value : List ℕ → ℕ
le_value [] = 0
le_value (b ∷ r) = b + 256 * le_value r

pub le_value-drop :
    (xs : List ℕ) (i : ℕ)
    → i < length xs
    → le_value (drop i xs) ≡ get_or xs i 0 + 256 * le_value (drop (i + 1) xs)
unfolding le_value
le_value-drop [] i h = absurd (omega arith)
le_value-drop (x ∷ xs) zero h = refl
le_value-drop (x ∷ xs) (suc i) h =
    let e : suc i + 1 ≡ suc (i + 1) = omega arith in rw e (le_value-drop xs i (omega arith))

pub le_value-beyond : (xs : List ℕ) (i : ℕ) → length xs ≤ i → le_value (drop i xs) ≡ 0
unfolding le_value
le_value-beyond [] zero h = refl
le_value-beyond [] (suc i) h = refl
le_value-beyond (x ∷ xs) zero h = absurd (omega arith)
le_value-beyond (x ∷ xs) (suc i) h = le_value-beyond xs i (omega arith)

pub le_value-lt :
    (xs : List ℕ) → ((i : ℕ) → get_or xs i 0 < 256) → le_value xs < 2 ^ (8 * length xs)
unfolding le_value
le_value-lt [] bytes = omega arith
le_value-lt (x ∷ xs) bytes =
    let e : 8 * suc (length xs) ≡ 8 * length xs + 8 = omega arith in
    rw e (omega (arith, pow-add (8 * length xs) 8, bytes 0, le_value-lt xs (λ i. bytes (suc i))))
