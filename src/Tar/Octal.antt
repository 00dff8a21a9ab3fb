-- ===== src/Tar/Octal.antt =====
-- The octal numbers of src/tar.c.
use computer_os.Prelude.{
  ℕ, zero, suc, ◌+◌, ◌-◌, ◌*◌, ◌/◌, ◌%◌, ◌^◌, ◌<◌, ◌≡◌, refl, ap, ◌∙◌, Bool, true, false, ◌&&◌, not,
  [], ◌∷◌, ◌++◌, leb, arith,
}
use native.Mathlib.Nat.{pow-suc}
use computer_os.Vfs.Path.{Text}
use computer_os.Tar.{octal_from, octal_to_uint}

-- `k` digits of a number, the first one first.
unfoldable pub digits : ℕ → ℕ → Text
digits zero n = []
digits (suc k) n = digits k (n / 8) ++ ((b'0' + n % 8) ∷ [])

-- No digit starts the text.
unfoldable pub ends_octal : Text → Bool
ends_octal [] = true
ends_octal (c ∷ s) = not (leb b'0' c && leb c b'7')

octal_from-ends : (v : ℕ) (s : Text) → ends_octal s ≡ true → octal_from v s ≡ v
unfolding octal_from ends_octal
octal_from-ends v [] h = refl
octal_from-ends v (c ∷ s) h = let e : leb b'0' c && leb c b'7' ≡ false = ground arith in rw e refl

octal_from-digit :
    (v m : ℕ) (s : Text)
    → m < 8
    → v * 8 + m < 2 ^ 32
    → octal_from v ((b'0' + m) ∷ s) ≡ octal_from (v * 8 + m) s
unfolding octal_from
octal_from-digit v m s h k =
    let e : leb b'0' (b'0' + m) && leb (b'0' + m) b'7' ≡ true = ground arith in
    let q : v * 8 % 2 ^ 32 + (b'0' + m - b'0') ≡ v * 8 + m = omega arith in rw (e, q) refl

text_assoc : (xs ys zs : Text) → (xs ++ ys) ++ zs ≡ xs ++ (ys ++ zs)
text_assoc [] ys zs = refl
text_assoc (x ∷ xs) ys zs = ap (λ (r : Text). x ∷ r) (text_assoc xs ys zs)

octal_from-digits :
    (k n : ℕ) (s : Text) → n < 8 ^ k → n < 2 ^ 32 → octal_from 0 (digits k n ++ s) ≡ octal_from n s
unfolding digits
octal_from-digits zero n s h b = let e : n ≡ 0 = omega arith in rw e refl
octal_from-digits (suc k) n s h b =
    let e : n / 8 * 8 + n % 8 ≡ n = omega arith in
    rw (text_assoc (digits k (n / 8)) ((b'0' + n % 8) ∷ []) s) (
      octal_from-digits k (n / 8) ((b'0' + n % 8) ∷ s) (omega (arith, pow-suc 8 k)) (omega arith)
      ∙ octal_from-digit (n / 8) (n % 8) s (omega arith) (omega arith)
      ∙ ap (λ m. octal_from m s) e)

-- A number below 2 ^ 32 that is written with octal digits, as many as it needs or more, and
-- followed by nothing or by a character that is no octal digit, is what `octal_to_uint` reads.
pub octal_to_uint-digits :
    (k n : ℕ) (s : Text)
    → n < 8 ^ k
    → n < 2 ^ 32
    → ends_octal s ≡ true
    → octal_to_uint (digits k n ++ s) ≡ n
octal_to_uint-digits k n s h b e = octal_from-digits k n s h b ∙ octal_from-ends n s e
