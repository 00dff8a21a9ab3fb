-- ===== src/Prelude/Members.antt =====
-- Lists of addresses without repetition.
use Prim.Native.Nat.{ℕ, ◌+◌}
use mathlib.Core.Path.{◌≡◌, refl}
use mathlib.Core.Logic.{inl, inr}
use mathlib.Core.Bool.{Bool, true, false, ◌||◌}
use mathlib.Core.List.{List, [], ◌∷◌}
use native.Mathlib.Omega.{arith}
use computer_os.Prelude.Tests.{◌==◌, if◌then◌else◌, Bool-cases}
use computer_os.Prelude.Lists.{length}

abbrev pub has : ℕ → List ℕ → Bool
has a [] = false
has a (x ∷ xs) = (a == x) || has a xs

-- Without the first `a`.
abbrev pub erase : ℕ → List ℕ → List ℕ
erase a [] = []
erase a (x ∷ xs) = if a == x then xs else x ∷ erase a xs

abbrev pub NoDup : List ℕ → Type 0
NoDup [] = Unit {0}
NoDup (x ∷ xs) = (has x xs ≡ false) × NoDup xs

pub has-erase : (a b : ℕ) (xs : List ℕ) → has b (erase a xs) ≡ true → has b xs ≡ true
has-erase a b [] h = h
has-erase a b (x ∷ xs) h = ground (arith, has-erase a b xs)

pub has-erase_self : (a : ℕ) (xs : List ℕ) → NoDup xs → has a (erase a xs) ≡ false
has-erase_self a [] d = refl
has-erase_self a (x ∷ xs) d = ground (arith, has-erase_self a xs d.1)

pub length-erase : (a : ℕ) (xs : List ℕ) → has a xs ≡ true → length (erase a xs) + 1 ≡ length xs
length-erase a [] h = cc
length-erase a (x ∷ xs) h = ground (arith, length-erase a xs)

pub has-erase_absent : (a b : ℕ) (xs : List ℕ) → has b xs ≡ false → has b (erase a xs) ≡ false
has-erase_absent a b [] h = h
has-erase_absent a b (x ∷ xs) h = ground (arith, has-erase_absent a b xs)

pub erase-NoDup : (a : ℕ) (xs : List ℕ) → NoDup xs → NoDup (erase a xs)
erase-NoDup a [] d = tt
erase-NoDup a (x ∷ xs) d = elim (Bool-cases (a == x)) [
  | inl e ↦ rw e d.1
  | inr e ↦ rw e (has-erase_absent a x xs d.0, erase-NoDup a xs d.1)
]

-- Away from `a`, membership is kept.
pub has-erase_ne : (a b : ℕ) (xs : List ℕ) → (b == a) ≡ false → has b (erase a xs) ≡ has b xs
has-erase_ne a b [] h = refl
has-erase_ne a b (x ∷ xs) h = ground (arith, has-erase_ne a b xs h)
