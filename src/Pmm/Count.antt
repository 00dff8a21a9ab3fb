-- ===== src/Pmm/Count.antt =====
-- The number of free pages that the bitmap of src/pmm.c records.
use computer_os.Prelude.{
  ℕ, zero, suc, ◌+◌, ◌<◌, ◌≤◌, ◌≡◌, ◌≢◌, refl, Bool, true, false, List, arith, if◌then◌else◌,
}
use native.Mathlib.Decide.{ℕ_discrete}
use computer_os.Pmm.{bit_test}

-- How many of the first `n` pages `used` says are free.
unfoldable pub clear_count : (ℕ → Bool) → ℕ → ℕ
clear_count used zero = 0
clear_count used (suc n) = (if used n then 0 else 1) + clear_count used n

abbrev pub free_below : List ℕ → ℕ → ℕ
free_below bm n = clear_count (bit_test bm) n

pub clear_count_le : (used : ℕ → Bool) (n : ℕ) → clear_count used n ≤ n
unfolding clear_count
clear_count_le used zero = omega arith
clear_count_le used (suc n) = ground (arith, clear_count_le used n)

-- With none free the count is 0, and the other way round.
pub clear_count-eq-zero :
    (used : ℕ → Bool) (n : ℕ) → ((i : ℕ) → i < n → used i ≡ true) → clear_count used n ≡ 0
unfolding clear_count
clear_count-eq-zero used zero h = refl
clear_count-eq-zero used (suc n) h =
    ground (arith, h n, clear_count-eq-zero used n (λ i lt. h i (omega arith)))

pub clear_count_pos : (used : ℕ → Bool) (n i : ℕ) → i < n → used i ≡ false → 0 < clear_count used n
unfolding clear_count
clear_count_pos used zero i h e = absurd (omega arith)
clear_count_pos used (suc n) i h e = elim (ℕ_discrete i n) [
  | yes same ↦ ground arith
  | no ne ↦ ground (arith, clear_count_pos used n i (omega arith) e)
]

module _ (f g : ℕ → Bool) (i : ℕ) (away : (j : ℕ) → i ≢ j → f j ≡ g j) where
  clear_count-beyond : (n : ℕ) → n ≤ i → clear_count f n ≡ clear_count g n
  unfolding clear_count
  clear_count-beyond zero h = refl
  clear_count-beyond (suc n) h = ground (arith, clear_count-beyond n, away n (omega arith))

  -- Two views that differ at page `i` alone, where the second says "used".
  pub clear_count-flip :
      (n : ℕ) → i < n → f i ≡ false → g i ≡ true → clear_count g n + 1 ≡ clear_count f n
  unfolding clear_count
  clear_count-flip zero h a b = absurd (omega arith)
  clear_count-flip (suc n) h a b = elim (ℕ_discrete i n) [
    | yes e ↦ ground (arith, clear_count-beyond n (omega arith))
    | no ne ↦ ground (arith, clear_count-flip n (omega arith) a b, away n ne)
  ]
