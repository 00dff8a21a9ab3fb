-- ===== src/Pmm/Bitmap.antt =====
-- The bits of the bitmap of src/pmm.c: a write changes the bit that it names and no other.
use computer_os.Prelude.{
  ℕ, ◌/◌, ◌%◌, ◌<◌, ◌≡◌, refl, Bool, true, false, ◌&&◌, not, List, arith, ◌==◌, if◌then◌else◌,
  length, get_or, length-set, get_or-set, ltb,
}
use computer_os.Prelude.Search.{each_below, each_below_at}
use computer_os.Pmm.{byte_set, byte_clear, byte_test, bit_set, bit_clear, bit_test}

abbrev same : Bool → Bool → Bool
same true b = b
same false b = not b

set_row : ℕ → ℕ → ℕ → Bool
set_row b k j = same (byte_test (byte_set b k) j) (if k == j then true else byte_test b j)

set_table : each_below 256 (λ b. each_below 8 (λ k. each_below 8 (set_row b k))) ≡ true
unfolding each_below byte_test byte_set set_row
set_table = refl

clear_row : ℕ → ℕ → ℕ → Bool
clear_row b k j = same (byte_test (byte_clear b k) j) (if k == j then false else byte_test b j)

clear_table : each_below 256 (λ b. each_below 8 (λ k. each_below 8 (clear_row b k))) ≡ true
unfolding each_below byte_test byte_clear clear_row
clear_table = refl

range_table :
    each_below 256 (λ b. each_below 8 (λ k. ltb (byte_set b k) 256 && ltb (byte_clear b k) 256))
    ≡ true
unfolding each_below byte_set byte_clear
range_table = refl

same-eq : (a b : Bool) → same a b ≡ true → a ≡ b
same-eq a b h = ground arith

-- A table over three numbers holds at each of them.
table3 :
    (p : ℕ → ℕ → ℕ → Bool) (b k j : ℕ)
    → each_below 256 (λ b. each_below 8 (λ k. each_below 8 (p b k))) ≡ true
    → b < 256
    → k < 8
    → j < 8
    → p b k j ≡ true
table3 p b k j t hb hk hj =
    each_below_at 8 (p b k) (each_below_at 8 _ (each_below_at 256 _ t b hb) k hk) j hj

test-set :
    (b k j : ℕ)
    → b < 256
    → k < 8
    → j < 8
    → byte_test (byte_set b k) j ≡ (if k == j then true else byte_test b j)
unfolding set_row
test-set b k j hb hk hj = same-eq _ _ (table3 set_row b k j set_table hb hk hj)

test-clear :
    (b k j : ℕ)
    → b < 256
    → k < 8
    → j < 8
    → byte_test (byte_clear b k) j ≡ (if k == j then false else byte_test b j)
unfolding clear_row
test-clear b k j hb hk hj = same-eq _ _ (table3 clear_row b k j clear_table hb hk hj)

byte_range : (b k : ℕ) → b < 256 → k < 8 → (byte_set b k < 256) × (byte_clear b k < 256)
byte_range b k hb hk = ground (arith, fact)
  where
    fact : (ltb (byte_set b k) 256 && ltb (byte_clear b k) 256) ≡ true
    fact = each_below_at 8 _ (each_below_at 256 _ range_table b hb) k hk

-- Every element is a byte.
abbrev pub AllBytes : List ℕ → Type 0
AllBytes bm = (i : ℕ) → get_or bm i 0 < 256

-- Whether page `i` has its bit inside the bitmap.
abbrev pub Within : List ℕ → ℕ → Type 0
Within bm i = i / 8 < length bm

module _ (bm : List ℕ) (i : ℕ) (bytes : AllBytes bm) (inside : Within bm i) where
  pub test-bit_set : (j : ℕ) → bit_test (bit_set bm i) j ≡ (if i == j then true else bit_test bm j)
  unfolding bit_test bit_set
  test-bit_set j = ground (
    arith,
    get_or-set bm (i / 8) (j / 8) (byte_set (get_or bm (i / 8) 0) (i % 8)) 0 inside,
    test-set (get_or bm (i / 8) 0) (i % 8) (j % 8) (bytes (i / 8)),
  )

  pub test-bit_clear :
      (j : ℕ) → bit_test (bit_clear bm i) j ≡ (if i == j then false else bit_test bm j)
  unfolding bit_test bit_clear
  test-bit_clear j = ground (
    arith,
    get_or-set bm (i / 8) (j / 8) (byte_clear (get_or bm (i / 8) 0) (i % 8)) 0 inside,
    test-clear (get_or bm (i / 8) 0) (i % 8) (j % 8) (bytes (i / 8)),
  )

  pub bit_set-AllBytes : AllBytes (bit_set bm i)
  unfolding bit_set
  bit_set-AllBytes j = ground (
    arith,
    get_or-set bm (i / 8) j (byte_set (get_or bm (i / 8) 0) (i % 8)) 0 inside,
    byte_range (get_or bm (i / 8) 0) (i % 8) (bytes (i / 8)),
    bytes j,
  )

  pub bit_clear-AllBytes : AllBytes (bit_clear bm i)
  unfolding bit_clear
  bit_clear-AllBytes j = ground (
    arith,
    get_or-set bm (i / 8) j (byte_clear (get_or bm (i / 8) 0) (i % 8)) 0 inside,
    byte_range (get_or bm (i / 8) 0) (i % 8) (bytes (i / 8)),
    bytes j,
  )

pub length-bit_set : (bm : List ℕ) (i : ℕ) → length (bit_set bm i) ≡ length bm
unfolding bit_set
length-bit_set bm i = length-set bm (i / 8) _

pub length-bit_clear : (bm : List ℕ) (i : ℕ) → length (bit_clear bm i) ≡ length bm
unfolding bit_clear
length-bit_clear bm i = length-set bm (i / 8) _
