-- ===== src/Uaccess/Strings.antt =====
-- `strnlen_user` of src/uaccess.c.
use computer_os.Prelude.{
  ℕ, zero, suc, ◌+◌, ◌≤◌, ◌<◌, ◌≡◌, ◌≢◌, ◌⊎◌, refl, sym, subst, Bool, true, false, ◌&&◌, ◌||◌, not,
  Option, some, ltb, leb, ◌==◌, arith, Bool-cases, inl, inr, ◌^◌, ℤ, pos, negsuc, int_of-pos,
}
use computer_os.Uaccess.Range.{user_range_ok_iff}
use computer_os.Uaccess.{
  user_limit, user_range_ok, Memory, Access, Scan, ends_at, faults, unended, one_later, scan_user,
  scanned, strnlen_user,
}

-- No 0 among the bytes from `a` on, which can all be read below the limit.
unfoldable pub no_end : Memory → ℕ → ℕ → Bool
no_end m a zero = true
no_end m a (suc n) = ltb a user_limit && m.readable a && not (m.byte a == 0) && no_end m (a + 1) n

-- The first 0 is at `a + n`, and can be read.
abbrev pub EndsAt : Memory → ℕ → ℕ → Type 0
EndsAt m a n =
    (no_end m a n ≡ true)
    × (a + n < user_limit)
    × (m.readable (a + n) ≡ true)
    × (m.byte (a + n) ≡ 0)

-- The result of the scan, and what it says of the memory.
abbrev pub Scanned : Memory → ℕ → ℕ → Scan → Type 0
Scanned m a k (ends_at n) = (n < k) × EndsAt m a n
Scanned m a k faults =
    (n : ℕ) × (n < k)
    × (no_end m a n ≡ true)
    × ((user_limit ≤ a + n) ⊎ (m.readable (a + n) ≡ false))
Scanned m a k unended = no_end m a k ≡ true

-- A byte that is read and is not 0 comes before what is found behind it.
later :
    (m : Memory) (a k : ℕ) (s : Scan)
    → ltb a user_limit && m.readable a && not (m.byte a == 0) ≡ true
    → Scanned m (a + 1) k s
    → Scanned m a (suc k) (one_later s)
unfolding no_end
later m a k (ends_at n) h (l, (b, c, r, z)) =
    let q : a + 1 + n ≡ a + suc n = omega arith in
    (
      omega arith,
      (
        ground (arith, h, b),
        omega arith,
        subst (λ x. m.readable x ≡ true) q r,
        subst (λ x. m.byte x ≡ 0) q z,
      ),
    )
later m a k faults h (n, l, b, c) =
    let q : a + 1 + n ≡ a + suc n = omega arith in
    (
      suc n,
      omega arith,
      ground (arith, h, b),
      subst (λ x. (user_limit ≤ x) ⊎ (m.readable x ≡ false)) q c,
    )
later m a k unended h b = ground (arith, h, b)

at_start : (P : ℕ → Type 0) (a : ℕ) → P a → P (a + 0)
at_start P a p = let q : a ≡ a + 0 = omega arith in subst P q p

below : (a : ℕ) → leb user_limit a ≡ false → a < user_limit
below a h = ground arith

scan_user-Scanned : (m : Memory) (a k : ℕ) → Scanned m a k (scan_user m a k)
unfolding scan_user no_end
scan_user-Scanned m a zero = refl
scan_user-Scanned m a (suc k) = elim (Bool-cases (leb user_limit a)) [
  | inl e ↦ rw e (0, omega arith, refl, inl (ground arith))
  | inr e ↦ elim (Bool-cases (m.readable a)) [
    | inr f ↦ rw (e, f) (0, omega arith, refl, inr (at_start (λ x. m.readable x ≡ false) a f))
    | inl f ↦ elim (Bool-cases (m.byte a == 0)) [
      | inl g ↦
          rw (e, f, g)
            (
              omega arith,
              (
                refl,
                omega (arith, below a e),
                at_start (λ x. m.readable x ≡ true) a f,
                at_start (λ x. m.byte x ≡ 0) a (ground arith),
              ),
            )
      | inr g ↦
          rw (e, f, g)
            (later m a k (scan_user m (a + 1) k) (ground arith) (scan_user-Scanned m (a + 1) k))
    ]
  ]
]

-- A length is that of the string, within the limits; -1 means that there is none.
abbrev pub Measured : Memory → ℕ → ℕ → ℤ → Type 0
Measured m a k (pos n) = (n < k) × EndsAt m a n
Measured m a k (negsuc j) = (j ≡ 0) × ((n : ℕ) → n < k → ¬ EndsAt m a n)

no_end-at :
    (m : Memory) (a n j : ℕ)
    → no_end m a n ≡ true
    → j < n
    → (a + j < user_limit) × (m.readable (a + j) ≡ true) × (m.byte (a + j) ≢ 0)
unfolding no_end
no_end-at m a zero j h l = absurd (omega arith)
no_end-at m a (suc n) zero h l =
    let z : m.byte a ≢ 0 = ground arith in
    (
      ground arith,
      at_start (λ x. m.readable x ≡ true) a (ground arith),
      at_start (λ x. m.byte x ≢ 0) a z,
    )
no_end-at m a (suc n) (suc j) h l =
    let q : a + 1 + j ≡ a + suc j = omega arith in
    subst (λ x. (x < user_limit) × (m.readable x ≡ true) × (m.byte x ≢ 0)) q
      (no_end-at m (a + 1) n j (ground arith) (omega arith))

clash :
    (m : Memory) (x : ℕ)
    → (user_limit ≤ x) ⊎ (m.readable x ≡ false)
    → x < user_limit
    → ¬ (m.readable x ≡ true)
clash m x (inl l) p q = omega arith
clash m x (inr f) p q = absurd cc

three_way : (j n : ℕ) → (j < n) ⊎ ((j ≡ n) ⊎ (n < j))
three_way j n = ground arith

-- There is no end within reach of a fault.
fault-EndsAt :
    (m : Memory) (a n j : ℕ)
    → no_end m a n ≡ true
    → (user_limit ≤ a + n) ⊎ (m.readable (a + n) ≡ false)
    → ¬ EndsAt m a j
fault-EndsAt m a n j b c (b', l, r, z) = elim (three_way j n) [
  | inl h ↦ let (p, q, d) = no_end-at m a n j b h in d z
  | inr (inl h) ↦
      clash m (a + j) (subst (λ x. (user_limit ≤ a + x) ⊎ (m.readable (a + x) ≡ false)) (sym h) c) l
        r
  | inr (inr h) ↦ let (p, q, d) = no_end-at m a j n b' h in clash m (a + n) c p q
]

abbrev pub Strnlen : Memory → ℕ → ℕ → ℤ × Option Access → Type 0
Strnlen m a k (r, t) = Measured m a k r

scanned-Strnlen :
    (m : Memory) (a k : ℕ) (s : Scan) → k ≤ 2 ^ 31 → Scanned m a k s → Strnlen m a k (scanned s)
scanned-Strnlen m a k (ends_at n) narrow h = rw (int_of-pos n (omega (arith, h.0, narrow))) h
scanned-Strnlen m a k faults narrow (n, l, b, c) = (refl, λ j h e. fault-EndsAt m a n j b c e)
scanned-Strnlen m a k unended narrow h =
    (refl, λ j l (b, p, q, z). let (p, q, d) = no_end-at m a k j h l in d z)

refused : (k : ℕ) (ok : Bool) {n : ℕ} → ok ≡ true → n < k → ¬ ((k == 0) || not ok ≡ true)
refused k ok o l = ground (arith, o, l)

-- For a maximum of at most 2 ^ 31, `strnlen_user` of a task returns the position of the first 0 if
-- it comes before the maximum and every byte up to it can be read and lies below the limit; it
-- returns -1 only if there is no such 0.
pub strnlen_user-Measured :
    (m : Memory) (a k : ℕ) (t : Access) → k ≤ 2 ^ 31 → Strnlen m a k (strnlen_user m a k (some t))
unfolding strnlen_user
strnlen_user-Measured m a k t narrow = elim (Bool-cases ((k == 0) || not (user_range_ok a 1))) [
  | inl e ↦ rw e (
    refl,
    λ n l (b, p, r, z).
        let (to, from) = user_range_ok_iff a 1 (omega arith) in
        let o : user_range_ok a 1 ≡ true = from (omega arith, omega arith) in
        refused k (user_range_ok a 1) o l e,
  )
  | inr e ↦ rw e (scanned-Strnlen m a k (scan_user m a k) narrow (scan_user-Scanned m a k))
]
