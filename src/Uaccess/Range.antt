-- ===== src/Uaccess/Range.antt =====
-- `user_range_ok` of src/uaccess.c.
use computer_os.Prelude.{
  ℕ, ◌+◌, ◌^◌, ◌≤◌, ◌<◌, ◌≡◌, ◌↔◌, true, false, ltb, leb, ◌==◌, if◌then◌else◌, u64, arith,
  Bool-cases, inl, inr,
}
use computer_os.Uaccess.{user_limit, user_range_ok}

-- The sum does not wrap for an address below the limit, and the range ends there at most.
pub user_range_ok_iff :
    (a len : ℕ)
    → len < 2 ^ 32
    → (user_range_ok a len ≡ true) ↔ ((a < user_limit) × (a + len ≤ user_limit))
unfolding user_range_ok
user_range_ok_iff a len h = elim (Bool-cases (leb user_limit a)) [
  | inl e ↦ rw e (ground arith)
  | inr e ↦
      let w : u64 (a + len) ≡ a + len = narrow a len h (ground arith) in
      rw (e, w) (below a len (ground arith))
]
  where
    narrow : (a len : ℕ) → len < 2 ^ 32 → a < user_limit → u64 (a + len) ≡ a + len
    narrow a len h k = omega arith

    below :
        (a len : ℕ)
        → a < user_limit
        → ((if len == 0
              then true
              else if ltb (a + len) a
              then false
              else if ltb user_limit (a + len)
              then false
              else true)
            ≡ true)
          ↔ ((a < user_limit) × (a + len ≤ user_limit))
    below a len k = ground arith
