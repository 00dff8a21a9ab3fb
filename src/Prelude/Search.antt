-- ===== src/Prelude/Search.antt =====
-- Finite checks by running them.
use Prim.Native.Nat.{ℕ, zero, suc, ◌<◌}
use mathlib.Core.Path.{◌≡◌}
use mathlib.Core.Bool.{Bool, true, ◌&&◌}
use native.Mathlib.Omega.{arith}

-- Whether a test succeeds at every number below a bound, by running it.
unfoldable pub each_below : ℕ → (ℕ → Bool) → Bool
each_below zero test = true
each_below (suc bound) test = each_below bound test && test bound

pub each_below_at :
    (bound : ℕ) (test : ℕ → Bool)
    → each_below bound test ≡ true
    → (i : ℕ) → i < bound
    → test i ≡ true
unfolding each_below
each_below_at zero test ok i inside = absurd (omega arith)
each_below_at (suc bound) test ok i inside = ground (
  arith,
  λ (rest : each_below bound test ≡ true) (lower : i < bound).
      each_below_at bound test rest i lower,
)
