-- ===== src/Base/Tables.antt =====
-- Over a small range, a property is checked at every value.
use Prim.Native.Nat.{ℕ, zero, suc, ◌<◌}
use mathlib.Core.Path.{◌≡◌}
use mathlib.Core.Bool.{Bool, true, ◌&&◌}
use native.Mathlib.Omega.{arith}

-- The tests at all numbers below a limit.
unfoldable pub all_below : (limit : ℕ) → (ℕ → Bool) → Bool
all_below (suc last) test = test last && all_below last test
all_below zero test = true

pub all_below_sound :
    (limit : ℕ) (test : ℕ → Bool) (value : ℕ)
    → all_below limit test ≡ true
    → value < limit
    → test value ≡ true
unfolding all_below
all_below_sound (suc last) test value all small = ground (arith, all_below_sound last test value)
all_below_sound zero test value all small = absurd (omega arith)
