-- ===== src/Base/Bits.antt =====
-- The native bit operations as arithmetic: one equation for the lowest binary digit, `|` of
-- disjoint fields, and `&` with a low mask, at every width.
use Prim.Native.Nat.{ℕ, zero, suc, ◌+◌, ◌*◌, ◌/◌, ◌%◌, ◌^◌, ◌≤◌, ◌<◌, min, max}
use Prim.Native.Nat.{bit_and, bit_or, digits, bitwise}
use Prim.Native.Nat.{bit_and-bitwise, bit_or-bitwise}
use mathlib.Core.Path.{◌≡◌, refl, ap}
use native.Mathlib.Nat.{pow-suc, one-le-pow, le_refl}
use native.Mathlib.Omega.{arith}
use ovmesh_drpp.Base.Order.{by_halves}
use ovmesh_drpp.Base.Words.{◌<<<◌, low_mask}

module _ (tail : ℕ → ℕ) (bit : ℕ → ℕ → ℕ) where
  abbrev run : ℕ → ℕ → ℕ → ℕ
  run fuel a b = digits tail bit fuel a b

  -- Any two amounts of fuel that cover the first number give the same digits.
  run_stable : (a b m n : ℕ) → a ≤ m → a ≤ n → run m a b ≡ run n a b
  run_stable zero b zero zero p q = refl
  run_stable zero b zero (suc n) p q = refl
  run_stable zero b (suc m) zero p q = refl
  run_stable zero b (suc m) (suc n) p q = refl
  run_stable (suc a) b zero n p q = absurd (omega arith)
  run_stable (suc a) b (suc m) zero p q = absurd (omega arith)
  run_stable (suc a) b (suc m) (suc n) p q =
      rw (run_stable (suc a / 2) (b / 2) m n (omega arith) (omega arith))

  low_digit :
      (a b : ℕ)
      → bitwise tail bit (suc a) b
        ≡ bitwise tail bit (suc a / 2) (b / 2) * 2 + bit (suc a % 2) (b % 2)
  low_digit a b =
      omega (arith, run_stable (suc a / 2) (b / 2) a (suc a / 2) (omega arith) (le_refl _))

pub bit_or_step : (m n : ℕ) → bit_or m n ≡ bit_or (m / 2) (n / 2) * 2 + max (m % 2) (n % 2)
bit_or_step (suc m) n = simp bit_or-bitwise (low_digit (λ rest. rest) max m n)
bit_or_step zero n = simp bit_or-bitwise (omega arith)

pub bit_and_step : (m n : ℕ) → bit_and m n ≡ bit_and (m / 2) (n / 2) * 2 + min (m % 2) (n % 2)
bit_and_step (suc m) n = simp bit_and-bitwise (low_digit (λ rest. 0) min m n)
bit_and_step zero n = simp bit_and-bitwise (omega arith)

or_nothing : (a : ℕ) → bit_or a 0 ≡ a
or_nothing = by_halves (λ n. bit_or n 0 ≡ n) refl (λ n ih. omega (arith, bit_or_step (suc n) 0, ih))

nothing_or : (a : ℕ) → bit_or 0 a ≡ a
nothing_or = by_halves (λ n. bit_or 0 n ≡ n) refl (λ n ih. omega (arith, bit_or_step 0 (suc n), ih))

and_nothing : (a : ℕ) → bit_and a 0 ≡ 0
and_nothing =
    by_halves (λ n. bit_and n 0 ≡ 0) refl (λ n ih. omega (arith, bit_and_step (suc n) 0, ih))

shift_more : (q k : ℕ) → q <<< suc k ≡ 2 * (q <<< k)
shift_more q k = omega (arith, ap (λ (t : ℕ). q * t) (pow-suc 2 k))

-- `(high << k) | low` is a sum when `low` fits `k` bits.
pub or_shifted : (k high low : ℕ) → low < 2 ^ k → bit_or (high <<< k) low ≡ high * 2 ^ k + low
or_shifted zero high low fits = ground (arith, or_nothing high)
or_shifted (suc k) high low fits = ground (
  arith,
  or_shifted k high (low / 2) (omega (arith, pow-suc 2 k)),
  shift_more high k,
  bit_or_step (high <<< suc k) low,
)

-- The same with the low field first: `low | (high << k)`.
pub or_above : (k high low : ℕ) → low < 2 ^ k → bit_or low (high <<< k) ≡ low + high * 2 ^ k
or_above zero high zero fits = omega (arith, nothing_or (high <<< 0))
or_above zero high (suc low) fits = absurd (omega arith)
or_above (suc k) high low fits = ground (
  arith,
  or_above k high (low / 2) (omega (arith, pow-suc 2 k)),
  shift_more high k,
  bit_or_step low (high <<< suc k),
)

masked : (k high low : ℕ) → low < 2 ^ k → bit_and (high * 2 ^ k + low) (low_mask k) ≡ low
masked zero high low fits = rw and_nothing (omega arith)
masked (suc k) high low fits = ground (
  arith,
  masked k high (low / 2) (omega (arith, pow-suc 2 k)),
  shift_more high k,
  pow-suc 2 k,
  bit_and_step (high * 2 ^ suc k + low) (low_mask (suc k)),
)

-- A mask of `k` low bits is the remainder by `2 ^ k`.
pub and_mask : (k a : ℕ) → bit_and a (low_mask k) ≡ a % 2 ^ k
and_mask k a = ground (arith, one-le-pow k 2, masked k (a / 2 ^ k) (a % 2 ^ k))
