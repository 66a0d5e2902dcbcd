-- ===== src/Base/Bits.antt =====
-- `|` of a shifted number and any other, as arithmetic: from the recursion on binary digits that the
-- native operation means, with its fuel dropped.
use Prim.Native.Nat.{
  ℕ, zero, suc, ◌+◌, ◌*◌, ◌/◌, ◌%◌, ◌^◌, ◌≤◌, ◌<◌, max, digits, bit_or, bit_or-bitwise,
}
use mathlib.Core.Path.{◌≡◌, refl, ap}
use native.Mathlib.Nat.{le_refl, pow-suc}
use native.Mathlib.Omega.{arith}

abbrev or_digits : ℕ → ℕ → ℕ → ℕ
or_digits n a b = digits (λ b. b) max n a b

-- Any fuel that is at least the first operand gives the same digits.
or_digits_fuel : (less more x y : ℕ) → x ≤ less → x ≤ more → or_digits less x y ≡ or_digits more x y
or_digits_fuel zero zero x y in_less in_more = refl
or_digits_fuel (suc less) zero zero y in_less in_more = refl
or_digits_fuel zero (suc more) zero y in_less in_more = refl
or_digits_fuel (suc less) (suc more) zero y in_less in_more = refl
or_digits_fuel (suc less) zero (suc x) y in_less in_more = absurd (omega arith)
or_digits_fuel zero (suc more) (suc x) y in_less in_more = absurd (omega arith)
or_digits_fuel (suc less) (suc more) (suc x) y in_less in_more =
    omega (arith, or_digits_fuel less more (suc x / 2) (y / 2) (omega arith) (omega arith))

pub bit_or_step : (x y : ℕ) → bit_or x y ≡ 2 * bit_or (x / 2) (y / 2) + max (x % 2) (y % 2)
bit_or_step zero y = simp bit_or-bitwise (omega arith)
bit_or_step (suc x) y = omega (
  arith,
  bit_or-bitwise (suc x) y,
  bit_or-bitwise (suc x / 2) (y / 2),
  or_digits_fuel x (suc x / 2) (suc x / 2) (y / 2) (omega arith) (le_refl _),
)

bit_or-zero_fuel : (n a : ℕ) → a ≤ n → bit_or a 0 ≡ a
bit_or-zero_fuel n zero h = refl
bit_or-zero_fuel zero (suc a) h = absurd (omega arith)
bit_or-zero_fuel (suc n) (suc a) h =
    omega (arith, bit_or_step (suc a) 0, bit_or-zero_fuel n (suc a / 2) (omega arith))

pub bit_or-zero : (a : ℕ) → bit_or a 0 ≡ a
bit_or-zero a = bit_or-zero_fuel a a (le_refl a)

twice_shifted : (q k : ℕ) → q * 2 ^ suc k ≡ 2 * (q * 2 ^ k)
twice_shifted q k = omega (arith, ap (λ (t : ℕ). q * t) (pow-suc 2 k))

-- The low k bits of the second operand stay, and the rest meet the shifted number.
pub bit_or_shifted :
    (k p q r : ℕ) → r < 2 ^ k → bit_or (p * 2 ^ k) (q * 2 ^ k + r) ≡ bit_or p q * 2 ^ k + r
bit_or_shifted zero p q r h = ground arith
bit_or_shifted (suc k) p q r h = ground (
  arith,
  bit_or_step (p * 2 ^ suc k) (q * 2 ^ suc k + r),
  twice_shifted p k,
  twice_shifted q k,
  twice_shifted (bit_or p q) k,
  pow-suc 2 k,
  bit_or_shifted k p q (r / 2) (omega (arith, pow-suc 2 k)),
)
