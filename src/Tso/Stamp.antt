-- ===== src/Tso/Stamp.antt =====
-- tso.go: `timeStamp`, a hybrid logical clock value of milliseconds and a counter, and its 64-bit form.
-- The two `int64` fields are kept as numbers: readings of the clock and counts are not negative.
use omashu.Base.{ℕ, ◌+◌, ◌-◌, ◌*◌, ◌/◌, ◌%◌, ◌^◌, ◌≤◌, ◌<◌, bit_or, ◌≡◌, ◌⊎◌, ◌↔◌, Bool, ltb, arith}
use omashu.Base.Bits.{bit_or_shifted, bit_or_step, bit_or-zero}

abbrev pub logical_bits : ℕ
logical_bits = 18

abbrev pub max_logical : ℕ
max_logical = 2 ^ logical_bits - 1

-- defaultUpperBoundWindow, in milliseconds
abbrev pub default_upper_bound_window : ℕ
default_upper_bound_window = 2000

pub record TimeStamp : Type 0 where
  pub physical : ℕ
  pub logical : ℕ

unfoldable pub new_empty_time_stamp : TimeStamp
new_empty_time_stamp = record { physical = 0; logical = 0 }

unfoldable pub reset : TimeStamp → ℕ → TimeStamp
reset ts new_ts = record { physical = new_ts; logical = 0 }

unfoldable pub incr : TimeStamp → TimeStamp
incr ts = record ts { logical = ts.logical + 1 }

unfoldable pub exceed_logical_max : TimeStamp → Bool
exceed_logical_max ts = ltb max_logical ts.logical

-- `uint64((physical << LOGICAL_BITS) | logical)`: the shift drops the bits above the 64th.
unfoldable pub compose : TimeStamp → ℕ
compose ts = bit_or (ts.physical * 2 ^ logical_bits % 2 ^ 64) ts.logical

-- A stamp whose parts fit their fields: 46 bits of milliseconds last until the year 4199.
pub record Fits (ts : TimeStamp) : Type 0 where
  pub physical_fits : ts.physical < 2 ^ 46
  pub logical_fits : ts.logical ≤ max_logical

-- The order of allocation: by milliseconds, then by counter.
abbrev pub Earlier : TimeStamp → TimeStamp → Type 0
Earlier a b = (a.physical < b.physical) ⊎ ((a.physical ≡ b.physical) × (a.logical < b.logical))

shift_fits : (p : ℕ) → p < 2 ^ 46 → p * 2 ^ 18 % 2 ^ 64 ≡ p * 2 ^ 18
shift_fits p h = omega arith

pub compose-Fits : (ts : TimeStamp) → Fits ts → compose ts ≡ ts.physical * 2 ^ 18 + ts.logical
unfolding compose
compose-Fits ts f =
    rw (shift_fits ts.physical f.physical_fits)
      (ground (arith, bit_or_shifted 18 ts.physical 0 ts.logical, bit_or-zero ts.physical))

-- The milliseconds and the counter of a stamp, of at most 46 and 18 bits, are read back from its
-- 64-bit form.
pub compose_parts :
    (ts : TimeStamp)
    → Fits ts
    → (compose ts / 2 ^ 18 ≡ ts.physical) × (compose ts % 2 ^ 18 ≡ ts.logical)
compose_parts ts f = omega (arith, compose-Fits ts f)

-- Of two stamps with at most 46 bits of milliseconds and 18 bits of counter, the first is earlier,
-- by milliseconds and then by counter, exactly when its 64-bit form is smaller.
pub compose-Earlier_iff :
    (a b : TimeStamp) → Fits a → Fits b → Earlier a b ↔ (compose a < compose b)
compose-Earlier_iff a b fa fb = (
  λ e. omega (arith, compose-Fits a fa, compose-Fits b fb),
  λ h. omega (arith, compose-Fits a fa, compose-Fits b fb),
)

-- A counter of exactly 2 ^ 18 spills into the lowest bit of the milliseconds.
pub compose_spill :
    (p : ℕ)
    → p < 2 ^ 46
    → compose (record { physical = p; logical = 2 ^ 18 }) ≡ (p / 2 * 2 + 1) * 2 ^ 18
unfolding compose
compose_spill p h =
    rw (shift_fits p h)
      (ground (arith, bit_or_shifted 18 p 1 0, bit_or_step p 1, bit_or-zero (p / 2)))
