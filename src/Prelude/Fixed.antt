-- ===== src/Prelude/Fixed.antt =====
-- A concrete set of numbers that meets what the sources rely on of doubles: the multiples of
-- 2^-34, with exact sums and differences. The tests run on it.
use heyp_agents.Prelude.Tests.{ltb, leb, ◌==◌, if◌then◌else◌}
use heyp_agents.Prelude.Double.{Double, HasGrid}
use Prim.Native.Nat.{ℕ, suc, ◌+◌, ◌-◌, ◌*◌, ◌/◌, ◌^◌, ◌≤◌, ◌<◌}
use mathlib.Core.Path.{◌≡◌, refl}
use mathlib.Core.Bool.{true}
use native.Mathlib.Omega.{arith}

-- `positive n` is n / 2^34, `negative n` is -(n + 1) / 2^34.
pub data Fixed : Type 0 where
  positive : ℕ → Fixed
  negative : ℕ → Fixed

abbrev pub above : Fixed → ℕ
above (positive n) = n
above (negative n) = 0

abbrev pub below : Fixed → ℕ
below (positive n) = 0
below (negative n) = suc n

abbrev pub difference : ℕ → ℕ → Fixed
difference a b = if leb b a then positive (a - b) else negative (b - a - 1)

abbrev pub fixed : Double
fixed = record {
  Carrier = Fixed;
  zero_frac = positive 0;
  one_frac = positive (2 ^ 34);
  plus = λ x y. difference (above x + above y) (below x + below y);
  minus = λ x y. difference (above x + below y) (below x + above y);
  is_lt = λ x y. ltb (above x + below y) (above y + below x);
  is_eq = λ x y. above x + below y == above y + below x;
  round_times = λ x n. (above x * n + 2 ^ 33) / 2 ^ 34;
  trunc_times = λ x n. above x * n / 2 ^ 34;
}

abbrev pub grid_point : ℕ → Fixed
grid_point k = positive (k * 4)

pub fixed-lt :
    (i j : ℕ) → i ≤ 2 ^ 33 → j ≤ 2 ^ 33 → fixed.is_lt (grid_point i) (grid_point j) ≡ ltb i j
fixed-lt i j hi hj = ground arith

pub fixed-eq :
    (i j : ℕ) → i ≤ 2 ^ 33 → j ≤ 2 ^ 33 → fixed.is_eq (grid_point i) (grid_point j) ≡ (i == j)
fixed-eq i j hi hj = ground arith

pub fixed-plus :
    (i j : ℕ) → i + j ≤ 2 ^ 33 → fixed.plus (grid_point i) (grid_point j) ≡ grid_point (i + j)
fixed-plus i j h = ground arith

pub fixed-minus :
    (i j : ℕ) → j ≤ i → i ≤ 2 ^ 33 → fixed.minus (grid_point i) (grid_point j) ≡ grid_point (i - j)
fixed-minus i j h hi = ground arith

pub fixed-negative :
    (i j : ℕ)
    → i < j
    → j ≤ 2 ^ 33
    → fixed.is_lt (fixed.minus (grid_point i) (grid_point j)) fixed.zero_frac ≡ true
fixed-negative i j h hj = ground arith

pub fixed-round : (i : ℕ) → i ≤ 2 ^ 33 → fixed.round_times (grid_point i) (2 ^ 32) ≡ i
fixed-round i h = omega arith

abbrev pub fixed-HasGrid : HasGrid fixed
fixed-HasGrid = record {
  grid = grid_point;
  zero_grid = refl;
  one_grid = refl;
  lt_grid = fixed-lt;
  eq_grid = fixed-eq;
  plus_grid = fixed-plus;
  minus_grid = fixed-minus;
  minus_negative = fixed-negative;
  round_grid = fixed-round;
}
