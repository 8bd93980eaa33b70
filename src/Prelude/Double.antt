-- ===== src/Prelude/Double.antt =====
-- IEEE doubles are not code of the repository. What the sources use of them is a parameter: a type
-- with the operations that the code calls. A value of `Double` stands for the doubles other than
-- NaN.
use heyp_agents.Prelude.Tests.{ltb, ◌==◌}
use Prim.Native.Nat.{ℕ, ◌+◌, ◌-◌, ◌^◌, ◌≤◌, ◌<◌}
use mathlib.Core.Path.{◌≡◌}
use mathlib.Core.Bool.{Bool, true}

pub record Double : Type 1 where
  pub Carrier : Type 0
  pub zero_frac : Carrier
  pub one_frac : Carrier
  pub plus : Carrier → Carrier → Carrier
  pub minus : Carrier → Carrier → Carrier
  pub is_lt : Carrier → Carrier → Bool
  pub is_eq : Carrier → Carrier → Bool
  -- `round(x * n)`, converted to an unsigned integer.
  pub round_times : Carrier → ℕ → ℕ
  -- `x * n`, converted to an integer (the fraction is dropped).
  pub trunc_times : Carrier → ℕ → ℕ

-- What the hash ring relies on: the multiples of 2^-32 between 0 and 2 are doubles, and comparing,
-- adding and subtracting them is exact (the mantissa has 53 bits).
pub record HasGrid (d : Double) : Type 0 where
  pub grid : ℕ → d.Carrier
  pub zero_grid : d.zero_frac ≡ grid 0
  pub one_grid : d.one_frac ≡ grid (2 ^ 32)
  pub lt_grid : (i j : ℕ) → i ≤ 2 ^ 33 → j ≤ 2 ^ 33 → d.is_lt (grid i) (grid j) ≡ ltb i j
  pub eq_grid : (i j : ℕ) → i ≤ 2 ^ 33 → j ≤ 2 ^ 33 → d.is_eq (grid i) (grid j) ≡ (i == j)
  pub plus_grid : (i j : ℕ) → i + j ≤ 2 ^ 33 → d.plus (grid i) (grid j) ≡ grid (i + j)
  pub minus_grid : (i j : ℕ) → j ≤ i → i ≤ 2 ^ 33 → d.minus (grid i) (grid j) ≡ grid (i - j)
  pub minus_negative :
      (i j : ℕ) → i < j → j ≤ 2 ^ 33 → d.is_lt (d.minus (grid i) (grid j)) d.zero_frac ≡ true
  pub round_grid : (i : ℕ) → i ≤ 2 ^ 33 → d.round_times (grid i) (2 ^ 32) ≡ i
