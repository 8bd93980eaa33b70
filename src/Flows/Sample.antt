-- ===== src/Flows/Sample.antt =====
-- A concrete arithmetic of rates for the tests: thousandths, with the fraction below them dropped.
use heyp_agents.Prelude.{ℕ, ◌+◌, ◌*◌, ◌/◌, ◌^◌, ltb, ◌==◌}
use heyp_agents.Flows.{RateMath, DemandPredictor}

abbrev pub thousandths : RateMath
thousandths = record {
  Carrier = ℕ;
  of_int = λ n. n * 1000;
  to_int = λ x. x / 1000;
  to_seconds = λ t. t / 10 ^ 6;
  divide = λ x y. x * 1000 / y;
  times = λ x y. x * y / 1000;
  plus = λ x y. x + y;
  less = ltb;
  is_zero = λ x. x == 0;
  alpha = 300;
  one_minus_alpha = 700;
}

abbrev pub no_demand : DemandPredictor
no_demand now history = 0
