-- ===== src/Selector/Tests.antt =====
-- The selectors of heyp/alg/qos-downgrade.cc on three hosts of two jobs.
use heyp_agents.Prelude.Fixed.{Fixed, positive, fixed}
use heyp_agents.Prelude.{
  ℕ, suc, ◌^◌, ◌*◌, ◌/◌, ◌≤◌, ◌≡◌, refl, Bool, true, false, List, [], ◌∷◌, length, some, arith, leb,
  ◌==◌, ◌&&◌,
}
use heyp_agents.Downgrade.ByDemand.{largest_first}
use heyp_agents.Downgrade.Knapsack.{KnapsackSolver, IsSolver, profit_from}
use heyp_agents.Views.Tests.{three_hosts, job_size}
use heyp_agents.Selector.{SelectorImpl, ds_largest_first, get_selector, pick_lopri_hosts}
use heyp_agents.Selector.Laws.{KeepsJobs, selector_of_type-total}

abbrev quotient : ℕ → ℕ → Fixed
quotient a b = positive (a * 2 ^ 34 / b)

abbrev half : Fixed
half = positive (2 ^ 33)

-- A solver that takes the first item alone, where it fits.
abbrev first_fits : List ℕ → ℕ → ℕ → Bool
first_fits [] capacity i = false
first_fits (w ∷ weights) capacity i = i == 0 && leb w capacity

abbrev first_solver : KnapsackSolver fixed
first_solver = record {
  solve = λ limit profits weights capacity. record {
    best_profit = profit_from (first_fits weights capacity) 0 profits;
    contains_item = first_fits weights capacity;
  };
}

no_profit :
    (weights : List ℕ) (capacity i : ℕ) (profits : List ℕ)
    → profit_from (first_fits weights capacity) (suc i) profits ≡ 0
no_profit weights capacity i [] = refl
no_profit [] capacity i (p ∷ profits) = omega (arith, no_profit [] capacity (suc i) profits)
no_profit (w ∷ weights) capacity i (p ∷ profits) =
    ground (arith, no_profit (w ∷ weights) capacity (suc i) profits)

first_fits-fits :
    (weights : List ℕ) (capacity : ℕ)
    → profit_from (first_fits weights capacity) 0 weights ≤ capacity
first_fits-fits [] capacity = omega arith
first_fits-fits (w ∷ weights) capacity = ground (arith, no_profit (w ∷ weights) capacity 0 weights)

first_solver-IsSolver : IsSolver fixed first_solver
first_solver-IsSolver = record {
  fits = λ limit profits weights capacity. first_fits-fits weights capacity;
  has_profit = λ limit profits weights capacity. refl;
}

abbrev largest : SelectorImpl fixed
largest = record {
  State = Unit;
  start = tt;
  pick = λ s children want. some (s, largest_first fixed children want);
}

largest-selected : get_selector fixed quotient first_solver half ds_largest_first ≡ some largest
unfolding get_selector
largest-selected = refl

selector_of_type-total_example :
    (r : Unit × List Bool) × (pick_lopri_hosts fixed job_size largest true true tt three_hosts half
      ≡ some r)
    × (length r.1 ≡ length three_hosts)
    × (true ≡ true → KeepsJobs three_hosts r.1)
selector_of_type-total_example =
    selector_of_type-total fixed quotient first_solver half ds_largest_first largest
      first_solver-IsSolver largest-selected job_size true true tt three_hosts half
