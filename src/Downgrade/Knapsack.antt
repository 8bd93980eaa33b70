-- ===== src/Downgrade/Knapsack.antt =====
-- `KnapsackSolverDowngradeSelector::PickLOPRIChildren` of
-- heyp/alg/downgrade/impl-knapsack-solver.cc. The solver of OR-Tools is a parameter; the logging is
-- left out.
use heyp_agents.Prelude.{
  ℕ, suc, ◌+◌, ◌≤◌, ◌≡◌, Bool, ◌&&◌, List, [], ◌∷◌, map, Option, none, some, leb, ◌==◌,
  if◌then◌else◌, arith,
}
use heyp_agents.Prelude.Double.{Double}
use heyp_agents.Downgrade.View.{ChildFlowInfo}
use heyp_agents.Downgrade.ByDemand.{total_demand}

-- What `Solve` and `BestSolutionContains` return.
pub record Solution : Type 0 where
  pub best_profit : ℕ
  pub contains_item : ℕ → Bool

-- `KnapsackSolver`: from the time limit, if one is set, the profits, the weights and the capacity.
pub record KnapsackSolver (d : Double) : Type 0 where
  pub solve : Option d.Carrier → List ℕ → List ℕ → ℕ → Solution

-- The profits of the items from an index on that a solution contains.
abbrev pub profit_from : (ℕ → Bool) → ℕ → List ℕ → ℕ
profit_from contains_item i [] = 0
profit_from contains_item i (p ∷ profits) =
    (if contains_item i then p else 0) + profit_from contains_item (suc i) profits

-- The documented behaviour that the selector's checks test: what the solution contains fits, and the
-- value that `Solve` returns is its profit.
pub record IsSolver (d : Double) (solver : KnapsackSolver d) : Type 0 where
  pub fits :
      (limit : Option d.Carrier) (profits weights : List ℕ) (capacity : ℕ)
      → profit_from (solver.solve limit profits weights capacity).contains_item 0 weights ≤ capacity
  pub has_profit :
      (limit : Option d.Carrier) (profits weights : List ℕ) (capacity : ℕ)
      → let s = solver.solve limit profits weights capacity in
        profit_from s.contains_item 0 profits ≡ s.best_profit

abbrev pub contained : (ℕ → Bool) → ℕ → List ChildFlowInfo → List Bool
contained contains_item i [] = []
contained contains_item i (c ∷ children) =
    contains_item i ∷ contained contains_item (suc i) children

module _ (d : Double) (solver : KnapsackSolver d) where
  -- `none` where a check stops the process.
  unfoldable pub knapsack : d.Carrier → List ChildFlowInfo → d.Carrier → Option (List Bool)
  knapsack time_limit_sec children want_frac_lopri =
      let limit = if d.is_lt d.zero_frac time_limit_sec then some time_limit_sec else none in
      let demands = map (λ c. c.volume_bps) children in
      let want_demand = d.trunc_times want_frac_lopri (total_demand children) in
      let s = solver.solve limit demands demands want_demand in
      let double_check_total_demand = profit_from s.contains_item 0 demands in
      if leb s.best_profit want_demand && double_check_total_demand == s.best_profit
      then some (contained s.contains_item 0 children)
      else none

  -- The checks never stop the process where the solver does what it documents.
  pub knapsack-some :
      (i : IsSolver d solver) (time_limit_sec : d.Carrier) (children : List ChildFlowInfo)
      (want_frac_lopri : d.Carrier)
      → (lopri : List Bool) × (knapsack time_limit_sec children want_frac_lopri ≡ some lopri)
  unfolding knapsack
  knapsack-some i time_limit_sec children want_frac_lopri =
      let limit = if d.is_lt d.zero_frac time_limit_sec then some time_limit_sec else none in
      let demands = map (λ c. c.volume_bps) children in
      let want = d.trunc_times want_frac_lopri (total_demand children) in
      (
        contained (solver.solve limit demands demands want).contains_item 0 children,
        ground (arith, i.fits limit demands demands want, i.has_profit limit demands demands want),
      )
