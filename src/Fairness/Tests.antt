-- ===== src/Fairness/Tests.antt =====
-- Runs of the waterlevel of heyp/alg/fairness/max-min-fairness.cc, the theorems at concrete inputs.
use heyp_agents.Prelude.{◌≤◌, ◌<◌, ◌≡◌, ◌⊎◌, suc, ℕ, refl, true, List, [], ◌∷◌}
use heyp_agents.Prelude.Algorithms.{sort}
use heyp_agents.Fairness.{
  number_order, raise_waterlevel, solve_full_sort, filter_tiny, compute_waterlevel, set_allocations,
}
use heyp_agents.Fairness.FullSort.{sum}
use heyp_agents.Fairness.Waterlevel.{compute_waterlevel-fair}

abbrev demands : List ℕ
demands = 90 ∷ 5 ∷ 40 ∷ 70 ∷ []

-- 5 + 40 + 47 + 47 is 139, and one more for two demands does not fit.
compute_waterlevel-140 : compute_waterlevel true 140 demands ≡ 47
unfolding compute_waterlevel solve_full_sort filter_tiny raise_waterlevel sort number_order
compute_waterlevel-140 = refl

compute_waterlevel-fair_example :
    let w = compute_waterlevel true 140 demands in
    (sum (set_allocations w demands) ≤ 140)
    × ((set_allocations w demands ≡ demands) ⊎ (140 < sum (set_allocations (suc w) demands)))
compute_waterlevel-fair_example = compute_waterlevel-fair true 140 demands
