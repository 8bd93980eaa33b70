-- ===== src/Downgrade/Tests.antt =====
-- Runs of the selectors of heyp/alg/downgrade, the theorems at concrete inputs.
use heyp_agents.Prelude.Fixed.{Fixed, positive, fixed, fixed-HasGrid}
use heyp_agents.Prelude.{
  ℕ, ◌^◌, ◌*◌, ◌/◌, ◌≡◌, ◌≢◌, refl, take, true, false, List, [], ◌∷◌, map, All, none, some, arith,
}
use heyp_agents.Prelude.Algorithms.{IsSorted, count}
use heyp_agents.Downgrade.Greedy.{decide, greedy_assign}
use heyp_agents.Downgrade.ByDemand.{
  demand_order, indices_from, children_sorted_by_dec_demand, total_demand, all_hipri, largest_first,
  heyp_sigcomm_20,
}
use heyp_agents.Downgrade.ByDemand.Sigcomm20.{
  state_to_increase, want_demand, IsExact, FillsBin, heyp_sigcomm_20-FillsBin,
}
use heyp_agents.Downgrade.ByDemand.LargestFirst.{downgrade_all, IsClosest, largest_first-IsClosest}
use heyp_agents.HashRing.{id_range}
use heyp_agents.Downgrade.View.{ChildFlowInfo}
use heyp_agents.Downgrade.Diff.{DowngradeDiff, pick_lopri_children}
use heyp_agents.Downgrade.Diff.Laws.{decision, HasDistinctIds, pick_lopri_children-decision}
use heyp_agents.Downgrade.Hashing.{new_selector, is_lopri, pick_lopri}
use heyp_agents.Downgrade.Hashing.Sticky.{picks, picks-is_lopri}

abbrev child : ℕ → ℕ → ChildFlowInfo
child id volume = record { child_id = id; volume_bps = volume; currently_lopri = false }

abbrev children : List ChildFlowInfo
children = child 3 100 ∷ child (2 ^ 63) 70 ∷ child (2 ^ 62) 40 ∷ []

children-HasDistinctIds : HasDistinctIds children
children-HasDistinctIds = ground arith

-- Downgrade the ids up to 2^62 and upgrade 3.
abbrev diff : DowngradeDiff
diff = record {
  to_downgrade = record { ranges = id_range 0 (2 ^ 62) ∷ []; points = [] };
  to_upgrade = record { ranges = []; points = 3 ∷ 4 ∷ [] };
}

pick_lopri_children-decision_example :
    let r = pick_lopri_children diff (λ id. none) children in
    (r.1 ≡ map (decision diff (λ id. none)) children)
    × All (λ c. r.0 c.child_id ≡ some (decision diff (λ id. none) c)) children
    × ((id : ℕ) → All (λ c. c.child_id ≢ id) children → r.0 id ≡ none)
pick_lopri_children-decision_example =
    pick_lopri_children-decision diff (λ id. none) children children-HasDistinctIds

-- Half, then a quarter, then three quarters.
picks-is_lopri_example :
    let s = picks fixed fixed-HasGrid (new_selector fixed) children (2 ^ 31 ∷ 2 ^ 30 ∷ []) in
    let r = pick_lopri fixed s children (fixed-HasGrid.grid (3 * 2 ^ 30)) in
    r.1 ≡ map (λ c. is_lopri fixed r.0 c.child_id) children
picks-is_lopri_example =
    picks-is_lopri fixed fixed-HasGrid children (2 ^ 31 ∷ 2 ^ 30 ∷ []) (3 * 2 ^ 30)
      children-HasDistinctIds (ground arith) (ground arith) (omega arith)

-- The quotient of two integers on the multiples of 2^-34.
abbrev quotient : ℕ → ℕ → Fixed
quotient a b = positive (a * 2 ^ 34 / b)

abbrev half : Fixed
half = positive (2 ^ 33)

-- 100 is closer to 105 than 170.
largest_first-children : largest_first fixed children half ≡ true ∷ false ∷ false ∷ []
unfolding largest_first children_sorted_by_dec_demand greedy_assign decide
largest_first-children = refl

heyp_sigcomm_20-children : heyp_sigcomm_20 fixed quotient children half ≡ true ∷ false ∷ false ∷ []
unfolding heyp_sigcomm_20 children_sorted_by_dec_demand greedy_assign decide
heyp_sigcomm_20-children = refl

half-IsExact : IsExact fixed quotient children half
half-IsExact = record { hipri_is_short = λ h. ground arith; lopri_is_short = λ h. omega arith }

heyp_sigcomm_20-FillsBin_example :
    FillsBin
      (state_to_increase fixed quotient children half)
      (want_demand fixed quotient children half)
      children
      (heyp_sigcomm_20 fixed quotient children half)
heyp_sigcomm_20-FillsBin_example =
    heyp_sigcomm_20-FillsBin fixed quotient children half (ground arith) half-IsExact

largest_first-IsClosest_example :
    let order = children_sorted_by_dec_demand children in
    let o = demand_order children in
    IsSorted ⦃o = o⦄ order
    × ((a : ℕ) → count ⦃o = o⦄ a order ≡ count ⦃o = o⦄ a (indices_from 0 children))
    × ((m : ℕ) × (largest_first fixed children half
          ≡ downgrade_all (take m order) (all_hipri children))
        × IsClosest children (fixed.trunc_times half (total_demand children)) order 0 m)
largest_first-IsClosest_example = largest_first-IsClosest fixed children half (ground arith)
