-- ===== src/Downgrade/ByDemand.antt =====
-- `LargestFirstDowngradeSelector::PickLOPRIChildren` of
-- heyp/alg/downgrade/impl-largest-first.cc and `HeypSigcomm20DowngradeSelector::PickLOPRIChildren`
-- of heyp/alg/downgrade/impl-heyp-sigcomm-20.cc: both sort the children by demand and let the
-- greedy loop fill a bin. The logging is left out.
pub mod Sigcomm20
pub mod LargestFirst
use heyp_agents.Prelude.{
  ℕ, suc, ◌+◌, ◌-◌, ◌≡◌, Bool, true, false, List, [], ◌∷◌, map, ltb, ◌==◌, if◌then◌else◌, arith,
}
use heyp_agents.Prelude.Order.{StrictOrder}
use heyp_agents.Prelude.Algorithms.{sort}
use heyp_agents.Prelude.Double.{Double}
use heyp_agents.Downgrade.View.{ChildFlowInfo}
use heyp_agents.Downgrade.Greedy.{volume_at, greedy_assign}

-- The comparison of two indices: the greater demand first, and the greater index where the demands
-- are equal.
abbrev pub has_more_demand : List ChildFlowInfo → ℕ → ℕ → Bool
has_more_demand children lhs rhs =
    if volume_at children lhs == volume_at children rhs
    then ltb rhs lhs
    else ltb (volume_at children rhs) (volume_at children lhs)

pub has_more_demand_irrefl :
    (children : List ChildFlowInfo) (a : ℕ) → has_more_demand children a a ≡ false
has_more_demand_irrefl children a = ground arith

pub has_more_demand_trans :
    (children : List ChildFlowInfo) (a b c : ℕ)
    → has_more_demand children a b ≡ true
    → has_more_demand children b c ≡ true
    → has_more_demand children a c ≡ true
has_more_demand_trans children a b c h k = ground arith

pub has_more_demand-connex :
    (children : List ChildFlowInfo) (a b : ℕ)
    → has_more_demand children a b ≡ false
    → has_more_demand children b a ≡ false
    → a ≡ b
has_more_demand-connex children a b h k = ground arith

abbrev pub demand_order : List ChildFlowInfo → StrictOrder ℕ
demand_order children = record {
  less = has_more_demand children;
  irrefl = has_more_demand_irrefl children;
  trans = has_more_demand_trans children;
  connex = has_more_demand-connex children;
}

-- 0, 1, … for the children of a list.
abbrev pub indices_from : ℕ → List ChildFlowInfo → List ℕ
indices_from i [] = []
indices_from i (c ∷ children) = i ∷ indices_from (suc i) children

unfoldable pub children_sorted_by_dec_demand : List ChildFlowInfo → List ℕ
unfolding sort
children_sorted_by_dec_demand children = sort ⦃o = demand_order children⦄ (indices_from 0 children)

abbrev pub total_demand : List ChildFlowInfo → ℕ
total_demand [] = 0
total_demand (c ∷ children) = c.volume_bps + total_demand children

-- The demand of the children that report LOPRI.
abbrev pub lopri_demand : List ChildFlowInfo → ℕ
lopri_demand [] = 0
lopri_demand (c ∷ children) =
    (if c.currently_lopri then c.volume_bps else 0) + lopri_demand children

abbrev pub all_hipri : List ChildFlowInfo → List Bool
all_hipri children = map (λ c. false) children

module _ (d : Double) where
  unfoldable pub largest_first : List ChildFlowInfo → d.Carrier → List Bool
  unfolding greedy_assign children_sorted_by_dec_demand
  largest_first children want_frac_lopri =
      let total = total_demand children in
      let want = d.trunc_times want_frac_lopri total in
      let order = children_sorted_by_dec_demand children in
      if total == 0
      then all_hipri children
      else (greedy_assign true true want children order 0 (all_hipri children)).1

  -- `quotient` is the division of two integers as doubles.
  module _ (quotient : ℕ → ℕ → d.Carrier) where
    -- The children at LOPRI have more than the share that is wanted.
    abbrev pub has_too_much_lopri : List ChildFlowInfo → d.Carrier → Bool
    has_too_much_lopri children want_frac_lopri =
        d.is_lt want_frac_lopri (quotient (lopri_demand children) (total_demand children))

    unfoldable pub heyp_sigcomm_20 : List ChildFlowInfo → d.Carrier → List Bool
    unfolding greedy_assign children_sorted_by_dec_demand
    heyp_sigcomm_20 children want_frac_lopri =
        let total = total_demand children in
        let lopri = lopri_demand children in
        let now = map (λ c. c.currently_lopri) children in
        let order = children_sorted_by_dec_demand children in
        let want_hipri = d.trunc_times (d.minus d.one_frac want_frac_lopri) total in
        let want_lopri = d.trunc_times want_frac_lopri total in
        if total == 0
        then all_hipri children
        else if has_too_much_lopri children want_frac_lopri
        then (greedy_assign false false want_hipri children order (total - lopri) now).1
        else (greedy_assign true false want_lopri children order lopri now).1
