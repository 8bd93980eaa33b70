-- ===== src/Selector.antt =====
-- `DowngradeSelector` of heyp/alg/qos-downgrade.{h,cc}: the selector of a type, on the hosts of an
-- aggregate or on its jobs.
pub mod Laws
mod Tests
use heyp_agents.Prelude.Text.{Bytes}
use heyp_agents.Prelude.Double.{Double}
use heyp_agents.Prelude.{
  ℕ, Bool, List, [], ◌∷◌, length, get_elem?, Option, none, some, ◌==◌, if◌then◌else◌,
}
use heyp_agents.Downgrade.View.{ChildFlowInfo}
use heyp_agents.Downgrade.ByDemand.{largest_first, heyp_sigcomm_20}
use heyp_agents.Downgrade.Hashing.{HashingDowngradeSelector, new_selector, pick_lopri}
use heyp_agents.Downgrade.Knapsack.{KnapsackSolver, knapsack}
use heyp_agents.Views.{
  FlowInfo, FvSource, k_usage, k_predicted_demand, host_level_view, job_level_view,
}

pub data DowngradeSelectorType : Type 0 where
  ds_heyp_sigcomm20 ds_hashing ds_hybrid_hashing ds_knapsack_solver ds_largest_first :
      DowngradeSelectorType

-- A `DowngradeSelectorImpl`: its state, and `PickLOPRIChildren`, which is `none` where a check stops
-- the process.
pub record SelectorImpl (d : Double) : Type 1 where
  pub State : Type 0
  pub start : State
  pub pick : State → List ChildFlowInfo → d.Carrier → Option (State × List Bool)

-- The loop over the hosts, with its checks. The job of a host is never negative here.
unfoldable pub select_hosts : List Bool → List ℕ → Option (List Bool)
select_hosts job_selection [] = some []
select_hosts job_selection (job ∷ job_of_host) =
    let rest = select_hosts job_selection job_of_host in
    elim (get_elem? job_selection job) [
      | none ↦ none
      | some chosen ↦ elim rest [
        | none ↦ none
        | some host_selection ↦ some (chosen ∷ host_selection)
      ]
    ]

-- The check of the sizes, and the loop.
unfoldable pub spread_jobs : ℕ → List Bool → List ℕ → Option (List Bool)
spread_jobs children_size job_selection job_of_host =
    if children_size == length job_of_host then select_hosts job_selection job_of_host else none

unfoldable pub volume_source : Bool → FvSource
volume_source downgrade_usage = if downgrade_usage then k_usage else k_predicted_demand

module _ (d : Double) where
  -- What carries no state from call to call.
  abbrev stateless : (List ChildFlowInfo → d.Carrier → Option (List Bool)) → SelectorImpl d
  stateless f = record {
    State = Unit;
    start = tt;
    pick = λ s children want. elim (f children want) [ none ↦ none | some lopri ↦ some (s, lopri) ];
  }

  -- `GetSelector`, `none` where the type is not supported and the process exits. `quotient` is the
  -- division of two integers as doubles.
  unfoldable pub get_selector :
      (ℕ → ℕ → d.Carrier)
      → KnapsackSolver d
      → d.Carrier
      → DowngradeSelectorType
      → Option (SelectorImpl d)
  get_selector quotient solver time_limit_sec ds_heyp_sigcomm20 =
      some (stateless (λ children want. some (heyp_sigcomm_20 d quotient children want)))
  get_selector quotient solver time_limit_sec ds_hashing = some (record {
    State = HashingDowngradeSelector d;
    start = new_selector d;
    pick = λ s children want. some (pick_lopri d s children want);
  })
  get_selector quotient solver time_limit_sec ds_hybrid_hashing = none
  get_selector quotient solver time_limit_sec ds_knapsack_solver =
      some (stateless (knapsack d solver time_limit_sec))
  get_selector quotient solver time_limit_sec ds_largest_first =
      some (stateless (λ children want. some (largest_first d children want)))

  module _ (hash : Bytes → ℕ) (impl : SelectorImpl d) where
    -- The branch where `downgrade_jobs_` is set.
    unfoldable pub pick_by_job :
        FvSource → impl.State → List FlowInfo → d.Carrier → Option (impl.State × List Bool)
    pick_by_job source s infos want_frac_lopri =
        let view = job_level_view hash source infos in
        elim (impl.pick s view.children want_frac_lopri) [
          | none ↦ none
          | some (t, job_selection) ↦
              elim (spread_jobs (length infos) job_selection view.job_index_of_host) [
                | none ↦ none
                | some host_selection ↦ some (t, host_selection)
              ]
        ]

    -- `DowngradeSelector::PickLOPRIChildren`.
    unfoldable pub pick_lopri_hosts :
        Bool → Bool → impl.State → List FlowInfo → d.Carrier → Option (impl.State × List Bool)
    pick_lopri_hosts downgrade_jobs downgrade_usage s infos want_frac_lopri =
        let source = volume_source downgrade_usage in
        if downgrade_jobs
        then pick_by_job source s infos want_frac_lopri
        else impl.pick s (host_level_view source infos) want_frac_lopri
