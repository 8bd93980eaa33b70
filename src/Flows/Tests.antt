-- ===== src/Flows/Tests.antt =====
-- Runs of the leaf of heyp/flows/state.cc, the theorems at concrete inputs.
use heyp_agents.Prelude.{ℕ, ◌*◌, ◌^◌, ◌≡◌, refl, Bool, true, false, List, [], ◌∷◌, none, some}
use heyp_agents.Flows.{AggState}
use heyp_agents.Flows.Sample.{thousandths, no_demand}
use heyp_agents.Flows.Leaf.{LeafUpdate, new_leaf_state}
use heyp_agents.Flows.Counters.{run_leaf, IsAccounted, latest, run_leaf-latest}

abbrev leaf_at : ℕ → ℕ → Bool → LeafUpdate ℕ
leaf_at seconds bytes lopri = record {
  time = seconds * 10 ^ 9;
  cum_usage_bytes = bytes;
  instantaneous_usage_bps = 0;
  is_lopri = lopri;
  aux = none;
}

-- The third counter went back, and the fifth update is late.
abbrev updates : List (LeafUpdate ℕ)
updates =
    leaf_at 1 0 false
    ∷ leaf_at 2 1000 false
    ∷ leaf_at 3 400 true
    ∷ leaf_at 9 1500 true
    ∷ leaf_at 8 9000 true
    ∷ []

abbrev two_seconds : ℕ
two_seconds = 2 * 10 ^ 9

latest-updates : latest 0 0 updates ≡ 1500
latest-updates = refl

run_leaf-latest_example :
    (t : AggState ℕ) × (run_leaf thousandths no_demand two_seconds updates new_leaf_state ≡ some t)
    × IsAccounted t
    × (t.cur.cum_usage_bytes ≡ latest 0 0 updates)
run_leaf-latest_example = run_leaf-latest thousandths no_demand two_seconds updates
