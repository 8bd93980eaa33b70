-- ===== src/Flows/Leaf.antt =====
-- `LeafState` of heyp/flows/state.{h,cc}.
use heyp_agents.Prelude.{ℕ, ◌+◌, ◌-◌, Bool, true, Option, ltb, if◌then◌else◌}
use heyp_agents.Flows.{RateMath, DemandPredictor, Update, AggState, new_agg_state, update_usage}

pub record LeafUpdate (Aux : Type 0) : Type 0 where
  pub time : ℕ
  pub cum_usage_bytes : ℕ
  pub instantaneous_usage_bps : ℕ
  pub is_lopri : Bool
  pub aux : Option Aux

module _ {Aux : Type 0} where
  -- The update that a leaf hands to its `AggState`. A counter that went back counts as unchanged.
  unfoldable pub leaf_update : LeafUpdate Aux → AggState Aux → Update Aux
  leaf_update u s =
      let c = s.cur in
      let update_usage_bytes =
        if ltb u.cum_usage_bytes c.cum_usage_bytes then c.cum_usage_bytes else u.cum_usage_bytes in
      let bps_diff = update_usage_bytes - c.cum_usage_bytes in
      record {
        time = u.time;
        sum_child_usage_bps = u.instantaneous_usage_bps;
        sum_child_hipri_usage_bps = 0;
        sum_child_lopri_usage_bps = 0;
        cum_hipri_usage_bytes =
            if u.is_lopri then c.cum_hipri_usage_bytes else c.cum_hipri_usage_bytes + bps_diff;
        cum_lopri_usage_bytes =
            if u.is_lopri then c.cum_lopri_usage_bytes + bps_diff else c.cum_lopri_usage_bytes;
        aux = u.aux;
      }

  -- `LeafState::UpdateUsage` on the leaf's `impl_`.
  unfoldable pub leaf_update_usage :
      RateMath → DemandPredictor → ℕ → LeafUpdate Aux → AggState Aux → Option (AggState Aux)
  unfolding leaf_update update_usage
  leaf_update_usage m predictor window u s = update_usage m predictor window (leaf_update u s) s

  unfoldable pub new_leaf_state : AggState Aux
  unfolding new_agg_state
  new_leaf_state = new_agg_state true
