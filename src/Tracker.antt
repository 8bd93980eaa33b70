-- ===== src/Tracker.antt =====
-- `FlowTracker` of heyp/host-agent/flow-tracker.{h,cc}: the flows of a host, active and done. The
-- methods run under one mutex. `active_flows_` is a hash map by `EqHostFlowNoId`.
pub mod Moves
pub mod Rounds
pub mod History
mod Tests
use heyp_agents.Prelude.Maps.{KeyEq, lookup, assign, erase}
use heyp_agents.Prelude.{
  ℕ, zero, suc, ◌+◌, ◌%◌, ◌^◌, Bool, true, false, List, [], ◌∷◌, ◌++◌, Option, none, some, ltb,
  if◌then◌else◌,
}
use heyp_agents.Markers.{FlowMarker, no_id_options}
use heyp_agents.Markers.Laws.{marker_keys}
use heyp_agents.Flows.{RateMath, DemandPredictor, AggState}
use heyp_agents.Flows.Leaf.{LeafUpdate, leaf_update_usage, new_leaf_state}

pub data FlowPri : Type 0 where
  k_unset k_hi k_lo : FlowPri

-- A `LeafState` with its marker.
pub record Leaf (Aux : Type 0) : Type 0 where
  pub flow : FlowMarker
  pub state : AggState Aux

pub record FlowUpdate (Aux : Type 0) : Type 0 where
  pub flow : FlowMarker
  pub instantaneous_usage_bps : ℕ
  pub cum_usage_bytes : ℕ
  pub used_priority : FlowPri
  pub aux : Option Aux

pub record FlowTracker (Aux : Type 0) : Type 0 where
  pub next_seqnum : ℕ
  pub active_flows : List (FlowMarker × Leaf Aux)
  pub done_flows : List (Leaf Aux)

-- The fields of the tracker that never change: its configuration and its predictor.
pub record Config : Type 1 where
  pub math : RateMath
  pub demand_predictor : DemandPredictor
  pub usage_history_window : ℕ
  pub ignore_instantaneous_usage : Bool

instance pub active_keys : KeyEq FlowMarker
active_keys = marker_keys no_id_options

-- What one round of the loop of `UpdateFlows` does: it goes on, or runs again on the same update, or
-- a check stops the process.
pub data Round (Aux : Type 0) : Type 0 where
  goes_on : FlowTracker Aux → Round Aux
  again : FlowTracker Aux → Round Aux
  stops : Round Aux

pub data Outcome (Aux : Type 0) : Type 0 where
  finished : FlowTracker Aux → Outcome Aux
  stopped : Outcome Aux
  out_of_fuel : Outcome Aux

-- `u.used_priority == FlowPri::kLo`.
abbrev pub is_lo : FlowPri → Bool
is_lo k_unset = false
is_lo k_hi = false
is_lo k_lo = true

-- `is_lopri` in `FinalizeFlows`: an update without a priority has that of the flow.
abbrev pub final_is_lopri : FlowPri → Bool → Bool
final_is_lopri k_unset currently_lopri = currently_lopri
final_is_lopri k_hi currently_lopri = false
final_is_lopri k_lo currently_lopri = true

module _ {Aux : Type 0} where
  unfoldable pub new_tracker : FlowTracker Aux
  new_tracker = record { next_seqnum = 0; active_flows = []; done_flows = [] }

  unfoldable pub create_leaf_state : FlowMarker → ℕ → Leaf Aux
  create_leaf_state f seqnum = record {
    flow = record f { seqnum = seqnum };
    state = new_leaf_state;
  }

  -- The state of the flow, created where the flow is not active.
  unfoldable pub ensure_active : FlowMarker → FlowTracker Aux → Leaf Aux × FlowTracker Aux
  unfolding create_leaf_state
  ensure_active flow t = elim (lookup flow t.active_flows) [
    | some leaf ↦ (leaf, t)
    | none ↦
        let seqnum = (t.next_seqnum + 1) % 2 ^ 64 in
        let leaf = create_leaf_state flow seqnum in
        (leaf, record t { next_seqnum = seqnum; active_flows = assign flow leaf t.active_flows })
  ]

  -- `done_flows_.push_back(state); active_flows_.erase(u.flow)`.
  unfoldable pub move_to_done : FlowMarker → Leaf Aux → FlowTracker Aux → FlowTracker Aux
  move_to_done flow leaf t = record t {
    done_flows = t.done_flows ++ leaf ∷ [];
    active_flows = erase flow t.active_flows;
  }

  -- The state of an active flow, changed in place.
  unfoldable pub set_active : FlowMarker → Leaf Aux → FlowTracker Aux → FlowTracker Aux
  set_active flow leaf t = record t { active_flows = assign flow leaf t.active_flows }

  module _ (c : Config) where
    -- The update of the leaf.
    unfoldable pub to_leaf_update : ℕ → FlowUpdate Aux → Bool → LeafUpdate Aux
    to_leaf_update timestamp u is_lopri = record {
      time = timestamp;
      cum_usage_bytes = u.cum_usage_bytes;
      instantaneous_usage_bps =
          if c.ignore_instantaneous_usage then 0 else u.instantaneous_usage_bps;
      is_lopri = is_lopri;
      aux = u.aux;
    }

    unfoldable pub update_leaf : ℕ → FlowUpdate Aux → Bool → Leaf Aux → Option (Leaf Aux)
    unfolding to_leaf_update
    update_leaf timestamp u is_lopri leaf =
        elim (leaf_update_usage c.math c.demand_predictor c.usage_history_window
          (to_leaf_update timestamp u is_lopri) leaf.state) [
            | none ↦ none
            | some s ↦ some (record leaf { state = s })
          ]

    -- The branch of `UpdateFlows` that is not a race.
    unfoldable pub use_update_of : ℕ → FlowUpdate Aux → Leaf Aux → FlowTracker Aux → Round Aux
    unfolding update_leaf set_active
    use_update_of timestamp u leaf t = elim (update_leaf timestamp u (is_lo u.used_priority) leaf) [
      | none ↦ stops
      | some new ↦ goes_on (set_active u.flow new t)
    ]

    unfoldable pub update_round : ℕ → FlowUpdate Aux → FlowTracker Aux → Round Aux
    unfolding ensure_active move_to_done use_update_of
    update_round timestamp u before =
        let (leaf, t) = ensure_active u.flow before in
        if ltb u.cum_usage_bytes leaf.state.cur.cum_usage_bytes
        then again (move_to_done u.flow leaf t)
        else elim u.used_priority [
          | k_unset ↦ stops
          | k_hi ↦ use_update_of timestamp u leaf t
          | k_lo ↦ use_update_of timestamp u leaf t
        ]

    -- `UpdateFlows`. The loop counts up only where a round goes on; it is given fuel.
    unfoldable pub update_flows : ℕ → ℕ → List (FlowUpdate Aux) → FlowTracker Aux → Outcome Aux
    update_flows fuel timestamp [] t = finished t
    update_flows zero timestamp (u ∷ us) t = out_of_fuel
    update_flows (suc fuel) timestamp (u ∷ us) t = elim (update_round timestamp u t) [
      | goes_on next ↦ update_flows fuel timestamp us next
      | again next ↦ update_flows fuel timestamp (u ∷ us) next
      | stops ↦ stopped
    ]

    unfoldable pub finalize_flow : ℕ → FlowUpdate Aux → FlowTracker Aux → Option (FlowTracker Aux)
    unfolding ensure_active update_leaf move_to_done set_active
    finalize_flow timestamp u before =
        let (leaf, t) = ensure_active u.flow before in
        elim (update_leaf timestamp u
          (final_is_lopri u.used_priority leaf.state.cur.currently_lopri) leaf) [
            | none ↦ none
            | some new ↦ some (move_to_done u.flow new (set_active u.flow new t))
          ]

    unfoldable pub finalize_flows :
        ℕ → List (FlowUpdate Aux) → FlowTracker Aux → Option (FlowTracker Aux)
    finalize_flows timestamp [] t = some t
    finalize_flows timestamp (u ∷ us) t = elim (finalize_flow timestamp u t) [
      | none ↦ none
      | some next ↦ finalize_flows timestamp us next
    ]
