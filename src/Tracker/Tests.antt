-- ===== src/Tracker/Tests.antt =====
-- Runs of the tracker of heyp/host-agent/flow-tracker.cc, the theorems at concrete inputs.
use heyp_agents.Prelude.Text.{codes, bytes_eq}
use heyp_agents.Prelude.{ℕ, ◌+◌, ◌*◌, ◌^◌, ◌≤◌, ◌≡◌, refl, false, List, [], ◌∷◌, map, none, arith}
use heyp_agents.Markers.{FlowMarker, is_same_flow}
use heyp_agents.Markers.Laws.{marker_keys}
use heyp_agents.Flows.Leaf.{leaf_update_usage, new_leaf_state}
use heyp_agents.Flows.Sample.{thousandths, no_demand}
use heyp_agents.Tracker.{
  FlowPri, k_unset, k_hi, k_lo, FlowUpdate, FlowTracker, Config, Outcome, finished, stopped,
  out_of_fuel, new_tracker, update_flows, update_round, finalize_flow, finalize_flows, update_leaf,
  use_update_of, active_keys,
}
use heyp_agents.Tracker.Moves.{over_flows, usage_of, IsTracker}
use heyp_agents.Tracker.Rounds.{update_flows-finishes}
use heyp_agents.Tracker.History.{Call, updates, finalizes, run_calls, call, run_calls-IsTracker}

abbrev config : Config
config = record {
  math = thousandths;
  demand_predictor = no_demand;
  usage_history_window = 10 ^ 10;
  ignore_instantaneous_usage = false;
}

abbrev to_port : ℕ → FlowMarker
to_port port = record {
  src_dc = [];
  dst_dc = [];
  job = [];
  host_id = 7;
  src_addr = codes "10.0.0.1";
  dst_addr = codes "10.0.0.2";
  protocol = 1;
  src_port = 4000;
  dst_port = port;
  seqnum = 0;
}

abbrev update_to : ℕ → ℕ → FlowPri → FlowUpdate ℕ
update_to port bytes priority = record {
  flow = to_port port;
  instantaneous_usage_bps = 0;
  cum_usage_bytes = bytes;
  used_priority = priority;
  aux = none;
}

-- The counter of port 80 goes back: its flow is done, and a new one begins.
abbrev batch : List (FlowUpdate ℕ)
batch = update_to 80 500 k_hi ∷ update_to 81 20 k_lo ∷ update_to 80 100 k_lo ∷ []

abbrev calls : List (Call ℕ)
calls = updates 5 batch ∷ finalizes 6 (update_to 80 300 k_unset ∷ update_to 99 1 k_unset ∷ []) ∷ []

fresh-IsTracker : IsTracker {Aux = ℕ} new_tracker
unfolding new_tracker
fresh-IsTracker = record {
  keyed = λ k. omega arith;
  unique = λ n. omega arith;
  fresh = λ n g. omega arith;
  accounted = tt;
}

update_flows-finishes_example :
    (t : FlowTracker ℕ) × (update_flows config 6 5 batch new_tracker ≡ finished t)
    × IsTracker t
    × (t.next_seqnum ≤ 0 + 2 * 3)
    × (over_flows {Aux = ℕ} usage_of new_tracker ≤ over_flows usage_of t)
unfolding new_tracker
update_flows-finishes_example =
    update_flows-finishes config 6 5 batch new_tracker (omega arith) (ground arith) (omega arith)
      fresh-IsTracker

run_calls-IsTracker_example :
    (t : FlowTracker ℕ) × (run_calls config calls new_tracker ≡ finished t) × IsTracker t
run_calls-IsTracker_example = run_calls-IsTracker config calls (ground arith) (omega arith)

done_usages : Outcome ℕ → List ℕ
done_usages (finished t) = map usage_of t.done_flows
done_usages stopped = []
done_usages out_of_fuel = []

done_usages-calls : done_usages (run_calls config calls new_tracker) ≡ 500 ∷ 300 ∷ 1 ∷ []
unfolding done_usages run_calls call update_flows finalize_flows update_round finalize_flow
    new_tracker new_leaf_state leaf_update_usage update_leaf use_update_of active_keys marker_keys
    is_same_flow bytes_eq
done_usages-calls = refl
