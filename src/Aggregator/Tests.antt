-- ===== src/Aggregator/Tests.antt =====
-- A bundle of heyp/flows/aggregator.cc whose flow is reported again, and the theorem at it.
use heyp_agents.Prelude.{
  ℕ, ◌≤◌, ◌≡◌, refl, subst, true, false, List, [], ◌∷◌, Option, some, none, arith,
}
use heyp_agents.Markers.{FlowMarker, to_host_flow}
use heyp_agents.Views.Tests.{host_of}
use heyp_agents.Flows.Sample.{thousandths, no_demand}
use heyp_agents.Threads.ParIndexedMap.{
  Span, empty_span, write, new_map, add_entry, get_id, value_at,
}
use heyp_agents.Aggregator.{
  Report, BundleState, InfoBundle, Config, FlowAggregator, update_bundle, new_bundle,
  get_bundler_id,
}
use heyp_agents.Aggregator.Bundles.{IsBundle, weigh, update_bundle-Keeps}
use heyp_agents.Aggregator.Sums.{hipri_of}
use heyp_agents.Aggregator.Steps.{IsAggregator}
use heyp_agents.Aggregator.Runs.{
  Op, asks, reports, sums, run_op, run_ops, AreFine, new_aggregator, run_ops-total,
}

abbrev pub config : Config
config = record {
  math = thousandths;
  agg_demand_predictor = no_demand;
  usage_history_window = 100;
  get_agg_flow_fn = to_host_flow;
  is_valid_child = λ m. true;
}

abbrev pub flow : FlowMarker
flow = host_of (7 ∷ []) 1

abbrev pub report_of : ℕ → Report ℕ
report_of bytes = record {
  flow = flow;
  info = record {
    currently_lopri = false;
    cum_usage_bytes = bytes;
    cum_hipri_usage_bytes = bytes;
    cum_lopri_usage_bytes = 0;
    ewma_usage_bps = 8;
    ewma_hipri_usage_bps = 8;
    ewma_lopri_usage_bps = 0;
    predicted_demand_bps = 8;
    aux = none;
  };
}

abbrev bundle_of : ℕ → ℕ → InfoBundle ℕ
bundle_of timestamp bytes = record { timestamp = timestamp; flow_infos = report_of bytes ∷ [] }

-- The flow is dead.
abbrev dead_bundle : BundleState ℕ
dead_bundle = record { active = []; dead = (flow, (5, report_of 30)) ∷ [] }

update_bundle-Keeps_example :
    (t : BundleState ℕ) × (update_bundle config (bundle_of 200 50) dead_bundle ≡ some t)
    × IsBundle t
    × (weigh (hipri_of to_host_flow flow) dead_bundle ≤ weigh (hipri_of to_host_flow flow) t)
update_bundle-Keeps_example =
    update_bundle-Keeps (hipri_of to_host_flow flow) config (bundle_of 200 50) dead_bundle
      (λ k. ground arith) (ground arith) (ground arith)

abbrev pub no_memory : ℕ → Option (Span (BundleState ℕ))
no_memory i = none

abbrev ops : List (Op ℕ)
ops = asks flow ∷ reports 0 (bundle_of 5 30) ∷ sums ∷ []

-- The aggregator once the bundler has its id.
abbrev asked : FlowAggregator ℕ
asked = record {
  bundle_states = record {
    spans = write (new_map {K = FlowMarker} no_memory).spans 0 (some (empty_span new_bundle));
    len = 1;
    id_map = (flow, 0) ∷ [];
  };
  agg_states = [];
}

asked-run : run_op config (asks flow) (new_aggregator no_memory) ≡ some asked
unfolding get_bundler_id get_id add_entry new_map write
asked-run = refl

AreFine-after :
    (op : Op ℕ) (rest : List (Op ℕ)) (a after : FlowAggregator ℕ)
    → run_op config op a ≡ some after
    → AreFine config rest after
    → (b : FlowAggregator ℕ) → run_op config op a ≡ some b
    → AreFine config rest b
AreFine-after op rest a after e f b q =
    let p : after ≡ b = ground (arith, e, q) in subst (AreFine config rest) p f

first_report : AreFine config (reports 0 (bundle_of 5 30) ∷ sums ∷ []) asked
unfolding value_at write
first_report = (
  (new_bundle, omega arith, refl, ((refl, tt), (ground arith, tt), (ground arith, tt))),
  λ b e. (tt, λ b e. tt),
)

run_ops-total_example :
    (b : FlowAggregator ℕ) × (run_ops config ops (new_aggregator no_memory) ≡ some b)
    × IsAggregator config b
unfolding new_map
run_ops-total_example = run_ops-total config no_memory ops (
  omega arith,
  AreFine-after (asks flow) (reports 0 (bundle_of 5 30) ∷ sums ∷ []) (new_aggregator no_memory)
      asked asked-run first_report,
)
