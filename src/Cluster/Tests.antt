-- ===== src/Cluster/Tests.antt =====
-- A controller with one listener and one aggregate, and the theorems at it.
use heyp_agents.Prelude.Text.{bytes_eq}
use heyp_agents.Prelude.{
  ℕ, false, List, [], ◌∷◌, Option, some, none, map, ◌≡◌, refl, arith, get_elem?, ◌%◌,
}
use heyp_agents.Markers.{FlowMarker, is_same_flow}
use heyp_agents.Threads.ParIndexedMap.{
  visit_spans, end_span, visit_entries, stop_entry, first_entry, visit_entry, ParIndexedMap,
}
use heyp_agents.Flows.{update_usage}
use heyp_agents.Aggregator.{
  agg_update, get_agg_state, BundleState, FlowAggregator, AggCall, for_each_agg,
}
use heyp_agents.Aggregator.Tests.{config, flow, report_of}
use heyp_agents.Enforcer.{FlowAlloc}
use heyp_agents.Cluster.{
  FullController, Listener, Call, id_keys, bundle_by_host, compute_and_broadcast, intended,
  broadcast, register_listener, remove_listener,
}
use heyp_agents.Prelude.Maps.{lookup}
use heyp_agents.Markers.Laws.{marker_keys}
use heyp_agents.Cluster.HostPattern.{
  Snapshot, FixedHostPatternAllocator, cluster_keys, alloc_agg, hand_out, written_out,
  alloc_agg-hand_out,
}
use heyp_agents.Cluster.Intended.{
  all_allocs, for_host, first_for, priority_told, compute_and_broadcast-intended,
}
use heyp_agents.Cluster.Broadcast.{
  calls_of, called, registered, same_listener, listener-called_once,
}

abbrev at_lopri : AggCall ℕ → List FlowAlloc
at_lopri call = (record { flow = flow; hipri_rate_limit_bps = 0; lopri_rate_limit_bps = 5 }) ∷ []

-- One bundler, with one active flow.
abbrev one_bundle : ParIndexedMap FlowMarker (BundleState ℕ)
one_bundle = record {
  spans = λ i. some (λ j. record { active = (flow, (5, report_of 30)) ∷ []; dead = [] });
  len = 1;
  id_map = (flow, 0) ∷ [];
}

abbrev aggregator : FlowAggregator ℕ
aggregator = record { bundle_states = one_bundle; agg_states = [] }

abbrev controller : FullController ℕ ℕ
controller = record {
  aggregator = aggregator;
  last_alloc_bundle = [];
  new_bundle_funcs = [];
  next_lis_id = 1;
}

abbrev or_start : Option (FlowAggregator ℕ × List (AggCall ℕ)) → FlowAggregator ℕ × List (AggCall ℕ)
or_start none = (aggregator, [])
or_start (some r) = r

abbrev summed : FlowAggregator ℕ × List (AggCall ℕ)
summed = or_start (for_each_agg config aggregator)

summed_lem : for_each_agg config aggregator ≡ some summed
unfolding for_each_agg visit_spans end_span visit_entries stop_entry first_entry visit_entry
    update_usage agg_update get_agg_state
summed_lem = refl

compute_and_broadcast-intended_example :
    (s' : FullController ℕ ℕ) × (calls : List (Call ℕ)) × (compute_and_broadcast config at_lopri
        (λ sets. sets)
        controller
      ≡ some (s', calls))
    × (intended s'.last_alloc_bundle 1 (report_of 1) ≡ record (report_of 1) {
      info = record (report_of 1).info {
        ewma_hipri_usage_bps = 0;
        ewma_lopri_usage_bps = 0;
        currently_lopri =
            priority_told
              (first_for (report_of 1).flow (for_host 1 (all_allocs (map at_lopri (summed.1)))))
              (report_of 1).info.currently_lopri;
      };
    })
compute_and_broadcast-intended_example =
    compute_and_broadcast-intended config at_lopri (λ sets. sets) controller summed 1 (report_of 1)
      summed_lem

abbrev sets : List (List FlowAlloc)
sets = at_lopri (record { time = 0; parent = report_of 1; children = [] }) ∷ []

abbrev funcs : List (ℕ × List (ℕ × ℕ))
funcs = (1, (1, 77) ∷ []) ∷ []

listener-called_once_example :
    let r = register_listener 1 77 controller in
    let after = remove_listener (r.0) (r.1) in
    let other : Listener = record { host_id = 2; lis_id = 1 } in
    (calls_of (r.0) (broadcast r.1.new_bundle_funcs (bundle_by_host sets))
      ≡ called (for_host 1 (all_allocs sets)) 1)
    × (calls_of (r.0) (broadcast after.new_bundle_funcs (bundle_by_host sets)) ≡ 0)
    × (same_listener other (r.0) ≡ false
        → registered other after.new_bundle_funcs ≡ registered other controller.new_bundle_funcs)
listener-called_once_example =
    listener-called_once 1 77 controller sets (record { host_id = 2; lis_id = 1 })
      (λ h. omega (arith, h)) refl

-- Two hosts at HIPRI, and one at LOPRI.
abbrev two_and_one : Snapshot
two_and_one =
    (record {
      alloc = record { flow = flow; hipri_rate_limit_bps = 5; lopri_rate_limit_bps = 0 };
      num_hosts = 2;
    })
    ∷ (record {
      alloc = record { flow = flow; hipri_rate_limit_bps = 0; lopri_rate_limit_bps = 2 };
      num_hosts = 1;
    })
    ∷ []

abbrev by_pattern : FixedHostPatternAllocator
by_pattern = record { alloc_patterns = (flow, [] ∷ two_and_one ∷ []) ∷ []; next = 3 }

known_pattern : lookup flow by_pattern.alloc_patterns ≡ some ([] ∷ two_and_one ∷ [])
unfolding cluster_keys marker_keys is_same_flow bytes_eq
known_pattern = refl

alloc_agg-hand_out_example :
    (snapshot : Snapshot) × (get_elem? ([] ∷ two_and_one ∷ []) (3 % 2) ≡ some snapshot)
    × (alloc_agg flow flow (flow ∷ flow ∷ flow ∷ flow ∷ []) by_pattern ≡ (
      record by_pattern { next = 4 },
      hand_out (flow ∷ flow ∷ flow ∷ flow ∷ []) (written_out snapshot),
    ))
alloc_agg-hand_out_example =
    alloc_agg-hand_out flow flow (flow ∷ flow ∷ flow ∷ flow ∷ []) by_pattern ([] ∷ two_and_one ∷ [])
      known_pattern (omega arith)
