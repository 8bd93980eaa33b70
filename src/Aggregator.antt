-- ===== src/Aggregator.antt =====
-- `FlowAggregator` of heyp/flows/aggregator.{h,cc}: the last reports of each bundler's flows, and the
-- usage of the aggregates they make. A time is a number of nanoseconds; `InfinitePast` is 0, and
-- `InfiniteFuture` is no time at all. Of the code for debugging, which is switched off, nothing is
-- here. Hash maps are walked in the order of their association lists.
pub mod Bundles
pub mod Sums
pub mod Walk
pub mod States
pub mod Steps
pub mod Reports
pub mod Runs
pub mod Tests
use heyp_agents.Prelude.Maps.{KeyEq, lookup, assign, erase}
use heyp_agents.Prelude.{
  ℕ, ◌+◌, Bool, true, false, List, [], ◌∷◌, ◌++◌, Option, none, some, ltb, if◌then◌else◌,
}
use heyp_agents.Markers.{
  FlowMarker, CompareFlowOptions, all_options, expected_fields_are_set, to_host_flow,
  to_cluster_flow,
}
use heyp_agents.Markers.Laws.{marker_keys}
use heyp_agents.Flows.{
  RateMath, DemandPredictor, FlowInfo, Update, AggState, new_agg_state, update_usage,
}
use heyp_agents.Threads.ParIndexedMap.{ParIndexedMap, GetResult, Visitor, get_id, on_id, for_each}

-- `FlowMap`: by `EqFlow`.
instance pub flow_keys : KeyEq FlowMarker
flow_keys = marker_keys all_options

-- A `proto::FlowInfo` with its marker.
pub record Report (Aux : Type 0) : Type 0 where
  pub flow : FlowMarker
  pub info : FlowInfo Aux

-- The reports of some flows, with the times they were made at.
abbrev pub TimedFlows : Type 0 → Type 0
TimedFlows Aux = List (FlowMarker × (ℕ × Report Aux))

pub record BundleState (Aux : Type 0) : Type 0 where
  pub active : TimedFlows Aux
  pub dead : TimedFlows Aux

pub record InfoBundle (Aux : Type 0) : Type 0 where
  pub timestamp : ℕ
  pub flow_infos : List (Report Aux)

pub record AggWip (Aux : Type 0) : Type 0 where
  pub oldest_active_time : Option ℕ
  pub newest_dead_time : ℕ
  pub cum_hipri_usage_bytes : ℕ
  pub cum_lopri_usage_bytes : ℕ
  pub sum_ewma_usage_bps : ℕ
  pub sum_ewma_hipri_usage_bps : ℕ
  pub sum_ewma_lopri_usage_bps : ℕ
  pub children : List (Report Aux)

-- What the aggregator is made with; `is_valid_child` is always true where the code has none.
pub record Config : Type 1 where
  pub math : RateMath
  pub agg_demand_predictor : DemandPredictor
  pub usage_history_window : ℕ
  pub get_agg_flow_fn : FlowMarker → FlowMarker
  pub is_valid_child : FlowMarker → Bool

-- `std::min` with a time that is infinite at first.
abbrev pub earlier : Option ℕ → ℕ → Option ℕ
earlier none t = some t
earlier (some s) t = some (if ltb t s then t else s)

-- `HostFlowOptions`.
abbrev pub host_flow_options : CompareFlowOptions
host_flow_options = record all_options { cmp_host_flow = false; cmp_seqnum = false }

-- What `NewConnToHostAggregator` and `NewHostToClusterAggregator` set, but for `is_valid_parent`,
-- which nothing reads.
unfoldable pub conn_to_host_config : RateMath → DemandPredictor → ℕ → Config
conn_to_host_config math host_demand_predictor usage_history_window = record {
  math = math;
  agg_demand_predictor = host_demand_predictor;
  usage_history_window = usage_history_window;
  get_agg_flow_fn = to_host_flow;
  is_valid_child = λ c. expected_fields_are_set c all_options;
}

unfoldable pub host_to_cluster_config : RateMath → DemandPredictor → ℕ → Config
host_to_cluster_config math cluster_demand_predictor usage_history_window = record {
  math = math;
  agg_demand_predictor = cluster_demand_predictor;
  usage_history_window = usage_history_window;
  get_agg_flow_fn = to_cluster_flow;
  is_valid_child = λ h. expected_fields_are_set h host_flow_options;
}

module _ {Aux : Type 0} where
  abbrev pub new_bundle : BundleState Aux
  new_bundle = record { active = []; dead = [] }

  -- What one report does to the bundle.
  unfoldable pub take_report : ℕ → Report Aux → BundleState Aux → BundleState Aux
  take_report timestamp fi bs =
      let active = assign fi.flow (timestamp, fi) bs.active in
      elim (lookup fi.flow bs.active) [
        | none ↦ record { active = active; dead = erase fi.flow bs.dead }
        | some old ↦ record bs { active = active }
      ]

  -- The loop over the reports; `none` where a check stops the process.
  unfoldable pub take_reports :
      (FlowMarker → Bool) → ℕ → List (Report Aux) → BundleState Aux → Option (BundleState Aux)
  unfolding take_report
  take_reports is_valid_child timestamp [] bs = some bs
  take_reports is_valid_child timestamp (fi ∷ infos) bs =
      let rest = take_reports is_valid_child timestamp infos (take_report timestamp fi bs) in
      if is_valid_child fi.flow then rest else none

  -- The flows that were not reported for longer than the window.
  unfoldable pub to_erase : ℕ → ℕ → TimedFlows Aux → List FlowMarker
  to_erase window timestamp [] = []
  to_erase window timestamp (x ∷ active) =
      let rest = to_erase window timestamp active in
      if ltb (x.1.0 + window) timestamp then x.0 ∷ rest else rest

  -- The body of the last loop. `bs.active[m]` is there, since `m` is a key of the map.
  unfoldable pub bury : ℕ → FlowMarker → BundleState Aux → BundleState Aux
  bury timestamp m bs = elim (lookup m bs.active) [
    | none ↦ bs
    | some x ↦ record { active = erase m bs.active; dead = assign m (timestamp, x.1) bs.dead }
  ]

  unfoldable pub bury_all : ℕ → List FlowMarker → BundleState Aux → BundleState Aux
  unfolding bury
  bury_all timestamp [] bs = bs
  bury_all timestamp (m ∷ ms) bs = bury_all timestamp ms (bury timestamp m bs)

  -- The visitor of `Update`.
  unfoldable pub update_bundle :
      Config → InfoBundle Aux → BundleState Aux → Option (BundleState Aux)
  unfolding take_reports to_erase bury_all
  update_bundle c bundle bs =
      elim (take_reports c.is_valid_child bundle.timestamp bundle.flow_infos bs) [
        | none ↦ none
        | some t ↦
            let old = to_erase c.usage_history_window bundle.timestamp t.active in
            some (bury_all bundle.timestamp old t)
      ]

  abbrev pub new_wip : AggWip Aux
  new_wip = record {
    oldest_active_time = none;
    newest_dead_time = 0;
    cum_hipri_usage_bytes = 0;
    cum_lopri_usage_bytes = 0;
    sum_ewma_usage_bps = 0;
    sum_ewma_hipri_usage_bps = 0;
    sum_ewma_lopri_usage_bps = 0;
    children = [];
  }

  -- The counters, which active and dead flows both add.
  unfoldable pub add_counters : Report Aux → AggWip Aux → AggWip Aux
  add_counters r wip = record wip {
    cum_hipri_usage_bytes = wip.cum_hipri_usage_bytes + r.info.cum_hipri_usage_bytes;
    cum_lopri_usage_bytes = wip.cum_lopri_usage_bytes + r.info.cum_lopri_usage_bytes;
  }

  unfoldable pub add_active : ℕ × Report Aux → AggWip Aux → AggWip Aux
  unfolding add_counters
  add_active x wip =
      let usage = x.1.info.ewma_usage_bps in
      let lopri = x.1.info.currently_lopri in
      record (add_counters x.1 wip) {
        oldest_active_time = earlier wip.oldest_active_time x.0;
        sum_ewma_usage_bps = wip.sum_ewma_usage_bps + usage;
        sum_ewma_lopri_usage_bps = wip.sum_ewma_lopri_usage_bps + (if lopri then usage else 0);
        sum_ewma_hipri_usage_bps = wip.sum_ewma_hipri_usage_bps + (if lopri then 0 else usage);
        children = wip.children ++ x.1 ∷ [];
      }

  unfoldable pub add_dead : ℕ × Report Aux → AggWip Aux → AggWip Aux
  unfolding add_counters
  add_dead x wip =
      let newest = if ltb wip.newest_dead_time x.0 then x.0 else wip.newest_dead_time in
      record (add_counters x.1 wip) { newest_dead_time = newest }

  -- `GetAggWIP`.
  unfoldable pub get_agg_wip :
      (FlowMarker → FlowMarker) → FlowMarker → List (FlowMarker × AggWip Aux) → AggWip Aux
  get_agg_wip get_agg_flow_fn child wips = elim (lookup (get_agg_flow_fn child) wips) [
    | none ↦ new_wip
    | some wip ↦ wip
  ]

  -- One of the two loops over the flows of a bundle: what it does to the entry of the aggregate.
  unfoldable pub add_flows :
      (FlowMarker → FlowMarker)
      → (ℕ × Report Aux → AggWip Aux → AggWip Aux)
      → TimedFlows Aux
      → List (FlowMarker × AggWip Aux)
      → List (FlowMarker × AggWip Aux)
  unfolding get_agg_wip
  add_flows get_agg_flow_fn add [] wips = wips
  add_flows get_agg_flow_fn add (x ∷ flows) wips =
      let wip = get_agg_wip get_agg_flow_fn x.0 wips in
      add_flows get_agg_flow_fn add flows (assign (get_agg_flow_fn x.0) (add x.1 wip) wips)

  -- The visitor of `ForEachAgg`.
  unfoldable pub add_bundle :
      (FlowMarker → FlowMarker) → Visitor (List (FlowMarker × AggWip Aux)) (BundleState Aux)
  unfolding add_flows add_active add_dead
  add_bundle get_agg_flow_fn bundler_id wips bs =
      let with_active = add_flows get_agg_flow_fn add_active bs.active wips in
      (add_flows get_agg_flow_fn add_dead bs.dead with_active, bs)

  -- The time of an aggregate; the Unix epoch is 0, like the infinite past.
  unfoldable pub time_of : AggWip Aux → ℕ
  time_of wip = elim wip.oldest_active_time [ some t ↦ t | none ↦ wip.newest_dead_time ]

  unfoldable pub agg_update : AggWip Aux → Update Aux
  unfolding time_of
  agg_update wip = record {
    time = time_of wip;
    sum_child_usage_bps = wip.sum_ewma_usage_bps;
    sum_child_hipri_usage_bps = wip.sum_ewma_hipri_usage_bps;
    sum_child_lopri_usage_bps = wip.sum_ewma_lopri_usage_bps;
    cum_hipri_usage_bytes = wip.cum_hipri_usage_bytes;
    cum_lopri_usage_bytes = wip.cum_lopri_usage_bytes;
    aux = none;
  }

  -- `GetAggState`.
  unfoldable pub get_agg_state : FlowMarker → List (FlowMarker × AggState Aux) → AggState Aux
  unfolding new_agg_state
  get_agg_state agg_flow states = elim (lookup agg_flow states) [
    | none ↦ new_agg_state false
    | some s ↦ s
  ]

-- What `func` gets: the time, and the aggregate with its children.
pub record AggCall (Aux : Type 0) : Type 0 where
  pub time : ℕ
  pub parent : Report Aux
  pub children : List (Report Aux)

pub record FlowAggregator (Aux : Type 0) : Type 0 where
  pub bundle_states : ParIndexedMap FlowMarker (BundleState Aux)
  pub agg_states : List (FlowMarker × AggState Aux)

module _ {Aux : Type 0} (c : Config) where
  -- `GetBundlerID`.
  unfoldable pub get_bundler_id :
      FlowMarker → FlowAggregator Aux → Option (GetResult × FlowAggregator Aux)
  unfolding get_id
  get_bundler_id bundler a = elim (get_id new_bundle bundler a.bundle_states) [
    | none ↦ none
    | some (r, m) ↦ some (r, record a { bundle_states = m })
  ]

  -- The function that `Update` hands to `OnID`, with whether its checks held.
  unfoldable pub report_bundle : InfoBundle Aux → Visitor Bool (BundleState Aux)
  unfolding update_bundle
  report_bundle bundle id ok bs = elim (update_bundle c bundle bs) [
    | none ↦ (false, bs)
    | some t ↦ (ok, t)
  ]

  -- `Update`.
  unfoldable pub update : ℕ → InfoBundle Aux → FlowAggregator Aux → Option (FlowAggregator Aux)
  unfolding on_id report_bundle
  update bundler_id bundle a =
      elim (on_id (report_bundle bundle) bundler_id (true, a.bundle_states)) [
        | none ↦ none
        | some (ok, m) ↦ if ok then some (record a { bundle_states = m }) else none
      ]

  -- The loop over the aggregates; `none` is where a check of `UpdateUsage` stops the process.
  unfoldable pub update_aggs :
      List (FlowMarker × AggWip Aux)
      → List (FlowMarker × AggState Aux)
      → Option (List (FlowMarker × AggState Aux) × List (AggCall Aux))
  update_aggs [] states = some (states, [])
  update_aggs (x ∷ wips) states =
      let update = agg_update x.1 in
      elim (update_usage c.math c.agg_demand_predictor c.usage_history_window update
        (get_agg_state x.0 states)) [
          | none ↦ none
          | some s ↦ elim (update_aggs wips (assign x.0 s states)) [
            | none ↦ none
            | some (after, calls) ↦
                let parent : Report Aux = record { flow = x.0; info = s.cur } in
                let call : AggCall Aux = record {
                  time = update.time;
                  parent = parent;
                  children = x.1.children;
                } in
                some (after, call ∷ calls)
          ]
        ]

  -- `ForEachAgg`: the aggregator after it, and the calls of `func`.
  unfoldable pub for_each_agg :
      FlowAggregator Aux → Option (FlowAggregator Aux × List (AggCall Aux))
  unfolding for_each add_bundle update_aggs
  for_each_agg a =
      let m = a.bundle_states in
      elim (for_each (add_bundle c.get_agg_flow_fn) 0 m.len ([], m)) [
        | none ↦ none
        | some (wips, n) ↦ elim (update_aggs wips a.agg_states) [
          | none ↦ none
          | some (states, calls) ↦ some (record { bundle_states = n; agg_states = states }, calls)
        ]
      ]
