-- ===== src/Aggregator/Sums.antt =====
-- What `FlowAggregator::ForEachAgg` of heyp/flows/aggregator.cc adds up for an aggregate.
use heyp_agents.Prelude.Maps.{lookup, assign, weight, lookup-assign, lookup-assign_other}
use heyp_agents.Prelude.{
  ℕ, ◌+◌, ◌≡◌, refl, ap, List, [], ◌∷◌, none, some, if◌then◌else◌, arith, Bool-cases, inl, inr,
}
use heyp_agents.Markers.{FlowMarker}
use heyp_agents.Aggregator.{
  flow_keys, Report, TimedFlows, BundleState, AggWip, add_counters, add_active, add_dead,
  get_agg_wip, add_flows, add_bundle,
}
use heyp_agents.Aggregator.Bundles.{flow_keys-exact, weigh}

module _ {Aux : Type 0} (agg : FlowMarker → FlowMarker) (a : FlowMarker) where
  -- The bytes at a priority that a flow reports, where it is of the aggregate.
  abbrev pub hipri_of : FlowMarker → Report Aux → ℕ
  hipri_of k r = if flow_keys.eq (agg k) a then r.info.cum_hipri_usage_bytes else 0

  abbrev pub lopri_of : FlowMarker → Report Aux → ℕ
  lopri_of k r = if flow_keys.eq (agg k) a then r.info.cum_lopri_usage_bytes else 0

  -- The counters of the aggregate's entry.
  abbrev pub wip_counters : List (FlowMarker × AggWip Aux) → ℕ × ℕ
  wip_counters wips = elim (lookup a wips) [
    | none ↦ (0, 0)
    | some wip ↦ (wip.cum_hipri_usage_bytes, wip.cum_lopri_usage_bytes)
  ]

  -- A loop that adds the counters of its flows.
  abbrev AddsCounters : (ℕ × Report Aux → AggWip Aux → AggWip Aux) → Type 0
  AddsCounters add =
      (x : ℕ × Report Aux) (wip : AggWip Aux)
      → ((add x wip).cum_hipri_usage_bytes
          ≡ wip.cum_hipri_usage_bytes + x.1.info.cum_hipri_usage_bytes)
        × ((add x wip).cum_lopri_usage_bytes
            ≡ wip.cum_lopri_usage_bytes + x.1.info.cum_lopri_usage_bytes)

  counters-assign :
      (add : ℕ × Report Aux → AggWip Aux → AggWip Aux) (k : FlowMarker) (x : ℕ × Report Aux)
      (wips : List (FlowMarker × AggWip Aux))
      → AddsCounters add
      → let after = wip_counters (assign (agg k) (add x (get_agg_wip agg k wips)) wips) in
        (after.0 ≡ (wip_counters wips).0 + hipri_of k x.1)
        × (after.1 ≡ (wip_counters wips).1 + lopri_of k x.1)
  unfolding get_agg_wip
  counters-assign add k x wips h =
      let wip = get_agg_wip agg k wips in
      let v = add x wip in
      elim (Bool-cases (flow_keys.eq (agg k) a)) [
        | inl q ↦
            let p = flow_keys-exact (agg k) a q in
            ground (
              arith,
              q,
              lookup-assign (agg k) v wips,
              ap (λ j. lookup j (assign (agg k) v wips)) p,
              ap (λ j. lookup j wips) p,
              h x wip,
            )
        | inr q ↦ ground (
          arith,
          q,
          lookup-assign_other a (agg k) v wips,
          flow_keys.eq_common (agg k) a (agg k),
          flow_keys.eq_common a (agg k) a,
          flow_keys.eq_refl (agg k),
          flow_keys.eq_refl a,
        )
      ]

  add_flows-counters :
      (add : ℕ × Report Aux → AggWip Aux → AggWip Aux) (flows : TimedFlows Aux)
      (wips : List (FlowMarker × AggWip Aux))
      → AddsCounters add
      → let after = wip_counters (add_flows agg add flows wips) in
        (after.0 ≡ (wip_counters wips).0 + weight (λ k x. hipri_of k x.1) flows)
        × (after.1 ≡ (wip_counters wips).1 + weight (λ k x. lopri_of k x.1) flows)
  unfolding add_flows get_agg_wip
  add_flows-counters add [] wips h = (omega arith, omega arith)
  add_flows-counters add (x ∷ flows) wips h =
      let k = x.0 in
      let wip = get_agg_wip agg k wips in
      let one = counters-assign add k x.1 wips h in
      let rest = add_flows-counters add flows (assign (agg k) (add x.1 wip) wips) h in
      (omega (arith, one.0, rest.0), omega (arith, one.1, rest.1))

  -- The visit of a bundle adds to the aggregate what the bundle's last reports weigh, of active and of
  -- dead flows.
  pub add_bundle-counters :
      (id : ℕ) (bs : BundleState Aux) (wips : List (FlowMarker × AggWip Aux))
      → let after = wip_counters (add_bundle agg id wips bs).0 in
        (after.0 ≡ (wip_counters wips).0 + weigh hipri_of bs)
        × (after.1 ≡ (wip_counters wips).1 + weigh lopri_of bs)
  unfolding add_bundle add_active add_dead add_counters
  add_bundle-counters id bs wips =
      let active = add_flows agg add_active bs.active wips in
      let p = add_flows-counters add_active bs.active wips (λ x wip. (refl, refl)) in
      let q = add_flows-counters add_dead bs.dead active (λ x wip. (refl, refl)) in
      (omega (arith, p.0, q.0), omega (arith, p.1, q.1))
