-- ===== src/Aggregator/Steps.antt =====
-- What holds of a `FlowAggregator` (heyp/flows/aggregator.cc) between its calls, and `ForEachAgg`.
use heyp_agents.Prelude.{
  ◌-◌, ◌≤◌, ◌≡◌, refl, ap, ◌∙◌, true, List, [], length, none, some, leb, arith, if◌then◌else◌, All,
}
use heyp_agents.Markers.{FlowMarker}
use heyp_agents.Threads.ParIndexedMap.{ParIndexedMap, for_each}
use heyp_agents.Threads.ParIndexedMap.Represents.{Represents}
use heyp_agents.Threads.ParIndexedMap.Visits.{on_ids, for_each-on_ids}
use heyp_agents.Aggregator.{
  flow_keys, BundleState, AggWip, Config, AggCall, FlowAggregator, new_bundle, add_bundle,
  for_each_agg,
}
use heyp_agents.Aggregator.Bundles.{IsBundle}
use heyp_agents.Aggregator.Walk.{walk, on_ids-walk, walk-sums, walk-IsMap, sum_hipri, sum_lopri}
use heyp_agents.Aggregator.States.{All-lookups, AreBelow, HasSums, update_aggs-AreBelow}

module _ {Aux : Type 0} (c : Config) where
  -- The bundles that the aggregator has, each flow of them in one map, and no aggregate counts more
  -- than they report.
  abbrev pub IsAggregatorOf : List (FlowMarker × BundleState Aux) → FlowAggregator Aux → Type 0
  IsAggregatorOf l a =
      Represents new_bundle l a.bundle_states
      × (length l ≤ 1000000)
      × All (λ x. IsBundle x.1) l
      × AreBelow (λ k. sum_hipri c.get_agg_flow_fn k l) (λ k. sum_lopri c.get_agg_flow_fn k l)
          a.agg_states

  abbrev pub IsAggregator : FlowAggregator Aux → Type 0
  IsAggregator a = (l : List (FlowMarker × BundleState Aux)) × IsAggregatorOf l a

  wips_of : List (FlowMarker × BundleState Aux) → List (FlowMarker × AggWip Aux)
  wips_of l = walk new_bundle (add_bundle c.get_agg_flow_fn) (length l) 0 [] l

  wips_of-HasSums :
      (l : List (FlowMarker × BundleState Aux))
      → All
          (λ x.
            HasSums
              (λ k. sum_hipri c.get_agg_flow_fn k l)
              (λ k. sum_lopri c.get_agg_flow_fn k l)
              x.0
              x.1)
          (wips_of l)
  unfolding wips_of
  wips_of-HasSums l =
      All-lookups _ (wips_of l)
        (walk-IsMap new_bundle c.get_agg_flow_fn (length l) 0 [] l (λ k. omega arith))
        (λ k wip q.
          let s = walk-sums new_bundle c.get_agg_flow_fn k l in
          (ground (arith, q, s.0), ground (arith, q, s.1)))

  visit_bundles :
      (l : List (FlowMarker × BundleState Aux)) (m : ParIndexedMap FlowMarker (BundleState Aux))
      → Represents new_bundle l m
      → length l ≤ 1000000
      → (n : ParIndexedMap FlowMarker (BundleState Aux)) × (for_each
            (add_bundle c.get_agg_flow_fn)
            0
            m.len
            ([], m)
          ≡ some (wips_of l, n))
        × Represents new_bundle l n
  unfolding wips_of add_bundle
  visit_bundles l m r b =
      let func = add_bundle c.get_agg_flow_fn in
      let w = on_ids-walk new_bundle func (length l) 0 [] l m r b (omega arith) (λ i s v. refl) in
      let e : m.len - 0 ≡ length l = omega (arith, r.0) in
      let t : leb m.len m.len ≡ true = ground arith in
      (
        w.0,
        for_each-on_ids func 0 m.len [] m
            ∙ ap (λ k. if k then on_ids func (m.len - 0) 0 ([], m) else none) t
            ∙ ap (λ k. on_ids func k 0 ([], m)) e
            ∙ w.1,
        w.2,
      )

  pub for_each_agg-IsAggregator :
      (a : FlowAggregator Aux)
      → IsAggregator a
      → (r : FlowAggregator Aux × List (AggCall Aux)) × (for_each_agg c a ≡ some r)
        × IsAggregator r.0
  unfolding for_each_agg
  for_each_agg-IsAggregator a (l, (r, b, i, s)) =
      let v = visit_bundles l a.bundle_states r b in
      let u = update_aggs-AreBelow _ _ c (wips_of l) a.agg_states (wips_of-HasSums l) s in
      (
        (record { bundle_states = v.0; agg_states = u.0.0 }, u.0.1),
        rw (for_each_agg, v.1, u.1) refl,
        (l, (v.2, b, i, u.2)),
      )
