-- ===== src/Aggregator/States.antt =====
-- The loop over the aggregates of `FlowAggregator::ForEachAgg` (heyp/flows/aggregator.cc).
use heyp_agents.Prelude.Maps.{
  IsMap, matches-some, lookup, assign, lookup-assign, lookup-assign_other, lookup-common,
}
use heyp_agents.Prelude.{
  ℕ, ◌≤◌, ◌≡◌, refl, sym, ◌∙◌, subst, List, [], ◌∷◌, some, ltb, arith, All, Option-cases,
  Bool-cases, inl, inr,
}
use heyp_agents.Markers.{FlowMarker}
use heyp_agents.Flows.{Update, AggState, new_agg_state, update_usage, use_update}
use heyp_agents.Flows.Counters.{use_update-counters}
use heyp_agents.Aggregator.{
  flow_keys, AggWip, AggCall, Config, agg_update, get_agg_state, update_aggs,
}
use heyp_agents.Aggregator.Bundles.{flow_keys-exact}

-- A fact of each value that is looked up is one of each entry.
pub All-lookups :
    {V : Type 0} (P : FlowMarker → V → Type 0) (m : List (FlowMarker × V))
    → IsMap m
    → ((k : FlowMarker) (v : V) → lookup k m ≡ some v → P k v)
    → All (λ x. P x.0 x.1) m
All-lookups P [] h f = tt
All-lookups P (x ∷ m) h f = (
  f x.0 x.1 (ground (arith, flow_keys.eq_refl x.0)),
  All-lookups P m (λ k. ground (arith, h k))
      (λ k v q. f k v (ground (arith, q, h k, matches-some k v m q))),
)

module _ {Aux : Type 0} (sum_hipri sum_lopri : FlowMarker → ℕ) where
  abbrev pub IsBelow : FlowMarker → AggState Aux → Type 0
  IsBelow a s =
      (s.cur.cum_hipri_usage_bytes ≤ sum_hipri a) × (s.cur.cum_lopri_usage_bytes ≤ sum_lopri a)

  -- No state of an aggregate counts more than its flows report.
  abbrev pub AreBelow : List (FlowMarker × AggState Aux) → Type 0
  AreBelow states = (a : FlowMarker) (s : AggState Aux) → lookup a states ≡ some s → IsBelow a s

  abbrev pub HasSums : FlowMarker → AggWip Aux → Type 0
  HasSums a wip =
      (wip.cum_hipri_usage_bytes ≡ sum_hipri a) × (wip.cum_lopri_usage_bytes ≡ sum_lopri a)

  get_agg_state-IsBelow :
      (a : FlowMarker) (states : List (FlowMarker × AggState Aux))
      → AreBelow states
      → IsBelow a (get_agg_state a states)
  unfolding get_agg_state new_agg_state
  get_agg_state-IsBelow a states h = elim (Option-cases (lookup a states)) [
    | inl n ↦ ground (arith, n)
    | inr (s, n) ↦ ground (arith, n, h a s n)
  ]

  AreBelow-assign :
      (a : FlowMarker) (s : AggState Aux) (states : List (FlowMarker × AggState Aux))
      → IsBelow a s
      → AreBelow states
      → AreBelow (assign a s states)
  AreBelow-assign a s states i h b t q = elim (Bool-cases (flow_keys.eq b a)) [
    | inl e ↦
        let p : s ≡ t =
          ground (arith, q, lookup-common b a (assign a s states) e, lookup-assign a s states) in
        subst (IsBelow b) p (subst (λ k. IsBelow k s) (sym (flow_keys-exact b a e)) i)
    | inr e ↦ h b t (sym (lookup-assign_other b a s states e) ∙ q)
  ]

  agg_update-counters :
      (wip : AggWip Aux)
      → ((agg_update wip).cum_hipri_usage_bytes ≡ wip.cum_hipri_usage_bytes)
        × ((agg_update wip).cum_lopri_usage_bytes ≡ wip.cum_lopri_usage_bytes)
  unfolding agg_update
  agg_update-counters wip = (refl, refl)

  module _ (c : Config) where
    update_usage-IsBelow :
        (a : FlowMarker) (u : Update Aux) (s : AggState Aux)
        → IsBelow a s
        → u.cum_hipri_usage_bytes ≡ sum_hipri a
        → u.cum_lopri_usage_bytes ≡ sum_lopri a
        → (t : AggState Aux) × (update_usage c.math c.agg_demand_predictor c.usage_history_window u
              s
            ≡ some t)
          × IsBelow a t
    unfolding update_usage
    update_usage-IsBelow a u s i p q = elim (Bool-cases (ltb u.time s.updated_time)) [
      | inl e ↦ (s, ground (arith, e), i)
      | inr e ↦
          let k = use_update-counters c.math c.agg_demand_predictor c.usage_history_window u s in
          (
            use_update c.math c.agg_demand_predictor c.usage_history_window u s,
            ground (arith, e, i.0, i.1, p, q),
            (omega (arith, k.2, p), omega (arith, k.3, q)),
          )
    ]

    pub update_aggs-AreBelow :
        (wips : List (FlowMarker × AggWip Aux)) (states : List (FlowMarker × AggState Aux))
        → All (λ x. HasSums x.0 x.1) wips
        → AreBelow states
        → (r : List (FlowMarker × AggState Aux) × List (AggCall Aux)) × (update_aggs c wips states
            ≡ some r)
          × AreBelow r.0
    unfolding update_aggs
    update_aggs-AreBelow [] states w h = ((states, []), refl, h)
    update_aggs-AreBelow (x ∷ wips) states w h =
        let s = get_agg_state x.0 states in
        let u = agg_update x.1 in
        let k = agg_update-counters x.1 in
        let t =
          update_usage-IsBelow x.0 u s (get_agg_state-IsBelow x.0 states h) (k.0 ∙ w.0.0)
            (k.1 ∙ w.0.1) in
        let next = AreBelow-assign x.0 t.0 states t.2 h in
        let rest = update_aggs-AreBelow wips (assign x.0 t.0 states) w.1 next in
        let call : AggCall Aux = record {
          time = u.time;
          parent = record { flow = x.0; info = t.0.cur };
          children = x.1.children;
        } in
        ((rest.0.0, call ∷ rest.0.1), rw (update_aggs, t.1, rest.1) refl, rest.2)
