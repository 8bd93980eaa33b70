-- ===== src/Aggregator/Runs.antt =====
-- Sequences of calls of a `FlowAggregator` (heyp/flows/aggregator.cc).
use heyp_agents.Prelude.{ℕ, ◌<◌, ◌≡◌, refl, List, [], ◌∷◌, Option, none, some, arith}
use heyp_agents.Markers.{FlowMarker}
use heyp_agents.Threads.ParIndexedMap.{Span, new_map, value_at}
use heyp_agents.Threads.ParIndexedMap.Represents.{new_map-Represents}
use heyp_agents.Aggregator.{
  flow_keys, BundleState, InfoBundle, Config, FlowAggregator, new_bundle, get_bundler_id, update,
  for_each_agg,
}
use heyp_agents.Aggregator.Steps.{IsAggregator, for_each_agg-IsAggregator}
use heyp_agents.Aggregator.Reports.{IsGrown, update-IsAggregator, get_bundler_id-IsAggregator}

abbrev pub new_aggregator :
    {Aux : Type 0} → (ℕ → Option (Span (BundleState Aux))) → FlowAggregator Aux
new_aggregator memory = record { bundle_states = new_map memory; agg_states = [] }

-- A call of the aggregator.
pub data Op (Aux : Type 0) : Type 0 where
  asks : FlowMarker → Op Aux
  reports : ℕ → InfoBundle Aux → Op Aux
  sums : Op Aux

module _ {Aux : Type 0} (c : Config) where
  abbrev pub run_op : Op Aux → FlowAggregator Aux → Option (FlowAggregator Aux)
  run_op (asks bundler) a = elim (get_bundler_id c bundler a) [ none ↦ none | some y ↦ some y.1 ]
  run_op (reports id bundle) a = update c id bundle a
  run_op sums a = elim (for_each_agg c a) [ none ↦ none | some y ↦ some y.0 ]

  abbrev pub run_ops : List (Op Aux) → FlowAggregator Aux → Option (FlowAggregator Aux)
  run_ops [] a = some a
  run_ops (op ∷ ops) a = elim (run_op op a) [ none ↦ none | some b ↦ run_ops ops b ]

  -- A bundler asks while there is room; a report is made under an id that was given, of flows that
  -- are valid and whose counters are at least those that they reported last.
  abbrev pub IsFine : Op Aux → FlowAggregator Aux → Type 0
  IsFine (asks bundler) a = a.bundle_states.len < 1000000
  IsFine (reports id bundle) a =
      (bs : BundleState Aux) × (id < a.bundle_states.len)
      × (value_at a.bundle_states id ≡ some bs)
      × IsGrown c bundle bs
  IsFine sums a = Unit

  abbrev pub AreFine : List (Op Aux) → FlowAggregator Aux → Type 0
  AreFine [] a = Unit
  AreFine (op ∷ ops) a =
      IsFine op a × ((b : FlowAggregator Aux) → run_op op a ≡ some b → AreFine ops b)

  run_op-IsAggregator :
      (op : Op Aux) (a : FlowAggregator Aux)
      → IsAggregator c a
      → IsFine op a
      → (b : FlowAggregator Aux) × (run_op op a ≡ some b) × IsAggregator c b
  run_op-IsAggregator (asks bundler) a i f =
      let y = get_bundler_id-IsAggregator c bundler a i f in (y.0.1, rw (run_op, y.1) refl, y.2)
  run_op-IsAggregator (reports id bundle) a i f =
      update-IsAggregator c id bundle a f.0 i f.1 f.2 f.3
  run_op-IsAggregator sums a i f =
      let y = for_each_agg-IsAggregator c a i in (y.0.0, rw (run_op, y.1) refl, y.2)

  run_ops-IsAggregator :
      (ops : List (Op Aux)) (a : FlowAggregator Aux)
      → IsAggregator c a
      → AreFine ops a
      → (b : FlowAggregator Aux) × (run_ops ops a ≡ some b) × IsAggregator c b
  run_ops-IsAggregator [] a i f = (a, refl, i)
  run_ops-IsAggregator (op ∷ ops) a i f =
      let y = run_op-IsAggregator op a i f.0 in
      let z = run_ops-IsAggregator ops y.0 y.2 (f.1 y.0 y.1) in
      (z.0, rw (run_ops, y.1, z.1) refl, z.2)

  -- The calls of a new aggregator never stop the process, in any order, where bundlers ask for ids
  -- while there are fewer than a million, and reports are made under ids that were given, of valid
  -- flows whose counters are at least those they reported last: the counters of an aggregate, which
  -- are summed over its active and its dead flows of all bundlers, never fall below what the
  -- aggregate's state has counted, which `UpdateUsage` checks.
  pub run_ops-total :
      (memory : ℕ → Option (Span (BundleState Aux))) (ops : List (Op Aux))
      → AreFine ops (new_aggregator memory)
      → (b : FlowAggregator Aux) × (run_ops ops (new_aggregator memory) ≡ some b) × IsAggregator c b
  run_ops-total memory ops f =
      run_ops-IsAggregator ops (new_aggregator memory)
        ([], (new_map-Represents new_bundle memory, omega arith, tt, λ k s q. ground arith)) f
