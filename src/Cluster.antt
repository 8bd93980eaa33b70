-- ===== src/Cluster.antt =====
-- `FullClusterController` of heyp/cluster-agent/full-controller.cc and `BundleByHost` of
-- heyp/cluster-agent/allocs.cc. The allocator is an interface: its answer to each aggregate is a
-- function, and the order in which its tasks finish is an argument. A listener's function is a value.
pub mod Intended
pub mod Broadcast
pub mod HostPattern
mod Tests
use heyp_agents.Prelude.Maps.{KeyEq, lookup, assign, erase}
use heyp_agents.Prelude.{
  ℕ, ◌+◌, Bool, true, false, not, ◌&&◌, ◌||◌, List, [], ◌∷◌, ◌++◌, ◌==◌, Option, none, some, map,
  ltb, if◌then◌else◌, ◌≡◌, arith,
}
use heyp_agents.Markers.{FlowMarker, is_same_flow, cluster_options}
use heyp_agents.Flows.{FlowInfo}
use heyp_agents.Aggregator.{
  Report, InfoBundle, AggCall, FlowAggregator, Config, update, for_each_agg,
}
use heyp_agents.Enforcer.{FlowAlloc}

==_refl : (k : ℕ) → (k == k) ≡ true
==_refl k = ground arith

==_common : (a b c : ℕ) → (a == c) ≡ true → (b == c) ≡ true → (a == b) ≡ true
==_common a b c h k = ground arith

instance unfoldable pub id_keys : KeyEq ℕ
unfolding ==_refl ==_common
id_keys = record { eq = λ a b. a == b; eq_refl = ==_refl; eq_common = ==_common }

-- `flow_allocs` of the bundle of each host.
abbrev pub BundleMap : Type 0
BundleMap = List (ℕ × List FlowAlloc)

abbrev pub or_no_allocs : Option (List FlowAlloc) → List FlowAlloc
or_no_allocs none = []
or_no_allocs (some allocs) = allocs

abbrev pub add_to_host : BundleMap → FlowAlloc → BundleMap
add_to_host by_host a =
    let host_id = a.flow.host_id in
    assign host_id (or_no_allocs (lookup host_id by_host) ++ a ∷ []) by_host

unfoldable pub add_set : BundleMap → List FlowAlloc → BundleMap
add_set by_host [] = by_host
add_set by_host (a ∷ allocs) = add_set (add_to_host by_host a) allocs

unfoldable pub add_sets : BundleMap → List (List FlowAlloc) → BundleMap
add_sets by_host [] = by_host
add_sets by_host (allocs ∷ partial_sets) = add_sets (add_set by_host allocs) partial_sets

unfoldable pub bundle_by_host : List (List FlowAlloc) → BundleMap
unfolding add_sets add_set
bundle_by_host partial_sets = add_sets [] partial_sets

-- What `LookupAlloc` returns as 0, 1 and 2.
pub data AllocQos : Type 0 where
  uses_hipri uses_lopri not_found : AllocQos

unfoldable pub find_alloc : FlowMarker → List FlowAlloc → AllocQos
unfolding is_same_flow
find_alloc flow [] = not_found
find_alloc flow (alloc ∷ allocs) =
    if is_same_flow alloc.flow flow cluster_options
    then if ltb 0 alloc.lopri_rate_limit_bps then uses_lopri else uses_hipri
    else find_alloc flow allocs

abbrev pub in_bundle : FlowMarker → Option (List FlowAlloc) → AllocQos
in_bundle flow none = not_found
in_bundle flow (some allocs) = find_alloc flow allocs

unfoldable pub lookup_alloc : BundleMap → ℕ → FlowMarker → AllocQos
unfolding find_alloc
lookup_alloc bundles host_id flow = in_bundle flow (lookup host_id bundles)

-- A registration: the host, and the id among its functions.
pub record Listener : Type 0 where
  pub host_id : ℕ
  pub lis_id : ℕ

-- A call of a listener's function.
pub record Call (F : Type 0) : Type 0 where
  pub listener : Listener
  pub on_new_bundle_func : F
  pub bundle : List FlowAlloc

pub record FullController (Aux : Type 0) (F : Type 0) : Type 0 where
  pub aggregator : FlowAggregator Aux
  pub last_alloc_bundle : BundleMap
  pub new_bundle_funcs : List (ℕ × List (ℕ × F))
  pub next_lis_id : ℕ

module _ {F : Type 0} where
  abbrev pub or_no_funcs : Option (List (ℕ × F)) → List (ℕ × F)
  or_no_funcs none = []
  or_no_funcs (some funcs) = funcs

  -- The inner loop of the broadcast, for one host.
  abbrev pub host_calls : ℕ → List FlowAlloc → List (ℕ × F) → List (Call F)
  host_calls host bundle [] = []
  host_calls host bundle (x ∷ funcs) =
      (record {
        listener = record { host_id = host; lis_id = x.0 };
        on_new_bundle_func = x.1;
        bundle = bundle;
      })
      ∷ host_calls host bundle funcs

  unfoldable pub broadcast : List (ℕ × List (ℕ × F)) → BundleMap → List (Call F)
  broadcast new_bundle_funcs [] = []
  broadcast new_bundle_funcs (x ∷ bundles) =
      host_calls (x.0) (x.1) (or_no_funcs (lookup (x.0) new_bundle_funcs))
      ++ broadcast new_bundle_funcs bundles

module _ {Aux : Type 0} where
  abbrev pub with_qos : AllocQos → FlowInfo Aux → FlowInfo Aux
  with_qos uses_hipri fi = record fi { currently_lopri = false }
  with_qos uses_lopri fi = record fi { currently_lopri = true }
  with_qos not_found fi = fi

  -- The loop body of `UpdateInfo`: the usage by priority is reset.
  unfoldable pub intended : BundleMap → ℕ → Report Aux → Report Aux
  unfolding lookup_alloc
  intended last_alloc_bundle host_id r = record r {
    info =
        with_qos (lookup_alloc last_alloc_bundle host_id r.flow)
          (record (r.info) { ewma_hipri_usage_bps = 0; ewma_lopri_usage_bps = 0 });
  }

  unfoldable pub with_intended_qos : BundleMap → ℕ → InfoBundle Aux → InfoBundle Aux
  unfolding intended
  with_intended_qos last_alloc_bundle host_id info = record info {
    flow_infos = map (intended last_alloc_bundle host_id) info.flow_infos;
  }

module _ {Aux : Type 0} {F : Type 0} (c : Config) where
  -- `UpdateInfo`, where the bundler's host is `host_id`.
  unfoldable pub update_info :
      ℕ → ℕ → InfoBundle Aux → FullController Aux F → Option (FullController Aux F)
  unfolding with_intended_qos
  update_info bundler_id host_id info s =
      elim (update c bundler_id (with_intended_qos s.last_alloc_bundle host_id info) s.aggregator) [
        | none ↦ none
        | some a ↦ some (record s { aggregator = a })
      ]

  -- `ComputeAndBroadcast`: the state after it and the calls of listeners. The sets of the aggregates
  -- stand in the order in which the tasks of the allocator finish.
  unfoldable pub compute_and_broadcast :
      (AggCall Aux → List FlowAlloc)
      → (List (List FlowAlloc) → List (List FlowAlloc))
      → FullController Aux F
      → Option (FullController Aux F × List (Call F))
  unfolding bundle_by_host broadcast
  compute_and_broadcast alloc_agg finished s = elim (for_each_agg c s.aggregator) [
    | none ↦ none
    | some (a, calls) ↦
        let alloc_bundles = bundle_by_host (finished (map alloc_agg calls)) in
        some (
          record s { aggregator = a; last_alloc_bundle = alloc_bundles },
          broadcast s.new_bundle_funcs alloc_bundles,
        )
  ]

module _ {Aux : Type 0} {F : Type 0} where
  unfoldable pub register_listener : ℕ → F → FullController Aux F → Listener × FullController Aux F
  register_listener host_id on_new_bundle_func s = (
    record { host_id = host_id; lis_id = s.next_lis_id },
    record s {
      new_bundle_funcs =
          assign host_id
            (assign s.next_lis_id on_new_bundle_func
              (or_no_funcs (lookup host_id s.new_bundle_funcs)))
            s.new_bundle_funcs;
      next_lis_id = s.next_lis_id + 1;
    },
  )

  -- The destructor of a listener that is registered, which does nothing for the host with id 0.
  unfoldable pub remove_listener : Listener → FullController Aux F → FullController Aux F
  remove_listener lis s = if lis.host_id == 0 then s else record s {
    new_bundle_funcs =
        assign lis.host_id (erase lis.lis_id (or_no_funcs (lookup lis.host_id s.new_bundle_funcs)))
          s.new_bundle_funcs;
  }
