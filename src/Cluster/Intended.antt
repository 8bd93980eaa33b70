-- ===== src/Cluster/Intended.antt =====
-- The priority that the last broadcast of heyp/cluster-agent/full-controller.cc meant for a flow.
use heyp_agents.Prelude.Maps.{lookup, lookup-assign_if, extend, extend_append, extend-nil}
use heyp_agents.Markers.{is_same_flow, cluster_options}
use heyp_agents.Prelude.{Bool, ltb, Bool-cases, inl, inr}
use heyp_agents.Prelude.{
  ℕ, List, [], ◌∷◌, ◌++◌, ◌==◌, Option, none, some, map, if◌then◌else◌, ◌≡◌, refl, ap, sym, ◌∙◌,
  arith, Option-cases,
}
use mathlib.Core.List.{append_assoc}
use heyp_agents.Markers.{FlowMarker}
use heyp_agents.Enforcer.{FlowAlloc}
use heyp_agents.Cluster.{
  BundleMap, id_keys, add_to_host, add_set, add_sets, bundle_by_host, find_alloc, lookup_alloc,
  in_bundle, or_no_allocs, FullController, Call, compute_and_broadcast, broadcast, with_qos,
  intended,
}
use heyp_agents.Flows.{FlowInfo}
use heyp_agents.Aggregator.{Report, AggCall, FlowAggregator, Config, for_each_agg}

-- The allocations of all sets, in order, and those for one host.
unfoldable pub all_allocs : List (List FlowAlloc) → List FlowAlloc
all_allocs [] = []
all_allocs (allocs ∷ sets) = allocs ++ all_allocs sets

unfoldable pub for_host : ℕ → List FlowAlloc → List FlowAlloc
for_host host [] = []
for_host host (a ∷ allocs) =
    if a.flow.host_id == host then a ∷ for_host host allocs else for_host host allocs

for_host-append :
    (host : ℕ) (k l : List FlowAlloc) → for_host host (k ++ l) ≡ for_host host k ++ for_host host l
unfolding for_host
for_host-append host [] l = refl
for_host-append host (a ∷ k) l = ground (arith, for_host-append host k l)

lookup-add_to_host :
    (host : ℕ) (m : BundleMap) (a : FlowAlloc)
    → lookup host (add_to_host m a)
      ≡ extend (lookup host m) (if a.flow.host_id == host then a ∷ [] else [])
unfolding id_keys
lookup-add_to_host host m a = ground (
  arith,
  Option-cases (lookup a.flow.host_id m),
  extend-nil (lookup host m),
  lookup-assign_if host a.flow.host_id (or_no_allocs (lookup a.flow.host_id m) ++ a ∷ []) m,
)

lookup-add_set :
    (host : ℕ) (m : BundleMap) (allocs : List FlowAlloc)
    → lookup host (add_set m allocs) ≡ extend (lookup host m) (for_host host allocs)
unfolding add_set for_host
lookup-add_set host m [] = sym (extend-nil (lookup host m))
lookup-add_set host m (a ∷ allocs) = ground (
  arith,
  lookup-add_set host (add_to_host m a) allocs,
  lookup-add_to_host host m a,
  extend_append (lookup host m) a (for_host host allocs),
  extend-nil (lookup host m),
)

extend-append :
    (o : Option (List FlowAlloc)) (k l : List FlowAlloc) → extend (extend o k) l ≡ extend o (k ++ l)
extend-append none [] l = refl
extend-append none (x ∷ k) l = refl
extend-append (some old) k l = ap some (append_assoc old k l)

lookup-add_sets :
    (host : ℕ) (m : BundleMap) (sets : List (List FlowAlloc))
    → lookup host (add_sets m sets) ≡ extend (lookup host m) (for_host host (all_allocs sets))
unfolding add_sets all_allocs for_host
lookup-add_sets host m [] = sym (extend-nil (lookup host m))
lookup-add_sets host m (allocs ∷ sets) =
    lookup-add_sets host (add_set m allocs) sets
    ∙ ap (λ o. extend o (for_host host (all_allocs sets))) (lookup-add_set host m allocs)
    ∙ extend-append (lookup host m) (for_host host allocs) (for_host host (all_allocs sets))
    ∙ ap (extend (lookup host m)) (sym (for_host-append host allocs (all_allocs sets)))

-- The bundle of a host has the allocations for it of all sets, in their order, and a host with no
-- allocation has no bundle.
pub bundle_by_host-for_host :
    (sets : List (List FlowAlloc)) (host : ℕ)
    → lookup host (bundle_by_host sets) ≡ extend none (for_host host (all_allocs sets))
unfolding bundle_by_host
bundle_by_host-for_host sets host = lookup-add_sets host [] sets

find_alloc-extend :
    (flow : FlowMarker) (l : List FlowAlloc) → in_bundle flow (extend none l) ≡ find_alloc flow l
unfolding find_alloc
find_alloc-extend flow [] = refl
find_alloc-extend flow (a ∷ l) = refl

-- What is found in the bundles of a broadcast.
compute_and_broadcast-lookup_alloc :
    {Aux F : Type 0} (c : Config) (alloc_agg : AggCall Aux → List FlowAlloc)
    (finished : List (List FlowAlloc) → List (List FlowAlloc)) (s : FullController Aux F)
    (r : FlowAggregator Aux × List (AggCall Aux)) (host : ℕ) (flow : FlowMarker)
    → for_each_agg c s.aggregator ≡ some r
    → (s' : FullController Aux F) × (calls : List (Call F)) × (compute_and_broadcast c alloc_agg
          finished s
        ≡ some (s', calls))
      × (lookup_alloc s'.last_alloc_bundle host flow
          ≡ find_alloc flow (for_host host (all_allocs (finished (map alloc_agg (r.1))))))
unfolding lookup_alloc compute_and_broadcast
compute_and_broadcast-lookup_alloc c alloc_agg finished s (a, aggs) host flow e =
    let sets = finished (map alloc_agg aggs) in
    let bundles = bundle_by_host sets in
    (
      record s { aggregator = a; last_alloc_bundle = bundles },
      broadcast s.new_bundle_funcs bundles,
      rw (e, compute_and_broadcast) refl,
      ap (in_bundle flow) (bundle_by_host-for_host sets host)
          ∙ find_alloc-extend flow (for_host host (all_allocs sets)),
    )

-- The first allocation for the aggregate of a flow.
unfoldable pub first_for : FlowMarker → List FlowAlloc → Option FlowAlloc
unfolding is_same_flow
first_for flow [] = none
first_for flow (a ∷ allocs) =
    if is_same_flow a.flow flow cluster_options then some a else first_for flow allocs

-- At LOPRI where the limit for it is positive, and as reported where there is no allocation.
abbrev pub priority_told : Option FlowAlloc → Bool → Bool
priority_told none reported = reported
priority_told (some a) reported = ltb 0 a.lopri_rate_limit_bps

with_qos-told :
    {Aux : Type 0} (flow : FlowMarker) (allocs : List FlowAlloc) (fi : FlowInfo Aux)
    → with_qos (find_alloc flow allocs) fi
      ≡ record fi { currently_lopri = priority_told (first_for flow allocs) fi.currently_lopri }
unfolding find_alloc first_for
with_qos-told flow [] fi = refl
with_qos-told flow (a ∷ allocs) fi = elim (Bool-cases (is_same_flow a.flow flow cluster_options)) [
  | inl p ↦ elim (Bool-cases (ltb 0 a.lopri_rate_limit_bps)) [
    | inl q ↦ rw (p, q) refl
    | inr q ↦ rw (p, q) refl
  ]
  | inr p ↦ rw p (with_qos-told flow allocs fi)
]

-- After a broadcast, a report of a host's flow is passed on with the priority of the first allocation
-- for the flow's aggregate, of those for the host in the order in which the allocator's tasks finished:
-- at LOPRI where it has a positive LOPRI limit, else at HIPRI, and as reported where there is none. Its
-- usage by priority is reset, and all else is as reported.
pub compute_and_broadcast-intended :
    {Aux F : Type 0} (c : Config) (alloc_agg : AggCall Aux → List FlowAlloc)
    (finished : List (List FlowAlloc) → List (List FlowAlloc)) (s : FullController Aux F)
    (r : FlowAggregator Aux × List (AggCall Aux)) (host : ℕ) (report : Report Aux)
    → for_each_agg c s.aggregator ≡ some r
    → (s' : FullController Aux F) × (calls : List (Call F)) × (compute_and_broadcast c alloc_agg
          finished s
        ≡ some (s', calls))
      × (intended s'.last_alloc_bundle host report ≡ record report {
        info = record (report.info) {
          ewma_hipri_usage_bps = 0;
          ewma_lopri_usage_bps = 0;
          currently_lopri =
              priority_told
                (first_for report.flow
                  (for_host host (all_allocs (finished (map alloc_agg (r.1))))))
                report.info.currently_lopri;
        };
      })
unfolding intended
compute_and_broadcast-intended c alloc_agg finished s r host report e =
    let (s', calls, q, l) =
      compute_and_broadcast-lookup_alloc c alloc_agg finished s r host report.flow e in
    let allocs = for_host host (all_allocs (finished (map alloc_agg (r.1)))) in
    let reset = record (report.info) { ewma_hipri_usage_bps = 0; ewma_lopri_usage_bps = 0 } in
    (
      s',
      calls,
      q,
      ap (λ qos. record report { info = with_qos qos reset }) l
          ∙ ap (λ i. record report { info = i }) (with_qos-told report.flow allocs reset),
    )
