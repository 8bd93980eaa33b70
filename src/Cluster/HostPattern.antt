-- ===== src/Cluster/HostPattern.antt =====
-- `FixedHostPatternAllocator` of heyp/cluster-agent/per-agg-allocators/impl-fixed-host-pattern.cc, and
-- `ToAdmissionsMap` of heyp/cluster-agent/per-agg-allocators/util.cc. Numbers of hosts are natural
-- numbers.
use heyp_agents.Prelude.Maps.{KeyEq, lookup, assign}
use heyp_agents.Prelude.{
  ℕ, zero, suc, ◌+◌, ◌%◌, ◌<◌, List, [], ◌∷◌, ◌++◌, Option, none, some, length, get_elem?, ◌≡◌, ◌⊎◌,
  inl, inr, refl, ap, sym, ◌∙◌, arith,
}
use heyp_agents.Markers.{FlowMarker, cluster_options}
use heyp_agents.Markers.Laws.{marker_keys}
use heyp_agents.Enforcer.{FlowAlloc}

-- `ClusterFlowMap`.
instance unfoldable pub cluster_keys : KeyEq FlowMarker
unfolding marker_keys
cluster_keys = marker_keys cluster_options

-- A later allocation for the same aggregate takes the place of an earlier one.
unfoldable pub add_admissions :
    List (FlowMarker × FlowAlloc) → List FlowAlloc → List (FlowMarker × FlowAlloc)
add_admissions admissions [] = admissions
add_admissions admissions (a ∷ allocs) = add_admissions (assign a.flow a admissions) allocs

unfoldable pub to_admissions_map : List FlowAlloc → List (FlowMarker × FlowAlloc)
unfolding add_admissions
to_admissions_map allocs = add_admissions [] allocs

-- `FlowAllocAndCount`.
pub record AllocAndCount : Type 0 where
  pub alloc : FlowAlloc
  pub num_hosts : ℕ

abbrev pub Snapshot : Type 0
Snapshot = List AllocAndCount

-- The pairs from the one that the iterator stands at, and what remains of this one.
pub record SnapshotHostIter : Type 0 where
  pub pairs : Snapshot
  pub pair_remaining : ℕ

abbrev first_count : Snapshot → ℕ
first_count [] = 0
first_count (p ∷ pairs) = p.num_hosts

unfoldable pub new_snapshot_host_iter : Snapshot → SnapshotHostIter
new_snapshot_host_iter snapshot = record { pairs = snapshot; pair_remaining = first_count snapshot }

-- The loop of `Next`; it moves on where nothing remains of a pair.
unfoldable pub next_alloc : Snapshot → ℕ → FlowAlloc → FlowAlloc × SnapshotHostIter
next_alloc [] remaining empty_alloc =
    (empty_alloc, record { pairs = []; pair_remaining = remaining })
next_alloc (p ∷ pairs) zero empty_alloc = next_alloc pairs (first_count pairs) empty_alloc
next_alloc (p ∷ pairs) (suc remaining) empty_alloc =
    (p.alloc, record { pairs = p ∷ pairs; pair_remaining = remaining })

abbrev pub no_alloc : FlowMarker → FlowAlloc
no_alloc flow = record { flow = flow; hipri_rate_limit_bps = 0; lopri_rate_limit_bps = 0 }

-- The loop of `AllocAgg` over the children's flows.
unfoldable pub alloc_children : FlowMarker → List FlowMarker → SnapshotHostIter → List FlowAlloc
unfolding next_alloc
alloc_children empty [] iter = []
alloc_children empty (flow ∷ children) iter =
    let n = next_alloc iter.pairs iter.pair_remaining (no_alloc empty) in
    (record (n.0) { flow = flow }) ∷ alloc_children empty children (n.1)

-- `alloc_patterns_` with the snapshots of each cluster, and `next_`.
pub record FixedHostPatternAllocator : Type 0 where
  pub alloc_patterns : List (FlowMarker × List Snapshot)
  pub next : ℕ

abbrev snapshot_allocs : FlowMarker → List FlowMarker → Option Snapshot → List FlowAlloc
snapshot_allocs empty children none = []
snapshot_allocs empty children (some snapshot) =
    alloc_children empty children (new_snapshot_host_iter snapshot)

abbrev pattern_allocs :
    FlowMarker
    → List FlowMarker
    → FixedHostPatternAllocator
    → Option (List Snapshot)
    → FixedHostPatternAllocator × List FlowAlloc
pattern_allocs empty children s none = (s, [])
pattern_allocs empty children s (some []) = (s, [])
pattern_allocs empty children s (some (x ∷ snapshots)) = (
  record s { next = s.next + 1 },
  snapshot_allocs empty children (get_elem? (x ∷ snapshots) (s.next % length (x ∷ snapshots))),
)

-- `empty` is the marker of a default message, which is replaced in every result.
unfoldable pub alloc_agg :
    FlowMarker
    → FlowMarker
    → List FlowMarker
    → FixedHostPatternAllocator
    → FixedHostPatternAllocator × List FlowAlloc
unfolding alloc_children new_snapshot_host_iter
alloc_agg empty parent children s = pattern_allocs empty children s (lookup parent s.alloc_patterns)

-- The allocations of a snapshot written out, each as often as it has hosts.
unfoldable pub repeat : ℕ → FlowAlloc → List FlowAlloc
repeat zero a = []
repeat (suc n) a = a ∷ repeat n a

unfoldable pub written_out : Snapshot → List FlowAlloc
written_out [] = []
written_out (p ∷ pairs) = repeat p.num_hosts p.alloc ++ written_out pairs

-- The n-th child gets the n-th of these, and no rate where there are fewer.
unfoldable pub hand_out : List FlowMarker → List FlowAlloc → List FlowAlloc
hand_out [] allocs = []
hand_out (flow ∷ children) [] = no_alloc flow ∷ hand_out children []
hand_out (flow ∷ children) (a ∷ allocs) = (record a { flow = flow }) ∷ hand_out children allocs

abbrev rest_of : Snapshot → ℕ → List FlowAlloc
rest_of [] remaining = []
rest_of (p ∷ pairs) remaining = repeat remaining p.alloc ++ written_out pairs

abbrev left_over : SnapshotHostIter → List FlowAlloc
left_over iter = rest_of iter.pairs iter.pair_remaining

-- `Next` takes the first of what is left, also past pairs that have no hosts.
next_alloc_lem :
    (pairs : Snapshot) (remaining : ℕ) (empty : FlowAlloc)
    → let n = next_alloc pairs remaining empty in
      ((rest_of pairs remaining ≡ []) × (n.0 ≡ empty) × (left_over (n.1) ≡ []))
      ⊎ (rest_of pairs remaining ≡ n.0 ∷ left_over (n.1))
unfolding next_alloc repeat written_out
next_alloc_lem [] remaining empty = inl (refl, refl, refl)
next_alloc_lem (p ∷ pairs) (suc remaining) empty = inr refl
next_alloc_lem (p ∷ []) zero empty = inl (refl, refl, refl)
next_alloc_lem (p ∷ q ∷ pairs) zero empty = next_alloc_lem (q ∷ pairs) q.num_hosts empty

abbrev with_flow : FlowMarker → FlowAlloc → FlowAlloc
with_flow flow a = record a { flow = flow }

alloc_children_lem :
    (empty : FlowMarker) (children : List FlowMarker) (iter : SnapshotHostIter)
    → alloc_children empty children iter ≡ hand_out children (left_over iter)
unfolding alloc_children hand_out
alloc_children_lem empty [] iter = refl
alloc_children_lem empty (flow ∷ children) iter =
    let n = next_alloc iter.pairs iter.pair_remaining (no_alloc empty) in
    let rest = alloc_children_lem empty children (n.1) in
    elim (next_alloc_lem iter.pairs iter.pair_remaining (no_alloc empty)) [
      | inl (e, a, l) ↦
          ap (λ t. with_flow flow (n.0) ∷ t) (rest ∙ ap (hand_out children) l)
          ∙ ap (λ h. with_flow flow h ∷ hand_out children []) a
          ∙ sym (ap (hand_out (flow ∷ children)) e)
      | inr e ↦ ap (λ t. with_flow flow (n.0) ∷ t) rest ∙ sym (ap (hand_out (flow ∷ children)) e)
    ]

left_over-new :
    (snapshot : Snapshot) → left_over (new_snapshot_host_iter snapshot) ≡ written_out snapshot
unfolding new_snapshot_host_iter written_out
left_over-new [] = refl
left_over-new (p ∷ pairs) = refl

elem_in_range :
    {A : Type 0} (l : List A) (i : ℕ) → i < length l → (x : A) × (get_elem? l i ≡ some x)
elem_in_range [] i h = absurd (omega arith)
elem_in_range (x ∷ l) zero h = (x, refl)
elem_in_range (x ∷ l) (suc i) h = elem_in_range l i (omega (arith, h))

in_pattern :
    (empty : FlowMarker) (children : List FlowMarker) (s : FixedHostPatternAllocator)
    (snapshots : List Snapshot)
    → 0 < length snapshots
    → (snapshot : Snapshot) × (get_elem? snapshots (s.next % length snapshots) ≡ some snapshot)
      × (pattern_allocs empty children s (some snapshots)
          ≡ (record s { next = s.next + 1 }, hand_out children (written_out snapshot)))
in_pattern empty children s [] h = absurd (omega arith)
in_pattern empty children s (x ∷ snapshots) h =
    let (snapshot, e) =
      elem_in_range (x ∷ snapshots) (s.next % length (x ∷ snapshots)) (grind arith) in
    (
      snapshot,
      e,
      ap (λ o. (record s { next = s.next + 1 }, snapshot_allocs empty children o)) e
          ∙ ap (λ l. (record s { next = s.next + 1 }, l))
              (alloc_children_lem empty children (new_snapshot_host_iter snapshot)
                ∙ ap (hand_out children) (left_over-new snapshot)),
    )

-- A call for an aggregate whose pattern has snapshots takes the one at the value of the counter, modulo
-- their number, and increases the counter, which all aggregates share: the n-th child gets the n-th
-- allocation of the snapshot written out, each as often as it has hosts, and no rate where there are
-- fewer.
pub alloc_agg-hand_out :
    (empty parent : FlowMarker) (children : List FlowMarker) (s : FixedHostPatternAllocator)
    (snapshots : List Snapshot)
    → lookup parent s.alloc_patterns ≡ some snapshots
    → 0 < length snapshots
    → (snapshot : Snapshot) × (get_elem? snapshots (s.next % length snapshots) ≡ some snapshot)
      × (alloc_agg empty parent children s
          ≡ (record s { next = s.next + 1 }, hand_out children (written_out snapshot)))
unfolding alloc_agg
alloc_agg-hand_out empty parent children s snapshots q h =
    let (snapshot, e, r) = in_pattern empty children s snapshots h in
    (snapshot, e, ap (pattern_allocs empty children s) q ∙ r)
