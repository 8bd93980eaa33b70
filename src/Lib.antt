-- ===== src/Lib.antt =====
-- A model of the C++ agents of this repository and theorems about it.
--
-- heyp-agents enforces bandwidth allocations for flow groups at two priorities, HIPRI and LOPRI. A
-- cluster agent aggregates the hosts' usage, admits bandwidth and picks the hosts to downgrade; a
-- host agent tracks flows and enforces limits through iptables and tc. The development models the
-- code that decides; sockets, subprocesses and logging stay outside.
--
-- Files and code:
-- - Prelude: shared names, Boolean tests, lists; Prelude/Order and Prelude/Algorithms: `operator<`
--   and the algorithms of the C++ standard library on it; Prelude/Double: doubles as a parameter,
--   with Prelude/Fixed as a concrete instance; Prelude/Text: bytes and decimal numbers.
-- - HashRing: heyp/alg/unordered-ids.h (`IdRange`) and heyp/alg/downgrade/hash-ring.h: `HashRing`
--   is the class, `update_frac`, `add`, `sub`, `matching_ranges`, `compute_range_diff` are its
--   methods. HashRing/Exact and HashRing/History prove, HashRing/Faults has inputs that break it.
-- - Iptables: heyp/host-agent/linux-enforcer/iptables-controller.{h,cc}. Iptables/Setting is
--   `SettingBatch::Setting`, Iptables/Rules is `AddRuleLinesToDelete` and `AddRuleLinesToAdd` with
--   the text of each line, Iptables/Controller is `ComputeDiff` and `Controller`, Iptables/Lookup is
--   `SettingsFindDscp`. `commit_changes` returns the new state, the status and the request to the
--   runner, whose answer is an argument. Iptables/Controller/Kernel is what `iptables-restore`, which is
--   not of this repository, documents: the text of a request is lines that delete or add a rule, and
--   they take effect together; the table counts rules by their text.
-- - Downgrade: heyp/alg/downgrade. Downgrade/Diff is `DiffDowngradeSelectorImpl::PickLOPRIChildren`
--   (iface.cc), Downgrade/Hashing is `HashingDowngradeSelector` on the ring of HashRing,
--   Downgrade/Greedy is `GreedyAssignToMinimizeGap`, Downgrade/ByDemand has the selectors of
--   impl-largest-first.cc and impl-heyp-sigcomm-20.cc. A bin is the children at one priority.
--   Downgrade/Knapsack is impl-knapsack-solver.cc with the solver as a parameter.
-- - Views: heyp/alg/agg-info-views.cc, the children of an aggregate by host (`host_level_view`) or by
--   job (`job_level_view`); Views/Index is about its map of jobs, Views/Groups about what it returns.
-- - Selector: `DowngradeSelector` of heyp/alg/qos-downgrade.cc. `SelectorImpl` is the interface that
--   the selectors of Downgrade fill, `get_selector` is `GetSelector`, `pick_lopri_hosts` is
--   `PickLOPRIChildren`; `none` is a check, or an unsupported type, that stops the process.
-- - Fairness: heyp/alg/fairness/max-min-fairness.cc. `compute_waterlevel` is
--   `SingleLinkMaxMinFairnessProblem::ComputeWaterlevel` with `kFullSort`; the partial-sort solver is
--   not modelled. Fairness/FullSort is about `SolveFullSort`, Fairness/Tiny about the loop that takes
--   tiny demands out, Fairness/Waterlevel about the whole; Fairness/Extra is `EvenlyDistributeExtra`
--   of heyp/alg/rate-limits.cc.
-- - Markers: heyp/proto/alg.cc (`IsSameFlow` and its kin) and heyp/flows/agg-marker.h. Hash maps with
--   such keys are association lists, Prelude/Maps.
-- - Tracker: `FlowTracker` of heyp/host-agent/flow-tracker.cc. `update_flows` is `UpdateFlows`: a round
--   of its loop is `update_round`, and the loop gets fuel, for which two rounds per update are proved
--   enough; `finalize_flows` is `FinalizeFlows`. `stops` and `none` are checks that stop the process.
-- - Flows: heyp/flows/state.cc. `AggState` is the class with its fields, `update_usage` is its
--   `UpdateUsage`, where `none` is a check that stops the process; Flows/Leaf is `LeafState`.
-- - Aggregator: heyp/flows/aggregator.cc on the map of Threads/ParIndexedMap and the states of Flows.
--   `update`, `get_bundler_id` and `for_each_agg` are the methods of `FlowAggregator`;
--   Aggregator/Bundles is about the maps of a bundle, Aggregator/Sums and Aggregator/Walk about what is
--   added up, Aggregator/States about the loop over the aggregates, Aggregator/Runs about sequences of
--   calls.
-- - Threads: heyp/threads/lossy-queue.h. A run is a sequence of whole calls, since each holds the
--   mutex; Threads/Delivery is about what readers get. Threads/ParIndexedMap is
--   heyp/threads/par-indexed-map.h: `get_id`, `on_id`, `for_each` and `best_effort_copy` are its
--   methods, and a client of it is a list of calls, each chosen by what was seen before.
-- - Datacenters: heyp/flows/dc-mapper.cc (Datacenters/Mapping) and heyp/host-agent/simulated-wan-db.cc
--   (Datacenters/Wan).
-- - Enforcer: `LinuxHostEnforcer` of heyp/host-agent/linux-enforcer/enforcer.cc on the controller of
--   Iptables. Enforcer/Traffic is `StageTrafficControlForFlow` with the lines for `tc`, Enforcer/Early
--   and Enforcer/Allocs are the stages of `EnforceAllocs`, Enforcer/WanSetup is `AllNetemConfigs`,
--   `InitSimulatedWan` and `ResetDeviceConfig`. A call returns the new state and what it sends; a
--   pointer to a priority is the flow of its entry and which of the two it is. Enforcer/Books is about
--   class ids and entries, Enforcer/Rates about one class over calls,
--   Enforcer/Uncreated about one that `tc` did not add, Enforcer/History about the
--   enforcer beside the kernel's table.
--
-- - Urls: `ParseHostPort` of heyp/host-agent/urls.cc. SocketStats: heyp/host-agent/parse-ss.cc, the
--   lines of `ss`; Abseil's number parsers and the generated `ParseFieldsSS` are parameters.
-- - Cluster: `FullClusterController` of heyp/cluster-agent/full-controller.cc on the aggregator, and
--   `BundleByHost` of heyp/cluster-agent/allocs.cc. `compute_and_broadcast` returns the calls of
--   listeners; Cluster/Broadcast is about these, Cluster/Intended about `LookupAlloc`. The allocator is
--   a parameter. Cluster/HostPattern is heyp/cluster-agent/per-agg-allocators/impl-fixed-host-pattern.cc.
-- - FastAggregator: the shards of heyp/cluster-agent/fast-aggregator.cc, `UpdateInfo` beside the tasks of
--   `CollectSnapshot` as interleaved steps; FastAggregator/Exchange has the proof. An exchange that fails
--   is tried again in a later step, and nothing is said of how soon one succeeds.
-- - FastController: the children of heyp/cluster-agent/fast-controller.cc. FastController/Selected is
--   `ForEachSelected`, FastController/Decisions is about the bundle that a child is sent.
--
-- Demands and counters are natural numbers: a sum that overflows `int64_t` is undefined in the
-- sources. But for `update_flows` each loop recurses on the list that the code walks.
--
-- Not modelled: the reporter that runs `ss`; what computes with doubles in the cluster agent's
-- allocators and fast controller; the feedback controller of heyp/alg/qos-downgrade.cc; and test
-- drivers, subprocesses, message I/O and copies of other projects.
mod Prelude
mod HashRing
mod Iptables
mod Downgrade
pub mod Fairness
pub mod Flows
pub mod Threads
pub mod Markers
pub mod Tracker
pub mod Views
pub mod Selector
pub mod Aggregator
pub mod Datacenters
pub mod Enforcer
pub mod Urls
pub mod SocketStats
pub mod Cluster
pub mod FastAggregator
pub mod FastController
