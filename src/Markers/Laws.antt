-- ===== src/Markers/Laws.antt =====
-- What the comparisons of heyp/proto/alg.cc compare.
use heyp_agents.Prelude.Text.{bytes_eq_iff}
use heyp_agents.Prelude.Maps.{KeyEq}
use heyp_agents.Prelude.{sym, ◌∙◌, ◌≡◌, ◌↔◌, refl, true, false, ◌&&◌, [], if◌then◌else◌, arith}
use heyp_agents.Markers.{
  FlowMarker, CompareFlowOptions, is_same_flow, expected_fields_are_set,
  unexpected_fields_are_unset, eq_cluster_flow, to_cluster_flow, cluster_options,
}

-- What is left of a marker where the groups that are not compared are cleared.
abbrev pub cleared : CompareFlowOptions → FlowMarker → FlowMarker
cleared o m = record {
  src_dc = if o.cmp_fg then m.src_dc else [];
  dst_dc = if o.cmp_fg then m.dst_dc else [];
  job = if o.cmp_job then m.job else [];
  host_id = if o.cmp_src_host then m.host_id else 0;
  src_addr = if o.cmp_host_flow then m.src_addr else [];
  dst_addr = if o.cmp_host_flow then m.dst_addr else [];
  protocol = if o.cmp_host_flow then m.protocol else 0;
  src_port = if o.cmp_host_flow then m.src_port else 0;
  dst_port = if o.cmp_host_flow then m.dst_port else 0;
  seqnum = if o.cmp_seqnum then m.seqnum else 0;
}

-- Two flows are the same under some options exactly where their markers are equal once the groups
-- that the options leave out are cleared: so it is an equivalence, whatever the options.
pub is_same_flow_iff :
    (a b : FlowMarker) (o : CompareFlowOptions)
    → (is_same_flow a b o ≡ true) ↔ (cleared o a ≡ cleared o b)
unfolding is_same_flow
is_same_flow_iff a b o = ground (
  arith,
  bytes_eq_iff a.src_dc b.src_dc,
  bytes_eq_iff a.dst_dc b.dst_dc,
  bytes_eq_iff a.job b.job,
  bytes_eq_iff a.src_addr b.src_addr,
  bytes_eq_iff a.dst_addr b.dst_addr,
)

-- The keys of the hash maps that compare markers under some options.
unfoldable pub marker_keys : CompareFlowOptions → KeyEq FlowMarker
marker_keys o = record {
  eq = λ a b. is_same_flow a b o;
  eq_refl = λ a. (is_same_flow_iff a a o).1 refl;
  eq_common = λ a b c h k.
      (is_same_flow_iff a b o).1
        ((is_same_flow_iff a c o).0 h ∙ sym ((is_same_flow_iff b c o).0 k));
}

-- The markers that the aggregators make of a flow are what their comparisons compare.
pub eq_cluster_flow_iff :
    (a b : FlowMarker) → (eq_cluster_flow a b ≡ true) ↔ (to_cluster_flow a ≡ to_cluster_flow b)
unfolding eq_cluster_flow
eq_cluster_flow_iff a b = is_same_flow_iff a b cluster_options

-- A marker never passes both tests under options that compare the job: one test asks for a job, and
-- the other for none.
pub parent_is_never_valid :
    (m : FlowMarker) (o : CompareFlowOptions)
    → o.cmp_job ≡ true
    → (expected_fields_are_set m o && unexpected_fields_are_unset m o) ≡ false
unfolding expected_fields_are_set unexpected_fields_are_unset
parent_is_never_valid m o h = ground arith
