-- ===== src/Markers.antt =====
-- heyp/proto/alg.{h,cc} and heyp/flows/agg-marker.h: `FlowMarker`s, compared in part. The message is
-- that of heyp/proto/heyp.proto; a port is an `int32_t` by its bits.
pub mod Laws
mod Tests
use heyp_agents.Prelude.Text.{Bytes, bytes_eq}
use heyp_agents.Prelude.{ℕ, Bool, true, false, not, ◌&&◌, List, [], ◌∷◌, ◌==◌, if◌then◌else◌}

pub record FlowMarker : Type 0 where
  pub src_dc : Bytes
  pub dst_dc : Bytes
  pub job : Bytes
  pub host_id : ℕ
  pub src_addr : Bytes
  pub dst_addr : Bytes
  pub protocol : ℕ
  pub src_port : ℕ
  pub dst_port : ℕ
  pub seqnum : ℕ

pub record CompareFlowOptions : Type 0 where
  pub cmp_fg : Bool
  pub cmp_job : Bool
  pub cmp_src_host : Bool
  pub cmp_host_flow : Bool
  pub cmp_seqnum : Bool

abbrev pub all_options : CompareFlowOptions
all_options = record {
  cmp_fg = true;
  cmp_job = true;
  cmp_src_host = true;
  cmp_host_flow = true;
  cmp_seqnum = true;
}

-- `if (option) { ... OR_RETURN }`: the tests of a group, where the group is looked at.
abbrev pub where_on : Bool → Bool → Bool
where_on option tests = if option then tests else true

abbrev pub is_blank : Bytes → Bool
is_blank [] = true
is_blank (x ∷ xs) = false

unfoldable pub expected_fields_are_set : FlowMarker → CompareFlowOptions → Bool
expected_fields_are_set m o =
    where_on o.cmp_fg (not (is_blank m.src_dc) && not (is_blank m.dst_dc))
    && where_on o.cmp_job (not (is_blank m.job))
    && where_on o.cmp_src_host (not (m.host_id == 0))
    && where_on o.cmp_host_flow (
        not (is_blank m.src_addr)
        && not (is_blank m.dst_addr)
        && not (m.protocol == 0)
        && not (m.src_port == 0)
        && not (m.dst_port == 0))
    && where_on o.cmp_seqnum (not (m.seqnum == 0))

-- The job is tested where the option is on, as the code has it.
unfoldable pub unexpected_fields_are_unset : FlowMarker → CompareFlowOptions → Bool
unexpected_fields_are_unset m o =
    where_on (not o.cmp_fg) (is_blank m.src_dc && is_blank m.dst_dc)
    && where_on o.cmp_job (is_blank m.job)
    && where_on (not o.cmp_src_host) (m.host_id == 0)
    && where_on (not o.cmp_host_flow) (
        is_blank m.src_addr
        && is_blank m.dst_addr
        && m.protocol == 0
        && m.src_port == 0
        && m.dst_port == 0)
    && where_on (not o.cmp_seqnum) (m.seqnum == 0)

unfoldable pub is_same_flow : FlowMarker → FlowMarker → CompareFlowOptions → Bool
is_same_flow lhs rhs o =
    where_on o.cmp_fg (bytes_eq lhs.src_dc rhs.src_dc && bytes_eq lhs.dst_dc rhs.dst_dc)
    && where_on o.cmp_job (bytes_eq lhs.job rhs.job)
    && where_on o.cmp_src_host (lhs.host_id == rhs.host_id)
    && where_on o.cmp_host_flow (
        bytes_eq lhs.src_addr rhs.src_addr
        && bytes_eq lhs.dst_addr rhs.dst_addr
        && lhs.protocol == rhs.protocol
        && lhs.src_port == rhs.src_port
        && lhs.dst_port == rhs.dst_port)
    && where_on o.cmp_seqnum (lhs.seqnum == rhs.seqnum)

-- The options of `EqFlow`, `EqHostFlowNoId`, `EqFlowNoJob` and `EqClusterFlow`.
abbrev pub no_id_options : CompareFlowOptions
no_id_options = record all_options { cmp_fg = false; cmp_job = false; cmp_seqnum = false }

abbrev pub no_job_options : CompareFlowOptions
no_job_options = record all_options { cmp_job = false }

abbrev pub cluster_options : CompareFlowOptions
cluster_options = record {
  cmp_fg = true;
  cmp_job = false;
  cmp_src_host = false;
  cmp_host_flow = false;
  cmp_seqnum = false;
}

unfoldable pub eq_flow : FlowMarker → FlowMarker → Bool
unfolding is_same_flow
eq_flow lhs rhs = is_same_flow lhs rhs all_options

unfoldable pub eq_host_flow_no_id : FlowMarker → FlowMarker → Bool
unfolding is_same_flow
eq_host_flow_no_id lhs rhs = is_same_flow lhs rhs no_id_options

unfoldable pub eq_flow_no_job : FlowMarker → FlowMarker → Bool
unfolding is_same_flow
eq_flow_no_job lhs rhs = is_same_flow lhs rhs no_job_options

unfoldable pub eq_cluster_flow : FlowMarker → FlowMarker → Bool
unfolding is_same_flow
eq_cluster_flow lhs rhs = is_same_flow lhs rhs cluster_options

abbrev pub to_cluster_flow : FlowMarker → FlowMarker
to_cluster_flow flow = record flow {
  job = [];
  host_id = 0;
  src_addr = [];
  dst_addr = [];
  protocol = 0;
  src_port = 0;
  dst_port = 0;
  seqnum = 0;
}

abbrev pub to_host_flow : FlowMarker → FlowMarker
to_host_flow flow = record flow {
  src_addr = [];
  dst_addr = [];
  protocol = 0;
  src_port = 0;
  dst_port = 0;
  seqnum = 0;
}
