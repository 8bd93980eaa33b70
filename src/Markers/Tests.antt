-- ===== src/Markers/Tests.antt =====
-- The comparisons of heyp/proto/alg.cc at concrete markers.
use heyp_agents.Prelude.Text.{codes}
use heyp_agents.Prelude.{false, []}
use heyp_agents.Markers.{FlowMarker, CompareFlowOptions, all_options}

abbrev search : FlowMarker
search = record {
  src_dc = codes "east";
  dst_dc = codes "west";
  job = codes "search";
  host_id = 3;
  src_addr = [];
  dst_addr = [];
  protocol = 0;
  src_port = 0;
  dst_port = 0;
  seqnum = 0;
}

abbrev mail : FlowMarker
mail = record search { job = codes "mail" }

abbrev host_options : CompareFlowOptions
host_options = record all_options { cmp_host_flow = false; cmp_seqnum = false }
