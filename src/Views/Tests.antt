-- ===== src/Views/Tests.antt =====
-- A view by jobs of heyp/alg/agg-info-views.cc, and the theorem at it.
use heyp_agents.Prelude.Text.{Bytes}
use heyp_agents.Prelude.{ℕ, true, false, Bool, List, [], ◌∷◌, length}
use heyp_agents.Markers.{FlowMarker}
use heyp_agents.Views.{FlowInfo, k_usage, job_level_view}
use heyp_agents.Views.Groups.{IsGrouped, job_level_view-IsGrouped}

abbrev pub host_of : Bytes → ℕ → FlowMarker
host_of job host_id = record {
  src_dc = 1 ∷ [];
  dst_dc = 2 ∷ [];
  job = job;
  host_id = host_id;
  src_addr = [];
  dst_addr = [];
  protocol = 0;
  src_port = 0;
  dst_port = 0;
  seqnum = 0;
}

abbrev pub info_of : Bytes → ℕ → ℕ → Bool → FlowInfo
info_of job host_id volume lopri = record {
  flow = host_of job host_id;
  predicted_demand_bps = volume;
  ewma_usage_bps = volume;
  currently_lopri = lopri;
}

abbrev pub three_hosts : List FlowInfo
three_hosts =
    info_of (7 ∷ []) 1 10 false ∷ info_of (8 ∷ []) 2 20 false ∷ info_of (7 ∷ []) 3 5 true ∷ []

abbrev pub job_size : Bytes → ℕ
job_size job = length job

job_level_view-IsGrouped_example :
    IsGrouped job_size k_usage three_hosts (job_level_view job_size k_usage three_hosts)
job_level_view-IsGrouped_example = job_level_view-IsGrouped job_size k_usage three_hosts
