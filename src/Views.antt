-- ===== src/Views.antt =====
-- heyp/alg/agg-info-views.{h,cc} and heyp/alg/flow-volume.h: the children of an aggregate as the
-- selectors see them, one per host or one per job. Of the message `FlowInfo` the fields that are
-- read; volumes are sums that do not overflow `int64_t`.
pub mod Children
pub mod Index
pub mod Groups
pub mod Tests
use heyp_agents.Prelude.Text.{Bytes}
use heyp_agents.Prelude.Maps.{KeyEq, lookup, assign}
use heyp_agents.Prelude.{
  ℕ, zero, suc, ◌+◌, ◌-◌, Bool, false, ◌||◌, List, [], ◌∷◌, ◌++◌, map, length, Option, none, some,
}
use heyp_agents.Markers.{FlowMarker, all_options}
use heyp_agents.Markers.Laws.{marker_keys}
use heyp_agents.Downgrade.View.{ChildFlowInfo}

pub record FlowInfo : Type 0 where
  pub flow : FlowMarker
  pub predicted_demand_bps : ℕ
  pub ewma_usage_bps : ℕ
  pub currently_lopri : Bool

pub data FvSource : Type 0 where
  k_predicted_demand k_usage : FvSource

unfoldable pub get_flow_volume : FlowInfo → FvSource → ℕ
get_flow_volume info k_predicted_demand = info.predicted_demand_bps
get_flow_volume info k_usage = info.ewma_usage_bps

-- The children of `HostLevelView::Create`.
unfoldable pub host_level_view : FvSource → List FlowInfo → List ChildFlowInfo
unfolding get_flow_volume
host_level_view source infos =
    map
      (λ c. record {
        child_id = c.flow.host_id;
        volume_bps = get_flow_volume c source;
        currently_lopri = c.currently_lopri;
      })
      infos

pub record JobLevelView : Type 0 where
  pub children : List ChildFlowInfo
  pub job_index_of_host : List ℕ

-- The locals of `JobLevelView::Create` that its lambda captures.
pub record Jobs : Type 0 where
  pub flow_to_job_index : List (FlowMarker × ℕ)
  pub job_children : List ChildFlowInfo

instance pub job_keys : KeyEq FlowMarker
job_keys = marker_keys all_options

-- The key of a job: a fresh message with three fields set.
abbrev pub job_marker : FlowMarker → FlowMarker
job_marker host_flow = record {
  src_dc = host_flow.src_dc;
  dst_dc = host_flow.dst_dc;
  job = host_flow.job;
  host_id = 0;
  src_addr = [];
  dst_addr = [];
  protocol = 0;
  src_port = 0;
  dst_port = 0;
  seqnum = 0;
}

-- The two statements on `job_children[j]`.
unfoldable pub count_in : ℕ → Bool → List ChildFlowInfo → ℕ → List ChildFlowInfo
count_in volume lopri [] j = []
count_in volume lopri (c ∷ children) zero =
    record c { volume_bps = c.volume_bps + volume; currently_lopri = c.currently_lopri || lopri }
    ∷ children
count_in volume lopri (c ∷ children) (suc j) = c ∷ count_in volume lopri children j

-- `hash` is `XXH64` with the seed 0.
module _ (hash : Bytes → ℕ) where
  abbrev pub new_job : FlowMarker → ChildFlowInfo
  new_job flow = record { child_id = hash flow.job; volume_bps = 0; currently_lopri = false }

  unfoldable pub get_job_info_index : FlowMarker → Jobs → ℕ × Jobs
  get_job_info_index host_flow s =
      let flow = job_marker host_flow in
      elim (lookup flow s.flow_to_job_index) [
        | some j ↦ (j, s)
        | none ↦
            let job_children = s.job_children ++ new_job flow ∷ [] in
            let after : Jobs = record {
              flow_to_job_index = assign flow (length s.job_children) s.flow_to_job_index;
              job_children = job_children;
            } in
            (length job_children - 1, after)
      ]

  -- The body of the loop over the hosts.
  unfoldable pub add_host : FvSource → FlowInfo → Jobs → ℕ × Jobs
  unfolding get_job_info_index get_flow_volume count_in
  add_host source child s =
      let (j, t) = get_job_info_index child.flow s in
      let job_children =
        count_in (get_flow_volume child source) child.currently_lopri t.job_children j in
      (j, record t { job_children = job_children })

  -- The loop: the indices of the jobs of the hosts, in order, and the jobs.
  unfoldable pub add_hosts : FvSource → List FlowInfo → Jobs → List ℕ × Jobs
  unfolding add_host
  add_hosts source [] s = ([], s)
  add_hosts source (child ∷ infos) s =
      let (j, t) = add_host source child s in let (js, u) = add_hosts source infos t in (j ∷ js, u)

  unfoldable pub job_level_view : FvSource → List FlowInfo → JobLevelView
  unfolding add_hosts
  job_level_view source infos =
      let (js, s) = add_hosts source infos (record { flow_to_job_index = []; job_children = [] }) in
      record { children = s.job_children; job_index_of_host = js }
