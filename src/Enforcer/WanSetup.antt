-- ===== src/Enforcer/WanSetup.antt =====
-- `AllNetemConfigs`, `ExpandDestIntoHostsSinglePri`, `InitSimulatedWan` and `ResetDeviceConfig` of
-- heyp/host-agent/linux-enforcer/enforcer.cc. `none` is a check, or a null pointer that is followed,
-- that stops the process.
pub mod Configs
pub mod Start
use heyp_agents.Prelude.Text.{Bytes, bytes_eq}
use heyp_agents.Prelude.Text.{codes}
use heyp_agents.Prelude.Maps.{lookup, assign}
use heyp_agents.Prelude.{
  ℕ, Bool, true, false, not, List, [], ◌∷◌, ◌++◌, ◌==◌, Option, none, some, map, ltb, if◌then◌else◌,
}
use heyp_agents.Markers.{FlowMarker, is_blank}
use heyp_agents.Iptables.Rules.{SmallStringSet}
use heyp_agents.Iptables.Controller.{
  Controller, Status, ok, internal_error, Runner, Request, Outcome, new_controller, clear,
  commit_changes,
}
use heyp_agents.Datacenters.{
  StaticDcMapper, SimulatedWanDb, QosNetemConfig, NetemConfig, hosts_for_dc, get_netem,
}
use heyp_agents.Enforcer.{
  HostEnforcerConfig, FlowAlloc, MatchedHostFlows, Priority, FlowSys, SysInfo, sys_keys,
  new_flow_sys, LinuxHostEnforcer, get_sys_info, get_or_create_sys_info, put_sys_info,
  k_max_bandwidth_bps,
}
use heyp_agents.Enforcer.Traffic.{
  Formats, batch_text, Staging, new_staging, stage_traffic_control_for_flow,
}
use heyp_agents.Enforcer.Early.{◌>>=◌, Event, tc_batch, ipt_restore, created}
use heyp_agents.Enforcer.Allocs.{restore_events, stage_iptables_for_flow}

pub record FlowNetemConfig : Type 0 where
  pub flow : FlowMarker
  pub matched_flows : List FlowMarker
  pub netem : QosNetemConfig

abbrev pub no_marker : FlowMarker
no_marker = record {
  src_dc = [];
  dst_dc = [];
  job = [];
  host_id = 0;
  src_addr = [];
  dst_addr = [];
  protocol = 0;
  src_port = 0;
  dst_port = 0;
  seqnum = 0;
}

abbrev pub wan_flow : Bytes → ℕ → Bytes → FlowMarker
wan_flow my_dc my_host_id dst = record no_marker {
  src_dc = my_dc;
  dst_dc = dst;
  host_id = my_host_id;
}

abbrev pub to_host : FlowMarker → Bytes → FlowMarker
to_host flow host = record flow { dst_addr = host }

abbrev pub netem_config : Bytes → ℕ → Bytes → QosNetemConfig → List Bytes → FlowNetemConfig
netem_config my_dc my_host_id dst netem hosts = record {
  flow = wan_flow my_dc my_host_id dst;
  matched_flows = map (to_host (wan_flow my_dc my_host_id dst)) hosts;
  netem = netem;
}

-- A round of the loop of `AllNetemConfigs` past its first `continue`.
abbrev pub config_of :
    Bytes → ℕ → Bytes → Option QosNetemConfig → Option (List Bytes) → Option (List FlowNetemConfig)
config_of my_dc my_host_id dst none hosts = some []
config_of my_dc my_host_id dst (some netem) none = none
config_of my_dc my_host_id dst (some netem) (some hosts) =
    some (netem_config my_dc my_host_id dst netem hosts ∷ [])

unfoldable pub configs_to :
    StaticDcMapper → SimulatedWanDb → Bytes → ℕ → List Bytes → Option (List FlowNetemConfig)
configs_to dc_mapper simulated_wan my_dc my_host_id [] = some []
configs_to dc_mapper simulated_wan my_dc my_host_id (dst ∷ dsts) = do
  one ←
      if bytes_eq dst my_dc
      then some []
      else config_of my_dc my_host_id dst (get_netem simulated_wan my_dc dst)
          (hosts_for_dc dc_mapper dst)
  rest ← configs_to dc_mapper simulated_wan my_dc my_host_id dsts
  some (one ++ rest)

unfoldable pub all_netem_configs :
    StaticDcMapper → SimulatedWanDb → Bytes → ℕ → Option (List FlowNetemConfig)
unfolding configs_to
all_netem_configs dc_mapper simulated_wan my_dc my_host_id =
    configs_to dc_mapper simulated_wan my_dc my_host_id dc_mapper.all_dcs

abbrev pub expanded : FlowMarker → Option (List Bytes) → List FlowMarker
expanded flow none = []
expanded flow (some hosts) = map (to_host flow) hosts

-- The flows that the allocation is about, at whichever priority.
unfoldable pub expand_dest : StaticDcMapper → FlowMarker → List FlowMarker
expand_dest dc_mapper flow =
    if is_blank flow.dst_addr then expanded flow (hosts_for_dc dc_mapper flow.dst_dc) else flow ∷ []

unfoldable pub expand_dest_into_hosts_single_pri :
    StaticDcMapper → FlowAlloc → Option MatchedHostFlows
unfolding expand_dest
expand_dest_into_hosts_single_pri dc_mapper a =
    if ltb 0 a.lopri_rate_limit_bps
    then if a.hipri_rate_limit_bps == 0
      then some (record { hipri = []; lopri = expand_dest dc_mapper a.flow })
      else none
    else some (record { hipri = expand_dest dc_mapper a.flow; lopri = [] })

-- What `InitSimulatedWan` calls, and how a marker is printed.
pub record WanEnv : Type 0 where
  pub formats : Formats
  pub batch : Bytes → Status
  pub runner : Runner
  pub short_debug_string : FlowMarker → Bytes

pub data InitStatus : Type 0 where
  init_ok : InitStatus
  call_failed : Bytes → InitStatus
  failed_precondition : Bytes → InitStatus

-- `absl::StrJoin(errors, "\n\t")`.
unfoldable pub join_errors : List Bytes → Bytes
join_errors [] = []
join_errors (x ∷ []) = x
join_errors (x ∷ y ∷ errors) = x ++ codes "\n\t" ++ join_errors (y ∷ errors)

abbrev multiple_errors : List Bytes → Bytes
multiple_errors errors = codes "multiple errors:\n\t" ++ join_errors errors

-- The status where a call fails: its message alone, or behind the errors from before.
abbrev call_status : List Bytes → Bytes → Bytes → InitStatus
call_status [] alone among = call_failed alone
call_status (x ∷ errors) alone among = call_failed (multiple_errors ((x ∷ errors) ++ among ∷ []))

abbrev end_status : List Bytes → InitStatus
end_status [] = init_ok
end_status (x ∷ []) = failed_precondition x
end_status (x ∷ y ∷ errors) = failed_precondition (multiple_errors (x ∷ y ∷ errors))

-- The entries, what is staged for `tc`, and the errors.
pub record Setup : Type 0 where
  pub info : SysInfo
  pub staging : Staging
  pub errors : List Bytes

abbrev pub at_max : Priority → Priority
at_max p = record p { cur_rate_limit_bps = k_max_bandwidth_bps }

abbrev pub new_classes :
    HostEnforcerConfig → FlowNetemConfig → FlowSys → Staging → FlowSys × Staging
new_classes config c sys st =
    let hi =
      stage_traffic_control_for_flow config k_max_bandwidth_bps (c.netem.hipri) none (sys.hipri)
        st in
    let lo =
      stage_traffic_control_for_flow config k_max_bandwidth_bps (c.netem.lopri) none (sys.lopri)
        (hi.1) in
    (record { hipri = at_max (hi.0); lopri = at_max (lo.0) }, lo.1)

-- A flow that has an entry is an error, and is skipped.
abbrev pub add_config :
    WanEnv → HostEnforcerConfig → FlowNetemConfig → Option FlowSys → Setup → Setup
add_config env config c (some sys) s = record s {
  errors =
      s.errors ++ (codes "FlowSys already exists for flow: " ++ env.short_debug_string c.flow) ∷ [];
}
add_config env config c none s =
    let next = new_classes config c (get_or_create_sys_info c.flow s.info) s.staging in
    record s { info = put_sys_info c.flow (next.0) s.info; staging = next.1 }

unfoldable pub add_configs : WanEnv → HostEnforcerConfig → List FlowNetemConfig → Setup → Setup
add_configs env config [] s = s
add_configs env config (c ∷ configs) s =
    add_configs env config configs (add_config env config c (get_sys_info c.flow s.info) s)

abbrev pub wired : List FlowMarker → FlowSys → FlowSys
wired matched_flows sys = record {
  hipri = record (created sys.hipri) { matched = matched_flows };
  lopri = created sys.lopri;
}

-- The second loop, over all configurations.
unfoldable pub wire_configs :
    HostEnforcerConfig → List FlowNetemConfig → SysInfo × Controller → Option (SysInfo × Controller)
wire_configs config [] s = some s
wire_configs config (c ∷ configs) (info, ctl) = do
  sys ← get_sys_info c.flow info
  staged ← stage_iptables_for_flow c.matched_flows config.dscp_hipri sys.hipri.class_id ctl
  wire_configs config configs (assign c.flow (wired c.matched_flows sys) info, staged)

pub record Initialised : Type 0 where
  pub state : LinuxHostEnforcer
  pub status : InitStatus
  pub events : List Event

-- From `CommitChanges` on.
unfoldable pub finish_setup :
    List Bytes → LinuxHostEnforcer → List Event → Outcome → Status → Initialised
finish_setup errors e sent o (internal_error m) = record {
  state = record e { ipt_controller = o.state };
  status =
      call_status errors (codes "failed to commit iptables config: " ++ m)
        (codes "commit iptables config: " ++ m);
  events = sent ++ restore_events o.request;
}
finish_setup errors e sent o ok = record {
  state = record e { ipt_controller = o.state; ipt_snapshot = o.state.applied };
  status = end_status errors;
  events = sent ++ restore_events o.request;
}

abbrev pub classes_failed : Bytes → Bytes
classes_failed m = codes "failed to create htb classes or qdiscs: " ++ m

-- From the answer of `tc` on.
unfoldable pub after_batch :
    WanEnv → List FlowNetemConfig → Setup → LinuxHostEnforcer → Status → Option Initialised
unfolding finish_setup commit_changes
after_batch env configs s e (internal_error m) = some (record {
  state = record e { sys_info = s.info; next_class_id = s.staging.next_class_id };
  status = call_status s.errors (classes_failed m) (classes_failed m);
  events = tc_batch s.staging.tc_batch_input ∷ [];
})
after_batch env configs s e ok = do
  w ← wire_configs e.config configs (s.info, e.ipt_controller)
  let o = commit_changes env.runner (w.1)
  some (
      finish_setup s.errors (record e { sys_info = w.0; next_class_id = s.staging.next_class_id })
        (tc_batch s.staging.tc_batch_input ∷ []) o o.status)

unfoldable pub init_simulated_wan :
    WanEnv → List FlowNetemConfig → LinuxHostEnforcer → Option Initialised
unfolding after_batch add_configs
init_simulated_wan env configs e =
    let start : Setup = record {
      info = e.sys_info;
      staging = new_staging e.next_class_id;
      errors = [];
    } in
    let s = add_configs env e.config configs start in
    after_batch env configs s e
      (env.batch (batch_text env.formats e.device e.config s.staging.tc_batch_input))

unfoldable pub new_linux_host_enforcer : Bytes → HostEnforcerConfig → LinuxHostEnforcer
unfolding new_controller
new_linux_host_enforcer device config = record {
  config = config;
  device = device;
  ipt_controller = new_controller device [];
  next_class_id = 2;
  sys_info = [];
  ipt_snapshot = [];
}

-- `ResetTrafficControl`: what deleting the old queue discipline answers is ignored.
abbrev root_args : Bytes → List Bytes → List Bytes
root_args device rest = codes "dev" ∷ device ∷ codes "root" ∷ rest

unfoldable pub reset_traffic_control : (List Bytes → Status) → Bytes → Status × List (List Bytes)
reset_traffic_control call device =
    let delete = codes "qdisc" ∷ codes "delete" ∷ root_args device [] in
    let add =
      codes "qdisc"
      ∷ codes "add"
      ∷ root_args device
          (codes "handle" ∷ codes "1:" ∷ codes "htb" ∷ codes "default" ∷ codes "0" ∷ []) in
    (call add, delete ∷ add ∷ [])

abbrev failed_reset : Bytes → Status → Status
failed_reset prefix ok = ok
failed_reset prefix (internal_error m) = internal_error (prefix ++ m)

-- The iptables are reset only where `tc` answers.
abbrev reset_rules : Runner → LinuxHostEnforcer → Status → LinuxHostEnforcer × Status
reset_rules runner e (internal_error m) =
    (e, failed_reset (codes "failed to reset traffic control: ") (internal_error m))
reset_rules runner e ok =
    let o = clear runner e.ipt_controller in
    (
      record e { ipt_controller = o.state },
      failed_reset (codes "failed to reset iptables: ") o.status,
    )

unfoldable pub reset_device_config :
    (List Bytes → Status) → Runner → LinuxHostEnforcer → LinuxHostEnforcer × Status
unfolding reset_traffic_control clear
reset_device_config call runner e = reset_rules runner e (reset_traffic_control call e.device).0
