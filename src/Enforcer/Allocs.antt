-- ===== src/Enforcer/Allocs.antt =====
-- `EnforceAllocs` of heyp/host-agent/linux-enforcer/enforcer.cc and `StageIptablesForFlow`. `none` is
-- a check, or a null pointer that is followed, that stops the process. What `tc` and the iptables
-- runner answer are arguments.
use heyp_agents.Prelude.Text.{Bytes, bytes_eq}
use heyp_agents.Prelude.Maps.{assign}
use heyp_agents.Prelude.{
  Bool, not, ◌&&◌, List, [], ◌∷◌, ◌++◌, Option, none, some, leb, if◌then◌else◌,
}
use heyp_agents.Markers.{FlowMarker, is_blank}
use heyp_agents.Iptables.Setting.{Setting}
use heyp_agents.Iptables.Setting.Laws.{bytes_order}
use heyp_agents.Iptables.Controller.{
  Controller, Status, ok, internal_error, Request, Outcome, stage, commit_changes,
}
use heyp_agents.Enforcer.{
  HostEnforcerConfig, FlowAlloc, Priority, FlowSys, SysInfo, sys_keys, LinuxHostEnforcer,
  get_sys_info, is_empty,
}
use heyp_agents.Enforcer.Traffic.{Staging, new_staging, late_update}
use heyp_agents.Iptables.Lookup.{settings_find_dscp}
use heyp_agents.Enforcer.Early.{
  ◌>>=◌, Env, Event, early_allocs, learn, batch_status, batch_events, show_events, ipt_restore,
}

-- `AssertValidPort` of both ports of a flow.
abbrev pub ports_are_valid : FlowMarker → Bool
ports_are_valid f = leb f.src_port 65535 && leb f.dst_port 65535

abbrev pub setting_for : Bytes → Bytes → FlowMarker → Setting
setting_for dscp class_id f = record {
  src_port = f.src_port;
  dst_port = f.dst_port;
  dst_addr = f.dst_addr;
  class_id = class_id;
  dscp = dscp;
}

-- The loop of `StageIptablesForFlow`.
unfoldable pub stage_flows : Bytes → Bytes → List FlowMarker → Controller → Option Controller
stage_flows dscp class_id [] c = some c
stage_flows dscp class_id (f ∷ flows) c =
    let rest = stage_flows dscp class_id flows (stage (setting_for dscp class_id f) c) in
    if ports_are_valid f then rest else none

unfoldable pub stage_iptables_for_flow :
    List FlowMarker → Bytes → Bytes → Controller → Option Controller
unfolding stage_flows
stage_iptables_for_flow matched_flows dscp class_id c =
    if is_empty matched_flows
    then some c
    else if is_blank class_id
    then none
    else stage_flows dscp class_id matched_flows c

abbrev pub is_unready : Priority → Bool
is_unready p = not (is_empty p.matched) && not p.did_create_class

-- Stage 2 for one flow: `continue` where a class is missing.
unfoldable pub stage_sys : HostEnforcerConfig → FlowSys → Controller → Option Controller
stage_sys config sys c = if is_unready sys.hipri then some c else (do
  hi ← stage_iptables_for_flow sys.hipri.matched config.dscp_hipri sys.hipri.class_id c
  if is_unready sys.lopri
      then some hi
      else stage_iptables_for_flow sys.lopri.matched config.dscp_lopri sys.lopri.class_id hi)

unfoldable pub stage_allocs :
    HostEnforcerConfig → SysInfo → List FlowAlloc → Controller → Option Controller
stage_allocs config info [] c = some c
stage_allocs config info (a ∷ bundle) c = do
  sys ← get_sys_info a.flow info
  staged ← stage_sys config sys c
  stage_allocs config info bundle staged

-- Stage 3 for one flow.
unfoldable pub late_sys : HostEnforcerConfig → FlowSys → Staging → FlowSys × Staging
late_sys config sys st =
    let hi = late_update config (sys.hipri) st in
    let lo = late_update config (sys.lopri) (hi.1) in (record { hipri = hi.0; lopri = lo.0 }, lo.1)

unfoldable pub late_allocs :
    HostEnforcerConfig → List FlowAlloc → SysInfo × Staging → Option (SysInfo × Staging)
late_allocs config [] s = some s
late_allocs config (a ∷ bundle) (info, st) = do
  sys ← get_sys_info a.flow info
  let next = late_sys config sys st
  late_allocs config bundle (assign a.flow (next.0) info, next.1)

-- The state after a call, what was sent, and the controller as `CommitChanges` was called on it.
pub record Enforced : Type 0 where
  pub state : LinuxHostEnforcer
  pub events : List Event
  pub committing : Controller

abbrev pub restore_events : Option Request → List Event
restore_events none = []
restore_events (some request) = ipt_restore request ∷ []

-- From `CommitChanges` on: stage 3 where it succeeds.
unfoldable pub finish :
    List FlowAlloc
    → LinuxHostEnforcer
    → Controller
    → List Event
    → Outcome
    → Status
    → Option Enforced
finish bundle e committing sent o (internal_error m) = some (record {
  state = record e { ipt_controller = o.state };
  events = sent ++ restore_events o.request;
  committing = committing;
})
finish bundle e committing sent o ok = do
  late ← late_allocs e.config bundle (e.sys_info, new_staging e.next_class_id)
  some (record {
    state = record e {
      ipt_controller = o.state;
      ipt_snapshot = o.state.applied;
      sys_info = late.0;
      next_class_id = late.1.next_class_id;
    };
    events = sent ++ (restore_events o.request ++ batch_events late.1.tc_batch_input);
    committing = committing;
  })

unfoldable pub enforce_allocs : Env → List FlowAlloc → LinuxHostEnforcer → Option Enforced
unfolding commit_changes
enforce_allocs env bundle e = do
  early ← early_allocs env e.config bundle (e.sys_info, new_staging e.next_class_id)
  let lines = early.1.tc_batch_input
  let st = batch_status env e.device e.config lines
  let info = learn st env.class_show env.raw_out early.1.classes_to_create early.0
  staged ← stage_allocs e.config info bundle e.ipt_controller
  let o = commit_changes env.runner staged
  finish bundle (record e { sys_info = info; next_class_id = early.1.next_class_id }) staged
      (batch_events lines ++ show_events st) o o.status

-- `GetIsLopriFunc`, on the settings that were applied last.
unfoldable pub is_lopri : LinuxHostEnforcer → FlowMarker → Bool
unfolding settings_find_dscp bytes_eq
is_lopri e flow =
    bytes_eq
      (settings_find_dscp e.ipt_snapshot flow.src_port flow.dst_port flow.dst_addr
        e.config.dscp_hipri)
      e.config.dscp_lopri
