-- ===== src/Enforcer.antt =====
-- `LinuxHostEnforcer` of heyp/host-agent/linux-enforcer/enforcer.{h,cc}: its state and what it asks
-- `tc` for. A call holds the mutex from its start to its end. Rate limits are natural numbers.
pub mod Traffic
pub mod Books
pub mod Early
pub mod Allocs
pub mod WanSetup
pub mod Uncreated
pub mod History
pub mod Rates
mod Tests
use heyp_agents.Prelude.Text.{Bytes}
use heyp_agents.Prelude.Text.{codes, decimal}
use heyp_agents.Prelude.Maps.{KeyEq, lookup, assign}
use heyp_agents.Prelude.{
  ℕ, Bool, true, false, List, [], ◌∷◌, ◌++◌, Option, none, some, if◌then◌else◌,
}
use heyp_agents.Markers.{FlowMarker, no_job_options, is_blank}
use heyp_agents.Markers.Laws.{marker_keys}
use heyp_agents.Iptables.Setting.{Setting}
use heyp_agents.Iptables.Controller.{Controller}

pub record HostEnforcerConfig : Type 0 where
  pub limit_hipri : Bool
  pub limit_lopri : Bool
  pub pacing_burst_bytes : ℕ
  pub min_rate_limit_bps : ℕ
  pub dscp_hipri : Bytes
  pub dscp_lopri : Bytes

pub record FlowAlloc : Type 0 where
  pub flow : FlowMarker
  pub hipri_rate_limit_bps : ℕ
  pub lopri_rate_limit_bps : ℕ

pub record MatchedHostFlows : Type 0 where
  pub hipri : List FlowMarker
  pub lopri : List FlowMarker

-- `FlowSys::Priority`.
pub record Priority : Type 0 where
  pub class_id : Bytes
  pub cur_rate_limit_bps : ℕ
  pub did_create_class : Bool
  pub update_after_ipt_change : Bool
  pub matched : List FlowMarker

pub record FlowSys : Type 0 where
  pub hipri : Priority
  pub lopri : Priority

abbrev pub new_priority : Priority
new_priority = record {
  class_id = [];
  cur_rate_limit_bps = 0;
  did_create_class = false;
  update_after_ipt_change = false;
  matched = [];
}

abbrev pub new_flow_sys : FlowSys
new_flow_sys = record { hipri = new_priority; lopri = new_priority }

abbrev pub SysInfo : Type 0
SysInfo = List (FlowMarker × FlowSys)

-- The keys of `sys_info_`.
instance unfoldable pub sys_keys : KeyEq FlowMarker
sys_keys = marker_keys no_job_options

pub record LinuxHostEnforcer : Type 0 where
  pub config : HostEnforcerConfig
  pub device : Bytes
  pub ipt_controller : Controller
  pub next_class_id : ℕ
  pub sys_info : SysInfo
  pub ipt_snapshot : List Setting

-- `none` is the null pointer.
unfoldable pub get_sys_info : FlowMarker → SysInfo → Option FlowSys
get_sys_info flow sys_info = lookup flow sys_info

abbrev or_new : Option FlowSys → FlowSys
or_new none = new_flow_sys
or_new (some sys) = sys

-- What `GetOrCreateSysInfo` refers to; a write to it is `put_sys_info`.
unfoldable pub get_or_create_sys_info : FlowMarker → SysInfo → FlowSys
get_or_create_sys_info flow sys_info = or_new (lookup flow sys_info)

-- A new entry is stored under the flow without its job.
unfoldable pub put_sys_info : FlowMarker → FlowSys → SysInfo → SysInfo
put_sys_info flow sys sys_info = assign (record flow { job = [] }) sys sys_info

abbrev pub is_empty {ℓ} : {A : Type ℓ} → List A → Bool
is_empty [] = true
is_empty (x ∷ xs) = false

-- `100 * (1 << 30)`.
abbrev pub k_max_bandwidth_bps : ℕ
k_max_bandwidth_bps = 107374182400
