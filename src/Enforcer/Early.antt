-- ===== src/Enforcer/Early.antt =====
-- The first stage of `EnforceAllocs` of heyp/host-agent/linux-enforcer/enforcer.cc: classes are created,
-- limits raised, and new classes looked up where `tc` reports a failure.
use heyp_agents.Prelude.Text.{Bytes, split}
use heyp_agents.Prelude.Algorithms.{sort, binary_search}
use heyp_agents.Prelude.Maps.{lookup, assign}
use heyp_agents.Prelude.{
  ℕ, Bool, true, ◌||◌, List, [], ◌∷◌, ◌++◌, ◌==◌, Option, none, some, if◌then◌else◌, get_elem?,
}
use heyp_agents.Iptables.Setting.Laws.{bytes_order}
use heyp_agents.Iptables.Controller.{Status, ok, internal_error, Runner, Request}
use heyp_agents.Enforcer.{
  HostEnforcerConfig, FlowAlloc, MatchedHostFlows, Priority, FlowSys, SysInfo, sys_keys,
  get_or_create_sys_info, put_sys_info, k_max_bandwidth_bps,
}
use heyp_agents.Enforcer.Traffic.{
  TcLine, Formats, batch_text, Pri, k_hipri, k_lopri, PriorityPtr, Staging, early_update,
}

infixl 5 ◌>>=◌
abbrev pub ◌>>=◌ {ℓ κ} : {A : Type ℓ} {B : Type κ} → Option A → (A → Option B) → Option B
none >>= f = none
some a >>= f = f a

-- What the code calls: the matcher of flows, `tc` (its answers to the first batch and to
-- `class show`) and the runner.
pub record Env : Type 0 where
  pub formats : Formats
  pub match_host_flows : FlowAlloc → Option MatchedHostFlows
  pub early_batch : Bytes → Status
  pub class_show : Status
  pub raw_out : Bytes
  pub runner : Runner

-- What is sent to the outside, in this order.
pub data Event : Type 0 where
  tc_batch : List TcLine → Event
  tc_class_show : Event
  ipt_restore : Request → Event

abbrev pub limit_of : Bool → ℕ → ℕ
limit_of limited limit = if limited then limit else k_max_bandwidth_bps

-- Stage 1 for one allocation: the matched flows, and the early updates.
unfoldable pub early_sys :
    HostEnforcerConfig → FlowAlloc → MatchedHostFlows → FlowSys → Staging → FlowSys × Staging
early_sys config a matched sys st =
    let hi =
      early_update config (record { flow = a.flow; pri = k_hipri })
        (limit_of config.limit_hipri a.hipri_rate_limit_bps)
        (record (sys.hipri) { matched = matched.hipri }) st in
    let lo =
      early_update config (record { flow = a.flow; pri = k_lopri })
        (limit_of config.limit_lopri a.lopri_rate_limit_bps)
        (record (sys.lopri) { matched = matched.lopri }) (hi.1) in
    (record { hipri = hi.0; lopri = lo.0 }, lo.1)

unfoldable pub early_alloc :
    Env → HostEnforcerConfig → FlowAlloc → SysInfo × Staging → Option (SysInfo × Staging)
early_alloc env config a (info, st) = do
  matched ← env.match_host_flows a
  let next = early_sys config a matched (get_or_create_sys_info a.flow info) st
  some (put_sys_info a.flow (next.0) info, next.1)

unfoldable pub early_allocs :
    Env → HostEnforcerConfig → List FlowAlloc → SysInfo × Staging → Option (SysInfo × Staging)
early_allocs env config [] s = some s
early_allocs env config (a ∷ bundle) s =
    early_alloc env config a s >>= early_allocs env config bundle

abbrev pub priority_of : Pri → FlowSys → Priority
priority_of k_hipri sys = sys.hipri
priority_of k_lopri sys = sys.lopri

abbrev pub created : Priority → Priority
created p = record p { did_create_class = true }

abbrev pub with_created : Pri → FlowSys → FlowSys
with_created k_hipri sys = record sys { hipri = created sys.hipri }
with_created k_lopri sys = record sys { lopri = created sys.lopri }

-- `if (found) { sys->did_create_class = true; }`, through the pointer.
abbrev pub set_created : (Bytes → Bool) → PriorityPtr → Option FlowSys → SysInfo → SysInfo
set_created found ptr none info = info
set_created found ptr (some sys) info =
    if found (priority_of ptr.pri sys).class_id
    then assign ptr.flow (with_created ptr.pri sys) info
    else info

unfoldable pub mark_created : (Bytes → Bool) → List PriorityPtr → SysInfo → SysInfo
mark_created found [] info = info
mark_created found (ptr ∷ ptrs) info =
    mark_created found ptrs (set_created found ptr (lookup ptr.flow info) info)

abbrev is_newline : ℕ → Bool
is_newline c = c == 10

abbrev is_blank_char : ℕ → Bool
is_blank_char c = c == b' ' || c == 9

abbrev found_class : Option Bytes → List Bytes
found_class none = []
found_class (some class_id) = class_id ∷ []

unfoldable pub found_classes : List Bytes → List Bytes
unfolding split
found_classes [] = []
found_classes (line ∷ lines) =
    found_class (get_elem? (split is_blank_char line) 2) ++ found_classes lines

-- What is learnt of the new classes: all of them, those that `tc class show` has, or none.
abbrev pub learn : Status → Status → Bytes → List PriorityPtr → SysInfo → SysInfo
learn ok show raw_out ptrs info = mark_created (λ class_id. true) ptrs info
learn (internal_error m) ok raw_out ptrs info =
    mark_created (binary_search (sort (found_classes (split is_newline raw_out)))) ptrs info
learn (internal_error m) (internal_error m') raw_out ptrs info = info

abbrev pub batch_status : Env → Bytes → HostEnforcerConfig → List TcLine → Status
batch_status env device config [] = ok
batch_status env device config (l ∷ lines) =
    env.early_batch (batch_text env.formats device config (l ∷ lines))

abbrev pub batch_events : List TcLine → List Event
batch_events [] = []
batch_events (l ∷ lines) = tc_batch (l ∷ lines) ∷ []

abbrev pub show_events : Status → List Event
show_events ok = []
show_events (internal_error m) = tc_class_show ∷ []
