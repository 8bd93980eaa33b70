-- ===== src/Enforcer/Books.antt =====
-- What holds of the entries of the enforcer of heyp/host-agent/linux-enforcer/enforcer.cc between
-- calls, and how the parts of a call keep it.
pub mod Ids
pub mod Calls
pub mod Matches
pub mod Uncreated
pub mod Staged
pub mod Runs
use heyp_agents.Prelude.Text.{Bytes, bytes_eq, bytes_eq_iff}
use heyp_agents.Prelude.Maps.{
  lookup, assign, lookup-assign, lookup-assign_if, total-assign, All-lookup, All-assign,
}
use heyp_agents.Prelude.{
  ℕ, ◌+◌, ◌≤◌, Bool, true, false, List, [], ◌∷◌, ◌++◌, Option, none, some, All, if◌then◌else◌, ◌≡◌,
  ◌⊎◌, inl, inr, refl, ap, sym, subst, ◌∙◌, arith, Bool-cases, Option-cases,
}
use heyp_agents.Markers.{FlowMarker, is_blank}
use heyp_agents.Enforcer.{
  HostEnforcerConfig, FlowAlloc, MatchedHostFlows, Priority, FlowSys, SysInfo, sys_keys,
  new_flow_sys, get_sys_info, get_or_create_sys_info, put_sys_info, is_empty,
}
use heyp_agents.Enforcer.Traffic.{
  PriorityPtr, Pri, k_hipri, k_lopri, Staging, early_update, late_update, with_class_id,
  stage_traffic_control_for_flow,
}
use heyp_agents.Enforcer.Early.{
  Env, early_sys, early_alloc, early_allocs, mark_created, learn, limit_of, priority_of,
}
use heyp_agents.Enforcer.Allocs.{late_sys, late_allocs, ports_are_valid}
use heyp_agents.Enforcer.Books.Ids.{
  HasIds, Assigns, uses, sys_uses, uses-assign, uses-put, Sys-HasIds, lookup-no_job,
}

-- The matched flows have ports that pass the check, and where there are any there is a class id.
pub record IsReady (p : Priority) : Type 0 where
  pub named : is_blank p.class_id ≡ true → p.matched ≡ []
  pub ports : All (λ f. ports_are_valid f ≡ true) p.matched

abbrev pub IsReadySys : FlowSys → Type 0
IsReadySys sys = IsReady sys.hipri × IsReady sys.lopri

pub record HasBooks (next : ℕ) (info : SysInfo) : Type 0 where
  pub ids : HasIds next (λ x. uses x info)
  pub ready : All (λ e. IsReadySys e.1) info

abbrev pub IsThere : FlowMarker → SysInfo → Type 0
IsThere flow info = (sys : FlowSys) × (lookup flow info ≡ some sys)

pub early_update-Assigns :
    (config : HostEnforcerConfig) (ptr : PriorityPtr) (limit : ℕ) (sys : Priority) (st : Staging)
    → let r = early_update config ptr limit sys st in
      Assigns sys r.0 st.next_class_id r.1.next_class_id
unfolding early_update stage_traffic_control_for_flow
early_update-Assigns config ptr limit sys st = ground arith

empty_eq : (l : List FlowMarker) → is_empty l ≡ true → l ≡ []
empty_eq [] h = refl
empty_eq (f ∷ l) h = cc

pub early_update-matched :
    (config : HostEnforcerConfig) (ptr : PriorityPtr) (limit : ℕ) (sys : Priority) (st : Staging)
    → (early_update config ptr limit sys st).0.matched ≡ sys.matched
unfolding early_update stage_traffic_control_for_flow
early_update-matched config ptr limit sys st = ground arith

pub early_update-IsReady :
    (config : HostEnforcerConfig) (ptr : PriorityPtr) (limit : ℕ) (sys : Priority) (st : Staging)
    → All (λ f. ports_are_valid f ≡ true) sys.matched
    → IsReady (early_update config ptr limit sys st).0
unfolding early_update stage_traffic_control_for_flow
early_update-IsReady config ptr limit sys st h = record {
  named = λ q. ground (arith, empty_eq sys.matched);
  ports =
      subst (All (λ f. ports_are_valid f ≡ true))
        (sym (early_update-matched config ptr limit sys st)) h;
}

pub late_update-Assigns :
    (config : HostEnforcerConfig) (sys : Priority) (st : Staging)
    → let r = late_update config sys st in Assigns sys r.0 st.next_class_id r.1.next_class_id
unfolding late_update stage_traffic_control_for_flow
late_update-Assigns config sys st = ground arith

pub late_update-matched :
    (config : HostEnforcerConfig) (sys : Priority) (st : Staging)
    → (late_update config sys st).0.matched ≡ sys.matched
unfolding late_update stage_traffic_control_for_flow
late_update-matched config sys st = ground arith

pub late_update-IsReady :
    (config : HostEnforcerConfig) (sys : Priority) (st : Staging)
    → IsReady sys
    → IsReady (late_update config sys st).0
unfolding late_update stage_traffic_control_for_flow
late_update-IsReady config sys st h = record {
  named = λ q. ground (arith, h.named);
  ports =
      subst (All (λ f. ports_are_valid f ≡ true)) (sym (late_update-matched config sys st)) h.ports;
}

pub early_sys-IsReadySys :
    (config : HostEnforcerConfig) (a : FlowAlloc) (m : MatchedHostFlows) (sys : FlowSys)
    (st : Staging)
    → All (λ f. ports_are_valid f ≡ true) m.hipri
    → All (λ f. ports_are_valid f ≡ true) m.lopri
    → IsReadySys (early_sys config a m sys st).0
unfolding early_sys
early_sys-IsReadySys config a m sys st h k = (
  early_update-IsReady config _ _ (record (sys.hipri) { matched = m.hipri }) st h,
  early_update-IsReady config _ _ (record (sys.lopri) { matched = m.lopri }) _ k,
)

-- Writing an entry keeps the books, if its two priorities keep or get ids.
pub put-HasBooks :
    (flow : FlowMarker) (sys : FlowSys) (info : SysInfo) (n n1 n' : ℕ)
    → let old = get_or_create_sys_info flow info in
      Assigns old.hipri sys.hipri n n1
      → Assigns old.lopri sys.lopri n1 n'
      → IsReadySys sys
      → HasBooks n info
      → HasBooks n' (put_sys_info flow sys info)
unfolding put_sys_info
put-HasBooks flow sys info n n1 n' a b r h = record {
  ids =
      Sys-HasIds (get_or_create_sys_info flow info) sys n n1 n' (λ x. uses x info)
        (λ s x. uses x (put_sys_info flow s info)) (λ s x q. uses-put x flow s info q) a b h.ids;
  ready = All-assign IsReadySys (record flow { job = [] }) sys info r h.ready;
}

pub assign-HasBooks :
    (flow : FlowMarker) (old sys : FlowSys) (info : SysInfo) (n n1 n' : ℕ)
    → lookup flow info ≡ some old
    → Assigns old.hipri sys.hipri n n1
    → Assigns old.lopri sys.lopri n1 n'
    → IsReadySys sys
    → HasBooks n info
    → HasBooks n' (assign flow sys info)
assign-HasBooks flow old sys info n n1 n' q a b r h = record {
  ids =
      Sys-HasIds old sys n n1 n' (λ x. uses x info) (λ s x. uses x (assign flow s info))
        (λ s x p. uses-assign x flow old s info q) a b h.ids;
  ready = All-assign IsReadySys flow sys info r h.ready;
}

pub IsThere-assign :
    (j k : FlowMarker) (sys : FlowSys) (info : SysInfo)
    → IsThere j info
    → IsThere j (assign k sys info)
IsThere-assign j k sys info (old, h) = elim (Bool-cases (sys_keys.eq k j)) [
  | inl e ↦ (sys, lookup-assign_if j k sys info ∙ rw e refl)
  | inr e ↦ (old, lookup-assign_if j k sys info ∙ rw e h)
]

pub IsThere-put :
    (flow : FlowMarker) (sys : FlowSys) (info : SysInfo) → IsThere flow (put_sys_info flow sys info)
unfolding put_sys_info
IsThere-put flow sys info =
    (sys, lookup-no_job flow _ ∙ lookup-assign (record flow { job = [] }) sys info)

pub IsThere-put_other :
    (j flow : FlowMarker) (sys : FlowSys) (info : SysInfo)
    → IsThere j info
    → IsThere j (put_sys_info flow sys info)
unfolding put_sys_info
IsThere-put_other j flow sys info t = IsThere-assign j (record flow { job = [] }) sys info t

-- The matcher answers an allocation, with flows whose ports are ports.
abbrev pub Fits : Env → FlowAlloc → Type 0
Fits env a =
    (m : MatchedHostFlows) × (env.match_host_flows a ≡ some m)
    × All (λ f. ports_are_valid f ≡ true) m.hipri
    × All (λ f. ports_are_valid f ≡ true) m.lopri
