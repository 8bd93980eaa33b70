-- ===== src/Enforcer/Books/Staged.antt =====
-- What the second stage of `EnforceAllocs` of heyp/host-agent/linux-enforcer/enforcer.cc stages.
use mathlib.Core.List.{append_assoc, append-nil}
use heyp_agents.Prelude.Text.{Bytes}
use heyp_agents.Prelude.Maps.{lookup, All-lookup}
use heyp_agents.Prelude.{
  true, List, [], ◌∷◌, ◌++◌, Option, none, some, map, All, if◌then◌else◌, ◌≡◌, inl, inr, ap, sym,
  ◌∙◌, Bool-cases,
}
use heyp_agents.Markers.{FlowMarker, is_blank}
use heyp_agents.Iptables.Setting.{Setting}
use heyp_agents.Iptables.Controller.{Controller, stage}
use heyp_agents.Enforcer.{
  HostEnforcerConfig, FlowAlloc, Priority, FlowSys, SysInfo, sys_keys, get_sys_info,
}
use heyp_agents.Enforcer.Allocs.{
  stage_flows, stage_iptables_for_flow, stage_sys, stage_allocs, setting_for, is_unready,
  ports_are_valid,
}
use heyp_agents.Enforcer.Books.{IsReady, IsReadySys, IsThere}

-- One setting for each matched flow, with the class and the mark of its priority.
abbrev pub priority_settings : Bytes → Priority → List Setting
priority_settings dscp p = map (setting_for dscp p.class_id) p.matched

-- A flow whose HIPRI class is missing has no settings, and one whose LOPRI class is missing has
-- those for HIPRI.
abbrev pub sys_settings : HostEnforcerConfig → FlowSys → List Setting
sys_settings config sys =
    if is_unready sys.hipri
    then []
    else priority_settings config.dscp_hipri sys.hipri
      ++ (if is_unready sys.lopri then [] else priority_settings config.dscp_lopri sys.lopri)

abbrev pub entry_settings : HostEnforcerConfig → Option FlowSys → List Setting
entry_settings config none = []
entry_settings config (some sys) = sys_settings config sys

unfoldable pub bundle_settings : HostEnforcerConfig → SysInfo → List FlowAlloc → List Setting
bundle_settings config info [] = []
bundle_settings config info (a ∷ bundle) =
    entry_settings config (lookup a.flow info) ++ bundle_settings config info bundle

abbrev pub with_staged : List Setting → Controller → Controller
with_staged l c = record c { staged = c.staged ++ l }

with_staged-append :
    (k l : List Setting) (c : Controller) → with_staged l (with_staged k c) ≡ with_staged (k ++ l) c
with_staged-append k l c = ap (λ s. record c { staged = s }) (append_assoc c.staged k l)

with_staged-nil : (c : Controller) → with_staged [] c ≡ c
with_staged-nil c = ap (λ s. record c { staged = s }) (append-nil c.staged)

stage_flows_lem :
    (dscp class_id : Bytes) (flows : List FlowMarker) (c : Controller)
    → All (λ f. ports_are_valid f ≡ true) flows
    → stage_flows dscp class_id flows c
      ≡ some (with_staged (map (setting_for dscp class_id) flows) c)
unfolding stage_flows stage
stage_flows_lem dscp class_id [] c h = ap some (sym (with_staged-nil c))
stage_flows_lem dscp class_id (f ∷ flows) c h = rw (h.0) (
    stage_flows_lem dscp class_id flows (stage (setting_for dscp class_id f) c) h.1
    ∙ ap some (
        with_staged-append (setting_for dscp class_id f ∷ [])
          (map (setting_for dscp class_id) flows) c))

pub stage_matched :
    (dscp class_id : Bytes) (flows : List FlowMarker) (c : Controller)
    → (is_blank class_id ≡ true → flows ≡ [])
    → All (λ f. ports_are_valid f ≡ true) flows
    → stage_iptables_for_flow flows dscp class_id c
      ≡ some (with_staged (map (setting_for dscp class_id) flows) c)
unfolding stage_iptables_for_flow
stage_matched dscp class_id [] c n h = ap some (sym (with_staged-nil c))
stage_matched dscp class_id (f ∷ flows) c n h = elim (Bool-cases (is_blank class_id)) [
  | inl e ↦ cc (n e)
  | inr e ↦ rw e (stage_flows_lem dscp class_id (f ∷ flows) c h)
]

stage_priority :
    (dscp : Bytes) (p : Priority) (c : Controller)
    → IsReady p
    → stage_iptables_for_flow p.matched dscp p.class_id c
      ≡ some (with_staged (priority_settings dscp p) c)
stage_priority dscp p c r = stage_matched dscp p.class_id p.matched c r.named r.ports

stage_sys_lem :
    (config : HostEnforcerConfig) (sys : FlowSys) (c : Controller)
    → IsReadySys sys
    → stage_sys config sys c ≡ some (with_staged (sys_settings config sys) c)
unfolding stage_sys
stage_sys_lem config sys c r = elim (Bool-cases (is_unready sys.hipri)) [
  | inl e ↦ rw e (ap some (sym (with_staged-nil c)))
  | inr e ↦
      let hi = priority_settings config.dscp_hipri sys.hipri in
      let lo = priority_settings config.dscp_lopri sys.lopri in
      rw e (
        rw (stage_priority config.dscp_hipri sys.hipri c r.0)
          (elim (Bool-cases (is_unready sys.lopri)) [
            | inl u ↦ rw u (ap (λ l. some (with_staged l c)) (sym (append-nil hi)))
            | inr u ↦ rw u (
                stage_priority config.dscp_lopri sys.lopri (with_staged hi c) r.1
                ∙ ap some (with_staged-append hi lo c))
          ]))
]

-- The second stage runs to its end, and stages the settings of the bundle's flows, in order.
pub stage_allocs_lem :
    (config : HostEnforcerConfig) (info : SysInfo) (bundle : List FlowAlloc) (c : Controller)
    → All (λ a. IsThere a.flow info) bundle
    → All (λ e. IsReadySys e.1) info
    → stage_allocs config info bundle c ≡ some (with_staged (bundle_settings config info bundle) c)
unfolding stage_allocs bundle_settings get_sys_info
stage_allocs_lem config info [] c t r = ap some (sym (with_staged-nil c))
stage_allocs_lem config info (a ∷ bundle) c ((sys, q), t) r =
    let one = stage_sys_lem config sys c (All-lookup IsReadySys a.flow sys info q r) in
    let rest = stage_allocs_lem config info bundle (with_staged (sys_settings config sys) c) t r in
    rw q (
      rw one (
        rest
        ∙ ap some
            (with_staged-append (sys_settings config sys) (bundle_settings config info bundle) c)))
