-- ===== src/Enforcer/History.antt =====
-- The enforcer of heyp/host-agent/linux-enforcer/enforcer.cc over time, beside the `mangle` table of
-- the kernel that its commits change.
use heyp_agents.Prelude.Text.{Bytes}
use heyp_agents.Prelude.{List, [], ◌∷◌, Option, some, All, ◌≡◌, refl}
use heyp_agents.Iptables.Setting.{Setting}
use heyp_agents.Iptables.Controller.{Controller, Runner, Request, Status, ok}
use heyp_agents.Iptables.Controller.Kernel.{Kernel, Restored, wanted}
use heyp_agents.Iptables.Controller.History.{System, IsSynced, initial-IsSynced}
use heyp_agents.Markers.{FlowMarker}
use heyp_agents.Prelude.{none}
use heyp_agents.Prelude.Maps.{lookup}
use heyp_agents.Enforcer.{sys_keys}
use heyp_agents.Enforcer.Books.Matches.{sent_request, matched_of, last_match}
use heyp_agents.Enforcer.{HostEnforcerConfig, FlowAlloc, LinuxHostEnforcer}
use heyp_agents.Enforcer.Early.{◌>>=◌, Env}
use heyp_agents.Enforcer.Allocs.{Enforced, enforce_allocs}
use heyp_agents.Enforcer.WanSetup.{new_linux_host_enforcer}
use heyp_agents.Enforcer.WanSetup.Start.{new_linux_host_enforcer-IsBooked}
use heyp_agents.Enforcer.Books.{Fits}
use heyp_agents.Enforcer.Books.Staged.{bundle_settings}
use heyp_agents.Enforcer.Books.Runs.{IsBooked, enforce_allocs-Enforces}

-- An enforcer, and how often each rule stands in the table.
pub record Machine : Type 0 where
  pub enforcer : LinuxHostEnforcer
  pub installed : Kernel

abbrev pub status_of : Runner → Option Request → Status
status_of runner none = ok
status_of runner (some r) = runner r

-- A call of `EnforceAllocs`: the table changes as the text that the call sends makes it.
abbrev pub EnforcesOn : Env → List FlowAlloc → Machine → Machine → Type 0
EnforcesOn env bundle m m' =
    (r : Enforced) × (enforce_allocs env bundle m.enforcer ≡ some r)
    × (m'.enforcer ≡ r.state)
    × Restored m.enforcer.ipt_controller.dev (sent_request r.events)
        (status_of env.runner (sent_request r.events)) m.installed m'.installed

abbrev pub system_of : Machine → System
system_of m = record { controller = m.enforcer.ipt_controller; installed = m.installed }

-- The enforcer's books are in order, and those of its controller agree with the table.
pub record IsInStep (m : Machine) : Type 0 where
  pub booked : IsBooked m.enforcer
  pub synced : IsSynced (system_of m)

-- What a call on a machine that is in step does.
pub record Replaces (env : Env) (bundle : List FlowAlloc) (m m' : Machine) : Type 0 where
  pub in_step : IsInStep m'
  pub replaced :
      (text : Bytes)
      → m'.installed text
        ≡ wanted m.enforcer.ipt_controller.dev text
            (bundle_settings m.enforcer.config m'.enforcer.sys_info bundle)
  pub matches :
      (flow : FlowMarker)
      → matched_of (lookup flow m'.enforcer.sys_info)
        ≡ last_match env bundle flow (matched_of (lookup flow m.enforcer.sys_info))

-- Calls of `EnforceAllocs`, one after the other, each with its own answers from outside.
unfoldable pub run_bundles :
    List (Env × List FlowAlloc) → LinuxHostEnforcer → Option LinuxHostEnforcer
unfolding enforce_allocs
run_bundles [] e = some e
run_bundles ((env, bundle) ∷ calls) e = do
  r ← enforce_allocs env bundle e
  run_bundles calls r.state

-- From books that are in order, where the matcher answers each allocation with flows that have valid
-- ports: whatever `tc` and the iptables runner answer, no call stops the process, and after each the
-- books are in order: up to 2^31 classes no two priorities share a class id, a priority without a class id
-- has no matched flow, matched flows have valid ports, and nothing is left staged.
pub run_bundles-IsBooked :
    (calls : List (Env × List FlowAlloc)) (e : LinuxHostEnforcer)
    → All (λ c. All (Fits (c.0)) (c.1)) calls
    → IsBooked e
    → (e' : LinuxHostEnforcer) × (run_bundles calls e ≡ some e') × IsBooked e'
unfolding run_bundles
run_bundles-IsBooked [] e f b = (e, refl, b)
run_bundles-IsBooked ((env, bundle) ∷ calls) e f b =
    let (r, q, n) = enforce_allocs-Enforces env bundle e f.0 b in
    let (e', q', b') = run_bundles-IsBooked calls r.state f.1 n.booked in (e', rw q q', b')

-- A new enforcer over an empty table.
unfoldable pub new_machine : Bytes → HostEnforcerConfig → Machine
unfolding new_linux_host_enforcer
new_machine device config = record {
  enforcer = new_linux_host_enforcer device config;
  installed = λ x. 0;
}

pub new_machine-IsInStep :
    (device : Bytes) (config : HostEnforcerConfig) → IsInStep (new_machine device config)
unfolding new_machine new_linux_host_enforcer
new_machine-IsInStep device config = record {
  booked = new_linux_host_enforcer-IsBooked device config;
  synced = initial-IsSynced device;
}
