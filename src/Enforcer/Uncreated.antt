-- ===== src/Enforcer/Uncreated.antt =====
-- A HIPRI class that `tc` failed to add, over calls of `EnforceAllocs` of
-- heyp/host-agent/linux-enforcer/enforcer.cc.
use heyp_agents.Prelude.{ℕ, ◌≤◌, List, [], ◌∷◌, All}
use heyp_agents.Markers.{FlowMarker}
use heyp_agents.Enforcer.{HostEnforcerConfig, FlowAlloc, sys_keys}
use heyp_agents.Enforcer.Early.{Env}
use heyp_agents.Enforcer.Books.Uncreated.{HasLimit}

-- In each call the allocations for the entry of a flow have one HIPRI limit, which never rises.
abbrev pub NeverRises : HostEnforcerConfig → FlowMarker → ℕ → List (Env × List FlowAlloc) → Type 0
NeverRises config flow cur [] = Unit
NeverRises config flow cur (c ∷ calls) =
    (limit : ℕ) × (limit ≤ cur)
    × All (HasLimit config limit flow) (c.1)
    × NeverRises config flow limit calls
