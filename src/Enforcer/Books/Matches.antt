-- ===== src/Enforcer/Books/Matches.antt =====
-- Which flows the entries of heyp/host-agent/linux-enforcer/enforcer.cc hold after a call of
-- `EnforceAllocs`, and what the call hands to `iptables-restore`.
use heyp_agents.Prelude.Text.{Bytes}
use heyp_agents.Prelude.Maps.{same_key, lookup, assign, lookup-assign_if, lookup-common}
use heyp_agents.Prelude.{
  Bool, List, [], ◌∷◌, ◌++◌, Option, none, some, if◌then◌else◌, ◌≡◌, inl, inr, refl, ap, sym, ◌∙◌,
  Option-cases, Bool-cases,
}
use heyp_agents.Markers.{FlowMarker}
use heyp_agents.Iptables.Controller.{Status, ok, internal_error, Request}
use heyp_agents.Enforcer.{
  HostEnforcerConfig, FlowAlloc, MatchedHostFlows, FlowSys, SysInfo, sys_keys, get_sys_info,
  get_or_create_sys_info, put_sys_info,
}
use heyp_agents.Enforcer.Traffic.{PriorityPtr, Pri, k_hipri, k_lopri, Staging, TcLine}
use heyp_agents.Enforcer.Early.{
  Env, Event, tc_batch, tc_class_show, ipt_restore, early_sys, early_alloc, early_allocs,
  mark_created, set_created, with_created, priority_of, learn, batch_events, show_events,
}
use heyp_agents.Enforcer.Allocs.{late_sys, late_allocs, restore_events}
use heyp_agents.Enforcer.Books.{early_update-matched, late_update-matched}

-- The flows of an entry at HIPRI and at LOPRI.
abbrev pub matched_of : Option FlowSys → List FlowMarker × List FlowMarker
matched_of none = ([], [])
matched_of (some sys) = (sys.hipri.matched, sys.lopri.matched)

-- Entries go by the flow without its job.
abbrev pub same_entry : FlowMarker → FlowMarker → Bool
same_entry flow j = same_key (record flow { job = [] }) j

abbrev pub answer :
    Option MatchedHostFlows → List FlowMarker × List FlowMarker → List FlowMarker × List FlowMarker
answer none old = old
answer (some m) old = (m.hipri, m.lopri)

-- What the matcher answers to the last allocation of a bundle that is for an entry.
abbrev pub last_match :
    Env
    → List FlowAlloc
    → FlowMarker
    → List FlowMarker × List FlowMarker
    → List FlowMarker × List FlowMarker
last_match env [] j old = old
last_match env (a ∷ bundle) j old =
    last_match env bundle j
      (if same_entry a.flow j then answer (env.match_host_flows a) old else old)

early_sys-matched :
    (config : HostEnforcerConfig) (a : FlowAlloc) (m : MatchedHostFlows) (sys : FlowSys)
    (st : Staging)
    → matched_of (some (early_sys config a m sys st).0) ≡ (m.hipri, m.lopri)
unfolding early_sys
early_sys-matched config a m sys st =
    rw (early_update-matched config _ _ _ st, early_update-matched config _ _ _ _) refl

early_alloc-matched :
    (env : Env) (config : HostEnforcerConfig) (a : FlowAlloc) (info : SysInfo) (st : Staging)
    (s : SysInfo × Staging) (j : FlowMarker)
    → early_alloc env config a (info, st) ≡ some s
    → matched_of (lookup j s.0) ≡ (
        if same_entry a.flow j
        then answer (env.match_host_flows a) (matched_of (lookup j info))
        else matched_of (lookup j info))
unfolding early_alloc put_sys_info
early_alloc-matched env config a info st s j e = elim (Option-cases (env.match_host_flows a)) [
  | inl q ↦ cc (rw q at e)
  | inr (m, q) ↦
      let sys = (early_sys config a m (get_or_create_sys_info a.flow info) st).0 in
      let key = record (a.flow) { job = [] } in
      let same : s.0 ≡ assign key sys info = cc (rw q at e) in
      let put =
        ap (λ i. matched_of (lookup j i)) same ∙ ap matched_of (lookup-assign_if j key sys info) in
      let found = early_sys-matched config a m (get_or_create_sys_info a.flow info) st in
      elim (Bool-cases (same_entry a.flow j)) [
        | inl b ↦ rw (b, q) ((rw b at put) ∙ found)
        | inr b ↦ rw b (rw b at put)
      ]
]

pub early_allocs-matched :
    (env : Env) (config : HostEnforcerConfig) (bundle : List FlowAlloc) (info : SysInfo)
    (st : Staging) (s : SysInfo × Staging) (j : FlowMarker)
    → early_allocs env config bundle (info, st) ≡ some s
    → matched_of (lookup j s.0) ≡ last_match env bundle j (matched_of (lookup j info))
unfolding early_allocs
early_allocs-matched env config [] info st s j e =
    let same : s.0 ≡ info = cc in ap (λ i. matched_of (lookup j i)) same
early_allocs-matched env config (a ∷ bundle) info st s j e =
    elim (Option-cases (early_alloc env config a (info, st))) [
      | inl q ↦ cc (rw q at e)
      | inr (s1, q) ↦
          early_allocs-matched env config bundle (s1.0) (s1.1) s j (rw q at e)
          ∙ ap (last_match env bundle j) (early_alloc-matched env config a info st s1 j q)
    ]

with_created-matched :
    (pri : Pri) (sys : FlowSys) → matched_of (some (with_created pri sys)) ≡ matched_of (some sys)
with_created-matched k_hipri sys = refl
with_created-matched k_lopri sys = refl

-- A write to an entry that keeps its flows.
assign-matched :
    (k j : FlowMarker) (old sys : FlowSys) (info : SysInfo)
    → lookup k info ≡ some old
    → matched_of (some sys) ≡ matched_of (some old)
    → matched_of (lookup j (assign k sys info)) ≡ matched_of (lookup j info)
assign-matched k j old sys info q h =
    let put = ap matched_of (lookup-assign_if j k sys info) in
    elim (Bool-cases (same_key k j)) [
      | inl b ↦ (rw b at put) ∙ h ∙ sym (ap matched_of (sym (lookup-common k j info b) ∙ q))
      | inr b ↦ rw b at put
    ]

set_created-matched :
    (found : Bytes → Bool) (ptr : PriorityPtr) (o : Option FlowSys) (info : SysInfo)
    (j : FlowMarker)
    → lookup ptr.flow info ≡ o
    → matched_of (lookup j (set_created found ptr o info)) ≡ matched_of (lookup j info)
set_created-matched found ptr none info j q = refl
set_created-matched found ptr (some sys) info j q =
    elim (Bool-cases (found (priority_of ptr.pri sys).class_id)) [
      | inl b ↦ rw b (
          assign-matched ptr.flow j sys (with_created ptr.pri sys) info q
            (with_created-matched ptr.pri sys))
      | inr b ↦ rw b refl
    ]

mark_created-matched :
    (found : Bytes → Bool) (ptrs : List PriorityPtr) (info : SysInfo) (j : FlowMarker)
    → matched_of (lookup j (mark_created found ptrs info)) ≡ matched_of (lookup j info)
unfolding mark_created
mark_created-matched found [] info j = refl
mark_created-matched found (ptr ∷ ptrs) info j =
    mark_created-matched found ptrs (set_created found ptr (lookup ptr.flow info) info) j
    ∙ set_created-matched found ptr (lookup ptr.flow info) info j refl

pub learn-matched :
    (st show : Status) (raw_out : Bytes) (ptrs : List PriorityPtr) (info : SysInfo) (j : FlowMarker)
    → matched_of (lookup j (learn st show raw_out ptrs info)) ≡ matched_of (lookup j info)
learn-matched ok show raw_out ptrs info j = mark_created-matched _ ptrs info j
learn-matched (internal_error m) ok raw_out ptrs info j = mark_created-matched _ ptrs info j
learn-matched (internal_error m) (internal_error m') raw_out ptrs info j = refl

late_sys-matched :
    (config : HostEnforcerConfig) (sys : FlowSys) (st : Staging)
    → matched_of (some (late_sys config sys st).0) ≡ matched_of (some sys)
unfolding late_sys
late_sys-matched config sys st =
    rw (late_update-matched config sys.hipri st, late_update-matched config sys.lopri _) refl

pub late_allocs-matched :
    (config : HostEnforcerConfig) (bundle : List FlowAlloc) (info : SysInfo) (st : Staging)
    (s : SysInfo × Staging) (j : FlowMarker)
    → late_allocs config bundle (info, st) ≡ some s
    → matched_of (lookup j s.0) ≡ matched_of (lookup j info)
unfolding late_allocs get_sys_info
late_allocs-matched config [] info st s j h =
    let e : s.0 ≡ info = cc in ap (λ i. matched_of (lookup j i)) e
late_allocs-matched config (a ∷ bundle) info st s j h = elim (Option-cases (lookup a.flow info)) [
  | inl q ↦ cc (rw q at h)
  | inr (sys, q) ↦
      let next = late_sys config sys st in
      late_allocs-matched config bundle (assign a.flow (next.0) info) (next.1) s j (rw q at h)
      ∙ assign-matched a.flow j sys (next.0) info q (late_sys-matched config sys st)
]

-- What is handed to `iptables-restore`.
abbrev pub sent_request : List Event → Option Request
sent_request [] = none
sent_request (tc_batch lines ∷ events) = sent_request events
sent_request (tc_class_show ∷ events) = sent_request events
sent_request (ipt_restore r ∷ events) = some r

batch_events-sent :
    (lines : List TcLine) (events : List Event)
    → sent_request (batch_events lines ++ events) ≡ sent_request events
batch_events-sent [] events = refl
batch_events-sent (l ∷ lines) events = refl

show_events-sent :
    (st : Status) (events : List Event)
    → sent_request (show_events st ++ events) ≡ sent_request events
show_events-sent ok events = refl
show_events-sent (internal_error m) events = refl

pub early-sent :
    (lines : List TcLine) (st : Status) (events : List Event)
    → sent_request ((batch_events lines ++ show_events st) ++ events) ≡ sent_request events
early-sent [] st events = show_events-sent st events
early-sent (l ∷ lines) st events = show_events-sent st events

pub restore-sent :
    (o : Option Request) (lines : List TcLine)
    → (sent_request (restore_events o) ≡ o)
      × (sent_request (restore_events o ++ batch_events lines) ≡ o)
restore-sent none [] = (refl, refl)
restore-sent none (l ∷ lines) = (refl, refl)
restore-sent (some r) lines = (refl, refl)
