-- ===== src/Enforcer/Books/Uncreated.antt =====
-- A HIPRI class that `tc` failed to add, over a call of `EnforceAllocs` of
-- heyp/host-agent/linux-enforcer/enforcer.cc.
use heyp_agents.Prelude.Text.{Bytes}
use heyp_agents.Prelude.Maps.{same_key, lookup, assign, lookup-assign_if, lookup-common}
use heyp_agents.Prelude.{
  ℕ, ◌≤◌, Bool, true, false, List, [], ◌∷◌, ◌++◌, Option, none, some, All, ◌≡◌, ◌⊎◌, inl, inr, refl,
  sym, subst, ◌∙◌, arith, Option-cases, Bool-cases,
}
use mathlib.Core.List.{append-nil}
use heyp_agents.Markers.{FlowMarker, is_blank, is_same_flow}
use heyp_agents.Markers.Laws.{marker_keys}
use heyp_agents.Iptables.Controller.{Status, ok, internal_error, Controller, Outcome}
use heyp_agents.Enforcer.{
  HostEnforcerConfig, FlowAlloc, Priority, FlowSys, SysInfo, sys_keys, get_sys_info,
  LinuxHostEnforcer, get_or_create_sys_info, put_sys_info,
}
use heyp_agents.Enforcer.Traffic.{
  PriorityPtr, k_hipri, k_lopri, Staging, new_staging, early_update, late_update, with_class_id,
  stage_traffic_control_for_flow,
}
use heyp_agents.Enforcer.Early.{
  Env, limit_of, early_sys, early_alloc, early_allocs, mark_created, set_created, with_created,
  priority_of, learn, Event, batch_status,
}
use heyp_agents.Enforcer.Allocs.{
  Enforced, late_sys, late_allocs, finish, stage_allocs, enforce_allocs,
}

-- The class has an id but is not marked as created, and the limit on record is `limit` or more.
abbrev pub IsUncreated : ℕ → Priority → Type 0
IsUncreated limit p =
    (p.did_create_class ≡ false) × (is_blank p.class_id ≡ false) × (limit ≤ p.cur_rate_limit_bps)

-- The entry of a flow, whose HIPRI class is such.
abbrev pub HasUncreated : ℕ → FlowMarker → SysInfo → Type 0
HasUncreated limit flow info =
    (sys : FlowSys) × (lookup flow info ≡ some sys) × IsUncreated limit sys.hipri

-- The allocations for the entry have this HIPRI limit.
abbrev pub HasLimit : HostEnforcerConfig → ℕ → FlowMarker → FlowAlloc → Type 0
HasLimit config limit flow a =
    same_key a.flow flow ≡ true → limit_of config.limit_hipri a.hipri_rate_limit_bps ≡ limit

-- A pointer that is not to the HIPRI class of the entry.
abbrev IsOther : FlowMarker → PriorityPtr → Type 0
IsOther flow ptr = (same_key ptr.flow flow ≡ false) ⊎ (ptr.pri ≡ k_lopri)

early_update-IsUncreated :
    (config : HostEnforcerConfig) (ptr : PriorityPtr) (limit : ℕ) (p : Priority) (st : Staging)
    → IsUncreated limit p
    → let r = early_update config ptr limit p st in
      IsUncreated limit r.0 × (r.1.classes_to_create ≡ st.classes_to_create)
unfolding early_update stage_traffic_control_for_flow
early_update-IsUncreated config ptr limit p st h = ground arith

early_update-pointed :
    (config : HostEnforcerConfig) (ptr : PriorityPtr) (limit : ℕ) (p : Priority) (st : Staging)
    → let r = early_update config ptr limit p st in
      (r.1.classes_to_create ≡ st.classes_to_create)
      ⊎ (r.1.classes_to_create ≡ st.classes_to_create ++ ptr ∷ [])
unfolding early_update stage_traffic_control_for_flow with_class_id
early_update-pointed config ptr limit p st = ground (arith, append-nil st.classes_to_create)

late_update-IsUncreated :
    (config : HostEnforcerConfig) (limit : ℕ) (p : Priority) (st : Staging)
    → IsUncreated limit p
    → IsUncreated limit (late_update config p st).0
unfolding late_update stage_traffic_control_for_flow with_class_id
late_update-IsUncreated config limit p st h = ground arith

All-snoc :
    (P : PriorityPtr → Type 0) (l : List PriorityPtr) (x : PriorityPtr)
    → All P l
    → P x
    → All P (l ++ x ∷ [])
All-snoc P [] x h k = (k, tt)
All-snoc P (y ∷ l) x h k = (h.0, All-snoc P l x h.1 k)

early_update-All :
    (P : PriorityPtr → Type 0) (config : HostEnforcerConfig) (ptr : PriorityPtr) (limit : ℕ)
    (p : Priority) (st : Staging)
    → All P st.classes_to_create
    → P ptr
    → All P (early_update config ptr limit p st).1.classes_to_create
early_update-All P config ptr limit p st h k = elim (early_update-pointed config ptr limit p st) [
  | inl e ↦ subst (All P) (sym e) h
  | inr e ↦ subst (All P) (sym e) (All-snoc P st.classes_to_create ptr h k)
]

-- What the loops of a call keep: the entry's class, and that no pointer is to it.
abbrev Untouched : ℕ → FlowMarker → SysInfo × Staging → Type 0
Untouched limit flow s = HasUncreated limit flow s.0 × All (IsOther flow) s.1.classes_to_create

assign-HasUncreated :
    (limit : ℕ) (flow k : FlowMarker) (sys : FlowSys) (info : SysInfo)
    → HasUncreated limit flow info
    → (same_key k flow ≡ true → IsUncreated limit sys.hipri)
    → HasUncreated limit flow (assign k sys info)
assign-HasUncreated limit flow k sys info (old, q, h) n = elim (Bool-cases (same_key k flow)) [
  | inl e ↦ (sys, lookup-assign_if flow k sys info ∙ rw e refl, n e)
  | inr e ↦ (old, lookup-assign_if flow k sys info ∙ rw e q, h)
]

-- An entry that is found is the one that is there.
found_lem :
    (limit : ℕ) (flow k : FlowMarker) (sys : FlowSys) (info : SysInfo)
    → HasUncreated limit flow info
    → lookup k info ≡ some sys
    → same_key k flow ≡ true
    → IsUncreated limit sys.hipri
found_lem limit flow k sys info (old, q, h) p e =
    let same : sys ≡ old = cc (sym p ∙ lookup-common k flow info e ∙ q) in
    subst (λ (s : FlowSys). IsUncreated limit s.hipri) (sym same) h

late_allocs-Uncreated :
    (config : HostEnforcerConfig) (limit : ℕ) (flow : FlowMarker) (bundle : List FlowAlloc)
    (info : SysInfo) (st : Staging) (s : SysInfo × Staging)
    → late_allocs config bundle (info, st) ≡ some s
    → HasUncreated limit flow info
    → HasUncreated limit flow s.0
unfolding late_allocs get_sys_info late_sys
late_allocs-Uncreated config limit flow [] info st s q h =
    let e : info ≡ s.0 = cc in subst (HasUncreated limit flow) e h
late_allocs-Uncreated config limit flow (a ∷ bundle) info st s q h =
    elim (Option-cases (lookup a.flow info)) [
      | inl p ↦ cc (rw p at q)
      | inr (sys, p) ↦
          let next = late_sys config sys st in
          late_allocs-Uncreated config limit flow bundle (assign a.flow (next.0) info) (next.1) s
            (rw p at q)
            (assign-HasUncreated limit flow a.flow (next.0) info h (λ e.
              late_update-IsUncreated config limit sys.hipri st
                (found_lem limit flow a.flow sys info h p e)))
    ]

set_created-Uncreated :
    (found : Bytes → Bool) (limit : ℕ) (flow : FlowMarker) (ptr : PriorityPtr) (o : Option FlowSys)
    (info : SysInfo)
    → lookup ptr.flow info ≡ o
    → IsOther flow ptr
    → HasUncreated limit flow info
    → HasUncreated limit flow (set_created found ptr o info)
set_created-Uncreated found limit flow ptr none info p n h = h
set_created-Uncreated found limit flow ptr (some sys) info p n h =
    elim (Bool-cases (found (priority_of ptr.pri sys).class_id)) [
      | inl e ↦ rw e (
          assign-HasUncreated limit flow ptr.flow (with_created ptr.pri sys) info h (λ k. elim n [
            | inl m ↦ cc (k, m)
            | inr m ↦
                subst (λ pri. IsUncreated limit (with_created pri sys).hipri) (sym m)
                  (found_lem limit flow ptr.flow sys info h p k)
          ]))
      | inr e ↦ rw e h
    ]

mark_created-Uncreated :
    (found : Bytes → Bool) (limit : ℕ) (flow : FlowMarker) (ptrs : List PriorityPtr)
    (info : SysInfo)
    → All (IsOther flow) ptrs
    → HasUncreated limit flow info
    → HasUncreated limit flow (mark_created found ptrs info)
unfolding mark_created
mark_created-Uncreated found limit flow [] info n h = h
mark_created-Uncreated found limit flow (ptr ∷ ptrs) info n h =
    mark_created-Uncreated found limit flow ptrs _ n.1
      (set_created-Uncreated found limit flow ptr (lookup ptr.flow info) info refl n.0 h)

learn-Uncreated :
    (st show : Status) (raw_out : Bytes) (limit : ℕ) (flow : FlowMarker) (ptrs : List PriorityPtr)
    (info : SysInfo)
    → All (IsOther flow) ptrs
    → HasUncreated limit flow info
    → HasUncreated limit flow (learn st show raw_out ptrs info)
learn-Uncreated ok show raw_out limit flow ptrs info n h =
    mark_created-Uncreated _ limit flow ptrs info n h
learn-Uncreated (internal_error m) ok raw_out limit flow ptrs info n h =
    mark_created-Uncreated _ limit flow ptrs info n h
learn-Uncreated (internal_error m) (internal_error m') raw_out limit flow ptrs info n h = h

same_key-no_job : (k flow : FlowMarker) → same_key (record k { job = [] }) flow ≡ same_key k flow
unfolding sys_keys marker_keys is_same_flow
same_key-no_job k flow = refl

get_or_create-Uncreated :
    (limit : ℕ) (flow k : FlowMarker) (info : SysInfo)
    → HasUncreated limit flow info
    → same_key k flow ≡ true
    → IsUncreated limit (get_or_create_sys_info k info).hipri
unfolding get_or_create_sys_info
get_or_create-Uncreated limit flow k info (old, q, h) e = rw (lookup-common k flow info e ∙ q) h

early_alloc-Untouched :
    (env : Env) (config : HostEnforcerConfig) (limit : ℕ) (flow : FlowMarker) (a : FlowAlloc)
    (info : SysInfo) (st : Staging) (s : SysInfo × Staging)
    → HasLimit config limit flow a
    → early_alloc env config a (info, st) ≡ some s
    → Untouched limit flow (info, st)
    → Untouched limit flow s
unfolding early_alloc early_sys put_sys_info
early_alloc-Untouched env config limit flow a info st s n q h =
    elim (Option-cases (env.match_host_flows a)) [
      | inl p ↦ cc (rw p at q)
      | inr (m, p) ↦
          let sys = get_or_create_sys_info a.flow info in
          let hi_limit = limit_of config.limit_hipri a.hipri_rate_limit_bps in
          let lo_limit = limit_of config.limit_lopri a.lopri_rate_limit_bps in
          let hi_ptr : PriorityPtr = record { flow = a.flow; pri = k_hipri } in
          let lo_ptr : PriorityPtr = record { flow = a.flow; pri = k_lopri } in
          let hi =
            early_update config hi_ptr hi_limit (record (sys.hipri) { matched = m.hipri }) st in
          let lo =
            early_update config lo_ptr lo_limit (record (sys.lopri) { matched = m.lopri }) (hi.1) in
          let after : SysInfo × Staging = (
            assign (record (a.flow) { job = [] }) (record { hipri = hi.0; lopri = lo.0 }) info,
            lo.1,
          ) in
          let e : after ≡ s = cc (rw p at q) in
          let raised : same_key a.flow flow ≡ true
              → IsUncreated limit hi.0 × (hi.1.classes_to_create ≡ st.classes_to_create) =
            λ k.
              subst
                (λ l.
                  let r =
                    early_update config hi_ptr l (record (sys.hipri) { matched = m.hipri }) st in
                  IsUncreated limit r.0 × (r.1.classes_to_create ≡ st.classes_to_create))
                (sym (n k))
                (early_update-IsUncreated config hi_ptr limit
                  (record (sys.hipri) { matched = m.hipri }) st
                  (get_or_create-Uncreated limit flow a.flow info h.0 k)) in
          let others : All (IsOther flow) hi.1.classes_to_create =
            elim (Bool-cases (same_key a.flow flow)) [
              | inl k ↦ subst (All (IsOther flow)) (sym (raised k).1) h.1
              | inr k ↦ early_update-All (IsOther flow) config hi_ptr hi_limit _ st h.1 (inl k)
            ] in
          subst (Untouched limit flow) e (
            assign-HasUncreated limit flow (record (a.flow) { job = [] }) _ info h.0
                (λ k. (raised (sym (same_key-no_job a.flow flow) ∙ k)).0),
            early_update-All (IsOther flow) config lo_ptr lo_limit _ (hi.1) others (inr refl),
          )
    ]

early_allocs-Untouched :
    (env : Env) (config : HostEnforcerConfig) (limit : ℕ) (flow : FlowMarker)
    (bundle : List FlowAlloc) (info : SysInfo) (st : Staging) (s : SysInfo × Staging)
    → All (HasLimit config limit flow) bundle
    → early_allocs env config bundle (info, st) ≡ some s
    → Untouched limit flow (info, st)
    → Untouched limit flow s
unfolding early_allocs
early_allocs-Untouched env config limit flow [] info st s n q h =
    let e : (info, st) ≡ s = cc in subst (Untouched limit flow) e h
early_allocs-Untouched env config limit flow (a ∷ bundle) info st s n q h =
    elim (Option-cases (early_alloc env config a (info, st))) [
      | inl p ↦ cc (rw p at q)
      | inr (s1, p) ↦
          early_allocs-Untouched env config limit flow bundle (s1.0) (s1.1) s n.1 (rw p at q)
            (early_alloc-Untouched env config limit flow a info st s1 n.0 p h)
    ]

finish-Uncreated :
    (limit : ℕ) (flow : FlowMarker) (bundle : List FlowAlloc) (e : LinuxHostEnforcer)
    (c : Controller) (sent : List Event) (o : Outcome) (status : Status) (r : Enforced)
    → HasUncreated limit flow e.sys_info
    → finish bundle e c sent o status ≡ some r
    → HasUncreated limit flow r.state.sys_info
unfolding finish
finish-Uncreated limit flow bundle e c sent o (internal_error m) r h q =
    let same : e.sys_info ≡ r.state.sys_info = cc in subst (HasUncreated limit flow) same h
finish-Uncreated limit flow bundle e c sent o ok r h q =
    elim (Option-cases (late_allocs e.config bundle (e.sys_info, new_staging e.next_class_id))) [
      | inl p ↦ cc (rw p at q)
      | inr (s, p) ↦
          let same : s.0 ≡ r.state.sys_info = cc (rw p at q) in
          subst (HasUncreated limit flow) same (
            late_allocs-Uncreated e.config limit flow bundle e.sys_info
              (new_staging e.next_class_id) s p h)
    ]

-- A call of `EnforceAllocs` that ends, whatever is answered from outside.
pub enforce_allocs-Uncreated :
    (env : Env) (limit : ℕ) (flow : FlowMarker) (bundle : List FlowAlloc) (e : LinuxHostEnforcer)
    (r : Enforced)
    → All (HasLimit e.config limit flow) bundle
    → HasUncreated limit flow e.sys_info
    → enforce_allocs env bundle e ≡ some r
    → HasUncreated limit flow r.state.sys_info
unfolding enforce_allocs
enforce_allocs-Uncreated env limit flow bundle e r n h q =
    elim (Option-cases
      (early_allocs env e.config bundle (e.sys_info, new_staging e.next_class_id))) [
        | inl p ↦ cc (rw p at q)
        | inr (s, p) ↦
            let q1 = rw p at q in
            let u =
              early_allocs-Untouched env e.config limit flow bundle e.sys_info
                (new_staging e.next_class_id) s n p (h, tt) in
            let lines = s.1.tc_batch_input in
            let st = batch_status env e.device e.config lines in
            let info = learn st env.class_show env.raw_out s.1.classes_to_create s.0 in
            let learnt =
              learn-Uncreated st env.class_show env.raw_out limit flow s.1.classes_to_create (s.0)
                u.1 u.0 in
            elim (Option-cases (stage_allocs e.config info bundle e.ipt_controller)) [
              | inl t ↦ cc (rw t at q1)
              | inr (c, t) ↦
                  finish-Uncreated limit flow bundle
                    (record e { sys_info = info; next_class_id = s.1.next_class_id }) c _ _ _ r
                    learnt (rw t at q1)
            ]
      ]
