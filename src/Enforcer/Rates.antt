-- ===== src/Enforcer/Rates.antt =====
-- The rate of one class under the calls of `EnforceAllocs` of
-- heyp/host-agent/linux-enforcer/enforcer.cc, for one flow at one priority.
use heyp_agents.Prelude.{
  ℕ, ◌≤◌, max, ltb, Bool, true, false, List, [], ◌∷◌, if◌then◌else◌, ◌==◌, ◌≡◌, refl, ap, ◌∙◌,
  arith,
}
use heyp_agents.Markers.{FlowMarker, is_blank}
use heyp_agents.Enforcer.{HostEnforcerConfig, Priority}
use heyp_agents.Enforcer.Traffic.{
  TcLine, class_add, class_change, netem_add, PriorityPtr, Staging, stage_traffic_control_for_flow,
  early_update, late_update,
}

-- The rate that `tc` gives a class, where 0 says that there is none: adding fails where there is
-- one, and changing where there is none.
abbrev pub rate_after : TcLine → ℕ → ℕ
rate_after (class_add class_id rate) k = if k == 0 then rate else k
rate_after (class_change class_id rate) k = if k == 0 then 0 else rate
rate_after (netem_add class_id netem) k = k

abbrev pub rates_after : List TcLine → ℕ → ℕ
rates_after [] k = k
rates_after (l ∷ lines) k = rates_after lines (rate_after l k)

-- Parts of a call for one priority: the flows matched and the early update, and the late one.
abbrev pub early_call :
    HostEnforcerConfig → PriorityPtr → ℕ → List FlowMarker → Priority → Staging → Priority × Staging
early_call config ptr limit matched p st =
    early_update config ptr limit (record p { matched = matched }) st

-- A class that there is: its rate is the recorded limit, or more where it is to be lowered yet.
pub record IsRated (config : HostEnforcerConfig) (p : Priority) (k : ℕ) : Type 0 where
  pub exists : p.did_create_class ≡ true
  pub named : is_blank p.class_id ≡ false
  pub some_rate : 1 ≤ k
  pub enough : max p.cur_rate_limit_bps config.min_rate_limit_bps ≤ k
  pub exact :
      p.update_after_ipt_change ≡ false → k ≡ max p.cur_rate_limit_bps config.min_rate_limit_bps

abbrev rated : HostEnforcerConfig → ℕ → ℕ
rated config limit = max limit config.min_rate_limit_bps

abbrev change_line : HostEnforcerConfig → Priority → ℕ → List TcLine
change_line config p limit = class_change p.class_id (rated config limit) ∷ []

abbrev early_lines : HostEnforcerConfig → ℕ → Priority → List TcLine
early_lines config limit p =
    if ltb p.cur_rate_limit_bps limit then change_line config p limit else []

abbrev late_lines : HostEnforcerConfig → Priority → List TcLine
late_lines config p =
    if p.update_after_ipt_change then change_line config p p.cur_rate_limit_bps else []

abbrev flag_after : ℕ → Priority → Bool
flag_after limit p =
    if ltb p.cur_rate_limit_bps limit
    then false
    else if ltb limit p.cur_rate_limit_bps
    then true
    else p.update_after_ipt_change

-- A call for one priority, where the commit to iptables succeeds.
abbrev pub one_call :
    HostEnforcerConfig → PriorityPtr → ℕ × List FlowMarker → Priority × Staging → Priority × Staging
one_call config ptr (limit, matched) (p, st) =
    let early = early_call config ptr limit matched p st in late_update config (early.0) (early.1)

unfoldable pub calls_on :
    HostEnforcerConfig
    → PriorityPtr
    → List (ℕ × List FlowMarker)
    → Priority × Staging
    → Priority × Staging
calls_on config ptr [] s = s
calls_on config ptr (c ∷ calls) s = calls_on config ptr calls (one_call config ptr c s)

one_call-unmatched :
    (config : HostEnforcerConfig) (ptr : PriorityPtr) (limit : ℕ) (p : Priority) (st : Staging)
    → p.did_create_class ≡ true
    → is_blank p.class_id ≡ false
    → one_call config ptr (limit, []) (p, st)
      ≡ (record p { matched = []; cur_rate_limit_bps = limit; update_after_ipt_change = false }, st)
unfolding early_update late_update stage_traffic_control_for_flow
one_call-unmatched config ptr limit p st c n = ground arith

one_call-same_limit :
    (config : HostEnforcerConfig) (ptr : PriorityPtr) (matched : List FlowMarker) (p : Priority)
    (st : Staging)
    → p.update_after_ipt_change ≡ false
    → is_blank p.class_id ≡ false
    → one_call config ptr (p.cur_rate_limit_bps, matched) (p, st)
      ≡ (record p { matched = matched }, st)
unfolding early_update late_update stage_traffic_control_for_flow
one_call-same_limit config ptr matched p st c n = ground arith

-- A class stays at an old limit: where a limit is set while no flow is matched, and set again for
-- flows that are, no line for `tc` is sent, whatever rate the class had.
pub calls_on-stale :
    (config : HostEnforcerConfig) (ptr : PriorityPtr) (limit : ℕ) (matched : List FlowMarker)
    (p : Priority) (st : Staging)
    → p.did_create_class ≡ true
    → is_blank p.class_id ≡ false
    → let r = calls_on config ptr ((limit, []) ∷ (limit, matched) ∷ []) (p, st) in
      (r.1.tc_batch_input ≡ st.tc_batch_input)
      × (r.0.cur_rate_limit_bps ≡ limit)
      × (r.0.matched ≡ matched)
unfolding calls_on
calls_on-stale config ptr limit matched p st c n =
    let p' : Priority = record p {
      matched = [];
      cur_rate_limit_bps = limit;
      update_after_ipt_change = false;
    } in
    let e =
      ap (one_call config ptr (limit, matched)) (one_call-unmatched config ptr limit p st c n)
      ∙ one_call-same_limit config ptr matched p' st refl n in
    (
      ap (λ (r : Priority × Staging). r.1.tc_batch_input) e,
      ap (λ (r : Priority × Staging). r.0.cur_rate_limit_bps) e,
      ap (λ (r : Priority × Staging). r.0.matched) e,
    )
