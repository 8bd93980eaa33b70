-- ===== src/Enforcer/Books/Runs.antt =====
-- Whole calls of `EnforceAllocs` of heyp/host-agent/linux-enforcer/enforcer.cc: they end, keep the
-- books, and stage the settings of the bundle.
use heyp_agents.Prelude.Text.{Bytes}
use heyp_agents.Prelude.Maps.{
  lookup, assign, lookup-assign_if, lookup-common, All-lookup, All-assign,
}
use heyp_agents.Prelude.{
  ℕ, List, [], ◌∷◌, ◌++◌, some, All, All-both, All-every, map, ◌≡◌, inl, inr, refl, ap, sym, ◌∙◌,
  arith, Option-cases,
}
use heyp_agents.Markers.{FlowMarker}
use heyp_agents.Iptables.Controller.{
  Controller, Status, ok, internal_error, Runner, commit_changes, committed, rolled_back,
}
use heyp_agents.Iptables.Controller.Commit.{quiet, changed, failed, commit_changes-Commits}
use heyp_agents.Enforcer.{
  HostEnforcerConfig, FlowAlloc, Priority, FlowSys, SysInfo, sys_keys, LinuxHostEnforcer,
  get_sys_info,
}
use heyp_agents.Enforcer.Traffic.{Staging, new_staging, late_update, stage_traffic_control_for_flow}
use heyp_agents.Enforcer.Early.{Env, Event, learn, batch_status, batch_events}
use heyp_agents.Enforcer.Allocs.{
  Enforced, late_sys, late_allocs, is_unready, finish, enforce_allocs, setting_for, restore_events,
}
use heyp_agents.Enforcer.Books.Ids.{Assigns}
use heyp_agents.Enforcer.Books.{
  IsReady, IsReadySys, HasBooks, IsThere, Fits, late_update-matched, late_update-Assigns,
  late_update-IsReady,
}
use heyp_agents.Enforcer.Books.Calls.{early_allocs-Keeps, learn-Holds, late_allocs-Keeps}
use heyp_agents.Enforcer.Books.Matches.{
  matched_of, last_match, sent_request, early-sent, restore-sent, early_allocs-matched,
  learn-matched, late_allocs-matched,
}
use heyp_agents.Enforcer.Books.Staged.{
  priority_settings, sys_settings, entry_settings, bundle_settings, with_staged, stage_allocs_lem,
}

-- The books of the enforcer between calls: no setting is staged.
pub record IsBooked (e : LinuxHostEnforcer) : Type 0 where
  pub books : HasBooks e.next_class_id e.sys_info
  pub none_staged : e.ipt_controller.staged ≡ []

late_update-created :
    (config : HostEnforcerConfig) (p : Priority) (st : Staging)
    → (late_update config p st).0.did_create_class ≡ p.did_create_class
unfolding late_update stage_traffic_control_for_flow
late_update-created config p st = ground arith

same_settings :
    (dscp : Bytes) (p p' : Priority) (n n' : ℕ)
    → IsReady p
    → Assigns p p' n n'
    → p'.matched ≡ p.matched
    → priority_settings dscp p' ≡ priority_settings dscp p
same_settings dscp p p' n n' r (inl (c, _)) m =
    ap (λ id. map (setting_for dscp id) p'.matched) c ∙ ap (map (setting_for dscp p.class_id)) m
same_settings dscp p p' n n' r (inr (c, _, _)) m =
    ap (map (setting_for dscp p'.class_id)) (m ∙ r.named c)
    ∙ sym (ap (map (setting_for dscp p.class_id)) (r.named c))

late_update-settings :
    (config : HostEnforcerConfig) (dscp : Bytes) (p : Priority) (st : Staging)
    → IsReady p
    → (priority_settings dscp (late_update config p st).0 ≡ priority_settings dscp p)
      × (is_unready (late_update config p st).0 ≡ is_unready p)
late_update-settings config dscp p st r =
    let m = late_update-matched config p st in
    (
      same_settings dscp p (late_update config p st).0 _ _ r (late_update-Assigns config p st) m,
      ground (arith, m, late_update-created config p st),
    )

late_sys-settings :
    (config : HostEnforcerConfig) (sys : FlowSys) (st : Staging)
    → IsReadySys sys
    → sys_settings config (late_sys config sys st).0 ≡ sys_settings config sys
unfolding late_sys
late_sys-settings config sys st r =
    let hi = late_update-settings config config.dscp_hipri sys.hipri st r.0 in
    let lo =
      late_update-settings config config.dscp_lopri sys.lopri (late_update config sys.hipri st).1
        r.1 in
    rw (hi.0, hi.1, lo.0, lo.1) refl

late_sys-IsReadySys :
    (config : HostEnforcerConfig) (sys : FlowSys) (st : Staging)
    → IsReadySys sys
    → IsReadySys (late_sys config sys st).0
unfolding late_sys
late_sys-IsReadySys config sys st r =
    (late_update-IsReady config sys.hipri st r.0, late_update-IsReady config sys.lopri _ r.1)

entry_settings-assign :
    (config : HostEnforcerConfig) (j k : FlowMarker) (old sys : FlowSys) (info : SysInfo)
    → lookup k info ≡ some old
    → sys_settings config sys ≡ sys_settings config old
    → entry_settings config (lookup j (assign k sys info)) ≡ entry_settings config (lookup j info)
entry_settings-assign config j k old sys info h q =
    ground (arith, lookup-assign_if j k sys info, lookup-common k j info)

bundle_settings-same :
    (config : HostEnforcerConfig) (info info' : SysInfo) (bundle : List FlowAlloc)
    → ((j : FlowMarker)
        → entry_settings config (lookup j info') ≡ entry_settings config (lookup j info))
    → bundle_settings config info' bundle ≡ bundle_settings config info bundle
unfolding bundle_settings
bundle_settings-same config info info' [] h = refl
bundle_settings-same config info info' (a ∷ bundle) h =
    rw (h a.flow, bundle_settings-same config info info' bundle h) refl

late_allocs-settings :
    (config : HostEnforcerConfig) (bundle : List FlowAlloc) (info : SysInfo) (st : Staging)
    (s : SysInfo × Staging)
    → late_allocs config bundle (info, st) ≡ some s
    → All (λ e. IsReadySys e.1) info
    → (j : FlowMarker)
    → entry_settings config (lookup j s.0) ≡ entry_settings config (lookup j info)
unfolding late_allocs get_sys_info
late_allocs-settings config [] info st s h r j =
    let e : s.0 ≡ info = cc in ap (λ i. entry_settings config (lookup j i)) e
late_allocs-settings config (a ∷ bundle) info st s h r j =
    elim (Option-cases (lookup a.flow info)) [
      | inl q ↦ cc
      | inr (sys, q) ↦
          let next = late_sys config sys st in
          let ready = All-lookup IsReadySys a.flow sys info q r in
          late_allocs-settings config bundle (assign a.flow (next.0) info) (next.1) s (rw q at h)
            (All-assign IsReadySys a.flow (next.0) info (late_sys-IsReadySys config sys st ready) r)
            j
          ∙ entry_settings-assign config j a.flow sys (next.0) info q
              (late_sys-settings config sys st ready)
    ]

-- What a call of `EnforceAllocs` does, where it ends.
pub record Enforces (env : Env) (bundle : List FlowAlloc) (e : LinuxHostEnforcer) (r : Enforced)
    : Type 0 where
  pub booked : IsBooked r.state
  pub same_config : r.state.config ≡ e.config
  pub stages :
      r.committing
      ≡ with_staged (bundle_settings r.state.config r.state.sys_info bundle) e.ipt_controller
  pub commits : r.state.ipt_controller ≡ (commit_changes env.runner r.committing).state
  pub sends : sent_request r.events ≡ (commit_changes env.runner r.committing).request
  pub matches :
      (j : FlowMarker)
      → matched_of (lookup j r.state.sys_info)
        ≡ last_match env bundle j (matched_of (lookup j e.sys_info))

pub commit_changes-unstages :
    (runner : Runner) (c : Controller) → (commit_changes runner c).state.staged ≡ []
unfolding committed rolled_back
commit_changes-unstages runner c = elim (commit_changes-Commits runner c) [
  | quiet p q e ↦ rw e refl
  | changed r e ↦ rw e refl
  | failed m r e ↦ rw e refl
]

finish-Enforces :
    (env : Env) (bundle : List FlowAlloc) (e e' : LinuxHostEnforcer) (c : Controller)
    (sent : List Event) (status : Status)
    → e'.config ≡ e.config
    → HasBooks e'.next_class_id e'.sys_info
    → All (λ a. IsThere a.flow e'.sys_info) bundle
    → c ≡ with_staged (bundle_settings e'.config e'.sys_info bundle) e.ipt_controller
    → ((events : List Event) → sent_request (sent ++ events) ≡ sent_request events)
    → ((j : FlowMarker)
        → matched_of (lookup j e'.sys_info)
          ≡ last_match env bundle j (matched_of (lookup j e.sys_info)))
    → (r : Enforced) × (finish bundle e' c sent (commit_changes env.runner c) status ≡ some r)
      × Enforces env bundle e r
unfolding finish
finish-Enforces env bundle e e' c sent (internal_error m) k b t q u w = (
  _,
  refl,
  record {
    booked = record { books = b; none_staged = commit_changes-unstages env.runner c };
    same_config = k;
    stages = q;
    commits = refl;
    sends =
        u (restore_events (commit_changes env.runner c).request)
        ∙ (restore-sent (commit_changes env.runner c).request []).0;
    matches = w;
  },
)
finish-Enforces env bundle e e' c sent ok k b t q u w =
    let (s, f, b') =
      late_allocs-Keeps e'.config bundle e'.sys_info (new_staging e'.next_class_id) t b in
    let o = commit_changes env.runner c in
    let r : Enforced = record {
      state = record e' {
        ipt_controller = o.state;
        ipt_snapshot = o.state.applied;
        sys_info = s.0;
        next_class_id = s.1.next_class_id;
      };
      events = sent ++ (restore_events o.request ++ batch_events s.1.tc_batch_input);
      committing = c;
    } in
    (
      r,
      rw f refl,
      record {
        booked = record { books = b'; none_staged = commit_changes-unstages env.runner c };
        same_config = k;
        stages =
            q
            ∙ ap (λ l. with_staged l e.ipt_controller)
                (sym (
                  bundle_settings-same e'.config e'.sys_info (s.0) bundle (λ j.
                    late_allocs-settings e'.config bundle e'.sys_info (new_staging e'.next_class_id)
                      s f b.ready j)));
        commits = refl;
        sends =
            u (restore_events o.request ++ batch_events s.1.tc_batch_input)
            ∙ (restore-sent o.request s.1.tc_batch_input).1;
        matches = λ j.
            late_allocs-matched e'.config bundle e'.sys_info (new_staging e'.next_class_id) s j f
            ∙ w j;
      },
    )

pub enforce_allocs-Enforces :
    (env : Env) (bundle : List FlowAlloc) (e : LinuxHostEnforcer)
    → All (Fits env) bundle
    → IsBooked e
    → (r : Enforced) × (enforce_allocs env bundle e ≡ some r) × Enforces env bundle e r
unfolding enforce_allocs
enforce_allocs-Enforces env bundle e f b =
    let (s, q, k) =
      early_allocs-Keeps env e.config bundle e.sys_info (new_staging e.next_class_id) f b.books in
    let lines = s.1.tc_batch_input in
    let st = batch_status env e.device e.config lines in
    let info = learn st env.class_show env.raw_out s.1.classes_to_create s.0 in
    let h =
      learn-Holds st env.class_show env.raw_out s.1.classes_to_create s.1.next_class_id s.0
        k.books in
    let there =
      All-both (λ a. IsThere a.flow s.0) (λ a. Unit {0}) (λ a. IsThere a.flow info) bundle
        (λ a p _. h.kept a.flow p) k.there (All-every (λ a. Unit {0}) bundle (λ a. tt)) in
    let staged = stage_allocs_lem e.config info bundle e.ipt_controller there h.books.ready in
    rw q (
      rw staged (
        finish-Enforces env bundle e _ _ _ _ refl h.books there refl (early-sent lines st) (λ j.
          learn-matched st env.class_show env.raw_out s.1.classes_to_create (s.0) j
          ∙ early_allocs-matched env e.config bundle e.sys_info (new_staging e.next_class_id) s j
              q)))
