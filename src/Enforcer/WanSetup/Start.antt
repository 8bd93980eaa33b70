-- ===== src/Enforcer/WanSetup/Start.antt =====
-- A new enforcer whose first call is `InitSimulatedWan` of
-- heyp/host-agent/linux-enforcer/enforcer.cc.
use heyp_agents.Prelude.Text.{Bytes}
use heyp_agents.Prelude.Maps.{lookup, assign, All-lookup, All-assign}
use heyp_agents.Prelude.{
  ℕ, true, false, List, [], ◌∷◌, Option, none, some, map, All, All-both, All-every, ◌≡◌, inl, refl,
  ap, sym, subst, ◌∙◌, arith,
}
use heyp_agents.Markers.{FlowMarker, is_blank}
use heyp_agents.Iptables.Controller.{
  Controller, Status, ok, internal_error, Outcome, commit_changes,
}
use heyp_agents.Datacenters.{NetemConfig}
use heyp_agents.Enforcer.{
  HostEnforcerConfig, Priority, FlowSys, SysInfo, sys_keys, new_flow_sys, LinuxHostEnforcer,
  get_sys_info, get_or_create_sys_info, put_sys_info, k_max_bandwidth_bps,
}
use heyp_agents.Enforcer.Traffic.{Staging, new_staging, stage_traffic_control_for_flow}
use heyp_agents.Enforcer.Early.{Event, tc_batch}
use heyp_agents.Enforcer.Allocs.{ports_are_valid, setting_for}
use heyp_agents.Enforcer.Books.Ids.{Assigns}
use heyp_agents.Enforcer.Books.{
  IsReady, IsReadySys, HasBooks, IsThere, put-HasBooks, assign-HasBooks, IsThere-assign,
  IsThere-put, IsThere-put_other,
}
use heyp_agents.Enforcer.Books.Staged.{with_staged, stage_matched}
use heyp_agents.Enforcer.Books.Runs.{IsBooked, commit_changes-unstages}
use heyp_agents.Enforcer.WanSetup.{
  WanEnv, FlowNetemConfig, Setup, new_classes, add_config, add_configs, wired, wire_configs,
  finish_setup, after_batch, init_simulated_wan, new_linux_host_enforcer, Initialised,
}

stage-Assigns :
    (config : HostEnforcerConfig) (rate : ℕ) (netem : Option NetemConfig) (p : Priority)
    (st : Staging)
    → let r = stage_traffic_control_for_flow config rate netem none p st in
      Assigns p r.0 st.next_class_id r.1.next_class_id
      × (is_blank r.0.class_id ≡ false)
      × (r.0.matched ≡ p.matched)
unfolding stage_traffic_control_for_flow
stage-Assigns config rate netem p st = ground arith

-- Each entry has a class for HIPRI.
abbrev HasHipri : FlowSys → Type 0
HasHipri sys = is_blank sys.hipri.class_id ≡ false

record IsSetUp (n : ℕ) (info : SysInfo) : Type 0 where
  books : HasBooks n info
  hipri : All (λ e. HasHipri e.1) info

unmatched-IsReady : (p : Priority) → is_blank p.class_id ≡ false → p.matched ≡ [] → IsReady p
unmatched-IsReady p b m = record {
  named = λ q. m;
  ports = subst (All (λ f. ports_are_valid f ≡ true)) (sym m) tt;
}

new_entry :
    (flow : FlowMarker) (info : SysInfo)
    → lookup flow info ≡ none
    → get_or_create_sys_info flow info ≡ new_flow_sys
unfolding get_or_create_sys_info
new_entry flow info q = rw q refl

put-HasHipri :
    (flow : FlowMarker) (sys : FlowSys) (info : SysInfo)
    → HasHipri sys
    → All (λ e. HasHipri e.1) info
    → All (λ e. HasHipri e.1) (put_sys_info flow sys info)
unfolding put_sys_info
put-HasHipri flow sys info h a = All-assign HasHipri (record flow { job = [] }) sys info h a

new_classes-IsSetUp :
    (config : HostEnforcerConfig) (c : FlowNetemConfig) (info : SysInfo) (st : Staging)
    → lookup c.flow info ≡ none
    → IsSetUp st.next_class_id info
    → let next = new_classes config c (get_or_create_sys_info c.flow info) st in
      IsSetUp next.1.next_class_id (put_sys_info c.flow (next.0) info)
new_classes-IsSetUp config c info st q b =
    let old = get_or_create_sys_info c.flow info in
    let next = new_classes config c old st in
    let hi = stage-Assigns config k_max_bandwidth_bps c.netem.hipri old.hipri st in
    let lo =
      stage-Assigns config k_max_bandwidth_bps c.netem.lopri old.lopri
        (stage_traffic_control_for_flow config k_max_bandwidth_bps c.netem.hipri none old.hipri
          st).1 in
    let e = new_entry c.flow info q in
    record {
      books =
          put-HasBooks c.flow (next.0) info _ _ _ (hi.0) (lo.0)
            (
              unmatched-IsReady next.0.hipri hi.1 (hi.2 ∙ ap (λ (s : FlowSys). s.hipri.matched) e),
              unmatched-IsReady next.0.lopri lo.1 (lo.2 ∙ ap (λ (s : FlowSys). s.lopri.matched) e),
            )
            b.books;
      hipri = put-HasHipri c.flow (next.0) info hi.1 b.hipri;
    }

-- The loop over the configurations gives each of their flows an entry.
record Adds (configs : List FlowNetemConfig) (before : SysInfo) (s : Setup) : Type 0 where
  set_up : IsSetUp s.staging.next_class_id s.info
  kept : (flow : FlowMarker) → IsThere flow before → IsThere flow s.info
  there : All (λ c. IsThere c.flow s.info) configs

add_config-Adds :
    (env : WanEnv) (config : HostEnforcerConfig) (c : FlowNetemConfig) (s : Setup)
    (o : Option FlowSys)
    → lookup c.flow s.info ≡ o
    → IsSetUp s.staging.next_class_id s.info
    → Adds (c ∷ []) s.info (add_config env config c o s)
add_config-Adds env config c s (some sys) q b = record {
  set_up = b;
  kept = λ flow t. t;
  there = ((sys, q), tt);
}
add_config-Adds env config c s none q b =
    let next = new_classes config c (get_or_create_sys_info c.flow s.info) s.staging in
    record {
      set_up = new_classes-IsSetUp config c s.info s.staging q b;
      kept = λ flow t. IsThere-put_other flow c.flow (next.0) s.info t;
      there = (IsThere-put c.flow (next.0) s.info, tt);
    }

add_configs-Adds :
    (env : WanEnv) (config : HostEnforcerConfig) (configs : List FlowNetemConfig) (s : Setup)
    → IsSetUp s.staging.next_class_id s.info
    → Adds configs s.info (add_configs env config configs s)
unfolding add_configs get_sys_info
add_configs-Adds env config [] s b = record { set_up = b; kept = λ flow t. t; there = tt }
add_configs-Adds env config (c ∷ configs) s b =
    let s' = add_config env config c (lookup c.flow s.info) s in
    let one = add_config-Adds env config c s _ refl b in
    let rest = add_configs-Adds env config configs s' one.set_up in
    record {
      set_up = rest.set_up;
      kept = λ flow t. rest.kept flow (one.kept flow t);
      there = (rest.kept c.flow one.there.0, rest.there);
    }

abbrev pub HasPorts : FlowNetemConfig → Type 0
HasPorts c = All (λ f. ports_are_valid f ≡ true) c.matched_flows

wire_configs-HasBooks :
    (config : HostEnforcerConfig) (configs : List FlowNetemConfig) (n : ℕ) (info : SysInfo)
    (ctl : Controller)
    → All HasPorts configs
    → All (λ c. IsThere c.flow info) configs
    → IsSetUp n info
    → (s : SysInfo × Controller) × (wire_configs config configs (info, ctl) ≡ some s)
      × HasBooks n s.0
unfolding wire_configs get_sys_info
wire_configs-HasBooks config [] n info ctl h t b = ((info, ctl), refl, b.books)
wire_configs-HasBooks config (c ∷ configs) n info ctl h ((sys, q), t) b =
    let named : is_blank sys.hipri.class_id ≡ false =
      All-lookup HasHipri c.flow sys info q b.hipri in
    let ready = All-lookup IsReadySys c.flow sys info q b.books.ready in
    let staged =
      stage_matched config.dscp_hipri sys.hipri.class_id c.matched_flows ctl
        (λ (k : is_blank sys.hipri.class_id ≡ true). cc) h.0 in
    let next = wired c.matched_flows sys in
    let info' = assign c.flow next info in
    let (s, e, k) =
      wire_configs-HasBooks config configs n info'
        (with_staged (map (setting_for config.dscp_hipri sys.hipri.class_id) c.matched_flows) ctl)
        h.1
        (All-both (λ x. IsThere x.flow info) (λ x. Unit {0}) (λ x. IsThere x.flow info') configs
          (λ x p _. IsThere-assign x.flow c.flow next info p) t
          (All-every (λ x. Unit {0}) configs (λ x. tt)))
        (record {
          books =
              assign-HasBooks c.flow sys next info n n n q (inl (refl, refl)) (inl (refl, refl))
                (
                  record { named = λ k. cc; ports = h.0 },
                  record { named = ready.1.named; ports = ready.1.ports },
                )
                b.books;
          hipri = All-assign HasHipri c.flow next info named b.hipri;
        }) in
    (s, rw q (rw staged e), k)

start-IsSetUp : IsSetUp 2 []
start-IsSetUp = record {
  books = record {
    ids = record { once = λ h x b. omega arith; fresh = λ h n l k. refl };
    ready = tt;
  };
  hipri = tt;
}

pub new_linux_host_enforcer-IsBooked :
    (device : Bytes) (config : HostEnforcerConfig)
    → IsBooked (new_linux_host_enforcer device config)
unfolding new_linux_host_enforcer
new_linux_host_enforcer-IsBooked device config = record {
  books = start-IsSetUp.books;
  none_staged = refl;
}

finish_setup-IsBooked :
    (errors : List Bytes) (e : LinuxHostEnforcer) (sent : List Event) (o : Outcome)
    (status : Status)
    → HasBooks e.next_class_id e.sys_info
    → o.state.staged ≡ []
    → IsBooked (finish_setup errors e sent o status).state
unfolding finish_setup
finish_setup-IsBooked errors e sent o ok b q = record { books = b; none_staged = q }
finish_setup-IsBooked errors e sent o (internal_error m) b q = record { books = b; none_staged = q }

after_batch-IsBooked :
    (env : WanEnv) (configs : List FlowNetemConfig) (s : Setup) (e : LinuxHostEnforcer)
    (status : Status)
    → All HasPorts configs
    → All (λ c. IsThere c.flow s.info) configs
    → IsSetUp s.staging.next_class_id s.info
    → e.ipt_controller.staged ≡ []
    → (r : Initialised) × (after_batch env configs s e status ≡ some r) × IsBooked r.state
unfolding after_batch
after_batch-IsBooked env configs s e (internal_error m) h t b q =
    (_, refl, record { books = b.books; none_staged = q })
after_batch-IsBooked env configs s e ok h t b q =
    let (w, f, k) =
      wire_configs-HasBooks e.config configs s.staging.next_class_id s.info e.ipt_controller h t
        b in
    let e' : LinuxHostEnforcer = record e {
      sys_info = w.0;
      next_class_id = s.staging.next_class_id;
    } in
    let o = commit_changes env.runner (w.1) in
    (
      finish_setup s.errors e' (tc_batch s.staging.tc_batch_input ∷ []) o o.status,
      rw f refl,
      finish_setup-IsBooked s.errors e' (tc_batch s.staging.tc_batch_input ∷ []) o o.status k
          (commit_changes-unstages env.runner (w.1)),
    )

-- `InitSimulatedWan` on a new enforcer, whatever `tc` and the runner answer: it stops no process if
-- the flows have valid ports, and leaves books in order, also where it fails half way.
pub init_simulated_wan-IsBooked :
    (env : WanEnv) (device : Bytes) (config : HostEnforcerConfig) (configs : List FlowNetemConfig)
    → All HasPorts configs
    → let e = new_linux_host_enforcer device config in
      (r : Initialised) × (init_simulated_wan env configs e ≡ some r) × IsBooked r.state
unfolding init_simulated_wan new_linux_host_enforcer
init_simulated_wan-IsBooked env device config configs h =
    let start : Setup = record { info = []; staging = new_staging 2; errors = [] } in
    let a = add_configs-Adds env config configs start start-IsSetUp in
    after_batch-IsBooked env configs (add_configs env config configs start)
      (new_linux_host_enforcer device config) _ h a.there a.set_up refl
