-- ===== src/Enforcer/Tests.antt =====
-- Runs of the enforcer, with the data of heyp/host-agent/linux-enforcer/enforcer-test.cc where it
-- fits, and the theorems at concrete inputs.
use heyp_agents.Prelude.Text.{bytes_eq}
use heyp_agents.Prelude.Text.{codes, decimal}
use heyp_agents.Prelude.{◌*◌, ◌^◌, ◌/◌, ◌==◌, true, false, List, [], ◌∷◌, none, some, ◌≡◌, refl}
use heyp_agents.Iptables.Setting.Laws.{setting_order}
use heyp_agents.Iptables.Controller.{ok, internal_error, Runner}
use heyp_agents.Datacenters.{
  bytes_keys, has_name, add_entry, new_dc_mapper, hosts_for_dc, new_simulated_wan_db,
}
use heyp_agents.Datacenters.Tests.{edge, core, two_dcs, one_pair}
use heyp_agents.Enforcer.{
  HostEnforcerConfig, FlowAlloc, MatchedHostFlows, Priority, LinuxHostEnforcer,
}
use heyp_agents.Enforcer.Traffic.{Formats, class_add, PriorityPtr, k_hipri, new_staging, tc_text}
use heyp_agents.Prelude.Text.{split}
use heyp_agents.Enforcer.Early.{Env}
use heyp_agents.Enforcer.Books.{Fits}
use heyp_agents.Enforcer.Books.Runs.{IsBooked}
use heyp_agents.Enforcer.WanSetup.{
  WanEnv, expand_dest_into_hosts_single_pri, wan_flow, all_netem_configs, init_simulated_wan,
  new_linux_host_enforcer, Initialised, FlowNetemConfig, netem_config,
}
use heyp_agents.Enforcer.WanSetup.Configs.{configs_but_own, all_netem_configs-but_own}
use heyp_agents.Enforcer.WanSetup.Start.{
  init_simulated_wan-IsBooked, new_linux_host_enforcer-IsBooked,
}
use heyp_agents.Enforcer.History.{Machine, run_bundles, run_bundles-IsBooked, new_machine}
use heyp_agents.Enforcer.Rates.{calls_on, calls_on-stale}
use heyp_agents.Prelude.{Option}

-- Rates in whole units of 2^20.
abbrev formats : Formats
formats = record { show_mbit = λ n. decimal (n / 2 ^ 20); show_double = decimal }

abbrev config : HostEnforcerConfig
config = record {
  limit_hipri = true;
  limit_lopri = true;
  pacing_burst_bytes = 0;
  min_rate_limit_bps = 5242880;
  dscp_hipri = codes "AF21";
  dscp_lopri = codes "BE";
}

abbrev works : Runner
works r = ok

abbrev fails : Runner
fails r = internal_error (codes "busy")

abbrev to_edge : FlowAlloc
to_edge = record {
  flow = wan_flow core 1 edge;
  hipri_rate_limit_bps = 100 * 2 ^ 20;
  lopri_rate_limit_bps = 0;
}

abbrev matched : MatchedHostFlows
matched = record {
  hipri = (record (to_edge.flow) { dst_addr = codes "10.0.0.1" }) ∷ [];
  lopri = [];
}

abbrev env : Runner → Env
env runner = record {
  formats = formats;
  match_host_flows = λ a. some matched;
  early_batch = λ text. ok;
  class_show = ok;
  raw_out = [];
  runner = runner;
}

class_text :
    tc_text formats
      (codes "eth1")
      (record config { pacing_burst_bytes = 4096 })
      (class_add (codes "1:2") (100 * 2 ^ 20))
    ≡ codes "class add dev eth1 parent 1: classid 1:2 htb rate 100mbit burst 4096b\n"
unfolding tc_text decimal
class_text = refl

fields :
    split (λ c. c == b' ') (codes "class htb 1:2 root")
    ≡ codes "class" ∷ codes "htb" ∷ codes "1:2" ∷ codes "root" ∷ []
unfolding split
fields = refl

expanded_hosts :
    expand_dest_into_hosts_single_pri (new_dc_mapper two_dcs) to_edge
    ≡ some (record {
      hipri =
          (record (to_edge.flow) { dst_addr = codes "10.0.0.1" })
          ∷ (record (to_edge.flow) { dst_addr = codes "10.0.0.3" })
          ∷ [];
      lopri = [];
    })
unfolding expand_dest_into_hosts_single_pri hosts_for_dc new_dc_mapper add_entry bytes_keys has_name
    bytes_eq
expanded_hosts = refl

abbrev fits : (runner : Runner) → Fits (env runner) to_edge
fits runner = (matched, refl, (refl, tt), tt)

abbrev start : Machine
start = new_machine (codes "eth1") config

abbrev two_calls : List (Env × List FlowAlloc)
two_calls = (env fails, to_edge ∷ []) ∷ (env works, to_edge ∷ to_edge ∷ []) ∷ []

run_bundles-IsBooked_example :
    (e' : LinuxHostEnforcer) × (run_bundles two_calls
        (new_linux_host_enforcer (codes "eth1") config)
      ≡ some e')
    × IsBooked e'
run_bundles-IsBooked_example =
    run_bundles-IsBooked two_calls (new_linux_host_enforcer (codes "eth1") config)
      ((fits fails, tt), ((fits works, (fits works, tt)), tt))
      (new_linux_host_enforcer-IsBooked (codes "eth1") config)

abbrev wan_env : WanEnv
wan_env = record {
  formats = formats;
  batch = λ text. ok;
  runner = works;
  short_debug_string = λ flow. flow.dst_dc;
}

abbrev to_edge_config : FlowNetemConfig
to_edge_config =
    netem_config core 1 edge (record { hipri = none; lopri = none }) (codes "10.0.0.1" ∷ [])

init_simulated_wan-IsBooked_example :
    (r : Initialised) × (init_simulated_wan wan_env
        (to_edge_config ∷ to_edge_config ∷ [])
        (new_linux_host_enforcer (codes "eth1") config)
      ≡ some r)
    × IsBooked r.state
init_simulated_wan-IsBooked_example =
    init_simulated_wan-IsBooked wan_env (codes "eth1") config (to_edge_config ∷ to_edge_config ∷ [])
      ((refl, tt), ((refl, tt), tt))

knows_core : has_name (new_dc_mapper two_dcs).all_dcs core ≡ true
unfolding new_dc_mapper add_entry bytes_keys has_name bytes_eq
knows_core = refl

all_netem_configs-but_own_example :
    all_netem_configs
      (new_dc_mapper two_dcs)
      (new_simulated_wan_db one_pair (new_dc_mapper two_dcs))
      core
      7
    ≡ some (configs_but_own two_dcs one_pair core 7 (new_dc_mapper two_dcs).all_dcs)
all_netem_configs-but_own_example = all_netem_configs-but_own two_dcs one_pair core 7 knows_core

abbrev ptr : PriorityPtr
ptr = record { flow = to_edge.flow; pri = k_hipri }

abbrev at_100 : Priority
at_100 = record {
  class_id = codes "1:2";
  cur_rate_limit_bps = 100 * 2 ^ 20;
  did_create_class = true;
  update_after_ipt_change = false;
  matched = matched.hipri;
}

-- `tc` fails, and does not list its classes.
abbrev tc_fails : Env
tc_fails = record (env works) {
  early_batch = λ text. internal_error (codes "busy");
  class_show = internal_error (codes "busy");
}

abbrev fresh : LinuxHostEnforcer
fresh = new_linux_host_enforcer (codes "eth1") config

abbrev or_fresh : Option LinuxHostEnforcer → LinuxHostEnforcer
or_fresh none = fresh
or_fresh (some e) = e

abbrev failing : List (Env × List FlowAlloc)
failing = (tc_fails, to_edge ∷ []) ∷ []

-- The enforcer after `tc` failed to add a class.
abbrev uncreated : LinuxHostEnforcer
uncreated = or_fresh (run_bundles failing fresh)

calls_on-stale_example :
    let r = calls_on config ptr ((0, []) ∷ (0, matched.hipri) ∷ []) (at_100, new_staging 3) in
    (r.1.tc_batch_input ≡ []) × (r.0.cur_rate_limit_bps ≡ 0) × (r.0.matched ≡ matched.hipri)
calls_on-stale_example = calls_on-stale config ptr 0 matched.hipri at_100 (new_staging 3) refl refl
