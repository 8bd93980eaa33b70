-- ===== src/Datacenters/Tests.antt =====
-- A mapper and a database at concrete inputs.
use heyp_agents.Prelude.Text.{Bytes, bytes_eq}
use heyp_agents.Prelude.Text.{codes}
use heyp_agents.Prelude.{◌&&◌, List, [], ◌∷◌, some, none, ◌≡◌, refl}
use heyp_agents.Datacenters.{
  DcEntry, DcPair, NetemConfig, netem_normal, bytes_keys, pair_keys, intern_string, has_name,
  add_entry, new_dc_mapper, hosts_for_dc, host_dc, new_simulated_wan_db, get_netem, or_else,
  add_pair, fill_pair, fill_row,
}
use heyp_agents.Datacenters.Wan.{last_asked, filled, new_simulated_wan_db-last_asked}

abbrev pub edge : Bytes
edge = codes "EDGE"

abbrev pub core : Bytes
core = codes "CORE"

abbrev pub two_dcs : List DcEntry
two_dcs =
    record { host_addr = codes "10.0.0.1"; dc = edge }
    ∷ record { host_addr = codes "10.0.0.2"; dc = core }
    ∷ record { host_addr = codes "10.0.0.3"; dc = edge }
    ∷ []

abbrev slow : NetemConfig
slow = record {
  delay_ms = 40;
  delay_jitter_ms = 2;
  delay_correlation_pct = 0;
  delay_dist = netem_normal;
}

abbrev pub one_pair : List DcPair
one_pair = record { src_dc = core; dst_dc = edge; netem = some slow; netem_lopri = none } ∷ []

edge_hosts :
    hosts_for_dc (new_dc_mapper two_dcs) edge ≡ some (codes "10.0.0.1" ∷ codes "10.0.0.3" ∷ [])
unfolding hosts_for_dc new_dc_mapper add_entry bytes_keys has_name bytes_eq
edge_hosts = refl

core_host : host_dc (new_dc_mapper two_dcs) (codes "10.0.0.2") ≡ some core
unfolding host_dc new_dc_mapper add_entry bytes_keys has_name bytes_eq
core_host = refl

core_to_edge :
    get_netem (new_simulated_wan_db one_pair (new_dc_mapper two_dcs)) core edge
    ≡ some (record { hipri = some slow; lopri = some slow })
unfolding get_netem new_simulated_wan_db new_dc_mapper add_entry add_pair fill_pair fill_row
    intern_string bytes_keys pair_keys has_name bytes_eq
core_to_edge = refl

new_simulated_wan_db-last_asked_example :
    get_netem (new_simulated_wan_db one_pair (new_dc_mapper two_dcs)) core edge
    ≡ or_else (last_asked one_pair core edge) (
        filled (
          has_name (new_dc_mapper two_dcs).all_dcs core
          && has_name (new_dc_mapper two_dcs).all_dcs edge))
new_simulated_wan_db-last_asked_example =
    new_simulated_wan_db-last_asked one_pair (new_dc_mapper two_dcs) core edge
