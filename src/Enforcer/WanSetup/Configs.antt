-- ===== src/Enforcer/WanSetup/Configs.antt =====
-- `AllNetemConfigs` of heyp/host-agent/linux-enforcer/enforcer.cc over a mapper and a database that
-- are made from their configurations.
use heyp_agents.Prelude.Text.{Bytes, bytes_eq, bytes_eq_iff}
use heyp_agents.Prelude.{
  ℕ, true, List, [], ◌∷◌, Option, none, some, All, if◌then◌else◌, ◌≡◌, refl, sym, ◌∙◌, arith,
  Option-cases,
}
use heyp_agents.Datacenters.{
  DcEntry, DcPair, QosNetemConfig, has_name, new_dc_mapper, hosts_for_dc, new_simulated_wan_db,
  no_netem, is_some,
}
use heyp_agents.Prelude.Maps.{extend}
use heyp_agents.Datacenters.Mapping.{listed, new_dc_mapper-hosts}
use heyp_agents.Datacenters.Wan.{last_asked, new_simulated_wan_db-last_asked}
use heyp_agents.Enforcer.WanSetup.{FlowNetemConfig, netem_config, configs_to, all_netem_configs}

abbrev pub or_no_netem : Option QosNetemConfig → QosNetemConfig
or_no_netem none = no_netem
or_no_netem (some c) = c

module _ (entries : List DcEntry) (pairs : List DcPair) (my_dc : Bytes) (my_host_id : ℕ) where
  -- What the two configurations ask for between this data center and another.
  abbrev pub config_to : Bytes → FlowNetemConfig
  config_to dst =
      netem_config my_dc my_host_id dst (or_no_netem (last_asked pairs my_dc dst))
        (listed entries dst)

  -- One for each data center but this one, in their order.
  unfoldable pub configs_but_own : List Bytes → List FlowNetemConfig
  configs_but_own [] = []
  configs_but_own (dst ∷ dsts) =
      if bytes_eq dst my_dc then configs_but_own dsts else config_to dst ∷ configs_but_own dsts

some_hosts :
    (l : List Bytes) (o : Option (List Bytes)) → o ≡ extend none l → is_some o ≡ true → o ≡ some l
some_hosts [] o e h = cc
some_hosts (x ∷ l) o e h = e

hosts_of_known :
    (entries : List DcEntry) (dc : Bytes)
    → has_name (new_dc_mapper entries).all_dcs dc ≡ true
    → hosts_for_dc (new_dc_mapper entries) dc ≡ some (listed entries dc)
hosts_of_known entries dc h =
    let (hosts, _, known) = new_dc_mapper-hosts entries dc in
    some_hosts (listed entries dc) (hosts_for_dc (new_dc_mapper entries) dc) hosts (sym known ∙ h)

has_name-suffix :
    (all : List Bytes) (names : List Bytes)
    → ((x : Bytes) → has_name names x ≡ true → has_name all x ≡ true)
    → All (λ x. has_name all x ≡ true) names
unfolding has_name
has_name-suffix all [] h = tt
has_name-suffix all (x ∷ names) h = (
  h x (ground (arith, bytes_eq_iff x x)),
  has_name-suffix all names (λ y p. h y (ground (arith, p))),
)

configs_to_lem :
    (entries : List DcEntry) (pairs : List DcPair) (my_dc : Bytes) (my_host_id : ℕ)
    (dsts : List Bytes)
    → has_name (new_dc_mapper entries).all_dcs my_dc ≡ true
    → All (λ x. has_name (new_dc_mapper entries).all_dcs x ≡ true) dsts
    → configs_to
        (new_dc_mapper entries)
        (new_simulated_wan_db pairs (new_dc_mapper entries))
        my_dc
        my_host_id
        dsts
      ≡ some (configs_but_own entries pairs my_dc my_host_id dsts)
unfolding configs_to configs_but_own
configs_to_lem entries pairs my_dc my_host_id [] h a = refl
configs_to_lem entries pairs my_dc my_host_id (dst ∷ dsts) h a = ground (
  arith,
  hosts_of_known entries dst a.0,
  new_simulated_wan_db-last_asked pairs (new_dc_mapper entries) my_dc dst,
  configs_to_lem entries pairs my_dc my_host_id dsts h a.1,
  Option-cases (last_asked pairs my_dc dst),
)

-- For a data center that the mapper knows, over the database made with this mapper: no null pointer
-- is followed, and there is one configuration for each data center but this one, in the mapper's
-- order, with a flow for each host listed for it, and with what the last pair about the two data
-- centers asks for, or nothing.
pub all_netem_configs-but_own :
    (entries : List DcEntry) (pairs : List DcPair) (my_dc : Bytes) (my_host_id : ℕ)
    → let dc_mapper = new_dc_mapper entries in
      has_name dc_mapper.all_dcs my_dc ≡ true
      → all_netem_configs dc_mapper (new_simulated_wan_db pairs dc_mapper) my_dc my_host_id
        ≡ some (configs_but_own entries pairs my_dc my_host_id dc_mapper.all_dcs)
unfolding all_netem_configs
all_netem_configs-but_own entries pairs my_dc my_host_id h =
    let all = (new_dc_mapper entries).all_dcs in
    configs_to_lem entries pairs my_dc my_host_id all h (has_name-suffix all all (λ x p. p))
