-- ===== src/Datacenters.antt =====
-- `StaticDCMapper` of heyp/flows/dc-mapper.cc and `SimulatedWanDB` of
-- heyp/host-agent/simulated-wan-db.cc. Hash maps are association lists.
pub mod Mapping
pub mod Wan
pub mod Tests
use heyp_agents.Prelude.Text.{Bytes, bytes_eq, bytes_eq_iff}
use heyp_agents.Prelude.Maps.{KeyEq, lookup, assign}
use heyp_agents.Prelude.{
  ℕ, Bool, true, false, ◌&&◌, List, [], ◌∷◌, ◌++◌, Option, none, some, if◌then◌else◌, refl, ◌≡◌,
  arith,
}

pub bytes_eq_refl : (a : Bytes) → bytes_eq a a ≡ true
bytes_eq_refl a = (bytes_eq_iff a a).1 refl

pub bytes_eq_common :
    (a b c : Bytes) → bytes_eq a c ≡ true → bytes_eq b c ≡ true → bytes_eq a b ≡ true
bytes_eq_common a b c h k = ground (arith, bytes_eq_iff a c, bytes_eq_iff b c, bytes_eq_iff a b)

instance unfoldable pub bytes_keys : KeyEq Bytes
bytes_keys = record { eq = bytes_eq; eq_refl = bytes_eq_refl; eq_common = bytes_eq_common }

-- An entry of `DCMapping`.
pub record DcEntry : Type 0 where
  pub host_addr : Bytes
  pub dc : Bytes

pub record StaticDcMapper : Type 0 where
  pub all_dcs : List Bytes
  pub host_addr_to_dc : List (Bytes × Bytes)
  pub dc_to_all_hosts : List (Bytes × List Bytes)

-- `std::find(...) != end()`.
abbrev pub is_some {ℓ} : {A : Type ℓ} → Option A → Bool
is_some none = false
is_some (some a) = true

unfoldable pub has_name : List Bytes → Bytes → Bool
has_name [] name = false
has_name (x ∷ names) name = if bytes_eq x name then true else has_name names name

-- What `operator[]` refers to: a new key has no hosts.
abbrev pub hosts_or_none : Option (List Bytes) → List Bytes
hosts_or_none none = []
hosts_or_none (some hosts) = hosts

unfoldable pub add_entry : StaticDcMapper → DcEntry → StaticDcMapper
add_entry m entry = record {
  host_addr_to_dc = assign (entry.host_addr) (entry.dc) m.host_addr_to_dc;
  dc_to_all_hosts =
      assign (entry.dc)
        (hosts_or_none (lookup (entry.dc) m.dc_to_all_hosts) ++ entry.host_addr ∷ [])
        m.dc_to_all_hosts;
  all_dcs = if has_name m.all_dcs entry.dc then m.all_dcs else m.all_dcs ++ entry.dc ∷ [];
}

unfoldable pub add_entries : StaticDcMapper → List DcEntry → StaticDcMapper
add_entries m [] = m
add_entries m (entry ∷ entries) = add_entries (add_entry m entry) entries

unfoldable pub new_dc_mapper : List DcEntry → StaticDcMapper
unfolding add_entries
new_dc_mapper entries =
    add_entries (record { all_dcs = []; host_addr_to_dc = []; dc_to_all_hosts = [] }) entries

unfoldable pub host_dc : StaticDcMapper → Bytes → Option Bytes
host_dc m host = lookup host m.host_addr_to_dc

unfoldable pub hosts_for_dc : StaticDcMapper → Bytes → Option (List Bytes)
hosts_for_dc m dc = lookup dc m.dc_to_all_hosts

-- A `double` stands for itself by its bits, an `int32_t` too.
pub data NetemDelayDist : Type 0 where
  netem_no_dist netem_normal netem_uniform netem_pareto netem_paretonormal : NetemDelayDist

pub record NetemConfig : Type 0 where
  pub delay_ms : ℕ
  pub delay_jitter_ms : ℕ
  pub delay_correlation_pct : ℕ
  pub delay_dist : NetemDelayDist

pub record QosNetemConfig : Type 0 where
  pub hipri : Option NetemConfig
  pub lopri : Option NetemConfig

-- `SimulatedWanConfig::Pair`.
pub record DcPair : Type 0 where
  pub src_dc : Bytes
  pub dst_dc : Bytes
  pub netem : Option NetemConfig
  pub netem_lopri : Option NetemConfig

-- The names that the views in the map's keys point to stand in `dc_names`.
pub record SimulatedWanDb : Type 0 where
  pub dc_names : List Bytes
  pub netem_configs : List ((Bytes × Bytes) × QosNetemConfig)

abbrev pub pair_eq : Bytes × Bytes → Bytes × Bytes → Bool
pair_eq a b = bytes_eq a.0 b.0 && bytes_eq a.1 b.1

pub pair_eq_refl : (a : Bytes × Bytes) → pair_eq a a ≡ true
pair_eq_refl a = ground (arith, bytes_eq_refl a.0, bytes_eq_refl a.1)

pub pair_eq_common :
    (a b c : Bytes × Bytes) → pair_eq a c ≡ true → pair_eq b c ≡ true → pair_eq a b ≡ true
pair_eq_common a b c h k = ground (arith, bytes_eq_common a.0 b.0 c.0, bytes_eq_common a.1 b.1 c.1)

instance unfoldable pub pair_keys : KeyEq (Bytes × Bytes)
pair_keys = record { eq = pair_eq; eq_refl = pair_eq_refl; eq_common = pair_eq_common }

-- The view that is returned, and the table.
unfoldable pub intern_string : Bytes → List Bytes → Bytes × List Bytes
unfolding has_name
intern_string s table = (s, if has_name table s then table else table ++ s ∷ [])

abbrev pub or_else {ℓ} : {A : Type ℓ} → Option A → Option A → Option A
or_else none other = other
or_else (some a) other = some a

-- A LOPRI setting that is not given is that of HIPRI.
unfoldable pub add_pair : SimulatedWanDb → DcPair → SimulatedWanDb
add_pair db pair =
    let src = intern_string (pair.src_dc) db.dc_names in
    let dst = intern_string (pair.dst_dc) src.1 in
    record {
      dc_names = dst.1;
      netem_configs =
          assign (src.0, dst.0)
            (record { hipri = pair.netem; lopri = or_else (pair.netem_lopri) (pair.netem) })
            db.netem_configs;
    }

unfoldable pub add_pairs : SimulatedWanDb → List DcPair → SimulatedWanDb
add_pairs db [] = db
add_pairs db (pair ∷ pairs) = add_pairs (add_pair db pair) pairs

abbrev pub no_netem : QosNetemConfig
no_netem = record { hipri = none; lopri = none }

abbrev pub or_default :
    Option QosNetemConfig
    → Bytes × Bytes
    → List ((Bytes × Bytes) × QosNetemConfig)
    → List ((Bytes × Bytes) × QosNetemConfig)
or_default none key configs = assign key no_netem configs
or_default (some c) key configs = configs

-- The body of the inner loop of the constructor.
unfoldable pub fill_pair : Bytes → SimulatedWanDb → Bytes → SimulatedWanDb
fill_pair src_dc db dst_dc =
    let dst = intern_string dst_dc db.dc_names in
    record {
      dc_names = dst.1;
      netem_configs =
          or_default (lookup (src_dc, dst.0) db.netem_configs) (src_dc, dst.0) db.netem_configs;
    }

unfoldable pub fill_row : Bytes → SimulatedWanDb → List Bytes → SimulatedWanDb
fill_row src_dc db [] = db
fill_row src_dc db (dst_dc ∷ dcs) = fill_row src_dc (fill_pair src_dc db dst_dc) dcs

unfoldable pub fill_rows : List Bytes → SimulatedWanDb → List Bytes → SimulatedWanDb
fill_rows all_dcs db [] = db
fill_rows all_dcs db (src_dc_str ∷ srcs) =
    let src = intern_string src_dc_str db.dc_names in
    fill_rows all_dcs (fill_row src.0 (record db { dc_names = src.1 }) all_dcs) srcs

unfoldable pub new_simulated_wan_db : List DcPair → StaticDcMapper → SimulatedWanDb
unfolding add_pairs fill_rows
new_simulated_wan_db dc_pairs dc_mapper =
    fill_rows (dc_mapper.all_dcs)
      (add_pairs (record { dc_names = []; netem_configs = [] }) dc_pairs) (dc_mapper.all_dcs)

unfoldable pub get_netem : SimulatedWanDb → Bytes → Bytes → Option QosNetemConfig
get_netem db src dst = lookup (src, dst) db.netem_configs
