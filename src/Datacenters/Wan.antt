-- ===== src/Datacenters/Wan.antt =====
-- What the database of heyp/host-agent/simulated-wan-db.cc answers.
use heyp_agents.Prelude.Text.{Bytes, bytes_eq, bytes_eq_iff}
use heyp_agents.Prelude.Maps.{lookup, lookup-assign_if}
use heyp_agents.Prelude.{
  Bool, ◌&&◌, List, [], ◌∷◌, Option, none, some, if◌then◌else◌, ◌≡◌, refl, Bool-cases, Option-cases,
  arith,
}
use heyp_agents.Datacenters.{
  StaticDcMapper, has_name, QosNetemConfig, DcPair, SimulatedWanDb, pair_keys, or_else, add_pair,
  add_pairs, no_netem, fill_pair, fill_row, fill_rows, intern_string, new_simulated_wan_db,
  get_netem,
}

-- What one pair of the configuration asks for between two data centers, if it is about these.
abbrev pub asked : DcPair → Bytes → Bytes → Option QosNetemConfig
asked pair src dst =
    if bytes_eq (pair.src_dc) src && bytes_eq (pair.dst_dc) dst
    then some (record { hipri = pair.netem; lopri = or_else (pair.netem_lopri) (pair.netem) })
    else none

-- What the last pair about two data centers asks for.
unfoldable pub last_asked : List DcPair → Bytes → Bytes → Option QosNetemConfig
last_asked [] src dst = none
last_asked (pair ∷ pairs) src dst = or_else (last_asked pairs src dst) (asked pair src dst)

get_netem-add_pair :
    (db : SimulatedWanDb) (pair : DcPair) (src dst : Bytes)
    → get_netem (add_pair db pair) src dst ≡ or_else (asked pair src dst) (get_netem db src dst)
unfolding get_netem add_pair intern_string pair_keys
get_netem-add_pair db pair src dst = ground (
  arith,
  lookup-assign_if (src, dst) (pair.src_dc, pair.dst_dc)
      (record { hipri = pair.netem; lopri = or_else (pair.netem_lopri) (pair.netem) })
      db.netem_configs,
)

or_else_assoc : (a b c : Option QosNetemConfig) → or_else a (or_else b c) ≡ or_else (or_else a b) c
or_else_assoc none b c = refl
or_else_assoc (some x) b c = refl

get_netem-add_pairs :
    (db : SimulatedWanDb) (pairs : List DcPair) (src dst : Bytes)
    → get_netem (add_pairs db pairs) src dst
      ≡ or_else (last_asked pairs src dst) (get_netem db src dst)
unfolding add_pairs last_asked
get_netem-add_pairs db [] src dst = refl
get_netem-add_pairs db (pair ∷ pairs) src dst = ground (
  arith,
  get_netem-add_pairs (add_pair db pair) pairs src dst,
  get_netem-add_pair db pair src dst,
  or_else_assoc (last_asked pairs src dst) (asked pair src dst) (get_netem db src dst),
)

-- What the constructor puts in for a pair of names that has no configuration.
abbrev pub filled : Bool → Option QosNetemConfig
filled known = if known then some no_netem else none

get_netem-fill_pair :
    (db : SimulatedWanDb) (src' dst' src dst : Bytes)
    → get_netem (fill_pair src' db dst') src dst
      ≡ or_else (get_netem db src dst) (filled (bytes_eq src' src && bytes_eq dst' dst))
unfolding get_netem fill_pair intern_string pair_keys
get_netem-fill_pair db src' dst' src dst = ground (
  arith,
  Option-cases (lookup (src', dst') db.netem_configs),
  Option-cases (lookup (src, dst) db.netem_configs),
  lookup-assign_if (src, dst) (src', dst') no_netem db.netem_configs,
  bytes_eq_iff src' src,
  bytes_eq_iff dst' dst,
)

get_netem-fill_row :
    (db : SimulatedWanDb) (src' : Bytes) (dcs : List Bytes) (src dst : Bytes)
    → get_netem (fill_row src' db dcs) src dst
      ≡ or_else (get_netem db src dst) (filled (bytes_eq src' src && has_name dcs dst))
unfolding fill_row has_name
get_netem-fill_row db src' [] src dst =
    ground (arith, Option-cases (get_netem db src dst), Bool-cases (bytes_eq src' src))
get_netem-fill_row db src' (dst' ∷ dcs) src dst = ground (
  arith,
  get_netem-fill_row (fill_pair src' db dst') src' dcs src dst,
  get_netem-fill_pair db src' dst' src dst,
  Option-cases (get_netem db src dst),
)

get_netem-names :
    (db : SimulatedWanDb) (names : List Bytes) (src dst : Bytes)
    → get_netem (record db { dc_names = names }) src dst ≡ get_netem db src dst
unfolding get_netem
get_netem-names db names src dst = refl

get_netem-fill_rows :
    (all_dcs : List Bytes) (db : SimulatedWanDb) (srcs : List Bytes) (src dst : Bytes)
    → get_netem (fill_rows all_dcs db srcs) src dst
      ≡ or_else (get_netem db src dst) (filled (has_name srcs src && has_name all_dcs dst))
unfolding fill_rows intern_string has_name
get_netem-fill_rows all_dcs db [] src dst = ground (arith, Option-cases (get_netem db src dst))
get_netem-fill_rows all_dcs db (src' ∷ srcs) src dst =
    let names = (intern_string src' db.dc_names).1 in
    let named : SimulatedWanDb = record db { dc_names = names } in
    ground (
      arith,
      get_netem-fill_rows all_dcs (fill_row src' named all_dcs) srcs src dst,
      get_netem-fill_row named src' all_dcs src dst,
      get_netem-names db names src dst,
      Option-cases (get_netem db src dst),
    )

abbrev empty : SimulatedWanDb
empty = record { dc_names = []; netem_configs = [] }

get_netem-empty : (src dst : Bytes) → get_netem empty src dst ≡ none
unfolding get_netem
get_netem-empty src dst = refl

-- Between two data centers the database has what the last pair of the configuration about them asks
-- for, where LOPRI traffic that is not configured goes as HIPRI traffic does; with no such pair it
-- has an empty configuration where the mapper knows both, and else none.
pub new_simulated_wan_db-last_asked :
    (pairs : List DcPair) (dc_mapper : StaticDcMapper) (src dst : Bytes)
    → get_netem (new_simulated_wan_db pairs dc_mapper) src dst
      ≡ or_else
          (last_asked pairs src dst)
          (filled (has_name dc_mapper.all_dcs src && has_name dc_mapper.all_dcs dst))
unfolding new_simulated_wan_db
new_simulated_wan_db-last_asked pairs dc_mapper src dst =
    let known = filled (has_name dc_mapper.all_dcs src && has_name dc_mapper.all_dcs dst) in
    ground (
      arith,
      get_netem-fill_rows dc_mapper.all_dcs (add_pairs empty pairs) dc_mapper.all_dcs src dst,
      get_netem-add_pairs empty pairs src dst,
      get_netem-empty src dst,
      Option-cases (last_asked pairs src dst),
    )
