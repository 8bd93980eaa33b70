-- ===== src/Datacenters/Mapping.antt =====
-- What the mapper of heyp/flows/dc-mapper.cc answers.
use heyp_agents.Prelude.Text.{Bytes, bytes_eq, bytes_eq_iff}
use heyp_agents.Prelude.Maps.{
  extend, extend_append, extend-nil, lookup, assign, lookup-common, lookup-assign,
  lookup-assign_other,
}
use heyp_agents.Prelude.{
  false, List, [], ◌∷◌, ◌++◌, none, if◌then◌else◌, ◌≡◌, ◌≢◌, refl, Bool-cases, Option-cases, ◌||◌,
  All-append, inl, inr, All, IsDistinct, arith, sym,
}
use heyp_agents.Datacenters.{
  DcEntry, StaticDcMapper, bytes_keys, has_name, add_entry, add_entries, new_dc_mapper,
  hosts_for_dc, is_some, hosts_or_none,
}

-- The addresses that the entries list for a data center, in their order.
unfoldable pub listed : List DcEntry → Bytes → List Bytes
listed [] dc = []
listed (entry ∷ entries) dc =
    if bytes_eq (entry.dc) dc then entry.host_addr ∷ listed entries dc else listed entries dc

hosts_for_dc-add_entry :
    (m : StaticDcMapper) (entry : DcEntry) (dc : Bytes)
    → hosts_for_dc (add_entry m entry) dc
      ≡ extend (hosts_for_dc m dc) (if bytes_eq (entry.dc) dc then entry.host_addr ∷ [] else [])
unfolding hosts_for_dc add_entry bytes_keys
hosts_for_dc-add_entry m entry dc =
    let hosts = m.dc_to_all_hosts in
    let longer = hosts_or_none (lookup (entry.dc) hosts) ++ entry.host_addr ∷ [] in
    ground (
      arith,
      Option-cases (lookup (entry.dc) hosts),
      bytes_eq_iff (entry.dc) dc,
      bytes_eq_iff dc (entry.dc),
      extend-nil (lookup dc hosts),
      lookup-common (entry.dc) dc hosts,
      lookup-assign (entry.dc) longer hosts,
      lookup-common (entry.dc) dc (assign (entry.dc) longer hosts),
      lookup-assign_other dc (entry.dc) longer hosts,
    )

hosts_for_dc-add_entries :
    (m : StaticDcMapper) (entries : List DcEntry) (dc : Bytes)
    → hosts_for_dc (add_entries m entries) dc ≡ extend (hosts_for_dc m dc) (listed entries dc)
unfolding add_entries listed
hosts_for_dc-add_entries m [] dc = sym (extend-nil (hosts_for_dc m dc))
hosts_for_dc-add_entries m (entry ∷ entries) dc = ground (
  arith,
  hosts_for_dc-add_entries (add_entry m entry) entries dc,
  hosts_for_dc-add_entry m entry dc,
  extend_append (hosts_for_dc m dc) (entry.host_addr) (listed entries dc),
  extend-nil (hosts_for_dc m dc),
)

has_name-append :
    (names : List Bytes) (x name : Bytes)
    → has_name (names ++ x ∷ []) name ≡ (has_name names name || bytes_eq x name)
unfolding has_name
has_name-append [] x name = ground arith
has_name-append (y ∷ names) x name = ground (arith, has_name-append names x name)

has_name_iff :
    (names : List Bytes) (name : Bytes) → has_name names name ≡ false → All (λ y. y ≢ name) names
unfolding has_name
has_name_iff [] name h = tt
has_name_iff (y ∷ names) name h =
    (ground (arith, bytes_eq_iff y name), has_name_iff names name (ground arith))

IsDistinct-snoc :
    (names : List Bytes) (x : Bytes)
    → All (λ y. y ≢ x) names
    → IsDistinct names
    → IsDistinct (names ++ x ∷ [])
IsDistinct-snoc [] x a d = (tt, tt)
IsDistinct-snoc (y ∷ names) x a d = (
  All-append (λ z. z ≢ y) names (x ∷ []) d.0 ((λ q. a.0 (sym q)), tt),
  IsDistinct-snoc names x a.1 d.1,
)

-- What holds of the names after each entry.
record IsListing (m : StaticDcMapper) : Type 0 where
  distinct : IsDistinct m.all_dcs
  known : (dc : Bytes) → has_name m.all_dcs dc ≡ is_some (hosts_for_dc m dc)

add_entry-IsListing :
    (m : StaticDcMapper) (entry : DcEntry) → IsListing m → IsListing (add_entry m entry)
unfolding add_entry
add_entry-IsListing m entry h = record {
  distinct = elim (Bool-cases (has_name m.all_dcs entry.dc)) [
    | inl e ↦ rw e h.distinct
    | inr e ↦
        rw e (IsDistinct-snoc m.all_dcs entry.dc (has_name_iff m.all_dcs entry.dc e) h.distinct)
  ];
  known = λ dc. ground (
    arith,
    h.known dc,
    h.known (entry.dc),
    hosts_for_dc-add_entry m entry dc,
    has_name-append m.all_dcs (entry.dc) dc,
    bytes_eq_iff (entry.dc) dc,
    Option-cases (hosts_for_dc m dc),
  );
}

add_entries-IsListing :
    (m : StaticDcMapper) (entries : List DcEntry) → IsListing m → IsListing (add_entries m entries)
unfolding add_entries
add_entries-IsListing m [] h = h
add_entries-IsListing m (entry ∷ entries) h =
    add_entries-IsListing (add_entry m entry) entries (add_entry-IsListing m entry h)

new_dc_mapper-IsListing : (entries : List DcEntry) → IsListing (new_dc_mapper entries)
unfolding new_dc_mapper has_name hosts_for_dc
new_dc_mapper-IsListing entries =
    add_entries-IsListing _ entries (record { distinct = tt; known = λ dc. refl })

-- The hosts of a data center are the addresses that the entries list for it, in their order, and
-- there are none for one that no entry names; the list of all data centers has each name once, and
-- exactly those that have hosts.
pub new_dc_mapper-hosts :
    (entries : List DcEntry) (dc : Bytes)
    → (hosts_for_dc (new_dc_mapper entries) dc ≡ extend none (listed entries dc))
      × IsDistinct (new_dc_mapper entries).all_dcs
      × (has_name (new_dc_mapper entries).all_dcs dc
          ≡ is_some (hosts_for_dc (new_dc_mapper entries) dc))
unfolding new_dc_mapper hosts_for_dc
new_dc_mapper-hosts entries dc =
    let h = new_dc_mapper-IsListing entries in
    (hosts_for_dc-add_entries _ entries dc, h.distinct, h.known dc)
