-- ===== src/Cluster/Broadcast.antt =====
-- Which listeners a broadcast of heyp/cluster-agent/full-controller.cc calls.
use heyp_agents.Prelude.Maps.{
  lookup, assign, matches, IsMap, IsMap-assign, matches-some, matches-none, extend,
  lookup-assign_if, matches-assign_new, matches-erase_same, erase, matches-other,
}
use heyp_agents.Prelude.{
  ℕ, ◌+◌, ◌≤◌, Bool, false, ◌&&◌, List, [], ◌∷◌, ◌++◌, ◌==◌, Option, none, some, total,
  total-append, All, All-append, All-both, All-every, if◌then◌else◌, ◌≡◌, ◌≢◌, refl, ap, sym, ◌∙◌,
  arith,
}
use heyp_agents.Enforcer.{FlowAlloc}
use heyp_agents.Cluster.{
  BundleMap, id_keys, add_to_host, add_set, add_sets, bundle_by_host, or_no_allocs, Listener, Call,
  or_no_funcs, host_calls, broadcast, FullController, register_listener, remove_listener,
}
use heyp_agents.Cluster.Intended.{all_allocs, for_host, bundle_by_host-for_host}

module _ {F : Type 0} where
  abbrev is_call : Listener → Call F → ℕ
  is_call lis c =
      if c.listener.host_id == lis.host_id && c.listener.lis_id == lis.lis_id then 1 else 0

  -- How often a listener is called.
  abbrev pub calls_of : Listener → List (Call F) → ℕ
  calls_of lis calls = total (is_call lis) calls

  -- How often it is registered.
  abbrev pub registered : Listener → List (ℕ × List (ℕ × F)) → ℕ
  registered lis funcs = matches lis.lis_id (or_no_funcs (lookup lis.host_id funcs))

  calls_of-host_calls :
      (lis : Listener) (host : ℕ) (bundle : List FlowAlloc) (funcs : List (ℕ × F))
      → calls_of lis (host_calls host bundle funcs)
        ≡ (if host == lis.host_id then matches lis.lis_id funcs else 0)
  unfolding id_keys
  calls_of-host_calls lis host bundle [] = ground arith
  calls_of-host_calls lis host bundle (x ∷ funcs) =
      ground (arith, calls_of-host_calls lis host bundle funcs)

  calls_of-broadcast :
      (lis : Listener) (funcs : List (ℕ × List (ℕ × F))) (bundles : BundleMap)
      → calls_of lis (broadcast funcs bundles)
        ≡ total (λ x. if x.0 == lis.host_id then registered lis funcs else 0) bundles
  unfolding broadcast
  calls_of-broadcast lis funcs [] = refl
  calls_of-broadcast lis funcs (x ∷ bundles) =
      let inner = host_calls (x.0) (x.1) (or_no_funcs (lookup (x.0) funcs)) in
      ground (
        arith,
        total-append (is_call lis) inner (broadcast funcs bundles),
        calls_of-host_calls lis (x.0) (x.1) (or_no_funcs (lookup (x.0) funcs)),
        calls_of-broadcast lis funcs bundles,
        ap (λ h. registered (record { host_id = h; lis_id = lis.lis_id }) funcs),
      )

once_in_map :
    (host k : ℕ) (m : BundleMap)
    → matches host m ≤ 1
    → total (λ x. if x.0 == host then k else 0) m
      ≡ (elim (lookup host m) [ none ↦ 0 | some allocs ↦ k ])
unfolding id_keys
once_in_map host k [] h = refl
once_in_map host k (x ∷ m) h = ground (arith, once_in_map host k m, matches-none host m)

add_set-IsMap : (m : BundleMap) (allocs : List FlowAlloc) → IsMap m → IsMap (add_set m allocs)
unfolding add_set
add_set-IsMap m [] h = h
add_set-IsMap m (a ∷ allocs) h =
    add_set-IsMap (add_to_host m a) allocs
      (IsMap-assign a.flow.host_id (or_no_allocs (lookup a.flow.host_id m) ++ a ∷ []) m h)

add_sets-IsMap : (m : BundleMap) (sets : List (List FlowAlloc)) → IsMap m → IsMap (add_sets m sets)
unfolding add_sets
add_sets-IsMap m [] h = h
add_sets-IsMap m (allocs ∷ sets) h =
    add_sets-IsMap (add_set m allocs) sets (add_set-IsMap m allocs h)

bundle_by_host-IsMap : (sets : List (List FlowAlloc)) → IsMap (bundle_by_host sets)
unfolding bundle_by_host
bundle_by_host-IsMap sets = add_sets-IsMap [] sets (λ k. omega arith)

-- In a map each entry is what is looked up under its key.
map_entries : (m : BundleMap) → IsMap m → All (λ x. lookup (x.0) m ≡ some (x.1)) m
unfolding id_keys
map_entries [] h = tt
map_entries (x ∷ m) h = (
  ground arith,
  All-both (λ y. lookup (y.0) m ≡ some (y.1)) (λ y. Unit {0})
      (λ y. lookup (y.0) (x ∷ m) ≡ some (y.1)) m
      (λ y p _. ground (arith, h (y.0), matches-some (y.0) (y.1) m p))
      (map_entries m (λ k. omega (arith, h k))) (All-every (λ y. Unit {0}) m (λ y. tt)),
)

some_allocs : (l k : List FlowAlloc) → extend none l ≡ some k → k ≡ l
some_allocs [] k h = cc
some_allocs (x ∷ l) k h = cc

entries_for_host :
    (sets : List (List FlowAlloc))
    → All (λ x. x.1 ≡ for_host (x.0) (all_allocs sets)) (bundle_by_host sets)
entries_for_host sets =
    let m = bundle_by_host sets in
    All-both (λ x. lookup (x.0) m ≡ some (x.1)) (λ x. Unit {0})
      (λ x. x.1 ≡ for_host (x.0) (all_allocs sets)) m
      (λ x p _.
        some_allocs (for_host (x.0) (all_allocs sets)) (x.1)
          (sym (bundle_by_host-for_host sets (x.0)) ∙ p))
      (map_entries m (bundle_by_host-IsMap sets)) (All-every (λ x. Unit {0}) m (λ x. tt))

module _ {F : Type 0} (all : List FlowAlloc) where
  abbrev pub HasBundle : Call F → Type 0
  HasBundle c = c.bundle ≡ for_host c.listener.host_id all

  host_calls-HasBundle :
      (host : ℕ) (bundle : List FlowAlloc) (funcs : List (ℕ × F))
      → bundle ≡ for_host host all
      → All HasBundle (host_calls host bundle funcs)
  host_calls-HasBundle host bundle [] h = tt
  host_calls-HasBundle host bundle (x ∷ funcs) h = (h, host_calls-HasBundle host bundle funcs h)

  broadcast-HasBundle :
      (funcs : List (ℕ × List (ℕ × F))) (bundles : BundleMap)
      → All (λ x. x.1 ≡ for_host (x.0) all) bundles
      → All HasBundle (broadcast funcs bundles)
  unfolding broadcast
  broadcast-HasBundle funcs [] h = tt
  broadcast-HasBundle funcs (x ∷ bundles) h =
      let inner = host_calls (x.0) (x.1) (or_no_funcs (lookup (x.0) funcs)) in
      All-append HasBundle inner (broadcast funcs bundles)
        (host_calls-HasBundle (x.0) (x.1) (or_no_funcs (lookup (x.0) funcs)) h.0)
        (broadcast-HasBundle funcs bundles h.1)

abbrev pub called : List FlowAlloc → ℕ → ℕ
called [] times = 0
called (a ∷ allocs) times = times

called_lem :
    (l : List FlowAlloc) (k : ℕ)
    → (elim (extend none l) as (λ _. ℕ) [ none ↦ 0 | some allocs ↦ k ]) ≡ called l k
called_lem [] k = refl
called_lem (x ∷ l) k = refl

-- A broadcast of the allocations of some sets calls each listener as often as it is registered where
-- its host has an allocation, and else not at all, and every call hands over all allocations for the
-- listener's host, in the order of the sets, and no other.
pub broadcast-calls_of :
    {F : Type 0} (funcs : List (ℕ × List (ℕ × F))) (sets : List (List FlowAlloc)) (lis : Listener)
    → let calls = broadcast funcs (bundle_by_host sets) in
      (calls_of lis calls ≡ called (for_host lis.host_id (all_allocs sets)) (registered lis funcs))
      × All (HasBundle (all_allocs sets)) calls
broadcast-calls_of funcs sets lis =
    let m = bundle_by_host sets in
    let all = all_allocs sets in
    (
      calls_of-broadcast lis funcs m
          ∙ once_in_map lis.host_id (registered lis funcs) m (bundle_by_host-IsMap sets lis.host_id)
          ∙ ap
              (λ (o : Option (List FlowAlloc)). elim o [
                | none ↦ 0
                | some allocs ↦ registered lis funcs
              ])
              (bundle_by_host-for_host sets lis.host_id)
          ∙ called_lem (for_host lis.host_id all) (registered lis funcs),
      broadcast-HasBundle all funcs m (entries_for_host sets),
    )

matches-erase_other :
    {F : Type 0} (j k : ℕ) (m : List (ℕ × F))
    → (j == k) ≡ false
    → matches j (erase k m) ≡ matches j m
unfolding id_keys
matches-erase_other j k [] h = refl
matches-erase_other j k (x ∷ m) h = ground (arith, matches-erase_other j k m)

unused_lem : {F : Type 0} (m : List (ℕ × F)) (k : ℕ) → lookup k m ≡ none → matches k m ≡ 0
unused_lem m k h = matches-other k k m h (id_keys.eq_refl k)

called-zero : (l : List FlowAlloc) → called l 0 ≡ 0
called-zero [] = refl
called-zero (a ∷ l) = refl

abbrev pub same_listener : Listener → Listener → Bool
same_listener a b = a.host_id == b.host_id && a.lis_id == b.lis_id

module _ {Aux F : Type 0} where
  register_listener-registered :
      (host : ℕ) (f : F) (s : FullController Aux F) (other : Listener)
      → lookup s.next_lis_id (or_no_funcs (lookup host s.new_bundle_funcs)) ≡ none
      → let (lis, s') = register_listener host f s in
        registered other s'.new_bundle_funcs
        ≡ registered other s.new_bundle_funcs + (if same_listener other lis then 1 else 0)
  unfolding register_listener id_keys
  register_listener-registered host f s other n =
      let old = or_no_funcs (lookup host s.new_bundle_funcs) in
      ground (
        arith,
        lookup-assign_if other.host_id host (assign s.next_lis_id f old) s.new_bundle_funcs,
        matches-assign_new other.lis_id s.next_lis_id f old n,
        ap (λ h. lookup h s.new_bundle_funcs),
      )

  remove_listener-registered :
      (lis : Listener) (s : FullController Aux F) (other : Listener)
      → lis.host_id ≢ 0
      → registered lis s.new_bundle_funcs ≤ 1
      → registered other (remove_listener lis s).new_bundle_funcs
        ≡ (if same_listener other lis then 0 else registered other s.new_bundle_funcs)
  unfolding remove_listener id_keys
  remove_listener-registered lis s other z m =
      let old = or_no_funcs (lookup lis.host_id s.new_bundle_funcs) in
      ground (
        arith,
        lookup-assign_if other.host_id lis.host_id (erase lis.lis_id old) s.new_bundle_funcs,
        matches-erase_same lis.lis_id old,
        matches-erase_other other.lis_id lis.lis_id old,
      )

  -- The id that the next listener gets is not in use for a host.
  abbrev pub IsUnused : ℕ → FullController Aux F → Type 0
  IsUnused host s = lookup s.next_lis_id (or_no_funcs (lookup host s.new_bundle_funcs)) ≡ none

  -- A listener that registers for a host, other than the one with id 0, with an unused id: a broadcast
  -- then calls it exactly once where its host has an allocation, and else not at all; once it is
  -- removed no broadcast calls it; and any other listener is registered as often as before.
  pub listener-called_once :
      (host : ℕ) (f : F) (s : FullController Aux F) (sets : List (List FlowAlloc))
      (other : Listener)
      → host ≢ 0
      → IsUnused host s
      → let r = register_listener host f s in
        let after = remove_listener (r.0) (r.1) in
        let bundles = bundle_by_host sets in
        (calls_of (r.0) (broadcast r.1.new_bundle_funcs bundles)
          ≡ called (for_host host (all_allocs sets)) 1)
        × (calls_of (r.0) (broadcast after.new_bundle_funcs bundles) ≡ 0)
        × (same_listener other (r.0) ≡ false
            → registered other after.new_bundle_funcs ≡ registered other s.new_bundle_funcs)
  unfolding register_listener
  listener-called_once host f s sets other z n =
      let r = register_listener host f s in
      let lis : Listener = record { host_id = host; lis_id = s.next_lis_id } in
      let after = remove_listener lis (r.1) in
      let none_yet = unused_lem (or_no_funcs (lookup host s.new_bundle_funcs)) s.next_lis_id n in
      let one : registered lis r.1.new_bundle_funcs ≡ 1 =
        ground (arith, register_listener-registered host f s lis n, none_yet) in
      let gone : registered lis after.new_bundle_funcs ≡ 0 =
        ground (arith, remove_listener-registered lis (r.1) lis z (omega (arith, one))) in
      (
        (broadcast-calls_of r.1.new_bundle_funcs sets lis).0
            ∙ ap (called (for_host host (all_allocs sets))) one,
        (broadcast-calls_of after.new_bundle_funcs sets lis).0
            ∙ ap (called (for_host host (all_allocs sets))) gone
            ∙ called-zero (for_host host (all_allocs sets)),
        λ d. ground (
          arith,
          register_listener-registered host f s other n,
          remove_listener-registered lis (r.1) other z (omega (arith, one)),
        ),
      )
