-- ===== src/FastController/Decisions.antt =====
-- What a child is told after the decisions of heyp/cluster-agent/fast-controller.cc.
use heyp_agents.Prelude.{
  ℕ, zero, suc, ◌-◌, ◌+◌, ◌<◌, ◌≤◌, Bool, true, false, List, [], ◌∷◌, ◌++◌, some, map, leb, ◌==◌,
  length, length-append, get_elem?, set, if◌then◌else◌, All, ◌≡◌, refl, ap, ◌∙◌, arith,
}
use heyp_agents.Markers.{FlowMarker}
use heyp_agents.Enforcer.{FlowAlloc}
use heyp_agents.FastController.{
  ChildState, falses, resize, set_agg_is_lopri, child_alloc, or_false, child_allocs, SentBundle,
  child_bundle, broadcast_state_if_updated, decide,
}

length-falses : (n : ℕ) → length (falses n) ≡ n
length-falses zero = refl
length-falses (suc n) = omega (arith, length-falses n)

length-set : (l : List Bool) (i : ℕ) (v : Bool) → length (set l i v) ≡ length l
length-set [] i v = refl
length-set (x ∷ l) zero v = refl
length-set (x ∷ l) (suc i) v = omega (arith, length-set l i v)

falses-at : (n j : ℕ) → or_false (get_elem? (falses n) j) ≡ false
falses-at zero j = refl
falses-at (suc n) zero = refl
falses-at (suc n) (suc j) = falses-at n j

padded-at :
    (l : List Bool) (n j : ℕ) → or_false (get_elem? (l ++ falses n) j) ≡ or_false (get_elem? l j)
padded-at [] n j = falses-at n j
padded-at (x ∷ l) n zero = refl
padded-at (x ∷ l) n (suc j) = padded-at l n j

set-at :
    (l : List Bool) (i j : ℕ) (v : Bool)
    → i < length l
    → or_false (get_elem? (set l i v) j) ≡ (if i == j then v else or_false (get_elem? l j))
set-at [] i j v h = ground arith
set-at (x ∷ l) zero zero v h = refl
set-at (x ∷ l) zero (suc j) v h = ground arith
set-at (x ∷ l) (suc i) zero v h = ground arith
set-at (x ∷ l) (suc i) (suc j) v h = ground (arith, set-at l i j v (omega arith))

set_agg_is_lopri-at :
    (i j : ℕ) (v : Bool) (l : List Bool)
    → or_false (get_elem? (set_agg_is_lopri i v l) j)
      ≡ (if i == j then v else or_false (get_elem? l j))
unfolding set_agg_is_lopri
set_agg_is_lopri-at i j v l = ground (
  arith,
  set-at (resize l (i + 1)) i j v,
  set-at l i j v,
  padded-at l (i + 1 - length l) j,
  length-append l (falses (i + 1 - length l)),
  length-falses (i + 1 - length l),
)

length-set_agg_is_lopri :
    (i n : ℕ) (v : Bool) (l : List Bool)
    → i < n
    → length l ≤ n
    → length (set_agg_is_lopri i v l) ≤ n
unfolding set_agg_is_lopri
length-set_agg_is_lopri i n v l h k = ground (
  arith,
  length-set (resize l (i + 1)) i v,
  length-set l i v,
  length-append l (falses (i + 1 - length l)),
  length-falses (i + 1 - length l),
)

abbrev decide_flags : List (ℕ × Bool) → List Bool → List Bool
decide_flags [] l = l
decide_flags (d ∷ ds) l = decide_flags ds (set_agg_is_lopri (d.0) (d.1) l)

-- The last decision on an aggregate, or what it was before.
abbrev pub latest : List (ℕ × Bool) → ℕ → Bool → Bool
latest [] j was = was
latest (d ∷ ds) j was = latest ds j (if d.0 == j then d.1 else was)

decide_flags-at :
    (ds : List (ℕ × Bool)) (l : List Bool) (j : ℕ)
    → or_false (get_elem? (decide_flags ds l) j) ≡ latest ds j (or_false (get_elem? l j))
decide_flags-at [] l j = refl
decide_flags-at (d ∷ ds) l j =
    decide_flags-at ds (set_agg_is_lopri (d.0) (d.1) l) j
    ∙ ap (latest ds j) (set_agg_is_lopri-at (d.0) j (d.1) l)

length-decide_flags :
    (n : ℕ) (ds : List (ℕ × Bool)) (l : List Bool)
    → All (λ d. d.0 < n) ds
    → length l ≤ n
    → length (decide_flags ds l) ≤ n
length-decide_flags n [] l h k = k
length-decide_flags n (d ∷ ds) l h k =
    length-decide_flags n ds (set_agg_is_lopri (d.0) (d.1) l) h.1
      (length-set_agg_is_lopri (d.0) n (d.1) l h.0 k)

-- The allocations that tell of a choice for each aggregate.
unfoldable pub told : (ℕ → Bool) → ℕ → List FlowMarker → List FlowAlloc
told lopri i [] = []
told lopri i (flow ∷ flows) = child_alloc flow (lopri i) ∷ told lopri (i + 1) flows

child_allocs-told :
    (l : List Bool) (lopri : ℕ → Bool) (i : ℕ) (flows : List FlowMarker)
    → ((j : ℕ) → or_false (get_elem? l j) ≡ lopri j)
    → child_allocs l i flows ≡ told lopri i flows
unfolding child_allocs told
child_allocs-told l lopri i [] h = refl
child_allocs-told l lopri i (flow ∷ flows) h =
    ap (λ b. child_alloc flow b ∷ child_allocs l (i + 1) flows) (h i)
    ∙ ap (λ k. child_alloc flow (lopri i) ∷ k) (child_allocs-told l lopri (i + 1) flows h)

module _ {F : Type 0} where
  unfoldable pub decide_all : ChildState F → List (ℕ × Bool) → ChildState F
  unfolding decide
  decide_all state [] = state
  decide_all state (d ∷ ds) = decide_all (decide state d) ds

  decided : ChildState F → List (ℕ × Bool) → ChildState F
  decided state ds = record state {
    agg_is_lopri = decide_flags ds state.agg_is_lopri;
    broadcasted_latest_state = false;
  }

  decide_all-decided :
      (state : ChildState F) (d : ℕ × Bool) (ds : List (ℕ × Bool))
      → decide_all state (d ∷ ds) ≡ decided state (d ∷ ds)
  unfolding decide_all decided
  decide_all-decided state d [] = refl
  decide_all-decided state d (e ∷ ds) = decide_all-decided (decide state d) e ds

  -- What a child is told once it is decided on.
  abbrev pub latest_bundle : List FlowMarker → ChildState F → List (ℕ × Bool) → SentBundle
  latest_bundle agg_id2flow state ds = record {
    gen = if state.saw_data_this_run then state.gen_seen else 0;
    flow_allocs = told (λ j. latest ds j (or_false (get_elem? state.agg_is_lopri j))) 0 agg_id2flow;
  }

  if_updated-sends :
      (flows : List FlowMarker) (state : ChildState F)
      → leb (length state.agg_is_lopri) (length flows) ≡ true
      → broadcast_state_if_updated flows (record state { broadcasted_latest_state = false })
        ≡ some (
          record state { broadcasted_latest_state = true },
          map (λ f. (f, child_bundle flows state)) state.lis_new_bundle_funcs,
        )
  unfolding broadcast_state_if_updated child_bundle
  if_updated-sends flows state fits = rw fits refl

  if_updated-sent :
      (flows : List FlowMarker) (state : ChildState F)
      → broadcast_state_if_updated flows (record state { broadcasted_latest_state = true })
        ≡ some (record state { broadcasted_latest_state = true }, [])
  unfolding broadcast_state_if_updated
  if_updated-sent flows state = refl

  decided-told :
      (flows : List FlowMarker) (state : ChildState F) (ds : List (ℕ × Bool))
      → child_bundle flows (decided state ds) ≡ latest_bundle flows state ds
  unfolding decided child_bundle
  decided-told flows state ds =
      ap
        (λ k. record {
          gen = if state.saw_data_this_run then state.gen_seen else 0;
          flow_allocs = k;
        })
        (child_allocs-told (decide_flags ds state.agg_is_lopri)
          (λ j. latest ds j (or_false (get_elem? state.agg_is_lopri j))) 0 flows
          (decide_flags-at ds state.agg_is_lopri))

  -- A child has flags for at most the aggregates there are, and one or more decisions are made about
  -- some of these: the next broadcast does not stop the process and calls each of its listeners once,
  -- with a bundle in which each aggregate has the priority of the last decision on it, or that of before
  -- where there is none; a second broadcast calls nobody.
  pub decide_all-told :
      (agg_id2flow : List FlowMarker) (state : ChildState F) (d : ℕ × Bool) (ds : List (ℕ × Bool))
      → length state.agg_is_lopri ≤ length agg_id2flow
      → All (λ x. x.0 < length agg_id2flow) (d ∷ ds)
      → (after : ChildState F) × (broadcast_state_if_updated agg_id2flow (decide_all state (d ∷ ds))
          ≡ some (
            after,
            map (λ f. (f, latest_bundle agg_id2flow state (d ∷ ds))) state.lis_new_bundle_funcs,
          ))
        × (broadcast_state_if_updated agg_id2flow after ≡ some (after, []))
  unfolding decided
  decide_all-told agg_id2flow state d ds h k =
      let s = decided state (d ∷ ds) in
      let b = length-decide_flags (length agg_id2flow) (d ∷ ds) state.agg_is_lopri k h in
      let after = record s { broadcasted_latest_state = true } in
      (
        after,
        ap (broadcast_state_if_updated agg_id2flow) (decide_all-decided state d ds)
            ∙ if_updated-sends agg_id2flow s (ground (arith, b))
            ∙ ap (λ m. some (after, map (λ f. (f, m)) state.lis_new_bundle_funcs))
                (decided-told agg_id2flow state (d ∷ ds)),
        if_updated-sent agg_id2flow s,
      )
