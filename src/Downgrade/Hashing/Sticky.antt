-- ===== src/Downgrade/Hashing/Sticky.antt =====
-- The hashing selector keeps every child's assignment in step with the ring
-- (heyp/alg/downgrade/impl-hashing.cc with heyp/alg/downgrade/iface.cc).
use heyp_agents.Prelude.Double.{Double, HasGrid}
use heyp_agents.Prelude.{
  subst, ℕ, ◌^◌, ◌≤◌, ◌<◌, ◌≡◌, refl, ap, ◌∙◌, sym, Bool, false, List, [], ◌∷◌, map, All, All-both,
  none, some, if◌then◌else◌, arith,
}
use heyp_agents.HashRing.{
  RingRanges, RangeDiffType, k_add, k_del, ring_contains, HashRing, update_frac, matching_ranges,
}
use mathlib.Core.Bool.{xor}
use heyp_agents.HashRing.Exact.{
  grid_ring, update_frac-exact, is_addition, matching_ranges-on_arc, update_frac-grid, next_start,
  next_start_bound,
}
use heyp_agents.HashRing.History.{initial-grid}
use heyp_agents.Downgrade.View.{ChildFlowInfo}
use heyp_agents.Downgrade.Diff.{LastIsLopri, initial_lopri, pick_lopri_children}
use heyp_agents.Downgrade.Diff.Laws.{
  in_ranges, decision, HasDistinctIds, pick_lopri_children-decision,
}
use heyp_agents.Downgrade.Hashing.{
  pushed_ranges, to_diff, HashingDowngradeSelector, new_selector, is_lopri, pick_children,
  pick_lopri,
}

in_pushed_ranges : (r : RingRanges) (id : ℕ) → in_ranges (pushed_ranges r) id ≡ ring_contains r id
unfolding pushed_ranges ring_contains
in_pushed_ranges r id = ground arith

-- A child's assignment is turned by the difference alone.
decision-to_diff :
    (t : RangeDiffType) (r : RingRanges) (last : LastIsLopri) (c : ChildFlowInfo)
    → decision (to_diff t (pushed_ranges r)) last c
      ≡ (if ring_contains r c.child_id then is_addition t else initial_lopri last c)
unfolding to_diff
decision-to_diff k_add r last c = ground (arith, in_pushed_ranges r c.child_id)
decision-to_diff k_del r last c = ground (arith, in_pushed_ranges r c.child_id)

map-equal :
    (f g : ChildFlowInfo → Bool) (children : List ChildFlowInfo)
    → All (λ c. (c.child_id < 2 ^ 64) × (f c ≡ g c)) children
    → map f children ≡ map g children
map-equal f g [] h = refl
map-equal f g (c ∷ children) h = cc (h.0.1, map-equal f g children h.1)

initial_lopri-some :
    (last : LastIsLopri) (c : ChildFlowInfo) (b : Bool)
    → last c.child_id ≡ some b
    → initial_lopri last c ≡ b
unfolding initial_lopri
initial_lopri-some last c b e = rw (initial_lopri, e) refl

module _ (d : Double) (g : HasGrid d) where
  open g use {grid}

  abbrev pub grid_selector : ℕ → ℕ → LastIsLopri → HashingDowngradeSelector d
  grid_selector start i last = record { lopri = grid_ring d g start i; last_is_lopri = last }

  -- What the ring says of a child.
  abbrev pub says : HashRing d → ChildFlowInfo → Bool
  says ring c = ring_contains (matching_ranges d ring) c.child_id

  abbrev pub Says : HashRing d → (ChildFlowInfo → Bool) → ChildFlowInfo → Type 0
  Says ring f c = (c.child_id < 2 ^ 64) × (f c ≡ says ring c)

  -- Every child's remembered or reported assignment is what the ring says.
  abbrev pub IsInStep : HashingDowngradeSelector d → List ChildFlowInfo → Type 0
  IsInStep s children = All (Says s.lopri (initial_lopri s.last_is_lopri)) children

  decision-is_lopri :
      (start i j : ℕ) (last : LastIsLopri) (c : ChildFlowInfo)
      → start < 2 ^ 64
      → i ≤ 2 ^ 32
      → j ≤ 2 ^ 32
      → c.child_id < 2 ^ 64
      → initial_lopri last c ≡ ring_contains (matching_ranges d (grid_ring d g start i)) c.child_id
      → decision (pick_children d (grid_ring d g start i) (grid j)).1 last c
        ≡ ring_contains
            (matching_ranges d (pick_children d (grid_ring d g start i) (grid j)).0)
            c.child_id
  unfolding pick_children xor
  decision-is_lopri start i j last c hs hi hj hid e =
      let q = update_frac d (grid_ring d g start i) (grid j) in
      let x = update_frac-exact d g start i j c.child_id hs hi hj hid in
      decision-to_diff q.1.diff_type q.1.diff last c ∙ ground (arith, x)

  -- What one call does to a list of children that were in step: all are in step again, and the
  -- assignment returned is the ring's.
  pub pick_lopri-is_lopri :
      (start i j : ℕ) (last : LastIsLopri) (children : List ChildFlowInfo)
      → start < 2 ^ 64
      → i ≤ 2 ^ 32
      → j ≤ 2 ^ 32
      → HasDistinctIds children
      → IsInStep (grid_selector start i last) children
      → let r = pick_lopri d (grid_selector start i last) children (grid j) in
        (r.1 ≡ map (λ c. is_lopri d r.0 c.child_id) children) × IsInStep r.0 children
  unfolding pick_lopri is_lopri
  pick_lopri-is_lopri start i j last children hs hi hj h s =
      let q = pick_children d (grid_ring d g start i) (grid j) in
      let l = pick_lopri_children-decision q.1 last children h in
      let before = Says (grid_ring d g start i) (initial_lopri last) in
      let decided = Says q.0 (decision q.1 last) in
      let kept = (pick_lopri_children q.1 last children).0 in
      let agree =
        All-both before before decided children
          (λ c p e. (p.0, decision-is_lopri start i j last c hs hi hj p.0 p.1)) s s in
      (
        l.0 ∙ map-equal _ _ children agree,
        All-both decided (λ c. kept c.child_id ≡ some (decision q.1 last c))
            (Says q.0 (initial_lopri kept)) children
            (λ c p k. (p.0, initial_lopri-some kept c _ (k ∙ ap some p.1))) agree l.1,
      )

  -- The selector after calls with those fractions, in chunks of 2^-32, on the same children.
  pub picks : HashingDowngradeSelector d → List ChildFlowInfo → List ℕ → HashingDowngradeSelector d
  picks s children [] = s
  picks s children (j ∷ wants) = picks (pick_lopri d s children (grid j)).0 children wants

  pick_lopri-grid :
      (start i j : ℕ) (last : LastIsLopri) (children : List ChildFlowInfo)
      → i ≤ 2 ^ 32
      → j ≤ 2 ^ 32
      → let s = grid_selector start i last in
        (pick_lopri d s children (grid j)).0 ≡ record {
          lopri = grid_ring d g (next_start start i j) j;
          last_is_lopri = (pick_lopri d s children (grid j)).0.last_is_lopri;
        }
  unfolding pick_lopri pick_children
  pick_lopri-grid start i j last children hi hj = rw (update_frac-grid d g start i j hi hj) refl

  picks-keep :
      (start i : ℕ) (last : LastIsLopri) (children : List ChildFlowInfo) (wants : List ℕ) (j : ℕ)
      → start < 2 ^ 64
      → i ≤ 2 ^ 32
      → All (λ k. k ≤ 2 ^ 32) wants
      → j ≤ 2 ^ 32
      → HasDistinctIds children
      → IsInStep (grid_selector start i last) children
      → let s = picks (grid_selector start i last) children wants in
        let r = pick_lopri d s children (grid j) in
        r.1 ≡ map (λ c. is_lopri d r.0 c.child_id) children
  unfolding picks
  picks-keep start i last children [] j hs hi hw hj h s =
      (pick_lopri-is_lopri start i j last children hs hi hj h s).0
  picks-keep start i last children (k ∷ wants) j hs hi hw hj h s =
      let e = pick_lopri-grid start i k last children hi hw.0 in
      let t = (pick_lopri-is_lopri start i k last children hs hi hw.0 h s).1 in
      rw e (
        picks-keep (next_start start i k) k _ children wants j (next_start_bound start i k hs) hw.0
          hw.1 hj h (subst (λ x. IsInStep x children) e t))

  initial-IsInStep :
      (children : List ChildFlowInfo)
      → All (λ c. (c.child_id < 2 ^ 64) × (c.currently_lopri ≡ false)) children
      → IsInStep (grid_selector 0 0 (λ id. none)) children
  unfolding initial_lopri ring_contains
  initial-IsInStep [] h = tt
  initial-IsInStep (c ∷ children) h = (
    (
      h.0.0,
      h.0.1
          ∙ sym (
              matching_ranges-on_arc d g 0 0 c.child_id (omega arith) (omega arith) h.0.0
              ∙ ground arith),
    ),
    initial-IsInStep children h.1,
  )

  -- A new selector that is asked for fractions on the grid and at most 1, any number of times, for
  -- the same children, no two with one id and all at HIPRI at first, returns each time exactly the
  -- assignment that its ring makes of every child's id, although it only ever turns the children
  -- that the differences name.
  pub picks-is_lopri :
      (children : List ChildFlowInfo) (wants : List ℕ) (j : ℕ)
      → HasDistinctIds children
      → All (λ c. (c.child_id < 2 ^ 64) × (c.currently_lopri ≡ false)) children
      → All (λ k. k ≤ 2 ^ 32) wants
      → j ≤ 2 ^ 32
      → let r = pick_lopri d (picks (new_selector d) children wants) children (grid j) in
        r.1 ≡ map (λ c. is_lopri d r.0 c.child_id) children
  unfolding new_selector
  picks-is_lopri children wants j h hc hw hj = rw (initial-grid d g) (
      picks-keep 0 0 (λ id. none) children wants j (omega arith) (omega arith) hw hj h
        (initial-IsInStep children hc))
