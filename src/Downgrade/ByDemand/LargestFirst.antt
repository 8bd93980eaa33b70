-- ===== src/Downgrade/ByDemand/LargestFirst.antt =====
-- `LargestFirstDowngradeSelector::PickLOPRIChildren` (heyp/alg/downgrade/impl-largest-first.cc)
-- takes the children of greatest demand, as many as come closest to the demand that is wanted.
use heyp_agents.Prelude.{
  ℕ, zero, suc, ◌+◌, ◌≤◌, ◌<◌, ◌≡◌, ◌≢◌, ◌⊎◌, refl, ap, Bool, true, false, List, [], ◌∷◌, set, take,
  All, All-both, All-every, IsDistinct, ◌==◌, arith, inl, inr,
}
use heyp_agents.Prelude.Double.{Double}
use heyp_agents.Prelude.Algorithms.{
  sort, count, count-sort, IsSorted, sort-IsSorted, sort-IsDistinct,
}
use heyp_agents.Downgrade.View.{ChildFlowInfo}
use heyp_agents.Downgrade.Greedy.{
  volume_at, lopri_at, decide, is_not_empty, greedy_assign, flips, flips_last, stops,
}
use heyp_agents.Downgrade.Greedy.Gap.{gap}
use heyp_agents.Downgrade.ByDemand.{
  demand_order, children_sorted_by_dec_demand, indices_from, total_demand, all_hipri, largest_first,
}

-- The demand of the children with those indices.
abbrev pub demand_of : List ChildFlowInfo → List ℕ → ℕ
demand_of children [] = 0
demand_of children (i ∷ order) = volume_at children i + demand_of children order

-- The children with those indices are set to LOPRI.
abbrev pub downgrade_all : List ℕ → List Bool → List Bool
downgrade_all [] lopri = lopri
downgrade_all (i ∷ order) lopri = downgrade_all order (set lopri i true)

-- The first children of the order that come closest to the demand that is wanted, from a demand
-- that the bin has.
abbrev pub IsClosest : List ChildFlowInfo → ℕ → List ℕ → ℕ → ℕ → Type 0
IsClosest children want order cur m =
    (k : ℕ)
    → gap want (cur + demand_of children (take m order))
      ≤ gap want (cur + demand_of children (take k order))

-- `decide` with `punish_only_largest`.
decide-punish :
    (less : Bool) (want cur next : ℕ)
    → cur ≤ want
    → let r = decide true less want cur next in
      ((r ≡ flips) × (next ≤ want))
      ⊎ (((r ≡ stops) × (gap want cur ≤ gap want next) × (want ≤ next))
          ⊎ ((r ≡ flips_last) × (gap want next ≤ gap want cur) × (want ≤ next)))
unfolding decide
decide-punish less want cur next h = ground arith

-- A bin that is at least as full as wanted only gets further off.
gap_grows :
    (children : List ChildFlowInfo) (want cur : ℕ) (order : List ℕ) (k : ℕ)
    → want ≤ cur
    → gap want cur ≤ gap want (cur + demand_of children (take k order))
gap_grows children want cur order k h = omega arith

lopri_at-set :
    (lopri : List Bool) (i j : ℕ)
    → j ≢ i
    → lopri_at lopri j ≡ false
    → lopri_at (set lopri i true) j ≡ false
lopri_at-set [] i j h e = e
lopri_at-set (l ∷ lopri) zero zero h e = absurd (h refl)
lopri_at-set (l ∷ lopri) zero (suc j) h e = e
lopri_at-set (l ∷ lopri) (suc i) zero h e = e
lopri_at-set (l ∷ lopri) (suc i) (suc j) h e = lopri_at-set lopri i j (λ q. h (ap suc q)) e

IsClosest-empty : (children : List ChildFlowInfo) (want cur : ℕ) → IsClosest children want [] cur 0
IsClosest-empty children want cur zero = omega arith
IsClosest-empty children want cur (suc k) = omega arith

-- Taking one child more.
IsClosest-flips :
    (children : List ChildFlowInfo) (want cur i : ℕ) (order : List ℕ) (m : ℕ)
    → cur + volume_at children i ≤ want
    → IsClosest children want order (cur + volume_at children i) m
    → IsClosest children want (i ∷ order) cur (suc m)
IsClosest-flips children want cur i order m h c zero = omega (arith, c 0)
IsClosest-flips children want cur i order m h c (suc k) = omega (arith, c k)

IsClosest-stops :
    (children : List ChildFlowInfo) (want cur i : ℕ) (order : List ℕ)
    → want ≤ cur + volume_at children i
    → gap want cur ≤ gap want (cur + volume_at children i)
    → IsClosest children want (i ∷ order) cur 0
IsClosest-stops children want cur i order h g zero = omega arith
IsClosest-stops children want cur i order h g (suc k) = omega arith

IsClosest-flips_last :
    (children : List ChildFlowInfo) (want cur i : ℕ) (order : List ℕ)
    → want ≤ cur + volume_at children i
    → gap want (cur + volume_at children i) ≤ gap want cur
    → IsClosest children want (i ∷ order) cur 1
IsClosest-flips_last children want cur i order h g zero = omega arith
IsClosest-flips_last children want cur i order h g (suc k) = omega arith

greedy_assign-prefix :
    (want : ℕ) (children : List ChildFlowInfo) (order : List ℕ) (cur : ℕ) (lopri : List Bool)
    → cur ≤ want
    → IsDistinct order
    → All (λ i. lopri_at lopri i ≡ false) order
    → (m : ℕ) × ((greedy_assign true true want children order cur lopri).1
        ≡ downgrade_all (take m order) lopri)
      × IsClosest children want order cur m
unfolding greedy_assign
greedy_assign-prefix want children [] cur lopri h d f = (0, refl, IsClosest-empty children want cur)
greedy_assign-prefix want children (i ∷ order) cur lopri h d f =
    let next = cur + volume_at children i in
    elim (decide-punish (is_not_empty order) want cur next h) [
      | inl (e, b) ↦
          let off =
            All-both (λ j. j ≢ i) (λ j. lopri_at lopri j ≡ false)
              (λ j. lopri_at (set lopri i true) j ≡ false) order
              (λ j n o. lopri_at-set lopri i j n o) d.0 f.1 in
          let p = greedy_assign-prefix want children order next (set lopri i true) b d.1 off in
          (
            suc p.0,
            rw (greedy_assign, f.0, e) p.1,
            IsClosest-flips children want cur i order p.0 b p.2,
          )
      | inr (inl (e, g, b)) ↦
          (0, rw (greedy_assign, f.0, e) refl, IsClosest-stops children want cur i order b g)
      | inr (inr (e, g, b)) ↦
          (1, rw (greedy_assign, f.0, e) refl, IsClosest-flips_last children want cur i order b g)
    ]

indices_from-above :
    (i j : ℕ) (children : List ChildFlowInfo) → i < j → All (λ a. a ≢ i) (indices_from j children)
indices_from-above i j [] h = tt
indices_from-above i j (c ∷ children) h =
    (omega arith, indices_from-above i (suc j) children (omega arith))

indices_from-IsDistinct :
    (i : ℕ) (children : List ChildFlowInfo) → IsDistinct (indices_from i children)
indices_from-IsDistinct i [] = tt
indices_from-IsDistinct i (c ∷ children) =
    (indices_from-above i (suc i) children (omega arith), indices_from-IsDistinct (suc i) children)

lopri_at-all_hipri :
    (children : List ChildFlowInfo) (i : ℕ) → lopri_at (all_hipri children) i ≡ false
lopri_at-all_hipri [] i = refl
lopri_at-all_hipri (c ∷ children) zero = refl
lopri_at-all_hipri (c ∷ children) (suc i) = lopri_at-all_hipri children i

module _ (d : Double) where
  -- Where there is any demand, the children are sorted by demand, each once, and those that the
  -- selector sends at LOPRI are the first of them, as many as bring the demand at LOPRI closest to
  -- the demand that is wanted: no other number of first children is closer.
  pub largest_first-IsClosest :
      (children : List ChildFlowInfo) (frac : d.Carrier)
      → total_demand children ≢ 0
      → let order = children_sorted_by_dec_demand children in
        let want = d.trunc_times frac (total_demand children) in
        IsSorted ⦃o = demand_order children⦄ order
        × ((a : ℕ)
            → count ⦃o = demand_order children⦄ a order
              ≡ count ⦃o = demand_order children⦄ a (indices_from 0 children))
        × ((m : ℕ) × (largest_first d children frac
              ≡ downgrade_all (take m order) (all_hipri children))
            × IsClosest children want order 0 m)
  unfolding largest_first children_sorted_by_dec_demand
  largest_first-IsClosest children frac h =
      let z : (total_demand children == 0) ≡ false = ground arith in
      let o = demand_order children in
      let start = indices_from 0 children in
      (
        sort-IsSorted ⦃o = o⦄ start,
        λ a. count-sort ⦃o = o⦄ a start,
        rw (largest_first, z)
            (greedy_assign-prefix (d.trunc_times frac (total_demand children)) children
              (sort ⦃o = o⦄ start) 0 (all_hipri children) (omega arith)
              (sort-IsDistinct ⦃o = o⦄ start (indices_from-IsDistinct 0 children))
              (All-every (λ i. lopri_at (all_hipri children) i ≡ false) _
                (lopri_at-all_hipri children))),
      )
