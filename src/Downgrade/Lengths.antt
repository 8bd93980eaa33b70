-- ===== src/Downgrade/Lengths.antt =====
-- Each selector of heyp/alg/downgrade returns one choice per child.
use heyp_agents.Prelude.{
  none, if◌then◌else◌, ℕ, suc, ◌≡◌, ◌∙◌, refl, Bool, true, false, List, [], ◌∷◌, set, map, ◌+◌, ◌-◌,
  Option-cases, length, some, inl, inr, arith, ◌+◌, ◌-◌, Option-cases,
}
use heyp_agents.Prelude.Double.{Double}
use heyp_agents.HashRing.{IdRange}
use heyp_agents.Downgrade.View.{ChildFlowInfo}
use heyp_agents.Downgrade.Greedy.{volume_at, greedy_assign}
use heyp_agents.Downgrade.Greedy.Gap.{length-set}
use heyp_agents.Downgrade.ByDemand.{
  lopri_demand, children_sorted_by_dec_demand, all_hipri, largest_first, heyp_sigcomm_20,
  total_demand,
}
use heyp_agents.Downgrade.Diff.{
  DowngradeDiff, LastIsLopri, initial_lopri, mark_range, mark_ranges, mark_point, mark_points,
  id2index, apply_diff, pick_lopri_children,
}
use heyp_agents.Downgrade.Hashing.{HashingDowngradeSelector, pick_lopri}
use heyp_agents.Downgrade.Knapsack.{KnapsackSolver, contained, knapsack}

length-map :
    (f : ChildFlowInfo → Bool) (children : List ChildFlowInfo)
    → length (map f children) ≡ length children
length-map f [] = refl
length-map f (c ∷ children) = omega (arith, length-map f children)

length-greedy_assign :
    (state punish : Bool) (want : ℕ) (children : List ChildFlowInfo) (order : List ℕ) (cur : ℕ)
    (lopri : List Bool)
    → length (greedy_assign state punish want children order cur lopri).1 ≡ length lopri
unfolding greedy_assign
length-greedy_assign state punish want children [] cur lopri = refl
length-greedy_assign state punish want children (i ∷ order) cur lopri = ground (
  arith,
  length-set lopri i state,
  length-greedy_assign state punish want children order cur lopri,
  length-greedy_assign state punish want children order (cur + volume_at children i)
      (set lopri i state),
)

length-mark_range :
    (mark : Bool) (r : IdRange) (children : List ChildFlowInfo) (lopri : List Bool)
    → length lopri ≡ length children
    → length (mark_range mark r children lopri) ≡ length children
unfolding mark_range
length-mark_range mark r [] lopri h = h
length-mark_range mark r (c ∷ children) [] h = h
length-mark_range mark r (c ∷ children) (l ∷ lopri) h =
    omega (arith, length-mark_range mark r children lopri (omega arith))

length-mark_ranges :
    (mark : Bool) (rs : List IdRange) (children : List ChildFlowInfo) (lopri : List Bool)
    → length lopri ≡ length children
    → length (mark_ranges mark rs children lopri) ≡ length children
unfolding mark_ranges
length-mark_ranges mark [] children lopri h = h
length-mark_ranges mark (r ∷ rs) children lopri h =
    length-mark_ranges mark rs children _ (length-mark_range mark r children lopri h)

length-mark_point :
    (mark : Bool) (p : ℕ) (children : List ChildFlowInfo) (lopri : List Bool)
    → length (mark_point mark p children lopri) ≡ length lopri
unfolding mark_point
length-mark_point mark p children lopri = elim (Option-cases (id2index children p)) [
  | inl n ↦ ground arith
  | inr (i, n) ↦ ground (arith, length-set lopri i mark)
]

length-mark_points :
    (mark : Bool) (ps : List ℕ) (children : List ChildFlowInfo) (lopri : List Bool)
    → length (mark_points mark ps children lopri) ≡ length lopri
unfolding mark_points
length-mark_points mark [] children lopri = refl
length-mark_points mark (p ∷ ps) children lopri =
    length-mark_points mark ps children _ ∙ length-mark_point mark p children lopri

length-pick_lopri_children :
    (diff : DowngradeDiff) (last : LastIsLopri) (children : List ChildFlowInfo)
    → length (pick_lopri_children diff last children).1 ≡ length children
unfolding pick_lopri_children apply_diff
length-pick_lopri_children diff last children =
    let first = map (initial_lopri last) children in
    let down = mark_ranges true diff.to_downgrade.ranges children first in
    let downgraded = mark_points true diff.to_downgrade.points children down in
    let up = mark_ranges false diff.to_upgrade.ranges children downgraded in
    length-mark_points false diff.to_upgrade.points children up
    ∙ length-mark_ranges false diff.to_upgrade.ranges children downgraded (
        length-mark_points true diff.to_downgrade.points children down
        ∙ length-mark_ranges true diff.to_downgrade.ranges children first
            (length-map (initial_lopri last) children))

module _ (d : Double) where
  pub length-pick_lopri :
      (s : HashingDowngradeSelector d) (children : List ChildFlowInfo) (f : d.Carrier)
      → length (pick_lopri d s children f).1 ≡ length children
  unfolding pick_lopri
  length-pick_lopri s children f = length-pick_lopri_children _ s.last_is_lopri children

  pub length-largest_first :
      (children : List ChildFlowInfo) (f : d.Carrier)
      → length (largest_first d children f) ≡ length children
  unfolding largest_first
  length-largest_first children f =
      let want = d.trunc_times f (total_demand children) in
      let order = children_sorted_by_dec_demand children in
      ground (
        arith,
        length-map (λ c. false) children,
        length-greedy_assign true true want children order 0 (all_hipri children),
      )

  pub length-heyp_sigcomm_20 :
      (quotient : ℕ → ℕ → d.Carrier) (children : List ChildFlowInfo) (f : d.Carrier)
      → length (heyp_sigcomm_20 d quotient children f) ≡ length children
  unfolding heyp_sigcomm_20
  length-heyp_sigcomm_20 quotient children f =
      let total = total_demand children in
      let lopri = lopri_demand children in
      let now = map (λ c. c.currently_lopri) children in
      let order = children_sorted_by_dec_demand children in
      let want_hipri = d.trunc_times (d.minus d.one_frac f) total in
      let want_lopri = d.trunc_times f total in
      ground (
        arith,
        length-map (λ c. false) children,
        length-map (λ c. c.currently_lopri) children,
        length-greedy_assign false false want_hipri children order (total - lopri) now,
        length-greedy_assign true false want_lopri children order lopri now,
      )

length-contained :
    (contains_item : ℕ → Bool) (i : ℕ) (children : List ChildFlowInfo)
    → length (contained contains_item i children) ≡ length children
length-contained contains_item i [] = refl
length-contained contains_item i (c ∷ children) =
    omega (arith, length-contained contains_item (suc i) children)

pub length-knapsack :
    (d : Double) (solver : KnapsackSolver d) (time_limit_sec : d.Carrier)
    (children : List ChildFlowInfo) (f : d.Carrier) (lopri : List Bool)
    → knapsack d solver time_limit_sec children f ≡ some lopri
    → length lopri ≡ length children
unfolding knapsack
length-knapsack d solver limit children f lopri h =
    let l = if d.is_lt d.zero_frac limit then some limit else none in
    let demands = map (λ c. c.volume_bps) children in
    let s = solver.solve l demands demands (d.trunc_times f (total_demand children)) in
    ground (arith, length-contained s.contains_item 0 children)
