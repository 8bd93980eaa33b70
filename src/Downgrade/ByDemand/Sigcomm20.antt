-- ===== src/Downgrade/ByDemand/Sigcomm20.antt =====
-- What `HeypSigcomm20DowngradeSelector::PickLOPRIChildren`
-- (heyp/alg/downgrade/impl-heyp-sigcomm-20.cc) does to the bin that it fills.
use heyp_agents.Prelude.{
  suc, ◌<◌, ◌⊎◌, All, subst, sym, ℕ, ◌+◌, ◌-◌, ◌≤◌, ◌≡◌, ◌≢◌, refl, Bool, true, false, not, List,
  [], ◌∷◌, map, length, if◌then◌else◌, ◌==◌, arith, Bool-cases, inl, inr,
}
use heyp_agents.Prelude.Double.{Double}
use heyp_agents.Downgrade.View.{ChildFlowInfo}
use heyp_agents.Prelude.Algorithms.{All-sort, sort-All}
use heyp_agents.Downgrade.Greedy.{greedy_assign, volume_at, lopri_at, same_state}
use heyp_agents.Downgrade.Greedy.Fills.{greedy_assign-Fills, greedy_assign-exceeds, last_of}
use heyp_agents.Downgrade.Greedy.Gap.{bin_demand, gap, OnlyGrows, greedy_assign-Improves}
use heyp_agents.Downgrade.ByDemand.{
  demand_order, indices_from, children_sorted_by_dec_demand, total_demand, lopri_demand,
  heyp_sigcomm_20,
}

abbrev pub reported : List ChildFlowInfo → List Bool
reported children = map (λ c. c.currently_lopri) children

length-reported : (children : List ChildFlowInfo) → length (reported children) ≡ length children
length-reported [] = refl
length-reported (c ∷ children) = omega (arith, length-reported children)

reported-lopri :
    (children : List ChildFlowInfo)
    → bin_demand true children (reported children) ≡ lopri_demand children
reported-lopri [] = refl
reported-lopri (c ∷ children) = ground (arith, reported-lopri children)

reported-hipri :
    (children : List ChildFlowInfo)
    → bin_demand false children (reported children) + lopri_demand children ≡ total_demand children
reported-hipri [] = refl
reported-hipri (c ∷ children) = ground (arith, reported-hipri children)

-- What the loop does to the bin that it fills, on what the children report: the bin gets no further
-- from the demand that is wanted, no child leaves it, each child outside does not fit in what is left,
-- and what is wanted is exceeded by no more than the demand of the last child in the order.
pub record FillsBin (state : Bool) (want : ℕ) (children : List ChildFlowInfo) (after : List Bool)
    : Type 0 where
  pub not_too_much : bin_demand state children (reported children) ≤ want
  pub no_wider_gap :
      gap want (bin_demand state children after)
      ≤ gap want (bin_demand state children (reported children))
  pub only_grows : OnlyGrows state (reported children) after
  pub same_length : length after ≡ length children
  pub leaves_none :
      All
        (λ i.
          (same_state state (lopri_at after i) ≡ true)
          ⊎ (want < bin_demand state children after + volume_at children i))
        (indices_from 0 children)
  pub exceeds_by_last :
      bin_demand state children after
      ≤ want + volume_at children (last_of (children_sorted_by_dec_demand children))

indices_from-All :
    (i n : ℕ) (children : List ChildFlowInfo)
    → i + length children ≤ n
    → All (λ j. j < n) (indices_from i children)
indices_from-All i n [] h = tt
indices_from-All i n (c ∷ children) h =
    (omega arith, indices_from-All (suc i) n children (omega arith))

greedy_assign-reported :
    (state : Bool) (want : ℕ) (children : List ChildFlowInfo) (cur : ℕ)
    → bin_demand state children (reported children) ≡ cur
    → cur ≤ want
    → let order = children_sorted_by_dec_demand children in
      FillsBin state want children
        (greedy_assign state false want children order cur (reported children)).1
unfolding children_sorted_by_dec_demand
greedy_assign-reported state want children cur b h =
    let order = children_sorted_by_dec_demand children in
    let n = length-reported children in
    let after = greedy_assign state false want children order cur (reported children) in
    let p = greedy_assign-Improves state false want children order cur (reported children) n b in
    let within =
      All-sort ⦃o = demand_order children⦄ (λ i. i < length (reported children))
        (indices_from 0 children)
        (indices_from-All 0 (length (reported children)) children (omega (arith, n))) in
    let f = greedy_assign-Fills state want children order cur (reported children) within in
    record {
      not_too_much = omega (arith, b, h);
      no_wider_gap = rw (p.0, b) p.1;
      only_grows = p.3;
      same_length = p.2;
      leaves_none =
          subst
            (λ n.
              All
                (λ i.
                  (same_state state (lopri_at after.1 i) ≡ true)
                  ⊎ (want < n + volume_at children i))
                (indices_from 0 children))
            (sym p.0) (sort-All ⦃o = demand_order children⦄ _ (indices_from 0 children) f.2);
      exceeds_by_last =
          omega
            (arith, p.0, greedy_assign-exceeds state want children order cur (reported children) h);
    }

module _ (d : Double) (quotient : ℕ → ℕ → d.Carrier) where
  -- The share of LOPRI that is wanted is less than the share that it has.
  abbrev pub lopri_exceeds : List ChildFlowInfo → d.Carrier → Bool
  lopri_exceeds children frac =
      d.is_lt frac (quotient (lopri_demand children) (total_demand children))

  -- The bin that is to be filled, LOPRI or HIPRI, and the demand wanted of it.
  abbrev pub state_to_increase : List ChildFlowInfo → d.Carrier → Bool
  state_to_increase children frac = not (lopri_exceeds children frac)

  abbrev pub want_demand : List ChildFlowInfo → d.Carrier → ℕ
  want_demand children frac =
      if lopri_exceeds children frac
      then d.trunc_times (d.minus d.one_frac frac) (total_demand children)
      else d.trunc_times frac (total_demand children)

  -- The comparison of doubles tells the bin that has no more than the whole number that is wanted of
  -- it, which it does unless rounding crosses a whole number.
  pub record IsExact (children : List ChildFlowInfo) (frac : d.Carrier) : Type 0 where
    pub hipri_is_short :
        lopri_exceeds children frac ≡ true
        → total_demand children - lopri_demand children
          ≤ d.trunc_times (d.minus d.one_frac frac) (total_demand children)
    pub lopri_is_short :
        lopri_exceeds children frac ≡ false
        → lopri_demand children ≤ d.trunc_times frac (total_demand children)

  -- Where there is any demand and rounding does not mislead the comparison, the selector fills the bin,
  -- LOPRI or HIPRI, that has no more than is wanted of it: no child leaves the bin, it ends no further
  -- from the demand wanted than the children report, each child that stays out does not fit in what is
  -- left, and what is wanted is exceeded by no more than the demand of the last child in the order of
  -- decreasing demand.
  pub heyp_sigcomm_20-FillsBin :
      (children : List ChildFlowInfo) (frac : d.Carrier)
      → total_demand children ≢ 0
      → IsExact children frac
      → FillsBin
          (state_to_increase children frac)
          (want_demand children frac)
          children
          (heyp_sigcomm_20 d quotient children frac)
  unfolding heyp_sigcomm_20
  heyp_sigcomm_20-FillsBin children frac h x =
      let z : (total_demand children == 0) ≡ false = ground arith in
      let lopri = lopri_demand children in
      let total = total_demand children in
      elim (Bool-cases (lopri_exceeds children frac)) [
        | inl e ↦
            rw (heyp_sigcomm_20, e, z)
              (greedy_assign-reported false (d.trunc_times (d.minus d.one_frac frac) total) children
                (total - lopri) (omega (arith, reported-hipri children)) (x.hipri_is_short e))
        | inr e ↦
            rw (heyp_sigcomm_20, e, z)
              (greedy_assign-reported true (d.trunc_times frac total) children lopri
                (reported-lopri children) (x.lopri_is_short e))
      ]
