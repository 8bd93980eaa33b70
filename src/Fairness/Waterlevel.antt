-- ===== src/Fairness/Waterlevel.antt =====
-- `SingleLinkMaxMinFairnessProblem::ComputeWaterlevel` with `kFullSort` and `SetAllocations`
-- (heyp/alg/fairness/max-min-fairness.cc).
use heyp_agents.Prelude.{
  ℕ, suc, ◌+◌, ◌-◌, ◌*◌, ◌/◌, ◌≤◌, ◌<◌, ◌≡◌, ◌⊎◌, inl, inr, refl, ap, sym, subst, ◌∙◌, min, max,
  Bool, true, false, List, [], ◌∷◌, All-both, length, arith,
}
use native.Mathlib.Nat.{mul-le-mul_right, mul-div-le}
use native.Mathlib.Decide.{dec_lt}
use heyp_agents.Prelude.Algorithms.{sort, sort-IsSorted, All-sort, total-sort, length-sort}
use heyp_agents.Fairness.{
  number_order, raise_waterlevel, solve_full_sort, Filtered, compute_waterlevel, set_allocations,
}
use heyp_agents.Fairness.FullSort.{fill, sum, IsGreatest, raise_waterlevel-IsGreatest}
use heyp_agents.Fairness.Tiny.{Filters, filter_tiny-Filters, filter_tiny-off_Filters}

abbrev start : ℕ → Filtered
start capacity = record { unfiltered = []; capacity = capacity; waterlevel = 0 }

sum-set_allocations : (w : ℕ) (ds : List ℕ) → sum (set_allocations w ds) ≡ fill w ds
sum-set_allocations w [] = refl
sum-set_allocations w (d ∷ ds) = omega (arith, sum-set_allocations w ds)

fill_bound : (w : ℕ) (ds : List ℕ) → fill w ds ≤ sum ds
fill_bound w [] = omega arith
fill_bound w (d ∷ ds) = omega (arith, fill_bound w ds)

fill_grows : (w v : ℕ) (ds : List ℕ) → w ≤ v → fill w ds ≤ fill v ds
fill_grows w v [] h = omega arith
fill_grows w v (d ∷ ds) h = omega (arith, fill_grows w v ds h)

-- Demands that get all they ask for together get it each.
all_satisfied : (w : ℕ) (ds : List ℕ) → fill w ds ≡ sum ds → set_allocations w ds ≡ ds
all_satisfied w [] e = refl
all_satisfied w (d ∷ ds) e =
    let here : min w d ≡ d = omega (arith, e, fill_bound w ds) in
    let behind = all_satisfied w ds (omega (arith, e, fill_bound w ds)) in cc (here, behind)

-- The greatest level for the demands left is the greatest for all.
IsGreatest-Filters :
    (w capacity : ℕ) (ds : List ℕ) (thresh : ℕ) (r : Filtered)
    → Filters thresh ds (start capacity) r
    → r.waterlevel ≤ w
    → IsGreatest w r.capacity r.unfiltered
    → IsGreatest w capacity ds
IsGreatest-Filters w capacity ds thresh r p h (fits, inl all) =
    (omega (arith, p.filled w h, fits), inl (omega (arith, p.filled w h, p.summed, all)))
IsGreatest-Filters w capacity ds thresh r p h (fits, inr over) = (
  omega (arith, p.filled w h, fits),
  inr (omega (arith, p.filled (suc w) (omega (arith, h)), over)),
)

IsGreatest-sort :
    (w capacity : ℕ) (ds : List ℕ) → IsGreatest w capacity (sort ds) → IsGreatest w capacity ds
IsGreatest-sort w capacity ds g =
    let here = total-sort (λ d. min w d) ds in
    let next = total-sort (λ d. min (suc w) d) ds in
    let whole = total-sort (λ d. d) ds in
    subst (λ s. (s ≤ capacity) × ((s ≡ sum ds) ⊎ (capacity < fill (suc w) ds))) here
      (subst
        (λ s.
          (fill w (sort ds) ≤ capacity) × ((fill w (sort ds) ≡ s) ⊎ (capacity < fill (suc w) ds)))
        whole
        (subst
          (λ s.
            (fill w (sort ds) ≤ capacity) × ((fill w (sort ds) ≡ sum (sort ds)) ⊎ (capacity < s)))
          next g))

solve_full_sort-IsGreatest :
    (capacity : ℕ) (ds : List ℕ) (thresh : ℕ) (r : Filtered)
    → Filters thresh ds (start capacity) r
    → IsGreatest
        (solve_full_sort
          (r.capacity - r.waterlevel * length r.unfiltered)
          r.waterlevel
          r.unfiltered)
        capacity
        ds
unfolding solve_full_sort
solve_full_sort-IsGreatest capacity ds thresh r p =
    let n = length r.unfiltered in
    let room : r.waterlevel * n ≤ r.capacity =
      omega (arith, mul-le-mul_right n p.level_small, p.enough) in
    let back : r.capacity - r.waterlevel * n + r.waterlevel * length (sort r.unfiltered)
        ≡ r.capacity =
      ap (λ k. r.capacity - r.waterlevel * n + r.waterlevel * k) (length-sort r.unfiltered)
      ∙ omega (arith, room) in
    let above =
      All-both (λ d. thresh ≤ d) (λ d. thresh ≤ d) (λ d. r.waterlevel ≤ d) r.unfiltered
        (λ d h k. omega (arith, h, p.level_small)) p.kept_above p.kept_above in
    let q =
      raise_waterlevel-IsGreatest (sort r.unfiltered) (r.capacity - r.waterlevel * n) r.waterlevel
        (sort-IsSorted r.unfiltered) (All-sort (λ d. r.waterlevel ≤ d) r.unfiltered above) in
    let w = raise_waterlevel (sort r.unfiltered) (r.capacity - r.waterlevel * n) r.waterlevel in
    IsGreatest-Filters w capacity ds thresh r p q.1 (
      IsGreatest-sort w r.capacity r.unfiltered
        (subst (λ c. IsGreatest w c (sort r.unfiltered)) back q.0))

share_bound : (capacity n : ℕ) → (n + 0) * (capacity / max n 1) ≤ capacity
share_bound capacity n = omega (
  arith,
  mul-le-mul_right {m = n + 0} {n = max n 1} (capacity / max n 1) (omega arith),
  mul-div-le capacity (max n 1),
)

waterlevel-IsGreatest :
    (enable : Bool) (capacity : ℕ) (ds : List ℕ)
    → IsGreatest (compute_waterlevel enable capacity ds) capacity ds
unfolding compute_waterlevel
waterlevel-IsGreatest true capacity ds =
    let thresh = capacity / max (length ds) 1 in
    solve_full_sort-IsGreatest capacity ds thresh _ (
      filter_tiny-Filters thresh ds (start capacity) (omega arith) tt
        (share_bound capacity (length ds)))
waterlevel-IsGreatest false capacity ds =
    let thresh = capacity / max (length ds) 1 in
    solve_full_sort-IsGreatest capacity ds 0 _
      (filter_tiny-off_Filters thresh ds (start capacity) refl)

IsGreatest-fair :
    (w capacity : ℕ) (ds : List ℕ)
    → IsGreatest w capacity ds
    → (sum (set_allocations w ds) ≤ capacity)
      × ((set_allocations w ds ≡ ds) ⊎ (capacity < sum (set_allocations (suc w) ds)))
IsGreatest-fair w capacity ds (fits, inl all) =
    (omega (arith, sum-set_allocations w ds, fits), inl (all_satisfied w ds all))
IsGreatest-fair w capacity ds (fits, inr over) = (
  omega (arith, sum-set_allocations w ds, fits),
  inr (omega (arith, sum-set_allocations (suc w) ds, over)),
)

equal_levels :
    (w v capacity : ℕ) (ds : List ℕ)
    → fill w ds ≤ capacity
    → capacity < fill (suc w) ds
    → fill v ds ≤ capacity
    → capacity < fill (suc v) ds
    → w ≡ v
equal_levels w v capacity ds fw ow fv ov = elim (dec_lt w v) [
  | yes h ↦ absurd (omega (arith, fill_grows (suc w) v ds h))
  | no h ↦ elim (dec_lt v w) [
    | yes k ↦ absurd (omega (arith, fill_grows (suc v) w ds k))
    | no k ↦ omega (arith, h, k)
  ]
]

-- Two greatest levels for one capacity allocate the same.
IsGreatest-unique :
    (w v capacity : ℕ) (ds : List ℕ)
    → IsGreatest w capacity ds
    → IsGreatest v capacity ds
    → set_allocations w ds ≡ set_allocations v ds
IsGreatest-unique w v capacity ds (fw, inl p) (fv, inl q) =
    all_satisfied w ds p ∙ sym (all_satisfied v ds q)
IsGreatest-unique w v capacity ds (fw, inl p) (fv, inr q) =
    absurd (omega (arith, fw, p, q, fill_bound (suc v) ds))
IsGreatest-unique w v capacity ds (fw, inr p) (fv, inl q) =
    absurd (omega (arith, fv, p, q, fill_bound (suc w) ds))
IsGreatest-unique w v capacity ds (fw, inr p) (fv, inr q) =
    ap (λ x. set_allocations x ds) (equal_levels w v capacity ds fw p fv q)

-- The waterlevel of the full sort (`kFullSort`; the default, `kPartialSort`, is not modelled) is max-min
-- fair on whole numbers: the allocations fit in the capacity, and either they are the demands, or one
-- unit more for each demand that asks for more does not fit.
pub compute_waterlevel-fair :
    (enable_tiny_flow_opt : Bool) (capacity : ℕ) (demands : List ℕ)
    → let w = compute_waterlevel enable_tiny_flow_opt capacity demands in
      (sum (set_allocations w demands) ≤ capacity)
      × ((set_allocations w demands ≡ demands) ⊎ (capacity < sum (set_allocations (suc w) demands)))
compute_waterlevel-fair enable capacity demands =
    IsGreatest-fair (compute_waterlevel enable capacity demands) capacity demands
      (waterlevel-IsGreatest enable capacity demands)

-- The option for tiny flows changes no allocation.
pub compute_waterlevel-tiny_flow_opt :
    (capacity : ℕ) (demands : List ℕ)
    → set_allocations (compute_waterlevel true capacity demands) demands
      ≡ set_allocations (compute_waterlevel false capacity demands) demands
compute_waterlevel-tiny_flow_opt capacity demands =
    IsGreatest-unique (compute_waterlevel true capacity demands)
      (compute_waterlevel false capacity demands) capacity demands
      (waterlevel-IsGreatest true capacity demands) (waterlevel-IsGreatest false capacity demands)
