-- ===== src/Fairness/Extra.antt =====
-- `EvenlyDistributeExtra` of heyp/alg/rate-limits.cc, behind the waterlevel of
-- heyp/alg/fairness/max-min-fairness.cc.
use heyp_agents.Prelude.{
  ℕ, suc, ◌+◌, ◌-◌, ◌*◌, ◌/◌, ◌≤◌, ◌<◌, ◌≡◌, min, Bool, List, [], ◌∷◌, length, arith,
}
use native.Mathlib.Nat.{div-mul-le_self, lt-div-mul-add}
use heyp_agents.Fairness.{compute_waterlevel, set_allocations}
use heyp_agents.Fairness.FullSort.{sum}
use heyp_agents.Fairness.Waterlevel.{compute_waterlevel-fair}

-- The loop. Where the admission would be negative it is 0, which `std::max` makes of it at the end.
unfoldable pub admission_left : ℕ → List ℕ → ℕ → ℕ
admission_left admission [] waterlevel = admission
admission_left admission (d ∷ demands) waterlevel =
    admission_left (admission - min d waterlevel) demands waterlevel

unfoldable pub evenly_distribute_extra : ℕ → List ℕ → ℕ → ℕ
unfolding admission_left
evenly_distribute_extra admission [] waterlevel = admission
evenly_distribute_extra admission (d ∷ demands) waterlevel =
    admission_left admission (d ∷ demands) waterlevel / length (d ∷ demands)

admission_left-sum :
    (admission : ℕ) (demands : List ℕ) (waterlevel : ℕ)
    → admission_left admission demands waterlevel
      ≡ admission - sum (set_allocations waterlevel demands)
unfolding admission_left
admission_left-sum admission [] w = omega arith
admission_left-sum admission (d ∷ demands) w =
    omega (arith, admission_left-sum (admission - min d w) demands w)

share_fits :
    (capacity used n : ℕ)
    → used ≤ capacity
    → (used + (capacity - used) / suc n * suc n ≤ capacity)
      × (capacity < used + suc ((capacity - used) / suc n) * suc n)
share_fits capacity used n h =
    let q = (capacity - used) / suc n in
    let low : q * suc n ≤ capacity - used = div-mul-le_self (capacity - used) (suc n) in
    let high : capacity - used < q * suc n + suc n =
      lt-div-mul-add {a = capacity - used} {b = suc n} (omega arith) in
    (omega arith, omega arith)

-- The waterlevel's allocations with the extra for each of at least one demand fit in the capacity,
-- and with one unit more for each they do not: all of the capacity is handed out, but for less than
-- a unit for each demand.
pub evenly_distribute_extra-share :
    (enable_tiny_flow_opt : Bool) (capacity d : ℕ) (ds : List ℕ)
    → let demands : List ℕ = d ∷ ds in
      let w = compute_waterlevel enable_tiny_flow_opt capacity demands in
      let extra = evenly_distribute_extra capacity demands w in
      (sum (set_allocations w demands) + extra * length demands ≤ capacity)
      × (capacity < sum (set_allocations w demands) + suc extra * length demands)
unfolding evenly_distribute_extra
evenly_distribute_extra-share enable capacity d ds =
    let w = compute_waterlevel enable capacity (d ∷ ds) in
    rw (evenly_distribute_extra, admission_left-sum capacity (d ∷ ds) w)
      (share_fits capacity (sum (set_allocations w (d ∷ ds))) (length ds)
        (compute_waterlevel-fair enable capacity (d ∷ ds)).0)
