-- ===== src/Fairness.antt =====
-- heyp/alg/fairness/max-min-fairness.{h,cc}: the max-min fair waterlevel of demands on one link.
-- Capacities and demands are `int64_t` that are not negative; no sum here overflows. A subtraction
-- stops at 0 in the model: the proofs show that it never has to.
pub mod FullSort
pub mod Tiny
pub mod Waterlevel
pub mod Extra
mod Tests
use heyp_agents.Prelude.{
  ℕ, suc, ◌+◌, ◌-◌, ◌*◌, ◌/◌, min, max, Bool, true, false, ◌&&◌, ◌≡◌, List, [], ◌∷◌, ◌++◌, map,
  length, leb, ltb, if◌then◌else◌, arith,
}
use heyp_agents.Prelude.Order.{StrictOrder}
use heyp_agents.Prelude.Algorithms.{sort}

pub ltb_irrefl : (a : ℕ) → ltb a a ≡ false
ltb_irrefl a = ground arith

pub ltb_trans : (a b c : ℕ) → ltb a b ≡ true → ltb b c ≡ true → ltb a c ≡ true
ltb_trans a b c h k = ground arith

pub ltb_connex : (a b : ℕ) → ltb a b ≡ false → ltb b a ≡ false → a ≡ b
ltb_connex a b h k = ground arith

-- The `<` by which `absl::c_sort` sorts demands.
instance pub number_order : StrictOrder ℕ
number_order = record { less = ltb; irrefl = ltb_irrefl; trans = ltb_trans; connex = ltb_connex }

-- The loop of `SolveFullSort`.
unfoldable pub raise_waterlevel : List ℕ → ℕ → ℕ → ℕ
raise_waterlevel [] capacity waterlevel = waterlevel
raise_waterlevel (next_demand ∷ rest) capacity waterlevel =
    let delta = next_demand - waterlevel in
    let num_unsatisfied = suc (length rest) in
    let ask = delta * num_unsatisfied in
    elim (leb ask capacity) [
      | true ↦ raise_waterlevel rest (capacity - ask) (waterlevel + delta)
      | false ↦ waterlevel + capacity / num_unsatisfied
    ]

unfoldable pub solve_full_sort : ℕ → ℕ → List ℕ → ℕ
unfolding sort raise_waterlevel
solve_full_sort capacity waterlevel demands = raise_waterlevel (sort demands) capacity waterlevel

-- What the loop over the demands leaves: the demands at the front of the buffer, the capacity and
-- the waterlevel.
pub record Filtered : Type 0 where
  pub unfiltered : List ℕ
  pub capacity : ℕ
  pub waterlevel : ℕ

-- `demands[i] <= tiny_demand_thresh`, where the threshold is -1 if the option is off.
abbrev pub is_tiny : Bool → ℕ → ℕ → Bool
is_tiny enable_tiny_flow_opt thresh demand = enable_tiny_flow_opt && leb demand thresh

unfoldable pub filter_tiny : Bool → ℕ → List ℕ → Filtered → Filtered
filter_tiny enable thresh [] f = f
filter_tiny enable thresh (demand ∷ demands) f = elim (is_tiny enable thresh demand) [
  | true ↦ filter_tiny enable thresh demands (record {
    unfiltered = f.unfiltered;
    capacity = f.capacity - demand;
    waterlevel = max f.waterlevel demand;
  })
  | false ↦
      filter_tiny enable thresh demands (record f { unfiltered = f.unfiltered ++ demand ∷ [] })
]

-- `ComputeWaterlevel` with `solve_method` `kFullSort`.
unfoldable pub compute_waterlevel : Bool → ℕ → List ℕ → ℕ
unfolding solve_full_sort filter_tiny
compute_waterlevel enable_tiny_flow_opt capacity demands =
    let tiny_demand_thresh = capacity / max (length demands) 1 in
    let f =
      filter_tiny enable_tiny_flow_opt tiny_demand_thresh demands
        (record { unfiltered = []; capacity = capacity; waterlevel = 0 }) in
    solve_full_sort (f.capacity - f.waterlevel * length f.unfiltered) f.waterlevel f.unfiltered

abbrev pub set_allocations : ℕ → List ℕ → List ℕ
set_allocations waterlevel demands = map (λ demand. min waterlevel demand) demands
