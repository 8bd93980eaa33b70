-- ===== src/HashRing/Tests.antt =====
-- Runs of the ring of heyp/alg/downgrade/hash-ring.h, the theorems at concrete inputs.
use heyp_agents.Prelude.Fixed.{positive, fixed, fixed-HasGrid}
use heyp_agents.Prelude.{◌≡◌, refl, ◌^◌, ◌+◌, ◌-◌, false, List, [], ◌∷◌, arith, ℕ}
use mathlib.Core.Bool.{xor}
use heyp_agents.HashRing.{
  ring_contains, matching_ranges, update_frac, initial_ring, id_range, moved_start,
  compute_range_diff, arc_end, grow_diff, frac_to_ring,
}
use heyp_agents.HashRing.Exact.{on_arc, grid_ring, matching_ranges-on_arc, update_frac-exact}
use heyp_agents.HashRing.History.{
  Call, updates, adds, subs, run, reports, replay, start_after_all, chunks_after_all, run-on_arc,
  replay-reports,
}

abbrev half : ℕ
half = 2 ^ 31

abbrev quarter : ℕ
quarter = 2 ^ 30

-- A quarter, then a half, then the first quarter of it again.
abbrev calls : List Call
calls = updates quarter ∷ adds quarter ∷ subs half ∷ updates half ∷ subs quarter ∷ []

matching_ranges-on_arc_example :
    ring_contains (matching_ranges fixed (grid_ring fixed fixed-HasGrid (2 ^ 63 + 5) half)) 3
    ≡ on_arc (2 ^ 63 + 5) half 3
matching_ranges-on_arc_example =
    matching_ranges-on_arc fixed fixed-HasGrid (2 ^ 63 + 5) half 3 (omega arith) (omega arith)
      (omega arith)

update_frac-exact_example :
    ring_contains
      (update_frac fixed (grid_ring fixed fixed-HasGrid 7 half) (positive (2 ^ 32))).1.diff
      9
    ≡ xor (ring_contains (matching_ranges fixed (grid_ring fixed fixed-HasGrid 7 half)) 9) (
        ring_contains
          (matching_ranges fixed
            (update_frac fixed (grid_ring fixed fixed-HasGrid 7 half) (positive (2 ^ 32))).0)
          9)
update_frac-exact_example =
    (update_frac-exact fixed fixed-HasGrid 7 half quarter 9 (omega arith) (omega arith)
      (omega arith) (omega arith)).1

run-on_arc_example :
    ring_contains (matching_ranges fixed (run fixed fixed-HasGrid (initial_ring fixed) calls)) 12
    ≡ on_arc (start_after_all 0 0 calls) (chunks_after_all 0 calls) 12
run-on_arc_example = run-on_arc fixed fixed-HasGrid calls 12 (omega arith) (omega arith)

replay-reports_example :
    replay (reports fixed fixed-HasGrid (initial_ring fixed) calls) false 12
    ≡ ring_contains (matching_ranges fixed (run fixed fixed-HasGrid (initial_ring fixed) calls)) 12
replay-reports_example = replay-reports fixed fixed-HasGrid calls 12 (omega arith) (omega arith)

first_half :
    (update_frac fixed (initial_ring fixed) (positive (2 ^ 33))).1.diff.a ≡ id_range 0 (2 ^ 63 - 1)
unfolding update_frac moved_start compute_range_diff arc_end grow_diff frac_to_ring
first_half = refl
