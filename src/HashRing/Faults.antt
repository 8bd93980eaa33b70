-- ===== src/HashRing/Faults.antt =====
-- Inputs on which the ring of heyp/alg/downgrade/hash-ring.h does not do what it is meant to.
use heyp_agents.Prelude.Double.{Double, HasGrid}
use heyp_agents.Prelude.{ℕ, ◌+◌, ◌-◌, ◌*◌, ◌^◌, ◌≤◌, ◌<◌, ◌≡◌, true, false, ltb, arith}
use heyp_agents.HashRing.{
  k_add, ring_contains, matching_ranges, frac_to_ring, arc_end, update_frac, moved_start,
  compute_range_diff, asserts_hold, grow_diff, initial_ring, num_chunks,
}
use heyp_agents.HashRing.Exact.{next_start, arc_end-grid, arc_last}

-- The last id before 0, as `uint64_t` arithmetic gives it, closes both ranges over all ids.
grow_from_empty :
    (id : ℕ)
    → id < 2 ^ 64
    → (ring_contains (grow_diff (arc_last 0 0) (arc_last 0 0)).diff id ≡ true)
      × ((grow_diff (arc_last 0 0) (arc_last 0 0)).diff_type ≡ k_add)
unfolding ring_contains grow_diff
grow_from_empty id h = ground arith

module _ (d : Double) where
  frac_to_ring_none : (x : d.Carrier) → d.round_times x num_chunks ≡ 0 → frac_to_ring d x ≡ 0
  unfolding frac_to_ring
  frac_to_ring_none x h = rw h

  matching_ranges_tiny :
      (x : d.Carrier) (id : ℕ)
      → d.is_eq x d.zero_frac ≡ false
      → frac_to_ring d x ≡ 0
      → id < 2 ^ 64
      → ring_contains (matching_ranges d (record { start = 0; frac = x })) id ≡ true
  unfolding matching_ranges ring_contains
  matching_ranges_tiny x id h r hid = rw (h, r) (ground arith)

  -- A fraction above 0 that rounds to no chunk at all (below 2^-33) marks every id: on a new ring
  -- `UpdateFrac` with it returns all ids as an addition, and the ring then matches all ids.
  pub update_frac_tiny :
      (x : d.Carrier) (id : ℕ)
      → d.is_lt d.zero_frac x ≡ true
      → d.is_lt x d.zero_frac ≡ false
      → d.is_lt d.one_frac x ≡ false
      → d.is_eq d.zero_frac x ≡ false
      → d.is_eq x d.zero_frac ≡ false
      → d.round_times d.zero_frac num_chunks ≡ 0
      → d.round_times x num_chunks ≡ 0
      → id < 2 ^ 64
      → let q = update_frac d (initial_ring d) x in
        (q.1.diff_type ≡ k_add)
        × (ring_contains q.1.diff id ≡ true)
        × (ring_contains (matching_ranges d q.0) id ≡ true)
  unfolding update_frac moved_start compute_range_diff arc_end
  update_frac_tiny x id above below within e e' z n hid = ground (
    arith,
    frac_to_ring_none x n,
    frac_to_ring_none d.zero_frac z,
    grow_from_empty id hid,
    matching_ranges_tiny x id e' (frac_to_ring_none x n) hid,
  )

module _ (d : Double) (g : HasGrid d) where
  open g use {grid, lt_grid, eq_grid}

  -- When the fraction falls, the assertion that the arc keeps its end holds exactly if the moved
  -- start does not pass the last id; otherwise a build with assertions stops.
  pub asserts_hold-shrink :
      (start i j : ℕ)
      → start < 2 ^ 64
      → j < i
      → i ≤ 2 ^ 32
      → asserts_hold d start (grid i) (next_start start i j) (grid j)
        ≡ ltb (start + (i - j) * 2 ^ 32) (2 ^ 64)
  unfolding asserts_hold
  asserts_hold-shrink start i j hs hij hi = ground (
    arith,
    eq_grid i j,
    lt_grid i j,
    arc_end-grid d g start i hi,
    arc_end-grid d g (next_start start i j) j,
  )
