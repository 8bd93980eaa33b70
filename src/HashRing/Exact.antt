-- ===== src/HashRing/Exact.antt =====
-- The ring of heyp/alg/downgrade/hash-ring.h on fractions that are multiples of 2^-32: what it
-- matches is one arc of the ids, and each update reports exactly the ids that change.
use heyp_agents.Prelude.Double.{Double, HasGrid}
use heyp_agents.Prelude.{
  ℕ, ◌+◌, ◌-◌, ◌*◌, ◌%◌, ◌^◌, ◌≤◌, ◌<◌, ◌≡◌, refl, Bool, true, false, not, ◌&&◌, ltb, ◌==◌,
  if◌then◌else◌, arith,
}
use mathlib.Core.Bool.{xor}
use heyp_agents.HashRing.{
  HashRing, RingRanges, RangeDiff, RangeDiffType, k_add, k_del, ring_contains, matching_ranges,
  frac_to_ring, arc_end, update_frac, moved_start, compute_range_diff, grow_diff, shrink_diff,
  sub128, add128, low64, high64, no_ranges, id_range, empty_range, max_id, no_diff,
}

-- The id lies on the arc of `k` chunks of 2^32 ids that begins at `start` and may wrap around.
abbrev pub on_arc : ℕ → ℕ → ℕ → Bool
on_arc start k id = ltb ((id + 2 ^ 64 - start) % 2 ^ 64) (k * 2 ^ 32)

-- `MatchingRanges` on numbers: the arc by its start and its number of chunks.
abbrev arc_ranges : ℕ → ℕ → RingRanges
arc_ranges start k =
    let end = sub128 (add128 start (k * 2 ^ 32)) 1 in
    if k == 0
    then no_ranges
    else if high64 end == 0
    then record { a = id_range start (low64 end); b = empty_range }
    else record { a = id_range 0 (low64 end); b = id_range start max_id }

ring_contains-arc_ranges :
    (start k id : ℕ)
    → start < 2 ^ 64
    → k ≤ 2 ^ 32
    → id < 2 ^ 64
    → ring_contains (arc_ranges start k) id ≡ on_arc start k id
unfolding ring_contains
ring_contains-arc_ranges start k id hs hk hi = ground arith

abbrev pub arc_last : ℕ → ℕ → ℕ
arc_last start k = add128 start (sub128 (k * 2 ^ 32) 1)

ring_contains-grow_diff :
    (start i j id : ℕ)
    → start < 2 ^ 64
    → i < j
    → j ≤ 2 ^ 32
    → id < 2 ^ 64
    → ring_contains (grow_diff (arc_last start i) (arc_last start j)).diff id
      ≡ (on_arc start j id && not (on_arc start i id))
unfolding ring_contains grow_diff
ring_contains-grow_diff start i j id hs hij hj hid = ground arith

ring_contains-shrink_diff :
    (start i j id : ℕ)
    → start < 2 ^ 64
    → j < i
    → i ≤ 2 ^ 32
    → id < 2 ^ 64
    → ring_contains (shrink_diff start ((start + (i - j) * 2 ^ 32 % 2 ^ 64) % 2 ^ 64)).diff id
      ≡ (on_arc start i id && not (on_arc ((start + (i - j) * 2 ^ 32 % 2 ^ 64) % 2 ^ 64) j id))
unfolding ring_contains shrink_diff
ring_contains-shrink_diff start i j id hs hij hj hid = ground arith

-- Where the start moves when the arc changes from `i` to `j` chunks.
abbrev pub next_start : ℕ → ℕ → ℕ → ℕ
next_start start i j = if ltb j i then (start + (i - j) * 2 ^ 32 % 2 ^ 64) % 2 ^ 64 else start

pub next_start_bound : (start i j : ℕ) → start < 2 ^ 64 → next_start start i j < 2 ^ 64
next_start_bound start i j h = ground arith

abbrev pub is_addition : RangeDiffType → Bool
is_addition k_add = true
is_addition k_del = false

-- `ComputeRangeDiff` on numbers.
pub arc_diff : ℕ → ℕ → ℕ → RangeDiff
arc_diff start i j =
    if i == j
    then no_diff
    else if ltb i j
    then grow_diff (arc_last start i) (arc_last (next_start start i j) j)
    else shrink_diff start (next_start start i j)

ring_contains-no_ranges : (id : ℕ) → ring_contains no_ranges id ≡ false
unfolding ring_contains
ring_contains-no_ranges id = ground arith

on_arc_mono : (start i j id : ℕ) → i ≤ j → on_arc start i id ≡ true → on_arc start j id ≡ true
on_arc_mono start i j id h p = ground arith

on_arc-next_start :
    (start i j id : ℕ)
    → start < 2 ^ 64
    → j < i
    → i ≤ 2 ^ 32
    → id < 2 ^ 64
    → on_arc ((start + (i - j) * 2 ^ 32 % 2 ^ 64) % 2 ^ 64) j id ≡ true
    → on_arc start i id ≡ true
on_arc-next_start start i j id hs h hi hid p = ground arith

grow_diff_type : (x y : ℕ) → (grow_diff x y).diff_type ≡ k_add
unfolding grow_diff
grow_diff_type x y = ground arith

shrink_diff_type : (x y : ℕ) → (shrink_diff x y).diff_type ≡ k_del
unfolding shrink_diff
shrink_diff_type x y = ground arith

-- An id is in the reported ranges exactly when its mark changes, and it is marked now exactly when
-- the arc grew.
pub arc_diff_lem :
    (start i j id : ℕ)
    → start < 2 ^ 64
    → i ≤ 2 ^ 32
    → j ≤ 2 ^ 32
    → id < 2 ^ 64
    → (ring_contains (arc_diff start i j).diff id
        ≡ xor (on_arc start i id) (on_arc (next_start start i j) j id))
      × (ring_contains (arc_diff start i j).diff id ≡ true
          → on_arc (next_start start i j) j id ≡ is_addition (arc_diff start i j).diff_type)
unfolding arc_diff xor
arc_diff_lem start i j id hs hi hj hid = ground (
  arith,
  ring_contains-no_ranges id,
  ring_contains-grow_diff start i j id hs,
  ring_contains-shrink_diff start i j id hs,
  on_arc_mono start i j id,
  on_arc-next_start start i j id hs,
  grow_diff_type (arc_last start i) (arc_last start j),
  shrink_diff_type start ((start + (i - j) * 2 ^ 32 % 2 ^ 64) % 2 ^ 64),
)

module _ (d : Double) (g : HasGrid d) where
  open g use {
    grid, zero_grid, one_grid, lt_grid, eq_grid, plus_grid, minus_grid, minus_negative, round_grid,
  }

  -- The ring whose fraction is `k` chunks.
  abbrev pub grid_ring : ℕ → ℕ → HashRing d
  grid_ring start k = record { start = start; frac = grid k }

  frac_to_ring-grid : (k : ℕ) → k ≤ 2 ^ 32 → frac_to_ring d (grid k) ≡ k * 2 ^ 32
  unfolding frac_to_ring
  frac_to_ring-grid k h = ground (arith, round_grid k)

  matching_ranges-grid :
      (start k : ℕ) → k ≤ 2 ^ 32 → matching_ranges d (grid_ring start k) ≡ arc_ranges start k
  unfolding matching_ranges
  matching_ranges-grid start k h = ground (arith, zero_grid, eq_grid k 0, frac_to_ring-grid k h)

  -- Of all ids the ring matches those on one arc of `k * 2^32` ids from its start.
  pub matching_ranges-on_arc :
      (start k id : ℕ)
      → start < 2 ^ 64
      → k ≤ 2 ^ 32
      → id < 2 ^ 64
      → ring_contains (matching_ranges d (grid_ring start k)) id ≡ on_arc start k id
  matching_ranges-on_arc start k id hs hk hid =
      rw (matching_ranges-grid start k hk) (ring_contains-arc_ranges start k id hs hk hid)

  moved_start-grid :
      (start i j : ℕ)
      → i ≤ 2 ^ 32
      → j ≤ 2 ^ 32
      → moved_start d (grid_ring start i) (grid j) ≡ next_start start i j
  unfolding moved_start
  moved_start-grid start i j hi hj =
      ground (arith, lt_grid j i, minus_grid i j, frac_to_ring-grid (i - j))

  pub arc_end-grid : (start k : ℕ) → k ≤ 2 ^ 32 → arc_end d start (grid k) ≡ arc_last start k
  unfolding arc_end
  arc_end-grid start k h = rw (frac_to_ring-grid k h) refl

  compute_range_diff-grid :
      (start i j : ℕ)
      → i ≤ 2 ^ 32
      → j ≤ 2 ^ 32
      → compute_range_diff d start (grid i) (next_start start i j) (grid j) ≡ arc_diff start i j
  unfolding compute_range_diff arc_diff
  compute_range_diff-grid start i j hi hj = ground (
    arith,
    eq_grid i j,
    lt_grid i j,
    arc_end-grid start i hi,
    arc_end-grid (next_start start i j) j hj,
  )

  pub update_frac-grid :
      (start i j : ℕ)
      → i ≤ 2 ^ 32
      → j ≤ 2 ^ 32
      → update_frac d (grid_ring start i) (grid j)
        ≡ (grid_ring (next_start start i j) j, arc_diff start i j)
  unfolding update_frac
  update_frac-grid start i j hi hj = ground (
    arith,
    lt_grid j 0,
    lt_grid (2 ^ 32) j,
    zero_grid,
    one_grid,
    moved_start-grid start i j hi hj,
    compute_range_diff-grid start i j hi hj,
  )

  -- Raising or lowering the fraction to `j` chunks leaves a ring of `j` chunks; an id lies in the
  -- returned ranges exactly when the call changes whether the ring matches it, and every such id is
  -- matched afterwards if the call returns an addition and not matched if it returns a deletion.
  pub update_frac-exact :
      (start i j id : ℕ)
      → start < 2 ^ 64
      → i ≤ 2 ^ 32
      → j ≤ 2 ^ 32
      → id < 2 ^ 64
      → let r = grid_ring start i in
        let q = update_frac d r (grid j) in
        (q.0.frac ≡ grid j)
        × (ring_contains q.1.diff id
            ≡ xor
                (ring_contains (matching_ranges d r) id)
                (ring_contains (matching_ranges d q.0) id))
        × (ring_contains q.1.diff id ≡ true
            → ring_contains (matching_ranges d q.0) id ≡ is_addition q.1.diff_type)
  update_frac-exact start i j id hs hi hj hid = ground (
    arith,
    update_frac-grid start i j hi hj,
    matching_ranges-on_arc start i id hs hi hid,
    matching_ranges-on_arc (next_start start i j) j id (next_start_bound start i j hs) hj hid,
    arc_diff_lem start i j id hs hi hj hid,
  )
