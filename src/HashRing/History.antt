-- ===== src/HashRing/History.antt =====
-- Histories of calls on the ring of heyp/alg/downgrade/hash-ring.h: `UpdateFrac`, `Add` and `Sub`
-- in any order, from the ring that the constructor makes.
use heyp_agents.Prelude.Double.{Double, HasGrid}
use heyp_agents.Prelude.{
  ℕ, ◌+◌, ◌-◌, ◌^◌, ◌≤◌, ◌<◌, ◌≡◌, refl, Bool, false, not, ◌&&◌, ◌||◌, if◌then◌else◌, arith, List,
  [], ◌∷◌, min, sym, ap, ◌∙◌,
}
use mathlib.Core.Bool.{xor}
use native.Mathlib.Decide.{dec_lt}
use heyp_agents.HashRing.{
  clamp, moved_start, compute_range_diff, HashRing, RangeDiff, ring_contains, matching_ranges,
  update_frac, add, sub, initial_ring,
}
use heyp_agents.HashRing.Exact.{
  on_arc, next_start, next_start_bound, is_addition, arc_diff, arc_diff_lem, grid_ring,
  matching_ranges-on_arc, update_frac-grid,
}

-- A call with its argument in chunks of 2^-32.
pub data Call : Type 0 where
  updates adds subs : ℕ → Call

abbrev pub argument : Call → ℕ
argument (updates k) = k
argument (adds k) = k
argument (subs k) = k

-- The chunks that the ring has after a call: its fraction is kept between 0 and 1.
abbrev pub chunks_after : ℕ → Call → ℕ
chunks_after i (updates k) = min k (2 ^ 32)
chunks_after i (adds k) = min (i + k) (2 ^ 32)
chunks_after i (subs k) = i - k

-- What a listener has that knew the marks before and is told the difference.
abbrev pub apply_diff : RangeDiff → Bool → ℕ → Bool
apply_diff r mark id =
    if is_addition r.diff_type
    then mark || ring_contains r.diff id
    else mark && not (ring_contains r.diff id)

abbrev pub replay : List RangeDiff → Bool → ℕ → Bool
replay [] mark id = mark
replay (r ∷ rs) mark id = replay rs (apply_diff r mark id) id

abbrev pub chunks_after_all : ℕ → List Call → ℕ
chunks_after_all i [] = i
chunks_after_all i (c ∷ cs) = chunks_after_all (chunks_after i c) cs

-- Where the arc begins after the calls: each call that takes chunks away moves it on by as many.
abbrev pub start_after_all : ℕ → ℕ → List Call → ℕ
start_after_all start i [] = start
start_after_all start i (c ∷ cs) =
    start_after_all (next_start start i (chunks_after i c)) (chunks_after i c) cs

-- Every argument is at most 1.
abbrev pub InRange : List Call → Type 0
InRange [] = Unit {0}
InRange (c ∷ cs) = (argument c ≤ 2 ^ 32) × InRange cs

min_left : (a b : ℕ) → a ≤ b → min a b ≡ a
min_left a b h = omega arith

min_right : (a b : ℕ) → b ≤ a → min a b ≡ b
min_right a b h = omega arith

module _ (d : Double) (g : HasGrid d) where
  open g use {grid, zero_grid, one_grid, lt_grid, plus_grid, minus_grid, minus_negative}

  pub call : HashRing d → Call → HashRing d × RangeDiff
  call r (updates k) = update_frac d r (grid k)
  call r (adds k) = add d r (grid k)
  call r (subs k) = sub d r (grid k)

  pub run : HashRing d → List Call → HashRing d
  run r [] = r
  run r (c ∷ cs) = run (call r c).0 cs

  -- The differences that the calls return, in order.
  pub reports : HashRing d → List Call → List RangeDiff
  reports r [] = []
  reports r (c ∷ cs) = (call r c).1 ∷ reports (call r c).0 cs

  update_frac-clamp :
      (r : HashRing d) (x y : d.Carrier)
      → clamp d x ≡ clamp d y
      → update_frac d r x ≡ update_frac d r y
  unfolding update_frac
  update_frac-clamp r x y e =
      ap
        (λ c. (
          record { start = moved_start d r c; frac = c },
          compute_range_diff d r.start r.frac (moved_start d r c) c,
        ))
        e

  clamp-grid : (k : ℕ) → k ≤ 2 ^ 33 → clamp d (grid k) ≡ grid (min k (2 ^ 32))
  clamp-grid k h = elim (dec_lt (2 ^ 32) k) [
    | yes p ↦
        rw (min_right k (2 ^ 32) (omega arith))
          (ground (arith, zero_grid, one_grid, lt_grid k 0, lt_grid (2 ^ 32) k))
    | no p ↦
        rw (min_left k (2 ^ 32) (omega arith))
          (ground (arith, zero_grid, one_grid, lt_grid k 0, lt_grid (2 ^ 32) k))
  ]

  clamp_idem : (k : ℕ) → k ≤ 2 ^ 33 → clamp d (grid k) ≡ clamp d (grid (min k (2 ^ 32)))
  clamp_idem k h =
      clamp-grid k h ∙ sym (clamp-grid (min k (2 ^ 32)) (omega arith) ∙ ap grid (omega arith))

  clamp_negative : (i k : ℕ) → i < k → k ≤ 2 ^ 32 → clamp d (d.minus (grid i) (grid k)) ≡ grid 0
  clamp_negative i k p h = ground (arith, zero_grid, minus_negative i k)

  call-grid :
      (start i : ℕ) (c : Call)
      → i ≤ 2 ^ 32
      → argument c ≤ 2 ^ 32
      → let j = chunks_after i c in
        call (grid_ring d g start i) c
        ≡ (grid_ring d g (next_start start i j) j, arc_diff start i j)
  unfolding call add sub
  call-grid start i (updates k) hi hk =
      update_frac-clamp _ _ _ (clamp_idem k (omega arith))
      ∙ update_frac-grid d g start i (min k (2 ^ 32)) hi (omega arith)
  call-grid start i (adds k) hi hk = rw (plus_grid i k (omega arith)) (
      update_frac-clamp _ _ _ (clamp_idem (i + k) (omega arith))
      ∙ update_frac-grid d g start i (min (i + k) (2 ^ 32)) hi (omega arith))
  call-grid start i (subs k) hi hk = elim (dec_lt i k) [
    | yes p ↦
        update_frac-clamp _ _ (grid (i - k))
          (clamp_negative i k p hk ∙ sym (clamp-grid (i - k) (omega arith) ∙ ap grid (omega arith)))
        ∙ update_frac-grid d g start i (i - k) hi (omega arith)
    | no p ↦
        rw (minus_grid i k (omega arith) (omega arith))
          (update_frac-grid d g start i (i - k) hi (omega arith))
  ]

  chunks_after_bound : (i : ℕ) (c : Call) → i ≤ 2 ^ 32 → chunks_after i c ≤ 2 ^ 32
  chunks_after_bound i (updates k) h = omega arith
  chunks_after_bound i (adds k) h = omega arith
  chunks_after_bound i (subs k) h = omega arith

  run-grid :
      (start i : ℕ) (cs : List Call)
      → i ≤ 2 ^ 32
      → InRange cs
      → run (grid_ring d g start i) cs
        ≡ grid_ring d g (start_after_all start i cs) (chunks_after_all i cs)
  unfolding run
  run-grid start i [] hi hc = refl
  run-grid start i (c ∷ cs) hi hc = rw (call-grid start i c hi hc.0) (
      run-grid (next_start start i (chunks_after i c)) (chunks_after i c) cs
        (chunks_after_bound i c hi) hc.1)

  pub initial-grid : initial_ring d ≡ grid_ring d g 0 0
  initial-grid = rw zero_grid refl

  apply_diff-arc_diff :
      (start i j id : ℕ)
      → start < 2 ^ 64
      → i ≤ 2 ^ 32
      → j ≤ 2 ^ 32
      → id < 2 ^ 64
      → apply_diff (arc_diff start i j) (on_arc start i id) id ≡ on_arc (next_start start i j) j id
  unfolding xor
  apply_diff-arc_diff start i j id hs hi hj hid =
      ground (arith, arc_diff_lem start i j id hs hi hj hid)

  replay-grid :
      (start i : ℕ) (cs : List Call) (id : ℕ)
      → start < 2 ^ 64
      → i ≤ 2 ^ 32
      → InRange cs
      → id < 2 ^ 64
      → replay (reports (grid_ring d g start i) cs) (on_arc start i id) id
        ≡ on_arc (start_after_all start i cs) (chunks_after_all i cs) id
  unfolding reports
  replay-grid start i [] id hs hi hc hid = refl
  replay-grid start i (c ∷ cs) id hs hi hc hid =
      let j = chunks_after i c in
      let hj = chunks_after_bound i c hi in
      rw (call-grid start i c hi hc.0, apply_diff-arc_diff start i j id hs hi hj hid)
        (replay-grid (next_start start i j) j cs id (next_start_bound start i j hs) hj hc.1 hid)

  start_after_all_bound :
      (start i : ℕ) (cs : List Call) → start < 2 ^ 64 → start_after_all start i cs < 2 ^ 64
  start_after_all_bound start i [] h = h
  start_after_all_bound start i (c ∷ cs) h =
      start_after_all_bound (next_start start i (chunks_after i c)) (chunks_after i c) cs
        (next_start_bound start i (chunks_after i c) h)

  chunks_after_all_bound : (i : ℕ) (cs : List Call) → i ≤ 2 ^ 32 → chunks_after_all i cs ≤ 2 ^ 32
  chunks_after_all_bound i [] h = h
  chunks_after_all_bound i (c ∷ cs) h =
      chunks_after_all_bound (chunks_after i c) cs (chunks_after_bound i c h)

  -- After any calls with arguments on the grid and at most 1, the ring matches exactly the ids of
  -- one arc, as long as the fraction that the calls add up to, each sum kept between 0 and 1.
  pub run-on_arc :
      (cs : List Call) (id : ℕ)
      → InRange cs
      → id < 2 ^ 64
      → ring_contains (matching_ranges d (run (initial_ring d) cs)) id
        ≡ on_arc (start_after_all 0 0 cs) (chunks_after_all 0 cs) id
  run-on_arc cs id hc hid =
      rw (initial-grid, run-grid 0 0 cs (omega arith) hc)
        (matching_ranges-on_arc d g (start_after_all 0 0 cs) (chunks_after_all 0 cs) id
          (start_after_all_bound 0 0 cs (omega arith)) (chunks_after_all_bound 0 cs (omega arith))
          hid)

  -- A listener that starts with no id marked and only applies the differences that the calls
  -- return has, after any calls with arguments on the grid and at most 1, exactly the ring's ids.
  pub replay-reports :
      (cs : List Call) (id : ℕ)
      → InRange cs
      → id < 2 ^ 64
      → replay (reports (initial_ring d) cs) false id
        ≡ ring_contains (matching_ranges d (run (initial_ring d) cs)) id
  replay-reports cs id hc hid =
      let unmarked : false ≡ on_arc 0 0 id = ground arith in
      rw (run-on_arc cs id hc hid, initial-grid)
        (ap (λ m. replay (reports (grid_ring d g 0 0) cs) m id) unmarked
          ∙ replay-grid 0 0 cs id (omega arith) (omega arith) hc hid)
