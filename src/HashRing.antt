-- ===== src/HashRing.antt =====
-- heyp/alg/unordered-ids.h and heyp/alg/downgrade/hash-ring.h: sets of ids as ranges, and the ring
-- that marks a fraction of the ids. Fractions are doubles, a parameter; a `uint64_t` and an
-- `absl::uint128` are numbers with their wrap-around written out.
pub mod Exact
pub mod History
mod Faults
mod Tests
use heyp_agents.Prelude.Double.{Double}
use heyp_agents.Prelude.{
  ℕ, ◌+◌, ◌-◌, ◌*◌, ◌/◌, ◌%◌, ◌^◌, Bool, true, false, ◌&&◌, ◌||◌, ltb, leb, ◌==◌, if◌then◌else◌,
}

-- Both ends are inclusive.
pub record IdRange : Type 0 where
  pub lo : ℕ
  pub hi : ℕ

abbrev pub empty_range : IdRange
empty_range = record { lo = 1; hi = 0 }

abbrev pub id_range : ℕ → ℕ → IdRange
id_range lo hi = record { lo = lo; hi = hi }

unfoldable pub contains : IdRange → ℕ → Bool
contains r id = leb r.lo id && leb id r.hi

unfoldable pub is_empty : IdRange → Bool
is_empty r = ltb r.hi r.lo

pub record RingRanges : Type 0 where
  pub a : IdRange
  pub b : IdRange

unfoldable pub ring_contains : RingRanges → ℕ → Bool
unfolding contains
ring_contains r id = contains r.a id || contains r.b id

pub data RangeDiffType : Type 0 where
  k_add k_del : RangeDiffType

pub record RangeDiff : Type 0 where
  pub diff : RingRanges
  pub diff_type : RangeDiffType

abbrev pub no_ranges : RingRanges
no_ranges = record { a = empty_range; b = empty_range }

abbrev pub no_diff : RangeDiff
no_diff = record { diff = no_ranges; diff_type = k_add }

abbrev pub max_id : ℕ
max_id = 2 ^ 64 - 1

abbrev pub num_chunks : ℕ
num_chunks = 2 ^ 32

abbrev pub chunk_size : ℕ
chunk_size = num_chunks

abbrev pub low64 : ℕ → ℕ
low64 x = x % 2 ^ 64

abbrev pub high64 : ℕ → ℕ
high64 x = x / 2 ^ 64

abbrev pub add128 : ℕ → ℕ → ℕ
add128 x y = (x + y) % 2 ^ 128

abbrev pub sub128 : ℕ → ℕ → ℕ
sub128 x y = (x + 2 ^ 128 - y) % 2 ^ 128

-- The tests `old_frac == new_frac`, `old_frac < new_frac` decided, the branches of
-- `ComputeRangeDiff` over the four ends.
grow_diff : ℕ → ℕ → RangeDiff
grow_diff old_end new_end =
    let new_end_lo = low64 new_end in
    let old_end_p1 = add128 old_end 1 in
    if ltb 0 (high64 new_end) && high64 old_end_p1 == 0
    then record {
      diff = record { a = id_range 0 new_end_lo; b = id_range (low64 old_end_p1) max_id };
      diff_type = k_add;
    }
    else record {
      diff = record { a = id_range (low64 old_end_p1) new_end_lo; b = empty_range };
      diff_type = k_add;
    }

shrink_diff : ℕ → ℕ → RangeDiff
shrink_diff old_start new_start =
    if ltb old_start new_start
    then record {
      diff = record { a = id_range old_start (new_start - 1); b = empty_range };
      diff_type = k_del;
    }
    else if new_start == 0
    then record {
      diff = record { a = id_range old_start max_id; b = empty_range };
      diff_type = k_del;
    }
    else record {
      diff = record { a = id_range 0 (new_start - 1); b = id_range old_start max_id };
      diff_type = k_del;
    }

module _ (d : Double) where
  open d use {Carrier, zero_frac, one_frac, plus, minus, is_lt, is_eq, round_times}

  pub record HashRing : Type 0 where
    pub start : ℕ
    pub frac : Carrier

  pub frac_to_ring : Carrier → ℕ
  frac_to_ring frac =
      let matched_chunks = round_times frac num_chunks in
      if matched_chunks == 0 then 0 else (matched_chunks * chunk_size) % 2 ^ 128

  -- The inclusive end of the marked arc, as a 128-bit number.
  pub arc_end : ℕ → Carrier → ℕ
  arc_end start frac = add128 start (sub128 (frac_to_ring frac) 1)

  pub compute_range_diff : ℕ → Carrier → ℕ → Carrier → RangeDiff
  compute_range_diff old_start old_frac new_start new_frac =
      if is_eq old_frac new_frac
      then no_diff
      else if is_lt old_frac new_frac
      then grow_diff (arc_end old_start old_frac) (arc_end new_start new_frac)
      else shrink_diff old_start new_start

  -- The `ABSL_ASSERT`s of `ComputeRangeDiff`, which a build with `NDEBUG` drops.
  pub asserts_hold : ℕ → Carrier → ℕ → Carrier → Bool
  unfolding arc_end
  asserts_hold old_start old_frac new_start new_frac =
      if is_eq old_frac new_frac
      then old_start == new_start
      else if is_lt old_frac new_frac
      then old_start == new_start
      else arc_end old_start old_frac == arc_end new_start new_frac

  abbrev pub clamp : Carrier → Carrier
  clamp frac =
      if is_lt frac zero_frac then zero_frac else if is_lt one_frac frac then one_frac else frac

  -- The start that `UpdateFrac` leaves, for a fraction already clamped.
  pub moved_start : HashRing → Carrier → ℕ
  moved_start r frac =
      if is_lt frac r.frac
      then (r.start + low64 (frac_to_ring (minus r.frac frac))) % 2 ^ 64
      else r.start

  -- The ring after the call, and the call's result.
  pub update_frac : HashRing → Carrier → HashRing × RangeDiff
  update_frac r new =
      let frac = clamp new in
      let start = moved_start r frac in
      (record { start = start; frac = frac }, compute_range_diff r.start r.frac start frac)

  pub add : HashRing → Carrier → HashRing × RangeDiff
  add r frac_diff = update_frac r (plus r.frac frac_diff)

  pub sub : HashRing → Carrier → HashRing × RangeDiff
  sub r frac_diff = update_frac r (minus r.frac frac_diff)

  pub matching_ranges : HashRing → RingRanges
  matching_ranges r =
      let end = sub128 (add128 r.start (frac_to_ring r.frac)) 1 in
      if is_eq r.frac zero_frac
      then no_ranges
      else if high64 end == 0
      then record { a = id_range r.start (low64 end); b = empty_range }
      else record { a = id_range 0 (low64 end); b = id_range r.start max_id }

  abbrev pub initial_ring : HashRing
  initial_ring = record { start = 0; frac = zero_frac }
