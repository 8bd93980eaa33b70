-- ===== src/Downgrade/Hashing.antt =====
-- `HashingDowngradeSelector` of heyp/alg/downgrade/impl-hashing.{h,cc}: the children whose ids the
-- ring matches are LOPRI.
pub mod Sticky
use heyp_agents.Prelude.Double.{Double}
use heyp_agents.Prelude.{ℕ, Bool, List, [], ◌∷◌, ◌++◌, none, if◌then◌else◌}
use heyp_agents.HashRing.{
  IdRange, RingRanges, RangeDiff, RangeDiffType, k_add, k_del, is_empty, ring_contains, HashRing,
  update_frac, matching_ranges, initial_ring,
}
use heyp_agents.Downgrade.View.{ChildFlowInfo}
use heyp_agents.Downgrade.Diff.{UnorderedIds, DowngradeDiff, LastIsLopri, pick_lopri_children}

abbrev no_ids : UnorderedIds
no_ids = record { ranges = []; points = [] }

-- The two tests that push the ranges of a difference that are not empty.
unfoldable pub pushed_ranges : RingRanges → List IdRange
unfolding is_empty
pushed_ranges r = (if is_empty r.a then [] else r.a ∷ []) ++ (if is_empty r.b then [] else r.b ∷ [])

unfoldable pub to_diff : RangeDiffType → List IdRange → DowngradeDiff
to_diff k_add rs = record {
  to_downgrade = record { ranges = rs; points = [] };
  to_upgrade = no_ids;
}
to_diff k_del rs = record {
  to_downgrade = no_ids;
  to_upgrade = record { ranges = rs; points = [] };
}

module _ (d : Double) where
  -- The selector: its ring, and the map of its base class.
  pub record HashingDowngradeSelector : Type 0 where
    pub lopri : HashRing d
    pub last_is_lopri : LastIsLopri

  pub new_selector : HashingDowngradeSelector
  new_selector = record { lopri = initial_ring d; last_is_lopri = λ id. none }

  pub is_lopri : HashingDowngradeSelector → ℕ → Bool
  is_lopri s child_id = ring_contains (matching_ranges d s.lopri) child_id

  -- `PickChildren`: the ring after it, and the difference.
  pub pick_children : HashRing d → d.Carrier → HashRing d × DowngradeDiff
  unfolding pushed_ranges to_diff
  pick_children ring want_frac_lopri =
      let (next, diff) = update_frac d ring want_frac_lopri in
      (next, to_diff diff.diff_type (pushed_ranges diff.diff))

  -- `PickLOPRIChildren` with this `PickChildren`.
  unfoldable pub pick_lopri :
      HashingDowngradeSelector
      → List ChildFlowInfo
      → d.Carrier
      → HashingDowngradeSelector × List Bool
  pick_lopri s children want_frac_lopri =
      let (ring, diff) = pick_children s.lopri want_frac_lopri in
      let (last, assignment) = pick_lopri_children diff s.last_is_lopri children in
      (record { lopri = ring; last_is_lopri = last }, assignment)
