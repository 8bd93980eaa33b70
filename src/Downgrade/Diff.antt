-- ===== src/Downgrade/Diff.antt =====
-- `UnorderedIds` of heyp/alg/unordered-ids.h, and `DowngradeDiff` and
-- `DiffDowngradeSelectorImpl::PickLOPRIChildren` of heyp/alg/downgrade/iface.{h,cc}.
pub mod Laws
use heyp_agents.Prelude.{
  ℕ, suc, Bool, true, false, List, [], ◌∷◌, map, set, Option, none, some, ◌==◌, if◌then◌else◌,
}
use heyp_agents.HashRing.{IdRange, contains}
use heyp_agents.Downgrade.View.{ChildFlowInfo}

pub record UnorderedIds : Type 0 where
  pub ranges : List IdRange
  pub points : List ℕ

pub record DowngradeDiff : Type 0 where
  pub to_downgrade : UnorderedIds
  pub to_upgrade : UnorderedIds

-- `last_is_lopri_`: child id to the last assignment.
abbrev pub LastIsLopri : Type 0
LastIsLopri = ℕ → Option Bool

-- The first loop over the children: the last assignment, or what the child reports.
unfoldable pub initial_lopri : LastIsLopri → ChildFlowInfo → Bool
initial_lopri last_is_lopri c = elim (last_is_lopri c.child_id) [
  | none ↦ c.currently_lopri
  | some lopri ↦ lopri
]

-- The loop over the children for one range, which sets `lopri` to `mark`.
unfoldable pub mark_range : Bool → IdRange → List ChildFlowInfo → List Bool → List Bool
unfolding contains
mark_range mark range [] lopri = lopri
mark_range mark range (c ∷ children) [] = []
mark_range mark range (c ∷ children) (l ∷ lopri) =
    (if contains range c.child_id then mark else l) ∷ mark_range mark range children lopri

unfoldable pub mark_ranges : Bool → List IdRange → List ChildFlowInfo → List Bool → List Bool
unfolding mark_range
mark_ranges mark [] children lopri = lopri
mark_ranges mark (range ∷ ranges) children lopri =
    mark_ranges mark ranges children (mark_range mark range children lopri)

-- `id2index`: the index of the last child with the id, since later children overwrite earlier ones.
unfoldable pub id2index : List ChildFlowInfo → ℕ → Option ℕ
id2index [] id = none
id2index (c ∷ children) id = elim (id2index children id) [
  | some i ↦ some (suc i)
  | none ↦ if c.child_id == id then some 0 else none
]

unfoldable pub mark_point : Bool → ℕ → List ChildFlowInfo → List Bool → List Bool
unfolding id2index
mark_point mark point children lopri = elim (id2index children point) [
  | none ↦ lopri
  | some i ↦ set lopri i mark
]

unfoldable pub mark_points : Bool → List ℕ → List ChildFlowInfo → List Bool → List Bool
unfolding mark_point
mark_points mark [] children lopri = lopri
mark_points mark (point ∷ points) children lopri =
    mark_points mark points children (mark_point mark point children lopri)

-- The last loop: the assignment of each child is kept for the next call.
unfoldable pub remember : LastIsLopri → List ChildFlowInfo → List Bool → LastIsLopri
remember last_is_lopri [] lopri = last_is_lopri
remember last_is_lopri (c ∷ children) [] = last_is_lopri
remember last_is_lopri (c ∷ children) (l ∷ lopri) =
    remember (λ id. if id == c.child_id then some l else last_is_lopri id) children lopri

-- The assignment that `PickLOPRIChildren` makes of the difference that `PickChildren` returned.
unfoldable pub apply_diff : DowngradeDiff → LastIsLopri → List ChildFlowInfo → List Bool
unfolding initial_lopri mark_ranges mark_points
apply_diff diff last_is_lopri children =
    let first = map (initial_lopri last_is_lopri) children in
    let downgraded_ranges = mark_ranges true diff.to_downgrade.ranges children first in
    let downgraded = mark_points true diff.to_downgrade.points children downgraded_ranges in
    let upgraded_ranges = mark_ranges false diff.to_upgrade.ranges children downgraded in
    mark_points false diff.to_upgrade.points children upgraded_ranges

-- The map after the call, and the assignment.
unfoldable pub pick_lopri_children :
    DowngradeDiff → LastIsLopri → List ChildFlowInfo → LastIsLopri × List Bool
unfolding apply_diff remember
pick_lopri_children diff last_is_lopri children =
    let lopri = apply_diff diff last_is_lopri children in
    (remember last_is_lopri children lopri, lopri)
