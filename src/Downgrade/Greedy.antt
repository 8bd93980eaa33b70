-- ===== src/Downgrade/Greedy.antt =====
-- `GreedyAssignToMinimizeGap` of heyp/alg/downgrade/greedy-assign.h. Demands are `int64_t` there:
-- the sums here are those that do not overflow, which the sources leave undefined. A child's index
-- is always one of a child; the reads are 0 and HIPRI elsewhere.
pub mod Gap
pub mod Fills
use heyp_agents.Prelude.{
  ℕ, zero, suc, ◌+◌, ◌*◌, Bool, true, false, not, ◌||◌, List, [], ◌∷◌, set, ltb, if◌then◌else◌,
}
use heyp_agents.Downgrade.View.{ChildFlowInfo}

abbrev pub volume_at : List ChildFlowInfo → ℕ → ℕ
volume_at [] i = 0
volume_at (c ∷ children) zero = c.volume_bps
volume_at (c ∷ children) (suc i) = volume_at children i

abbrev pub lopri_at : List Bool → ℕ → Bool
lopri_at [] i = false
lopri_at (l ∷ lopri) zero = l
lopri_at (l ∷ lopri) (suc i) = lopri_at lopri i

-- `lopri_children[child_i] == StateToIncrease`.
abbrev pub same_state : Bool → Bool → Bool
same_state true lopri = lopri
same_state false lopri = not lopri

-- What the loop's body does with a child that is not in the bin.
pub data Decision : Type 0 where
  skips flips flips_last stops : Decision

-- The tests of the loop's body. `next > 2 * want - cur` is `2 * want < next + cur`.
unfoldable pub decide : Bool → Bool → ℕ → ℕ → ℕ → Decision
decide punish_only_largest have_children_with_less_demand want_demand cur_demand next_demand =
    let exceeds_twice_gap = ltb (2 * want_demand) (next_demand + cur_demand) in
    if ltb want_demand next_demand
    then (if punish_only_largest
        then (if exceeds_twice_gap then stops else flips_last)
        else if have_children_with_less_demand || exceeds_twice_gap
        then skips
        else flips)
    else flips

abbrev pub is_not_empty : List ℕ → Bool
is_not_empty [] = false
is_not_empty (i ∷ is) = true

-- The loop: the demand of the bin after it, and the assignment.
unfoldable pub greedy_assign :
    Bool → Bool → ℕ → List ChildFlowInfo → List ℕ → ℕ → List Bool → ℕ × List Bool
unfolding decide
greedy_assign state punish want children [] cur lopri = (cur, lopri)
greedy_assign state punish want children (i ∷ order) cur lopri =
    let next = cur + volume_at children i in
    elim (same_state state (lopri_at lopri i)) [
      | true ↦ greedy_assign state punish want children order cur lopri
      | false ↦ elim (decide punish (is_not_empty order) want cur next) [
        | skips ↦ greedy_assign state punish want children order cur lopri
        | flips ↦ greedy_assign state punish want children order next (set lopri i state)
        | flips_last ↦ (next, set lopri i state)
        | stops ↦ (cur, lopri)
      ]
    ]
