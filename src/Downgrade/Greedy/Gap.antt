-- ===== src/Downgrade/Greedy/Gap.antt =====
-- What `GreedyAssignToMinimizeGap` (heyp/alg/downgrade/greedy-assign.h) keeps: the demand it tracks
-- is the bin's, and the bin never gets further from the demand that is wanted.
use heyp_agents.Prelude.{
  ℕ, zero, suc, ◌+◌, ◌-◌, ◌≤◌, ◌≡◌, ◌∙◌, ◌⊎◌, refl, Bool, true, false, List, [], ◌∷◌, set, length,
  if◌then◌else◌, arith, Bool-cases, inl, inr,
}
use heyp_agents.Downgrade.View.{ChildFlowInfo}
use heyp_agents.Downgrade.Greedy.{
  volume_at, lopri_at, same_state, Decision, skips, flips, flips_last, stops, decide, is_not_empty,
  greedy_assign,
}

-- The demand of the children in the bin of a state.
abbrev pub bin_demand : Bool → List ChildFlowInfo → List Bool → ℕ
bin_demand state [] lopri = 0
bin_demand state (c ∷ children) [] = 0
bin_demand state (c ∷ children) (l ∷ lopri) =
    (if same_state state l then c.volume_bps else 0) + bin_demand state children lopri

-- How far a bin is from the demand that is wanted.
abbrev pub gap : ℕ → ℕ → ℕ
gap want cur = (want - cur) + (cur - want)

-- Every child in the bin stays there.
abbrev pub OnlyGrows : Bool → List Bool → List Bool → Type 0
OnlyGrows state before after =
    (i : ℕ)
    → same_state state (lopri_at before i) ≡ true
    → same_state state (lopri_at after i) ≡ true

pub length-set : (lopri : List Bool) (i : ℕ) (v : Bool) → length (set lopri i v) ≡ length lopri
length-set [] i v = refl
length-set (l ∷ lopri) zero v = refl
length-set (l ∷ lopri) (suc i) v = omega (arith, length-set lopri i v)

bin_demand-set :
    (state : Bool) (children : List ChildFlowInfo) (lopri : List Bool) (i : ℕ)
    → length lopri ≡ length children
    → same_state state (lopri_at lopri i) ≡ false
    → bin_demand state children (set lopri i state)
      ≡ bin_demand state children lopri + volume_at children i
bin_demand-set state [] lopri i h n = ground arith
bin_demand-set state (c ∷ children) [] i h n = ground arith
bin_demand-set true (c ∷ children) (l ∷ lopri) zero h n = ground arith
bin_demand-set false (c ∷ children) (l ∷ lopri) zero h n = ground arith
bin_demand-set state (c ∷ children) (l ∷ lopri) (suc i) h n =
    ground (arith, bin_demand-set state children lopri i)

pub set-OnlyGrows :
    (state : Bool) (lopri : List Bool) (i : ℕ) → OnlyGrows state lopri (set lopri i state)
set-OnlyGrows state [] i j h = h
set-OnlyGrows true (l ∷ lopri) zero zero h = refl
set-OnlyGrows false (l ∷ lopri) zero zero h = refl
set-OnlyGrows state (l ∷ lopri) zero (suc j) h = h
set-OnlyGrows state (l ∷ lopri) (suc i) zero h = h
set-OnlyGrows state (l ∷ lopri) (suc i) (suc j) h = set-OnlyGrows state lopri i j h

-- What the loop does to a bin: the demand and the assignment before, and those after.
abbrev pub Improves : Bool → ℕ → List ChildFlowInfo → ℕ × List Bool → ℕ × List Bool → Type 0
Improves state want children before after =
    (bin_demand state children after.1 ≡ after.0)
    × (gap want after.0 ≤ gap want before.0)
    × (length after.1 ≡ length children)
    × OnlyGrows state before.1 after.1

Improves-trans :
    (state : Bool) (want : ℕ) (children : List ChildFlowInfo) (a b c : ℕ × List Bool)
    → Improves state want children a b
    → Improves state want children b c
    → Improves state want children a c
Improves-trans state want children a b c p q =
    (q.0, omega (arith, p.1, q.1), q.2, λ i h. q.3 i (p.3 i h))

-- A child is only taken into the bin where that does not widen the gap.
decide-flips :
    (punish less : Bool) (want cur next : ℕ)
    → cur ≤ next
    → decide punish less want cur next ≡ flips
    → gap want next ≤ gap want cur
unfolding decide
decide-flips punish less want cur next h e = ground arith

decide-flips_last :
    (punish less : Bool) (want cur next : ℕ)
    → cur ≤ next
    → decide punish less want cur next ≡ flips_last
    → gap want next ≤ gap want cur
unfolding decide
decide-flips_last punish less want cur next h e = ground arith

flip-Improves :
    (state : Bool) (want : ℕ) (children : List ChildFlowInfo) (i cur : ℕ) (lopri : List Bool)
    → length lopri ≡ length children
    → bin_demand state children lopri ≡ cur
    → same_state state (lopri_at lopri i) ≡ false
    → gap want (cur + volume_at children i) ≤ gap want cur
    → Improves state want children (cur, lopri) (cur + volume_at children i, set lopri i state)
flip-Improves state want children i cur lopri n b s g = (
  bin_demand-set state children lopri i n s ∙ omega (arith, b),
  g,
  length-set lopri i state ∙ n,
  set-OnlyGrows state lopri i,
)

pub Decision-cases : (d : Decision) → (d ≡ skips) ⊎ ((d ≡ stops) ⊎ ((d ≡ flips) ⊎ (d ≡ flips_last)))
Decision-cases skips = inl refl
Decision-cases stops = inr (inl refl)
Decision-cases flips = inr (inr (inl refl))
Decision-cases flips_last = inr (inr (inr refl))

-- The loop, with any order of the children and any flags: given the demand of the bin, the demand
-- that it goes by stays the bin's, the bin ends no further from the demand that is wanted than it
-- began, and no child leaves it.
pub greedy_assign-Improves :
    (state punish : Bool) (want : ℕ) (children : List ChildFlowInfo) (order : List ℕ) (cur : ℕ)
    (lopri : List Bool)
    → length lopri ≡ length children
    → bin_demand state children lopri ≡ cur
    → Improves state want children
        (cur, lopri)
        (greedy_assign state punish want children order cur lopri)
unfolding greedy_assign
greedy_assign-Improves state punish want children [] cur lopri n b = (b, omega arith, n, λ i h. h)
greedy_assign-Improves state punish want children (i ∷ order) cur lopri n b =
    let next = cur + volume_at children i in
    let flip = flip-Improves state want children i cur lopri n b in
    elim (Bool-cases (same_state state (lopri_at lopri i))) [
      | inl s ↦
          rw (greedy_assign, s)
            (greedy_assign-Improves state punish want children order cur lopri n b)
      | inr s ↦ elim (Decision-cases (decide punish (is_not_empty order) want cur next)) [
        | inl e ↦
            rw (greedy_assign, s, e)
              (greedy_assign-Improves state punish want children order cur lopri n b)
        | inr (inl e) ↦ rw (greedy_assign, s, e) (b, omega arith, n, λ i h. h)
        | inr (inr (inl e)) ↦
            let p =
              flip s (decide-flips punish (is_not_empty order) want cur next (omega arith) e) in
            rw (greedy_assign, s, e)
              (Improves-trans state want children _ (next, set lopri i state) _ p
                (greedy_assign-Improves state punish want children order next (set lopri i state)
                  p.2 p.0))
        | inr (inr (inr e)) ↦
            rw (greedy_assign, s, e)
              (flip s (decide-flips_last punish (is_not_empty order) want cur next (omega arith) e))
      ]
    ]
