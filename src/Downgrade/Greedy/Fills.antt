-- ===== src/Downgrade/Greedy/Fills.antt =====
-- How far `GreedyAssignToMinimizeGap` (heyp/alg/downgrade/greedy-assign.h) fills a bin where it does not
-- only take the largest children.
use heyp_agents.Prelude.{
  ℕ, zero, suc, ltb, subst, sym, ◌*◌, ◌+◌, ◌≤◌, ◌<◌, ◌≡◌, ◌⊎◌, refl, Bool, true, false, List, [],
  ◌∷◌, set, length, All, arith, Bool-cases, inl, inr,
}
use heyp_agents.Downgrade.View.{ChildFlowInfo}
use heyp_agents.Downgrade.Greedy.{
  volume_at, lopri_at, same_state, skips, flips, decide, is_not_empty, greedy_assign,
}
use heyp_agents.Downgrade.Greedy.Gap.{OnlyGrows, length-set, set-OnlyGrows}

-- A child is in the bin, or does not fit in what is left of the demand that is wanted.
abbrev pub IsTakenOrTooLarge : Bool → ℕ → List ChildFlowInfo → ℕ × List Bool → ℕ → Type 0
IsTakenOrTooLarge state want children after i =
    (same_state state (lopri_at after.1 i) ≡ true) ⊎ (want < after.0 + volume_at children i)

set-taken :
    (state : Bool) (lopri : List Bool) (i : ℕ)
    → i < length lopri
    → same_state state (lopri_at (set lopri i state) i) ≡ true
set-taken state [] i h = ground arith
set-taken true (l ∷ lopri) zero h = refl
set-taken false (l ∷ lopri) zero h = refl
set-taken state (l ∷ lopri) (suc i) h = set-taken state lopri i (omega arith)

decide-skips :
    (less : Bool) (want cur next : ℕ) → decide false less want cur next ≡ skips → want < next
unfolding decide
decide-skips less want cur next e = ground arith

decide-goes_on :
    (less : Bool) (want cur next : ℕ)
    → (decide false less want cur next ≡ skips) ⊎ (decide false less want cur next ≡ flips)
unfolding decide
decide-goes_on true want cur next = elim (Bool-cases (ltb want next)) [
  | inl p ↦ rw p (inl refl)
  | inr p ↦ rw p (inr refl)
]
decide-goes_on false want cur next = elim (Bool-cases (ltb want next)) [
  | inl p ↦ elim (Bool-cases (ltb (2 * want) (next + cur))) [
    | inl q ↦ rw (p, q) (inl refl)
    | inr q ↦ rw (p, q) (inr refl)
  ]
  | inr p ↦ rw p (inr refl)
]

decide-fits : (want cur next : ℕ) → decide false true want cur next ≡ flips → next ≤ want
unfolding decide
decide-fits want cur next e = ground arith

-- What the loop does to a bin over some of the children.
abbrev pub Fills : Bool → ℕ → List ChildFlowInfo → List ℕ → ℕ × List Bool → ℕ × List Bool → Type 0
Fills state want children order before after =
    (before.0 ≤ after.0)
    × OnlyGrows state before.1 after.1
    × All (IsTakenOrTooLarge state want children after) order

-- The loop leaves no child out that fits in what is left.
pub greedy_assign-Fills :
    (state : Bool) (want : ℕ) (children : List ChildFlowInfo) (order : List ℕ) (cur : ℕ)
    (lopri : List Bool)
    → All (λ i. i < length lopri) order
    → Fills state want children order
        (cur, lopri)
        (greedy_assign state false want children order cur lopri)
unfolding greedy_assign
greedy_assign-Fills state want children [] cur lopri h = (omega arith, λ i t. t, tt)
greedy_assign-Fills state want children (i ∷ order) cur lopri h =
    let next = cur + volume_at children i in
    let goal = Fills state want children (i ∷ order) (cur, lopri) in
    let loop = greedy_assign state false want children in
    elim (Bool-cases (same_state state (lopri_at lopri i))) [
      | inl s ↦
          let r = greedy_assign-Fills state want children order cur lopri h.1 in
          let e : loop (i ∷ order) cur lopri ≡ loop order cur lopri = rw (greedy_assign, s) refl in
          subst goal (sym e) (r.0, r.1, (inl (r.1 i s), r.2))
      | inr s ↦ elim (decide-goes_on (is_not_empty order) want cur next) [
        | inl d ↦
            let r = greedy_assign-Fills state want children order cur lopri h.1 in
            let over = decide-skips (is_not_empty order) want cur next d in
            let e : loop (i ∷ order) cur lopri ≡ loop order cur lopri =
              rw (greedy_assign, s, d) refl in
            subst goal (sym e) (r.0, r.1, (inr (omega (arith, r.0, over)), r.2))
        | inr d ↦
            let l = length-set lopri i state in
            let after = set lopri i state in
            let r =
              greedy_assign-Fills state want children order next after
                (subst (λ n. All (λ j. j < n) order) (sym l) h.1) in
            let e : loop (i ∷ order) cur lopri ≡ loop order next after =
              rw (greedy_assign, s, d) refl in
            subst goal (sym e) (
              omega (arith, r.0),
              λ j t. r.1 j (set-OnlyGrows state lopri i j t),
              (inl (r.1 i (set-taken state lopri i h.0)), r.2),
            )
      ]
    ]

-- The last of some indices.
abbrev pub last_of : List ℕ → ℕ
last_of [] = 0
last_of (i ∷ []) = i
last_of (i ∷ j ∷ order) = last_of (j ∷ order)

-- The loop exceeds what is wanted by no more than the last child has.
pub greedy_assign-exceeds :
    (state : Bool) (want : ℕ) (children : List ChildFlowInfo) (order : List ℕ) (cur : ℕ)
    (lopri : List Bool)
    → cur ≤ want
    → (greedy_assign state false want children order cur lopri).0
      ≤ want + volume_at children (last_of order)
unfolding greedy_assign
greedy_assign-exceeds state want children [] cur lopri h = omega arith
greedy_assign-exceeds state want children (i ∷ []) cur lopri h =
    elim (Bool-cases (same_state state (lopri_at lopri i))) [
      | inl s ↦ rw (greedy_assign, s) (omega arith)
      | inr s ↦ elim (decide-goes_on false want cur (cur + volume_at children i)) [
        | inl e ↦ rw (greedy_assign, s, e) (omega arith)
        | inr e ↦ rw (greedy_assign, s, e) (omega arith)
      ]
    ]
greedy_assign-exceeds state want children (i ∷ j ∷ order) cur lopri h =
    let next = cur + volume_at children i in
    elim (Bool-cases (same_state state (lopri_at lopri i))) [
      | inl s ↦
          rw (greedy_assign, s) (greedy_assign-exceeds state want children (j ∷ order) cur lopri h)
      | inr s ↦ elim (decide-goes_on true want cur next) [
        | inl e ↦
            rw (greedy_assign, s, e)
              (greedy_assign-exceeds state want children (j ∷ order) cur lopri h)
        | inr e ↦
            rw (greedy_assign, s, e)
              (greedy_assign-exceeds state want children (j ∷ order) next (set lopri i state)
                (decide-fits want cur next e))
      ]
    ]
