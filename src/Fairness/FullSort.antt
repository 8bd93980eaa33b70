-- ===== src/Fairness/FullSort.antt =====
-- `SolveFullSort` of heyp/alg/fairness/max-min-fairness.cc finds the greatest waterlevel that fits.
use heyp_agents.Prelude.{
  ℕ, suc, ◌+◌, ◌-◌, ◌*◌, ◌/◌, ◌≤◌, ◌<◌, ◌≡◌, ◌⊎◌, inl, inr, refl, sym, ap, subst, total, ◌∙◌, min,
  true, false, List, [], ◌∷◌, All, All-both, length, leb, ltb, arith, Bool-cases,
}
use heyp_agents.Prelude.Algorithms.{IsSorted}
use native.Mathlib.Nat.{add-mul, div-mul-le_self, lt-div-mul-add, div-lt_iff_lt-mul}
use heyp_agents.Fairness.{number_order, raise_waterlevel}

-- What the demands get at a waterlevel, in all.
abbrev pub fill : ℕ → List ℕ → ℕ
fill w ds = total (λ d. min w d) ds

abbrev pub sum : List ℕ → ℕ
sum ds = total (λ d. d) ds

fill-below : (w : ℕ) (ds : List ℕ) → All (λ d. w ≤ d) ds → fill w ds ≡ w * length ds
fill-below w [] h = omega arith
fill-below w (d ∷ ds) h = omega (arith, h.0, fill-below w ds h.1)

-- A waterlevel that fits in a capacity, and is the greatest one unless it satisfies all demands.
abbrev pub IsGreatest : ℕ → ℕ → List ℕ → Type 0
IsGreatest w capacity ds =
    (fill w ds ≤ capacity) × ((fill w ds ≡ sum ds) ⊎ (capacity < fill (suc w) ds))

split_demand : (w d n : ℕ) → w ≤ d → (d - w) * n + w * n ≡ d * n
split_demand w d n h = sym (add-mul (d - w) w n) ∙ ap (λ x. x * n) (omega arith)

-- A demand that can be satisfied.
IsGreatest-satisfied :
    (d w capacity waterlevel : ℕ) (rest : List ℕ)
    → waterlevel ≤ d
    → d ≤ w
    → (d - waterlevel) * suc (length rest) ≤ capacity
    → IsGreatest w (capacity - (d - waterlevel) * suc (length rest) + d * length rest) rest
    → IsGreatest w (capacity + waterlevel * suc (length rest)) (d ∷ rest)
IsGreatest-satisfied d w capacity waterlevel rest h k ask (fits, inl all) =
    let e = split_demand waterlevel d (suc (length rest)) h in (omega arith, inl (omega arith))
IsGreatest-satisfied d w capacity waterlevel rest h k ask (fits, inr over) =
    let e = split_demand waterlevel d (suc (length rest)) h in (omega arith, inr (omega arith))

-- The last demand that the loop comes to, which is above the level it returns.
IsGreatest-last :
    (d capacity waterlevel : ℕ) (rest : List ℕ)
    → waterlevel ≤ d
    → All (λ x. d ≤ x) rest
    → capacity < (d - waterlevel) * suc (length rest)
    → IsGreatest
        (waterlevel + capacity / suc (length rest))
        (capacity + waterlevel * suc (length rest))
        (d ∷ rest)
IsGreatest-last d capacity waterlevel rest h above ask =
    let n = suc (length rest) in
    let q = capacity / n in
    let less : q < d - waterlevel =
      (div-lt_iff_lt-mul {k = n} {x = capacity} {y = d - waterlevel} (omega arith)).1 ask in
    let above_level : (v : ℕ) → v ≤ d → All (λ x. v ≤ x) rest = λ v h.
      All-both (λ x. d ≤ x) (λ x. d ≤ x) (λ x. v ≤ x) rest (λ x p p'. omega (arith, p)) above
        above in
    let low = fill-below (waterlevel + q) (d ∷ rest) (omega arith, above_level _ (omega arith)) in
    let high =
      fill-below (suc (waterlevel + q)) (d ∷ rest) (omega arith, above_level _ (omega arith)) in
    let split = add-mul waterlevel q n in
    let share : q * n ≤ capacity = div-mul-le_self capacity n in
    let rest_share : capacity < q * n + n = lt-div-mul-add (omega arith) in
    (omega arith, inr (omega arith))

-- The demands behind one in a sorted list are no smaller.
above-first : (d : ℕ) (rest : List ℕ) → All (λ x. ltb x d ≡ false) rest → All (λ x. d ≤ x) rest
above-first d [] h = tt
above-first d (x ∷ rest) h = (ground (arith, h.0), above-first d rest h.1)

raise_waterlevel-satisfied :
    (d capacity waterlevel : ℕ) (rest : List ℕ)
    → waterlevel ≤ d
    → leb ((d - waterlevel) * suc (length rest)) capacity ≡ true
    → raise_waterlevel (d ∷ rest) capacity waterlevel
      ≡ raise_waterlevel rest (capacity - (d - waterlevel) * suc (length rest)) d
unfolding raise_waterlevel
raise_waterlevel-satisfied d capacity waterlevel rest h e =
    let up : waterlevel + (d - waterlevel) ≡ d = omega (arith, h) in
    rw (raise_waterlevel, e, up) refl

raise_waterlevel-last :
    (d capacity waterlevel : ℕ) (rest : List ℕ)
    → leb ((d - waterlevel) * suc (length rest)) capacity ≡ false
    → raise_waterlevel (d ∷ rest) capacity waterlevel ≡ waterlevel + capacity / suc (length rest)
unfolding raise_waterlevel
raise_waterlevel-last d capacity waterlevel rest e = rw (raise_waterlevel, e) refl

-- `SolveFullSort`'s loop on sorted demands that are no smaller than the waterlevel it is given, for
-- the capacity that is left when all of them have that much.
pub raise_waterlevel-IsGreatest :
    (ds : List ℕ) (capacity waterlevel : ℕ)
    → IsSorted ds
    → All (λ d. waterlevel ≤ d) ds
    → let w = raise_waterlevel ds capacity waterlevel in
      IsGreatest w (capacity + waterlevel * length ds) ds × (waterlevel ≤ w)
unfolding raise_waterlevel number_order
raise_waterlevel-IsGreatest [] capacity waterlevel s h = ((omega arith, inl refl), omega arith)
raise_waterlevel-IsGreatest (d ∷ rest) capacity waterlevel s h =
    let ask = (d - waterlevel) * suc (length rest) in
    let above = above-first d rest s.0 in
    elim (Bool-cases (leb ask capacity)) [
      | inl e ↦
          let p = raise_waterlevel-IsGreatest rest (capacity - ask) d s.1 above in
          subst
            (λ w.
              IsGreatest w (capacity + waterlevel * length (d ∷ rest)) (d ∷ rest)
              × (waterlevel ≤ w))
            (sym (raise_waterlevel-satisfied d capacity waterlevel rest h.0 e))
            (
              IsGreatest-satisfied d (raise_waterlevel rest (capacity - ask) d) capacity waterlevel
                  rest h.0 p.1 (ground arith) p.0,
              omega (arith, h.0, p.1),
            )
      | inr e ↦
          subst
            (λ w.
              IsGreatest w (capacity + waterlevel * length (d ∷ rest)) (d ∷ rest)
              × (waterlevel ≤ w))
            (sym (raise_waterlevel-last d capacity waterlevel rest e))
            (IsGreatest-last d capacity waterlevel rest h.0 above (ground arith), omega arith)
    ]
