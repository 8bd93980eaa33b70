-- ===== src/Views/Children.antt =====
-- Writes to one child, and a child that is added, in heyp/alg/agg-info-views.cc.
use heyp_agents.Prelude.{
  ℕ, zero, suc, ◌+◌, ◌<◌, ◌≡◌, refl, Bool, false, ◌||◌, List, [], ◌∷◌, ◌++◌, length, get_elem?,
  total, some, ◌==◌, arith,
}
use heyp_agents.Downgrade.View.{ChildFlowInfo}
use heyp_agents.Views.{job_keys, count_in}

abbrev pub with_volume : ℕ → Bool → ChildFlowInfo → ChildFlowInfo
with_volume volume lopri c = record c {
  volume_bps = c.volume_bps + volume;
  currently_lopri = c.currently_lopri || lopri;
}

pub get_elem?-count_in :
    (v : ℕ) (l : Bool) (c : ChildFlowInfo) (cs : List ChildFlowInfo) (j : ℕ)
    → get_elem? cs j ≡ some c
    → get_elem? (count_in v l cs j) j ≡ some (with_volume v l c)
unfolding count_in
get_elem?-count_in v l c [] j h = ground arith
get_elem?-count_in v l c (d ∷ cs) zero h = ground arith
get_elem?-count_in v l c (d ∷ cs) (suc j) h = get_elem?-count_in v l c cs j h

pub get_elem?-count_in_other :
    (v : ℕ) (l : Bool) (cs : List ChildFlowInfo) (j i : ℕ)
    → (j == i) ≡ false
    → get_elem? (count_in v l cs j) i ≡ get_elem? cs i
unfolding count_in
get_elem?-count_in_other v l [] j i h = refl
get_elem?-count_in_other v l (d ∷ cs) zero zero h = ground arith
get_elem?-count_in_other v l (d ∷ cs) zero (suc i) h = refl
get_elem?-count_in_other v l (d ∷ cs) (suc j) zero h = refl
get_elem?-count_in_other v l (d ∷ cs) (suc j) (suc i) h =
    get_elem?-count_in_other v l cs j i (ground arith)

pub length-count_in :
    (v : ℕ) (l : Bool) (cs : List ChildFlowInfo) (j : ℕ) → length (count_in v l cs j) ≡ length cs
unfolding count_in
length-count_in v l [] j = refl
length-count_in v l (d ∷ cs) zero = refl
length-count_in v l (d ∷ cs) (suc j) = omega (arith, length-count_in v l cs j)

pub get_elem?-last :
    (c : ChildFlowInfo) (cs : List ChildFlowInfo) → get_elem? (cs ++ c ∷ []) (length cs) ≡ some c
get_elem?-last c [] = refl
get_elem?-last c (d ∷ cs) = get_elem?-last c cs

pub get_elem?-before :
    (c : ChildFlowInfo) (cs : List ChildFlowInfo) (i : ℕ)
    → i < length cs
    → get_elem? (cs ++ c ∷ []) i ≡ get_elem? cs i
get_elem?-before c [] i h = ground arith
get_elem?-before c (d ∷ cs) zero h = refl
get_elem?-before c (d ∷ cs) (suc i) h = get_elem?-before c cs i (omega arith)

pub total-count_in :
    (v : ℕ) (l : Bool) (cs : List ChildFlowInfo) (j : ℕ)
    → j < length cs
    → total (λ c. c.volume_bps) (count_in v l cs j) ≡ total (λ c. c.volume_bps) cs + v
unfolding count_in
total-count_in v l [] j h = ground arith
total-count_in v l (d ∷ cs) zero h = omega arith
total-count_in v l (d ∷ cs) (suc j) h = omega (arith, total-count_in v l cs j (omega arith))

pub get_elem?-within :
    (cs : List ChildFlowInfo) (i : ℕ)
    → i < length cs
    → (c : ChildFlowInfo) × (get_elem? cs i ≡ some c)
get_elem?-within [] i h = ground arith
get_elem?-within (d ∷ cs) zero h = (d, refl)
get_elem?-within (d ∷ cs) (suc i) h = get_elem?-within cs i (omega arith)
