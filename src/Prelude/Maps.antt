-- ===== src/Prelude/Maps.antt =====
-- Hash maps as association lists without two equal keys. An assignment to a key that is there keeps
-- the key as it was first inserted.
use heyp_agents.Prelude.Tests.{if◌then◌else◌, Bool-cases, Option-cases}
use heyp_agents.Prelude.Lists.{total, All}
use Prim.Native.Nat.{ℕ, ◌+◌, ◌≤◌}
use mathlib.Core.Path.{◌≡◌, refl, subst, ap}
use mathlib.Core.Logic.{inl, inr}
use mathlib.Core.Bool.{Bool, true, false}
use mathlib.Core.List.{List, [], ◌∷◌, ◌++◌, append_assoc, append-nil}
use mathlib.Core.Option.{Option, none, some}
use native.Mathlib.Omega.{arith}

-- The comparison of the keys, with what makes it an equivalence.
pub record KeyEq (K : Type 0) : Type 0 where
  pub eq : K → K → Bool
  pub eq_refl : (k : K) → eq k k ≡ true
  pub eq_common : (a b c : K) → eq a c ≡ true → eq b c ≡ true → eq a b ≡ true

-- Whether two keys name the same entry.
abbrev pub same_key : {K : Type 0} → ⦃e : KeyEq K⦄ → K → K → Bool
same_key ⦃e⦄ j k = e.eq j k

module _ {K : Type 0} {V : Type 0} ⦃e : KeyEq K⦄ where
  abbrev pub lookup : K → List (K × V) → Option V
  lookup k [] = none
  lookup k (x ∷ m) = if e.eq x.0 k then some x.1 else lookup k m

  abbrev pub assign : K → V → List (K × V) → List (K × V)
  assign k v [] = (k, v) ∷ []
  assign k v (x ∷ m) = if e.eq x.0 k then (x.0, v) ∷ m else x ∷ assign k v m

  abbrev pub erase : K → List (K × V) → List (K × V)
  erase k [] = []
  erase k (x ∷ m) = if e.eq x.0 k then m else x ∷ erase k m

  -- How many entries have a key: at most one in a map.
  abbrev pub matches : K → List (K × V) → ℕ
  matches k m = total (λ x. if e.eq x.0 k then 1 else 0) m

  abbrev pub IsMap : List (K × V) → Type 0
  IsMap m = (k : K) → matches k m ≤ 1

  pub lookup-assign : (k : K) (v : V) (m : List (K × V)) → lookup k (assign k v m) ≡ some v
  lookup-assign k v [] = ground (arith, e.eq_refl k)
  lookup-assign k v (x ∷ m) = ground (arith, lookup-assign k v m)

  pub total-assign :
      (f : V → ℕ) (k : K) (v old : V) (m : List (K × V))
      → lookup k m ≡ some old
      → total (λ x. f x.1) (assign k v m) + f old ≡ total (λ x. f x.1) m + f v
  total-assign f k v old [] h = ground arith
  total-assign f k v old (x ∷ m) h = ground (arith, total-assign f k v old m)

  pub total-assign_new :
      (f : V → ℕ) (k : K) (v : V) (m : List (K × V))
      → lookup k m ≡ none
      → total (λ x. f x.1) (assign k v m) ≡ total (λ x. f x.1) m + f v
  total-assign_new f k v [] h = omega arith
  total-assign_new f k v (x ∷ m) h = ground (arith, total-assign_new f k v m)

  pub total-erase :
      (f : V → ℕ) (k : K) (old : V) (m : List (K × V))
      → lookup k m ≡ some old
      → total (λ x. f x.1) (erase k m) + f old ≡ total (λ x. f x.1) m
  total-erase f k old [] h = ground arith
  total-erase f k old (x ∷ m) h = ground (arith, total-erase f k old m)

  pub lookup-common : (j k : K) (m : List (K × V)) → e.eq j k ≡ true → lookup j m ≡ lookup k m
  lookup-common j k [] h = refl
  lookup-common j k (x ∷ m) h = ground (
    arith,
    lookup-common j k m h,
    e.eq_common x.0 k j,
    e.eq_common x.0 j k,
    e.eq_common k j k,
    e.eq_refl k,
  )

  pub lookup-assign_other :
      (j k : K) (v : V) (m : List (K × V)) → e.eq j k ≡ false → lookup j (assign k v m) ≡ lookup j m
  lookup-assign_other j k v [] h =
      ground (arith, e.eq_common k j k, e.eq_common j k j, e.eq_refl j, e.eq_refl k)
  lookup-assign_other j k v (x ∷ m) h = ground (
    arith,
    lookup-assign_other j k v m h,
    e.eq_common j k x.0,
    e.eq_common j x.0 j,
    e.eq_common k x.0 k,
    e.eq_refl j,
    e.eq_refl k,
  )

  pub lookup-assign_if :
      (j k : K) (v : V) (m : List (K × V))
      → lookup j (assign k v m) ≡ (if e.eq k j then some v else lookup j m)
  lookup-assign_if j k v m = ground (
    arith,
    e.eq_common k j k,
    e.eq_common j k j,
    e.eq_refl j,
    e.eq_refl k,
    lookup-assign k v m,
    lookup-common j k (assign k v m),
    lookup-assign_other j k v m,
  )

  pub matches-none : (k : K) (m : List (K × V)) → matches k m ≡ 0 → lookup k m ≡ none
  matches-none k [] h = refl
  matches-none k (x ∷ m) h = ground (arith, matches-none k m)

  pub lookup-erase : (k : K) (m : List (K × V)) → matches k m ≤ 1 → lookup k (erase k m) ≡ none
  lookup-erase k [] h = refl
  lookup-erase k (x ∷ m) h = ground (arith, matches-none k m, lookup-erase k m)

  pub matches-erase : (j k : K) (m : List (K × V)) → matches j (erase k m) ≤ matches j m
  matches-erase j k [] = omega arith
  matches-erase j k (x ∷ m) = ground (arith, matches-erase j k m)

  pub matches-other :
      (j k : K) (m : List (K × V)) → lookup k m ≡ none → e.eq k j ≡ true → matches j m ≡ 0
  matches-other j k [] h q = refl
  matches-other j k (x ∷ m) h q = ground (arith, matches-other j k m, e.eq_common x.0 k j)

  pub IsMap-erase : (k : K) (m : List (K × V)) → IsMap m → IsMap (erase k m)
  IsMap-erase k m h j = omega (arith, h j, matches-erase j k m)

  pub matches-assign :
      (j k : K) (v old : V) (m : List (K × V))
      → lookup k m ≡ some old
      → matches j (assign k v m) ≡ matches j m
  matches-assign j k v old [] h = ground arith
  matches-assign j k v old (x ∷ m) h = ground (arith, matches-assign j k v old m)

  pub matches-assign_new :
      (j k : K) (v : V) (m : List (K × V))
      → lookup k m ≡ none
      → matches j (assign k v m) ≡ matches j m + (if e.eq k j then 1 else 0)
  matches-assign_new j k v [] h = omega arith
  matches-assign_new j k v (x ∷ m) h = ground (arith, matches-assign_new j k v m)

  pub IsMap-assign : (k : K) (v : V) (m : List (K × V)) → IsMap m → IsMap (assign k v m)
  IsMap-assign k v m h j = elim (Option-cases (lookup k m)) [
    | inl n ↦ ground (arith, h j, matches-assign_new j k v m n, matches-other j k m n)
    | inr (old, n) ↦ ground (arith, h j, matches-assign j k v old m n)
  ]

  pub All-lookup :
      (P : V → Type 0) (k : K) (v : V) (m : List (K × V))
      → lookup k m ≡ some v
      → All (λ x. P x.1) m
      → P v
  All-lookup P k v [] h a = absurd (ground arith)
  All-lookup P k v (x ∷ m) h a = elim (Bool-cases (e.eq x.0 k)) [
    | inl q ↦ let z : x.1 ≡ v = ground arith in subst P z a.0
    | inr q ↦ All-lookup P k v m (ground arith) a.1
  ]

  pub All-assign :
      (P : V → Type 0) (k : K) (v : V) (m : List (K × V))
      → P v
      → All (λ x. P x.1) m
      → All (λ x. P x.1) (assign k v m)
  All-assign P k v [] p a = (p, tt)
  All-assign P k v (x ∷ m) p a = elim (Bool-cases (e.eq x.0 k)) [
    | inl q ↦ rw q (p, a.1)
    | inr q ↦ rw q (a.0, All-assign P k v m p a.1)
  ]

  pub All-erase :
      (P : V → Type 0) (k : K) (m : List (K × V))
      → All (λ x. P x.1) m
      → All (λ x. P x.1) (erase k m)
  All-erase P k [] a = tt
  All-erase P k (x ∷ m) a = elim (Bool-cases (e.eq x.0 k)) [
    | inl q ↦ rw q a.1
    | inr q ↦ rw q (a.0, All-erase P k m a.1)
  ]

  pub matches-erase_same : (k : K) (m : List (K × V)) → matches k m ≤ 1 → matches k (erase k m) ≡ 0
  matches-erase_same k [] h = omega arith
  matches-erase_same k (x ∷ m) h = ground (arith, matches-erase_same k m)

  pub matches-common : (j k : K) (m : List (K × V)) → e.eq j k ≡ true → matches j m ≡ matches k m
  matches-common j k [] h = refl
  matches-common j k (x ∷ m) h = ground (
    arith,
    matches-common j k m h,
    e.eq_common x.0 k j,
    e.eq_common x.0 j k,
    e.eq_common k j k,
    e.eq_refl k,
  )

  pub matches-some : (k : K) (v : V) (m : List (K × V)) → lookup k m ≡ some v → 1 ≤ matches k m
  matches-some k v [] h = ground arith
  matches-some k v (x ∷ m) h = ground (arith, matches-some k v m)

  pub erase-none : (k : K) (m : List (K × V)) → lookup k m ≡ none → erase k m ≡ m
  erase-none k [] h = refl
  erase-none k (x ∷ m) h = ground (arith, erase-none k m)

-- What a map of lists holds under a key to which `more` was appended, one by one.
module _ {A : Type 0} where
  abbrev pub extend : Option (List A) → List A → Option (List A)
  extend none [] = none
  extend none (x ∷ more) = some (x ∷ more)
  extend (some old) more = some (old ++ more)

  pub extend_append :
      (o : Option (List A)) (x : A) (l : List A) → extend (extend o (x ∷ [])) l ≡ extend o (x ∷ l)
  extend_append none x l = refl
  extend_append (some old) x l = ap some (append_assoc old (x ∷ []) l)

  pub extend-nil : (o : Option (List A)) → extend o [] ≡ o
  extend-nil none = refl
  extend-nil (some old) = ap some (append-nil old)

-- Sums over a map of what its keys and values weigh, where equal keys are the same.
module _ {K : Type 0} {V : Type 0} ⦃e : KeyEq K⦄ (f : K → V → ℕ) where
  abbrev pub weight : List (K × V) → ℕ
  weight m = total (λ x. f x.0 x.1) m

  module _ (exact : (a b : K) → e.eq a b ≡ true → a ≡ b) where
    pub weight-assign :
        (k : K) (v old : V) (m : List (K × V))
        → lookup k m ≡ some old
        → weight (assign k v m) + f k old ≡ weight m + f k v
    weight-assign k v old [] h = ground arith
    weight-assign k v old (x ∷ m) h = elim (Bool-cases (e.eq x.0 k)) [
      | inl q ↦ let p = exact x.0 k q in ground (arith, q, ap (λ j. f j v) p, ap (λ j. f j old) p)
      | inr q ↦ ground (arith, q, weight-assign k v old m)
    ]

    pub weight-assign_new :
        (k : K) (v : V) (m : List (K × V))
        → lookup k m ≡ none
        → weight (assign k v m) ≡ weight m + f k v
    weight-assign_new k v [] h = omega arith
    weight-assign_new k v (x ∷ m) h = ground (arith, weight-assign_new k v m)

    pub weight-erase :
        (k : K) (old : V) (m : List (K × V))
        → lookup k m ≡ some old
        → weight (erase k m) + f k old ≡ weight m
    weight-erase k old [] h = ground arith
    weight-erase k old (x ∷ m) h = elim (Bool-cases (e.eq x.0 k)) [
      | inl q ↦ let p = exact x.0 k q in ground (arith, q, ap (λ j. f j old) p)
      | inr q ↦ ground (arith, q, weight-erase k old m)
    ]
