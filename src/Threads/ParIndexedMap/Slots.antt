-- ===== src/Threads/ParIndexedMap/Slots.antt =====
-- The specification of `ParIndexedMap` (heyp/threads/par-indexed-map.h): a list of keys with their
-- values, where the id of a key is its place.
use heyp_agents.Prelude.Maps.{KeyEq}
use heyp_agents.Prelude.{
  ℕ, zero, suc, ◌≤◌, ◌<◌, ◌≡◌, refl, List, [], ◌∷◌, ◌++◌, length, Option, none, some, ◌==◌,
  if◌then◌else◌, arith,
}

module _ {K : Type 0} {V : Type 0} where
  -- The place of a key.
  abbrev pub find : ⦃e : KeyEq K⦄ → K → List (K × V) → Option ℕ
  find ⦃e⦄ k [] = none
  find ⦃e⦄ k (x ∷ l) =
      let rest = find k l in
      if e.eq x.0 k then some 0 else elim rest [ none ↦ none | some i ↦ some (suc i) ]

  -- A new value at a place.
  abbrev pub put : List (K × V) → ℕ → V → List (K × V)
  put [] i v = []
  put (x ∷ l) zero v = (x.0, v) ∷ l
  put (x ∷ l) (suc i) v = x ∷ put l i v

  abbrev pub slot : V → List (K × V) → ℕ → V
  slot d [] i = d
  slot d (x ∷ l) zero = x.1
  slot d (x ∷ l) (suc i) = slot d l i

  pub slot-new :
      (d : V) (k : K) (l : List (K × V)) (i : ℕ) → slot d (l ++ (k, d) ∷ []) i ≡ slot d l i
  slot-new d k [] zero = refl
  slot-new d k [] (suc i) = refl
  slot-new d k (x ∷ l) zero = refl
  slot-new d k (x ∷ l) (suc i) = slot-new d k l i

  pub slot-beyond : (d : V) (l : List (K × V)) (i : ℕ) → length l ≤ i → slot d l i ≡ d
  slot-beyond d [] i h = refl
  slot-beyond d (x ∷ l) zero h = ground arith
  slot-beyond d (x ∷ l) (suc i) h = slot-beyond d l i (omega arith)

  pub slot-put :
      (d : V) (l : List (K × V)) (i : ℕ) (v : V) (j : ℕ)
      → i < length l
      → slot d (put l i v) j ≡ (if i == j then v else slot d l j)
  slot-put d [] i v j h = ground arith
  slot-put d (x ∷ l) zero v zero h = ground arith
  slot-put d (x ∷ l) zero v (suc j) h = ground arith
  slot-put d (x ∷ l) (suc i) v zero h = ground arith
  slot-put d (x ∷ l) (suc i) v (suc j) h = ground (arith, slot-put d l i v j (omega arith))

  pub length-put : (l : List (K × V)) (i : ℕ) (v : V) → length (put l i v) ≡ length l
  length-put [] i v = refl
  length-put (x ∷ l) zero v = refl
  length-put (x ∷ l) (suc i) v = omega (arith, length-put l i v)

  pub find-put :
      ⦃e : KeyEq K⦄ (k : K) (l : List (K × V)) (i : ℕ) (v : V) → find k (put l i v) ≡ find k l
  find-put ⦃e⦄ k [] i v = refl
  find-put ⦃e⦄ k (x ∷ l) zero v = refl
  find-put ⦃e⦄ k (x ∷ l) (suc i) v = ground (arith, find-put k l i v)

  pub find-new :
      ⦃e : KeyEq K⦄ (j k : K) (d : V) (l : List (K × V))
      → find j (l ++ (k, d) ∷ [])
        ≡ elim (find j l) [ some i ↦ some i | none ↦ if e.eq k j then some (length l) else none ]
  find-new ⦃e⦄ j k d [] = ground arith
  find-new ⦃e⦄ j k d (x ∷ l) = ground (arith, find-new j k d l)
