-- ===== src/Prelude/Algorithms.antt =====
-- The algorithms of the C++ standard library that the sources call on ranges with an `operator<`.
use heyp_agents.Prelude.Tests.{if◌then◌else◌, Bool-cases}
use heyp_agents.Prelude.Lists.{All, length, total, IsDistinct}
use heyp_agents.Prelude.Order.{StrictOrder, less, same, same_eq, asymm, not_less_trans}
use Prim.Native.Nat.{ℕ, suc, ◌+◌, ◌-◌, ◌≤◌}
use mathlib.Core.Path.{◌≡◌, refl, sym, ap}
use mathlib.Core.Logic.{◌≢◌, inl, inr}
use mathlib.Core.Bool.{Bool, true, false, not}
use mathlib.Core.List.{List, [], ◌∷◌, ◌++◌}
use native.Mathlib.Omega.{arith}

module _ {ℓ} {A : Type ℓ} ⦃o : StrictOrder A⦄ where
  insert_sorted : A → List A → List A
  insert_sorted x [] = x ∷ []
  insert_sorted x (y ∷ ys) = if less y x then y ∷ insert_sorted x ys else x ∷ y ∷ ys

  -- `std::sort`: which algorithm sorts makes no difference where only equal values compare equal.
  unfoldable pub sort : List A → List A
  unfolding insert_sorted
  sort [] = []
  sort (x ∷ xs) = insert_sorted x (sort xs)

  -- `std::set_difference` of two sorted ranges.
  unfoldable pub set_difference : List A → List A → List A
  set_difference [] ys = []
  set_difference (x ∷ xs) [] = x ∷ xs
  set_difference (x ∷ xs) (y ∷ ys) = elim (less x y) [
    | true ↦ x ∷ set_difference xs (y ∷ ys)
    | false ↦ elim (less y x) [ true ↦ set_difference (x ∷ xs) ys | false ↦ set_difference xs ys ]
  ]

  -- `std::lower_bound`: the iterator is the rest of the range that it stands at.
  unfoldable pub lower_bound : List A → A → List A
  lower_bound [] k = []
  lower_bound (x ∷ xs) k = if less x k then lower_bound xs k else x ∷ xs

  abbrev is_at : A → List A → Bool
  is_at k [] = false
  is_at k (x ∷ xs) = not (less k x)

  -- `std::binary_search`.
  unfoldable pub binary_search : List A → A → Bool
  unfolding lower_bound
  binary_search xs k = is_at k (lower_bound xs k)

  abbrev pub IsSorted : List A → Type ℓ
  IsSorted [] = Unit {ℓ}
  IsSorted (x ∷ xs) = All (λ y. less y x ≡ false) xs × IsSorted xs

  -- How often a value occurs.
  unfoldable pub count : A → List A → ℕ
  count a [] = 0
  count a (x ∷ xs) = if same a x then suc (count a xs) else count a xs

  pub count-append : (a : A) (l r : List A) → count a (l ++ r) ≡ count a l + count a r
  unfolding count
  count-append a [] r = omega arith
  count-append a (x ∷ l) r = ground (arith, count-append a l r)

  count-insert_sorted : (a x : A) (l : List A) → count a (insert_sorted x l) ≡ count a (x ∷ l)
  unfolding count insert_sorted
  count-insert_sorted a x [] = refl
  count-insert_sorted a x (y ∷ l) = ground (arith, count-insert_sorted a x l)

  -- Sorting keeps every value as often as it was.
  pub count-sort : (a : A) (l : List A) → count a (sort l) ≡ count a l
  unfolding count sort
  count-sort a [] = refl
  count-sort a (x ∷ l) = ground (arith, count-insert_sorted a x (sort l), count-sort a l)

  All-insert_sorted :
      (b x : A) (l : List A)
      → less x b ≡ false
      → All (λ y. less y b ≡ false) l
      → All (λ y. less y b ≡ false) (insert_sorted x l)
  unfolding insert_sorted
  All-insert_sorted b x [] h hs = (h, tt)
  All-insert_sorted b x (y ∷ l) h hs = ground (arith, All-insert_sorted b x l h hs.1)

  All-insert {κ} : (P : A → Type κ) (x : A) (l : List A) → P x → All P l → All P (insert_sorted x l)
  unfolding insert_sorted
  All-insert P x [] h hs = (h, tt)
  All-insert P x (y ∷ l) h hs = elim (Bool-cases (less y x)) [
    | inl e ↦ rw e (hs.0, All-insert P x l h hs.1)
    | inr e ↦ rw e (h, hs)
  ]

  pub All-sort {κ} : (P : A → Type κ) (l : List A) → All P l → All P (sort l)
  unfolding sort
  All-sort P [] h = tt
  All-sort P (x ∷ l) h = All-insert P x (sort l) h.0 (All-sort P l h.1)

  insert_sorted-All {κ} :
      (P : A → Type κ) (x : A) (l : List A) → All P (insert_sorted x l) → P x × All P l
  unfolding insert_sorted
  insert_sorted-All P x [] h = h
  insert_sorted-All P x (y ∷ l) h = elim (Bool-cases (less y x)) [
    | inl e ↦
        let h' : All P (y ∷ insert_sorted x l) = rw (insert_sorted, e) at h in
        let r = insert_sorted-All P x l h'.1 in (r.0, (h'.0, r.1))
    | inr e ↦ let h' : All P (x ∷ y ∷ l) = rw (insert_sorted, e) at h in (h'.0, h'.1)
  ]

  -- What holds of each element in order holds of each.
  pub sort-All {κ} : (P : A → Type κ) (l : List A) → All P (sort l) → All P l
  unfolding sort
  sort-All P [] h = tt
  sort-All P (x ∷ l) h = let r = insert_sorted-All P x (sort l) h in (r.0, sort-All P l r.1)

  total-insert_sorted :
      (f : A → ℕ) (x : A) (l : List A) → total f (insert_sorted x l) ≡ f x + total f l
  unfolding insert_sorted
  total-insert_sorted f x [] = refl
  total-insert_sorted f x (y ∷ l) = ground (arith, total-insert_sorted f x l)

  pub total-sort : (f : A → ℕ) (l : List A) → total f (sort l) ≡ total f l
  unfolding sort
  total-sort f [] = refl
  total-sort f (x ∷ l) = omega (arith, total-insert_sorted f x (sort l), total-sort f l)

  -- What one range has more than another and the other way round, for any weight.
  pub total-set_difference :
      (f : A → ℕ) (xs ys : List A)
      → (total f xs + total f (set_difference ys xs) ≡ total f ys + total f (set_difference xs ys))
        × (total f (set_difference xs ys) ≤ total f xs)
  unfolding set_difference
  total-set_difference f [] [] = (refl, omega arith)
  total-set_difference f [] (y ∷ ys) = (omega arith, omega arith)
  total-set_difference f (x ∷ xs) [] = (omega arith, omega arith)
  total-set_difference f (x ∷ xs) (y ∷ ys) =
      let equal : less x y ≡ false → less y x ≡ false → f x ≡ f y =
        λ p q. ap f (o.connex x y p q) in
      let a = total-set_difference f xs (y ∷ ys) in
      let b = total-set_difference f (x ∷ xs) ys in
      let c = total-set_difference f xs ys in
      (ground (arith, a.0, b.0, c.0, asymm x y, equal), ground (arith, a.1, b.1, c.1))

  length-insert_sorted : (x : A) (l : List A) → length (insert_sorted x l) ≡ suc (length l)
  unfolding insert_sorted
  length-insert_sorted x [] = refl
  length-insert_sorted x (y ∷ l) = ground (arith, length-insert_sorted x l)

  pub length-sort : (l : List A) → length (sort l) ≡ length l
  unfolding sort
  length-sort [] = refl
  length-sort (x ∷ l) = omega (arith, length-insert_sorted x (sort l), length-sort l)

  insert_sorted-IsDistinct :
      (x : A) (l : List A) → All (λ y. y ≢ x) l → IsDistinct l → IsDistinct (insert_sorted x l)
  unfolding insert_sorted
  insert_sorted-IsDistinct x [] h d = (tt, tt)
  insert_sorted-IsDistinct x (y ∷ l) h d = elim (Bool-cases (less y x)) [
    | inl e ↦
        rw e
          (All-insert (λ z. z ≢ y) x l (λ q. h.0 (sym q)) d.0, insert_sorted-IsDistinct x l h.1 d.1)
    | inr e ↦ rw e (h, d)
  ]

  pub sort-IsDistinct : (l : List A) → IsDistinct l → IsDistinct (sort l)
  unfolding sort
  sort-IsDistinct [] d = tt
  sort-IsDistinct (x ∷ l) d =
      insert_sorted-IsDistinct x (sort l) (All-sort (λ y. y ≢ x) l d.0) (sort-IsDistinct l d.1)

  All-above :
      (b x : A) (l : List A)
      → less x b ≡ false
      → All (λ y. less y x ≡ false) l
      → All (λ y. less y b ≡ false) l
  All-above b x [] h hs = tt
  All-above b x (y ∷ l) h hs = (not_less_trans b x y h hs.0, All-above b x l h hs.1)

  insert_sorted-IsSorted : (x : A) (l : List A) → IsSorted l → IsSorted (insert_sorted x l)
  unfolding insert_sorted
  insert_sorted-IsSorted x [] s = (tt, tt)
  insert_sorted-IsSorted x (y ∷ l) s = elim (Bool-cases (less y x)) [
    | inl p ↦ rw p (All-insert_sorted y x l (asymm y x p) s.0, insert_sorted-IsSorted x l s.1)
    | inr p ↦ rw p ((p, All-above x y l p s.0), s)
  ]

  pub sort-IsSorted : (l : List A) → IsSorted (sort l)
  unfolding sort
  sort-IsSorted [] = tt
  sort-IsSorted (x ∷ l) = insert_sorted-IsSorted x (sort l) (sort-IsSorted l)

  count_below :
      (a x : A) (l : List A) → less a x ≡ true → All (λ y. less y x ≡ false) l → count a l ≡ 0
  unfolding count
  count_below a x [] h s = refl
  count_below a x (y ∷ l) h s = ground (arith, same_eq a y, count_below a x l h s.1)

  count_absent :
      (a x y : A) (r : List A)
      → same a x ≡ true
      → less x y ≡ true
      → IsSorted (y ∷ r)
      → count a (y ∷ r) ≡ 0
  count_absent a x y r h k s = rw (same_eq a x h) (count_below x y (y ∷ r) k (o.irrefl y, s.0))

  -- The difference of sorted ranges has each value as often as the first has it more than the
  -- second.
  pub count-set_difference :
      (a : A) (l r : List A)
      → IsSorted l
      → IsSorted r
      → count a (set_difference l r) ≡ count a l - count a r
  unfolding set_difference count
  count-set_difference a [] r sl sr = omega arith
  count-set_difference a (x ∷ l) [] sl sr = omega arith
  count-set_difference a (x ∷ l) (y ∷ r) sl sr = elim (Bool-cases (less x y)) [
    | inl p ↦ ground (arith, count_absent a x y r, count-set_difference a l (y ∷ r) sl.1 sr)
    | inr p ↦ elim (Bool-cases (less y x)) [
      | inl q ↦ ground (arith, count_absent a y x l, count-set_difference a (x ∷ l) r sl sr.1)
      | inr q ↦ ground (arith, o.connex x y p q, count-set_difference a l r sl.1 sr.1)
    ]
  ]
