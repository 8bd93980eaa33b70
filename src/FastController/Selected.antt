-- ===== src/FastController/Selected.antt =====
-- `ForEachSelected` of heyp/cluster-agent/fast-controller.cc. The ordered map of hosts is the list of its
-- entries in order.
use heyp_agents.Prelude.{
  ℕ, ◌+◌, ◌<◌, ◌≤◌, ◌&&◌, List, [], ◌∷◌, ◌++◌, ltb, leb, ◌==◌, if◌then◌else◌, All, ◌≡◌, refl, inl,
  inr, Bool-cases, arith,
}
use mathlib.Core.List.{append_assoc}
use heyp_agents.HashRing.{IdRange, contains}

-- `lower_bound(lo)`.
unfoldable pub lower_bound : ℕ → List (ℕ × ℕ) → List (ℕ × ℕ)
lower_bound lo [] = []
lower_bound lo (x ∷ m) = if ltb (x.0) lo then lower_bound lo m else x ∷ m

-- The entries that the loop visits from an iterator on.
unfoldable pub up_to : ℕ → List (ℕ × ℕ) → List (ℕ × ℕ)
up_to hi [] = []
up_to hi (x ∷ m) = let rest = up_to hi m in if leb (x.0) hi then x ∷ rest else []

unfoldable pub selected_by_ranges : List IdRange → List (ℕ × ℕ) → List (ℕ × ℕ)
unfolding up_to lower_bound
selected_by_ranges [] id2par = []
selected_by_ranges (r ∷ ranges) id2par =
    up_to r.hi (lower_bound r.lo id2par) ++ selected_by_ranges ranges id2par

-- `find(p)`, as the calls that it leads to.
unfoldable pub selected_point : ℕ → List (ℕ × ℕ) → List (ℕ × ℕ)
selected_point p [] = []
selected_point p (x ∷ m) = let rest = selected_point p m in if x.0 == p then x ∷ [] else rest

unfoldable pub selected_by_points : List ℕ → List (ℕ × ℕ) → List (ℕ × ℕ)
unfolding selected_point
selected_by_points [] id2par = []
selected_by_points (p ∷ points) id2par = selected_point p id2par ++ selected_by_points points id2par

-- The calls of the function, in order.
unfoldable pub for_each_selected : List (ℕ × ℕ) → List IdRange → List ℕ → List (ℕ × ℕ)
unfolding selected_by_ranges selected_by_points
for_each_selected id2par ranges points =
    selected_by_ranges ranges id2par ++ selected_by_points points id2par

-- The ids of a map in order.
abbrev pub IsOrdered : List (ℕ × ℕ) → Type 0
IsOrdered [] = Unit
IsOrdered (x ∷ m) = All (λ y. x.0 < y.0) m × IsOrdered m

-- How many entries are of a host with an id in the map.
unfoldable pub entries_of : ℕ → ℕ → List (ℕ × ℕ) → ℕ
entries_of host par [] = 0
entries_of host par (x ∷ m) = (if x.0 == host && x.1 == par then 1 else 0) + entries_of host par m

-- How many of the ranges and points name a host.
unfoldable pub namings : ℕ → List IdRange → List ℕ → ℕ
unfolding contains
namings host [] [] = 0
namings host [] (p ∷ points) = (if p == host then 1 else 0) + namings host [] points
namings host (r ∷ ranges) points = (if contains r host then 1 else 0) + namings host ranges points

entries_of-append :
    (host par : ℕ) (k l : List (ℕ × ℕ))
    → entries_of host par (k ++ l) ≡ entries_of host par k + entries_of host par l
unfolding entries_of
entries_of-append host par [] l = omega arith
entries_of-append host par (x ∷ k) l = omega (arith, entries_of-append host par k l)

entries_of-above :
    (host par lo : ℕ) (m : List (ℕ × ℕ))
    → host ≤ lo
    → All (λ y. lo < y.0) m
    → entries_of host par m ≡ 0
unfolding entries_of
entries_of-above host par lo [] h a = refl
entries_of-above host par lo (x ∷ m) h a = ground (arith, entries_of-above host par lo m h a.1)

entries_of-up_to :
    (host par hi : ℕ) (m : List (ℕ × ℕ))
    → IsOrdered m
    → entries_of host par (up_to hi m) ≡ (if leb host hi then entries_of host par m else 0)
unfolding entries_of up_to
entries_of-up_to host par hi [] o = ground arith
entries_of-up_to host par hi (x ∷ m) o =
    let rest = entries_of-up_to host par hi m o.1 in
    let above : host ≤ x.0 → entries_of host par m ≡ 0 =
      λ h. entries_of-above host par (x.0) m h o.0 in
    ground (arith, rest, above)

lower_bound-IsOrdered : (lo : ℕ) (m : List (ℕ × ℕ)) → IsOrdered m → IsOrdered (lower_bound lo m)
unfolding lower_bound
lower_bound-IsOrdered lo [] o = tt
lower_bound-IsOrdered lo (x ∷ m) o = elim (Bool-cases (ltb (x.0) lo)) [
  | inl h ↦ rw h (lower_bound-IsOrdered lo m o.1)
  | inr h ↦ rw h o
]

entries_of-lower_bound :
    (host par lo : ℕ) (m : List (ℕ × ℕ))
    → IsOrdered m
    → entries_of host par (lower_bound lo m) ≡ (if leb lo host then entries_of host par m else 0)
unfolding entries_of lower_bound
entries_of-lower_bound host par lo [] o = ground arith
entries_of-lower_bound host par lo (x ∷ m) o =
    let rest = entries_of-lower_bound host par lo m o.1 in
    let above : host ≤ x.0 → entries_of host par m ≡ 0 =
      λ h. entries_of-above host par (x.0) m h o.0 in
    ground (arith, rest, above)

entries_of-selected_point :
    (host par p : ℕ) (m : List (ℕ × ℕ))
    → IsOrdered m
    → entries_of host par (selected_point p m) ≡ (if p == host then entries_of host par m else 0)
unfolding entries_of selected_point
entries_of-selected_point host par p [] o = ground arith
entries_of-selected_point host par p (x ∷ m) o =
    let rest = entries_of-selected_point host par p m o.1 in
    let above : host ≤ x.0 → entries_of host par m ≡ 0 =
      λ h. entries_of-above host par (x.0) m h o.0 in
    ground (arith, rest, above)

entries_of-range :
    (host par : ℕ) (r : IdRange) (m : List (ℕ × ℕ))
    → IsOrdered m
    → entries_of host par (up_to r.hi (lower_bound r.lo m))
      ≡ (if contains r host then entries_of host par m else 0)
unfolding contains
entries_of-range host par r m o = ground (
  arith,
  entries_of-up_to host par r.hi (lower_bound r.lo m) (lower_bound-IsOrdered r.lo m o),
  entries_of-lower_bound host par r.lo m o,
)

entries_of-once : (host par : ℕ) (m : List (ℕ × ℕ)) → IsOrdered m → entries_of host par m ≤ 1
unfolding entries_of
entries_of-once host par [] o = omega arith
entries_of-once host par (x ∷ m) o =
    let rest = entries_of-once host par m o.1 in
    let above : host ≤ x.0 → entries_of host par m ≡ 0 =
      λ h. entries_of-above host par (x.0) m h o.0 in
    ground (arith, rest, above)

entries_of-points :
    (host par : ℕ) (points : List ℕ) (m : List (ℕ × ℕ))
    → IsOrdered m
    → entries_of host par (selected_by_points points m)
      ≡ (if ltb 0 (entries_of host par m) then namings host [] points else 0)
unfolding entries_of namings selected_by_points
entries_of-points host par [] m o = ground arith
entries_of-points host par (p ∷ points) m o = ground (
  arith,
  entries_of-append host par (selected_point p m) (selected_by_points points m),
  entries_of-selected_point host par p m o,
  entries_of-points host par points m o,
  entries_of-once host par m o,
)

entries_of-ranges :
    (host par : ℕ) (ranges : List IdRange) (points : List ℕ) (m : List (ℕ × ℕ))
    → IsOrdered m
    → entries_of host par (selected_by_ranges ranges m ++ selected_by_points points m)
      ≡ (if ltb 0 (entries_of host par m) then namings host ranges points else 0)
unfolding entries_of namings selected_by_ranges
entries_of-ranges host par [] points m o = entries_of-points host par points m o
entries_of-ranges host par (r ∷ ranges) points m o =
    let first = up_to r.hi (lower_bound r.lo m) in
    ground (
      arith,
      append_assoc first (selected_by_ranges ranges m) (selected_by_points points m),
      entries_of-append host par first (selected_by_ranges ranges m ++ selected_by_points points m),
      entries_of-range host par r m o,
      entries_of-ranges host par ranges points m o,
      entries_of-once host par m o,
    )

-- Over an ordered map, the function is called for a host and an id that are an entry once for each range
-- that the host lies in and each point that it is, and not at all for a host and an id that are not.
pub for_each_selected-namings :
    (id2par : List (ℕ × ℕ)) (ranges : List IdRange) (points : List ℕ) (host par : ℕ)
    → IsOrdered id2par
    → entries_of host par (for_each_selected id2par ranges points)
      ≡ (if ltb 0 (entries_of host par id2par) then namings host ranges points else 0)
unfolding for_each_selected
for_each_selected-namings id2par ranges points host par o =
    entries_of-ranges host par ranges points id2par o
