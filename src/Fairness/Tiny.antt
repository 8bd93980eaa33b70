-- ===== src/Fairness/Tiny.antt =====
-- The fast path for tiny demands of `SingleLinkMaxMinFairnessProblem::ComputeWaterlevel`
-- (heyp/alg/fairness/max-min-fairness.cc).
use heyp_agents.Prelude.{
  ℕ, suc, ◌+◌, ◌-◌, ◌*◌, ◌≤◌, ◌≡◌, refl, min, max, true, false, List, [], ◌∷◌, ◌++◌, All, length,
  length-append, total-append, leb, arith, All-append, All-every, sym, subst, Bool-cases, inl, inr,
}
use heyp_agents.Fairness.{Filtered, filter_tiny}
use heyp_agents.Fairness.FullSort.{fill, sum}

-- What the loop makes of what it had, where the threshold is a share of the capacity: for every
-- waterlevel from the last one on, the demands it took out are satisfied, and the capacity is what
-- they leave, which is enough for all others to have the threshold.
pub record Filters (thresh : ℕ) (demands : List ℕ) (before after : Filtered) : Type 0 where
  pub level_grows : before.waterlevel ≤ after.waterlevel
  pub level_small : after.waterlevel ≤ thresh
  pub kept_above : All (λ d. thresh ≤ d) after.unfiltered
  pub enough : length after.unfiltered * thresh ≤ after.capacity
  pub filled :
      (w : ℕ)
      → after.waterlevel ≤ w
      → fill w before.unfiltered + fill w demands + after.capacity
        ≡ fill w after.unfiltered + before.capacity
  pub summed :
      sum before.unfiltered + sum demands + after.capacity ≡ sum after.unfiltered + before.capacity

abbrev pub taken_out : ℕ → Filtered → Filtered
taken_out d f = record {
  unfiltered = f.unfiltered;
  capacity = f.capacity - d;
  waterlevel = max f.waterlevel d;
}

Filters-taken_out :
    (thresh d : ℕ) (ds : List ℕ) (f r : Filtered)
    → d ≤ thresh
    → d ≤ f.capacity
    → Filters thresh ds (taken_out d f) r
    → Filters thresh (d ∷ ds) f r
Filters-taken_out thresh d ds f r t c p = record {
  level_grows = omega (arith, p.level_grows);
  level_small = p.level_small;
  kept_above = p.kept_above;
  enough = p.enough;
  filled = λ w h. omega (arith, p.filled w h, p.level_grows);
  summed = omega (arith, p.summed);
}

abbrev pub put_behind : ℕ → Filtered → Filtered
put_behind d f = record f { unfiltered = f.unfiltered ++ d ∷ [] }

Filters-put_behind :
    (thresh d : ℕ) (ds : List ℕ) (f r : Filtered)
    → Filters thresh ds (put_behind d f) r
    → Filters thresh (d ∷ ds) f r
Filters-put_behind thresh d ds f r p = record {
  level_grows = p.level_grows;
  level_small = p.level_small;
  kept_above = p.kept_above;
  enough = p.enough;
  filled = λ w h. omega (arith, p.filled w h, total-append (λ x. min w x) f.unfiltered (d ∷ []));
  summed = omega (arith, p.summed, total-append (λ x. x) f.unfiltered (d ∷ []));
}

filter_tiny-taken_out :
    (thresh d : ℕ) (ds : List ℕ) (f : Filtered)
    → leb d thresh ≡ true
    → filter_tiny true thresh (d ∷ ds) f ≡ filter_tiny true thresh ds (taken_out d f)
unfolding filter_tiny
filter_tiny-taken_out thresh d ds f e = rw (filter_tiny, e) refl

filter_tiny-put_behind :
    (thresh d : ℕ) (ds : List ℕ) (f : Filtered)
    → leb d thresh ≡ false
    → filter_tiny true thresh (d ∷ ds) f ≡ filter_tiny true thresh ds (put_behind d f)
unfolding filter_tiny
filter_tiny-put_behind thresh d ds f e = rw (filter_tiny, e) refl

pub filter_tiny-Filters :
    (thresh : ℕ) (ds : List ℕ) (f : Filtered)
    → f.waterlevel ≤ thresh
    → All (λ d. thresh ≤ d) f.unfiltered
    → (length ds + length f.unfiltered) * thresh ≤ f.capacity
    → Filters thresh ds f (filter_tiny true thresh ds f)
unfolding filter_tiny
filter_tiny-Filters thresh [] f l k c = record {
  level_grows = omega arith;
  level_small = l;
  kept_above = k;
  enough = omega (arith, c);
  filled = λ w h. omega arith;
  summed = omega arith;
}
filter_tiny-Filters thresh (d ∷ ds) f l k c = elim (Bool-cases (leb d thresh)) [
  | inl e ↦
      let small : d ≤ thresh = ground arith in
      let fits : d ≤ f.capacity = omega (arith, c, small) in
      let p =
        filter_tiny-Filters thresh ds (taken_out d f) (omega (arith, l, small)) k
          (omega (arith, c, small)) in
      subst (Filters thresh (d ∷ ds) f) (sym (filter_tiny-taken_out thresh d ds f e))
        (Filters-taken_out thresh d ds f _ small fits p)
  | inr e ↦
      let more : length ds + length (f.unfiltered ++ d ∷ [])
          ≡ suc (length ds) + length f.unfiltered =
        omega (arith, length-append f.unfiltered (d ∷ [])) in
      let p =
        filter_tiny-Filters thresh ds (put_behind d f) l
          (All-append (λ x. thresh ≤ x) f.unfiltered (d ∷ []) k (ground arith, tt))
          (subst (λ n. n * thresh ≤ f.capacity) (sym more) c) in
      subst (Filters thresh (d ∷ ds) f) (sym (filter_tiny-put_behind thresh d ds f e))
        (Filters-put_behind thresh d ds f _ p)
]

filter_tiny-off :
    (thresh d : ℕ) (ds : List ℕ) (f : Filtered)
    → filter_tiny false thresh (d ∷ ds) f ≡ filter_tiny false thresh ds (put_behind d f)
unfolding filter_tiny
filter_tiny-off thresh d ds f = refl

-- Without the option nothing is taken out, as with the threshold 0 for demands above it.
pub filter_tiny-off_Filters :
    (thresh : ℕ) (ds : List ℕ) (f : Filtered)
    → f.waterlevel ≡ 0
    → Filters 0 ds f (filter_tiny false thresh ds f)
unfolding filter_tiny
filter_tiny-off_Filters thresh [] f l = record {
  level_grows = omega arith;
  level_small = omega (arith, l);
  kept_above = All-every (λ d. 0 ≤ d) f.unfiltered (λ d. omega arith);
  enough = omega arith;
  filled = λ w h. omega arith;
  summed = omega arith;
}
filter_tiny-off_Filters thresh (d ∷ ds) f l =
    subst (Filters 0 (d ∷ ds) f) (sym (filter_tiny-off thresh d ds f))
      (Filters-put_behind 0 d ds f _ (filter_tiny-off_Filters thresh ds (put_behind d f) l))
