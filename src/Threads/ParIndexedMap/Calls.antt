-- ===== src/Threads/ParIndexedMap/Calls.antt =====
-- `GetID` and `OnID` of heyp/threads/par-indexed-map.h against the list they stand for.
use heyp_agents.Prelude.Maps.{KeyEq, lookup, assign}
use heyp_agents.Prelude.{
  ℕ, ◌+◌, ◌/◌, ◌%◌, ◌≤◌, ◌<◌, ◌≡◌, refl, ap, sym, ◌∙◌, subst, true, false, List, [], ◌∷◌, ◌++◌,
  length, Option, none, some, ltb, if◌then◌else◌, arith, Option-cases, inl, inr, Bool-cases,
  length-append,
}
use heyp_agents.Threads.ParIndexedMap.{
  k_span_size, GetResult, ParIndexedMap, Span, Visitor, get_id, visit_entry, on_id,
}
use heyp_agents.Threads.ParIndexedMap.Slots.{find, put, slot}
use heyp_agents.Threads.ParIndexedMap.Represents.{
  with_value, HoldsSpan-some, with_value-Represents, Represents, add_entry-Represents,
}

module _ {K : Type 0} {V : Type 0} (d : V) ⦃e : KeyEq K⦄ where
  -- `GetID` on the list.
  abbrev pub list_get_id : K → List (K × V) → GetResult × List (K × V)
  list_get_id key l = elim (find key l) [
    | some i ↦ (record { id = i; just_created = false }, l)
    | none ↦ (record { id = length l; just_created = true }, l ++ (key, d) ∷ [])
  ]

  pub list_get_id-there :
      (key : K) (l : List (K × V)) (i : ℕ)
      → find key l ≡ some i
      → list_get_id key l ≡ (record { id = i; just_created = false }, l)
  list_get_id-there key l i n = ground (arith, n)

  pub list_get_id-new :
      (key : K) (l : List (K × V))
      → find key l ≡ none
      → list_get_id key l ≡ (record { id = length l; just_created = true }, l ++ (key, d) ∷ [])
  list_get_id-new key l n = ground (arith, n)

  abbrev pub Gets : K → ParIndexedMap K V → GetResult × List (K × V) → Type 0
  Gets key m r = (n : ParIndexedMap K V) × (get_id d key m ≡ some (r.0, n)) × Represents d r.1 n

  pub get_id-Represents :
      (key : K) (l : List (K × V)) (m : ParIndexedMap K V)
      → Represents d l m
      → length l < 1000000
      → Gets key m (list_get_id key l)
  unfolding get_id
  get_id-Represents key l m r b = elim (Option-cases (find key l)) [
    | inl n ↦
        let f : lookup key m.id_map ≡ none = r.1 key ∙ n in
        let a = add_entry-Represents d l m key r b f in
        subst (Gets key m) (sym (list_get_id-new key l n))
          (record a.0 { id_map = assign key (length l) a.0.id_map }, ground (arith, f, a.1), a.2)
    | inr (i, n) ↦
        let f : lookup key m.id_map ≡ some i = r.1 key ∙ n in
        subst (Gets key m) (sym (list_get_id-there key l i n)) (m, ground (arith, f), r)
  ]

  pub length-list_get_id :
      (key : K) (l : List (K × V)) → length (list_get_id key l).1 ≤ length l + 1
  length-list_get_id key l = ground (arith, length-append l ((key, d) ∷ []))

module _ {K : Type 0} {V : Type 0} {S : Type 0} (d : V) ⦃e : KeyEq K⦄ where
  -- `OnID` on the list.
  abbrev pub list_on_id : Visitor S V → ℕ → S × List (K × V) → Option (S × List (K × V))
  list_on_id func id (st, l) =
      let (after, v) = func id st (slot d l id) in
      if ltb id (length l) then some (after, put l id v) else none

  -- Both stop the process, or both go on with the same state of the caller.
  abbrev pub Agree : Option (S × List (K × V)) → Option (S × ParIndexedMap K V) → Type 0
  Agree none none = Unit {0}
  Agree none (some y) = ⊥
  Agree (some x) none = ⊥
  Agree (some x) (some y) = (x.0 ≡ y.0) × Represents d x.1 y.1

  -- What `OnID` leaves of a value that is there.
  on_id-there :
      (func : Visitor S V) (id : ℕ) (st : S) (m : ParIndexedMap K V) (s : Span V)
      → ltb id m.len ≡ true
      → m.spans (id / k_span_size) ≡ some s
      → let (after, v) = func id st (s (id % k_span_size)) in
        on_id func id (st, m)
        ≡ some (after, with_value d m (id / k_span_size) s (id % k_span_size) v)
  unfolding on_id visit_entry
  on_id-there func id st m s t e = rw (t, e) refl

  on_id-beyond :
      (func : Visitor S V) (id : ℕ) (st : S) (m : ParIndexedMap K V)
      → ltb id m.len ≡ false
      → on_id func id (st, m) ≡ none
  unfolding on_id
  on_id-beyond func id st m t = rw t refl

  pub on_id-Agree :
      (func : Visitor S V) (id : ℕ) (st : S) (l : List (K × V)) (m : ParIndexedMap K V)
      → Represents d l m
      → length l ≤ 1000000
      → Agree (list_on_id func id (st, l)) (on_id func id (st, m))
  on_id-Agree func id st l m r b = elim (Bool-cases (ltb id (length l))) [
    | inr t ↦
        let u : ltb id m.len ≡ false = ground (arith, t, r.0) in
        rw t (subst (Agree none) (sym (on_id-beyond func id st m u)) tt)
    | inl t ↦
        let u : ltb id m.len ≡ true = ground (arith, t, r.0) in
        let si = id / k_span_size in
        let ei = id % k_span_size in
        let c : id < length l = ground (arith, t) in
        let h =
          HoldsSpan-some d l si (m.spans si) (omega (arith, c)) (r.2 si (omega (arith, c, b))) in
        let v : h.0 ei ≡ slot d l id = h.2.1 ei (omega arith) ∙ ap (slot d l) (omega arith) in
        let o = func id st (h.0 ei) in
        let p = func id st (slot d l id) in
        let w = with_value d m si h.0 ei o.1 in
        let same =
          subst (λ w'. Represents d (put l id (func id st w').1) w) v
            (with_value-Represents d l m id o.1 h.0 r c h.2) in
        rw t (
          subst (Agree (some (p.0, put l id p.1))) (sym (on_id-there func id st m h.0 u h.1))
            (ap (λ w'. (func id st w').0) (sym v), same))
  ]
