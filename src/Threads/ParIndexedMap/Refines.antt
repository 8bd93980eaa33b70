-- ===== src/Threads/ParIndexedMap/Refines.antt =====
-- A client of `ParIndexedMap` (heyp/threads/par-indexed-map.h) cannot tell it from a list.
use heyp_agents.Prelude.Maps.{KeyEq}
use heyp_agents.Prelude.{
  ℕ, ◌+◌, ◌≤◌, ◌<◌, ◌≡◌, refl, ap, sym, ◌∙◌, subst, List, [], ◌∷◌, length, Option-cases, inl, inr,
  Option, none, some, arith,
}
use heyp_agents.Threads.ParIndexedMap.{
  GetResult, ParIndexedMap, Span, Visitor, new_map, get_id, on_id,
}
use heyp_agents.Threads.ParIndexedMap.Slots.{slot, length-put}
use heyp_agents.Threads.ParIndexedMap.Represents.{Represents, new_map-Represents}
use heyp_agents.Threads.ParIndexedMap.Calls.{
  Agree, list_get_id, list_on_id, get_id-Represents, length-list_get_id, on_id-Agree,
}

-- A client: it asks for the id of a key, or works on the value of an id, by what it has seen.
pub data Call (K : Type 0) (V : Type 0) (S : Type 0) : Type 0 where
  gets : (S → K) → (S → GetResult → S) → Call K V S
  works : (S → ℕ) → Visitor S V → Call K V S

-- What the client has seen in the end.
abbrev pub seen : {S : Type 0} {A : Type 0} → Option (S × A) → Option S
seen none = none
seen (some x) = some x.0

module _ {K : Type 0} {V : Type 0} {S : Type 0} (d : V) ⦃e : KeyEq K⦄ where
  abbrev pub run_call : Call K V S → S × ParIndexedMap K V → Option (S × ParIndexedMap K V)
  run_call (gets key see) (st, m) = elim (get_id d (key st) m) [
    | none ↦ none
    | some (r, n) ↦ some (see st r, n)
  ]
  run_call (works id func) (st, m) = on_id func (id st) (st, m)

  abbrev pub run_calls : List (Call K V S) → S × ParIndexedMap K V → Option (S × ParIndexedMap K V)
  run_calls [] x = some x
  run_calls (c ∷ calls) x = elim (run_call c x) [ none ↦ none | some y ↦ run_calls calls y ]

  -- The same client on the list.
  abbrev pub list_call : Call K V S → S × List (K × V) → Option (S × List (K × V))
  list_call (gets key see) (st, l) = let r = list_get_id d (key st) l in some (see st r.0, r.1)
  list_call (works id func) (st, l) = list_on_id d func (id st) (st, l)

  abbrev pub list_calls : List (Call K V S) → S × List (K × V) → Option (S × List (K × V))
  list_calls [] x = some x
  list_calls (c ∷ calls) x = elim (list_call c x) [ none ↦ none | some y ↦ list_calls calls y ]

  run_gets :
      (key : S → K) (see : S → GetResult → S) (st : S) (m : ParIndexedMap K V) (r : GetResult)
      (n : ParIndexedMap K V)
      → get_id d (key st) m ≡ some (r, n)
      → run_call (gets key see) (st, m) ≡ some (see st r, n)
  run_gets key see st m r n h = rw (run_call, h) refl

  run_call-Agree :
      (c : Call K V S) (st : S) (l : List (K × V)) (m : ParIndexedMap K V)
      → Represents d l m
      → length l < 1000000
      → Agree d (list_call c (st, l)) (run_call c (st, m))
  run_call-Agree (gets key see) st l m r b =
      let g = get_id-Represents d (key st) l m r b in
      subst (Agree d (list_call (gets key see) (st, l)))
        (sym (run_gets key see st m (list_get_id d (key st) l).0 g.0 g.1)) (refl, g.2)
  run_call-Agree (works id func) st l m r b = on_id-Agree d func (id st) st l m r (omega arith)

  list_call-length :
      (c : Call K V S) (x y : S × List (K × V))
      → list_call c x ≡ some y
      → length y.1 ≤ length x.1 + 1
  list_call-length (gets key see) x y h = ground (arith, h, length-list_get_id d (key x.0) x.1)
  list_call-length (works id func) x y h =
      ground (arith, h, length-put x.1 (id x.0) (func (id x.0) x.0 (slot d x.1 (id x.0))).1)

  abbrev HasSeen : List (Call K V S) → Type 0
  HasSeen calls =
      (st : S) (l : List (K × V)) (m : ParIndexedMap K V)
      → Represents d l m
      → length l + length calls ≤ 1000000
      → seen (run_calls calls (st, m)) ≡ seen (list_calls calls (st, l))

  then_seen :
      (calls : List (Call K V S)) (a : Option (S × List (K × V)))
      (b : Option (S × ParIndexedMap K V))
      → HasSeen calls
      → Agree d a b
      → ((x : S × List (K × V)) → a ≡ some x → length x.1 + length calls ≤ 1000000)
      → seen (elim b as (λ b. Option (S × ParIndexedMap K V)) [
        | none ↦ none
        | some y ↦ run_calls calls y
      ])
        ≡ seen (elim a as (λ a. Option (S × List (K × V))) [
          | none ↦ none
          | some y ↦ list_calls calls y
        ])
  then_seen calls none none ih h n = refl
  then_seen calls none (some y) ih h n = absurd h
  then_seen calls (some x) none ih h n = absurd h
  then_seen calls (some x) (some y) ih h n =
      ih y.0 x.1 y.1 h.1 (n x refl) ∙ ap (λ st. seen (list_calls calls (st, x.1))) (sym h.0)

  run_calls-seen : (calls : List (Call K V S)) → HasSeen calls
  run_calls-seen [] st l m r b = refl
  run_calls-seen (c ∷ calls) st l m r b =
      then_seen calls (list_call c (st, l)) (run_call c (st, m)) (run_calls-seen calls)
        (run_call-Agree c st l m r (omega (arith, b)))
        (λ x q. omega (arith, b, list_call-length c (st, l) x q))

  -- A client that makes at most a million calls of `GetID` and `OnID` on a new map, each by what it
  -- has seen, sees what it would see of a list where the id of a key is its place: ids are 0, 1, … in
  -- the order of the keys, the id of a key stays, and the value of an id is what was written there
  -- last. Nothing but an id that was not given stops the process, whatever was in memory before.
  pub run_calls-refines :
      (memory : ℕ → Option (Span V)) (calls : List (Call K V S)) (st : S)
      → length calls ≤ 1000000
      → seen (run_calls calls (st, new_map memory)) ≡ seen (list_calls calls (st, []))
  run_calls-refines memory calls st b =
      run_calls-seen calls st [] (new_map memory) (new_map-Represents d memory) (omega (arith, b))

  Agree-some :
      (a : Option (S × List (K × V))) (y : S × ParIndexedMap K V)
      → Agree d a (some y)
      → (x : S × List (K × V)) × (a ≡ some x) × Represents d x.1 y.1
  Agree-some none y h = absurd h
  Agree-some (some x) y h = (x, refl, h.1)

  -- The map that a client leaves stands for a list.
  pub run_calls-Represents :
      (calls : List (Call K V S)) (st : S) (l : List (K × V)) (m : ParIndexedMap K V)
      (y : S × ParIndexedMap K V)
      → Represents d l m
      → length l + length calls ≤ 1000000
      → run_calls calls (st, m) ≡ some y
      → (l' : List (K × V)) × Represents d l' y.1 × (length l' ≤ 1000000)
  run_calls-Represents [] st l m y r b h =
      let e : m ≡ y.1 = ground (arith, h) in (l, subst (Represents d l) e r, omega (arith, b))
  run_calls-Represents (c ∷ calls) st l m y r b h = elim (Option-cases (run_call c (st, m))) [
    | inl n ↦ absurd (ground (arith, h, n))
    | inr (z, n) ↦
        let a = run_call-Agree c st l m r (omega (arith, b)) in
        let x = Agree-some (list_call c (st, l)) z (subst (Agree d (list_call c (st, l))) n a) in
        let size = list_call-length c (st, l) x.0 x.1 in
        run_calls-Represents calls z.0 x.0.1 z.1 y x.2 (omega (arith, b, size))
          (ground (arith, h, n))
  ]
