-- ===== src/Threads/ParIndexedMap/Represents.antt =====
-- How the spans of heyp/threads/par-indexed-map.h represent a list, and `AddEntry` on them.
use heyp_agents.Prelude.Maps.{
  KeyEq, lookup, assign, lookup-assign, lookup-assign_other, lookup-common,
}
use heyp_agents.Prelude.{
  ℕ, ◌+◌, ◌/◌, ◌%◌, ◌*◌, ◌≤◌, ◌<◌, ◌≡◌, ◌≢◌, refl, ap, sym, ◌∙◌, subst, true, List, [], ◌∷◌, ◌++◌,
  length, Option, none, some, ltb, ◌==◌, arith, inl, inr, Bool-cases, length-append,
}
use heyp_agents.Threads.ParIndexedMap.{
  k_span_size, k_num_spans, ParIndexedMap, Span, empty_span, write, new_map, add_entry,
}
use heyp_agents.Threads.ParIndexedMap.Slots.{
  put, slot-put, length-put, find-put, find, put, slot, slot-new, slot-beyond, slot-put, length-put,
  find-put, find-new,
}

module _ {K : Type 0} {V : Type 0} (d : V) ⦃e : KeyEq K⦄ where
  -- A span holds what the list has at its ids, and the default beyond; a null pointer stands for ids
  -- beyond the list.
  abbrev pub HoldsSpan : List (K × V) → ℕ → Option (Span V) → Type 0
  HoldsSpan l si none = length l ≤ si * k_span_size
  HoldsSpan l si (some s) =
      (si * k_span_size < length l)
      × ((ei : ℕ) → ei < k_span_size → s ei ≡ slot d l (si * k_span_size + ei))

  abbrev pub Represents : List (K × V) → ParIndexedMap K V → Type 0
  Represents l m =
      (m.len ≡ length l)
      × ((k : K) → lookup k m.id_map ≡ find k l)
      × ((si : ℕ) → si < k_span_size → HoldsSpan l si (m.spans si))

  pub new_map-Represents : (memory : ℕ → Option (Span V)) → Represents [] (new_map memory)
  unfolding new_map
  new_map-Represents memory = (
    refl,
    λ k. refl,
    λ si h. let c : ltb si k_span_size ≡ true = ground (arith, h) in rw c (omega arith),
  )

  -- A new key is looked up at the end of the list.
  lookup-new :
      (l : List (K × V)) (ids : List (K × ℕ)) (key : K)
      → ((k : K) → lookup k ids ≡ find k l)
      → lookup key ids ≡ none
      → (k : K) → lookup k (assign key (length l) ids) ≡ find k (l ++ (key, d) ∷ [])
  lookup-new l ids key h n k = ground (
    arith,
    n,
    h k,
    find-new k key d l,
    lookup-common k key ids,
    lookup-common k key (assign key (length l) ids),
    lookup-assign key (length l) ids,
    lookup-assign_other k key (length l) ids,
    e.eq_common k key k,
    e.eq_common key k key,
    e.eq_refl k,
    e.eq_refl key,
  )

  HoldsSpan-new :
      (l : List (K × V)) (key : K) (si : ℕ) (o : Option (Span V))
      → HoldsSpan l si o
      → length l ≢ si * k_span_size
      → HoldsSpan (l ++ (key, d) ∷ []) si o
  HoldsSpan-new l key si none h f = omega (arith, h, f, length-append l ((key, d) ∷ []))
  HoldsSpan-new l key si (some s) h f = (
    omega (arith, h.0, length-append l ((key, d) ∷ [])),
    λ ei q. h.1 ei q ∙ sym (slot-new d key l (si * k_span_size + ei)),
  )

  no_span :
      (l : List (K × V)) (si : ℕ) (o : Option (Span V))
      → HoldsSpan l si o
      → length l ≤ si * k_span_size
      → o ≡ none
  no_span l si none h b = refl
  no_span l si (some s) h b = absurd (omega (arith, h.0, b))

  HoldsSpan-empty :
      (l : List (K × V)) (key : K) (si : ℕ)
      → length l ≡ si * k_span_size
      → HoldsSpan (l ++ (key, d) ∷ []) si (some (empty_span d))
  HoldsSpan-empty l key si h = (
    omega (arith, h, length-append l ((key, d) ∷ [])),
    λ ei q. sym (
        slot-new d key l (si * k_span_size + ei)
        ∙ slot-beyond d l (si * k_span_size + ei) (omega (arith, h))),
  )

  -- The map after a span is added, and without one.
  abbrev with_span : ParIndexedMap K V → ParIndexedMap K V
  with_span m = record m {
    spans = write m.spans (m.len / k_span_size) (some (empty_span d));
    len = m.len + 1;
  }

  abbrev without_span : ParIndexedMap K V → ParIndexedMap K V
  without_span m = record m { len = m.len + 1 }

  add_entry-full :
      (m : ParIndexedMap K V)
      → m.len % k_span_size ≡ 0
      → m.len < 1000000
      → m.spans (m.len / k_span_size) ≡ none
      → add_entry d m ≡ some (m.len, with_span m)
  unfolding add_entry
  add_entry-full m f b n =
      let s : (m.len % k_span_size == 0) ≡ true = ground (arith, f) in
      let t : ltb (m.len / k_span_size) k_num_spans ≡ true = ground (arith, b) in rw (s, t, n) refl

  add_entry-room :
      (m : ParIndexedMap K V)
      → m.len % k_span_size ≢ 0
      → add_entry d m ≡ some (m.len, without_span m)
  unfolding add_entry
  add_entry-room m f = ground (arith, f)

  HoldsSpan-with_span :
      (l : List (K × V)) (m : ParIndexedMap K V) (key : K) (si : ℕ)
      → m.len ≡ length l
      → m.len % k_span_size ≡ 0
      → HoldsSpan l si (m.spans si)
      → HoldsSpan (l ++ (key, d) ∷ []) si ((with_span m).spans si)
  unfolding write
  HoldsSpan-with_span l m key si q f h = elim (Bool-cases (m.len / k_span_size == si)) [
    | inl t ↦ rw t (HoldsSpan-empty l key si (ground (arith, q, f, t)))
    | inr t ↦ rw t (HoldsSpan-new l key si (m.spans si) h (ground (arith, q, f, t)))
  ]

  pub add_entry-Represents :
      (l : List (K × V)) (m : ParIndexedMap K V) (key : K)
      → Represents l m
      → length l < 1000000
      → lookup key m.id_map ≡ none
      → (n : ParIndexedMap K V) × (add_entry d m ≡ some (length l, n))
        × Represents (l ++ (key, d) ∷ []) (record n { id_map = assign key (length l) n.id_map })
  add_entry-Represents l m key r b n =
      let ids = lookup-new l m.id_map key r.1 n in
      let size = length-append l ((key, d) ∷ []) in
      elim (Bool-cases (m.len % k_span_size == 0)) [
        | inl t ↦
            let si = m.len / k_span_size in
            let f : m.len % k_span_size ≡ 0 = ground (arith, t) in
            let e =
              no_span l si (m.spans si) (r.2 si (omega (arith, r.0, b))) (omega (arith, r.0, f)) in
            (
              with_span m,
              add_entry-full m f (omega (arith, r.0, b)) e ∙ ap (λ i. some (i, with_span m)) r.0,
              (omega (arith, size, r.0), ids, λ i h. HoldsSpan-with_span l m key i r.0 f (r.2 i h)),
            )
        | inr t ↦
            let f : m.len % k_span_size ≢ 0 = ground (arith, t) in
            (
              without_span m,
              add_entry-room m f ∙ ap (λ i. some (i, without_span m)) r.0,
              (
                omega (arith, size, r.0),
                ids,
                λ i h. HoldsSpan-new l key i (m.spans i) (r.2 i h) (λ q. f (omega (arith, q, r.0))),
              ),
            )
      ]

  -- The map after a value of an entry is written.
  abbrev pub with_value : ParIndexedMap K V → ℕ → Span V → ℕ → V → ParIndexedMap K V
  with_value m si s ei v = record m { spans = write m.spans si (some (write s ei v)) }

  pub HoldsSpan-some :
      (l : List (K × V)) (si : ℕ) (o : Option (Span V))
      → si * k_span_size < length l
      → HoldsSpan l si o
      → (s : Span V) × (o ≡ some s) × HoldsSpan l si (some s)
  HoldsSpan-some l si none b h = absurd (omega (arith, b, h))
  HoldsSpan-some l si (some s) b h = (s, refl, h)

  HoldsSpan-other :
      (l : List (K × V)) (id si : ℕ) (v : V) (o : Option (Span V))
      → id < length l
      → id / k_span_size ≢ si
      → HoldsSpan l si o
      → HoldsSpan (put l id v) si o
  HoldsSpan-other l id si v none b n h = omega (arith, h, length-put l id v)
  HoldsSpan-other l id si v (some s) b n h = (
    omega (arith, h.0, length-put l id v),
    λ ei q. ground (arith, h.1 ei q, slot-put d l id v (si * k_span_size + ei) b, n, q),
  )

  HoldsSpan-written :
      (l : List (K × V)) (id : ℕ) (v : V) (s : Span V)
      → id < length l
      → HoldsSpan l (id / k_span_size) (some s)
      → HoldsSpan (put l id v) (id / k_span_size) (some (write s (id % k_span_size) v))
  unfolding write
  HoldsSpan-written l id v s b h = (
    omega (arith, h.0, length-put l id v),
    λ ei q. ground (arith, h.1 ei q, slot-put d l id v (id / k_span_size * k_span_size + ei) b, q),
  )

  HoldsSpan-write :
      (l : List (K × V)) (m : ParIndexedMap K V) (id : ℕ) (v : V) (s : Span V) (si : ℕ)
      → id < length l
      → HoldsSpan l (id / k_span_size) (some s)
      → HoldsSpan l si (m.spans si)
      → HoldsSpan
          (put l id v)
          si
          ((with_value m (id / k_span_size) s (id % k_span_size) v).spans si)
  unfolding write
  HoldsSpan-write l m id v s si b h g = elim (Bool-cases (id / k_span_size == si)) [
    | inl t ↦
        let e : id / k_span_size ≡ si = ground (arith, t) in
        rw t (
          subst (λ i. HoldsSpan (put l id v) i (some (write s (id % k_span_size) v))) e
            (HoldsSpan-written l id v s b h))
    | inr t ↦ rw t (HoldsSpan-other l id si v (m.spans si) b (ground (arith, t)) g)
  ]

  pub with_value-Represents :
      (l : List (K × V)) (m : ParIndexedMap K V) (id : ℕ) (v : V) (s : Span V)
      → Represents l m
      → id < length l
      → HoldsSpan l (id / k_span_size) (some s)
      → Represents (put l id v) (with_value m (id / k_span_size) s (id % k_span_size) v)
  with_value-Represents l m id v s r b h = (
    omega (arith, r.0, length-put l id v),
    λ k. r.1 k ∙ sym (find-put k l id v),
    λ si q. HoldsSpan-write l m id v s si b h (r.2 si q),
  )
