-- ===== src/Threads/ParIndexedMap/Copy.antt =====
-- `BestEffortCopy` of heyp/threads/par-indexed-map.h.
use heyp_agents.Prelude.Maps.{KeyEq}
use heyp_agents.Prelude.{
  ℕ, zero, suc, ◌+◌, ◌/◌, ◌%◌, ◌*◌, ◌≤◌, ◌<◌, ◌≡◌, refl, ap, sym, ◌∙◌, subst, Bool, ◌&&◌, List, [],
  length, Option, some, ltb, leb, ◌==◌, if◌then◌else◌, arith, inl, inr, Bool-cases,
}
use heyp_agents.Threads.ParIndexedMap.{
  k_span_size, ParIndexedMap, Span, write, num_spans, new_map, value_at, copy_entries, num_entries,
  copy_span, copy_spans, best_effort_copy,
}
use heyp_agents.Threads.ParIndexedMap.Slots.{slot}
use heyp_agents.Threads.ParIndexedMap.Represents.{Represents, HoldsSpan-some, new_map-Represents}
use heyp_agents.Threads.ParIndexedMap.Refines.{Call, run_calls, run_calls-Represents}

-- The last span, of a map that is full up to it, is copied without its values.
abbrev pub is_lost : ℕ → ℕ → Bool
is_lost len id = len % k_span_size == 0 && leb len (id + k_span_size)

in_spans : (len id : ℕ) → id < len → id / k_span_size < num_spans len
unfolding num_spans
in_spans len id h = omega (arith, h)

module _ {V : Type 0} (d : V) where
  copy_entries-at :
      (n : ℕ) (s : Span V) (i : ℕ) → copy_entries d n s i ≡ (if ltb i n then s i else d)
  unfolding copy_entries write
  copy_entries-at zero s i = ground arith
  copy_entries-at (suc n) s i = ground (arith, copy_entries-at n s i)

module _ {K : Type 0} {V : Type 0} (d : V) ⦃e : KeyEq K⦄ where
  -- A span of the copy, of a map that stands for a list.
  abbrev copied : List (K × V) → ℕ → Span V
  copied l si ei =
      if ltb ei (num_entries (length l) si) then slot d l (si * k_span_size + ei) else d

  abbrev HasSpan : List (K × V) → ℕ → Option (Span V) → Type 0
  HasSpan l si o =
      (s : Span V) × (o ≡ some s) × ((ei : ℕ) → ei < k_span_size → s ei ≡ copied l si ei)

  -- The copy after its first spans.
  abbrev HasCopied : ℕ → List (K × V) → ParIndexedMap K V → ParIndexedMap K V → Type 0
  HasCopied n l copy c =
      (c.len ≡ copy.len)
      × (c.id_map ≡ copy.id_map)
      × ((si : ℕ) → si < n → HasSpan l si (c.spans si))

  span-copied :
      (l : List (K × V)) (m : ParIndexedMap K V) (si : ℕ) (s : Span V) (ei : ℕ)
      → m.len ≡ length l
      → s ei ≡ slot d l (si * k_span_size + ei)
      → copy_entries d (num_entries m.len si) s ei ≡ copied l si ei
  span-copied l m si s ei q h =
      copy_entries-at d (num_entries m.len si) s ei
      ∙ ap (λ n. if ltb ei (num_entries n si) then s ei else d) q
      ∙ ap (λ v. if ltb ei (num_entries (length l) si) then v else d) h

  HasSpan-more :
      (l : List (K × V)) (si : ℕ) (c : ParIndexedMap K V) (cspan : Span V)
      → ((ei : ℕ) → ei < k_span_size → cspan ei ≡ copied l si ei)
      → ((i : ℕ) → i < si → HasSpan l i (c.spans i))
      → (i : ℕ) → i < suc si
      → HasSpan l i (write c.spans si (some cspan) i)
  unfolding write
  HasSpan-more l si c cspan h f i q = elim (Bool-cases (si == i)) [
    | inl t ↦
        let e : si ≡ i = ground (arith, t) in
        rw t (subst (λ i. HasSpan l i (some cspan)) e (cspan, refl, h))
    | inr t ↦ rw t (f i (ground (arith, t, q)))
  ]

  copy_spans-HasCopied :
      (n : ℕ) (l : List (K × V)) (m copy : ParIndexedMap K V)
      → Represents d l m
      → n ≤ num_spans (length l)
      → length l ≤ 1000000
      → (c : ParIndexedMap K V) × (copy_spans d n m copy ≡ some c) × HasCopied n l copy c
  unfolding copy_spans copy_span num_spans
  copy_spans-HasCopied zero l m copy r b h = (copy, refl, (refl, refl, λ si q. ground arith))
  copy_spans-HasCopied (suc si) l m copy r b h =
      let i = copy_spans-HasCopied si l m copy r (omega arith) h in
      let s =
        HoldsSpan-some d l si (m.spans si) (omega (arith, b)) (r.2 si (omega (arith, b, h))) in
      let cspan = copy_entries d (num_entries m.len si) s.0 in
      (
        record i.0 { spans = write i.0.spans si (some cspan) },
        rw (i.1, s.1) refl,
        (
          i.2.0,
          i.2.1,
          λ si' q.
              HasSpan-more l si i.0 cspan (λ ei p. span-copied l m si s.0 ei r.0 (s.2.1 ei p)) i.2.2
                si' q,
        ),
      )

  abbrev pub IsCopy : ParIndexedMap K V → ParIndexedMap K V → Type 0
  IsCopy m c =
      (c.len ≡ m.len)
      × (c.id_map ≡ m.id_map)
      × ((id : ℕ)
          → id < m.len
          → value_at c id ≡ (if is_lost m.len id then some d else value_at m id))

  pub value_at-some :
      (m : ParIndexedMap K V) (id : ℕ) (s : Span V)
      → m.spans (id / k_span_size) ≡ some s
      → value_at m id ≡ some (s (id % k_span_size))
  unfolding value_at
  value_at-some m id s h = rw (value_at, h) refl

  copied-lost :
      (l : List (K × V)) (id : ℕ)
      → id < length l
      → copied l (id / k_span_size) (id % k_span_size)
        ≡ (if is_lost (length l) id then d else slot d l id)
  unfolding num_entries num_spans
  copied-lost l id h =
      let si = id / k_span_size in
      let ei = id % k_span_size in
      let q : slot d l (si * k_span_size + ei) ≡ slot d l id = ap (slot d l) (omega arith) in
      ground (arith, q, h)

  best_effort_copy-IsCopy :
      (memory : ℕ → Option (Span V)) (l : List (K × V)) (m : ParIndexedMap K V)
      → Represents d l m
      → length l ≤ 1000000
      → (c : ParIndexedMap K V) × (best_effort_copy d memory m ≡ some c) × IsCopy m c
  unfolding best_effort_copy
  best_effort_copy-IsCopy memory l m r h =
      let start : ParIndexedMap K V = record (new_map memory) { id_map = m.id_map; len = m.len } in
      let n : num_spans m.len ≤ num_spans (length l) = omega (arith, ap num_spans r.0) in
      let c = copy_spans-HasCopied (num_spans m.len) l m start r n h in
      (
        c.0,
        c.1,
        (
          c.2.0,
          c.2.1,
          λ id q.
              let si = id / k_span_size in
              let ei = id % k_span_size in
              let p : id < length l = omega (arith, q, r.0) in
              let s = c.2.2 si (in_spans m.len id q) in
              let t =
                HoldsSpan-some d l si (m.spans si) (omega (arith, p))
                  (r.2 si (omega (arith, p, h))) in
              let u : t.0 ei ≡ slot d l (si * k_span_size + ei) = t.2.1 ei (omega arith) in
              let w : slot d l (si * k_span_size + ei) ≡ slot d l id =
                ap (slot d l) (omega arith) in
              value_at-some c.0 id s.0 s.1
              ∙ ap some (s.2 ei (omega arith) ∙ copied-lost l id p)
              ∙ ap (λ n. some (if is_lost n id then d else slot d l id)) (sym r.0)
              ∙ ground (arith, value_at-some m id t.0 t.1, u, w),
        ),
      )

  -- A copy of the map that a client left after at most a million calls on a new map, with no other
  -- call meanwhile, has its size, its ids and its values, but for one span: where the size is a
  -- multiple of 1000, the values of the last 1000 ids are the default in the copy.
  pub run_calls-IsCopy :
      {S : Type 0} (memory other : ℕ → Option (Span V)) (calls : List (Call K V S)) (st : S)
      (y : S × ParIndexedMap K V)
      → length calls ≤ 1000000
      → run_calls d calls (st, new_map memory) ≡ some y
      → (c : ParIndexedMap K V) × (best_effort_copy d other y.1 ≡ some c) × IsCopy y.1 c
  run_calls-IsCopy memory other calls st y b h =
      let r =
        run_calls-Represents d calls st [] (new_map memory) y (new_map-Represents d memory)
          (omega (arith, b)) h in
      best_effort_copy-IsCopy other r.0 y.1 r.1 r.2
