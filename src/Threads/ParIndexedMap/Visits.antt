-- ===== src/Threads/ParIndexedMap/Visits.antt =====
-- `ForEach` of heyp/threads/par-indexed-map.h, as visits of one id after another.
use heyp_agents.Prelude.{
  ℕ, zero, suc, ◌+◌, ◌-◌, ◌/◌, ◌%◌, ◌*◌, ◌≤◌, ◌≡◌, refl, ap, sym, ◌∙◌, true, Option, none, some,
  ltb, leb, leb→le, if◌then◌else◌, arith, Option-cases, inl, inr, Bool-cases,
}
use heyp_agents.Threads.ParIndexedMap.{
  k_span_size, ParIndexedMap, Visitor, visit_entry, visit_entries, end_span, last_stop, first_entry,
  stop_entry, visit_spans, for_each, on_id,
}

count_fits :
    (start end si : ℕ)
    → first_entry start si + (stop_entry end si - first_entry start si) ≤ k_span_size
unfolding end_span last_stop first_entry stop_entry
count_fits start end si = ground arith

count_sum :
    (start end left cur_id si : ℕ)
    → suc left ≡ end_span end + 1 - si
    → start / k_span_size ≤ si
    → cur_id ≡ si * k_span_size + first_entry start si
    → let count = stop_entry end si - first_entry start si in
      end - cur_id ≡ count + (end - (cur_id + count))
unfolding end_span last_stop first_entry stop_entry
count_sum start end left cur_id si l s c = ground arith

-- Where the outer loop is: at the first entry of its span, or past the end.
abbrev IsAt : ℕ → ℕ → ℕ → ℕ → ℕ → Type 0
IsAt start end zero cur_id si = end ≤ cur_id
IsAt start end (suc left) cur_id si = cur_id ≡ si * k_span_size + first_entry start si

IsAt-next :
    (start end left cur_id si : ℕ)
    → suc left ≡ end_span end + 1 - si
    → start / k_span_size ≤ si
    → IsAt start end (suc left) cur_id si
    → IsAt start end left (cur_id + (stop_entry end si - first_entry start si)) (si + 1)
unfolding end_span last_stop first_entry stop_entry
IsAt-next start end zero cur_id si l s c = ground arith
IsAt-next start end (suc left) cur_id si l s c = ground arith

IsAt-start :
    (start end left : ℕ)
    → left ≡ end_span end + 1 - start / k_span_size
    → IsAt start end left start (start / k_span_size)
unfolding end_span first_entry
IsAt-start start end zero l = omega (arith, l)
IsAt-start start end (suc left) l = ground arith

module _ {K : Type 0} {V : Type 0} {S : Type 0} (func : Visitor S V) where
  -- The entries of a number of ids, in order.
  unfoldable pub visit_ids : ℕ → ℕ → S × ParIndexedMap K V → Option (S × ParIndexedMap K V)
  visit_ids zero id x = some x
  visit_ids (suc n) id x = elim (visit_entry func id (id / k_span_size) (id % k_span_size) x) [
    | none ↦ none
    | some y ↦ visit_ids n (id + 1) y
  ]

  abbrev then_ids : ℕ → ℕ → Option (S × ParIndexedMap K V) → Option (S × ParIndexedMap K V)
  then_ids n id none = none
  then_ids n id (some y) = visit_ids n id y

  abbrev then_entries :
      ℕ → ℕ → ℕ → ℕ → Option (S × ParIndexedMap K V) → Option (S × ParIndexedMap K V)
  then_entries n cur_id si ei none = none
  then_entries n cur_id si ei (some y) = visit_entries func n cur_id si ei y

  visit_ids-split :
      (a b id : ℕ) (x : S × ParIndexedMap K V)
      → visit_ids (a + b) id x ≡ then_ids b (id + a) (visit_ids a id x)
  unfolding visit_ids
  visit_ids-split zero b id x =
      let e : 0 + b ≡ b = omega arith in let f : id + 0 ≡ id = omega arith in rw (e, f) refl
  visit_ids-split (suc a) b id x =
      let e : suc a + b ≡ suc (a + b) = omega arith in
      let f : id + suc a ≡ id + 1 + a = omega arith in
      let v = visit_entry func id (id / k_span_size) (id % k_span_size) x in
      rw (e, f)
        (elim v
          as (λ v. then_ids (a + b) (id + 1) v ≡ then_ids b (id + 1 + a) (then_ids a (id + 1) v)) [
            | none ↦ refl
            | some y ↦ visit_ids-split a b (id + 1) y
          ])

  visit_ids-step :
      (n id si ei : ℕ) (x : S × ParIndexedMap K V)
      → id / k_span_size ≡ si
      → id % k_span_size ≡ ei
      → visit_ids (suc n) id x ≡ then_ids n (id + 1) (visit_entry func id si ei x)
  unfolding visit_ids
  visit_ids-step n id si ei x q r =
      ap (λ a. then_ids n (id + 1) (visit_entry func id a (id % k_span_size) x)) q
      ∙ ap (λ b. then_ids n (id + 1) (visit_entry func id si b x)) r

  visit_entries-ids :
      (n id si ei : ℕ) (x : S × ParIndexedMap K V)
      → id ≡ si * k_span_size + ei
      → ei + n ≤ k_span_size
      → visit_entries func n id si ei x ≡ visit_ids n id x
  unfolding visit_entries visit_ids
  visit_entries-ids zero id si ei x i h = refl
  visit_entries-ids (suc n) id si ei x i h =
      let step = visit_ids-step n id si ei x (omega (arith, i, h)) (omega (arith, i, h)) in
      elim (visit_entry func id si ei x)
        as (λ v. then_entries n (id + 1) si (ei + 1) v ≡ then_ids n (id + 1) v) [
          | none ↦ refl
          | some y ↦
              visit_entries-ids n (id + 1) si (ei + 1) y (omega (arith, i)) (omega (arith, h))
        ]
      ∙ sym step

  abbrev then_spans :
      ℕ → ℕ → ℕ → ℕ → ℕ → Option (S × ParIndexedMap K V) → Option (S × ParIndexedMap K V)
  then_spans start end left cur_id si none = none
  then_spans start end left cur_id si (some y) = visit_spans func start end left cur_id si y

  visit_spans-ids :
      (start end left cur_id si : ℕ) (x : S × ParIndexedMap K V)
      → left ≡ end_span end + 1 - si
      → start / k_span_size ≤ si
      → IsAt start end left cur_id si
      → visit_spans func start end left cur_id si x ≡ visit_ids (end - cur_id) cur_id x
  unfolding visit_spans visit_ids
  visit_spans-ids start end zero cur_id si x l s c =
      let e : end - cur_id ≡ 0 = omega (arith, c) in rw e refl
  visit_spans-ids start end (suc left) cur_id si x l s c =
      let first = first_entry start si in
      let count = stop_entry end si - first in
      let rest = end - (cur_id + count) in
      let ids = visit_entries-ids count cur_id si first x c (count_fits start end si) in
      let sum = count_sum start end left cur_id si l s c in
      let next = IsAt-next start end left cur_id si l s c in
      ap (then_spans start end left (cur_id + count) (si + 1)) ids
      ∙ (elim (visit_ids count cur_id x)
          as (λ v.
            then_spans start end left (cur_id + count) (si + 1) v
            ≡ then_ids rest (cur_id + count) v) [
              | none ↦ refl
              | some y ↦
                  visit_spans-ids start end left (cur_id + count) (si + 1) y (omega (arith, l))
                    (omega (arith, s)) next
            ])
      ∙ sym (visit_ids-split count rest cur_id x)
      ∙ ap (λ n. visit_ids n cur_id x) (sym sum)

  for_each-ids :
      (start end : ℕ) (st : S) (m : ParIndexedMap K V)
      → for_each func start end (st, m)
        ≡ (if leb end m.len then visit_ids (end - start) start (st, m) else none)
  unfolding for_each
  for_each-ids start end st m =
      let si = start / k_span_size in
      let left = end_span end + 1 - si in
      ap (λ r. if leb end m.len then r else none)
        (visit_spans-ids start end left start si (st, m) refl (omega arith)
          (IsAt-start start end left refl))

  -- `OnID` on a number of ids, in order.
  unfoldable pub on_ids : ℕ → ℕ → S × ParIndexedMap K V → Option (S × ParIndexedMap K V)
  on_ids zero id x = some x
  on_ids (suc n) id x = elim (on_id func id x) [ none ↦ none | some y ↦ on_ids n (id + 1) y ]

  len-visit_entry :
      (id si ei : ℕ) (x y : S × ParIndexedMap K V)
      → visit_entry func id si ei x ≡ some y
      → y.1.len ≡ x.1.len
  unfolding visit_entry
  len-visit_entry id si ei x y h = ground (arith, h)

  on_ids-visits :
      (n id end : ℕ) (x : S × ParIndexedMap K V)
      → n ≡ end - id
      → end ≤ x.1.len
      → visit_ids n id x ≡ on_ids n id x
  unfolding on_ids on_id visit_ids
  on_ids-visits zero id end x h b = refl
  on_ids-visits (suc n) id end x h b =
      let t : ltb id x.1.len ≡ true = ground (arith, h, b) in
      let si = id / k_span_size in
      let ei = id % k_span_size in
      elim (Option-cases (visit_entry func id si ei x)) [
        | inl e ↦ ground (arith, e, t)
        | inr (y, e) ↦
            let k = len-visit_entry id si ei x y e in
            ground
              (arith, e, t, on_ids-visits n (id + 1) end y (omega (arith, h)) (omega (arith, k, b)))
      ]

  -- `ForEach` is `OnID` on each id from the first up to the last but one, once and in order, and on
  -- no other, whatever the two are; an end beyond the ids stops the process.
  pub for_each-on_ids :
      (start end : ℕ) (st : S) (m : ParIndexedMap K V)
      → for_each func start end (st, m)
        ≡ (if leb end m.len then on_ids (end - start) start (st, m) else none)
  for_each-on_ids start end st m = elim (Bool-cases (leb end m.len)) [
    | inl e ↦
        for_each-ids start end st m
        ∙ rw e (on_ids-visits (end - start) start end (st, m) refl (leb→le end m.len e))
    | inr e ↦ for_each-ids start end st m ∙ rw e refl
  ]
