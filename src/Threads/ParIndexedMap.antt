-- ===== src/Threads/ParIndexedMap.antt =====
-- `ParIndexedMap` of heyp/threads/par-indexed-map.h, call by call: `GetID` holds a lock, and each
-- visit of an entry holds the entry's. `spans_` is a function of the index: a null pointer, or a
-- span, which is a function of the place. Ids are not negative here.
pub mod Visits
pub mod Slots
pub mod Represents
pub mod Calls
pub mod Refines
pub mod Copy
mod Tests
use heyp_agents.Prelude.Maps.{KeyEq, lookup, assign}
use heyp_agents.Prelude.{
  ℕ, zero, suc, ◌+◌, ◌-◌, ◌/◌, ◌%◌, Bool, true, false, ◌&&◌, List, [], ◌∷◌, Option, none, some, ltb,
  leb, ◌==◌, if◌then◌else◌,
}

abbrev pub k_max_entries : ℕ
k_max_entries = 10000000

abbrev pub k_span_size : ℕ
k_span_size = 1000

abbrev pub k_num_spans : ℕ
k_num_spans = k_max_entries / k_span_size

pub record GetResult : Type 0 where
  pub id : ℕ
  pub just_created : Bool

abbrev pub Span : Type 0 → Type 0
Span V = ℕ → V

-- `new Span()`.
abbrev pub empty_span : {V : Type 0} → V → Span V
empty_span default_value i = default_value

pub record ParIndexedMap (K : Type 0) (V : Type 0) : Type 0 where
  pub spans : ℕ → Option (Span V)
  pub len : ℕ
  pub id_map : List (K × ℕ)

-- A write to one index of an array.
unfoldable pub write {ℓ} : {A : Type ℓ} → (ℕ → A) → ℕ → A → ℕ → A
write a i v j = if i == j then v else a j

unfoldable pub num_spans : ℕ → ℕ
num_spans len = (len + k_span_size - 1) / k_span_size

module _ {K : Type 0} {V : Type 0} where
  -- The constructor: the `memset` clears as many pointers as a span has entries. `memory` is what the
  -- array held before.
  unfoldable pub new_map : (ℕ → Option (Span V)) → ParIndexedMap K V
  new_map memory = record {
    spans = λ i. if ltb i k_span_size then none else memory i;
    len = 0;
    id_map = [];
  }

  -- The value of an id, where its span is there.
  unfoldable pub value_at : ParIndexedMap K V → ℕ → Option V
  value_at m id = elim (m.spans (id / k_span_size)) [
    | none ↦ none
    | some s ↦ some (s (id % k_span_size))
  ]

module _ {K : Type 0} {V : Type 0} (default_value : V) where
  -- `AddEntry`: `none` where the assertion stops the process or the array has no such pointer.
  unfoldable pub add_entry : ParIndexedMap K V → Option (ℕ × ParIndexedMap K V)
  unfolding write
  add_entry m =
      let id = m.len in
      let span_is_full = id % k_span_size == 0 in
      let next_span_id = id / k_span_size in
      let next = write m.spans next_span_id (some (empty_span default_value)) in
      if span_is_full
      then (if ltb next_span_id k_num_spans
          then elim (m.spans next_span_id) [
            | some s ↦ none
            | none ↦ some (id, record m { spans = next; len = id + 1 })
          ]
          else none)
      else some (id, record m { len = id + 1 })

  -- `GetID`.
  unfoldable pub get_id :
      ⦃e : KeyEq K⦄ → K → ParIndexedMap K V → Option (GetResult × ParIndexedMap K V)
  unfolding add_entry
  get_id key m = elim (lookup key m.id_map) [
    | some id ↦ some (record { id = id; just_created = false }, m)
    | none ↦ elim (add_entry m) [
      | none ↦ none
      | some (id, n) ↦
          some
            (record { id = id; just_created = true }, record n { id_map = assign key id n.id_map })
    ]
  ]

-- `(end - 1) / kSpanSize` and `((end - 1) % kSpanSize) + 1`, which are 0 where `end` is.
unfoldable pub end_span : ℕ → ℕ
end_span end = (end - 1) / k_span_size

unfoldable pub last_stop : ℕ → ℕ
last_stop end = if end == 0 then 0 else (end - 1) % k_span_size + 1

-- The entries of one span that the loop visits: the first, and the one past the last.
unfoldable pub first_entry : ℕ → ℕ → ℕ
first_entry start si = if si == start / k_span_size then start % k_span_size else 0

unfoldable pub stop_entry : ℕ → ℕ → ℕ
unfolding end_span last_stop
stop_entry end si = if si == end_span end then last_stop end else k_span_size

-- What a visitor does: it changes the value and its own state.
abbrev pub Visitor : Type 0 → Type 0 → Type 0
Visitor S V = ℕ → S → V → S × V

module _ {K : Type 0} {V : Type 0} {S : Type 0} (func : Visitor S V) where
  -- `func(id, e->val)` on one entry of a span: `none` where the pointer is null.
  unfoldable pub visit_entry : ℕ → ℕ → ℕ → S × ParIndexedMap K V → Option (S × ParIndexedMap K V)
  unfolding write
  visit_entry id si ei (st, m) = elim (m.spans si) [
    | none ↦ none
    | some s ↦
        let (after, v) = func id st (s ei) in
        some (after, record m { spans = write m.spans si (some (write s ei v)) })
  ]

  -- `OnID`.
  unfoldable pub on_id : ℕ → S × ParIndexedMap K V → Option (S × ParIndexedMap K V)
  on_id id (st, m) =
      if ltb id m.len then visit_entry id (id / k_span_size) (id % k_span_size) (st, m) else none

  -- The inner loop of `ForEach`: `cur_id`, the span, the entry, and how many entries are left.
  unfoldable pub visit_entries :
      ℕ → ℕ → ℕ → ℕ → S × ParIndexedMap K V → Option (S × ParIndexedMap K V)
  visit_entries zero cur_id si ei x = some x
  visit_entries (suc left) cur_id si ei x = elim (visit_entry cur_id si ei x) [
    | none ↦ none
    | some y ↦ visit_entries left (cur_id + 1) si (ei + 1) y
  ]

  -- The outer loop, with the number of spans that are left.
  unfoldable pub visit_spans :
      ℕ → ℕ → ℕ → ℕ → ℕ → S × ParIndexedMap K V → Option (S × ParIndexedMap K V)
  visit_spans start end zero cur_id si x = some x
  visit_spans start end (suc left) cur_id si x =
      let count = stop_entry end si - first_entry start si in
      elim (visit_entries count cur_id si (first_entry start si) x) [
        | none ↦ none
        | some y ↦ visit_spans start end left (cur_id + count) (si + 1) y
      ]

  -- `ForEach`.
  unfoldable pub for_each : ℕ → ℕ → S × ParIndexedMap K V → Option (S × ParIndexedMap K V)
  for_each start end (st, m) =
      let start_span = start / k_span_size in
      if leb end m.len
      then visit_spans start end (end_span end + 1 - start_span) start start_span (st, m)
      else none

unfoldable pub num_entries : ℕ → ℕ → ℕ
unfolding num_spans
num_entries len si = if si + 1 == num_spans len then len % k_span_size else k_span_size

-- `BestEffortCopy`, where no other call runs meanwhile. The inner loop: the first entries of a span
-- into a new one.
module _ {V : Type 0} (default_value : V) where
  unfoldable pub copy_entries : ℕ → Span V → Span V
  unfolding write
  copy_entries zero ospan = empty_span default_value
  copy_entries (suc n) ospan = write (copy_entries n ospan) n (ospan n)

  -- `none` where an entry is read through a null pointer.
  unfoldable pub copy_span : ℕ → Option (Span V) → Option (Span V)
  unfolding copy_entries
  copy_span n none = if n == 0 then some (empty_span default_value) else none
  copy_span n (some ospan) = some (copy_entries n ospan)

module _ {K : Type 0} {V : Type 0} (default_value : V) where
  -- The outer loop over the first spans.
  unfoldable pub copy_spans : ℕ → ParIndexedMap K V → ParIndexedMap K V → Option (ParIndexedMap K V)
  unfolding copy_span write
  copy_spans zero m copy = some copy
  copy_spans (suc si) m copy =
      let rest = copy_spans si m copy in
      elim rest [
        | none ↦ none
        | some c ↦ elim (copy_span default_value (num_entries m.len si) (m.spans si)) [
          | none ↦ none
          | some cspan ↦ some (record c { spans = write c.spans si (some cspan) })
        ]
      ]

  unfoldable pub best_effort_copy :
      (ℕ → Option (Span V)) → ParIndexedMap K V → Option (ParIndexedMap K V)
  unfolding new_map num_spans copy_spans
  best_effort_copy memory m =
      let copy : ParIndexedMap K V = record (new_map memory) { id_map = m.id_map; len = m.len } in
      copy_spans (num_spans m.len) m copy
