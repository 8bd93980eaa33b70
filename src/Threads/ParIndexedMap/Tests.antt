-- ===== src/Threads/ParIndexedMap/Tests.antt =====
-- Runs of `ParIndexedMap` (heyp/threads/par-indexed-map.h), and its theorems at them.
use heyp_agents.Prelude.Maps.{KeyEq}
use heyp_agents.Prelude.{
  ℕ, ◌+◌, ◌-◌, ◌≡◌, refl, List, [], ◌∷◌, Option, none, some, ◌==◌, leb, if◌then◌else◌, arith,
}
use heyp_agents.Threads.ParIndexedMap.{
  GetResult, ParIndexedMap, Span, empty_span, write, Visitor, new_map, add_entry, get_id, for_each,
  best_effort_copy,
}
use heyp_agents.Threads.ParIndexedMap.Visits.{on_ids, for_each-on_ids}
use heyp_agents.Threads.ParIndexedMap.Refines.{
  Call, gets, works, run_calls, list_calls, seen, run_calls-refines,
}
use heyp_agents.Threads.ParIndexedMap.Copy.{IsCopy, run_calls-IsCopy}

instance nat_keys : KeyEq ℕ
nat_keys = record {
  eq = λ a b. a == b;
  eq_refl = λ a. ground arith;
  eq_common = λ a b c h k. ground (arith, h, k);
}

-- The sum of what the ids were given.
abbrev see : ℕ → GetResult → ℕ
see st r = st + r.id

abbrev add_five : Visitor ℕ ℕ
add_five id st v = (st + v, v + 5)

abbrev no_memory : ℕ → Option (Span ℕ)
no_memory i = none

abbrev calls : List (Call ℕ ℕ ℕ)
calls =
    gets (λ st. 70) see
    ∷ gets (λ st. 80) see
    ∷ works (λ st. 1) add_five
    ∷ gets (λ st. 70) see
    ∷ works (λ st. 1) add_five
    ∷ []

calls-seen : seen (list_calls 0 calls (0, [])) ≡ some 6
unfolding nat_keys
calls-seen = refl

run_calls-refines_example :
    seen (run_calls 0 calls (0, new_map no_memory)) ≡ seen (list_calls 0 calls (0, []))
run_calls-refines_example = run_calls-refines 0 no_memory calls 0 (omega arith)

abbrev two_keys : List (Call ℕ ℕ ℕ)
two_keys = gets (λ st. 70) see ∷ gets (λ st. 80) see ∷ []

abbrev two_ids : ParIndexedMap ℕ ℕ
two_ids = record {
  spans = write (new_map {K = ℕ} no_memory).spans 0 (some (empty_span 0));
  len = 2;
  id_map = (70, 0) ∷ (80, 1) ∷ [];
}

two_keys-run : run_calls 0 two_keys (0, new_map no_memory) ≡ some (1, two_ids)
unfolding get_id add_entry new_map write nat_keys
two_keys-run = refl

run_calls-IsCopy_example :
    (c : ParIndexedMap ℕ ℕ) × (best_effort_copy 0 no_memory two_ids ≡ some c) × IsCopy 0 two_ids c
run_calls-IsCopy_example =
    run_calls-IsCopy 0 no_memory no_memory two_keys 0 (1, two_ids) (omega arith) two_keys-run

for_each-on_ids_example :
    for_each add_five 0 2 (0, two_ids)
    ≡ (if leb 2 two_ids.len then on_ids add_five (2 - 0) 0 (0, two_ids) else none)
for_each-on_ids_example = for_each-on_ids add_five 0 2 0 two_ids
