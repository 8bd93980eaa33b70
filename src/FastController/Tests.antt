-- ===== src/FastController/Tests.antt =====
-- Tests of the children of heyp/cluster-agent/fast-controller.cc.
use heyp_agents.Prelude.{
  ℕ, Bool, true, false, List, [], ◌∷◌, some, ◌≡◌, refl, map, ltb, if◌then◌else◌, arith,
}
use heyp_agents.Markers.{FlowMarker}
use heyp_agents.FastController.{ChildState, set_agg_is_lopri, broadcast_state_if_updated}
use heyp_agents.HashRing.{IdRange}
use heyp_agents.FastController.Selected.{
  for_each_selected, for_each_selected-namings, entries_of, namings,
}
use heyp_agents.FastController.Decisions.{decide_all, decide_all-told, latest_bundle}

abbrev aggregate : FlowMarker
aggregate = record {
  src_dc = [];
  dst_dc = [];
  job = [];
  host_id = 0;
  src_addr = [];
  dst_addr = [];
  protocol = 0;
  src_port = 0;
  dst_port = 0;
  seqnum = 0;
}

abbrev aggregates : List FlowMarker
aggregates = aggregate ∷ aggregate ∷ aggregate ∷ []

-- A child with one listener, whose function is a number.
abbrev one_listener : ChildState ℕ
one_listener = record {
  broadcasted_latest_state = true;
  saw_data_this_run = true;
  gen_seen = 7;
  agg_is_lopri = true ∷ [];
  lis_new_bundle_funcs = (1, 50) ∷ [];
}

abbrev decisions : List (ℕ × Bool)
decisions = (2, true) ∷ (1, true) ∷ (1, false) ∷ []

set_agg_is_lopri-grows : set_agg_is_lopri 2 true (true ∷ []) ≡ true ∷ false ∷ true ∷ []
unfolding set_agg_is_lopri
set_agg_is_lopri-grows = refl

decide_all-told_example :
    (after : ChildState ℕ) × (broadcast_state_if_updated aggregates
        (decide_all one_listener decisions)
      ≡ some (
        after,
        map
            (λ f. (f, latest_bundle aggregates one_listener decisions))
            one_listener.lis_new_bundle_funcs,
      ))
    × (broadcast_state_if_updated aggregates after ≡ some (after, []))
decide_all-told_example =
    decide_all-told aggregates one_listener (2, true) ((1, true) ∷ (1, false) ∷ []) (omega arith)
      (omega arith, (omega arith, (omega arith, tt)))

abbrev hosts : List (ℕ × ℕ)
hosts = (3, 0) ∷ (5, 2) ∷ (9, 1) ∷ []

abbrev low_ids : List IdRange
low_ids = (record { lo = 4; hi = 9 }) ∷ []

for_each_selected-calls :
    for_each_selected hosts low_ids (3 ∷ 8 ∷ []) ≡ (5, 2) ∷ (9, 1) ∷ (3, 0) ∷ []
unfolding for_each_selected
for_each_selected-calls = refl

for_each_selected-namings_example :
    entries_of 9 1 (for_each_selected hosts low_ids (3 ∷ 8 ∷ []))
    ≡ (if ltb 0 (entries_of 9 1 hosts) then namings 9 low_ids (3 ∷ 8 ∷ []) else 0)
for_each_selected-namings_example =
    for_each_selected-namings hosts low_ids (3 ∷ 8 ∷ []) 9 1
      ((omega arith, (omega arith, tt)), ((omega arith, tt), (tt, tt)))
