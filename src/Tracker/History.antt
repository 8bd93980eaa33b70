-- ===== src/Tracker/History.antt =====
-- Calls of `FlowTracker` (heyp/host-agent/flow-tracker.cc) in any order, from a new tracker.
use heyp_agents.Prelude.{
  ℕ, ◌+◌, ◌*◌, ◌^◌, ◌≤◌, ◌<◌, ◌≡◌, refl, ◌∙◌, List, [], ◌∷◌, All, length, none, some, arith,
}
use heyp_agents.Tracker.{
  FlowUpdate, FlowTracker, Config, active_keys, Outcome, finished, stopped, out_of_fuel,
  new_tracker, ensure_active, move_to_done, set_active, final_is_lopri, update_flows, finalize_flow,
  finalize_flows,
}
use heyp_agents.Tracker.Moves.{
  over_flows, usage_of, IsTracker, move_to_done-IsTracker, set_active-IsTracker,
  ensure_active-IsEnsured,
}
use heyp_agents.Tracker.Rounds.{Follows, HasPriority, update_leaf-some, update_flows-finishes}

pub data Call (Aux : Type 0) : Type 0 where
  updates finalizes : ℕ → List (FlowUpdate Aux) → Call Aux

module _ {Aux : Type 0} where
  abbrev pub number_of_updates : List (Call Aux) → ℕ
  number_of_updates [] = 0
  number_of_updates (updates timestamp us ∷ xs) = length us + number_of_updates xs
  number_of_updates (finalizes timestamp us ∷ xs) = length us + number_of_updates xs

  -- Updates to flows that go on have a priority.
  abbrev pub HasPriorities : List (Call Aux) → Type 0
  HasPriorities [] = Unit {0}
  HasPriorities (updates timestamp us ∷ xs) = All HasPriority us × HasPriorities xs
  HasPriorities (finalizes timestamp us ∷ xs) = HasPriorities xs

module _ {Aux : Type 0} (c : Config) where
  -- An update that ends a flow: the flow is done with its last usage, and no longer active.
  finalize_flow-Follows :
      (timestamp : ℕ) (u : FlowUpdate Aux) (before : FlowTracker Aux)
      → before.next_seqnum + 1 < 2 ^ 64
      → IsTracker before
      → (t : FlowTracker Aux) × (finalize_flow c timestamp u before ≡ some t) × Follows before t
  unfolding finalize_flow set_active move_to_done
  finalize_flow-Follows timestamp u before b i =
      let leaf = (ensure_active u.flow before).0 in
      let t = (ensure_active u.flow before).1 in
      let e = ensure_active-IsEnsured u.flow before b i in
      let p =
        update_leaf-some c timestamp u
          (final_is_lopri u.used_priority leaf.state.cur.currently_lopri) leaf e.leaf_accounted in
      let q = set_active-IsTracker u.flow leaf p.0 t e.found p.4 p.2 e.tracker in
      let r = move_to_done-IsTracker u.flow p.0 (set_active u.flow p.0 t) q.2 q.0 in
      (
        move_to_done u.flow p.0 (set_active u.flow p.0 t),
        rw (finalize_flow, p.1) refl,
        record {
          tracker = r.0;
          seqnum_bound = e.seqnum_bound;
          usage_kept = omega (arith, r.1, q.1, p.3, e.same_usage);
        },
      )

  finalize_flows-next :
      (timestamp : ℕ) (u : FlowUpdate Aux) (us : List (FlowUpdate Aux)) (before t : FlowTracker Aux)
      → finalize_flow c timestamp u before ≡ some t
      → finalize_flows c timestamp (u ∷ us) before ≡ finalize_flows c timestamp us t
  unfolding finalize_flows
  finalize_flows-next timestamp u us before t e = rw (finalize_flows, e) refl

  finalize_flows-finishes :
      (timestamp : ℕ) (us : List (FlowUpdate Aux)) (before : FlowTracker Aux)
      → before.next_seqnum + length us < 2 ^ 64
      → IsTracker before
      → (t : FlowTracker Aux) × (finalize_flows c timestamp us before ≡ some t)
        × IsTracker t
        × (t.next_seqnum ≤ before.next_seqnum + length us)
        × (over_flows usage_of before ≤ over_flows usage_of t)
  unfolding finalize_flows
  finalize_flows-finishes timestamp [] before b i = (before, refl, i, omega arith, omega arith)
  finalize_flows-finishes timestamp (u ∷ us) before b i =
      let p = finalize_flow-Follows timestamp u before (omega arith) i in
      let f = p.2 in
      let q = finalize_flows-finishes timestamp us p.0 (omega (arith, f.seqnum_bound)) f.tracker in
      (
        q.0,
        finalize_flows-next timestamp u us before p.0 p.1 ∙ q.1,
        q.2,
        omega (arith, f.seqnum_bound, q.3),
        omega (arith, f.usage_kept, q.4),
      )

  -- One call; a loop gets two rounds for each update.
  unfoldable pub call : Call Aux → FlowTracker Aux → Outcome Aux
  call (updates timestamp us) t = update_flows c (2 * length us) timestamp us t
  call (finalizes timestamp us) t = elim (finalize_flows c timestamp us t) [
    | none ↦ stopped
    | some next ↦ finished next
  ]

  unfoldable pub run_calls : List (Call Aux) → FlowTracker Aux → Outcome Aux
  run_calls [] t = finished t
  run_calls (x ∷ xs) t = elim (call x t) [
    | finished next ↦ run_calls xs next
    | stopped ↦ stopped
    | out_of_fuel ↦ out_of_fuel
  ]

  run_calls-next :
      (x : Call Aux) (xs : List (Call Aux)) (before t : FlowTracker Aux)
      → call x before ≡ finished t
      → run_calls (x ∷ xs) before ≡ run_calls xs t
  unfolding run_calls
  run_calls-next x xs before t e = rw (run_calls, e) refl

  finalizes-finished :
      (timestamp : ℕ) (us : List (FlowUpdate Aux)) (before t : FlowTracker Aux)
      → finalize_flows c timestamp us before ≡ some t
      → call (finalizes timestamp us) before ≡ finished t
  unfolding call
  finalizes-finished timestamp us before t e = rw (call, e) refl

  run_calls-from :
      (xs : List (Call Aux)) (before : FlowTracker Aux)
      → HasPriorities xs
      → before.next_seqnum + 2 * number_of_updates xs < 2 ^ 64
      → IsTracker before
      → (t : FlowTracker Aux) × (run_calls xs before ≡ finished t)
        × IsTracker t
        × (over_flows usage_of before ≤ over_flows usage_of t)
  unfolding run_calls call
  run_calls-from [] before h b i = (before, refl, i, omega arith)
  run_calls-from (updates timestamp us ∷ xs) before h b i =
      let p =
        update_flows-finishes c (2 * length us) timestamp us before (omega arith) h.0 (omega arith)
          i in
      let q = run_calls-from xs p.0 h.1 (omega (arith, p.3)) p.2 in
      (
        q.0,
        run_calls-next (updates timestamp us) xs before p.0 p.1 ∙ q.1,
        q.2,
        omega (arith, p.4, q.3),
      )
  run_calls-from (finalizes timestamp us ∷ xs) before h b i =
      let p = finalize_flows-finishes timestamp us before (omega arith) i in
      let q = run_calls-from xs p.0 h (omega (arith, p.3)) p.2 in
      (
        q.0,
        run_calls-next (finalizes timestamp us) xs before p.0
              (finalizes-finished timestamp us before p.0 p.1)
            ∙ q.1,
        q.2,
        omega (arith, p.4, q.3),
      )

  -- From a new tracker, after any calls with fewer than 2^63 updates in all, of which those to flows
  -- that go on have a priority: every loop has ended, no check has stopped the process, the active
  -- flows are a map, no two flows, active or done, have one sequence number, and the usage of each
  -- active flow is the sum of its two priorities.
  pub run_calls-IsTracker :
      (xs : List (Call Aux))
      → HasPriorities xs
      → 2 * number_of_updates xs < 2 ^ 64
      → (t : FlowTracker Aux) × (run_calls xs new_tracker ≡ finished t) × IsTracker t
  unfolding new_tracker
  run_calls-IsTracker xs h b =
      let p = run_calls-from xs new_tracker h (omega arith) (record {
        keyed = λ k. omega arith;
        unique = λ n. omega arith;
        fresh = λ n g. omega arith;
        accounted = tt;
      }) in
      (p.0, p.1, p.2)
