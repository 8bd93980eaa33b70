-- ===== src/Tracker/Rounds.antt =====
-- `UpdateFlows` and `FinalizeFlows` of heyp/host-agent/flow-tracker.cc: the loop ends, no check stops
-- the process, and no usage is lost.
use heyp_agents.Prelude.Maps.{lookup}
use heyp_agents.Prelude.{
  ℕ, zero, suc, ◌+◌, ◌*◌, ◌^◌, ◌≤◌, ◌<◌, ◌≡◌, ◌≢◌, ◌⊎◌, inl, inr, refl, ◌∙◌, true, false, Bool,
  List, [], ◌∷◌, All, length, none, some, ltb, Bool-cases, arith,
}
use heyp_agents.Flows.Counters.{IsAccounted, leaf_update_usage-grows}
use heyp_agents.Tracker.{
  k_unset, Leaf, FlowUpdate, FlowTracker, Config, active_keys, goes_on, again, finished,
  ensure_active, move_to_done, set_active, is_lo, to_leaf_update, update_leaf, use_update_of,
  update_round, update_flows,
}
use heyp_agents.Tracker.Moves.{
  over_flows, usage_of, IsTracker, IsEnsured, move_to_done-IsTracker, set_active-IsTracker,
  ensure_active-IsEnsured,
}

module _ {Aux : Type 0} where
  -- A tracker behind another: at most one more number is given, and no usage is lost.
  pub record Follows (before t : FlowTracker Aux) : Type 0 where
    pub tracker : IsTracker t
    pub seqnum_bound : t.next_seqnum ≤ before.next_seqnum + 1
    pub usage_kept : over_flows usage_of before ≤ over_flows usage_of t

  abbrev pub HasPriority : FlowUpdate Aux → Type 0
  HasPriority u = u.used_priority ≢ k_unset

module _ {Aux : Type 0} (c : Config) where
  pub update_leaf-some :
      (timestamp : ℕ) (u : FlowUpdate Aux) (b : Bool) (leaf : Leaf Aux)
      → IsAccounted leaf.state
      → (new : Leaf Aux) × (update_leaf c timestamp u b leaf ≡ some new)
        × IsAccounted new.state
        × (usage_of leaf ≤ usage_of new)
        × (new.flow ≡ leaf.flow)
  unfolding update_leaf
  update_leaf-some timestamp u b leaf i =
      let p =
        leaf_update_usage-grows c.math c.demand_predictor c.usage_history_window
          (to_leaf_update c timestamp u b) leaf.state i in
      (record leaf { state = p.0 }, rw (update_leaf, p.1) refl, p.2, p.3, refl)

  use_update_of-goes_on :
      (timestamp : ℕ) (u : FlowUpdate Aux) (before : FlowTracker Aux) (leaf : Leaf Aux)
      (t : FlowTracker Aux)
      → IsEnsured u.flow before leaf t
      → (r : FlowTracker Aux) × (use_update_of c timestamp u leaf t ≡ goes_on r) × Follows before r
  unfolding use_update_of set_active
  use_update_of-goes_on timestamp u before leaf t e =
      let p = update_leaf-some timestamp u (is_lo u.used_priority) leaf e.leaf_accounted in
      let q = set_active-IsTracker u.flow leaf p.0 t e.found p.4 p.2 e.tracker in
      (
        set_active u.flow p.0 t,
        rw (use_update_of, p.1) refl,
        record {
          tracker = q.0;
          seqnum_bound = e.seqnum_bound;
          usage_kept = omega (arith, q.1, p.3, e.same_usage);
        },
      )

  update_round-race :
      (timestamp : ℕ) (u : FlowUpdate Aux) (before : FlowTracker Aux)
      → ltb u.cum_usage_bytes (ensure_active u.flow before).0.state.cur.cum_usage_bytes ≡ true
      → update_round c timestamp u before
        ≡ again
            (move_to_done u.flow (ensure_active u.flow before).0 (ensure_active u.flow before).1)
  unfolding update_round
  update_round-race timestamp u before e = rw (update_round, e) refl

  update_round-used :
      (timestamp : ℕ) (u : FlowUpdate Aux) (before : FlowTracker Aux)
      → u.used_priority ≢ k_unset
      → ltb u.cum_usage_bytes (ensure_active u.flow before).0.state.cur.cum_usage_bytes ≡ false
      → update_round c timestamp u before
        ≡ use_update_of c timestamp u
            (ensure_active u.flow before).0
            (ensure_active u.flow before).1
  unfolding update_round
  update_round-used timestamp u before h e = ground arith

  -- A round of the loop goes on, or it runs again on a flow that was active and no longer is.
  update_round-cases :
      (timestamp : ℕ) (u : FlowUpdate Aux) (before : FlowTracker Aux)
      → u.used_priority ≢ k_unset
      → before.next_seqnum + 1 < 2 ^ 64
      → IsTracker before
      → ((r : FlowTracker Aux) × (update_round c timestamp u before ≡ goes_on r) × Follows before r)
        ⊎ ((r : FlowTracker Aux) × (update_round c timestamp u before ≡ again r)
            × Follows before r
            × (lookup u.flow r.active_flows ≡ none)
            × (lookup u.flow before.active_flows ≢ none))
  unfolding ensure_active move_to_done
  update_round-cases timestamp u before h b i =
      let leaf = (ensure_active u.flow before).0 in
      let t = (ensure_active u.flow before).1 in
      let e = ensure_active-IsEnsured u.flow before b i in
      elim (Bool-cases (ltb u.cum_usage_bytes leaf.state.cur.cum_usage_bytes)) [
        | inl r ↦
            let q = move_to_done-IsTracker u.flow leaf t e.found e.tracker in
            inr (
              move_to_done u.flow leaf t,
              update_round-race timestamp u before r,
              record {
                tracker = q.0;
                seqnum_bound = e.seqnum_bound;
                usage_kept = omega (arith, q.1, e.same_usage);
              },
              q.2,
              λ z. ground (arith, r, e.new_is_unused z),
            )
        | inr r ↦
            let p = use_update_of-goes_on timestamp u before leaf t e in
            inl (p.0, update_round-used timestamp u before h r ∙ p.1, p.2)
      ]

  update_flows-goes_on :
      (fuel timestamp : ℕ) (u : FlowUpdate Aux) (us : List (FlowUpdate Aux))
      (before r : FlowTracker Aux)
      → update_round c timestamp u before ≡ goes_on r
      → update_flows c (suc fuel) timestamp (u ∷ us) before ≡ update_flows c fuel timestamp us r
  unfolding update_flows
  update_flows-goes_on fuel timestamp u us before r e = rw (update_flows, e) refl

  update_flows-again :
      (fuel timestamp : ℕ) (u : FlowUpdate Aux) (us : List (FlowUpdate Aux))
      (before r : FlowTracker Aux)
      → update_round c timestamp u before ≡ again r
      → update_flows c (suc fuel) timestamp (u ∷ us) before
        ≡ update_flows c fuel timestamp (u ∷ us) r
  unfolding update_flows
  update_flows-again fuel timestamp u us before r e = rw (update_flows, e) refl

  -- Two rounds for an update are enough.
  update_flows-two_rounds :
      (timestamp : ℕ) (u : FlowUpdate Aux) (us : List (FlowUpdate Aux)) (fuel : ℕ)
      (before : FlowTracker Aux)
      → u.used_priority ≢ k_unset
      → before.next_seqnum + 2 < 2 ^ 64
      → IsTracker before
      → (t : FlowTracker Aux) × (left : ℕ) × (update_flows c
            (suc (suc fuel))
            timestamp
            (u ∷ us)
            before
          ≡ update_flows c left timestamp us t)
        × (fuel ≤ left)
        × IsTracker t
        × (t.next_seqnum ≤ before.next_seqnum + 2)
        × (over_flows usage_of before ≤ over_flows usage_of t)
  update_flows-two_rounds timestamp u us fuel before h b i =
      elim (update_round-cases timestamp u before h (omega arith) i) [
        | inl (t, e, f) ↦ (
          t,
          suc fuel,
          update_flows-goes_on (suc fuel) timestamp u us before t e,
          omega arith,
          f.tracker,
          omega (arith, f.seqnum_bound),
          f.usage_kept,
        )
        | inr (r, e, f, gone, _) ↦
            let first = update_flows-again (suc fuel) timestamp u us before r e in
            elim (update_round-cases timestamp u r h (omega (arith, f.seqnum_bound)) f.tracker) [
              | inl (t, q, g) ↦ (
                t,
                fuel,
                first ∙ update_flows-goes_on fuel timestamp u us r t q,
                omega arith,
                g.tracker,
                omega (arith, f.seqnum_bound, g.seqnum_bound),
                omega (arith, f.usage_kept, g.usage_kept),
              )
              | inr (t, q, g, _, was) ↦ absurd (was gone)
            ]
      ]

  -- A batch whose updates all have a priority: two rounds for each update are enough fuel, however
  -- much more there is, and no check stops the process. Sequence numbers stay unique, and no usage
  -- that is accounted for, in flows active or done, is lost.
  pub update_flows-finishes :
      (fuel timestamp : ℕ) (us : List (FlowUpdate Aux)) (before : FlowTracker Aux)
      → 2 * length us ≤ fuel
      → All HasPriority us
      → before.next_seqnum + 2 * length us < 2 ^ 64
      → IsTracker before
      → (t : FlowTracker Aux) × (update_flows c fuel timestamp us before ≡ finished t)
        × IsTracker t
        × (t.next_seqnum ≤ before.next_seqnum + 2 * length us)
        × (over_flows usage_of before ≤ over_flows usage_of t)
  unfolding update_flows
  update_flows-finishes zero timestamp [] before f h b i =
      (before, refl, i, omega arith, omega arith)
  update_flows-finishes (suc fuel) timestamp [] before f h b i =
      (before, refl, i, omega arith, omega arith)
  update_flows-finishes zero timestamp (u ∷ us) before f h b i = absurd (omega arith)
  update_flows-finishes (suc zero) timestamp (u ∷ us) before f h b i = absurd (omega arith)
  update_flows-finishes (suc (suc fuel)) timestamp (u ∷ us) before f h b i =
      let p = update_flows-two_rounds timestamp u us fuel before h.0 (omega arith) i in
      let q =
        update_flows-finishes p.1 timestamp us p.0 (omega (arith, p.3)) h.1 (omega (arith, p.5))
          p.4 in
      (q.0, p.2 ∙ q.1, q.2, omega (arith, p.5, q.3), omega (arith, p.6, q.4))
