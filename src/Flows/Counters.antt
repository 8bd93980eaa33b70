-- ===== src/Flows/Counters.antt =====
-- The byte counters of a leaf (heyp/flows/state.cc) over any updates.
use heyp_agents.Prelude.{
  ℕ, ◌+◌, ◌≤◌, ◌≡◌, refl, true, false, List, [], ◌∷◌, Option, none, some, max, ltb, if◌then◌else◌,
  arith, Bool-cases, inl, inr, ap, ◌∙◌,
}
use heyp_agents.Flows.{
  RateMath, DemandPredictor, Update, AggState, set_counters, record_usage, use_update, update_usage,
  new_agg_state,
}
use heyp_agents.Flows.Leaf.{LeafUpdate, leaf_update, leaf_update_usage, new_leaf_state}

module _ {Aux : Type 0} where
  -- The two priorities make up the usage.
  abbrev pub IsAccounted : AggState Aux → Type 0
  IsAccounted s = s.cur.cum_usage_bytes ≡ s.cur.cum_hipri_usage_bytes + s.cur.cum_lopri_usage_bytes

  -- The greatest counter of the updates that are not older than one before them.
  abbrev pub latest : ℕ → ℕ → List (LeafUpdate Aux) → ℕ
  latest time usage [] = usage
  latest time usage (u ∷ us) =
      if ltb u.time time
      then latest time usage us
      else latest u.time (max usage u.cum_usage_bytes) us

module _ {Aux : Type 0} (m : RateMath) (predictor : DemandPredictor) (window : ℕ) where
  -- All updates, in order.
  pub run_leaf : List (LeafUpdate Aux) → AggState Aux → Option (AggState Aux)
  run_leaf [] s = some s
  run_leaf (u ∷ us) s = elim (leaf_update_usage m predictor window u s) [
    | none ↦ none
    | some t ↦ run_leaf us t
  ]

  -- The state after an update that is used has the time and the counters of the update.
  pub use_update-counters :
      (u : Update Aux) (s : AggState Aux)
      → let t = use_update m predictor window u s in
        (t.updated_time ≡ u.time)
        × (t.cur.cum_usage_bytes ≡ u.cum_hipri_usage_bytes + u.cum_lopri_usage_bytes)
        × (t.cur.cum_hipri_usage_bytes ≡ u.cum_hipri_usage_bytes)
        × (t.cur.cum_lopri_usage_bytes ≡ u.cum_lopri_usage_bytes)
  unfolding use_update record_usage set_counters
  use_update-counters u s = ground arith

  -- What a leaf's state is after an update that is not older than the last one: the usage is the
  -- greater counter.
  pub leaf_update_usage-timely :
      (u : LeafUpdate Aux) (s : AggState Aux)
      → IsAccounted s
      → ltb u.time s.updated_time ≡ false
      → (leaf_update_usage m predictor window u s
          ≡ some (use_update m predictor window (leaf_update u s) s))
        × ((leaf_update u s).cum_hipri_usage_bytes + (leaf_update u s).cum_lopri_usage_bytes
            ≡ max s.cur.cum_usage_bytes u.cum_usage_bytes)
  unfolding leaf_update_usage update_usage leaf_update
  leaf_update_usage-timely u s i e = (ground arith, ground arith)

  pub leaf_update_usage-late :
      (u : LeafUpdate Aux) (s : AggState Aux)
      → ltb u.time s.updated_time ≡ true
      → leaf_update_usage m predictor window u s ≡ some s
  unfolding leaf_update_usage update_usage leaf_update
  leaf_update_usage-late u s e = rw (leaf_update_usage, update_usage, e) refl

  -- A state that is kept by each update that a leaf uses is kept by all updates of a leaf.
  pub run_leaf-keeps :
      (P : AggState Aux → Type 0) (us : List (LeafUpdate Aux)) (s : AggState Aux)
      → ((u : LeafUpdate Aux) (s : AggState Aux)
          → s.updated_time ≤ u.time
          → P s
          → P (use_update m predictor window (leaf_update u s) s))
      → IsAccounted s
      → P s
      → (t : AggState Aux) × (run_leaf us s ≡ some t)
        × P t
        × IsAccounted t
        × (t.cur.cum_usage_bytes ≡ latest s.updated_time s.cur.cum_usage_bytes us)
  unfolding run_leaf leaf_update
  run_leaf-keeps P [] s k i p = (s, refl, p, i, refl)
  run_leaf-keeps P (u ∷ us) s k i p = elim (Bool-cases (ltb u.time s.updated_time)) [
    | inl e ↦
        let r = run_leaf-keeps P us s k i p in
        (r.0, rw (run_leaf, leaf_update_usage-late u s e) r.1, r.2, r.3, rw e r.4)
    | inr e ↦
        let t = use_update m predictor window (leaf_update u s) s in
        let q = leaf_update_usage-timely u s i e in
        let c = use_update-counters (leaf_update u s) s in
        let j : IsAccounted t = omega (arith, c.1, c.2, c.3) in
        let r = run_leaf-keeps P us t k j (k u s (ground arith) p) in
        (
          r.0,
          rw (run_leaf, q.0) r.1,
          r.2,
          r.3,
          rw e (
              r.4
              ∙ ap (λ x. latest x t.cur.cum_usage_bytes us) c.0
              ∙ ap (λ y. latest u.time y us) (c.1 ∙ q.1)),
        )
  ]

  -- A new leaf takes any updates, with counters that go back and times that go back among them, and
  -- no check stops the process: its usage is the greatest counter of the updates that were not older
  -- than one before them, and the usage of the two priorities adds up to it.
  pub run_leaf-latest :
      (us : List (LeafUpdate Aux))
      → (t : AggState Aux) × (run_leaf us new_leaf_state ≡ some t)
        × IsAccounted t
        × (t.cur.cum_usage_bytes ≡ latest 0 0 us)
  unfolding new_leaf_state new_agg_state
  run_leaf-latest us =
      let r = run_leaf-keeps (λ s. Unit {0}) us new_leaf_state (λ u s h p. tt) refl tt in
      (r.0, r.1, r.3, r.4)

  -- A leaf whose counters add up takes any update, and its usage does not fall.
  pub leaf_update_usage-grows :
      (u : LeafUpdate Aux) (s : AggState Aux)
      → IsAccounted s
      → (t : AggState Aux) × (leaf_update_usage m predictor window u s ≡ some t)
        × IsAccounted t
        × (s.cur.cum_usage_bytes ≤ t.cur.cum_usage_bytes)
  leaf_update_usage-grows u s i = elim (Bool-cases (ltb u.time s.updated_time)) [
    | inl e ↦ (s, leaf_update_usage-late u s e, i, omega arith)
    | inr e ↦
        let q = leaf_update_usage-timely u s i e in
        let c = use_update-counters (leaf_update u s) s in
        (
          use_update m predictor window (leaf_update u s) s,
          q.0,
          omega (arith, c.1, c.2, c.3),
          omega (arith, c.1, q.1),
        )
  ]
