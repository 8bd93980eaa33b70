-- ===== src/Flows/History.antt =====
-- The usage history of a leaf (heyp/flows/state.cc) over any updates.
use heyp_agents.Prelude.{
  ℕ, ◌+◌, ◌-◌, ◌*◌, ◌≤◌, ◌≡◌, ◌∙◌, ◌⊎◌, refl, sym, subst, true, false, List, [], ◌∷◌, ◌++◌, All,
  All-append, some, ltb, leb, arith, Bool-cases, inl, inr,
}
use heyp_agents.Flows.{
  RateMath, DemandPredictor, UsageHistoryEntry, Update, AggState, drop_before, collect,
  set_counters, record_usage, use_update, new_agg_state,
}
use heyp_agents.Flows.Leaf.{LeafUpdate, leaf_update, new_leaf_state}
use heyp_agents.Flows.Counters.{run_leaf, run_leaf-keeps}

-- The entries are in the order of their times.
abbrev pub IsOrdered : List UsageHistoryEntry → Type 0
IsOrdered [] = Unit {0}
IsOrdered (e ∷ history) = All (λ f. e.time ≤ f.time) history × IsOrdered history

-- Ordered, none after a time, and none more than two windows before it.
abbrev pub IsRecent : ℕ → ℕ → List UsageHistoryEntry → Type 0
IsRecent window now history =
    IsOrdered history
    × All (λ e. e.time ≤ now) history
    × All (λ e. now ≤ e.time + 2 * window) history

IsOrdered-append :
    (history : List UsageHistoryEntry) (e : UsageHistoryEntry)
    → IsOrdered history
    → All (λ f. f.time ≤ e.time) history
    → IsOrdered (history ++ e ∷ [])
IsOrdered-append [] e o h = (tt, tt)
IsOrdered-append (f ∷ history) e o h = (
  All-append (λ x. f.time ≤ x.time) history (e ∷ []) o.0 (h.0, tt),
  IsOrdered-append history e o.1 h.1,
)

All-later :
    (a b : ℕ) (history : List UsageHistoryEntry)
    → a ≤ b
    → All (λ e. b ≤ e.time) history
    → All (λ e. a ≤ e.time) history
All-later a b [] h k = tt
All-later a b (e ∷ history) h k = (omega (arith, h, k.0), All-later a b history h k.1)

All-near :
    (now window : ℕ) (history : List UsageHistoryEntry)
    → All (λ e. now - 2 * window ≤ e.time) history
    → All (λ e. now ≤ e.time + 2 * window) history
All-near now window [] k = tt
All-near now window (e ∷ history) k = (omega (arith, k.0), All-near now window history k.1)

drop_before-lem :
    (min now : ℕ) (history : List UsageHistoryEntry)
    → IsOrdered history
    → All (λ e. e.time ≤ now) history
    → let kept = drop_before min history in
      IsOrdered kept × All (λ e. e.time ≤ now) kept × All (λ e. min ≤ e.time) kept
unfolding drop_before
drop_before-lem min now [] o h = (tt, tt, tt)
drop_before-lem min now (e ∷ history) o h = elim (Bool-cases (leb min e.time)) [
  | inl p ↦ rw p (o, h, (ground arith, All-later min e.time history (ground arith) o.0))
  | inr p ↦ rw p (drop_before-lem min now history o.1 h.1)
]

collect-IsRecent :
    (now window : ℕ) (history : List UsageHistoryEntry)
    → IsOrdered history
    → All (λ e. e.time ≤ now) history
    → IsRecent window now (collect now window history)
unfolding collect
collect-IsRecent now window [] o h = (tt, tt, tt)
collect-IsRecent now window (e ∷ history) o h =
    elim (Bool-cases (ltb (2 * window) (now - e.time))) [
      | inl p ↦
          let k = drop_before-lem (now - window) now (e ∷ history) o h in
          rw (collect, p)
            (
              k.0,
              k.1,
              All-near now window _
                  (All-later (now - 2 * window) (now - window) _ (omega arith) k.2),
            )
      | inr p ↦
          rw (collect, p)
            (
              o,
              h,
              (
                ground arith,
                All-near now window history
                    (All-later (now - 2 * window) e.time history (ground arith) o.0),
              ),
            )
    ]

All-before :
    (a b : ℕ) (history : List UsageHistoryEntry)
    → a ≤ b
    → All (λ e. e.time ≤ a) history
    → All (λ e. e.time ≤ b) history
All-before a b [] h k = tt
All-before a b (e ∷ history) h k = (omega (arith, h, k.0), All-before a b history h k.1)

-- An entry for the time of the update goes behind the others before old ones are collected.
pushed-IsRecent :
    (window before now bps : ℕ) (history : List UsageHistoryEntry)
    → before ≤ now
    → IsRecent window before history
    → IsRecent window now (collect now window (history ++ record { time = now; bps = bps } ∷ []))
pushed-IsRecent window before now bps history h r =
    let e : UsageHistoryEntry = record { time = now; bps = bps } in
    let older = All-before before now history h r.1 in
    collect-IsRecent now window (history ++ e ∷ []) (IsOrdered-append history e r.0 older)
      (All-append (λ x. x.time ≤ now) history (e ∷ []) older (omega arith, tt))

later :
    {Aux : Type 0} (u : LeafUpdate Aux) (s : AggState Aux)
    → s.updated_time ≤ u.time
    → s.updated_time ≤ (leaf_update u s).time
unfolding leaf_update
later u s h = h

module _ {Aux : Type 0} (m : RateMath) (predictor : DemandPredictor) (window : ℕ) where
  -- The history is recent, and empty where no update was used yet.
  abbrev pub IsKept : AggState Aux → Type 0
  IsKept s =
      IsRecent window s.updated_time s.usage_history
      × ((s.was_updated ≡ false) → s.usage_history ≡ [])

  -- An update that is used sets the time, and pushes the usage unless it is the first one.
  use_update-pushes :
      (u : Update Aux) (s : AggState Aux)
      → let t = use_update m predictor window u s in
        (t.updated_time ≡ u.time)
        × (t.was_updated ≡ true)
        × (((s.was_updated ≡ false) × (t.usage_history ≡ s.usage_history))
            ⊎ (t.usage_history
                ≡ collect u.time window
                    (s.usage_history ++ record { time = u.time; bps = t.cur.ewma_usage_bps } ∷ [])))
  unfolding use_update record_usage set_counters
  use_update-pushes u s = ground arith

  IsKept-pushes :
      (u : Update Aux) (s t : AggState Aux)
      → s.updated_time ≤ u.time
      → IsKept s
      → ((s.was_updated ≡ false) × (t.usage_history ≡ s.usage_history))
        ⊎ (t.usage_history
            ≡ collect u.time window
                (s.usage_history ++ record { time = u.time; bps = t.cur.ewma_usage_bps } ∷ []))
      → IsRecent window u.time t.usage_history
  IsKept-pushes u s t h k (inl (e, q)) =
      subst (IsRecent window u.time) (sym (q ∙ k.1 e)) (tt, tt, tt)
  IsKept-pushes u s t h k (inr q) =
      subst (IsRecent window u.time) (sym q)
        (pushed-IsRecent window s.updated_time u.time _ s.usage_history h k.0)

  use_update-IsKept :
      (u : Update Aux) (s : AggState Aux)
      → s.updated_time ≤ u.time
      → IsKept s
      → IsKept (use_update m predictor window u s)
  use_update-IsKept u s h k =
      let t = use_update m predictor window u s in
      let p = use_update-pushes u s in
      (
        subst (λ now. IsRecent window now t.usage_history) (sym p.0) (IsKept-pushes u s t h k p.2),
        λ e. ground (arith, p.1, e),
      )

  -- A new leaf takes any updates, and its usage history is in the order of time, with no entry after
  -- the last update and none more than two windows before it.
  pub run_leaf-IsRecent :
      (us : List (LeafUpdate Aux))
      → (t : AggState Aux) × (run_leaf m predictor window us new_leaf_state ≡ some t)
        × IsRecent window t.updated_time t.usage_history
  unfolding new_leaf_state new_agg_state
  run_leaf-IsRecent us =
      let r =
        run_leaf-keeps m predictor window IsKept us new_leaf_state
          (λ u s h p. use_update-IsKept (leaf_update u s) s (later u s h) p) refl
          ((tt, tt, tt), λ e. refl) in
      (r.0, r.1, r.2.0)
