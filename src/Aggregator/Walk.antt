-- ===== src/Aggregator/Walk.antt =====
-- `FlowAggregator::ForEachAgg` of heyp/flows/aggregator.cc on the list of bundles that the parallel
-- indexed map stands for.
use heyp_agents.Prelude.Maps.{KeyEq, IsMap, IsMap-assign, assign}
use heyp_agents.Prelude.{
  ℕ, zero, suc, ◌+◌, ◌≤◌, ◌<◌, ◌≡◌, refl, ap, sym, ◌∙◌, subst, List, [], ◌∷◌, length, total, Option,
  none, some, arith,
}
use heyp_agents.Markers.{FlowMarker}
use heyp_agents.Threads.ParIndexedMap.{ParIndexedMap, Visitor, on_id}
use heyp_agents.Threads.ParIndexedMap.Slots.{put, slot}
use heyp_agents.Threads.ParIndexedMap.Represents.{Represents}
use heyp_agents.Threads.ParIndexedMap.Calls.{Agree, list_on_id, on_id-Agree}
use heyp_agents.Threads.ParIndexedMap.Visits.{on_ids}
use heyp_agents.Aggregator.{
  flow_keys, BundleState, Report, AggWip, TimedFlows, get_agg_wip, add_flows, add_bundle,
  add_active, add_dead,
}
use heyp_agents.Aggregator.Bundles.{weigh}
use heyp_agents.Aggregator.Sums.{hipri_of, lopri_of, wip_counters, add_bundle-counters}

module _ {K : Type 0} {V : Type 0} (d : V) where
  put-slot : (l : List (K × V)) (i : ℕ) → put l i (slot d l i) ≡ l
  put-slot [] i = refl
  put-slot (x ∷ l) zero = refl
  put-slot (x ∷ l) (suc i) = ap (λ l. x ∷ l) (put-slot l i)

  pub total-put :
      (g : V → ℕ) (l : List (K × V)) (i : ℕ) (v : V)
      → i < length l
      → total (λ x. g x.1) (put l i v) + g (slot d l i) ≡ total (λ x. g x.1) l + g v
  total-put g [] i v h = ground arith
  total-put g (x ∷ l) zero v h = omega arith
  total-put g (x ∷ l) (suc i) v h = omega (arith, total-put g l i v (omega arith))

  -- The sum over a number of places.
  abbrev slots_total : (V → ℕ) → ℕ → ℕ → List (K × V) → ℕ
  slots_total g zero i l = 0
  slots_total g (suc n) i l = g (slot d l i) + slots_total g n (suc i) l

  slots_total-later :
      (g : V → ℕ) (n i : ℕ) (x : K × V) (l : List (K × V))
      → slots_total g n (suc i) (x ∷ l) ≡ slots_total g n i l
  slots_total-later g zero i x l = refl
  slots_total-later g (suc n) i x l = omega (arith, slots_total-later g n (suc i) x l)

  slots_total-all :
      (g : V → ℕ) (l : List (K × V)) → slots_total g (length l) 0 l ≡ total (λ x. g x.1) l
  slots_total-all g [] = refl
  slots_total-all g (x ∷ l) =
      omega (arith, slots_total-later g (length l) 0 x l, slots_total-all g l)

module _ {K : Type 0} {V : Type 0} {S : Type 0} (d : V) ⦃e : KeyEq K⦄ (func : Visitor S V) where
  -- What a visitor that changes no value has seen of a number of ids.
  abbrev pub walk : ℕ → ℕ → S → List (K × V) → S
  walk zero id st l = st
  walk (suc n) id st l = walk n (suc id) (func id st (slot d l id)).0 l

  pub Agree-there :
      (x : S × List (K × V)) (o : Option (S × ParIndexedMap K V))
      → Agree d (some x) o
      → (y : S × ParIndexedMap K V) × (o ≡ some y) × (x.0 ≡ y.0) × Represents d x.1 y.1
  Agree-there x none h = absurd h
  Agree-there x (some y) h = (y, refl, h.0, h.1)

  on_id-keeps :
      (id : ℕ) (st : S) (l : List (K × V)) (m : ParIndexedMap K V)
      → Represents d l m
      → length l ≤ 1000000
      → id < length l
      → (func id st (slot d l id)).1 ≡ slot d l id
      → (n : ParIndexedMap K V) × (on_id func id (st, m) ≡ some ((func id st (slot d l id)).0, n))
        × Represents d l n
  on_id-keeps id st l m r b h k =
      let p = func id st (slot d l id) in
      let t : list_on_id d func id (st, l) ≡ some (p.0, l) =
        ground (arith, h, ap (put l id) k, put-slot d l id) in
      let a = on_id-Agree d func id st l m r b in
      let y = Agree-there (p.0, l) _ (subst (λ x. Agree d x (on_id func id (st, m))) t a) in
      (y.0.1, y.1 ∙ ap (λ s. some (s, y.0.1)) (sym y.2), y.3)

  pub on_ids-walk :
      (n id : ℕ) (st : S) (l : List (K × V)) (m : ParIndexedMap K V)
      → Represents d l m
      → length l ≤ 1000000
      → id + n ≤ length l
      → ((i : ℕ) (s : S) (v : V) → (func i s v).1 ≡ v)
      → (after : ParIndexedMap K V) × (on_ids func n id (st, m) ≡ some (walk n id st l, after))
        × Represents d l after
  unfolding on_ids
  on_ids-walk zero id st l m r b h k = (m, refl, r)
  on_ids-walk (suc n) id st l m r b h k =
      let v = slot d l id in
      let y = on_id-keeps id st l m r b (omega (arith, h)) (k id st v) in
      let rest = on_ids-walk n (suc id) (func id st v).0 l y.0 y.2 b (omega (arith, h)) k in
      let next : id + 1 ≡ suc id = omega arith in
      (
        rest.0,
        ground (arith, y.1, rest.1, ap (λ i. on_ids func n i ((func id st v).0, y.0)) next),
        rest.2,
      )

module _ {Aux : Type 0} (agg : FlowMarker → FlowMarker) where
  -- What the flows of an aggregate report together, in all bundles.
  abbrev pub sum_hipri : FlowMarker → List (FlowMarker × BundleState Aux) → ℕ
  sum_hipri a l = total (λ x. weigh (hipri_of agg a) x.1) l

  abbrev pub sum_lopri : FlowMarker → List (FlowMarker × BundleState Aux) → ℕ
  sum_lopri a l = total (λ x. weigh (lopri_of agg a) x.1) l

module _ {Aux : Type 0} (d : BundleState Aux) (agg : FlowMarker → FlowMarker) where
  walk-counters :
      (a : FlowMarker) (n id : ℕ) (wips : List (FlowMarker × AggWip Aux))
      (l : List (FlowMarker × BundleState Aux))
      → let after = wip_counters agg a (walk d (add_bundle agg) n id wips l) in
        (after.0 ≡ (wip_counters agg a wips).0 + slots_total d (weigh (hipri_of agg a)) n id l)
        × (after.1 ≡ (wip_counters agg a wips).1 + slots_total d (weigh (lopri_of agg a)) n id l)
  walk-counters a zero id wips l = (omega arith, omega arith)
  walk-counters a (suc n) id wips l =
      let v = slot d l id in
      let one = add_bundle-counters agg a id v wips in
      let rest = walk-counters a n (suc id) (add_bundle agg id wips v).0 l in
      (omega (arith, one.0, rest.0), omega (arith, one.1, rest.1))

  -- From no aggregates on, the counters of an aggregate are its sums.
  pub walk-sums :
      (a : FlowMarker) (l : List (FlowMarker × BundleState Aux))
      → let after = wip_counters agg a (walk d (add_bundle agg) (length l) 0 [] l) in
        (after.0 ≡ sum_hipri agg a l) × (after.1 ≡ sum_lopri agg a l)
  walk-sums a l =
      let c = walk-counters a (length l) 0 [] l in
      (
        omega (arith, c.0, slots_total-all d (weigh (hipri_of agg a)) l),
        omega (arith, c.1, slots_total-all d (weigh (lopri_of agg a)) l),
      )

  add_flows-IsMap :
      (add : ℕ × Report Aux → AggWip Aux → AggWip Aux) (flows : TimedFlows Aux)
      (wips : List (FlowMarker × AggWip Aux))
      → IsMap wips
      → IsMap (add_flows agg add flows wips)
  unfolding add_flows
  add_flows-IsMap add [] wips h = h
  add_flows-IsMap add (x ∷ flows) wips h =
      add_flows-IsMap add flows (assign (agg x.0) (add x.1 (get_agg_wip agg x.0 wips)) wips)
        (IsMap-assign (agg x.0) (add x.1 (get_agg_wip agg x.0 wips)) wips h)

  pub walk-IsMap :
      (n id : ℕ) (wips : List (FlowMarker × AggWip Aux)) (l : List (FlowMarker × BundleState Aux))
      → IsMap wips
      → IsMap (walk d (add_bundle agg) n id wips l)
  unfolding add_bundle
  walk-IsMap zero id wips l h = h
  walk-IsMap (suc n) id wips l h =
      let v = slot d l id in
      let active = add_flows-IsMap add_active v.active wips h in
      walk-IsMap n (suc id) (add_bundle agg id wips v).0 l
        (add_flows-IsMap add_dead v.dead (add_flows agg add_active v.active wips) active)
