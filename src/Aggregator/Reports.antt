-- ===== src/Aggregator/Reports.antt =====
-- `Update` and `GetBundlerID` of heyp/flows/aggregator.cc.
use heyp_agents.Prelude.{
  ℕ, zero, suc, ◌/◌, ◌%◌, ◌≤◌, ◌<◌, ◌≡◌, refl, ap, sym, ◌∙◌, subst, Bool, true, List, [], ◌∷◌,
  length, total, total-append, some, arith, if◌then◌else◌, All, All-append, Option-cases,
  Bool-cases, inl, inr,
}
use heyp_agents.Markers.{FlowMarker}
use heyp_agents.Threads.ParIndexedMap.{ParIndexedMap, GetResult, value_at, on_id, k_span_size}
use heyp_agents.Threads.ParIndexedMap.Slots.{put, slot, find, length-put}
use heyp_agents.Threads.ParIndexedMap.Represents.{Represents, HoldsSpan-some}
use heyp_agents.Threads.ParIndexedMap.Calls.{
  Agree, list_get_id, list_on_id, on_id-Agree, get_id-Represents, list_get_id-there,
  list_get_id-new, length-list_get_id,
}
use heyp_agents.Threads.ParIndexedMap.Copy.{value_at-some}
use heyp_agents.Aggregator.{
  flow_keys, Report, BundleState, InfoBundle, Config, FlowAggregator, new_bundle, take_report,
  update_bundle, get_bundler_id, report_bundle, update,
}
use heyp_agents.Flows.{AggState}
use heyp_agents.Aggregator.Bundles.{IsBundle, weigh, Grows, update_bundle-Keeps}
use heyp_agents.Aggregator.Sums.{hipri_of, lopri_of}
use heyp_agents.Aggregator.Walk.{Agree-there, total-put}
use heyp_agents.Aggregator.States.{AreBelow}
use heyp_agents.Aggregator.Steps.{IsAggregator}

module _ {Aux : Type 0} (c : Config) where
  -- A bundle whose flows are valid and whose counters are at least what is known of them.
  abbrev pub IsGrown : InfoBundle Aux → BundleState Aux → Type 0
  IsGrown bundle bs =
      All (λ fi. c.is_valid_child fi.flow ≡ true) bundle.flow_infos
      × Grows (λ k r. r.info.cum_hipri_usage_bytes) bundle.timestamp bundle.flow_infos bs
      × Grows (λ k r. r.info.cum_lopri_usage_bytes) bundle.timestamp bundle.flow_infos bs

  All-slot :
      (l : List (FlowMarker × BundleState Aux)) (i : ℕ)
      → All (λ x. IsBundle x.1) l
      → IsBundle (slot new_bundle l i)
  All-slot [] i h = λ k. omega arith
  All-slot (x ∷ l) zero h = h.0
  All-slot (x ∷ l) (suc i) h = All-slot l i h.1

  All-put :
      (l : List (FlowMarker × BundleState Aux)) (i : ℕ) (t : BundleState Aux)
      → IsBundle t
      → All (λ x. IsBundle x.1) l
      → All (λ x. IsBundle x.1) (put l i t)
  All-put [] i t b h = tt
  All-put (x ∷ l) zero t b h = (b, h.1)
  All-put (x ∷ l) (suc i) t b h = (h.0, All-put l i t b h.1)

  AreBelow-more :
      (f g f' g' : FlowMarker → ℕ) (states : List (FlowMarker × AggState Aux))
      → ((a : FlowMarker) → f a ≤ f' a)
      → ((a : FlowMarker) → g a ≤ g' a)
      → AreBelow f g states
      → AreBelow f' g' states
  AreBelow-more f g f' g' states p q h a s e =
      (omega (arith, h a s e, p a), omega (arith, h a s e, q a))

  -- Only the flows of one aggregate.
  Grows-part :
      (w : FlowMarker → Report Aux → ℕ) (p : FlowMarker → Bool) (t : ℕ) (infos : List (Report Aux))
      (bs : BundleState Aux)
      → Grows w t infos bs
      → Grows (λ k r. if p k then w k r else 0) t infos bs
  Grows-part w p t [] bs g = tt
  Grows-part w p t (fi ∷ infos) bs g = (
    elim (Bool-cases (p fi.flow)) [ inl q ↦ ground (arith, q, g.0) | inr q ↦ ground (arith, q) ],
    Grows-part w p t infos (take_report t fi bs) g.1,
  )

  value_at-slot :
      (l : List (FlowMarker × BundleState Aux)) (m : ParIndexedMap FlowMarker (BundleState Aux))
      (id : ℕ)
      → Represents new_bundle l m
      → length l ≤ 1000000
      → id < length l
      → value_at m id ≡ some (slot new_bundle l id)
  value_at-slot l m id r b h =
      let si = id / k_span_size in
      let ei = id % k_span_size in
      let s = HoldsSpan-some new_bundle l si (m.spans si) (omega arith) (r.2 si (omega arith)) in
      value_at-some new_bundle m id s.0 s.1
      ∙ ap some (s.2.1 ei (omega arith) ∙ ap (slot new_bundle l) (omega arith))

  weigh-grown :
      (w : FlowMarker → Report Aux → ℕ) (bundle : InfoBundle Aux) (bs t : BundleState Aux)
      → IsBundle bs
      → All (λ fi. c.is_valid_child fi.flow ≡ true) bundle.flow_infos
      → Grows w bundle.timestamp bundle.flow_infos bs
      → update_bundle c bundle bs ≡ some t
      → weigh w bs ≤ weigh w t
  weigh-grown w bundle bs t i v g e =
      let k = update_bundle-Keeps w c bundle bs i v g in
      let p : k.0 ≡ t = ground (arith, k.1, e) in subst (λ x. weigh w bs ≤ weigh w x) p k.3

  list_on_id-report :
      (id : ℕ) (bundle : InfoBundle Aux) (l : List (FlowMarker × BundleState Aux))
      (t : BundleState Aux)
      → id < length l
      → update_bundle c bundle (slot new_bundle l id) ≡ some t
      → list_on_id new_bundle (report_bundle c bundle) id (true, l) ≡ some (true, put l id t)
  unfolding report_bundle
  list_on_id-report id bundle l t h e =
      let f : report_bundle c bundle id true (slot new_bundle l id) ≡ (true, t) =
        rw (report_bundle, e) refl in
      ground (arith, h, ap (λ p. p.0) f, ap (λ p. put l id p.1) f)

  update-some :
      (id : ℕ) (bundle : InfoBundle Aux) (a : FlowAggregator Aux)
      (y : Bool × ParIndexedMap FlowMarker (BundleState Aux))
      → on_id (report_bundle c bundle) id (true, a.bundle_states) ≡ some y
      → true ≡ y.0
      → update c id bundle a ≡ some (record a { bundle_states = y.1 })
  unfolding update
  update-some id bundle a y e t = rw (update, e) (rw (sym t) refl)

  pub update-IsAggregator :
      (id : ℕ) (bundle : InfoBundle Aux) (a : FlowAggregator Aux) (bs : BundleState Aux)
      → IsAggregator c a
      → id < a.bundle_states.len
      → value_at a.bundle_states id ≡ some bs
      → IsGrown bundle bs
      → (b : FlowAggregator Aux) × (update c id bundle a ≡ some b) × IsAggregator c b
  update-IsAggregator id bundle a bs (l, (r, b, i, s)) h v g =
      let agg = c.get_agg_flow_fn in
      let p : id < length l = omega (arith, h, r.0) in
      let sl = slot new_bundle l id in
      let e : bs ≡ sl = ground (arith, v, value_at-slot l a.bundle_states id r b p) in
      let j : IsBundle bs = subst IsBundle (sym e) (All-slot l id i) in
      let k = update_bundle-Keeps (λ k r. r.info.cum_hipri_usage_bytes) c bundle bs j g.0 g.1 in
      let f : update_bundle c bundle sl ≡ some k.0 = ap (update_bundle c bundle) (sym e) ∙ k.1 in
      let o =
        Agree-there new_bundle (report_bundle c bundle) (true, put l id k.0) _
          (subst
            (λ x. Agree new_bundle x (on_id (report_bundle c bundle) id (true, a.bundle_states)))
            (list_on_id-report id bundle l k.0 p f)
            (on_id-Agree new_bundle (report_bundle c bundle) id true l a.bundle_states r b)) in
      let hipri = λ (k' : FlowMarker).
        weigh-grown (hipri_of agg k') bundle bs k.0 j g.0
          (Grows-part _ (λ x. flow_keys.eq (agg x) k') _ _ bs g.1) k.1 in
      let lopri = λ (k' : FlowMarker).
        weigh-grown (lopri_of agg k') bundle bs k.0 j g.0
          (Grows-part _ (λ x. flow_keys.eq (agg x) k') _ _ bs g.2) k.1 in
      (
        record a { bundle_states = o.0.1 },
        update-some id bundle a o.0 o.1 o.2,
        (
          put l id k.0,
          (
            o.3,
            omega (arith, b, length-put l id k.0),
            All-put l id k.0 k.2 i,
            AreBelow-more _ _ _ _ a.agg_states
                (λ k'.
                  let w : BundleState Aux → ℕ = weigh (hipri_of agg k') in
                  omega (arith, hipri k', total-put new_bundle w l id k.0 p, ap w e))
                (λ k'.
                  let w : BundleState Aux → ℕ = weigh (lopri_of agg k') in
                  omega (arith, lopri k', total-put new_bundle w l id k.0 p, ap w e))
                s,
          ),
        ),
      )

  -- The bundles are as before, but for one that may be new and empty.
  abbrev AreSame :
      List (FlowMarker × BundleState Aux) → GetResult × List (FlowMarker × BundleState Aux) → Type 0
  AreSame l r =
      All (λ x. IsBundle x.1) r.1
      × ((g : BundleState Aux → ℕ)
          → g new_bundle ≡ 0
          → total (λ x. g x.1) r.1 ≡ total (λ x. g x.1) l)

  list_get_id-AreSame :
      (bundler : FlowMarker) (l : List (FlowMarker × BundleState Aux))
      → All (λ x. IsBundle x.1) l
      → AreSame l (list_get_id new_bundle bundler l)
  list_get_id-AreSame bundler l i = elim (Option-cases (find bundler l)) [
    | inl n ↦ subst (AreSame l) (sym (list_get_id-new new_bundle bundler l n)) (
      All-append (λ x. IsBundle x.1) l ((bundler, new_bundle) ∷ []) i ((λ k. omega arith), tt),
      λ g z. omega (arith, z, total-append (λ x. g x.1) l ((bundler, new_bundle) ∷ [])),
    )
    | inr (j, n) ↦
        subst (AreSame l) (sym (list_get_id-there new_bundle bundler l j n)) (i, λ g z. refl)
  ]

  pub get_bundler_id-IsAggregator :
      (bundler : FlowMarker) (a : FlowAggregator Aux)
      → IsAggregator c a
      → a.bundle_states.len < 1000000
      → (y : GetResult × FlowAggregator Aux) × (get_bundler_id c bundler a ≡ some y)
        × IsAggregator c y.1
  unfolding get_bundler_id
  get_bundler_id-IsAggregator bundler a (l, (r, b, i, s)) h =
      let agg = c.get_agg_flow_fn in
      let g = get_id-Represents new_bundle bundler l a.bundle_states r (omega (arith, h, r.0)) in
      let q = list_get_id new_bundle bundler l in
      let n = list_get_id-AreSame bundler l i in
      (
        (q.0, record a { bundle_states = g.0 }),
        rw (get_bundler_id, g.1) refl,
        (
          q.1,
          (
            g.2,
            omega (arith, length-list_get_id new_bundle bundler l, h, r.0),
            n.0,
            AreBelow-more _ _ _ _ a.agg_states
                (λ k'. omega (arith, n.1 (weigh (hipri_of agg k')) refl))
                (λ k'. omega (arith, n.1 (weigh (lopri_of agg k')) refl)) s,
          ),
        ),
      )
