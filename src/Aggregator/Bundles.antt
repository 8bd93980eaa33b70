-- ===== src/Aggregator/Bundles.antt =====
-- What `FlowAggregator::Update` of heyp/flows/aggregator.cc does to a bundle.
use heyp_agents.Prelude.Maps.{
  lookup, erase, matches, weight, matches-none, matches-erase, matches-other, matches-assign,
  matches-assign_new, matches-erase_same, matches-common, matches-some, erase-none, weight-assign,
  weight-assign_new, weight-erase,
}
use heyp_agents.Prelude.{
  ℕ, ◌+◌, ◌≤◌, ◌≡◌, refl, ap, ◌∙◌, Bool, true, List, [], ◌∷◌, Option, none, some, arith,
  Option-cases, inl, inr, All,
}
use heyp_agents.Markers.{FlowMarker, all_options}
use heyp_agents.Markers.Laws.{marker_keys, is_same_flow_iff}
use heyp_agents.Aggregator.{
  flow_keys, Report, BundleState, InfoBundle, Config, take_report, take_reports, to_erase, bury,
  bury_all, update_bundle,
}

pub flow_keys-exact : (a b : FlowMarker) → flow_keys.eq a b ≡ true → a ≡ b
unfolding flow_keys marker_keys
flow_keys-exact a b h = (is_same_flow_iff a b all_options).0 h

module _ {Aux : Type 0} where
  -- A flow is in one of the two maps at most, and once.
  abbrev pub IsBundle : BundleState Aux → Type 0
  IsBundle bs = (k : FlowMarker) → matches k bs.active + matches k bs.dead ≤ 1

  -- The last report of a flow that is known.
  abbrev pub known : FlowMarker → BundleState Aux → Option (ℕ × Report Aux)
  known k bs = elim (lookup k bs.active) [ some x ↦ some x | none ↦ lookup k bs.dead ]

  take_report-IsBundle :
      (t : ℕ) (fi : Report Aux) (bs : BundleState Aux)
      → IsBundle bs
      → IsBundle (take_report t fi bs)
  unfolding take_report
  take_report-IsBundle t fi bs h k = elim (Option-cases (lookup fi.flow bs.active)) [
    | inl n ↦ ground (
      arith,
      n,
      h k,
      h fi.flow,
      matches-assign_new k fi.flow (t, fi) bs.active n,
      matches-other k fi.flow bs.active n,
      matches-erase k fi.flow bs.dead,
      matches-erase_same fi.flow bs.dead,
      matches-common fi.flow k (erase fi.flow bs.dead),
    )
    | inr (x, n) ↦ ground (arith, n, h k, matches-assign k fi.flow (t, fi) x bs.active n)
  ]

  bury-IsBundle :
      (t : ℕ) (m : FlowMarker) (bs : BundleState Aux) → IsBundle bs → IsBundle (bury t m bs)
  unfolding bury
  bury-IsBundle t m bs h k = elim (Option-cases (lookup m bs.active)) [
    | inl n ↦ ground (arith, n, h k)
    | inr (x, n) ↦
        let some_active = matches-some m x bs.active n in
        let d = matches-none m bs.dead (omega (arith, h m, some_active)) in
        ground (
          arith,
          n,
          h k,
          h m,
          some_active,
          matches-assign_new k m (t, x.1) bs.dead d,
          matches-other k m bs.dead d,
          matches-erase k m bs.active,
          matches-erase_same m bs.active,
          matches-common m k (erase m bs.active),
        )
  ]

  module _ (w : FlowMarker → Report Aux → ℕ) where
    -- What the last reports of a bundle weigh, of active and of dead flows.
    abbrev pub weigh : BundleState Aux → ℕ
    weigh bs = weight (λ k x. w k x.1) bs.active + weight (λ k x. w k x.1) bs.dead

    abbrev pub known_weight : FlowMarker → BundleState Aux → ℕ
    known_weight k bs = elim (known k bs) [ none ↦ 0 | some x ↦ w k x.1 ]

    take_report-weigh :
        (t : ℕ) (fi : Report Aux) (bs : BundleState Aux)
        → weigh (take_report t fi bs) + known_weight fi.flow bs ≡ weigh bs + w fi.flow fi
    unfolding take_report
    take_report-weigh t fi bs =
        let f : FlowMarker → ℕ × Report Aux → ℕ = λ k x. w k x.1 in
        elim (Option-cases (lookup fi.flow bs.active)) [
          | inl n ↦ elim (Option-cases (lookup fi.flow bs.dead)) [
            | inl d ↦ ground (
              arith,
              n,
              d,
              weight-assign_new f flow_keys-exact fi.flow (t, fi) bs.active n,
              ap (weight f) (erase-none fi.flow bs.dead d),
            )
            | inr (y, d) ↦ ground (
              arith,
              n,
              d,
              weight-assign_new f flow_keys-exact fi.flow (t, fi) bs.active n,
              weight-erase f flow_keys-exact fi.flow y bs.dead d,
            )
          ]
          | inr (x, n) ↦
              ground (arith, n, weight-assign f flow_keys-exact fi.flow (t, fi) x bs.active n)
        ]

    bury-weigh :
        (t : ℕ) (m : FlowMarker) (bs : BundleState Aux)
        → IsBundle bs
        → weigh (bury t m bs) ≡ weigh bs
    unfolding bury
    bury-weigh t m bs h =
        let f : FlowMarker → ℕ × Report Aux → ℕ = λ k x. w k x.1 in
        elim (Option-cases (lookup m bs.active)) [
          | inl n ↦ ground (arith, n)
          | inr (x, n) ↦
              let some_active = matches-some m x bs.active n in
              let d = matches-none m bs.dead (omega (arith, h m, some_active)) in
              ground (
                arith,
                n,
                weight-assign_new f flow_keys-exact m (t, x.1) bs.dead d,
                weight-erase f flow_keys-exact m x bs.active n,
              )
        ]

    -- Each report weighs at least what was known of its flow when it is taken.
    abbrev pub Grows : ℕ → List (Report Aux) → BundleState Aux → Type 0
    Grows t [] bs = Unit
    Grows t (fi ∷ infos) bs =
        (known_weight fi.flow bs ≤ w fi.flow fi) × Grows t infos (take_report t fi bs)

    abbrev pub Keeps : BundleState Aux → Option (BundleState Aux) → Type 0
    Keeps bs o = (t : BundleState Aux) × (o ≡ some t) × IsBundle t × (weigh bs ≤ weigh t)

    take_reports-Keeps :
        (valid : FlowMarker → Bool) (t : ℕ) (infos : List (Report Aux)) (bs : BundleState Aux)
        → IsBundle bs
        → All (λ fi. valid fi.flow ≡ true) infos
        → Grows t infos bs
        → Keeps bs (take_reports valid t infos bs)
    unfolding take_reports
    take_reports-Keeps valid t [] bs h v g = (bs, refl, h, omega arith)
    take_reports-Keeps valid t (fi ∷ infos) bs h v g =
        let next = take_report t fi bs in
        let r = take_reports-Keeps valid t infos next (take_report-IsBundle t fi bs h) v.1 g.1 in
        (r.0, ground (arith, r.1, v.0), r.2, omega (arith, r.3, g.0, take_report-weigh t fi bs))

    bury_all-Keeps :
        (t : ℕ) (ms : List FlowMarker) (bs : BundleState Aux)
        → IsBundle bs
        → IsBundle (bury_all t ms bs) × (weigh (bury_all t ms bs) ≡ weigh bs)
    unfolding bury_all
    bury_all-Keeps t [] bs h = (h, refl)
    bury_all-Keeps t (m ∷ ms) bs h =
        let r = bury_all-Keeps t ms (bury t m bs) (bury-IsBundle t m bs h) in
        (r.0, r.1 ∙ bury-weigh t m bs h)

    -- An update of valid flows, none of which weighs less than what is known of it, does not stop the
    -- process; each flow stays in one of the two maps at most, and what the last reports of the bundle
    -- weigh together does not shrink, though flows are moved from map to map: so it is with each of
    -- the counters of an aggregate.
    pub update_bundle-Keeps :
        (c : Config) (bundle : InfoBundle Aux) (bs : BundleState Aux)
        → IsBundle bs
        → All (λ fi. c.is_valid_child fi.flow ≡ true) bundle.flow_infos
        → Grows bundle.timestamp bundle.flow_infos bs
        → Keeps bs (update_bundle c bundle bs)
    unfolding update_bundle
    update_bundle-Keeps c bundle bs h v g =
        let t = bundle.timestamp in
        let r = take_reports-Keeps c.is_valid_child t bundle.flow_infos bs h v g in
        let old = to_erase c.usage_history_window t r.0.active in
        let b = bury_all-Keeps t old r.0 r.2 in
        (bury_all t old r.0, rw (update_bundle, r.1) refl, b.0, omega (arith, r.3, b.1))
