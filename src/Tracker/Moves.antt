-- ===== src/Tracker/Moves.antt =====
-- What the steps of `FlowTracker` (heyp/host-agent/flow-tracker.cc) do to sequence numbers and to the
-- usage that is accounted for.
use heyp_agents.Prelude.Maps.{
  lookup, assign, IsMap, total-assign, total-assign_new, total-erase, IsMap-assign, IsMap-erase,
  lookup-assign, lookup-erase, All-lookup, All-assign, All-erase,
}
use heyp_agents.Prelude.{
  ap, ℕ, ◌+◌, ◌%◌, ◌^◌, ◌≤◌, ◌<◌, ◌≡◌, refl, [], ◌∷◌, All, total, total-append, none, some,
  Option-cases, inl, inr, ◌==◌, if◌then◌else◌, arith,
}
use heyp_agents.Markers.{FlowMarker}
use heyp_agents.Flows.{new_agg_state}
use heyp_agents.Flows.Leaf.{new_leaf_state}
use heyp_agents.Flows.Counters.{IsAccounted}
use heyp_agents.Tracker.{
  Leaf, FlowTracker, active_keys, create_leaf_state, ensure_active, move_to_done, set_active,
}

module _ {Aux : Type 0} where
  -- A sum over all flows, active and done.
  abbrev pub over_flows : (Leaf Aux → ℕ) → FlowTracker Aux → ℕ
  over_flows f t = total (λ x. f x.1) t.active_flows + total f t.done_flows

  abbrev pub usage_of : Leaf Aux → ℕ
  usage_of leaf = leaf.state.cur.cum_usage_bytes

  abbrev pub has_seqnum : ℕ → Leaf Aux → ℕ
  has_seqnum n leaf = if leaf.flow.seqnum == n then 1 else 0

  -- The active flows are a map, no two flows have one sequence number, none has one that is still to
  -- be given, and the counters of every active flow add up.
  pub record IsTracker (t : FlowTracker Aux) : Type 0 where
    pub keyed : IsMap t.active_flows
    pub unique : (n : ℕ) → over_flows (has_seqnum n) t ≤ 1
    pub fresh : (n : ℕ) → t.next_seqnum < n → over_flows (has_seqnum n) t ≡ 0
    pub accounted : All (λ x. IsAccounted x.1.state) t.active_flows

  over_flows-move :
      (f : Leaf Aux → ℕ) (flow : FlowMarker) (leaf : Leaf Aux) (t : FlowTracker Aux)
      → lookup flow t.active_flows ≡ some leaf
      → over_flows f (move_to_done flow leaf t) ≡ over_flows f t
  unfolding move_to_done
  over_flows-move f flow leaf t h =
      omega
        (arith, total-erase f flow leaf t.active_flows h, total-append f t.done_flows (leaf ∷ []))

  pub move_to_done-IsTracker :
      (flow : FlowMarker) (leaf : Leaf Aux) (t : FlowTracker Aux)
      → lookup flow t.active_flows ≡ some leaf
      → IsTracker t
      → IsTracker (move_to_done flow leaf t)
        × (over_flows usage_of (move_to_done flow leaf t) ≡ over_flows usage_of t)
        × (lookup flow (move_to_done flow leaf t).active_flows ≡ none)
  unfolding move_to_done
  move_to_done-IsTracker flow leaf t h i = (
    record {
      keyed = IsMap-erase flow t.active_flows i.keyed;
      unique = λ n. omega (arith, over_flows-move (has_seqnum n) flow leaf t h, i.unique n);
      fresh = λ n g. omega (arith, over_flows-move (has_seqnum n) flow leaf t h, i.fresh n g);
      accounted = All-erase (λ l. IsAccounted l.state) flow t.active_flows i.accounted;
    },
    over_flows-move usage_of flow leaf t h,
    lookup-erase flow t.active_flows (i.keyed flow),
  )

  over_flows-set :
      (f : Leaf Aux → ℕ) (flow : FlowMarker) (old new : Leaf Aux) (t : FlowTracker Aux)
      → lookup flow t.active_flows ≡ some old
      → over_flows f (set_active flow new t) + f old ≡ over_flows f t + f new
  unfolding set_active
  over_flows-set f flow old new t h = omega (arith, total-assign f flow new old t.active_flows h)

  -- A flow's state may be replaced by one of the same flow whose counters add up.
  pub set_active-IsTracker :
      (flow : FlowMarker) (old new : Leaf Aux) (t : FlowTracker Aux)
      → lookup flow t.active_flows ≡ some old
      → new.flow ≡ old.flow
      → IsAccounted new.state
      → IsTracker t
      → IsTracker (set_active flow new t)
        × (over_flows usage_of (set_active flow new t) + usage_of old
            ≡ over_flows usage_of t + usage_of new)
        × (lookup flow (set_active flow new t).active_flows ≡ some new)
  unfolding set_active
  set_active-IsTracker flow old new t h e a i =
      let same : (n : ℕ) → has_seqnum n new ≡ has_seqnum n old =
        λ n. ap (λ m. if m.seqnum == n then 1 else 0) e in
      (
        record {
          keyed = IsMap-assign flow new t.active_flows i.keyed;
          unique = λ n.
              omega (arith, over_flows-set (has_seqnum n) flow old new t h, same n, i.unique n);
          fresh = λ n g.
              omega (arith, over_flows-set (has_seqnum n) flow old new t h, same n, i.fresh n g);
          accounted = All-assign (λ l. IsAccounted l.state) flow new t.active_flows a i.accounted;
        },
        over_flows-set usage_of flow old new t h,
        lookup-assign flow new t.active_flows,
      )

  -- What is known of the state that an update begins with.
  pub record IsEnsured (flow : FlowMarker) (before : FlowTracker Aux) (leaf : Leaf Aux)
      (t : FlowTracker Aux) : Type 0 where
    pub tracker : IsTracker t
    pub found : lookup flow t.active_flows ≡ some leaf
    pub leaf_accounted : IsAccounted leaf.state
    pub seqnum_bound : t.next_seqnum ≤ before.next_seqnum + 1
    pub same_usage : over_flows usage_of t ≡ over_flows usage_of before
    pub new_is_unused : lookup flow before.active_flows ≡ none → usage_of leaf ≡ 0

  pub created : FlowMarker → FlowTracker Aux → Leaf Aux
  created flow t = create_leaf_state flow (t.next_seqnum + 1)

  pub with_created : FlowMarker → FlowTracker Aux → FlowTracker Aux
  with_created flow t = record {
    next_seqnum = t.next_seqnum + 1;
    active_flows = assign flow (created flow t) t.active_flows;
    done_flows = t.done_flows;
  }

  over_flows-created :
      (f : Leaf Aux → ℕ) (flow : FlowMarker) (t : FlowTracker Aux)
      → lookup flow t.active_flows ≡ none
      → over_flows f (with_created flow t) ≡ over_flows f t + f (created flow t)
  unfolding with_created
  over_flows-created f flow t h =
      omega (arith, total-assign_new f flow (created flow t) t.active_flows h)

  with_created-IsEnsured :
      (flow : FlowMarker) (t : FlowTracker Aux)
      → lookup flow t.active_flows ≡ none
      → IsTracker t
      → IsEnsured flow t (created flow t) (with_created flow t)
  unfolding with_created created create_leaf_state new_leaf_state new_agg_state
  with_created-IsEnsured flow t h i = record {
    tracker = record {
      keyed = IsMap-assign flow (created flow t) t.active_flows i.keyed;
      unique =
          λ n. ground (arith, over_flows-created (has_seqnum n) flow t h, i.unique n, i.fresh n);
      fresh = λ n g. ground (arith, over_flows-created (has_seqnum n) flow t h, i.fresh n);
      accounted =
          All-assign (λ l. IsAccounted l.state) flow (created flow t) t.active_flows refl
            i.accounted;
    };
    found = lookup-assign flow (created flow t) t.active_flows;
    leaf_accounted = refl;
    seqnum_bound = omega arith;
    same_usage = omega (arith, over_flows-created usage_of flow t h);
    new_is_unused = λ z. refl;
  }

  ensure_active-new :
      (flow : FlowMarker) (t : FlowTracker Aux)
      → lookup flow t.active_flows ≡ none
      → t.next_seqnum + 1 < 2 ^ 64
      → ensure_active flow t ≡ (created flow t, with_created flow t)
  unfolding ensure_active created with_created
  ensure_active-new flow t h b =
      let e : (t.next_seqnum + 1) % 2 ^ 64 ≡ t.next_seqnum + 1 = omega arith in
      rw (ensure_active, h, e) refl

  pub ensure_active-IsEnsured :
      (flow : FlowMarker) (t : FlowTracker Aux)
      → t.next_seqnum + 1 < 2 ^ 64
      → IsTracker t
      → IsEnsured flow t (ensure_active flow t).0 (ensure_active flow t).1
  unfolding ensure_active
  ensure_active-IsEnsured flow t b i = elim (Option-cases (lookup flow t.active_flows)) [
    | inl h ↦ rw (ensure_active-new flow t h b) (with_created-IsEnsured flow t h i)
    | inr (leaf, h) ↦
        rw (ensure_active, h)
          (record {
            tracker = i;
            found = h;
            leaf_accounted =
                All-lookup (λ l. IsAccounted l.state) flow leaf t.active_flows h i.accounted;
            seqnum_bound = omega arith;
            same_usage = refl;
            new_is_unused = λ z. ground (arith, z, h);
          })
  ]
