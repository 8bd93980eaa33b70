-- ===== src/Downgrade/Diff/Laws.antt =====
-- What `DiffDowngradeSelectorImpl::PickLOPRIChildren` (heyp/alg/downgrade/iface.cc) assigns, child
-- by child.
use heyp_agents.Prelude.{
  ℕ, ◌≡◌, ◌≢◌, refl, ap, ◌∙◌, Bool, true, false, ◌||◌, List, [], ◌∷◌, map, All, none, some, ◌==◌,
  if◌then◌else◌, arith, Bool-cases, Option-cases, inl, inr, ==_iff,
}
use heyp_agents.HashRing.{IdRange, contains}
use heyp_agents.Downgrade.View.{ChildFlowInfo}
use heyp_agents.Downgrade.Diff.{
  UnorderedIds, DowngradeDiff, LastIsLopri, initial_lopri, mark_range, mark_ranges, id2index,
  mark_point, mark_points, remember, apply_diff, pick_lopri_children,
}

abbrev pub in_ranges : List IdRange → ℕ → Bool
in_ranges [] id = false
in_ranges (r ∷ rs) id = contains r id || in_ranges rs id

abbrev pub in_points : List ℕ → ℕ → Bool
in_points [] id = false
in_points (p ∷ ps) id = id == p || in_points ps id

abbrev pub in_ids : UnorderedIds → ℕ → Bool
in_ids ids id = in_ranges ids.ranges id || in_points ids.points id

-- No two children have the same id.
abbrev pub HasDistinctIds : List ChildFlowInfo → Type 0
HasDistinctIds [] = Unit {0}
HasDistinctIds (c ∷ children) =
    All (λ b. b.child_id ≢ c.child_id) children × HasDistinctIds children

-- An upgrade wins over a downgrade, and both over the last assignment.
abbrev pub decision : DowngradeDiff → LastIsLopri → ChildFlowInfo → Bool
decision diff last_is_lopri c =
    if in_ids diff.to_upgrade c.child_id
    then false
    else if in_ids diff.to_downgrade c.child_id
    then true
    else initial_lopri last_is_lopri c

abbrev marked_by : (ℕ → Bool) → Bool → (ChildFlowInfo → Bool) → ChildFlowInfo → Bool
marked_by ids mark f c = if ids c.child_id then mark else f c

mark_range-map :
    (mark : Bool) (r : IdRange) (children : List ChildFlowInfo) (f : ChildFlowInfo → Bool)
    → mark_range mark r children (map f children) ≡ map (marked_by (contains r) mark f) children
unfolding mark_range
mark_range-map mark r [] f = refl
mark_range-map mark r (c ∷ children) f = cc (mark_range-map mark r children f)

map_pointwise :
    (f g : ChildFlowInfo → Bool) (children : List ChildFlowInfo)
    → ((c : ChildFlowInfo) → f c ≡ g c)
    → map f children ≡ map g children
map_pointwise f g [] h = refl
map_pointwise f g (c ∷ children) h = cc (h c, map_pointwise f g children h)

marked_twice :
    (p q : ℕ → Bool) (mark : Bool) (f : ChildFlowInfo → Bool) (c : ChildFlowInfo)
    → marked_by q mark (marked_by p mark f) c ≡ marked_by (λ id. p id || q id) mark f c
marked_twice p q mark f c = ground arith

pub mark_ranges-map :
    (mark : Bool) (rs : List IdRange) (children : List ChildFlowInfo) (f : ChildFlowInfo → Bool)
    → mark_ranges mark rs children (map f children) ≡ map (marked_by (in_ranges rs) mark f) children
unfolding mark_ranges
mark_ranges-map mark [] children f = map_pointwise _ _ children (λ c. refl)
mark_ranges-map mark (r ∷ rs) children f =
    ap (mark_ranges mark rs children) (mark_range-map mark r children f)
    ∙ mark_ranges-map mark rs children (marked_by (contains r) mark f)
    ∙ map_pointwise _ _ children (marked_twice (contains r) (in_ranges rs) mark f)

id2index-missing :
    (children : List ChildFlowInfo) (id : ℕ)
    → All (λ c. c.child_id ≢ id) children
    → id2index children id ≡ none
unfolding id2index
id2index-missing [] id h = refl
id2index-missing (c ∷ children) id h = ground (arith, id2index-missing children id h.1)

map_missing :
    (children : List ChildFlowInfo) (id : ℕ) (mark : Bool) (f : ChildFlowInfo → Bool)
    → All (λ c. c.child_id ≢ id) children
    → map (marked_by (λ j. j == id) mark f) children ≡ map f children
map_missing [] id mark f h = refl
map_missing (c ∷ children) id mark f h = ground (arith, map_missing children id mark f h.1)

All-rename :
    (children : List ChildFlowInfo) (i j : ℕ)
    → i ≡ j
    → All (λ c. c.child_id ≢ i) children
    → All (λ c. c.child_id ≢ j) children
All-rename children i j e h = rw (← e) h

mark_point-map :
    (mark : Bool) (p : ℕ) (children : List ChildFlowInfo) (f : ChildFlowInfo → Bool)
    → HasDistinctIds children
    → mark_point mark p children (map f children) ≡ map (marked_by (λ id. id == p) mark f) children
unfolding mark_point id2index
mark_point-map mark p [] f h = refl
mark_point-map mark p (c ∷ children) f h = elim (Bool-cases (c.child_id == p)) [
  | inl e ↦
      let away = All-rename children c.child_id p ((==_iff _ _).0 e) h.0 in
      ground (arith, id2index-missing children p away, map_missing children p mark f away)
  | inr e ↦ elim (Option-cases (id2index children p)) [
    | inl n ↦ ground (arith, mark_point-map mark p children f h.1)
    | inr (i, n) ↦ ground (arith, mark_point-map mark p children f h.1)
  ]
]

mark_points-map :
    (mark : Bool) (ps : List ℕ) (children : List ChildFlowInfo) (f : ChildFlowInfo → Bool)
    → HasDistinctIds children
    → mark_points mark ps children (map f children) ≡ map (marked_by (in_points ps) mark f) children
unfolding mark_points
mark_points-map mark [] children f h = map_pointwise _ _ children (λ c. refl)
mark_points-map mark (p ∷ ps) children f h =
    ap (mark_points mark ps children) (mark_point-map mark p children f h)
    ∙ mark_points-map mark ps children (marked_by (λ id. id == p) mark f) h
    ∙ map_pointwise _ _ children (marked_twice (λ id. id == p) (in_points ps) mark f)

mark_ids-map :
    (mark : Bool) (ids : UnorderedIds) (children : List ChildFlowInfo) (f : ChildFlowInfo → Bool)
    → HasDistinctIds children
    → mark_points mark ids.points children (mark_ranges mark ids.ranges children (map f children))
      ≡ map (marked_by (in_ids ids) mark f) children
mark_ids-map mark ids children f h =
    ap (mark_points mark ids.points children) (mark_ranges-map mark ids.ranges children f)
    ∙ mark_points-map mark ids.points children (marked_by (in_ranges ids.ranges) mark f) h
    ∙ map_pointwise _ _ children (marked_twice (in_ranges ids.ranges) (in_points ids.points) mark f)

apply_diff-decision :
    (diff : DowngradeDiff) (last_is_lopri : LastIsLopri) (children : List ChildFlowInfo)
    → HasDistinctIds children
    → apply_diff diff last_is_lopri children ≡ map (decision diff last_is_lopri) children
unfolding apply_diff
apply_diff-decision diff last children h =
    ap
      (λ l.
        mark_points false diff.to_upgrade.points children
          (mark_ranges false diff.to_upgrade.ranges children l))
      (mark_ids-map true diff.to_downgrade children (initial_lopri last) h)
    ∙ mark_ids-map false diff.to_upgrade children
        (marked_by (in_ids diff.to_downgrade) true (initial_lopri last)) h

pub remember-kept :
    (last : LastIsLopri) (children : List ChildFlowInfo) (f : ChildFlowInfo → Bool) (id : ℕ)
    → All (λ c. c.child_id ≢ id) children
    → remember last children (map f children) id ≡ last id
unfolding remember
remember-kept last [] f id h = refl
remember-kept last (c ∷ children) f id h =
    remember-kept (λ j. if j == c.child_id then some (f c) else last j) children f id h.1
    ∙ ground arith

-- The map keeps a child's assignment however the map was before.
remember-All :
    (last : LastIsLopri) (children : List ChildFlowInfo) (f : ChildFlowInfo → Bool)
    → HasDistinctIds children
    → All (λ c. remember last children (map f children) c.child_id ≡ some (f c)) children
unfolding remember
remember-All last [] f h = tt
remember-All last (c ∷ children) f h = (
  remember-kept (λ j. if j == c.child_id then some (f c) else last j) children f c.child_id h.0
      ∙ ground arith,
  remember-All (λ id. if id == c.child_id then some (f c) else last id) children f h.1,
)

-- Where no two children have the same id, every child is set to HIPRI if it is among the ids to
-- upgrade, else to LOPRI if it is among those to downgrade, else to its last assignment, or to what
-- it reports if it has none; the assignments are kept for the next call, and those of all other
-- children stay.
pub pick_lopri_children-decision :
    (diff : DowngradeDiff) (last : LastIsLopri) (children : List ChildFlowInfo)
    → HasDistinctIds children
    → let r = pick_lopri_children diff last children in
      (r.1 ≡ map (decision diff last) children)
      × All (λ c. r.0 c.child_id ≡ some (decision diff last c)) children
      × ((id : ℕ) → All (λ c. c.child_id ≢ id) children → r.0 id ≡ last id)
unfolding pick_lopri_children
pick_lopri_children-decision diff last children h =
    let e = apply_diff-decision diff last children h in
    (
      e,
      rw e (remember-All last children (decision diff last) h),
      λ id m. rw e (remember-kept last children (decision diff last) id m),
    )
