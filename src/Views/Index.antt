-- ===== src/Views/Index.antt =====
-- The index of jobs that `JobLevelView::Create` of heyp/alg/agg-info-views.cc keeps.
use heyp_agents.Prelude.Text.{Bytes}
use heyp_agents.Prelude.Maps.{lookup, assign, lookup-assign, lookup-assign_other, lookup-common}
use heyp_agents.Prelude.{
  ℕ, ◌+◌, ◌<◌, ◌≡◌, ◌∙◌, sym, refl, Bool, true, [], ◌∷◌, ◌++◌, length, get_elem?, total, Option,
  none, some, if◌then◌else◌, arith, Bool-cases, Option-cases, inl, inr, length-append, total-append,
  subst,
}
use heyp_agents.Markers.{FlowMarker}
use heyp_agents.Downgrade.View.{ChildFlowInfo}
use heyp_agents.Views.{
  FlowInfo, FvSource, get_flow_volume, Jobs, job_keys, job_marker, count_in, new_job,
  get_job_info_index, add_host,
}
use heyp_agents.Views.Children.{
  with_volume, get_elem?-count_in, get_elem?-count_in_other, length-count_in, get_elem?-last,
  get_elem?-before, total-count_in, get_elem?-within,
}

abbrev pub same_job : FlowMarker → FlowMarker → Bool
same_job a b = job_keys.eq a b

-- An index has one job, and it is the index of a child.
abbrev pub IsJobs : Jobs → Type 0
IsJobs s =
    ((k : FlowMarker) (j : ℕ) → lookup k s.flow_to_job_index ≡ some j → j < length s.job_children)
    × ((k l : FlowMarker) (j : ℕ)
        → lookup k s.flow_to_job_index ≡ some j
        → lookup l s.flow_to_job_index ≡ some j
        → same_job k l ≡ true)

-- The child of a job.
abbrev pub job_at : FlowMarker → Jobs → Option ChildFlowInfo
job_at k s = elim (lookup k s.flow_to_job_index) [
  | none ↦ none
  | some j ↦ get_elem? s.job_children j
]

-- A new job gets an index that is not used, and it is looked up alone by that job.
abbrev assigned : FlowMarker → ChildFlowInfo → Jobs → Jobs
assigned k c s = record {
  flow_to_job_index = assign k (length s.job_children) s.flow_to_job_index;
  job_children = s.job_children ++ c ∷ [];
}

lookup-assigned :
    (k : FlowMarker) (c : ChildFlowInfo) (s : Jobs) (l : FlowMarker)
    → lookup l (assigned k c s).flow_to_job_index
      ≡ (if same_job l k then some (length s.job_children) else lookup l s.flow_to_job_index)
lookup-assigned k c s l =
    let m = s.flow_to_job_index in
    elim (Bool-cases (same_job l k)) [
      | inl e ↦ rw e (
          lookup-common l k (assign k (length s.job_children) m) e
          ∙ lookup-assign k (length s.job_children) m)
      | inr e ↦ rw e (lookup-assign_other l k (length s.job_children) m e)
    ]

IsJobs-assigned :
    (k : FlowMarker) (c : ChildFlowInfo) (s : Jobs) → IsJobs s → IsJobs (assigned k c s)
IsJobs-assigned k c s w = (
  λ l j q. ground (arith, lookup-assigned k c s l, w.0 l j, length-append s.job_children (c ∷ [])),
  λ l l' j q q'. ground (
    arith,
    lookup-assigned k c s l,
    lookup-assigned k c s l',
    w.0 l j,
    w.0 l' j,
    w.1 l l' j,
    job_keys.eq_common l l' k,
  ),
)

job_at-assigned :
    (k : FlowMarker) (c : ChildFlowInfo) (s : Jobs) (l : FlowMarker)
    → IsJobs s
    → job_at l (assigned k c s) ≡ (if same_job l k then some c else job_at l s)
job_at-assigned k c s l w =
    let cs = s.job_children in
    elim (Option-cases (lookup l s.flow_to_job_index)) [
      | inl n ↦ ground (arith, lookup-assigned k c s l, get_elem?-last c cs)
      | inr (j, n) ↦
          ground (
            arith,
            lookup-assigned k c s l,
            get_elem?-last c cs,
            get_elem?-before c cs j (w.0 l j n),
          )
    ]

-- A host that is counted changes the child of its job alone.
job_at-counted :
    (k : FlowMarker) (j : ℕ) (v : ℕ) (b : Bool) (s : Jobs) (l : FlowMarker)
    → IsJobs s
    → lookup k s.flow_to_job_index ≡ some j
    → job_at l (record s { job_children = count_in v b s.job_children j }) ≡ (
        if same_job l k
        then elim (job_at l s) [ none ↦ none | some c ↦ some (with_volume v b c) ]
        else job_at l s)
job_at-counted k j v b s l w h =
    let cs = s.job_children in
    let c = get_elem?-within cs j (w.0 k j h) in
    elim (Option-cases (lookup l s.flow_to_job_index)) [
      | inl n ↦ ground (arith, lookup-common l k s.flow_to_job_index)
      | inr (i, n) ↦ ground (
        arith,
        lookup-common l k s.flow_to_job_index,
        c.1,
        get_elem?-count_in v b c.0 cs j c.1,
        get_elem?-count_in_other v b cs j i,
        w.1 l k i n,
      )
    ]

module _ (hash : Bytes → ℕ) where
  -- The index of the host's job, and the jobs after it was looked up.
  abbrev HasIndex : FlowMarker → Jobs → ℕ × Jobs → Type 0
  HasIndex k s r =
      (lookup k r.1.flow_to_job_index ≡ some r.0)
      × IsJobs r.1
      × ((l : FlowMarker) (j : ℕ)
          → lookup l s.flow_to_job_index ≡ some j
          → lookup l r.1.flow_to_job_index ≡ some j)
      × ((l : FlowMarker)
          → job_at l r.1 ≡ (
              if same_job l k
              then some (elim (job_at l s) [ none ↦ new_job hash k | some c ↦ c ])
              else job_at l s))
      × (total (λ c. c.volume_bps) r.1.job_children ≡ total (λ c. c.volume_bps) s.job_children)

  index_there_eq :
      (flow : FlowMarker) (s : Jobs) (j : ℕ)
      → lookup (job_marker flow) s.flow_to_job_index ≡ some j
      → get_job_info_index hash flow s ≡ (j, s)
  unfolding get_job_info_index
  index_there_eq flow s j h = rw (get_job_info_index, h) refl

  index_new_eq :
      (flow : FlowMarker) (s : Jobs)
      → lookup (job_marker flow) s.flow_to_job_index ≡ none
      → get_job_info_index hash flow s
        ≡ (length s.job_children, assigned (job_marker flow) (new_job hash (job_marker flow)) s)
  unfolding get_job_info_index
  index_new_eq flow s h =
      rw (get_job_info_index, h)
        (ground (arith, length-append s.job_children (new_job hash (job_marker flow) ∷ [])))

  index_there :
      (flow : FlowMarker) (s : Jobs) (j : ℕ)
      → IsJobs s
      → lookup (job_marker flow) s.flow_to_job_index ≡ some j
      → HasIndex (job_marker flow) s (j, s)
  index_there flow s j w h =
      let k = job_marker flow in
      let m = get_elem?-within s.job_children j (w.0 k j h) in
      (h, w, λ l i q. q, λ l. ground (arith, lookup-common l k s.flow_to_job_index, m.1), refl)

  index_new :
      (flow : FlowMarker) (s : Jobs)
      → IsJobs s
      → lookup (job_marker flow) s.flow_to_job_index ≡ none
      → HasIndex
          (job_marker flow)
          s
          (length s.job_children, assigned (job_marker flow) (new_job hash (job_marker flow)) s)
  index_new flow s w h =
      let k = job_marker flow in
      let c = new_job hash k in
      (
        lookup-assign k (length s.job_children) s.flow_to_job_index,
        IsJobs-assigned k c s w,
        λ l i q. ground (arith, lookup-assigned k c s l, lookup-common l k s.flow_to_job_index),
        λ l. ground (arith, job_at-assigned k c s l w, lookup-common l k s.flow_to_job_index),
        omega (arith, total-append (λ c. c.volume_bps) s.job_children (c ∷ [])),
      )

  get_job_info_index-HasIndex :
      (flow : FlowMarker) (s : Jobs)
      → IsJobs s
      → HasIndex (job_marker flow) s (get_job_info_index hash flow s)
  get_job_info_index-HasIndex flow s w =
      elim (Option-cases (lookup (job_marker flow) s.flow_to_job_index)) [
        | inl n ↦ subst (HasIndex _ s) (sym (index_new_eq flow s n)) (index_new flow s w n)
        | inr (j, n) ↦
            subst (HasIndex _ s) (sym (index_there_eq flow s j n)) (index_there flow s j w n)
      ]

  -- The child of each job after one host, and what else its round keeps.
  abbrev pub HasCounted : FvSource → FlowInfo → Jobs → ℕ × Jobs → Type 0
  HasCounted source h s r =
      let k = job_marker h.flow in
      (lookup k r.1.flow_to_job_index ≡ some r.0)
      × IsJobs r.1
      × ((l : FlowMarker) (j : ℕ)
          → lookup l s.flow_to_job_index ≡ some j
          → lookup l r.1.flow_to_job_index ≡ some j)
      × ((l : FlowMarker)
          → job_at l r.1 ≡ (
              if same_job l k
              then some (
                  with_volume (get_flow_volume h source) h.currently_lopri
                    (elim (job_at l s) [ none ↦ new_job hash k | some c ↦ c ]))
              else job_at l s))
      × (total (λ c. c.volume_bps) r.1.job_children
          ≡ total (λ c. c.volume_bps) s.job_children + get_flow_volume h source)

  pub add_host-HasCounted :
      (source : FvSource) (h : FlowInfo) (s : Jobs)
      → IsJobs s
      → HasCounted source h s (add_host hash source h s)
  unfolding add_host
  add_host-HasCounted source h s w =
      let k = job_marker h.flow in
      let r = get_job_info_index hash h.flow s in
      let i = get_job_info_index-HasIndex h.flow s w in
      let v = get_flow_volume h source in
      let b = h.currently_lopri in
      let cs = r.1.job_children in
      (
        i.0,
        (λ l j q. omega (arith, length-count_in v b cs r.0, i.1.0 l j q), i.1.1),
        i.2,
        λ l. ground (arith, job_at-counted k r.0 v b r.1 l i.1 i.0, i.3 l),
        omega (arith, total-count_in v b cs r.0 (i.1.0 k r.0 i.0), i.4),
      )
