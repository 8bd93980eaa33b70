-- ===== src/Views/Groups.antt =====
-- What `JobLevelView::Create` of heyp/alg/agg-info-views.cc makes of the hosts.
use heyp_agents.Prelude.Text.{Bytes}
use heyp_agents.Prelude.Maps.{lookup, lookup-common}
use heyp_agents.Prelude.{
  ℕ, zero, suc, ◌+◌, ◌≡◌, ◌∙◌, sym, refl, Bool, true, false, ◌||◌, List, [], ◌∷◌, length, get_elem?,
  total, ap, Option, none, some, ◌==◌, if◌then◌else◌, arith, Bool-cases, inl, inr, subst,
}
use heyp_agents.Markers.{FlowMarker, all_options}
use heyp_agents.Downgrade.View.{ChildFlowInfo}
use heyp_agents.Views.{
  FlowInfo, FvSource, get_flow_volume, JobLevelView, Jobs, job_keys, job_marker, new_job, add_host,
  add_hosts, job_level_view,
}
use heyp_agents.Views.Children.{with_volume}
use heyp_agents.Views.Index.{same_job, IsJobs, job_at, add_host-HasCounted}
use heyp_agents.Markers.Laws.{is_same_flow_iff, marker_keys}

module _ (source : FvSource) where
  -- What the hosts of a job have together.
  abbrev pub volume_of : FlowMarker → List FlowInfo → ℕ
  volume_of k [] = 0
  volume_of k (h ∷ infos) =
      (if same_job k (job_marker h.flow) then get_flow_volume h source else 0) + volume_of k infos

abbrev pub any_lopri : FlowMarker → List FlowInfo → Bool
any_lopri k [] = false
any_lopri k (h ∷ infos) =
    (if same_job k (job_marker h.flow) then h.currently_lopri else false) || any_lopri k infos

abbrev has_host : FlowMarker → List FlowInfo → Bool
has_host k [] = false
has_host k (h ∷ infos) = same_job k (job_marker h.flow) || has_host k infos

get_elem?-has_host :
    (infos : List FlowInfo) (i : ℕ) (h : FlowInfo)
    → get_elem? infos i ≡ some h
    → has_host (job_marker h.flow) infos ≡ true
get_elem?-has_host [] i h q = ground arith
get_elem?-has_host (x ∷ infos) zero h q =
    let e : x ≡ h = ground arith in
    subst (λ y. has_host (job_marker h.flow) (y ∷ infos) ≡ true) (sym e)
      (ground (arith, job_keys.eq_refl (job_marker h.flow)))
get_elem?-has_host (x ∷ infos) (suc i) h q = ground (arith, get_elem?-has_host infos i h)

same_job-job : (a b : FlowMarker) → same_job a b ≡ true → a.job ≡ b.job
unfolding job_keys marker_keys
same_job-job a b h = ap (λ m. m.job) ((is_same_flow_iff a b all_options).0 h)

-- The index at a host's place is that of its job.
abbrev HasIndices : List FlowInfo → List ℕ → Jobs → Type 0
HasIndices infos js s =
    (i : ℕ) (h : FlowInfo)
    → get_elem? infos i ≡ some h
    → (j : ℕ) × (get_elem? js i ≡ some j)
      × (lookup (job_marker h.flow) s.flow_to_job_index ≡ some j)

HasIndices-more :
    (x : FlowInfo) (infos : List FlowInfo) (j : ℕ) (js : List ℕ) (s : Jobs)
    → lookup (job_marker x.flow) s.flow_to_job_index ≡ some j
    → HasIndices infos js s
    → HasIndices (x ∷ infos) (j ∷ js) s
HasIndices-more x infos j js s l w zero h q =
    let e : x ≡ h = ground arith in
    (j, refl, subst (λ y. lookup (job_marker y.flow) s.flow_to_job_index ≡ some j) e l)
HasIndices-more x infos j js s l w (suc i) h q = w i h q

module _ (hash : Bytes → ℕ) where
  -- The child of a job, by its hosts.
  abbrev pub child_of_job : FvSource → List FlowInfo → FlowMarker → ChildFlowInfo
  child_of_job source infos k = record {
    child_id = hash k.job;
    volume_bps = volume_of source k infos;
    currently_lopri = any_lopri k infos;
  }

  -- The child of a job after more hosts.
  abbrev gather :
      FvSource → FlowMarker → List FlowInfo → Option ChildFlowInfo → Option ChildFlowInfo
  gather source l [] o = o
  gather source l (h ∷ infos) o = gather source l infos (
      if same_job l (job_marker h.flow)
      then some (
          with_volume (get_flow_volume h source) h.currently_lopri
            (elim o [ none ↦ new_job hash (job_marker h.flow) | some c ↦ c ]))
      else o)

  gather-some :
      (source : FvSource) (l : FlowMarker) (infos : List FlowInfo) (c : ChildFlowInfo)
      → gather source l infos (some c)
        ≡ some (with_volume (volume_of source l infos) (any_lopri l infos) c)
  gather-some source l [] c = ground arith
  gather-some source l (h ∷ infos) c =
      let v = get_flow_volume h source in
      ground (
        arith,
        gather-some source l infos c,
        gather-some source l infos (with_volume v h.currently_lopri c),
      )

  gather-none :
      (source : FvSource) (l : FlowMarker) (infos : List FlowInfo)
      → has_host l infos ≡ true
      → gather source l infos none ≡ some (child_of_job source infos l)
  gather-none source l [] q = ground arith
  gather-none source l (h ∷ infos) q =
      let k = job_marker h.flow in
      let c = with_volume (get_flow_volume h source) h.currently_lopri (new_job hash k) in
      elim (Bool-cases (same_job l k)) [
        | inl e ↦
            let id : hash k.job ≡ hash l.job = ap hash (sym (same_job-job l k e)) in
            ground (arith, e, id, gather-some source l infos c)
        | inr e ↦ ground (arith, gather-none source l infos)
      ]

  -- What the loop over the hosts leaves.
  abbrev HasGathered : FvSource → List FlowInfo → Jobs → List ℕ × Jobs → Type 0
  HasGathered source infos s r =
      IsJobs r.1
      × ((l : FlowMarker) (j : ℕ)
          → lookup l s.flow_to_job_index ≡ some j
          → lookup l r.1.flow_to_job_index ≡ some j)
      × ((l : FlowMarker) → job_at l r.1 ≡ gather source l infos (job_at l s))
      × HasIndices infos r.0 r.1
      × (length r.0 ≡ length infos)
      × (total (λ c. c.volume_bps) r.1.job_children
          ≡ total (λ c. c.volume_bps) s.job_children + total (λ h. get_flow_volume h source) infos)

  add_hosts-HasGathered :
      (source : FvSource) (infos : List FlowInfo) (s : Jobs)
      → IsJobs s
      → HasGathered source infos s (add_hosts hash source infos s)
  unfolding add_hosts
  add_hosts-HasGathered source [] s w =
      (w, λ l j q. q, λ l. refl, λ i h q. ground arith, refl, omega arith)
  add_hosts-HasGathered source (x ∷ infos) s w =
      let a = add_host-HasCounted hash source x s w in
      let r = add_host hash source x s in
      let b = add_hosts-HasGathered source infos r.1 a.1 in
      let t = (add_hosts hash source infos r.1).1 in
      (
        b.0,
        λ l j q. b.1 l j (a.2 l j q),
        λ l. b.2 l ∙ ap (gather source l infos) (a.3 l),
        HasIndices-more x infos r.0 _ t (b.1 (job_marker x.flow) r.0 a.0) b.3,
        omega (arith, b.4),
        omega (arith, b.5, a.4),
      )

  -- What a view by jobs is, by the hosts: the hosts of a job have its index, and no other host has it,
  -- the child there has the job's id, the sum of their volumes, and is LOPRI where one of them is;
  -- and no volume is lost.
  abbrev pub IsGrouped : FvSource → List FlowInfo → JobLevelView → Type 0
  IsGrouped source infos view =
      ((i : ℕ) (h : FlowInfo)
        → get_elem? infos i ≡ some h
        → (j : ℕ) × (get_elem? view.job_index_of_host i ≡ some j)
          × (get_elem? view.children j ≡ some (child_of_job source infos (job_marker h.flow))))
      × ((i i' : ℕ) (h h' : FlowInfo) (j j' : ℕ)
          → get_elem? infos i ≡ some h
          → get_elem? infos i' ≡ some h'
          → get_elem? view.job_index_of_host i ≡ some j
          → get_elem? view.job_index_of_host i' ≡ some j'
          → (j == j') ≡ same_job (job_marker h.flow) (job_marker h'.flow))
      × (length view.job_index_of_host ≡ length infos)
      × (total (λ c. c.volume_bps) view.children ≡ total (λ h. get_flow_volume h source) infos)

  -- The view by jobs, of any hosts and with either volume, groups the hosts: two hosts have the same
  -- index exactly where their jobs are the same, the child at a host's index has the hash of the job,
  -- the sum of the volumes of the job's hosts, and is LOPRI exactly where one of them is; there is one
  -- index per host, and the volumes of the children sum to those of the hosts.
  pub job_level_view-IsGrouped :
      (source : FvSource) (infos : List FlowInfo)
      → IsGrouped source infos (job_level_view hash source infos)
  unfolding job_level_view
  job_level_view-IsGrouped source infos =
      let start : Jobs = record { flow_to_job_index = []; job_children = [] } in
      let r = add_hosts hash source infos start in
      let g =
        add_hosts-HasGathered source infos start
          (λ k j q. ground arith, λ k l j q q'. ground arith) in
      (
        λ i h q.
            let n = g.3 i h q in
            let k = job_marker h.flow in
            let e = gather-none source k infos (get_elem?-has_host infos i h q) in
            (n.0, n.1, ground (arith, n.2, g.2 k, e)),
        λ i i' h h' j j' q q' p p'.
            let k = job_marker h.flow in
            let l = job_marker h'.flow in
            let n = g.3 i h q in
            let n' = g.3 i' h' q' in
            ground
              (arith, n.1, n.2, n'.1, n'.2, lookup-common k l r.1.flow_to_job_index, g.0.1 k l j),
        g.4,
        omega (arith, g.5),
      )
