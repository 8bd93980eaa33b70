-- ===== src/Selector/Laws.antt =====
-- What `DowngradeSelector::PickLOPRIChildren` of heyp/alg/qos-downgrade.cc returns.
use heyp_agents.Prelude.Text.{Bytes}
use heyp_agents.Prelude.Double.{Double}
use heyp_agents.Prelude.{
  ℕ, zero, suc, ◌<◌, ◌≡◌, ◌∙◌, sym, refl, Bool, true, false, List, [], ◌∷◌, length, get_elem?, All,
  Option, none, some, arith, subst,
}
use heyp_agents.Downgrade.View.{ChildFlowInfo}
use heyp_agents.Downgrade.Knapsack.{KnapsackSolver, IsSolver, knapsack-some}
use heyp_agents.Downgrade.Lengths.{
  length-pick_lopri, length-largest_first, length-heyp_sigcomm_20, length-knapsack,
}
use heyp_agents.Views.{FlowInfo, FvSource, job_marker, host_level_view, job_level_view}
use heyp_agents.Views.Index.{same_job}
use heyp_agents.Views.Groups.{job_level_view-IsGrouped}
use heyp_agents.Selector.{
  DowngradeSelectorType, ds_heyp_sigcomm20, ds_hashing, ds_hybrid_hashing, ds_knapsack_solver,
  ds_largest_first, SelectorImpl, select_hosts, spread_jobs, volume_source, get_selector,
  pick_by_job, pick_lopri_hosts,
}

-- The law of a selector: it never stops the process, and returns one choice per child.
abbrev pub IsPicking : (d : Double) → SelectorImpl d → Type 0
IsPicking d impl =
    (s : impl.State) (children : List ChildFlowInfo) (want : d.Carrier)
    → (r : impl.State × List Bool) × (impl.pick s children want ≡ some r)
      × (length r.1 ≡ length children)

-- The one type that names no selector is that of the selector that is still to be written.
abbrev IsPickingFor : (d : Double) → DowngradeSelectorType → Option (SelectorImpl d) → Type 0
IsPickingFor d type none = type ≡ ds_hybrid_hashing
IsPickingFor d type (some impl) = IsPicking d impl

-- Every selector that the type can name has the law.
pub get_selector-IsPicking :
    (d : Double) (quotient : ℕ → ℕ → d.Carrier) (solver : KnapsackSolver d)
    → IsSolver d solver
    → (time_limit_sec : d.Carrier) (type : DowngradeSelectorType)
    → IsPickingFor d type (get_selector d quotient solver time_limit_sec type)
unfolding get_selector
get_selector-IsPicking d quotient solver i limit ds_heyp_sigcomm20 =
    λ s children want. (_, refl, length-heyp_sigcomm_20 d quotient children want)
get_selector-IsPicking d quotient solver i limit ds_hashing =
    λ s children want. (_, refl, length-pick_lopri d s children want)
get_selector-IsPicking d quotient solver i limit ds_hybrid_hashing = refl
get_selector-IsPicking d quotient solver i limit ds_knapsack_solver = λ s children want.
    let k = knapsack-some d solver i limit children want in
    ((s, k.0), ground (arith, k.1), length-knapsack d solver limit children want k.0 k.1)
get_selector-IsPicking d quotient solver i limit ds_largest_first =
    λ s children want. (_, refl, length-largest_first d children want)

-- Each host gets the choice of its job.
abbrev Spreads : List Bool → List ℕ → List Bool → Type 0
Spreads chosen js hosts =
    (length hosts ≡ length js)
    × ((i j : ℕ) → get_elem? js i ≡ some j → get_elem? hosts i ≡ get_elem? chosen j)

get_elem?-chosen :
    (chosen : List Bool) (j : ℕ) → j < length chosen → (b : Bool) × (get_elem? chosen j ≡ some b)
get_elem?-chosen [] j h = ground arith
get_elem?-chosen (b ∷ chosen) zero h = (b, refl)
get_elem?-chosen (b ∷ chosen) (suc j) h = get_elem?-chosen chosen j (omega arith)

Spreads-more :
    (chosen : List Bool) (j : ℕ) (js : List ℕ) (b : Bool) (hosts : List Bool)
    → get_elem? chosen j ≡ some b
    → Spreads chosen js hosts
    → Spreads chosen (j ∷ js) (b ∷ hosts)
Spreads-more chosen j js b hosts e s = (
  omega (arith, s.0),
  λ i k q.
      elim i
          as (λ i. get_elem? (j ∷ js) i ≡ some k → get_elem? (b ∷ hosts) i ≡ get_elem? chosen k) [
            | zero ↦ λ q. ground (arith, e)
            | suc i ↦ λ q. s.1 i k q
          ]
        q,
)

select_hosts-Spreads :
    (chosen : List Bool) (js : List ℕ)
    → All (λ j. j < length chosen) js
    → (hosts : List Bool) × (select_hosts chosen js ≡ some hosts) × Spreads chosen js hosts
unfolding select_hosts
select_hosts-Spreads chosen [] h = ([], refl, (refl, λ i j q. ground arith))
select_hosts-Spreads chosen (j ∷ js) h =
    let b = get_elem?-chosen chosen j h.0 in
    let r = select_hosts-Spreads chosen js h.1 in
    (b.0 ∷ r.0, ground (arith, b.1, r.1), Spreads-more chosen j js b.0 r.0 b.1 r.2)

AllBelow-read :
    (chosen : List Bool) (js : List ℕ)
    → ((i j : ℕ) → get_elem? js i ≡ some j → j < length chosen)
    → All (λ j. j < length chosen) js
AllBelow-read chosen [] h = tt
AllBelow-read chosen (j ∷ js) h = (h 0 j refl, AllBelow-read chosen js (λ i k q. h (suc i) k q))

get_elem?-lt :
    (children : List ChildFlowInfo) (j : ℕ) (c : ChildFlowInfo)
    → get_elem? children j ≡ some c
    → j < length children
get_elem?-lt [] j c h = ground arith
get_elem?-lt (d ∷ children) zero c h = omega arith
get_elem?-lt (d ∷ children) (suc j) c h = omega (arith, get_elem?-lt children j c h)

get_elem?-host :
    (infos : List FlowInfo) (js : List ℕ) (i j : ℕ)
    → length js ≡ length infos
    → get_elem? js i ≡ some j
    → (h : FlowInfo) × (get_elem? infos i ≡ some h)
get_elem?-host infos [] i j n q = ground arith
get_elem?-host [] (k ∷ js) i j n q = ground arith
get_elem?-host (h ∷ infos) (k ∷ js) zero j n q = (h, refl)
get_elem?-host (h ∷ infos) (k ∷ js) (suc i) j n q = get_elem?-host infos js i j (omega arith) q

spread_jobs-size :
    (n : ℕ) (sel : List Bool) (js : List ℕ)
    → n ≡ length js
    → spread_jobs n sel js ≡ select_hosts sel js
unfolding spread_jobs
spread_jobs-size n sel js h = ground arith

-- Two hosts of one job get the same choice.
abbrev pub KeepsJobs : List FlowInfo → List Bool → Type 0
KeepsJobs infos hosts =
    (i i' : ℕ) (h h' : FlowInfo)
    → get_elem? infos i ≡ some h
    → get_elem? infos i' ≡ some h'
    → same_job (job_marker h.flow) (job_marker h'.flow) ≡ true
    → get_elem? hosts i ≡ get_elem? hosts i'

length-host_level_view :
    (source : FvSource) (infos : List FlowInfo)
    → length (host_level_view source infos) ≡ length infos
unfolding host_level_view
length-host_level_view source [] = refl
length-host_level_view source (h ∷ infos) = omega (arith, length-host_level_view source infos)

module _ (d : Double) (hash : Bytes → ℕ) (impl : SelectorImpl d) (law : IsPicking d impl) where
  -- The choice for the hosts, where the jobs are what is chosen.
  abbrev PicksJobs :
      FvSource → impl.State → List FlowInfo → d.Carrier → impl.State × List Bool → Type 0
  PicksJobs source s infos want r =
      let view = job_level_view hash source infos in
      (sel : List Bool) × (impl.pick s view.children want ≡ some (r.0, sel))
      × (length sel ≡ length view.children)
      × Spreads sel view.job_index_of_host r.1

  pick_by_job-some :
      (source : FvSource) (s : impl.State) (infos : List FlowInfo) (want : d.Carrier)
      (t : impl.State) (sel hosts : List Bool)
      → let view = job_level_view hash source infos in
        impl.pick s view.children want ≡ some (t, sel)
        → spread_jobs (length infos) sel view.job_index_of_host ≡ some hosts
        → pick_by_job d hash impl source s infos want ≡ some (t, hosts)
  unfolding pick_by_job
  pick_by_job-some source s infos want t sel hosts p q = rw (pick_by_job, p, q) refl

  pick_by_job-PicksJobs :
      (source : FvSource) (s : impl.State) (infos : List FlowInfo) (want : d.Carrier)
      → (r : impl.State × List Bool) × (pick_by_job d hash impl source s infos want ≡ some r)
        × PicksJobs source s infos want r
  pick_by_job-PicksJobs source s infos want =
      let view = job_level_view hash source infos in
      let g = job_level_view-IsGrouped hash source infos in
      let p = law s view.children want in
      let below = AllBelow-read p.0.1 view.job_index_of_host (λ i j q.
        let h = get_elem?-host infos view.job_index_of_host i j g.2 q in
        let n = g.0 i h.0 h.1 in
        ground (arith, q, n.1, p.2, get_elem?-lt view.children n.0 _ n.2)) in
      let r = select_hosts-Spreads p.0.1 view.job_index_of_host below in
      let size = spread_jobs-size (length infos) p.0.1 view.job_index_of_host (sym g.2) in
      (
        (p.0.0, r.0),
        pick_by_job-some source s infos want p.0.0 p.0.1 r.0 p.1 (size ∙ r.1),
        (p.0.1, p.1, p.2, r.2),
      )

  -- From any state of a selector with the law, whichever way it is set.
  pub pick_lopri_hosts-total :
      (downgrade_jobs downgrade_usage : Bool) (s : impl.State) (infos : List FlowInfo)
      (want : d.Carrier)
      → (r : impl.State × List Bool) × (pick_lopri_hosts d hash impl downgrade_jobs downgrade_usage
            s infos want
          ≡ some r)
        × (length r.1 ≡ length infos)
        × (downgrade_jobs ≡ true → KeepsJobs infos r.1)
  unfolding pick_lopri_hosts
  pick_lopri_hosts-total true downgrade_usage s infos want =
      let source = volume_source downgrade_usage in
      let p = pick_by_job-PicksJobs source s infos want in
      let g = job_level_view-IsGrouped hash source infos in
      (
        p.0,
        p.1,
        omega (arith, p.2.3.0, g.2),
        λ e i i' h h' q q' t.
            let n = g.0 i h q in
            let n' = g.0 i' h' q' in
            let m = g.1 i i' h h' n.0 n'.0 q q' n.1 n'.1 in
            ground (arith, m, t, p.2.3.1 i n.0 n.1, p.2.3.1 i' n'.0 n'.1),
      )
  pick_lopri_hosts-total false downgrade_usage s infos want =
      let source = volume_source downgrade_usage in
      let p = law s (host_level_view source infos) want in
      (p.0, p.1, p.2 ∙ length-host_level_view source infos, λ e. ground (arith, e))

-- Where what the solver puts in the knapsack fits and has the profit that it returns, as the selector
-- checks, and in a build without assertions (`NDEBUG`; the hash ring has some that fail): the
-- selector of every type that is supported picks hosts without a check that stops the process, from any
-- state of its own and whichever way it is set; it returns one choice per host, and where it picks jobs,
-- the hosts of a job get the same choice.
pub selector_of_type-total :
    (d : Double) (quotient : ℕ → ℕ → d.Carrier) (solver : KnapsackSolver d)
    (time_limit_sec : d.Carrier) (type : DowngradeSelectorType) (impl : SelectorImpl d)
    → IsSolver d solver
    → get_selector d quotient solver time_limit_sec type ≡ some impl
    → (hash : Bytes → ℕ) (downgrade_jobs downgrade_usage : Bool) (s : impl.State)
      (infos : List FlowInfo) (want : d.Carrier)
    → (r : impl.State × List Bool) × (pick_lopri_hosts d hash impl downgrade_jobs downgrade_usage s
          infos want
        ≡ some r)
      × (length r.1 ≡ length infos)
      × (downgrade_jobs ≡ true → KeepsJobs infos r.1)
selector_of_type-total d quotient solver limit type impl i e hash jobs usage s infos want =
    let law : IsPicking d impl =
      subst (IsPickingFor d type) e (get_selector-IsPicking d quotient solver i limit type) in
    pick_lopri_hosts-total d hash impl law jobs usage s infos want
