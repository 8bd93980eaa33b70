-- ===== src/FastController.antt =====
-- The state of a child of heyp/cluster-agent/fast-controller.cc: which aggregates it is to send at LOPRI,
-- and the bundle that tells it so.
pub mod Decisions
pub mod Selected
mod Tests
use heyp_agents.Prelude.{
  ℕ, zero, suc, ◌-◌, ◌+◌, ◌*◌, ◌^◌, Bool, true, false, List, [], ◌∷◌, ◌++◌, Option, none, some, map,
  leb, length, get_elem?, set, if◌then◌else◌,
}
use heyp_agents.Markers.{FlowMarker}
use heyp_agents.Enforcer.{FlowAlloc}

pub record ChildState (F : Type 0) : Type 0 where
  pub broadcasted_latest_state : Bool
  pub saw_data_this_run : Bool
  pub gen_seen : ℕ
  pub agg_is_lopri : List Bool
  pub lis_new_bundle_funcs : List (ℕ × F)

abbrev pub falses : ℕ → List Bool
falses zero = []
falses (suc n) = false ∷ falses n

-- `resize(n, false)` to a greater size.
abbrev pub resize : List Bool → ℕ → List Bool
resize l n = l ++ falses (n - length l)

unfoldable pub set_agg_is_lopri : ℕ → Bool → List Bool → List Bool
set_agg_is_lopri agg_id is_lopri agg_is_lopri =
    if leb (length agg_is_lopri) agg_id
    then set (resize agg_is_lopri (agg_id + 1)) agg_id is_lopri
    else set agg_is_lopri agg_id is_lopri

abbrev pub k_max_child_bandwidth_bps : ℕ
k_max_child_bandwidth_bps = 100 * 2 ^ 30

-- The allocation of an aggregate at a priority.
abbrev pub child_alloc : FlowMarker → Bool → FlowAlloc
child_alloc flow true = record {
  flow = flow;
  hipri_rate_limit_bps = 0;
  lopri_rate_limit_bps = k_max_child_bandwidth_bps;
}
child_alloc flow false = record {
  flow = flow;
  hipri_rate_limit_bps = k_max_child_bandwidth_bps;
  lopri_rate_limit_bps = 0;
}

abbrev pub or_false : Option Bool → Bool
or_false none = false
or_false (some b) = b

-- The loop over the bundle from an index on.
unfoldable pub child_allocs : List Bool → ℕ → List FlowMarker → List FlowAlloc
child_allocs agg_is_lopri i [] = []
child_allocs agg_is_lopri i (flow ∷ agg_id2flow) =
    child_alloc flow (or_false (get_elem? agg_is_lopri i))
    ∷ child_allocs agg_is_lopri (i + 1) agg_id2flow

pub record SentBundle : Type 0 where
  pub gen : ℕ
  pub flow_allocs : List FlowAlloc

module _ {F : Type 0} where
  abbrev pub child_bundle : List FlowMarker → ChildState F → SentBundle
  unfolding child_allocs
  child_bundle agg_id2flow state = record {
    gen = if state.saw_data_this_run then state.gen_seen else 0;
    flow_allocs = child_allocs state.agg_is_lopri 0 agg_id2flow;
  }

  -- The calls of the listeners; `none`: the check of the size stops the process.
  unfoldable pub broadcast_state_unconditional :
      List FlowMarker → ChildState F → Option (List ((ℕ × F) × SentBundle))
  broadcast_state_unconditional agg_id2flow state =
      if leb (length state.agg_is_lopri) (length agg_id2flow)
      then some (map (λ f. (f, child_bundle agg_id2flow state)) state.lis_new_bundle_funcs)
      else none

  unfoldable pub broadcast_state_if_updated :
      List FlowMarker → ChildState F → Option (ChildState F × List ((ℕ × F) × SentBundle))
  unfolding broadcast_state_unconditional
  broadcast_state_if_updated agg_id2flow state =
      if state.broadcasted_latest_state
      then some (state, [])
      else elim (broadcast_state_unconditional agg_id2flow state) [
        | none ↦ none
        | some calls ↦ some (record state { broadcasted_latest_state = true }, calls)
      ]

  -- What `ComputeAndBroadcast` does to a child that a selector of an aggregate picks.
  unfoldable pub decide : ChildState F → ℕ × Bool → ChildState F
  unfolding set_agg_is_lopri
  decide state (agg_id, is_lopri) = record state {
    agg_is_lopri = set_agg_is_lopri agg_id is_lopri state.agg_is_lopri;
    broadcasted_latest_state = false;
  }
