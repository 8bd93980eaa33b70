-- ===== src/Flows.antt =====
-- heyp/flows/state.{h,cc}: the usage of a flow or of an aggregate of flows. A time is a number of
-- nanoseconds, `InfinitePast` is 0; counters of bytes are `int64_t` that do not overflow. Doubles,
-- the demand predictor and the auxiliary message are parameters; the flow's marker, which never
-- changes, and the logging are left out.
pub mod Leaf
pub mod Counters
pub mod History
pub mod Sample
mod Tests
use heyp_agents.Prelude.{
  ℕ, ◌+◌, ◌-◌, ◌*◌, Bool, true, false, not, ◌&&◌, ◌||◌, List, [], ◌∷◌, ◌++◌, Option, none, some,
  ltb, leb, ◌==◌, if◌then◌else◌,
}

-- The doubles of `UpdateUsage`: conversions, `absl::ToDoubleSeconds` and the operators it uses.
pub record RateMath : Type 1 where
  pub Carrier : Type 0
  pub of_int : ℕ → Carrier
  pub to_int : Carrier → ℕ
  pub to_seconds : ℕ → Carrier
  pub divide : Carrier → Carrier → Carrier
  pub times : Carrier → Carrier → Carrier
  pub plus : Carrier → Carrier → Carrier
  pub less : Carrier → Carrier → Bool
  pub is_zero : Carrier → Bool
  -- 0.3, and 1 - 0.3.
  pub alpha : Carrier
  pub one_minus_alpha : Carrier

pub record UsageHistoryEntry : Type 0 where
  pub time : ℕ
  pub bps : ℕ

abbrev pub DemandPredictor : Type 0
DemandPredictor = ℕ → List UsageHistoryEntry → ℕ

-- The fields of `proto::FlowInfo` that `UpdateUsage` sets.
pub record FlowInfo (Aux : Type 0) : Type 0 where
  pub currently_lopri : Bool
  pub cum_usage_bytes : ℕ
  pub cum_hipri_usage_bytes : ℕ
  pub cum_lopri_usage_bytes : ℕ
  pub ewma_usage_bps : ℕ
  pub ewma_hipri_usage_bps : ℕ
  pub ewma_lopri_usage_bps : ℕ
  pub predicted_demand_bps : ℕ
  pub aux : Option Aux

pub record Update (Aux : Type 0) : Type 0 where
  pub time : ℕ
  pub sum_child_usage_bps : ℕ
  pub sum_child_hipri_usage_bps : ℕ
  pub sum_child_lopri_usage_bps : ℕ
  pub cum_hipri_usage_bytes : ℕ
  pub cum_lopri_usage_bytes : ℕ
  pub aux : Option Aux

pub record AggState (Aux : Type 0) : Type 0 where
  pub usage_history : List UsageHistoryEntry
  pub updated_time : ℕ
  pub cur : FlowInfo Aux
  pub smooth_usage : Bool
  pub was_updated : Bool
  pub have_bps : Bool

-- The entries from the first one on that is not before a time.
unfoldable pub drop_before : ℕ → List UsageHistoryEntry → List UsageHistoryEntry
drop_before min_time [] = []
drop_before min_time (e ∷ history) =
    if leb min_time e.time then e ∷ history else drop_before min_time history

-- The garbage collection of old entries.
unfoldable pub collect : ℕ → ℕ → List UsageHistoryEntry → List UsageHistoryEntry
unfolding drop_before
collect now window [] = []
collect now window (e ∷ history) =
    if ltb (2 * window) (now - e.time)
    then drop_before (now - window) (e ∷ history)
    else e ∷ history

module _ (m : RateMath) where
  open m use {
    Carrier, of_int, to_int, to_seconds, divide, times, plus, less, alpha, one_minus_alpha,
  }

  -- The greater of the mean over the time since the last update and what the update measured.
  unfoldable pub measured : Bool → ℕ → ℕ → ℕ → Carrier
  measured was_updated usage_bytes dur child_bps =
      let mean = divide (of_int (8 * usage_bytes)) (to_seconds dur) in
      if was_updated && ltb 0 dur
      then (if less mean (of_int child_bps) then of_int child_bps else mean)
      else of_int child_bps

  unfoldable pub smoothed : Bool → Carrier → ℕ → ℕ
  smoothed smooth measured_bps ewma =
      if smooth
      then to_int (plus (times alpha measured_bps) (times one_minus_alpha (of_int ewma)))
      else to_int measured_bps

module _ {Aux : Type 0} where
  unfoldable pub new_agg_state : Bool → AggState Aux
  new_agg_state smooth_usage = record {
    usage_history = [];
    updated_time = 0;
    cur = record {
      currently_lopri = false;
      cum_usage_bytes = 0;
      cum_hipri_usage_bytes = 0;
      cum_lopri_usage_bytes = 0;
      ewma_usage_bps = 0;
      ewma_hipri_usage_bps = 0;
      ewma_lopri_usage_bps = 0;
      predicted_demand_bps = 0;
      aux = none;
    };
    smooth_usage = smooth_usage;
    was_updated = false;
    have_bps = false;
  }

  -- `is_lopri`: usage at LOPRI grew and usage at HIPRI did not.
  abbrev pub usage_is_lopri : Update Aux → FlowInfo Aux → Bool
  usage_is_lopri u cur =
      u.cum_hipri_usage_bytes == cur.cum_hipri_usage_bytes
      && ltb cur.cum_lopri_usage_bytes u.cum_lopri_usage_bytes

  abbrev set_aux : Option Aux → FlowInfo Aux → FlowInfo Aux
  set_aux none cur = cur
  set_aux (some aux) cur = record cur { aux = some aux }

  -- The setters of the priority and the counters, and of the time: they stand twice in the code.
  unfoldable pub set_counters : Update Aux → Bool → AggState Aux → AggState Aux
  set_counters u is_lopri s = record s {
    updated_time = u.time;
    cur = record (s.cur) {
      currently_lopri = is_lopri;
      cum_usage_bytes = u.cum_hipri_usage_bytes + u.cum_lopri_usage_bytes;
      cum_hipri_usage_bytes = u.cum_hipri_usage_bytes;
      cum_lopri_usage_bytes = u.cum_lopri_usage_bytes;
    };
  }

  module _ (m : RateMath) where
    open m use {is_zero}

    -- What follows once the update is used: the rates, the counters, the history, the prediction.
    unfoldable pub record_usage :
        DemandPredictor
        → ℕ
        → Update Aux
        → Bool
        → m.Carrier
        → m.Carrier
        → m.Carrier
        → AggState Aux
        → AggState Aux
    unfolding smoothed set_counters collect
    record_usage predictor window u is_lopri bps hipri_bps lopri_bps s =
        let smooth = s.have_bps && s.smooth_usage in
        let ewma = smoothed m smooth bps s.cur.ewma_usage_bps in
        let rated = record s {
          have_bps = true;
          cur = record (s.cur) {
            ewma_usage_bps = ewma;
            ewma_hipri_usage_bps = smoothed m smooth hipri_bps s.cur.ewma_hipri_usage_bps;
            ewma_lopri_usage_bps = smoothed m smooth lopri_bps s.cur.ewma_lopri_usage_bps;
          };
        } in
        let counted = set_counters u is_lopri rated in
        let history =
          collect u.time window (s.usage_history ++ record { time = u.time; bps = ewma } ∷ []) in
        record counted {
          usage_history = history;
          cur = record (counted.cur) { predicted_demand_bps = predictor u.time history };
        }

    -- `AggState::UpdateUsage` behind its checks.
    unfoldable pub use_update : DemandPredictor → ℕ → Update Aux → AggState Aux → AggState Aux
    unfolding measured record_usage set_counters
    use_update predictor window u s =
        let cur = s.cur in
        let is_lopri = usage_is_lopri u cur in
        let dur = u.time - s.updated_time in
        let usage = u.cum_hipri_usage_bytes + u.cum_lopri_usage_bytes - cur.cum_usage_bytes in
        let hipri = u.cum_hipri_usage_bytes - cur.cum_hipri_usage_bytes in
        let lopri = u.cum_lopri_usage_bytes - cur.cum_lopri_usage_bytes in
        let bps = measured m s.was_updated usage dur u.sum_child_usage_bps in
        let hipri_bps = measured m s.was_updated hipri dur u.sum_child_hipri_usage_bps in
        let lopri_bps = measured m s.was_updated lopri dur u.sum_child_lopri_usage_bps in
        let taken = record s { cur = set_aux u.aux cur } in
        let first = record (set_counters u is_lopri taken) { was_updated = true } in
        if s.was_updated
        then record_usage predictor window u is_lopri bps hipri_bps lopri_bps taken
        else if is_zero bps
        then first
        else record_usage predictor window u is_lopri bps hipri_bps lopri_bps first

    -- `AggState::UpdateUsage`; `none` is where a check stops the process.
    unfoldable pub update_usage :
        DemandPredictor → ℕ → Update Aux → AggState Aux → Option (AggState Aux)
    unfolding use_update
    update_usage predictor window u s =
        if ltb u.time s.updated_time
        then some s
        else if ltb u.cum_hipri_usage_bytes s.cur.cum_hipri_usage_bytes
            || ltb u.cum_lopri_usage_bytes s.cur.cum_lopri_usage_bytes
        then none
        else some (use_update predictor window u s)
