-- ===== src/Enforcer/Traffic.antt =====
-- What heyp/host-agent/linux-enforcer/enforcer.cc has `tc` do: `StageTrafficControlForFlow` and the
-- parts of `EnforceAllocs` that look after one flow at one priority.
use heyp_agents.Prelude.Text.{Bytes}
use heyp_agents.Prelude.Text.{codes, decimal}
use heyp_agents.Prelude.{
  ℕ, ◌+◌, ◌-◌, ◌^◌, ◌==◌, max, Bool, true, false, not, ◌&&◌, ◌||◌, List, [], ◌∷◌, ◌++◌, Option,
  none, some, ltb, if◌then◌else◌,
}
use heyp_agents.Markers.{FlowMarker, is_blank}
use heyp_agents.Datacenters.{
  NetemConfig, NetemDelayDist, netem_no_dist, netem_normal, netem_uniform, netem_pareto,
  netem_paretonormal,
}
use heyp_agents.Enforcer.{HostEnforcerConfig, Priority, is_empty}

-- A line of the input of `tc -batch`, with the class that it is about.
pub data TcLine : Type 0 where
  class_add : Bytes → ℕ → TcLine
  class_change : Bytes → ℕ → TcLine
  netem_add : Bytes → NetemConfig → TcLine

-- How `absl::StrFormat` writes doubles with `%f`: a rate in units of 2^20, and a double by its bits.
pub record Formats : Type 0 where
  pub show_mbit : ℕ → Bytes
  pub show_double : ℕ → Bytes

-- `%d` of an `int32_t` by its bits.
abbrev signed_decimal : ℕ → Bytes
signed_decimal n = if ltb n (2 ^ 31) then decimal n else b'-' ∷ decimal (2 ^ 32 - n)

abbrev dist_name : NetemDelayDist → Bytes
dist_name netem_no_dist = codes "UNKNOWN_NETEM_DIST"
dist_name netem_normal = codes "normal"
dist_name netem_uniform = codes "uniform"
dist_name netem_pareto = codes "pareto"
dist_name netem_paretonormal = codes "paretonormal"

abbrev has_dist : NetemDelayDist → Bool
has_dist netem_no_dist = false
has_dist netem_normal = true
has_dist netem_uniform = true
has_dist netem_pareto = true
has_dist netem_paretonormal = true

-- `absl::StripPrefix(class_id, "1:")`.
abbrev strip_class_prefix : Bytes → Bytes
strip_class_prefix [] = []
strip_class_prefix (x ∷ []) = x ∷ []
strip_class_prefix (x ∷ y ∷ rest) = if x == b'1' && y == b':' then rest else x ∷ y ∷ rest

module _ (formats : Formats) (device : Bytes) (config : HostEnforcerConfig) where
  abbrev burst_arg : Bytes
  burst_arg =
      if ltb 0 config.pacing_burst_bytes
      then codes " burst " ++ decimal config.pacing_burst_bytes ++ codes "b"
      else []

  abbrev class_text : Bytes → Bytes → ℕ → Bytes
  class_text verb class_id rate =
      codes "class "
      ++ verb
      ++ codes " dev "
      ++ device
      ++ codes " parent 1: classid "
      ++ class_id
      ++ codes " htb rate "
      ++ formats.show_mbit rate
      ++ codes "mbit"
      ++ burst_arg
      ++ codes "\n"

  abbrev dist_str : NetemConfig → Bytes
  dist_str netem =
      if has_dist netem.delay_dist
      then codes " "
        ++ signed_decimal netem.delay_jitter_ms
        ++ codes "ms "
        ++ formats.show_double netem.delay_correlation_pct
        ++ codes "% distribution "
        ++ dist_name netem.delay_dist
      else []

  unfoldable pub tc_text : TcLine → Bytes
  unfolding decimal
  tc_text (class_add class_id rate) = class_text (codes "add") class_id rate
  tc_text (class_change class_id rate) = class_text (codes "change") class_id rate
  tc_text (netem_add class_id netem) =
      codes "qdisc add dev "
      ++ device
      ++ codes " parent "
      ++ class_id
      ++ codes " handle "
      ++ strip_class_prefix class_id
      ++ codes ":0 netem limit 100000 delay "
      ++ signed_decimal netem.delay_ms
      ++ codes "ms"
      ++ dist_str netem
      ++ codes "\n"

  unfoldable pub batch_text : List TcLine → Bytes
  batch_text [] = []
  batch_text (l ∷ lines) = tc_text l ++ batch_text lines

pub data Pri : Type 0 where
  k_hipri k_lopri : Pri

-- A `FlowSys::Priority*`: the flow of its entry, and which of the two it is.
pub record PriorityPtr : Type 0 where
  pub flow : FlowMarker
  pub pri : Pri

-- What the loops of a call add to, `next_class_id_` included.
pub record Staging : Type 0 where
  pub next_class_id : ℕ
  pub tc_batch_input : List TcLine
  pub classes_to_create : List PriorityPtr
  pub create_count : ℕ
  pub update_count : ℕ

abbrev pub new_staging : ℕ → Staging
new_staging next_class_id = record {
  next_class_id = next_class_id;
  tc_batch_input = [];
  classes_to_create = [];
  create_count = 0;
  update_count = 0;
}

abbrev netem_lines : Bytes → Option NetemConfig → List TcLine
netem_lines class_id none = []
netem_lines class_id (some netem) = netem_add class_id netem ∷ []

abbrev pub pointed : Option PriorityPtr → List PriorityPtr
pointed none = []
pointed (some ptr) = ptr ∷ []

abbrev pub class_name : ℕ → Bytes
class_name n = codes "1:" ++ decimal n

-- `class_id = StrCat("1:", next_class_id_++)`, where there is none.
unfoldable pub with_class_id : Priority × Staging → Priority × Staging
with_class_id (sys, st) =
    if is_blank sys.class_id
    then (
      record sys { class_id = class_name st.next_class_id },
      record st { next_class_id = st.next_class_id + 1 },
    )
    else (sys, st)

-- `ptr` is given where `classes_to_create` is not null.
unfoldable pub stage_traffic_control_for_flow :
    HostEnforcerConfig
    → ℕ
    → Option NetemConfig
    → Option PriorityPtr
    → Priority
    → Staging
    → Priority × Staging
unfolding with_class_id
stage_traffic_control_for_flow config rate_limit_bps netem_config ptr old counters =
    let rate = max rate_limit_bps config.min_rate_limit_bps in
    let named = with_class_id (old, counters) in
    let sys = named.0 in
    let st = named.1 in
    if not sys.did_create_class
    then (
      sys,
      record st {
        tc_batch_input =
            st.tc_batch_input
            ++ class_add sys.class_id rate ∷ netem_lines sys.class_id netem_config;
        classes_to_create = st.classes_to_create ++ pointed ptr;
        create_count = st.create_count + 1;
      },
    )
    else if not (is_empty sys.matched)
    then (
      sys,
      record st {
        tc_batch_input = st.tc_batch_input ++ class_change sys.class_id rate ∷ [];
        update_count = st.update_count + 1;
      },
    )
    else (sys, st)

-- The early update of one priority in `EnforceAllocs`.
unfoldable pub early_update :
    HostEnforcerConfig → PriorityPtr → ℕ → Priority → Staging → Priority × Staging
early_update config ptr new_limit sys st =
    let must_create = is_blank sys.class_id && not (is_empty sys.matched) in
    let staged = stage_traffic_control_for_flow config new_limit none (some ptr) sys st in
    if must_create || ltb sys.cur_rate_limit_bps new_limit
    then (
      record (staged.0) { update_after_ipt_change = false; cur_rate_limit_bps = new_limit },
      staged.1,
    )
    else if ltb new_limit sys.cur_rate_limit_bps
    then (record sys { update_after_ipt_change = true; cur_rate_limit_bps = new_limit }, st)
    else (record sys { cur_rate_limit_bps = new_limit }, st)

-- The late update of one priority in `EnforceAllocs`.
unfoldable pub late_update : HostEnforcerConfig → Priority → Staging → Priority × Staging
late_update config sys st =
    let staged = stage_traffic_control_for_flow config sys.cur_rate_limit_bps none none sys st in
    if sys.update_after_ipt_change
    then (record (staged.0) { update_after_ipt_change = false }, staged.1)
    else (sys, st)
