-- ===== src/FastAggregator.antt =====
-- The shards of heyp/cluster-agent/fast-aggregator.cc: `UpdateInfo` and the part of `CollectSnapshot`
-- that takes the data of a shard. A shard has two buffers and the id of the active one, which is -1
-- (here `none`) while an update writes; the ids 0 and 1 are false and true. Each access to a variable
-- that threads share is a step, so that a list of steps is any interleaving of any number of updates
-- with the one collector. An attempt at an exchange that fails changes nothing of the shard.
pub mod Exchange
mod Tests
use heyp_agents.Prelude.Maps.{lookup}
use heyp_agents.Prelude.{
  ℕ, zero, suc, ◌^◌, ◌%◌, Bool, true, false, not, List, [], ◌∷◌, ◌++◌, Option, none, some, map,
  if◌then◌else◌,
}
use heyp_agents.Markers.{FlowMarker}
use heyp_agents.Aggregator.{Report}
use heyp_agents.Cluster.HostPattern.{cluster_keys}

pub record Info : Type 0 where
  pub agg_id : ℕ
  pub child_id : ℕ
  pub volume_bps : ℕ
  pub currently_lopri : Bool

pub record HostInfoGen : Type 0 where
  pub host_id : ℕ
  pub gen : ℕ

pub record InfoShard : Type 0 where
  pub gens : List HostInfoGen
  pub infos : List Info

-- The shard of a host, whose id is cut to 32 bits.
unfoldable pub shard_of : ℕ → ℕ
shard_of host_id = (host_id % 2 ^ 32) % 8

-- What `UpdateInfo` gathers before it takes the shard.
unfoldable pub got_infos :
    {Aux : Type 0} → List (FlowMarker × ℕ) → ℕ → List (Report Aux) → List Info
unfolding cluster_keys
got_infos agg_flow_to_id host_id [] = []
got_infos agg_flow_to_id host_id (fi ∷ flow_infos) =
    let rest = got_infos agg_flow_to_id host_id flow_infos in
    elim (lookup fi.flow agg_flow_to_id) [
      | none ↦ rest
      | some agg_id ↦
          (record {
            agg_id = agg_id;
            child_id = host_id;
            volume_bps = fi.info.ewma_usage_bps;
            currently_lopri = fi.info.currently_lopri;
          })
          ∷ rest
    ]

-- What an update pushes to the buffer.
pub data Entry : Type 0 where
  an_info : Info → Entry
  a_gen : HostInfoGen → Entry

unfoldable pub update_entries :
    {Aux : Type 0} → List (FlowMarker × ℕ) → ℕ → ℕ → List (Report Aux) → List Entry
unfolding got_infos
update_entries agg_flow_to_id host_id gen flow_infos =
    map an_info (got_infos agg_flow_to_id host_id flow_infos)
    ++ a_gen (record { host_id = host_id; gen = gen }) ∷ []

abbrev pub empty_shard : InfoShard
empty_shard = record { gens = []; infos = [] }

abbrev pub push : InfoShard → Entry → InfoShard
push s (an_info i) = record s { infos = s.infos ++ i ∷ [] }
push s (a_gen g) = record s { gens = s.gens ++ g ∷ [] }

-- An update that has taken the shard: the buffer that it writes to, and what it has yet to push.
pub record Holder : Type 0 where
  pub cur_id : Bool
  pub left : List Entry

-- Where the loop of the collector stands.
pub data Phase : Type 0 where
  loads : Phase
  clears_gens clears_infos exchanges reads : Bool → Phase

-- `collected` is what the snapshots have had of the shard and `written` all that was ever pushed.
pub record Shard : Type 0 where
  pub buffer0 : InfoShard
  pub buffer1 : InfoShard
  pub active_id : Option Bool
  pub holders : List Holder
  pub phase : Phase
  pub collected : InfoShard
  pub written : InfoShard

abbrev pub buffer : Bool → Shard → InfoShard
buffer false s = s.buffer0
buffer true s = s.buffer1

abbrev pub set_buffer : Bool → InfoShard → Shard → Shard
set_buffer false b s = record s { buffer0 = b }
set_buffer true b s = record s { buffer1 = b }

-- `compare_exchange_strong` succeeds.
abbrev pub holds_id : Bool → Option Bool → Bool
holds_id cur_id none = false
holds_id false (some b) = not b
holds_id true (some b) = b

-- An update that has loaded `cur_id`, at any time before, tries to take the shard.
unfoldable pub acquire : Bool → List Entry → Shard → Shard
acquire cur_id entries s =
    if holds_id cur_id s.active_id
    then record s {
      active_id = none;
      holders = (record { cur_id = cur_id; left = entries }) ∷ s.holders;
    }
    else s

-- A push of what is left, or the store of the id, by a holder; the holder that remains.
abbrev pub push_next : Bool → List Entry → Shard → Shard × Option Holder
push_next c [] s = (record s { active_id = some c }, none)
push_next c (e ∷ es) s = (
  set_buffer c (push (buffer c s) e) (record s { written = push s.written e }),
  some (record { cur_id = c; left = es }),
)

abbrev pub keep : Option Holder → List Holder → List Holder
keep none hs = hs
keep (some h) hs = h ∷ hs

-- The next thing that the holder at an index does.
unfoldable pub go_on : ℕ → List Holder → Shard → Shard × List Holder
go_on n [] s = (s, [])
go_on zero (h ∷ hs) s = let r = push_next h.cur_id h.left s in (r.0, keep (r.1) hs)
go_on (suc n) (h ∷ hs) s = let r = go_on n hs s in (r.0, h ∷ r.1)

abbrev pub join : InfoShard → InfoShard → InfoShard
join s t = record { gens = s.gens ++ t.gens; infos = s.infos ++ t.infos }

-- The next thing that the collector does. After the exchange it reads the buffer that was active.
unfoldable pub collect : Phase → Shard → Shard
collect loads s = elim s.active_id [
  | none ↦ s
  | some cur_id ↦ record s { phase = clears_gens cur_id }
]
collect (clears_gens cur_id) s =
    set_buffer (not cur_id) (record (buffer (not cur_id) s) { gens = [] })
      (record s { phase = clears_infos cur_id })
collect (clears_infos cur_id) s =
    set_buffer (not cur_id) (record (buffer (not cur_id) s) { infos = [] })
      (record s { phase = exchanges cur_id })
collect (exchanges cur_id) s =
    if holds_id cur_id s.active_id
    then record s { active_id = some (not cur_id); phase = reads cur_id }
    else record s { phase = loads }
collect (reads cur_id) s = record s {
  collected = join s.collected (buffer cur_id s);
  phase = loads;
}

pub data Step : Type 0 where
  acquires : Bool → List Entry → Step
  goes_on : ℕ → Step
  collects : Step

unfoldable pub step : Step → Shard → Shard
unfolding acquire go_on collect
step (acquires cur_id entries) s = acquire cur_id entries s
step (goes_on n) s = let r = go_on n s.holders s in record (r.0) { holders = r.1 }
step collects s = collect s.phase s

unfoldable pub run : List Step → Shard → Shard
unfolding step
run [] s = s
run (x ∷ xs) s = run xs (step x s)

-- The constructor.
abbrev pub new_shard : Shard
new_shard = record {
  buffer0 = empty_shard;
  buffer1 = empty_shard;
  active_id = some false;
  holders = [];
  phase = loads;
  collected = empty_shard;
  written = empty_shard;
}
