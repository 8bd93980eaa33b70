-- ===== src/FastAggregator/Tests.antt =====
-- Tests of the shards of heyp/cluster-agent/fast-aggregator.cc.
use heyp_agents.Prelude.{true, false, List, [], ◌∷◌, ◌≡◌, refl, length}
use heyp_agents.FastAggregator.{
  Entry, an_info, a_gen, Step, acquires, goes_on, collects, run, new_shard, shard_of,
}
use heyp_agents.FastAggregator.Exchange.{IsBalanced, run-IsBalanced}

abbrev entries : List Entry
entries =
    an_info (record { agg_id = 2; child_id = 9; volume_bps = 100; currently_lopri = false })
    ∷ a_gen (record { host_id = 9; gen = 4 })
    ∷ []

-- The collector clears the second buffer, an update takes the shard, the exchange fails, and is tried
-- again when the update is done; another update with a stale id fails meanwhile.
abbrev contended : List Step
contended =
    collects
    ∷ collects
    ∷ acquires false entries
    ∷ goes_on 0
    ∷ collects
    ∷ collects
    ∷ goes_on 0
    ∷ goes_on 0
    ∷ collects
    ∷ collects
    ∷ collects
    ∷ collects
    ∷ acquires false entries
    ∷ acquires true entries
    ∷ goes_on 0
    ∷ collects
    ∷ []

run-contended :
    (length (run contended new_shard).collected.infos ≡ 1)
    × (length (run contended new_shard).collected.gens ≡ 1)
    × (length (run contended new_shard).buffer1.infos ≡ 1)
    × (length (run contended new_shard).holders ≡ 1)
unfolding run
run-contended = (refl, refl, refl, refl)

run-IsBalanced_example : IsBalanced (run contended new_shard)
run-IsBalanced_example = run-IsBalanced contended

shard_of_host : shard_of 12 ≡ 4
unfolding shard_of
shard_of_host = refl
