-- ===== src/Downgrade.antt =====
-- heyp/alg/downgrade and heyp/alg/agg-info-views.h: the selectors that pick which children of an
-- aggregate are sent at low priority (LOPRI).
pub mod View
pub mod Diff
pub mod Hashing
pub mod Greedy
pub mod ByDemand
pub mod Knapsack
pub mod Lengths
mod Tests
