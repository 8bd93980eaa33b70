-- ===== src/Downgrade/View.antt =====
-- `ChildFlowInfo` of heyp/alg/agg-info-views.h. An `AggInfoView` is the list of its children: the
-- selectors use the parent for logs alone.
use heyp_agents.Prelude.{ℕ, Bool}

pub record ChildFlowInfo : Type 0 where
  pub child_id : ℕ
  pub volume_bps : ℕ
  pub currently_lopri : Bool
