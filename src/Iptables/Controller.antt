-- ===== src/Iptables/Controller.antt =====
-- `ComputeDiff` and `Controller` of heyp/host-agent/linux-enforcer/iptables-controller.cc. What
-- `iptables-restore` answers is an argument of the calls that run it.
pub mod Commit
pub mod Kernel
pub mod History
use heyp_agents.Prelude.Text.{Bytes}
use heyp_agents.Prelude.Text.{codes}
use heyp_agents.Prelude.Algorithms.{sort, set_difference}
use heyp_agents.Prelude.{
  Bool, true, false, List, [], ◌∷◌, ◌++◌, ◌==◌, if◌then◌else◌, length, Option, none, some,
}
use heyp_agents.Iptables.Setting.{Setting}
use heyp_agents.Iptables.Setting.Laws.{setting_order}
use heyp_agents.Iptables.Rules.{
  SmallStringSet, lines_text, add_rule_lines_to_delete, add_rule_lines_to_add,
}

pub data Status : Type 0 where
  ok : Status
  internal_error : Bytes → Status

-- Old and new batch as sorting leaves them, and what is appended to `to_del` and to `to_add`; each
-- of these two may be null.
pub record Diff : Type 0 where
  pub old_batch : List Setting
  pub new_batch : List Setting
  pub to_del : Option (List Setting)
  pub to_add : Option (List Setting)

abbrev append_to : Option (List Setting) → List Setting → Option (List Setting)
append_to none found = none
append_to (some batch) found = some (batch ++ found)

unfoldable pub compute_diff :
    List Setting → List Setting → Option (List Setting) → Option (List Setting) → Diff
compute_diff old_batch new_batch to_del to_add =
    let old_vec = sort old_batch in
    let new_vec = sort new_batch in
    record {
      old_batch = old_vec;
      new_batch = new_vec;
      to_del = append_to to_del (set_difference old_vec new_vec);
      to_add = append_to to_add (set_difference new_vec old_vec);
    }

-- `Table` and `RestoreFlags` of heyp/host-agent/linux-enforcer/iptables.h.
pub data Table : Type 0 where
  k_nat k_filter k_mangle : Table

pub record RestoreFlags : Type 0 where
  pub flush_tables : Bool
  pub restore_counters : Bool

-- A call of `RunnerIface::Restore`, and the runner's answer to such a call.
pub record Request : Type 0 where
  pub table : Table
  pub contents : Bytes
  pub flags : RestoreFlags

abbrev pub Runner : Type 0
Runner = Request → Status

pub record Controller : Type 0 where
  pub dev : Bytes
  pub dscps_to_ignore_class_id : SmallStringSet
  pub staged : List Setting
  pub applied : List Setting
  pub to_add : List Setting
  pub to_del : List Setting

-- The state after a call, its status, and the call of the runner if there was one.
pub record Outcome : Type 0 where
  pub state : Controller
  pub status : Status
  pub request : Option Request

unfoldable pub new_controller : Bytes → SmallStringSet → Controller
new_controller dev dscps = record {
  dev = dev;
  dscps_to_ignore_class_id = dscps;
  staged = [];
  applied = [];
  to_add = [];
  to_del = [];
}

abbrev pub header : Bytes
header = codes "*mangle\n"

abbrev pub footer : Bytes
footer = codes "COMMIT\n"

abbrev pub restore_request : Bytes → Bool → Request
restore_request contents flush = record {
  table = k_mangle;
  contents = contents;
  flags = record { flush_tables = flush; restore_counters = false };
}

abbrev wrap_error : Bytes → Status → Status
wrap_error prefix ok = ok
wrap_error prefix (internal_error message) = internal_error (prefix ++ message)

unfoldable pub clear : Runner → Controller → Outcome
clear runner c =
    let request = restore_request (codes "*mangle\nCOMMIT\n") true in
    record {
      state = record c { applied = [] };
      status = wrap_error (codes "failed to flush iptables 'mangle' table: ") (runner request);
      request = some request;
    }

unfoldable pub stage : Setting → Controller → Controller
stage setting c = record c { staged = c.staged ++ setting ∷ [] }

abbrev or_empty : Option (List Setting) → List Setting
or_empty none = []
or_empty (some batch) = batch

-- The first line of `CommitChanges`.
unfoldable pub diffed : Controller → Controller
diffed c =
    let d = compute_diff c.applied c.staged (some c.to_del) (some c.to_add) in
    record c {
      applied = d.old_batch;
      staged = d.new_batch;
      to_del = or_empty d.to_del;
      to_add = or_empty d.to_add;
    }

unfoldable pub mangle_table : Controller → Bytes
mangle_table c =
    header
    ++ (lines_text c.dev (add_rule_lines_to_delete c.to_del)
        ++ (lines_text c.dev (add_rule_lines_to_add c.dscps_to_ignore_class_id c.to_add) ++ footer))

-- The end of `CommitChanges` where the table is as staged.
unfoldable pub committed : Controller → Controller
committed c = record c { to_del = []; to_add = []; applied = c.staged; staged = [] }

-- The branch of `CommitChanges` where the runner fails.
unfoldable pub rolled_back : Controller → Controller
rolled_back c = record c { to_del = c.to_del ++ c.to_add; to_add = []; applied = []; staged = [] }

after_restore : Controller → Request → Status → Outcome
after_restore c request ok = record { state = committed c; status = ok; request = some request }
after_restore c request (internal_error message) = record {
  state = rolled_back c;
  status = internal_error (codes "failed to update iptables 'mangle' table: " ++ message);
  request = some request;
}

unfoldable pub commit_changes : Runner → Controller → Outcome
unfolding after_restore
commit_changes runner before =
    let c = diffed before in
    let contents = mangle_table c in
    let request = restore_request contents false in
    if length contents == length (header ++ footer)
    then record { state = committed c; status = ok; request = none }
    else after_restore c request (runner request)
