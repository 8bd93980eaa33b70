-- ===== src/Iptables/Controller/History.antt =====
-- The controller of heyp/host-agent/linux-enforcer/iptables-controller.cc over time, beside the
-- table that the text of its requests changes.
use heyp_agents.Prelude.Text.{Bytes}
use heyp_agents.Prelude.Algorithms.{IsSorted}
use heyp_agents.Prelude.{true, false, ◌≡◌, refl, ap, sym, ◌∙◌, List, [], ◌∷◌, ◌++◌, arith, total}
use heyp_agents.Prelude.Text.{codes}
use heyp_agents.Iptables.Setting.{Setting}
use heyp_agents.Iptables.Setting.Laws.{setting_order}
use heyp_agents.Iptables.Rules.{lines_text, add_rule_lines_to_delete, add_rule_lines_to_add}
use heyp_agents.Iptables.Controller.{
  Controller, ok, Runner, Request, Outcome, restore_request, new_controller, clear, stage, diffed,
  committed, commit_changes, mangle_table, header, footer,
}
use heyp_agents.Iptables.Controller.Commit.{
  diffed-count, diffed-total, quiet, changed, failed, commit_changes-Commits,
}
use heyp_agents.Iptables.Controller.Kernel.{
  Kernel, Restored, Reads, rules_for, wanted, do_lines, do_batches, batches_text,
}

any : Setting
any = record { src_port = 0; dst_port = 0; dst_addr = []; class_id = []; dscp = [] }

pub data Op : Type 0 where
  stages : Setting → Op
  commits clears : Op

pub record System : Type 0 where
  pub controller : Controller
  pub installed : Kernel

-- A call leaves the controller as it returns it, and the table as its request makes it.
abbrev pub Follows : Outcome → System → System → Type 0
Follows o y y' =
    (y'.controller ≡ o.state)
    × Restored y.controller.dev o.request o.status y.installed y'.installed

abbrev pub StepsTo : Runner → Op → System → System → Type 0
StepsTo runner (stages s) y y' = y' ≡ record y { controller = stage s y.controller }
StepsTo runner commits y y' = Follows (commit_changes runner y.controller) y y'
StepsTo runner clears y y' = Follows (clear runner y.controller) y y'

abbrev pub RunsTo : Runner → List Op → System → System → Type 0
RunsTo runner [] y y' = y' ≡ y
RunsTo runner (op ∷ ops) y y' = (z : System) × StepsTo runner op y z × RunsTo runner ops z y'

-- The rules in the table are those of the applied settings, and no change is pending. No class is
-- ignored, since a rule that is not added for this reason is deleted all the same.
pub record IsSynced (y : System) : Type 0 where
  pub agrees : (text : Bytes) → y.installed text ≡ wanted y.controller.dev text y.controller.applied
  pub no_add : y.controller.to_add ≡ []
  pub no_del : y.controller.to_del ≡ []
  pub sorted : IsSorted y.controller.applied
  pub none_ignored : y.controller.dscps_to_ignore_class_id ≡ []

abbrev pub Answers : Runner → Type 0
Answers runner = (r : Request) → runner r ≡ ok

-- The books agree with a table that holds the staged settings, once these are committed.
committed-IsSynced :
    (c : Controller) (k : Kernel)
    → c.dscps_to_ignore_class_id ≡ []
    → ((text : Bytes) → k text ≡ wanted c.dev text (diffed c).staged)
    → IsSynced (record { controller = committed (diffed c); installed = k })
unfolding committed diffed
committed-IsSynced c k i h = record {
  agrees = h;
  no_add = refl;
  no_del = refl;
  sorted = (diffed-count any c).3;
  none_ignored = i;
}

-- A commit from agreeing books: where the table is after it, and how it got there.
record Commits (runner : Runner) (y y' : System) : Type 0 where
  follows : StepsTo runner commits y y'
  synced : IsSynced y'
  installs : (text : Bytes) → y'.installed text ≡ wanted y.controller.dev text y.controller.staged

changed_table :
    (y : System)
    → IsSynced y
    → let d = diffed y.controller in
      let r = restore_request (mangle_table d) false in
      (k : Kernel) × Reads y.controller.dev r y.installed k
      × ((text : Bytes) → k text ≡ wanted y.controller.dev text y.controller.staged)
unfolding mangle_table diffed
changed_table y h =
    let c = y.controller in
    let d = diffed c in
    let sums = λ (text : Bytes). diffed-total (rules_for c.dev text) c h.no_del h.no_add in
    let (k, e, q) =
      do_batches c.dev d.to_del d.to_add y.installed
        (λ text. omega (arith, sums text, h.agrees text)) in
    (
      k,
      record {
        mangle = refl;
        lines = add_rule_lines_to_delete d.to_del ++ add_rule_lines_to_add [] d.to_add;
        text =
            ap
              (λ ignored.
                header
                ++ (lines_text c.dev (add_rule_lines_to_delete d.to_del)
                    ++ (lines_text c.dev (add_rule_lines_to_add ignored d.to_add) ++ footer)))
              h.none_ignored
            ∙ batches_text c.dev d.to_del d.to_add;
        does = e;
      },
      λ text. omega (arith, q text, sums text, h.agrees text),
    )

after_commit :
    (y : System) (k : Kernel)
    → IsSynced y
    → ((text : Bytes) → k text ≡ wanted y.controller.dev text y.controller.staged)
    → IsSynced (record { controller = committed (diffed y.controller); installed = k })
after_commit y k h q = committed-IsSynced y.controller k h.none_ignored (λ text.
    q text ∙ sym (diffed-total (rules_for y.controller.dev text) y.controller h.no_del h.no_add).2)

quiet_table :
    (y : System) (text : Bytes)
    → IsSynced y
    → (diffed y.controller).to_del ≡ []
    → (diffed y.controller).to_add ≡ []
    → y.installed text ≡ wanted y.controller.dev text y.controller.staged
quiet_table y text h p q =
    let f = rules_for y.controller.dev text in
    let sums = diffed-total f y.controller h.no_del h.no_add in
    omega (arith, sums, h.agrees text, ap (total f) p, ap (total f) q)

commit-Commits :
    (runner : Runner) (y : System)
    → Answers runner
    → IsSynced y
    → (y' : System) × Commits runner y y'
commit-Commits runner y a h = elim (commit_changes-Commits runner y.controller) [
  | quiet p q e ↦ (
    record { controller = committed (diffed y.controller); installed = y.installed },
    record {
      follows = rw e (refl, refl);
      synced = after_commit y y.installed h (λ text. quiet_table y text h p q);
      installs = λ text. quiet_table y text h p q;
    },
  )
  | changed r e ↦
      let (k, reads, q) = changed_table y h in
      (
        record { controller = committed (diffed y.controller); installed = k },
        record { follows = rw e (refl, reads); synced = after_commit y k h q; installs = q },
      )
  | failed m r e ↦ cc (a (restore_request (mangle_table (diffed y.controller)) false))
]

-- From agreeing books, where the runner does not fail and no class is ignored, `iptables-restore` can
-- carry out the text that a commit hands to it, as it deletes no rule that is not there; the table then
-- has each rule exactly as often as the staged settings ask for it, and the books agree again.
pub commit-installs_staged :
    (runner : Runner) (y : System)
    → Answers runner
    → IsSynced y
    → (y' : System) × StepsTo runner commits y y'
      × IsSynced y'
      × ((text : Bytes) → y'.installed text ≡ wanted y.controller.dev text y.controller.staged)
commit-installs_staged runner y a h =
    let (y', c) = commit-Commits runner y a h in (y', c.follows, c.synced, c.installs)

clear-IsSynced :
    (runner : Runner) (y : System)
    → Answers runner
    → IsSynced y
    → (y' : System) × StepsTo runner clears y y' × IsSynced y'
unfolding clear do_lines lines_text
clear-IsSynced runner y a h = (
  record { controller = record (y.controller) { applied = [] }; installed = λ t. 0 },
  (
    refl,
    rw (a (restore_request (codes "*mangle\nCOMMIT\n") true))
        (record { mangle = refl; lines = []; text = refl; does = refl }),
  ),
  record {
    agrees = λ text. refl;
    no_add = h.no_add;
    no_del = h.no_del;
    sorted = tt;
    none_ignored = h.none_ignored;
  },
)

pub step-IsSynced :
    (runner : Runner) (op : Op) (y : System)
    → Answers runner
    → IsSynced y
    → (y' : System) × StepsTo runner op y y' × IsSynced y'
unfolding stage
step-IsSynced runner (stages s) y a h = (
  record y { controller = stage s y.controller },
  refl,
  record {
    agrees = h.agrees;
    no_add = h.no_add;
    no_del = h.no_del;
    sorted = h.sorted;
    none_ignored = h.none_ignored;
  },
)
step-IsSynced runner commits y a h =
    let (y', c) = commit-Commits runner y a h in (y', c.follows, c.synced)
step-IsSynced runner clears y a h = clear-IsSynced runner y a h

run-IsSynced :
    (runner : Runner) (ops : List Op) (y : System)
    → Answers runner
    → IsSynced y
    → (y' : System) × RunsTo runner ops y y' × IsSynced y'
run-IsSynced runner [] y a h = (y, refl, h)
run-IsSynced runner (op ∷ ops) y a h =
    let (z, s, hz) = step-IsSynced runner op y a h in
    let (y', r, hy) = run-IsSynced runner ops z a hz in (y', (z, s, r), hy)

-- A new controller over a flushed table, which ignores no class.
abbrev pub initial : Bytes → System
initial dev = record { controller = new_controller dev []; installed = λ x. 0 }

pub initial-IsSynced : (dev : Bytes) → IsSynced (initial dev)
unfolding new_controller
initial-IsSynced dev = record {
  agrees = λ x. refl;
  no_add = refl;
  no_del = refl;
  sorted = tt;
  none_ignored = refl;
}

-- As long as the runner never fails and no class is ignored, after any calls from a new controller over
-- an empty table `iptables-restore` can carry out all that it was handed, the rules in the table are
-- those of the applied settings, nothing is pending and the applied batch is sorted.
pub run-initial-IsSynced :
    (runner : Runner) (ops : List Op) (dev : Bytes)
    → Answers runner
    → (y : System) × RunsTo runner ops (initial dev) y × IsSynced y
run-initial-IsSynced runner ops dev a =
    run-IsSynced runner ops (initial dev) a (initial-IsSynced dev)
