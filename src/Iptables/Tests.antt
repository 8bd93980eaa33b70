-- ===== src/Iptables/Tests.antt =====
-- Runs of the controller, some of heyp/host-agent/linux-enforcer/iptables-controller-test.cc, and
-- the theorems at concrete inputs.
use heyp_agents.Prelude.Text.{Bytes}
use heyp_agents.Prelude.Text.{codes}
use heyp_agents.Prelude.Algorithms.{sort}
use heyp_agents.Prelude.{◌≡◌, refl, List, [], ◌∷◌, ◌++◌, arith}
use heyp_agents.Iptables.Setting.{Setting, setting_less, bytes_less}
use heyp_agents.Iptables.Setting.Laws.{setting_order}
use heyp_agents.Iptables.Rules.{
  lines_text, add_rule_lines_to_delete, add_rule_lines_to_add, output, lines_to_add,
}
use heyp_agents.Iptables.Rules.Laws.{apply_lines, block, lines_to_add-block}
use heyp_agents.Iptables.Controller.{Runner, ok}
use heyp_agents.Iptables.Controller.Kernel.{wanted}
use heyp_agents.Iptables.Controller.History.{
  System, IsSynced, StepsTo, RunsTo, Answers, Op, stages, commits, clears, initial,
  commit-installs_staged, run-initial-IsSynced,
}
use heyp_agents.Iptables.Lookup.{settings_find_dscp, search_key, has_key}
use heyp_agents.Iptables.Lookup.Order.{find_dscp-disagrees}

abbrev loopback : Setting
loopback = record {
  src_port = 0;
  dst_port = 0;
  dst_addr = codes "127.0.0.1";
  class_id = codes "1:45";
  dscp = codes "AF3";
}

abbrev by_source : Setting
by_source = record {
  src_port = 20;
  dst_port = 0;
  dst_addr = codes "10.0.0.1";
  class_id = codes "2:101";
  dscp = codes "AF41";
}

abbrev by_destination : Setting
by_destination = record {
  src_port = 0;
  dst_port = 555;
  dst_addr = codes "10.0.0.1";
  class_id = codes "2:100";
  dscp = codes "AF31";
}

abbrev works : Runner
works r = ok

abbrev eth5 : Bytes
eth5 = codes "eth5"

delete_text :
    lines_text (codes "eth5") (add_rule_lines_to_delete (by_destination ∷ []))
    ≡ codes
        "-D OUTPUT -o eth5 -p tcp -m tcp -d 10.0.0.1 --dport 555 -j CLASSIFY --set-class 2:100\n"
      ++ codes
          "-D FORWARD -o eth5 -p tcp -m tcp -d 10.0.0.1 --dport 555 -j CLASSIFY --set-class 2:100\n"
      ++ codes
          "-D OUTPUT -o eth5 -p tcp -m tcp -d 10.0.0.1 --dport 555 -j DSCP --set-dscp-class AF31\n"
      ++ codes
          "-D FORWARD -o eth5 -p tcp -m tcp -d 10.0.0.1 --dport 555 -j DSCP --set-dscp-class AF31\n"
      ++ codes "-D OUTPUT -o eth5 -p tcp -m tcp -d 10.0.0.1 --dport 555 -j RETURN\n"
      ++ codes "-D FORWARD -o eth5 -p tcp -m tcp -d 10.0.0.1 --dport 555 -j RETURN\n"
unfolding lines_text add_rule_lines_to_delete
delete_text = refl

add_text :
    lines_text (codes "eth5") (add_rule_lines_to_add (codes "AF3" ∷ []) (loopback ∷ []))
    ≡ codes "-A OUTPUT -o eth5 -p tcp -m tcp -d 127.0.0.1 -j DSCP --set-dscp-class AF3\n"
      ++ codes "-A FORWARD -o eth5 -p tcp -m tcp -d 127.0.0.1 -j DSCP --set-dscp-class AF3\n"
      ++ codes "-A OUTPUT -o eth5 -p tcp -m tcp -d 127.0.0.1 -j RETURN\n"
      ++ codes "-A FORWARD -o eth5 -p tcp -m tcp -d 127.0.0.1 -j RETURN\n"
unfolding lines_text add_rule_lines_to_add
add_text = refl

find_text :
    settings_find_dscp
      (sort (loopback ∷ by_source ∷ by_destination ∷ []))
      20
      1
      (codes "10.0.0.1")
      (codes "BAD")
    ≡ codes "AF41"
unfolding settings_find_dscp search_key sort setting_less bytes_less has_key
find_text = refl

lines_to_add-block_example :
    apply_lines output (lines_to_add [] by_source) [] ≡ block [] by_source output ++ []
lines_to_add-block_example = lines_to_add-block [] by_source output []

-- Two settings staged on a new controller.
abbrev staged_two : System
staged_two = record {
  controller = record {
    dev = eth5;
    dscps_to_ignore_class_id = [];
    staged = loopback ∷ by_source ∷ [];
    applied = [];
    to_add = [];
    to_del = [];
  };
  installed = λ text. 0;
}

staged_two-IsSynced : IsSynced staged_two
staged_two-IsSynced = record {
  agrees = λ text. refl;
  no_add = refl;
  no_del = refl;
  sorted = tt;
  none_ignored = refl;
}

abbrev works-Answers : Answers works
works-Answers = λ r. refl

-- `loopback` and `by_source` are installed, `loopback` and `by_destination` are staged.
abbrev half_way : System
half_way =
    let y = (commit-installs_staged works staged_two works-Answers staged_two-IsSynced).0 in
    record {
      controller = record (y.controller) { staged = loopback ∷ by_destination ∷ [] };
      installed = y.installed;
    }

half_way-IsSynced : IsSynced half_way
half_way-IsSynced =
    let h = (commit-installs_staged works staged_two works-Answers staged_two-IsSynced).2 in
    record {
      agrees = h.agrees;
      no_add = h.no_add;
      no_del = h.no_del;
      sorted = h.sorted;
      none_ignored = h.none_ignored;
    }

commit-installs_staged_example :
    (y : System) × StepsTo works commits half_way y
    × IsSynced y
    × ((text : Bytes)
        → y.installed text ≡ wanted half_way.controller.dev text (loopback ∷ by_destination ∷ []))
commit-installs_staged_example =
    commit-installs_staged works half_way works-Answers half_way-IsSynced

abbrev history : List Op
history =
    stages loopback
    ∷ stages by_source
    ∷ commits
    ∷ stages loopback
    ∷ stages by_destination
    ∷ commits
    ∷ clears
    ∷ []

run-initial-IsSynced_example : (y : System) × RunsTo works history (initial eth5) y × IsSynced y
run-initial-IsSynced_example = run-initial-IsSynced works history eth5 works-Answers

find_dscp-disagrees_example :
    settings_find_dscp (by_destination ∷ by_source ∷ []) 20 555 (codes "10.0.0.1") [] ≡ codes "AF31"
find_dscp-disagrees_example =
    (find_dscp-disagrees [] by_destination by_source 20 555 [] output refl refl refl refl refl
      (omega arith) (omega arith)).0
