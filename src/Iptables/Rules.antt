-- ===== src/Iptables/Rules.antt =====
-- The lines for `iptables-restore` that heyp/host-agent/linux-enforcer/iptables-controller.cc writes
-- for a batch of settings, and heyp/host-agent/linux-enforcer/small-string-set.h.
pub mod Laws
use heyp_agents.Prelude.Text.{Bytes, bytes_eq}
use heyp_agents.Prelude.Text.{codes, decimal}
use heyp_agents.Prelude.{ℕ, Bool, true, false, not, ◌||◌, List, [], ◌∷◌, ◌++◌, ◌==◌, if◌then◌else◌}
use heyp_agents.Iptables.Setting.{Setting}

-- `SmallStringSet` without its buffer: the views in `data_`.
abbrev pub SmallStringSet : Type 0
SmallStringSet = List Bytes

unfoldable pub contains : SmallStringSet → Bytes → Bool
unfolding bytes_eq
contains [] value = false
contains (x ∷ xs) value = bytes_eq x value || contains xs value

-- The first word of a line: `-D`, `-I` or `-A`.
pub data RuleOp : Type 0 where
  delete_rule insert_rule append_rule : RuleOp

abbrev pub op_text : RuleOp → Bytes
op_text delete_rule = codes "-D"
op_text insert_rule = codes "-I"
op_text append_rule = codes "-A"

pub data Chain : Type 0 where
  output forward : Chain

abbrev pub chain_text : Chain → Bytes
chain_text output = codes "OUTPUT"
chain_text forward = codes "FORWARD"

-- What follows the address and the ports.
pub data Target : Type 0 where
  classify set_dscp : Bytes → Target
  return_target : Target

abbrev pub target_text : Target → Bytes
target_text (classify class_id) = codes "CLASSIFY --set-class " ++ class_id
target_text (set_dscp dscp) = codes "DSCP --set-dscp-class " ++ dscp
target_text return_target = codes "RETURN"

-- One `absl::StrFormat` of the source: the operation, and the rule that it is about.
pub record Rule : Type 0 where
  pub chain : Chain
  pub dst_addr : Bytes
  pub src_port_match : Bytes
  pub dst_port_match : Bytes
  pub target : Target

abbrev pub Line : Type 0
Line = RuleOp × Rule

unfoldable pub line_text : Bytes → Line → Bytes
line_text dev (op, r) =
    op_text op
    ++ codes " "
    ++ chain_text r.chain
    ++ codes " -o "
    ++ dev
    ++ codes " -p tcp -m tcp -d "
    ++ r.dst_addr
    ++ r.src_port_match
    ++ r.dst_port_match
    ++ codes " -j "
    ++ target_text r.target
    ++ codes "\n"

unfoldable pub lines_text : Bytes → List Line → Bytes
unfolding line_text
lines_text dev [] = []
lines_text dev (l ∷ ls) = line_text dev l ++ lines_text dev ls

unfoldable pub port_match : Bytes → ℕ → Bytes
unfolding decimal
port_match flag port = if port == 0 then [] else flag ++ decimal port

unfoldable pub rule_of : Setting → Chain → Target → Rule
unfolding port_match
rule_of s chain target = record {
  chain = chain;
  dst_addr = s.dst_addr;
  src_port_match = port_match (codes " --sport ") s.src_port;
  dst_port_match = port_match (codes " --dport ") s.dst_port;
  target = target;
}

-- The lines for the two chains.
abbrev both : RuleOp → Setting → Target → List Line
both op s target = (op, rule_of s output target) ∷ (op, rule_of s forward target) ∷ []

-- The loop's body in `AddRuleLinesToDelete`.
unfoldable pub lines_to_delete : Setting → List Line
unfolding rule_of
lines_to_delete s =
    both delete_rule s (classify s.class_id)
    ++ (both delete_rule s (set_dscp s.dscp) ++ both delete_rule s return_target)

unfoldable pub add_rule_lines_to_delete : List Setting → List Line
unfolding lines_to_delete
add_rule_lines_to_delete [] = []
add_rule_lines_to_delete (s ∷ ss) = lines_to_delete s ++ add_rule_lines_to_delete ss

abbrev pub fine_grained : Setting → Bool
fine_grained s = not (s.src_port == 0) || not (s.dst_port == 0)

-- The loop's body in `AddRuleLinesToAdd`.
unfoldable pub lines_to_add : SmallStringSet → Setting → List Line
unfolding rule_of contains
lines_to_add dscps_to_ignore_class_id s =
    if fine_grained s
    then both insert_rule s return_target
      ++ (both insert_rule s (set_dscp s.dscp)
          ++ (if contains dscps_to_ignore_class_id s.dscp
              then []
              else both insert_rule s (classify s.class_id)))
    else (if contains dscps_to_ignore_class_id s.dscp
        then []
        else both append_rule s (classify s.class_id))
      ++ (both append_rule s (set_dscp s.dscp) ++ both append_rule s return_target)

unfoldable pub add_rule_lines_to_add : SmallStringSet → List Setting → List Line
unfolding lines_to_add
add_rule_lines_to_add dscps_to_ignore_class_id [] = []
add_rule_lines_to_add dscps_to_ignore_class_id (s ∷ ss) =
    lines_to_add dscps_to_ignore_class_id s ++ add_rule_lines_to_add dscps_to_ignore_class_id ss
