-- ===== src/Iptables/Lookup/Order.antt =====
-- `SettingsFindDscp` beside the order in which the kernel meets the rules
-- (heyp/host-agent/linux-enforcer/iptables-controller.cc).
use heyp_agents.Prelude.Text.{Bytes, bytes_eq_iff}
use heyp_agents.Prelude.{ℕ, ◌≡◌, ◌≢◌, refl, ap, ◌∙◌, true, false, List, [], ◌∷◌, ◌++◌, arith}
use mathlib.Core.List.{append-nil}
use heyp_agents.Iptables.Setting.{Setting, setting_less}
use heyp_agents.Iptables.Rules.{
  SmallStringSet, Chain, Rule, Line, lines_to_add, add_rule_lines_to_add, fine_grained,
}
use heyp_agents.Iptables.Rules.Laws.{apply_line, apply_lines, block, lines_to_add-block}
use heyp_agents.Iptables.Lookup.{settings_find_dscp, has_key, or_try}
use heyp_agents.Iptables.Lookup.Laws.{first_with_key, settings_find_dscp-first}

fine_block :
    (ignore : SmallStringSet) (s : Setting) (chain : Chain) (rules : List Rule)
    → fine_grained s ≡ true
    → apply_lines chain (lines_to_add ignore s) rules ≡ block ignore s chain ++ rules
fine_block ignore s chain rules h = rw (lines_to_add-block ignore s chain rules, h) refl

apply_lines-append :
    (chain : Chain) (l r : List Line) (rules : List Rule)
    → apply_lines chain (l ++ r) rules ≡ apply_lines chain r (apply_lines chain l rules)
apply_lines-append chain [] r rules = refl
apply_lines-append chain (x ∷ l) r rules = apply_lines-append chain l r (apply_line chain x rules)

two_blocks :
    (ignore : SmallStringSet) (t u : Setting) (chain : Chain) (rules : List Rule)
    → fine_grained t ≡ true
    → fine_grained u ≡ true
    → apply_lines chain (add_rule_lines_to_add ignore (t ∷ u ∷ [])) rules
      ≡ block ignore u chain ++ (block ignore t chain ++ rules)
unfolding add_rule_lines_to_add
two_blocks ignore t u chain rules ft fu =
    apply_lines-append chain (lines_to_add ignore t) (lines_to_add ignore u ++ []) rules
    ∙ rw (append-nil (lines_to_add ignore u), fine_block ignore t chain rules ft)
        (fine_block ignore u chain (block ignore t chain ++ rules) fu)

later_source : (t u : Setting) → t.src_port ≡ 0 → u.src_port ≢ 0 → setting_less u t ≡ false
unfolding setting_less
later_source t u e h = ground arith

found_destination :
    (t u : Setting) (sp dp : ℕ) (default_dscp : Bytes)
    → t.src_port ≡ 0
    → t.dst_port ≡ dp
    → u.dst_port ≡ 0
    → sp ≢ 0
    → dp ≢ 0
    → or_try (first_with_key (t ∷ u ∷ []) sp dp t.dst_addr) (
        or_try (first_with_key (t ∷ u ∷ []) 0 dp t.dst_addr) (
          or_try
            (first_with_key (t ∷ u ∷ []) sp 0 t.dst_addr)
            (or_try (first_with_key (t ∷ u ∷ []) 0 0 t.dst_addr) default_dscp)))
      ≡ t.dscp
unfolding first_with_key has_key
found_destination t u sp dp default_dscp e1 e2 e4 hs hd =
    ground (arith, bytes_eq_iff t.dst_addr t.dst_addr)

-- For a flow that both a setting for its destination port alone and one for its source port alone
-- fit, the function answers with the dscp of the first, although the rules of the second stand
-- ahead in the chain when the two are added together.
pub find_dscp-disagrees :
    (ignore : SmallStringSet) (t u : Setting) (sp dp : ℕ) (default_dscp : Bytes) (chain : Chain)
    → t.src_port ≡ 0
    → t.dst_port ≡ dp
    → u.src_port ≡ sp
    → u.dst_port ≡ 0
    → u.dst_addr ≡ t.dst_addr
    → sp ≢ 0
    → dp ≢ 0
    → (settings_find_dscp (t ∷ u ∷ []) sp dp t.dst_addr default_dscp ≡ t.dscp)
      × (apply_lines chain (add_rule_lines_to_add ignore (t ∷ u ∷ [])) []
          ≡ block ignore u chain ++ block ignore t chain)
find_dscp-disagrees ignore t u sp dp default_dscp chain e1 e2 e3 e4 e5 hs hd = (
  settings_find_dscp-first (t ∷ u ∷ []) sp dp t.dst_addr default_dscp
        ((later_source t u e1 (ground arith), tt), (tt, tt))
      ∙ found_destination t u sp dp default_dscp e1 e2 e4 hs hd,
  two_blocks ignore t u chain [] (ground arith) (ground arith)
      ∙ ap (◌++◌ (block ignore u chain)) (append-nil (block ignore t chain)),
)
