-- ===== src/Iptables/Rules/Laws.antt =====
-- The rules that heyp/host-agent/linux-enforcer/iptables-controller.cc adds for a setting and those
-- that it deletes for it, and the order in which they stand in a chain.
use heyp_agents.Prelude.{
  ℕ, suc, ◌≡◌, refl, Bool, true, false, List, [], ◌∷◌, ◌++◌, map, All, Bool-cases, inl, inr,
  if◌then◌else◌,
}
use mathlib.Core.List.{Perm, perm_append_comm, append_assoc, map-append}
use mathlib.Core.List.Perm
use heyp_agents.Iptables.Setting.{Setting}
use heyp_agents.Iptables.Rules.{
  SmallStringSet, contains, delete_rule, insert_rule, append_rule, Chain, output, forward, classify,
  set_dscp, return_target, Rule, Line, rule_of, lines_to_delete, add_rule_lines_to_delete,
  lines_to_add, add_rule_lines_to_add, fine_grained,
}

abbrev pub rules_of : List Line → List Rule
rules_of = map (λ l. l.1)

abbrev pub same_chain : Chain → Chain → Bool
same_chain output output = true
same_chain forward forward = true
same_chain output forward = false
same_chain forward output = false

-- What an added line does to the chain that it names: `-I` puts the rule first, `-A` last.
abbrev pub apply_line : Chain → Line → List Rule → List Rule
apply_line chain (insert_rule, r) rules = if same_chain r.chain chain then r ∷ rules else rules
apply_line chain (append_rule, r) rules =
    if same_chain r.chain chain then rules ++ r ∷ [] else rules
apply_line chain (delete_rule, r) rules = rules

abbrev pub apply_lines : Chain → List Line → List Rule → List Rule
apply_lines chain [] rules = rules
apply_lines chain (l ∷ ls) rules = apply_lines chain ls (apply_line chain l rules)

-- The rules of a setting in the order in which a packet has to meet them: `RETURN` ends the walk.
unfoldable pub block : SmallStringSet → Setting → Chain → List Rule
unfolding contains
block ignore s chain =
    (if contains ignore s.dscp then [] else rule_of s chain (classify s.class_id) ∷ [])
    ++ rule_of s chain (set_dscp s.dscp) ∷ rule_of s chain return_target ∷ []

-- Adding a setting puts its rules into each chain in that order, `RETURN` last, ahead of all rules
-- there if the setting names a port and behind them if it does not.
pub lines_to_add-block :
    (ignore : SmallStringSet) (s : Setting) (chain : Chain) (rules : List Rule)
    → apply_lines chain (lines_to_add ignore s) rules
      ≡ (if fine_grained s then block ignore s chain ++ rules else rules ++ block ignore s chain)
unfolding lines_to_add block rule_of
lines_to_add-block ignore s output rules = elim (Bool-cases (fine_grained s)) [
  | inl p ↦ elim (Bool-cases (contains ignore s.dscp)) [ inl q ↦ rw (p, q) | inr q ↦ rw (p, q) ]
  | inr p ↦ elim (Bool-cases (contains ignore s.dscp)) [
    | inl q ↦ rw (p, q) (simp append_assoc)
    | inr q ↦ rw (p, q) (simp append_assoc)
  ]
]
lines_to_add-block ignore s forward rules = elim (Bool-cases (fine_grained s)) [
  | inl p ↦ elim (Bool-cases (contains ignore s.dscp)) [ inl q ↦ rw (p, q) | inr q ↦ rw (p, q) ]
  | inr p ↦ elim (Bool-cases (contains ignore s.dscp)) [
    | inl q ↦ rw (p, q) (simp append_assoc)
    | inr q ↦ rw (p, q) (simp append_assoc)
  ]
]

three_pairs_perm :
    (a b c d e f : Rule) → Perm (a ∷ b ∷ c ∷ d ∷ e ∷ f ∷ []) (e ∷ f ∷ c ∷ d ∷ a ∷ b ∷ [])
three_pairs_perm a b c d e f =
    Perm.trans (perm_append_comm (a ∷ b ∷ c ∷ d ∷ []) (e ∷ f ∷ []))
      (Perm.append_left (e ∷ f ∷ []) (perm_append_comm (a ∷ b ∷ []) (c ∷ d ∷ [])))

-- Where the class of a setting's packets is not to be ignored, the rules that are deleted for the
-- setting are the rules that were added for it.
delete-perm-add :
    (ignore : SmallStringSet) (s : Setting)
    → contains ignore s.dscp ≡ false
    → Perm (rules_of (lines_to_delete s)) (rules_of (lines_to_add ignore s))
unfolding lines_to_delete lines_to_add
delete-perm-add ignore s h = elim (Bool-cases (fine_grained s)) [
  | inl p ↦ rw (p, h) (three_pairs_perm _ _ _ _ _ _)
  | inr p ↦ rw (p, h) Perm.rfl
]

-- Over a batch of settings whose classes are not to be ignored, deleting the batch names exactly the
-- rules that adding it names, each as often.
pub delete-perm-add_batch :
    (ignore : SmallStringSet) (settings : List Setting)
    → All (λ s. contains ignore s.dscp ≡ false) settings
    → Perm
        (rules_of (add_rule_lines_to_delete settings))
        (rules_of (add_rule_lines_to_add ignore settings))
unfolding add_rule_lines_to_delete add_rule_lines_to_add
delete-perm-add_batch ignore [] h = Perm.rfl
delete-perm-add_batch ignore (s ∷ settings) h =
    rw
      (
        map-append (λ (l : Line). l.1) (lines_to_delete s) (add_rule_lines_to_delete settings),
        map-append (λ (l : Line). l.1) (lines_to_add ignore s)
            (add_rule_lines_to_add ignore settings),
      )
      (Perm.append (delete-perm-add ignore s h.0) (delete-perm-add_batch ignore settings h.1))

abbrev pub classify_count : List Line → ℕ
classify_count [] = 0
classify_count ((op, r) ∷ ls) = elim r.target [
  | classify c ↦ suc (classify_count ls)
  | set_dscp c ↦ classify_count ls
  | return_target ↦ classify_count ls
]

-- Where the class of a setting's packets is to be ignored, no rule that sets it is added, and two
-- such rules are deleted all the same.
pub classify_count-ignored :
    (ignore : SmallStringSet) (s : Setting)
    → contains ignore s.dscp ≡ true
    → (classify_count (lines_to_add ignore s) ≡ 0) × (classify_count (lines_to_delete s) ≡ 2)
unfolding lines_to_add lines_to_delete
classify_count-ignored ignore s h = elim (Bool-cases (fine_grained s)) [
  | inl p ↦ rw (p, h) (refl, refl)
  | inr p ↦ rw (p, h) (refl, refl)
]
