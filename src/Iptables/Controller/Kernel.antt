-- ===== src/Iptables/Controller/Kernel.antt =====
-- What `iptables-restore` documents of a request, for the text that
-- heyp/host-agent/linux-enforcer/iptables-controller.cc hands to it: lines between `*mangle` and
-- `COMMIT`, each an operation and a rule, that take effect together or not at all.
use heyp_agents.Prelude.Text.{Bytes, bytes_eq, bytes_eq_iff}
use heyp_agents.Prelude.{
  ℕ, ◌+◌, ◌-◌, ◌≤◌, ◌==◌, Bool-cases, Option-cases, inl, inr, true, false, List, [], ◌∷◌, ◌++◌,
  Option, none, some, All, total, total-append, if◌then◌else◌, ◌≡◌, refl, ap, sym, ◌∙◌, arith,
}
use mathlib.Core.List.{append_assoc}
use heyp_agents.Iptables.Setting.{Setting}
use heyp_agents.Iptables.Rules.{
  Line, Rule, delete_rule, insert_rule, append_rule, line_text, lines_text, contains,
  lines_to_delete, add_rule_lines_to_delete, lines_to_add, add_rule_lines_to_add, output, forward,
  fine_grained,
}
use heyp_agents.Iptables.Rules.Laws.{block}
use heyp_agents.Iptables.Controller.{Request, Status, ok, internal_error, k_mangle, header, footer}

-- How often each rule stands in the `mangle` table. A rule is its text, from the chain on.
abbrev pub Kernel : Type 0
Kernel = Bytes → ℕ

-- The text behind an operation and a space.
abbrev after_op : Bytes → Bytes
after_op [] = []
after_op (a ∷ []) = []
after_op (a ∷ b ∷ []) = []
after_op (a ∷ b ∷ c ∷ text) = text

unfoldable pub rule_text : Bytes → Rule → Bytes
unfolding line_text
rule_text dev r = after_op (line_text dev (append_rule, r))

abbrev hit : Bytes → Bytes → Rule → ℕ
hit dev text r = if bytes_eq (rule_text dev r) text then 1 else 0

-- One line: `-D` fails where the rule is not there.
unfoldable pub do_line : Bytes → Line → Kernel → Option Kernel
do_line dev (delete_rule, r) k =
    if k (rule_text dev r) == 0 then none else some (λ text. k text - hit dev text r)
do_line dev (insert_rule, r) k = some (λ text. k text + hit dev text r)
do_line dev (append_rule, r) k = some (λ text. k text + hit dev text r)

unfoldable pub do_lines : Bytes → List Line → Kernel → Option Kernel
do_lines dev [] k = some k
do_lines dev (l ∷ ls) k = elim (do_line dev l k) [ none ↦ none | some k' ↦ do_lines dev ls k' ]

-- A request whose text is these lines, and what it makes of a table; a flush comes first.
pub record Reads (dev : Bytes) (r : Request) (k k' : Kernel) : Type 0 where
  pub mangle : r.table ≡ k_mangle
  pub lines : List Line
  pub text : r.contents ≡ header ++ (lines_text dev lines ++ footer)
  pub does : do_lines dev lines (if r.flags.flush_tables then (λ t. 0) else k) ≡ some k'

-- What a call makes of the table: nothing where it sends nothing or is refused.
abbrev pub Restored : Bytes → Option Request → Status → Kernel → Kernel → Type 0
Restored dev none status k k' = k' ≡ k
Restored dev (some r) ok k k' = Reads dev r k k'
Restored dev (some r) (internal_error m) k k' = k' ≡ k

-- How often a rule stands among those of a setting, which are its block in each chain.
unfoldable pub rules_for : Bytes → Bytes → Setting → ℕ
unfolding block
rules_for dev text s =
    total (hit dev text) (block [] s output) + total (hit dev text) (block [] s forward)

-- How often a rule has to stand for a batch of settings.
abbrev pub wanted : Bytes → Bytes → List Setting → ℕ
wanted dev text = total (rules_for dev text)

abbrev hits : Bytes → Bytes → List Line → ℕ
hits dev text = total (λ l. hit dev text (l.1))

hit_self : (dev : Bytes) (r : Rule) → hit dev (rule_text dev r) r ≡ 1
hit_self dev r = rw ((bytes_eq_iff (rule_text dev r) (rule_text dev r)).1 refl) refl

-- Deletions of rules that are there.
do_deletions :
    (dev : Bytes) (ls : List Line) (k : Kernel)
    → All (λ l. l.0 ≡ delete_rule) ls
    → ((text : Bytes) → hits dev text ls ≤ k text)
    → (k' : Kernel) × (do_lines dev ls k ≡ some k')
      × ((text : Bytes) → k' text + hits dev text ls ≡ k text)
unfolding do_lines do_line
do_deletions dev [] k h there = (k, refl, λ text. omega arith)
do_deletions dev ((insert_rule, r) ∷ ls) k h there = cc (h.0)
do_deletions dev ((append_rule, r) ∷ ls) k h there = cc (h.0)
do_deletions dev ((delete_rule, r) ∷ ls) k h there =
    let some_left : (k (rule_text dev r) == 0) ≡ false =
      ground (arith, there (rule_text dev r), hit_self dev r) in
    let (k', e, q) =
      do_deletions dev ls (λ text. k text - hit dev text r) h.1
        (λ text. omega (arith, there text)) in
    (k', rw (do_lines, do_line, some_left) e, λ text. omega (arith, q text, there text))

do_additions :
    (dev : Bytes) (ls : List Line) (k : Kernel)
    → All (λ l. (l.0 ≡ delete_rule) → true ≡ false) ls
    → (k' : Kernel) × (do_lines dev ls k ≡ some k')
      × ((text : Bytes) → k' text ≡ k text + hits dev text ls)
unfolding do_lines do_line
do_additions dev [] k h = (k, refl, λ text. omega arith)
do_additions dev ((delete_rule, r) ∷ ls) k h = cc (h.0 refl)
do_additions dev ((insert_rule, r) ∷ ls) k h =
    let (k', e, q) = do_additions dev ls (λ text. k text + hit dev text r) h.1 in
    (k', e, λ text. omega (arith, q text))
do_additions dev ((append_rule, r) ∷ ls) k h =
    let (k', e, q) = do_additions dev ls (λ text. k text + hit dev text r) h.1 in
    (k', e, λ text. omega (arith, q text))

do_lines-append :
    (dev : Bytes) (a b : List Line) (k k' : Kernel)
    → do_lines dev a k ≡ some k'
    → do_lines dev (a ++ b) k ≡ do_lines dev b k'
unfolding do_lines
do_lines-append dev [] b k k' e = let same : k ≡ k' = cc in ap (do_lines dev b) same
do_lines-append dev (l ∷ a) b k k' e = elim (Option-cases (do_line dev l k)) [
  | inl q ↦ cc (rw (do_lines, q) at e)
  | inr (k1, q) ↦ rw (do_lines, q) (do_lines-append dev a b k1 k' (rw (do_lines, q) at e))
]

lines_text-append :
    (dev : Bytes) (a b : List Line) → lines_text dev (a ++ b) ≡ lines_text dev a ++ lines_text dev b
unfolding lines_text
lines_text-append dev [] b = refl
lines_text-append dev (l ∷ a) b =
    ap (λ t. line_text dev l ++ t) (lines_text-append dev a b)
    ∙ sym (append_assoc (line_text dev l) (lines_text dev a) (lines_text dev b))

-- The lines that delete a setting hit each rule as often as it stands for the setting.
lines_to_delete-hits :
    (dev text : Bytes) (s : Setting)
    → (hits dev text (lines_to_delete s) ≡ rules_for dev text s)
      × All (λ l. l.0 ≡ delete_rule) (lines_to_delete s)
unfolding lines_to_delete rules_for block contains
lines_to_delete-hits dev text s = (omega arith, (refl, (refl, (refl, (refl, (refl, (refl, tt)))))))

lines_to_add-hits :
    (dev text : Bytes) (s : Setting) → hits dev text (lines_to_add [] s) ≡ rules_for dev text s
unfolding lines_to_add rules_for block contains
lines_to_add-hits dev text s = elim (Bool-cases (fine_grained s)) [
  | inl p ↦ rw p (omega arith)
  | inr p ↦ rw p (omega arith)
]

lines_to_add-All : (s : Setting) → All (λ l. (l.0 ≡ delete_rule) → true ≡ false) (lines_to_add [] s)
unfolding lines_to_add contains
lines_to_add-All s = elim (Bool-cases (fine_grained s)) [
  | inl p ↦ rw p (λ e. cc, (λ e. cc, (λ e. cc, (λ e. cc, (λ e. cc, (λ e. cc, tt))))))
  | inr p ↦ rw p (λ e. cc, (λ e. cc, (λ e. cc, (λ e. cc, (λ e. cc, (λ e. cc, tt))))))
]

All-append : (P : Line → Type 0) (a b : List Line) → All P a → All P b → All P (a ++ b)
All-append P [] b h k = k
All-append P (x ∷ a) b h k = (h.0, All-append P a b h.1 k)

deletions-hits :
    (dev text : Bytes) (l : List Setting)
    → (hits dev text (add_rule_lines_to_delete l) ≡ wanted dev text l)
      × All (λ x. x.0 ≡ delete_rule) (add_rule_lines_to_delete l)
unfolding add_rule_lines_to_delete
deletions-hits dev text [] = (refl, tt)
deletions-hits dev text (s ∷ l) =
    let one = lines_to_delete-hits dev text s in
    let rest = deletions-hits dev text l in
    let split =
      total-append (λ (x : Line). hit dev text (x.1)) (lines_to_delete s)
        (add_rule_lines_to_delete l) in
    (omega (arith, one.0, rest.0, split), All-append _ (lines_to_delete s) _ one.1 rest.1)

additions-hits :
    (dev text : Bytes) (l : List Setting)
    → (hits dev text (add_rule_lines_to_add [] l) ≡ wanted dev text l)
      × All (λ x. (x.0 ≡ delete_rule) → true ≡ false) (add_rule_lines_to_add [] l)
unfolding add_rule_lines_to_add
additions-hits dev text [] = (refl, tt)
additions-hits dev text (s ∷ l) =
    let one = lines_to_add-hits dev text s in
    let rest = additions-hits dev text l in
    let split =
      total-append (λ (x : Line). hit dev text (x.1)) (lines_to_add [] s)
        (add_rule_lines_to_add [] l) in
    (
      omega (arith, one, rest.0, split),
      All-append _ (lines_to_add [] s) _ (lines_to_add-All s) rest.1,
    )

-- Deleting a batch whose rules are there, and then adding another: no deletion fails, and each rule
-- stands as often as the two batches tell.
pub do_batches :
    (dev : Bytes) (del add : List Setting) (k : Kernel)
    → ((text : Bytes) → wanted dev text del ≤ k text)
    → let lines = add_rule_lines_to_delete del ++ add_rule_lines_to_add [] add in
      (k' : Kernel) × (do_lines dev lines k ≡ some k')
      × ((text : Bytes) → k' text + wanted dev text del ≡ k text + wanted dev text add)
do_batches dev del add k there =
    let dels = add_rule_lines_to_delete del in
    let adds = add_rule_lines_to_add [] add in
    let (k1, e1, q1) =
      do_deletions dev dels k (deletions-hits dev [] del).1
        (λ text. omega (arith, there text, (deletions-hits dev text del).0)) in
    let (k2, e2, q2) = do_additions dev adds k1 (additions-hits dev [] add).1 in
    (
      k2,
      do_lines-append dev dels adds k k1 e1 ∙ e2,
      λ text. omega (
        arith,
        q1 text,
        q2 text,
        (deletions-hits dev text del).0,
        (additions-hits dev text add).0,
      ),
    )

pub batches_text :
    (dev : Bytes) (del add : List Setting)
    → header
        ++ (lines_text dev (add_rule_lines_to_delete del)
            ++ (lines_text dev (add_rule_lines_to_add [] add) ++ footer))
      ≡ header
        ++ (lines_text dev (add_rule_lines_to_delete del ++ add_rule_lines_to_add [] add) ++ footer)
batches_text dev del add =
    ap (λ t. header ++ t)
      (sym (
        ap (λ t. t ++ footer)
          (lines_text-append dev (add_rule_lines_to_delete del) (add_rule_lines_to_add [] add))
        ∙ append_assoc (lines_text dev (add_rule_lines_to_delete del))
            (lines_text dev (add_rule_lines_to_add [] add)) footer))
