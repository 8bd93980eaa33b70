-- ===== src/Iptables/Controller/Commit.antt =====
-- What one `CommitChanges` of heyp/host-agent/linux-enforcer/iptables-controller.cc does.
use heyp_agents.Prelude.Text.{Bytes}
use heyp_agents.Prelude.Algorithms.{
  sort, set_difference, count, count-sort, count-append, count-set_difference, sort-IsSorted,
  IsSorted, total-sort, total-set_difference,
}
use heyp_agents.Prelude.{
  Bool-cases, inl, inr, ◌⊎◌, ==_iff, ◌+◌, ◌-◌, ◌<◌, ◌≡◌, refl, ap, ◌∙◌, false, List, [], ◌∷◌, ◌++◌,
  ◌==◌, length, length-append, total, total-append, ◌≤◌, ℕ, none, some, arith, ◌↔◌,
}
use heyp_agents.Prelude.Text.{codes}
use heyp_agents.Iptables.Setting.{Setting}
use heyp_agents.Iptables.Setting.Laws.{setting_order}
use heyp_agents.Iptables.Rules.{
  Line, lines_text, lines_to_add, add_rule_lines_to_delete, add_rule_lines_to_add, SmallStringSet,
  contains, fine_grained, delete_rule, insert_rule, append_rule,
}
use heyp_agents.Iptables.Controller.{
  Controller, Outcome, Status, ok, internal_error, compute_diff, diffed, mangle_table, committed,
  rolled_back, commit_changes, Runner, restore_request, header, footer, after_restore,
}

-- `ComputeDiff` appends to `to_del` each setting as often as the old batch has it more than the
-- new one, and to `to_add` the other way round, and leaves both batches sorted with the settings
-- that they had.
pub compute_diff-count :
    (x : Setting) (old_batch new_batch to_del to_add : List Setting)
    → let d = compute_diff old_batch new_batch (some to_del) (some to_add) in
      let gone = set_difference (sort old_batch) (sort new_batch) in
      let come = set_difference (sort new_batch) (sort old_batch) in
      (d.to_del ≡ some (to_del ++ gone))
      × (d.to_add ≡ some (to_add ++ come))
      × (count x gone ≡ count x old_batch - count x new_batch)
      × (count x come ≡ count x new_batch - count x old_batch)
      × IsSorted d.old_batch
      × IsSorted d.new_batch
      × (count x d.old_batch ≡ count x old_batch)
      × (count x d.new_batch ≡ count x new_batch)
unfolding compute_diff
compute_diff-count x old_batch new_batch to_del to_add =
    let so = sort-IsSorted old_batch in
    let sn = sort-IsSorted new_batch in
    let co = count-sort x old_batch in
    let cn = count-sort x new_batch in
    (
      refl,
      refl,
      rw (count-set_difference x _ _ so sn, co, cn),
      rw (count-set_difference x _ _ sn so, co, cn),
      so,
      sn,
      co,
      cn,
    )

pub diffed-count :
    (x : Setting) (c : Controller)
    → (count x (diffed c).to_del ≡ count x c.to_del + (count x c.applied - count x c.staged))
      × (count x (diffed c).to_add ≡ count x c.to_add + (count x c.staged - count x c.applied))
      × (count x (diffed c).staged ≡ count x c.staged)
      × IsSorted (diffed c).staged
unfolding diffed compute_diff
diffed-count x c =
    let d = compute_diff-count x c.applied c.staged c.to_del c.to_add in
    (
      count-append x c.to_del _ ∙ ap (◌+◌ (count x c.to_del)) d.2,
      count-append x c.to_add _ ∙ ap (◌+◌ (count x c.to_add)) d.3,
      d.7,
      d.5,
    )

lines_text-length_pos :
    (dev : Bytes) (l : Line) (ls : List Line) → 0 < length (lines_text dev (l ∷ ls))
unfolding lines_text
lines_text-length_pos dev (delete_rule, r) ls = omega arith
lines_text-length_pos dev (insert_rule, r) ls = omega arith
lines_text-length_pos dev (append_rule, r) ls = omega arith

abbrev IsCons : List Line → Type 0
IsCons [] = ⊥
IsCons (l ∷ ls) = Unit {0}

lines_to_add-IsCons : (ignore : SmallStringSet) (s : Setting) → IsCons (lines_to_add ignore s)
unfolding lines_to_add
lines_to_add-IsCons ignore s = elim (Bool-cases (fine_grained s)) [
  | inl p ↦ rw p tt
  | inr p ↦ elim (Bool-cases (contains ignore s.dscp)) [
    | inl q ↦ rw (p, q) tt
    | inr q ↦ rw (p, q) tt
  ]
]

lines_text_pos :
    (dev : Bytes) (ls rest : List Line) → IsCons ls → 0 < length (lines_text dev (ls ++ rest))
lines_text_pos dev [] rest h = elim h [ ]
lines_text_pos dev (l ∷ ls) rest h = lines_text-length_pos dev l (ls ++ rest)

del_text_pos :
    (dev : Bytes) (s : Setting) (ss : List Setting)
    → 0 < length (lines_text dev (add_rule_lines_to_delete (s ∷ ss)))
unfolding add_rule_lines_to_delete
del_text_pos dev s ss = lines_text-length_pos dev _ _

add_text_pos :
    (dev : Bytes) (ignore : SmallStringSet) (s : Setting) (ss : List Setting)
    → 0 < length (lines_text dev (add_rule_lines_to_add ignore (s ∷ ss)))
unfolding add_rule_lines_to_add
add_text_pos dev ignore s ss =
    lines_text_pos dev (lines_to_add ignore s) _ (lines_to_add-IsCons ignore s)

no_text :
    (dev : Bytes) (ignore : SmallStringSet)
    → (lines_text dev (add_rule_lines_to_delete []) ≡ [])
      × (lines_text dev (add_rule_lines_to_add ignore []) ≡ [])
unfolding lines_text add_rule_lines_to_delete add_rule_lines_to_add
no_text dev ignore = (refl, refl)

table_length :
    (a b : Bytes)
    → length (header ++ (a ++ (b ++ footer))) ≡ length a + length b + length (header ++ footer)
table_length a b = omega (arith, length-append a (b ++ footer), length-append b footer)

text_length_iff :
    (dev : Bytes) (ignore : SmallStringSet) (del add : List Setting)
    → (length (lines_text dev (add_rule_lines_to_delete del))
          + length (lines_text dev (add_rule_lines_to_add ignore add))
        ≡ 0)
      ↔ ((del ≡ []) × (add ≡ []))
text_length_iff dev ignore [] [] =
    (λ h. (refl, refl), λ h. rw ((no_text dev ignore).0, (no_text dev ignore).1) refl)
text_length_iff dev ignore [] (s ∷ add) =
    (λ h. absurd (omega (arith, add_text_pos dev ignore s add)), λ h. cc)
text_length_iff dev ignore (s ∷ del) add =
    (λ h. absurd (omega (arith, del_text_pos dev s del)), λ h. cc)

-- The table's text has just its first and last line exactly when there is nothing to change.
pub mangle_table-length :
    (c : Controller)
    → (length (mangle_table c) ≡ length (header ++ footer)) ↔ ((c.to_del ≡ []) × (c.to_add ≡ []))
unfolding mangle_table
mangle_table-length c =
    let t = text_length_iff c.dev c.dscps_to_ignore_class_id c.to_del c.to_add in
    let l =
      table_length (lines_text c.dev (add_rule_lines_to_delete c.to_del))
        (lines_text c.dev (add_rule_lines_to_add c.dscps_to_ignore_class_id c.to_add)) in
    (λ h. t.0 (omega arith), λ h. l ∙ ap (λ n. n + length (header ++ footer)) (t.1 h))

-- What the deletions and additions of a commit come to, for any weight of the settings: the applied
-- settings less those to delete, and then those to add, are the staged ones.
pub diffed-total :
    (f : Setting → ℕ) (c : Controller)
    → c.to_del ≡ []
    → c.to_add ≡ []
    → (total f c.applied + total f (diffed c).to_add ≡ total f c.staged + total f (diffed c).to_del)
      × (total f (diffed c).to_del ≤ total f c.applied)
      × (total f (diffed c).staged ≡ total f c.staged)
unfolding diffed compute_diff
diffed-total f c d a =
    let so = total-sort f c.applied in
    let sn = total-sort f c.staged in
    let e = total-set_difference f (sort c.applied) (sort c.staged) in
    let del =
      total-append f c.to_del (set_difference (sort c.applied) (sort c.staged))
      ∙ ap (λ l. total f l + total f (set_difference (sort c.applied) (sort c.staged))) d in
    let add =
      total-append f c.to_add (set_difference (sort c.staged) (sort c.applied))
      ∙ ap (λ l. total f l + total f (set_difference (sort c.staged) (sort c.applied))) a in
    (omega (arith, so, sn, e, del, add), omega (arith, so, e, del), sn)

-- `CommitChanges` in its three ways: nothing to change, the runner succeeds, the runner fails.
pub data Commits (runner : Runner) (c : Controller) (o : Outcome) : Type 0 where
  quiet :
      (diffed c).to_del ≡ []
      → (diffed c).to_add ≡ []
      → o ≡ record { state = committed (diffed c); status = ok; request = none }
      → Commits runner c o
  changed :
      runner (restore_request (mangle_table (diffed c)) false) ≡ ok
      → o ≡ record {
        state = committed (diffed c);
        status = ok;
        request = some (restore_request (mangle_table (diffed c)) false);
      }
      → Commits runner c o
  failed :
      (message : Bytes)
      → runner (restore_request (mangle_table (diffed c)) false) ≡ internal_error message
      → o ≡ record {
        state = rolled_back (diffed c);
        status = internal_error (codes "failed to update iptables 'mangle' table: " ++ message);
        request = some (restore_request (mangle_table (diffed c)) false);
      }
      → Commits runner c o

Status-cases : (s : Status) → (s ≡ ok) ⊎ ((message : Bytes) × (s ≡ internal_error message))
Status-cases ok = inl refl
Status-cases (internal_error message) = inr (message, refl)

pub commit_changes-Commits :
    (runner : Runner) (c : Controller) → Commits runner c (commit_changes runner c)
unfolding commit_changes after_restore
commit_changes-Commits runner c =
    elim (Bool-cases (length (mangle_table (diffed c)) == length (header ++ footer))) [
      | inl p ↦
          let h = (mangle_table-length (diffed c)).0 ((==_iff _ _).0 p) in quiet h.0 h.1 (rw p)
      | inr p ↦ elim (Status-cases (runner (restore_request (mangle_table (diffed c)) false))) [
        | inl e ↦ changed e (rw (p, e))
        | inr (m, e) ↦ failed m e (rw (p, e))
      ]
    ]
