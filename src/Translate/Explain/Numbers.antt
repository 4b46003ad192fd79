-- ===== src/Translate/Explain/Numbers.antt =====
-- The numbers of the description.
use aish.Prelude.{ℕ, subst, suc, ◌+◌, ◌≡◌, refl, List, [], ◌∷◌, ◌++◌}
use aish.Translate.{
  Statement, comment, assign, simple, piped, cond, loop_for, loop_while, case_of, func_def, unknown,
  Statements, done, also, Branches, no_branch, branch, Arms, no_arm, arm,
}
use aish.Translate.Explain.{
  Line, Printed, and_print, print_under, explain_statement, explain_statements, explain_branches,
  explain_else, explain_arms, explain,
}

-- The lines are numbered `first`, `first + 1`, … and `after` is the number that follows.
abbrev pub Consecutive : ℕ → List Line → ℕ → Type 0
Consecutive first [] after = after ≡ first
Consecutive first (l ∷ ls) after = (l.step ≡ first) × Consecutive (first + 1) ls after

append-Consecutive :
    (ls ms : List Line) (a b c : ℕ)
    → Consecutive a ls b
    → Consecutive b ms c
    → Consecutive a (ls ++ ms) c
append-Consecutive [] ms a b c h k = subst (λ n. Consecutive n ms c) h k
append-Consecutive (l ∷ ls) ms a b c h k = (h.0, append-Consecutive ls ms (a + 1) b c h.1 k)

abbrev Numbered : ℕ → Printed → Type 0
Numbered step p = Consecutive step p.0 p.1

and_print-Numbered :
    (step : ℕ) (p : Printed) (next : ℕ → Printed)
    → Numbered step p
    → ((n : ℕ) → Numbered n (next n))
    → Numbered step (and_print p next)
unfolding and_print
and_print-Numbered step p next h k =
    append-Consecutive p.0 (next p.1).0 step p.1 (next p.1).1 h (k p.1)

mutual
  unfolding explain_statement print_under

  statement-Numbered :
      (st : Statement) (step indent : ℕ) → Numbered step (explain_statement st step indent)
  statement-Numbered (comment n text) step indent = (refl, refl)
  statement-Numbered (assign n name value exported) step indent = (refl, refl)
  statement-Numbered (simple c) step indent = (refl, refl)
  statement-Numbered (piped n stages) step indent = (refl, refl)
  statement-Numbered (cond n branches others) step indent =
      and_print-Numbered step _ _ (branches-Numbered branches n 0 step indent)
        (λ step'. else-Numbered others n step' indent)
  statement-Numbered (loop_for n var words body) step indent =
      (refl, statements-Numbered body (step + 1) (indent + 1))
  statement-Numbered (loop_while n test body) step indent =
      (refl, statements-Numbered body (step + 1) (indent + 1))
  statement-Numbered (case_of n word arms) step indent =
      (refl, arms-Numbered arms (step + 1) indent)
  statement-Numbered (func_def n name body) step indent =
      (refl, statements-Numbered body (step + 1) (indent + 1))
  statement-Numbered (unknown n reason source) step indent = (refl, refl)

  statements-Numbered :
      (ss : Statements) (step indent : ℕ) → Numbered step (explain_statements ss step indent)
  statements-Numbered done step indent = refl
  statements-Numbered (also st rest) step indent =
      and_print-Numbered step _ _ (statement-Numbered st step indent)
        (λ step'. statements-Numbered rest step' indent)

  branches-Numbered :
      (bs : Branches) (n i step indent : ℕ) → Numbered step (explain_branches bs n i step indent)
  branches-Numbered no_branch n i step indent = refl
  branches-Numbered (branch test body rest) n i step indent = (
    refl,
    and_print-Numbered (step + 1) _ _ (statements-Numbered body (step + 1) (indent + 1))
        (λ step''. branches-Numbered rest n (suc i) step'' indent),
  )

  else-Numbered :
      (ss : Statements) (n step indent : ℕ) → Numbered step (explain_else ss n step indent)
  else-Numbered done n step indent = refl
  else-Numbered (also st rest) n step indent = (
    refl,
    and_print-Numbered (step + 1) _ _ (statement-Numbered st (step + 1) (indent + 1))
        (λ step''. statements-Numbered rest step'' (indent + 1)),
  )

  arms-Numbered : (as_ : Arms) (step indent : ℕ) → Numbered step (explain_arms as_ step indent)
  arms-Numbered no_arm step indent = refl
  arms-Numbered (arm patterns body rest) step indent = (
    refl,
    and_print-Numbered (step + 1) _ _ (statements-Numbered body (step + 1) (indent + 2))
        (λ step''. arms-Numbered rest step'' indent),
  )

-- The lines of a description are numbered 1, 2, 3, … without a gap, at whatever depth they stand.
pub explain_numbers :
    (script : Statements) → Consecutive 1 (explain script) (explain_statements script 1 0).1
unfolding explain
explain_numbers script = statements-Numbered script 1 0
