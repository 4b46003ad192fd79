-- ===== src/Translate/Explain.antt =====
-- shell/internal/translate/explain.go: the numbered description of a script. A line is kept in
-- parts: its number, its depth and what it says.
pub mod Numbers
use aish.Prelude.{
  ℕ, zero, suc, ◌+◌, Bool, true, false, Option, none, some, List, [], ◌∷◌, ◌++◌, map, Text, codes,
  join, length,
}
use aish.Translate.{
  Command, Statement, comment, assign, simple, piped, cond, loop_for, loop_while, case_of, func_def,
  unknown, Statements, done, also, Branches, no_branch, branch, Arms, no_arm, arm,
}
use aish.Translate.Format.{format_command}

-- What a line says, after its number and, but for an arm, the line of the script.
pub data Says : Type 0 where
  says_comment : Text → Says
  sets_variable : Text → Text → Bool → Says
  runs : Text → Says
  pipeline : Text → Says
  if_succeeds : Text → Says
  else_if_succeeds : Text → Says
  otherwise : Says
  for_each : Text → Text → Says
  while_succeeds : Text → Says
  matches : Text → Says
  pattern_is : Text → Says
  defines : Text → Says
  unsupported : Text → Text → Says

pub record Line : Type 0 where
  pub step : ℕ
  pub indent : ℕ
  pub source_line : Option ℕ
  pub says : Says

abbrev pub said : ℕ → ℕ → ℕ → Says → Line
said step indent n says = record { step = step; indent = indent; source_line = some n; says = says }

abbrev pub format_stages : List Command → Text
format_stages stages = join (map format_command stages) (codes " | ")

unfoldable pub format_test : Statement → Text
unfolding format_command join
format_test (simple c) = format_command c
format_test (piped n stages) = format_stages stages
format_test (unknown n reason source) = codes "(unsupported: " ++ (reason ++ codes ")")
format_test _ = codes "(complex test)"

abbrev pub label : ℕ → Text → Says
label zero test = if_succeeds test
label (suc i) test = else_if_succeeds test

-- What is printed, and the next step: `*step` is passed and returned.
abbrev pub Printed : Type 0
Printed = List Line × ℕ

unfoldable pub and_print : Printed → (ℕ → Printed) → Printed
and_print (ls, step) next = let (ls', step') = next step in (ls ++ ls', step')

-- One line, and the step after it.
abbrev pub print_line : ℕ → ℕ → ℕ → Says → Printed
print_line step indent n says = (said step indent n says ∷ [], step + 1)

-- A line, and what is printed below it.
unfoldable pub print_under : Line → (ℕ → Printed) → Printed
print_under l next = let (ls, after) = next (l.step + 1) in (l ∷ ls, after)

unfoldable mutual
  unfolding and_print print_under format_test format_command join

  pub explain_statement : Statement → ℕ → ℕ → Printed
  explain_statement (comment n text) step indent = print_line step indent n (says_comment text)
  explain_statement (assign n name value exported) step indent =
      print_line step indent n (sets_variable name value exported)
  explain_statement (simple c) step indent = print_line step indent c.line (runs (format_command c))
  explain_statement (piped n stages) step indent =
      print_line step indent n (pipeline (format_stages stages))
  explain_statement (cond n branches others) step indent =
      and_print (explain_branches branches n 0 step indent)
        (λ step'. explain_else others n step' indent)
  explain_statement (loop_for n var words body) step indent =
      print_under (said step indent n (for_each var (join words (codes " "))))
        (λ step'. explain_statements body step' (indent + 1))
  explain_statement (loop_while n test body) step indent =
      print_under (said step indent n (while_succeeds (format_test test)))
        (λ step'. explain_statements body step' (indent + 1))
  explain_statement (case_of n word arms) step indent =
      print_under (said step indent n (matches word)) (λ step'. explain_arms arms step' indent)
  explain_statement (func_def n name body) step indent =
      print_under (said step indent n (defines name))
        (λ step'. explain_statements body step' (indent + 1))
  explain_statement (unknown n reason source) step indent =
      print_line step indent n (unsupported reason source)

  pub explain_statements : Statements → ℕ → ℕ → Printed
  explain_statements done step indent = ([], step)
  explain_statements (also st rest) step indent =
      and_print (explain_statement st step indent) (λ step'. explain_statements rest step' indent)

  pub explain_branches : Branches → ℕ → ℕ → ℕ → ℕ → Printed
  explain_branches no_branch n i step indent = ([], step)
  explain_branches (branch test body rest) n i step indent =
      print_under (said step indent n (label i (format_test test))) (λ step'.
        and_print (explain_statements body step' (indent + 1))
          (λ step''. explain_branches rest n (suc i) step'' indent))

  -- `if len(v.Else) > 0`
  pub explain_else : Statements → ℕ → ℕ → ℕ → Printed
  explain_else done n step indent = ([], step)
  explain_else (also st rest) n step indent = print_under (said step indent n otherwise) (λ step'.
      and_print (explain_statement st step' (indent + 1))
        (λ step''. explain_statements rest step'' (indent + 1)))

  pub explain_arms : Arms → ℕ → ℕ → Printed
  explain_arms no_arm step indent = ([], step)
  explain_arms (arm patterns body rest) step indent =
      print_under
        (record {
          step = step;
          indent = indent + 1;
          source_line = none;
          says = pattern_is (join patterns (codes " | "));
        })
        (λ step'.
          and_print (explain_statements body step' (indent + 2))
            (λ step''. explain_arms rest step'' indent))

-- The lines of Explain after its first one, which names the dialect.
unfoldable pub explain : Statements → List Line
unfolding explain_statements
explain script = (explain_statements script 1 0).0
