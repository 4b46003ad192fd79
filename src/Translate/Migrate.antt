-- ===== src/Translate/Migrate.antt =====
-- shell/internal/translate/migrate.go: a script written out again. A line is kept in parts, its
-- depth and what stands on it; `line_text` is its text.
pub mod Balance
use aish.Prelude.{
  ℕ, zero, suc, ◌+◌, Bool, true, false, List, [], ◌∷◌, ◌++◌, map, if◌then◌else◌, Text, codes, join,
  repeat, contains_any, replace_rune,
}
use aish.Translate.{
  Statement, comment, assign, simple, piped, cond, loop_for, loop_while, case_of, func_def, unknown,
  Statements, done, also, Branches, no_branch, branch, Arms, no_arm, arm,
}
use aish.Translate.Format.{quote_quotes, format_command}
use aish.Translate.Explain.{format_stages, format_test}

pub data Says : Type 0 where
  says : Text → Says
  sets : Bool → Text → Text → Says
  opens_if opens_elif opens_while opens_case opens_function : Text → Says
  opens_else closes_if closes_loop closes_arm closes_case closes_function : Says
  opens_for : Text → List Text → Says
  opens_arm : List Text → Says
  to_do : Text → Text → Says

pub record MigratedLine : Type 0 where
  pub indent : ℕ
  pub content : Says

unfoldable pub quote_for_migrate : Text → Text
unfolding replace_rune
quote_for_migrate [] = codes "\"\""
quote_for_migrate (c ∷ s) =
    if contains_any (c ∷ s) (codes " \t\"'$|<>;()") then quote_quotes (c ∷ s) else c ∷ s

unfoldable pub content_text : Says → Text
unfolding quote_for_migrate join
content_text (says text) = text
content_text (sets exported name value) =
    (if exported then codes "export " else []) ++ (name ++ b'=' ∷ quote_for_migrate value)
content_text (opens_if test) = codes "if " ++ (test ++ codes "; then")
content_text (opens_elif test) = codes "elif " ++ (test ++ codes "; then")
content_text opens_else = codes "else"
content_text closes_if = codes "fi"
content_text (opens_for var words) =
    codes "for "
    ++ (var ++ (codes " in " ++ (join (map quote_for_migrate words) (codes " ") ++ codes "; do")))
content_text (opens_while test) = codes "while " ++ (test ++ codes "; do")
content_text closes_loop = codes "done"
content_text (opens_case word) = codes "case " ++ (quote_for_migrate word ++ codes " in")
content_text (opens_arm patterns) = codes "  " ++ (join patterns (codes "|") ++ codes ")")
content_text closes_arm = codes "  ;;"
content_text closes_case = codes "esac"
content_text (opens_function name) = name ++ codes "() {"
content_text closes_function = codes "}"
content_text (to_do reason source) =
    codes "# aish: MIGRATE-TODO: " ++ (reason ++ (codes " — " ++ source))

unfoldable pub line_text : MigratedLine → Text
unfolding content_text repeat
line_text l = repeat (codes "  ") l.indent ++ content_text l.content

abbrev pub at : ℕ → Says → MigratedLine
at indent content = record { indent = indent; content = content }

abbrev pub branch_head : ℕ → Text → Says
branch_head zero test = opens_if test
branch_head (suc i) test = opens_elif test

unfoldable mutual
  unfolding format_command format_test join

  -- writeMigrateStmt
  pub migrate_statement : Statement → ℕ → List MigratedLine
  migrate_statement (comment n text) indent = at indent (says text) ∷ []
  migrate_statement (assign n name value exported) indent =
      at indent (sets exported name value) ∷ []
  migrate_statement (simple c) indent = at indent (says (format_command c)) ∷ []
  migrate_statement (piped n stages) indent = at indent (says (format_stages stages)) ∷ []
  migrate_statement (cond n branches others) indent =
      migrate_branches branches 0 indent ++ (migrate_else others indent ++ at indent closes_if ∷ [])
  migrate_statement (loop_for n var words body) indent =
      at indent (opens_for var words)
      ∷ (migrate_statements body (indent + 1) ++ at indent closes_loop ∷ [])
  migrate_statement (loop_while n test body) indent =
      at indent (opens_while (format_test test))
      ∷ (migrate_statements body (indent + 1) ++ at indent closes_loop ∷ [])
  migrate_statement (case_of n word arms) indent =
      at indent (opens_case word) ∷ (migrate_arms arms indent ++ at indent closes_case ∷ [])
  migrate_statement (func_def n name body) indent =
      at indent (opens_function name)
      ∷ (migrate_statements body (indent + 1) ++ at indent closes_function ∷ [])
  migrate_statement (unknown n reason source) indent = at indent (to_do reason source) ∷ []

  pub migrate_statements : Statements → ℕ → List MigratedLine
  migrate_statements done indent = []
  migrate_statements (also st rest) indent =
      migrate_statement st indent ++ migrate_statements rest indent

  pub migrate_branches : Branches → ℕ → ℕ → List MigratedLine
  migrate_branches no_branch i indent = []
  migrate_branches (branch test body rest) i indent =
      at indent (branch_head i (format_test test))
      ∷ (migrate_statements body (indent + 1) ++ migrate_branches rest (suc i) indent)

  -- `if len(v.Else) > 0`
  pub migrate_else : Statements → ℕ → List MigratedLine
  migrate_else done indent = []
  migrate_else (also st rest) indent =
      at indent opens_else
      ∷ (migrate_statement st (indent + 1) ++ migrate_statements rest (indent + 1))

  pub migrate_arms : Arms → ℕ → List MigratedLine
  migrate_arms no_arm indent = []
  migrate_arms (arm patterns body rest) indent =
      at indent (opens_arm patterns)
      ∷ (migrate_statements body (indent + 2) ++ at indent closes_arm ∷ migrate_arms rest indent)

-- The lines of Migrate after its first two, which name aish and the dialect.
unfoldable pub migrate : Statements → List MigratedLine
unfolding migrate_statement
migrate script = migrate_statements script 0
