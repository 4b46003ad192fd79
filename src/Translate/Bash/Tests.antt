-- ===== src/Translate/Bash/Tests.antt =====
-- Scripts that are read, and what they do when they are run.
use aish.Prelude.{ℕ, ◌≡◌, refl, none, some, List, [], ◌∷◌, Text, codes}
use aish.Prelude.Int.{pos}
use aish.Translate.{Statement, simple, cond, branch, no_branch, Statements, done, also}
use aish.Translate.Run.{System, Streams, exits, run_one, run_statements}
use aish.Translate.Format.{format_command}
use aish.Translate.Bash.Print.{nothing, bare, in_quotes}
use aish.Translate.Bash.Print.Commands.{IsPrintable, parse_statement_line-format_command}
use aish.Translate.{Command, redirect_append, redirect_err_to_out}
use aish.Translate.Bash.Line.{split_assignment, parse_statement_line}
use aish.Translate.Bash.{PhysicalLine}
use aish.Translate.Bash.Headers.{skip_keyword_line}
use aish.Translate.Bash.Blocks.{start_if, at_else, head_of, parse_block, parse_if, read_bash}
use aish.Translate.Bash.Blocks.Kinds.{Fi}
use aish.Translate.Bash.Blocks.Else.{else_drops_then}
use aish.Translate.Bash.Blocks.Total.{read_bash_ends}

abbrev call : ℕ → Text → Statement
call n name = simple (record { line = n; name = name; args = []; redirects = [] })

abbrev with_else : Text
with_else = codes "if a; then\n  b\nelse\n  c\nfi\nd"

-- The command `b` is lost.
reads_if_else :
    read_bash with_else
    ≡ some (
        also
          (cond 1 (branch (call 1 (codes "a")) done no_branch) (also (call 4 (codes "c")) done))
          (also (call 6 (codes "d")) done))
unfolding read_bash
reads_if_else = refl

read_bash_ends_example : (script : Statements) × (read_bash with_else ≡ some script)
read_bash_ends_example = read_bash_ends with_else

abbrev at_line : ℕ → Text → PhysicalLine
at_line n text = record { line = n; text = text }

abbrev header : PhysicalLine
header = at_line 1 (codes "if a; then")

abbrev then_line : PhysicalLine
then_line = at_line 2 (codes "  b")

abbrev else_line : PhysicalLine
else_line = at_line 3 (codes "else")

abbrev other_line : PhysicalLine
other_line = at_line 4 (codes "  c")

abbrev fi_line : PhysicalLine
fi_line = at_line 5 (codes "fi")

-- Every command succeeds; the world is the list of those that were run.
abbrev logged : System (List Text) ℕ
logged = record {
  open_file = λ op name w. (some 3, w);
  close_file = λ h w. w;
  warn = λ m w. w;
  execute = λ text s w. (exits (pos 0), text ∷ w);
  env_set = none;
}

abbrev streams : Streams ℕ
streams = record { stdin = 0; stdout = 1; stderr = 2 }

abbrev if_lines : List PhysicalLine
if_lines = then_line ∷ else_line ∷ other_line ∷ fi_line ∷ []

reads_then :
    parse_block 5
      (skip_keyword_line (codes "then") if_lines)
      (codes "elif" ∷ codes "else" ∷ codes "fi" ∷ [])
    ≡ some (also (call 2 (codes "b")) done, else_line ∷ other_line ∷ fi_line ∷ [])
unfolding parse_block
reads_then = refl

at_else_line : head_of (else_line ∷ other_line ∷ fi_line ∷ []) ≡ at_else
unfolding head_of
at_else_line = refl

reads_other :
    parse_block 5
      (skip_keyword_line (codes "else") (else_line ∷ other_line ∷ fi_line ∷ []))
      (codes "fi" ∷ [])
    ≡ some (also (call 4 (codes "c")) done, fi_line ∷ [])
unfolding parse_block
reads_other = refl

at_fi_line : Fi fi_line
unfolding head_of
at_fi_line = refl

runs_test : run_one logged streams (start_if header).test [] ≡ (exits (pos 0), codes "a" ∷ [])
unfolding run_statements start_if
runs_test = refl

else_drops_then_example :
    (st : Statement) × (parse_if 6 (start_if header) if_lines
      ≡ some (st, skip_keyword_line (codes "fi") (fi_line ∷ [])))
    × (run_one logged streams st [] ≡ (exits (pos 0), codes "a" ∷ []))
else_drops_then_example =
    else_drops_then 3 header then_line else_line fi_line (else_line ∷ other_line ∷ fi_line ∷ [])
      (other_line ∷ fi_line ∷ []) [] (also (call 2 (codes "b")) done)
      (also (call 4 (codes "c")) done) reads_then at_else_line reads_other at_fi_line logged streams
      [] (codes "a" ∷ []) runs_test

abbrev noted : Command
noted = record {
  line = 3;
  name = codes "grep";
  args = codes "-n" ∷ codes "a \"b\"" ∷ [] ∷ [];
  redirects =
      record { op = redirect_append; target = codes "log" }
      ∷ record { op = redirect_err_to_out; target = [] }
      ∷ [];
}

noted-IsPrintable : IsPrintable noted
unfolding split_assignment
noted-IsPrintable = record {
  name_ok = (refl, (refl, (refl, (refl, tt))));
  no_assignment = refl;
  args_ok = (
    bare _ _ (refl, (refl, tt)),
    (in_quotes _ _ refl (refl, (refl, (refl, (refl, (refl, tt))))), (nothing, tt)),
  );
  redirects_ok = ((refl, (refl, (refl, tt))), (refl, tt));
}

parse_statement_line-format_command_example :
    parse_statement_line (format_command noted) 3 ≡ simple noted
parse_statement_line-format_command_example =
    parse_statement_line-format_command noted noted-IsPrintable
