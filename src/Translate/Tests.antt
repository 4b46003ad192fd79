-- ===== src/Translate/Tests.antt =====
-- Runs of translated scripts in a world that logs what is run.
use aish.Prelude.{ℕ, refl, none, some, List, [], ◌∷◌, ◌≡◌, Text, codes, if◌then◌else◌, text_eq}
use aish.Prelude.Int.{pos}
use aish.Translate.{
  Statement, simple, unknown, loop_while, Statements, done, also, append, cond, branch, no_branch,
}
use aish.Translate.Run.{System, Streams, exits, while_cap, run_statements, run_one}
use aish.Translate.Run.Abort.{abort_at_unknown}
use aish.Translate.Run.Loops.{Ends, while-Ends}
use aish.Translate.Explain.{explain, explain_statements}
use aish.Translate.Explain.Numbers.{Consecutive, explain_numbers}

-- Every file opens, and a command fails when it is `false`.
abbrev logged : System (List Text) ℕ
logged = record {
  open_file = λ op name w. (some 3, w);
  close_file = λ h w. w;
  warn = λ m w. codes "warned" ∷ w;
  execute = λ text s w. (exits (if text_eq text (codes "false") then pos 1 else pos 0), text ∷ w);
  env_set = none;
}

abbrev streams : Streams ℕ
streams = record { stdin = 0; stdout = 1; stderr = 2 }

abbrev call : Text → Statement
call name = simple (record { line = 1; name = name; args = []; redirects = [] })

abbrev one : Text → Statements
one name = also (call name) done

abort_at_unknown_example :
    run_statements logged streams
      (append (one (codes "ls")) (also (unknown 2 (codes "odd") (codes "x")) (one (codes "rm"))))
      (pos 0)
      []
    ≡ run_statements logged streams
        (append (one (codes "ls")) (also (unknown 2 (codes "odd") (codes "x")) done))
        (pos 0)
        []
abort_at_unknown_example =
    abort_at_unknown logged (one (codes "ls")) (one (codes "rm")) 2 (codes "odd") (codes "x")
      streams (pos 0) []

calls_true : run_one logged streams (call (codes "true")) [] ≡ (exits (pos 0), codes "true" ∷ [])
unfolding run_statements text_eq
calls_true = refl

while-Ends_example :
    Ends logged
      (run_one logged streams (call (codes "false")))
      (run_statements logged streams (one (codes "ls")) (pos 0))
      while_cap
      (pos 0)
      []
      (run_one logged streams (loop_while 1 (call (codes "false")) (one (codes "ls"))) [])
while-Ends_example = while-Ends logged streams 1 (call (codes "false")) (one (codes "ls")) []

abbrev two_deep : Statements
two_deep = also (loop_while 1 (call (codes "false")) (one (codes "ls"))) (one (codes "rm"))

explain_numbers_example : Consecutive 1 (explain two_deep) (explain_statements two_deep 1 0).1
explain_numbers_example = explain_numbers two_deep

abbrev branching : Statements
branching =
    also
      (cond 1 (branch (call (codes "true")) two_deep (branch (call (codes "ls")) done no_branch))
        (one (codes "b")))
      done
