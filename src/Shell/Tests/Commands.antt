-- ===== src/Shell/Tests/Commands.antt =====
-- The theorems about running commands, applied to concrete lines and a world that is a log.
use aish.Prelude.{
  ◌≡◌, refl, ◌↔◌, ◌⊎◌, ◌||◌, ◌&&◌, Bool, true, false, none, some, List, [], ◌∷◌, ◌++◌, Text, codes,
  arith,
}
use aish.Prelude.Int.{pos}
use aish.Env.{new_env}
use aish.Parser.{Pipeline, command}
use aish.Parser.Expand.{Paths}
use aish.Parser.Substitution.Pieces.{Piece, plain, command_of, print_pieces}
use aish.Jobs.{JobTable, new_job_table, update, add, set_status, running, done, lookup}
use aish.Shell.Taint.{tag_pipeline_taint, is_secret_get_invocation}
use aish.Shell.Taint.Marks.{Tagged, AnyReveals, tag_pipeline_taint-Tagged}
use aish.Shell.State.{Shell, Interceptor, Operations, set_last_exit}
use aish.Shell.External.{intercepted, foreground, run_for_capture, run_external}
use aish.Shell.External.Around.{around, intercepted-around}
use aish.Shell.External.Fuel.{Done, run_external-Done}
use aish.Shell.External.Secrets.{secret_taints}
use aish.Shell.Foreground.{Control, sent, wait_loop}
use aish.Shell.Foreground.Waits.{EndsWith, answer, pauses, wait_loop-EndsWith}
use aish.Shell.Dispatch.{Others, entries, match_entries, named, resolve_tier}
use aish.Shell.Dispatch.Lines.{is_some, is_builtin, never_alone, resolve_tier-match_entries}

abbrev pub Log : Type 0
Log = List Text

abbrev pub logger : Text → Interceptor Log
logger name = record {
  before = λ pl line w. (false, w ++ (codes "before " ++ name) ∷ []);
  after = λ pl line code dur w. w ++ (codes "after " ++ name) ∷ [];
}

-- Every pipeline prints a word and a newline.
abbrev pub machine : Operations Log
machine = record {
  interceptors = logger (codes "a") ∷ logger (codes "b") ∷ [];
  run_pipeline = λ pl env w. (((pos 3, false), codes "xyz\n"), w ++ codes "run" ∷ []);
  run_background = λ pl env w. (some (7, 7), w);
  now = λ w. (0, w);
}

abbrev pub no_paths : Paths
no_paths = record {
  is_abs = λ p. false;
  join = λ a b. a ++ b;
  separator = codes "/";
  glob = λ p. none;
}

abbrev pub shell : Shell Log
shell = record {
  cwd = codes "/";
  env = new_env;
  last_exit = pos 0;
  aliases = [];
  taint_reg = some [];
  table = new_job_table;
  out = [];
  errors = [];
  world = [];
}

abbrev echo : Pipeline
echo = record {
  commands = command (codes "echo") (codes "xyz" ∷ []) ∷ [];
  background = false;
  tainted = false;
}

intercepted-around_example :
    intercepted machine.interceptors echo
      (codes "echo xyz")
      (foreground machine no_paths echo)
      shell
    ≡ set_last_exit
        (around machine.interceptors echo
          (codes "echo xyz")
          (foreground machine no_paths echo)
          shell).0.0
        (around machine.interceptors echo
          (codes "echo xyz")
          (foreground machine no_paths echo)
          shell).1
intercepted-around_example =
    intercepted-around echo (codes "echo xyz") machine.interceptors
      (foreground machine no_paths echo) shell

order_of_calls :
    (intercepted machine.interceptors echo [] (foreground machine no_paths echo) shell).world
    ≡ codes "before a" ∷ codes "before b" ∷ codes "run" ∷ codes "after b" ∷ codes "after a" ∷ []
unfolding intercepted foreground
order_of_calls = refl

tag_pipeline_taint-Tagged_example :
    Tagged
      (some (codes "xyz" ∷ []))
      echo.commands
      (tag_pipeline_taint (some (codes "xyz" ∷ [])) echo).commands
    × ((tag_pipeline_taint (some (codes "xyz" ∷ [])) echo).background ≡ false)
    × (((tag_pipeline_taint (some (codes "xyz" ∷ [])) echo).tainted ≡ true)
        ↔ ((◌≡◌ {A = Bool} false true) ⊎ AnyReveals (some (codes "xyz" ∷ [])) echo.commands))
tag_pipeline_taint-Tagged_example = tag_pipeline_taint-Tagged (some (codes "xyz" ∷ [])) echo

abbrev dated : List Piece
dated = plain b'e' ∷ plain b' ' ∷ command_of (codes "date") ∷ plain b'.' ∷ []

run_external-Done_example : Done (run_external machine no_paths 1 (print_pieces dated) shell)
run_external-Done_example =
    run_external-Done machine no_paths 0 dated shell
      (refl, (refl, ((refl, (refl, (refl, (refl, tt)))), (refl, tt))))

abbrev got : Shell Log
got = (run_for_capture machine no_paths 1 (codes "secret get x") shell).1

secret_taints_example :
    (tag_pipeline_taint
      (run_for_capture machine no_paths 1 (codes "date") got).1.taint_reg
      echo).tainted
    ≡ true
unfolding run_for_capture is_secret_get_invocation
secret_taints_example =
    secret_taints machine no_paths 0 1 (codes "secret get x") (codes "date") (codes "xyz\n") shell
      got b'x' (codes "yz") echo [] [] (command (codes "echo") (codes "xyz" ∷ [])) [] []
      (λ e. absurd (cc e)) refl refl refl refl refl

abbrev one_job : JobTable
one_job = (add 7 7 (codes "sleep 1") running new_job_table).1

-- The process ends, with code 5, in the first pause.
abbrev ends_soon : Control Log
ends_soon = record {
  take_tty = λ pgid w. (false, w);
  release_tty = λ w. w;
  send_cont = λ pgid w. (sent, w);
  pause = λ table w. (set_status 1 done 5 table, w);
  visit = λ js. js;
}

wait_loop-EndsWith_example :
    EndsWith ends_soon 5
      (pauses ends_soon 1 (record shell { table = one_job }))
      (wait_loop ends_soon 3 1 (record shell { table = one_job }))
unfolding add set_status lookup answer new_job_table update
wait_loop-EndsWith_example =
    wait_loop-EndsWith ends_soon 1 3 1 (record shell { table = one_job }) 5 (omega arith)
      (omega arith) ((_, refl, refl), tt) refl

abbrev pub nothing_else : Others Log
nothing_else = record {
  other_builtin = λ name args s. (pos 0, s);
  is_known_binary = λ token env w. true;
  cache = none;
}

resolve_tier-match_entries_example :
    is_builtin (resolve_tier nothing_else (codes "export") shell)
    ≡ is_some (match_entries entries (codes "export" ++ codes " A=1"))
      || (false && named nothing_else (never_alone nothing_else) (codes "export"))
resolve_tier-match_entries_example =
    resolve_tier-match_entries nothing_else (codes "export") (codes " A=1") shell
      (refl, (refl, (refl, (refl, (refl, (refl, tt)))))) refl
