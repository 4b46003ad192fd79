-- ===== src/History/Tests.antt =====
-- Pipelines that destroy and move files.
use aish.Prelude.{
  ◌≡◌, refl, true, false, none, some, List, [], ◌∷◌, ◌++◌, map, text_eq, Text, codes, Option, arith,
  inl, inr,
}
use aish.Prelude.Int.{pos}
use aish.Parser.{Command, Pipeline}
use aish.History.Detect.{extract_file_args, rename_targets}
use aish.History.Interceptor.{Event, Services, History, before, after, history}
use aish.History.Interceptor.Redacted.{recording, run_expanded-redacted}
use aish.Env.{new_env}
use aish.Jobs.{new_job_table}
use aish.Shell.Taint.{has, tag_pipeline_taint}
use aish.Parser.Expand.{Paths}
use aish.Shell.State.{Shell, Operations}
use aish.Shell.External.{run_expanded, run_external}
use aish.History.Detect.Targets.{
  Item, Holds, path, option, option_value, print_items, paths_of, extract_file_args-paths_of,
}

abbrev stage : Text → List Text → Command
stage name args = record { name = name; args = args; tainted = false }

abbrev cleaning : Pipeline
cleaning = record {
  commands =
      stage (codes "mv") (codes "-f" ∷ codes "a" ∷ codes "b" ∷ codes "dir" ∷ [])
      ∷ stage (codes "rm") (codes "-r" ∷ codes "old" ∷ [])
      ∷ [];
  background = false;
  tainted = false;
}

-- Both files are moved to the directory, and not to files in it.
moves_into_directory :
    rename_targets cleaning ≡ (codes "a", codes "dir") ∷ (codes "b", codes "dir") ∷ []
unfolding rename_targets
moves_into_directory = refl

abbrev truncating : List Item
truncating = option_value (codes "-s") (codes "0") ∷ option (codes "-c") ∷ path (codes "log") ∷ []

no_equals : Holds b'=' (codes "-s") → ⊥
no_equals (inl e) = absurd (omega (arith, e))
no_equals (inr (inl e)) = absurd (omega (arith, e))
no_equals (inr (inr h)) = absurd h

extract_file_args-paths_of_example :
    (extract_file_args (print_items truncating) (codes "-s" ∷ []) ≡ paths_of truncating)
    × (extract_file_args (print_items truncating ++ codes "--" ∷ codes "-x" ∷ []) (codes "-s" ∷ [])
        ≡ paths_of truncating ++ codes "-x" ∷ [])
unfolding extract_file_args text_eq
extract_file_args-paths_of_example =
    extract_file_args-paths_of (codes "-s" ∷ []) truncating (codes "-x" ∷ []) (
      ((_, _, refl, λ e. absurd (cc e)), no_equals, refl),
      (((_, _, refl, λ e. absurd (cc e)), inr refl), (refl, tt)),
    )

-- A store in memory, whose world is the list of its events.
abbrev events : Services (List Event)
events = record {
  snapshot_move = λ src dst w. ([], w);
  snapshot_many = λ paths w. ([], w);
  append = λ ev w. (true, ev ∷ w);
  finalize = λ id code dur w. (true, w);
  new_event_id = λ w. (codes "e1", w);
  now = λ w. (0, w);
  current_cwd = λ w. codes "/";
  canonical = λ cwd path. path;
}

abbrev shredding : Pipeline
shredding = record {
  commands = stage (codes "rm") (codes "xyz" ∷ []) ∷ [];
  background = false;
  tainted = false;
}

abbrev blank_shell : Shell (History (List Event))
blank_shell = record {
  cwd = codes "/";
  env = new_env;
  last_exit = pos 0;
  aliases = [];
  taint_reg = none;
  table = new_job_table;
  out = [];
  errors = [];
  world = record { pending = []; notices = []; outer = [] };
}

abbrev known : Shell (History (List Event))
known = record blank_shell { taint_reg = some (codes "xyz" ∷ []) }

-- The event itself, of which the path is not redacted.
recorded :
    map
      (λ (e : Event). e.command)
      (before events
        (tag_pipeline_taint (some (codes "xyz" ∷ [])) shredding)
        (codes "rm xyz")
        blank_shell.world).1.outer
    ≡ codes "[REDACTED:tainted]" ∷ []
unfolding before tag_pipeline_taint
recorded = refl

-- Every pipeline prints a word and a newline.
abbrev machine : Operations (History (List Event))
machine = record {
  interceptors = history events ∷ [];
  run_pipeline = λ pl env w. (((pos 0, false), codes "xyz\n"), w);
  run_background = λ pl env w. (none, w);
  now = λ w. (0, w);
}

abbrev no_paths : Paths
no_paths = record {
  is_abs = λ p. false;
  join = λ a b. a ++ b;
  separator = codes "/";
  glob = λ p. none;
}

run_expanded-redacted_example :
    (run_expanded
      (recording events machine no_paths)
      no_paths
      (record shredding { background = true })
      (codes "rm $(secret get x) &")
      known).world
    ≡ (run_expanded
        (recording events machine no_paths)
        no_paths
        (record shredding { background = true })
        []
        known).world
unfolding has
run_expanded-redacted_example =
    run_expanded-redacted events machine no_paths (codes "xyz") (codes "rm $(secret get x) &") []
      (record shredding { background = true }) [] [] (stage (codes "rm") (codes "xyz" ∷ [])) [] []
      known refl refl refl

commands_of : Option (Shell (History (List Event))) → List Text
commands_of none = []
commands_of (some s) = map (λ (e : Event). e.command) s.world.outer

-- The whole line, from the substitution to the event.
secret_line :
    commands_of (
      run_external machine no_paths 1
        (codes "rm $(secret get x)")
        (record blank_shell { taint_reg = some [] }))
    ≡ codes "[REDACTED:tainted]" ∷ []
unfolding run_external commands_of before after
secret_line = refl

ordinary_line :
    commands_of (
      run_external machine no_paths 1
        (codes "rm $(date)")
        (record blank_shell { taint_reg = some [] }))
    ≡ codes "rm $(date)" ∷ []
unfolding run_external commands_of before after
ordinary_line = refl
