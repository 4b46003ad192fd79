-- ===== src/Shell/State.antt =====
-- shell/internal/shell/shell.go and interceptor.go: the state of a shell, and what the operating
-- system and the observers of commands do for it.
use aish.Prelude.{ℕ, Bool, Option, List, [], ◌∷◌, ◌++◌, Text}
use aish.Prelude.Int.{ℤ}
use aish.Env.{Env}
use aish.Parser.{Pipeline, ParseError}
use aish.Jobs.{JobTable}
use aish.Shell.Alias.{Aliases, AliasError, Warning}

-- What is written to stderr.
pub data Complaint : Type 0 where
  substitution_failed interceptor_failed run_failed background_failed : Complaint
  no_home no_directory no_equals empty_name option_flag resolve_failed usage : Complaint
  no_such_job : Text → Complaint
  signal_failed not_login not_numeric not_found exec_parse : Complaint
  no_file read_failed key_refused umask_ignored : Complaint
  malformed refused : ℕ → Complaint
  job_stopped : ℕ → Complaint
  parse_failed : ParseError → Complaint
  alias_warning : Warning → Complaint
  alias_failed : AliasError → Complaint
  job_started : ℕ → ℕ → Complaint

-- The world holds what the struct does not; `out` is what was written to the stdout of the call.
pub record Shell (W : Type 0) : Type 0 where
  pub cwd : Text
  pub env : Env
  pub last_exit : ℤ
  pub aliases : Aliases
  pub taint_reg : Option (List Text)
  pub table : JobTable
  pub out : Text
  pub errors : List Complaint
  pub world : W

-- Interceptor: `before` says whether it failed; `after` gets the exit code and the duration. None
-- of the repository's writes through the pointer to the pipeline.
pub record Interceptor (W : Type 0) : Type 0 where
  pub before : Pipeline → Text → W → Bool × W
  pub after : Pipeline → Text → ℤ → ℕ → W → W

-- The exit code of runPipeline, whether it failed, and what it wrote to stdout; the group and the
-- leader that exec.RunBackground started, or `none` for an error; the clock.
pub record Operations (W : Type 0) : Type 0 where
  pub interceptors : List (Interceptor W)
  pub run_pipeline : Pipeline → List Text → W → ((ℤ × Bool) × Text) × W
  pub run_background : Pipeline → List Text → W → Option (ℕ × ℕ) × W
  pub now : W → ℕ × W

-- The loop of fmt.Fprintln over lines.
unfoldable pub print_lines : List Text → Text
print_lines [] = []
print_lines (line ∷ lines) = line ++ (b'\n' ∷ print_lines lines)

module _ {W : Type 0} where
  -- SetLastExit
  abbrev pub set_last_exit : ℤ → Shell W → Shell W
  set_last_exit code s = record s { last_exit = code }

  abbrev pub complain : Complaint → Shell W → Shell W
  complain c s = record s { errors = s.errors ++ c ∷ [] }
