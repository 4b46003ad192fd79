-- ===== src/Shell/External.antt =====
-- runExternal and RunForCapture of shell/internal/shell/shell.go, and runBackground of
-- jobs_dispatch.go.
pub mod Around
pub mod Fuel
pub mod Keeps
pub mod Secrets
use aish.Prelude.{
  ℕ, zero, suc, ◌-◌, Bool, true, false, ◌⊎◌, inl, inr, Option, none, some, List, [], ◌∷◌, ◌++◌,
  if◌then◌else◌, get_elem?, length, Text, Rune, ◌==◌, trim_space, trim_right_while,
}
use aish.Prelude.Int.{ℤ, pos}
use aish.Env.{environ}
use aish.Parser.{Pipeline, parse, ok, err, panic}
use aish.Parser.Substitution.{Outcome, failed, too_deep, unterminated, expand_line}
use aish.Parser.Expand.{Paths, expand_pipeline}
use aish.Jobs.{running}
use aish.Shell.Alias.{Warning, resolve_alias}
use aish.Shell.Taint.{tag_pipeline_taint, register_captured}
use aish.Shell.State.{
  Shell, Interceptor, Operations, set_last_exit, substitution_failed, interceptor_failed,
  run_failed, background_failed, parse_failed, alias_warning, job_started,
}

-- The calls of RunForCapture within each other are deeper than the model follows.
pub data Exhausted : Type 0 where
  exhausted : Exhausted

abbrev is_ampersand : Rune → Bool
is_ampersand r = r == b'&'

-- cleanLine
unfoldable pub clean_line : Text → Text
unfolding trim_space trim_right_while
clean_line cmdline = trim_space (trim_right_while is_ampersand (trim_space cmdline))

module _ {W : Type 0} where
  complain_if : Bool → Shell W → Shell W
  complain_if true s = record s { errors = s.errors ++ interceptor_failed ∷ [] }
  complain_if false s = s

  -- One Before, and one After.
  unfoldable pub before_one : Interceptor W → Pipeline → Text → Shell W → Shell W
  unfolding complain_if
  before_one ic pl line s =
      let (refused, w) = ic.before pl line s.world in complain_if refused (record s { world = w })

  unfoldable pub after_one : Interceptor W → Pipeline → Text → ℤ → ℕ → Shell W → Shell W
  after_one ic pl line code dur s = record s { world = ic.after pl line code dur s.world }

  unfoldable pub before_all : List (Interceptor W) → Pipeline → Text → Shell W → Shell W
  unfolding before_one
  before_all [] pl line s = s
  before_all (ic ∷ ics) pl line s = before_all ics pl line (before_one ic pl line s)

  -- The loop from `i - 1` down to 0.
  unfoldable pub after_from : ℕ → List (Interceptor W) → Pipeline → Text → ℤ → ℕ → Shell W → Shell W
  unfolding after_one
  after_from zero ics pl line code dur s = s
  after_from (suc i) ics pl line code dur s = elim (get_elem? ics i) [
    | none ↦ after_from i ics pl line code dur s
    | some ic ↦ after_from i ics pl line code dur (after_one ic pl line code dur s)
  ]

  -- The two loops around what runs the pipeline and gives its exit code and its duration.
  unfoldable pub intercepted :
      List (Interceptor W) → Pipeline → Text → (Shell W → (ℤ × ℕ) × Shell W) → Shell W → Shell W
  unfolding before_all after_from
  intercepted ics pl line body s =
      let ((code, dur), s') = body (before_all ics pl line s) in
      set_last_exit code (after_from (length ics) ics pl line code dur s')

  warn : Option Warning → Shell W → Shell W
  warn none s = s
  warn (some warning) s = record s { errors = s.errors ++ alias_warning warning ∷ [] }

module _ {W : Type 0} (ops : Operations W) (paths : Paths) where
  -- runBackground, with the exit code and the duration that After gets.
  unfoldable pub background : Pipeline → Text → Shell W → (ℤ × ℕ) × Shell W
  unfolding clean_line aish.Jobs.add
  background pl cmdline s =
      let (started, w) = ops.run_background pl (environ s.env) s.world in
      elim started [
        | none ↦ ((pos 1, 0), record s { world = w; errors = s.errors ++ background_failed ∷ [] })
        | some (pgid, leader) ↦
            (let (job, table) = aish.Jobs.add pgid leader (clean_line cmdline) running s.table in
              (
                (pos 0, 0),
                record s {
                  world = w;
                  table = table;
                  errors = s.errors ++ job_started job.id pgid ∷ [];
                },
              ))
      ]

  -- From `start` to `finalExit`.
  unfoldable pub foreground : Pipeline → Shell W → (ℤ × ℕ) × Shell W
  foreground pl s =
      let (start, w₁) = ops.now s.world in
      let (((code, broken), written), w₂) = ops.run_pipeline pl (environ s.env) w₁ in
      let (stop, w₃) = ops.now w₂ in
      let s' = record s { world = w₃; out = s.out ++ written } in
      if broken
      then ((pos 127, stop - start), record s' { errors = s'.errors ++ run_failed ∷ [] })
      else ((code, stop - start), s')

  -- What follows the expansion of the pipeline.
  unfoldable pub run_expanded : Pipeline → Text → Shell W → Shell W
  unfolding tag_pipeline_taint intercepted background foreground
  run_expanded expanded cmdline s =
      let pl = tag_pipeline_taint s.taint_reg expanded in
      if pl.background
      then intercepted ops.interceptors pl cmdline (background pl cmdline) s
      else intercepted ops.interceptors pl cmdline (foreground pl) s

  -- What follows the substitution of commands; `none` where Parse indexes an empty stage.
  unfoldable pub run_substituted : Text → Text → Shell W → Option (Shell W)
  unfolding resolve_alias parse expand_pipeline run_expanded warn
  run_substituted substituted cmdline s =
      let (line, warning) = resolve_alias s.aliases substituted in
      let s' = warn warning s in
      elim (parse line) [
        | err e ↦
            some (set_last_exit (pos 2) (record s' { errors = s'.errors ++ parse_failed e ∷ [] }))
        | panic ↦ none
        | ok pipeline ↦ elim pipeline.commands [
          | [] ↦ some s'
          | _ ∷ _ ↦ some (run_expanded (expand_pipeline paths s'.cwd pipeline) cmdline s')
        ]
      ]

  after_substitution : Text → Outcome (Shell W) Exhausted → Option (Shell W)
  unfolding run_substituted
  after_substitution cmdline (inl (failed _ exhausted), s) = none
  after_substitution cmdline (inl too_deep, s) =
      some (set_last_exit (pos 2) (record s { errors = s.errors ++ substitution_failed ∷ [] }))
  after_substitution cmdline (inl unterminated, s) =
      some (set_last_exit (pos 2) (record s { errors = s.errors ++ substitution_failed ∷ [] }))
  after_substitution cmdline (inr substituted, s) = run_substituted substituted cmdline s

  -- runExternal, with the executor of command substitutions as an argument.
  unfoldable pub run_external_with :
      (Text → Shell W → (Exhausted ⊎ Text) × Shell W) → Text → Shell W → Option (Shell W)
  unfolding after_substitution expand_line
  run_external_with run_for_capture cmdline s =
      after_substitution cmdline (expand_line (some run_for_capture) cmdline s)

  -- What RunForCapture does after runExternal, which began in the state `s` with an empty buffer.
  captured : Text → Shell W → Option (Shell W) → (Exhausted ⊎ Text) × Shell W
  unfolding register_captured
  captured cmd s none = (inl exhausted, s)
  captured cmd s (some s') = (
    inr s'.out,
    record s' {
      last_exit = s.last_exit;
      out = s.out;
      taint_reg = register_captured cmd s'.out s'.taint_reg;
    },
  )

  -- RunForCapture, by how many calls of it may stand within each other.
  unfoldable pub run_for_capture : ℕ → Text → Shell W → (Exhausted ⊎ Text) × Shell W
  unfolding captured run_external_with
  run_for_capture zero cmd s = (inl exhausted, s)
  run_for_capture (suc n) cmd s =
      captured cmd s (run_external_with (run_for_capture n) cmd (record s { out = [] }))

  unfoldable pub run_external : ℕ → Text → Shell W → Option (Shell W)
  unfolding run_external_with run_for_capture
  run_external n cmdline s = run_external_with (run_for_capture n) cmdline s
