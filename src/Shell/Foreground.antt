-- ===== src/Shell/Foreground.antt =====
-- shell/internal/shell: the builtins `jobs`, `fg` and `bg` (builtin_jobs.go, builtin_fg_unix.go,
-- builtin_bg_unix.go).
pub mod Waits
pub mod Listed
pub mod Table
use aish.Prelude.{
  ℕ, zero, suc, ◌+◌, Bool, true, false, Option, none, some, List, [], ◌∷◌, ◌++◌, Text, codes, itoa,
  if◌then◌else◌,
}
use aish.Prelude.Int.{ℤ, pos}
use aish.Jobs.{
  Job, JobTable, running, stopped, done, list, set_current, mark_foreground, clear_foreground,
  set_running,
}
use aish.Jobs.Find.{find}
use aish.Shell.State.{Shell, complain, usage, no_such_job, signal_failed, job_stopped, print_lines}

-- What jobs.SendSignal answers: no error, no such process, or another error.
pub data Signaled : Type 0 where
  sent gone failed : Signaled

-- The terminal, signals, and a pause in which the goroutine may change the table. `take_tty` is the
-- condition around TakeTTY, true if the shell must take the terminal back.
pub record Control (W : Type 0) : Type 0 where
  pub take_tty : ℕ → W → Bool × W
  pub release_tty : W → W
  pub send_cont : ℕ → W → Signaled × W
  pub pause : JobTable → W → JobTable × W
  pub visit : List Job → List Job

-- fmt.Sprintf("%%%d", jobID)
unfoldable pub spec_of : ℕ → Text
unfolding itoa
spec_of id = b'%' ∷ itoa (pos id)

module _ {W : Type 0} (ctl : Control W) where
  -- jobsBuiltin; `none` where List reads a nil job.
  unfoldable pub jobs_builtin : List Text → Shell W → Option ℕ × Shell W
  unfolding print_lines
  jobs_builtin [] s = elim (list ctl.visit s.table) [
    | none ↦ (none, s)
    | some lines ↦ (some 0, record s { out = s.out ++ print_lines lines })
  ]
  jobs_builtin (a ∷ args) s = (some 2, complain usage s)

  -- The loop that waits, by how many rounds it may take: the exit code of `fg`, or `none` if the
  -- job is still running after all of them. SIGTSTP is 20, as on Linux.
  unfoldable pub wait_loop : ℕ → ℕ → Shell W → Option ℕ × Shell W
  wait_loop zero id s = (none, s)
  wait_loop (suc n) id s = elim (find (spec_of id) s.table) [
    | none ↦ (some 0, s)
    | some j ↦ elim j.status [
      | done ↦ (some j.exit_code, s)
      | stopped ↦ (some (128 + 20), complain (job_stopped j.id) s)
      | running ↦
          (let (table, w) = ctl.pause s.table s.world in
            wait_loop n id (record s { table = table; world = w }))
    ]
  ]

  -- The deferred calls, the later one first.
  release_if : Bool → Shell W → Shell W
  release_if true s = record s { world = ctl.release_tty s.world }
  release_if false s = s

  unfoldable pub leave_fg : Bool → ℕ → Option ℕ × Shell W → Option ℕ × Shell W
  unfolding release_if clear_foreground
  leave_fg taken pid (code, s) =
      (code, release_if taken (record s { table = clear_foreground ctl.visit pid s.table }))

  -- From the signal on.
  unfoldable pub resume : ℕ → Job → Shell W → Option ℕ × Shell W
  unfolding wait_loop
  resume n job s =
      let (r, w) = ctl.send_cont job.pgid s.world in
      let s' = record s { world = w } in
      elim r [
        | failed ↦ (some 1, complain signal_failed s')
        | gone ↦ wait_loop n job.id s'
        | sent ↦ wait_loop n job.id s'
      ]

  -- From the print of the command line on.
  unfoldable pub foreground_job : ℕ → Job → Shell W → Option ℕ × Shell W
  unfolding leave_fg resume set_current mark_foreground
  foreground_job n job s =
      let (taken, w) = ctl.take_tty job.pgid s.world in
      leave_fg taken job.leader_pid (
        resume n job (record s {
          out = s.out ++ (job.cmdline ++ b'\n' ∷ []);
          world = w;
          table = mark_foreground job.id (set_current job.id s.table);
        }))

  fg_spec : ℕ → Text → Shell W → Option ℕ × Shell W
  unfolding foreground_job find
  fg_spec n spec s = elim (find spec s.table) [
    | none ↦ (some 1, complain (no_such_job spec) s)
    | some job ↦ foreground_job n job s
  ]

  -- fgBuiltin
  unfoldable pub fg_builtin : ℕ → List Text → Shell W → Option ℕ × Shell W
  unfolding fg_spec
  fg_builtin n [] s = fg_spec n [] s
  fg_builtin n (spec ∷ []) s = fg_spec n spec s
  fg_builtin n (spec ∷ a ∷ args) s = (some 2, complain usage s)

  bg_job : Job → Signaled × W → Shell W → ℕ × Shell W
  unfolding set_running
  bg_job job (failed, w) s = (1, complain signal_failed (record s { world = w }))
  bg_job job (_, w) s = (
    0,
    record s {
      world = w;
      table = set_running job.id s.table;
      out = s.out ++ (b'[' ∷ (itoa (pos job.id) ++ (codes "]+ " ++ (job.cmdline ++ codes " &\n"))));
    },
  )

  bg_spec : Text → Shell W → ℕ × Shell W
  unfolding bg_job find
  bg_spec spec s = elim (find spec s.table) [
    | none ↦ (1, complain (no_such_job spec) s)
    | some job ↦ bg_job job (ctl.send_cont job.pgid s.world) s
  ]

  -- bgBuiltin
  unfoldable pub bg_builtin : List Text → Shell W → ℕ × Shell W
  unfolding bg_spec
  bg_builtin [] s = bg_spec [] s
  bg_builtin (spec ∷ []) s = bg_spec spec s
  bg_builtin (spec ∷ a ∷ args) s = (2, complain usage s)
