-- ===== src/Shell/Foreground/Table.antt =====
-- `jobs`, `fg` and `bg` (shell/internal/shell) change the job table by calls of its methods only.
use aish.Prelude.{
  ℕ, zero, suc, ◌≡◌, refl, ◌⊎◌, inl, inr, Bool, true, false, some, List, [], ◌∷◌, ◌++◌, Text,
  Option, Option-cases,
}
use aish.Jobs.{Job, JobTable, JobStatus, running, stopped, done, list, mark_foreground, set_current}
use aish.Jobs.Find.{find}
use aish.Jobs.Steps.{Reach, next, current_step, mark_step, clear_step, running_step}
use aish.Shell.State.{Shell}
use aish.Shell.Foreground.{
  Control, Signaled, sent, gone, failed, spec_of, jobs_builtin, wait_loop, release_if, leave_fg,
  resume, foreground_job, fg_spec, fg_builtin, bg_job, bg_spec, bg_builtin,
}

Signaled-cases : (r : Signaled) → (r ≡ sent) ⊎ ((r ≡ gone) ⊎ (r ≡ failed))
Signaled-cases sent = inl refl
Signaled-cases gone = inr (inl refl)
Signaled-cases failed = inr (inr refl)

abbrev pub Reached : {W : Type 0} → Shell W → Type 0
Reached s = Reach s.table

module _ {W : Type 0} (ctl : Control W) where
  -- What the goroutine does in a pause are calls of the methods.
  abbrev pub PausesByMethods : Type 0
  PausesByMethods = (jt : JobTable) (w : W) → Reach jt → Reach (ctl.pause jt w).0

  pub jobs_builtin-Reached :
      (args : List Text) (s : Shell W) → Reached s → Reached (jobs_builtin ctl args s).1
  unfolding jobs_builtin
  jobs_builtin-Reached [] s h = elim (Option-cases (list ctl.visit s.table)) [
    | inl e ↦ rw (e, jobs_builtin) h
    | inr (lines, e) ↦ rw (e, jobs_builtin) h
  ]
  jobs_builtin-Reached (a ∷ args) s h = h

  module _ (pauses : PausesByMethods) where
    looked-Reached :
        (n id : ℕ) (s : Shell W) (j : Job) (status : JobStatus)
        → ((s' : Shell W) → Reached s' → Reached (wait_loop ctl n id s').1)
        → find (spec_of id) s.table ≡ some j
        → j.status ≡ status
        → Reached s
        → Reached (wait_loop ctl (suc n) id s).1
    unfolding wait_loop
    looked-Reached n id s j done rest f e h = rw (f, wait_loop, e) h
    looked-Reached n id s j stopped rest f e h = rw (f, wait_loop, e) h
    looked-Reached n id s j running rest f e h =
        rw (f, wait_loop, e) (rest _ (pauses s.table s.world h))

    wait_loop-Reached : (n id : ℕ) (s : Shell W) → Reached s → Reached (wait_loop ctl n id s).1
    unfolding wait_loop
    wait_loop-Reached zero id s h = h
    wait_loop-Reached (suc n) id s h = elim (Option-cases (find (spec_of id) s.table)) [
      | inl e ↦ rw (e, wait_loop) h
      | inr (j, e) ↦ looked-Reached n id s j j.status (wait_loop-Reached n id) e refl h
    ]

    leave_fg-Reached :
        (taken : Bool) (pid : ℕ) (r : Option ℕ × Shell W)
        → Reached r.1
        → Reached (leave_fg ctl taken pid r).1
    unfolding leave_fg release_if
    leave_fg-Reached true pid (code, s) h = next h (clear_step ctl.visit pid)
    leave_fg-Reached false pid (code, s) h = next h (clear_step ctl.visit pid)

    resume-Reached : (n : ℕ) (job : Job) (s : Shell W) → Reached s → Reached (resume ctl n job s).1
    unfolding resume
    resume-Reached n job s h = elim (Signaled-cases (ctl.send_cont job.pgid s.world).0) [
      | inl e ↦ rw (e, resume) (wait_loop-Reached n job.id _ h)
      | inr (inl e) ↦ rw (e, resume) (wait_loop-Reached n job.id _ h)
      | inr (inr e) ↦ rw (e, resume) h
    ]

    foreground_job-Reached :
        (n : ℕ) (job : Job) (s : Shell W) → Reached s → Reached (foreground_job ctl n job s).1
    unfolding foreground_job
    foreground_job-Reached n job s h =
        let (taken, w) = ctl.take_tty job.pgid s.world in
        let s' : Shell W = record s {
          out = s.out ++ (job.cmdline ++ b'\n' ∷ []);
          world = w;
          table = mark_foreground job.id (set_current job.id s.table);
        } in
        leave_fg-Reached taken job.leader_pid (resume ctl n job s')
          (resume-Reached n job s' (next (next h (current_step job.id)) (mark_step job.id)))

    fg_spec-Reached :
        (n : ℕ) (spec : Text) (s : Shell W) → Reached s → Reached (fg_spec ctl n spec s).1
    unfolding fg_spec
    fg_spec-Reached n spec s h = elim (Option-cases (find spec s.table)) [
      | inl e ↦ rw (e, fg_spec) h
      | inr (job, e) ↦ rw (e, fg_spec) (foreground_job-Reached n job s h)
    ]

    pub fg_builtin-Reached :
        (n : ℕ) (args : List Text) (s : Shell W) → Reached s → Reached (fg_builtin ctl n args s).1
    unfolding fg_builtin
    fg_builtin-Reached n [] s h = fg_spec-Reached n [] s h
    fg_builtin-Reached n (spec ∷ []) s h = fg_spec-Reached n spec s h
    fg_builtin-Reached n (spec ∷ a ∷ args) s h = h

  bg_job-Reached :
      (job : Job) (r : Signaled × W) (s : Shell W) → Reached s → Reached (bg_job ctl job r s).1
  unfolding bg_job
  bg_job-Reached job (failed, w) s h = h
  bg_job-Reached job (sent, w) s h = next h (running_step job.id)
  bg_job-Reached job (gone, w) s h = next h (running_step job.id)

  bg_spec-Reached : (spec : Text) (s : Shell W) → Reached s → Reached (bg_spec ctl spec s).1
  unfolding bg_spec
  bg_spec-Reached spec s h = elim (Option-cases (find spec s.table)) [
    | inl e ↦ rw (e, bg_spec) h
    | inr (job, e) ↦ rw (e, bg_spec) (bg_job-Reached job (ctl.send_cont job.pgid s.world) s h)
  ]

  pub bg_builtin-Reached :
      (args : List Text) (s : Shell W) → Reached s → Reached (bg_builtin ctl args s).1
  unfolding bg_builtin
  bg_builtin-Reached [] s h = bg_spec-Reached [] s h
  bg_builtin-Reached (spec ∷ []) s h = bg_spec-Reached spec s h
  bg_builtin-Reached (spec ∷ a ∷ args) s h = h
