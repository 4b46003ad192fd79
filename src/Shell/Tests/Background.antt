-- ===== src/Shell/Tests/Background.antt =====
-- What the shell prints about its jobs, on a concrete table.
use mathlib.Core.List.{Permᴰ}
use mathlib.Core.List.Permᴰ
use aish.Prelude.{
  ℕ, ◌≡◌, refl, false, true, none, some, List, [], ◌∷◌, ◌++◌, map, ◌==◌, Text, codes, arith,
}
use aish.Prelude.Int.{pos}
use aish.Env.{new_env}
use aish.Jobs.{
  Job, JobTable, new_job_table, add, set_status, running, stopped, done, lookup, list, is_live,
}
use aish.Jobs.Valid.{IsVisit, IsValid}
use aish.Jobs.Steps.{start, next, add_step, Reach-IsValid}
use aish.Jobs.Notices.{notice_of}
use aish.Jobs.Listing.{Ascending}
use aish.Jobs.Listing.Lines.{AllNames}
use aish.Shell.State.{Shell, print_lines}
use aish.Shell.Foreground.{Control, sent, jobs_builtin}
use aish.Shell.Foreground.Listed.{jobs_builtin-AllNames}
use aish.Shell.Repl.{drain_job_notices, notice_line, notice_lines}
use aish.Shell.Repl.Notices.{drained, drained-set_status}

abbrev in_turn : List Job → List Job
in_turn js = js

in_turn-IsVisit : IsVisit in_turn
in_turn-IsVisit l = Permᴰ.refl l

abbrev two_jobs : JobTable
two_jobs = (add 9 9 (codes "make") stopped (add 7 7 (codes "sleep 1") running new_job_table).1).1

two_jobs-IsValid : IsValid two_jobs
two_jobs-IsValid = Reach-IsValid (
    next (next start (add_step 7 7 (codes "sleep 1") running))
      (add_step 9 9 (codes "make") stopped))

abbrev sleeper : Job
sleeper = (add 7 7 (codes "sleep 1") running new_job_table).0

abbrev still : Control (List Text)
still = record {
  take_tty = λ pgid w. (false, w);
  release_tty = λ w. w;
  send_cont = λ pgid w. (sent, w);
  pause = λ table w. (table, w);
  visit = in_turn;
}

abbrev shell : Shell (List Text)
shell = record {
  cwd = codes "/";
  env = new_env;
  last_exit = pos 0;
  aliases = [];
  taint_reg = none;
  table = two_jobs;
  out = [];
  errors = [];
  world = [];
}

listing :
    list in_turn two_jobs ≡ some (codes "[1]-  Running  sleep 1" ∷ codes "[2]+  Stopped  make" ∷ [])
unfolding list add new_job_table lookup aish.Jobs.flag_for
listing = refl

told :
    (drain_job_notices in_turn in_turn in_turn (set_status 1 done 5 two_jobs)).0
    ≡ codes "[1]-  Exit 5    sleep 1\n"
unfolding drain_job_notices set_status add new_job_table lookup
told = refl

jobs_builtin-AllNames_example :
    (ids : List ℕ) × (lines : List Text) × (jobs_builtin still [] shell
      ≡ (some 0, record shell { out = [] ++ print_lines lines }))
    × Ascending ids
    × Permᴰ ids (map (λ (j : Job). j.id) two_jobs.jobs)
    × AllNames two_jobs ids lines
unfolding add new_job_table
jobs_builtin-AllNames_example =
    jobs_builtin-AllNames still shell in_turn-IsVisit (omega arith, (omega arith, tt))

drained-set_status_example :
    ((drained in_turn in_turn in_turn (set_status 1 done 5 two_jobs)).0
      ≡ notice_lines two_jobs.notices ++ notice_line done (notice_of two_jobs sleeper 1 done 5))
    × (lookup (drained in_turn in_turn in_turn (set_status 1 done 5 two_jobs)).1.jobs 1 ≡ none)
    × ((i : ℕ) (k : Job)
        → lookup two_jobs.jobs i ≡ some k
        → is_live k ≡ true
        → (1 == i) ≡ false
        → lookup (drained in_turn in_turn in_turn (set_status 1 done 5 two_jobs)).1.jobs i ≡ some k)
    × ((drained in_turn in_turn in_turn
          (drained in_turn in_turn in_turn (set_status 1 done 5 two_jobs)).1).0
        ≡ [])
unfolding add new_job_table lookup
drained-set_status_example =
    drained-set_status in_turn in_turn in_turn in_turn-IsVisit in_turn-IsVisit in_turn-IsVisit 1 5
      two_jobs sleeper two_jobs-IsValid refl refl refl (omega arith)
