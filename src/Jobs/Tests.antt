-- ===== src/Jobs/Tests.antt =====
-- The theorems about the job table, applied to concrete tables.
use mathlib.Core.List.{Permᴰ}
use mathlib.Core.List.Permᴰ
use aish.Prelude.{ℕ, ◌≡◌, refl, List, some, none, map, reverse, Text, codes, if◌then◌else◌, keep}
use aish.Jobs.{
  Job, lookup, JobTable, add, new_job_table, set_status, running, done, is_done, is_live, reap,
  add_foreground, find_by_pid,
}
use aish.Jobs.Valid.{IsVisit, IsValid}
use aish.Jobs.Steps.{Reach, start, next, add_step, status_step, Reach-IsValid}
use aish.Jobs.Reap.{reap_lem, Repaired}
use aish.Jobs.Reaper.{exited, drain_table, early_exit_lost}

abbrev sleep : Text
sleep = codes "sleep 30"

abbrev make_all : Text
make_all = codes "make"

abbrev one_job : JobTable
one_job = (add 100 100 sleep running new_job_table).1

abbrev two_jobs : JobTable
two_jobs = (add 200 200 make_all running one_job).1

-- Job 2, the current one, has ended.
abbrev one_ended : JobTable
one_ended = set_status 2 done 3 two_jobs

abbrev in_turn : List Job → List Job
in_turn l = l

in_turn-IsVisit : IsVisit in_turn
in_turn-IsVisit l = Permᴰ.refl l

reverse-IsVisit : IsVisit reverse
reverse-IsVisit l = Permᴰ.reverse l

two_jobs-Reach : Reach two_jobs
two_jobs-Reach =
    next (next start (add_step 100 100 sleep running)) (add_step 200 200 make_all running)

one_ended-Reach : Reach one_ended
one_ended-Reach = next two_jobs-Reach (status_step 2 done 3)

two_jobs-IsValid : IsValid two_jobs
two_jobs-IsValid = Reach-IsValid two_jobs-Reach

one_ended-IsValid : IsValid one_ended
one_ended-IsValid = Reach-IsValid one_ended-Reach

Reach-IsValid_example : IsValid one_ended
Reach-IsValid_example = Reach-IsValid one_ended-Reach

reap_lem_example :
    Permᴰ
      (reap reverse in_turn reverse one_ended).0
      (map (λ (j : Job). j.id) (keep is_done one_ended.jobs))
    × ((i : ℕ)
        → lookup (reap reverse in_turn reverse one_ended).1.jobs i
          ≡ elim (lookup one_ended.jobs i) [
            | none ↦ none
            | some j ↦ if is_live j then some j else none
          ])
    × Repaired (keep is_live one_ended.jobs) one_ended (reap reverse in_turn reverse one_ended).1
reap_lem_example =
    reap_lem reverse in_turn reverse reverse-IsVisit in_turn-IsVisit reverse-IsVisit one_ended
      one_ended-IsValid

abbrev job_one : Job
job_one = (add 100 100 sleep running new_job_table).0

abbrev job_two : Job
job_two = (add 200 200 make_all running one_job).0

early_exit_lost_example :
    (lookup (add 200 200 make_all running (drain_table in_turn 200 (exited 3) one_job)).1.jobs 2
      ≡ some job_two)
    × ((add 200 200 make_all running (drain_table in_turn 200 (exited 3) one_job)).1.notices
        ≡ one_job.notices)
    × (lookup (drain_table in_turn 200 (exited 3) two_jobs).jobs 2
        ≡ some (record job_two { status = done; exit_code = 3 }))
unfolding add set_status new_job_table lookup find_by_pid
early_exit_lost_example =
    early_exit_lost 200 200 make_all (exited 3) 3 one_job in_turn in_turn-IsVisit
      (Reach-IsValid (next start (add_step 100 100 sleep running))) refl (refl, tt)

abbrev waited_for : JobTable
waited_for = (add_foreground 300 300 make_all new_job_table).1

abbrev waited_job : Job
waited_job = (add_foreground 300 300 make_all new_job_table).0
