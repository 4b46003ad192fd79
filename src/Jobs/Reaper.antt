-- ===== src/Jobs/Reaper.antt =====
-- shell/internal/jobs/signals_unix.go: what the SIGCHLD goroutine does with each status that
-- `Wait4` returns, and how that interleaves with the shell's registration of a job.

use mathlib.Core.List.Permᴰ
use aish.Prelude.{
  ◌++◌, ℕ, ◌+◌, ◌≡◌, refl, ap, ◌∙◌, ◌⊎◌, inl, inr, All, true, false, Option, none, some, List, [],
  ◌∷◌, arith, Text, ◌==◌, ==_refl,
}
use aish.Jobs.{
  Job, JobTable, running, stopped, done, lookup, find_by_pid, set_status, add, first_with_pid,
}
use aish.Jobs.Valid.{IsVisit, IsValid, absent_of_Below}
use aish.Jobs.Reap.{All-perm}
use aish.Jobs.Lookup.{lookup-append}
use aish.Jobs.Notices.{lookup-set_status, notices-set_status}

pub data WaitStatus : Type 0 where
  exited : ℕ → WaitStatus
  signaled : ℕ → WaitStatus
  stopped_by : WaitStatus
  continued : WaitStatus

-- The switch of `drain`, on the table that owns the pid.
unfoldable pub apply_status : WaitStatus → ℕ → JobTable → JobTable
apply_status (exited code) id jt = set_status id done code jt
apply_status (signaled sig) id jt = set_status id done (128 + sig) jt
apply_status stopped_by id jt = set_status id stopped 0 jt
apply_status continued id jt = set_status id running 0 jt

-- The part of a round of `drain` on one registered table.
unfoldable pub drain_table : (List Job → List Job) → ℕ → WaitStatus → JobTable → JobTable
unfolding apply_status
drain_table visit pid status jt = elim (find_by_pid visit pid jt) [
  | none ↦ jt
  | some j ↦ apply_status status j.id jt
]

-- One round of the loop of `drain`: the first registered table, in the order of the visit, that
-- has a job with the pid; a pid that no table has is dropped.
unfoldable pub drain_one : (List Job → List Job) → ℕ → WaitStatus → List JobTable → List JobTable
unfolding drain_table
drain_one visit pid status [] = []
drain_one visit pid status (jt ∷ tables) = elim (find_by_pid visit pid jt) [
  | none ↦ jt ∷ drain_one visit pid status tables
  | some _ ↦ drain_table visit pid status jt ∷ tables
]

unfoldable pub drain : (List Job → List Job) → List (ℕ × WaitStatus) → List JobTable → List JobTable
unfolding drain_one
drain visit [] tables = tables
drain visit ((pid, status) ∷ events) tables = drain visit events (drain_one visit pid status tables)

-- The status and the code with which a wait status ends a job.
abbrev pub final_code : WaitStatus → Option ℕ
final_code (exited code) = some code
final_code (signaled sig) = some (128 + sig)
final_code stopped_by = none
final_code continued = none

-- No job has this process.
abbrev pub Unknown : ℕ → List Job → Type 0
Unknown pid = All (λ (k : Job). (k.leader_pid == pid) ≡ false)

Unknown-none : (pid : ℕ) (js : List Job) → Unknown pid js → first_with_pid pid js ≡ none
unfolding first_with_pid
Unknown-none pid [] h = refl
Unknown-none pid (k ∷ js) h = rw (h.0, first_with_pid, Unknown-none pid js h.1) refl

-- Of jobs of which only one has the process, that one is found, if it is among them.
first_with_pid_one :
    (pid : ℕ) (j : Job) (js : List Job)
    → (j.leader_pid == pid) ≡ true
    → All (λ (k : Job). (k ≡ j) ⊎ ((k.leader_pid == pid) ≡ false)) js
    → (first_with_pid pid js ≡ some j) ⊎ Unknown pid js
unfolding first_with_pid
first_with_pid_one pid j [] e h = inr tt
first_with_pid_one pid j (k ∷ js) e (inl same, h) =
    inl (rw (ap (λ (l : Job). l.leader_pid == pid) same ∙ e, first_with_pid) (ap some same))
first_with_pid_one pid j (k ∷ js) e (inr other, h) = elim (first_with_pid_one pid j js e h) [
  | inl found ↦ inl (rw (other, first_with_pid, found) refl)
  | inr unknown ↦ inr (other, unknown)
]

Unknown-append :
    (pid : ℕ) (js : List Job) (j : Job) → Unknown pid (js ++ j ∷ []) → (j.leader_pid == pid) ≡ false
Unknown-append pid [] j h = h.0
Unknown-append pid (k ∷ js) j h = Unknown-append pid js j h.1

only_added :
    (pid : ℕ) (js : List Job) (j : Job)
    → Unknown pid js
    → All (λ (k : Job). (k ≡ j) ⊎ ((k.leader_pid == pid) ≡ false)) (js ++ j ∷ [])
only_added pid [] j h = (inl refl, tt)
only_added pid (k ∷ js) j h = (inr h.0, only_added pid js j h.1)

ended :
    (status : WaitStatus) (code id : ℕ) (jt : JobTable)
    → final_code status ≡ some code
    → apply_status status id jt ≡ set_status id done code jt
unfolding apply_status
ended (exited c) code id jt h = ap (λ n. set_status id done n jt) (ground arith)
ended (signaled c) code id jt h = ap (λ n. set_status id done n jt) (ground arith)
ended stopped_by code id jt h = cc
ended continued code id jt h = cc

module _ (pgid pid : ℕ) (cmd : Text) (status : WaitStatus) (code : ℕ) (jt : JobTable)
    (visit : List Job → List Job) (perm : IsVisit visit) (v : IsValid jt)
    (f : final_code status ≡ some code) (u : Unknown pid jt.jobs) where
  abbrev added : Job
  added = record {
    id = jt.next_id;
    pgid = pgid;
    leader_pid = pid;
    cmdline = cmd;
    status = running;
    exit_code = 0;
    foreground = false;
  }

  lookup-added : lookup (jt.jobs ++ added ∷ []) jt.next_id ≡ some added
  lookup-added = ground (
    arith,
    lookup-append jt.jobs added jt.next_id,
    absent_of_Below jt.next_id jt.jobs v.below,
    ==_refl jt.next_id,
  )

  h : find_by_pid visit pid jt ≡ none
  unfolding find_by_pid
  h =
      Unknown-none pid (visit jt.jobs)
        (All-perm (λ k. (k.leader_pid == pid) ≡ false) (Permᴰ.symm (perm jt.jobs)) u)

  found_added : find_by_pid visit pid (add pgid pid cmd running jt).1 ≡ some added
  unfolding find_by_pid add
  found_added =
      let all : List Job = jt.jobs ++ added ∷ [] in
      elim (first_with_pid_one pid added (visit all) (==_refl pid) (
        All-perm (λ k. (k ≡ added) ⊎ ((k.leader_pid == pid) ≡ false)) (Permᴰ.symm (perm all))
          (only_added pid jt.jobs added u))) [
            | inl found ↦ found
            | inr unknown ↦ absurd (
                cc (
                  Unknown-append pid jt.jobs added
                      (All-perm (λ k. (k.leader_pid == pid) ≡ false) (perm all) unknown),
                  ==_refl pid,
                ))
          ]

  -- A wait status of a process that no job has is lost. If the process ends before `Add` registers
  -- its job, the table shows the job as running and no notice is posted; in the other order the
  -- job is done, with its code. The table is valid, no job in it has the process, the status is an
  -- exit or a kill, and the map is visited in any order.
  pub early_exit_lost :
      (lookup (add pgid pid cmd running (drain_table visit pid status jt)).1.jobs jt.next_id
        ≡ some (add pgid pid cmd running jt).0)
      × ((add pgid pid cmd running (drain_table visit pid status jt)).1.notices ≡ jt.notices)
      × (lookup (drain_table visit pid status (add pgid pid cmd running jt).1).jobs jt.next_id
          ≡ some (record (add pgid pid cmd running jt).0 { status = done; exit_code = code }))
  unfolding drain_table add
  early_exit_lost = (
    rw (h, drain_table) lookup-added,
    rw (h, drain_table),
    rw (found_added, drain_table)
        (rw (ended status code jt.next_id (add pgid pid cmd running jt).1 f) (
          ground (
            arith,
            lookup-set_status jt.next_id done code (add pgid pid cmd running jt).1 jt.next_id,
            lookup-added,
            ==_refl jt.next_id,
          ))),
  )

-- The goroutine takes the status of a foreground job as well: if the visit finds the ended process
-- among the jobs, the job found is marked done whether the shell waits for it or not; only the
-- notice is left out for a foreground job.
pub foreground_reaped :
    (visit : List Job → List Job) (pid : ℕ) (status : WaitStatus) (code : ℕ) (jt : JobTable)
    {j k : Job}
    → final_code status ≡ some code
    → find_by_pid visit pid jt ≡ some j
    → lookup jt.jobs j.id ≡ some k
    → k.foreground ≡ true
    → (lookup (drain_table visit pid status jt).jobs j.id
        ≡ some (record k { status = done; exit_code = code }))
      × ((drain_table visit pid status jt).notices ≡ jt.notices)
unfolding drain_table
foreground_reaped visit pid status code jt {j} {k} f h l fg = (
  rw (h, drain_table)
      (rw (ended status code j.id jt f)
        (ground (arith, lookup-set_status j.id done code jt j.id, ==_refl j.id))),
  rw (h, drain_table)
      (rw (ended status code j.id jt f) (ground (arith, notices-set_status j.id done code jt))),
)
