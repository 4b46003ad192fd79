-- ===== src/Jobs/Steps.antt =====
-- Every table that the methods can reach is valid.
use aish.Prelude.{
  ℕ, refl, inl, inr, true, false, List, arith, if◌then◌else◌, Text, Bool-cases, Option-cases, ◌==◌,
  length, ◌≤◌,
}
use aish.Jobs.{
  Job, JobStatus, JobTable, Notice, notice_cap, new_job_table, lookup, has, add, running,
  mark_foreground, add_foreground, find_by_pid, clear_foreground, set_status, post, notifies,
  set_running, set_current, pending_notices, reap, flag_for,
}
use aish.Jobs.Valid.{IsVisit, IsValid, update-IsValid, new-IsValid, add-IsValid, post_room}
use aish.Jobs.Reap.{reap-IsValid}

-- One call of a method that changes the table.
pub data Step (jt : JobTable) : JobTable → Type 0 where
  add_step : (pgid pid : ℕ) (cmd : Text) (s : JobStatus) → Step jt (add pgid pid cmd s jt).1
  add_foreground_step : (pgid pid : ℕ) (cmd : Text) → Step jt (add_foreground pgid pid cmd jt).1
  mark_step : (id : ℕ) → Step jt (mark_foreground id jt)
  clear_step : (visit : List Job → List Job) (pid : ℕ) → Step jt (clear_foreground visit pid jt)
  status_step : (id : ℕ) (s : JobStatus) (exit : ℕ) → Step jt (set_status id s exit jt)
  running_step : (id : ℕ) → Step jt (set_running id jt)
  current_step : (id : ℕ) → Step jt (set_current id jt)
  notices_step : Step jt (pending_notices jt).1
  reap_step :
      (visit by_high by_second : List Job → List Job)
      → IsVisit visit
      → IsVisit by_high
      → IsVisit by_second
      → Step jt (reap visit by_high by_second jt).1

pub data Reach : JobTable → Type 0 where
  start : Reach new_job_table
  next : {jt jt' : JobTable} → Reach jt → Step jt jt' → Reach jt'

mark-IsValid : (id : ℕ) (jt : JobTable) → IsValid jt → IsValid (mark_foreground id jt)
unfolding mark_foreground
mark-IsValid id jt v =
    update-IsValid id (λ j. record j { foreground = true }) jt jt.notices (λ j. refl) v.bounded v

clear-IsValid :
    (visit : List Job → List Job) (pid : ℕ) (jt : JobTable)
    → IsValid jt
    → IsValid (clear_foreground visit pid jt)
unfolding clear_foreground
clear-IsValid visit pid jt v = elim (Option-cases (find_by_pid visit pid jt)) [
  | inl e ↦ rw (e, clear_foreground) v
  | inr (j, e) ↦
      rw (e, clear_foreground)
        (update-IsValid j.id (λ k. record k { foreground = false }) jt jt.notices (λ k. refl)
          v.bounded v)
]

pub status-IsValid :
    (id : ℕ) (s : JobStatus) (exit : ℕ) (jt : JobTable)
    → IsValid jt
    → IsValid (set_status id s exit jt)
unfolding set_status
status-IsValid id s exit jt v = elim (Option-cases (lookup jt.jobs id)) [
  | inl e ↦ rw (e, set_status) v
  | inr (j, e) ↦
      let n : Notice = record {
        id = id;
        flag = flag_for jt id;
        status = s;
        cmdline = j.cmdline;
        exit_code = exit;
      } in
      let room : length (if notifies j s then post n jt.notices else jt.notices) ≤ notice_cap =
        ground (arith, post_room n jt.notices v.bounded, v.bounded) in
      rw (e, set_status)
        (update-IsValid id (λ k. record k { status = s; exit_code = exit }) jt
          (if notifies j s then post n jt.notices else jt.notices) (λ k. refl) room v)
]

running-IsValid : (id : ℕ) (jt : JobTable) → IsValid jt → IsValid (set_running id jt)
unfolding set_running
running-IsValid id jt v =
    update-IsValid id (λ j. record j { status = running; exit_code = 0 }) jt jt.notices (λ j. refl)
      v.bounded v

current-IsValid : (id : ℕ) (jt : JobTable) → IsValid jt → IsValid (set_current id jt)
unfolding set_current
current-IsValid id jt v = elim (Bool-cases (has jt.jobs id)) [
  | inr e ↦ rw e v
  | inl e ↦ elim (Bool-cases (jt.current == id)) [
    | inl c ↦ rw (e, c) v
    | inr c ↦
        rw (e, c)
          (record {
            distinct = v.distinct;
            below = v.below;
            positive = v.positive;
            current_live = inl e;
            prev_live = ground (arith, v.current_live);
            bounded = v.bounded;
          })
  ]
]

pub drained-IsValid : (jt : JobTable) → IsValid jt → IsValid (pending_notices jt).1
unfolding pending_notices
drained-IsValid jt v = record {
  distinct = v.distinct;
  below = v.below;
  positive = v.positive;
  current_live = v.current_live;
  prev_live = v.prev_live;
  bounded = omega arith;
}

add_foreground-IsValid :
    (pgid pid : ℕ) (cmd : Text) (jt : JobTable)
    → IsValid jt
    → IsValid (add_foreground pgid pid cmd jt).1
add_foreground-IsValid pgid pid cmd jt v =
    let (j, jt') = add pgid pid cmd running jt in
    unfold add_foreground in mark-IsValid j.id jt' (add-IsValid pgid pid cmd running jt v)

Step-IsValid : {jt jt' : JobTable} → Step jt jt' → IsValid jt → IsValid jt'
Step-IsValid {jt} (add_step pgid pid cmd s) v = add-IsValid pgid pid cmd s jt v
Step-IsValid {jt} (add_foreground_step pgid pid cmd) v = add_foreground-IsValid pgid pid cmd jt v
Step-IsValid {jt} (mark_step id) v = mark-IsValid id jt v
Step-IsValid {jt} (clear_step visit pid) v = clear-IsValid visit pid jt v
Step-IsValid {jt} (status_step id s exit) v = status-IsValid id s exit jt v
Step-IsValid {jt} (running_step id) v = running-IsValid id jt v
Step-IsValid {jt} (current_step id) v = current-IsValid id jt v
Step-IsValid {jt} notices_step v = drained-IsValid jt v
Step-IsValid {jt} (reap_step visit by_high by_second p q r) v =
    reap-IsValid visit by_high by_second p q r jt v

-- Every table that calls of the methods lead to from an empty one, in any order and with any
-- arguments, is valid: ids are distinct, positive and below the next id, so `Add` overwrites no
-- job; `current` is a job of the table, or 0 in an empty table; `prev` is a job or 0; and at most
-- 32 notices wait.
pub Reach-IsValid : {jt : JobTable} → Reach jt → IsValid jt
Reach-IsValid start = new-IsValid
Reach-IsValid (next r s) = Step-IsValid s (Reach-IsValid r)
