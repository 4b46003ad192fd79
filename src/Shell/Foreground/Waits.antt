-- ===== src/Shell/Foreground/Waits.antt =====
-- When the loop of `fg` in shell/internal/shell/builtin_fg_unix.go ends.
use aish.Prelude.{ℕ, zero, suc, ◌^◌, ◌<◌, ◌≡◌, refl, arith, Option, none, some}
use aish.Jobs.{Job, JobStatus, running, stopped, done, lookup}
use aish.Jobs.Find.{find}
use aish.Jobs.Find.Numbers.{find_own_id}
use aish.Shell.State.{Shell}
use aish.Shell.Foreground.{Control, wait_loop, spec_of}

-- What `fg` returns for a job in this state; nothing while it runs.
unfoldable pub answer_of : Job → JobStatus → Option ℕ
answer_of j done = some j.exit_code
answer_of j stopped = some 148
answer_of j running = none

unfoldable pub answer : Option Job → Option ℕ
unfolding answer_of
answer none = some 0
answer (some j) = answer_of j j.status

module _ {W : Type 0} (ctl : Control W) where
  abbrev paused : Shell W → Shell W
  paused s = record s {
    table = (ctl.pause s.table s.world).0;
    world = (ctl.pause s.table s.world).1;
  }

  abbrev pub pauses : ℕ → Shell W → Shell W
  pauses zero s = s
  pauses (suc k) s = pauses k (paused s)

  -- At each of the first `k` looks at the table the job is there and runs.
  abbrev pub RunsFor : ℕ → ℕ → Shell W → Type 0
  RunsFor zero id s = Unit {0}
  RunsFor (suc k) id s =
      ((j : Job) × (lookup s.table.jobs id ≡ some j) × (j.status ≡ running))
      × RunsFor k id (paused s)

  found : (id : ℕ) (s : Shell W) → id < 2 ^ 63 → find (spec_of id) s.table ≡ lookup s.table.jobs id
  unfolding spec_of
  found id s h = find_own_id id s.table h

  -- The result of a round at which the loop ends with this code, in a table that the round leaves.
  abbrev pub EndsWith : ℕ → Shell W → Option ℕ × Shell W → Type 0
  EndsWith code s r = (r.0 ≡ some code) × (r.1.table ≡ s.table)

  ends_at :
      (n id : ℕ) (s : Shell W) (j : Job) (status : JobStatus) (code : ℕ)
      → find (spec_of id) s.table ≡ some j
      → j.status ≡ status
      → answer_of j status ≡ some code
      → EndsWith code s (wait_loop ctl (suc n) id s)
  unfolding wait_loop answer_of
  ends_at n id s j done code f e a = rw (f, wait_loop, e) (a, refl)
  ends_at n id s j stopped code f e a = rw (f, wait_loop, e) (a, refl)
  ends_at n id s j running code f e a = absurd (cc a)

  ends_now :
      (n id : ℕ) (s : Shell W) (code : ℕ) (o : Option Job)
      → find (spec_of id) s.table ≡ o
      → answer o ≡ some code
      → EndsWith code s (wait_loop ctl (suc n) id s)
  unfolding wait_loop answer
  ends_now n id s code none f a = rw (f, wait_loop) (a, refl)
  ends_now n id s code (some j) f a = ends_at n id s j j.status code f refl a

  -- `fg` comes back: if the job of an id below 2 ^ 63 runs at the first k looks at the table and is
  -- done, stopped or gone at the next, the loop ends there, of more than k rounds, whatever else the
  -- pauses do, with the
  -- exit code of the job, 148 if it stopped and 0 if it is gone, in the table of that look.
  pub wait_loop-EndsWith :
      (k n id : ℕ) (s : Shell W) (code : ℕ)
      → id < 2 ^ 63
      → k < n
      → RunsFor k id s
      → answer (lookup (pauses k s).table.jobs id) ≡ some code
      → EndsWith code (pauses k s) (wait_loop ctl n id s)
  unfolding wait_loop
  wait_loop-EndsWith k zero id s code h le runs a = absurd (omega arith)
  wait_loop-EndsWith zero (suc n) id s code h le runs a =
      ends_now n id s code (lookup s.table.jobs id) (found id s h) a
  wait_loop-EndsWith (suc k) (suc n) id s code h le ((j, l, r), runs) a =
      rw (found id s h, wait_loop, l, r)
        (wait_loop-EndsWith k n id (paused s) code h (omega arith) runs a)
