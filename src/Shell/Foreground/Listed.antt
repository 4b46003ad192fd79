-- ===== src/Shell/Foreground/Listed.antt =====
-- What `jobs` prints (shell/internal/shell/builtin_jobs.go), and what `fg` and `bg` find for it.
use mathlib.Core.List.{Permᴰ}
use aish.Prelude.{ℕ, ◌^◌, ◌<◌, ◌≡◌, refl, some, List, [], ◌++◌, map, Text, All}
use aish.Jobs.{Job}
use aish.Jobs.Valid.{IsVisit}
use aish.Jobs.Listing.{Ascending}
use aish.Jobs.Listing.Lines.{AllNames, list-AllNames}
use aish.Shell.State.{Shell, print_lines}
use aish.Shell.Foreground.{Control, jobs_builtin}

-- `jobs` succeeds and prints one line for each job, by ascending id, and changes nothing else. By the
-- number in the brackets of a line, after `%`, the job of that line is found, and the line ends in
-- its command. The ids fit 64 bits.
pub jobs_builtin-AllNames :
    {W : Type 0} (ctl : Control W) (s : Shell W)
    → IsVisit ctl.visit
    → All (λ (j : Job). j.id < 2 ^ 63) s.table.jobs
    → (ids : List ℕ) × (lines : List Text) × (jobs_builtin ctl [] s
        ≡ (some 0, record s { out = s.out ++ print_lines lines }))
      × Ascending ids
      × Permᴰ ids (map (λ (j : Job). j.id) s.table.jobs)
      × AllNames s.table ids lines
unfolding jobs_builtin
jobs_builtin-AllNames ctl s v room =
    let (ids, lines, e, up, same, named) = list-AllNames ctl.visit s.table v room in
    (ids, lines, rw (e, jobs_builtin) refl, up, same, named)
