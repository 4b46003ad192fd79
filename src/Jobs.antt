-- ===== src/Jobs.antt =====
-- shell/internal/jobs/jobs.go: the table of background and stopped jobs.
-- A method that mutates `*JobTable` returns the new table. The map `jobs` is the list of its
-- entries; where the code ranges over the map, the order in which the runtime visits the entries
-- is the argument `visit`. Go gives it no order, and each loop may have its own.
pub mod Spec
pub mod Order
pub mod Lookup
pub mod Valid
pub mod Reap
pub mod Notices
pub mod Listing
pub mod Steps
pub mod Find
pub mod Finding
pub mod Reaper
mod Tests
use aish.Prelude.{
  ℕ, zero, suc, ◌+◌, ◌≡◌, Bool, true, false, not, ◌&&◌, ◌||◌, Option, none, some, List, [], ◌∷◌,
  ◌++◌, map, reverse, ltb, leb, ◌==◌, if◌then◌else◌, length, keep, Text, codes, itoa,
}
use aish.Prelude.Int.{pos}

pub data JobStatus : Type 0 where
  running stopped done : JobStatus

abbrev pub status_eq : JobStatus → JobStatus → Bool
status_eq running running = true
status_eq stopped stopped = true
status_eq done done = true
status_eq _ _ = false

-- JobStatus.String
unfoldable pub status_text : JobStatus → Text
status_text running = codes "Running"
status_text stopped = codes "Stopped"
status_text done = codes "Done"

pub record Job : Type 0 where
  pub id : ℕ
  pub pgid : ℕ
  pub leader_pid : ℕ
  pub cmdline : Text
  pub status : JobStatus
  pub exit_code : ℕ
  pub foreground : Bool

pub data Flag : Type 0 where
  plus minus blank : Flag

unfoldable pub flag_text : Flag → Text
flag_text plus = codes "+"
flag_text minus = codes "-"
flag_text blank = codes " "

-- The verbs %-8s and %-3d of fmt: blanks up to this width.
unfoldable pub pad : ℕ → Text → Text
pad zero s = s
pad (suc n) [] = b' ' ∷ pad n []
pad (suc n) (c ∷ s) = c ∷ pad n s

pub record Notice : Type 0 where
  pub id : ℕ
  pub flag : Flag
  pub status : JobStatus
  pub cmdline : Text
  pub exit_code : ℕ

pub record JobTable : Type 0 where
  pub jobs : List Job
  pub next_id : ℕ
  pub current : ℕ
  pub prev : ℕ
  pub notices : List Notice

-- The capacity of the notices channel.
abbrev pub notice_cap : ℕ
notice_cap = 32

unfoldable pub new_job_table : JobTable
new_job_table = record { jobs = []; next_id = 1; current = 0; prev = 0; notices = [] }

-- j, ok := jt.jobs[id]
unfoldable pub lookup : List Job → ℕ → Option Job
lookup [] id = none
lookup (j ∷ js) id = if j.id == id then some j else lookup js id

-- The entry of `id`, if there is one, mutated in place through its pointer.
unfoldable pub update : ℕ → (Job → Job) → List Job → List Job
update id f [] = []
update id f (j ∷ js) = if j.id == id then f j ∷ js else j ∷ update id f js

abbrev pub has : List Job → ℕ → Bool
has js id = elim (lookup js id) [ none ↦ false | some _ ↦ true ]

unfoldable pub add : ℕ → ℕ → Text → JobStatus → JobTable → Job × JobTable
add pgid leader_pid cmdline status jt =
    let j : Job = record {
      id = jt.next_id;
      pgid = pgid;
      leader_pid = leader_pid;
      cmdline = cmdline;
      status = status;
      exit_code = 0;
      foreground = false;
    } in
    (
      j,
      record jt {
        next_id = jt.next_id + 1;
        jobs = jt.jobs ++ j ∷ [];
        prev = jt.current;
        current = jt.next_id;
      },
    )

unfoldable pub mark_foreground : ℕ → JobTable → JobTable
mark_foreground id jt = record jt { jobs = update id (λ j. record j { foreground = true }) jt.jobs }

unfoldable pub add_foreground : ℕ → ℕ → Text → JobTable → Job × JobTable
unfolding add mark_foreground
add_foreground pgid leader_pid cmdline jt =
    let (j, jt') = add pgid leader_pid cmdline running jt in
    (record j { foreground = true }, mark_foreground j.id jt')

-- The first visited entry whose leader is `pid`.
unfoldable pub first_with_pid : ℕ → List Job → Option Job
first_with_pid pid [] = none
first_with_pid pid (j ∷ js) = if j.leader_pid == pid then some j else first_with_pid pid js

unfoldable pub find_by_pid : (List Job → List Job) → ℕ → JobTable → Option Job
unfolding first_with_pid
find_by_pid visit pid jt = first_with_pid pid (visit jt.jobs)

unfoldable pub any_foreground : ℕ → List Job → Bool
any_foreground pid [] = false
any_foreground pid (j ∷ js) =
    if j.leader_pid == pid && j.foreground then true else any_foreground pid js

unfoldable pub is_foreground : (List Job → List Job) → ℕ → JobTable → Bool
unfolding any_foreground
is_foreground visit pid jt = any_foreground pid (visit jt.jobs)

-- The loop stops at the first visited entry with the pid, and writes through its pointer.
unfoldable pub clear_foreground : (List Job → List Job) → ℕ → JobTable → JobTable
clear_foreground visit pid jt = elim (find_by_pid visit pid jt) [
  | none ↦ jt
  | some j ↦ record jt { jobs = update j.id (λ k. record k { foreground = false }) jt.jobs }
]

unfoldable pub flag_for : JobTable → ℕ → Flag
flag_for jt id = if id == jt.current then plus else if id == jt.prev then minus else blank

-- A send that does not block: a full channel drops the notice.
unfoldable pub post : Notice → List Notice → List Notice
post n ns = if ltb (length ns) notice_cap then ns ++ n ∷ [] else ns

-- `!j.Foreground && (status == StatusDone || status == StatusStopped) && prev != status`
unfoldable pub notifies : Job → JobStatus → Bool
notifies j status =
    not j.foreground
    && ((status_eq status done || status_eq status stopped) && not (status_eq j.status status))

unfoldable pub set_status : ℕ → JobStatus → ℕ → JobTable → JobTable
unfolding post notifies flag_for
set_status id status exit jt = elim (lookup jt.jobs id) [
  | none ↦ jt
  | some j ↦ record jt {
    jobs = update id (λ k. record k { status = status; exit_code = exit }) jt.jobs;
    notices =
        if notifies j status
        then post
            (record {
              id = id;
              flag = flag_for jt id;
              status = status;
              cmdline = j.cmdline;
              exit_code = exit;
            })
            jt.notices
        else jt.notices;
  }
]

unfoldable pub set_running : ℕ → JobTable → JobTable
set_running id jt = record jt {
  jobs = update id (λ j. record j { status = running; exit_code = 0 }) jt.jobs;
}

unfoldable pub set_current : ℕ → JobTable → JobTable
set_current id jt =
    if has jt.jobs id
    then if jt.current == id then jt else record jt { prev = jt.current; current = id }
    else jt

unfoldable pub pending_notices : JobTable → List Notice × JobTable
pending_notices jt = (jt.notices, record jt { notices = [] })

-- The loop of highestIDLocked, over the ids in the order of the visit.
unfoldable pub highest_from : ℕ → List Job → ℕ
highest_from best [] = best
highest_from best (j ∷ js) = highest_from (if ltb best j.id then j.id else best) js

-- The loop of secondHighestIDLocked.
unfoldable pub second_highest_from : ℕ → ℕ → List Job → ℕ
second_highest_from first second [] = second
second_highest_from first second (j ∷ js) =
    second_highest_from (if ltb first j.id then j.id else first)
      (if ltb first j.id then first else if ltb second j.id then j.id else second) js

abbrev pub is_done : Job → Bool
is_done j = status_eq j.status done

abbrev pub is_live : Job → Bool
is_live j = not (is_done j)

-- The second half of Reap, on the entries that are left.
unfoldable pub repair :
    (List Job → List Job) → (List Job → List Job) → List Job → JobTable → JobTable
unfolding highest_from second_highest_from
repair by_high by_second [] jt = record jt { jobs = []; next_id = 1; current = 0; prev = 0 }
repair by_high by_second (j ∷ js) jt =
    let left : List Job = j ∷ js in
    record jt {
      jobs = left;
      current = if has left jt.current then jt.current else highest_from 0 (by_high left);
      prev = if has left jt.prev then jt.prev else second_highest_from 0 0 (by_second left);
    }

-- Each of the three loops of Reap visits the map in an order of its own.
unfoldable pub reap :
    (List Job → List Job)
    → (List Job → List Job)
    → (List Job → List Job)
    → JobTable
    → List ℕ × JobTable
unfolding repair
reap visit by_high by_second jt = (
  map (λ (j : Job). j.id) (keep is_done (visit jt.jobs)),
  repair by_high by_second (keep is_live jt.jobs) jt,
)

-- The inner loop of List's sort: the sorted prefix is held in reverse, and `x` moves down it past
-- the larger ids.
sift : ℕ → List ℕ → List ℕ
sift x [] = x ∷ []
sift x (y ∷ ys) = if ltb x y then y ∷ sift x ys else x ∷ y ∷ ys

sort_from : List ℕ → List ℕ → List ℕ
sort_from prefix [] = reverse prefix
sort_from prefix (x ∷ xs) = sort_from (sift x prefix) xs

pub sort_ids : List ℕ → List ℕ
unfolding sift sort_from
sort_ids = sort_from []

-- A row of List before it is formatted: the id, the flag, the status and the command line.
pub record Row : Type 0 where
  pub id : ℕ
  pub flag : Flag
  pub status : JobStatus
  pub cmdline : Text

-- `jt.jobs[id]` is there for every id that was read from the map; a nil pointer would panic.
unfoldable pub rows : JobTable → List ℕ → Option (List Row)
rows jt [] = some []
rows jt (id ∷ ids) = elim (lookup jt.jobs id) [
  | none ↦ none
  | some j ↦ elim (rows jt ids) [
    | none ↦ none
    | some rest ↦
        some
          (record { id = id; flag = flag_for jt id; status = j.status; cmdline = j.cmdline } ∷ rest)
  ]
]

-- fmt.Sprintf("[%d]%s  %-8s %s", ...)
unfoldable pub format_row : Row → Text
unfolding itoa flag_text pad status_text
format_row r =
    b'['
    ∷ (itoa (pos r.id)
        ++ (b']'
            ∷ (flag_text r.flag
                ++ (codes "  " ++ (pad 8 (status_text r.status) ++ (b' ' ∷ r.cmdline))))))

unfoldable pub list : (List Job → List Job) → JobTable → Option (List Text)
unfolding sort_ids rows format_row
list visit jt = elim (rows jt (sort_ids (map (λ (j : Job). j.id) (visit jt.jobs)))) [
  | none ↦ none
  | some rs ↦ some (map format_row rs)
]

unfoldable pub snapshot : (List Job → List Job) → JobTable → List Job
snapshot visit jt = visit jt.jobs
