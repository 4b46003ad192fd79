-- ===== src/Jobs/Notices.antt =====
-- Notices: which status changes are announced, that none is announced twice, and in what order the
-- shell reads them.
use aish.Prelude.{
  ℕ, ◌+◌, ◌<◌, ◌≡◌, refl, ap, ◌∙◌, ==_refl, ==_iff, inl, inr, Bool, true, false, not, ◌&&◌, Option,
  none, some, List, [], ◌∷◌, ◌++◌, append_assoc, arith, if◌then◌else◌, length, length-append,
  Option-cases, ◌==◌, ltb,
}
use aish.Jobs.{
  Job, JobStatus, running, stopped, done, JobTable, Notice, notice_cap, lookup, set_status,
  status_eq, pending_notices, flag_for,
}
use aish.Jobs.Lookup.{lookup-update}

-- The status changes that bash-style notices announce: a background job stops or ends.
abbrev pub announced : Job → JobStatus → Bool
announced j s = not j.foreground && (elim s [
  | running ↦ false
  | stopped ↦ not (status_eq j.status stopped)
  | done ↦ not (status_eq j.status done)
])

abbrev pub notice_of : JobTable → Job → ℕ → JobStatus → ℕ → Notice
notice_of jt j id s exit = record {
  id = id;
  flag = flag_for jt id;
  status = s;
  cmdline = j.cmdline;
  exit_code = exit;
}

-- The notices after a status change of `o`, the entry of `id`.
abbrev pub announce : JobTable → ℕ → JobStatus → ℕ → Option Job → List Notice
announce jt id s exit none = jt.notices
announce jt id s exit (some j) =
    if announced j s && ltb (length jt.notices) notice_cap
    then jt.notices ++ notice_of jt j id s exit ∷ []
    else jt.notices

pub notices-set_status :
    (id : ℕ) (s : JobStatus) (exit : ℕ) (jt : JobTable)
    → (set_status id s exit jt).notices ≡ announce jt id s exit (lookup jt.jobs id)
unfolding set_status
notices-set_status id s exit jt = ground arith

absent : (i id : ℕ) (js : List Job) → lookup js id ≡ none → (id == i) ≡ true → lookup js i ≡ none
absent i id js h e = rw (← (==_iff id i).0 e) h

pub lookup-set_status :
    (id : ℕ) (s : JobStatus) (exit : ℕ) (jt : JobTable) (i : ℕ)
    → lookup (set_status id s exit jt).jobs i ≡ elim (lookup jt.jobs i) [
      | none ↦ none
      | some j ↦ if id == i then some (record j { status = s; exit_code = exit }) else some j
    ]
unfolding set_status
lookup-set_status id s exit jt i = elim (Option-cases (lookup jt.jobs id)) [
  | inl e ↦ rw (e, set_status) (ground (arith, e, absent i id jt.jobs))
  | inr (j, e) ↦
      rw (e, set_status)
        (lookup-update id i (λ k. record k { status = s; exit_code = exit }) jt.jobs (λ k. refl))
]

-- SetStatus on a job of the table: the job has the new status and code, every other job is as it
-- was, and one notice is appended exactly if the job is in the background, stops or ends by this
-- change, and fewer than 32 notices wait. Where the table has no such job, nothing changes.
pub set_status_lem :
    (id : ℕ) (s : JobStatus) (exit : ℕ) (jt : JobTable)
    → ((i : ℕ)
        → lookup (set_status id s exit jt).jobs i ≡ elim (lookup jt.jobs i) [
          | none ↦ none
          | some j ↦ if id == i then some (record j { status = s; exit_code = exit }) else some j
        ])
      × ((set_status id s exit jt).notices ≡ announce jt id s exit (lookup jt.jobs id))
set_status_lem id s exit jt = (lookup-set_status id s exit jt, notices-set_status id s exit jt)

-- A change to the status that a job has just been given is not announced again, whatever the
-- codes of the two.
pub announced_once :
    (id : ℕ) (s : JobStatus) (exit exit' : ℕ) (jt : JobTable)
    → (set_status id s exit' (set_status id s exit jt)).notices ≡ (set_status id s exit jt).notices
announced_once id s exit exit' jt = ground (
  arith,
  notices-set_status id s exit' (set_status id s exit jt),
  lookup-set_status id s exit jt id,
  ==_refl id,
)

-- The shell's next reading returns every notice that waits, oldest first, and leaves none: of two
-- changes in a row with room for both, the first is read first.
pub pending_in_order :
    (id id' : ℕ) (s s' : JobStatus) (exit exit' : ℕ) (jt : JobTable) {j k : Job}
    → lookup jt.jobs id ≡ some j
    → lookup (set_status id s exit jt).jobs id' ≡ some k
    → announced j s ≡ true
    → announced k s' ≡ true
    → length jt.notices + 1 < notice_cap
    → let jt' = set_status id s exit jt in
      let jt'' = set_status id' s' exit' jt' in
      ((pending_notices jt'').0
        ≡ jt.notices ++ (notice_of jt j id s exit ∷ notice_of jt' k id' s' exit' ∷ []))
      × ((pending_notices jt'').1.notices ≡ [])
unfolding pending_notices
pending_in_order id id' s s' exit exit' jt {j} {k} hj hk a a' room =
    let jt' : JobTable = set_status id s exit jt in
    let first : jt'.notices ≡ jt.notices ++ notice_of jt j id s exit ∷ [] =
      ground (arith, notices-set_status id s exit jt) in
    let second : (set_status id' s' exit' jt').notices
        ≡ jt'.notices ++ notice_of jt' k id' s' exit' ∷ [] =
      ground (
        arith,
        notices-set_status id' s' exit' jt',
        ap length first,
        length-append jt.notices (notice_of jt j id s exit ∷ []),
      ) in
    (
      second
          ∙ ap (λ l. l ++ notice_of jt' k id' s' exit' ∷ []) first
          ∙ append_assoc jt.notices (notice_of jt j id s exit ∷ [])
              (notice_of jt' k id' s' exit' ∷ []),
      refl,
    )
