-- ===== src/Shell/Repl/Notices.antt =====
-- drainJobNotices of shell/internal/shell/jobs_dispatch.go: what the user is told about a job that
-- ends, and what is left of it in the table.
use aish.Prelude.{
  ℕ, ◌<◌, ◌≡◌, refl, ap, ◌∙◌, ==_refl, true, false, none, some, List, [], ◌∷◌, ◌++◌, arith, ◌==◌,
  if◌then◌else◌, length, Text, append-nil, append_assoc, sym, keep,
}
use aish.Jobs.{
  Job, JobTable, Notice, done, lookup, set_status, is_live, repair, reap, pending_notices,
  notice_cap,
}
use aish.Jobs.Valid.{IsVisit, IsValid}
use aish.Jobs.Steps.{status-IsValid, drained-IsValid}
use aish.Jobs.Reap.{reap_lem}
use aish.Jobs.Notices.{notice_of, notices-set_status, lookup-set_status}
use aish.Shell.Repl.{notice_line, notice_lines, drain_job_notices}

notice_lines-append :
    (ns : List Notice) (n : Notice)
    → notice_lines (ns ++ n ∷ []) ≡ notice_lines ns ++ notice_line n.status n
unfolding notice_lines
notice_lines-append [] n = append-nil (notice_line n.status n)
notice_lines-append (m ∷ ns) n =
    ap (λ t. notice_line m.status m ++ t) (notice_lines-append ns n)
    ∙ sym (append_assoc (notice_line m.status m) (notice_lines ns) (notice_line n.status n))

repair-notices :
    (by_high by_second : List Job → List Job) (left : List Job) (jt : JobTable)
    → (repair by_high by_second left jt).notices ≡ jt.notices
unfolding repair
repair-notices by_high by_second [] jt = refl
repair-notices by_high by_second (j ∷ js) jt = refl

module _ (visit by_high by_second : List Job → List Job) where
  abbrev pub drained : JobTable → Text × JobTable
  drained = drain_job_notices visit by_high by_second

  printed : (jt : JobTable) → (drained jt).0 ≡ notice_lines jt.notices
  unfolding drain_job_notices pending_notices
  printed jt = refl

  drained_again : (jt : JobTable) → (drained (drained jt).1).0 ≡ []
  unfolding drain_job_notices reap pending_notices notice_lines
  drained_again jt =
      rw (repair-notices by_high by_second (keep is_live jt.jobs) (record jt { notices = [] })) refl

  module _ (v : IsVisit visit) (vh : IsVisit by_high) (vs : IsVisit by_second) where
    drained-lookup :
        (jt : JobTable) (i : ℕ)
        → IsValid jt
        → lookup (drained jt).1.jobs i
          ≡ elim (lookup jt.jobs i) [ none ↦ none | some j ↦ if is_live j then some j else none ]
    unfolding drain_job_notices pending_notices
    drained-lookup jt i ok =
        (reap_lem visit by_high by_second v vh vs (pending_notices jt).1 (drained-IsValid jt ok)).1
          i

    -- A background job of a valid table that was not done ends, and fewer than 32 notices wait: the
    -- next drain prints the line about it after those that wait, and the job is out of the table;
    -- every other job that is not done stays as it is, and a second drain prints nothing; this in
    -- whatever orders the loops of Reap visit the jobs.
    pub drained-set_status :
        (id code : ℕ) (jt : JobTable) (j : Job)
        → IsValid jt
        → lookup jt.jobs id ≡ some j
        → j.foreground ≡ false
        → is_live j ≡ true
        → length jt.notices < notice_cap
        → ((drained (set_status id done code jt)).0
            ≡ notice_lines jt.notices ++ notice_line done (notice_of jt j id done code))
          × (lookup (drained (set_status id done code jt)).1.jobs id ≡ none)
          × ((i : ℕ) (k : Job)
              → lookup jt.jobs i ≡ some k
              → is_live k ≡ true
              → (id == i) ≡ false
              → lookup (drained (set_status id done code jt)).1.jobs i ≡ some k)
          × ((drained (drained (set_status id done code jt)).1).0 ≡ [])
    drained-set_status id code jt j ok e back live room =
        let ended : JobTable = set_status id done code jt in
        let posted : ended.notices ≡ jt.notices ++ notice_of jt j id done code ∷ [] =
          ground (arith, notices-set_status id done code jt) in
        let valid : IsValid ended = status-IsValid id done code jt ok in
        (
          printed ended
              ∙ ap notice_lines posted
              ∙ notice_lines-append jt.notices (notice_of jt j id done code),
          ground (
            arith,
            drained-lookup ended id valid,
            lookup-set_status id done code jt id,
            ==_refl id,
          ),
          λ i k f alive other.
              ground (arith, drained-lookup ended i valid, lookup-set_status id done code jt i),
          drained_again ended,
        )
