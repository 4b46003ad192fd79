-- ===== src/Jobs/Finding.antt =====
-- What Reap's repair of the `+` and `-` marks does when both end on one job.
use aish.Prelude.{ℕ, ◌≡◌, refl, ◌∙◌, sym, ap, true, false, some, List, [], ◌∷◌, arith, codes, keep}
use aish.Jobs.{Job, JobTable, lookup, has, is_live, reap}
use aish.Jobs.Spec.{max_id}
use aish.Jobs.Valid.{IsVisit, IsValid}
use aish.Jobs.Lookup.{lookup-keep}
use aish.Jobs.Reap.{reap_lem, is_empty, reap-IsValid}
use aish.Jobs.Find.{find}
use aish.Jobs.Find.Laws.{find_marks}

not_empty : (l : List Job) (i : ℕ) → has l i ≡ true → is_empty l ≡ false
unfolding lookup
not_empty [] i h = cc
not_empty (j ∷ js) i h = refl

-- If the current job is done, and the previous one is not and has the largest id that is left,
-- Reap makes it the current job and leaves it the previous job too: `%+` and `%-` then find one
-- job, though others may be left.
pub reap_aliases :
    (visit by_high by_second : List Job → List Job)
    → IsVisit visit
    → IsVisit by_high
    → IsVisit by_second
    → (jt : JobTable) {c p : Job} → IsValid jt
    → lookup jt.jobs jt.current ≡ some c
    → is_live c ≡ false
    → lookup jt.jobs jt.prev ≡ some p
    → is_live p ≡ true
    → max_id (keep is_live jt.jobs) ≡ jt.prev
    → let jt' = (reap visit by_high by_second jt).1 in
      (jt'.current ≡ jt.prev)
      × (jt'.prev ≡ jt.prev)
      × (find (codes "%-") jt' ≡ find (codes "%+") jt')
reap_aliases visit by_high by_second v vh vs jt {c} {p} ok hc dc hp lp top =
    let jt' : JobTable = (reap visit by_high by_second jt).1 in
    let (_, found, r) = reap_lem visit by_high by_second v vh vs jt ok in
    let left : List Job = keep is_live jt.jobs in
    let gone : has left jt.current ≡ false =
      ground (arith, lookup-keep is_live jt.jobs jt.current ok.distinct) in
    let stays : has left jt.prev ≡ true =
      ground (arith, lookup-keep is_live jt.jobs jt.prev ok.distinct) in
    let some_left : is_empty left ≡ false = not_empty left jt.prev stays in
    let current_is : jt'.current ≡ jt.prev = r.2 ∙ rw (some_left, gone) top in
    let prev_is : jt'.prev ≡ jt.prev = r.3 ∙ rw (some_left, stays) in
    let marks = find_marks jt' (reap-IsValid visit by_high by_second v vh vs jt ok) in
    (
      current_is,
      prev_is,
      marks.3 ∙ ap (λ i. lookup jt'.jobs i) (prev_is ∙ sym current_is) ∙ sym marks.0,
    )
