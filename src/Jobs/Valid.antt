-- ===== src/Jobs/Valid.antt =====
-- What holds of every table that the methods can reach, in any order of calls by the shell and the
-- reaper. The mutex makes each method one step.
use mathlib.Core.List.{Permᴰ}
use aish.Prelude.{
  ℕ, ◌+◌, ◌≤◌, ◌<◌, ◌≡◌, refl, ◌⊎◌, inl, inr, Bool, true, false, none, List, [], ◌∷◌, ◌++◌, arith,
  length, length-append, keep, All, All-append, Text,
}
use aish.Jobs.{
  Job, JobStatus, JobTable, Notice, notice_cap, new_job_table, lookup, update, has, add, post,
}
use aish.Jobs.Lookup.{Distinct, has-update, lookup-append, Distinct-update, Distinct-append}

-- An order of visit: every entry, once.
abbrev pub IsVisit : (List Job → List Job) → Type 0
IsVisit visit = (l : List Job) → Permᴰ (visit l) l

abbrev pub Below : ℕ → List Job → Type 0
Below n = All (λ (j : Job). (0 < j.id) × (j.id < n))

pub record IsValid (jt : JobTable) : Type 0 where
  pub distinct : Distinct jt.jobs
  pub below : Below jt.next_id jt.jobs
  pub positive : 0 < jt.next_id
  pub current_live : (has jt.jobs jt.current ≡ true) ⊎ ((jt.current ≡ 0) × (jt.jobs ≡ []))
  pub prev_live : (has jt.jobs jt.prev ≡ true) ⊎ (jt.prev ≡ 0)
  pub bounded : length jt.notices ≤ notice_cap

Below-update :
    (n id : ℕ) (f : Job → Job) (js : List Job)
    → ((j : Job) → (f j).id ≡ j.id)
    → Below n js
    → Below n (update id f js)
unfolding update
Below-update n id f [] same h = tt
Below-update n id f (j ∷ js) same h = ground (arith, Below-update n id f js same h.1, same j)

pub Below-keep : (n : ℕ) (p : Job → Bool) (js : List Job) → Below n js → Below n (keep p js)
Below-keep n p [] h = tt
Below-keep n p (j ∷ js) h = ground (arith, Below-keep n p js h.1)

Below-suc : (n : ℕ) (js : List Job) → Below n js → Below (n + 1) js
Below-suc n [] h = tt
Below-suc n (j ∷ js) h = (omega arith, Below-suc n js h.1)

pub absent_of_Below : (n : ℕ) (js : List Job) → Below n js → lookup js n ≡ none
unfolding lookup
absent_of_Below n [] h = refl
absent_of_Below n (j ∷ js) h = ground (arith, absent_of_Below n js h.1)

update-ne-nil : (id : ℕ) (f : Job → Job) (js : List Job) → js ≡ [] → update id f js ≡ []
unfolding update
update-ne-nil id f [] h = refl
update-ne-nil id f (j ∷ js) h = cc

-- A mutation of one entry that keeps its id keeps the invariant, whatever is posted.
pub update-IsValid :
    (id : ℕ) (f : Job → Job) (jt : JobTable) (ns : List Notice)
    → ((j : Job) → (f j).id ≡ j.id)
    → length ns ≤ notice_cap
    → IsValid jt
    → IsValid (record jt { jobs = update id f jt.jobs; notices = ns })
update-IsValid id f jt ns same room v = record {
  distinct = Distinct-update id f jt.jobs same v.distinct;
  below = Below-update jt.next_id id f jt.jobs same v.below;
  positive = v.positive;
  current_live =
      ground (
        arith,
        v.current_live,
        has-update id jt.current f jt.jobs same,
        update-ne-nil id f jt.jobs,
      );
  prev_live = ground (arith, v.prev_live, has-update id jt.prev f jt.jobs same);
  bounded = room;
}

pub new-IsValid : IsValid new_job_table
unfolding new_job_table lookup
new-IsValid = record {
  distinct = tt;
  below = tt;
  positive = omega arith;
  current_live = inr (refl, refl);
  prev_live = inr refl;
  bounded = omega arith;
}

has-append : (js : List Job) (j : Job) (i : ℕ) → has js i ≡ true → has (js ++ j ∷ []) i ≡ true
has-append js j i h = ground (arith, lookup-append js j i)

has-append_last : (js : List Job) (j : Job) (i : ℕ) → j.id ≡ i → has (js ++ j ∷ []) i ≡ true
has-append_last js j i h = ground (arith, lookup-append js j i)

pub add-IsValid :
    (pgid pid : ℕ) (cmd : Text) (s : JobStatus) (jt : JobTable)
    → IsValid jt
    → IsValid (add pgid pid cmd s jt).1
unfolding add
add-IsValid pgid pid cmd s jt v =
    let j : Job = record {
      id = jt.next_id;
      pgid = pgid;
      leader_pid = pid;
      cmdline = cmd;
      status = s;
      exit_code = 0;
      foreground = false;
    } in
    record {
      distinct = Distinct-append jt.jobs j (absent_of_Below jt.next_id jt.jobs v.below) v.distinct;
      below =
          All-append (λ (k : Job). (0 < k.id) × (k.id < jt.next_id + 1)) jt.jobs (j ∷ [])
            (Below-suc jt.next_id jt.jobs v.below) ((v.positive, omega arith), tt);
      positive = omega arith;
      current_live = inl (has-append_last jt.jobs j jt.next_id refl);
      prev_live = ground (arith, v.current_live, has-append jt.jobs j jt.current);
      bounded = v.bounded;
    }

pub post_room :
    (n : Notice) (ns : List Notice) → length ns ≤ notice_cap → length (post n ns) ≤ notice_cap
unfolding post
post_room n ns h = ground (arith, length-append ns (n ∷ []))
