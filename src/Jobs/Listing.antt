-- ===== src/Jobs/Listing.antt =====
-- List: the rows are sorted by id, whatever the order of the visit, and no id misses its job.
pub mod Lines
use mathlib.Core.List.{Permᴰ}
use mathlib.Core.List.Permᴰ
use aish.Prelude.{
  ℕ, ◌≤◌, inl, inr, ◌≡◌, refl, ap, true, some, List, [], ◌∷◌, ◌++◌, map, reverse, reverse-cons, ltb,
  arith, All, All-append, All-map, Bool-cases, Option-cases, All-reverse,
}
use aish.Jobs.{
  Job, JobTable, Row, lookup, has, sift, sort_from, sort_ids, rows, list, flag_for, format_row,
}
use aish.Jobs.Lookup.{All-has}
use aish.Jobs.Valid.{IsVisit}

abbrev pub Ascending : List ℕ → Type 0
Ascending [] = Unit {0}
Ascending (x ∷ xs) = All (λ y. x ≤ y) xs × Ascending xs

abbrev Descending : List ℕ → Type 0
Descending [] = Unit {0}
Descending (x ∷ xs) = All (λ y. y ≤ x) xs × Descending xs

All-sift : (P : ℕ → Type 0) (x : ℕ) (ys : List ℕ) → P x → All P ys → All P (sift x ys)
unfolding sift
All-sift P x [] p h = (p, tt)
All-sift P x (y ∷ ys) p h = elim (Bool-cases (ltb x y)) [
  | inl e ↦ rw e ((h.0, All-sift P x ys p h.1))
  | inr e ↦ rw e ((p, h))
]

le-All : (x y : ℕ) (ys : List ℕ) → y ≤ x → All (λ z. z ≤ y) ys → All (λ z. z ≤ x) ys
le-All x y ys h = All-map (λ z. z ≤ y) (λ z. z ≤ x) (λ z k. omega arith) ys

Descending-sift : (x : ℕ) (ys : List ℕ) → Descending ys → Descending (sift x ys)
unfolding sift
Descending-sift x [] d = (tt, tt)
Descending-sift x (y ∷ ys) d = elim (Bool-cases (ltb x y)) [
  | inl e ↦ rw e ((All-sift (λ z. z ≤ y) x ys (ground arith) d.0, Descending-sift x ys d.1))
  | inr e ↦ let le : y ≤ x = ground arith in rw e (((le, le-All x y ys le d.0), d))
]

Ascending-append_last :
    (xs : List ℕ) (y : ℕ) → All (λ x. x ≤ y) xs → Ascending xs → Ascending (xs ++ y ∷ [])
Ascending-append_last [] y h a = (tt, tt)
Ascending-append_last (x ∷ xs) y h a =
    (All-append (λ z. x ≤ z) xs (y ∷ []) a.0 (h.0, tt), Ascending-append_last xs y h.1 a.1)

Ascending-reverse : (xs : List ℕ) → Descending xs → Ascending (reverse xs)
Ascending-reverse [] d = tt
Ascending-reverse (x ∷ xs) d = rw (reverse-cons x xs) (
    Ascending-append_last (reverse xs) x (All-reverse (λ y. y ≤ x) xs d.0)
      (Ascending-reverse xs d.1))

sift-perm : (x : ℕ) (ys : List ℕ) → Permᴰ (sift x ys) (x ∷ ys)
unfolding sift
sift-perm x [] = Permᴰ.refl (x ∷ [])
sift-perm x (y ∷ ys) = elim (Bool-cases (ltb x y)) [
  | inl e ↦ rw e (Permᴰ.trans (Permᴰ.cons refl (sift-perm x ys)) (Permᴰ.swap refl refl))
  | inr e ↦ rw e (Permᴰ.refl (x ∷ y ∷ ys))
]

Ascending-sort_from : (prefix xs : List ℕ) → Descending prefix → Ascending (sort_from prefix xs)
unfolding sort_from
Ascending-sort_from prefix [] d = Ascending-reverse prefix d
Ascending-sort_from prefix (x ∷ xs) d =
    Ascending-sort_from (sift x prefix) xs (Descending-sift x prefix d)

sort_from-perm : (prefix xs : List ℕ) → Permᴰ (sort_from prefix xs) (prefix ++ xs)
unfolding sort_from
sort_from-perm prefix [] = Permᴰ.trans (Permᴰ.reverse prefix) (Permᴰ.symm (Permᴰ.append-nil prefix))
sort_from-perm prefix (x ∷ xs) = Permᴰ.trans (sort_from-perm (sift x prefix) xs) (
    Permᴰ.trans (Permᴰ.append_right xs (sift-perm x prefix))
      (Permᴰ.symm (Permᴰ.middle x prefix xs)))

-- The insertion sort of List returns its ids in ascending order, each as often as given.
pub sort_ids_lem : (ids : List ℕ) → Ascending (sort_ids ids) × Permᴰ (sort_ids ids) ids
unfolding sort_ids
sort_ids_lem ids = (Ascending-sort_from [] ids tt, sort_from-perm [] ids)

-- A row shows the job of its id.
pub record Shows (jt : JobTable) (r : Row) : Type 0 where
  pub job : Job
  pub found : lookup jt.jobs r.id ≡ some job
  pub flag_is : r.flag ≡ flag_for jt r.id
  pub status_is : r.status ≡ job.status
  pub cmdline_is : r.cmdline ≡ job.cmdline

rows_total :
    (jt : JobTable) (ids : List ℕ)
    → All (λ i. has jt.jobs i ≡ true) ids
    → (rs : List Row) × (rows jt ids ≡ some rs)
      × (map (λ (r : Row). r.id) rs ≡ ids)
      × All (Shows jt) rs
unfolding rows
rows_total jt [] h = ([], refl, refl, tt)
rows_total jt (i ∷ ids) h = elim (Option-cases (lookup jt.jobs i)) [
  | inl e ↦ absurd (ground (arith, e))
  | inr (j, e) ↦
      let (rs, e', ids_are, shown) = rows_total jt ids h.1 in
      let r : Row = record {
        id = i;
        flag = flag_for jt i;
        status = j.status;
        cmdline = j.cmdline;
      } in
      (
        r ∷ rs,
        rw (e, rows) (ground arith),
        ap (λ l. i ∷ l) ids_are,
        (record { job = j; found = e; flag_is = refl; status_is = refl; cmdline_is = refl }, shown),
      )
]

pub All-ids :
    (P : ℕ → Type 0) (js : List Job)
    → All (λ (j : Job). P j.id) js
    → All P (map (λ (j : Job). j.id) js)
All-ids P [] h = tt
All-ids P (j ∷ js) h = (h.0, All-ids P js h.1)

pub All-of_perm : (P : ℕ → Type 0) {l l' : List ℕ} → Permᴰ l l' → All P l → All P l'
All-of_perm P Permᴰ.nil h = tt
All-of_perm P (Permᴰ.cons e p) h = (rw (← e) h.0, All-of_perm P p h.1)
All-of_perm P (Permᴰ.swap e f) h = (rw (← f) h.1.0, (rw (← e) h.0, h.1.1))
All-of_perm P (Permᴰ.trans p q) h = All-of_perm P q (All-of_perm P p h)

-- Whatever the order of the visit, List dereferences no missing entry and prints one row for each of
-- the table's jobs, in ascending order of id, with the job's flag, status and command.
pub list_lem :
    (visit : List Job → List Job) (jt : JobTable)
    → IsVisit visit
    → (rs : List Row) × (list visit jt ≡ some (map format_row rs))
      × Ascending (map (λ (r : Row). r.id) rs)
      × Permᴰ (map (λ (r : Row). r.id) rs) (map (λ (j : Job). j.id) jt.jobs)
      × All (Shows jt) rs
unfolding list
list_lem visit jt v =
    let seen : List ℕ = map (λ (j : Job). j.id) (visit jt.jobs) in
    let p : Permᴰ seen (map (λ (j : Job). j.id) jt.jobs) =
      Permᴰ.map (λ (j : Job). j.id) (v jt.jobs) in
    let sorted : Permᴰ (sort_ids seen) (map (λ (j : Job). j.id) jt.jobs) =
      Permᴰ.trans (sort_ids_lem seen).1 p in
    let known : All (λ i. has jt.jobs i ≡ true) (sort_ids seen) =
      All-of_perm (λ i. has jt.jobs i ≡ true) (Permᴰ.symm sorted)
        (All-ids (λ i. has jt.jobs i ≡ true) jt.jobs (All-has jt.jobs)) in
    let (rs, e, ids_are, shown) = rows_total jt (sort_ids seen) known in
    (rs, rw (e, list) refl, rw ids_are (sort_ids_lem seen).0, rw ids_are sorted, shown)
