-- ===== src/Jobs/Reap.antt =====
-- Reap: what is evicted, what stays, and how current and prev are repaired.
use mathlib.Core.List.{Permᴰ}
use mathlib.Core.List.Permᴰ
use aish.Prelude.{
  ℕ, ◌<◌, ◌≡◌, refl, sym, ◌∙◌, ap, ◌⊎◌, inl, inr, Bool, true, false, none, some, List, [], ◌∷◌, map,
  ltb, arith, if◌then◌else◌, keep, All, All-map, Bool-cases,
}
use aish.Jobs.{
  Job, JobTable, lookup, has, highest_from, second_highest_from, is_done, is_live, repair, reap,
}
use aish.Jobs.Spec.{max_id, second_id}
use aish.Jobs.Order.{highest_from-eq, max_id-perm, highest_second_any_order}
use aish.Jobs.Lookup.{Distinct, lookup-keep, Distinct-keep, All-has, has-perm}
use aish.Jobs.Valid.{IsVisit, Below, IsValid, Below-keep}

-- The loops return a starting value or the id of an entry.
highest_from_one :
    (P : ℕ → Type 0) (best : ℕ) (js : List Job)
    → P best
    → All (λ (j : Job). P j.id) js
    → P (highest_from best js)
unfolding highest_from
highest_from_one P best [] p h = p
highest_from_one P best (j ∷ js) p h = elim (Bool-cases (ltb best j.id)) [
  | inl e ↦ rw e (highest_from_one P j.id js h.0 h.1)
  | inr e ↦ rw e (highest_from_one P best js p h.1)
]

second_highest_from_one :
    (P : ℕ → Type 0) (first second : ℕ) (js : List Job)
    → P first
    → P second
    → All (λ (j : Job). P j.id) js
    → P (second_highest_from first second js)
unfolding second_highest_from
second_highest_from_one P first second [] p q h = q
second_highest_from_one P first second (j ∷ js) p q h = elim (Bool-cases (ltb first j.id)) [
  | inl e ↦ rw e (second_highest_from_one P j.id first js h.0 p h.1)
  | inr e ↦ elim (Bool-cases (ltb second j.id)) [
    | inl e' ↦ rw (e, e') (second_highest_from_one P first j.id js p h.0 h.1)
    | inr e' ↦ rw (e, e') (second_highest_from_one P first second js p q h.1)
  ]
]

abbrev Among : List Job → ℕ → Type 0
Among l i = (has l i ≡ true) ⊎ (i ≡ 0)

All-Among : (l seen : List Job) → Permᴰ seen l → All (λ (j : Job). Among l j.id) seen
All-Among l seen p =
    All-map (λ (j : Job). has seen j.id ≡ true) (λ (j : Job). Among l j.id)
      (λ j h. inl (sym (has-perm j.id p) ∙ h)) seen (All-has seen)

positive_head : (n : ℕ) (j : Job) (js : List Job) → Below n (j ∷ js) → 0 < max_id (j ∷ js)
unfolding max_id
positive_head n j js h = omega arith

has-highest :
    (visit : List Job → List Job) (n : ℕ) (j : Job) (js : List Job)
    → IsVisit visit
    → Distinct (visit (j ∷ js))
    → All (λ (k : Job). 0 < k.id) (visit (j ∷ js))
    → Below n (j ∷ js)
    → has (j ∷ js) (highest_from 0 (visit (j ∷ js))) ≡ true
has-highest visit n j js v d pos b =
    let l : List Job = j ∷ js in
    let among : Among l (highest_from 0 (visit l)) =
      highest_from_one (Among l) 0 (visit l) (inr refl) (All-Among l (visit l) (v l)) in
    let top : highest_from 0 (visit l) ≡ max_id l =
      (highest_second_any_order l (visit l) (v l) d pos).0 in
    ground (arith, among, top, positive_head n j js b)

-- The entries that a visit finds have the ids of the map, each once.
Distinct-perm : {l l' : List Job} → Permᴰ l l' → Distinct l → Distinct l'
unfolding lookup
Distinct-perm Permᴰ.nil d = tt
Distinct-perm {l} {l'} (Permᴰ.cons {a = a} {b = b} {l₁ = k} {l₂ = k'} e p) d =
    rw (← e) (ground (arith, Distinct-perm p d.1, has-perm a.id p))
Distinct-perm (Permᴰ.swap e f) d = rw (← e, ← f) (ground arith)
Distinct-perm (Permᴰ.trans p q) d = Distinct-perm q (Distinct-perm p d)

pub All-perm : (P : Job → Type 0) {l l' : List Job} → Permᴰ l l' → All P l → All P l'
All-perm P Permᴰ.nil h = tt
All-perm P (Permᴰ.cons e p) h = (rw (← e) h.0, All-perm P p h.1)
All-perm P (Permᴰ.swap e f) h = (rw (← f) h.1.0, (rw (← e) h.0, h.1.1))
All-perm P (Permᴰ.trans p q) h = All-perm P q (All-perm P p h)

keep-perm : (p : Job → Bool) {l l' : List Job} → Permᴰ l l' → Permᴰ (keep p l) (keep p l')
keep-perm p Permᴰ.nil = Permᴰ.nil
keep-perm p (Permᴰ.cons {a = a} {b = b} {l₁ = l} {l₂ = l'} e q) = elim (Bool-cases (p b)) [
  | inl t ↦ rw (e, t) (Permᴰ.cons refl (keep-perm p q))
  | inr t ↦ rw (e, t) (keep-perm p q)
]
keep-perm p (Permᴰ.swap {a = a} {b = b} {a' = a'} {b' = b'} {l = l} e f) =
    rw (e, f) (swapped (p a') (p b'))
  where
    swapped :
        (s t : Bool)
        → Permᴰ
            (if t
              then b' ∷ (if s then a' ∷ keep p l else keep p l)
              else (if s then a' ∷ keep p l else keep p l))
            (if s
              then a' ∷ (if t then b' ∷ keep p l else keep p l)
              else (if t then b' ∷ keep p l else keep p l))
    swapped true true = Permᴰ.swap refl refl
    swapped true false = Permᴰ.refl (a' ∷ keep p l)
    swapped false true = Permᴰ.refl (b' ∷ keep p l)
    swapped false false = Permᴰ.refl (keep p l)
keep-perm p (Permᴰ.trans q r) = Permᴰ.trans (keep-perm p q) (keep-perm p r)

Below-positive : (n : ℕ) (js : List Job) → Below n js → All (λ (j : Job). 0 < j.id) js
Below-positive n js =
    All-map (λ (j : Job). (0 < j.id) × (j.id < n)) (λ (j : Job). 0 < j.id) (λ j h. h.0) js

abbrev pub is_empty : List Job → Bool
is_empty [] = true
is_empty (j ∷ js) = false

ids-perm :
    {l l' : List Job} → Permᴰ l l' → Permᴰ (map (λ (j : Job). j.id) l) (map (λ (j : Job). j.id) l')
ids-perm p = Permᴰ.map (λ (j : Job). j.id) p

-- What the repair does, in terms of the entries that are left.
abbrev pub Repaired : List Job → JobTable → JobTable → Type 0
Repaired left jt jt' =
    (jt'.jobs ≡ left)
    × (jt'.next_id ≡ (if is_empty left then 1 else jt.next_id))
    × (jt'.current
        ≡ (if is_empty left then 0 else if has left jt.current then jt.current else max_id left))
    × (jt'.prev
        ≡ (if is_empty left then 0 else if has left jt.prev then jt.prev else second_id left))
    × (jt'.notices ≡ jt.notices)

module _ (by_high by_second : List Job → List Job) (vh : IsVisit by_high)
    (vs : IsVisit by_second) where
  pub repair-Repaired :
      (left : List Job) (jt : JobTable)
      → Distinct left
      → Below jt.next_id left
      → Repaired left jt (repair by_high by_second left jt)
  unfolding repair
  repair-Repaired [] jt d b = (refl, refl, refl, refl, refl)
  repair-Repaired (j ∷ js) jt d b =
      let l : List Job = j ∷ js in
      let high : highest_from 0 (by_high l) ≡ max_id l =
        omega (arith, highest_from-eq 0 (by_high l), max_id-perm (vh l)) in
      let second : second_highest_from 0 0 (by_second l) ≡ second_id l =
        (highest_second_any_order l (by_second l) (vs l) (Distinct-perm (Permᴰ.symm (vs l)) d)
          (All-perm (λ k. 0 < k.id) (Permᴰ.symm (vs l)) (Below-positive jt.next_id l b))).1 in
      (refl, refl, ground (arith, high), ground (arith, second), refl)

  pub repair-IsValid :
      (left : List Job) (jt : JobTable)
      → Distinct left
      → Below jt.next_id left
      → IsValid jt
      → IsValid (repair by_high by_second left jt)
  unfolding repair
  repair-IsValid [] jt d b ok = record {
    distinct = tt;
    below = tt;
    positive = omega arith;
    current_live = inr (refl, refl);
    prev_live = inr refl;
    bounded = ok.bounded;
  }
  repair-IsValid (j ∷ js) jt d b ok =
      let l : List Job = j ∷ js in
      record {
        distinct = d;
        below = b;
        positive = ok.positive;
        current_live = inl (
            ground (
              arith,
              has-highest by_high jt.next_id j js vh (Distinct-perm (Permᴰ.symm (vh l)) d)
                  (All-perm (λ k. 0 < k.id) (Permᴰ.symm (vh l)) (Below-positive jt.next_id l b)) b,
            ));
        prev_live = ground (
          arith,
          second_highest_from_one (Among l) 0 0 (by_second l) (inr refl) (inr refl)
              (All-Among l (by_second l) (vs l)),
        );
        bounded = ok.bounded;
      }

module _ (visit by_high by_second : List Job → List Job) (v : IsVisit visit) (vh : IsVisit by_high)
    (vs : IsVisit by_second) (jt : JobTable) (ok : IsValid jt) where
  open jt use {jobs}

  pub reap-IsValid : IsValid (reap visit by_high by_second jt).1
  unfolding reap
  reap-IsValid =
      repair-IsValid by_high by_second vh vs (keep is_live jobs) jt
        (Distinct-keep is_live jobs ok.distinct) (Below-keep jt.next_id is_live jobs ok.below) ok

  -- From a valid table, whatever the orders of the visits: the ids returned are those of the done
  -- jobs, each once; a job that is not done is found as before and a done one no more; the rest of
  -- the table is repaired: an emptied table starts over at id 1, and a `current` or `prev` whose
  -- job is gone becomes the largest, respectively second largest, id that is left.
  pub reap_lem :
      Permᴰ (reap visit by_high by_second jt).0 (map (λ (j : Job). j.id) (keep is_done jobs))
      × ((i : ℕ)
          → lookup (reap visit by_high by_second jt).1.jobs i
            ≡ elim (lookup jobs i) [ none ↦ none | some j ↦ if is_live j then some j else none ])
      × Repaired (keep is_live jobs) jt (reap visit by_high by_second jt).1
  unfolding reap
  reap_lem =
      let d : Distinct (keep is_live jobs) = Distinct-keep is_live jobs ok.distinct in
      let r : Repaired (keep is_live jobs) jt (repair by_high by_second (keep is_live jobs) jt) =
        repair-Repaired by_high by_second vh vs (keep is_live jobs) jt d
          (Below-keep jt.next_id is_live jobs ok.below) in
      (
        ids-perm (keep-perm is_done (v jobs)),
        λ i. ap (λ l. lookup l i) r.0 ∙ lookup-keep is_live jobs i ok.distinct,
        r,
      )
