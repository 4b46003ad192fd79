-- ===== src/Jobs/Order.antt =====
-- highestIDLocked and secondHighestIDLocked, whatever the order of the visit.
use mathlib.Core.List.{Permᴰ}
use mathlib.Core.List.Permᴰ
use aish.Prelude.{
  ℕ, ◌<◌, max, ◌≡◌, ◌≢◌, refl, ◌∙◌, ap, true, none, List, [], ◌∷◌, ◌++◌, ltb, ◌==◌, arith,
  if◌then◌else◌, Bool-cases, inl, inr, All, ==_iff, ==_refl,
}
use aish.Jobs.{Job, lookup, has, highest_from, second_highest_from}
use aish.Jobs.Spec.{max_id, without, second_id}
use aish.Jobs.Lookup.{Distinct}

pub highest_from-eq : (best : ℕ) (js : List Job) → highest_from best js ≡ max best (max_id js)
unfolding highest_from max_id
highest_from-eq best [] = omega arith
highest_from-eq best (j ∷ js) = ground (arith, highest_from-eq best js, highest_from-eq j.id js)

pub max_id-perm : {l l' : List Job} → Permᴰ l l' → max_id l ≡ max_id l'
unfolding max_id
max_id-perm Permᴰ.nil = refl
max_id-perm (Permᴰ.cons e p) = rw e (omega (arith, max_id-perm p))
max_id-perm (Permᴰ.swap e f) = rw (e, f) (omega arith)
max_id-perm (Permᴰ.trans p q) = max_id-perm p ∙ max_id-perm q

max_id-without-perm :
    {l l' : List Job} (i : ℕ) → Permᴰ l l' → max_id (without i l) ≡ max_id (without i l')
unfolding max_id
max_id-without-perm i Permᴰ.nil = refl
max_id-without-perm i (Permᴰ.cons e p) = rw e (ground (arith, max_id-without-perm i p))
max_id-without-perm i (Permᴰ.swap e f) = rw (e, f) (ground arith)
max_id-without-perm i (Permᴰ.trans p q) = max_id-without-perm i p ∙ max_id-without-perm i q

max_id-has : (js : List Job) → 0 < max_id js → has js (max_id js) ≡ true
unfolding max_id lookup
max_id-has [] h = absurd (omega arith)
max_id-has (j ∷ js) h = ground (arith, max_id-has js)

max_id-without_absent :
    (i : ℕ) (js : List Job) → lookup js i ≡ none → max_id (without i js) ≡ max_id js
unfolding max_id lookup
max_id-without_absent i [] h = refl
max_id-without_absent i (j ∷ js) h = ground (arith, max_id-without_absent i js)

second_id_at :
    (i : ℕ) (j : Job) (seen : List Job)
    → max_id (j ∷ seen) ≡ i
    → second_id (j ∷ seen)
      ≡ (if j.id == i then max_id (without i seen) else max j.id (max_id (without i seen)))
unfolding max_id
second_id_at i j seen top = ap (λ i. max_id (without i (j ∷ seen))) top ∙ (ground arith)

-- Seeing one more entry, with an id of its own.
second_id-cons :
    (j : Job) (seen : List Job)
    → lookup seen j.id ≡ none
    → 0 < j.id
    → second_id (j ∷ seen) ≡ (
        if ltb (max_id seen) j.id
        then max_id seen
        else if ltb (second_id seen) j.id
        then j.id
        else second_id seen)
second_id-cons j seen h p = elim (Bool-cases (ltb (max_id seen) j.id)) [
  | inl above ↦
      let top : max_id (j ∷ seen) ≡ j.id = unfold max_id in ground arith in
      ground (arith, second_id_at j.id j seen top, max_id-without_absent j.id seen h, ==_refl j.id)
  | inr below ↦
      let top : max_id (j ∷ seen) ≡ max_id seen = unfold max_id in ground arith in
      let ne : j.id ≢ max_id seen = ground (arith, max_id-has seen) in
      ground (arith, second_id_at (max_id seen) j seen top, ==_iff j.id (max_id seen))
]

push_all : List Job → List Job → List Job
push_all [] seen = seen
push_all (j ∷ js) seen = push_all js (j ∷ seen)

-- No id of the first list is in the second.
abbrev Apart : List Job → List Job → Type 0
Apart js seen = All (λ (j : Job). (lookup seen j.id ≡ none) × (0 < j.id)) js

Apart-cons :
    (j : Job) (js seen : List Job) → lookup js j.id ≡ none → Apart js seen → Apart js (j ∷ seen)
unfolding lookup
Apart-cons j [] seen h a = tt
Apart-cons j (k ∷ js) seen h a = (ground arith, Apart-cons j js seen (ground arith) a.1)

second_loop :
    (js seen : List Job)
    → Distinct js
    → Apart js seen
    → second_highest_from (max_id seen) (second_id seen) js ≡ second_id (push_all js seen)
unfolding second_highest_from push_all
second_loop [] seen d a = refl
second_loop (j ∷ js) seen d a =
    let top : max_id (j ∷ seen) ≡ (if ltb (max_id seen) j.id then j.id else max_id seen) =
      unfold max_id in ground arith in
    rw (← top, ← second_id-cons j seen a.0.0 a.0.1)
      (second_loop js (j ∷ seen) d.1 (Apart-cons j js seen d.0 a.1))

push_all-perm : (js seen : List Job) → Permᴰ (push_all js seen) (js ++ seen)
unfolding push_all
push_all-perm [] seen = Permᴰ.refl seen
push_all-perm (j ∷ js) seen = Permᴰ.trans (push_all-perm js (j ∷ seen)) (Permᴰ.middle j js seen)

pub second_id-perm : {l l' : List Job} → Permᴰ l l' → second_id l ≡ second_id l'
second_id-perm {l} {l'} p =
    ap (λ i. max_id (without i l)) (max_id-perm p) ∙ max_id-without-perm (max_id l') p

Apart-nil : (js : List Job) → All (λ (j : Job). 0 < j.id) js → Apart js []
unfolding lookup
Apart-nil [] h = tt
Apart-nil (j ∷ js) h = ((refl, h.0), Apart-nil js h.1)

second_loop_nil :
    (seen : List Job)
    → Distinct seen
    → All (λ (j : Job). 0 < j.id) seen
    → second_highest_from 0 0 seen ≡ second_id (push_all seen [])
unfolding max_id
second_loop_nil seen d h = second_loop seen [] d (Apart-nil seen h)

-- Whatever the order in which the runtime visits the entries of the map, the two loops find its
-- largest id and its second largest id. The ids of a map are distinct, and those of this table
-- are positive.
pub highest_second_any_order :
    (jobs seen : List Job)
    → Permᴰ seen jobs
    → Distinct seen
    → All (λ (j : Job). 0 < j.id) seen
    → (highest_from 0 seen ≡ max_id jobs) × (second_highest_from 0 0 seen ≡ second_id jobs)
highest_second_any_order jobs seen p d h = (
  omega (arith, highest_from-eq 0 seen, max_id-perm p),
  second_loop_nil seen d h
      ∙ second_id-perm (Permᴰ.trans (push_all-perm seen []) (Permᴰ.append-nil seen))
      ∙ second_id-perm p,
)
