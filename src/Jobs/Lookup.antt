-- ===== src/Jobs/Lookup.antt =====
-- The map of jobs: the laws of lookup under a mutation, an insertion and a removal, and what does
-- not depend on the order in which the entries are visited.
use mathlib.Core.List.{Permᴰ}
use aish.Prelude.{
  ℕ, ◌≡◌, refl, ◌∙◌, Bool, true, none, some, List, [], ◌∷◌, ◌++◌, ◌==◌, arith, if◌then◌else◌, keep,
  All, ==_iff,
}
use aish.Jobs.{Job, lookup, update, has}

-- No two entries have one id, as in a map.
abbrev pub Distinct : List Job → Type 0
Distinct [] = Unit {0}
Distinct (j ∷ js) = (lookup js j.id ≡ none) × Distinct js

pub lookup-update :
    (id i : ℕ) (f : Job → Job) (js : List Job)
    → ((j : Job) → (f j).id ≡ j.id)
    → lookup (update id f js) i
      ≡ elim (lookup js i) [ none ↦ none | some j ↦ if id == i then some (f j) else some j ]
unfolding lookup update
lookup-update id i f [] same = refl
lookup-update id i f (j ∷ js) same = ground (arith, lookup-update id i f js same, same j)

pub has-update :
    (id i : ℕ) (f : Job → Job) (js : List Job)
    → ((j : Job) → (f j).id ≡ j.id)
    → has (update id f js) i ≡ has js i
has-update id i f js same = ground (arith, lookup-update id i f js same)

pub lookup-append :
    (js : List Job) (j : Job) (i : ℕ)
    → lookup (js ++ j ∷ []) i
      ≡ elim (lookup js i) [ none ↦ if j.id == i then some j else none | some k ↦ some k ]
unfolding lookup
lookup-append [] j i = refl
lookup-append (k ∷ js) j i = ground (arith, lookup-append js j i)

pub lookup-keep :
    (p : Job → Bool) (js : List Job) (i : ℕ)
    → Distinct js
    → lookup (keep p js) i
      ≡ elim (lookup js i) [ none ↦ none | some j ↦ if p j then some j else none ]
unfolding lookup
lookup-keep p [] i d = refl
lookup-keep p (j ∷ js) i d = ground (arith, lookup-keep p js i d.1, lookup-keep p js j.id d.1)

pub Distinct-keep : (p : Job → Bool) (js : List Job) → Distinct js → Distinct (keep p js)
Distinct-keep p [] d = tt
Distinct-keep p (j ∷ js) d = ground (arith, Distinct-keep p js d.1, lookup-keep p js j.id d.1)

pub Distinct-update :
    (id : ℕ) (f : Job → Job) (js : List Job)
    → ((j : Job) → (f j).id ≡ j.id)
    → Distinct js
    → Distinct (update id f js)
unfolding update lookup
Distinct-update id f [] same d = tt
Distinct-update id f (j ∷ js) same d =
    ground (arith, Distinct-update id f js same d.1, same j, lookup-update id j.id f js same)

pub Distinct-append :
    (js : List Job) (j : Job) → lookup js j.id ≡ none → Distinct js → Distinct (js ++ j ∷ [])
unfolding lookup
Distinct-append [] j h d = (refl, tt)
Distinct-append (k ∷ js) j h d =
    ground (arith, Distinct-append js j, lookup-append js j k.id, ==_iff k.id j.id)

has_member : (j : Job) (js : List Job) (i : ℕ) → j.id ≡ i → has (j ∷ js) i ≡ true
unfolding lookup
has_member j js i e = ground arith

All-has_step :
    (l : List Job) (j : Job) (js : List Job)
    → All (λ (k : Job). has l k.id ≡ true) js
    → All (λ (k : Job). has (j ∷ l) k.id ≡ true) js
unfolding lookup
All-has_step l j [] h = tt
All-has_step l j (k ∷ js) h = (ground arith, All-has_step l j js h.1)

-- Every entry of the map is found under its id.
pub All-has : (js : List Job) → All (λ (j : Job). has js j.id ≡ true) js
All-has [] = tt
All-has (j ∷ js) = (has_member j js j.id refl, All-has_step js j js (All-has js))

-- An order of visit finds the same ids.
pub has-perm : {l l' : List Job} (i : ℕ) → Permᴰ l l' → has l i ≡ has l' i
unfolding lookup
has-perm i Permᴰ.nil = refl
has-perm i (Permᴰ.cons {a = a} {b = b} {l₁ = l} {l₂ = l'} e p) = rw e (ground (arith, has-perm i p))
has-perm i (Permᴰ.swap {a = a} {b = b} e f) = rw (e, f) (ground arith)
has-perm i (Permᴰ.trans p q) = has-perm i p ∙ has-perm i q
