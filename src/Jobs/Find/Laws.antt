-- ===== src/Jobs/Find/Laws.antt =====
-- What `fg`, `bg` and `jobs` get for a job specification.
use aish.Prelude.{
  ℕ, ◌+◌, ◌-◌, ◌*◌, ◌^◌, ◌<◌, ◌≡◌, refl, ap, ◌∙◌, ◌⊎◌, inl, inr, true, false, none, some, List, [],
  ◌∷◌, reverse, reverse-reverse, ==_iff, arith, Text, codes, is_space, trim_left, trim_space, All,
  All-reverse, All-map, Option-cases,
}
use aish.Prelude.Int.{pos}
use aish.Jobs.{Job, JobTable, lookup, has}
use aish.Jobs.Valid.{IsValid, Below}
use aish.Jobs.Find.{is_digit, digits_from, scan_int, find, find_trimmed, by_mark}

-- The number that a text of digits stands for.
abbrev pub value : ℕ → Text → ℕ
value acc [] = acc
value acc (c ∷ s) = value (acc * 10 + (c - b'0')) s

abbrev pub AllDigits : Text → Type 0
AllDigits = All (λ c. is_digit c ≡ true)

digits_from-value : (acc : ℕ) (s : Text) → AllDigits s → digits_from acc s ≡ value acc s
unfolding digits_from
digits_from-value acc [] h = refl
digits_from-value acc (c ∷ s) h = rw h.0 (digits_from-value (acc * 10 + (c - b'0')) s h.1)

abbrev Solid : Text → Type 0
Solid = All (λ c. is_space c ≡ false)

trim_left-Solid : (s : Text) → Solid s → trim_left s ≡ s
unfolding trim_left
trim_left-Solid [] h = refl
trim_left-Solid (c ∷ s) h = rw h.0

trim_space-Solid : (s : Text) → Solid s → trim_space s ≡ s
unfolding trim_space
trim_space-Solid s h =
    rw
      (trim_left-Solid s h, trim_left-Solid (reverse s) (All-reverse (λ c. is_space c ≡ false) s h))
      (reverse-reverse s)

is_space_digit : (c : ℕ) → is_digit c ≡ true → is_space c ≡ false
unfolding is_space
is_space_digit c h = ground arith

scan_int_digits :
    (c : ℕ) (s : Text)
    → AllDigits (c ∷ s)
    → value 0 (c ∷ s) < 2 ^ 63
    → scan_int (c ∷ s) ≡ some (pos (value 0 (c ∷ s)))
unfolding scan_int
scan_int_digits c s h room = ground (arith, is_space_digit c h.0, digits_from-value 0 (c ∷ s) h)

find_trimmed_number :
    (spec : Text) (c : ℕ) (s : Text) (jt : JobTable)
    → (spec ≡ c ∷ s) ⊎ (spec ≡ b'%' ∷ c ∷ s)
    → AllDigits (c ∷ s)
    → value 0 (c ∷ s) < 2 ^ 63
    → find_trimmed spec jt ≡ lookup jt.jobs (value 0 (c ∷ s))
unfolding find_trimmed
find_trimmed_number spec c s jt (inl e) h room = rw e (ground (arith, scan_int_digits c s h room))
find_trimmed_number spec c s jt (inr e) h room = rw e (ground (arith, scan_int_digits c s h room))

Solid-digits : (s : Text) → AllDigits s → Solid s
Solid-digits s = All-map (λ c. is_digit c ≡ true) (λ c. is_space c ≡ false) is_space_digit s

-- A job is found by its number, in decimal digits, with or without `%` before them: what is found
-- is the entry of that id, or nothing if the table has none. The number fits 64 bits.
pub find_number :
    (c : ℕ) (s : Text) (jt : JobTable)
    → AllDigits (c ∷ s)
    → value 0 (c ∷ s) < 2 ^ 63
    → (find (c ∷ s) jt ≡ lookup jt.jobs (value 0 (c ∷ s)))
      × (find (b'%' ∷ c ∷ s) jt ≡ lookup jt.jobs (value 0 (c ∷ s)))
unfolding find
find_number c s jt h room =
    let plain : Solid (c ∷ s) = Solid-digits (c ∷ s) h in
    (
      rw (trim_space-Solid (c ∷ s) plain) (find_trimmed_number (c ∷ s) c s jt (inl refl) h room),
      rw (trim_space-Solid (b'%' ∷ c ∷ s) (percent_solid, plain))
          (find_trimmed_number (b'%' ∷ c ∷ s) c s jt (inr refl) h room),
    )
  where
    percent_solid : is_space b'%' ≡ false
    percent_solid = unfold is_space in refl

has-some : (js : List Job) (i : ℕ) → has js i ≡ true → (j : Job) × (lookup js i ≡ some j)
has-some js i h = elim (Option-cases (lookup js i)) [
  | inl e ↦ absurd (ground (arith, e))
  | inr (j, e) ↦ (j, e)
]

lookup_zero : (n : ℕ) (js : List Job) → Below n js → lookup js 0 ≡ none
unfolding lookup
lookup_zero n [] h = refl
lookup_zero n (j ∷ js) h = ground (arith, lookup_zero n js h.1)

by_mark_lem : (js : List Job) (i : ℕ) → lookup js 0 ≡ none → by_mark js i ≡ lookup js i
by_mark_lem js i z = ground (arith, ==_iff i 0, ap (λ (k : ℕ). lookup js k))

-- In a valid table `%+`, `%` and the empty specification, blanks around them or none, find the
-- current job, which is there unless the table is empty; `%-` finds the previous job, or nothing
-- if there is none.
pub find_marks :
    (jt : JobTable)
    → IsValid jt
    → (find (codes "%+") jt ≡ lookup jt.jobs jt.current)
      × (find (codes " % ") jt ≡ lookup jt.jobs jt.current)
      × (find [] jt ≡ lookup jt.jobs jt.current)
      × (find (codes "%-") jt ≡ lookup jt.jobs jt.prev)
      × ((jt.jobs ≡ [])
          ⊎ ((j : Job) × (find [] jt ≡ some j) × (lookup jt.jobs jt.current ≡ some j)))
unfolding find
find_marks jt v =
    let current_is : by_mark jt.jobs jt.current ≡ lookup jt.jobs jt.current =
      by_mark_lem jt.jobs jt.current (lookup_zero jt.next_id jt.jobs v.below) in
    (
      current_is,
      current_is,
      current_is,
      by_mark_lem jt.jobs jt.prev (lookup_zero jt.next_id jt.jobs v.below),
      elim v.current_live [
        | inr h ↦ inl h.1
        | inl h ↦ let (j, e) = has-some jt.jobs jt.current h in inr (j, current_is ∙ e, e)
      ],
    )
