-- ===== src/Jobs/Listing/Lines.antt =====
-- The lines that List of shell/internal/jobs/jobs.go prints, and what Find makes of their numbers.
use mathlib.Core.List.{Permᴰ}
use mathlib.Core.List.Permᴰ
use aish.Prelude.{
  ℕ, ◌^◌, ◌<◌, ◌≡◌, refl, ap, ◌∙◌, some, List, [], ◌∷◌, ◌++◌, map, ◌==◌, if◌then◌else◌, arith,
  append_assoc, Text, codes, All, itoa,
}
use aish.Prelude.Int.{pos}
use aish.Jobs.{Job, JobTable, Row, lookup, list, format_row, flag_text, status_text, pad}
use aish.Jobs.Valid.{IsVisit}
use aish.Jobs.Find.{find}
use aish.Jobs.Find.Laws.{AllDigits}
use aish.Jobs.Find.Numbers.{find_own_id, itoa-AllDigits}
use aish.Jobs.Listing.{Ascending, Shows, list_lem, All-ids, All-of_perm}

abbrev pub until_bracket : Text → Text
until_bracket [] = []
until_bracket (c ∷ s) = let rest = until_bracket s in if c == b']' then [] else c ∷ rest

-- What stands in the brackets at the head of a line.
abbrev pub bracketed : Text → Text
bracketed [] = []
bracketed (c ∷ s) = until_bracket s

until_bracket-digits : (s rest : Text) → AllDigits s → until_bracket (s ++ (b']' ∷ rest)) ≡ s
until_bracket-digits [] rest h = refl
until_bracket-digits (c ∷ s) rest h = ground (arith, until_bracket-digits s rest h.1)

bracketed-format_row : (r : Row) → bracketed (format_row r) ≡ itoa (pos r.id)
unfolding format_row
bracketed-format_row r = until_bracket-digits (itoa (pos r.id)) _ (itoa-AllDigits r.id)

-- A line whose number, after `%`, is a specification of the job, and that ends in its command.
pub record Names (jt : JobTable) (id : ℕ) (line : Text) : Type 0 where
  pub job : Job
  pub listed : lookup jt.jobs id ≡ some job
  pub found : find (b'%' ∷ bracketed line) jt ≡ some job
  pub before : Text
  pub ends : line ≡ before ++ job.cmdline

-- The lines name the jobs of these ids, one each.
abbrev pub AllNames : JobTable → List ℕ → List Text → Type 0
AllNames jt [] [] = Unit {0}
AllNames jt (i ∷ ids) (l ∷ lines) = Names jt i l × AllNames jt ids lines
AllNames jt _ _ = ⊥

abbrev up_to_command : Row → Text
up_to_command r =
    b'['
    ∷ (itoa (pos r.id)
        ++ (b']'
            ∷ (flag_text r.flag ++ (codes "  " ++ (pad 8 (status_text r.status) ++ (b' ' ∷ []))))))

format_row-ends : (r : Row) → format_row r ≡ up_to_command r ++ r.cmdline
unfolding format_row
format_row-ends r = simp (append_assoc) refl

format_row-Names :
    (jt : JobTable) (r : Row) → r.id < 2 ^ 63 → Shows jt r → Names jt r.id (format_row r)
format_row-Names jt r h shown = record {
  job = shown.job;
  listed = shown.found;
  found = rw (bracketed-format_row r) (find_own_id r.id jt h ∙ shown.found);
  before = up_to_command r;
  ends = format_row-ends r ∙ ap (λ c. up_to_command r ++ c) shown.cmdline_is;
}

map-AllNames :
    (jt : JobTable) (rs : List Row)
    → All (λ i. i < 2 ^ 63) (map (λ (r : Row). r.id) rs)
    → All (Shows jt) rs
    → AllNames jt (map (λ (r : Row). r.id) rs) (map format_row rs)
map-AllNames jt [] h shown = tt
map-AllNames jt (r ∷ rs) h shown =
    (format_row-Names jt r h.0 shown.0, map-AllNames jt rs h.1 shown.1)

-- `list` prints one line for each job, by ascending id, and each line leads back to its job: Find
-- finds it for `%` and the number in the brackets, and the line ends in its command. The ids fit 64
-- bits.
pub list-AllNames :
    (visit : List Job → List Job) (jt : JobTable)
    → IsVisit visit
    → All (λ (j : Job). j.id < 2 ^ 63) jt.jobs
    → (ids : List ℕ) × (lines : List Text) × (list visit jt ≡ some lines)
      × Ascending ids
      × Permᴰ ids (map (λ (j : Job). j.id) jt.jobs)
      × AllNames jt ids lines
list-AllNames visit jt v room =
    let (rs, e, up, same, shown) = list_lem visit jt v in
    (
      map (λ (r : Row). r.id) rs,
      map format_row rs,
      e,
      up,
      same,
      map-AllNames jt rs
          (All-of_perm (λ i. i < 2 ^ 63) (Permᴰ.symm same) (All-ids (λ i. i < 2 ^ 63) jt.jobs room))
          shown,
    )
