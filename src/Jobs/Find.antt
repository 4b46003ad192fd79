-- ===== src/Jobs/Find.antt =====
-- JobTable.Find of shell/internal/jobs/jobs.go, with what it uses of `fmt.Sscanf` at "%d".
pub mod Laws
pub mod Numbers
use aish.Prelude.{
  ℕ, ◌+◌, ◌-◌, ◌*◌, ◌^◌, Bool, true, false, ◌&&◌, ◌||◌, Option, none, some, List, [], ◌∷◌, leb, ltb,
  ◌==◌, if◌then◌else◌, Text, codes, text_eq, is_space, trim_left, trim_space,
}
use aish.Prelude.Int.{ℤ, pos, negsuc}
use aish.Jobs.{Job, JobTable, lookup}

abbrev pub is_digit : ℕ → Bool
is_digit c = leb b'0' c && leb c b'9'

-- The digits at the head of a text, added to `acc`.
unfoldable pub digits_from : ℕ → Text → ℕ
digits_from acc [] = acc
digits_from acc (c ∷ s) =
    let rest = digits_from (acc * 10 + (c - b'0')) s in if is_digit c then rest else acc

-- strconv.ParseInt refuses what does not fit 64 bits.
unsigned : Text → Option ℤ
unfolding digits_from
unsigned [] = none
unsigned (c ∷ s) =
    if is_digit c
    then (let n = digits_from 0 (c ∷ s) in if ltb n (2 ^ 63) then some (pos n) else none)
    else none

negative : ℕ → Option ℤ
negative n = if n == 0 then some (pos 0) else if leb n (2 ^ 63) then some (negsuc (n - 1)) else none

minus : Text → Option ℤ
unfolding negative digits_from
minus [] = none
minus (c ∷ s) = if is_digit c then negative (digits_from 0 (c ∷ s)) else none

-- After the sign.
signed : Text → Option ℤ
unfolding unsigned minus
signed [] = none
signed (c ∷ s) = if c == b'-' then minus s else if c == b'+' then unsigned s else unsigned (c ∷ s)

-- fmt.Sscanf(text, "%d", &id): leading blanks are skipped, a newline among them is an error, and
-- what follows the number is not read.
unfoldable pub scan_int : Text → Option ℤ
unfolding signed
scan_int [] = none
scan_int (c ∷ s) = if c == b'\n' then none else if is_space c then scan_int s else signed (c ∷ s)

-- strings.TrimPrefix(spec, "%")
abbrev pub strip_percent : Text → Text
strip_percent [] = []
strip_percent (c ∷ s) = if c == b'%' then s else c ∷ s

-- A negative id is in no table.
lookup_int : List Job → Option ℤ → Option Job
lookup_int js none = none
lookup_int js (some (pos n)) = lookup js n
lookup_int js (some (negsuc n)) = none

abbrev pub by_mark : List Job → ℕ → Option Job
by_mark js id = if id == 0 then none else lookup js id

find_trimmed : Text → JobTable → Option Job
unfolding scan_int lookup_int text_eq
find_trimmed spec jt =
    if text_eq spec [] || text_eq spec (codes "%+") || text_eq spec (codes "%")
    then by_mark jt.jobs jt.current
    else if text_eq spec (codes "%-")
    then by_mark jt.jobs jt.prev
    else lookup_int jt.jobs (scan_int (strip_percent spec))

unfoldable pub find : Text → JobTable → Option Job
unfolding find_trimmed trim_space
find spec jt = find_trimmed (trim_space spec) jt
