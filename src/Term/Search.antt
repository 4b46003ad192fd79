-- ===== src/Term/Search.antt =====
-- shell/internal/term/search.go: the state of a Ctrl-R search. Go's `strings.ToLower` is the
-- argument `to_lower`.
pub mod Match
use aish.Prelude.{
  contains, ℕ, zero, suc, ◌+◌, Bool, true, false, Option, none, some, List, [], ◌∷◌, ◌++◌, ◌==◌,
  ◌||◌, if◌then◌else◌, length, get_elem?, Text, Rune, cut_prefix, take, ◌-◌,
}
use aish.Term.History.{Source}

-- `idx` is -1 when there is no match: `none`.
pub record Search : Type 0 where
  pub query : List Rune
  pub idx : Option ℕ

abbrev pub new_search : Search
new_search = record { query = []; idx = none }

-- A result is `none` where Go panics: at an index outside of the entries.
module _ (to_lower : Text → Text) where
  -- Whether an entry contains the query, in lower case.
  abbrev pub hit : List Rune → Text → Bool
  hit query entry = contains (to_lower entry) (to_lower query)

  -- findFrom(n - 1): the loop from entry `n - 1` down to entry 0.
  unfoldable pub find_below : Source → List Rune → ℕ → Option (Option ℕ)
  find_below src query zero = some none
  find_below src query (suc i) =
      let older = find_below src query i in
      elim (get_elem? src i) [
        | none ↦ none
        | some entry ↦ if hit query entry then some (some i) else older
      ]

  find_newest : Source → List Rune → Option Search
  unfolding find_below
  find_newest src query = elim (find_below src query (length src)) [
    | none ↦ none
    | some i ↦ some (record { query = query; idx = i })
  ]

  unfoldable pub append_query : Source → Rune → Search → Option Search
  unfolding find_newest
  append_query src r s = find_newest src (s.query ++ r ∷ [])

  unfoldable pub backspace : Source → Search → Option Search
  unfolding find_newest
  backspace src s =
      if length s.query == 0
      then some (record s { idx = none })
      else let query = take (length s.query - 1) s.query in
        if length query == 0
        then some (record { query = query; idx = none })
        else find_newest src query

  -- The index from which Next searches on is below the present one; 0 and -1 have none below.
  next_from : Source → List Rune → Option ℕ → Option (Option ℕ)
  next_from src query none = some none
  next_from src query (some i) = find_below src query i

  unfoldable pub next : Source → Search → Option (Bool × Search)
  unfolding next_from
  next src s = if length s.query == 0 then some (false, s) else elim (next_from src s.query s.idx) [
    | none ↦ none
    | some none ↦ some (false, s)
    | some (some j) ↦ some (true, record s { idx = some j })
  ]

unfoldable pub current : Source → Search → Option Text
current src s = elim s.idx [
  | none ↦ some []
  | some i ↦ if length s.query == 0 then some [] else get_elem? src i
]
