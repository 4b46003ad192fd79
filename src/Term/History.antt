-- ===== src/Term/History.antt =====
-- shell/internal/term/history.go and ghost.go: the recorded lines, the walk over them with Up and
-- Down, and the ghost suggestion.
pub mod Walk
pub mod Ghost
use aish.Prelude.{
  ℕ, zero, suc, ◌+◌, ◌-◌, Bool, true, false, Option, none, some, List, [], ◌∷◌, ◌++◌, leb, ltb,
  ◌==◌, if◌then◌else◌, length, get_elem?, Text, text_eq, cut_prefix,
}

-- MemorySource: the entries, oldest first. `At` out of range would panic: `none`.
abbrev pub Source : Type 0
Source = List Text

unfoldable pub append : Text → Source → Source
append line src = src ++ line ∷ []

pub record HistoryNav : Type 0 where
  pub idx : ℕ
  pub saved : Text

abbrev pub new_history_nav : Source → HistoryNav
new_history_nav src = record { idx = length src; saved = [] }

unfoldable pub stash : Source → Text → HistoryNav → HistoryNav
stash src s h = record h { saved = s; idx = length src }

-- The line to show, if there is one; a step of Go that would panic is `panic`.
pub data Shown : Type 0 where
  line : Text → Shown
  nothing : Shown
  panic : Shown

abbrev pub at : Source → ℕ → Shown
at src i = elim (get_elem? src i) [ none ↦ panic | some s ↦ line s ]

unfoldable pub up : Source → HistoryNav → Shown × HistoryNav
up src h =
    if length src == 0
    then (nothing, h)
    else let h' = record h { idx = if ltb 0 h.idx then h.idx - 1 else h.idx } in (at src h'.idx, h')

unfoldable pub down : Source → HistoryNav → Shown × HistoryNav
down src h =
    if length src == 0
    then (nothing, h)
    else if leb (length src) h.idx
    then (nothing, h)
    else let h' = record h { idx = h.idx + 1 } in
      (if h'.idx == length src then line h'.saved else at src h'.idx, h')

-- The loop of Suggest, from entry `n - 1` down to entry 0. An index out of range panics: `none`.
unfoldable pub suggest_below : Source → Text → ℕ → Option Text
suggest_below src input zero = some []
suggest_below src input (suc i) =
    let older = suggest_below src input i in
    elim (get_elem? src i) [
      | none ↦ none
      | some entry ↦
          if text_eq entry input
          then some []
          else elim (cut_prefix input entry) [ some suffix ↦ some suffix | none ↦ older ]
    ]

unfoldable pub suggest : Source → Text → Option Text
unfolding suggest_below
suggest src [] = some []
suggest src (c ∷ input) = suggest_below src (c ∷ input) (length src)
