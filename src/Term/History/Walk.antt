-- ===== src/Term/History/Walk.antt =====
-- Up and Down: the walk stays within the entries, and Down retraces Up.
use aish.Prelude.{
  ℕ, zero, suc, ◌+◌, ◌-◌, ◌≤◌, ◌<◌, ◌≡◌, refl, ap, ◌∙◌, some, [], ◌∷◌, arith, ◌==◌, leb,
  if◌then◌else◌, length, get_elem?, get_or,
}
use aish.Term.History.{Source, HistoryNav, line, nothing, at, up, down}

pub record IsValid (src : Source) (h : HistoryNav) : Type 0 where
  pub within : h.idx ≤ length src

get_elem?-get_or :
    (src : Source) (i : ℕ) → i < length src → get_elem? src i ≡ some (get_or src i [])
get_elem?-get_or [] i h = absurd (omega arith)
get_elem?-get_or (s ∷ src) zero h = refl
get_elem?-get_or (s ∷ src) (suc i) h = get_elem?-get_or src i (omega arith)

at_line : (src : Source) (i : ℕ) → i < length src → at src i ≡ line (get_or src i [])
at_line src i h = ground (arith, get_elem?-get_or src i h)

-- Up on a valid position: nothing on an empty history; else one entry back, held at the oldest,
-- and the line there is shown. Down: nothing at the stash; else one entry forward, and the line
-- there, or the saved text once the newest entry is passed. Neither reads outside of the entries.
pub up_down_lem :
    (src : Source) (h : HistoryNav)
    → IsValid src h
    → (up src h ≡ (
        if length src == 0
        then (nothing, h)
        else (line (get_or src (h.idx - 1) []), record h { idx = h.idx - 1 })))
      × (down src h ≡ (
          if leb (length src) h.idx then (nothing, h) else (
            if h.idx + 1 == length src then line h.saved else line (get_or src (h.idx + 1) []),
            record h { idx = h.idx + 1 },
          )))
      × IsValid src (up src h).1
      × IsValid src (down src h).1
unfolding up down
up_down_lem src h v = (
  ground (arith, at_line src (h.idx - 1)),
  ground (arith, at_line src (h.idx + 1)),
  ground arith,
  ground arith,
)

pub ups : Source → ℕ → HistoryNav → HistoryNav
ups src zero h = h
ups src (suc k) h = ups src k (up src h).1

pub downs : Source → ℕ → HistoryNav → HistoryNav
downs src zero h = h
downs src (suc k) h = (down src (downs src k h)).1

down-up :
    (src : Source) (h : HistoryNav) → IsValid src h → 0 < h.idx → (down src (up src h).1).1 ≡ h
unfolding up down
down-up src h v p = ground arith

one_up :
    (src : Source) (h : HistoryNav) (k : ℕ) → IsValid src h → suc k ≤ h.idx → k ≤ (up src h).1.idx
unfolding up
one_up src h k v le = ground arith

-- As many steps down as were made up lead back to the position and keep the saved text, if there
-- were that many entries to walk over.
pub downs-ups :
    (src : Source) (k : ℕ) (h : HistoryNav)
    → IsValid src h
    → k ≤ h.idx
    → downs src k (ups src k h) ≡ h
unfolding ups downs
downs-ups src zero h v le = refl
downs-ups src (suc k) h v le =
    ap (λ n. (down src n).1)
      (downs-ups src k (up src h).1 (up_down_lem src h v).2 (one_up src h k v le))
    ∙ down-up src h v (omega arith)
