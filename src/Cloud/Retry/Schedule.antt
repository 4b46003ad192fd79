-- ===== src/Cloud/Retry/Schedule.antt =====
-- How many attempts the options allow and how long the waits are, said without the loop.
use aish.Prelude.{ℕ, zero, suc, ◌≡◌, refl, sym, List, [], ◌∷◌, Option, none, some}
use aish.Prelude.Int.{ℤ, pos, negsuc}
use aish.Cloud.Retry.{attempts_of, backoff_of, gap_after, last_gap}

-- MaxAttempts where it is positive, and 3 where it is not.
abbrev pub Allows : ℤ → ℕ → Type 0
Allows (pos zero) n = n ≡ 3
Allows (pos (suc m)) n = n ≡ suc m
Allows (negsuc m) n = n ≡ 3

pub attempts_of-Allows : (z : ℤ) (n : ℕ) → Allows z n → attempts_of z ≡ n
unfolding attempts_of
attempts_of-Allows (pos zero) n h = sym h
attempts_of-Allows (pos (suc m)) n h = sym h
attempts_of-Allows (negsuc m) n h = sym h

-- The backoff of the options, and without one 250 ms, 500 ms and 1 s, in nanoseconds.
abbrev pub Backs : Option (List ℤ) → List ℤ → Type 0
Backs none gaps = gaps ≡ pos 250000000 ∷ pos 500000000 ∷ pos 1000000000 ∷ []
Backs (some given) gaps = gaps ≡ given

pub backoff_of-Backs : (b : Option (List ℤ)) (gaps : List ℤ) → Backs b gaps → backoff_of b ≡ gaps
unfolding backoff_of
backoff_of-Backs none gaps h = sym h
backoff_of-Backs (some given) gaps h = sym h

-- The first `d` gaps of a list, the last of which goes on for ever; none of the empty list.
unfoldable pub schedule : List ℤ → ℕ → List ℤ
schedule gaps zero = []
schedule [] (suc d) = []
schedule (g ∷ []) (suc d) = g ∷ schedule (g ∷ []) d
schedule (g ∷ h ∷ gaps) (suc d) = g ∷ schedule (h ∷ gaps) d

-- The positive numbers of a list.
unfoldable pub positives : List ℤ → List ℕ
positives [] = []
positives (pos zero ∷ gaps) = positives gaps
positives (pos (suc n) ∷ gaps) = suc n ∷ positives gaps
positives (negsuc n ∷ gaps) = positives gaps

pub gap_after_first : (g : ℤ) (gaps : List ℤ) → gap_after (g ∷ gaps) 0 ≡ g
unfolding gap_after
gap_after_first g gaps = refl

pub gap_after_only : (g : ℤ) (n : ℕ) → gap_after (g ∷ []) n ≡ g
unfolding gap_after last_gap
gap_after_only g zero = refl
gap_after_only g (suc n) = refl

pub gap_after_later :
    (g h : ℤ) (gaps : List ℤ) (n : ℕ) → gap_after (g ∷ h ∷ gaps) (suc n) ≡ gap_after (h ∷ gaps) n
unfolding gap_after last_gap
gap_after_later g h gaps n = refl
