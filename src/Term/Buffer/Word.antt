-- ===== src/Term/Buffer/Word.antt =====
-- The walks of KillWord and TokenAtCursor over whole runs of runes.
use aish.Prelude.{
  ℕ, suc, ◌+◌, ◌≡◌, refl, ◌∙◌, Bool, true, ◌&&◌, List, [], ◌∷◌, ◌++◌, reverse, reverse-cons, arith,
  if◌then◌else◌, length, get_or, Rune, is_space,
}
use aish.Term.Buffer.{walk_left, walk_right, blank_below}
use aish.Term.Buffer.Zip.{get_or_left, reverse-cons-append}

-- The longest run at the head whose runes pass, and what follows it.
unfoldable pub span_while : (Rune → Bool) → List Rune → List Rune
span_while p [] = []
span_while p (c ∷ l) = if p c then c ∷ span_while p l else []

unfoldable pub drop_while : (Rune → Bool) → List Rune → List Rune
drop_while p [] = []
drop_while p (c ∷ l) = if p c then drop_while p l else c ∷ l

pub span-append-drop : (p : Rune → Bool) (l : List Rune) → span_while p l ++ drop_while p l ≡ l
unfolding span_while drop_while
span-append-drop p [] = refl
span-append-drop p (c ∷ l) = ground (arith, span-append-drop p l)

walk_left_step :
    (p : Rune → Bool) (rs : List Rune) (i : ℕ)
    → walk_left p rs (suc i) ≡ (if p (get_or rs i 0) then walk_left p rs i else suc i)
unfolding walk_left
walk_left_step p rs i = refl

-- Walking left from the cursor drops the run before it.
pub walk_left-eq :
    (p : Rune → Bool) (l a : List Rune)
    → walk_left p (reverse l ++ a) (length l) ≡ length (drop_while p l)
unfolding drop_while
walk_left-eq p [] a = unfold walk_left in refl
walk_left-eq p (c ∷ l) a =
    walk_left_step p (reverse (c ∷ l) ++ a) (length l)
    ∙ rw (get_or_left c l a 0, reverse-cons-append c l a, walk_left-eq p l (c ∷ a)) (ground arith)

-- Walking right from the cursor passes the run after it.
pub walk_right-eq :
    (p : Rune → Bool) (a : List Rune) (i : ℕ) → walk_right p a i ≡ i + length (span_while p a)
unfolding walk_right span_while
walk_right-eq p [] i = omega arith
walk_right-eq p (c ∷ a) i = ground (arith, walk_right-eq p a (i + 1))

pub all_blank : List Rune → Bool
all_blank [] = true
all_blank (c ∷ l) = is_space c && all_blank l

pub all_blank-append : (l m : List Rune) → all_blank (l ++ m) ≡ (all_blank l && all_blank m)
unfolding all_blank
all_blank-append [] m = refl
all_blank-append (c ∷ l) m = ground (arith, all_blank-append l m)

pub all_blank-reverse : (l : List Rune) → all_blank (reverse l) ≡ all_blank l
unfolding all_blank
all_blank-reverse [] = refl
all_blank-reverse (c ∷ l) =
    rw (reverse-cons c l, all_blank-append (reverse l) (c ∷ []), all_blank-reverse l) (ground arith)

pub blank_below-append : (l a : List Rune) → blank_below (l ++ a) (length l) ≡ all_blank l
unfolding blank_below all_blank
blank_below-append [] a = refl
blank_below-append (c ∷ l) a = ground (arith, blank_below-append l a)
