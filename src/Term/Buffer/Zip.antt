-- ===== src/Term/Buffer/Zip.antt =====
-- The abstract view of a buffer: the runes before the cursor, nearest first, and those after it.
use aish.Prelude.{
  ◌+◌, ◌≡◌, refl, List, [], ◌∷◌, ◌++◌, reverse, reverse-cons, reverse-reverse, append_assoc, arith,
  length, length-append, length-reverse, get_or, take, drop, take-length, drop-length,
  take-append-drop, length-take, Rune,
}
use aish.Term.Buffer.{Buffer, IsValid}

pub record Zip : Type 0 where
  pub left : List Rune
  pub right : List Rune

abbrev pub zip : List Rune → List Rune → Zip
zip l a = record { left = l; right = a }

unfoldable pub to_zip : Buffer → Zip
to_zip b = zip (reverse (take b.cursor b.runes)) (drop b.cursor b.runes)

abbrev pub of_zip : Zip → Buffer
of_zip z = record { runes = reverse z.left ++ z.right; cursor = length z.left }

pub reverse-cons-append : (x : Rune) (l a : List Rune) → reverse (x ∷ l) ++ a ≡ reverse l ++ (x ∷ a)
reverse-cons-append x l a = simp (reverse-cons, append_assoc)

pub take_left : (l a : List Rune) → take (length l) (reverse l ++ a) ≡ reverse l
take_left l a = rw (← length-reverse l) (take-length (reverse l) a)

pub drop_left : (l a : List Rune) → drop (length l) (reverse l ++ a) ≡ a
drop_left l a = rw (← length-reverse l) (drop-length (reverse l) a)

pub get_or-append_last :
    (xs : List Rune) (x : Rune) (a : List Rune) (d : Rune)
    → get_or (xs ++ (x ∷ a)) (length xs) d ≡ x
get_or-append_last [] x a d = refl
get_or-append_last (y ∷ xs) x a d = get_or-append_last xs x a d

pub get_or_left :
    (x : Rune) (l a : List Rune) (d : Rune) → get_or (reverse (x ∷ l) ++ a) (length l) d ≡ x
get_or_left x l a d =
    rw (reverse-cons-append x l a, ← length-reverse l) (get_or-append_last (reverse l) x a d)

pub length_zip : (l a : List Rune) → length (reverse l ++ a) ≡ length l + length a
length_zip l a = rw (length-append (reverse l) a, length-reverse l)

-- A valid buffer is its view, and a view is a valid buffer.
pub to_zip-of_zip : (z : Zip) → to_zip (of_zip z) ≡ z
unfolding to_zip
to_zip-of_zip z = cc (take_left z.left z.right, drop_left z.left z.right, reverse-reverse z.left)

pub of_zip-to_zip : (b : Buffer) → IsValid b → of_zip (to_zip b) ≡ b
unfolding to_zip
of_zip-to_zip b v = cc (
  reverse-reverse (take b.cursor b.runes),
  take-append-drop b.cursor b.runes,
  length-reverse (take b.cursor b.runes),
  length_taken,
)
  where
    length_taken : length (take b.cursor b.runes) ≡ b.cursor
    length_taken = omega (arith, length-take b.cursor b.runes, v.within)

pub of_zip-IsValid : (z : Zip) → IsValid (of_zip z)
of_zip-IsValid z = record { within = omega (arith, length_zip z.left z.right) }
