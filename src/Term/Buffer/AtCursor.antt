-- ===== src/Term/Buffer/AtCursor.antt =====
-- TokenAtCursor against the runs of runes around the cursor.
use aish.Prelude.{
  ◌+◌, ◌-◌, ◌≡◌, refl, sym, ap, ◌∙◌, inl, inr, true, false, List, [], ◌∷◌, ◌++◌, reverse,
  reverse-append, append_assoc, arith, if◌then◌else◌, length, length-append, length-reverse, take,
  drop, take-length, Rune, is_space, Bool-cases,
}
use aish.Term.Buffer.{
  Buffer, IsValid, Token, token_at_cursor, walk_left, walk_right, not_space, blank_below,
}
use aish.Term.Buffer.Zip.{zip, to_zip, of_zip, of_zip-to_zip, drop_left, length_zip, get_or_left}
use aish.Term.Buffer.Word.{
  span_while, drop_while, span-append-drop, walk_left-eq, walk_right-eq, all_blank,
  blank_below-append, all_blank-reverse,
}

-- The token around a cursor with the runes `l` before it, nearest first, and `a` after it.
pub spec_token : List Rune → List Rune → Token
spec_token [] [] = record { text = []; start = 0; is_first = true }
spec_token [] (c ∷ a) = record { text = []; start = 0; is_first = true }
spec_token (c ∷ l) a =
    if is_space c
    then record { text = []; start = length (c ∷ l); is_first = all_blank (c ∷ l) }
    else record {
      text = reverse (span_while not_space (c ∷ l)) ++ span_while not_space a;
      start = length (drop_while not_space (c ∷ l));
      is_first = all_blank (drop_while not_space (c ∷ l));
    }

token_take :
    (w k r a : List Rune)
    → take (length w + length r) (drop (length k) (reverse (w ++ k) ++ (r ++ a))) ≡ reverse w ++ r
token_take w k r a =
    rw (← length-reverse w, ← length-append (reverse w) r)
      (rw (split_at w k (r ++ a))
        (rw (← append_assoc (reverse w) r a) (take-length (reverse w ++ r) a)))
  where
    split_at : (w k b : List Rune) → drop (length k) (reverse (w ++ k) ++ b) ≡ reverse w ++ b
    split_at w k b =
        ap (drop (length k)) (simp (reverse-append, append_assoc)) ∙ drop_left k (reverse w ++ b)

blank_below_left : (l a : List Rune) → blank_below (reverse l ++ a) (length l) ≡ all_blank l
blank_below_left l a =
    rw (← length-reverse l) (blank_below-append (reverse l) a) ∙ all_blank-reverse l

whole :
    (w k r a : List Rune) {all : List Rune}
    → w ++ k ≡ all
    → reverse all ++ a ≡ reverse (w ++ k) ++ (span_while not_space a ++ drop_while not_space a)
whole w k r a e = rw (e, span-append-drop not_space a)

whole_left :
    (w k a : List Rune) {all : List Rune}
    → w ++ k ≡ all
    → reverse all ++ a ≡ reverse k ++ (reverse w ++ a)
whole_left w k a e = rw (← e) (simp (reverse-append, append_assoc))

word_token :
    (c : Rune) (l a : List Rune)
    → is_space c ≡ false
    → token_at_cursor (of_zip (zip (c ∷ l) a)) ≡ spec_token (c ∷ l) a
word_token c l a e =
    let all : List Rune = c ∷ l in
    let k : List Rune = drop_while not_space all in
    let w : List Rune = span_while not_space all in
    let r : List Rune = span_while not_space a in
    let runes : List Rune = reverse all ++ a in
    let parts : w ++ k ≡ all = span-append-drop not_space all in
    let start : walk_left not_space runes (length all) ≡ length k = walk_left-eq not_space all a in
    let last : walk_right not_space (drop (length all) runes) (length all) ≡ length all + length r =
      rw (drop_left all a) (walk_right-eq not_space a (length all)) in
    let size : length all + length r - length k ≡ length w + length r =
      omega (arith, ap length parts, length-append w k) in
    let text : take (length w + length r) (drop (length k) runes) ≡ reverse w ++ r =
      ap (λ m. take (length w + length r) (drop (length k) m)) (whole w k r a parts)
      ∙ token_take w k r (drop_while not_space a) in
    let blank : blank_below runes (length k) ≡ all_blank k =
      ap (λ m. blank_below m (length k)) (whole_left w k a parts)
      ∙ blank_below_left k (reverse w ++ a) in
    unfold token_at_cursor spec_token in
    ground (arith, e, length_zip all a, get_or_left c l a 0, start, last, size, text, blank)

token_refines : (l a : List Rune) → token_at_cursor (of_zip (zip l a)) ≡ spec_token l a
token_refines [] [] = unfold token_at_cursor spec_token in refl
token_refines [] (c ∷ a) = unfold token_at_cursor spec_token in ground arith
token_refines (c ∷ l) a = elim (Bool-cases (is_space c)) [
  | inl e ↦
      unfold token_at_cursor spec_token in
      ground (arith, length_zip (c ∷ l) a, get_or_left c l a 0, blank_below_left (c ∷ l) a)
  | inr e ↦ word_token c l a e
]

-- What TokenAtCursor returns, for any buffer whose cursor is within it: right after a blank or at
-- the start, no text, the cursor, and whether only blanks are before it; right after another rune,
-- the whole run of runes that are no blanks around the cursor, the index of its first rune, and
-- whether only blanks are before that. An empty buffer has an empty first token.
pub token_at_cursor_lem :
    (b : Buffer) → IsValid b → token_at_cursor b ≡ spec_token (to_zip b).left (to_zip b).right
token_at_cursor_lem b v =
    ap token_at_cursor (sym (of_zip-to_zip b v)) ∙ token_refines (to_zip b).left (to_zip b).right
