-- ===== src/Term/Buffer/Edits.antt =====
-- Every editing method refines an edit of the runes before and after the cursor.
use aish.Prelude.{
  ◌≡◌, ◌≢◌, refl, sym, ap, ◌∙◌, List, [], ◌∷◌, ◌++◌, reverse, reverse-cons, reverse-append,
  reverse-reverse, append_assoc, append-nil, arith, if◌then◌else◌, length, length-append,
  length-reverse, ◌==◌, take, drop, Rune, is_space,
}
use aish.Term.Buffer.{
  Buffer, IsValid, insert_rune, backspace, delete, move_left, move_right, home, end, kill_to_start,
  kill_to_end, kill_word, walk_left, not_space, clear,
}
use aish.Term.Buffer.Zip.{
  Zip, zip, to_zip, of_zip, to_zip-of_zip, of_zip-to_zip, of_zip-IsValid, take_left, drop_left,
  length_zip, reverse-cons-append,
}
use aish.Term.Buffer.Word.{span_while, drop_while, span-append-drop, walk_left-eq}

pub data Edit : Type 0 where
  insert : Rune → Edit
  rub_out del left right to_home to_end to_start rest word wipe : Edit

-- The method that each edit calls.
unfoldable pub apply : Edit → Buffer → Buffer
apply (insert r) b = insert_rune r b
apply rub_out b = backspace b
apply del b = delete b
apply left b = move_left b
apply right b = move_right b
apply to_home b = home b
apply to_end b = end b
apply to_start b = kill_to_start b
apply rest b = kill_to_end b
apply word b = kill_word b
apply wipe b = clear b

-- The blanks before the cursor stay, the word before them goes; blanks alone go.
abbrev pub spec_word : Zip → Zip
spec_word z =
    let blanks = span_while is_space z.left in
    let before = drop_while is_space z.left in
    elim (span_while not_space before) [
      | [] ↦ zip (drop_while not_space before) z.right
      | _ ∷ _ ↦ zip (drop_while not_space before) (reverse blanks ++ z.right)
    ]

abbrev tail : List Rune → List Rune
tail [] = []
tail (c ∷ l) = l

abbrev shift : List Rune → List Rune → Zip
shift [] a = zip [] a
shift (c ∷ l) a = zip l (c ∷ a)

abbrev unshift : List Rune → List Rune → Zip
unshift l [] = zip l []
unshift l (c ∷ a) = zip (c ∷ l) a

-- What each edit does to the runes before and after the cursor.
pub spec : Edit → Zip → Zip
spec (insert r) z = zip (r ∷ z.left) z.right
spec rub_out z = zip (tail z.left) z.right
spec del z = zip z.left (tail z.right)
spec left z = shift z.left z.right
spec right z = unshift z.left z.right
spec to_home z = zip [] (reverse z.left ++ z.right)
spec to_end z = zip (reverse z.right ++ z.left) []
spec to_start z = zip [] z.right
spec rest z = zip z.left []
spec word z = spec_word z
spec wipe z = zip [] []

insert_refines :
    (r : Rune) (l a : List Rune) → insert_rune r (of_zip (zip l a)) ≡ of_zip (zip (r ∷ l) a)
unfolding insert_rune
insert_refines r l [] =
    ground (
      arith,
      length_zip l [],
      append-nil (reverse l),
      append-nil (reverse (r ∷ l)),
      reverse-cons r l,
    )
insert_refines r l (c ∷ a) = ground (
  arith,
  length_zip l (c ∷ a),
  take_left l (c ∷ a),
  drop_left l (c ∷ a),
  reverse-cons-append r l (c ∷ a),
)

backspace_refines : (l a : List Rune) → backspace (of_zip (zip l a)) ≡ of_zip (zip (tail l) a)
unfolding backspace
backspace_refines [] a = refl
backspace_refines (c ∷ l) a =
    ground (arith, take_left l (c ∷ a), drop_left (c ∷ l) a, reverse-cons-append c l a)

delete_refines : (l a : List Rune) → delete (of_zip (zip l a)) ≡ of_zip (zip l (tail a))
unfolding delete
delete_refines l [] = ground (arith, length_zip l [])
delete_refines l (c ∷ a) = ground (
  arith,
  length_zip l (c ∷ a),
  take_left l (c ∷ a),
  drop_left (c ∷ l) a,
  reverse-cons-append c l a,
)

left_refines : (l a : List Rune) → move_left (of_zip (zip l a)) ≡ of_zip (shift l a)
unfolding move_left
left_refines [] a = refl
left_refines (c ∷ l) a = ground (arith, reverse-cons-append c l a)

right_refines : (l a : List Rune) → move_right (of_zip (zip l a)) ≡ of_zip (unshift l a)
unfolding move_right
right_refines l [] = ground (arith, length_zip l [])
right_refines l (c ∷ a) = ground (arith, length_zip l (c ∷ a), reverse-cons-append c l a)

end_refines : (l a : List Rune) → end (of_zip (zip l a)) ≡ of_zip (zip (reverse a ++ l) [])
unfolding end
end_refines l a = ground (
  arith,
  length_zip l a,
  reverse-append (reverse a) l,
  reverse-reverse a,
  append-nil (reverse (reverse a ++ l)),
  length-append (reverse a) l,
  length-reverse a,
)

kill_refines :
    (l a : List Rune)
    → (kill_to_start (of_zip (zip l a)) ≡ of_zip (zip [] a))
      × (kill_to_end (of_zip (zip l a)) ≡ of_zip (zip l []))
unfolding kill_to_start kill_to_end
kill_refines l a =
    (ground (arith, drop_left l a), ground (arith, take_left l a, append-nil (reverse l)))

runes_split : (u m a : List Rune) → reverse (u ++ m) ++ a ≡ reverse m ++ (reverse u ++ a)
runes_split u m a = simp (reverse-append, append_assoc)

take_split : (u m a : List Rune) → take (length m) (reverse (u ++ m) ++ a) ≡ reverse m
take_split u m a = rw (runes_split u m a) (take_left m (reverse u ++ a))

drop_split : (u m a : List Rune) → drop (length m) (reverse (u ++ m) ++ a) ≡ reverse u ++ a
drop_split u m a = rw (runes_split u m a) (drop_left m (reverse u ++ a))

-- KillWord with `ws` blanks, then the word `w`, then `k` before the cursor.
kill_word_parts :
    (ws w k a : List Rune)
    → length (ws ++ (w ++ k)) ≢ 0
    → drop_while is_space (ws ++ (w ++ k)) ≡ w ++ k
    → drop_while not_space (w ++ k) ≡ k
    → kill_word (of_zip (zip (ws ++ (w ++ k)) a)) ≡ (
        if length k == length (w ++ k)
        then record { runes = reverse k ++ a; cursor = length k }
        else record { runes = reverse k ++ (reverse ws ++ a); cursor = length k })
unfolding kill_word
kill_word_parts ws w k a ne blanks gone =
    let l : List Rune = ws ++ (w ++ k) in
    let runes : List Rune = reverse l ++ a in
    let ws_end : walk_left is_space runes (length l) ≡ length (w ++ k) =
      walk_left-eq is_space l a ∙ ap length blanks in
    let start : walk_left not_space runes (length (w ++ k)) ≡ length k =
      rw (runes_split ws (w ++ k) a) (walk_left-eq not_space (w ++ k) (reverse ws ++ a))
      ∙ ap length gone in
    let taken : take (length k) runes ≡ reverse k =
      rw (← append_assoc ws w k) (take_split (ws ++ w) k a) in
    ground (arith, ws_end, start, taken, drop_split ws (w ++ k) a, drop_left l a)

kill_word_lem :
    (ws w k a : List Rune)
    → (if length k == length (w ++ k)
        then record { runes = reverse k ++ a; cursor = length k }
        else record { runes = reverse k ++ (reverse ws ++ a); cursor = length k })
      ≡ of_zip (elim w [ [] ↦ zip k a | _ ∷ _ ↦ zip k (reverse ws ++ a) ])
kill_word_lem ws [] k a = ground arith
kill_word_lem ws (c ∷ w) k a = ground (arith, length-append w k)

word_refines : (l a : List Rune) → kill_word (of_zip (zip l a)) ≡ of_zip (spec_word (zip l a))
word_refines [] a = unfold kill_word span_while drop_while in refl
word_refines (c ∷ l) a =
    let all : List Rune = c ∷ l in
    let before : List Rune = drop_while is_space all in
    let ws : List Rune = span_while is_space all in
    let w : List Rune = span_while not_space before in
    let k : List Rune = drop_while not_space before in
    let inner : w ++ k ≡ before = span-append-drop not_space before in
    let outer : ws ++ (w ++ k) ≡ all = rw inner (span-append-drop is_space all) in
    let parts =
      kill_word_parts ws w k a (rw outer (omega arith)) (rw outer (sym inner)) (rw inner refl) in
    (rw outer at parts) ∙ kill_word_lem ws w k a

refines : (e : Edit) (l a : List Rune) → apply e (of_zip (zip l a)) ≡ of_zip (spec e (zip l a))
unfolding apply spec home clear
refines (insert r) l a = insert_refines r l a
refines rub_out l a = backspace_refines l a
refines del l a = delete_refines l a
refines left l a = left_refines l a
refines right l a = right_refines l a
refines to_home l a = refl
refines to_end l a = end_refines l a
refines to_start l a = (kill_refines l a).0
refines rest l a = (kill_refines l a).1
refines word l a = word_refines l a
refines wipe l a = refl

-- Every editing method, on a buffer whose cursor is within it, gives a buffer whose cursor is
-- within it, and does to the runes before and after the cursor exactly what `spec` says: among
-- them, that KillWord keeps the blanks before the cursor and removes the word before those, or
-- removes the blanks where no word is before them.
pub edit_refines :
    (e : Edit) (b : Buffer)
    → IsValid b
    → IsValid (apply e b) × (to_zip (apply e b) ≡ spec e (to_zip b))
edit_refines e b v =
    let z : Zip = to_zip b in
    let same : apply e b ≡ of_zip (spec e z) =
      ap (apply e) (sym (of_zip-to_zip b v)) ∙ refines e z.left z.right in
    (rw same (of_zip-IsValid (spec e z)), rw same (to_zip-of_zip (spec e z)))
