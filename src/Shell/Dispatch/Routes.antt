-- ===== src/Shell/Dispatch/Routes.antt =====
-- Which lines dispatch of shell/internal/shell/shell.go gives to which builtin.
use aish.Prelude.{
  ℕ, ◌≡◌, refl, inl, inr, Bool, true, false, not, ◌&&◌, ◌||◌, Option, none, some, List, [], ◌∷◌,
  ◌++◌, arith, append-nil, All, Bool-cases, Text, text_eq, text_eq_iff, has_prefix, cut_prefix,
  cut_prefix-append, trim_prefix, trim_space, if◌then◌else◌, ◌==◌,
}
use aish.Shell.{is_blank}
use aish.Shell.Dispatch.{Builtin, Entry, matches, match_entries}

abbrev pub Word : Text → Type 0
Word = All (λ c. is_blank c ≡ false)

-- What may follow a word on a line: nothing, or a blank.
abbrev pub Tail : Text → Type 0
Tail [] = Unit {0}
Tail (c ∷ t) = is_blank c ≡ true

abbrev pub is_empty : Text → Bool
is_empty [] = true
is_empty (c ∷ t) = false

has_prefix-alone :
    (name w : Text) (b : ℕ) → is_blank b ≡ true → Word w → has_prefix w (name ++ b ∷ []) ≡ false
unfolding has_prefix cut_prefix
has_prefix-alone [] [] b h k = refl
has_prefix-alone (n ∷ name) [] b h k = refl
has_prefix-alone [] (c ∷ w) b h k = ground arith
has_prefix-alone (n ∷ name) (c ∷ w) b h k = ground (arith, has_prefix-alone name w b h k.1)

has_prefix-blank :
    (name w : Text) (b d : ℕ) (t : Text)
    → is_blank b ≡ true
    → is_blank d ≡ true
    → Word name
    → Word w
    → has_prefix (w ++ d ∷ t) (name ++ b ∷ []) ≡ text_eq name w && (b == d)
unfolding has_prefix cut_prefix text_eq
has_prefix-blank [] [] b d t h k m n = ground arith
has_prefix-blank (a ∷ name) [] b d t h k m n = ground arith
has_prefix-blank [] (c ∷ w) b d t h k m n = ground arith
has_prefix-blank (a ∷ name) (c ∷ w) b d t h k m n =
    ground (arith, has_prefix-blank name w b d t h k m.1 n.1)

text_eq-longer :
    (name w : Text) (d : ℕ) (t : Text)
    → is_blank d ≡ true
    → Word name
    → text_eq (w ++ d ∷ t) name ≡ false
unfolding text_eq
text_eq-longer [] [] d t h m = refl
text_eq-longer [] (c ∷ w) d t h m = refl
text_eq-longer (a ∷ name) [] d t h m = ground arith
text_eq-longer (a ∷ name) (c ∷ w) d t h m = ground (arith, text_eq-longer name w d t h m.1)

pub text_eq_comm : (s t : Text) → text_eq s t ≡ text_eq t s
unfolding text_eq
text_eq_comm [] [] = refl
text_eq_comm [] (d ∷ t) = refl
text_eq_comm (c ∷ s) [] = refl
text_eq_comm (c ∷ s) (d ∷ t) = ground (arith, text_eq_comm s t)

-- An entry of a name without blanks is for the lines whose first word is that name.
pub matches-Word :
    (e : Entry) (w t : Text)
    → Word e.name
    → Word w
    → Tail t
    → matches e (w ++ t) ≡ text_eq e.name w && (e.alone || not (is_empty t))
unfolding matches
matches-Word e w [] m n h =
    rw
      (
        append-nil w,
        has_prefix-alone e.name w b' ' refl n,
        has_prefix-alone e.name w b'\t' refl n,
        text_eq_comm w e.name,
      )
      (ground arith)
matches-Word e w (d ∷ t) m n h =
    rw
      (
        text_eq-longer e.name w d t h m,
        has_prefix-blank e.name w b' ' d t refl h m n,
        has_prefix-blank e.name w b'\t' d t refl h m n,
      )
      (ground (arith, h))

-- The entry that a first word names.
unfoldable pub word_entry : List Entry → Text → Text → Option (Builtin × Text)
word_entry [] w t = none
word_entry (e ∷ es) w t =
    let rest = word_entry es w t in
    if text_eq e.name w && (e.alone || not (is_empty t))
    then some (e.meaning, trim_space t)
    else rest

trim_prefix-word : (name w t : Text) → text_eq name w ≡ true → trim_prefix (w ++ t) name ≡ t
unfolding trim_prefix
trim_prefix-word name w t h =
    rw ((text_eq_iff name w).0 h) (rw (cut_prefix-append w t, trim_prefix) refl)

pub match_entries-Word :
    (es : List Entry) (w t : Text)
    → All (λ (e : Entry). Word e.name) es
    → Word w
    → Tail t
    → match_entries es (w ++ t) ≡ word_entry es w t
unfolding match_entries word_entry
match_entries-Word [] w t m n h = refl
match_entries-Word (e ∷ es) w t m n h = elim (Bool-cases (text_eq e.name w)) [
  | inl same ↦
      rw
        (
          matches-Word e w t m.0 n h,
          trim_prefix-word e.name w t same,
          match_entries-Word es w t m.1 n h,
        )
        refl
  | inr other ↦ rw (matches-Word e w t m.0 n h, other, match_entries-Word es w t m.1 n h) refl
]
