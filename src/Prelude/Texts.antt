-- ===== src/Prelude/Texts.antt =====
-- More of Go's `strings`: suffixes, substrings, joins, splits and trims, on texts.
use Prim.Native.Nat.{ℕ, zero, suc}
use mathlib.Core.Bool.{Bool, true, false, ◌||◌}
use mathlib.Core.List.{List, [], ◌∷◌, ◌++◌, reverse}
use mathlib.Core.Option.{Option, none, some}
use aish.Prelude.Tests.{◌==◌, if◌then◌else◌}
use aish.Prelude.Strings.{Rune, Text, cut_prefix, is_space}

-- strings.HasPrefix
unfoldable pub has_prefix : Text → Text → Bool
unfolding cut_prefix
has_prefix s p = elim (cut_prefix p s) [ none ↦ false | some _ ↦ true ]

-- strings.HasSuffix
unfoldable pub has_suffix : Text → Text → Bool
unfolding has_prefix
has_suffix s p = has_prefix (reverse s) (reverse p)

-- strings.TrimPrefix
unfoldable pub trim_prefix : Text → Text → Text
unfolding cut_prefix
trim_prefix s p = elim (cut_prefix p s) [ none ↦ s | some rest ↦ rest ]

-- strings.TrimSuffix
unfoldable pub trim_suffix : Text → Text → Text
unfolding cut_prefix
trim_suffix s p = elim (cut_prefix (reverse p) (reverse s)) [ none ↦ s | some rest ↦ reverse rest ]

-- strings.Index: how many runes stand before the first occurrence.
unfoldable pub index_text : Text → Text → Option ℕ
unfolding has_prefix
index_text [] sub = if has_prefix [] sub then some 0 else none
index_text (c ∷ s) sub =
    if has_prefix (c ∷ s) sub
    then some 0
    else elim (index_text s sub) [ none ↦ none | some k ↦ some (suc k) ]

-- strings.Contains(s, sub)
unfoldable pub contains : Text → Text → Bool
unfolding has_prefix
contains [] sub = has_prefix [] sub
contains (c ∷ s) sub = has_prefix (c ∷ s) sub || contains s sub

abbrev pub any_rune : (Rune → Bool) → Text → Bool
any_rune p [] = false
any_rune p (c ∷ s) = p c || any_rune p s

-- strings.ContainsAny(s, chars)
abbrev pub contains_any : Text → Text → Bool
contains_any s chars = any_rune (λ c. any_rune (λ d. c == d) chars) s

-- strings.Join
unfoldable pub join : List Text → Text → Text
join [] sep = []
join (t ∷ []) sep = t
join (t ∷ u ∷ ts) sep = t ++ (sep ++ join (u ∷ ts) sep)

unfoldable pub drop_while : (Rune → Bool) → Text → Text
drop_while p [] = []
drop_while p (c ∷ s) = if p c then drop_while p s else c ∷ s

-- strings.TrimRight(s, chars), by the test of a rune.
unfoldable pub trim_right_while : (Rune → Bool) → Text → Text
unfolding drop_while
trim_right_while p s = reverse (drop_while p (reverse s))

unfoldable pub cons_first : Rune → List Text → List Text
cons_first c [] = (c ∷ []) ∷ []
cons_first c (t ∷ ts) = (c ∷ t) ∷ ts

-- strings.Split(s, sep) for a separator of one rune.
unfoldable pub split_rune_at : Rune → Text → List Text
unfolding cons_first
split_rune_at sep [] = [] ∷ []
split_rune_at sep (c ∷ s) =
    let rest = split_rune_at sep s in if c == sep then [] ∷ rest else cons_first c rest

-- strings.Repeat
unfoldable pub repeat : Text → ℕ → Text
repeat s zero = []
repeat s (suc n) = s ++ repeat s n

-- strings.ReplaceAll(s, old, new) for an old text of one rune.
unfoldable pub replace_rune : Rune → Text → Text → Text
replace_rune old new [] = []
replace_rune old new (c ∷ s) =
    let rest = replace_rune old new s in if c == old then new ++ rest else c ∷ rest

-- strings.LastIndex
unfoldable pub last_index_text : Text → Text → Option ℕ
unfolding has_prefix
last_index_text [] sub = if has_prefix [] sub then some 0 else none
last_index_text (c ∷ s) sub = elim (last_index_text s sub) [
  | some k ↦ some (suc k)
  | none ↦ if has_prefix (c ∷ s) sub then some 0 else none
]

-- strings.IndexAny
unfoldable pub index_any : Text → Text → Option ℕ
index_any [] chars = none
index_any (c ∷ s) chars =
    let rest = index_any s chars in
    if any_rune (λ d. c == d) chars
    then some 0
    else elim rest [ none ↦ none | some k ↦ some (suc k) ]

field : Text → List Text
field [] = []
field (c ∷ b) = (c ∷ b) ∷ []

fields_from : Text → Text → List Text
unfolding field is_space
fields_from b [] = field b
fields_from b (c ∷ s) = elim (is_space c) [
  | true ↦ field b ++ fields_from [] s
  | false ↦ fields_from (b ++ c ∷ []) s
]

-- strings.Fields
unfoldable pub fields : Text → List Text
unfolding fields_from
fields s = fields_from [] s
