-- ===== src/Parser/Braces.antt =====
-- Braces in shell/internal/parser/expand.go: expandBrace and what it calls.
pub mod Product
use aish.Prelude.{
  ℕ, zero, suc, ◌+◌, Bool, true, false, Option, none, some, List, [], ◌∷◌, ◌++◌, ◌==◌,
  if◌then◌else◌, map, take, drop, length, Text, codes, contains, index_text, trim_space,
  split_rune_at, atoi, itoa, range,
}
use aish.Prelude.Int.{ℤ}

unfoldable pub numeric_range : Text → Option (ℤ × ℤ)
unfolding index_text trim_space atoi
numeric_range body = elim (index_text body (codes "..")) [
  | none ↦ none
  | some k ↦ elim (atoi (trim_space (take k body))) [
    | none ↦ none
    | some lo ↦ elim (atoi (trim_space (drop (k + 2) body))) [
      | none ↦ none
      | some hi ↦ some (lo, hi)
    ]
  ]
]

unfoldable pub brace_parts : Text → List Text
unfolding contains numeric_range range itoa split_rune_at
brace_parts [] = []
brace_parts (c ∷ s) =
    if contains (c ∷ s) (codes "..")
    then elim (numeric_range (c ∷ s)) [ none ↦ [] | some (lo, hi) ↦ map itoa (range lo hi) ]
    else if contains (c ∷ s) (codes ",")
    then split_rune_at b',' (c ∷ s)
    else []

-- strings.IndexByte, by the text before the byte and the text after it.
unfoldable pub cut_at : ℕ → Text → Option (Text × Text)
cut_at sep [] = none
cut_at sep (c ∷ s) =
    let rest = cut_at sep s in
    if c == sep
    then some ([], s)
    else elim rest [ none ↦ none | some (before, after) ↦ some (c ∷ before, after) ]

-- Every tail after a part and its prefix.
abbrev pub with_tails : Text → List Text → Text → List Text
with_tails prefix tails part = map (λ tail. prefix ++ (part ++ tail)) tails

-- The two loops over the parts and the tails.
unfoldable pub cross : Text → List Text → List Text → List Text
cross prefix [] tails = []
cross prefix (part ∷ parts) tails = with_tails prefix tails part ++ cross prefix parts tails

-- expandBrace on fuel: each call is on a shorter text.
unfoldable pub expand_brace_from : ℕ → Text → List Text
unfolding cut_at brace_parts cross
expand_brace_from zero input = input ∷ []
expand_brace_from (suc n) input = elim (cut_at b'{' input) [
  | none ↦ input ∷ []
  | some (prefix, rest) ↦ elim (cut_at b'}' rest) [
    | none ↦ input ∷ []
    | some (body, suffix) ↦ elim (brace_parts body) [
      | [] ↦ input ∷ []
      | part ∷ parts ↦ cross prefix (part ∷ parts) (expand_brace_from n suffix)
    ]
  ]
]

unfoldable pub expand_brace : Text → List Text
unfolding expand_brace_from
expand_brace input = expand_brace_from (suc (length input)) input
