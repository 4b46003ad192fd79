-- ===== src/Shell.antt =====
-- shell/internal/shell: the functions on lines that the parts of the shell share.
pub mod Alias
pub mod Taint
pub mod State
pub mod External
pub mod Foreground
pub mod Builtins
pub mod Source
pub mod Dispatch
pub mod Repl
mod Tests
use aish.Prelude.{
  Bool, true, false, not, ◌&&◌, ◌++◌, ◌||◌, ◌==◌, List, [], ◌∷◌, if◌then◌else◌, Text, Rune,
  trim_space,
}

abbrev pub is_blank : Rune → Bool
is_blank c = c == b' ' || c == b'\t'

-- line[:i] at the first blank
unfoldable pub until_blank : Text → Text
until_blank [] = []
until_blank (c ∷ s) = let rest = until_blank s in if is_blank c then [] else c ∷ rest

-- firstToken
unfoldable pub first_token : Text → Text
unfolding until_blank trim_space
first_token line = until_blank (trim_space line)

flush : Text → List Text
flush [] = []
flush (c ∷ b) = (c ∷ b) ∷ []

-- The cases of splitAliasArgs's switch.
pub data Mark : Type 0 where
  toggle_single toggle_double gap other : Mark

unfoldable pub mark : Bool → Bool → Rune → Mark
mark in_single in_double r =
    if (r == b'\'') && not in_double
    then toggle_single
    else if (r == b'"') && not in_single
    then toggle_double
    else if is_blank r && (not in_single && not in_double)
    then gap
    else other

-- The loop, with its two flags and the runes that are buffered.
unfoldable pub split_args : Bool → Bool → Text → Text → List Text
unfolding flush mark
split_args in_single in_double b [] = flush b
split_args in_single in_double b (r ∷ rs) = elim (mark in_single in_double r) [
  | toggle_single ↦ split_args (not in_single) in_double b rs
  | toggle_double ↦ split_args in_single (not in_double) b rs
  | gap ↦ flush b ++ split_args in_single in_double [] rs
  | other ↦ split_args in_single in_double (b ++ r ∷ []) rs
]

-- splitAliasArgs
unfoldable pub split_alias_args : Text → List Text
unfolding split_args
split_alias_args input = split_args false false [] input
