-- ===== src/History/Detect.antt =====
-- shell/internal/history/detect.go: the files that a pipeline destroys or moves.
pub mod Targets
use aish.Prelude.{
  ℕ, zero, suc, Bool, true, false, not, ◌&&◌, ◌||◌, Option, none, some, List, [], ◌∷◌, ◌++◌, map,
  if◌then◌else◌, Text, codes, text_eq, has_prefix, cut_prefix, contains,
}
use aish.Parser.{Command, Pipeline}

-- Whether a text is among others, as a key of a map of the code.
abbrev pub among : Text → List Text → Bool
among s [] = false
among s (t ∷ ts) = text_eq s t || among s ts

abbrev pub destructive_names : List Text
destructive_names =
    codes "rm"
    ∷ codes "rmdir"
    ∷ codes "unlink"
    ∷ codes "shred"
    ∷ codes "srm"
    ∷ codes "truncate"
    ∷ codes "dd"
    ∷ codes "mv"
    ∷ []

-- flagsTakingValue[name]
unfoldable pub flags_taking_value : Text → List Text
unfolding text_eq
flags_taking_value name =
    if text_eq name (codes "truncate")
    then codes "-s" ∷ codes "--size" ∷ codes "-r" ∷ codes "--reference" ∷ []
    else if text_eq name (codes "shred")
    then codes "-n" ∷ codes "--iterations" ∷ codes "-s" ∷ codes "--size" ∷ []
    else []

unfoldable pub any_destructive : List Command → Bool
unfolding text_eq
any_destructive [] = false
any_destructive (c ∷ cs) = among c.name destructive_names || any_destructive cs

unfoldable pub is_destructive : Pipeline → Bool
unfolding any_destructive
is_destructive pl = any_destructive pl.commands

-- The cases of extractFileArgs for an argument before `--`.
pub data ArgKind : Type 0 where
  end_of_options takes_value flag positional : ArgKind

unfoldable pub arg_kind : List Text → Text → ArgKind
unfolding text_eq has_prefix contains
arg_kind value_flags a =
    if text_eq a (codes "--")
    then end_of_options
    else if has_prefix a (codes "-") && not (text_eq a (codes "-"))
    then if not (contains a (codes "=")) && among a value_flags then takes_value else flag
    else positional

-- The loop; after `--` what is left is taken as it is.
unfoldable pub file_args : List Text → Bool → List Text → List Text
unfolding arg_kind
file_args value_flags skip_next [] = []
file_args value_flags true (a ∷ args) = file_args value_flags false args
file_args value_flags false (a ∷ args) = elim (arg_kind value_flags a) [
  | end_of_options ↦ args
  | takes_value ↦ file_args value_flags true args
  | flag ↦ file_args value_flags false args
  | positional ↦ a ∷ file_args value_flags false args
]

unfoldable pub extract_file_args : List Text → List Text → List Text
unfolding file_args
extract_file_args args value_flags = file_args value_flags false args

-- The `of=` arguments of dd, unless they are empty.
unfoldable pub dd_outputs : List Text → List Text
unfolding cut_prefix
dd_outputs [] = []
dd_outputs (a ∷ args) =
    let rest = dd_outputs args in
    elim (cut_prefix (codes "of=") a) [
      | none ↦ rest
      | some [] ↦ rest
      | some (c ∷ s) ↦ (c ∷ s) ∷ rest
    ]

-- `args[:len(args)-1]` and the last, where there are two or more.
unfoldable pub sources : List Text → List Text
sources [] = []
sources (a ∷ []) = []
sources (a ∷ b ∷ args) = a ∷ sources (b ∷ args)

unfoldable pub last_of : Text → List Text → Text
last_of a [] = a
last_of a (b ∷ args) = last_of b args

unfoldable pub command_targets : Command → List Text
unfolding text_eq dd_outputs extract_file_args sources flags_taking_value
command_targets c =
    if not (among c.name destructive_names)
    then []
    else if text_eq c.name (codes "dd")
    then dd_outputs c.args
    else if text_eq c.name (codes "mv")
    then sources (extract_file_args c.args [])
    else extract_file_args c.args (flags_taking_value c.name)

unfoldable pub targets : List Command → List Text
unfolding command_targets
targets [] = []
targets (c ∷ cs) = command_targets c ++ targets cs

unfoldable pub target_paths : Pipeline → List Text
unfolding targets
target_paths pl = targets pl.commands

unfoldable pub pairs : List Text → List (Text × Text)
unfolding sources last_of
pairs [] = []
pairs (a ∷ args) = map (λ s. (s, last_of a args)) (sources (a ∷ args))

unfoldable pub renames : List Command → List (Text × Text)
unfolding text_eq extract_file_args pairs
renames [] = []
renames (c ∷ cs) =
    let rest = renames cs in
    if text_eq c.name (codes "mv") then pairs (extract_file_args c.args []) ++ rest else rest

unfoldable pub rename_targets : Pipeline → List (Text × Text)
unfolding renames
rename_targets pl = renames pl.commands
