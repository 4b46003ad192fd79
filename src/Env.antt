-- ===== src/Env.antt =====
-- shell/internal/env/env.go: the environment table and the expansion of `$NAME`, `${NAME}` and `$?`.
pub mod Table
pub mod Expand
mod Tests
use aish.Prelude.{
  ℕ, zero, suc, Bool, true, false, Option, none, some, List, [], ◌∷◌, ◌++◌, leb, ◌==◌, ◌&&◌, ◌||◌,
  if◌then◌else◌, Text, Rune, cut_prefix,
}

-- The entries "KEY=VALUE", in the order of insertion.
pub record Env : Type 0 where
  pub vars : List Text

abbrev pub new_env : Env
new_env = record { vars = [] }

-- name + "="
abbrev pub key : Text → Text
key name = name ++ b'=' ∷ []

-- The loop of Set: the first entry with the prefix is replaced, or a new one is appended.
unfoldable pub set_in : Text → Text → List Text → List Text
set_in name value [] = (key name ++ value) ∷ []
set_in name value (kv ∷ vars) = elim (cut_prefix (key name) kv) [
  | some _ ↦ (key name ++ value) ∷ vars
  | none ↦ kv ∷ set_in name value vars
]

-- An empty name is an error: `none`.
unfoldable pub set : Text → Text → Env → Option Env
unfolding set_in
set [] value e = none
set (c ∷ name) value e = some (record e { vars = set_in (c ∷ name) value e.vars })

unfoldable pub get_in : Text → List Text → Option Text
get_in name [] = none
get_in name (kv ∷ vars) = elim (cut_prefix (key name) kv) [
  | some value ↦ some value
  | none ↦ get_in name vars
]

unfoldable pub get : Text → Env → Option Text
unfolding get_in
get [] e = none
get (c ∷ name) e = get_in (c ∷ name) e.vars

unfoldable pub unset_in : Text → List Text → List Text
unset_in name [] = []
unset_in name (kv ∷ vars) = elim (cut_prefix (key name) kv) [
  | some _ ↦ vars
  | none ↦ kv ∷ unset_in name vars
]

unfoldable pub unset : Text → Env → Env
unfolding unset_in
unset [] e = e
unset (c ∷ name) e = record e { vars = unset_in (c ∷ name) e.vars }

-- Environ: a copy of the entries.
abbrev pub environ : Env → List Text
environ e = e.vars

-- kv[:eq] and kv[eq+1:] at the first `=`.
unfoldable pub split_eq : Text → Option (Text × Text)
split_eq [] = none
split_eq (c ∷ s) =
    if c == b'='
    then some ([], s)
    else elim (split_eq s) [ none ↦ none | some (name, value) ↦ some (c ∷ name, value) ]

or_same : Option Env → Env → Env
or_same none e = e
or_same (some e') e = e'

-- The loop of FromSlice: an entry without `=`, or with an empty key, is skipped.
unfoldable pub from_loop : List Text → Env → Env
unfolding or_same set split_eq
from_loop [] e = e
from_loop (kv ∷ rest) e = elim (split_eq kv) [
  | none ↦ from_loop rest e
  | some (name, value) ↦ from_loop rest (or_same (set name value e) e)
]

unfoldable pub from_slice : List Text → Env
unfolding from_loop
from_slice initial = from_loop initial new_env

abbrev pub is_ident_start : Rune → Bool
is_ident_start r = r == b'_' || leb b'A' r && leb r b'Z' || leb b'a' r && leb r b'z'

abbrev pub is_ident_cont : Rune → Bool
is_ident_cont r = is_ident_start r || leb b'0' r && leb r b'9'

unfoldable pub all_cont : Text → Bool
all_cont [] = true
all_cont (c ∷ s) = is_ident_cont c && all_cont s

unfoldable pub is_identifier : Text → Bool
unfolding all_cont
is_identifier [] = false
is_identifier (c ∷ s) = is_ident_start c && all_cont s
