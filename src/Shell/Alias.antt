-- ===== src/Shell/Alias.antt =====
-- shell/internal/shell/builtin_alias.go: the alias table, the `alias` builtin and the rewriting of
-- the first token of a line.
pub mod Rewriting
pub mod Listing
use aish.Prelude.{
  ℕ, zero, suc, Bool, true, false, Option, none, some, List, [], ◌∷◌, ◌++◌, map, if◌then◌else◌,
  Text, codes, contains, text_eq, trim_prefix, replace_rune,
}
use aish.Env.{split_eq}
use aish.Translate.Bash.Line.{strip_outer_quotes}
use aish.Shell.{first_token}

-- The map of aliases, as the list of its entries.
abbrev pub Aliases : Type 0
Aliases = List (Text × Text)

-- aliasGet
unfoldable pub alias_get : Text → Aliases → Option Text
unfolding text_eq
alias_get name [] = none
alias_get name ((k, v) ∷ m) = if text_eq k name then some v else alias_get name m

-- aliasSet
unfoldable pub alias_set : Text → Text → Aliases → Aliases
unfolding text_eq
alias_set name value [] = (name, value) ∷ []
alias_set name value ((k, v) ∷ m) =
    if text_eq k name then (k, value) ∷ m else (k, v) ∷ alias_set name value m

-- quoteAliasValue
unfoldable pub quote_alias_value : Text → Text
unfolding contains replace_rune
quote_alias_value v =
    if contains v (codes "'")
    then b'\'' ∷ (replace_rune b'\'' (codes "'\\''") v ++ b'\'' ∷ [])
    else b'\'' ∷ (v ++ b'\'' ∷ [])

-- What resolveAlias writes to stderr.
pub data Warning : Type 0 where
  cycle : Text → Warning
  exceeded : Warning

-- seen[first]
unfoldable pub seen_before : List Text → Text → Bool
unfolding text_eq
seen_before [] first = false
seen_before (k ∷ seen) first = if text_eq k first then true else seen_before seen first

-- The loop of resolveAlias, by how many iterations are left: the line, and the warning if there is
-- one.
unfoldable pub resolve_loop : Aliases → ℕ → List Text → Text → Text × Option Warning
unfolding first_token alias_get seen_before trim_prefix
resolve_loop m zero seen line = (line, some exceeded)
resolve_loop m (suc n) seen line = elim (first_token line) [
  | [] ↦ (line, none)
  | c ∷ s ↦ elim (alias_get (c ∷ s) m) [
    | none ↦ (line, none)
    | some value ↦ elim (seen_before seen (c ∷ s)) [
      | true ↦ (line, some (cycle (c ∷ s)))
      | false ↦ resolve_loop m n ((c ∷ s) ∷ seen) (value ++ trim_prefix line (c ∷ s))
    ]
  ]
]

-- The constant `cap` of the loop.
abbrev pub alias_cap : ℕ
alias_cap = 16

-- resolveAlias
unfoldable pub resolve_alias : Aliases → Text → Text × Option Warning
unfolding resolve_loop
resolve_alias [] line = (line, none)
resolve_alias (a ∷ m) [] = ([], none)
resolve_alias (a ∷ m) (c ∷ line) = resolve_loop (a ∷ m) alias_cap [] (c ∷ line)

-- What the builtin writes to stderr.
pub data AliasError : Type 0 where
  not_found missing_name : Text → AliasError

pub record AliasRun : Type 0 where
  pub aliases : Aliases
  pub out : Text
  pub errors : List AliasError
  pub exit : ℕ

-- "alias %s=%s\n"
abbrev pub alias_line : Text → Text → Text
alias_line name value = codes "alias " ++ (name ++ b'=' ∷ (quote_alias_value value ++ b'\n' ∷ []))

-- One round of aliasBuiltin's loop.
unfoldable pub alias_arg : Text → AliasRun → AliasRun
unfolding split_eq alias_get alias_set quote_alias_value strip_outer_quotes
alias_arg arg r = elim (split_eq arg) [
  | none ↦ elim (alias_get arg r.aliases) [
    | some v ↦ record r { out = r.out ++ alias_line arg v }
    | none ↦ record r { errors = r.errors ++ not_found arg ∷ []; exit = 1 }
  ]
  | some ([], value) ↦ record r { errors = r.errors ++ missing_name arg ∷ []; exit = 2 }
  | some (c ∷ name, value) ↦ record r {
    aliases = alias_set (c ∷ name) (strip_outer_quotes value) r.aliases;
  }
]

unfoldable pub alias_args : List Text → AliasRun → AliasRun
unfolding alias_arg
alias_args [] r = r
alias_args (arg ∷ args) r = alias_args args (alias_arg arg r)

unfoldable pub list_aliases : Aliases → List Text → Text
unfolding alias_get quote_alias_value
list_aliases m [] = []
list_aliases m (n ∷ names) = elim (alias_get n m) [
  | none ↦ alias_line n [] ++ list_aliases m names
  | some v ↦ alias_line n v ++ list_aliases m names
]

-- sort.Strings is an argument.
module _ (sort : List Text → List Text) where
  -- aliasList
  unfoldable pub alias_list : Aliases → Text
  unfolding list_aliases
  alias_list m = list_aliases m (sort (map (λ (k, v). k) m))

  -- aliasBuiltin
  unfoldable pub alias_builtin : List Text → Aliases → AliasRun
  unfolding alias_list alias_args
  alias_builtin [] m = record { aliases = m; out = alias_list m; errors = []; exit = 0 }
  alias_builtin (arg ∷ args) m =
      alias_args (arg ∷ args) (record { aliases = m; out = []; errors = []; exit = 0 })
