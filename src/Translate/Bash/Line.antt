-- ===== src/Translate/Bash/Line.antt =====
-- shell/internal/translate/reader/bash.go: the statement on a single line, and the tests on lines.
use aish.Prelude.{
  ℕ, Bool, true, false, not, ◌&&◌, ◌||◌, inl, inr, Option, none, some, List, [], ◌∷◌, ◌+◌, ◌==◌,
  leb, if◌then◌else◌, take, drop, reverse, Text, Rune, codes, has_prefix, contains, index_text,
  trim_space,
}
use aish.Translate.{Command, Statement, assign, simple, piped, unknown}
use aish.Translate.Bash.{BashToken, value}
use aish.Translate.Bash.Tokens.{Parsed, and_parse, tokenize_bash, split_on_pipe, tokens_to_command}

unfoldable pub first_word : Text → Text
first_word [] = []
first_word (r ∷ rs) =
    let rest = first_word rs in if (r == b' ') || (r == b'\t') then [] else r ∷ rest

abbrev is_letter : Rune → Bool
is_letter r = (r == b'_') || ((leb b'a' r && leb r b'z') || (leb b'A' r && leb r b'Z'))

abbrev is_digit : Rune → Bool
is_digit r = leb b'0' r && leb r b'9'

abbrev all_ident : Text → Bool
all_ident [] = true
all_ident (r ∷ rs) = (is_letter r || is_digit r) && all_ident rs

-- isIdent
unfoldable pub is_ident : Text → Bool
is_ident [] = false
is_ident (r ∷ rs) = is_letter r && all_ident rs

unfoldable pub is_function_def_header : Text → Bool
unfolding is_ident index_text trim_space
is_function_def_header s = elim (index_text s (codes "(")) [
  | none ↦ false
  | some opening ↦ elim (index_text s (codes ")")) [
    | none ↦ false
    | some close ↦
        not (opening == 0) && ((close == opening + 1) && is_ident (trim_space (take opening s)))
  ]
]

-- classifyUnsupported
unfoldable pub classify_unsupported : Text → Option Text
unfolding contains has_prefix
classify_unsupported line =
    if contains line (codes "<<<")
    then some (codes "here-string (<<<) unsupported")
    else if contains line (codes "<<")
    then some (codes "heredoc (<<) unsupported")
    else if has_prefix line (codes "[[") || contains line (codes " [[ ")
    then some (codes "extended test [[ ]] unsupported")
    else if contains line (codes "$((")
    then some (codes "arithmetic expansion $(( )) unsupported")
    else if contains line (codes "((") && not (contains line (codes "$(("))
    then some (codes "arithmetic command (( )) unsupported")
    else if contains line (codes " && ") || contains line (codes " || ")
    then some (codes "short-circuit && / || chains unsupported (MVP)")
    else if contains line (codes "<(")
    then some (codes "process substitution <( ) unsupported")
    else if contains line (codes ">(")
    then some (codes "process substitution >( ) unsupported")
    else if contains line (codes "`")
    then some (codes "backtick command substitution unsupported (use $(...))")
    else if has_prefix line (codes "select ")
    then some (codes "select unsupported")
    else if has_prefix line (codes "trap ")
    then some (codes "trap unsupported")
    else none

abbrev same_quotes : Rune → Rune → Bool
same_quotes first last =
    ((first == b'"') && (last == b'"')) || ((first == b'\'') && (last == b'\''))

peel_quotes : Rune → Text → Text → Text
peel_quotes first rest [] = first ∷ rest
peel_quotes first rest (last ∷ inner) =
    if same_quotes first last then reverse inner else first ∷ rest

-- stripOuterQuotes
unfoldable pub strip_outer_quotes : Text → Text
unfolding peel_quotes
strip_outer_quotes [] = []
strip_outer_quotes (first ∷ rest) = peel_quotes first rest (reverse rest)

unfoldable pub split_assignment : Text → Option (Text × Text)
unfolding index_text is_ident strip_outer_quotes
split_assignment tok = elim (index_text tok (codes "=")) [
  | none ↦ none
  | some eq ↦
      if not (eq == 0) && is_ident (take eq tok)
      then some (take eq tok, strip_outer_quotes (drop (eq + 1) tok))
      else none
]

-- The commands of all stages.
unfoldable pub commands_of : List (List BashToken) → ℕ → Parsed (List Command)
unfolding and_parse tokens_to_command
commands_of [] line = inr []
commands_of (st ∷ stages) line =
    and_parse (tokens_to_command st line)
      (λ c. and_parse (commands_of stages line) (λ cs. inr (c ∷ cs)))

unfoldable pub or_unknown : ℕ → Text → Parsed Statement → Statement
or_unknown n line (inl msg) = unknown n msg line
or_unknown n line (inr st) = st

unfoldable pub parse_simple : List BashToken → ℕ → Parsed Statement
unfolding and_parse tokens_to_command
parse_simple tokens n = and_parse (tokens_to_command tokens n) (λ c. inr (simple c))

-- `len(tokens) == 1` and an assignment, else a command.
unfoldable pub parse_single : List BashToken → ℕ → Parsed Statement
unfolding split_assignment parse_simple
parse_single (t ∷ []) n = elim (split_assignment (value t)) [
  | some a ↦ inr (assign n a.0 a.1 false)
  | none ↦ parse_simple (t ∷ []) n
]
parse_single tokens n = parse_simple tokens n

unfoldable pub parse_stages : List (List BashToken) → List BashToken → ℕ → Parsed Statement
unfolding and_parse commands_of parse_single
parse_stages (s ∷ t ∷ stages) tokens n =
    and_parse (commands_of (s ∷ t ∷ stages) n) (λ cs. inr (piped n cs))
parse_stages _ tokens n = parse_single tokens n

unfoldable pub parse_tokens : List BashToken → ℕ → Parsed Statement
unfolding split_on_pipe parse_stages
parse_tokens [] n = inl (codes "empty statement")
parse_tokens (t ∷ ts) n = parse_stages (split_on_pipe [] (t ∷ ts)) (t ∷ ts) n

unfoldable pub parse_statement_line : Text → ℕ → Statement
unfolding and_parse tokenize_bash parse_tokens or_unknown
parse_statement_line line n =
    or_unknown n line (and_parse (tokenize_bash line) (λ ts. parse_tokens ts n))
