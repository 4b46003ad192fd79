-- ===== src/Translate/Format.antt =====
-- shell/internal/translate/explain.go and run.go: commands as one line of text.
use aish.Prelude.{
  Bool, true, [], ◌∷◌, ◌++◌, map, if◌then◌else◌, Text, codes, join, contains_any, replace_rune,
  ◌==◌, ℕ, has_prefix, has_suffix, trim_prefix, trim_suffix, contains, trim_space, text_eq, ◌&&◌,
  drop_while, trim_right_while,
}
use aish.Translate.{
  redirect_in, redirect_out, redirect_append, redirect_err_out, redirect_err_to_out, Redirect,
  Command,
}

abbrev pub quote_quotes : Text → Text
quote_quotes s = b'"' ∷ (replace_rune b'"' (b'\\' ∷ b'"' ∷ []) s ++ b'"' ∷ [])

unfoldable pub maybe_quote : Text → Text
unfolding replace_rune
maybe_quote [] = codes "\"\""
maybe_quote (c ∷ s) = if contains_any (c ∷ s) (codes " \t|<>;") then quote_quotes (c ∷ s) else c ∷ s

unfoldable pub redirect_string : Redirect → Text
redirect_string r = elim r.op [
  | redirect_in ↦ codes "< " ++ r.target
  | redirect_out ↦ codes "> " ++ r.target
  | redirect_append ↦ codes ">> " ++ r.target
  | redirect_err_out ↦ codes "2> " ++ r.target
  | redirect_err_to_out ↦ codes "2>&1"
]

unfoldable pub format_command : Command → Text
unfolding maybe_quote redirect_string join
format_command c =
    join (c.name ∷ (map maybe_quote c.args ++ map redirect_string c.redirects)) (codes " ")

unfoldable pub format_command_no_redirect : Command → Text
unfolding maybe_quote join
format_command_no_redirect c = join (c.name ∷ map maybe_quote c.args) (codes " ")

abbrev is_star : ℕ → Bool
is_star c = c == b'*'

-- strings.Trim(pat, "*")
abbrev trim_stars : Text → Text
trim_stars pat = drop_while is_star (trim_right_while is_star pat)

match_trimmed : Text → Text → Bool
unfolding text_eq has_prefix has_suffix trim_prefix trim_suffix contains drop_while trim_right_while
match_trimmed pat word =
    if text_eq pat (codes "*")
    then true
    else if has_prefix pat (codes "*") && has_suffix pat (codes "*")
    then contains word (trim_stars pat)
    else if has_suffix pat (codes "*")
    then has_prefix word (trim_suffix pat (codes "*"))
    else if has_prefix pat (codes "*")
    then has_suffix word (trim_prefix pat (codes "*"))
    else text_eq pat word

-- matchCasePattern
unfoldable pub match_case_pattern : Text → Text → Bool
unfolding trim_space match_trimmed
match_case_pattern pat word = match_trimmed (trim_space pat) word
