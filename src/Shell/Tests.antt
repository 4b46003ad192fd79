-- ===== src/Shell/Tests.antt =====
-- The theorems about the shell, applied to concrete lines.
mod Commands
mod Background
use aish.Prelude.{
  ◌≡◌, refl, arith, true, false, some, none, List, [], ◌∷◌, ◌++◌, codes, Text, text_eq,
  split_rune_at, if◌then◌else◌,
}
use aish.Translate.Bash.Line.{strip_outer_quotes}
use aish.Shell.{split_alias_args}
use aish.Shell.Alias.{
  Aliases, alias_get, alias_set, alias_builtin, quote_alias_value, resolve_alias, cycle,
}
use aish.Shell.Alias.Rewriting.{Resolved, resolve_alias-Resolved}
use aish.Shell.Repl.{Loop, End, eof, run_stream}
use aish.Shell.Repl.Stream.{Consumes, quiet, feed, run_stream-some, run_stream-feed}
use aish.Shell.Alias.Listing.{listed, alias_builtin-listed}

abbrev known_aliases : Aliases
known_aliases =
    (codes "ll", codes "ls -la") ∷ (codes "x", codes "y 1") ∷ (codes "y", codes "x 2") ∷ []

abbrev in_order : List Text → List Text
in_order l = l

resolve_alias-Resolved_example :
    Resolved known_aliases 3 (codes "x a") (resolve_alias known_aliases (codes "x a"))
resolve_alias-Resolved_example = resolve_alias-Resolved known_aliases (codes "x a") (omega arith)

cycle_stops :
    resolve_alias known_aliases (codes "x a") ≡ (codes "x 2 1 a", some (cycle (codes "x")))
unfolding resolve_alias
cycle_stops = refl

-- A blank before the name keeps it from being taken off.
blank_keeps_name : resolve_alias known_aliases (codes " ll b") ≡ (codes "ls -la ll b", none)
unfolding resolve_alias
blank_keeps_name = refl

alias_builtin-listed_example :
    (words : Text) × (alias_builtin in_order (codes "ll" ∷ []) known_aliases ≡ record {
      aliases = known_aliases;
      out = codes "alias " ++ (words ++ b'\n' ∷ []);
      errors = [];
      exit = 0;
    })
    × (alias_builtin in_order (split_alias_args words) [] ≡ record {
      aliases = alias_set (codes "ll") (codes "ls -la") [];
      out = [];
      errors = [];
      exit = 0;
    })
unfolding strip_outer_quotes alias_get text_eq
alias_builtin-listed_example =
    alias_builtin-listed in_order b'l' (codes "l") (codes "ls -la") known_aliases []
      ((refl, refl, refl, refl), ((refl, refl, refl, refl), tt))
      (refl, (refl, (refl, (refl, (refl, (refl, tt)))))) refl refl

-- An apostrophe does not come back: the runes it is written with are read otherwise.
apostrophe_lost : split_alias_args (listed (codes "x") (codes "it's")) ≡ codes "x=it\\s" ∷ []
unfolding split_alias_args quote_alias_value
apostrophe_lost = refl

-- Every line is kept; `cat` takes all of the input.
abbrev session : Loop (List Text)
session = record {
  drain = λ s. s;
  prompt = λ s. (true, s);
  dispatch = λ t left s. ((none, if text_eq t (codes "cat") then [] else left), s ++ t ∷ []);
}

session-Consumes : Consumes session
session-Consumes t left s = ground arith

run_stream-some_example :
    (r : End × List Text) × (run_stream session 20 (codes "ls\n\ncat\npwd\n") [] ≡ some r)
run_stream-some_example =
    run_stream-some session 20 (codes "ls\n\ncat\npwd\n") [] session-Consumes (omega arith)

abbrev keep_line : Text → List Text → List Text
keep_line t s = s ++ t ∷ []

run_stream-feed_example :
    run_stream (quiet in_order in_order keep_line) 20 (codes "ls\r\n\npwd") []
    ≡ some (eof, feed in_order in_order keep_line (split_rune_at b'\n' (codes "ls\r\n\npwd")) [])
run_stream-feed_example =
    run_stream-feed in_order in_order keep_line 20 (codes "ls\r\n\npwd") [] (omega arith)

lines_of_a_session :
    run_stream (quiet in_order in_order keep_line) 20 (codes "ls\r\n\npwd") []
    ≡ some (eof, codes "ls" ∷ codes "pwd" ∷ [])
unfolding run_stream
lines_of_a_session = refl
