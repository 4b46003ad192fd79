-- ===== src/Translate/Bash/Tokens.antt =====
-- shell/internal/translate/reader/bash.go: tokenizeBash, and the commands that tokens make up.
use aish.Prelude.{
  ℕ, zero, suc, ◌-◌, Bool, true, false, not, ◌&&◌, ◌||◌, ◌⊎◌, inl, inr, Option, none, some, List,
  [], ◌∷◌, ◌++◌, ◌==◌, if◌then◌else◌, take, Text, Rune, codes, has_prefix, text_eq,
}
use aish.Translate.{
  RedirectOp, redirect_in, redirect_out, redirect_append, redirect_err_out, redirect_err_to_out,
  Redirect, Command,
}
use aish.Translate.Bash.{BashToken, word, pipe, redir, value}

-- A result, or the message of a parseError.
abbrev pub Parsed : Type 0 → Type 0
Parsed A = Text ⊎ A

unfoldable pub and_parse : {A B : Type 0} → Parsed A → (A → Parsed B) → Parsed B
and_parse (inl msg) f = inl msg
and_parse (inr a) f = f a

abbrev shift : Option ℕ → Option ℕ
shift none = none
shift (some k) = some (suc k)

-- The index of the closing single quote.
unfoldable pub single_end : Text → Option ℕ
single_end [] = none
single_end (r ∷ rs) = let rest = single_end rs in if r == b'\'' then some 0 else shift rest

-- The index of the closing double quote; the flag tells that a backslash stands before.
unfoldable pub double_end : Bool → Text → Option ℕ
double_end escaped [] = none
double_end escaped (r ∷ rs) =
    let rest = double_end (not escaped && (r == b'\\')) rs in
    if not escaped && (r == b'"') then some 0 else shift rest

-- strings.ReplaceAll(inner, `\"`, `"`)
unfoldable pub unescape : Text → Text
unfolding has_prefix
unescape [] = []
unescape (r ∷ rs) =
    let rest = unescape rs in if (r == b'\\') && has_prefix rs (b'"' ∷ []) then rest else r ∷ rest

-- The index of the parenthesis that closes the first one, from a depth on.
unfoldable pub paren_end : ℕ → Text → Option ℕ
paren_end depth [] = none
paren_end depth (r ∷ rs) =
    let rest =
      paren_end (if r == b'(' then suc depth else if r == b')' then depth - 1 else depth) rs in
    if (r == b')') && (depth == 1) then some 0 else shift rest

-- The cases of the switch.
pub data Lexeme : Type 0 where
  single double substitution bar out_append out into err_to_out err_out blank semicolon other :
      Lexeme

unfoldable pub lexeme : Bool → Rune → Text → Lexeme
unfolding has_prefix
lexeme in_word r rs =
    if r == b'\''
    then single
    else if r == b'"'
    then double
    else if (r == b'$') && has_prefix rs (codes "(")
    then substitution
    else if r == b'|'
    then bar
    else if (r == b'>') && has_prefix rs (codes ">")
    then out_append
    else if r == b'>'
    then out
    else if r == b'<'
    then into
    else if (r == b'2') && has_prefix rs (codes ">")
    then if has_prefix rs (codes ">&1") then err_to_out else if not in_word then err_out else other
    else if (r == b' ') || (r == b'\t')
    then blank
    else if r == b';'
    then semicolon
    else other

-- flush
abbrev pub flush : Bool → Text → List BashToken
flush in_word cur = if in_word then word cur ∷ [] else []

unfoldable pub emit : List BashToken → Parsed (List BashToken) → Parsed (List BashToken)
unfolding and_parse
emit ts r = and_parse r (λ later. inr (ts ++ later))

-- The main loop, on the runes from index `i` on; the first number counts the runes that an
-- assignment to `i` skips. The word so far is empty while `in_word` is false.
unfoldable pub tokens_from : ℕ → Bool → Text → Text → Parsed (List BashToken)
unfolding single_end double_end unescape paren_end lexeme emit
tokens_from skip in_word cur [] = inr (flush in_word cur)
tokens_from (suc skip) in_word cur (r ∷ rs) = tokens_from skip in_word cur rs
tokens_from zero in_word cur (r ∷ rs) = elim (lexeme in_word r rs) [
  | single ↦ elim (single_end rs) [
    | none ↦ inl (codes "unterminated single quote")
    | some k ↦ tokens_from (suc k) true (cur ++ take k rs) rs
  ]
  | double ↦ elim (double_end false rs) [
    | none ↦ inl (codes "unterminated double quote")
    | some k ↦ tokens_from (suc k) true (cur ++ unescape (take k rs)) rs
  ]
  | substitution ↦ elim (paren_end 0 rs) [
    | none ↦ inl (codes "unterminated $(...) substitution")
    | some k ↦ tokens_from (suc k) true (cur ++ r ∷ take (suc k) rs) rs
  ]
  | bar ↦ emit (flush in_word cur ++ pipe ∷ []) (tokens_from 0 false [] rs)
  | out_append ↦ emit (flush in_word cur ++ redir (codes ">>") ∷ []) (tokens_from 1 false [] rs)
  | out ↦ emit (flush in_word cur ++ redir (codes ">") ∷ []) (tokens_from 0 false [] rs)
  | into ↦ emit (flush in_word cur ++ redir (codes "<") ∷ []) (tokens_from 0 false [] rs)
  | err_to_out ↦
      emit (flush in_word cur ++ redir (codes "2>&1") ∷ word [] ∷ []) (tokens_from 3 false [] rs)
  | err_out ↦ emit (flush in_word cur ++ redir (codes "2>") ∷ []) (tokens_from 1 false [] rs)
  | blank ↦ emit (flush in_word cur) (tokens_from 0 false [] rs)
  | semicolon ↦ inr (flush in_word cur)
  | other ↦ tokens_from 0 true (cur ++ r ∷ []) rs
]

-- tokenizeBash
unfoldable pub tokenize_bash : Text → Parsed (List BashToken)
unfolding tokens_from
tokenize_bash line = tokens_from 0 false [] line

-- splitOnPipe, with the tokens of the stage so far; empty stages are left out.
abbrev stage : List BashToken → List (List BashToken)
stage [] = []
stage (t ∷ ts) = (t ∷ ts) ∷ []

unfoldable pub split_on_pipe : List BashToken → List BashToken → List (List BashToken)
split_on_pipe cur [] = stage cur
split_on_pipe cur (pipe ∷ ts) = stage cur ++ split_on_pipe [] ts
split_on_pipe cur (word w ∷ ts) = split_on_pipe (cur ++ word w ∷ []) ts
split_on_pipe cur (redir op ∷ ts) = split_on_pipe (cur ++ redir op ∷ []) ts

unfoldable pub op_from_string : Text → RedirectOp
unfolding text_eq
op_from_string op =
    if text_eq op (codes "<")
    then redirect_in
    else if text_eq op (codes ">")
    then redirect_out
    else if text_eq op (codes ">>")
    then redirect_append
    else if text_eq op (codes "2>")
    then redirect_err_out
    else if text_eq op (codes "2>&1")
    then redirect_err_to_out
    else redirect_out

-- The loop of tokensToCommand: the words and the redirects.
unfoldable pub gather : List BashToken → Parsed (List Text × List Redirect)
unfolding and_parse op_from_string
gather [] = inr ([], [])
gather (redir op ∷ []) = inl (codes "redirect operator with no target")
gather (redir op ∷ t ∷ ts) =
    and_parse (gather ts)
      (λ p. inr (p.0, record { op = op_from_string op; target = value t } ∷ p.1))
gather (word w ∷ ts) = and_parse (gather ts) (λ p. inr (w ∷ p.0, p.1))
gather (pipe ∷ ts) = and_parse (gather ts) (λ p. inr ([] ∷ p.0, p.1))

unfoldable pub named : ℕ → List Text × List Redirect → Parsed Command
named line ([], redirects) = inl (codes "command with no name")
named line (name ∷ args, redirects) =
    inr (record { line = line; name = name; args = args; redirects = redirects })

unfoldable pub tokens_to_command : List BashToken → ℕ → Parsed Command
unfolding and_parse gather named
tokens_to_command ts line = and_parse (gather ts) (named line)
