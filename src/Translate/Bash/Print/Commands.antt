-- ===== src/Translate/Bash/Print/Commands.antt =====
-- A command that formatCommand prints is read back by parseStatementLine.
use aish.Prelude.{
  ℕ, ◌≡◌, refl, ap, sym, ◌∙◌, Bool, true, false, inl, inr, none, List, [], ◌∷◌, ◌++◌, map,
  append_assoc, append-nil, Text, codes, has_prefix, cut_prefix, join, All, text_eq, arith,
}
use aish.Translate.{
  RedirectOp, redirect_in, redirect_out, redirect_append, redirect_err_out, redirect_err_to_out,
  Redirect, Command, simple,
}
use aish.Translate.Format.{maybe_quote, redirect_string, format_command}
use aish.Translate.Bash.{BashToken, word, pipe, redir}
use aish.Translate.Bash.Tokens.{
  Parsed, and_parse, emit, lexeme, tokens_from, tokenize_bash, split_on_pipe, op_from_string,
  gather, named, tokens_to_command,
}
use aish.Translate.Bash.Line.{
  split_assignment, or_unknown, parse_simple, parse_single, parse_stages, parse_tokens,
  parse_statement_line,
}
use aish.Translate.Bash.Print.{is_plain, Readable, plain_word, maybe_quote-tokens}

-- The texts, each after a blank.
unfoldable spaced : List Text → Text
spaced [] = []
spaced (t ∷ ts) = b' ' ∷ (t ++ spaced ts)

join-spaced : (t : Text) (ts : List Text) → join (t ∷ ts) (codes " ") ≡ t ++ spaced ts
unfolding join spaced
join-spaced t [] = sym (append-nil t)
join-spaced t (u ∷ ts) = ap (λ r. t ++ b' ' ∷ r) (join-spaced u ts)

spaced_ends : (ts : List Text) → has_prefix (spaced ts) (codes ">") ≡ false
unfolding spaced has_prefix cut_prefix
spaced_ends [] = refl
spaced_ends (t ∷ ts) = refl

abbrev tokens_of : List Text → Parsed (List BashToken)
tokens_of ts = tokens_from 0 false [] (spaced ts)

emit_none : (r : Parsed (List BashToken)) → emit [] r ≡ r
unfolding emit and_parse
emit_none (inl msg) = refl
emit_none (inr ts) = refl

-- At the end of a word.
at_blank :
    (w : Text) (ts : List Text)
    → tokens_from 0 true w (spaced ts) ≡ emit (word w ∷ []) (tokens_of ts)
unfolding spaced tokens_from lexeme emit and_parse
at_blank w [] = refl
at_blank w (t ∷ ts) =
    ap (emit (word w ∷ [])) (sym (emit_none (tokens_from 0 false [] (t ++ spaced ts))))

-- A redirect to a bare target, or to none for `2>&1`.
abbrev IsBare : Text → Type 0
IsBare [] = ⊥
IsBare (r ∷ s) = All (λ c. is_plain c ≡ true) (r ∷ s)

abbrev pub IsRedirect : Redirect → Type 0
IsRedirect r = elim r.op [ redirect_err_to_out ↦ r.target ≡ [] | _ ↦ IsBare r.target ]

unfoldable op_text : RedirectOp → Text
op_text redirect_in = codes "<"
op_text redirect_out = codes ">"
op_text redirect_append = codes ">>"
op_text redirect_err_out = codes "2>"
op_text redirect_err_to_out = codes "2>&1"

unfoldable redirect_tokens : List Redirect → List BashToken
unfolding op_text
redirect_tokens [] = []
redirect_tokens (r ∷ rs) = redir (op_text r.op) ∷ word r.target ∷ redirect_tokens rs

-- A bare word and what follows it.
word_back :
    (t : Text) (ts : List Text) (later : List BashToken)
    → IsBare t
    → tokens_of ts ≡ inr later
    → tokens_from 0 false [] (t ++ spaced ts) ≡ inr (word t ∷ later)
word_back [] ts later h k = absurd h
word_back (r ∷ s) ts later h k =
    plain_word s false [] (spaced ts) r h (spaced_ends ts)
    ∙ at_blank (r ∷ s) ts
    ∙ ap (emit (word (r ∷ s) ∷ [])) k
    ∙ (unfold emit and_parse in refl)

one_redirect :
    (op : RedirectOp) (target : Text) (ts : List Text) (later : List BashToken)
    → IsRedirect (record { op = op; target = target })
    → tokens_of ts ≡ inr later
    → tokens_of (redirect_string (record { op = op; target = target }) ∷ ts)
      ≡ inr (redir (op_text op) ∷ word target ∷ later)
unfolding spaced tokens_from lexeme emit and_parse redirect_string has_prefix cut_prefix op_text
one_redirect redirect_in target ts later h k = rw (word_back target ts later h k) refl
one_redirect redirect_out target ts later h k = rw (word_back target ts later h k) refl
one_redirect redirect_append target ts later h k = rw (word_back target ts later h k) refl
one_redirect redirect_err_out target ts later h k = rw (word_back target ts later h k) refl
one_redirect redirect_err_to_out target ts later h k = rw (k, h) refl

abbrev pieces : Command → List Text
pieces c = map maybe_quote c.args ++ map redirect_string c.redirects

redirects_read :
    (rs : List Redirect)
    → All IsRedirect rs
    → tokens_of (map redirect_string rs) ≡ inr (redirect_tokens rs)
unfolding spaced redirect_tokens tokens_from
redirects_read [] h = refl
redirects_read (r ∷ rs) h =
    one_redirect r.op r.target (map redirect_string rs) (redirect_tokens rs) h.0
      (redirects_read rs h.1)

args_read :
    (args : List Text) (ts : List Text) (later : List BashToken)
    → All Readable args
    → tokens_of ts ≡ inr later
    → tokens_of (map maybe_quote args ++ ts) ≡ inr (map word args ++ later)
unfolding spaced tokens_from lexeme
args_read [] ts later h k = k
args_read (a ∷ args) ts later h k =
    emit_none (tokens_from 0 false [] (maybe_quote a ++ spaced (map maybe_quote args ++ ts)))
    ∙ maybe_quote-tokens a (spaced (map maybe_quote args ++ ts)) h.0
        (spaced_ends (map maybe_quote args ++ ts))
    ∙ at_blank a (map maybe_quote args ++ ts)
    ∙ ap (emit (word a ∷ [])) (args_read args ts later h.1 k)
    ∙ (unfold emit and_parse in refl)

abbrev is_no_pipe : BashToken → Bool
is_no_pipe pipe = false
is_no_pipe _ = true

one_stage :
    (cur ts : List BashToken) (t : BashToken)
    → All (λ u. is_no_pipe u ≡ true) ts
    → split_on_pipe (cur ++ t ∷ []) ts ≡ (cur ++ t ∷ ts) ∷ []
unfolding split_on_pipe
one_stage [] [] t h = refl
one_stage (c ∷ cur) [] t h = refl
one_stage cur (word w ∷ ts) t h =
    one_stage (cur ++ t ∷ []) ts (word w) h.1
    ∙ ap (λ l. l ∷ []) (append_assoc cur (t ∷ []) (word w ∷ ts))
one_stage cur (redir op ∷ ts) t h =
    one_stage (cur ++ t ∷ []) ts (redir op) h.1
    ∙ ap (λ l. l ∷ []) (append_assoc cur (t ∷ []) (redir op ∷ ts))
one_stage cur (pipe ∷ ts) t h = absurd (ground (arith, h.0))

no_pipes :
    (args : List Text) (rs : List Redirect)
    → All (λ u. is_no_pipe u ≡ true) (map word args ++ redirect_tokens rs)
unfolding redirect_tokens
no_pipes [] [] = tt
no_pipes [] (r ∷ rs) = (refl, (refl, no_pipes [] rs))
no_pipes (a ∷ args) rs = (refl, no_pipes args rs)

op_back : (op : RedirectOp) → op_from_string (op_text op) ≡ op
unfolding op_from_string op_text text_eq
op_back redirect_in = refl
op_back redirect_out = refl
op_back redirect_append = refl
op_back redirect_err_out = refl
op_back redirect_err_to_out = refl

gather_back :
    (args : List Text) (rs : List Redirect)
    → gather (map word args ++ redirect_tokens rs) ≡ inr (args, rs)
unfolding gather redirect_tokens and_parse
gather_back [] [] = refl
gather_back [] (r ∷ rs) = rw (gather_back [] rs, op_back r.op) refl
gather_back (a ∷ args) rs = rw (gather_back args rs) refl

-- The statement that the tokens of a command make.
single_back :
    (line : ℕ) (name : Text) (args : List Text) (rs : List Redirect)
    → split_assignment name ≡ none
    → parse_single (word name ∷ (map word args ++ redirect_tokens rs)) line
      ≡ inr (simple (record { line = line; name = name; args = args; redirects = rs }))
unfolding parse_single parse_simple gather tokens_to_command and_parse named redirect_tokens
single_back line name [] [] h = rw (h, parse_single) refl
single_back line name [] (r ∷ rs) h = rw (gather_back (name ∷ []) (r ∷ rs)) refl
single_back line name (a ∷ args) rs h = rw (gather_back (name ∷ a ∷ args) rs) refl

-- The name is a bare word and is no assignment; the arguments and the redirects can be printed.
pub record IsPrintable (c : Command) : Type 0 where
  pub name_ok : IsBare c.name
  pub no_assignment : split_assignment c.name ≡ none
  pub args_ok : All Readable c.args
  pub redirects_ok : All IsRedirect c.redirects

tokens_back :
    (c : Command)
    → IsPrintable c
    → tokenize_bash (format_command c)
      ≡ inr (word c.name ∷ (map word c.args ++ redirect_tokens c.redirects))
unfolding tokenize_bash format_command
tokens_back c h =
    ap (tokens_from 0 false []) (join-spaced c.name (pieces c))
    ∙ word_back c.name (pieces c) (map word c.args ++ redirect_tokens c.redirects) h.name_ok (
        args_read c.args (map redirect_string c.redirects) (redirect_tokens c.redirects) h.args_ok
          (redirects_read c.redirects h.redirects_ok))

-- A command is read back from what formatCommand prints for it, arguments in quotes and redirects
-- included, if its name and its targets have no special runes, the name is no assignment, and each
-- argument is empty, or has no special runes, or is printed in quotes and has no backslash.
pub parse_statement_line-format_command :
    (c : Command) → IsPrintable c → parse_statement_line (format_command c) c.line ≡ simple c
unfolding parse_statement_line parse_tokens parse_stages and_parse or_unknown split_on_pipe
parse_statement_line-format_command c h = ap (or_unknown c.line (format_command c)) (
    ap (λ r. and_parse r (λ ts. parse_tokens ts c.line)) (tokens_back c h)
    ∙ as_one (
        one_stage [] (map word c.args ++ redirect_tokens c.redirects) (word c.name)
          (no_pipes c.args c.redirects))
    ∙ single_back c.line c.name c.args c.redirects h.no_assignment)
  where
    as_one :
        {ts : List BashToken}
        → split_on_pipe [] (word c.name ∷ ts) ≡ (word c.name ∷ ts) ∷ []
        → and_parse (inr (word c.name ∷ ts)) (λ us. parse_tokens us c.line)
          ≡ parse_single (word c.name ∷ ts) c.line
    as_one {ts = ts} e = ap (λ stages. parse_stages stages (word c.name ∷ ts) c.line) e
