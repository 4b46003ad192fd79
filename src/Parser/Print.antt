-- ===== src/Parser/Print.antt =====
-- Printing a pipeline so that Parse reads it back.
use aish.Prelude.{
  ◌≡◌, ap, ◌∙◌, Bool, true, false, List, [], ◌∷◌, ◌++◌, if◌then◌else◌, Text, All, append_assoc, map,
}
use aish.Parser.{ok, Token, word, and_then, Command, parse, parse_tokens, tokenize}
use aish.Parser.Tokens.{print_word, print_word_lem, Ends, end-Ends, word-Ends, pipe-Ends, amp-Ends}
use aish.Parser.Grammar.{
  rest_tokens, background_tokens, pipeline_tokens, Untainted, parse_pipeline_tokens,
}

unfoldable pub print_args : List Text → Text → Text
print_args [] rest = rest
print_args (a ∷ args) rest = b' ' ∷ (print_word a ++ print_args args rest)

unfoldable pub print_rest : List Command → Text → Text
unfolding print_args
print_rest [] rest = rest
print_rest (c ∷ cs) rest =
    b' ' ∷ b'|' ∷ b' ' ∷ (print_word c.name ++ print_args c.args (print_rest cs rest))

abbrev pub print_background : Bool → Text
print_background background = if background then b' ' ∷ b'&' ∷ [] else []

-- The words with blanks between them, the commands with ` | `, and ` &` if it runs in the
-- background.
unfoldable pub print : Command → List Command → Bool → Text
unfolding print_args print_rest
print c cs background =
    print_word c.name ++ print_args c.args (print_rest cs (print_background background))

args-Ends :
    (args : List Text) (rest : Text) (ts : List Token)
    → Ends rest ts
    → Ends (print_args args rest) (map word args ++ ts)
unfolding print_args
args-Ends [] rest ts h = h
args-Ends (a ∷ args) rest ts h =
    word-Ends a (print_args args rest) (map word args ++ ts) (args-Ends args rest ts h)

rest-Ends :
    (cs : List Command) (rest : Text) (ts : List Token)
    → Ends rest ts
    → Ends (print_rest cs rest) (rest_tokens cs ++ ts)
unfolding print_rest rest_tokens
rest-Ends [] rest ts h = h
rest-Ends (c ∷ cs) rest ts h = rw (append_assoc (map word c.args) (rest_tokens cs) ts) (
    pipe-Ends c.name (print_args c.args (print_rest cs rest))
      (map word c.args ++ (rest_tokens cs ++ ts))
      (args-Ends c.args (print_rest cs rest) (rest_tokens cs ++ ts) (rest-Ends cs rest ts h)))

background-Ends : (b : Bool) → Ends (print_background b) (background_tokens b)
background-Ends true = amp-Ends
background-Ends false = end-Ends

-- What is printed of a pipeline is read back as that pipeline, whatever runes its words have,
-- among them blanks, quotes, `|` and `&`, and if they are empty. The pipeline has a command, and
-- no command is tainted, which a parser never makes it.
pub parse-print :
    (c : Command) (cs : List Command) (background : Bool)
    → All Untainted (c ∷ cs)
    → parse (print c cs background)
      ≡ ok (record { commands = c ∷ cs; background = background; tainted = false })
unfolding parse and_then tokenize print
parse-print c cs b h =
    let read : tokenize (print c cs b) ≡ ok (pipeline_tokens c cs b) =
      print_word_lem c.name (print_args c.args (print_rest cs (print_background b)))
      ∙ args-Ends c.args (print_rest cs (print_background b))
          (rest_tokens cs ++ background_tokens b)
          (rest-Ends cs (print_background b) (background_tokens b) (background-Ends b)) c.name in
    ap (λ r. and_then r parse_tokens) read ∙ parse_pipeline_tokens c cs b h
