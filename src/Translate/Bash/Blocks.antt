-- ===== src/Translate/Bash/Blocks.antt =====
-- shell/internal/translate/reader/bash.go: parseBlock and the readers of blocks, on fuel; a block
-- of n lines needs 2 n + 1.
pub mod Kinds
pub mod Rounds
pub mod Total
pub mod Else
use aish.Prelude.{
  ℕ, zero, suc, ◌+◌, ◌*◌, Bool, true, false, not, ◌&&◌, ◌||◌, Option, none, some, List, [], ◌∷◌,
  ◌++◌, map, if◌then◌else◌, take, drop, Text, codes, has_prefix, has_suffix, trim_prefix,
  trim_suffix, index_text, index_any, text_eq, trim_space, split_rune_at, length,
}
use aish.Translate.{
  Statement, comment, cond, loop_for, loop_while, case_of, func_def, unknown, Statements, done,
  also, Branches, no_branch, branch, Arms, no_arm, arm,
}
use aish.Translate.Bash.{PhysicalLine}
use aish.Translate.Bash.Line.{
  first_word, is_function_def_header, classify_unsupported, parse_statement_line,
}
use aish.Translate.Bash.Cases.{Read, and_read, read_arms}
use aish.Translate.Bash.Headers.{
  lex_lines, skip_keyword_line, skip_brace, consume_until_keyword, parse_for_header, case_word,
}

-- The cases of parseBlock, in the order of its tests.
pub data LineKind : Type 0 where
  empty remark terminator opens_if opens_for opens_while opens_case opens_function opens_parens :
      LineKind
  unsupported : Text → LineKind
  plain : LineKind

abbrev pub one_of : Text → List Text → Bool
one_of w [] = false
one_of w (t ∷ ts) = text_eq w t || one_of w ts

-- The kinds of lines that are no terminators.
unfoldable pub opened_by : Text → Text → LineKind
unfolding text_eq is_function_def_header classify_unsupported
opened_by trimmed first =
    if text_eq first (codes "if")
    then opens_if
    else if text_eq first (codes "for")
    then opens_for
    else if text_eq first (codes "while")
    then opens_while
    else if text_eq first (codes "case")
    then opens_case
    else if text_eq first (codes "function")
    then opens_function
    else if is_function_def_header trimmed
    then opens_parens
    else elim (classify_unsupported trimmed) [ none ↦ plain | some reason ↦ unsupported reason ]

unfoldable pub kind_of : Text → List Text → LineKind
unfolding text_eq has_prefix first_word opened_by
kind_of trimmed terms =
    if text_eq trimmed []
    then empty
    else if has_prefix trimmed (codes "#")
    then remark
    else if one_of (first_word trimmed) terms
    then terminator
    else opened_by trimmed (first_word trimmed)

-- The Cond that parseIf builds: the branches before the last, the last, and Else.
pub record IfSoFar : Type 0 where
  pub line : ℕ
  pub earlier : List (Statement × Statements)
  pub test : Statement
  pub body : Statements
  pub otherwise : Statements

unfoldable pub branches_of : List (Statement × Statements) → Branches
branches_of [] = no_branch
branches_of ((test, body) ∷ rest) = branch test body (branches_of rest)

unfoldable pub cond_of : IfSoFar → Statement
unfolding branches_of
cond_of c = cond c.line (branches_of (c.earlier ++ (c.test, c.body) ∷ [])) c.otherwise

unfoldable pub start_if : PhysicalLine → IfSoFar
unfolding consume_until_keyword
start_if l = record {
  line = l.line;
  earlier = [];
  test = consume_until_keyword l (codes "if") (codes "then");
  body = done;
  otherwise = done;
}

unfoldable pub next_branch : PhysicalLine → IfSoFar → IfSoFar
unfolding consume_until_keyword
next_branch l c = record c {
  earlier = c.earlier ++ (c.test, c.body) ∷ [];
  test = consume_until_keyword l (codes "elif") (codes "then");
  body = done;
}

-- The keyword at the head of the first line that is left.
pub data Head : Type 0 where
  no_line at_elif at_else at_fi at_other : Head

unfoldable pub head_of : List PhysicalLine → Head
unfolding first_word trim_space text_eq
head_of [] = no_line
head_of (l ∷ ls) =
    let head = first_word (trim_space l.text) in
    if text_eq head (codes "elif")
    then at_elif
    else if text_eq head (codes "else")
    then at_else
    else if text_eq head (codes "fi")
    then at_fi
    else at_other

-- The name of `function NAME`.
unfoldable pub keyword_name : Text → Text
unfolding trim_space trim_prefix index_any
keyword_name text =
    let rest = trim_space (trim_prefix (trim_space text) (codes "function")) in
    elim (index_any rest (codes "({ ")) [ none ↦ rest | some i ↦ trim_space (take i rest) ]

-- The name of `name()`.
unfoldable pub parens_name : Text → Text
unfolding trim_space index_text
parens_name text =
    let header = trim_space text in
    elim (index_text header (codes "(")) [ none ↦ header | some i ↦ trim_space (take i header) ]

-- A statement, and the rest of the block.
unfoldable pub and_statement : Statement → Read Statements → Read Statements
unfolding and_read
and_statement st r = and_read r (λ sts rest. some (also st sts, rest))

-- The body of a loop, whose closing keyword is skipped.
unfoldable pub and_close : Text → Read Statements → Read Statements
unfolding and_read skip_keyword_line
and_close closing r = and_read r (λ body rest. some (body, skip_keyword_line closing rest))

-- What parseBlock and parseIf's loop do in a round, with the readers that they call.
module _ (block : List PhysicalLine → List Text → Read Statements) where
  -- What follows the body of a branch, with the loop's next round.
  unfoldable pub after_body :
      (IfSoFar → List PhysicalLine → Read Statement)
      → IfSoFar
      → Head
      → List PhysicalLine
      → Read Statement
  unfolding and_read cond_of next_branch skip_keyword_line
  after_body again c no_line lines = some (cond_of c, lines)
  after_body again c at_elif [] = some (cond_of c, [])
  after_body again c at_elif (m ∷ ms) = again (next_branch m c) ms
  after_body again c at_else lines =
      and_read (block (skip_keyword_line (codes "else") lines) (codes "fi" ∷ []))
        (λ body rest. again (record c { otherwise = body }) rest)
  after_body again c at_fi lines = some (cond_of c, skip_keyword_line (codes "fi") lines)
  after_body again c at_other lines = some (cond_of c, lines)

  -- The body of a loop, between its keywords.
  unfoldable pub read_loop : List PhysicalLine → Read Statements
  unfolding and_close skip_keyword_line
  read_loop ls =
      and_close (codes "done") (block (skip_keyword_line (codes "do") ls) (codes "done" ∷ []))

  -- The body of a function.
  unfoldable pub read_braces : List PhysicalLine → Read Statements
  unfolding and_read skip_brace
  read_braces ls =
      and_read (block (skip_brace (codes "{") ls) (codes "}" ∷ []))
        (λ body rest. some (body, skip_brace (codes "}") rest))

  -- What parseBlock does with a line of each kind.
  unfoldable pub read_line :
      (IfSoFar → List PhysicalLine → Read Statement)
      → (List PhysicalLine → Read Arms)
      → LineKind
      → PhysicalLine
      → List PhysicalLine
      → List Text
      → Read Statements
  unfolding and_read and_statement read_loop read_braces trim_space consume_until_keyword
      parse_for_header case_word keyword_name parens_name start_if parse_statement_line
  read_line ifs arms empty l ls terms = block ls terms
  read_line ifs arms terminator l ls terms = some (done, l ∷ ls)
  read_line ifs arms remark l ls terms =
      and_statement (comment l.line (trim_space l.text)) (block ls terms)
  read_line ifs arms opens_if l ls terms =
      and_read (ifs (start_if l) ls) (λ st rest. and_statement st (block rest terms))
  read_line ifs arms opens_for l ls terms = and_read (read_loop ls) (λ body rest.
      and_statement (loop_for l.line (parse_for_header l.text).0 (parse_for_header l.text).1 body)
        (block rest terms))
  read_line ifs arms opens_while l ls terms = and_read (read_loop ls) (λ body rest.
      and_statement (loop_while l.line (consume_until_keyword l (codes "while") (codes "do")) body)
        (block rest terms))
  read_line ifs arms opens_case l ls terms =
      and_read (arms ls)
        (λ read rest. and_statement (case_of l.line (case_word l.text) read) (block rest terms))
  read_line ifs arms opens_function l ls terms =
      and_read (read_braces ls)
        (λ body rest. and_statement (func_def l.line (keyword_name l.text) body) (block rest terms))
  read_line ifs arms opens_parens l ls terms =
      and_read (read_braces ls)
        (λ body rest. and_statement (func_def l.line (parens_name l.text) body) (block rest terms))
  read_line ifs arms (unsupported reason) l ls terms =
      and_statement (unknown l.line reason (trim_space l.text)) (block ls terms)
  read_line ifs arms plain l ls terms =
      and_statement (parse_statement_line (trim_space l.text) l.line) (block ls terms)

unfoldable mutual
  unfolding and_read after_body read_line kind_of trim_space skip_keyword_line read_arms cond_of
      head_of

  -- parseBlock, from the first line that is left; the terminator's line is left too.
  pub parse_block : ℕ → List PhysicalLine → List Text → Read Statements
  parse_block zero lines terms = none
  parse_block (suc n) [] terms = some (done, [])
  parse_block (suc n) (l ∷ ls) terms =
      read_line (parse_block n) (parse_if n) (read_arms n) (kind_of (trim_space l.text) terms) l ls
        terms

  -- The loop of parseIf.
  pub parse_if : ℕ → IfSoFar → List PhysicalLine → Read Statement
  parse_if zero c lines = none
  parse_if (suc n) c [] = some (cond_of c, [])
  parse_if (suc n) c (l ∷ ls) =
      and_read
        (parse_block n (skip_keyword_line (codes "then") (l ∷ ls))
          (codes "elif" ∷ codes "else" ∷ codes "fi" ∷ []))
        (λ body lines.
          after_body (parse_block n) (parse_if n) (record c { body = body }) (head_of lines) lines)

-- ReadBash
unfoldable pub read_bash : Text → Option Statements
unfolding lex_lines parse_block
read_bash src =
    let lines = lex_lines src in
    elim (parse_block (suc (2 * length lines)) lines []) [ none ↦ none | some p ↦ some p.0 ]
