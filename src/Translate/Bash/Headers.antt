-- ===== src/Translate/Bash/Headers.antt =====
-- shell/internal/translate/reader/bash.go: logical lines, and the headers of blocks. The rest of
-- the slice of lines, from an index on, is a list.
use aish.Prelude.{
  ℕ, ◌+◌, Bool, true, false, ◌||◌, inl, inr, none, some, List, [], ◌∷◌, ◌++◌, ◌==◌, if◌then◌else◌,
  take, drop, reverse, Text, Rune, codes, has_prefix, has_suffix, trim_prefix, trim_suffix,
  index_text, last_index_text, text_eq, trim_space, trim_right_while, split_rune_at,
}
use aish.Translate.{Statement}
use aish.Translate.Bash.{BashToken, word, pipe, redir, PhysicalLine}
use aish.Translate.Bash.Tokens.{tokenize_bash}
use aish.Translate.Bash.Line.{strip_outer_quotes, parse_statement_line}

-- The backslashes at the head of a reversed line, by their number's parity.
odd_backslashes : Text → Bool
odd_backslashes [] = false
odd_backslashes (r ∷ rs) =
    let rest = odd_backslashes rs in if r == b'\\' then (if rest then false else true) else false

unfoldable pub ends_with_continuation : Text → Bool
unfolding odd_backslashes
ends_with_continuation s = odd_backslashes (reverse s)

abbrev is_cr : Rune → Bool
is_cr r = r == b'\r'

abbrev trim_cr : Text → Text
trim_cr s = trim_right_while is_cr s

abbrev drop_last : Text → Text
drop_last s = reverse (drop 1 (reverse s))

-- The loop of lexLines: the line being read, where it starts, and the number of the next one.
unfoldable pub lex_from : ℕ → Text → ℕ → List Text → List PhysicalLine
unfolding ends_with_continuation trim_right_while
lex_from start ln next [] = record { line = start; text = ln } ∷ []
lex_from start ln next (r ∷ raw) = elim (ends_with_continuation ln) [
  | true ↦ lex_from start (drop_last ln ++ b' ' ∷ trim_cr r) (next + 1) raw
  | false ↦ record { line = start; text = ln } ∷ lex_from next (trim_cr r) (next + 1) raw
]

lex_raw : List Text → List PhysicalLine
unfolding lex_from trim_right_while
lex_raw [] = []
lex_raw (r ∷ raw) = lex_from 1 (trim_cr r) 2 raw

unfoldable pub lex_lines : Text → List PhysicalLine
unfolding lex_raw split_rune_at
lex_lines src = lex_raw (split_rune_at b'\n' src)

-- skipKeywordLine
unfoldable pub skip_keyword_line : Text → List PhysicalLine → List PhysicalLine
unfolding text_eq has_prefix trim_prefix trim_space
skip_keyword_line kw [] = []
skip_keyword_line kw (l ∷ ls) =
    if text_eq (trim_space l.text) kw
    then ls
    else if has_prefix (trim_space l.text) (kw ++ codes " ")
        || has_prefix (trim_space l.text) (kw ++ codes "\t")
    then record l { text = trim_space (trim_prefix (trim_space l.text) kw) } ∷ ls
    else l ∷ ls

-- skipOpenBrace and skipCloseBrace, by the brace.
unfoldable pub skip_brace : Text → List PhysicalLine → List PhysicalLine
unfolding text_eq trim_space
skip_brace brace [] = []
skip_brace brace (l ∷ ls) = if text_eq (trim_space l.text) brace then ls else l ∷ ls

-- What consumeUntilKeyword takes of the header for the test.
unfoldable pub test_text : Text → Text → Text
unfolding last_index_text has_suffix trim_suffix trim_space
test_text header term = elim (last_index_text header (codes "; " ++ term)) [
  | some i ↦ trim_space (take i header)
  | none ↦
      if has_suffix header (codes ";" ++ term)
      then trim_space (trim_suffix header (codes ";" ++ term))
      else trim_space (trim_suffix header (codes ";"))
]

-- consumeUntilKeyword, with its one terminator; it takes exactly the line of the header.
unfoldable pub consume_until_keyword : PhysicalLine → Text → Text → Statement
unfolding test_text trim_prefix trim_space parse_statement_line
consume_until_keyword l head_kw term =
    parse_statement_line (test_text (trim_space (trim_prefix (trim_space l.text) head_kw)) term)
      l.line

-- The words of the tokens.
unfoldable pub words_of : List BashToken → List Text
words_of [] = []
words_of (word w ∷ ts) = w ∷ words_of ts
words_of (pipe ∷ ts) = words_of ts
words_of (redir op ∷ ts) = words_of ts

unfoldable pub split_words : Text → List Text
unfolding tokenize_bash words_of
split_words s = elim (tokenize_bash s) [ inl msg ↦ s ∷ [] | inr ts ↦ words_of ts ]

-- The header of parseFor without its `do`.
unfoldable pub for_header : Text → Text
unfolding last_index_text text_eq trim_space
for_header rest = elim (last_index_text rest (codes ";")) [
  | none ↦ rest
  | some i ↦
      if text_eq (trim_space (drop (i + 1) rest)) (codes "do")
        || text_eq (trim_space (drop (i + 1) rest)) []
      then trim_space (take i rest)
      else rest
]

-- The variable and the words.
unfoldable pub for_parts : Text → Text × List Text
unfolding index_text trim_space split_words
for_parts rest = elim (index_text rest (codes " in ")) [
  | none ↦ (rest, [])
  | some i ↦ (trim_space (take i rest), split_words (trim_space (drop (i + 4) rest)))
]

unfoldable pub parse_for_header : Text → Text × List Text
unfolding for_header for_parts trim_prefix trim_suffix trim_space
parse_for_header text = for_parts (
    for_header (trim_suffix (trim_space (trim_prefix (trim_space text) (codes "for"))) (codes ";")))

unfoldable pub case_word : Text → Text
unfolding index_text trim_prefix trim_space strip_outer_quotes
case_word text =
    let rest = trim_space (trim_prefix (trim_space text) (codes "case")) in
    strip_outer_quotes
      (elim (index_text rest (codes " in")) [ none ↦ rest | some i ↦ trim_space (take i rest) ])
