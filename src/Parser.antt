-- ===== src/Parser.antt =====
-- shell/internal/parser/parser.go: from a line to a pipeline of commands.
pub mod Tokens
pub mod Grammar
pub mod Print
pub mod Sound
pub mod Braces
pub mod Substitution
pub mod Expand
mod Tests
use aish.Prelude.{
  ℕ, zero, suc, Bool, true, false, Option, none, some, List, [], ◌∷◌, ◌++◌, ◌==◌, if◌then◌else◌,
  take, Text, Rune, ◌||◌, ◌&&◌, not,
}

pub record Command : Type 0 where
  pub name : Text
  pub args : List Text
  pub tainted : Bool

pub record Pipeline : Type 0 where
  pub commands : List Command
  pub background : Bool
  pub tainted : Bool

-- The errors, one for each message of the code.
pub data ParseError : Type 0 where
  unterminated_single unterminated_double mid_line_amp empty_stage amp_without_command : ParseError

-- A result, an error, or an index out of range.
pub data Result {ℓ} (A : Type ℓ) : Type ℓ where
  ok : A → Result A
  err : ParseError → Result A
  panic : Result A

unfoldable pub and_then {ℓ κ} : {A : Type ℓ} {B : Type κ} → Result A → (A → Result B) → Result B
and_then (ok a) f = f a
and_then (err e) f = err e
and_then panic f = panic

pub data Token : Type 0 where
  word : Text → Token
  pipe amp : Token

-- The cases of tokenize's switch.
pub data RuneClass : Type 0 where
  single double bar ampersand blank other : RuneClass

unfoldable pub classify : Rune → RuneClass
classify r =
    if r == b'\''
    then single
    else if r == b'"'
    then double
    else if r == b'|'
    then bar
    else if r == b'&'
    then ampersand
    else if r == b' ' || r == b'\t' || r == b'\n' || r == b'\r'
    then blank
    else other

-- The loops that look for the closing quote: the index of the first `q`.
unfoldable pub index_of : Rune → Text → Option ℕ
index_of q [] = none
index_of q (r ∷ rs) =
    if r == q then some 0 else elim (index_of q rs) [ none ↦ none | some k ↦ some (suc k) ]

-- flush
abbrev pub flush : Bool → Text → List Token
flush in_word current = if in_word then word current ∷ [] else []

unfoldable pub emit : List Token → Result (List Token) → Result (List Token)
unfolding and_then
emit ts r = and_then r (λ later. ok (ts ++ later))

-- The main loop, on the runes from index `i` on; the first number counts the runes that `i = end`
-- skips. The word so far is empty while `in_word` is false.
unfoldable pub tokens_from : ℕ → Bool → Text → Text → Result (List Token)
unfolding classify index_of emit
tokens_from skip in_word current [] = ok (flush in_word current)
tokens_from (suc skip) in_word current (r ∷ rs) = tokens_from skip in_word current rs
tokens_from zero in_word current (r ∷ rs) = elim (classify r) [
  | single ↦ elim (index_of b'\'' rs) [
    | none ↦ err unterminated_single
    | some k ↦ tokens_from (suc k) true (current ++ take k rs) rs
  ]
  | double ↦ elim (index_of b'"' rs) [
    | none ↦ err unterminated_double
    | some k ↦ tokens_from (suc k) true (current ++ take k rs) rs
  ]
  | bar ↦ emit (flush in_word current ++ pipe ∷ []) (tokens_from 0 false [] rs)
  | ampersand ↦ emit (flush in_word current ++ amp ∷ []) (tokens_from 0 false [] rs)
  | blank ↦ emit (flush in_word current) (tokens_from 0 false [] rs)
  | other ↦ tokens_from 0 true (current ++ r ∷ []) rs
]

unfoldable pub tokenize : Text → Result (List Token)
unfolding tokens_from
tokenize input = tokens_from 0 false [] input

keep_token : Token → List Token × Bool → Result (List Token × Bool)
keep_token t (ts, background) = ok (t ∷ ts, background)

-- The loop that takes off the trailing `&`; only the last token may be one.
unfoldable pub peel : List Token → Result (List Token × Bool)
unfolding and_then keep_token
peel [] = ok ([], false)
peel (amp ∷ []) = ok ([], true)
peel (amp ∷ t ∷ ts) = err mid_line_amp
peel (word w ∷ ts) = and_then (peel ts) (keep_token (word w))
peel (pipe ∷ ts) = and_then (peel ts) (keep_token pipe)

-- The variables of the loop that splits on `|`.
pub record Split : Type 0 where
  pub stages : List (List Text)
  pub current : List Text
  pub saw_any_stage : Bool

unfoldable pub split : Split → List Token → Result Split
split s [] = ok s
split s (word w ∷ ts) = split (record s { current = s.current ++ w ∷ [] }) ts
split s (amp ∷ ts) = split (record s { current = s.current ++ [] ∷ [] }) ts
split s (pipe ∷ ts) = elim s.current [
  | [] ↦ err empty_stage
  | v ∷ vs ↦
      split (record { stages = s.stages ++ (v ∷ vs) ∷ []; current = []; saw_any_stage = true }) ts
]

abbrev pub command : Text → List Text → Command
command name args = record { name = name; args = args; tainted = false }

-- `stage[0]` and `stage[1:]`
unfoldable pub commands_of : List (List Text) → Result (List Command)
unfolding and_then
commands_of [] = ok []
commands_of ([] ∷ stages) = panic
commands_of ((name ∷ args) ∷ stages) =
    and_then (commands_of stages) (λ cs. ok (command name args ∷ cs))

abbrev pub empty_pipeline : Pipeline
empty_pipeline = record { commands = []; background = false; tainted = false }

-- What follows the loop.
unfoldable pub finish : Bool → Split → Result Pipeline
unfolding and_then commands_of
finish background s = elim s.current [
  | [] ↦
      if s.saw_any_stage
      then err empty_stage
      else if background
      then err amp_without_command
      else ok empty_pipeline
  | v ∷ vs ↦
      and_then (commands_of (s.stages ++ (v ∷ vs) ∷ []))
        (λ cs. ok (record { commands = cs; background = background; tainted = false }))
]

abbrev pub start : Split
start = record { stages = []; current = []; saw_any_stage = false }

parse_peeled : List Token × Bool → Result Pipeline
unfolding and_then split finish
parse_peeled (ts, background) = and_then (split start ts) (finish background)

unfoldable pub parse_tokens : List Token → Result Pipeline
unfolding and_then peel parse_peeled
parse_tokens [] = ok empty_pipeline
parse_tokens (t ∷ ts) = and_then (peel (t ∷ ts)) parse_peeled

-- Parse
unfoldable pub parse : Text → Result Pipeline
unfolding and_then tokenize parse_tokens
parse input = and_then (tokenize input) parse_tokens
