-- ===== src/Parser/Sound/Accepts.antt =====
-- What Parse returns on any line, with what that says of the tokens of the line.
use aish.Prelude.{
  ◌≡◌, ◌≢◌, refl, ap, ◌∙◌, sym, Bool, true, false, ◌⊎◌, inl, inr, List, [], ◌∷◌, ◌++◌, Option, none,
  some, arith, Text, Rune, All, ℕ, zero, suc, append_assoc, map, take,
}
use aish.Parser.{
  Result, ok, err, panic, Token, word, pipe, amp, and_then, Command, Pipeline, Split, peel, split,
  finish, command, start, parse_tokens, parse_peeled, empty_pipeline, parse, tokenize, tokens_from,
  classify, index_of, emit, flush, RuneClass, single, double, bar, ampersand, blank, other,
  ParseError, unterminated_single, unterminated_double,
}
use aish.Parser.Grammar.{
  words, rest_tokens, background_tokens, pipeline_tokens, Untainted, parse_pipeline_tokens,
}
use aish.Parser.Sound.{
  Peeled, peel-Peeled, stage_tokens, read, Reading, Splits, split-Splits, commands,
}

-- The pipeline whose tokens `ts` are: one without commands, or one with a first command.
abbrev pub Reads : List Token → Pipeline → Type 0
Reads ts p =
    ((ts ≡ []) × (p ≡ empty_pipeline))
    ⊎ ((c : Command) × (cs : List Command) × (ts ≡ pipeline_tokens c cs p.background)
        × (p ≡ record { commands = c ∷ cs; background = p.background; tainted = false }))

abbrev pub Accepts : List Token → Result Pipeline → Type 0
Accepts ts (ok p) = Reads ts p
Accepts ts (err e) = Unit {0}
Accepts ts panic = ⊥

finish_words :
    (b : Bool) (stages : List (List Text)) (v : Text) (vs : List Text) (saw : Bool)
    → let s : Split = record { stages = stages; current = v ∷ vs; saw_any_stage = saw } in
      Reading s → Accepts (read s ++ background_tokens b) (finish b s)
unfolding finish and_then
finish_words b stages v vs saw r =
    let c = commands stages v vs r.has_words in
    rw c.parsed (
      inr (
        c.first,
        c.others,
        ap (λ l. l ++ background_tokens b) c.tokens_are
            ∙ append_assoc (map word (words c.first)) (rest_tokens c.others) (background_tokens b),
        refl,
      ))

finish-Accepts :
    (b : Bool) (stages : List (List Text)) (current : List Text) (saw : Bool)
    → let s : Split = record { stages = stages; current = current; saw_any_stage = saw } in
      Reading s → Accepts (read s ++ background_tokens b) (finish b s)
unfolding finish stage_tokens
finish-Accepts b stages (v ∷ vs) saw r = finish_words b stages v vs saw r
finish-Accepts b stages [] true r = tt
finish-Accepts true stages [] false r = tt
finish-Accepts false stages [] false r = elim r.saw [
  | inl e ↦ absurd (ground (arith, e))
  | inr e ↦ inl (ap (λ l. (stage_tokens l ++ []) ++ []) e, refl)
]

after_split :
    (b : Bool) (us ts : List Token) (r : Result Split)
    → ts ≡ us ++ background_tokens b
    → Splits us r
    → Accepts ts (and_then r (finish b))
unfolding and_then
after_split b us ts (ok s) e h = rw (e ∙ ap (λ l. l ++ background_tokens b) h.0) (
    finish-Accepts b s.stages s.current s.saw_any_stage
      (record { has_words = h.1.has_words; saw = h.1.saw }))
after_split b us ts (err x) e h = tt
after_split b us ts panic e h = h

after_peel :
    (ts : List Token) (r : Result (List Token × Bool))
    → Peeled ts r
    → Accepts ts (and_then r parse_peeled)
unfolding and_then parse_peeled stage_tokens
after_peel ts (ok (us, b)) h =
    after_split b us ts (split start us) h.0
      (split-Splits us [] [] false us h.1 refl (record { has_words = tt; saw = inr refl }))
after_peel ts (err e) h = tt
after_peel ts panic h = h

parse_tokens-Accepts : (ts : List Token) → Accepts ts (parse_tokens ts)
unfolding parse_tokens
parse_tokens-Accepts [] = inl (refl, refl)
parse_tokens-Accepts (t ∷ ts) = after_peel (t ∷ ts) (peel (t ∷ ts)) (peel-Peeled (t ∷ ts))

abbrev Total : Result (List Token) → Type 0
Total panic = ⊥
Total _ = Unit {0}

emit-Total : (ts : List Token) (r : Result (List Token)) → Total r → Total (emit ts r)
unfolding emit and_then
emit-Total ts (ok us) h = tt
emit-Total ts (err e) h = tt
emit-Total ts panic h = h

module _ (r : Rune) (rs : Text) (in_word : Bool) (current : Text)
    (later : (skip : ℕ) (w : Bool) (c : Text) → Total (tokens_from skip w c rs)) where
  quote-Total :
      (e : ParseError) (o : Option ℕ)
      → Total
          (elim o [ none ↦ err e | some k ↦ tokens_from (suc k) true (current ++ take k rs) rs ])
  quote-Total e none = tt
  quote-Total e (some k) = later (suc k) true (current ++ take k rs)

  class-Total :
      (k : RuneClass)
      → Total (elim k [
        | single ↦ elim (index_of b'\'' rs) [
          | none ↦ err unterminated_single
          | some n ↦ tokens_from (suc n) true (current ++ take n rs) rs
        ]
        | double ↦ elim (index_of b'"' rs) [
          | none ↦ err unterminated_double
          | some n ↦ tokens_from (suc n) true (current ++ take n rs) rs
        ]
        | bar ↦ emit (flush in_word current ++ pipe ∷ []) (tokens_from 0 false [] rs)
        | ampersand ↦ emit (flush in_word current ++ amp ∷ []) (tokens_from 0 false [] rs)
        | blank ↦ emit (flush in_word current) (tokens_from 0 false [] rs)
        | other ↦ tokens_from 0 true (current ++ r ∷ []) rs
      ])
  class-Total single = quote-Total unterminated_single (index_of b'\'' rs)
  class-Total double = quote-Total unterminated_double (index_of b'"' rs)
  class-Total bar =
      emit-Total (flush in_word current ++ pipe ∷ []) (tokens_from 0 false [] rs) (later 0 false [])
  class-Total ampersand =
      emit-Total (flush in_word current ++ amp ∷ []) (tokens_from 0 false [] rs) (later 0 false [])
  class-Total blank =
      emit-Total (flush in_word current) (tokens_from 0 false [] rs) (later 0 false [])
  class-Total other = later 0 true (current ++ r ∷ [])

tokens_from-Total :
    (rs : Text) (skip : ℕ) (in_word : Bool) (current : Text)
    → Total (tokens_from skip in_word current rs)
unfolding tokens_from
tokens_from-Total [] skip in_word current = tt
tokens_from-Total (r ∷ rs) (suc skip) in_word current = tokens_from-Total rs skip in_word current
tokens_from-Total (r ∷ rs) zero in_word current =
    class-Total r rs in_word current (tokens_from-Total rs) (classify r)

abbrev pub NoPipeline : List Token → Type 0
NoPipeline ts =
    (ts ≢ []) × ((c : Command) (cs : List Command) (b : Bool) → ts ≢ pipeline_tokens c cs b)

-- What a result of Parse says of the tokens of the line.
abbrev pub Parsed : Text → Result Pipeline → Type 0
Parsed input (ok p) = (ts : List Token) × (tokenize input ≡ ok ts) × Reads ts p
Parsed input (err e) =
    (tokenize input ≡ err e) ⊎ ((ts : List Token) × (tokenize input ≡ ok ts) × NoPipeline ts)
Parsed input panic = ⊥

abbrev untaint : Command → Command
untaint c = command c.name c.args

rest_tokens-untaint : (cs : List Command) → rest_tokens (map untaint cs) ≡ rest_tokens cs
unfolding rest_tokens
rest_tokens-untaint [] = refl
rest_tokens-untaint (c ∷ cs) = ap (λ l. pipe ∷ (map word (words c) ++ l)) (rest_tokens-untaint cs)

Untainted-untaint : (cs : List Command) → All Untainted (map untaint cs)
Untainted-untaint [] = tt
Untainted-untaint (c ∷ cs) = (refl, Untainted-untaint cs)

parse_any :
    (c : Command) (cs : List Command) (b : Bool)
    → parse_tokens (pipeline_tokens c cs b)
      ≡ ok (record { commands = untaint c ∷ map untaint cs; background = b; tainted = false })
parse_any c cs b =
    ap (λ l. parse_tokens (map word (words c) ++ (l ++ background_tokens b)))
      (sym (rest_tokens-untaint cs))
    ∙ parse_pipeline_tokens (untaint c) (map untaint cs) b (refl, Untainted-untaint cs)

refused : (ts : List Token) (e : ParseError) → parse_tokens ts ≡ err e → NoPipeline ts
refused ts e h = (
  λ p. (unfold parse_tokens in ground (arith, sym h ∙ ap parse_tokens p)),
  λ c cs b p. ground (arith, sym h ∙ ap parse_tokens p ∙ parse_any c cs b),
)

from_tokens :
    (input : Text) (ts : List Token) (r : Result Pipeline)
    → tokenize input ≡ ok ts
    → parse_tokens ts ≡ r
    → Accepts ts r
    → Parsed input r
from_tokens input ts (ok p) t e h = (ts, t, h)
from_tokens input ts (err x) t e h = inr (ts, t, refused ts x e)
from_tokens input ts panic t e h = h

from_result :
    (input : Text) (r : Result (List Token))
    → tokenize input ≡ r
    → Total r
    → Parsed input (and_then r parse_tokens)
unfolding and_then
from_result input (ok ts) e h =
    from_tokens input ts (parse_tokens ts) e refl (parse_tokens-Accepts ts)
from_result input (err x) e h = inl e
from_result input panic e h = h

-- Parse on any line: it indexes no empty stage; if it returns a pipeline, the tokens of the line
-- are exactly those of the pipeline's commands with `|` between them and `&` at the end if it
-- runs in the background, or none for the pipeline without commands; if it returns an error, the
-- line has no tokens for an open quote, or they are those of no pipeline.
pub parse_lem : (input : Text) → Parsed input (parse input)
unfolding parse tokenize
parse_lem input = from_result input (tokenize input) refl (tokens_from-Total input 0 false [])
