-- ===== src/Parser/Sound.antt =====
-- Parse accepts nothing but the tokens of a pipeline, and indexes no empty stage.
pub mod Accepts
use aish.Prelude.{
  ◌≡◌, ◌≢◌, refl, ap, ◌∙◌, sym, Bool, true, false, ◌⊎◌, inl, inr, List, [], ◌∷◌, ◌++◌,
  if◌then◌else◌, arith, Text, All, All-append, append-nil, append_assoc, map,
}
use aish.Parser.{
  Result, ok, err, panic, Token, word, pipe, amp, and_then, Command, Pipeline, Split, peel,
  keep_token, split, finish, commands_of, command, start, parse_tokens, parse_peeled,
  empty_pipeline, parse, tokenize, tokens_from, classify, index_of, emit, RuneClass, single, double,
  bar, ampersand, blank, other, ParseError,
}
use aish.Parser.Grammar.{words, rest_tokens, background_tokens, pipeline_tokens, Untainted}

abbrev pub IsAmp : Token → Type 0
IsAmp amp = Unit {0}
IsAmp _ = ⊥

abbrev pub NoAmp : List Token → Type 0
NoAmp = All (λ t. IsAmp t → ⊥)

abbrev pub Peeled : List Token → Result (List Token × Bool) → Type 0
Peeled ts (ok (us, b)) = (ts ≡ us ++ background_tokens b) × NoAmp us
Peeled ts (err e) = Unit {0}
Peeled ts panic = ⊥

keep-Peeled :
    (t : Token) (ts : List Token) (r : Result (List Token × Bool))
    → (IsAmp t → ⊥)
    → Peeled ts r
    → Peeled (t ∷ ts) (and_then r (keep_token t))
unfolding and_then keep_token
keep-Peeled t ts (ok (us, b)) h p = (ap (λ l. t ∷ l) p.0, (h, p.1))
keep-Peeled t ts (err e) h p = tt
keep-Peeled t ts panic h p = p

pub peel-Peeled : (ts : List Token) → Peeled ts (peel ts)
unfolding peel
peel-Peeled [] = (refl, tt)
peel-Peeled (amp ∷ []) = (refl, tt)
peel-Peeled (amp ∷ t ∷ ts) = tt
peel-Peeled (word w ∷ ts) = keep-Peeled (word w) ts (peel ts) (λ h. h) (peel-Peeled ts)
peel-Peeled (pipe ∷ ts) = keep-Peeled pipe ts (peel ts) (λ h. h) (peel-Peeled ts)

abbrev pub HasWord : List Text → Type 0
HasWord [] = ⊥
HasWord (v ∷ vs) = Unit {0}

unfoldable pub stage_tokens : List (List Text) → List Token
stage_tokens [] = []
stage_tokens (v ∷ vs) = map word v ++ pipe ∷ stage_tokens vs

stage_tokens_last :
    (vs : List (List Text)) (v : List Text)
    → stage_tokens (vs ++ v ∷ []) ≡ stage_tokens vs ++ (map word v ++ pipe ∷ [])
unfolding stage_tokens
stage_tokens_last [] v = refl
stage_tokens_last (w ∷ vs) v =
    ap (λ l. map word w ++ pipe ∷ l) (stage_tokens_last vs v)
    ∙ sym (append_assoc (map word w) (pipe ∷ stage_tokens vs) (map word v ++ pipe ∷ []))

map_word_append : (vs ws : List Text) → map word (vs ++ ws) ≡ map word vs ++ map word ws
map_word_append [] ws = refl
map_word_append (v ∷ vs) ws = ap (λ l. word v ∷ l) (map_word_append vs ws)

-- The tokens that the loop has read.
abbrev pub read : Split → List Token
read s = stage_tokens s.stages ++ map word s.current

pub record Reading (s : Split) : Type 0 where
  pub has_words : All HasWord s.stages
  pub saw : (s.saw_any_stage ≡ true) ⊎ (s.stages ≡ [])

abbrev pub Splits : List Token → Result Split → Type 0
Splits ts (ok s) = (ts ≡ read s) × Reading s
Splits ts (err e) = Unit {0}
Splits ts panic = ⊥

moved_word :
    (l : List Token) (vs : List Text) (w : Text) (ts : List Token)
    → (l ++ map word vs) ++ word w ∷ ts ≡ (l ++ map word (vs ++ w ∷ [])) ++ ts
moved_word l vs w ts =
    sym (append_assoc (l ++ map word vs) (word w ∷ []) ts)
    ∙ ap (λ k. k ++ ts)
        (append_assoc l (map word vs) (word w ∷ [])
          ∙ ap (λ k. l ++ k) (sym (map_word_append vs (w ∷ []))))

moved_pipe :
    (stages : List (List Text)) (v : List Text) (ts : List Token)
    → (stage_tokens stages ++ map word v) ++ pipe ∷ ts
      ≡ (stage_tokens (stages ++ v ∷ []) ++ []) ++ ts
moved_pipe stages v ts =
    sym (append_assoc (stage_tokens stages ++ map word v) (pipe ∷ []) ts)
    ∙ ap (λ k. k ++ ts)
        (append_assoc (stage_tokens stages) (map word v) (pipe ∷ [])
          ∙ sym (stage_tokens_last stages v)
          ∙ sym (append-nil (stage_tokens (stages ++ v ∷ []))))

pub split-Splits :
    (ts : List Token) (stages : List (List Text)) (current : List Text) (saw : Bool)
    (all : List Token)
    → NoAmp ts
    → let s : Split = record { stages = stages; current = current; saw_any_stage = saw } in
      all ≡ read s ++ ts → Reading s → Splits all (split s ts)
unfolding split
split-Splits [] stages current saw all n e r =
    (e ∙ append-nil (stage_tokens stages ++ map word current), r)
split-Splits (amp ∷ ts) stages current saw all n e r = absurd (n.0 tt)
split-Splits (word w ∷ ts) stages current saw all n e r =
    split-Splits ts stages (current ++ w ∷ []) saw all n.1
      (e ∙ moved_word (stage_tokens stages) current w ts)
      (record { has_words = r.has_words; saw = r.saw })
split-Splits (pipe ∷ ts) stages [] saw all n e r = tt
split-Splits (pipe ∷ ts) stages (v ∷ vs) saw all n e r =
    split-Splits ts (stages ++ (v ∷ vs) ∷ []) [] true all n.1 (e ∙ moved_pipe stages (v ∷ vs) ts)
      (record {
        has_words = All-append HasWord stages ((v ∷ vs) ∷ []) r.has_words (tt, tt);
        saw = inl refl;
      })

pub record Commands (stages : List (List Text)) (current : List Text) : Type 0 where
  pub first : Command
  pub others : List Command
  pub parsed : commands_of (stages ++ current ∷ []) ≡ ok (first ∷ others)
  pub tokens_are :
      stage_tokens stages ++ map word current ≡ map word (words first) ++ rest_tokens others
  pub untainted : All Untainted (first ∷ others)

pub commands :
    (stages : List (List Text)) (v : Text) (vs : List Text)
    → All HasWord stages
    → Commands stages (v ∷ vs)
unfolding stage_tokens commands_of rest_tokens and_then
commands [] v vs h = record {
  first = command v vs;
  others = [];
  parsed = refl;
  tokens_are = sym (append-nil (map word (v ∷ vs)));
  untainted = (refl, tt);
}
commands ([] ∷ stages) v vs h = absurd h.0
commands ((w ∷ ws) ∷ stages) v vs h =
    let rest = commands stages v vs h.1 in
    record {
      first = command w ws;
      others = rest.first ∷ rest.others;
      parsed = ap (λ r. and_then r (λ cs. ok (command w ws ∷ cs))) rest.parsed;
      tokens_are =
          append_assoc (map word (w ∷ ws)) (pipe ∷ stage_tokens stages) (map word (v ∷ vs))
          ∙ ap (λ l. map word (w ∷ ws) ++ pipe ∷ l) rest.tokens_are;
      untainted = (refl, rest.untainted);
    }
