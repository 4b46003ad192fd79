-- ===== src/Parser/Grammar.antt =====
-- What Parse makes of the tokens of a pipeline.
use aish.Prelude.{
  ◌≡◌, refl, ap, ◌∙◌, sym, Bool, true, false, List, [], ◌∷◌, ◌++◌, if◌then◌else◌, Text, All,
  append-nil, append_assoc, map,
}
use aish.Parser.{
  ok, Token, word, pipe, amp, and_then, Command, peel, keep_token, split, finish, commands_of,
  command, parse_tokens, parse_peeled,
}

abbrev pub words : Command → List Text
words c = c.name ∷ c.args

unfoldable pub rest_tokens : List Command → List Token
rest_tokens [] = []
rest_tokens (c ∷ cs) = pipe ∷ (map word (words c) ++ rest_tokens cs)

abbrev pub background_tokens : Bool → List Token
background_tokens background = if background then amp ∷ [] else []

-- The tokens of a pipeline whose first command is `c`.
abbrev pub pipeline_tokens : Command → List Command → Bool → List Token
pipeline_tokens c cs background =
    map word (words c) ++ (rest_tokens cs ++ background_tokens background)

abbrev pub Untainted : Command → Type 0
Untainted c = c.tainted ≡ false

peel_words :
    (ws : List Text) (ts us : List Token) (b : Bool)
    → peel ts ≡ ok (us, b)
    → peel (map word ws ++ ts) ≡ ok (map word ws ++ us, b)
unfolding peel and_then keep_token
peel_words [] ts us b h = h
peel_words (w ∷ ws) ts us b h = ap (λ r. and_then r (keep_token (word w))) (peel_words ws ts us b h)

peel_rest :
    (cs : List Command) (b : Bool)
    → peel (rest_tokens cs ++ background_tokens b) ≡ ok (rest_tokens cs, b)
unfolding rest_tokens peel and_then keep_token
peel_rest [] true = refl
peel_rest [] false = refl
peel_rest (c ∷ cs) b =
    ap (λ ts. and_then (peel ts) (keep_token pipe))
      (append_assoc (map word (words c)) (rest_tokens cs) (background_tokens b))
    ∙ ap (λ r. and_then r (keep_token pipe))
        (peel_words (words c) (rest_tokens cs ++ background_tokens b) (rest_tokens cs) b
          (peel_rest cs b))

split_words :
    (ws vs : List Text) (stages : List (List Text)) (saw : Bool) (ts : List Token)
    → split (record { stages = stages; current = vs; saw_any_stage = saw }) (map word ws ++ ts)
      ≡ split (record { stages = stages; current = vs ++ ws; saw_any_stage = saw }) ts
unfolding split
split_words [] vs stages saw ts =
    ap (λ c. split (record { stages = stages; current = c; saw_any_stage = saw }) ts)
      (sym (append-nil vs))
split_words (w ∷ ws) vs stages saw ts =
    split_words ws (vs ++ w ∷ []) stages saw ts
    ∙ ap (λ c. split (record { stages = stages; current = c; saw_any_stage = saw }) ts)
        (append_assoc vs (w ∷ []) ws)

commands_of-words : (cs : List Command) → All Untainted cs → commands_of (map words cs) ≡ ok cs
unfolding commands_of and_then
commands_of-words [] h = refl
commands_of-words (c ∷ cs) h =
    ap (λ r. and_then r (λ l. ok (command c.name c.args ∷ l))) (commands_of-words cs h.1)
    ∙ ap (λ b. ok (record { name = c.name; args = c.args; tainted = b } ∷ cs)) (sym h.0)

map-append : (cs ds : List Command) → map words (cs ++ ds) ≡ map words cs ++ map words ds
map-append [] ds = refl
map-append (c ∷ cs) ds = ap (λ l. words c ∷ l) (map-append cs ds)

split_rest :
    (ds : List Command) (c : Command) (cs : List Command) (saw b : Bool)
    → All Untainted (ds ++ c ∷ cs)
    → and_then
        (split
          (record { stages = map words ds; current = words c; saw_any_stage = saw })
          (rest_tokens cs))
        (finish b)
      ≡ ok (record { commands = ds ++ c ∷ cs; background = b; tainted = false })
unfolding rest_tokens split and_then finish
split_rest ds c [] saw b h =
    let parsed : commands_of (map words ds ++ words c ∷ []) ≡ ok (ds ++ c ∷ []) =
      ap commands_of (sym (map-append ds (c ∷ []))) ∙ commands_of-words (ds ++ c ∷ []) h in
    rw parsed refl
split_rest ds c (d ∷ cs) saw b h =
    let moved : (ds ++ c ∷ []) ++ d ∷ cs ≡ ds ++ c ∷ d ∷ cs = append_assoc ds (c ∷ []) (d ∷ cs) in
    ap (λ r. and_then r (finish b))
      (ap
          (λ l.
            split (record { stages = l; current = []; saw_any_stage = true })
              (map word (words d) ++ rest_tokens cs))
          (sym (map-append ds (c ∷ [])))
        ∙ split_words (words d) [] (map words (ds ++ c ∷ [])) true (rest_tokens cs))
    ∙ split_rest (ds ++ c ∷ []) d cs true b (rw moved h)
    ∙ ap (λ l. ok (record { commands = l; background = b; tainted = false })) moved

-- The tokens of a pipeline are read as that pipeline.
pub parse_pipeline_tokens :
    (c : Command) (cs : List Command) (b : Bool)
    → All Untainted (c ∷ cs)
    → parse_tokens (pipeline_tokens c cs b)
      ≡ ok (record { commands = c ∷ cs; background = b; tainted = false })
unfolding parse_tokens and_then parse_peeled
parse_pipeline_tokens c cs b h =
    ap (λ r. and_then r parse_peeled)
      (peel_words (words c) (rest_tokens cs ++ background_tokens b) (rest_tokens cs) b
        (peel_rest cs b))
    ∙ ap (λ r. and_then r (finish b)) (split_words (words c) [] [] false (rest_tokens cs))
    ∙ split_rest [] c cs false b h
