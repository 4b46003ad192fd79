-- ===== src/Term/Tests.antt =====
-- The theorems about the line editor, applied to concrete input.
use aish.Prelude.{some, ◌≡◌, refl, arith, List, [], ◌∷◌, ◌++◌, Text, codes, Bool, if◌then◌else◌}
use aish.Term.Buffer
use aish.Term.Buffer.{Buffer, token_at_cursor}
use aish.Term.Buffer.Zip.{to_zip}
use aish.Term.Buffer.Edits.{word, apply, spec, edit_refines}
use aish.Term.Buffer.AtCursor.{spec_token, token_at_cursor_lem}
use aish.Term.History.{Source, HistoryNav, suggest}
use aish.Term.History.Ghost.{Suggests, suggest_lem}
use aish.Term.History.Walk
use aish.Term.History.Walk.{up_down_lem, ups, downs, downs-ups}
use aish.Term.Editor.{Editor, initial, read_keys, accepted}
use aish.Prelude.{text_eq}
use aish.Term.Highlight.{Tier, ai_intent, builtin}
use aish.Term.Decode.{next_key}
use aish.Term.Decode.Reads.{Agrees, joined, next_key_lem}
use aish.Term.Editor.Keys
use aish.Term.Editor.Keys.{Key, rune, enter, ctrl_r}
use aish.Term.Editor.Lines.{leaving_search_restores}

-- The cursor is after the second blank.
abbrev words : Buffer
words = record { runes = codes "git log  -p"; cursor = 9 }

words-IsValid : Buffer.IsValid words
words-IsValid = record { within = omega arith }

edit_refines_example :
    Buffer.IsValid (apply word words) × (to_zip (apply word words) ≡ spec word (to_zip words))
edit_refines_example = edit_refines word words words-IsValid

token_at_cursor_lem_example :
    token_at_cursor words ≡ spec_token (to_zip words).left (to_zip words).right
token_at_cursor_lem_example = token_at_cursor_lem words words-IsValid

abbrev entries : Source
entries = codes "git log" ∷ codes "ls" ∷ codes "git diff" ∷ []

abbrev middle : HistoryNav
middle = record { idx = 2; saved = codes "gi" }

middle-IsValid : Walk.IsValid entries middle
middle-IsValid = record { within = omega arith }

abbrev same : Text → Text
same s = s

suggest_lem_example :
    (r : Text) × (suggest entries (codes "git l") ≡ some r) × Suggests entries (codes "git l") 3 r
suggest_lem_example = suggest_lem entries b'g' (codes "it l")

abbrev two_commands : Text → Bool → Text → List Text
two_commands prefix is_first text = (prefix ++ codes "st") ∷ (prefix ++ codes "sh") ∷ []

abbrev at_prompt : Editor
at_prompt = record (initial same two_commands entries) {
  buf = record { runes = codes "make"; cursor = 4 };
}

leaving_search_restores_example :
    read_keys same two_commands entries
      (ctrl_r ∷ ((rune b'g' ∷ ctrl_r ∷ []) ++ (Keys.home ∷ enter ∷ [])))
      at_prompt
    ≡ accepted (codes "make")
leaving_search_restores_example =
    leaving_search_restores same two_commands entries at_prompt (rune b'g' ∷ ctrl_r ∷ []) Keys.home
      refl (tt, (tt, tt)) tt

next_key_lem_example :
    Agrees
      (27 ∷ b'[' ∷ b'3' ∷ b'~' ∷ b'x' ∷ [])
      (next_key (27 ∷ []) ((b'[' ∷ b'3' ∷ []) ∷ (b'~' ∷ b'x' ∷ []) ∷ []))
unfolding joined
next_key_lem_example =
    next_key_lem ((b'[' ∷ b'3' ∷ []) ∷ (b'~' ∷ b'x' ∷ []) ∷ []) 27 [] (omega arith)

abbrev resolve : Text → Tier
resolve token = if text_eq token (codes "cd") then builtin else ai_intent
