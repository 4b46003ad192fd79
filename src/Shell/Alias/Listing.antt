-- ===== src/Shell/Alias/Listing.antt =====
-- What `alias` prints for a name, read again by the builtin of shell/internal/shell.
use aish.Prelude.{
  ℕ, ◌≡◌, refl, ap, ◌∙◌, sym, true, false, List, [], ◌∷◌, ◌++◌, arith, append_assoc, append-nil,
  All, some, none, Text, codes, contains, has_prefix, ◌==◌,
}
use aish.Env.{split_eq}
use aish.Translate.Bash.Line.{strip_outer_quotes}
use aish.Shell.{is_blank, mark, other, split_args, split_alias_args}
use aish.Shell.Alias.{
  Aliases, AliasRun, alias_get, alias_set, alias_arg, alias_args, alias_builtin, quote_alias_value,
}

-- A rune that neither quotes nor separates.
abbrev pub NameRune : ℕ → Type 0
NameRune c =
    ((c == b'=') ≡ false) × ((c == b'\'') ≡ false) × ((c == b'"') ≡ false) × (is_blank c ≡ false)

abbrev pub NoApostrophe : ℕ → Type 0
NoApostrophe c = (c == b'\'') ≡ false

mark-name : (c : ℕ) → NameRune c → mark false false c ≡ other
unfolding mark
mark-name c h = ground arith

mark-value : (c : ℕ) → NoApostrophe c → mark true false c ≡ other
unfolding mark
mark-value c h = ground arith

split-name :
    (name b s : Text)
    → All NameRune name
    → split_args false false b (name ++ s) ≡ split_args false false (b ++ name) s
unfolding split_args
split-name [] b s h = ap (λ t. split_args false false t s) (sym (append-nil b))
split-name (c ∷ name) b s (h, hs) =
    rw (mark-name c h, split_args) (split-name name (b ++ c ∷ []) s hs)
    ∙ ap (λ t. split_args false false t s) (append_assoc b (c ∷ []) name)

split-value :
    (value b s : Text)
    → All NoApostrophe value
    → split_args true false b (value ++ s) ≡ split_args true false (b ++ value) s
unfolding split_args
split-value [] b s h = ap (λ t. split_args true false t s) (sym (append-nil b))
split-value (c ∷ value) b s (h, hs) =
    rw (mark-value c h, split_args) (split-value value (b ++ c ∷ []) s hs)
    ∙ ap (λ t. split_args true false t s) (append_assoc b (c ∷ []) value)

-- The line without its newline, after `alias `.
abbrev pub listed : Text → Text → Text
listed name value = name ++ b'=' ∷ quote_alias_value value

no_apostrophe : (value : Text) → All NoApostrophe value → contains value (codes "'") ≡ false
unfolding contains has_prefix
no_apostrophe [] h = refl
no_apostrophe (c ∷ value) (h, hs) = ground (arith, no_apostrophe value hs)

split-listed :
    (c : ℕ) (name value : Text)
    → All NameRune (c ∷ name)
    → All NoApostrophe value
    → split_alias_args (listed (c ∷ name) value) ≡ (c ∷ name ++ b'=' ∷ value) ∷ []
unfolding split_alias_args quote_alias_value
split-listed c name value h v = rw (no_apostrophe value v) (
    split-name (c ∷ name) [] (b'=' ∷ b'\'' ∷ (value ++ b'\'' ∷ [])) h
    ∙ split-value value (c ∷ name ++ b'=' ∷ []) (b'\'' ∷ []) v
    ∙ ap (λ t. (c ∷ t) ∷ []) (append_assoc name (b'=' ∷ []) value))

split_eq-name :
    (name value : Text) → All NameRune name → split_eq (name ++ b'=' ∷ value) ≡ some (name, value)
unfolding split_eq
split_eq-name [] value h = refl
split_eq-name (c ∷ name) value (h, hs) = rw (h.0, split_eq, split_eq-name name value hs)

alias_arg-name :
    (c : ℕ) (name value : Text) (r : AliasRun)
    → All NameRune (c ∷ name)
    → strip_outer_quotes value ≡ value
    → alias_arg (c ∷ name ++ b'=' ∷ value) r
      ≡ record r { aliases = alias_set (c ∷ name) value r.aliases }
unfolding alias_arg
alias_arg-name c name value r h e = rw (split_eq-name (c ∷ name) value h, alias_arg, e)

no_equals : (name : Text) → All NameRune name → split_eq name ≡ none
unfolding split_eq
no_equals [] h = refl
no_equals (c ∷ name) (h, hs) = rw (h.0, split_eq, no_equals name hs)

printed_alias :
    (sort : List Text → List Text) (c : ℕ) (name value : Text) (m : Aliases)
    → All NameRune (c ∷ name)
    → alias_get (c ∷ name) m ≡ some value
    → alias_builtin sort ((c ∷ name) ∷ []) m ≡ record {
      aliases = m;
      out = codes "alias " ++ (listed (c ∷ name) value ++ b'\n' ∷ []);
      errors = [];
      exit = 0;
    }
unfolding alias_builtin alias_args alias_arg
printed_alias sort c name value m h e =
    rw (no_equals (c ∷ name) h, alias_arg, e)
      (ap (λ t. record { aliases = m; out = codes "alias " ++ (c ∷ t); errors = []; exit = 0 })
        (sym (append_assoc name (b'=' ∷ quote_alias_value value) (b'\n' ∷ []))))

-- For a name that is an alias, `alias NAME` prints a line `alias ...` and changes nothing, and what
-- stands on that line after `alias ` defines the same alias when the builtin reads it, in any table:
-- the alias is set to that value, nothing is printed and the exit code is 0. The name has no `=`,
-- quote or blank and is not empty, and the value has no apostrophe and is not itself wrapped in
-- quotes.
pub alias_builtin-listed :
    (sort : List Text → List Text) (c : ℕ) (name value : Text) (m m' : Aliases)
    → All NameRune (c ∷ name)
    → All NoApostrophe value
    → strip_outer_quotes value ≡ value
    → alias_get (c ∷ name) m ≡ some value
    → (words : Text) × (alias_builtin sort ((c ∷ name) ∷ []) m ≡ record {
      aliases = m;
      out = codes "alias " ++ (words ++ b'\n' ∷ []);
      errors = [];
      exit = 0;
    })
      × (alias_builtin sort (split_alias_args words) m'
          ≡ record { aliases = alias_set (c ∷ name) value m'; out = []; errors = []; exit = 0 })
unfolding alias_builtin alias_args alias_arg
alias_builtin-listed sort c name value m m' h v e found = (
  listed (c ∷ name) value,
  printed_alias sort c name value m h found,
  rw (split-listed c name value h v)
      (alias_arg-name c name value (record { aliases = m'; out = []; errors = []; exit = 0 }) h e),
)
