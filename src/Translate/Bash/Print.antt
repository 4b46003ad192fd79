-- ===== src/Translate/Bash/Print.antt =====
-- What the tokenizer makes of the words of a printed command.
pub mod Commands
use aish.Prelude.{
  ℕ, zero, suc, ◌+◌, ◌≡◌, refl, ap, sym, ◌∙◌, subst, Bool, true, false, not, ◌||◌, ◌&&◌, Option,
  none, some, List, [], ◌∷◌, ◌++◌, ◌==◌, if◌then◌else◌, length, take, take-length, append_assoc,
  append-nil, Text, Rune, codes, has_prefix, cut_prefix, contains_any, any_rune, replace_rune, All,
  arith, ==_iff,
}
use aish.Translate.Format.{maybe_quote}
use aish.Translate.Bash.{BashToken, word, pipe, redir}
use aish.Translate.Bash.Tokens.{
  Parsed, and_parse, emit, flush, Lexeme, double, blank, other, lexeme, double_end, unescape,
  tokens_from,
}

-- A rune that stands for itself outside of quotes.
abbrev pub is_plain : Rune → Bool
is_plain r = not (
    (((r == b'\'') || (r == b'"')) || ((r == b'$') || (r == b'|')))
    || (((r == b'>') || (r == b'<')) || (((r == b' ') || (r == b'\t')) || (r == b';'))))

-- A word without special runes, or one that is printed in quotes and has no backslash, or none.
pub data Readable : Text → Type 0 where
  nothing : Readable []
  bare : (r : Rune) (s : Text) → All (λ c. is_plain c ≡ true) (r ∷ s) → Readable (r ∷ s)
  in_quotes :
      (r : Rune) (s : Text)
      → contains_any (r ∷ s) (codes " \t|<>;") ≡ true
      → All (λ c. (c == b'\\') ≡ false) (r ∷ s)
      → Readable (r ∷ s)

plain_other :
    (in_word : Bool) (r : Rune) (rest : Text)
    → is_plain r ≡ true
    → has_prefix rest (codes ">") ≡ false
    → lexeme in_word r rest ≡ other
unfolding lexeme
plain_other in_word r rest h k = ground (arith, h, k)

pub no_angle :
    (s rest : Text)
    → All (λ c. is_plain c ≡ true) s
    → has_prefix rest (codes ">") ≡ false
    → has_prefix (s ++ rest) (codes ">") ≡ false
unfolding has_prefix cut_prefix
no_angle [] rest h k = k
no_angle (c ∷ s) rest h k = ground (arith, h.0)

pub plain_word :
    (s : Text) (in_word : Bool) (cur rest : Text) (r : Rune)
    → All (λ c. is_plain c ≡ true) (r ∷ s)
    → has_prefix rest (codes ">") ≡ false
    → tokens_from 0 in_word cur (r ∷ (s ++ rest)) ≡ tokens_from 0 true (cur ++ r ∷ s) rest
unfolding tokens_from
plain_word [] in_word cur rest r h k = rw (plain_other in_word r rest h.0 k, tokens_from) refl
plain_word (c ∷ s) in_word cur rest r h k =
    rw (plain_other in_word r (c ∷ (s ++ rest)) h.0 (no_angle (c ∷ s) rest h.1 k), tokens_from)
      (plain_word s true (cur ++ r ∷ []) rest c h.1 k
        ∙ ap (λ v. tokens_from 0 true v rest) (append_assoc cur (r ∷ []) (c ∷ s)))

-- No rune of a bare word makes the printer quote it.
bare_kept : (s : Text) → All (λ c. is_plain c ≡ true) s → contains_any s (codes " \t|<>;") ≡ false
bare_kept [] h = refl
bare_kept (c ∷ s) h = ground (arith, h.0, bare_kept s h.1)

abbrev escaped : Text → Text
escaped s = replace_rune b'"' (b'\\' ∷ b'"' ∷ []) s

-- What is printed for a rune in quotes.
abbrev escaped_rune : Bool → Rune → Text → Text
escaped_rune b c s = if b then b'\\' ∷ b'"' ∷ s else c ∷ s

double_end_step :
    (b : Bool) (c : Rune) (s rest : Text)
    → (c == b'"') ≡ b
    → (c == b'\\') ≡ false
    → double_end false (s ++ rest) ≡ some (length s)
    → double_end false (escaped_rune b c s ++ rest) ≡ some (length (escaped_rune b c s))
unfolding double_end
double_end_step true c s rest e n h = rw (h, double_end) refl
double_end_step false c s rest e n h = rw (e, n, h, double_end) refl

double_end-escaped :
    (s rest : Text)
    → All (λ c. (c == b'\\') ≡ false) s
    → double_end false (escaped s ++ b'"' ∷ rest) ≡ some (length (escaped s))
unfolding double_end replace_rune
double_end-escaped [] rest h = refl
double_end-escaped (c ∷ s) rest h =
    double_end_step (c == b'"') c (escaped s) (b'"' ∷ rest) refl h.0 (double_end-escaped s rest h.1)

unescape_step :
    (b : Bool) (c : Rune) (s t : Text)
    → (c == b'"') ≡ b
    → (c == b'\\') ≡ false
    → unescape s ≡ t
    → unescape (escaped_rune b c s) ≡ c ∷ t
unfolding unescape has_prefix cut_prefix
unescape_step true c s t e n h = ap (λ r. b'"' ∷ r) h ∙ ap (λ r. r ∷ t) (sym ((==_iff c b'"').0 e))
unescape_step false c s t e n h = rw (n, unescape) (ap (λ r. c ∷ r) h)

unescape-escaped : (s : Text) → All (λ c. (c == b'\\') ≡ false) s → unescape (escaped s) ≡ s
unfolding unescape replace_rune
unescape-escaped [] h = refl
unescape-escaped (c ∷ s) h =
    unescape_step (c == b'"') c (escaped s) s refl h.0 (unescape-escaped s h.1)

skip_quoted :
    (s : Text) (c : Rune) (cur rest : Text)
    → tokens_from (suc (length s)) true cur (s ++ c ∷ rest) ≡ tokens_from 0 true cur rest
unfolding tokens_from
skip_quoted [] c cur rest = refl
skip_quoted (d ∷ s) c cur rest = skip_quoted s c cur rest

quoted_word :
    (s rest : Text)
    → All (λ c. (c == b'\\') ≡ false) s
    → tokens_from 0 false [] (b'"' ∷ (escaped s ++ b'"' ∷ rest)) ≡ tokens_from 0 true s rest
unfolding tokens_from lexeme
quoted_word s rest h =
    rw
      (
        double_end-escaped s rest h,
        take-length (escaped s) (b'"' ∷ rest),
        unescape-escaped s h,
        tokens_from,
      )
      (skip_quoted (escaped s) b'"' s rest)

-- A printed argument is read as that argument, whatever its runes.
pub maybe_quote-tokens :
    (s rest : Text)
    → Readable s
    → has_prefix rest (codes ">") ≡ false
    → tokens_from 0 false [] (maybe_quote s ++ rest) ≡ tokens_from 0 true s rest
unfolding maybe_quote
maybe_quote-tokens _ rest nothing k = quoted_word [] rest tt
maybe_quote-tokens _ rest (bare r s h) k =
    rw (bare_kept (r ∷ s) h) (plain_word s false [] rest r h k)
maybe_quote-tokens _ rest (in_quotes r s b h) k = rw (b, append_assoc) (quoted_word (r ∷ s) rest h)
