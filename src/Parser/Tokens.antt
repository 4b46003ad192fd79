-- ===== src/Parser/Tokens.antt =====
-- What tokenize makes of words in quotes and of the separators between them.
use aish.Prelude.{
  ℕ, none, some, subst, suc, ◌≡◌, refl, ap, ◌∙◌, sym, Bool, true, false, List, [], ◌∷◌, ◌++◌, ◌==◌,
  if◌then◌else◌, arith, Text, Rune, append-nil, append_assoc, ◌&&◌, ==_iff, take,
}
use aish.Parser.{
  err, unterminated_single, ok, Token, word, pipe, amp, tokens_from, classify, index_of, emit,
  and_then, RuneClass, single, double, bar, ampersand, blank, other,
}

-- A single quote goes in double quotes, any other rune in single ones.
abbrev pub quote_rune : Rune → Text
quote_rune r = if r == b'\'' then b'"' ∷ r ∷ b'"' ∷ [] else b'\'' ∷ r ∷ b'\'' ∷ []

unfoldable pub quote_runes : Text → Text
quote_runes [] = []
quote_runes (r ∷ rs) = quote_rune r ++ quote_runes rs

abbrev quote : Text → Text
quote w = b'\'' ∷ b'\'' ∷ quote_runes w

quote_step :
    (rs : Text) (k : ℕ) (in_word : Bool) (current : Text)
    → index_of b'\'' rs ≡ some k
    → tokens_from 0 in_word current (b'\'' ∷ rs)
      ≡ tokens_from (suc k) true (current ++ take k rs) rs
unfolding tokens_from classify
quote_step rs k in_word current h =
    ap
      (λ o. elim o [
        | none ↦ err unterminated_single
        | some n ↦ tokens_from (suc n) true (current ++ take n rs) rs
      ])
      h

closing :
    (r : Rune) (rest : Text) → (r == b'\'') ≡ false → index_of b'\'' (r ∷ b'\'' ∷ rest) ≡ some 1
unfolding index_of
closing r rest e = ground (arith, e)

in_double :
    (r : Rune) (in_word : Bool) (current rest : Text)
    → r ≡ b'\''
    → tokens_from 0 in_word current (b'"' ∷ r ∷ b'"' ∷ rest)
      ≡ tokens_from 0 true (current ++ r ∷ []) rest
unfolding tokens_from classify index_of
in_double r in_word current rest e =
    subst
      (λ q.
        tokens_from 0 in_word current (b'"' ∷ q ∷ b'"' ∷ rest)
        ≡ tokens_from 0 true (current ++ q ∷ []) rest)
      (sym e) refl

in_single_or_double :
    (b : Bool) (r : Rune) (in_word : Bool) (current rest : Text)
    → (r == b'\'') ≡ b
    → tokens_from 0 in_word current
        ((if b then b'"' ∷ r ∷ b'"' ∷ [] else b'\'' ∷ r ∷ b'\'' ∷ []) ++ rest)
      ≡ tokens_from 0 true (current ++ r ∷ []) rest
in_single_or_double true r in_word current rest e =
    in_double r in_word current rest ((==_iff r b'\'').0 e)
in_single_or_double false r in_word current rest e =
    quote_step (r ∷ b'\'' ∷ rest) 1 in_word current (closing r rest e)
    ∙ (unfold tokens_from in refl)

quoted_rune :
    (r : Rune) (in_word : Bool) (current rest : Text)
    → tokens_from 0 in_word current (quote_rune r ++ rest)
      ≡ tokens_from 0 true (current ++ r ∷ []) rest
quoted_rune r in_word current rest = in_single_or_double (r == b'\'') r in_word current rest refl

quoted_runes :
    (w current rest : Text)
    → tokens_from 0 true current (quote_runes w ++ rest) ≡ tokens_from 0 true (current ++ w) rest
unfolding quote_runes
quoted_runes [] current rest = ap (λ c. tokens_from 0 true c rest) (sym (append-nil current))
quoted_runes (r ∷ w) current rest =
    ap (λ s. tokens_from 0 true current s) (append_assoc (quote_rune r) (quote_runes w) rest)
    ∙ quoted_rune r true current (quote_runes w ++ rest)
    ∙ quoted_runes w (current ++ r ∷ []) rest
    ∙ ap (λ c. tokens_from 0 true c rest) (append_assoc current (r ∷ []) w)

quoted : (w rest : Text) → tokens_from 0 false [] (quote w ++ rest) ≡ tokens_from 0 true w rest
unfolding tokens_from classify index_of
quoted w rest = quoted_runes w [] rest

abbrev is_other : RuneClass → Bool
is_other other = true
is_other _ = false

abbrev all_other : Text → Bool
all_other [] = true
all_other (r ∷ rs) = is_other (classify r) && all_other rs

-- No rune is special, and there is one.
abbrev pub is_plain : Text → Bool
is_plain [] = false
is_plain (r ∷ rs) = all_other (r ∷ rs)

-- A word as it may be typed: as it is if it is plain, else in quotes.
abbrev pub print_word : Text → Text
print_word w = if is_plain w then w else quote w

other_rune :
    (k : RuneClass) (r : Rune) (in_word : Bool) (current rest : Text)
    → classify r ≡ k
    → is_other k ≡ true
    → tokens_from 0 in_word current (r ∷ rest) ≡ tokens_from 0 true (current ++ r ∷ []) rest
unfolding tokens_from
other_rune other r in_word current rest e h = rw (e, tokens_from) refl
other_rune single r in_word current rest e h = cc
other_rune double r in_word current rest e h = cc
other_rune bar r in_word current rest e h = cc
other_rune ampersand r in_word current rest e h = cc
other_rune blank r in_word current rest e h = cc

plain_runes :
    (w : Text) (in_word : Bool) (current rest : Text) (r : Rune)
    → all_other (r ∷ w) ≡ true
    → tokens_from 0 in_word current (r ∷ (w ++ rest)) ≡ tokens_from 0 true (current ++ r ∷ w) rest
plain_runes [] in_word current rest r h =
    other_rune (classify r) r in_word current rest refl (ground (arith, h))
plain_runes (d ∷ w) in_word current rest r h =
    other_rune (classify r) r in_word current (d ∷ (w ++ rest)) refl (ground (arith, h))
    ∙ plain_runes w true (current ++ r ∷ []) rest d (ground (arith, h))
    ∙ ap (λ c. tokens_from 0 true c rest) (append_assoc current (r ∷ []) (d ∷ w))

plain_or_quoted :
    (w rest : Text) (b : Bool)
    → is_plain w ≡ b
    → tokens_from 0 false [] ((if b then w else quote w) ++ rest) ≡ tokens_from 0 true w rest
plain_or_quoted w rest false e = quoted w rest
plain_or_quoted [] rest true e = cc
plain_or_quoted (r ∷ w) rest true e = plain_runes w false [] rest r e

-- A printed word is read as that word, whatever its runes.
pub print_word_lem :
    (w rest : Text) → tokens_from 0 false [] (print_word w ++ rest) ≡ tokens_from 0 true w rest
print_word_lem w rest = plain_or_quoted w rest (is_plain w) refl

-- After any word, `rest` ends the word and gives these tokens.
abbrev pub Ends : Text → List Token → Type 0
Ends rest ts = (current : Text) → tokens_from 0 true current rest ≡ ok (word current ∷ ts)

pub end-Ends : Ends [] []
unfolding tokens_from
end-Ends current = refl

pub word-Ends :
    (w rest : Text) (ts : List Token)
    → Ends rest ts
    → Ends (b' ' ∷ (print_word w ++ rest)) (word w ∷ ts)
unfolding tokens_from classify emit and_then
word-Ends w rest ts h current = ap (emit (word current ∷ [])) (print_word_lem w rest ∙ h w)

pub pipe-Ends :
    (w rest : Text) (ts : List Token)
    → Ends rest ts
    → Ends (b' ' ∷ b'|' ∷ b' ' ∷ (print_word w ++ rest)) (pipe ∷ word w ∷ ts)
unfolding tokens_from classify emit and_then
pipe-Ends w rest ts h current =
    ap (λ r. emit (word current ∷ []) (emit (pipe ∷ []) (emit [] r))) (print_word_lem w rest ∙ h w)

pub amp-Ends : Ends (b' ' ∷ b'&' ∷ []) (amp ∷ [])
unfolding tokens_from classify emit and_then
amp-Ends current = refl
