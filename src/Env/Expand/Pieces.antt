-- ===== src/Env/Expand/Pieces.antt =====
-- Expand on a text that is put together of pieces.
use aish.Prelude.{
  ℕ, suc, ◌≡◌, refl, ap, ◌∙◌, sym, Bool, true, false, not, List, [], ◌∷◌, ◌++◌, ◌==◌, arith, Text,
  Rune, length, All, Bool-cases, inl, inr, some, none,
}
use aish.Env.{Env, get, is_identifier}
use aish.Env.Expand.{has_special, step_of, value_of, substitute, after, expand_from, expand}
use aish.Env.Expand.Laws.{
  is_special, NameEnds, step_plain, skip_name, in_quotes, substitute_braces, substitute_name,
}

-- A rune that is not special, a text in single quotes, a double quote, `${NAME}`, `$NAME`,
-- and `$?`.
pub data Piece : Type 0 where
  plain : Rune → Piece
  verbatim : Text → Piece
  double_quote : Piece
  braces : Text → Piece
  bare : Rune → Text → Piece
  last_status : Piece

unfoldable pub print : List Piece → Text
print [] = []
print (plain r ∷ ps) = r ∷ print ps
print (verbatim t ∷ ps) = b'\'' ∷ (t ++ b'\'' ∷ print ps)
print (double_quote ∷ ps) = b'"' ∷ print ps
print (braces n ∷ ps) = b'$' ∷ b'{' ∷ (n ++ b'}' ∷ print ps)
print (bare c n ∷ ps) = b'$' ∷ c ∷ (n ++ print ps)
print (last_status ∷ ps) = b'$' ∷ b'?' ∷ print ps

-- Names are identifiers; a bare one ends at a rune that no name has, or with the text; a text in single quotes has
-- no single quote and is not inside double quotes.
abbrev pub WellFormed : Bool → List Piece → Type 0
WellFormed in_double [] = Unit {0}
WellFormed in_double (plain r ∷ ps) = (is_special r ≡ false) × WellFormed in_double ps
WellFormed in_double (verbatim t ∷ ps) =
    (in_double ≡ false) × All (λ r. (r == b'\'') ≡ false) t × WellFormed in_double ps
WellFormed in_double (double_quote ∷ ps) = WellFormed (not in_double) ps
WellFormed in_double (braces n ∷ ps) = (is_identifier n ≡ true) × WellFormed in_double ps
WellFormed in_double (bare c n ∷ ps) =
    (is_identifier (c ∷ n) ≡ true) × NameEnds (print ps) × WellFormed in_double ps
WellFormed in_double (last_status ∷ ps) = WellFormed in_double ps

module _ (e : Env) (exit_text : Text) where
  -- The value of a name, nothing for one that is not set.
  abbrev pub found : Text → Text
  found n = elim (get n e) [ some v ↦ v | none ↦ [] ]

  unfoldable pub meaning : List Piece → Text
  meaning [] = []
  meaning (plain r ∷ ps) = r ∷ meaning ps
  meaning (verbatim t ∷ ps) = b'\'' ∷ (t ++ b'\'' ∷ meaning ps)
  meaning (double_quote ∷ ps) = b'"' ∷ meaning ps
  meaning (braces n ∷ ps) = found n ++ meaning ps
  meaning (bare c n ∷ ps) = found (c ∷ n) ++ meaning ps
  meaning (last_status ∷ ps) = exit_text ++ meaning ps

  value_found : (n : Text) → value_of e exit_text n ≡ found n
  unfolding value_of
  value_found n = ground arith

  from_plain :
      (d : Bool) (r : Rune) (rest : Text)
      → is_special r ≡ false
      → expand_from e exit_text 0 false d (r ∷ rest) ≡ r ∷ expand_from e exit_text 0 false d rest
  unfolding expand_from
  from_plain d r rest h = rw (step_plain d r h, expand_from) refl

  from_dollar :
      (d : Bool) (rest value later : Text) (n : ℕ)
      → substitute e exit_text rest ≡ (value, n)
      → expand_from e exit_text n false d rest ≡ later
      → expand_from e exit_text 0 false d (b'$' ∷ rest) ≡ value ++ later
  unfolding expand_from step_of
  from_dollar true rest value later n s h =
      ap (λ (p : Text × ℕ). p.0 ++ expand_from e exit_text p.1 false true rest) s
      ∙ ap (λ l. value ++ l) h
  from_dollar false rest value later n s h =
      ap (λ (p : Text × ℕ). p.0 ++ expand_from e exit_text p.1 false false rest) s
      ∙ ap (λ l. value ++ l) h

  from_double :
      (d : Bool) (rest : Text)
      → expand_from e exit_text 0 false d (b'"' ∷ rest)
        ≡ b'"' ∷ expand_from e exit_text 0 false (not d) rest
  unfolding expand_from step_of
  from_double true rest = refl
  from_double false rest = refl

  braces_skip :
      (n : Text) (d : Bool) (rest : Text)
      → expand_from e exit_text (suc (length n)) false d (n ++ b'}' ∷ rest)
        ≡ expand_from e exit_text 0 false d rest
  unfolding expand_from
  braces_skip [] d rest = refl
  braces_skip (c ∷ n) d rest = braces_skip n d rest

  pieces :
      (ps : List Piece) (d : Bool)
      → WellFormed d ps
      → expand_from e exit_text 0 false d (print ps) ≡ meaning ps
  unfolding print meaning expand_from step_of substitute after
  pieces [] d h = refl
  pieces (plain r ∷ ps) d h = from_plain d r (print ps) h.0 ∙ ap (λ l. r ∷ l) (pieces ps d h.1)
  pieces (verbatim t ∷ ps) true h = absurd (ground (arith, h.0))
  pieces (verbatim t ∷ ps) false h =
      (ap (λ l. b'\'' ∷ l) (in_quotes e exit_text t (print ps) h.1))
      ∙ ap (λ l. b'\'' ∷ (t ++ b'\'' ∷ l)) (pieces ps false h.2)
  pieces (double_quote ∷ ps) d h =
      from_double d (print ps) ∙ ap (λ l. b'"' ∷ l) (pieces ps (not d) h)
  pieces (braces n ∷ ps) d h =
      from_dollar d (b'{' ∷ (n ++ b'}' ∷ print ps)) (found n) (meaning ps) (suc (suc (length n)))
        (substitute_braces e exit_text n (print ps) h.0
          ∙ ap (λ v. (v, suc (suc (length n)))) (value_found n))
        ((braces_skip n d (print ps)) ∙ pieces ps d h.1)
  pieces (bare c n ∷ ps) d h =
      from_dollar d (c ∷ (n ++ print ps)) (found (c ∷ n)) (meaning ps) (suc (length n))
        (substitute_name e exit_text c n (print ps) h.0 h.1
          ∙ ap (λ v. (v, suc (length n))) (value_found (c ∷ n)))
        (skip_name e exit_text n (print ps) false d ∙ pieces ps d h.2)
  pieces (last_status ∷ ps) d h =
      from_dollar d (b'?' ∷ print ps) exit_text (meaning ps) 1 (refl) ((refl) ∙ pieces ps d h)

  nothing_special : (s : Text) → has_special s ≡ false → expand_from e exit_text 0 false false s ≡ s
  unfolding has_special
  nothing_special [] h = unfold expand_from in refl
  nothing_special (r ∷ s) h =
      from_plain false r s (ground (arith, h))
      ∙ ap (λ l. r ∷ l) (nothing_special s (ground (arith, h)))

  -- Expand's short cut for a line without `$` and quotes gives what its loop gives.
  pub expand_loop : (s : Text) → expand e exit_text s ≡ expand_from e exit_text 0 false false s
  unfolding expand
  expand_loop s = elim (Bool-cases (has_special s)) [
    | inl h ↦ rw (h, expand) refl
    | inr h ↦ rw (h, expand) (sym (nothing_special s h))
  ]

  -- On a text of well-formed pieces: single-quoted text and double quotes are kept, every `$NAME`
  -- and `${NAME}` outside of single quotes becomes the value of the name, or nothing if it is
  -- unset, `$?` becomes the exit code, and all other runes stay.
  pub expand_pieces :
      (ps : List Piece) → WellFormed false ps → expand e exit_text (print ps) ≡ meaning ps
  expand_pieces ps h = expand_loop (print ps) ∙ pieces ps false h
