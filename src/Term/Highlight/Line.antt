-- ===== src/Term/Highlight/Line.antt =====
-- The spans of a whole line.
use aish.Prelude.{
  ℕ, ◌≡◌, refl, ap, ◌∙◌, sym, Bool, false, not, Option, List, [], ◌∷◌, ◌++◌, ◌==◌, if◌then◌else◌,
  take, drop, arith, Text, Rune, is_space, take-append-drop, All, Bool-cases, inl, inr, ◌⊎◌,
}
use aish.Term.Highlight.{Tier, plain_text, Span, run, rest_spans, first_role, from_token, highlight}
use aish.Term.Highlight.Spans.{
  texts, texts-rest, AllTrue, run-AllTrue, Shape, All-Shape, span_unless_empty,
}

after_run :
    (p : Rune → Bool) (s : Text)
    → (drop (run p s) s ≡ [])
      ⊎ ((c : Rune) × (cs : Text) × (drop (run p s) s ≡ c ∷ cs) × (p c ≡ false))
unfolding run
after_run p [] = inl refl
after_run p (c ∷ s) = elim (Bool-cases (p c)) [
  | inl e ↦ rw e (after_run p s)
  | inr e ↦ rw e (inr (c, s, refl, e))
]

-- The parts of a line: blanks, the first token, and what follows it.
pub record Parts (resolver : Option (Text → Tier)) (line : Text) (spans : List Span) : Type 0 where
  lead : Text
  token : Text
  later : List Span
  lead_blank : AllTrue is_space lead
  token_solid : AllTrue (λ c. not (is_space c)) token
  later_shape : All Shape later
  line_is : line ≡ lead ++ (token ++ texts later)
  spans_are :
      spans
      ≡ span_unless_empty lead plain_text
        ++ (span_unless_empty token (first_role resolver token) ++ later)

module _ (resolver : Option (Text → Tier)) where
  with_lead :
      (line : Text) (spans : List Span)
      → (if run is_space line == 0
          then spans
          else record { text = take (run is_space line) line; role = plain_text } ∷ spans)
        ≡ span_unless_empty (take (run is_space line) line) plain_text ++ spans
  unfolding run span_unless_empty
  with_lead [] spans = refl
  with_lead (c ∷ cs) spans = elim (Bool-cases (is_space c)) [
    | inl e ↦ rw e (ground arith)
    | inr e ↦ rw e refl
  ]

  only_blanks :
      (line : Text)
      → drop (run is_space line) line ≡ []
      → Parts resolver line (highlight resolver line)
  unfolding highlight from_token texts span_unless_empty AllTrue
  only_blanks line e = record {
    lead = take (run is_space line) line;
    token = [];
    later = [];
    lead_blank = run-AllTrue is_space line;
    token_solid = tt;
    later_shape = tt;
    line_is =
        sym (take-append-drop (run is_space line) line)
        ∙ ap (λ l. take (run is_space line) line ++ l) e;
    spans_are =
        with_lead line (from_token resolver (drop (run is_space line) line))
        ∙ ap
            (λ l.
              span_unless_empty (take (run is_space line) line) plain_text ++ from_token resolver l)
            e;
  }

  solid_first :
      (c : Rune) (cs : Text)
      → is_space c ≡ false
      → from_token resolver (c ∷ cs) ≡ (
          let n = run (λ d. not (is_space d)) (c ∷ cs) in
          span_unless_empty (take n (c ∷ cs)) (first_role resolver (take n (c ∷ cs)))
          ++ rest_spans 0 (drop n (c ∷ cs)))
  unfolding from_token run span_unless_empty
  solid_first c cs e = rw e refl

  with_token :
      (line : Text) (c : Rune) (cs : Text)
      → drop (run is_space line) line ≡ c ∷ cs
      → is_space c ≡ false
      → Parts resolver line (highlight resolver line)
  unfolding highlight
  with_token line c cs e f =
      let n : ℕ = run (λ d. not (is_space d)) (c ∷ cs) in
      let lead : Text = take (run is_space line) line in
      record {
        lead = lead;
        token = take n (c ∷ cs);
        later = rest_spans 0 (drop n (c ∷ cs));
        lead_blank = run-AllTrue is_space line;
        token_solid = run-AllTrue (λ d. not (is_space d)) (c ∷ cs);
        later_shape = All-Shape 0 (drop n (c ∷ cs));
        line_is =
            sym (take-append-drop (run is_space line) line)
            ∙ ap (λ l. lead ++ l)
                (e
                  ∙ sym (take-append-drop n (c ∷ cs))
                  ∙ ap (λ l. take n (c ∷ cs) ++ l) (sym (texts-rest 0 (drop n (c ∷ cs)))));
        spans_are =
            with_lead line (from_token resolver (drop (run is_space line) line))
            ∙ ap (λ l. span_unless_empty lead plain_text ++ l)
                (ap (from_token resolver) e ∙ solid_first c cs f);
      }

  -- The spans of a line are the blanks before its first token, that token in the colour of what
  -- it resolves to, and then spans of blanks, of runes that are neither blanks nor quotes, and of
  -- quoted strings in their colour; put together, their texts are the line.
  pub highlight_lem : (line : Text) → Parts resolver line (highlight resolver line)
  highlight_lem line = elim (after_run is_space line) [
    | inl e ↦ only_blanks line e
    | inr (c, cs, e, f) ↦ with_token line c cs e f
  ]
