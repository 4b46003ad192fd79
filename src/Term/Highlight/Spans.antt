-- ===== src/Term/Highlight/Spans.antt =====
-- What one span is, and what the spans of the second loop make up.
use aish.Prelude.{
  ℕ, zero, suc, ◌≡◌, refl, ap, ◌∙◌, Bool, true, not, List, [], ◌∷◌, ◌++◌, ◌==◌, take, drop, arith,
  ==_iff, Text, Rune, is_space, take-append-drop, All, Bool-cases, inl, inr, ◌⊎◌,
}
use aish.Term.Highlight.{
  Role, plain_text, string_role, Span, run, is_quote, is_solid, quoted_run, span_at, rest_spans,
}

unfoldable pub texts : List Span → Text
texts [] = []
texts (s ∷ spans) = s.text ++ texts spans

pub texts-rest : (n : ℕ) (cs : Text) → texts (rest_spans n cs) ≡ drop n cs
unfolding texts rest_spans
texts-rest zero [] = refl
texts-rest (suc n) [] = refl
texts-rest (suc n) (c ∷ cs) = texts-rest n cs
texts-rest zero (c ∷ cs) =
    let n : ℕ = (span_at c cs).1 in
    ap (λ l. c ∷ (take n cs ++ l)) (texts-rest n cs) ∙ ap (λ l. c ∷ l) (take-append-drop n cs)

unfoldable pub AllTrue : (Rune → Bool) → Text → Type 0
AllTrue p = All (λ c. p c ≡ true)

pub run-AllTrue : (p : Rune → Bool) (cs : Text) → AllTrue p (take (run p cs) cs)
unfolding run AllTrue
run-AllTrue p [] = tt
run-AllTrue p (c ∷ cs) = elim (Bool-cases (p c)) [
  | inl e ↦ rw e (e, run-AllTrue p cs)
  | inr e ↦ rw e tt
]

AllTrue-holds :
    (p : Rune → Bool) (c : Rune) (cs : Text) → p c ≡ true → AllTrue p (c ∷ take (run p cs) cs)
unfolding AllTrue
AllTrue-holds p c cs h = (h, run-AllTrue p cs)

-- A quote, runes other than it, and it again unless the line ends first.
pub record Quoted (text : Text) : Type 0 where
  quote : Rune
  body : Text
  opens : is_quote quote ≡ true
  inside : AllTrue (λ c. not (c == quote)) body
  text_is : (text ≡ quote ∷ body) ⊎ (text ≡ quote ∷ (body ++ quote ∷ []))

-- Blanks, runes that are neither blanks nor quotes, or a quoted string.
pub data Shape : Span → Type 0 where
  blanks : (t : Text) → AllTrue is_space t → Shape (record { text = t; role = plain_text })
  solids : (t : Text) → AllTrue is_solid t → Shape (record { text = t; role = plain_text })
  quoted : (t : Text) → Quoted t → Shape (record { text = t; role = string_role })

quoted_body :
    (q : Rune) (cs : Text)
    → (body : Text) × AllTrue (λ c. not (c == q)) body
      × ((take (quoted_run q cs) cs ≡ body) ⊎ (take (quoted_run q cs) cs ≡ body ++ q ∷ []))
unfolding quoted_run AllTrue
quoted_body q [] = ([], tt, inl refl)
quoted_body q (c ∷ cs) = elim (Bool-cases (c == q)) [
  | inl e ↦ ([], tt, inr (rw e (ap (λ d. d ∷ []) ((==_iff c q).0 e))))
  | inr e ↦
      let (body, inside, is) = quoted_body q cs in
      (
        c ∷ body,
        (ap not e, inside),
        elim is [ inl h ↦ inl (rw e (ap (λ l. c ∷ l) h)) | inr h ↦ inr (rw e (ap (λ l. c ∷ l) h)) ],
      )
]

Quoted-quote : (q : Rune) (cs : Text) → is_quote q ≡ true → Quoted (q ∷ take (quoted_run q cs) cs)
Quoted-quote q cs h =
    let (body, inside, is) = quoted_body q cs in
    record {
      quote = q;
      body = body;
      opens = h;
      inside = inside;
      text_is = elim is [ inl e ↦ inl (ap (λ l. q ∷ l) e) | inr e ↦ inr (ap (λ l. q ∷ l) e) ];
    }

pub Shape-span_at :
    (c : Rune) (cs : Text)
    → Shape (record { text = c ∷ take (span_at c cs).1 cs; role = (span_at c cs).0 })
unfolding span_at
Shape-span_at c cs = elim (Bool-cases (is_space c)) [
  | inl e ↦ rw (e, span_at) (blanks (c ∷ take (run is_space cs) cs) (AllTrue-holds is_space c cs e))
  | inr e ↦ elim (Bool-cases (is_quote c)) [
    | inl f ↦ rw (e, f, span_at) (quoted (c ∷ take (quoted_run c cs) cs) (Quoted-quote c cs f))
    | inr f ↦
        rw (e, f, span_at)
          (solids (c ∷ take (run is_solid cs) cs)
            (AllTrue-holds is_solid c cs (ground (arith, e, f))))
  ]
]

pub All-Shape : (n : ℕ) (cs : Text) → All Shape (rest_spans n cs)
unfolding rest_spans
All-Shape zero [] = tt
All-Shape (suc n) [] = tt
All-Shape (suc n) (c ∷ cs) = All-Shape n cs
All-Shape zero (c ∷ cs) = (Shape-span_at c cs, All-Shape (span_at c cs).1 cs)

-- One span, or none of an empty text.
unfoldable pub span_unless_empty : Text → Role → List Span
span_unless_empty [] role = []
span_unless_empty (c ∷ t) role = record { text = c ∷ t; role = role } ∷ []
