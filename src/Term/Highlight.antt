-- ===== src/Term/Highlight.antt =====
-- shell/internal/term/highlight.go: the coloured spans of a line. The resolver is an argument,
-- `none` where it is nil.
pub mod Spans
pub mod Line
use aish.Prelude.{
  ℕ, zero, suc, Bool, true, false, not, Option, none, some, List, [], ◌∷◌, ◌++◌, ◌==◌, ◌&&◌, ◌||◌,
  if◌then◌else◌, length, take, drop, Text, Rune, is_space,
}

pub data Tier : Type 0 where
  ai_intent known_binary builtin : Tier

-- The roles that Highlight gives.
pub data Role : Type 0 where
  plain_text accent string_role tier_local tier_cloud : Role

pub record Span : Type 0 where
  pub text : Text
  pub role : Role

-- `for i < len(runes) && p(runes[i]) { i++ }`: how far it goes.
unfoldable pub run : (Rune → Bool) → Text → ℕ
run p [] = 0
run p (c ∷ cs) = let rest = run p cs in if p c then suc rest else 0

abbrev pub is_quote : Rune → Bool
is_quote c = c == b'"' || c == b'\''

abbrev pub is_solid : Rune → Bool
is_solid c = not (is_space c) && not (is_quote c)

-- How far a quoted string goes after its first quote, with the closing one if there is one.
unfoldable pub quoted_run : Rune → Text → ℕ
quoted_run q [] = 0
quoted_run q (c ∷ cs) = let rest = quoted_run q cs in if c == q then 1 else suc rest

-- The role of the span that begins with `c`, and how many of the runes after it belong to it.
unfoldable pub span_at : Rune → Text → Role × ℕ
unfolding run quoted_run
span_at c cs =
    if is_space c
    then (plain_text, run is_space cs)
    else if is_quote c
    then (string_role, quoted_run c cs)
    else (plain_text, run is_solid cs)

-- The second loop; the number counts the runes that the last span took ahead.
unfoldable pub rest_spans : ℕ → Text → List Span
unfolding span_at
rest_spans skip [] = []
rest_spans (suc skip) (c ∷ cs) = rest_spans skip cs
rest_spans zero (c ∷ cs) =
    let n = (span_at c cs).1 in
    record { text = c ∷ take n cs; role = (span_at c cs).0 } ∷ rest_spans n cs

abbrev pub role_of : Tier → Role
role_of builtin = accent
role_of known_binary = tier_local
role_of ai_intent = tier_cloud

module _ (resolver : Option (Text → Tier)) where
  unfoldable pub first_role : Text → Role
  first_role token = elim resolver [ none ↦ tier_cloud | some resolve ↦ role_of (resolve token) ]

  -- From the first token on.
  unfoldable pub from_token : Text → List Span
  unfolding first_role rest_spans run
  from_token [] = []
  from_token (c ∷ cs) =
      let n = run (λ d. not (is_space d)) (c ∷ cs) in
      let token = take n (c ∷ cs) in
      record { text = token; role = first_role token } ∷ rest_spans 0 (drop n (c ∷ cs))

  unfoldable pub highlight : Text → List Span
  unfolding from_token
  highlight line =
      let n = run is_space line in
      let spans = from_token (drop n line) in
      if n == 0 then spans else record { text = take n line; role = plain_text } ∷ spans
