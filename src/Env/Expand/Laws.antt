-- ===== src/Env/Expand/Laws.antt =====
-- What Expand makes of each form of expansion, and of the text between them.
use aish.Prelude.{
  suc, ◌≡◌, refl, ap, ◌∙◌, Bool, true, false, some, [], ◌∷◌, ◌++◌, ◌==◌, ◌||◌, ◌&&◌, arith, Text,
  Rune, text_eq, length, take-length, All,
}
use aish.Env.{Env, is_ident_start, is_ident_cont, is_identifier, all_cont}
use aish.Env.Expand.{
  closing_brace, ident_run, literal, step_of, name, after, value_of, braced, substitute,
  expand_from,
}

abbrev pub is_special : Rune → Bool
is_special r = r == b'$' || (r == b'\'' || r == b'"')

pub step_plain : (d : Bool) (r : Rune) → is_special r ≡ false → step_of false d r ≡ literal
unfolding step_of
step_plain d r h = ground (arith, h)

step_single : (r : Rune) → (r == b'\'') ≡ false → step_of true false r ≡ literal
unfolding step_of
step_single r h = ground (arith, h)

closing_brace_name :
    (n rest : Text) → all_cont n ≡ true → closing_brace (n ++ b'}' ∷ rest) ≡ some (length n)
unfolding closing_brace all_cont
closing_brace_name [] rest h = refl
closing_brace_name (c ∷ n) rest h = ground (arith, closing_brace_name n rest, h)

and_true : (a b : Bool) → (a && b) ≡ true → (a ≡ true) × (b ≡ true)
and_true true b h = (refl, h)
and_true false b h = cc

-- No name goes on at the head of a text.
abbrev pub NameEnds : Text → Type 0
NameEnds [] = Unit {0}
NameEnds (r ∷ rest) = is_ident_cont r ≡ false

ident_run_name :
    (n rest : Text) → all_cont n ≡ true → NameEnds rest → ident_run (n ++ rest) ≡ length n
unfolding ident_run all_cont
ident_run_name [] [] h e = refl
ident_run_name [] (r ∷ rest) h e = rw e refl
ident_run_name (c ∷ n) rest h e =
    let (here, later) = and_true (is_ident_cont c) (all_cont n) h in
    rw (here, ident_run, ident_run_name n rest later e) refl

identifier-all_cont : (n : Text) → is_identifier n ≡ true → all_cont n ≡ true
unfolding is_identifier all_cont
identifier-all_cont [] h = cc
identifier-all_cont (c ∷ n) h = ground (arith, h)

not_question : (n : Text) → is_identifier n ≡ true → text_eq n (b'?' ∷ []) ≡ false
unfolding is_identifier text_eq
not_question [] h = cc
not_question (c ∷ n) h = ground (arith, h)

after_name : (c : Rune) → is_ident_start c ≡ true → after c ≡ name
unfolding after
after_name c h = ground (arith, h)

module _ (e : Env) (exit_text : Text) where
  pub skip_name :
      (n rest : Text) (s d : Bool)
      → expand_from e exit_text (length n) s d (n ++ rest) ≡ expand_from e exit_text 0 s d rest
  unfolding expand_from
  skip_name [] rest s d = refl
  skip_name (c ∷ n) rest s d = skip_name n rest s d

  pub in_quotes :
      (t rest : Text)
      → All (λ r. (r == b'\'') ≡ false) t
      → expand_from e exit_text 0 true false (t ++ b'\'' ∷ rest)
        ≡ t ++ b'\'' ∷ expand_from e exit_text 0 false false rest
  unfolding expand_from step_of
  in_quotes [] rest h = refl
  in_quotes (r ∷ t) rest h =
      rw (step_single r h.0, expand_from) (ap (λ l. r ∷ l) (in_quotes t rest h.1))

  braced_name : (n : Text) → is_identifier n ≡ true → braced e exit_text n ≡ value_of e exit_text n
  unfolding braced
  braced_name n h = rw (not_question n h, h, braced) refl

  pub substitute_braces :
      (n rest : Text)
      → is_identifier n ≡ true
      → substitute e exit_text (b'{' ∷ (n ++ b'}' ∷ rest))
        ≡ (value_of e exit_text n, suc (suc (length n)))
  unfolding substitute after
  substitute_braces n rest h =
      rw (closing_brace_name n rest (identifier-all_cont n h), substitute)
        (ap (λ t. (t, suc (suc (length n))))
          (ap (braced e exit_text) (take-length n (b'}' ∷ rest)) ∙ braced_name n h))

  pub substitute_name :
      (c : Rune) (n rest : Text)
      → is_identifier (c ∷ n) ≡ true
      → NameEnds rest
      → substitute e exit_text (c ∷ (n ++ rest)) ≡ (value_of e exit_text (c ∷ n), suc (length n))
  unfolding substitute is_identifier
  substitute_name c n rest h f =
      rw (after_name c (ground (arith, h)), ident_run_name n rest (ground (arith, h)) f, substitute)
        (ap (λ t. (value_of e exit_text (c ∷ t), suc (length n))) (take-length n rest))
