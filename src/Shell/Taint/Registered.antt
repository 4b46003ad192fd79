-- ===== src/Shell/Taint/Registered.antt =====
-- The registry of tainted texts, after RunForCapture has added what `secret get` printed.
use aish.Prelude.{
  ℕ, ◌≡◌, ◌≢◌, refl, sym, subst, ◌∙◌, inl, inr, true, none, some, List, [], ◌∷◌, ◌++◌, Text,
  Bool-cases, arith, text_eq, text_eq_refl, text_eq_iff, trim_right_while, ◌==◌,
}
use aish.Parser.{Command}
use aish.Shell.Taint.{
  Registry, among, add, has, any_has, is_secret_get_invocation, register_captured,
}
use aish.Shell.Taint.Stages.{reveals, any_reveals}

among-add :
    (c : ℕ) (v t : Text) (ts : List Text)
    → has (c ∷ v) (some ts) ≡ true
    → has (c ∷ v) (add t (some ts)) ≡ true
unfolding has add among
among-add c v [] ts h = h
among-add c v (x ∷ t) ts h = ground (arith, h)

pub has-add :
    (c : ℕ) (v t : Text) (r : Registry) → has (c ∷ v) r ≡ true → has (c ∷ v) (add t r) ≡ true
unfolding has
has-add c v t none h = cc
has-add c v t (some ts) h = among-add c v t ts h

has-add_self : (c : ℕ) (v : Text) (r : Registry) → r ≢ none → has (c ∷ v) (add (c ∷ v) r) ≡ true
unfolding has add among
has-add_self c v none h = absurd (h refl)
has-add_self c v (some ts) h = rw (text_eq_refl (c ∷ v))

pub add-none : (t : Text) (r : Registry) → r ≢ none → add t r ≢ none
unfolding add
add-none t none h = absurd (h refl)
add-none [] (some ts) h = h
add-none (x ∷ t) (some ts) h = λ e. absurd (cc e)

abbrev pub without_newlines : Text → Text
without_newlines out = trim_right_while (λ c. c == b'\n') out

pub has-register_captured :
    (cmd out : Text) (c : ℕ) (v : Text) (r : Registry)
    → is_secret_get_invocation cmd ≡ true
    → without_newlines out ≡ c ∷ v
    → r ≢ none
    → has (c ∷ v) (register_captured cmd out r) ≡ true
unfolding register_captured
has-register_captured cmd out c v r h e n = elim (Bool-cases (text_eq (without_newlines out) out)) [
  | inl same ↦
      rw (h, register_captured, same)
        (subst (λ o. has (c ∷ v) (add o r) ≡ true)
          (sym e ∙ (text_eq_iff (without_newlines out) out).0 same) (has-add_self c v r n))
  | inr other ↦
      rw (h, register_captured, other)
        (subst (λ t. has (c ∷ v) (add t (add out r)) ≡ true) (sym e)
          (has-add_self c v (add out r) (add-none out r n)))
]

any_has-append :
    (value : Text) (a b : List Text) (r : Registry)
    → has value r ≡ true
    → any_has (a ++ value ∷ b) r ≡ true
unfolding any_has
any_has-append value [] b r h = rw h
any_has-append value (x ∷ a) b r h = ground (arith, any_has-append value a b r h)

any_reveals-append :
    (cs ds : List Command) (c : Command) (r : Registry)
    → reveals r c ≡ true
    → any_reveals r (cs ++ c ∷ ds) ≡ true
unfolding any_reveals
any_reveals-append [] ds c r h = rw h
any_reveals-append (x ∷ cs) ds c r h = ground (arith, any_reveals-append cs ds c r h)

-- A pipeline with a stage that has a registered argument.
pub any_reveals_argument :
    (value : Text) (cs ds : List Command) (c : Command) (a b : List Text) (r : Registry)
    → c.args ≡ a ++ value ∷ b
    → has value r ≡ true
    → any_reveals r (cs ++ c ∷ ds) ≡ true
unfolding reveals any_has
any_reveals_argument value cs ds c a b r e h =
    any_reveals-append cs ds c r (rw e (ground (arith, any_has-append value a b r h)))
