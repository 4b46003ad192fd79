-- ===== src/Translate/Bash/Blocks/Kinds.antt =====
-- The kinds of lines, and what parseIf's loop does at `fi`.
use aish.Prelude.{
  ℕ, suc, ◌≡◌, refl, ap, sym, subst, Bool, true, false, Option, none, some, List, [], ◌∷◌,
  if◌then◌else◌, Text, codes, has_prefix, cut_prefix, text_eq, text_eq_iff, trim_space, arith,
}
use aish.Translate.{done}
use aish.Translate.Bash.{PhysicalLine}
use aish.Translate.Bash.Line.{first_word, is_function_def_header, classify_unsupported}
use aish.Translate.Bash.Headers.{skip_keyword_line}
use aish.Translate.Bash.Cases.{and_read}
use aish.Translate.Bash.Blocks.{
  LineKind, terminator, opens_if, opens_for, opens_while, opens_case, opens_function, opens_parens,
  unsupported, plain, kind_of, opened_by, one_of, IfSoFar, cond_of, at_fi, head_of, after_body,
  read_line, parse_block, parse_if,
}

abbrev is_terminator : LineKind → Bool
is_terminator terminator = true
is_terminator _ = false

data Goes : LineKind → Type 0 where
  goes : {k : LineKind} → is_terminator k ≡ false → Goes k

neither : (b : Bool) (x y : LineKind) → is_terminator x ≡ false → Goes y → Goes (if b then x else y)
neither true x y hx hy = goes hx
neither false x y hx hy = hy

reason_or : (o : Option Text) → Goes (elim o [ none ↦ plain | some reason ↦ unsupported reason ])
reason_or none = goes refl
reason_or (some reason) = goes refl

opened_by-Goes : (t first : Text) → Goes (opened_by t first)
unfolding opened_by
opened_by-Goes t first = neither (text_eq first (codes "if")) opens_if _ refl (
    neither (text_eq first (codes "for")) opens_for _ refl (
      neither (text_eq first (codes "while")) opens_while _ refl (
        neither (text_eq first (codes "case")) opens_case _ refl (
          neither (text_eq first (codes "function")) opens_function _ refl (
            neither (is_function_def_header t) opens_parens _ refl
              (reason_or (classify_unsupported t)))))))

opened_by-no_terminator : (t first : Text) → is_terminator (opened_by t first) ≡ false
opened_by-no_terminator t first = elim (opened_by-Goes t first) [ goes h ↦ h ]

-- Only a line whose first word is among the terminators ends a block.
pub terminator_first :
    (t : Text) (terms : List Text)
    → kind_of t terms ≡ terminator
    → one_of (first_word t) terms ≡ true
unfolding kind_of
terminator_first t terms h = ground (arith, h, opened_by-no_terminator t (first_word t))

first_is_f : (t : Text) → text_eq (first_word t) (codes "fi") ≡ true → (s : Text) × (t ≡ b'f' ∷ s)
unfolding first_word text_eq
first_is_f [] h = cc
first_is_f (c ∷ s) h = (s, ap (λ d. d ∷ s) (ground (arith, h)))

abbrev pub Fi : PhysicalLine → Type 0
Fi l = text_eq (first_word (trim_space l.text)) (codes "fi") ≡ true

no_then :
    (l : PhysicalLine) (ls : List PhysicalLine) (s : Text)
    → trim_space l.text ≡ b'f' ∷ s
    → skip_keyword_line (codes "then") (l ∷ ls) ≡ l ∷ ls
unfolding skip_keyword_line text_eq has_prefix cut_prefix
no_then l ls s e = rw (e) refl

fi_ends :
    (t s : Text)
    → t ≡ b'f' ∷ s
    → text_eq (first_word t) (codes "fi") ≡ true
    → kind_of t (codes "elif" ∷ codes "else" ∷ codes "fi" ∷ []) ≡ terminator
unfolding kind_of has_prefix cut_prefix text_eq
fi_ends t s e h =
    subst
      (λ u.
        text_eq (first_word u) (codes "fi") ≡ true
        → kind_of u (codes "elif" ∷ codes "else" ∷ codes "fi" ∷ []) ≡ terminator)
      (sym e) (λ g. rw (g) refl) h

head_of-Fi : (l : PhysicalLine) (ls : List PhysicalLine) → Fi l → head_of (l ∷ ls) ≡ at_fi
unfolding head_of text_eq
head_of-Fi l ls h = rw ((text_eq_iff (first_word (trim_space l.text)) (codes "fi")).0 h) refl

-- At `fi` the loop ends, with an empty body for the branch it is at.
pub parse_if-Fi :
    (n : ℕ) (c : IfSoFar) (l : PhysicalLine) (ls : List PhysicalLine)
    → Fi l
    → parse_if (suc (suc n)) c (l ∷ ls)
      ≡ some (cond_of (record c { body = done }), skip_keyword_line (codes "fi") (l ∷ ls))
unfolding parse_if parse_block after_body read_line and_read
parse_if-Fi n c l ls h =
    let (s, e) = first_is_f (trim_space l.text) h in
    rw (no_then l ls s e, fi_ends (trim_space l.text) s e h, head_of-Fi l ls h) refl
