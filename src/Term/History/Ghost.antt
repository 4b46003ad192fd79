-- ===== src/Term/History/Ghost.antt =====
-- The ghost suggestion: what is left of the newest entry that begins with the input.
use aish.Prelude.{
  ℕ, zero, suc, ◌≤◌, ◌<◌, ◌≡◌, refl, ap, ◌∙◌, sym, ◌⊎◌, inl, inr, none, some, [], ◌∷◌, ◌++◌,
  append-nil, arith, length, get_elem?, Text, text_eq, text_eq_iff, cut_prefix, cut_prefix-some,
  cut_prefix-append, Bool-cases, Option-cases,
}
use aish.Term.History.{Source, suggest, suggest_below}
use aish.Term.Search.Match.{entry_at}

-- What is at entry `j`, if there is one, does not begin with the input.
abbrev pub Other : Source → Text → ℕ → Type 0
Other src input j = (t : Text) → get_elem? src j ≡ some t → cut_prefix input t ≡ none

-- Entry `i` begins with the input, no newer entry below `n` does, and `r` is what follows it.
pub record Newest (src : Source) (input : Text) (n i : ℕ) (r : Text) : Type 0 where
  pub below : i < n
  pub entry_is : get_elem? src i ≡ some (input ++ r)
  pub newest : (j : ℕ) → i < j → j < n → Other src input j

abbrev pub NoneBelow : Source → Text → ℕ → Type 0
NoneBelow src input n = (j : ℕ) → j < n → Other src input j

cut_prefix_self : (s : Text) → cut_prefix s s ≡ some []
cut_prefix_self s = ap (cut_prefix s) (sym (append-nil s)) ∙ cut_prefix-append s []

suggest_step :
    (src : Source) (input t : Text) (i : ℕ)
    → get_elem? src i ≡ some t
    → suggest_below src input (suc i)
      ≡ elim (cut_prefix input t) [ some r ↦ some r | none ↦ suggest_below src input i ]
unfolding suggest_below
suggest_step src input t i is = elim (Bool-cases (text_eq t input)) [
  | inl e ↦
      let same : t ≡ input = (text_eq_iff t input).0 e in
      let cut : cut_prefix input t ≡ some [] = ap (cut_prefix input) same ∙ cut_prefix_self input in
      rw (is, e, cut, suggest_below)
  | inr e ↦ rw (is, e, suggest_below)
]

lt_or_eq : (j n : ℕ) → j < suc n → (j < n) ⊎ (j ≡ n)
lt_or_eq j n le = ground arith

Newest-suc :
    (src : Source) (input : Text) (n i : ℕ) (r : Text)
    → Other src input n
    → Newest src input n i r
    → Newest src input (suc n) i r
Newest-suc src input n i r h f = record {
  below = omega (arith, f.below);
  entry_is = f.entry_is;
  newest = λ j lo hi. elim (lt_or_eq j n hi) [ inl lt ↦ f.newest j lo lt | inr eq ↦ rw eq h ];
}

-- What Suggest may return for the entries below `n`.
abbrev pub Suggests : Source → Text → ℕ → Text → Type 0
Suggests src input n r = ((i : ℕ) × Newest src input n i r) ⊎ ((r ≡ []) × NoneBelow src input n)

Suggests-suc :
    (src : Source) (input : Text) (n : ℕ) (r : Text)
    → Other src input n
    → Suggests src input n r
    → Suggests src input (suc n) r
Suggests-suc src input n r h (inl (i, f)) = inl (i, Newest-suc src input n i r h f)
Suggests-suc src input n r h (inr (e, f)) =
    inr (e, λ j hi. elim (lt_or_eq j n hi) [ inl lt ↦ f j lt | inr eq ↦ rw eq h ])

suggest_below_lem :
    (src : Source) (input : Text) (n : ℕ)
    → n ≤ length src
    → (r : Text) × (suggest_below src input n ≡ some r) × Suggests src input n r
suggest_below_lem src input zero h =
    ([], unfold suggest_below in refl, inr (refl, λ j h. absurd (omega arith)))
suggest_below_lem src input (suc n) h =
    let (t, is) = entry_at src n (omega arith) in
    elim (Option-cases (cut_prefix input t)) [
      | inr (r, e) ↦ (
        r,
        suggest_step src input t n is ∙ rw e,
        inl (
          n,
          record {
            below = omega arith;
            entry_is = is ∙ ap some (cut_prefix-some input t e);
            newest = λ j lo hi. absurd (omega arith);
          },
        ),
      )
      | inl e ↦
          let (r, found, f) = suggest_below_lem src input n (omega arith) in
          (
            r,
            suggest_step src input t n is ∙ rw (e, found),
            Suggests-suc src input n r (λ t' is'. cc) f,
          )
    ]

-- Suggest reads no entry that is not there. For an input that is not empty, it returns what follows
-- the input in the newest entry that begins with it (nothing, if that entry is the input itself),
-- and nothing if no entry begins with it.
pub suggest_lem :
    (src : Source) (c : ℕ) (s : Text)
    → (r : Text) × (suggest src (c ∷ s) ≡ some r) × Suggests src (c ∷ s) (length src) r
unfolding suggest
suggest_lem src c s = suggest_below_lem src (c ∷ s) (length src) (omega arith)

pub suggest-some : (src : Source) (s : Text) → (r : Text) × (suggest src s ≡ some r)
suggest-some src [] = ([], unfold suggest in refl)
suggest-some src (c ∷ s) = let (r, e, h) = suggest_lem src c s in (r, e)
