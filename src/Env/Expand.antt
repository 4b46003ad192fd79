-- ===== src/Env/Expand.antt =====
-- shell/internal/env/env.go: Expand, the expansion of `$NAME`, `${NAME}`, `$?` and `${?}`.
-- strconv.Itoa of the last exit code is the argument `exit_text`.
pub mod Laws
pub mod Pieces
use aish.Prelude.{
  ℕ, zero, suc, ◌+◌, Bool, true, false, not, Option, none, some, List, [], ◌∷◌, ◌++◌, ◌==◌, ◌&&◌,
  ◌||◌, if◌then◌else◌, Text, Rune, text_eq, codes, length, take,
}
use aish.Env.{Env, get, is_ident_start, is_ident_cont, is_identifier}

-- strings.ContainsAny(input, "$'\"")
unfoldable pub has_special : Text → Bool
has_special [] = false
has_special (r ∷ rs) = r == b'$' || r == b'\'' || r == b'"' || has_special rs

-- The loop that looks for `}`: its distance.
unfoldable pub closing_brace : Text → Option ℕ
closing_brace [] = none
closing_brace (r ∷ rs) =
    if r == b'}' then some 0 else elim (closing_brace rs) [ none ↦ none | some k ↦ some (suc k) ]

-- The loop that consumes a name: how many runes continue it.
unfoldable pub ident_run : Text → ℕ
ident_run [] = 0
ident_run (r ∷ rs) = let rest = ident_run rs in if is_ident_cont r then suc rest else 0

-- The cases of the loop's body at a rune.
pub data Step : Type 0 where
  toggle_single toggle_double literal dollar : Step

unfoldable pub step_of : Bool → Bool → Rune → Step
step_of in_single in_double r =
    if r == b'\'' && not in_double
    then toggle_single
    else if r == b'"' && not in_single
    then toggle_double
    else if in_single
    then literal
    else if r == b'$'
    then dollar
    else literal

-- The cases of the switch on the rune after `$`.
pub data After : Type 0 where
  status brace name lone : After

unfoldable pub after : Rune → After
after next =
    if next == b'?'
    then status
    else if next == b'{'
    then brace
    else if is_ident_start next
    then name
    else lone

module _ (e : Env) (exit_text : Text) where
  -- What a name is replaced by; an unset one by nothing.
  unfoldable pub value_of : Text → Text
  value_of n = elim (get n e) [ none ↦ [] | some v ↦ v ]

  unfoldable pub braced : Text → Text
  unfolding value_of
  braced n =
      if text_eq n (b'?' ∷ [])
      then exit_text
      else if is_identifier n
      then value_of n
      else b'$' ∷ b'{' ∷ (n ++ b'}' ∷ [])

  -- What is written at a `$` that `rs` follows, and how many runes of `rs` are consumed.
  unfoldable pub substitute : Text → Text × ℕ
  unfolding after closing_brace ident_run braced
  substitute [] = (b'$' ∷ [], 0)
  substitute (next ∷ rs) = elim (after next) [
    | status ↦ (exit_text, 1)
    | brace ↦ elim (closing_brace rs) [
      | none ↦ (b'$' ∷ [], 0)
      | some k ↦ (braced (take k rs), suc (suc k))
    ]
    | name ↦ (value_of (take (suc (ident_run rs)) (next ∷ rs)), suc (ident_run rs))
    | lone ↦ (b'$' ∷ [], 0)
  ]

  -- The loop; the first number counts the runes that were consumed ahead.
  unfoldable pub expand_from : ℕ → Bool → Bool → Text → Text
  unfolding step_of substitute
  expand_from skip in_single in_double [] = []
  expand_from (suc skip) in_single in_double (r ∷ rs) = expand_from skip in_single in_double rs
  expand_from zero in_single in_double (r ∷ rs) = elim (step_of in_single in_double r) [
    | toggle_single ↦ r ∷ expand_from 0 (not in_single) in_double rs
    | toggle_double ↦ r ∷ expand_from 0 in_single (not in_double) rs
    | literal ↦ r ∷ expand_from 0 in_single in_double rs
    | dollar ↦ (substitute rs).0 ++ expand_from (substitute rs).1 in_single in_double rs
  ]

  -- Expand
  unfoldable pub expand : Text → Text
  unfolding has_special expand_from
  expand input = if has_special input then expand_from 0 false false input else input
