-- ===== src/Parser/Substitution.antt =====
-- Command substitution in shell/internal/parser/expand.go. The world and RunForCapture, which takes
-- what it writes to stderr along with it, are arguments.
pub mod Pieces
pub mod Executors
pub mod Keeps
use aish.Prelude.{
  ℕ, zero, suc, ◌-◌, Bool, true, false, not, ◌&&◌, ◌||◌, ◌⊎◌, inl, inr, Option, none, some, List,
  [], ◌∷◌, ◌++◌, ◌==◌, if◌then◌else◌, take, drop, Text, Rune, codes, contains, has_prefix,
  trim_right_while,
}

-- The errors: too many levels, no closing parenthesis, an error of a command's own.
pub data SubError (E : Type 0) : Type 0 where
  too_deep unterminated : SubError E
  failed : Text → E → SubError E

abbrev shift : Option ℕ → Option ℕ
shift none = none
shift (some k) = some (suc k)

-- findMatchingParen, on what follows the `(`, with the depth and the two flags.
unfoldable pub matching_paren : ℕ → Bool → Bool → Text → Option ℕ
matching_paren depth in_single in_double [] = none
matching_paren depth in_single in_double (r ∷ rs) =
    let quoted = in_single || in_double in
    let rest =
      matching_paren
        (if quoted
          then depth
          else if r == b'('
          then suc depth
          else if r == b')'
          then depth - 1
          else depth)
        (if (r == b'\'') && not in_double then not in_single else in_single)
        (if (r == b'"') && not in_single then not in_double else in_double) rs in
    if (r == b')') && (not quoted && (depth == 1)) then some 0 else shift rest

-- The cases of expandCmdSub's loop.
pub data Place : Type 0 where
  opens_single closes_single within_single escape substitution other : Place

unfoldable pub place : Bool → Rune → Text → Place
unfolding has_prefix
place in_single r rs =
    if (r == b'\'') && not in_single
    then opens_single
    else if (r == b'\'') && in_single
    then closes_single
    else if in_single
    then within_single
    else if (r == b'\\') && has_next rs
    then escape
    else if (r == b'$') && has_prefix rs (codes "(")
    then substitution
    else other
  where
    has_next : Text → Bool
    has_next [] = false
    has_next (c ∷ s) = true

abbrev is_newline : Rune → Bool
is_newline r = r == b'\n'

-- maxCmdSubDepth
abbrev pub max_cmd_sub_depth : ℕ
max_cmd_sub_depth = 16

-- A text or an error, and the world after it.
abbrev pub Outcome : Type 0 → Type 0 → Type 0
Outcome W E = (SubError E ⊎ Text) × W

module _ {W E : Type 0} where
  -- WriteString, and then the rest.
  unfoldable pub write : Text → Outcome W E → Outcome W E
  write t (inl e, w) = (inl e, w)
  write t (inr rest, w) = (inr (t ++ rest), w)

  unfoldable pub and_expanded : Outcome W E → (Text → W → Outcome W E) → Outcome W E
  and_expanded (inl e, w) f = (inl e, w)
  and_expanded (inr t, w) f = f t w

  module _ (run_for_capture : Text → W → (E ⊎ Text) × W) where
    -- The output without trailing newlines, and then the rest.
    unfoldable pub capture : Text → (W → Outcome W E) → (E ⊎ Text) × W → Outcome W E
    unfolding write trim_right_while
    capture command next (inl e, w) = (inl (failed command e), w)
    capture command next (inr out, w) = write (trim_right_while is_newline out) (next w)

    -- The loop, on the runes from index `i` on; `inner` is the call one level deeper, the number
    -- counts the runes that an assignment to `i` skips.
    unfoldable pub sub_loop : (Text → W → Outcome W E) → ℕ → Bool → Text → W → Outcome W E
    unfolding matching_paren place write and_expanded capture
    sub_loop inner skip in_single [] w = (inr [], w)
    sub_loop inner (suc skip) in_single (r ∷ rs) w = sub_loop inner skip in_single rs w
    sub_loop inner zero in_single (r ∷ rs) w = elim (place in_single r rs) [
      | opens_single ↦ write (r ∷ []) (sub_loop inner 0 true rs w)
      | closes_single ↦ write (r ∷ []) (sub_loop inner 0 false rs w)
      | within_single ↦ write (r ∷ []) (sub_loop inner 0 in_single rs w)
      | escape ↦ write (r ∷ take 1 rs) (sub_loop inner 1 in_single rs w)
      | substitution ↦ elim (matching_paren 1 false false (drop 1 rs)) [
        | none ↦ (inl unterminated, w)
        | some k ↦
            let command = take k (drop 1 rs) in
            and_expanded (inner command w) (λ expanded w'.
              capture command (sub_loop inner (suc (suc k)) in_single rs)
                (run_for_capture expanded w'))
      ]
      | other ↦ write (r ∷ []) (sub_loop inner 0 in_single rs w)
    ]

    -- expandCmdSub, by how many levels deeper it may go, and one.
    unfoldable pub expand_cmd_sub : ℕ → Text → W → Outcome W E
    unfolding sub_loop contains
    expand_cmd_sub zero input w = (inl too_deep, w)
    expand_cmd_sub (suc n) input w =
        if contains input (codes "$(")
        then sub_loop (expand_cmd_sub n) 0 false input w
        else (inr input, w)

  -- ExpandLine; without an executor the line is kept.
  unfoldable pub expand_line : Option (Text → W → (E ⊎ Text) × W) → Text → W → Outcome W E
  unfolding expand_cmd_sub
  expand_line none input w = (inr input, w)
  expand_line (some run_for_capture) input w =
      expand_cmd_sub run_for_capture (suc max_cmd_sub_depth) input w
