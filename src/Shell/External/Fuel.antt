-- ===== src/Shell/External/Fuel.antt =====
-- How deep RunForCapture and runExternal of shell/internal/shell/shell.go call each other.
use aish.Prelude.{
  ℕ, zero, suc, ◌≡◌, refl, subst, ◌∙◌, ◌⊎◌, inl, inr, Option, none, some, List-cases, List, [], ◌∷◌,
  ◌++◌, ◌==◌, trim_right_while, Text, codes, contains, All, false,
}
use aish.Parser.{Pipeline, ParseError, Result, ok, err, panic, parse}
use aish.Parser.Expand.{Paths}
use aish.Parser.Substitution.{
  Outcome, failed, too_deep, unterminated, expand_line, expand_cmd_sub, capture, write,
}
use aish.Parser.Substitution.Executors.{Failed, Better, expand_line-Extends}
use aish.Parser.Substitution.Pieces.{
  Piece, plain, quoted, escaped, command_of, IsPiece, is_bracket, print_pieces, meaning,
  expand_line-pieces, no_substitution,
}
use aish.Parser.Sound.Accepts.{Parsed, parse_lem}
use aish.Shell.Alias.{resolve_alias}
use aish.Shell.State.{Shell, Operations}
use aish.Shell.External.{
  Exhausted, exhausted, run_substituted, after_substitution, run_external_with, captured,
  run_for_capture, run_external,
}

pub Result-cases :
    (r : Result Pipeline)
    → ((e : ParseError) × (r ≡ err e)) ⊎ (((pl : Pipeline) × (r ≡ ok pl)) ⊎ (r ≡ panic))
Result-cases (ok pl) = inr (inl (pl, refl))
Result-cases (err e) = inl (e, refl)
Result-cases panic = inr (inr refl)

-- There is a state after the call.
abbrev pub Done : {W : Type 0} → Option (Shell W) → Type 0
Done {W} o = (s' : Shell W) × (o ≡ some s')

module _ {W : Type 0} (ops : Operations W) (paths : Paths) where
  Failed-none :
      (cmdline : Text) (o : Outcome (Shell W) Exhausted)
      → Failed o
      → after_substitution ops paths cmdline o ≡ none
  unfolding after_substitution
  Failed-none cmdline (inl (failed c exhausted), s) h = refl
  Failed-none cmdline (inl too_deep, s) h = absurd h
  Failed-none cmdline (inl unterminated, s) h = absurd h
  Failed-none cmdline (inr t, s) h = absurd h

  external_with-Better :
      (run run' : Text → Shell W → (Exhausted ⊎ Text) × Shell W) (cmdline : Text) (s : Shell W)
      → Better run run'
      → (run_external_with ops paths run cmdline s ≡ none)
        ⊎ (run_external_with ops paths run' cmdline s ≡ run_external_with ops paths run cmdline s)
  unfolding run_external_with
  external_with-Better run run' cmdline s better =
      elim (expand_line-Extends run run' better cmdline s) [
        | inl h ↦ inl (Failed-none cmdline (expand_line (some run) cmdline s) h)
        | inr e ↦ inr (rw e)
      ]

  Better-suc : (n : ℕ) → Better (run_for_capture ops paths n) (run_for_capture ops paths (suc n))
  unfolding run_for_capture captured
  Better-suc zero c s = inl (exhausted, s, refl)
  Better-suc (suc n) c s =
      elim (external_with-Better (run_for_capture ops paths n) (run_for_capture ops paths (suc n)) c
        (record s { out = [] }) (Better-suc n)) [
          | inl e ↦ inl (exhausted, s, rw (e, run_for_capture))
          | inr e ↦ inr (rw (e, run_for_capture))
        ]

  -- What runExternal does is the same for every bound on nested calls that it does not reach.
  pub run_external-stable :
      (n : ℕ) (cmdline : Text) (s : Shell W) {s' : Shell W}
      → run_external ops paths n cmdline s ≡ some s'
      → run_external ops paths (suc n) cmdline s ≡ some s'
  unfolding run_external
  run_external-stable n cmdline s {s' = s'} h =
      elim (external_with-Better (run_for_capture ops paths n) (run_for_capture ops paths (suc n))
        cmdline s (Better-suc n)) [ inl e ↦ absurd (cc (e, h)) | inr e ↦ e ∙ h ]

  at_parse :
      (substituted cmdline : Text) (s : Shell W)
      → Done (run_substituted ops paths substituted cmdline s)
  unfolding run_substituted
  at_parse substituted cmdline s =
      let line = (resolve_alias s.aliases substituted).0 in
      elim (Result-cases (parse line)) [
        | inl (e, p) ↦ rw (p, run_substituted) (_, refl)
        | inr (inr p) ↦ absurd (subst (Parsed line) p (parse_lem line))
        | inr (inl (pl, p)) ↦ elim (List-cases pl.commands) [
          | inl e ↦ rw (p, run_substituted, e) (_, refl)
          | inr (c, cs, e) ↦ rw (p, run_substituted, e) (_, refl)
        ]
      ]

  -- Every command without quotes and parentheses succeeds.
  abbrev Runs : (Text → Shell W → (Exhausted ⊎ Text) × Shell W) → Type 0
  Runs run =
      (t : Text) (s : Shell W)
      → All (λ r. is_bracket r ≡ false) t
      → (out : Text) × (s' : Shell W) × (run t s ≡ (inr out, s'))

  abbrev Written : Outcome (Shell W) Exhausted → Type 0
  Written o = (t : Text) × (s' : Shell W) × (o ≡ (inr t, s'))

  write-Written : (t : Text) (o : Outcome (Shell W) Exhausted) → Written o → Written (write t o)
  unfolding write
  write-Written t o (u, s', e) = rw (e, write) (_, _, refl)

  meaning-Written :
      (run : Text → Shell W → (Exhausted ⊎ Text) × Shell W) (ps : List Piece) (s : Shell W)
      → Runs run
      → All IsPiece ps
      → Written (meaning run ps s)
  unfolding meaning capture
  meaning-Written run [] s h k = (_, _, refl)
  meaning-Written run (plain r ∷ ps) s h k =
      write-Written (r ∷ []) (meaning run ps s) (meaning-Written run ps s h k.1)
  meaning-Written run (quoted t ∷ ps) s h k =
      write-Written (b'\'' ∷ (t ++ b'\'' ∷ [])) (meaning run ps s) (meaning-Written run ps s h k.1)
  meaning-Written run (escaped r ∷ ps) s h k =
      write-Written (b'\\' ∷ r ∷ []) (meaning run ps s) (meaning-Written run ps s h k.1)
  meaning-Written run (command_of t ∷ ps) s h k =
      let (out, s', e) = h t s k.0 in
      rw (e, meaning, capture)
        (write-Written (trim_right_while (λ r. r == b'\n') out) (meaning run ps s')
          (meaning-Written run ps s' h k.1))

  expand_line-kept :
      (run : Text → Shell W → (Exhausted ⊎ Text) × Shell W) (t : Text) (s : Shell W)
      → contains t (codes "$(") ≡ false
      → expand_line (some run) t s ≡ (inr t, s)
  unfolding expand_line expand_cmd_sub
  expand_line-kept run t s h = rw (h, expand_line, expand_cmd_sub)

  run_for_capture-Runs : (n : ℕ) → Runs (run_for_capture ops paths (suc n))
  unfolding run_for_capture run_external_with after_substitution captured
  run_for_capture-Runs n t s h =
      let s₀ : Shell W = record s { out = [] } in
      let (s', e) = at_parse t t s₀ in
      rw
        (
          expand_line-kept (run_for_capture ops paths n) t s₀ (no_substitution t h),
          run_for_capture,
          run_external_with,
          after_substitution,
          e,
          captured,
        )
        (_, _, refl)

  -- One level of calls is enough for a line whose substitutions do not nest: on plain runes, texts
  -- in single quotes, escaped runes and commands without quotes and parentheses, runExternal
  -- comes to an end, whatever the commands print and however they exit; it never indexes an empty
  -- stage of a pipeline.
  pub run_external-Done :
      (n : ℕ) (ps : List Piece) (s : Shell W)
      → All IsPiece ps
      → Done (run_external ops paths (suc n) (print_pieces ps) s)
  unfolding run_external run_external_with after_substitution
  run_external-Done n ps s h =
      let run = run_for_capture ops paths (suc n) in
      let (t, s', e) = meaning-Written run ps s (run_for_capture-Runs n) h in
      rw (expand_line-pieces run ps s h, run_external, run_external_with, e, after_substitution)
        (at_parse t (print_pieces ps) s')
