-- ===== src/Shell/Source.antt =====
-- shell/internal/shell/builtin_source.go: the builtin `source`.
use aish.Prelude.{
  ℕ, zero, suc, Bool, true, false, ◌||◌, Option, none, some, List, [], ◌∷◌, if◌then◌else◌, Text,
  codes, text_eq, has_prefix, trim_prefix, trim_space, contains,
}
use aish.Env.{set, split_eq}
use aish.Translate.Bash.Line.{strip_outer_quotes}
use aish.Shell.Alias.{alias_set}
use aish.Shell.State.{
  Shell, complain, usage, no_file, read_failed, key_refused, umask_ignored, malformed, refused,
}

-- The tables of an rcFile, in the order in which the runtime visits them, and whether it sets a
-- umask.
pub record RcFile : Type 0 where
  pub env : List (Text × Text)
  pub aliases : List (Text × Text)
  pub umask : Bool

-- The file system, toml.Decode, and bufio.Scanner, which gives the lines and whether it failed.
pub record Reading (W : Type 0) : Type 0 where
  pub read_file : Text → W → Option Text
  pub decode : Text → Option RcFile
  pub scan : Text → List Text × Bool

-- What a line of `KEY=VALUE` assigns.
pub data LineKind : Type 0 where
  skipped bad : LineKind
  assigns : Text → Text → LineKind

unexport : Text → Text
unfolding has_prefix trim_prefix trim_space
unexport line =
    if has_prefix line (codes "export ")
    then trim_space (trim_prefix line (codes "export "))
    else line

assignment : Option (Text × Text) → LineKind
unfolding trim_space strip_outer_quotes
assignment none = bad
assignment (some ([], value)) = bad
assignment (some (c ∷ name, value)) =
    assigns (trim_space (c ∷ name)) (strip_outer_quotes (trim_space value))

unfoldable pub line_kind : Text → LineKind
unfolding unexport assignment trim_space text_eq has_prefix split_eq
line_kind text =
    let line = trim_space text in
    if text_eq line [] || has_prefix line (codes "#")
    then skipped
    else assignment (split_eq (unexport line))

module _ {W : Type 0} where
  -- The loops of applySourcedRC, with `applied`.
  apply_env : List (Text × Text) → Bool × Shell W → Bool × Shell W
  unfolding set
  apply_env [] r = r
  apply_env ((k, v) ∷ rest) (applied, s) = elim (set k v s.env) [
    | none ↦ apply_env rest (applied, complain key_refused s)
    | some e ↦ apply_env rest (true, record s { env = e })
  ]

  apply_aliases : List (Text × Text) → Bool × Shell W → Bool × Shell W
  unfolding alias_set
  apply_aliases [] r = r
  apply_aliases ((k, v) ∷ rest) (applied, s) =
      apply_aliases rest (true, record s { aliases = alias_set k v s.aliases })

  warn_umask : Bool → Bool × Shell W → Bool × Shell W
  warn_umask true (applied, s) = (applied, complain umask_ignored s)
  warn_umask false r = r

  -- applySourcedRC
  unfoldable pub apply_sourced_rc : RcFile → Shell W → Bool × Shell W
  unfolding apply_env apply_aliases warn_umask
  apply_sourced_rc rc s =
      warn_umask rc.umask (apply_aliases rc.aliases (apply_env rc.env (false, s)))

  -- One round of the loop of applySourcedEnvLines: how many lines are applied, and the state.
  unfoldable pub apply_line : ℕ → Text → ℕ × Shell W → ℕ × Shell W
  unfolding line_kind set
  apply_line lineno text (applied, s) = elim (line_kind text) [
    | skipped ↦ (applied, s)
    | bad ↦ (applied, complain (malformed lineno) s)
    | assigns name value ↦ elim (set name value s.env) [
      | none ↦ (applied, complain (refused lineno) s)
      | some e ↦ (suc applied, record s { env = e })
    ]
  ]

  unfoldable pub apply_lines : ℕ → List Text → ℕ × Shell W → ℕ × Shell W
  unfolding apply_line
  apply_lines lineno [] r = r
  apply_lines lineno (text ∷ rest) r =
      apply_lines (suc lineno) rest (apply_line (suc lineno) text r)

  exit_of : Bool → ℕ × Shell W → ℕ × Shell W
  exit_of true (applied, s) = (1, complain read_failed s)
  exit_of false (zero, s) = (1, s)
  exit_of false (suc n, s) = (0, s)

  -- applySourcedEnvLines, on what the scanner gives.
  unfoldable pub apply_sourced_env_lines : List Text × Bool → Shell W → ℕ × Shell W
  unfolding apply_lines exit_of
  apply_sourced_env_lines (lines, failed) s = exit_of failed (apply_lines 0 lines (0, s))

module _ {W : Type 0} (io : Reading W) where
  -- rcLooksTOML
  abbrev pub rc_looks_toml : Text → Bool
  rc_looks_toml raw = contains raw (codes "[")

  source_text : Text → Shell W → ℕ × Shell W
  unfolding apply_sourced_rc apply_sourced_env_lines contains
  source_text raw s = elim (io.decode raw) [
    | none ↦ apply_sourced_env_lines (io.scan raw) s
    | some rc ↦
        if rc_looks_toml raw
        then (let (applied, s') = apply_sourced_rc rc s in
            if applied then (0, s') else apply_sourced_env_lines (io.scan raw) s')
        else apply_sourced_env_lines (io.scan raw) s
  ]

  -- sourceBuiltin
  unfoldable pub source_builtin : List Text → Shell W → ℕ × Shell W
  unfolding source_text
  source_builtin [] s = (2, complain usage s)
  source_builtin (path ∷ args) s = elim (io.read_file path s.world) [
    | none ↦ (1, complain no_file s)
    | some raw ↦ source_text raw s
  ]
