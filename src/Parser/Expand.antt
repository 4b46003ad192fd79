-- ===== src/Parser/Expand.antt =====
-- ExpandPipeline and expandGlob of shell/internal/parser/expand.go. The functions of path/filepath
-- are arguments.
use aish.Prelude.{
  Bool, not, ◌&&◌, Option, none, some, List, [], ◌∷◌, ◌++◌, map, if◌then◌else◌, Text, codes,
  contains_any, text_eq, trim_prefix,
}
use aish.Parser.{Command, Pipeline}
use aish.Parser.Braces.{expand_brace}

-- filepath.IsAbs, Join, Separator, and Glob, which may fail.
pub record Paths : Type 0 where
  pub is_abs : Text → Bool
  pub join : Text → Text → Text
  pub separator : Text
  pub glob : Text → Option (List Text)

module _ (paths : Paths) (cwd : Text) where
  unfoldable pub glob_pattern : Text → Text
  unfolding text_eq
  glob_pattern token =
      if not (paths.is_abs token) && not (text_eq cwd []) then paths.join cwd token else token

  unfoldable pub expand_glob : Text → List Text
  unfolding glob_pattern text_eq trim_prefix
  expand_glob token =
      if not (contains_any token (codes "*?["))
      then token ∷ []
      else elim (paths.glob (glob_pattern token)) [
        | none ↦ token ∷ []
        | some [] ↦ token ∷ []
        | some (m ∷ ms) ↦
            if not (text_eq (glob_pattern token) token) && not (text_eq cwd [])
            then map (λ path. trim_prefix path (cwd ++ paths.separator)) (m ∷ ms)
            else m ∷ ms
      ]

  unfoldable pub glob_all : List Text → List Text
  unfolding expand_glob
  glob_all [] = []
  glob_all (t ∷ ts) = expand_glob t ++ glob_all ts

  unfoldable pub expand_args : List Text → List Text
  unfolding glob_all expand_brace
  expand_args [] = []
  expand_args (a ∷ args) = glob_all (expand_brace a) ++ expand_args args

  abbrev pub expand_command : Command → Command
  expand_command c = record { name = c.name; args = expand_args c.args; tainted = c.tainted }

  unfoldable pub expand_pipeline : Pipeline → Pipeline
  unfolding expand_args
  expand_pipeline p = record {
    commands = map expand_command p.commands;
    background = p.background;
    tainted = p.tainted;
  }
