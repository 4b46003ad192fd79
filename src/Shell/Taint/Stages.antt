-- ===== src/Shell/Taint/Stages.antt =====
-- Which stages tagPipelineTaint of shell/internal/shell/taint.go taints.
use aish.Prelude.{◌≡◌, refl, Bool, false, ◌||◌, List, [], ◌∷◌, map, arith}
use aish.Parser.{Command, Pipeline}
use aish.Shell.Taint.{
  Registry, any_has, is_secret_get_stage, argv_matches_tainted, tag_command, tag_commands,
  tag_pipeline_taint,
}

-- A stage that names a registered text, or reads a secret.
unfoldable pub reveals : Registry → Command → Bool
reveals reg c = is_secret_get_stage c || any_has (c.name ∷ c.args) reg

unfoldable pub any_reveals : Registry → List Command → Bool
any_reveals reg [] = false
any_reveals reg (c ∷ cs) = reveals reg c || any_reveals reg cs

abbrev pub marked : Registry → Command → Command
marked reg c = record c { tainted = reveals reg c || c.tainted }

tag_command_lem : (reg : Registry) (c : Command) → tag_command reg c ≡ (marked reg c, reveals reg c)
unfolding tag_command reveals argv_matches_tainted any_has
tag_command_lem reg c = ground arith

tag_commands_lem :
    (reg : Registry) (cs : List Command)
    → tag_commands reg cs ≡ (map (marked reg) cs, any_reveals reg cs)
unfolding tag_commands any_reveals
tag_commands_lem reg [] = refl
tag_commands_lem reg (c ∷ cs) = rw (tag_command_lem reg c, tag_commands, tag_commands_lem reg cs)

-- tagPipelineTaint changes marks only: a stage is tainted after it if it was, if its name or an
-- argument is a registered text, or if it is `secret get`; the pipeline is tainted if it was, or if
-- some stage is for one of the last two reasons.
pub tag_pipeline_taint_lem :
    (reg : Registry) (pl : Pipeline)
    → tag_pipeline_taint reg pl ≡ record {
      commands = map (marked reg) pl.commands;
      background = pl.background;
      tainted = any_reveals reg pl.commands || pl.tainted;
    }
unfolding tag_pipeline_taint
tag_pipeline_taint_lem reg pl =
    rw (tag_commands_lem reg pl.commands, tag_pipeline_taint) (ground arith)
