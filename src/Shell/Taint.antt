-- ===== src/Shell/Taint.antt =====
-- shell/internal/shell/taint.go, and the registry of shell/internal/secrets/taint.go.
pub mod Stages
pub mod Registered
pub mod Marks
use aish.Prelude.{
  Bool, true, false, ◌||◌, ◌&&◌, not, Option, none, some, List, [], ◌∷◌, ◌++◌, if◌then◌else◌, Text,
  codes, has_prefix, text_eq, trim_space, trim_right_while, drop_while, drop, ◌==◌, Rune,
}
use aish.Parser.{Command, Pipeline}
use aish.Shell.{is_blank}

-- A pointer to a registry: the texts that were added, or nil.
abbrev pub Registry : Type 0
Registry = Option (List Text)

among : Text → List Text → Bool
unfolding text_eq
among value [] = false
among value (t ∷ ts) = text_eq t value || among value ts

-- TaintedRegistry.Has
unfoldable pub has : Text → Registry → Bool
unfolding among
has value none = false
has [] (some ts) = false
has (c ∷ value) (some ts) = among (c ∷ value) ts

-- TaintedRegistry.Add
unfoldable pub add : Text → Registry → Registry
add value none = none
add [] (some ts) = some ts
add (c ∷ value) (some ts) = some ((c ∷ value) ∷ ts)

-- isSecretGetStage
unfoldable pub is_secret_get_stage : Command → Bool
unfolding text_eq
is_secret_get_stage c = elim c.args [
  | [] ↦ false
  | first ∷ args ↦ text_eq c.name (codes "secret") && text_eq first (codes "get")
]

unfoldable pub any_has : List Text → Registry → Bool
unfolding has
any_has [] reg = false
any_has (a ∷ args) reg = has a reg || any_has args reg

-- argvMatchesTainted
unfoldable pub argv_matches_tainted : Text → List Text → Registry → Bool
unfolding has any_has
argv_matches_tainted name args reg = has name reg || any_has args reg

-- One round of tagPipelineTaint's loop: the command, and whether it turns anyTainted on.
unfoldable pub tag_command : Registry → Command → Command × Bool
unfolding is_secret_get_stage argv_matches_tainted
tag_command reg c =
    if is_secret_get_stage c
    then (record c { tainted = true }, true)
    else if argv_matches_tainted c.name c.args reg
    then (record c { tainted = true }, true)
    else (c, false)

unfoldable pub tag_commands : Registry → List Command → List Command × Bool
unfolding tag_command
tag_commands reg [] = ([], false)
tag_commands reg (c ∷ cs) =
    let (c', now) = tag_command reg c in
    let (cs', later) = tag_commands reg cs in (c' ∷ cs', now || later)

-- tagPipelineTaint
unfoldable pub tag_pipeline_taint : Registry → Pipeline → Pipeline
unfolding tag_commands
tag_pipeline_taint reg pl =
    let (cs, any_tainted) = tag_commands reg pl.commands in
    record pl { commands = cs; tainted = if any_tainted then true else pl.tainted }

starts_blank : Text → Bool
starts_blank [] = false
starts_blank (c ∷ s) = is_blank c

-- What follows `secret` and blanks.
is_get : Text → Bool
unfolding starts_blank has_prefix
is_get rest = has_prefix rest (codes "get") && starts_blank (drop 3 rest)

-- isSecretGetInvocation of shell.go
unfoldable pub is_secret_get_invocation : Text → Bool
unfolding trim_space has_prefix starts_blank is_get drop_while
is_secret_get_invocation cmd =
    let trimmed = trim_space cmd in
    has_prefix trimmed (codes "secret")
    && (starts_blank (drop 6 trimmed) && is_get (drop_while is_blank (drop 6 trimmed)))

abbrev is_newline : Rune → Bool
is_newline r = r == b'\n'

-- What RunForCapture registers of the output of a command.
unfoldable pub register_captured : Text → Text → Registry → Registry
unfolding is_secret_get_invocation add trim_right_while text_eq
register_captured cmd captured reg =
    if is_secret_get_invocation cmd
    then (let trimmed = trim_right_while is_newline captured in
        let reg' = add captured reg in
        if not (text_eq trimmed captured) then add trimmed reg' else reg')
    else reg
