-- ===== src/Shell/Builtins.antt =====
-- shell/internal/shell: the builtins `cd`, `export` (shell.go), `set` (builtin_set.go), `unset`
-- (builtin_unset.go), `logout` (builtin_logout.go), `exec` (builtin_exec.go) and `alias`.
use aish.Prelude.{
  ℕ, Bool, true, false, not, ◌||◌, Option, none, some, List, [], ◌∷◌, ◌++◌, map, if◌then◌else◌,
  Text, codes, text_eq, has_prefix, cut_prefix, trim_space, atoi,
}
use aish.Prelude.Int.{ℤ, pos}
use aish.Env.{Env, get, split_eq, environ}
use aish.Parser.{parse, ok, err, panic}
use aish.Translate.Bash.Line.{strip_outer_quotes}
use aish.Shell.Alias.{alias_builtin}
use aish.Shell.State.{
  Shell, set_last_exit, complain, no_home, no_directory, no_equals, empty_name, option_flag, usage,
  alias_failed, not_login, not_numeric, not_found, exec_parse, print_lines,
}

-- homeDir
unfoldable pub home_dir : Env → Text
unfolding get
home_dir e = elim (get (codes "HOME") e) [
  | some (c ∷ h) ↦ c ∷ h
  | _ ↦ elim (get (codes "USERPROFILE") e) [ some h ↦ h | none ↦ [] ]
]

-- What the operating system does for them; `resolve` is LookPath or Stat for a command's name, and
-- `replace_process` says with which code the process goes on, if it does.
pub record System (W : Type 0) : Type 0 where
  pub is_abs : Text → Bool
  pub join : Text → Text → Text
  pub is_dir : Text → W → Option Bool
  pub chdir : Text → W → Bool × W
  pub getwd : W → Option Text
  pub resolve : Text → Env → W → Option Text
  pub replace_process : Text → List Text → List Text → W → Option ℤ × W
  pub sort : List Text → List Text
  pub login_mode : Bool

module _ {W : Type 0} (sys : System W) where
  under_home : Text → Env → Text
  unfolding home_dir
  under_home rest e = elim (home_dir e) [ [] ↦ [] | c ∷ h ↦ sys.join (c ∷ h) rest ]

  -- expandTilde
  unfoldable pub expand_tilde : Text → Env → Text
  unfolding home_dir under_home text_eq cut_prefix
  expand_tilde path e =
      if text_eq path [] || text_eq path (codes "~")
      then home_dir e
      else elim (cut_prefix (codes "~/") path) [ some rest ↦ under_home rest e | none ↦ path ]

  abbrev pub absolute : Text → Text → Text
  absolute cwd target = if sys.is_abs target then target else sys.join cwd target

  enter : Text → Shell W → Option (Shell W)
  enter target s =
      let (entered, w) = sys.chdir target s.world in
      if entered
      then elim (sys.getwd w) [
        | some resolved ↦ some (record s { cwd = resolved; world = w })
        | none ↦ some (record s { cwd = target; world = w })
      ]
      else none

  change_to : Text → Shell W → Option (Shell W)
  unfolding enter
  change_to target s = elim (sys.is_dir target s.world) [ some true ↦ enter target s | _ ↦ none ]

  -- Cd, with the line's exit code and message.
  unfoldable pub cd_builtin : Text → Shell W → Shell W
  unfolding expand_tilde change_to
  cd_builtin path s = elim (expand_tilde path s.env) [
    | [] ↦ set_last_exit (pos 1) (complain no_home s)
    | c ∷ target ↦ elim (change_to (absolute s.cwd (c ∷ target)) s) [
      | none ↦ set_last_exit (pos 1) (complain no_directory s)
      | some s' ↦ set_last_exit (pos 0) s'
    ]
  ]

  -- `export`, on what follows it.
  unfoldable pub export_builtin : Text → Shell W → Shell W
  unfolding split_eq strip_outer_quotes aish.Env.set
  export_builtin spec s = elim (split_eq spec) [
    | none ↦ set_last_exit (pos 1) (complain no_equals s)
    | some (name, value) ↦ elim (aish.Env.set name (strip_outer_quotes value) s.env) [
      | none ↦ set_last_exit (pos 1) (complain empty_name s)
      | some e ↦ set_last_exit (pos 0) (record s { env = e })
    ]
  ]

  -- The first loop of setBuiltin.
  unfoldable pub has_option : List Text → Bool
  unfolding has_prefix
  has_option [] = false
  has_option (a ∷ args) = has_prefix a (codes "-") || has_prefix a (codes "+") || has_option args

  set_one : Text → ℕ × Shell W → ℕ × Shell W
  unfolding split_eq strip_outer_quotes aish.Env.set
  set_one arg (exit, s) = elim (split_eq arg) [
    | none ↦ (2, complain no_equals s)
    | some ([], value) ↦ (2, complain empty_name s)
    | some (c ∷ name, value) ↦ elim (aish.Env.set (c ∷ name) (strip_outer_quotes value) s.env) [
      | none ↦ (1, complain empty_name s)
      | some e ↦ (exit, record s { env = e })
    ]
  ]

  unfoldable pub set_all : List Text → ℕ × Shell W → ℕ × Shell W
  unfolding set_one
  set_all [] r = r
  set_all (arg ∷ args) r = set_all args (set_one arg r)

  -- setBuiltin
  unfoldable pub set_builtin : List Text → Shell W → ℕ × Shell W
  unfolding set_all has_option print_lines
  set_builtin [] s = (0, record s { out = s.out ++ print_lines (sys.sort (environ s.env)) })
  set_builtin (arg ∷ args) s =
      if has_option (arg ∷ args) then (2, complain option_flag s) else set_all (arg ∷ args) (0, s)

  -- The loop of unsetBuiltin.
  unfoldable pub unset_all : List Text → ℕ × Shell W → ℕ × Shell W
  unfolding aish.Env.unset
  unset_all [] r = r
  unset_all ([] ∷ names) (exit, s) = unset_all names (2, complain empty_name s)
  unset_all ((c ∷ name) ∷ names) (exit, s) =
      unset_all names (exit, record s { env = aish.Env.unset (c ∷ name) s.env })

  -- unsetBuiltin
  unfoldable pub unset_builtin : List Text → Shell W → ℕ × Shell W
  unfolding unset_all
  unset_builtin [] s = (2, complain usage s)
  unset_builtin (name ∷ names) s = unset_all (name ∷ names) (0, s)

  -- aliasBuiltin, on the state of the shell.
  unfoldable pub alias_command : List Text → Shell W → ℕ × Shell W
  unfolding alias_builtin
  alias_command args s =
      let r = alias_builtin sys.sort args s.aliases in
      (
        r.exit,
        record s {
          aliases = r.aliases;
          out = s.out ++ r.out;
          errors = s.errors ++ map alias_failed r.errors;
        },
      )

  -- logoutBuiltin: the code of the sentinel that ends the loop, if it returns one.
  unfoldable pub logout_builtin : List Text → Shell W → Option ℤ × Shell W
  unfolding atoi trim_space
  logout_builtin args s =
      if not sys.login_mode
      then (none, set_last_exit (pos 1) (complain not_login s))
      else elim args [
        | [] ↦ (some (pos 0), set_last_exit (pos 0) s)
        | raw ∷ _ ↦ elim (atoi (trim_space raw)) [
          | none ↦ (none, set_last_exit (pos 1) (complain not_numeric s))
          | some n ↦ (some n, set_last_exit n s)
        ]
      ]

  -- execBuiltin
  unfoldable pub exec_builtin : List Text → Shell W → Option ℤ × Shell W
  exec_builtin [] s = (none, set_last_exit (pos 0) s)
  exec_builtin (cmd ∷ args) s = elim (sys.resolve cmd s.env s.world) [
    | none ↦ (some (pos 127), set_last_exit (pos 127) (complain not_found s))
    | some binary ↦
        (let (code, w) = sys.replace_process binary (cmd ∷ args) (environ s.env) s.world in
          (code, record s { world = w }))
  ]

  -- parseExecLine
  unfoldable pub parse_exec_line : Text → Option (List Text)
  unfolding parse trim_space
  parse_exec_line tail = elim (trim_space tail) [
    | [] ↦ some []
    | c ∷ t ↦ elim (parse (c ∷ t)) [
      | err e ↦ none
      | panic ↦ none
      | ok pl ↦ elim pl.commands [
        | [] ↦ none
        | cmd ∷ [] ↦ some (cmd.name ∷ cmd.args)
        | cmd ∷ _ ∷ _ ↦ none
      ]
    ]
  ]

  -- The branch of dispatch for `exec`.
  unfoldable pub exec_command : Text → Shell W → Option ℤ × Shell W
  unfolding parse_exec_line exec_builtin
  exec_command rest s = elim (parse_exec_line rest) [
    | none ↦ (none, set_last_exit (pos 1) (complain exec_parse s))
    | some args ↦ exec_builtin args s
  ]
