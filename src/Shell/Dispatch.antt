-- ===== src/Shell/Dispatch.antt =====
-- dispatch and ResolveTier of shell/internal/shell/shell.go: which builtin, or which external command, a
-- line is for.
pub mod Routes
pub mod Lines
use aish.Prelude.{
  ℕ, zero, suc, Bool, true, false, ◌||◌, ◌&&◌, ◌⊎◌, inl, inr, Option, none, some, List, [], ◌∷◌,
  ◌++◌, if◌then◌else◌, Text, codes, text_eq, has_prefix, trim_prefix, trim_space, fields, itoa,
}
use aish.Prelude.Int.{ℤ, pos}
use aish.Env.{Env}
use aish.Env.Expand.{expand}
use aish.Parser.Expand.{Paths}
use aish.Term.Highlight.{Tier, ai_intent, known_binary, builtin}
use aish.Shell.{first_token, split_alias_args}
use aish.Shell.State.{Shell, Operations, set_last_exit, complain, resolve_failed}
use aish.Shell.External.{run_external}
use aish.Shell.Foreground.{Control, jobs_builtin, fg_builtin, bg_builtin}
use aish.Shell.Builtins.{
  System, cd_builtin, export_builtin, alias_command, set_builtin, unset_builtin, logout_builtin,
  exec_command,
}
use aish.Shell.Source.{Reading, source_builtin}

-- The builtins; `other_word` are those that have a file of their own and are not modelled.
pub data Builtin : Type 0 where
  cd_word export_word logout_word alias_word source_word set_word unset_word : Builtin
  jobs_word fg_word bg_word exec_word : Builtin
  other_word : Text → Builtin

-- A name, and whether the name alone is the builtin.
pub record Entry : Type 0 where
  pub name : Text
  pub alone : Bool
  pub meaning : Builtin

abbrev entry : Text → Builtin → Entry
entry name b = record { name = name; alone = true; meaning = b }

abbrev other_entry : Text → Entry
other_entry name = entry name (other_word name)

-- The tests of dispatch, in their order.
abbrev pub entries : List Entry
entries =
    entry (codes "cd") cd_word
    ∷ record { name = codes "export"; alone = false; meaning = export_word }
    ∷ other_entry (codes "theme")
    ∷ other_entry (codes "cache")
    ∷ other_entry (codes "community")
    ∷ other_entry (codes "plugin")
    ∷ other_entry (codes "stats")
    ∷ other_entry (codes "undo")
    ∷ record { name = codes "restore"; alone = false; meaning = other_word (codes "restore") }
    ∷ other_entry (codes "history")
    ∷ other_entry (codes "run")
    ∷ other_entry (codes "explain")
    ∷ other_entry (codes "migrate")
    ∷ other_entry (codes "install")
    ∷ other_entry (codes "service")
    ∷ other_entry (codes "process")
    ∷ other_entry (codes "env")
    ∷ other_entry (codes "network")
    ∷ other_entry (codes "persona")
    ∷ other_entry (codes "secret")
    ∷ other_entry (codes "identity")
    ∷ entry (codes "logout") logout_word
    ∷ entry (codes "alias") alias_word
    ∷ entry (codes "source") source_word
    ∷ entry (codes "set") set_word
    ∷ entry (codes "unset") unset_word
    ∷ entry (codes "jobs") jobs_word
    ∷ entry (codes "fg") fg_word
    ∷ entry (codes "bg") bg_word
    ∷ entry (codes "exec") exec_word
    ∷ []

-- line == NAME || HasPrefix(line, NAME + " ") || HasPrefix(line, NAME + "\t")
unfoldable pub matches : Entry → Text → Bool
unfolding text_eq has_prefix
matches e line =
    e.alone && text_eq line e.name
    || has_prefix line (e.name ++ b' ' ∷ [])
    || has_prefix line (e.name ++ b'\t' ∷ [])

-- The builtin of the first entry that matches, and what follows its name.
unfoldable pub match_entries : List Entry → Text → Option (Builtin × Text)
unfolding matches trim_space trim_prefix
match_entries [] line = none
match_entries (e ∷ es) line =
    let rest = match_entries es line in
    if matches e line then some (e.meaning, trim_space (trim_prefix line e.name)) else rest

-- What a cache answers: an invocation, that it has no plugin, or another error.
pub data Resolution : Type 0 where
  resolved : Text → Resolution
  no_plugin resolve_error : Resolution

-- What dispatch calls besides.
pub record Others (W : Type 0) : Type 0 where
  pub other_builtin : Text → List Text → Shell W → ℤ × Shell W
  pub is_known_binary : Text → Env → W → Bool
  pub cache : Option (Text → W → Resolution × W)

module _ {W : Type 0} (others : Others W) where
  -- The cases of ResolveTier's switch.
  abbrev pub tier_names : List Text
  tier_names =
      codes "cd"
      ∷ codes "export"
      ∷ codes "theme"
      ∷ codes "cache"
      ∷ codes "community"
      ∷ codes "plugin"
      ∷ codes "stats"
      ∷ codes "undo"
      ∷ codes "restore"
      ∷ codes "run"
      ∷ codes "explain"
      ∷ codes "migrate"
      ∷ codes "persona"
      ∷ codes "secret"
      ∷ codes "identity"
      ∷ codes "logout"
      ∷ codes "exec"
      ∷ codes "history"
      ∷ codes "install"
      ∷ codes "service"
      ∷ codes "process"
      ∷ codes "env"
      ∷ codes "network"
      ∷ codes "alias"
      ∷ codes "source"
      ∷ codes "set"
      ∷ codes "unset"
      ∷ codes "jobs"
      ∷ codes "fg"
      ∷ codes "bg"
      ∷ []

  unfoldable pub named : List Text → Text → Bool
  unfolding text_eq
  named [] token = false
  named (n ∷ names) token = text_eq token n || named names token

  -- ResolveTier
  unfoldable pub resolve_tier : Text → Shell W → Tier
  unfolding named
  resolve_tier token s =
      if named tier_names token
      then builtin
      else if others.is_known_binary token s.env s.world
      then known_binary
      else ai_intent

module _ {W : Type 0} (ops : Operations W) (paths : Paths) (sys : System W) (ctl : Control W)
    (io : Reading W) (others : Others W) (depth rounds : ℕ) where
  -- The state after a line, with the code of a sentinel that ends the loop; `none` where the bounds
  -- on nested calls and on the rounds of `fg` are reached.
  abbrev pub Dispatched : Type 0
  Dispatched = Option (Option ℤ × Shell W)

  with_exit : ℕ × Shell W → Dispatched
  with_exit (code, s) = some (none, set_last_exit (pos code) s)

  waited : Option ℕ × Shell W → Dispatched
  waited (none, s) = none
  waited (some code, s) = some (none, set_last_exit (pos code) s)

  no_sentinel : Option (Shell W) → Dispatched
  no_sentinel none = none
  no_sentinel (some s) = some (none, s)

  run_builtin : Builtin → Text → Shell W → Dispatched
  unfolding with_exit waited cd_builtin export_builtin alias_command set_builtin unset_builtin
      logout_builtin exec_command jobs_builtin fg_builtin bg_builtin source_builtin split_alias_args
      fields
  run_builtin cd_word rest s = some (none, cd_builtin sys rest s)
  run_builtin export_word rest s = some (none, export_builtin sys rest s)
  run_builtin logout_word rest s = some (logout_builtin sys (fields rest) s)
  run_builtin alias_word rest s = with_exit (alias_command sys (split_alias_args rest) s)
  run_builtin source_word rest s = with_exit (source_builtin io (fields rest) s)
  run_builtin set_word rest s = with_exit (set_builtin sys (split_alias_args rest) s)
  run_builtin unset_word rest s = with_exit (unset_builtin sys (fields rest) s)
  run_builtin jobs_word rest s = waited (jobs_builtin ctl (fields rest) s)
  run_builtin fg_word rest s = waited (fg_builtin ctl rounds (fields rest) s)
  run_builtin bg_word rest s = with_exit (bg_builtin ctl (fields rest) s)
  run_builtin exec_word rest s = some (exec_command sys rest s)
  run_builtin (other_word name) rest s =
      let (code, s') = others.other_builtin name (fields rest) s in
      some (none, set_last_exit code s')

  external : Text → Shell W → Dispatched
  unfolding no_sentinel run_external
  external cmdline s = no_sentinel (run_external ops paths depth cmdline s)

  from_cache : Text → Text → Resolution × W → Shell W → Dispatched
  unfolding external
  from_cache line expanded (resolved invocation, w) s = external invocation (record s { world = w })
  from_cache line expanded (no_plugin, w) s = external expanded (record s { world = w })
  from_cache line expanded (resolve_error, w) s =
      some (none, set_last_exit (pos 127) (complain resolve_failed (record s { world = w })))

  is_known : Text → Shell W → Bool
  is_known [] s = false
  is_known (c ∷ first) s = others.is_known_binary (c ∷ first) s.env s.world

  -- The tiers of a line that is for no builtin.
  unfoldable pub run_command : Text → Shell W → Dispatched
  unfolding external from_cache is_known first_token expand itoa
  run_command line s =
      let expanded = expand s.env (itoa s.last_exit) line in
      if is_known (first_token expanded) s then external expanded s else elim others.cache [
        | none ↦ external expanded s
        | some resolve ↦ from_cache line expanded (resolve line s.world) s
      ]

  unfoldable pub dispatch_line : Text → Shell W → Dispatched
  unfolding match_entries run_builtin run_command
  dispatch_line line s = elim (match_entries entries line) [
    | some (b, rest) ↦ run_builtin b rest s
    | none ↦ run_command line s
  ]

  -- The deferred assignment.
  drop_registry : Dispatched → Dispatched
  drop_registry none = none
  drop_registry (some (code, s)) = some (code, record s { taint_reg = none })

  -- dispatch
  unfoldable pub dispatch : Text → Shell W → Dispatched
  unfolding dispatch_line drop_registry trim_space text_eq
  dispatch line s =
      if text_eq (trim_space line) []
      then some (none, s)
      else drop_registry (dispatch_line line (record s { taint_reg = some [] }))
