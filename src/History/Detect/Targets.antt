-- ===== src/History/Detect/Targets.antt =====
-- The paths that are found, and how the two lists of a pipeline fit together.
use aish.Prelude.{
  ℕ, ◌≡◌, ◌≢◌, refl, ap, sym, ◌∙◌, ◌⊎◌, subst, Bool, true, false, not, ◌&&◌, ◌||◌, List, [], ◌∷◌,
  ◌++◌, ◌==◌, ==_iff, map, if◌then◌else◌, Text, codes, text_eq, text_eq_iff, has_prefix, cut_prefix,
  contains, All, arith, Bool-cases, inl, inr,
}
use aish.Parser.{Command, Pipeline}
use aish.History.Detect.{
  among, destructive_names, any_destructive, is_destructive, takes_value, flag, positional,
  arg_kind, file_args, extract_file_args, sources, last_of, pairs, command_targets, targets,
  target_paths, renames, rename_targets,
}

-- An argument list: a path, a flag, or a flag and its value.
pub data Item : Type 0 where
  path : Text → Item
  option : Text → Item
  option_value : Text → Text → Item

unfoldable pub print_items : List Item → List Text
print_items [] = []
print_items (path p ∷ is) = p ∷ print_items is
print_items (option o ∷ is) = o ∷ print_items is
print_items (option_value o v ∷ is) = o ∷ v ∷ print_items is

unfoldable pub paths_of : List Item → List Text
paths_of [] = []
paths_of (path p ∷ is) = p ∷ paths_of is
paths_of (option o ∷ is) = paths_of is
paths_of (option_value o v ∷ is) = paths_of is

-- A path does not begin with a hyphen, but for `-` alone.
abbrev pub IsPath : Text → Type 0
IsPath [] = Unit {0}
IsPath (c ∷ []) = Unit {0}
IsPath (c ∷ d ∷ s) = (c == b'-') ≡ false

-- A flag is a hyphen and more, but for `--` alone.
abbrev pub IsFlag : Text → Type 0
IsFlag s = (c : ℕ) × (rest : Text) × (s ≡ b'-' ∷ c ∷ rest) × (s ≢ codes "--")

abbrev pub Holds : ℕ → Text → Type 0
Holds c [] = ⊥
Holds c (d ∷ s) = (d ≡ c) ⊎ Holds c s

-- The value of a flag is the next argument if the flag is one of those that take a value and has no
-- `=` in it.
abbrev pub IsItem : List Text → Item → Type 0
IsItem value_flags (path p) = IsPath p
IsItem value_flags (option o) = IsFlag o × (Holds b'=' o ⊎ (among o value_flags ≡ false))
IsItem value_flags (option_value o v) = IsFlag o × (Holds b'=' o → ⊥) × (among o value_flags ≡ true)

kind_path : (value_flags : List Text) (p : Text) → IsPath p → arg_kind value_flags p ≡ positional
unfolding arg_kind text_eq has_prefix cut_prefix
kind_path value_flags [] h = refl
kind_path value_flags (c ∷ []) h = ground arith
kind_path value_flags (c ∷ d ∷ s) h = ground arith

contains_equals : (s : Text) → Holds b'=' s → contains s (codes "=") ≡ true
unfolding contains has_prefix cut_prefix
contains_equals [] h = absurd h
contains_equals (c ∷ s) (inl e) = rw e refl
contains_equals (c ∷ s) (inr h) = ground (arith, contains_equals s h)

no_equals : (s : Text) → (Holds b'=' s → ⊥) → contains s (codes "=") ≡ false
unfolding contains has_prefix cut_prefix
no_equals [] h = refl
no_equals (c ∷ s) h = elim (Bool-cases (c == b'=')) [
  | inl e ↦ absurd (h (inl ((==_iff c b'=').0 e)))
  | inr e ↦ ground (arith, e, no_equals s (λ k. h (inr k)))
]

differs : (s t : Text) → s ≢ t → text_eq s t ≡ false
differs s t h = elim (Bool-cases (text_eq s t)) [
  | inl e ↦ absurd (h ((text_eq_iff s t).0 e))
  | inr e ↦ e
]

kind_flag :
    (value_flags : List Text) (o : Text)
    → IsFlag o
    → arg_kind value_flags o
      ≡ (if not (contains o (codes "=")) && among o value_flags then takes_value else flag)
unfolding arg_kind
kind_flag value_flags o (c, rest, e, proper) =
    let apart : text_eq o (codes "--") ≡ false = differs o (codes "--") proper in
    let hyphen : has_prefix o (codes "-") ≡ true = rw e (unfold has_prefix cut_prefix in refl) in
    let more : text_eq o (codes "-") ≡ false = rw e (unfold text_eq in refl) in
    rw (apart, arg_kind, hyphen, more) refl

kind_option :
    (value_flags : List Text) (o : Text)
    → IsFlag o
    → Holds b'=' o ⊎ (among o value_flags ≡ false)
    → arg_kind value_flags o ≡ flag
kind_option value_flags o f (inl h) = kind_flag value_flags o f ∙ rw (contains_equals o h) refl
kind_option value_flags o f (inr h) =
    kind_flag value_flags o f
    ∙ elim (Bool-cases (contains o (codes "="))) [ inl e ↦ rw e refl | inr e ↦ rw (e, h) refl ]

kind_value :
    (value_flags : List Text) (o : Text)
    → IsFlag o
    → (Holds b'=' o → ⊥)
    → among o value_flags ≡ true
    → arg_kind value_flags o ≡ takes_value
kind_value value_flags o f h k = kind_flag value_flags o f ∙ rw (no_equals o h, k) refl

-- An argument that is `-` or does not begin with a hyphen is a path; any other but `--` is a flag,
-- and takes the next argument as its value if it is among the flags that do and has no `=` in it.
-- Of such arguments extractFileArgs keeps the paths, and after `--` all, in their order. The value
-- of a flag is no path, whatever it looks like.
pub extract_file_args-paths_of :
    (value_flags : List Text) (is : List Item) (rest : List Text)
    → All (IsItem value_flags) is
    → (extract_file_args (print_items is) value_flags ≡ paths_of is)
      × (extract_file_args (print_items is ++ codes "--" ∷ rest) value_flags ≡ paths_of is ++ rest)
unfolding extract_file_args print_items paths_of file_args
extract_file_args-paths_of value_flags [] rest h = (refl, (unfold arg_kind text_eq in refl))
extract_file_args-paths_of value_flags (path p ∷ is) rest h =
    let (e, f) = extract_file_args-paths_of value_flags is rest h.1 in
    let k = kind_path value_flags p h.0 in
    (rw (k, file_args) (ap (λ l. p ∷ l) e), rw (k, file_args) (ap (λ l. p ∷ l) f))
extract_file_args-paths_of value_flags (option o ∷ is) rest h =
    let (e, f) = extract_file_args-paths_of value_flags is rest h.1 in
    let k = kind_option value_flags o h.0.0 h.0.1 in (rw (k, file_args) e, rw (k, file_args) f)
extract_file_args-paths_of value_flags (option_value o v ∷ is) rest h =
    let (e, f) = extract_file_args-paths_of value_flags is rest h.1 in
    let k = kind_value value_flags o h.0.0 h.0.1 h.0.2 in (rw (k, file_args) e, rw (k, file_args) f)

-- The source of a rename.
abbrev pub source : Text × Text → Text
source p = p.0

-- The stages that move files.
unfoldable pub moves : List Command → List Command
unfolding text_eq
moves [] = []
moves (c ∷ cs) = let rest = moves cs in if text_eq c.name (codes "mv") then c ∷ rest else rest

firsts_of : (target : Text) (ss : List Text) → map source (map (λ s. (s, target)) ss) ≡ ss
firsts_of target [] = refl
firsts_of target (s ∷ ss) = ap (λ l. s ∷ l) (firsts_of target ss)

pairs-sources : (args : List Text) → map source (pairs args) ≡ sources args
unfolding pairs sources
pairs-sources [] = refl
pairs-sources (a ∷ args) = firsts_of (last_of a args) (sources (a ∷ args))

map-append : (ps qs : List (Text × Text)) → map source (ps ++ qs) ≡ map source ps ++ map source qs
map-append [] qs = refl
map-append (p ∷ ps) qs = ap (λ l. p.0 ∷ l) (map-append ps qs)

-- A stage of mv gives the sources of its renames as targets.
mv_targets :
    (c : Command)
    → text_eq c.name (codes "mv") ≡ true
    → command_targets c ≡ sources (extract_file_args c.args [])
unfolding command_targets text_eq
mv_targets c h = by_name c.name ((text_eq_iff c.name (codes "mv")).0 h)
  where
    by_name :
        (name : Text)
        → name ≡ codes "mv"
        → command_targets (record c { name = name }) ≡ sources (extract_file_args c.args [])
    by_name name e =
        subst (λ n. command_targets (record c { name = n }) ≡ sources (extract_file_args c.args []))
          (sym e) refl

moved : (cs : List Command) → map source (renames cs) ≡ targets (moves cs)
unfolding renames moves targets
moved [] = refl
moved (c ∷ cs) = elim (Bool-cases (text_eq c.name (codes "mv"))) [
  | inl e ↦
      rw (e, renames, moves)
        (map-append (pairs (extract_file_args c.args [])) (renames cs)
          ∙ ap (λ l. l ++ map source (renames cs)) (pairs-sources (extract_file_args c.args []))
          ∙ ap (λ l. sources (extract_file_args c.args []) ++ l) (moved cs)
          ∙ ap (λ l. l ++ targets (moves cs)) (sym (mv_targets c e)))
  | inr e ↦ rw (e, renames, moves) (moved cs)
]

mv_destroys :
    (name : Text) → among name destructive_names ≡ false → text_eq name (codes "mv") ≡ false
mv_destroys name h = ground (arith, h)

harmless_targets : (c : Command) → among c.name destructive_names ≡ false → command_targets c ≡ []
unfolding command_targets
harmless_targets c h = rw (h, command_targets) refl

or_false : (a b : Bool) → (a || b) ≡ false → (a ≡ false) × (b ≡ false)
or_false false b h = (refl, h)
or_false true b h = cc

nothing_found :
    (cs : List Command) → any_destructive cs ≡ false → (targets cs ≡ []) × (renames cs ≡ [])
unfolding any_destructive targets renames
nothing_found [] h = (refl, refl)
nothing_found (c ∷ cs) h =
    let (here, later) = or_false (among c.name destructive_names) (any_destructive cs) h in
    let (no_targets, no_renames) = nothing_found cs later in
    (
      rw (harmless_targets c here, no_targets) refl,
      rw (mv_destroys c.name here, no_renames, renames) refl,
    )

-- The sources of the renames of a pipeline are the targets of its mv stages, in the same order. A
-- pipeline that is not destructive has neither targets nor renames.
pub rename_targets-target_paths :
    (pl : Pipeline)
    → (map source (rename_targets pl) ≡ target_paths (record pl { commands = moves pl.commands }))
      × (is_destructive pl ≡ false → (target_paths pl ≡ []) × (rename_targets pl ≡ []))
unfolding rename_targets target_paths is_destructive
rename_targets-target_paths pl = (moved pl.commands, nothing_found pl.commands)
