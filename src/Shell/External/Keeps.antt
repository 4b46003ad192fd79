-- ===== src/Shell/External/Keeps.antt =====
-- What runExternal and RunForCapture of shell/internal/shell/shell.go keep of the job table and of
-- the registry of tainted texts: all that Add and the registration of a captured text keep.
use aish.Prelude.{
  ℕ, zero, suc, ◌⊎◌, inl, inr, Bool, true, false, Option, none, some, List, [], ◌∷◌, Text,
  get_elem?, length, Option-cases, List-cases, Bool-cases, if◌then◌else◌, text_eq, trim_right_while,
  ◌==◌,
}
use aish.Prelude.Int.{ℤ}
use aish.Env.{environ}
use aish.Parser.{Pipeline, parse}
use aish.Parser.Expand.{Paths, expand_pipeline}
use aish.Parser.Substitution.{Outcome, failed, too_deep, unterminated, expand_line}
use aish.Parser.Substitution.Keeps.{expand_line-Keeps}
use aish.Jobs.{JobTable, running}
use aish.Shell.Alias.{Warning, resolve_alias}
use aish.Shell.Taint.{
  Registry, add, tag_pipeline_taint, is_secret_get_invocation, register_captured,
}
use aish.Shell.State.{Shell, Interceptor, Operations}
use aish.Shell.External.{
  Exhausted, exhausted, complain_if, before_one, after_one, before_all, after_from, intercepted,
  warn, background, foreground, run_expanded, run_substituted, after_substitution,
  run_external_with, captured, run_for_capture, run_external,
}
use aish.Shell.External.Fuel.{Result-cases}

module _ {W : Type 0} (Q : JobTable → Registry → Type 0) where
  abbrev pub Holds : Shell W → Type 0
  Holds s = Q s.table s.taint_reg

  -- The state that is reached, if one is.
  abbrev pub Kept : Option (Shell W) → Type 0
  Kept none = Unit {0}
  Kept (some s) = Holds s

  before_one-Holds :
      (ic : Interceptor W) (pl : Pipeline) (line : Text) (s : Shell W)
      → Holds s
      → Holds (before_one ic pl line s)
  unfolding before_one complain_if
  before_one-Holds ic pl line s q = elim (Bool-cases (ic.before pl line s.world).0) [
    | inl e ↦ rw (e, before_one) q
    | inr e ↦ rw (e, before_one) q
  ]

  before_all-Holds :
      (ics : List (Interceptor W)) (pl : Pipeline) (line : Text) (s : Shell W)
      → Holds s
      → Holds (before_all ics pl line s)
  unfolding before_all
  before_all-Holds [] pl line s q = q
  before_all-Holds (ic ∷ ics) pl line s q =
      before_all-Holds ics pl line (before_one ic pl line s) (before_one-Holds ic pl line s q)

  after_from-Holds :
      (n : ℕ) (ics : List (Interceptor W)) (pl : Pipeline) (line : Text) (code : ℤ) (dur : ℕ)
      (s : Shell W)
      → Holds s
      → Holds (after_from n ics pl line code dur s)
  unfolding after_from after_one
  after_from-Holds zero ics pl line code dur s q = q
  after_from-Holds (suc n) ics pl line code dur s q = elim (Option-cases (get_elem? ics n)) [
    | inl e ↦ rw (e, after_from) (after_from-Holds n ics pl line code dur s q)
    | inr (ic, e) ↦
        rw (e, after_from)
          (after_from-Holds n ics pl line code dur (after_one ic pl line code dur s) q)
  ]

  abbrev Keeping : (Shell W → (ℤ × ℕ) × Shell W) → Type 0
  Keeping body = (s : Shell W) → Holds s → Holds (body s).1

  intercepted-Holds :
      (ics : List (Interceptor W)) (pl : Pipeline) (line : Text)
      (body : Shell W → (ℤ × ℕ) × Shell W) (s : Shell W)
      → Keeping body
      → Holds s
      → Holds (intercepted ics pl line body s)
  unfolding intercepted
  intercepted-Holds ics pl line body s h q =
      let r = body (before_all ics pl line s) in
      after_from-Holds (length ics) ics pl line r.0.0 r.0.1 r.1
        (h (before_all ics pl line s) (before_all-Holds ics pl line s q))

  warn-Holds : (w : Option Warning) (s : Shell W) → Holds s → Holds (warn w s)
  unfolding warn
  warn-Holds none s q = q
  warn-Holds (some w) s q = q

  if-Holds : (b : Bool) (x y : Shell W) → Holds x → Holds y → Holds (if b then x else y)
  if-Holds true x y h k = h
  if-Holds false x y h k = k

  module _ (ops : Operations W) (paths : Paths)
      (adds : (pgid leader : ℕ) (cmd : Text) (jt : JobTable) (r : Registry)
        → Q jt r
        → Q (aish.Jobs.add pgid leader cmd running jt).1 r)
      (grows : (v : Text) (jt : JobTable) (r : Registry) → Q jt r → Q jt (add v r)) where
    background-Holds : (pl : Pipeline) (cmdline : Text) → Keeping (background ops paths pl cmdline)
    unfolding background
    background-Holds pl cmdline s q =
        elim (Option-cases (ops.run_background pl (environ s.env) s.world).0) [
          | inl e ↦ rw (e, background) q
          | inr (p, e) ↦ rw (e, background) (adds p.0 p.1 _ s.table s.taint_reg q)
        ]

    foreground-Holds : (pl : Pipeline) → Keeping (foreground ops paths pl)
    unfolding foreground
    foreground-Holds pl s q =
        elim (Bool-cases (ops.run_pipeline pl (environ s.env) (ops.now s.world).1).0.0.1) [
          | inl e ↦ rw (e, foreground) q
          | inr e ↦ rw (e, foreground) q
        ]

    run_expanded-Holds :
        (pl : Pipeline) (cmdline : Text) (s : Shell W)
        → Holds s
        → Holds (run_expanded ops paths pl cmdline s)
    unfolding run_expanded
    run_expanded-Holds pl cmdline s q =
        let tagged = tag_pipeline_taint s.taint_reg pl in
        if-Holds tagged.background
          (intercepted ops.interceptors tagged cmdline (background ops paths tagged cmdline) s)
          (intercepted ops.interceptors tagged cmdline (foreground ops paths tagged) s)
          (intercepted-Holds ops.interceptors tagged cmdline (background ops paths tagged cmdline) s
            (background-Holds tagged cmdline) q)
          (intercepted-Holds ops.interceptors tagged cmdline (foreground ops paths tagged) s
            (foreground-Holds tagged) q)

    run_substituted-Kept :
        (t cmdline : Text) (s : Shell W) → Holds s → Kept (run_substituted ops paths t cmdline s)
    unfolding run_substituted
    run_substituted-Kept t cmdline s q =
        let (line, warning) = resolve_alias s.aliases t in
        elim (Result-cases (parse line)) [
          | inl (e, p) ↦ rw (p, run_substituted) (warn-Holds warning s q)
          | inr (inr p) ↦ rw (p, run_substituted) tt
          | inr (inl (pl, p)) ↦ elim (List-cases pl.commands) [
            | inl e ↦ rw (p, run_substituted, e) (warn-Holds warning s q)
            | inr (c, cs, e) ↦
                rw (p, run_substituted, e)
                  (run_expanded-Holds (expand_pipeline paths (warn warning s).cwd pl) cmdline
                    (warn warning s) (warn-Holds warning s q))
          ]
        ]

    after_substitution-Kept :
        (cmdline : Text) (o : Outcome (Shell W) Exhausted)
        → Holds o.1
        → Kept (after_substitution ops paths cmdline o)
    unfolding after_substitution
    after_substitution-Kept cmdline (inl (failed c exhausted), s) q = tt
    after_substitution-Kept cmdline (inl too_deep, s) q = q
    after_substitution-Kept cmdline (inl unterminated, s) q = q
    after_substitution-Kept cmdline (inr t, s) q = run_substituted-Kept t cmdline s q

    register_captured-Holds :
        (cmd out : Text) (jt : JobTable) (r : Registry)
        → Q jt r
        → Q jt (register_captured cmd out r)
    unfolding register_captured
    register_captured-Holds cmd out jt r q = elim (Bool-cases (is_secret_get_invocation cmd)) [
      | inr e ↦ rw (e, register_captured) q
      | inl e ↦ elim (Bool-cases (text_eq (trim_right_while (λ c. c == b'\n') out) out)) [
        | inl same ↦ rw (e, register_captured, same) (grows out jt r q)
        | inr other ↦
            rw (e, register_captured, other)
              (grows (trim_right_while (λ c. c == b'\n') out) jt (add out r) (grows out jt r q))
      ]
    ]

    captured-Holds :
        (cmd : Text) (s : Shell W) (o : Option (Shell W))
        → Holds s
        → Kept o
        → Holds (captured ops paths cmd s o).1
    unfolding captured
    captured-Holds cmd s none q k = q
    captured-Holds cmd s (some s') q k = register_captured-Holds cmd s'.out s'.table s'.taint_reg k

    pub run_external_with-Kept :
        (run : Text → Shell W → (Exhausted ⊎ Text) × Shell W) (cmdline : Text) (s : Shell W)
        → ((t : Text) (s' : Shell W) → Holds s' → Holds (run t s').1)
        → Holds s
        → Kept (run_external_with ops paths run cmdline s)
    unfolding run_external_with
    run_external_with-Kept run cmdline s kept q =
        after_substitution-Kept cmdline (expand_line (some run) cmdline s)
          (expand_line-Keeps Holds run kept cmdline s q)

    pub run_for_capture-Holds :
        (n : ℕ) (cmd : Text) (s : Shell W) → Holds s → Holds (run_for_capture ops paths n cmd s).1
    unfolding run_for_capture
    run_for_capture-Holds zero cmd s q = q
    run_for_capture-Holds (suc n) cmd s q =
        let s₀ : Shell W = record s { out = [] } in
        captured-Holds cmd s (run_external_with ops paths (run_for_capture ops paths n) cmd s₀) q
          (run_external_with-Kept (run_for_capture ops paths n) cmd s₀ (run_for_capture-Holds n) q)

    pub run_external-Kept :
        (n : ℕ) (cmdline : Text) (s : Shell W) → Holds s → Kept (run_external ops paths n cmdline s)
    unfolding run_external
    run_external-Kept n cmdline s q =
        run_external_with-Kept (run_for_capture ops paths n) cmdline s (run_for_capture-Holds n) q
