-- ===== src/Translate/Run.antt =====
-- shell/internal/translate/run.go: the engine that runs a script. The world, its open files and
-- the Runner are arguments; EnvSet may be nil.
pub mod Abort
pub mod Loops
use aish.Prelude.{
  ℕ, zero, suc, Bool, true, false, ◌⊎◌, inl, inr, Option, none, some, List, [], ◌∷◌, ◌++◌, ◌==◌,
  if◌then◌else◌, Text, codes, join,
}
use aish.Prelude.Int.{ℤ, pos, negsuc}
use aish.Translate.{
  RedirectOp, redirect_in, redirect_out, redirect_append, redirect_err_out, redirect_err_to_out,
  Redirect, Command, Statement, comment, assign, simple, piped, cond, loop_for, loop_while, case_of,
  func_def, unknown, Statements, done, also, Branches, no_branch, branch, Arms, no_arm, arm,
}
use aish.Translate.Format.{format_command_no_redirect, match_case_pattern}

-- What the engine writes to stderr.
pub data Warning : Type 0 where
  open_failed : ℕ → Redirect → Warning
  redirect_ignored : ℕ → Warning
  cannot_translate : ℕ → Text → Warning

-- The error of the Runner, or that of the cap on while loops.
pub data Failure : Type 0 where
  runner_failed : Text → Failure
  cap_exceeded : Failure

-- An exit code and an error, which may be nil.
pub record Exit : Type 0 where
  pub code : ℤ
  pub error : Option Failure

abbrev pub exits : ℤ → Exit
exits code = record { code = code; error = none }

abbrev pub is_zero : ℤ → Bool
is_zero (pos n) = n == 0
is_zero (negsuc n) = false

abbrev pub is_unknown : Statement → Bool
is_unknown (unknown line reason source) = true
is_unknown _ = false

-- The cap of a while loop.
abbrev pub while_cap : ℕ
while_cap = 10000

pub record Streams (H : Type 0) : Type 0 where
  pub stdin : H
  pub stdout : H
  pub stderr : H

-- What the engine calls: opening and closing of files, writing of warnings, the Runner, EnvSet.
pub record System (W H : Type 0) : Type 0 where
  pub open_file : RedirectOp → Text → W → Option H × W
  pub close_file : H → W → W
  pub warn : Warning → W → W
  pub execute : Text → Streams H → W → Exit × W
  pub env_set : Option (Text → Text → W → W)

module _ {W H : Type 0} (sys : System W H) where
  -- cleanup
  unfoldable pub close_all : List H → W → W
  close_all [] w = w
  close_all (h ∷ hs) w = close_all hs (sys.close_file h w)

  unfoldable pub redirected : RedirectOp → H → Streams H → Streams H
  redirected redirect_in h s = record s { stdin = h }
  redirected redirect_out h s = record s { stdout = h }
  redirected redirect_append h s = record s { stdout = h }
  redirected redirect_err_out h s = record s { stderr = h }
  redirected redirect_err_to_out h s = s

  -- applyRedirects: the streams and the files that were opened, or the redirect that failed.
  unfoldable pub apply_redirects :
      List Redirect → Streams H → List H → W → (Redirect ⊎ (Streams H × List H)) × W
  unfolding close_all redirected
  apply_redirects [] s opened w = (inr (s, opened), w)
  apply_redirects (r ∷ rs) s opened w = elim r.op [
    | redirect_err_to_out ↦ apply_redirects rs (record s { stderr = s.stdout }) opened w
    | op ↦
        let (file, w') = sys.open_file op r.target w in
        elim file [
          | none ↦ (inl r, close_all opened w')
          | some h ↦ apply_redirects rs (redirected op h s) (opened ++ h ∷ []) w'
        ]
  ]

  -- Runs the text with the streams, and closes the files.
  finish_text : ℕ → Text → (Redirect ⊎ (Streams H × List H)) × W → Exit × W
  unfolding close_all
  finish_text line text (inl r, w) = (exits (pos 1), sys.warn (open_failed line r) w)
  finish_text line text (inr (s, opened), w) =
      let (e, w') = sys.execute text s w in (e, close_all opened w')

  -- A Command, or the last stage of a Pipe, with the text to run.
  unfoldable pub run_text : ℕ → List Redirect → Text → Streams H → W → Exit × W
  unfolding apply_redirects finish_text
  run_text line redirects text s w = finish_text line text (apply_redirects redirects s [] w)

  -- The loop over the stages of a Pipe: all but the last with a redirect are warned about.
  unfoldable pub run_stages : List Command → List Text → Streams H → W → Exit × W
  unfolding run_text format_command_no_redirect
  run_stages [] texts s w = sys.execute (join texts (codes " | ")) s w
  run_stages (c ∷ []) texts s w =
      run_text c.line c.redirects (join (texts ++ format_command_no_redirect c ∷ []) (codes " | "))
        s w
  run_stages (c ∷ d ∷ cs) texts s w =
      run_stages (d ∷ cs) (texts ++ format_command_no_redirect c ∷ []) s
        (elim c.redirects [ [] ↦ w | r ∷ rs ↦ sys.warn (redirect_ignored c.line) w ])

  unfoldable pub set_env : Text → Text → W → W
  set_env name value w = elim sys.env_set [ none ↦ w | some set ↦ set name value w ]

  -- `if err != nil { return code, err }`, and what follows.
  unfoldable pub and_next : Exit × W → (ℤ → W → Exit × W) → Exit × W
  and_next r next = elim r.0.error [ none ↦ next r.0.code r.1 | some f ↦ r ]

  -- The rounds of a while loop that are left, with the test and the body.
  unfoldable pub while_loop : ℕ → (W → Exit × W) → (W → Exit × W) → ℤ → W → Exit × W
  unfolding and_next
  while_loop zero test body last w = (record { code = last; error = some cap_exceeded }, w)
  while_loop (suc n) test body last w = and_next (test w) (λ code w'. elim (is_zero code) [
    | false ↦ (exits last, w')
    | true ↦ and_next (body w') (λ code' w''. while_loop n test body code' w'')
  ])

  unfoldable pub for_loop : Text → List Text → (W → Exit × W) → ℤ → W → Exit × W
  unfolding set_env and_next
  for_loop var [] body last w = (exits last, w)
  for_loop var (word ∷ words) body last w =
      and_next (body (set_env var word w)) (λ code w'. for_loop var words body code w')

  any_pattern : Text → List Text → Bool
  unfolding match_case_pattern
  any_pattern word [] = false
  any_pattern word (p ∷ ps) =
      let rest = any_pattern word ps in if match_case_pattern p word then true else rest

  -- The streams `s` are those of the options, for every statement.
  unfoldable mutual
    unfolding run_text run_stages set_env and_next while_loop for_loop any_pattern
        format_command_no_redirect

    pub run_statements : Streams H → Statements → ℤ → W → Exit × W
    run_statements s done last w = (exits last, w)
    run_statements s (also st rest) last w = and_next (run_one s st w) (λ code w'.
        elim (is_unknown st) [ true ↦ (exits code, w') | false ↦ run_statements s rest code w' ])

    pub run_one : Streams H → Statement → W → Exit × W
    run_one s (comment line text) w = (exits (pos 0), w)
    run_one s (assign line name value exported) w = (exits (pos 0), set_env name value w)
    run_one s (simple c) w = run_text c.line c.redirects (format_command_no_redirect c) s w
    run_one s (piped line stages) w = run_stages stages [] s w
    run_one s (cond line branches otherwise) w =
        run_branches s branches (run_statements s otherwise (pos 0)) w
    run_one s (loop_for line var words body) w =
        for_loop var words (run_statements s body (pos 0)) (pos 0) w
    run_one s (loop_while line test body) w =
        while_loop while_cap (run_one s test) (run_statements s body (pos 0)) (pos 0) w
    run_one s (case_of line word arms) w = run_arms s word arms w
    run_one s (func_def line name body) w = (exits (pos 0), w)
    run_one s (unknown line reason source) w =
        (exits (pos 2), sys.warn (cannot_translate line reason) w)

    -- Without a branch that succeeds, the statements after `else`, or none, run.
    pub run_branches : Streams H → Branches → (W → Exit × W) → W → Exit × W
    run_branches s no_branch otherwise w = otherwise w
    run_branches s (branch test body rest) otherwise w = and_next (run_one s test w) (λ code w'.
        elim (is_zero code) [
          | true ↦ run_statements s body (pos 0) w'
          | false ↦ run_branches s rest otherwise w'
        ])

    pub run_arms : Streams H → Text → Arms → W → Exit × W
    run_arms s word no_arm w = (exits (pos 0), w)
    run_arms s word (arm patterns body rest) w = elim (any_pattern word patterns) [
      | true ↦ run_statements s body (pos 0) w
      | false ↦ run_arms s word rest w
    ]

  -- Run, on a script that is not nil.
  unfoldable pub run : Streams H → Statements → W → Exit × W
  unfolding run_statements
  run s script w = run_statements s script (pos 0) w
