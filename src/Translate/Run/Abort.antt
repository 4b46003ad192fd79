-- ===== src/Translate/Run/Abort.antt =====
-- How statements that were not understood end a script, and how they do not.
use aish.Prelude.{ℕ, ◌≡◌, refl, Bool, true, false, Option, none, some, Text}
use aish.Prelude.Int.{ℤ, pos}
use aish.Translate.{Statement, unknown, cond, Statements, done, also, no_branch, branch, append}
use aish.Translate.Run.{
  System, Streams, Exit, exits, Failure, is_unknown, cannot_translate, and_next, run_statements,
  run_one,
}

module _ {W H : Type 0} (sys : System W H) where
  pub and_next-cong :
      (r : Exit × W) (f g : ℤ → W → Exit × W)
      → ((code : ℤ) (w : W) → f code w ≡ g code w)
      → and_next sys r f ≡ and_next sys r g
  unfolding and_next
  and_next-cong r f g h = by_error r.0.error
    where
      by_error :
          (o : Option Failure)
          → elim o as (λ x. Exit × W) [ none ↦ f r.0.code r.1 | some x ↦ r ]
            ≡ elim o as (λ x. Exit × W) [ none ↦ g r.0.code r.1 | some x ↦ r ]
      by_error none = h r.0.code r.1
      by_error (some x) = refl

  unknown_or :
      (b : Bool) (stop go go' : Exit × W)
      → go ≡ go'
      → elim b as (λ x. Exit × W) [ true ↦ stop | false ↦ go ]
        ≡ elim b as (λ x. Exit × W) [ true ↦ stop | false ↦ go' ]
  unknown_or true stop go go' h = refl
  unknown_or false stop go go' h = h

  -- The rest of a script after a statement that was not understood is not run, whatever stands
  -- before it and whatever the rest is: the whole script does what the part up to it does.
  pub abort_at_unknown :
      (xs ys : Statements) (line : ℕ) (reason source : Text) (s : Streams H) (last : ℤ) (w : W)
      → run_statements sys s (append xs (also (unknown line reason source) ys)) last w
        ≡ run_statements sys s (append xs (also (unknown line reason source) done)) last w
  unfolding append run_statements
  abort_at_unknown done ys line reason source s last w = refl
  abort_at_unknown (also x xs) ys line reason source s last w =
      and_next-cong (run_one sys s x w) _ _ (λ code w'.
        unknown_or (is_unknown x) (exits code, w') _ _
          (abort_at_unknown xs ys line reason source s code w'))

  -- A statement that was not understood aborts the script where it stands by itself. Where it is
  -- the body of an `if` whose test succeeds, it is reported all the same, and the statements after
  -- the `if` run.
  pub nested_unknown_goes_on :
      (n line : ℕ) (test : Statement) (reason source : Text) (otherwise rest : Statements)
      (s : Streams H) (last : ℤ) (w w' : W)
      → run_one sys s test w ≡ (exits (pos 0), w')
      → let bad = unknown line reason source in
        (run_statements sys s (also bad rest) last w
          ≡ (exits (pos 2), sys.warn (cannot_translate line reason) w))
        × (run_statements sys s
              (also (cond n (branch test (also bad done) no_branch) otherwise) rest)
              last
              w
            ≡ run_statements sys s rest (pos 2) (sys.warn (cannot_translate line reason) w'))
  unfolding run_statements and_next
  nested_unknown_goes_on n line test reason source otherwise rest s last w w' h =
      (refl, rw (h, run_statements) refl)
