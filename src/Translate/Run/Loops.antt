-- ===== src/Translate/Run/Loops.antt =====
-- The loops of the engine: how often the body runs, and with what.
use aish.Prelude.{
  subst, Option-cases, Bool-cases, ◌⊎◌, inl, inr, ℕ, zero, suc, ◌<◌, ◌≡◌, refl, ap, sym, ◌∙◌, Bool,
  true, false, none, some, arith,
}
use aish.Prelude.Int.{ℤ, pos}
use aish.Translate.{Statement, Statements, loop_while}
use aish.Translate.Run.{
  System, Streams, Exit, exits, Failure, cap_exceeded, is_zero, and_next, while_loop, while_cap,
  run_one, run_statements,
}

module _ {W H : Type 0} (sys : System W H) where
  -- What a round of the loop does: the test succeeds, and then the body ends without an error.
  pub record Round (test body : W → Exit × W) (w : W) : Type 0 where
    tested : (test w).0.error ≡ none
    holds : is_zero (test w).0.code ≡ true
    ran : (body (test w).1).0.error ≡ none

  -- The code and the world after `k` rounds in a row.
  unfoldable pub after_rounds : (W → Exit × W) → (W → Exit × W) → ℕ → ℤ → W → ℤ × W
  after_rounds test body zero last w = (last, w)
  after_rounds test body (suc k) last w =
      after_rounds test body k (body (test w).1).0.code (body (test w).1).1

  unfoldable pub Rounds : (W → Exit × W) → (W → Exit × W) → ℕ → W → Type 0
  Rounds test body zero w = Unit {0}
  Rounds test body (suc k) w = Round test body w × Rounds test body k (body (test w).1).1

  -- After `k` rounds, from which the loop goes on at `v` with the code `last`, it ends.
  pub data EndsAt (test body : W → Exit × W) (last : ℤ) (v : W) (r : Exit × W) : Type 0 where
    stopped :
        (test v).0.error ≡ none
        → is_zero (test v).0.code ≡ false
        → r ≡ (exits last, (test v).1)
        → EndsAt test body last v r
    test_failed : (f : Failure) → (test v).0.error ≡ some f → r ≡ test v → EndsAt test body last v r
    body_failed :
        (f : Failure)
        → (test v).0.error ≡ none
        → is_zero (test v).0.code ≡ true
        → (body (test v).1).0.error ≡ some f
        → r ≡ body (test v).1
        → EndsAt test body last v r

  -- The loop makes `k` rounds and ends at the next test or body, or makes all `n` that it may.
  abbrev pub Ends : (W → Exit × W) → (W → Exit × W) → ℕ → ℤ → W → Exit × W → Type 0
  Ends test body n last w r =
      ((k : ℕ) × (k < n)
        × Rounds test body k w
        × EndsAt test body (after_rounds test body k last w).0 (after_rounds test body k last w).1
            r)
      ⊎ (Rounds test body n w
          × (r ≡ (
            record { code = (after_rounds test body n last w).0; error = some cap_exceeded },
            (after_rounds test body n last w).1,
          )))

  one_more :
      (test body : W → Exit × W) (n : ℕ) (last : ℤ) (w : W) (r : Exit × W)
      → Round test body w
      → Ends test body n (body (test w).1).0.code (body (test w).1).1 r
      → Ends test body (suc n) last w r
  unfolding Rounds after_rounds
  one_more test body n last w r now (inl (k, lt, rounds, e)) =
      inl (suc k, omega (arith, lt), (now, rounds), e)
  one_more test body n last w r now (inr (rounds, e)) = inr ((now, rounds), e)

  no_error :
      (r : Exit × W) (next : ℤ → W → Exit × W)
      → r.0.error ≡ none
      → and_next sys r next ≡ next r.0.code r.1
  unfolding and_next
  no_error r next e =
      ap (λ o. elim o as (λ x. Exit × W) [ none ↦ next r.0.code r.1 | some f ↦ r ]) e

  an_error :
      (r : Exit × W) (next : ℤ → W → Exit × W) (f : Failure)
      → r.0.error ≡ some f
      → and_next sys r next ≡ r
  unfolding and_next
  an_error r next f e =
      ap (λ o. elim o as (λ x. Exit × W) [ none ↦ next r.0.code r.1 | some g ↦ r ]) e

  after_test :
      (test body : W → Exit × W) (n : ℕ) (last : ℤ) (w : W) (b : Bool)
      → (test w).0.error ≡ none
      → is_zero (test w).0.code ≡ b
      → while_loop sys (suc n) test body last w ≡ elim b as (λ x. Exit × W) [
        | false ↦ (exits last, (test w).1)
        | true ↦ and_next sys (body (test w).1) (λ code' w''. while_loop sys n test body code' w'')
      ]
  unfolding while_loop
  after_test test body n last w b e z =
      no_error (test w)
        (λ code w'. elim (is_zero code) as (λ x. Exit × W) [
          | false ↦ (exits last, w')
          | true ↦ and_next sys (body w') (λ code' w''. while_loop sys n test body code' w'')
        ])
        e
      ∙ ap
          (λ c. elim c as (λ x. Exit × W) [
            | false ↦ (exits last, (test w).1)
            | true ↦
                and_next sys (body (test w).1) (λ code' w''. while_loop sys n test body code' w'')
          ])
          z

  test_error :
      (test body : W → Exit × W) (n : ℕ) (last : ℤ) (w : W) (f : Failure)
      → (test w).0.error ≡ some f
      → while_loop sys (suc n) test body last w ≡ test w
  unfolding while_loop
  test_error test body n last w f e =
      an_error (test w)
        (λ code w'. elim (is_zero code) as (λ x. Exit × W) [
          | false ↦ (exits last, w')
          | true ↦ and_next sys (body w') (λ code' w''. while_loop sys n test body code' w'')
        ])
        f e

  while_loop-Ends :
      (test body : W → Exit × W) (n : ℕ) (last : ℤ) (w : W)
      → Ends test body n last w (while_loop sys n test body last w)
  unfolding while_loop Rounds after_rounds
  while_loop-Ends test body zero last w = inr (tt, refl)
  while_loop-Ends test body (suc n) last w = elim (Option-cases (test w).0.error) [
    | inr (f, e) ↦ inl (0, omega arith, tt, test_failed f e (test_error test body n last w f e))
    | inl e ↦ elim (Bool-cases (is_zero (test w).0.code)) [
      | inr no_more ↦
          inl
            (0, omega arith, tt, stopped e no_more (after_test test body n last w false e no_more))
      | inl holds ↦ elim (Option-cases (body (test w).1).0.error) [
        | inr (f, b) ↦ inl (
          0,
          omega arith,
          tt,
          body_failed f e holds b (
              after_test test body n last w true e holds
              ∙ an_error (body (test w).1) (λ code w'. while_loop sys n test body code w') f b),
        )
        | inl b ↦
            subst (Ends test body (suc n) last w)
              (sym (
                after_test test body n last w true e holds
                ∙ no_error (body (test w).1) (λ code w'. while_loop sys n test body code w') b))
              (one_more test body n last w _ (record { tested = e; holds = holds; ran = b })
                (while_loop-Ends test body n (body (test w).1).0.code (body (test w).1).1))
      ]
    ]
  ]

  -- A while loop always ends, after at most 10000 rounds. It ends where the test does not succeed,
  -- with the code of the last body, or 0 without any; where the test or the body fails, with that
  -- error; or after all 10000 rounds, with the error of the cap.
  pub while-Ends :
      (s : Streams H) (line : ℕ) (test : Statement) (body : Statements) (w : W)
      → Ends
          (run_one sys s test)
          (run_statements sys s body (pos 0))
          while_cap
          (pos 0)
          w
          (run_one sys s (loop_while line test body) w)
  unfolding run_statements
  while-Ends s line test body w =
      while_loop-Ends (run_one sys s test) (run_statements sys s body (pos 0)) while_cap (pos 0) w
