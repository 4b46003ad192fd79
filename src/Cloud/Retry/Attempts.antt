-- ===== src/Cloud/Retry/Attempts.antt =====
-- What comes of the attempts where the context is never done.
use aish.Prelude.{
  ℕ, zero, suc, ◌+◌, ◌<◌, ◌≡◌, refl, ap, sym, ◌∙◌, subst, Bool, true, false, not, ◌⊎◌, inl, inr,
  Option, none, some, List, [], ◌∷◌, ◌++◌, append-nil, append_assoc, if◌then◌else◌, arith,
}
use aish.Prelude.Int.{ℤ, pos, negsuc}
use aish.Cloud.Retry.{
  HttpStatusError, Caller, RetryOptions, only, only_error, gap_after, retryable_of, backoff_of,
  attempts_of, is_zero, Outcome, after_call, after_pause, pause, retry_loop, with_retries,
}
use aish.Cloud.Retry.Schedule.{
  Allows, attempts_of-Allows, Backs, backoff_of-Backs, schedule, positives, gap_after_first,
  gap_after_only, gap_after_later,
}

-- The calls that were made and the gaps that were waited for.
pub record Log : Type 0 where
  pub made : ℕ
  pub waited : List ℕ

module _ {T E : Type 0} (outcome : ℕ → T × Option E) (zero_value : T)
    (as_status : E → Option (Option HttpStatusError)) where
  -- The function's outcome depends on the number of the attempt, and the context is never done.
  abbrev pub steady : Caller Log T E
  steady = record {
    ctx_err = λ w. none;
    call = λ w. (outcome w.made, record { made = suc w.made; waited = w.waited });
    wait = λ gap w. (false, record { made = w.made; waited = w.waited ++ gap ∷ [] });
    zero_value = zero_value;
    as_status = as_status;
  }

  -- Whether an attempt fails with an error that is retried.
  abbrev pub fails : (E → Bool) → Option E → Bool
  fails retryable none = false
  fails retryable (some e) = retryable e

  add_gap : ℤ → List ℕ → List ℕ
  add_gap (pos zero) gaps = gaps
  add_gap (pos (suc n)) gaps = suc n ∷ gaps
  add_gap (negsuc n) gaps = gaps

  -- The positive gaps after `d` attempts, from a number on.
  unfoldable pub gaps_between : List ℤ → ℕ → ℕ → List ℕ
  unfolding add_gap
  gaps_between gaps attempt zero = []
  gaps_between gaps attempt (suc d) =
      add_gap (gap_after gaps attempt) (gaps_between gaps (suc attempt) d)

  abbrev log : ℕ → List ℕ → Log
  log made waited = record { made = made; waited = waited }

  -- The last attempt.
  ended :
      (next : T → E → Log → Outcome steady) (retryable : E → Bool) (is_last : Bool) (gap : ℤ)
      (r : T × Option E) (w : Log)
      → (fails retryable r.1 ≡ false) ⊎ (is_last ≡ true)
      → after_call steady next retryable is_last gap (r, w) ≡ ((r.0, only_error steady r.1), w)
  unfolding after_call only_error
  ended next retryable is_last gap (v, none) w h = refl
  ended next retryable is_last gap (v, some e) w (inl h) = rw (h) refl
  ended next retryable is_last gap (v, some e) w (inr h) = either (retryable e)
    where
      either :
          (b : Bool)
          → (if not b
              then ((v, some (only e)), w)
              else if is_last
              then ((v, some (only e)), w)
              else after_pause steady (next v e) e (pause steady gap w))
            ≡ ((v, some (only e)), w)
      either false = refl
      either true = rw (h) refl

  pauses :
      (next : Log → Outcome steady) (e : E) (gap : ℤ) (made : ℕ) (ws : List ℕ)
      → after_pause steady next e (pause steady gap (log made ws))
        ≡ next (log made (ws ++ add_gap gap []))
  unfolding after_pause pause add_gap
  pauses next e (pos zero) made ws = ap (λ v. next (log made v)) (sym (append-nil ws))
  pauses next e (pos (suc n)) made ws = refl
  pauses next e (negsuc n) made ws = ap (λ v. next (log made v)) (sym (append-nil ws))

  -- An attempt that another follows.
  retried :
      (next : T → E → Log → Outcome steady) (retryable : E → Bool) (gap : ℤ) (r : T × Option E)
      (made : ℕ) (ws : List ℕ) (answer : Outcome steady)
      → fails retryable r.1 ≡ true
      → ((v : T) (e : E) → next v e (log made (ws ++ add_gap gap [])) ≡ answer)
      → after_call steady next retryable false gap (r, log made ws) ≡ answer
  unfolding after_call
  retried next retryable gap (v, none) made ws answer h k = cc
  retried next retryable gap (v, some e) made ws answer h k =
      rw (h) (pauses (next v e) e gap made ws ∙ k v e)

  add_gap-append : (gap : ℤ) (ws vs : List ℕ) → (ws ++ add_gap gap []) ++ vs ≡ ws ++ add_gap gap vs
  unfolding add_gap
  add_gap-append (pos zero) ws vs = ap (λ l. l ++ vs) (append-nil ws)
  add_gap-append (pos (suc n)) ws vs = append_assoc ws (suc n ∷ []) vs
  add_gap-append (negsuc n) ws vs = ap (λ l. l ++ vs) (append-nil ws)

  -- The loop at an attempt, `d` attempts before it ends.
  steady_loop :
      (retryable : E → Bool) (gaps : List ℤ) (d left attempt k : ℕ) (result : T) (last : Option E)
      (ws : List ℕ)
      → attempt + d ≡ k
      → d < left
      → ((i : ℕ) → i < k → fails retryable (outcome i).1 ≡ true)
      → (fails retryable (outcome k).1 ≡ false) ⊎ (suc d ≡ left)
      → retry_loop steady retryable gaps left attempt result last (log attempt ws) ≡ (
        ((outcome k).0, only_error steady (outcome k).1),
        log (suc k) (ws ++ gaps_between gaps attempt d),
      )
  unfolding retry_loop gaps_between
  steady_loop retryable gaps d zero attempt k result last ws e lt h f = absurd (omega (arith, lt))
  steady_loop retryable gaps zero (suc left) attempt k result last ws e lt h f =
      subst
        (λ n.
          (fails retryable (outcome n).1 ≡ false) ⊎ (1 ≡ suc left)
          → retry_loop steady retryable gaps (suc left) attempt result last (log attempt ws)
            ≡ (((outcome n).0, only_error steady (outcome n).1), log (suc n) (ws ++ [])))
        (omega (arith, e))
        (λ g.
          ended (λ v err. retry_loop steady retryable gaps left (suc attempt) v (some err))
            retryable (is_zero steady left) (gap_after gaps attempt) (outcome attempt)
            (log (suc attempt) ws) (now left g)
          ∙ ap
              (λ v.
                (((outcome attempt).0, only_error steady (outcome attempt).1), log (suc attempt) v))
              (sym (append-nil ws)))
        f
    where
      now :
          (left : ℕ)
          → (fails retryable (outcome attempt).1 ≡ false) ⊎ (1 ≡ suc left)
          → (fails retryable (outcome attempt).1 ≡ false) ⊎ (is_zero steady left ≡ true)
      now left (inl g) = inl g
      now zero (inr g) = inr refl
      now (suc n) (inr g) = absurd (omega (arith, g))
  steady_loop retryable gaps (suc d) (suc zero) attempt k result last ws e lt h f =
      absurd (omega (arith, lt))
  steady_loop retryable gaps (suc d) (suc (suc left)) attempt k result last ws e lt h f =
      retried (λ v err. retry_loop steady retryable gaps (suc left) (suc attempt) v (some err))
        retryable (gap_after gaps attempt) (outcome attempt) (suc attempt) ws _
        (h attempt (omega (arith, e)))
        (λ v err.
          steady_loop retryable gaps d (suc left) (suc attempt) k v (some err)
            (ws ++ add_gap (gap_after gaps attempt) []) (omega (arith, e)) (omega (arith, lt)) h
            (later f)
          ∙ ap (λ l. (((outcome k).0, only_error steady (outcome k).1), log (suc k) l))
              (add_gap-append (gap_after gaps attempt) ws (gaps_between gaps (suc attempt) d)))
    where
      later :
          (fails retryable (outcome k).1 ≡ false) ⊎ (suc (suc d) ≡ suc (suc left))
          → (fails retryable (outcome k).1 ≡ false) ⊎ (suc d ≡ suc left)
      later (inl g) = inl g
      later (inr g) = inr (omega (arith, g))

  add-positives : (g : ℤ) (gaps : List ℤ) → add_gap g (positives gaps) ≡ positives (g ∷ gaps)
  unfolding add_gap positives
  add-positives (pos zero) gaps = refl
  add-positives (pos (suc n)) gaps = refl
  add-positives (negsuc n) gaps = refl

  between_only : (g : ℤ) (a d : ℕ) → gaps_between (g ∷ []) a d ≡ positives (schedule (g ∷ []) d)
  unfolding gaps_between schedule
  between_only g a zero = unfold positives in refl
  between_only g a (suc d) =
      rw (gap_after_only g a, between_only g (suc a) d) (add-positives g (schedule (g ∷ []) d))

  between_later :
      (g h : ℤ) (gaps : List ℤ) (a d : ℕ)
      → gaps_between (g ∷ h ∷ gaps) (suc a) d ≡ gaps_between (h ∷ gaps) a d
  unfolding gaps_between
  between_later g h gaps a zero = refl
  between_later g h gaps a (suc d) =
      rw (gap_after_later g h gaps a, between_later g h gaps (suc a) d) refl

  between_none : (a d : ℕ) → gaps_between [] a d ≡ []
  unfolding gaps_between add_gap gap_after
  between_none a zero = refl
  between_none a (suc d) = between_none (suc a) d

  between-schedule : (gaps : List ℤ) (d : ℕ) → gaps_between gaps 0 d ≡ positives (schedule gaps d)
  unfolding gaps_between schedule
  between-schedule [] zero = unfold positives in refl
  between-schedule [] (suc d) = unfold positives in between_none 0 (suc d)
  between-schedule (g ∷ []) d = between_only g 0 d
  between-schedule (g ∷ h ∷ gaps) zero = unfold positives in refl
  between-schedule (g ∷ h ∷ gaps) (suc d) =
      rw (gap_after_first g (h ∷ gaps), between_later g h gaps 0 d, between-schedule (h ∷ gaps) d)
        (add-positives g (schedule (h ∷ gaps) d))

  -- Where the context is never done, WithRetries makes the attempts up to the first that succeeds or
  -- fails with an error that is not retried, or up to the last that it may make, the MaxAttempts-th,
  -- or the third where MaxAttempts is not positive, and returns what that attempt returned. It waits
  -- for the positive ones of the gaps between them, in their order, the last gap being used again
  -- where there are more attempts than gaps; without a backoff the gaps are 250 ms, 500 ms and 1 s.
  pub with_retries_lem :
      (opts : RetryOptions E) (n k : ℕ) (gaps : List ℤ)
      → Allows opts.max_attempts n
      → Backs opts.backoff gaps
      → k < n
      → ((i : ℕ) → i < k → fails (retryable_of steady opts.retryable) (outcome i).1 ≡ true)
      → (fails (retryable_of steady opts.retryable) (outcome k).1 ≡ false) ⊎ (suc k ≡ n)
      → with_retries steady opts (record { made = 0; waited = [] }) ≡ (
        ((outcome k).0, only_error steady (outcome k).1),
        record { made = suc k; waited = positives (schedule gaps k) },
      )
  unfolding with_retries
  with_retries_lem opts n k gaps allowed backs lt h f =
      let e = attempts_of-Allows opts.max_attempts n allowed in
      steady_loop (retryable_of steady opts.retryable) (backoff_of opts.backoff) k
        (attempts_of opts.max_attempts) 0 k zero_value none [] (omega arith) (omega (arith, e, lt))
        h
        (subst
          (λ m. (fails (retryable_of steady opts.retryable) (outcome k).1 ≡ false) ⊎ (suc k ≡ m))
          (sym e) f)
      ∙ ap
          (λ l.
            (((outcome k).0, only_error steady (outcome k).1), record { made = suc k; waited = l }))
          (between-schedule (backoff_of opts.backoff) k
            ∙ ap (λ b. positives (schedule b k)) (backoff_of-Backs opts.backoff gaps backs))
