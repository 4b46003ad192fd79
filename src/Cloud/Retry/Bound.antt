-- ===== src/Cloud/Retry/Bound.antt =====
-- How often the function is called.
use aish.Prelude.{
  ℕ, zero, suc, ◌+◌, ◌≤◌, ◌≡◌, Bool, true, false, not, if◌then◌else◌, Option, none, some, List,
  arith,
}
use aish.Prelude.Int.{ℤ, pos, negsuc}
use aish.Cloud.Retry.{
  Caller, RetryOptions, only, join_last, is_zero, gap_after, retryable_of, backoff_of, Outcome,
  retry_loop, after_call, after_pause, pause, with_retries, attempts_of,
}
use aish.Cloud.Retry.Schedule.{Allows, attempts_of-Allows}

-- A measure of the world that every call raises by one and that a wait keeps: how often the
-- function was called.
pub record Counts {W T E : Type 0} (sys : Caller W T E) (calls : W → ℕ) : Type 0 where
  pub by_call : (w : W) → calls (sys.call w).1 ≡ calls w + 1
  pub by_wait : (gap : ℕ) (w : W) → calls (sys.wait gap w).1 ≡ calls w

module _ {W T E : Type 0} (sys : Caller W T E) (calls : W → ℕ) (counts : Counts sys calls) where
  pause_le : (gap : ℤ) (w : W) → calls (pause sys gap w).1 ≤ calls w
  unfolding pause
  pause_le (pos zero) w = omega arith
  pause_le (pos (suc n)) w = omega (arith, counts.by_wait (suc n) w)
  pause_le (negsuc n) w = omega arith

  after_pause_le :
      (left : ℕ) (next : W → Outcome sys) (e : E) (r : Bool × W)
      → ((w : W) → calls (next w).1 ≤ calls w + left)
      → calls (after_pause sys next e r).1 ≤ calls r.1 + left
  unfolding after_pause
  after_pause_le left next e (true, w) h = omega arith
  after_pause_le left next e (false, w) h = h w

  after_call_le :
      (left : ℕ) (next : T → E → W → Outcome sys) (retryable : E → Bool) (is_last : Bool) (gap : ℤ)
      (r : (T × Option E) × W)
      → ((v : T) (e : E) (w : W) → calls (next v e w).1 ≤ calls w + left)
      → calls (after_call sys next retryable is_last gap r).1 ≤ calls r.1 + left
  unfolding after_call
  after_call_le left next retryable is_last gap ((v, none), w) h = omega arith
  after_call_le left next retryable is_last gap ((v, some e), w) h = either (retryable e) is_last
    where
      either :
          (b c : Bool)
          → calls
              (if not b
                then ((v, some (only e)), w)
                else if c
                then ((v, some (only e)), w)
                else after_pause sys (next v e) e (pause sys gap w)).1
            ≤ calls w + left
      either false c = omega arith
      either true true = omega arith
      either true false =
          omega (arith, after_pause_le left (next v e) e (pause sys gap w) (h v e), pause_le gap w)

  loop_le :
      (retryable : E → Bool) (gaps : List ℤ) (left attempt : ℕ) (result : T) (last : Option E)
      (w : W)
      → calls (retry_loop sys retryable gaps left attempt result last w).1 ≤ calls w + left
  unfolding retry_loop
  loop_le retryable gaps zero attempt result last w = omega arith
  loop_le retryable gaps (suc left) attempt result last w =
      round (sys.ctx_err w) (λ v e w'. loop_le retryable gaps left (suc attempt) v (some e) w')
    where
      round :
          (o : Option E)
          → ((v : T) (e : E) (w' : W)
              → calls (retry_loop sys retryable gaps left (suc attempt) v (some e) w').1
                ≤ calls w' + left)
          → calls
              (elim o as (λ x. Outcome sys) [
                | some e ↦ ((sys.zero_value, some (join_last sys last e)), w)
                | none ↦
                    after_call sys
                      (λ v e. retry_loop sys retryable gaps left (suc attempt) v (some e))
                      retryable
                      (is_zero sys left)
                      (gap_after gaps attempt)
                      (sys.call w)
              ]).1
            ≤ calls w + suc left
      round (some e) h = omega arith
      round none h = omega (
        arith,
        after_call_le left (λ v e. retry_loop sys retryable gaps left (suc attempt) v (some e))
            retryable (is_zero sys left) (gap_after gaps attempt) (sys.call w) h,
        counts.by_call w,
      )

  -- WithRetries calls the function at most MaxAttempts times, or 3 times where that is not positive,
  -- whatever the context, the timer and the errors do.
  pub with_retries_le :
      (opts : RetryOptions E) (n : ℕ) (w : W)
      → Allows opts.max_attempts n
      → calls (with_retries sys opts w).1 ≤ calls w + n
  unfolding with_retries
  with_retries_le opts n w h = omega (
    arith,
    attempts_of-Allows opts.max_attempts n h,
    loop_le (retryable_of sys opts.retryable) (backoff_of opts.backoff)
        (attempts_of opts.max_attempts) 0 sys.zero_value none w,
  )
