-- ===== src/Cloud/Retry.antt =====
-- WithRetries of plugins/cloud/internal/reliab/reliab.go. The context, the function that is called
-- and the timer are operations on a world.
pub mod Attempts
pub mod Bound
pub mod Schedule
use aish.Prelude.{
  ℕ, zero, suc, ◌+◌, Bool, true, false, not, ◌&&◌, ◌||◌, Option, none, some, List, [], ◌∷◌, ◌==◌,
  leb, ltb, if◌then◌else◌, length, get_or, Text,
}
use aish.Prelude.Int.{ℤ, pos, negsuc}

pub record HttpStatusError : Type 0 where
  pub status_code : ℤ
  pub body : Text

retryable_code : ℤ → Bool
retryable_code (pos n) = (n == 429) || (leb 500 n && leb n 599)
retryable_code (negsuc n) = false

-- IsRetryable, of a pointer that may be nil
unfoldable pub is_retryable : Option HttpStatusError → Bool
unfolding retryable_code
is_retryable none = false
is_retryable (some e) = retryable_code e.status_code

-- The durations are in nanoseconds.
abbrev pub default_backoff : List ℤ
default_backoff = pos 250000000 ∷ pos 500000000 ∷ pos 1000000000 ∷ []

pub record RetryOptions (E : Type 0) : Type 0 where
  pub max_attempts : ℤ
  pub backoff : Option (List ℤ)
  pub retryable : Option (E → Bool)

-- An error of the function or the context, or the last error joined with that of the context.
pub data RetryError (E : Type 0) : Type 0 where
  only : E → RetryError E
  joined : E → Option E → RetryError E

-- ctx.Err, fn, and the wait for a timer, which tells whether the context was done before; also the
-- zero value, and errors.As with an HTTPStatusError.
pub record Caller (W T E : Type 0) : Type 0 where
  pub ctx_err : W → Option E
  pub call : W → (T × Option E) × W
  pub wait : ℕ → W → Bool × W
  pub zero_value : T
  pub as_status : E → Option (Option HttpStatusError)

unfoldable pub attempts_of : ℤ → ℕ
attempts_of (pos zero) = 3
attempts_of (pos (suc n)) = suc n
attempts_of (negsuc n) = 3

unfoldable pub backoff_of : Option (List ℤ) → List ℤ
backoff_of none = default_backoff
backoff_of (some gaps) = gaps

last_gap : ℤ → List ℤ → ℤ
last_gap g [] = g
last_gap g (h ∷ gaps) = last_gap h gaps

-- The gap after an attempt.
unfoldable pub gap_after : List ℤ → ℕ → ℤ
unfolding last_gap
gap_after [] attempt = pos 0
gap_after (g ∷ gaps) attempt = get_or (g ∷ gaps) attempt (last_gap g gaps)

abbrev is_done : {E : Type 0} → Option E → Bool
is_done none = false
is_done (some e) = true

module _ {W T E : Type 0} (sys : Caller W T E) where
  abbrev pub Outcome : Type 0
  Outcome = (T × Option (RetryError E)) × W

  -- defaultRetryable, of an error that is not nil
  unfoldable pub default_retryable : E → Bool
  unfolding is_retryable
  default_retryable e = elim (sys.as_status e) [ none ↦ true | some status ↦ is_retryable status ]

  unfoldable pub retryable_of : Option (E → Bool) → E → Bool
  unfolding default_retryable
  retryable_of none e = default_retryable e
  retryable_of (some retryable) e = retryable e

  -- The wait between two attempts; without a gap the context is looked at only.
  unfoldable pub pause : ℤ → W → Bool × W
  pause (pos zero) w = (is_done (sys.ctx_err w), w)
  pause (pos (suc n)) w = sys.wait (suc n) w
  pause (negsuc n) w = (is_done (sys.ctx_err w), w)

  -- `errors.Join(lastErr, err)`, or `err` where there is no last error.
  unfoldable pub join_last : Option E → E → RetryError E
  join_last none e = only e
  join_last (some last) e = joined last (some e)

  unfoldable pub only_error : Option E → Option (RetryError E)
  only_error none = none
  only_error (some e) = some (only e)

  -- What follows the wait, with the next round.
  unfoldable pub after_pause : (W → Outcome) → E → Bool × W → Outcome
  after_pause next e (true, w) = ((sys.zero_value, some (joined e (sys.ctx_err w))), w)
  after_pause next e (false, w) = next w

  -- What follows a call, on the last attempt or not.
  unfoldable pub after_call :
      (T → E → W → Outcome) → (E → Bool) → Bool → ℤ → (T × Option E) × W → Outcome
  unfolding pause after_pause
  after_call next retryable is_last gap ((v, none), w) = ((v, none), w)
  after_call next retryable is_last gap ((v, some e), w) =
      if not (retryable e)
      then ((v, some (only e)), w)
      else if is_last
      then ((v, some (only e)), w)
      else after_pause (next v e) e (pause gap w)

  abbrev pub is_zero : ℕ → Bool
  is_zero zero = true
  is_zero (suc n) = false

  -- The loop, with the attempts that are left, those that were made, `result` and `lastErr`.
  unfoldable pub retry_loop : (E → Bool) → List ℤ → ℕ → ℕ → T → Option E → W → Outcome
  unfolding after_call gap_after join_last only_error
  retry_loop retryable gaps zero attempt result last w = ((result, only_error last), w)
  retry_loop retryable gaps (suc left) attempt result last w = elim (sys.ctx_err w) [
    | some e ↦ ((sys.zero_value, some (join_last last e)), w)
    | none ↦
        after_call (λ v e. retry_loop retryable gaps left (suc attempt) v (some e)) retryable
          (is_zero left) (gap_after gaps attempt) (sys.call w)
  ]

  -- WithRetries
  unfoldable pub with_retries : RetryOptions E → W → Outcome
  unfolding retry_loop retryable_of attempts_of backoff_of
  with_retries opts w =
      retry_loop (retryable_of opts.retryable) (backoff_of opts.backoff)
        (attempts_of opts.max_attempts) 0 sys.zero_value none w
