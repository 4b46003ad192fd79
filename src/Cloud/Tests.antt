-- ===== src/Cloud/Tests.antt =====
-- Requests that are tried again, and rows of the cost log.
use aish.Prelude.{
  ℕ, suc, zero, ◌+◌, ◌≤◌, ◌<◌, ◌≡◌, ◌⊎◌, refl, true, false, inl, inr, Option, none, some, List, [],
  ◌∷◌, Text, codes, arith,
}
use aish.Prelude.Int.{ℤ, pos}
use aish.Cloud.Retry.{HttpStatusError, RetryOptions, with_retries, only_error, retryable_of}
use aish.Cloud.Retry.Attempts.{Log, steady, fails, with_retries_lem}
use aish.Cloud.Retry.Schedule.{schedule, positives}
use aish.Cloud.Retry.Bound.{Counts, with_retries_le}
use aish.Cloud.CostLog.{Writer, RecordError, call_failed, record_cost, home_dir_from_env}
use aish.Cloud.CostLog.Rows.{IsRow, row_of, Written, record_cost_lem}

-- Two answers of 503, and then a value. An error is its status.
abbrev busy_twice : ℕ → ℕ × Option ℕ
busy_twice zero = (0, some 503)
busy_twice (suc zero) = (0, some 503)
busy_twice (suc (suc n)) = (7, none)

abbrev status : ℕ → Option (Option HttpStatusError)
status e = some (some (record { status_code = pos e; body = [] }))

abbrev defaults : RetryOptions ℕ
defaults = record { max_attempts = pos 0; backoff = none; retryable = none }

abbrev start : Log
start = record { made = 0; waited = [] }

busy_retried :
    (i : ℕ)
    → i < 2
    → fails busy_twice 0 status (retryable_of (steady busy_twice 0 status) none) (busy_twice i).1
      ≡ true
unfolding retryable_of
busy_retried zero h = refl
busy_retried (suc zero) h = refl
busy_retried (suc (suc n)) h = absurd (omega (arith, h))

abbrev default_gaps : List ℤ
default_gaps = pos 250000000 ∷ pos 500000000 ∷ pos 1000000000 ∷ []

with_retries_lem_example :
    with_retries (steady busy_twice 0 status) defaults start
    ≡ ((7, none), record { made = 3; waited = 250000000 ∷ 500000000 ∷ [] })
unfolding only_error schedule positives
with_retries_lem_example =
    with_retries_lem busy_twice 0 status defaults 3 2 default_gaps refl refl (omega arith)
      busy_retried (inl refl)

steady-Counts : Counts (steady busy_twice 0 status) (λ w. w.made)
steady-Counts = record { by_call = λ w. omega arith; by_wait = λ gap w. refl }

with_retries_le_example : (with_retries (steady busy_twice 0 status) defaults start).1.made ≤ 0 + 3
with_retries_le_example =
    with_retries_le (steady busy_twice 0 status) (λ w. w.made) steady-Counts defaults 3 start refl

-- A world of the rows that were written.
abbrev rows : Writer (List Text) ℕ ℕ
rows = record {
  is_negative = λ usd. false;
  new_req_id = λ w. (inr (codes "id"), w);
  now = λ w. (codes "noon", w);
  marshal = λ row. inr row.model;
  write = some (λ text w. (none, text ∷ w));
}

record_cost_lem_example :
    ((IsRow rows (codes "m") (pos 1) (pos 2) 3 → ⊥)
      × ((e : RecordError ℕ) × (record_cost rows (codes "m") (pos 1) (pos 2) 3 [] ≡ (some e, []))))
    ⊎ (IsRow rows (codes "m") (pos 1) (pos 2) 3
        × (((e : ℕ) × (v : List Text) × (rows.new_req_id [] ≡ (inl e, v))
              × (record_cost rows (codes "m") (pos 1) (pos 2) 3 [] ≡ (some (call_failed e), v)))
            ⊎ ((req_id : Text) × (v : List Text) × (rows.new_req_id [] ≡ (inr req_id, v))
                × (((e : ℕ) × (rows.marshal (row_of rows (codes "m") (pos 1) (pos 2) 3 req_id v)
                        ≡ inl e)
                      × (record_cost rows (codes "m") (pos 1) (pos 2) 3 []
                          ≡ (some (call_failed e), (rows.now v).1)))
                    ⊎ ((row : Text) × (rows.marshal
                            (row_of rows (codes "m") (pos 1) (pos 2) 3 req_id v)
                          ≡ inr row)
                        × Written rows row v
                            (record_cost rows (codes "m") (pos 1) (pos 2) 3 []))))))
record_cost_lem_example = record_cost_lem rows (codes "m") (pos 1) (pos 2) 3 []

home_first :
    home_dir_from_env (codes "USERPROFILE=u" ∷ codes "HOME=" ∷ codes "HOME=h" ∷ []) ≡ codes "h"
unfolding home_dir_from_env
home_first = refl
