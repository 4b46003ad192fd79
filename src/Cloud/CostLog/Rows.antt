-- ===== src/Cloud/CostLog/Rows.antt =====
-- Which calls of Record write a row, and where the log is kept.
use aish.Prelude.{
  ℕ, ◌≡◌, ◌≢◌, refl, false, ◌⊎◌, inl, inr, Option, none, some, [], ◌∷◌, ◌++◌, Text, text_eq,
  Bool-cases, Option-cases,
}
use aish.Prelude.Int.{ℤ, pos, negsuc}
use aish.Cloud.CostLog.{
  RecordError, call_failed, negative_usd, CostRow, Writer, tested, check_record, as_error,
  write_row, with_req_id, record_cost,
}

module _ {W F E : Type 0} (sys : Writer W F E) where
  either_cases : (r : E ⊎ Text) → ((e : E) × (r ≡ inl e)) ⊎ ((t : Text) × (r ≡ inr t))
  either_cases (inl e) = inl (e, refl)
  either_cases (inr t) = inr (t, refl)

  answer_cases :
      (r : (E ⊎ Text) × W)
      → ((e : E) × (v : W) × (r ≡ (inl e, v))) ⊎ ((t : Text) × (v : W) × (r ≡ (inr t, v)))
  answer_cases (inl e, v) = inl (e, v, refl)
  answer_cases (inr t, v) = inr (t, v, refl)

  abbrev pub NonNegative : ℤ → Type 0
  NonNegative z = (n : ℕ) × (z ≡ pos n)

  -- The model is not empty and no number is negative.
  abbrev pub IsRow : Text → ℤ → ℤ → F → Type 0
  IsRow model tokens_in tokens_out usd =
      (model ≢ []) × NonNegative tokens_in × NonNegative tokens_out × (sys.is_negative usd ≡ false)

  check_record_iff :
      (model : Text) (tokens_in tokens_out : ℤ) (usd : F)
      → (IsRow model tokens_in tokens_out usd
          × (check_record sys model tokens_in tokens_out usd ≡ none))
        ⊎ ((IsRow model tokens_in tokens_out usd → ⊥)
            × ((e : RecordError E) × (check_record sys model tokens_in tokens_out usd ≡ some e)))
  unfolding check_record tested text_eq
  check_record_iff [] a b usd = inr (λ h. h.0 refl, (_, refl))
  check_record_iff (c ∷ model) (negsuc a) b usd = inr (λ h. absurd (cc h.1.1), (_, refl))
  check_record_iff (c ∷ model) (pos a) (negsuc b) usd = inr (λ h. absurd (cc h.2.1), (_, refl))
  check_record_iff (c ∷ model) (pos a) (pos b) usd = elim (Bool-cases (sys.is_negative usd)) [
    | inl e ↦ inr (λ h. absurd (cc (e, h.3)), (negative_usd, rw (e, check_record) refl))
    | inr e ↦ inl ((λ p. absurd (cc p), (a, refl), (b, refl), e), rw (e, check_record) refl)
  ]

  -- What is marshalled: the arguments, with the time of the clock and the id.
  abbrev pub row_of : Text → ℤ → ℤ → F → Text → W → CostRow F
  row_of model tokens_in tokens_out usd req_id v = record {
    chronon = (sys.now v).0;
    model = model;
    tokens_in = tokens_in;
    tokens_out = tokens_out;
    usd = usd;
    req_id = req_id;
  }

  -- What becomes of a row: without a writer nothing is written; the writer gets the row and a
  -- newline, once, and its error is returned.
  abbrev pub Written : Text → W → Option (RecordError E) × W → Type 0
  Written row v r =
      ((sys.write ≡ none) × (r ≡ (none, (sys.now v).1)))
      ⊎ ((write : Text → W → Option E × W) × (sys.write ≡ some write)
          × (r.1 ≡ (write (row ++ b'\n' ∷ []) (sys.now v).1).1)
          × (((write (row ++ b'\n' ∷ []) (sys.now v).1).0 ≡ none × (r.0 ≡ none))
              ⊎ ((e : E) × ((write (row ++ b'\n' ∷ []) (sys.now v).1).0 ≡ some e)
                  × (r.0 ≡ some (call_failed e)))))

  write_row-Written : (row : Text) (v : W) → Written row v (write_row sys (inr row) (sys.now v).1)
  unfolding write_row as_error
  write_row-Written row v = elim (Option-cases sys.write) [
    | inl e ↦ inl (e, rw (e, write_row) refl)
    | inr (write, e) ↦ elim (Option-cases (write (row ++ b'\n' ∷ []) (sys.now v).1).0) [
      | inl f ↦ inr (write, e, rw (e, write_row) refl, inl (f, rw (e, write_row, f) refl))
      | inr (err, f) ↦
          inr (write, e, rw (e, write_row) refl, inr (err, f, rw (e, write_row, f) refl))
    ]
  ]

  -- Record refuses a row with an empty model or a negative number, and then calls nothing. On any
  -- other it returns the error of the id or of marshalling, if one fails, and writes nothing; where
  -- both succeed it writes the row with a newline after it, once, to the writer if there is one,
  -- whose error it returns.
  pub record_cost_lem :
      (model : Text) (tokens_in tokens_out : ℤ) (usd : F) (w : W)
      → ((IsRow model tokens_in tokens_out usd → ⊥)
          × ((e : RecordError E) × (record_cost sys model tokens_in tokens_out usd w
                ≡ (some e, w))))
        ⊎ (IsRow model tokens_in tokens_out usd
            × (((e : E) × (v : W) × (sys.new_req_id w ≡ (inl e, v))
                  × (record_cost sys model tokens_in tokens_out usd w ≡ (some (call_failed e), v)))
                ⊎ ((req_id : Text) × (v : W) × (sys.new_req_id w ≡ (inr req_id, v))
                    × (((e : E) × (sys.marshal (row_of model tokens_in tokens_out usd req_id v)
                            ≡ inl e)
                          × (record_cost sys model tokens_in tokens_out usd w
                              ≡ (some (call_failed e), (sys.now v).1)))
                        ⊎ ((row : Text) × (sys.marshal
                                (row_of model tokens_in tokens_out usd req_id v)
                              ≡ inr row)
                            × Written row v (record_cost sys model tokens_in tokens_out usd w))))))
  unfolding record_cost with_req_id
  record_cost_lem model tokens_in tokens_out usd w =
      elim (check_record_iff model tokens_in tokens_out usd) [
        | inr (bad, (f, e)) ↦ inl (bad, (f, rw (e, record_cost) refl))
        | inl (ok, e) ↦ inr (
          ok,
          elim (answer_cases (sys.new_req_id w)) [
            | inl (err, v, h) ↦ inl (err, v, h, rw (e, h, record_cost) refl)
            | inr (req_id, v, h) ↦ inr (
              req_id,
              v,
              h,
              elim (either_cases (sys.marshal (row_of model tokens_in tokens_out usd req_id v))) [
                | inl (err, k) ↦ inl (err, k, rw (e, h, k, record_cost) (unfold write_row in refl))
                | inr (row, k) ↦ inr (row, k, rw (e, h, k, record_cost) (write_row-Written row v))
              ],
            )
          ],
        )
      ]
