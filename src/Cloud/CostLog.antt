-- ===== src/Cloud/CostLog.antt =====
-- The cost log of plugins/cloud/internal/reliab/reliab.go: where it is, and which rows it takes.
pub mod Rows
use aish.Prelude.{
  ℕ, zero, suc, ◌≡◌, refl, ap, ◌∙◌, Bool, true, false, ◌⊎◌, inl, inr, Option, none, some, List, [],
  ◌∷◌, ◌++◌, if◌then◌else◌, Text, codes, cut_prefix, text_eq,
}
use aish.Prelude.Int.{ℤ, pos, negsuc}

-- `len(kv) > len(prefix)` and the prefix: the value, which is not empty.
unfoldable pub value_after : Text → Text → Option Text
unfolding cut_prefix
value_after prefix kv = elim (cut_prefix prefix kv) [
  | none ↦ none
  | some [] ↦ none
  | some (c ∷ v) ↦ some (c ∷ v)
]

-- The loop of homeDirFromEnv.
unfoldable pub home_dir_from : Text → List Text → Text
unfolding value_after
home_dir_from fallback [] = fallback
home_dir_from fallback (kv ∷ env) = elim (value_after (codes "HOME=") kv) [
  | some v ↦ v
  | none ↦ elim (value_after (codes "USERPROFILE=") kv) [
    | some v ↦ home_dir_from v env
    | none ↦ home_dir_from fallback env
  ]
]

unfoldable pub home_dir_from_env : List Text → Text
unfolding home_dir_from
home_dir_from_env env = home_dir_from [] env

-- The errors of Record: one for each check, or an error of the calls it makes.
pub data RecordError (E : Type 0) : Type 0 where
  empty_model negative_tokens_in negative_tokens_out negative_usd : RecordError E
  call_failed : E → RecordError E

-- costRow
pub record CostRow (F : Type 0) : Type 0 where
  pub chronon : Text
  pub model : Text
  pub tokens_in : ℤ
  pub tokens_out : ℤ
  pub usd : F
  pub req_id : Text

-- What Record calls: `usd < 0` on floats, newReqID, the clock, json.Marshal and the writer, which
-- may be nil.
pub record Writer (W F E : Type 0) : Type 0 where
  pub is_negative : F → Bool
  pub new_req_id : W → (E ⊎ Text) × W
  pub now : W → Text × W
  pub marshal : CostRow F → E ⊎ Text
  pub write : Option (Text → W → Option E × W)

abbrev pub below_zero : ℤ → Bool
below_zero (pos n) = false
below_zero (negsuc n) = true

module _ {W F E : Type 0} (sys : Writer W F E) where
  -- The four checks, by their outcomes.
  unfoldable pub tested : Bool → Bool → Bool → Bool → Option (RecordError E)
  tested no_model in_negative out_negative usd_negative =
      if no_model
      then some empty_model
      else if in_negative
      then some negative_tokens_in
      else if out_negative
      then some negative_tokens_out
      else if usd_negative
      then some negative_usd
      else none

  unfoldable pub check_record : Text → ℤ → ℤ → F → Option (RecordError E)
  unfolding tested text_eq
  check_record model tokens_in tokens_out usd =
      tested (text_eq model []) (below_zero tokens_in) (below_zero tokens_out) (sys.is_negative usd)

  unfoldable pub as_error : Option E → Option (RecordError E)
  as_error none = none
  as_error (some e) = some (call_failed e)

  unfoldable pub write_row : E ⊎ Text → W → Option (RecordError E) × W
  unfolding as_error
  write_row (inl e) w = (some (call_failed e), w)
  write_row (inr row) w = elim sys.write [
    | none ↦ (none, w)
    | some write ↦ let (err, w') = write (row ++ b'\n' ∷ []) w in (as_error err, w')
  ]

  unfoldable pub with_req_id : Text → ℤ → ℤ → F → (E ⊎ Text) × W → Option (RecordError E) × W
  unfolding write_row
  with_req_id model tokens_in tokens_out usd (inl e, w) = (some (call_failed e), w)
  with_req_id model tokens_in tokens_out usd (inr req_id, w) =
      let (chronon, w') = sys.now w in
      write_row
        (sys.marshal (record {
          chronon = chronon;
          model = model;
          tokens_in = tokens_in;
          tokens_out = tokens_out;
          usd = usd;
          req_id = req_id;
        }))
        w'

  -- Record
  unfoldable pub record_cost : Text → ℤ → ℤ → F → W → Option (RecordError E) × W
  unfolding check_record with_req_id
  record_cost model tokens_in tokens_out usd w =
      elim (check_record model tokens_in tokens_out usd) [
        | some e ↦ (some e, w)
        | none ↦ with_req_id model tokens_in tokens_out usd (sys.new_req_id w)
      ]
