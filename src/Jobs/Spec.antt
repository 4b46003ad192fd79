-- ===== src/Jobs/Spec.antt =====
-- What the loops over the map's ids compute, said without an order.
use aish.Prelude.{ℕ, max, not, List, [], ◌∷◌, ◌==◌, keep}
use aish.Jobs.{Job}

-- The largest id, 0 if there is none.
unfoldable pub max_id : List Job → ℕ
max_id [] = 0
max_id (j ∷ js) = max j.id (max_id js)

abbrev pub without : ℕ → List Job → List Job
without id = keep (λ (j : Job). not (j.id == id))

-- The largest id but one.
abbrev pub second_id : List Job → ℕ
second_id js = max_id (without (max_id js) js)
