-- ===== src/Cache.antt =====
-- Resolve of shell/internal/cache/cache.go: from an intent to an invocation, over the tiers of the
-- cache. The stores and the plugin are operations on a world.
use aish.Prelude.{Bool, true, false, ◌⊎◌, inl, inr, Option, none, some, [], ◌∷◌, ◌++◌, Text, codes}

pub data Source : Type 0 where
  plugin_source community_source : Source

-- What a lookup of the exact intent answers.
pub data Looked : Type 0 where
  broken miss : Looked
  hit : Text → Looked

-- Store.Lookup, LookupNearest (with the cache's threshold; an error or a miss is `none`), and Write
-- and WriteWithSource, which say whether they succeed. `V` are embeddings, `C` confidences.
pub record Store (W V C : Type 0) : Type 0 where
  pub lookup : Text → Text → W → Looked × W
  pub lookup_nearest : V → Text → W → Option Text × W
  pub write : Text → Text → Text → C → Option V → Source → W → Bool × W
  pub certain : C

-- What the gateway answers to a request for an embedding; `none` is an empty one.
pub data Embedding (V : Type 0) : Type 0 where
  not_implemented : Embedding V
  refused embedded : Option V → Embedding V

pub record Plugin (W V C : Type 0) : Type 0 where
  pub embed : Text → W → Embedding V × W
  pub infer : Text → Text → W → Option (Text × C) × W

pub data ResolveError : Type 0 where
  lookup_failed promote_failed no_plugin similar_failed infer_failed write_failed : ResolveError

-- An error, or the invocation and whether it was in the cache.
abbrev pub Answer : Type 0
Answer = ResolveError ⊎ (Text × Bool)

-- The bundle may be absent, and so may the plugin; the prompt is empty without a source of one.
module _ {W V C : Type 0} (store : Store W V C) (community : Option (Text → Text → Option Text))
    (plugin : Option (Plugin W V C)) (system_prompt : Text) where
  -- An answer that is returned if a write succeeds.
  unfoldable pub after_write : ResolveError → Text → Bool → Bool × W → Answer × W
  after_write e invocation cached (true, w) = (inr (invocation, cached), w)
  after_write e invocation cached (false, w) = (inl e, w)

  -- inferIntent
  unfoldable pub infer_intent : Text → Text
  infer_intent intent = elim system_prompt [
    | [] ↦ intent
    | c ∷ sp ↦ c ∷ sp ++ (codes "\n\n<user>\n" ++ (intent ++ codes "\n</user>"))
  ]

  -- Tier 3
  unfoldable pub infer_tier : Plugin W V C → Text → Text → Option V → W → Answer × W
  unfolding after_write infer_intent
  infer_tier p intent os vector w =
      let (answer, w') = p.infer (infer_intent intent) os w in
      elim answer [
        | none ↦ (inl infer_failed, w')
        | some (invocation, confidence) ↦
            after_write write_failed invocation false
              (store.write intent os invocation confidence vector plugin_source w')
      ]

  -- Tier 2
  unfoldable pub similar_tier : Plugin W V C → Text → Text → V → W → Answer × W
  unfolding after_write infer_tier
  similar_tier p intent os v w =
      let (nearest, w') = store.lookup_nearest v os w in
      elim nearest [
        | none ↦ infer_tier p intent os (some v) w'
        | some invocation ↦
            after_write similar_failed invocation true
              (store.write intent os invocation store.certain (some v) plugin_source w')
      ]

  unfoldable pub plugin_tiers : Plugin W V C → Text → Text → Embedding V × W → Answer × W
  unfolding infer_tier similar_tier
  plugin_tiers p intent os (not_implemented, w) = infer_tier p intent os none w
  plugin_tiers p intent os (refused vector, w) = infer_tier p intent os vector w
  plugin_tiers p intent os (embedded none, w) = infer_tier p intent os none w
  plugin_tiers p intent os (embedded (some v), w) = similar_tier p intent os v w

  from_community : Text → Text → Option Text
  from_community intent os = elim community [ none ↦ none | some find ↦ find intent os ]

  -- After a miss of the exact intent.
  unfoldable pub missed : Text → Text → W → Answer × W
  unfolding after_write plugin_tiers from_community
  missed intent os w = elim (from_community intent os) [
    | some invocation ↦
        after_write promote_failed invocation true
          (store.write intent os invocation store.certain none community_source w)
    | none ↦ elim plugin [
      | none ↦ (inl no_plugin, w)
      | some p ↦ plugin_tiers p intent os (p.embed intent w)
    ]
  ]

  from_lookup : Text → Text → Looked × W → Answer × W
  unfolding missed
  from_lookup intent os (broken, w) = (inl lookup_failed, w)
  from_lookup intent os (hit invocation, w) = (inr (invocation, true), w)
  from_lookup intent os (miss, w) = missed intent os w

  -- Resolve
  unfoldable pub resolve : Text → Text → W → Answer × W
  unfolding from_lookup
  resolve intent os w = from_lookup intent os (store.lookup intent os w)
